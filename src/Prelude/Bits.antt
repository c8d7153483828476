-- ===== src/Prelude/Bits.antt =====
-- `|` of disjoint fields and `& 1` as arithmetic, and a number as the sum of its binary digits.
use Prim.Native.Nat.{max, min, bit_and, bit_or, digits, bit_and-bitwise, bit_or-bitwise}
use Prim.Native.Nat.{ℕ, zero, suc, ◌+◌, ◌*◌, ◌/◌, ◌%◌, ◌^◌, ◌≤◌, ◌<◌}
use mathlib.Core.Path.{◌≡◌, refl, ap}
use native.Mathlib.Omega.{arith}
use native.Mathlib.Nat.{pow-suc, pow-succ', div-div-eq-div-mul, div-add-mod, mod-eq_of_lt}

-- The recursion behind the native operations needs no more fuel than its first operand.
module _ (f : ℕ → ℕ → ℕ) (g : ℕ → ℕ) where
  enough_fuel : (k l x y : ℕ) → x ≤ k → x ≤ l → digits g f k x y ≡ digits g f l x y
  enough_fuel zero zero x y hk hl = refl
  enough_fuel zero (suc l) zero y hk hl = refl
  enough_fuel zero (suc l) (suc x) y hk hl = absurd (omega arith)
  enough_fuel (suc k) zero zero y hk hl = refl
  enough_fuel (suc k) zero (suc x) y hk hl = absurd (omega arith)
  enough_fuel (suc k) (suc l) zero y hk hl = refl
  enough_fuel (suc k) (suc l) (suc x) y hk hl =
      rw (enough_fuel k l (suc x / 2) (y / 2) (omega arith) (omega arith))

or_low_digit : (x y : ℕ) → bit_or x y ≡ bit_or (x / 2) (y / 2) * 2 + max (x % 2) (y % 2)
or_low_digit zero y = omega (arith, bit_or-bitwise 0 y, bit_or-bitwise 0 (y / 2))
or_low_digit (suc x) y = omega (
  arith,
  bit_or-bitwise (suc x) y,
  bit_or-bitwise (suc x / 2) (y / 2),
  enough_fuel max (λ b. b) x (suc x / 2) (suc x / 2) (y / 2) (omega arith) (omega arith),
)

and_low_digit : (x y : ℕ) → bit_and x y ≡ bit_and (x / 2) (y / 2) * 2 + min (x % 2) (y % 2)
and_low_digit zero y = omega (arith, bit_and-bitwise 0 y, bit_and-bitwise 0 (y / 2))
and_low_digit (suc x) y = omega (
  arith,
  bit_and-bitwise (suc x) y,
  bit_and-bitwise (suc x / 2) (y / 2),
  enough_fuel min (λ b. 0) x (suc x / 2) (suc x / 2) (y / 2) (omega arith) (omega arith),
)

and_nothing : (n x : ℕ) → x ≤ n → bit_and x 0 ≡ 0
and_nothing n zero h = bit_and-bitwise 0 0
and_nothing zero (suc x) h = absurd (omega arith)
and_nothing (suc n) (suc x) h =
    omega (arith, and_low_digit (suc x) 0, and_nothing n (suc x / 2) (omega arith))

-- `x & 1`
pub bit_and-one : (x : ℕ) → bit_and x 1 ≡ x % 2
bit_and-one x = omega (arith, and_low_digit x 1, and_nothing (x / 2) (x / 2) (omega arith))

double_shift : (v k : ℕ) → v * 2 ^ suc k ≡ 2 * (v * 2 ^ k)
double_shift v k = omega (arith, ap (λ (p : ℕ). v * p) (pow-suc 2 k))

-- `acc | (v << k)` is a sum where `acc` fits below bit `k`.
pub bit_or_above : (k acc v : ℕ) → acc < 2 ^ k → bit_or acc (v * 2 ^ k) ≡ acc + v * 2 ^ k
bit_or_above zero zero v h = omega (arith, bit_or-bitwise 0 (v * 2 ^ 0))
bit_or_above zero (suc acc) v h = absurd (omega arith)
bit_or_above (suc k) acc v h = ground (
  arith,
  or_low_digit acc (v * 2 ^ suc k),
  double_shift v k,
  pow-suc 2 k,
  bit_or_above k (acc / 2) v (omega (arith, pow-suc 2 k)),
)

-- Σ f i * 2 ^ i over i < n.
unfoldable pub weigh : (ℕ → ℕ) → ℕ → ℕ
weigh f zero = 0
weigh f (suc n) = weigh f n + f n * 2 ^ n

pub weigh-lt : (f : ℕ → ℕ) (n : ℕ) → ((i : ℕ) → i < n → f i ≤ 1) → weigh f n < 2 ^ n
unfolding weigh
weigh-lt f zero h = omega arith
weigh-lt f (suc n) h =
    grind (arith, pow-suc 2 n, weigh-lt f n (λ i l. h i (omega arith)), h n (omega arith))

pub weigh-congr : (f g : ℕ → ℕ) (n : ℕ) → ((i : ℕ) → i < n → f i ≡ g i) → weigh f n ≡ weigh g n
unfolding weigh
weigh-congr f g zero h = refl
weigh-congr f g (suc n) h = rw (h n (omega arith), weigh-congr f g n (λ i l. h i (omega arith)))

-- The low n digits of a number make its remainder by 2 ^ n.
pub weigh_digits : (x n : ℕ) → weigh (λ i. x / 2 ^ i % 2) n ≡ x % 2 ^ n
unfolding weigh
weigh_digits x zero = omega arith
weigh_digits x (suc n) = omega (
  arith,
  weigh_digits x n,
  pow-suc 2 n,
  ap (λ (m : ℕ). x % m) (pow-suc 2 n),
  div-add-mod x (2 ^ n),
  div-add-mod x (2 ^ n * 2),
  ap (λ (t : ℕ). 2 ^ n * 2 * t) (div-div-eq-div-mul x (2 ^ n) 2),
  ap (λ (t : ℕ). 2 ^ n * t) (div-add-mod (x / 2 ^ n) 2),
)

-- Numbers below 2 ^ n with the same low n digits are equal.
pub eq_of_digits :
    (x y n : ℕ) → x < 2 ^ n → y < 2 ^ n → ((i : ℕ) → i < n → x / 2 ^ i % 2 ≡ y / 2 ^ i % 2) → x ≡ y
eq_of_digits x y n hx hy h = omega (
  arith,
  weigh_digits x n,
  weigh_digits y n,
  weigh-congr (λ i. x / 2 ^ i % 2) (λ i. y / 2 ^ i % 2) n h,
  mod-eq_of_lt hx,
  mod-eq_of_lt hy,
)

halved_power : (k : ℕ) → 2 ^ suc k / 2 ≡ 2 ^ k
halved_power k = omega (arith, pow-suc 2 k)

-- `x & (1 << k)`
pub bit_and_power : (k x : ℕ) → bit_and x (2 ^ k) ≡ x / 2 ^ k % 2 * 2 ^ k
bit_and_power zero x = omega (arith, bit_and-one x)
bit_and_power (suc k) x = omega (
  arith,
  and_low_digit x (2 ^ suc k),
  pow-suc 2 k,
  ap (bit_and (x / 2)) (halved_power k),
  bit_and_power k (x / 2),
  double_shift (x / 2 / 2 ^ k % 2) k,
  ap (λ (m : ℕ). x / m % 2 * 2 ^ suc k) (pow-succ' 2 k),
  ap (λ (t : ℕ). t % 2 * 2 ^ suc k) (div-div-eq-div-mul x 2 (2 ^ k)),
)
