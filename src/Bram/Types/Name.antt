-- ===== src/Bram/Types/Name.antt =====
-- The names of the RAM block types, read back: a description of the naming scheme that does not refer
-- to the code that builds the names.
use mathlib.Core.Option
use yosys_f4pga_plugins.Prelude.{
  ℕ, zero, suc, ◌+◌, ◌-◌, ◌*◌, ◌/◌, ◌%◌, ◌<◌, ◌≡◌, refl, ap, ◌∙◌, ◌&&◌, Option, none, some, inl,
  inr, List, [], ◌∷◌, ◌++◌, arith, ◌==◌, leb, ltb, if◌then◌else◌, Bool-cases,
}
use yosys_f4pga_plugins.Prelude.Text.{codes, decimal, decimal_loop, strip, strip-append, same_text}

pub data Kind : Type 0 where
  bram sync_fifo async_fifo : Kind

pub data Shape : Type 0 where
  nonsplit : ℕ → ℕ → Shape
  split : ℕ → ℕ → ℕ → ℕ → Shape

abbrev orelse {ℓ} : {A : Type ℓ} → Option A → Option A → Option A
orelse none b = b
orelse (some a) b = some a

infixl 5 ◌>>=◌
abbrev ◌>>=◌ {ℓ κ} : {A : Type ℓ} {B : Type κ} → Option A → (A → Option B) → Option B
none >>= f = none
some a >>= f = f a

-- A number and the "_" behind it.
unfoldable pub read_number : List ℕ → ℕ → Option (ℕ × List ℕ)
read_number [] acc = none
read_number (c ∷ s) acc =
    let more = read_number s (acc * 10 + (c - b'0')) in
    if c == b'_' then some (acc, s) else if leb b'0' c && leb c b'9' then more else none

digit_value : (acc d : ℕ) → acc * 10 + (b'0' + d - b'0') ≡ acc * 10 + d
digit_value acc d = omega arith

read_digit :
    (d acc : ℕ) (s : List ℕ)
    → d < 10
    → read_number ((b'0' + d) ∷ s) acc ≡ read_number s (acc * 10 + d)
unfolding read_number
read_digit d acc s h = ground (arith, ap (read_number s) (digit_value acc d))

leading : (n : ℕ) → 0 * 10 + n ≡ n
leading n = omega arith

tens : (n : ℕ) → n / 10 * 10 + n % 10 ≡ n
tens n = omega arith

read_number-decimal_loop :
    (fuel n : ℕ) (acc t : List ℕ)
    → n < fuel
    → read_number (decimal_loop fuel n acc ++ t) 0 ≡ read_number (acc ++ t) n
unfolding decimal_loop
read_number-decimal_loop zero n acc t h = absurd (omega arith)
read_number-decimal_loop (suc fuel) n acc t h = elim (Bool-cases (ltb n 10)) [
  | inl small ↦
      rw (small, decimal_loop)
        (read_digit n 0 (acc ++ t) (ground arith) ∙ ap (read_number (acc ++ t)) (leading n))
  | inr big ↦
      rw (big, decimal_loop)
        (read_number-decimal_loop fuel (n / 10) ((b'0' + n % 10) ∷ acc) t (ground arith)
          ∙ read_digit (n % 10) (n / 10) (acc ++ t) (omega arith)
          ∙ ap (read_number (acc ++ t)) (tens n))
]

pub read_number-decimal :
    (n : ℕ) (t : List ℕ) → read_number (decimal n ++ (b'_' ∷ t)) 0 ≡ some (n, t)
unfolding decimal
read_number-decimal n t =
    read_number-decimal_loop (suc n) n [] (b'_' ∷ t) (omega arith) ∙ unfold read_number in refl

-- "<label>%d_"
unfoldable pub field : List ℕ → List ℕ → Option (ℕ × List ℕ)
field label s = strip label s >>= λ t. read_number t 0

unfoldable pub read_kind : List ℕ → Option (Kind × List ℕ)
read_kind s = orelse (Option.map (λ t. (bram, t)) (strip (codes "_BRAM_") s)) (
    orelse (Option.map (λ t. (sync_fifo, t)) (strip (codes "_FIFO_SYNC_") s))
      (Option.map (λ t. (async_fifo, t)) (strip (codes "_FIFO_ASYNC_") s)))

unfoldable pub read_nonsplit : List ℕ → Option Shape
read_nonsplit s = do
  (a, s1) ← field (codes "A_X") s
  (b, s2) ← field (codes "B_X") s1
  if same_text s2 (codes "nonsplit") then some (nonsplit a b) else none

unfoldable pub read_split : List ℕ → Option Shape
read_split s = do
  (a1, s1) ← field (codes "A1_X") s
  (b1, s2) ← field (codes "B1_X") s1
  (a2, s3) ← field (codes "A2_X") s2
  (b2, s4) ← field (codes "B2_X") s3
  if same_text s4 (codes "split") then some (split a1 b1 a2 b2) else none

unfoldable pub read_name : List ℕ → List ℕ → Option (Kind × Shape)
read_name base s = do
  t ← strip base s
  (k, u) ← read_kind t
  shape ← orelse (read_nonsplit u) (read_split u)
  some (k, shape)

field-text :
    (label : List ℕ) (n : ℕ) (t : List ℕ)
    → field label (label ++ (decimal n ++ (b'_' ∷ t))) ≡ some (n, t)
unfolding field
field-text label n t = rw (strip-append label (decimal n ++ (b'_' ∷ t))) (read_number-decimal n t)

-- The names as text, from the right end.
abbrev pub text_of : Shape → List ℕ
text_of (nonsplit a b) =
    codes "A_X" ++ (decimal a ++ (b'_' ∷ (codes "B_X" ++ (decimal b ++ (b'_' ∷ codes "nonsplit")))))
text_of (split a1 b1 a2 b2) =
    codes "A1_X"
    ++ (decimal a1
        ++ (b'_'
            ∷ (codes "B1_X"
                ++ (decimal b1
                    ++ (b'_'
                        ∷ (codes "A2_X"
                            ++ (decimal a2
                                ++ (b'_'
                                    ∷ (codes "B2_X"
                                        ++ (decimal b2 ++ (b'_' ∷ codes "split")))))))))))

abbrev pub kind_text : Kind → List ℕ
kind_text bram = codes "_BRAM_"
kind_text sync_fifo = codes "_FIFO_SYNC_"
kind_text async_fifo = codes "_FIFO_ASYNC_"

read_kind-text : (k : Kind) (t : List ℕ) → read_kind (kind_text k ++ t) ≡ some (k, t)
unfolding read_kind strip
read_kind-text bram t = refl
read_kind-text sync_fifo t = refl
read_kind-text async_fifo t = refl

read_nonsplit-text : (a b : ℕ) → read_nonsplit (text_of (nonsplit a b)) ≡ some (nonsplit a b)
unfolding read_nonsplit
read_nonsplit-text a b =
    rw (field-text (codes "A_X") a (codes "B_X" ++ (decimal b ++ codes "_nonsplit")))
      (rw (field-text (codes "B_X") b (codes "nonsplit")) (unfold same_text in refl))

read_nonsplit-split : (a1 b1 a2 b2 : ℕ) → read_nonsplit (text_of (split a1 b1 a2 b2)) ≡ none
unfolding read_nonsplit field strip
read_nonsplit-split a1 b1 a2 b2 = refl

read_split-text :
    (a1 b1 a2 b2 : ℕ) → read_split (text_of (split a1 b1 a2 b2)) ≡ some (split a1 b1 a2 b2)
unfolding read_split
read_split-text a1 b1 a2 b2 = rw (field-text (codes "A1_X") a1 _) (
    rw (field-text (codes "B1_X") b1 _) (
      rw (field-text (codes "A2_X") a2 _)
        (rw (field-text (codes "B2_X") b2 (codes "split")) (unfold same_text in refl))))

read_shape-text : (s : Shape) → orelse (read_nonsplit (text_of s)) (read_split (text_of s)) ≡ some s
read_shape-text (nonsplit a b) = rw (read_nonsplit-text a b)
read_shape-text (split a1 b1 a2 b2) =
    rw (read_nonsplit-split a1 b1 a2 b2) (read_split-text a1 b1 a2 b2)

pub read_name-text :
    (base : List ℕ) (k : Kind) (s : Shape)
    → read_name base (base ++ (kind_text k ++ text_of s)) ≡ some (k, s)
unfolding read_name
read_name-text base k s =
    rw (strip-append base (kind_text k ++ text_of s), read_kind-text k (text_of s))
      (rw (read_shape-text s))
