-- ===== src/Lut/Dedup/Search.antt =====
-- The search for a duplicate pair of inputs: what it returns, and that it misses none.
use yosys_f4pga_plugins.Prelude.{
  ℕ, zero, suc, ◌+◌, ◌≤◌, ◌<◌, ◌≡◌, Bool, true, false, inl, inr, none, some, List, arith,
  ℕ_discrete, Bool-cases, Option-cases,
}
use yosys_f4pga_plugins.Prelude.Equality.{Eq}
use yosys_f4pga_plugins.Lut.Dedup.{same_net, find_second, find_dup_from, find_dup}

module _ {B : Type 0} ⦃e : Eq B⦄ (sigmap : B → B) where
  abbrev pub same : List B → ℕ → ℕ → Bool
  same inputs i j = same_net sigmap inputs i j

  second_found :
      (inputs : List B) (i n j k : ℕ)
      → find_second sigmap inputs i n j ≡ some k
      → (j ≤ k) × (k < j + n) × (same inputs i k ≡ true)
  unfolding find_second
  second_found inputs i zero j k h = cc
  second_found inputs i (suc n) j k h = elim (Bool-cases (same inputs i j)) [
    | inl hit ↦ ground arith
    | inr miss ↦ ground (arith, second_found inputs i n (j + 1) k)
  ]

  second_missed :
      (inputs : List B) (i n j k : ℕ)
      → find_second sigmap inputs i n j ≡ none
      → j ≤ k
      → k < j + n
      → same inputs i k ≡ false
  unfolding find_second
  second_missed inputs i zero j k h p q = absurd (omega arith)
  second_missed inputs i (suc n) j k h p q = elim (ℕ_discrete j k) [
    | yes here ↦ rw (← here) (ground arith)
    | no there ↦ ground (arith, second_missed inputs i n (j + 1) k)
  ]

  dup_found :
      (inputs : List B) (n i a b : ℕ)
      → find_dup_from sigmap inputs n i ≡ some (a, b)
      → (i ≤ a) × (a < b) × (b < i + n) × (same inputs a b ≡ true)
  unfolding find_dup_from
  dup_found inputs zero i a b h = cc
  dup_found inputs (suc n) i a b h = elim (Option-cases (find_second sigmap inputs i n (i + 1))) [
    | inl miss ↦ ground (arith, dup_found inputs n (i + 1) a b)
    | inr (j, hit) ↦ ground (arith, second_found inputs i n (i + 1) j)
  ]

  dup_missed :
      (inputs : List B) (n i a b : ℕ)
      → find_dup_from sigmap inputs n i ≡ none
      → i ≤ a
      → a < b
      → b < i + n
      → same inputs a b ≡ false
  unfolding find_dup_from
  dup_missed inputs zero i a b h p q r = absurd (omega arith)
  dup_missed inputs (suc n) i a b h p q r = elim (ℕ_discrete i a) [
    | yes here ↦ rw (← here) (ground (arith, second_missed inputs i n (i + 1) b))
    | no there ↦ ground (arith, dup_missed inputs n (i + 1) a b)
  ]

  -- A pair that `find_dup` returns lies in range, in order, and is on one net.
  pub find_dup_sound :
      (width : ℕ) (inputs : List B) (a b : ℕ)
      → find_dup sigmap width inputs ≡ some (a, b)
      → (a < b) × (b < width) × (same inputs a b ≡ true)
  unfolding find_dup
  find_dup_sound width inputs a b h = ground (arith, dup_found inputs width 0 a b)

  -- Where it returns nothing, any two inputs are on different nets.
  pub find_dup_complete :
      (width : ℕ) (inputs : List B)
      → find_dup sigmap width inputs ≡ none
      → (a b : ℕ) → a < b
      → b < width
      → same inputs a b ≡ false
  unfolding find_dup
  find_dup_complete width inputs h a b p q =
      dup_missed inputs width 0 a b h (omega arith) p (omega arith)
