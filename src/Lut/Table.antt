-- ===== src/Lut/Table.antt =====
-- Truth tables of look-up tables: the index that the levels of the inputs spell, and its digits.
use native.Mathlib.Nat.{mod-eq_of_lt, pow-suc, pow-succ', zero-div, div-div-eq-div-mul}
use yosys_f4pga_plugins.Prelude.{
  ℕ, zero, suc, ◌+◌, ◌*◌, ◌/◌, ◌%◌, ◌^◌, ◌≤◌, ◌<◌, ◌≡◌, sym, ap, ◌∙◌, Bool, true, false, Option,
  none, some, List, [], ◌∷◌, arith, get_elem?, length,
}
use yosys_f4pga_plugins.Prelude.Bits.{weigh, weigh-congr, weigh_digits}

-- The level of a net as a number, and the table index that the levels of the inputs spell:
-- input i is bit i.
abbrev pub level : Bool → ℕ
level true = 1
level false = 0

halved : (l x : ℕ) → l ≤ 1 → (l + 2 * x) / 2 ≡ x
halved l x h = omega arith

module _ {B : Type 0} (v : B → Bool) where
  unfoldable pub lut_index : List B → ℕ
  lut_index [] = 0
  lut_index (b ∷ bs) = level (v b) + 2 * lut_index bs

  abbrev pub digit : Option B → ℕ
  digit none = 0
  digit (some b) = level (v b)

  pub digit-le : (o : Option B) → digit o ≤ 1
  digit-le o = ground arith

  pub lut_index-lt : (bs : List B) → lut_index bs < 2 ^ length bs
  unfolding lut_index
  lut_index-lt [] = omega arith
  lut_index-lt (b ∷ bs) = ground (arith, lut_index-lt bs, pow-suc 2 (length bs))

  pub lut_index-digit : (bs : List B) (i : ℕ) → lut_index bs / 2 ^ i % 2 ≡ digit (get_elem? bs i)
  unfolding lut_index
  lut_index-digit [] i = rw (zero-div (2 ^ i)) (omega arith)
  lut_index-digit (b ∷ bs) zero = ground arith
  lut_index-digit (b ∷ bs) (suc i) = ground (
    arith,
    lut_index-digit bs i,
    ap (λ (m : ℕ). (level (v b) + 2 * lut_index bs) / m) (pow-succ' 2 i),
    div-div-eq-div-mul (level (v b) + 2 * lut_index bs) 2 (2 ^ i),
    halved (level (v b)) (lut_index bs) (digit-le (some b)),
  )

  -- The sum of the levels of the first inputs, and of all.
  pub lut_index-eq-weigh :
      (bs : List B) → weigh (λ i. digit (get_elem? bs i)) (length bs) ≡ lut_index bs
  lut_index-eq-weigh bs =
      weigh-congr _ _ (length bs) (λ i _. sym (lut_index-digit bs i))
      ∙ weigh_digits (lut_index bs) (length bs)
      ∙ mod-eq_of_lt (lut_index-lt bs)
