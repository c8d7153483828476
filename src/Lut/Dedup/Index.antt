-- ===== src/Lut/Dedup/Index.antt =====
-- The index that the new table's entry is copied from, in terms of the inputs' levels.
use native.Mathlib.Numerals.{add-one}
use Prim.Native.Nat.{bit_and}
use yosys_f4pga_plugins.Prelude.{
  ℕ, zero, suc, ◌+◌, ◌-◌, ◌/◌, ◌^◌, ◌≤◌, ◌<◌, ◌≡◌, refl, ap, ◌∙◌, Bool, List, [], ◌∷◌, arith, ltb,
  if◌then◌else◌, get_elem?, length,
}
use yosys_f4pga_plugins.Prelude.Bits.{bit_and-one, bit_or_above, weigh, weigh-lt, weigh-congr}
use yosys_f4pga_plugins.Lut.Table.{digit, lut_index, lut_index-digit, lut_index-eq-weigh}
use yosys_f4pga_plugins.Lut.Dedup.{old_bit, old_index_loop, old_index, without_input}

module _ {B : Type 0} where
  without_past : (r k : ℕ) (bs : List B) → r < k → without_input r k bs ≡ bs
  unfolding without_input
  without_past r k [] h = refl
  without_past r k (b ∷ bs) h = ground (arith, without_past r (k + 1) bs)

  get_elem?-without_input :
      (r k i : ℕ) (bs : List B)
      → k ≤ r
      → get_elem? (without_input r k bs) i
        ≡ (if ltb (k + i) r then get_elem? bs i else get_elem? bs (suc i))
  unfolding without_input
  get_elem?-without_input r k i [] h = ground arith
  get_elem?-without_input r k zero (b ∷ bs) h =
      ground (arith, without_past r (k + 1) bs, get_elem?-without_input r (k + 1) zero bs)
  get_elem?-without_input r k (suc i) (b ∷ bs) h =
      ground (arith, without_past r (k + 1) bs, get_elem?-without_input r (k + 1) i bs)

  pub length-without_input :
      (r k : ℕ) (bs : List B)
      → k ≤ r
      → r < k + length bs
      → length (without_input r k bs) + 1 ≡ length bs
  unfolding without_input
  length-without_input r k [] h p = absurd (omega arith)
  length-without_input r k (b ∷ bs) h p =
      ground (arith, without_past r (k + 1) bs, length-without_input r (k + 1) bs)

module _ {B : Type 0} (v : B → Bool) (dup_keep dup_remove x : ℕ) where
  abbrev val : ℕ → ℕ
  val bit = old_bit dup_keep dup_remove x bit

  old_bit-le : (bit : ℕ) → val bit ≤ 1
  unfolding old_bit
  old_bit-le bit = ground (
    arith,
    bit_and-one (x / 2 ^ bit),
    bit_and-one (x / 2 ^ dup_keep),
    bit_and-one (x / 2 ^ (bit - 1)),
  )

  loop-eq-weigh :
      (n bit acc : ℕ)
      → acc ≡ weigh val bit
      → old_index_loop dup_keep dup_remove x n bit acc ≡ weigh val (bit + n)
  unfolding old_index_loop weigh
  loop-eq-weigh zero bit acc h = h ∙ ap (weigh val) (omega arith)
  loop-eq-weigh (suc n) bit acc h =
      loop-eq-weigh n (bit + 1) _ (
        rw (h, add-one)
          (bit_or_above bit (weigh val bit) (val bit) (weigh-lt val bit (λ i _. old_bit-le i))))
      ∙ ap (weigh val) (omega arith)

-- With equal levels on the two inputs of the pair, the index that the loop computes from the index
-- of the shorter input list is the index of the whole list.
module _ {B : Type 0} (v : B → Bool) (dup_keep dup_remove : ℕ) (bs : List B) where
  abbrev shorter : ℕ
  shorter = lut_index v (without_input dup_remove 0 bs)

  abbrev at_input : ℕ → ℕ
  at_input i = digit v (get_elem? bs i)

  shorter_digit :
      (i : ℕ)
      → bit_and (shorter / 2 ^ i) 1 ≡ (if ltb i dup_remove then at_input i else at_input (suc i))
  shorter_digit i = ground (
    arith,
    bit_and-one (shorter / 2 ^ i),
    lut_index-digit v (without_input dup_remove 0 bs) i,
    get_elem?-without_input dup_remove 0 i bs,
  )

  old_bit-eq-digit :
      dup_keep < dup_remove
      → at_input dup_keep ≡ at_input dup_remove
      → (bit : ℕ) → old_bit dup_keep dup_remove shorter bit ≡ at_input bit
  unfolding old_bit
  old_bit-eq-digit lt e zero = ground (arith, shorter_digit zero, shorter_digit dup_keep)
  old_bit-eq-digit lt e (suc bit) =
      ground (arith, shorter_digit (suc bit), shorter_digit dup_keep, shorter_digit bit)

  pub old_index-lut_index :
      dup_keep < dup_remove
      → at_input dup_keep ≡ at_input dup_remove
      → old_index (length bs) dup_keep dup_remove shorter ≡ lut_index v bs
  unfolding old_index weigh
  old_index-lut_index lt e =
      loop-eq-weigh v dup_keep dup_remove shorter (length bs) 0 0 refl
      ∙ ap (weigh _) (omega arith)
      ∙ weigh-congr _ _ (length bs) (λ i _. old_bit-eq-digit lt e i)
      ∙ lut_index-eq-weigh v bs
