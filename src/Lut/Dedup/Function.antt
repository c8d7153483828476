-- ===== src/Lut/Dedup/Function.antt =====
-- Removing a duplicate input keeps the function of the look-up table.
use yosys_f4pga_plugins.Prelude.{
  ℕ, zero, suc, ◌+◌, ◌-◌, ◌^◌, ◌<◌, ◌≡◌, refl, ap, sym, ◌∙◌, Bool, true, false, none, some, inl,
  inr, List, arith, Bool-cases, Option-cases, get_elem?, get_or, length,
}
use yosys_f4pga_plugins.Prelude.Equality.{Eq}
use yosys_f4pga_plugins.Prelude.Text.{str_eq}
use yosys_f4pga_plugins.Lut.Dedup.{
  LutCell, without_input, new_lut_from, remove_input, dedup_cell, find_dup, same_net, old_index,
}
use yosys_f4pga_plugins.Lut.Dedup.Search.{same, find_dup_sound}
use yosys_f4pga_plugins.Lut.Table.{digit, lut_index, lut_index-lt}
use yosys_f4pga_plugins.Lut.Dedup.Index.{length-without_input, old_index-lut_index}

-- A `$lut` cell has as many inputs as its WIDTH says, and an entry for each index.
pub record IsLut {B S : Type 0} (c : LutCell B S) : Type 0 where
  pub inputs_width : length c.inputs ≡ c.width
  pub lut_size : length c.lut ≡ 2 ^ c.width

-- The value of the table at the levels `v` of its inputs.
unfoldable pub eval_lut : {B S : Type 0} → S → (B → Bool) → LutCell B S → S
eval_lut s0 v c = get_or c.lut (lut_index v c.inputs) s0

module _ {B S : Type 0} ⦃e : Eq B⦄ (s0 : S) (sigmap : B → B) where
  get_or-new_lut_from :
      (lut : List S) (w a b n start i : ℕ)
      → i < n
      → get_or (new_lut_from s0 sigmap lut w a b n start) i s0
        ≡ get_or lut (old_index w a b (start + i)) s0
  unfolding new_lut_from
  get_or-new_lut_from lut w a b zero start i h = absurd (omega arith)
  get_or-new_lut_from lut w a b (suc n) start zero h =
      ap (λ (k : ℕ). get_or lut (old_index w a b k) s0) (omega arith)
  get_or-new_lut_from lut w a b (suc n) start (suc i) h =
      get_or-new_lut_from lut w a b n (start + 1) i (omega arith)
      ∙ ap (λ (k : ℕ). get_or lut (old_index w a b k) s0) (omega arith)

  length-new_lut_from :
      (lut : List S) (w a b n start : ℕ) → length (new_lut_from s0 sigmap lut w a b n start) ≡ n
  unfolding new_lut_from
  length-new_lut_from lut w a b zero start = refl
  length-new_lut_from lut w a b (suc n) start = ap suc (length-new_lut_from lut w a b n (start + 1))

-- The levels of a running circuit: connected bits, which the SigMap maps to one bit, have one level.
abbrev pub Respects : {B : Type 0} → (B → B) → (B → Bool) → Type 0
Respects {B} sigmap v = (a b : B) → sigmap a ≡ sigmap b → v a ≡ v b

module _ {B S : Type 0} ⦃e : Eq B⦄ (s0 : S) (sigmap : B → B) where
  same-digit :
      (v : B → Bool) (inputs : List B) (i j : ℕ)
      → Respects sigmap v
      → same sigmap inputs i j ≡ true
      → digit v (get_elem? inputs i) ≡ digit v (get_elem? inputs j)
  unfolding same_net
  same-digit v inputs i j r h = elim (Option-cases (get_elem? inputs i)) [
    | inl p ↦ ground arith
    | inr (x, p) ↦ elim (Option-cases (get_elem? inputs j)) [
      | inl q ↦ ground arith
      | inr (y, q) ↦ ground (arith, e.beq_iff (sigmap x) (sigmap y), r x y)
    ]
  ]

  remove_input-IsLut :
      (c : LutCell B S) (a b : ℕ)
      → IsLut c
      → a < b
      → b < c.width
      → IsLut (remove_input s0 sigmap c a b)
  unfolding remove_input
  remove_input-IsLut c a b w p q = record {
    inputs_width = omega (arith, length-without_input b 0 c.inputs);
    lut_size = length-new_lut_from s0 sigmap c.lut c.width a b (2 ^ (c.width - 1)) 0;
  }

  eval_lut-remove_input :
      (c : LutCell B S) (a b : ℕ) (v : B → Bool)
      → IsLut c
      → Respects sigmap v
      → a < b
      → b < c.width
      → same sigmap c.inputs a b ≡ true
      → eval_lut s0 v (remove_input s0 sigmap c a b) ≡ eval_lut s0 v c
  unfolding eval_lut remove_input
  eval_lut-remove_input c a b v w r p q h =
      get_or-new_lut_from s0 sigmap c.lut c.width a b (2 ^ (c.width - 1)) 0 _ in_range
      ∙ ap (λ (k : ℕ). get_or c.lut (old_index c.width a b k) s0) (omega arith)
      ∙ ap (λ (k : ℕ). get_or c.lut k s0) whole
    where
      shorter : ℕ
      shorter = lut_index v (without_input b 0 c.inputs)

      shorter_width : length (without_input b 0 c.inputs) ≡ c.width - 1
      shorter_width = omega (arith, w.inputs_width, q, length-without_input b 0 c.inputs)

      in_range : shorter < 2 ^ (c.width - 1)
      in_range = rw (← shorter_width) (lut_index-lt v (without_input b 0 c.inputs))

      whole : old_index c.width a b shorter ≡ lut_index v c.inputs
      whole =
          ap (λ (n : ℕ). old_index n a b shorter) (sym w.inputs_width)
          ∙ old_index-lut_index v a b c.inputs p (same-digit v c.inputs a b r h)

-- Only the cells of type `$lut` have to be well-formed.
abbrev pub IsWellFormed : {B S : Type 0} → LutCell B S → Type 0
IsWellFormed c = str_eq c.type "$lut" ≡ true → IsLut c

module _ {B S : Type 0} ⦃e : Eq B⦄ (s0 : S) (sigmap : B → B) where
  -- What the two outcomes of a round say of the cell.
  pub data Round (c : LutCell B S) (r : LutCell B S × Bool) : Type 0 where
    skipped : str_eq c.type "$lut" ≡ false → r ≡ (c, false) → Round c r
    unique :
        str_eq c.type "$lut" ≡ true
        → find_dup sigmap c.width c.inputs ≡ none
        → r ≡ (c, false)
        → Round c r
    shrunk :
        (a b : ℕ)
        → str_eq c.type "$lut" ≡ true
        → find_dup sigmap c.width c.inputs ≡ some (a, b)
        → r ≡ (remove_input s0 sigmap c a b, true)
        → Round c r

  pub dedup_cell-Round : (c : LutCell B S) → Round c (dedup_cell s0 sigmap c)
  unfolding dedup_cell
  dedup_cell-Round c = elim (Bool-cases (str_eq c.type "$lut")) [
    | inl p ↦ elim (Option-cases (find_dup sigmap c.width c.inputs)) [
      | inl q ↦ unique p q (rw (p, q))
      | inr ((a, b), q) ↦ shrunk a b p q (rw (p, q))
    ]
    | inr p ↦ skipped p (rw p)
  ]

  -- What a round of the cell loop keeps of a well-formed cell: well-formedness, the type, and the
  -- value of the table at any levels that agree on connected bits.
  pub record Keeps (c d : LutCell B S) : Type 0 where
    pub type : d.type ≡ c.type
    pub shape : IsWellFormed c → IsWellFormed d
    pub function :
        (v : B → Bool) → IsWellFormed c → Respects sigmap v → eval_lut s0 v d ≡ eval_lut s0 v c

  pub Keeps-refl : (c : LutCell B S) → Keeps c c
  Keeps-refl c = record { type = refl; shape = λ w. w; function = λ v w r. refl }

  pub dedup_cell-Keeps : (c : LutCell B S) → Keeps c (dedup_cell s0 sigmap c).0
  dedup_cell-Keeps c = go (dedup_cell-Round c)
    where
      go : Round c (dedup_cell s0 sigmap c) → Keeps c (dedup_cell s0 sigmap c).0
      go (skipped p q) = rw q (Keeps-refl c)
      go (unique p f q) = rw q (Keeps-refl c)
      go (shrunk a b p f q) = rw q (
          let s = find_dup_sound sigmap c.width c.inputs a b f in
          record {
            type = unfold remove_input in refl;
            shape = λ w _. remove_input-IsLut s0 sigmap c a b (w p) s.0 s.1;
            function = λ v w r. eval_lut-remove_input s0 sigmap c a b v (w p) r s.0 s.1 s.2;
          })
