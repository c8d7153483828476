-- ===== src/Lut/Dedup.antt =====
-- ql-qlf-plugin/ql_opt_lut_dedup.cc: `opt_lut_dedup` removes an input of a `$lut` cell that is
-- wired to the net of another input, and shrinks the truth table.
--
-- `B` is RTLIL::SigBit with its equality, `sigmap` the SigMap of the module, and `S` the states of
-- a constant's bits with `s0` for State::S0. Input i of a `$lut` is bit i of the table's index.
-- The C++ `int`s that hold indices are natural numbers here: a table of up to 30 inputs fits them.
pub mod Search
pub mod Index
pub mod Function
pub mod Loop
pub mod Design
pub mod Tests
use Prim.Native.Nat.{bit_and, bit_or}
use yosys_f4pga_plugins.Prelude.{
  ℕ, zero, suc, ◌+◌, ◌-◌, ◌*◌, ◌/◌, ◌^◌, Bool, true, false, Option, none, some, List, [], ◌∷◌, ltb,
  ◌==◌, if◌then◌else◌, get_elem?, get_or,
}
use yosys_f4pga_plugins.Prelude.Equality.{Eq}
use yosys_f4pga_plugins.Prelude.Text.{String, str_eq}

-- A cell, as far as the pass reads and writes it.
pub record LutCell (B S : Type 0) : Type 0 where
  pub type : String
  pub width : ℕ
  pub inputs : List B
  pub lut : List S

-- int val, the three cases of the inner loop
unfoldable pub old_bit : ℕ → ℕ → ℕ → ℕ → ℕ
old_bit dup_keep dup_remove new_idx bit =
    if ltb bit dup_remove
    then bit_and (new_idx / 2 ^ bit) 1
    else if bit == dup_remove
    then bit_and (new_idx / 2 ^ dup_keep) 1
    else bit_and (new_idx / 2 ^ (bit - 1)) 1

-- for (bit = ...; bit < width; bit++) old_idx |= val << bit, with the rounds left
unfoldable pub old_index_loop : ℕ → ℕ → ℕ → ℕ → ℕ → ℕ → ℕ
old_index_loop dup_keep dup_remove new_idx zero bit old_idx = old_idx
old_index_loop dup_keep dup_remove new_idx (suc n) bit old_idx =
    old_index_loop dup_keep dup_remove new_idx n (bit + 1)
      (bit_or old_idx (old_bit dup_keep dup_remove new_idx bit * 2 ^ bit))

unfoldable pub old_index : ℕ → ℕ → ℕ → ℕ → ℕ
unfolding old_index_loop
old_index width dup_keep dup_remove new_idx = old_index_loop dup_keep dup_remove new_idx width 0 0

-- for (k = ...; k < width; k++) if (k != dup_remove) new_A.append(A[k])
unfoldable pub without_input {ℓ} : {A : Type ℓ} → ℕ → ℕ → List A → List A
without_input dup_remove k [] = []
without_input dup_remove k (a ∷ as') =
    let rest = without_input dup_remove (k + 1) as' in if k == dup_remove then rest else a ∷ rest

module _ {B : Type 0} ⦃e : Eq B⦄ (sigmap : B → B) where
  -- sigmap(A[i]) == sigmap(A[j]); an index past the end is an assertion failure of SigSpec
  unfoldable pub same_net : List B → ℕ → ℕ → Bool
  same_net inputs i j = elim (get_elem? inputs i) [
    | none ↦ false
    | some a ↦ elim (get_elem? inputs j) [ none ↦ false | some b ↦ e.beq (sigmap a) (sigmap b) ]
  ]

  -- the loop over j, with the rounds left
  unfoldable pub find_second : List B → ℕ → ℕ → ℕ → Option ℕ
  find_second inputs i zero j = none
  find_second inputs i (suc n) j =
      let rest = find_second inputs i n (j + 1) in if same_net inputs i j then some j else rest

  -- the loop over i; the result is (dup_keep, dup_remove)
  unfoldable pub find_dup_from : List B → ℕ → ℕ → Option (ℕ × ℕ)
  find_dup_from inputs zero i = none
  find_dup_from inputs (suc n) i = elim (find_second inputs i n (i + 1)) [
    | some j ↦ some (i, j)
    | none ↦ find_dup_from inputs n (i + 1)
  ]

  unfoldable pub find_dup : ℕ → List B → Option (ℕ × ℕ)
  unfolding find_dup_from find_second same_net
  find_dup width inputs = find_dup_from inputs width 0

module _ {B S : Type 0} ⦃e : Eq B⦄ (s0 : S) (sigmap : B → B) where
  -- for (new_idx = ...; new_idx < new_size; new_idx++) new_lut[new_idx] = lut[old_idx]
  unfoldable pub new_lut_from : List S → ℕ → ℕ → ℕ → ℕ → ℕ → List S
  new_lut_from lut width dup_keep dup_remove zero new_idx = []
  new_lut_from lut width dup_keep dup_remove (suc n) new_idx =
      get_or lut (old_index width dup_keep dup_remove new_idx) s0
      ∷ new_lut_from lut width dup_keep dup_remove n (new_idx + 1)

  -- The body of the cell loop behind the type test.
  unfoldable pub remove_input : LutCell B S → ℕ → ℕ → LutCell B S
  remove_input c dup_keep dup_remove = record c {
    width = c.width - 1;
    inputs = without_input dup_remove 0 c.inputs;
    lut = new_lut_from c.lut c.width dup_keep dup_remove (2 ^ (c.width - 1)) 0;
  }

  -- One round of the cell loop: the cell, and whether it was changed.
  unfoldable pub dedup_cell : LutCell B S → LutCell B S × Bool
  dedup_cell c =
      if str_eq c.type "$lut"
      then elim (find_dup sigmap c.width c.inputs) [
        | none ↦ (c, false)
        | some (dup_keep, dup_remove) ↦ (remove_input c dup_keep dup_remove, true)
      ]
      else (c, false)

  -- The cell loop: the cells, any_changed and total_removed.
  unfoldable pub dedup_pass : List (LutCell B S) → Bool → ℕ → List (LutCell B S) × Bool × ℕ
  dedup_pass [] any_changed total_removed = ([], any_changed, total_removed)
  dedup_pass (c ∷ cells) any_changed total_removed =
      let (c', changed) = dedup_cell c in
      let (cells', any', total') =
        dedup_pass cells (if changed then true else any_changed)
          (if changed then total_removed + 1 else total_removed) in
      (c' ∷ cells', any', total')

  -- while (any_changed); `none` means that the fuel ran out
  unfoldable pub dedup_module : ℕ → List (LutCell B S) → ℕ → Option (List (LutCell B S) × ℕ)
  dedup_module zero cells total_removed = none
  dedup_module (suc fuel) cells total_removed =
      let (cells', any_changed, total') = dedup_pass cells false total_removed in
      elim any_changed [ true ↦ dedup_module fuel cells' total' | false ↦ some (cells', total') ]

-- A selected module: its SigMap, made once before the loop, and its selected cells.
pub record LutModule (B S : Type 0) : Type 0 where
  pub sigmap : B → B
  pub cells : List (LutCell B S)

-- The loop over the modules; total_removed goes on from one to the next.
unfoldable pub execute :
    {B S : Type 0} ⦃e : Eq B⦄ (s0 : S)
    → ℕ
    → List (LutModule B S)
    → ℕ
    → Option (List (List (LutCell B S)) × ℕ)
execute s0 fuel [] total_removed = some ([], total_removed)
execute s0 fuel (m ∷ modules) total_removed =
    elim (dedup_module s0 m.sigmap fuel m.cells total_removed) [
      | none ↦ none
      | some (cells, total) ↦ elim (execute s0 fuel modules total) [
        | none ↦ none
        | some (rest, t) ↦ some (cells ∷ rest, t)
      ]
    ]
