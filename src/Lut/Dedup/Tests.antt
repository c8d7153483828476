-- ===== src/Lut/Dedup/Tests.antt =====
-- Runs of the pass on small tables, and the theorems at concrete inputs.
use yosys_f4pga_plugins.Prelude.{
  ℕ, ◌+◌, ◌≡◌, refl, ap, Bool, true, false, some, List, [], ◌∷◌, arith, ◌==◌, if◌then◌else◌,
}
use yosys_f4pga_plugins.Prelude.Equality.{nat_eq}
use yosys_f4pga_plugins.Lut.Dedup.{
  LutCell, LutModule, remove_input, dedup_cell, dedup_pass, dedup_module, execute, find_dup,
  old_index, old_bit, without_input, new_lut_from,
}
use yosys_f4pga_plugins.Lut.Dedup.Search.{same, find_dup_complete}
use yosys_f4pga_plugins.Lut.Dedup.Function.{IsLut, IsWellFormed, Respects, eval_lut}
use yosys_f4pga_plugins.Lut.Dedup.Loop.{total_width}
use yosys_f4pga_plugins.Lut.Dedup.Design.{
  dedup_cell-eval, Deduped, execute_total, inputs_of, inputs_left,
}

-- Net 7 is an alias of net 5.
abbrev alias : ℕ → ℕ
alias b = if b == 7 then 5 else b

-- in0 & in1 & !in2, with in0 and in2 on one net; and with in0 and in1 on one net
abbrev three : LutCell ℕ Bool
three = record {
  type = "$lut";
  width = 3;
  inputs = 5 ∷ 6 ∷ 7 ∷ [];
  lut = false ∷ false ∷ false ∷ true ∷ false ∷ false ∷ false ∷ false ∷ [];
}

abbrev other : LutCell ℕ Bool
other = record { type = "$and"; width = 2; inputs = 5 ∷ 5 ∷ []; lut = [] }

abbrev shrunk_cell : LutCell ℕ Bool
shrunk_cell = record {
  type = "$lut";
  width = 2;
  inputs = 5 ∷ 6 ∷ [];
  lut = false ∷ false ∷ false ∷ false ∷ [];
}

abbrev design : List (LutModule ℕ Bool)
design = record { sigmap = alias; cells = three ∷ other ∷ [] } ∷ []

find_dup_run : find_dup alias 3 three.inputs ≡ some (0, 2)
unfolding find_dup
find_dup_run = refl

dedup_run : execute false 6 design 0 ≡ some (((shrunk_cell ∷ other ∷ []) ∷ []), 1)
unfolding execute dedup_module dedup_pass dedup_cell remove_input new_lut_from find_dup old_index
    old_bit without_input
dedup_run = refl

three-IsLut : IsLut three
three-IsLut = record { inputs_width = refl; lut_size = refl }

abbrev levels : ℕ → Bool
levels b = alias b == 5

three-IsWellFormed : IsWellFormed three
three-IsWellFormed h = three-IsLut

other-IsWellFormed : IsWellFormed other
other-IsWellFormed h = absurd (cc h)

levels-Respects : Respects alias levels
levels-Respects a b h = ap (λ (n : ℕ). n == 5) h

dedup_cell-eval_example :
    IsWellFormed (dedup_cell false alias three).0
    × (eval_lut false levels (dedup_cell false alias three).0 ≡ eval_lut false levels three)
dedup_cell-eval_example =
    dedup_cell-eval false alias three levels three-IsWellFormed levels-Respects

find_dup_complete_example : same alias (5 ∷ 6 ∷ []) 0 1 ≡ false
unfolding find_dup
find_dup_complete_example =
    find_dup_complete alias 2 (5 ∷ 6 ∷ []) refl 0 1 (omega arith) (omega arith)

execute_total_example :
    (r : List (List (LutCell ℕ Bool)) × ℕ) × (execute false 6 design 0 ≡ some r)
    × (r.1 + inputs_left r.0 ≡ 0 + inputs_of design)
    × Deduped false design r.0
unfolding inputs_of total_width
execute_total_example =
    execute_total false 6 design 0 (omega arith)
      ((three-IsWellFormed, (other-IsWellFormed, tt)), tt)
