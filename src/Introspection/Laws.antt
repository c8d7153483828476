-- ===== src/Introspection/Laws.antt =====
-- Counts are sums over the modules.
use yosys_f4pga_plugins.Prelude.{
  ℕ, ◌+◌, ◌≡◌, refl, ap, ◌∙◌, some, List, [], ◌∷◌, ◌++◌, arith, length, length-append,
}
use yosys_f4pga_plugins.Prelude.Text.{codes, same_text}
use yosys_f4pga_plugins.Introspection.{
  SelectedModule, object_type, count_objects, count_of, get_count,
}

unfoldable pub all_cells : List SelectedModule → List (List ℕ)
all_cells [] = []
all_cells (m ∷ ms) = m.cells ++ all_cells ms

unfoldable pub all_wires : List SelectedModule → List (List ℕ)
all_wires [] = []
all_wires (m ∷ ms) = m.wires ++ all_wires ms

count_objects-cells :
    (ms : List SelectedModule) (cells wires : ℕ)
    → (count_objects ms cells wires).0 ≡ cells + length (all_cells ms)
unfolding count_objects all_cells
count_objects-cells [] cells wires = omega arith
count_objects-cells (m ∷ ms) cells wires = omega (
  arith,
  count_objects-cells ms (cells + length m.cells) (wires + length m.wires),
  length-append m.cells (all_cells ms),
)

count_objects-wires :
    (ms : List SelectedModule) (cells wires : ℕ)
    → (count_objects ms cells wires).1 ≡ wires + length (all_wires ms)
unfolding count_objects all_wires
count_objects-wires [] cells wires = omega arith
count_objects-wires (m ∷ ms) cells wires = omega (
  arith,
  count_objects-wires ms (cells + length m.cells) (wires + length m.wires),
  length-append m.wires (all_wires ms),
)

-- get_count returns, for -modules, -cells and -wires, the number of the selected modules, of their
-- selected cells, and of their selected wires.
pub get_count-counts :
    (command : List ℕ) (args : List (List ℕ)) (ms : List SelectedModule)
    → (get_count (command ∷ codes "-modules" ∷ args) ms ≡ some (length ms))
      × (get_count (command ∷ codes "-cells" ∷ args) ms ≡ some (length (all_cells ms)))
      × (get_count (command ∷ codes "-wires" ∷ args) ms ≡ some (length (all_wires ms)))
unfolding get_count object_type count_of same_text
get_count-counts command args ms = (
  refl,
  ap some (count_objects-cells ms 0 0 ∙ drop_zero (length (all_cells ms))),
  ap some (count_objects-wires ms 0 0 ∙ drop_zero (length (all_wires ms))),
)
  where
    drop_zero : (n : ℕ) → 0 + n ≡ n
    drop_zero n = omega arith
