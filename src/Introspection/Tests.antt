-- ===== src/Introspection/Tests.antt =====
-- A count at a concrete selection.
use yosys_f4pga_plugins.Prelude.{◌≡◌, some, [], ◌∷◌, length}
use yosys_f4pga_plugins.Prelude.Text.{codes}
use yosys_f4pga_plugins.Introspection.{SelectedModule, get_count}
use yosys_f4pga_plugins.Introspection.Laws.{all_cells, all_wires, get_count-counts}

abbrev top : SelectedModule
top = record { cells = codes "a" ∷ codes "b" ∷ []; wires = codes "n" ∷ [] }

get_count-counts_example :
    (get_count (codes "get_count" ∷ codes "-modules" ∷ []) (top ∷ []) ≡ some (length (top ∷ [])))
    × (get_count (codes "get_count" ∷ codes "-cells" ∷ []) (top ∷ [])
        ≡ some (length (all_cells (top ∷ []))))
    × (get_count (codes "get_count" ∷ codes "-wires" ∷ []) (top ∷ [])
        ≡ some (length (all_wires (top ∷ []))))
get_count-counts_example = get_count-counts (codes "get_count") [] (top ∷ [])
