-- ===== src/Introspection.antt =====
-- design_introspection-plugin/get_count.cc and get_cmd.cc: the number of selected objects, and the
-- arguments that the get commands share.
--
-- A selection is the list of selected modules, each with its selected cells and wires. The expression
-- for filters is matched by std::regex, and `filter_matches` is what it gives for an argument without
-- spaces; a filter without == ends the command.
pub mod Laws
mod Tests
use yosys_f4pga_plugins.Prelude.{
  ℕ, ◌+◌, Bool, true, false, not, ◌||◌, Option, none, some, List, [], ◌∷◌, ◌++◌, ◌==◌,
  if◌then◌else◌, length,
}
use yosys_f4pga_plugins.Prelude.Text.{codes, same_text}
use yosys_f4pga_plugins.Iob.Pcf.{is_space}

pub record SelectedModule : Type 0 where
  pub cells : List (List ℕ)
  pub wires : List (List ℕ)

pub data ObjectType : Type 0 where
  module_type cell_type wire_type : ObjectType

-- The first argument; `none` is log_error.
unfoldable pub object_type : List ℕ → Option ObjectType
object_type arg =
    if same_text arg (codes "-modules")
    then some module_type
    else if same_text arg (codes "-cells")
    then some cell_type
    else if same_text arg (codes "-wires")
    then some wire_type
    else none

-- The loop over the modules: cellCount and wireCount.
unfoldable pub count_objects : List SelectedModule → ℕ → ℕ → ℕ × ℕ
count_objects [] cells wires = (cells, wires)
count_objects (m ∷ ms) cells wires =
    count_objects ms (cells + length m.cells) (wires + length m.wires)

unfoldable pub count_of : ObjectType → List SelectedModule → ℕ
unfolding count_objects
count_of module_type ms = length ms
count_of cell_type ms = (count_objects ms 0 0).0
count_of wire_type ms = (count_objects ms 0 0).1

-- GetCount::execute, on its arguments and what they select
unfoldable pub get_count : List (List ℕ) → List SelectedModule → Option ℕ
unfolding object_type count_of
get_count [] ms = none
get_count (command ∷ []) ms = none
get_count (command ∷ arg ∷ args) ms = elim (object_type arg) [
  | none ↦ none
  | some type ↦ some (count_of type ms)
]

-- GetCmd::CommandArgs
pub record CommandArgs : Type 0 where
  pub filters : List (List ℕ × List ℕ)
  pub is_quiet : Bool
  pub selection_objects : List (List ℕ)

-- filter.substr(0, separator) and filter.substr(separator + 2), at the first ==
unfoldable pub split_filter : List ℕ → Option (List ℕ × List ℕ)
split_filter [] = none
split_filter (c ∷ []) = none
split_filter (c ∷ d ∷ s) =
    let rest = split_filter (d ∷ s) in
    if same_text (c ∷ d ∷ []) (codes "==")
    then some ([], s)
    else elim rest [ none ↦ none | some p ↦ some (c ∷ p.0, p.1) ]

-- The loop over the matches.
unfoldable pub add_filters :
    List (List ℕ) → List (List ℕ × List ℕ) → Option (List (List ℕ × List ℕ))
unfolding split_filter
add_filters [] filters = some filters
add_filters (m ∷ ms) filters = elim (split_filter m) [
  | none ↦ none
  | some p ↦ add_filters ms (filters ++ (p ∷ []))
]

-- std::remove_if(..., isspace)
unfoldable pub remove_spaces : List ℕ → List ℕ
unfolding is_space
remove_spaces [] = []
remove_spaces (c ∷ s) = let rest = remove_spaces s in if is_space c then rest else c ∷ rest

-- An argument that is no option ends the loop, and is the first of the objects.
unfoldable pub first_object : List (List ℕ) → CommandArgs → Option CommandArgs
first_object [] a = some a
first_object ([] ∷ args) a = some (record a { selection_objects = [] ∷ args })
first_object ((c ∷ arg) ∷ args) a =
    if c == b'-' then none else some (record a { selection_objects = (c ∷ arg) ∷ args })

module _ (filter_matches : List ℕ → List (List ℕ)) where
  -- The loop over the arguments; `none` is log_cmd_error.
  unfoldable pub parse_args : List (List ℕ) → CommandArgs → Option CommandArgs
  unfolding first_object add_filters remove_spaces
  parse_args [] a = some a
  parse_args (arg ∷ []) a =
      if same_text arg (codes "-quiet")
      then some (record a { is_quiet = true })
      else first_object (arg ∷ []) a
  parse_args (arg ∷ next ∷ args) a = elim (same_text arg (codes "-quiet")) [
    | true ↦ parse_args (next ∷ args) (record a { is_quiet = true })
    | false ↦ elim (same_text arg (codes "-filter")) [
      | false ↦ first_object (arg ∷ next ∷ args) a
      | true ↦ elim (add_filters (filter_matches (remove_spaces next)) a.filters) [
        | none ↦ none
        | some filters ↦ parse_args args (record a { filters = filters })
      ]
    ]
  ]

  unfoldable pub parse_command : List (List ℕ) → Option CommandArgs
  unfolding parse_args
  parse_command [] = some (record { filters = []; is_quiet = false; selection_objects = [] })
  parse_command (command ∷ args) =
      parse_args args (record { filters = []; is_quiet = false; selection_objects = [] })
