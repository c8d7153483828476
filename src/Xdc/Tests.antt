-- ===== src/Xdc/Tests.antt =====
-- An input `a` with a buffer, and another buffer at the same net.
use yosys_f4pga_plugins.Prelude.{
  ℕ, ◌<◌, ◌⊎◌, ◌++◌, arith, ◌≡◌, ◌≢◌, refl, true, false, Option, none, some, List, [], ◌∷◌, All,
  ◌==◌,
}
use yosys_f4pga_plugins.Prelude.Text.{codes, same_text, text_eq, decimal}
use yosys_f4pga_plugins.Prelude.Words.{words, filled, split_on, onto_first}
use yosys_f4pga_plugins.Prelude.Dict.{lookup, put, replace, member}
use yosys_f4pga_plugins.Xdc.{
  Wire, Cell, Module, primitive_parameters, is_white, trim_left, trim_right, trim, is_signal_port,
  bit_name, traverse_connections, joined_value, set_on_connections, set_on_cells,
  process_port_parameter,
}
use yosys_f4pga_plugins.Xdc.Property.{
  read_property, pairs_of, read_pairs, execute, State, Banks, is_voltage, put_bank, bank_cell_name,
  process_vref, port_property,
}
use yosys_f4pga_plugins.Xdc.Vref.{process_vref-sets}
use yosys_f4pga_plugins.Xdc.Frame.{
  AreSameBut, process_port_parameter-AreSameBut, execute_all, execute-dict,
}

-- Names without an index.
abbrev whole : List ℕ → List ℕ × Option ℕ
whole name = (name, some 0)

abbrev a_wire : Wire
a_wire = record {
  name = codes "a";
  port_input = true;
  port_output = false;
  start_offset = 0;
  width = 1;
}

abbrev top : Module
top = record { wires = (codes "a", a_wire) ∷ []; connections = [] }

abbrev buffer : List (List ℕ × List ℕ) → Cell
buffer parameters = record {
  type = codes "IBUF";
  connections = some (record { wire = a_wire; offset = 0; width = 1 }) ∷ [];
  parameters = parameters;
}

-- A part with a bank 14; every voltage is read as 750.
abbrev banks : Banks
banks = record { atoi = λ s. some 14; millivolts = λ s. 750; is_bank = λ n. n == 14 }

abbrev cells_only : List Cell → State
cells_only cells = record { cells = cells; banks = [] }

sets_location :
    execute whole top banks
      (codes "LOC" ∷ codes "P1" ∷ codes "a" ∷ [])
      (cells_only (buffer [] ∷ []))
    ≡ some (cells_only (buffer ((codes "IO_LOC_PAIRS", codes "a:P1") ∷ []) ∷ []))
unfolding execute read_property port_property process_vref put_bank is_voltage read_pairs
    process_port_parameter set_on_cells set_on_connections joined_value is_signal_port
    traverse_connections bit_name pairs_of trim trim_left trim_right is_white words filled split_on
    onto_first lookup put replace member same_text primitive_parameters
sets_location = refl

odd_dictionary :
    execute whole top banks
      (codes "-dict" ∷ codes "LOC P1 SLEW" ∷ codes "a" ∷ [])
      (cells_only (buffer [] ∷ []))
    ≡ none
unfolding execute read_property port_property process_vref put_bank is_voltage read_pairs
    process_port_parameter set_on_cells set_on_connections joined_value is_signal_port
    traverse_connections bit_name pairs_of trim trim_left trim_right is_white words filled split_on
    onto_first lookup put replace member same_text primitive_parameters
odd_dictionary = refl

-- What the first cell had goes to the second cell as well.
passes_on_value :
    execute whole top banks
      (codes "LOC" ∷ codes "P1" ∷ codes "a" ∷ [])
      (cells_only (buffer ((codes "IO_LOC_PAIRS", codes "x") ∷ []) ∷ buffer [] ∷ []))
    ≡ some (
        cells_only (
          buffer ((codes "IO_LOC_PAIRS", codes "x,a:P1") ∷ [])
          ∷ buffer ((codes "IO_LOC_PAIRS", codes "x,a:P1") ∷ [])
          ∷ []))
unfolding execute read_property port_property process_vref put_bank is_voltage read_pairs
    process_port_parameter set_on_cells set_on_connections joined_value is_signal_port
    traverse_connections bit_name pairs_of trim trim_left trim_right is_white words filled split_on
    onto_first lookup put replace member same_text primitive_parameters
passes_on_value = refl

sets_standard :
    process_port_parameter whole top
      (codes "IOSTANDARD" ∷ codes "L" ∷ codes "a" ∷ [])
      (buffer [] ∷ [])
    ≡ some (buffer ((codes "IOSTANDARD", codes "L") ∷ []) ∷ [])
unfolding execute read_property port_property process_vref put_bank is_voltage read_pairs
    process_port_parameter set_on_cells set_on_connections joined_value is_signal_port
    traverse_connections bit_name pairs_of trim trim_left trim_right is_white words filled split_on
    onto_first lookup put replace member same_text primitive_parameters
sets_standard = refl

process_port_parameter-AreSameBut_example :
    AreSameBut
      (codes "IOSTANDARD")
      (buffer [] ∷ [])
      (buffer ((codes "IOSTANDARD", codes "L") ∷ []) ∷ [])
process_port_parameter-AreSameBut_example =
    process_port_parameter-AreSameBut whole top (codes "IOSTANDARD") (codes "L") (codes "a") []
      (buffer [] ∷ []) (buffer ((codes "IOSTANDARD", codes "L") ∷ []) ∷ []) sets_standard

abbrev pairs : List (List ℕ × List ℕ)
pairs = (codes "LOC", codes "P1") ∷ (codes "IOSTANDARD", codes "L") ∷ []

dict_words :
    words (trim (codes " LOC P1  IOSTANDARD L"))
    ≡ codes "LOC" ∷ codes "P1" ∷ codes "IOSTANDARD" ∷ codes "L" ∷ []
unfolding execute read_property port_property process_vref put_bank is_voltage read_pairs
    process_port_parameter set_on_cells set_on_connections joined_value is_signal_port
    traverse_connections bit_name pairs_of trim trim_left trim_right is_white words filled split_on
    onto_first lookup put replace member same_text primitive_parameters
dict_words = refl

not_dict : All (λ (p : List ℕ × List ℕ). p.0 ≢ codes "-dict") pairs
not_dict = ((λ e. cc e), ((λ e. cc e), tt))

execute-dict_example :
    execute whole top banks
      (codes "-dict" ∷ codes " LOC P1  IOSTANDARD L" ∷ codes "a" ∷ [])
      (cells_only (buffer [] ∷ []))
    ≡ execute_all whole top banks
        ((codes "LOC" ∷ codes "P1" ∷ codes "a" ∷ [])
          ∷ (codes "IOSTANDARD" ∷ codes "L" ∷ codes "a" ∷ [])
          ∷ [])
        (cells_only (buffer [] ∷ []))
execute-dict_example =
    execute-dict whole top banks pairs (codes " LOC P1  IOSTANDARD L") (codes "a" ∷ [])
      (cells_only (buffer [] ∷ [])) dict_words not_dict

abbrev vref : ℕ
vref = 750

process_vref-sets_example :
    (((vref ≡ 600) ⊎ (vref ≡ 675) ⊎ (vref ≡ 750) ⊎ (vref ≡ 900))
      × ((s : State) × (process_vref whole top banks
              (codes "0.75" ∷ codes "14" ∷ [])
              (cells_only [])
            ≡ some s)
          × (lookup (codes "bank_cell_" ++ decimal 14) s.banks
              ≡ some (record { number = 14; internal_vref = 750 }))
          × ((other : ℕ)
              → other < 10000
              → other ≢ 14
              → lookup (bank_cell_name other) s.banks ≡ lookup (bank_cell_name other) [])
          × (s.cells ≡ [])))
    ⊎ ((vref ≢ 600)
        × (vref ≢ 675)
        × (vref ≢ 750)
        × (vref ≢ 900)
        × (process_vref whole top banks (codes "0.75" ∷ codes "14" ∷ []) (cells_only [])
            ≡ some (cells_only [])))
process_vref-sets_example =
    process_vref-sets whole top banks (codes "0.75") (codes "14") [] (cells_only []) 14 refl refl
      (omega arith)
