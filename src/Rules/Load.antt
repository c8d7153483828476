-- ===== src/Rules/Load.antt =====
-- dsp-ff-plugin/dsp_ff.cc: load_rules, from the text of the file to the two maps.
--
-- The loop of std::getline over the file gives its lines; a last one that is empty is passed over like
-- any other that is blank.
pub mod Returns
pub mod Nested
pub mod Sound
pub mod Maps
use yosys_f4pga_plugins.Prelude.{
  ℕ, Bool, true, false, ◌&&◌, ◌||◌, Option, none, some, List, [], ◌∷◌, ◌++◌, ◌==◌, if◌then◌else◌,
}
use yosys_f4pga_plugins.Prelude.Equality.{Eq}
use yosys_f4pga_plugins.Prelude.Text.{String, codes, same_text, text_eq}
use yosys_f4pga_plugins.Prelude.Words.{split_on, filled, words}
use yosys_f4pga_plugins.Prelude.Dict.{lookup, insert_new}
use yosys_f4pga_plugins.Rules.{
  Outcome, rejected, thrown, undefined, returned, ◌>>=◌, Kernel, FlopType, PortType, RegisterType,
  DspType, reversed,
}
use yosys_f4pga_plugins.Rules.Sections.{
  Section, dsp, port, ff, Loader, empty_register, dsp_rule, enddsp_rule, port_rule, endport_rule,
  ff_rule, endff_rule,
}
use yosys_f4pga_plugins.Rules.Signals.{
  control_rule, data_rule, require_rule, match_rule, set_rule, map_rule, con_rule,
}

-- line.substr(0, line.find("#"))
unfoldable pub strip_comment : List ℕ → List ℕ
strip_comment [] = []
strip_comment (c ∷ s) = let rest = strip_comment s in if c == b'#' then [] else c ∷ rest

-- line.find_first_not_of(" \r\n\t") == npos
unfoldable pub is_blank_line : List ℕ → Bool
is_blank_line [] = true
is_blank_line (c ∷ s) = (c == b' ' || (c == 13 || (c == b'\n' || c == 9))) && is_blank_line s

-- What a keyword does with the words behind it.
abbrev pub Rule : Type 0 → Type 0
Rule C = List (List ℕ) → Loader C → Outcome (Loader C)

-- The chain of tests on fields[0]: the first keyword that it is, or an error.
unfoldable pub chain : {C : Type 0} → List (List ℕ × Rule C) → List ℕ → Rule C
unfolding same_text
chain [] field args s = rejected
chain ((keyword, rule) ∷ rules) field args s =
    if same_text field keyword then rule args s else chain rules field args s

module _ {C : Type 0} ⦃const_eq : Eq C⦄ (kernel : Kernel C) where
  -- The tests, in their order.
  unfoldable pub rules : List (List ℕ × Rule C)
  unfolding dsp_rule enddsp_rule port_rule endport_rule ff_rule endff_rule control_rule data_rule
      require_rule match_rule set_rule map_rule con_rule
  rules =
      (codes "dsp", dsp_rule kernel)
      ∷ (codes "enddsp", enddsp_rule kernel)
      ∷ (codes "port", port_rule kernel)
      ∷ (codes "endport", endport_rule kernel)
      ∷ (codes "ff", ff_rule kernel)
      ∷ (codes "endff", endff_rule kernel)
      ∷ (codes "clk", control_rule kernel (codes "clk"))
      ∷ (codes "rst", control_rule kernel (codes "rst"))
      ∷ (codes "ena", control_rule kernel (codes "ena"))
      ∷ (codes "d", data_rule kernel (codes "d"))
      ∷ (codes "q", data_rule kernel (codes "q"))
      ∷ (codes "require", require_rule kernel)
      ∷ (codes "match", match_rule kernel)
      ∷ (codes "set", set_rule kernel)
      ∷ (codes "map", map_rule kernel)
      ∷ (codes "con", con_rule kernel)
      ∷ []

  unfoldable pub apply_fields : List (List ℕ) → Loader C → Outcome (Loader C)
  unfolding chain rules
  apply_fields [] s = undefined
  apply_fields (field ∷ args) s = chain rules field args s

  unfoldable pub load_line : List ℕ → Loader C → Outcome (Loader C)
  unfolding is_blank_line strip_comment apply_fields words
  load_line line s = elim (is_blank_line (strip_comment line)) [
    | true ↦ returned s
    | false ↦ apply_fields (words (strip_comment line)) s
  ]

  unfoldable pub load_lines : List (List ℕ) → Loader C → Outcome (Loader C)
  unfolding load_line
  load_lines [] s = returned s
  load_lines (line ∷ lines) s = load_line line s >>= λ s'. load_lines lines s'

  -- A default-constructed PortType has no name, the bits (0, 0) and no associated ports.
  abbrev pub start : Loader C
  start = record {
    tok = [];
    dsp_types = [];
    flop_types = [];
    dsp_aliases = [];
    port_names = [];
    port_type = record { name = []; bits = some (0, 0); assoc = [] };
    register_type = empty_register kernel;
  }

-- The conversion of a list of types to a map, which no two of them may share a name in.
unfoldable pub to_map :
    {T : Type 0} → (T → List ℕ) → List T → List (List ℕ × T) → Outcome (List (List ℕ × T))
unfolding lookup insert_new
to_map name [] m = returned m
to_map name (t ∷ types) m = elim (lookup (name t) m) [
  | some u ↦ rejected
  | none ↦ to_map name types (insert_new (name t) t m)
]

-- m_DspTypes and m_FlopTypes
abbrev pub Types : Type 0 → Type 0
Types C = List (List ℕ × DspType C) × List (List ℕ × FlopType C)

-- A file that cannot be opened is `none`.
unfoldable pub load_rules :
    {C : Type 0} ⦃e : Eq C⦄ → Kernel C → Option (List ℕ) → Types C → Outcome (Types C)
unfolding load_lines to_map split_on reversed
load_rules kernel none types = rejected
load_rules {C = C} kernel (some content) (m_dsp_types, m_flop_types) =
    load_lines kernel (split_on b'\n' content) (start kernel) >>= λ s.
    to_map (λ (t : DspType C). t.name) (reversed s.dsp_types []) m_dsp_types >>= λ dsps.
    to_map (λ (t : FlopType C). t.name) (reversed s.flop_types []) m_flop_types >>= λ flops.
    returned (dsps, flops)
