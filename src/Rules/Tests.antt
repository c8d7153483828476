-- ===== src/Rules/Tests.antt =====
-- Rules files, read.
use yosys_f4pga_plugins.Prelude.{ℕ, ◌≡◌, ◌≢◌, refl, none, some, List, [], ◌∷◌, map, All}
use yosys_f4pga_plugins.Prelude.Text.{String, codes, same_text, text_eq}
use yosys_f4pga_plugins.Prelude.Words.{is_free, is_free-Free, split_on, filled, words, onto_first}
use yosys_f4pga_plugins.Prelude.Dict.{lookup, put, replace, insert_new, same_dict, within_dict}
use yosys_f4pga_plugins.Rules.{
  Outcome, rejected, undefined, returned, Kernel, FlopType, DspType, same_register, push_existing,
  push_port, is_blank, no_blank, last_equals, match_name_value, parse_name_value, digits, number_of,
  stoi, reversed, no_line_end, after, match_port, parse_port_name,
}
use yosys_f4pga_plugins.Rules.Pairs.{IsSetting, joined, parse_name_value-joined}
use yosys_f4pga_plugins.Rules.Sections.{
  Loader, with_back, consts_of, names_of, no_assoc, new_flop_type, dsp_rule, push_aliases,
  enddsp_rule, port_rule, push_ports, endport_rule, ff_rule, endff_rule,
}
use yosys_f4pga_plugins.Rules.Signals.{
  back, with_flop, associate, set_flop_port, control_port, control_flop, control_rule, data_rule,
  require_rule, match_rule, set_rule, map_rule, con_rule,
}
use yosys_f4pga_plugins.Rules.Load.{
  strip_comment, is_blank_line, chain, rules, apply_fields, load_line, load_lines, start, to_map,
  Types, load_rules,
}
use yosys_f4pga_plugins.Rules.Load.Sound.{load_rules-ne-undefined, load_lines-Holds, start-IsOpen}
use yosys_f4pga_plugins.Rules.Load.Returns.{Holds}
use yosys_f4pga_plugins.Rules.Load.Nested.{IsOpen}
use yosys_f4pga_plugins.Rules.Load.Maps.{load_rules-holds}

-- Texts serve as constants, and names are not escaped.
abbrev plain_kernel : Kernel (List ℕ)
plain_kernel = record {
  escape_id = λ s. s;
  text_const = λ s. s;
  from_string = λ s. s;
  undefined_const = [];
}

abbrev load : String → Outcome (Types (List ℕ))
load s = load_rules plain_kernel (some (codes s)) ([], [])

-- A section that is open at the end of the file is accepted, here without its alias.
unfinished :
    load "dsp MAC OTHER\n"
    ≡ returned ((codes "MAC", record { name = codes "MAC"; registers = [] }) ∷ [], [])
unfolding load_rules load_lines load_line apply_fields chain rules to_map is_blank_line
    strip_comment split_on filled words onto_first same_text reversed lookup put replace insert_new
    same_dict within_dict same_register push_existing push_port is_blank no_blank last_equals
    match_name_value parse_name_value digits number_of stoi no_line_end after match_port
    parse_port_name with_back consts_of names_of no_assoc new_flop_type dsp_rule push_aliases
    enddsp_rule port_rule push_ports endport_rule ff_rule endff_rule back with_flop associate
    set_flop_port control_port control_flop control_rule data_rule require_rule match_rule set_rule
    map_rule con_rule
unfinished = refl

keyword_out_of_place : load "port A\n" ≡ rejected
unfolding load_rules load_lines load_line apply_fields chain rules to_map is_blank_line
    strip_comment split_on filled words onto_first same_text reversed lookup put replace insert_new
    same_dict within_dict same_register push_existing push_port is_blank no_blank last_equals
    match_name_value parse_name_value digits number_of stoi no_line_end after match_port
    parse_port_name with_back consts_of names_of no_assoc new_flop_type dsp_rule push_aliases
    enddsp_rule port_rule push_ports endport_rule ff_rule endff_rule back with_flop associate
    set_flop_port control_port control_flop control_rule data_rule require_rule match_rule set_rule
    map_rule con_rule
keyword_out_of_place = refl

named_twice : load "ff FD\nendff\nff FD\nendff" ≡ rejected
unfolding load_rules load_lines load_line apply_fields chain rules to_map is_blank_line
    strip_comment split_on filled words onto_first same_text reversed lookup put replace insert_new
    same_dict within_dict same_register push_existing push_port is_blank no_blank last_equals
    match_name_value parse_name_value digits number_of stoi no_line_end after match_port
    parse_port_name with_back consts_of names_of no_assoc new_flop_type dsp_rule push_aliases
    enddsp_rule port_rule push_ports endport_rule ff_rule endff_rule back with_flop associate
    set_flop_port control_port control_flop control_rule data_rule require_rule match_rule set_rule
    map_rule con_rule
named_twice = refl

abbrev flop_text : String
flop_text = "ff FD # a flip-flop\n\n  d D\n  require K=1\nendff\n"

abbrev flop_rule : FlopType (List ℕ)
flop_rule = record {
  name = codes "FD";
  ports =
      (codes "q", [])
      ∷ (codes "d", codes "D")
      ∷ (codes "ena", [])
      ∷ (codes "rst", [])
      ∷ (codes "clk", [])
      ∷ [];
  matching = [];
  required = (codes "K", codes "1") ∷ [];
  set = [];
  map = [];
}

flop_file : load flop_text ≡ returned ([], (codes "FD", flop_rule) ∷ [])
unfolding load_rules load_lines load_line apply_fields chain rules to_map is_blank_line
    strip_comment split_on filled words onto_first same_text reversed lookup put replace insert_new
    same_dict within_dict same_register push_existing push_port is_blank no_blank last_equals
    match_name_value parse_name_value digits number_of stoi no_line_end after match_port
    parse_port_name with_back consts_of names_of no_assoc new_flop_type dsp_rule push_aliases
    enddsp_rule port_rule push_ports endport_rule ff_rule endff_rule back with_flop associate
    set_flop_port control_port control_flop control_rule data_rule require_rule match_rule set_rule
    map_rule con_rule
flop_file = refl

abbrev assoc_of : List ℕ → List (List ℕ × (List ℕ × List ℕ))
assoc_of clk =
    (codes "ena", ([], [])) ∷ (codes "rst", ([], [])) ∷ (codes "clk", (clk, codes "0")) ∷ []

-- Two ports of one register, and an alias.
dsp_file :
    load "dsp M N\nport A[3:0] B\nclk C 0\nset R=1\nendport\nenddsp"
    ≡ returned (
      map
          (λ name. (
            name,
            record {
              name = name;
              registers =
                  (
                    record { set = (codes "R", codes "1") ∷ []; map = []; connect = [] },
                    record { name = codes "A"; bits = some (0, 3); assoc = assoc_of (codes "C") }
                        ∷ record { name = codes "B"; bits = none; assoc = assoc_of (codes "C") }
                        ∷ [],
                  )
                  ∷ [];
            },
          ))
          (codes "N" ∷ codes "M" ∷ []),
      [],
    )
unfolding load_rules load_lines load_line apply_fields chain rules to_map is_blank_line
    strip_comment split_on filled words onto_first same_text reversed lookup put replace insert_new
    same_dict within_dict same_register push_existing push_port is_blank no_blank last_equals
    match_name_value parse_name_value digits number_of stoi no_line_end after match_port
    parse_port_name with_back consts_of names_of no_assoc new_flop_type dsp_rule push_aliases
    enddsp_rule port_rule push_ports endport_rule ff_rule endff_rule back with_flop associate
    set_flop_port control_port control_flop control_rule data_rule require_rule match_rule set_rule
    map_rule con_rule
dsp_file = refl

reversed_range : load "dsp M\nport A[0:3]\n" ≡ rejected
unfolding load_rules load_lines load_line apply_fields chain rules to_map is_blank_line
    strip_comment split_on filled words onto_first same_text reversed lookup put replace insert_new
    same_dict within_dict same_register push_existing push_port is_blank no_blank last_equals
    match_name_value parse_name_value digits number_of stoi no_line_end after match_port
    parse_port_name with_back consts_of names_of no_assoc new_flop_type dsp_rule push_aliases
    enddsp_rule port_rule push_ports endport_rule ff_rule endff_rule back with_flop associate
    set_flop_port control_port control_flop control_rule data_rule require_rule match_rule set_rule
    map_rule con_rule
reversed_range = refl

load_rules-ne-undefined_example :
    load_rules plain_kernel (some (codes "enddsp\n")) ([], []) ≢ undefined
load_rules-ne-undefined_example =
    load_rules-ne-undefined plain_kernel (some (codes "enddsp\n")) ([], [])

load_rules-holds_example :
    (s : Loader (List ℕ)) × (load_lines plain_kernel
        (split_on b'\n' (codes flop_text))
        (start plain_kernel)
      ≡ returned s)
    × All (λ (t : DspType (List ℕ)). lookup t.name [] ≡ some t) (reversed s.dsp_types [])
    × All
        (λ (t : FlopType (List ℕ)). lookup t.name ((codes "FD", flop_rule) ∷ []) ≡ some t)
        (reversed s.flop_types [])
load_rules-holds_example =
    load_rules-holds plain_kernel (codes flop_text) ([], []) ([], (codes "FD", flop_rule) ∷ [])
      flop_file

abbrev settings : List (List ℕ × List ℕ)
settings = (codes "K", codes "1") ∷ (codes "A=B", codes "x") ∷ []

settings-IsSetting : All IsSetting settings
unfolding no_blank is_blank is_free
settings-IsSetting = (
  record {
    name = λ e. cc;
    value = λ e. cc;
    name_blanks = refl;
    value_blanks = refl;
    last = is_free-Free b'=' (codes "1") refl;
  },
  (
    record {
      name = λ e. cc;
      value = λ e. cc;
      name_blanks = refl;
      value_blanks = refl;
      last = is_free-Free b'=' (codes "x") refl;
    },
    tt,
  ),
)

parse_name_value-joined_example : parse_name_value (map joined settings) ≡ returned settings
parse_name_value-joined_example = parse_name_value-joined settings settings-IsSetting

load_lines-Holds_example :
    Holds IsOpen
      (load_lines plain_kernel (codes "dsp M" ∷ codes "endport" ∷ []) (start plain_kernel))
load_lines-Holds_example =
    load_lines-Holds plain_kernel (codes "dsp M" ∷ codes "endport" ∷ []) (start plain_kernel)
      (start-IsOpen plain_kernel)
