-- ===== src/Sdc/Commands/Tests.antt =====
-- The theorems on the SDC commands at concrete inputs. Delays are natural numbers here, written as a
-- row of digits 'x'.
use yosys_f4pga_plugins.Prelude.{
  ℕ, suc, true, ◌≡◌, refl, Option, none, some, List, [], ◌∷◌, ◌++◌, All, arith, length, replicate,
  ◌==◌, if◌then◌else◌, ◌≢◌,
}
use yosys_f4pga_plugins.Prelude.Text.{codes, same_text, text_eq}
use yosys_f4pga_plugins.Prelude.Dict.{lookup, member}
use yosys_f4pga_plugins.Sdc.Writer.{
  FalsePath, TimingPath, SdcWriter, write_false_paths, write_max_delay, write_relation, get_groups,
}
use yosys_f4pga_plugins.Prelude.Words.{lines, words}
use yosys_f4pga_plugins.Sdc.Commands.{
  Outcome, rejected, returned, exhausted, starts_dash, set_clock_groups_execute, add_clock_groups,
}
use yosys_f4pga_plugins.Sdc.Commands.Script.{
  run_lines, is_graph, all_graph, all_graph-All, IsTclWord, tcl_word, TclApi, run_command, read_sdc,
}
use yosys_f4pga_plugins.Sdc.Commands.Replay.{IsPin, write_false_paths-replay}
use yosys_f4pga_plugins.Sdc.Commands.Delays.{IsWritable, write_max_delay-replay}
use yosys_f4pga_plugins.Sdc.Commands.Groups.{
  IsGroup, group_args, relation_args, set_clock_groups_execute-adds,
  set_clock_groups_execute-ne-exhausted,
}
use yosys_f4pga_plugins.Sdc.Commands.Written.{get_groups-add_clock_groups, write_relation-rejected}

abbrev empty : SdcWriter ℕ
empty = record { false_paths = []; timing_paths = []; clock_groups = [] }

abbrev show : ℕ → List ℕ
show n = replicate (suc n) b'x'

abbrev stof : List ℕ → Option ℕ
stof [] = none
stof (c ∷ s) = if c == b'x' then some (length s) else none

abbrev false_path : FalsePath
false_path = record { from_pin = codes "clk"; to_pin = codes "q"; through_pin = [] }

abbrev two_paths : List FalsePath
two_paths = false_path ∷ record { from_pin = []; to_pin = []; through_pin = codes "n1" } ∷ []

pin : (w : List ℕ) → all_graph w ≡ true → IsPin w
unfolding IsPin
pin w h = all_graph-All w h

-- An interpreter that gives no character a meaning.
abbrev tcl : TclApi
tcl = record { eval = λ run s a. run_lines run (lines s) a; eval-plain = λ run s a h. refl }

abbrev Command : Type 0
Command = List (List ℕ) → SdcWriter ℕ → Outcome (SdcWriter ℕ)

-- A command that changes nothing.
abbrev others : List (List ℕ × Command)
others = (codes "puts", λ args w. returned w) ∷ []

no_pin : IsPin []
unfolding IsPin
no_pin = tt

two_paths-ok :
    All (λ path. IsPin path.from_pin × IsPin path.through_pin × IsPin path.to_pin) two_paths
unfolding all_graph is_graph member
two_paths-ok = (
  (pin (codes "clk") refl, no_pin, pin (codes "q") refl),
  ((no_pin, pin (codes "n1") refl, no_pin), tt),
)

write_false_paths-replay_example :
    read_sdc stof 0 others tcl (write_false_paths two_paths) empty
    ≡ returned (record empty { false_paths = [] ++ two_paths })
write_false_paths-replay_example =
    write_false_paths-replay stof 0 others tcl two_paths empty two_paths-ok

abbrev delay_path : TimingPath ℕ
delay_path = record { from_pin = codes "a"; to_pin = []; max_delay = 2 }

delay_path-IsWritable : IsWritable show stof 0 delay_path
unfolding all_graph is_graph member same_text starts_dash
delay_path-IsWritable = record {
  from_word = pin (codes "a") refl;
  to_word = no_pin;
  delay_word = tcl_word (show 2) refl refl;
  unsigned = refl;
  exact = refl;
}

write_max_delay-replay_example :
    read_sdc stof 0 others tcl (write_max_delay show (delay_path ∷ [])) empty
    ≡ returned (record empty { timing_paths = [] ++ (delay_path ∷ []) })
write_max_delay-replay_example =
    write_max_delay-replay show stof 0 others tcl (delay_path ∷ []) empty
      (delay_path-IsWritable, tt)

abbrev fast : List (List ℕ)
fast = codes "clk_a" ∷ codes "clk_b" ∷ []

abbrev slow : List (List ℕ)
slow = codes "clk_c" ∷ []

groups-IsGroup : All IsGroup (fast ∷ slow ∷ [])
unfolding IsGroup starts_dash
groups-IsGroup = (((λ e. cc), (refl, (refl, tt))), (((λ e. cc), (refl, tt)), tt))

set_clock_groups_execute-adds_example :
    set_clock_groups_execute
      (codes "set_clock_groups" ∷ (group_args (fast ∷ slow ∷ []) ++ relation_args 1))
      empty
    ≡ returned (add_clock_groups (fast ∷ slow ∷ []) 1 empty)
set_clock_groups_execute-adds_example =
    set_clock_groups_execute-adds (codes "set_clock_groups") (fast ∷ slow ∷ []) 1 empty
      groups-IsGroup (omega arith)

set_clock_groups_execute-ne-exhausted_example :
    set_clock_groups_execute (codes "set_clock_groups" ∷ codes "-group" ∷ []) empty ≢ exhausted
set_clock_groups_execute-ne-exhausted_example =
    set_clock_groups_execute-ne-exhausted (codes "set_clock_groups" ∷ codes "-group" ∷ []) empty

get_groups-add_clock_groups_example :
    get_groups 1 (add_clock_groups (fast ∷ slow ∷ []) 1 empty).clock_groups
    ≡ get_groups 1 [] ++ (fast ∷ slow ∷ [])
get_groups-add_clock_groups_example = get_groups-add_clock_groups (fast ∷ slow ∷ []) 1 1 empty

groups-IsTclWord : All (λ g. All IsTclWord g) (fast ∷ slow ∷ [])
unfolding all_graph is_graph member same_text
groups-IsTclWord = (
  (tcl_word (codes "clk_a") refl refl, (tcl_word (codes "clk_b") refl refl, tt)),
  ((tcl_word (codes "clk_c") refl refl, tt), tt),
)

write_relation-rejected_example :
    (line : List ℕ) × (args : List (List ℕ)) × (write_relation 1 (fast ∷ slow ∷ [])
      ≡ some (line ++ (b'\n' ∷ [])))
    × (read_sdc stof 0 others tcl (line ++ (b'\n' ∷ [])) empty ≡ rejected)
    × (words line ≡ codes "create_clock_groups" ∷ args)
    × (run_command stof 0 others (codes "set_clock_groups" ∷ args) empty
        ≡ returned (add_clock_groups (fast ∷ slow ∷ []) 1 empty))
unfolding lookup same_text
write_relation-rejected_example =
    write_relation-rejected stof 0 others tcl 1 fast (slow ∷ []) empty (omega arith) groups-IsGroup
      groups-IsTclWord refl
