-- ===== src/Sdc/Commands.antt =====
-- sdc-plugin/set_false_path.cc, set_max_delay.cc and set_clock_groups.cc: `execute` of the three
-- commands, on the arguments and the state of the SdcWriter.
--
-- A design without a top module is `log_cmd_error` before anything else, and is left out. A loop over
-- `argidx` is a recursion on the arguments that are left. `stof` is std::stof, and `none` its
-- std::invalid_argument.

pub mod Script
pub mod Replay
pub mod Groups
pub mod Written
pub mod Delays
pub mod Tests
use yosys_f4pga_plugins.Prelude.{
  ℕ, zero, suc, ◌+◌, Bool, true, false, Option, none, some, List, [], ◌∷◌, ◌++◌, ◌==◌,
  if◌then◌else◌, length,
}
use yosys_f4pga_plugins.Prelude.Text.{codes, same_text}
use yosys_f4pga_plugins.Sdc.Writer.{
  FalsePath, TimingPath, SdcWriter, relation_name, add_false_path, set_max_delay, add_clock_group,
}

-- How a command ends: log_cmd_error, an exception of the C++ library, no fuel, or a result.
pub data Outcome (A : Type 0) : Type 0 where
  rejected thrown exhausted : Outcome A
  returned : A → Outcome A

-- arg.size() > 0 and arg[0] == '-'
unfoldable pub starts_dash : List ℕ → Bool
starts_dash [] = false
starts_dash (c ∷ arg) = c == b'-'

-- if (arg.size() > 0 and arg[0] == '-') log_cmd_error(...), in front of what follows
unfoldable pub unless_option : {A : Type 0} → List ℕ → Outcome A → Outcome A
unless_option arg rest = if starts_dash arg then rejected else rest

-- The local variables of SetFalsePath::execute.
pub record FalsePathArgs : Type 0 where
  pub is_quiet : Bool
  pub from_pin : List ℕ
  pub to_pin : List ℕ
  pub through_pin : List ℕ

unfoldable pub false_path_args : List (List ℕ) → FalsePathArgs → Outcome FalsePathArgs
false_path_args [] s = returned s
false_path_args (arg ∷ []) s =
    if same_text arg (codes "-quiet")
    then returned (record s { is_quiet = true })
    else unless_option arg (returned s)
false_path_args (arg ∷ next ∷ rest) s = elim (same_text arg (codes "-quiet")) [
  | true ↦ false_path_args (next ∷ rest) (record s { is_quiet = true })
  | false ↦ elim (same_text arg (codes "-from")) [
    | true ↦ false_path_args rest (record s { from_pin = next })
    | false ↦ elim (same_text arg (codes "-to")) [
      | true ↦ false_path_args rest (record s { to_pin = next })
      | false ↦ elim (same_text arg (codes "-through")) [
        | true ↦ false_path_args rest (record s { through_pin = next })
        | false ↦ unless_option arg (returned s)
      ]
    ]
  ]
]

unfoldable pub no_false_path : FalsePathArgs
no_false_path = record { is_quiet = false; from_pin = []; to_pin = []; through_pin = [] }

-- The local variables of SetMaxDelay::execute.
pub record MaxDelayArgs (F : Type 0) : Type 0 where
  pub is_quiet : Bool
  pub from_pin : List ℕ
  pub to_pin : List ℕ
  pub max_delay : F

-- The local variables of SetClockGroups::execute.
pub record ClockGroupArgs : Type 0 where
  pub is_quiet : Bool
  pub clock_groups : List (List (List ℕ))
  pub relation : ℕ

-- while (argidx + 1 < args.size() and args[argidx + 1][0] != '-') clock_group.push_back(...); the
-- result is the group and the arguments that are left.
unfoldable pub take_clocks : List (List ℕ) → List (List ℕ) × List (List ℕ)
take_clocks [] = ([], [])
take_clocks (arg ∷ args) =
    let (group, rest) = take_clocks args in
    if starts_dash arg then ([], arg ∷ args) else (arg ∷ group, rest)

-- find_if over relation_name_map, in the order of its keys; `name` is arg.substr(1).
unfoldable pub find_relation : List ℕ → Option ℕ
find_relation name =
    if same_text name []
    then some 0
    else if same_text name (codes "asynchronous")
    then some 1
    else if same_text name (codes "physically_exclusive")
    then some 2
    else if same_text name (codes "logically_exclusive")
    then some 3
    else none

-- The loop over the arguments, on fuel. `substr(1)` of an empty argument throws.
unfoldable pub clock_group_args : ℕ → List (List ℕ) → ClockGroupArgs → Outcome ClockGroupArgs
unfolding take_clocks
clock_group_args zero args s = exhausted
clock_group_args (suc fuel) [] s = returned s
clock_group_args (suc fuel) ([] ∷ args) s = thrown
clock_group_args (suc fuel) ((c ∷ name) ∷ args) s = elim (same_text (c ∷ name) (codes "-quiet")) [
  | true ↦ clock_group_args fuel args (record s { is_quiet = true })
  | false ↦ elim (find_relation name) [
    | some r ↦ clock_group_args fuel args (record s { relation = r })
    | none ↦ elim (same_text (c ∷ name) (codes "-group")) [
      | false ↦ unless_option (c ∷ name) (returned s)
      | true ↦ elim args [
        | [] ↦ unless_option (c ∷ name) (returned s)
        | next ∷ rest ↦
            clock_group_args fuel (take_clocks (next ∷ rest)).1
              (record s { clock_groups = s.clock_groups ++ ((take_clocks (next ∷ rest)).0 ∷ []) })
      ]
    ]
  ]
]

module _ {F : Type 0} where
  unfoldable pub set_false_path_result : Outcome FalsePathArgs → SdcWriter F → Outcome (SdcWriter F)
  set_false_path_result rejected w = rejected
  set_false_path_result thrown w = thrown
  set_false_path_result exhausted w = exhausted
  set_false_path_result (returned s) w = returned (
      add_false_path
        (record { from_pin = s.from_pin; to_pin = s.to_pin; through_pin = s.through_pin }) w)

  -- SetFalsePath::execute; the first argument is the command's name.
  unfoldable pub set_false_path_execute : List (List ℕ) → SdcWriter F → Outcome (SdcWriter F)
  unfolding set_false_path_result false_path_args no_false_path
  set_false_path_execute [] w = set_false_path_result (returned no_false_path) w
  set_false_path_execute (command ∷ args) w =
      set_false_path_result (false_path_args args no_false_path) w

  -- for (auto &group : clock_groups) sdc_writer_.AddClockGroup(group, clock_groups_relation)
  unfoldable pub add_clock_groups : List (List (List ℕ)) → ℕ → SdcWriter F → SdcWriter F
  add_clock_groups [] relation w = w
  add_clock_groups (group ∷ groups) relation w =
      add_clock_groups groups relation (add_clock_group group relation w)

  unfoldable pub set_clock_groups_result :
      Outcome ClockGroupArgs → SdcWriter F → Outcome (SdcWriter F)
  set_clock_groups_result rejected w = rejected
  set_clock_groups_result thrown w = thrown
  set_clock_groups_result exhausted w = exhausted
  set_clock_groups_result (returned s) w = returned (add_clock_groups s.clock_groups s.relation w)

  -- SetClockGroups::execute; every round of the loop takes an argument.
  unfoldable pub set_clock_groups_execute : List (List ℕ) → SdcWriter F → Outcome (SdcWriter F)
  unfolding set_clock_groups_result clock_group_args
  set_clock_groups_execute [] w = returned w
  set_clock_groups_execute (command ∷ args) w =
      set_clock_groups_result
        (clock_group_args (suc (length args)) args
          (record { is_quiet = false; clock_groups = []; relation = 0 }))
        w

module _ {F : Type 0} (stof : List ℕ → Option F) (f0 : F) where
  -- if (...) log_cmd_error(...); max_delay = std::stof(arg), in front of the next round
  unfoldable pub read_delay : List ℕ → (F → Outcome (MaxDelayArgs F)) → Outcome (MaxDelayArgs F)
  read_delay arg next =
      unless_option arg (elim (stof arg) [ none ↦ thrown | some delay ↦ next delay ])

  -- An argument that is no option is the delay, and the loop goes on.
  unfoldable pub max_delay_args : List (List ℕ) → MaxDelayArgs F → Outcome (MaxDelayArgs F)
  max_delay_args [] s = returned s
  max_delay_args (arg ∷ []) s =
      if same_text arg (codes "-quiet")
      then returned (record s { is_quiet = true })
      else read_delay arg λ delay. returned (record s { max_delay = delay })
  max_delay_args (arg ∷ next ∷ rest) s = elim (same_text arg (codes "-quiet")) [
    | true ↦ max_delay_args (next ∷ rest) (record s { is_quiet = true })
    | false ↦ elim (same_text arg (codes "-from")) [
      | true ↦ max_delay_args rest (record s { from_pin = next })
      | false ↦ elim (same_text arg (codes "-to")) [
        | true ↦ max_delay_args rest (record s { to_pin = next })
        | false ↦
            read_delay arg λ delay. max_delay_args (next ∷ rest) (record s { max_delay = delay })
      ]
    ]
  ]

  unfoldable pub set_max_delay_result :
      Outcome (MaxDelayArgs F) → SdcWriter F → Outcome (SdcWriter F)
  set_max_delay_result rejected w = rejected
  set_max_delay_result thrown w = thrown
  set_max_delay_result exhausted w = exhausted
  set_max_delay_result (returned s) w = returned (
      set_max_delay (record { from_pin = s.from_pin; to_pin = s.to_pin; max_delay = s.max_delay })
        w)

  unfoldable pub no_max_delay : MaxDelayArgs F
  no_max_delay = record { is_quiet = false; from_pin = []; to_pin = []; max_delay = f0 }

  -- SetMaxDelay::execute
  unfoldable pub set_max_delay_execute : List (List ℕ) → SdcWriter F → Outcome (SdcWriter F)
  unfolding set_max_delay_result max_delay_args no_max_delay
  set_max_delay_execute [] w = set_max_delay_result (returned no_max_delay) w
  set_max_delay_execute (command ∷ args) w =
      set_max_delay_result (max_delay_args args no_max_delay) w
