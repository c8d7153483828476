-- ===== src/Sdc/Writer.antt =====
-- sdc-plugin/sdc_writer.h and sdc_writer.cc: the constraints that the commands collect, and their text.
--
-- Texts are lists of character codes. A C++ float is an element of the parameter `F`, and `show` is
-- what `ostream <<` prints for it. `WriteClocks` reads the wires of the design, and is not here.
use yosys_f4pga_plugins.Prelude.{
  ℕ, zero, suc, ◌+◌, Option, none, some, List, [], ◌∷◌, ◌++◌, ◌==◌, if◌then◌else◌,
}
use yosys_f4pga_plugins.Prelude.Text.{codes}

pub record FalsePath : Type 0 where
  pub from_pin : List ℕ
  pub to_pin : List ℕ
  pub through_pin : List ℕ

pub record TimingPath (F : Type 0) : Type 0 where
  pub from_pin : List ℕ
  pub to_pin : List ℕ
  pub max_delay : F

-- A clock group is a list of names. A relation is the value of the enum: 0 is NONE, and 4 is the
-- value past the last one, CLOCK_GROUP_RELATION_SIZE. `relation_name_map.at` throws on that one.
unfoldable pub relation_name : ℕ → Option (List ℕ)
relation_name r =
    if r == 0
    then some []
    else if r == 1
    then some (codes "asynchronous")
    else if r == 2
    then some (codes "physically_exclusive")
    else if r == 3
    then some (codes "logically_exclusive")
    else none

-- groups_, a map from relations to groups
abbrev pub ClockGroups : Type 0
ClockGroups = List (ℕ × List (List (List ℕ)))

-- groups_[relation].push_back(group)
unfoldable pub add_group : List (List ℕ) → ℕ → ClockGroups → ClockGroups
add_group group relation [] = (relation, group ∷ []) ∷ []
add_group group relation ((r, gs) ∷ m) =
    let rest = add_group group relation m in
    if r == relation then (r, gs ++ (group ∷ [])) ∷ m else (r, gs) ∷ rest

unfoldable pub get_groups : ℕ → ClockGroups → List (List (List ℕ))
get_groups relation [] = []
get_groups relation ((r, gs) ∷ m) =
    let rest = get_groups relation m in if r == relation then gs else rest

pub record SdcWriter (F : Type 0) : Type 0 where
  pub false_paths : List FalsePath
  pub timing_paths : List (TimingPath F)
  pub clock_groups : ClockGroups

-- if (!pin.empty()) file << " -option " << pin
unfoldable pub write_option : List ℕ → List ℕ → List ℕ
write_option name [] = []
write_option name (c ∷ pin) = b' ' ∷ name ++ (b' ' ∷ c ∷ pin)

unfoldable pub write_false_path : FalsePath → List ℕ
write_false_path path =
    codes "set_false_path"
    ++ (write_option (codes "-from") path.from_pin
        ++ (write_option (codes "-through") path.through_pin
            ++ (write_option (codes "-to") path.to_pin ++ (b'\n' ∷ []))))

unfoldable pub write_false_paths : List FalsePath → List ℕ
write_false_paths [] = []
write_false_paths (path ∷ paths) = write_false_path path ++ write_false_paths paths

-- file << "-group "; for (signal : group) file << signal << " "
unfoldable pub write_signals : List (List ℕ) → List ℕ
write_signals [] = []
write_signals (signal ∷ group) = signal ++ (b' ' ∷ write_signals group)

unfoldable pub write_groups : List (List (List ℕ)) → List ℕ
unfolding write_signals
write_groups [] = []
write_groups (group ∷ groups) = codes "-group " ++ (write_signals group ++ write_groups groups)

-- One round of the loop over relations; `none` is the exception of `relation_name_map.at`.
unfoldable pub write_relation : ℕ → List (List (List ℕ)) → Option (List ℕ)
write_relation relation [] = some []
write_relation relation (group ∷ groups) =
    if relation == 0
    then some (codes "create_clock_groups " ++ (write_groups (group ∷ groups) ++ (b'\n' ∷ [])))
    else elim (relation_name relation) [
      | none ↦ none
      | some name ↦ some (
          codes "create_clock_groups "
          ++ (write_groups (group ∷ groups) ++ ((b'-' ∷ name) ++ (b'\n' ∷ []))))
    ]

-- for (relation = ...; relation <= CLOCK_GROUP_RELATION_SIZE; relation++), with the rounds left
unfoldable pub write_relations : ClockGroups → ℕ → ℕ → Option (List ℕ)
write_relations groups zero relation = some []
write_relations groups (suc n) relation =
    elim (write_relation relation (get_groups relation groups)) [
      | none ↦ none
      | some line ↦ elim (write_relations groups n (relation + 1)) [
        | none ↦ none
        | some rest ↦ some (line ++ rest)
      ]
    ]

unfoldable pub write_clock_groups : ClockGroups → Option (List ℕ)
unfolding write_relations write_relation get_groups
write_clock_groups groups = write_relations groups 5 0

module _ {F : Type 0} where
  unfoldable pub add_false_path : FalsePath → SdcWriter F → SdcWriter F
  add_false_path path w = record w { false_paths = w.false_paths ++ (path ∷ []) }

  unfoldable pub set_max_delay : TimingPath F → SdcWriter F → SdcWriter F
  set_max_delay path w = record w { timing_paths = w.timing_paths ++ (path ∷ []) }

  unfoldable pub add_clock_group : List (List ℕ) → ℕ → SdcWriter F → SdcWriter F
  unfolding add_group
  add_clock_group group relation w = record w {
    clock_groups = add_group group relation w.clock_groups;
  }

module _ {F : Type 0} (show : F → List ℕ) where
  unfoldable pub write_timing_path : TimingPath F → List ℕ
  write_timing_path path =
      codes "set_max_delay "
      ++ (show path.max_delay
          ++ (write_option (codes "-from") path.from_pin
              ++ (write_option (codes "-to") path.to_pin ++ (b'\n' ∷ []))))

  unfoldable pub write_max_delay : List (TimingPath F) → List ℕ
  write_max_delay [] = []
  write_max_delay (path ∷ paths) = write_timing_path path ++ write_max_delay paths
