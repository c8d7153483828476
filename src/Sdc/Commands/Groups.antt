-- ===== src/Sdc/Commands/Groups.antt =====
-- `set_clock_groups`: its loop ends, it adds the groups that it is given, and the lines that
-- `WriteClockGroups` prints are arguments of it again.
use mathlib.Core.List.{append_assoc, append-nil}
use yosys_f4pga_plugins.Prelude.{
  ℕ, zero, suc, ◌<◌, ◌≤◌, false, true, ◌≡◌, refl, sym, ap, ◌∙◌, none, List, [], ◌∷◌, ◌++◌, arith,
  All, ◌≢◌, inl, inr, length, length-append, Bool-cases, Option-cases,
}
use yosys_f4pga_plugins.Prelude.Text.{codes, same_text}
use yosys_f4pga_plugins.Sdc.Writer.{SdcWriter}
use yosys_f4pga_plugins.Sdc.Commands.{
  Outcome, rejected, thrown, exhausted, returned, ClockGroupArgs, take_clocks, starts_dash,
  find_relation, clock_group_args, unless_option, set_clock_groups_execute, set_clock_groups_result,
  add_clock_groups,
}

-- The arguments that give a list of groups, and those that give a relation.
unfoldable pub group_args : List (List (List ℕ)) → List (List ℕ)
group_args [] = []
group_args (group ∷ groups) = codes "-group" ∷ (group ++ group_args groups)

unfoldable pub relation_args : ℕ → List (List ℕ)
relation_args zero = []
relation_args (suc zero) = codes "-asynchronous" ∷ []
relation_args (suc (suc zero)) = codes "-physically_exclusive" ∷ []
relation_args (suc (suc (suc r))) = codes "-logically_exclusive" ∷ []

-- A clock group as an argument: at least one name, and no name is taken for an option.
unfoldable pub IsGroup : List (List ℕ) → Type 0
IsGroup group = (group ≢ []) × All (λ name. starts_dash name ≡ false) group

-- Nothing, or an option first.
StartsOption : List (List ℕ) → Type 0
StartsOption [] = Unit
StartsOption (arg ∷ args) = starts_dash arg ≡ true

take_clocks-append :
    (group rest : List (List ℕ))
    → All (λ name. starts_dash name ≡ false) group
    → StartsOption rest
    → take_clocks (group ++ rest) ≡ (group, rest)
unfolding take_clocks StartsOption
take_clocks-append [] [] h o = refl
take_clocks-append [] (arg ∷ args) h o = rw o refl
take_clocks-append (name ∷ group) rest h o = rw (h.0, take_clocks-append group rest h.1 o) refl

relation_args-StartsOption : (r : ℕ) → StartsOption (relation_args r)
unfolding relation_args StartsOption starts_dash
relation_args-StartsOption zero = tt
relation_args-StartsOption (suc zero) = refl
relation_args-StartsOption (suc (suc zero)) = refl
relation_args-StartsOption (suc (suc (suc r))) = refl

group_args-StartsOption :
    (groups : List (List (List ℕ))) (r : ℕ) → StartsOption (group_args groups ++ relation_args r)
unfolding group_args StartsOption starts_dash
group_args-StartsOption [] r = relation_args-StartsOption r
group_args-StartsOption (group ∷ groups) r = refl

relation_round :
    (fuel r : ℕ) (s : ClockGroupArgs)
    → length (relation_args r) < fuel
    → r < 4
    → s.relation ≡ 0
    → clock_group_args fuel (relation_args r) s ≡ returned (record s { relation = r })
unfolding clock_group_args relation_args find_relation same_text
relation_round zero r s f h e = absurd (omega arith)
relation_round (suc fuel) zero s f h e = ap (λ z. returned (record s { relation = z })) e
relation_round (suc zero) (suc zero) s f h e = absurd (omega arith)
relation_round (suc zero) (suc (suc zero)) s f h e = absurd (omega arith)
relation_round (suc zero) (suc (suc (suc r))) s f h e = absurd (omega arith)
relation_round (suc (suc fuel)) (suc zero) s f h e = refl
relation_round (suc (suc fuel)) (suc (suc zero)) s f h e = refl
relation_round (suc (suc fuel)) (suc (suc (suc zero))) s f h e = refl
relation_round (suc (suc fuel)) (suc (suc (suc (suc r)))) s f h e = absurd (omega arith)

-- One round of the loop, at a group.
group_round :
    (fuel : ℕ) (group rest : List (List ℕ)) (s : ClockGroupArgs)
    → IsGroup group
    → StartsOption rest
    → clock_group_args (suc fuel) (codes "-group" ∷ (group ++ rest)) s
      ≡ clock_group_args fuel rest (record s { clock_groups = s.clock_groups ++ (group ∷ []) })
unfolding clock_group_args find_relation same_text IsGroup
group_round fuel [] rest s h o = absurd (h.0 refl)
group_round fuel (name ∷ group) rest s h o =
    ap (λ p. clock_group_args fuel p.1 (record s { clock_groups = s.clock_groups ++ (p.0 ∷ []) }))
      (take_clocks-append (name ∷ group) rest h.1 o)

clock_group_args-groups :
    (fuel : ℕ) (groups : List (List (List ℕ))) (r : ℕ) (s : ClockGroupArgs)
    → length (group_args groups ++ relation_args r) < fuel
    → All IsGroup groups
    → r < 4
    → s.relation ≡ 0
    → clock_group_args fuel (group_args groups ++ relation_args r) s
      ≡ returned (record s { clock_groups = s.clock_groups ++ groups; relation = r })
unfolding group_args
clock_group_args-groups zero groups r s f h l e = absurd (omega arith)
clock_group_args-groups (suc fuel) [] r s f h l e =
    relation_round (suc fuel) r s f l e
    ∙ ap (λ gs. returned (record s { clock_groups = gs; relation = r }))
        (sym (append-nil s.clock_groups))
clock_group_args-groups (suc fuel) (group ∷ groups) r s f h l e =
    let rest = group_args groups ++ relation_args r in
    let same_args = append_assoc group (group_args groups) (relation_args r) in
    ap (λ args. clock_group_args (suc fuel) (codes "-group" ∷ args) s) same_args
    ∙ group_round fuel group rest s h.0 (group_args-StartsOption groups r)
    ∙ clock_group_args-groups fuel groups r
        (record s { clock_groups = s.clock_groups ++ (group ∷ []) })
        (omega (arith, length-append group rest, ap length same_args)) h.1 l e
    ∙ ap (λ gs. returned (record s { clock_groups = gs; relation = r }))
        (append_assoc s.clock_groups (group ∷ []) groups)

take_clocks-length : (args : List (List ℕ)) → length (take_clocks args).1 ≤ length args
unfolding take_clocks
take_clocks-length [] = omega arith
take_clocks-length (arg ∷ args) = ground (arith, take_clocks-length args)

unless_option-ne-exhausted :
    (arg : List ℕ) (s : ClockGroupArgs) → unless_option arg (returned s) ≢ exhausted
unfolding unless_option
unless_option-ne-exhausted arg s = elim (Bool-cases (starts_dash arg)) [
  | inl e ↦ rw e (λ h. cc)
  | inr e ↦ rw e (λ h. cc)
]

-- A round of the loop, at an argument that is not empty: what is left to show is the case of `-group`.
round-ne-exhausted :
    (fuel c : ℕ) (name : List ℕ) (args : List (List ℕ)) (s : ClockGroupArgs)
    → ((s' : ClockGroupArgs) → clock_group_args fuel args s' ≢ exhausted)
    → (same_text (c ∷ name) (codes "-quiet") ≡ false
        → find_relation name ≡ none
        → same_text (c ∷ name) (codes "-group") ≡ true
        → clock_group_args (suc fuel) ((c ∷ name) ∷ args) s ≢ exhausted)
    → clock_group_args (suc fuel) ((c ∷ name) ∷ args) s ≢ exhausted
unfolding clock_group_args
round-ne-exhausted fuel c name args s next at_group =
    elim (Bool-cases (same_text (c ∷ name) (codes "-quiet"))) [
      | inl q ↦ rw (q, clock_group_args) (next _)
      | inr q ↦ elim (Option-cases (find_relation name)) [
        | inr (r, e) ↦ rw (q, clock_group_args) (rw e (next _))
        | inl e ↦ elim (Bool-cases (same_text (c ∷ name) (codes "-group"))) [
          | inr g ↦ rw (q, clock_group_args) (rw e (rw g (unless_option-ne-exhausted (c ∷ name) s)))
          | inl g ↦ at_group q e g
        ]
      ]
    ]

clock_group_args-ne-exhausted :
    (fuel : ℕ) (args : List (List ℕ)) (s : ClockGroupArgs)
    → length args < fuel
    → clock_group_args fuel args s ≢ exhausted
unfolding clock_group_args
clock_group_args-ne-exhausted zero args s f = absurd (omega arith)
clock_group_args-ne-exhausted (suc fuel) [] s f = λ h. cc
clock_group_args-ne-exhausted (suc fuel) ([] ∷ args) s f = λ h. cc
clock_group_args-ne-exhausted (suc fuel) ((c ∷ name) ∷ []) s f =
    round-ne-exhausted fuel c name [] s
      (λ s'. clock_group_args-ne-exhausted fuel [] s' (omega arith))
      λ q e g. rw (q, clock_group_args) (rw e (rw g (unless_option-ne-exhausted (c ∷ name) s)))
clock_group_args-ne-exhausted (suc fuel) ((c ∷ name) ∷ next ∷ rest) s f =
    round-ne-exhausted fuel c name (next ∷ rest) s
      (λ s'. clock_group_args-ne-exhausted fuel (next ∷ rest) s' (omega arith))
      λ q e g.
        rw (q, clock_group_args)
          (rw e (
            rw g (
              clock_group_args-ne-exhausted fuel _ _
                (omega (arith, take_clocks-length (next ∷ rest))))))

module _ {F : Type 0} where
  -- Groups that are not empty, whose names do not start with a dash, given each behind `-group`, and
  -- one of the four relations: the command returns, and has added the groups under that relation.
  pub set_clock_groups_execute-adds :
      (command : List ℕ) (groups : List (List (List ℕ))) (r : ℕ) (w : SdcWriter F)
      → All IsGroup groups
      → r < 4
      → set_clock_groups_execute (command ∷ (group_args groups ++ relation_args r)) w
        ≡ returned (add_clock_groups groups r w)
  unfolding set_clock_groups_execute set_clock_groups_result
  set_clock_groups_execute-adds command groups r w h l =
      ap (λ a. set_clock_groups_result a w)
        (clock_group_args-groups (suc (length (group_args groups ++ relation_args r))) groups r _
          (omega arith) h l refl)

  result-ne-exhausted :
      (w : SdcWriter F) (o : Outcome ClockGroupArgs)
      → o ≢ exhausted
      → set_clock_groups_result o w ≢ exhausted
  unfolding set_clock_groups_result
  result-ne-exhausted w rejected h = λ e. cc
  result-ne-exhausted w thrown h = λ e. cc
  result-ne-exhausted w exhausted h = λ e. h refl
  result-ne-exhausted w (returned s) h = λ e. cc

  -- Whatever the arguments are, the loop takes them up: the command adds groups, ends with
  -- log_cmd_error, or throws.
  pub set_clock_groups_execute-ne-exhausted :
      (args : List (List ℕ)) (w : SdcWriter F) → set_clock_groups_execute args w ≢ exhausted
  unfolding set_clock_groups_execute set_clock_groups_result
  set_clock_groups_execute-ne-exhausted [] w = λ h. cc
  set_clock_groups_execute-ne-exhausted (command ∷ args) w =
      result-ne-exhausted w _
        (clock_group_args-ne-exhausted (suc (length args)) args _ (omega arith))
