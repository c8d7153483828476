-- ===== src/Sdc/Commands/Written.antt =====
-- Clock groups in the writer and in its file: what `GetGroups` returns after a command, and the lines
-- of `WriteClockGroups`, read again as a script.
use mathlib.Core.List.{append_assoc, append-nil}
use mathlib.Core.Path.{subst}
use yosys_f4pga_plugins.Prelude.{
  ℕ, zero, suc, ◌<◌, ◌≡◌, ◌≢◌, refl, sym, ap, ◌∙◌, Option, none, some, List, [], ◌∷◌, ◌++◌, arith,
  All, All-append, Bool-cases, true, false, ==_iff, inl, inr, ◌==◌, if◌then◌else◌,
}
use yosys_f4pga_plugins.Prelude.Text.{codes, same_text, text_eq}
use yosys_f4pga_plugins.Prelude.Dict.{lookup, member}
use yosys_f4pga_plugins.Sdc.Writer.{
  SdcWriter, ClockGroups, relation_name, add_group, get_groups, add_clock_group, write_relation,
  write_groups, write_signals,
}
use yosys_f4pga_plugins.Prelude.Words.{
  lines, lines-append, words, words-closed, closed, closed-append, split_on, filled, onto_first,
  Free, is_free, is_free-Free,
}
use yosys_f4pga_plugins.Sdc.Commands.{Outcome, returned, rejected, add_clock_groups}
use yosys_f4pga_plugins.Sdc.Commands.Groups.{
  group_args, relation_args, IsGroup, set_clock_groups_execute-adds,
}
use yosys_f4pga_plugins.Sdc.Commands.Script.{
  and_then, run_lines, is_graph, is_plain, all_graph, all_graph-All, graph-IsPlain, append-IsPlain,
  closed-IsPlain, closed-Free, IsTclWord, tcl_word, words-IsWord, IsPlain, TclApi, run_command,
  read_sdc,
}

same_test : (a b c : ℕ) → (a == b) ≡ true → (b == c) ≡ (a == c)
same_test a b c e = ap (λ n. n == c) (sym ((==_iff a b).0 e))

apart_test : (a b c : ℕ) → (a == b) ≡ false → (a == c) ≡ true → (b == c) ≡ false
apart_test a b c e f = ground arith

get_groups-add_group :
    (group : List (List ℕ)) (r k : ℕ) (m : ClockGroups)
    → get_groups k (add_group group r m) ≡ get_groups k m ++ (if r == k then group ∷ [] else [])
unfolding get_groups add_group
get_groups-add_group group r k [] = elim (Bool-cases (r == k)) [
  | inl e ↦ rw e refl
  | inr e ↦ rw e refl
]
get_groups-add_group group r k ((r', gs) ∷ m) = elim (Bool-cases (r' == r)) [
  | inl e ↦ elim (Bool-cases (r' == k)) [
    | inl f ↦ rw e (rw (f, same_test r' r k e ∙ f) refl)
    | inr f ↦ rw e (rw (f, same_test r' r k e ∙ f) (sym (append-nil (get_groups k m))))
  ]
  | inr e ↦ elim (Bool-cases (r' == k)) [
    | inl f ↦ rw e (rw (f, apart_test r' r k e f) (sym (append-nil gs)))
    | inr f ↦ rw e (rw f (get_groups-add_group group r k m))
  ]
]

module _ {F : Type 0} where
  -- Under the command's relation, the new groups stand behind those that were there, in the order
  -- given; under any other relation nothing changes.
  pub get_groups-add_clock_groups :
      (groups : List (List (List ℕ))) (r k : ℕ) (w : SdcWriter F)
      → get_groups k (add_clock_groups groups r w).clock_groups
        ≡ get_groups k w.clock_groups ++ (if r == k then groups else [])
  unfolding add_clock_groups add_clock_group
  get_groups-add_clock_groups [] r k w = elim (Bool-cases (r == k)) [
    | inl e ↦ rw e (sym (append-nil (get_groups k w.clock_groups)))
    | inr e ↦ rw e (sym (append-nil (get_groups k w.clock_groups)))
  ]
  get_groups-add_clock_groups (group ∷ groups) r k w =
      get_groups-add_clock_groups groups r k (add_clock_group group r w)
      ∙ ap (λ gs. gs ++ (if r == k then groups else []))
          (get_groups-add_group group r k w.clock_groups)
      ∙ append_assoc (get_groups k w.clock_groups) (if r == k then group ∷ [] else [])
          (if r == k then groups else [])
      ∙ ap (λ gs. get_groups k w.clock_groups ++ gs)
          (elim (Bool-cases (r == k)) [ inl e ↦ rw e refl | inr e ↦ rw e refl ])

write_signals-closed : (group : List (List ℕ)) → write_signals group ≡ closed group
unfolding write_signals closed
write_signals-closed [] = refl
write_signals-closed (signal ∷ group) = ap (λ s. signal ++ (b' ' ∷ s)) (write_signals-closed group)

write_groups-closed :
    (groups : List (List (List ℕ))) → write_groups groups ≡ closed (group_args groups)
unfolding write_groups closed group_args
write_groups-closed [] = refl
write_groups-closed (group ∷ groups) =
    ap (λ s. codes "-group " ++ s)
      (ap (λ s. s ++ write_groups groups) (write_signals-closed group)
        ∙ ap (λ s. closed group ++ s) (write_groups-closed groups)
        ∙ sym (closed-append group (group_args groups)))

group_args-IsTclWord :
    (groups : List (List (List ℕ)))
    → All (λ group. All IsTclWord group) groups
    → All IsTclWord (group_args groups)
unfolding group_args all_graph is_graph member same_text
group_args-IsTclWord [] h = tt
group_args-IsTclWord (group ∷ groups) h = (
  tcl_word (codes "-group") refl refl,
  All-append IsTclWord group (group_args groups) h.0 (group_args-IsTclWord groups h.1),
)

-- The end of a line: the relation, as an option.
relation_text : ℕ → List ℕ
relation_text zero = []
relation_text (suc zero) = codes "-asynchronous"
relation_text (suc (suc zero)) = codes "-physically_exclusive"
relation_text (suc (suc (suc r))) = codes "-logically_exclusive"

words-relation_text : (r : ℕ) → words (relation_text r) ≡ relation_args r
unfolding relation_text relation_args words split_on filled onto_first
words-relation_text zero = refl
words-relation_text (suc zero) = refl
words-relation_text (suc (suc zero)) = refl
words-relation_text (suc (suc (suc r))) = refl

line_of : ℕ → List (List (List ℕ)) → List ℕ
line_of r groups = codes "create_clock_groups " ++ (write_groups groups ++ relation_text r)

newline :
    (group : List (List ℕ)) (groups : List (List (List ℕ))) (option : List ℕ)
    → some (
        codes "create_clock_groups " ++ (write_groups (group ∷ groups) ++ (option ++ (b'\n' ∷ []))))
      ≡ some (
          (codes "create_clock_groups " ++ (write_groups (group ∷ groups) ++ option))
          ++ (b'\n' ∷ []))
newline group groups option =
    ap (λ t. some (codes "create_clock_groups " ++ t))
      (sym (append_assoc (write_groups (group ∷ groups)) option (b'\n' ∷ [])))

write_relation-line :
    (r : ℕ) (group : List (List ℕ)) (groups : List (List (List ℕ)))
    → r < 4
    → write_relation r (group ∷ groups) ≡ some (line_of r (group ∷ groups) ++ (b'\n' ∷ []))
unfolding write_relation line_of relation_text relation_name
write_relation-line zero group groups l =
    ap (λ t. some (codes "create_clock_groups " ++ t))
      (ap (λ t. t ++ (b'\n' ∷ [])) (sym (append-nil (write_groups (group ∷ groups)))))
write_relation-line (suc zero) group groups l = newline group groups (codes "-asynchronous")
write_relation-line (suc (suc zero)) group groups l =
    newline group groups (codes "-physically_exclusive")
write_relation-line (suc (suc (suc zero))) group groups l =
    newline group groups (codes "-logically_exclusive")
write_relation-line (suc (suc (suc (suc r)))) group groups l = absurd (omega arith)

command-IsTclWord : IsTclWord (codes "create_clock_groups")
unfolding all_graph is_graph member same_text
command-IsTclWord = tcl_word (codes "create_clock_groups") refl refl

line_words-IsTclWord :
    (groups : List (List (List ℕ)))
    → All (λ group. All IsTclWord group) groups
    → All IsTclWord (codes "create_clock_groups" ∷ group_args groups)
line_words-IsTclWord groups h = (command-IsTclWord, group_args-IsTclWord groups h)

relation_text-IsPlain : (r : ℕ) → IsPlain (relation_text r)
unfolding relation_text all_graph is_graph member same_text
relation_text-IsPlain zero = tt
relation_text-IsPlain (suc zero) =
    graph-IsPlain (codes "-asynchronous") (all_graph-All (codes "-asynchronous") refl)
relation_text-IsPlain (suc (suc zero)) =
    graph-IsPlain (codes "-physically_exclusive")
      (all_graph-All (codes "-physically_exclusive") refl)
relation_text-IsPlain (suc (suc (suc r))) =
    graph-IsPlain (codes "-logically_exclusive") (all_graph-All (codes "-logically_exclusive") refl)

-- The line's text up to the relation.
line_of-closed :
    (r : ℕ) (groups : List (List (List ℕ)))
    → line_of r groups ≡ closed (codes "create_clock_groups" ∷ group_args groups) ++ relation_text r
unfolding line_of closed
line_of-closed r groups =
    ap (λ s. codes "create_clock_groups " ++ (s ++ relation_text r)) (write_groups-closed groups)

line_of-IsPlain :
    (r : ℕ) (groups : List (List (List ℕ)))
    → All (λ group. All IsTclWord group) groups
    → IsPlain (line_of r groups ++ (b'\n' ∷ []))
unfolding is_plain is_graph member
line_of-IsPlain r groups h =
    append-IsPlain (line_of r groups) (b'\n' ∷ [])
      (subst IsPlain (sym (line_of-closed r groups)) (
        append-IsPlain (closed (codes "create_clock_groups" ∷ group_args groups)) (relation_text r)
          (closed-IsPlain (codes "create_clock_groups" ∷ group_args groups)
            (line_words-IsTclWord groups h))
          (relation_text-IsPlain r)))
      (refl, tt)

line_of-words :
    (r : ℕ) (groups : List (List (List ℕ)))
    → All (λ group. All IsTclWord group) groups
    → words (line_of r groups)
      ≡ codes "create_clock_groups" ∷ (group_args groups ++ relation_args r)
line_of-words r groups h =
    ap words (line_of-closed r groups)
    ∙ words-closed (codes "create_clock_groups" ∷ group_args groups) (relation_text r) (
        words-IsWord (codes "create_clock_groups" ∷ group_args groups)
          (line_words-IsTclWord groups h))
    ∙ ap (λ ws. codes "create_clock_groups" ∷ (group_args groups ++ ws)) (words-relation_text r)

relation_text-Free : (r : ℕ) → Free b'\n' (relation_text r)
unfolding relation_text is_free
relation_text-Free zero = tt
relation_text-Free (suc zero) = is_free-Free b'\n' (codes "-asynchronous") refl
relation_text-Free (suc (suc zero)) = is_free-Free b'\n' (codes "-physically_exclusive") refl
relation_text-Free (suc (suc (suc r))) = is_free-Free b'\n' (codes "-logically_exclusive") refl

-- The line is not empty and has no newline.
line_of-lines :
    (r : ℕ) (groups : List (List (List ℕ)))
    → All (λ group. All IsTclWord group) groups
    → lines (line_of r groups ++ (b'\n' ∷ [])) ≡ line_of r groups ∷ []
unfolding line_of lines split_on filled
line_of-lines r groups h =
    lines-append (line_of r groups) []
      (subst (Free b'\n') (sym (line_of-closed r groups)) (
        All-append (λ c. c ≢ b'\n') (closed (codes "create_clock_groups" ∷ group_args groups))
          (relation_text r) (closed-Free _ (line_words-IsTclWord groups h)) (relation_text-Free r)))
      (λ e. cc)

module _ {F : Type 0} (stof : List ℕ → Option F) (f0 : F)
    (others : List (List ℕ × (List (List ℕ) → SdcWriter F → Outcome (SdcWriter F)))) where
  create_clock_groups-rejected :
      (args : List (List ℕ)) (w : SdcWriter F)
      → lookup (codes "create_clock_groups") others ≡ none
      → run_command stof f0 others (codes "create_clock_groups" ∷ args) w ≡ rejected
  unfolding run_command same_text
  create_clock_groups-rejected args w u = rw (run_command, u) refl

  set_clock_groups-adds :
      (groups : List (List (List ℕ))) (r : ℕ) (w : SdcWriter F)
      → All IsGroup groups
      → r < 4
      → run_command stof f0 others
          (codes "set_clock_groups" ∷ (group_args groups ++ relation_args r))
          w
        ≡ returned (add_clock_groups groups r w)
  unfolding run_command same_text
  set_clock_groups-adds groups r w h l =
      set_clock_groups_execute-adds (codes "set_clock_groups") groups r w h l

  -- For any of the four relations, groups of words that are not taken for options and have no character
  -- that Tcl gives a meaning, and where no other command is called create_clock_groups, the line that
  -- `WriteClockGroups` prints is rejected by `read_sdc`: it is that name and arguments, with which
  -- `set_clock_groups` would have added the same groups under the same relation.
  pub write_relation-rejected :
      (tcl : TclApi) (r : ℕ) (group : List (List ℕ)) (groups : List (List (List ℕ)))
      (w : SdcWriter F)
      → r < 4
      → All IsGroup (group ∷ groups)
      → All (λ g. All IsTclWord g) (group ∷ groups)
      → lookup (codes "create_clock_groups") others ≡ none
      → (line : List ℕ) × (args : List (List ℕ)) × (write_relation r (group ∷ groups)
          ≡ some (line ++ (b'\n' ∷ [])))
        × (read_sdc stof f0 others tcl (line ++ (b'\n' ∷ [])) w ≡ rejected)
        × (words line ≡ codes "create_clock_groups" ∷ args)
        × (run_command stof f0 others (codes "set_clock_groups" ∷ args) w
            ≡ returned (add_clock_groups (group ∷ groups) r w))
  unfolding read_sdc run_lines and_then
  write_relation-rejected tcl r group groups w l h k u =
      let line = line_of r (group ∷ groups) in
      let args = group_args (group ∷ groups) ++ relation_args r in
      (
        line,
        args,
        write_relation-line r group groups l,
        tcl.eval-plain (run_command stof f0 others) (line ++ (b'\n' ∷ [])) w
              (line_of-IsPlain r (group ∷ groups) k)
            ∙ ap (λ ls. run_lines (run_command stof f0 others) ls w)
                (line_of-lines r (group ∷ groups) k)
            ∙ ap
                (λ ws.
                  and_then (run_command stof f0 others ws w)
                    (run_lines (run_command stof f0 others) []))
                (line_of-words r (group ∷ groups) k)
            ∙ ap (λ o. and_then o (run_lines (run_command stof f0 others) []))
                (create_clock_groups-rejected args w u),
        line_of-words r (group ∷ groups) k,
        set_clock_groups-adds (group ∷ groups) r w h l,
      )
