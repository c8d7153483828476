-- ===== src/Sdc/Commands/Script.antt =====
-- sdc-plugin/sdc.cc: the commands by their names, as the members of SdcPlugin register them, and
-- read_sdc, from the contents of its file on.
--
-- The interpreter is an interface: `eval` is Tcl_EvalFile on the contents of the file, with the
-- procedure that runs a command on its words; the commands of Yosys are imported into it. The commands
-- of Tcl, of Yosys, and of the plugin beside the three that change the SdcWriter are a list by their
-- names.
use yosys_f4pga_plugins.Prelude.{
  ℕ, ◌≡◌, ◌≢◌, refl, Bool, true, false, not, ◌&&◌, ◌||◌, Option, none, some, List, [], ◌∷◌, ◌++◌,
  ◌==◌, ltb, All, All-append, arith,
}
use yosys_f4pga_plugins.Prelude.Text.{codes, same_text, text_eq}
use yosys_f4pga_plugins.Prelude.Dict.{lookup, member}
use yosys_f4pga_plugins.Prelude.Equality.{nat_eq}
use yosys_f4pga_plugins.Prelude.Words.{IsWord, Free, words, lines, spaced, closed}
use yosys_f4pga_plugins.Sdc.Writer.{SdcWriter}
use yosys_f4pga_plugins.Sdc.Commands.{
  Outcome, rejected, thrown, exhausted, returned, set_false_path_execute, set_max_delay_execute,
  set_clock_groups_execute,
}

-- A command on the state, in front of the commands that follow.
unfoldable pub and_then : {A : Type 0} → Outcome A → (A → Outcome A) → Outcome A
and_then (returned a) k = k a
and_then rejected k = rejected
and_then thrown k = thrown
and_then exhausted k = exhausted

-- The commands of a file, one on each line, run by `run`.
unfoldable pub run_lines :
    {A : Type 0} → (List (List ℕ) → A → Outcome A) → List (List ℕ) → A → Outcome A
run_lines run [] a = returned a
run_lines run (line ∷ rest) a = and_then (run (words line) a) (run_lines run rest)

-- A printed character of ASCII that Tcl gives no meaning.
unfoldable pub is_graph : ℕ → Bool
unfolding member
is_graph c = ltb 32 c && ltb c 127 && not (member c (codes "\"#$;[\\]{}"))

unfoldable pub is_plain : ℕ → Bool
unfolding is_graph
is_plain c = is_graph c || (c == b' ' || c == b'\n')

-- A word that Tcl takes as it is.
unfoldable pub IsTclWord : List ℕ → Type 0
IsTclWord w = (w ≢ []) × All (λ c. is_graph c ≡ true) w

-- A test for it.
unfoldable pub all_graph : List ℕ → Bool
unfolding is_graph
all_graph [] = true
all_graph (c ∷ w) = is_graph c && all_graph w

pub all_graph-All : (w : List ℕ) → all_graph w ≡ true → All (λ c. is_graph c ≡ true) w
unfolding all_graph
all_graph-All [] h = tt
all_graph-All (c ∷ w) h = (ground arith, all_graph-All w (ground arith))

pub tcl_word : (w : List ℕ) → same_text w [] ≡ false → all_graph w ≡ true → IsTclWord w
unfolding IsTclWord same_text
tcl_word [] e h = absurd (cc e)
tcl_word (c ∷ w) e h = (λ n. cc, all_graph-All (c ∷ w) h)

graph_not_blank : (c : ℕ) → is_graph c ≡ true → (c ≢ b' ') × (c ≢ b'\n')
unfolding is_graph
graph_not_blank c h = (λ e. ground arith, λ e. ground arith)

pub IsTclWord-IsWord : (w : List ℕ) → IsTclWord w → IsWord w
unfolding IsTclWord IsWord
IsTclWord-IsWord w (n, g) = (n, spaces w g, newlines w g)
  where
    spaces : (v : List ℕ) → All (λ c. is_graph c ≡ true) v → All (λ c. c ≢ b' ') v
    spaces [] g = tt
    spaces (c ∷ v) g = ((graph_not_blank c g.0).0, spaces v g.1)

    newlines : (v : List ℕ) → All (λ c. is_graph c ≡ true) v → All (λ c. c ≢ b'\n') v
    newlines [] g = tt
    newlines (c ∷ v) g = ((graph_not_blank c g.0).1, newlines v g.1)

pub words-IsWord : (ws : List (List ℕ)) → All IsTclWord ws → All IsWord ws
words-IsWord [] h = tt
words-IsWord (w ∷ ws) h = (IsTclWord-IsWord w h.0, words-IsWord ws h.1)

abbrev pub IsPlain : List ℕ → Type 0
IsPlain s = All (λ c. is_plain c ≡ true) s

pub graph-IsPlain : (w : List ℕ) → All (λ c. is_graph c ≡ true) w → IsPlain w
unfolding is_plain
graph-IsPlain [] g = tt
graph-IsPlain (c ∷ w) g = (rw g.0 refl, graph-IsPlain w g.1)

pub append-IsPlain : (v w : List ℕ) → IsPlain v → IsPlain w → IsPlain (v ++ w)
append-IsPlain v w hv hw = All-append (λ c. is_plain c ≡ true) v w hv hw

pub spaced-IsPlain : (ws : List (List ℕ)) → All IsTclWord ws → IsPlain (spaced ws)
unfolding spaced IsTclWord is_plain is_graph member
spaced-IsPlain [] h = tt
spaced-IsPlain (w ∷ ws) h =
    (refl, append-IsPlain w (spaced ws) (graph-IsPlain w h.0.1) (spaced-IsPlain ws h.1))

pub closed-IsPlain : (ws : List (List ℕ)) → All IsTclWord ws → IsPlain (closed ws)
unfolding closed IsTclWord is_plain is_graph member
closed-IsPlain [] h = tt
closed-IsPlain (w ∷ ws) h =
    append-IsPlain w (b' ' ∷ closed ws) (graph-IsPlain w h.0.1) (refl, closed-IsPlain ws h.1)

pub closed-Free : (ws : List (List ℕ)) → All IsTclWord ws → Free b'\n' (closed ws)
unfolding closed IsWord
closed-Free [] h = tt
closed-Free (w ∷ ws) h =
    All-append (λ c. c ≢ b'\n') w (b' ' ∷ closed ws) (IsTclWord-IsWord w h.0).2
      (λ e. omega arith, closed-Free ws h.1)

-- A line of words in front of a text.
pub line-IsPlain :
    (w : List ℕ) (ws : List (List ℕ)) (s : List ℕ)
    → IsTclWord w
    → All IsTclWord ws
    → IsPlain s
    → IsPlain ((w ++ spaced ws) ++ (b'\n' ∷ s))
unfolding IsTclWord is_plain is_graph member
line-IsPlain w ws s h hs k =
    append-IsPlain (w ++ spaced ws) (b'\n' ∷ s)
      (append-IsPlain w (spaced ws) (graph-IsPlain w h.1) (spaced-IsPlain ws hs)) (refl, k)

-- Tcl's evaluation of a script: where no character has a meaning to it, each line is a command, its
-- words are between spaces, and the first command that fails ends the script.
pub record TclApi : Type 1 where
  pub eval : {A : Type 0} → (List (List ℕ) → A → Outcome A) → List ℕ → A → Outcome A
  pub eval-plain :
      {A : Type 0} (run : List (List ℕ) → A → Outcome A) (s : List ℕ) (a : A)
      → All (λ c. is_plain c ≡ true) s
      → eval run s a ≡ run_lines run (lines s) a

module _ {F : Type 0} (stof : List ℕ → Option F) (f0 : F)
    (others : List (List ℕ × (List (List ℕ) → SdcWriter F → Outcome (SdcWriter F)))) where
  -- The command that is registered under the first word; there is an error if there is none.
  unfoldable pub run_command : List (List ℕ) → SdcWriter F → Outcome (SdcWriter F)
  unfolding set_false_path_execute set_max_delay_execute set_clock_groups_execute lookup same_text
  run_command [] w = returned w
  run_command (command ∷ args) w = elim (same_text command (codes "set_false_path")) [
    | true ↦ set_false_path_execute (command ∷ args) w
    | false ↦ elim (same_text command (codes "set_max_delay")) [
      | true ↦ set_max_delay_execute stof f0 (command ∷ args) w
      | false ↦ elim (same_text command (codes "set_clock_groups")) [
        | true ↦ set_clock_groups_execute (command ∷ args) w
        | false ↦ elim (lookup command others) [
          | none ↦ rejected
          | some execute ↦ execute (command ∷ args) w
        ]
      ]
    ]
  ]

  -- ReadSdcCmd::execute, from Tcl_EvalFile on.
  unfoldable pub read_sdc : TclApi → List ℕ → SdcWriter F → Outcome (SdcWriter F)
  unfolding run_command
  read_sdc tcl content w = tcl.eval run_command content w
