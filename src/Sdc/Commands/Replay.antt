-- ===== src/Sdc/Commands/Replay.antt =====
-- The lines that SdcWriter writes for false paths, read again as a script.
use mathlib.Core.List.{append_assoc, append-nil}
use mathlib.Core.Path.{subst}
use yosys_f4pga_plugins.Prelude.{
  ℕ, true, false, ◌≡◌, refl, sym, ap, ◌∙◌, Option, List, [], ◌∷◌, ◌++◌, All, All-append,
}
use yosys_f4pga_plugins.Prelude.Text.{codes, same_text}
use yosys_f4pga_plugins.Prelude.Dict.{member}
use yosys_f4pga_plugins.Sdc.Writer.{
  FalsePath, SdcWriter, write_option, write_false_path, write_false_paths, add_false_path,
}
use yosys_f4pga_plugins.Prelude.Words.{
  lines, words, split_on, filled, IsWord, spaced, spaced-append, words-spaced, lines-spaced,
}
use yosys_f4pga_plugins.Sdc.Commands.{
  Outcome, returned, false_path_args, no_false_path, set_false_path_execute, set_false_path_result,
}
use yosys_f4pga_plugins.Sdc.Commands.Script.{
  and_then, run_lines, is_graph, all_graph, IsTclWord, tcl_word, IsTclWord-IsWord, words-IsWord,
  IsPlain, line-IsPlain, TclApi, run_command, read_sdc,
}

-- A pin is left out, or is a word that Tcl takes as it is.
unfoldable pub IsPin : List ℕ → Type 0
IsPin pin = All (λ c. is_graph c ≡ true) pin

-- The words of an option.
unfoldable pub option_words : List ℕ → List ℕ → List (List ℕ)
option_words name [] = []
option_words name (c ∷ pin) = name ∷ (c ∷ pin) ∷ []

pub write_option-spaced :
    (name pin : List ℕ) → write_option name pin ≡ spaced (option_words name pin)
unfolding write_option option_words spaced
write_option-spaced name [] = refl
write_option-spaced name (c ∷ pin) = ap (λ s. b' ' ∷ name ++ (b' ' ∷ c ∷ s)) (sym (append-nil pin))

pub option_words-IsTclWord :
    (name pin : List ℕ) → IsTclWord name → IsPin pin → All IsTclWord (option_words name pin)
unfolding option_words IsTclWord IsPin
option_words-IsTclWord name [] n p = tt
option_words-IsTclWord name (c ∷ pin) n p = (n, (((λ e. cc), p), tt))

false_path_words : FalsePath → List (List ℕ)
unfolding option_words
false_path_words path =
    option_words (codes "-from") path.from_pin
    ++ (option_words (codes "-through") path.through_pin ++ option_words (codes "-to") path.to_pin)

options-spaced :
    (f h t s : List ℕ)
    → codes "set_false_path"
        ++ (write_option (codes "-from") f
            ++ (write_option (codes "-through") h
                ++ (write_option (codes "-to") t ++ (b'\n' ∷ []))))
        ++ s
      ≡ (codes "set_false_path"
          ++ spaced (
              option_words (codes "-from") f
              ++ (option_words (codes "-through") h ++ option_words (codes "-to") t)))
        ++ (b'\n' ∷ s)
options-spaced f h t s =
    rw
      (
        write_option-spaced (codes "-from") f,
        write_option-spaced (codes "-through") h,
        write_option-spaced (codes "-to") t,
        spaced-append (option_words (codes "-from") f)
            (option_words (codes "-through") h ++ option_words (codes "-to") t),
        spaced-append (option_words (codes "-through") h) (option_words (codes "-to") t),
      )
      (simp append_assoc)

write_false_path-words :
    (path : FalsePath) (s : List ℕ)
    → write_false_path path ++ s
      ≡ (codes "set_false_path" ++ spaced (false_path_words path)) ++ (b'\n' ∷ s)
unfolding write_false_path false_path_words
write_false_path-words path s = options-spaced path.from_pin path.through_pin path.to_pin s

options-args :
    (f h t : List ℕ)
    → false_path_args
        (option_words (codes "-from") f
          ++ (option_words (codes "-through") h ++ option_words (codes "-to") t))
        no_false_path
      ≡ returned (record { is_quiet = false; from_pin = f; to_pin = t; through_pin = h })
unfolding false_path_args no_false_path option_words same_text
options-args [] [] [] = refl
options-args [] [] (c ∷ t) = refl
options-args [] (d ∷ h) [] = refl
options-args [] (d ∷ h) (c ∷ t) = refl
options-args (b ∷ f) [] [] = refl
options-args (b ∷ f) [] (c ∷ t) = refl
options-args (b ∷ f) (d ∷ h) [] = refl
options-args (b ∷ f) (d ∷ h) (c ∷ t) = refl

false_path_words-IsTclWord :
    (path : FalsePath)
    → IsPin path.from_pin × IsPin path.through_pin × IsPin path.to_pin
    → All IsTclWord (false_path_words path)
unfolding false_path_words all_graph is_graph member same_text
false_path_words-IsTclWord path p =
    All-append IsTclWord (option_words (codes "-from") path.from_pin) _
      (option_words-IsTclWord (codes "-from") path.from_pin (tcl_word (codes "-from") refl refl)
        p.0)
      (All-append IsTclWord (option_words (codes "-through") path.through_pin) _
        (option_words-IsTclWord (codes "-through") path.through_pin
          (tcl_word (codes "-through") refl refl) p.1)
        (option_words-IsTclWord (codes "-to") path.to_pin (tcl_word (codes "-to") refl refl) p.2))

command-IsTclWord : IsTclWord (codes "set_false_path")
unfolding all_graph is_graph member same_text
command-IsTclWord = tcl_word (codes "set_false_path") refl refl

write_false_paths-IsPlain :
    (paths : List FalsePath)
    → All (λ path. IsPin path.from_pin × IsPin path.through_pin × IsPin path.to_pin) paths
    → IsPlain (write_false_paths paths)
unfolding write_false_paths
write_false_paths-IsPlain [] h = tt
write_false_paths-IsPlain (path ∷ paths) h =
    subst IsPlain (sym (write_false_path-words path (write_false_paths paths))) (
      line-IsPlain (codes "set_false_path") (false_path_words path) (write_false_paths paths)
        command-IsTclWord (false_path_words-IsTclWord path h.0)
        (write_false_paths-IsPlain paths h.1))

module _ {F : Type 0} (stof : List ℕ → Option F) (f0 : F)
    (others : List (List ℕ × (List (List ℕ) → SdcWriter F → Outcome (SdcWriter F)))) where
  line-adds :
      (path : FalsePath) (w : SdcWriter F)
      → All IsWord (false_path_words path)
      → run_command stof f0 others
          (words (codes "set_false_path" ++ spaced (false_path_words path)))
          w
        ≡ returned (add_false_path path w)
  unfolding run_command same_text set_false_path_execute set_false_path_result false_path_words
  line-adds path w h =
      ap (λ ws. run_command stof f0 others ws w)
        (words-spaced (codes "set_false_path") (false_path_words path)
          (IsTclWord-IsWord (codes "set_false_path") command-IsTclWord) h)
      ∙ ap (λ r. set_false_path_result r w)
          (options-args path.from_pin path.through_pin path.to_pin)

  lines-replay :
      (paths : List FalsePath) (w : SdcWriter F)
      → All (λ path. IsPin path.from_pin × IsPin path.through_pin × IsPin path.to_pin) paths
      → run_lines (run_command stof f0 others) (lines (write_false_paths paths)) w
        ≡ returned (record w { false_paths = w.false_paths ++ paths })
  unfolding run_lines write_false_paths and_then lines split_on filled add_false_path
  lines-replay [] w h =
      ap (λ ps. returned (record w { false_paths = ps })) (sym (append-nil w.false_paths))
  lines-replay (path ∷ paths) w h =
      let run = run_lines (run_command stof f0 others) in
      let ok = words-IsWord (false_path_words path) (false_path_words-IsTclWord path h.0) in
      ap (λ s. run (lines s) w) (write_false_path-words path (write_false_paths paths))
      ∙ ap (λ ls. run ls w)
          (lines-spaced (codes "set_false_path") (false_path_words path) (write_false_paths paths)
            (IsTclWord-IsWord (codes "set_false_path") command-IsTclWord) ok)
      ∙ ap (λ r. and_then r (run (lines (write_false_paths paths)))) (line-adds path w ok)
      ∙ lines-replay paths (add_false_path path w) h.1
      ∙ ap (λ ps. returned (record w { false_paths = ps }))
          (append_assoc w.false_paths (path ∷ []) paths)

  -- Where every pin is empty or a word without a character that Tcl gives a meaning, `read_sdc` of what
  -- `WriteFalsePaths` prints returns, and adds the written paths, in their order, and nothing else.
  pub write_false_paths-replay :
      (tcl : TclApi) (paths : List FalsePath) (w : SdcWriter F)
      → All (λ path. IsPin path.from_pin × IsPin path.through_pin × IsPin path.to_pin) paths
      → read_sdc stof f0 others tcl (write_false_paths paths) w
        ≡ returned (record w { false_paths = w.false_paths ++ paths })
  unfolding read_sdc
  write_false_paths-replay tcl paths w h =
      tcl.eval-plain (run_command stof f0 others) (write_false_paths paths) w
        (write_false_paths-IsPlain paths h)
      ∙ lines-replay paths w h
