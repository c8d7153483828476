-- ===== src/Sdc/Commands/Delays.antt =====
-- The lines that `WriteMaxDelay` prints, read again as a script.
use mathlib.Core.List.{append_assoc, append-nil}
use mathlib.Core.Path.{subst}
use yosys_f4pga_plugins.Prelude.{
  ℕ, false, ◌≡◌, refl, sym, ap, ◌∙◌, Option, some, List, [], ◌∷◌, ◌++◌, All, All-append,
}
use yosys_f4pga_plugins.Prelude.Text.{codes, same_text}
use yosys_f4pga_plugins.Prelude.Dict.{member}
use yosys_f4pga_plugins.Sdc.Writer.{
  TimingPath, SdcWriter, write_timing_path, write_max_delay, set_max_delay,
}
use yosys_f4pga_plugins.Prelude.Words.{
  lines, words, split_on, filled, spaced, spaced-append, words-spaced, lines-spaced,
}
use yosys_f4pga_plugins.Sdc.Commands.{
  Outcome, returned, max_delay_args, no_max_delay, read_delay, unless_option, starts_dash,
  set_max_delay_execute, set_max_delay_result,
}
use yosys_f4pga_plugins.Sdc.Commands.Script.{
  and_then, run_lines, is_graph, all_graph, IsTclWord, tcl_word, IsTclWord-IsWord, words-IsWord,
  IsPlain, line-IsPlain, TclApi, run_command, read_sdc,
}
use yosys_f4pga_plugins.Sdc.Commands.Replay.{
  IsPin, option_words, write_option-spaced, option_words-IsTclWord,
}

command-IsTclWord : IsTclWord (codes "set_max_delay")
unfolding all_graph is_graph member same_text
command-IsTclWord = tcl_word (codes "set_max_delay") refl refl

not_option : (arg name : List ℕ) → starts_dash arg ≡ false → same_text arg (b'-' ∷ name) ≡ false
unfolding starts_dash same_text
not_option [] name u = refl
not_option (c ∷ arg) name u = rw u refl

module _ {F : Type 0} (show : F → List ℕ) (stof : List ℕ → Option F) (f0 : F) where
  -- A path that can be written and read back: its pins are words or empty, and the text of its delay
  -- is a word without a sign that `stof` reads as the same number; all of characters that Tcl gives no
  -- meaning.
  pub record IsWritable (path : TimingPath F) : Type 0 where
    pub from_word : IsPin path.from_pin
    pub to_word : IsPin path.to_pin
    pub delay_word : IsTclWord (show path.max_delay)
    pub unsigned : starts_dash (show path.max_delay) ≡ false
    pub exact : stof (show path.max_delay) ≡ some path.max_delay

  path_options : TimingPath F → List (List ℕ)
  path_options path =
      option_words (codes "-from") path.from_pin ++ option_words (codes "-to") path.to_pin

  path_words : TimingPath F → List (List ℕ)
  unfolding path_options
  path_words path = show path.max_delay ∷ path_options path

  write_timing_path-words :
      (path : TimingPath F) (s : List ℕ)
      → write_timing_path show path ++ s
        ≡ (codes "set_max_delay" ++ spaced (path_words path)) ++ (b'\n' ∷ s)
  unfolding write_timing_path path_words path_options spaced
  write_timing_path-words path s =
      rw
        (
          write_option-spaced (codes "-from") path.from_pin,
          write_option-spaced (codes "-to") path.to_pin,
          spaced-append (option_words (codes "-from") path.from_pin)
              (option_words (codes "-to") path.to_pin),
        )
        (simp append_assoc)

  options-args :
      (f t : List ℕ) (x : F)
      → max_delay_args stof f0
          (option_words (codes "-from") f ++ option_words (codes "-to") t)
          (record { is_quiet = false; from_pin = []; to_pin = []; max_delay = x })
        ≡ returned (record { is_quiet = false; from_pin = f; to_pin = t; max_delay = x })
  unfolding max_delay_args option_words same_text
  options-args [] [] x = refl
  options-args [] (c ∷ t) x = refl
  options-args (b ∷ f) [] x = refl
  options-args (b ∷ f) (c ∷ t) x = refl

  -- The argument that is the delay, in front of other arguments.
  delay-args :
      (delay : List ℕ) (rest : List (List ℕ)) (x : F)
      → starts_dash delay ≡ false
      → stof delay ≡ some x
      → max_delay_args stof f0 (delay ∷ rest) (no_max_delay stof f0)
        ≡ max_delay_args stof f0 rest
            (record { is_quiet = false; from_pin = []; to_pin = []; max_delay = x })
  unfolding max_delay_args no_max_delay read_delay unless_option
  delay-args delay [] x u e = rw (not_option delay (codes "quiet") u, u, e) refl
  delay-args delay (next ∷ rest) x u e =
      rw
        (
          max_delay_args,
          not_option delay (codes "quiet") u,
          not_option delay (codes "from") u,
          not_option delay (codes "to") u,
          u,
          e,
        )
        refl

  path_words-IsTclWord : (path : TimingPath F) → IsWritable path → All IsTclWord (path_words path)
  unfolding path_words path_options all_graph is_graph member same_text
  path_words-IsTclWord path p = (
    p.delay_word,
    All-append IsTclWord (option_words (codes "-from") path.from_pin) _
        (option_words-IsTclWord (codes "-from") path.from_pin (tcl_word (codes "-from") refl refl)
          p.from_word)
        (option_words-IsTclWord (codes "-to") path.to_pin (tcl_word (codes "-to") refl refl)
          p.to_word),
  )

  write_max_delay-IsPlain :
      (paths : List (TimingPath F)) → All IsWritable paths → IsPlain (write_max_delay show paths)
  unfolding write_max_delay
  write_max_delay-IsPlain [] h = tt
  write_max_delay-IsPlain (path ∷ paths) h =
      subst IsPlain (sym (write_timing_path-words path (write_max_delay show paths))) (
        line-IsPlain (codes "set_max_delay") (path_words path) (write_max_delay show paths)
          command-IsTclWord (path_words-IsTclWord path h.0) (write_max_delay-IsPlain paths h.1))

  module _ (others : List (List ℕ × (List (List ℕ) → SdcWriter F → Outcome (SdcWriter F)))) where
    line-adds :
        (path : TimingPath F) (w : SdcWriter F)
        → IsWritable path
        → run_command stof f0 others (words (codes "set_max_delay" ++ spaced (path_words path))) w
          ≡ returned (set_max_delay path w)
    unfolding run_command same_text set_max_delay_execute set_max_delay_result path_words
        path_options
    line-adds path w p =
        ap (λ ws. run_command stof f0 others ws w)
          (words-spaced (codes "set_max_delay") (path_words path)
            (IsTclWord-IsWord (codes "set_max_delay") command-IsTclWord)
            (words-IsWord (path_words path) (path_words-IsTclWord path p)))
        ∙ ap (λ r. set_max_delay_result stof f0 r w)
            (delay-args (show path.max_delay) (path_options path) path.max_delay p.unsigned p.exact
              ∙ options-args path.from_pin path.to_pin path.max_delay)

    lines-replay :
        (paths : List (TimingPath F)) (w : SdcWriter F)
        → All IsWritable paths
        → run_lines (run_command stof f0 others) (lines (write_max_delay show paths)) w
          ≡ returned (record w { timing_paths = w.timing_paths ++ paths })
    unfolding run_lines write_max_delay and_then lines split_on filled set_max_delay
    lines-replay [] w h =
        ap (λ ps. returned (record w { timing_paths = ps })) (sym (append-nil w.timing_paths))
    lines-replay (path ∷ paths) w h =
        let run = run_lines (run_command stof f0 others) in
        ap (λ s. run (lines s) w) (write_timing_path-words path (write_max_delay show paths))
        ∙ ap (λ ls. run ls w)
            (lines-spaced (codes "set_max_delay") (path_words path) (write_max_delay show paths)
              (IsTclWord-IsWord (codes "set_max_delay") command-IsTclWord)
              (words-IsWord (path_words path) (path_words-IsTclWord path h.0)))
        ∙ ap (λ r. and_then r (run (lines (write_max_delay show paths)))) (line-adds path w h.0)
        ∙ lines-replay paths (set_max_delay path w) h.1
        ∙ ap (λ ps. returned (record w { timing_paths = ps }))
            (append_assoc w.timing_paths (path ∷ []) paths)

    -- Where every pin is empty or a word, and the delay's text is a word without a sign that reads back
    -- exactly, all without a character that Tcl gives a meaning, `read_sdc` of what `WriteMaxDelay`
    -- prints returns, and adds the written paths, in their order, and nothing else.
    pub write_max_delay-replay :
        (tcl : TclApi) (paths : List (TimingPath F)) (w : SdcWriter F)
        → All IsWritable paths
        → read_sdc stof f0 others tcl (write_max_delay show paths) w
          ≡ returned (record w { timing_paths = w.timing_paths ++ paths })
    unfolding read_sdc
    write_max_delay-replay tcl paths w h =
        tcl.eval-plain (run_command stof f0 others) (write_max_delay show paths) w
          (write_max_delay-IsPlain paths h)
        ∙ lines-replay paths w h
