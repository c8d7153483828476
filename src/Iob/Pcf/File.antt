-- ===== src/Iob/Pcf/File.antt =====
-- Constraints that are written as a PCF file are read back, and lines that are no constraints are
-- passed over.
use mathlib.Core.List.{append_assoc, append-nil}
use yosys_f4pga_plugins.Prelude.{
  ℕ, ◌≡◌, refl, sym, ap, ◌∙◌, true, none, some, List, [], ◌∷◌, ◌++◌, All,
}
use yosys_f4pga_plugins.Prelude.Text.{strip}
use yosys_f4pga_plugins.Prelude.Words.{Free, split_on, split_on-append}
use yosys_f4pga_plugins.Iob.Pcf.{
  Constraint, is_space, span, some_of, match_names, match_line, parse_constraints, parse_pcf,
}
use yosys_f4pga_plugins.Iob.Pcf.Line.{IsConstraint, constraint_line, match_line-constraint}

-- A constraint whose line holds no newline.
pub record IsPrintable (c : Constraint) : Type 0 where
  pub constraint : IsConstraint c
  pub one_line : Free b'\n' (constraint_line c)

-- A file: constraints, each on its line, between other lines.
pub data PcfLine : Type 0 where
  constrains : Constraint → PcfLine
  other : List ℕ → PcfLine

abbrev pub line_text : PcfLine → List ℕ
line_text (constrains c) = constraint_line c
line_text (other line) = line

-- The other lines do not match, and no line holds a newline.
unfoldable pub IsLine : PcfLine → Type 0
IsLine (constrains c) = IsPrintable c
IsLine (other line) = (match_line line ≡ none) × Free b'\n' line

unfoldable pub pcf_file : List PcfLine → List ℕ
pcf_file [] = []
pcf_file (l ∷ ls) = line_text l ++ (b'\n' ∷ pcf_file ls)

unfoldable pub constraints_of : List PcfLine → List Constraint
constraints_of [] = []
constraints_of (constrains c ∷ ls) = c ∷ constraints_of ls
constraints_of (other line ∷ ls) = constraints_of ls

lines_of : List PcfLine → List (List ℕ)
lines_of [] = [] ∷ []
lines_of (l ∷ ls) = line_text l ∷ lines_of ls

IsLine-Free : (l : PcfLine) → IsLine l → Free b'\n' (line_text l)
unfolding IsLine
IsLine-Free (constrains c) h = h.one_line
IsLine-Free (other line) h = h.1

split_on-pcf_file : (ls : List PcfLine) → All IsLine ls → split_on b'\n' (pcf_file ls) ≡ lines_of ls
unfolding pcf_file lines_of split_on
split_on-pcf_file [] h = refl
split_on-pcf_file (l ∷ ls) h =
    split_on-append b'\n' (line_text l) (pcf_file ls) (IsLine-Free l h.0)
    ∙ ap (λ r. line_text l ∷ r) (split_on-pcf_file ls h.1)

parse_constraints-lines_of :
    (ls : List PcfLine) (cs : List Constraint)
    → All IsLine ls
    → parse_constraints (lines_of ls) cs ≡ cs ++ constraints_of ls
unfolding parse_constraints lines_of constraints_of IsLine match_line match_names span is_space
    some_of strip
parse_constraints-lines_of [] cs h = sym (append-nil cs)
parse_constraints-lines_of (constrains c ∷ ls) cs h =
    ap (parse_constraints (lines_of ls)) (
      ap (λ m. elim m as (λ _. List Constraint) [ none ↦ cs | some d ↦ cs ++ (d ∷ []) ])
        (match_line-constraint c h.0.constraint))
    ∙ parse_constraints-lines_of ls (cs ++ (c ∷ [])) h.1
    ∙ append_assoc cs (c ∷ []) (constraints_of ls)
parse_constraints-lines_of (other line ∷ ls) cs h =
    ap (parse_constraints (lines_of ls))
      (ap (λ m. elim m as (λ _. List Constraint) [ none ↦ cs | some d ↦ cs ++ (d ∷ []) ]) h.0.0)
    ∙ parse_constraints-lines_of ls cs h.1

-- A file of printable constraints and of lines that do not match, each on a line of its own: it is
-- accepted, and gives the constraints, in their order, whatever was held before.
pub parse_pcf-file :
    (ls : List PcfLine) (cs : List Constraint)
    → All IsLine ls
    → parse_pcf (some (pcf_file ls)) cs ≡ (true, constraints_of ls)
unfolding parse_pcf
parse_pcf-file ls cs h =
    ap (λ r. (true, parse_constraints r [])) (split_on-pcf_file ls h)
    ∙ ap (λ r. (true, r)) (parse_constraints-lines_of ls [] h)
