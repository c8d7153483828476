-- ===== src/Iob/Pcf.antt =====
-- ql-iob-plugin/pcf_parser.cc: the constraints of a PCF file.
--
-- The regular expression of the source, ^\s*set_io\s+([^#\s]+)\s+([^#\s]+)(?:\s+#(.*))?, is matched
-- against a whole line. Neighbouring parts of it have no character in common, so a match is found
-- without backtracking, and the model takes one part after the other. `.` is any character but a
-- newline and a carriage return.
pub mod Line
pub mod File
use yosys_f4pga_plugins.Prelude.{
  ℕ, Bool, true, false, not, ◌&&◌, ◌||◌, Option, none, some, List, [], ◌∷◌, ◌++◌, ◌==◌, leb,
  if◌then◌else◌,
}
use yosys_f4pga_plugins.Prelude.Text.{codes, strip}
use yosys_f4pga_plugins.Prelude.Words.{split_on}

pub record Constraint : Type 0 where
  pub net_name : List ℕ
  pub pad_name : List ℕ
  pub comment : List ℕ

-- \s, [^#\s] and .
unfoldable pub is_space : ℕ → Bool
is_space c = c == 32 || (leb 9 c && leb c 13)

unfoldable pub is_name : ℕ → Bool
unfolding is_space
is_name c = not (is_space c) && not (c == b'#')

unfoldable pub is_any : ℕ → Bool
is_any c = not (c == 10) && not (c == 13)

-- The longest first part of a text in a class of characters, and the rest.
unfoldable pub span : (ℕ → Bool) → List ℕ → List ℕ × List ℕ
span p [] = ([], [])
span p (c ∷ s) = let (w, r) = span p s in if p c then (c ∷ w, r) else ([], c ∷ s)

-- A `+` of a class, in front of what follows.
unfoldable pub some_of :
    {A : Type 0} → (ℕ → Bool) → List ℕ → (List ℕ → List ℕ → Option A) → Option A
unfolding span
some_of p s next = elim (span p s).0 [ [] ↦ none | c ∷ w ↦ next (c ∷ w) (span p s).1 ]

unfoldable pub all_of : (ℕ → Bool) → List ℕ → Bool
all_of p [] = true
all_of p (c ∷ s) = p c && all_of p s

-- #(.*)
unfoldable pub match_hash : List ℕ → Option (List ℕ)
unfolding all_of
match_hash [] = none
match_hash (c ∷ s) = if c == b'#' && all_of is_any s then some s else none

-- (?:\s+#(.*))? up to the end of the line; cm[3] is empty where it is left out.
unfoldable pub match_comment : List ℕ → Option (List ℕ)
unfolding some_of match_hash
match_comment [] = some []
match_comment (c ∷ s) = some_of is_space (c ∷ s) λ w rest. match_hash rest

-- The expression from behind the pad's name on, then from the pad's name, from the space in front of
-- it, from the net's name, and from behind `set_io`.
unfoldable pub match_end : List ℕ → List ℕ → List ℕ → Option Constraint
unfolding match_comment
match_end net pad s = elim (match_comment s) [
  | none ↦ none
  | some comment ↦ some (record { net_name = net; pad_name = pad; comment = comment })
]

unfoldable pub match_pad : List ℕ → List ℕ → Option Constraint
unfolding match_end some_of
match_pad net s = some_of is_name s (match_end net)

unfoldable pub match_gap : List ℕ → List ℕ → Option Constraint
unfolding match_pad
match_gap net s = some_of is_space s λ w rest. match_pad net rest

unfoldable pub match_net : List ℕ → Option Constraint
unfolding match_gap
match_net s = some_of is_name s match_gap

unfoldable pub match_names : List ℕ → Option Constraint
unfolding match_net
match_names s = some_of is_space s λ w rest. match_net rest

-- std::regex_match
unfoldable pub match_line : List ℕ → Option Constraint
unfolding span match_names
match_line line = elim (strip (codes "set_io") (span is_space line).1) [
  | none ↦ none
  | some rest ↦ match_names rest
]

-- The loop over the lines: those that do not match are passed over.
unfoldable pub parse_constraints : List (List ℕ) → List Constraint → List Constraint
parse_constraints [] constraints = constraints
parse_constraints (line ∷ rest) constraints =
    parse_constraints rest
      (elim (match_line line) [ none ↦ constraints | some c ↦ constraints ++ (c ∷ []) ])

-- PcfParser::parse, on the constraints held before; a file that cannot be opened is `none`.
unfoldable pub parse_pcf : Option (List ℕ) → List Constraint → Bool × List Constraint
unfolding parse_constraints
parse_pcf none constraints = (false, constraints)
parse_pcf (some content) constraints = (true, parse_constraints (split_on b'\n' content) [])
