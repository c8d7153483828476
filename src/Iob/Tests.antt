-- ===== src/Iob/Tests.antt =====
-- The theorems on ql-iob-plugin at concrete inputs.
use yosys_f4pga_plugins.Prelude.{
  ℕ, ◌≡◌, ◌≢◌, ◌↔◌, refl, true, none, some, List, [], ◌∷◌, map, All, length, arith,
}
use yosys_f4pga_plugins.Prelude.Text.{codes, same_text}
use yosys_f4pga_plugins.Prelude.Words.{is_free, is_free-Free, split_on, onto_first, joined}
use yosys_f4pga_plugins.Iob.Pinmap.{Entry, PinmapParser, find, get_fields, parse}
use yosys_f4pga_plugins.Iob.Pinmap.Accepts.{Fits, parse-accepts}
use yosys_f4pga_plugins.Iob.Pinmap.Table.{
  IsDistinct, IsLine, IsRow, row_entry, table_file, parse-table_file,
}
use yosys_f4pga_plugins.Iob.Pcf.{Constraint, all_of, is_any, is_name, is_space, match_line}
use yosys_f4pga_plugins.Iob.Pcf.Line.{IsName, IsConstraint, match_line-trailing_space}
use yosys_f4pga_plugins.Iob.Locate.{
  returned, choose_pinmap_entry, pinmap_map, constraint_map, emplace,
}
use yosys_f4pga_plugins.Iob.Locate.Choose.{
  OtherType, HasType, choose_pinmap_entry-preferred, choose_pinmap_entry-default,
}
use yosys_f4pga_plugins.Iob.Locate.Maps.{named, or_empty, pinmap_map-named}
use yosys_f4pga_plugins.Iob.Locate.Nets.{IsOnePerNet, constraint_map-holds}

abbrev columns : List (List ℕ)
columns = codes "name" ∷ codes "x" ∷ codes "type" ∷ []

abbrev row_a : List (List ℕ)
row_a = codes "A1" ∷ codes "3" ∷ codes "BIDIR" ∷ []

abbrev row_b : List (List ℕ)
row_b = codes "A1" ∷ codes "4" ∷ codes "CLOCK" ∷ []

abbrev nothing : PinmapParser
nothing = record { fields = []; entries = [] }

columns-IsDistinct : IsDistinct columns
unfolding IsDistinct same_text
columns-IsDistinct = ((refl, (refl, tt)), ((refl, tt), (tt, tt)))

columns-IsLine : IsLine columns
unfolding joined is_free
columns-IsLine = record {
  filled = λ e. cc;
  fields_free = (
    is_free-Free b',' (codes "name") refl,
    (is_free-Free b',' (codes "x") refl, (is_free-Free b',' (codes "type") refl, tt)),
  );
  line_free = is_free-Free b'\n' (codes "name,x,type") refl;
}

row_a-IsRow : IsRow 3 row_a
unfolding joined is_free IsRow
row_a-IsRow = (
  record {
    filled = λ e. cc;
    fields_free = (
      is_free-Free b',' (codes "A1") refl,
      (is_free-Free b',' (codes "3") refl, (is_free-Free b',' (codes "BIDIR") refl, tt)),
    );
    line_free = is_free-Free b'\n' (codes "A1,3,BIDIR") refl;
  },
  omega arith,
)

parse-table_file_example :
    parse (some (table_file columns (row_a ∷ []))) nothing
    ≡ (true, record { fields = columns; entries = map (row_entry columns) (row_a ∷ []) })
parse-table_file_example =
    parse-table_file columns (row_a ∷ []) nothing columns-IsDistinct columns-IsLine
      (row_a-IsRow, tt)

parse-accepts_example :
    ((parse (some (codes "name,x\nA1,3,BIDIR")) nothing).0 ≡ true)
    ↔ All (Fits (length (get_fields (codes "name,x")))) (codes "A1,3,BIDIR" ∷ [])
unfolding split_on onto_first
parse-accepts_example =
    parse-accepts (codes "name,x") (codes "A1,3,BIDIR" ∷ []) (codes "name,x\nA1,3,BIDIR") nothing
      refl

abbrev clk : Constraint
clk = record { net_name = codes "clk"; pad_name = codes "A1"; comment = codes " main" }

name : (w : List ℕ) → w ≢ [] → all_of is_name w ≡ true → IsName w
unfolding IsName
name w h k = (h, k)

clk-IsConstraint : IsConstraint clk
unfolding all_of is_name is_any is_space
clk-IsConstraint = record {
  net_word = name (codes "clk") (λ e. cc) refl;
  pad_word = name (codes "A1") (λ e. cc) refl;
  comment_line = refl;
}

abbrev a1_bidir : Entry
a1_bidir = (codes "name", codes "A1") ∷ (codes "type", codes "BIDIR") ∷ []

abbrev a1_clock : Entry
a1_clock = (codes "name", codes "A1") ∷ (codes "type", codes "CLOCK") ∷ []

choose_pinmap_entry-preferred_example :
    choose_pinmap_entry (a1_bidir ∷ a1_clock ∷ []) (codes "CLOCK" ∷ codes "BIDIR" ∷ [])
    ≡ returned a1_clock
unfolding OtherType HasType find same_text
choose_pinmap_entry-preferred_example =
    choose_pinmap_entry-preferred (a1_bidir ∷ []) [] a1_clock [] (codes "BIDIR" ∷ [])
      (codes "CLOCK") tt ((codes "BIDIR", refl, refl), tt) (codes "CLOCK", refl, refl)

choose_pinmap_entry-default_example :
    choose_pinmap_entry (a1_bidir ∷ []) (codes "CLOCK" ∷ []) ≡ returned a1_bidir
unfolding OtherType find same_text
choose_pinmap_entry-default_example =
    choose_pinmap_entry-default a1_bidir [] (codes "CLOCK" ∷ [])
      (((codes "BIDIR", refl, refl), tt), tt)

pinmap_map-named_example :
    or_empty (find (codes "A1") (pinmap_map (a1_bidir ∷ a1_clock ∷ []) []))
    ≡ named (codes "A1") (a1_bidir ∷ a1_clock ∷ [])
pinmap_map-named_example = pinmap_map-named (codes "A1") (a1_bidir ∷ a1_clock ∷ [])

constraint_map-holds_example :
    IsOnePerNet (clk ∷ [])
    × All (λ c. find c.net_name ((codes "clk", clk) ∷ []) ≡ some c) (clk ∷ [])
unfolding constraint_map emplace find
constraint_map-holds_example = constraint_map-holds (clk ∷ []) ((codes "clk", clk) ∷ []) refl

match_line-trailing_space_example : match_line (codes "set_io clk A1\r") ≡ none
unfolding all_of is_name is_space
match_line-trailing_space_example =
    match_line-trailing_space (codes "clk") (codes "A1") b'\r' (name (codes "clk") (λ e. cc) refl)
      (name (codes "A1") (λ e. cc) refl) refl
