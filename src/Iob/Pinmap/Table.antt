-- ===== src/Iob/Pinmap/Table.antt =====
-- A table that is written as a pinmap file is read back.
use mathlib.Core.List.{append_assoc, append-nil}
use yosys_f4pga_plugins.Prelude.{
  ℕ, ◌≤◌, ◌≡◌, ◌≢◌, refl, sym, ap, ◌∙◌, true, false, Bool-cases, none, some, List, [], ◌∷◌, ◌++◌,
  map, All, length, arith, inl, inr,
}
use yosys_f4pga_plugins.Prelude.Text.{same_text}
use yosys_f4pga_plugins.Prelude.Words.{Free, split_on, split_on-append, split_on-joined, joined}
use yosys_f4pga_plugins.Iob.Pinmap.{
  Entry, PinmapParser, assign, find, get_fields, parse_row, parse_data, parse, parse-split,
}

-- Column names that differ from each other.
unfoldable pub IsDistinct : List (List ℕ) → Type 0
IsDistinct [] = Unit
IsDistinct (f ∷ fields) = All (λ g. same_text f g ≡ false) fields × IsDistinct fields

-- The columns of a row, each with its field.
unfoldable pub row_entry : List (List ℕ) → List (List ℕ) → Entry
row_entry [] row = []
row_entry (f ∷ fields) [] = []
row_entry (f ∷ fields) (d ∷ row) = (f, d) ∷ row_entry fields row

-- The file of a table: each line ends in a newline.
unfoldable pub row_lines : List (List (List ℕ)) → List ℕ
row_lines [] = []
row_lines (row ∷ rows) = joined b',' row ++ (b'\n' ∷ row_lines rows)

unfoldable pub table_file : List (List ℕ) → List (List (List ℕ)) → List ℕ
table_file fields rows = row_lines (fields ∷ rows)

-- Fields of one line: some, with no comma and no newline in them, and not all of the line empty.
pub record IsLine (row : List (List ℕ)) : Type 0 where
  pub filled : joined b',' row ≢ []
  pub fields_free : All (Free b',') row
  pub line_free : Free b'\n' (joined b',' row)

assign-new :
    (f d : List ℕ) (entry : Entry) → find f entry ≡ none → assign f d entry ≡ entry ++ ((f, d) ∷ [])
unfolding assign find
assign-new f d [] h = refl
assign-new f d ((k, v) ∷ m) h = elim (Bool-cases (same_text k f)) [
  | inl e ↦ absurd (some_ne_none v (sym (here e) ∙ h))
  | inr e ↦ rw e (ap (λ r. (k, v) ∷ r) (assign-new f d m (sym (there e) ∙ h)))
]
  where
    some_ne_none : (a : List ℕ) → some a ≢ none
    some_ne_none a q = cc

    here : same_text k f ≡ true → find f ((k, v) ∷ m) ≡ some v
    here e = rw e refl

    there : same_text k f ≡ false → find f ((k, v) ∷ m) ≡ find f m
    there e = rw e refl

find-append-none :
    (g f d : List ℕ) (entry : Entry)
    → find g entry ≡ none
    → same_text f g ≡ false
    → find g (entry ++ ((f, d) ∷ [])) ≡ none
unfolding find
find-append-none g f d [] h e = rw e refl
find-append-none g f d ((k, v) ∷ m) h e = ground (arith, find-append-none g f d m)

-- The columns that are left are not in the entry yet.
NewIn : Entry → List (List ℕ) → Type 0
NewIn entry fields = All (λ g. find g entry ≡ none) fields

NewIn-step :
    (f d : List ℕ) (entry : Entry) (fields : List (List ℕ))
    → NewIn entry fields
    → All (λ g. same_text f g ≡ false) fields
    → NewIn (entry ++ ((f, d) ∷ [])) fields
unfolding NewIn
NewIn-step f d entry [] h k = tt
NewIn-step f d entry (g ∷ fields) h k =
    (find-append-none g f d entry h.0 k.0, NewIn-step f d entry fields h.1 k.1)

NewIn-empty : (fields : List (List ℕ)) → NewIn [] fields
unfolding NewIn find
NewIn-empty [] = tt
NewIn-empty (g ∷ fields) = (refl, NewIn-empty fields)

parse_row-row_entry :
    (fields row : List (List ℕ)) (entry : Entry)
    → length row ≤ length fields
    → IsDistinct fields
    → NewIn entry fields
    → parse_row fields row entry ≡ some (entry ++ row_entry fields row)
unfolding parse_row row_entry IsDistinct NewIn
parse_row-row_entry [] [] entry h d n = ap some (sym (append-nil entry))
parse_row-row_entry (f ∷ fields) [] entry h d n = ap some (sym (append-nil entry))
parse_row-row_entry [] (x ∷ row) entry h d n = absurd (omega arith)
parse_row-row_entry (f ∷ fields) (x ∷ row) entry h d n =
    ap (parse_row fields row) (assign-new f x entry n.0)
    ∙ parse_row-row_entry fields row (entry ++ ((f, x) ∷ [])) (omega arith) d.1
        (NewIn-step f x entry fields n.1 d.0)
    ∙ ap some (append_assoc entry ((f, x) ∷ []) (row_entry fields row))

-- A row of the table: a line with no more fields than there are columns.
unfoldable pub IsRow : ℕ → List (List ℕ) → Type 0
IsRow columns row = IsLine row × (length row ≤ columns)

-- The parts of the file between newlines.
lines_of : List (List (List ℕ)) → List (List ℕ)
lines_of [] = [] ∷ []
lines_of (row ∷ rows) = joined b',' row ∷ lines_of rows

split_on-row_lines :
    (rows : List (List (List ℕ)))
    → All IsLine rows
    → split_on b'\n' (row_lines rows) ≡ lines_of rows
unfolding row_lines lines_of split_on
split_on-row_lines [] h = refl
split_on-row_lines (row ∷ rows) h =
    split_on-append b'\n' (joined b',' row) (row_lines rows) h.0.line_free
    ∙ ap (λ r. joined b',' row ∷ r) (split_on-row_lines rows h.1)

get_fields-joined : (row : List (List ℕ)) → IsLine row → get_fields (joined b',' row) ≡ row
unfolding get_fields joined
get_fields-joined [] h = absurd (h.filled refl)
get_fields-joined (d ∷ row) h = split_on-joined b',' d row h.fields_free

-- A line of the file that is not empty, with the entry it gives.
parse_data-line :
    (line : List ℕ) (rest : List (List ℕ)) (p : PinmapParser) (e : Entry)
    → line ≢ []
    → parse_row p.fields (get_fields line) [] ≡ some e
    → parse_data (line ∷ rest) p ≡ parse_data rest (record p { entries = p.entries ++ (e ∷ []) })
unfolding parse_data
parse_data-line [] rest p e h q = absurd (h refl)
parse_data-line (c ∷ line) rest p e h q = rw (parse_data, q) refl

parse_data-lines_of :
    (rows : List (List (List ℕ))) (p : PinmapParser)
    → IsDistinct p.fields
    → All (IsRow (length p.fields)) rows
    → parse_data (lines_of rows) p
      ≡ (true, record p { entries = p.entries ++ map (row_entry p.fields) rows })
unfolding parse_data lines_of IsRow
parse_data-lines_of [] p d h =
    ap (λ es. (true, record p { entries = es })) (sym (append-nil p.entries))
parse_data-lines_of (row ∷ rows) p d h =
    parse_data-line (joined b',' row) (lines_of rows) p (row_entry p.fields row) h.0.0.filled (
      ap (λ r. parse_row p.fields r []) (get_fields-joined row h.0.0)
      ∙ parse_row-row_entry p.fields row [] h.0.1 d (NewIn-empty p.fields))
    ∙ parse_data-lines_of rows (record p { entries = p.entries ++ (row_entry p.fields row ∷ []) }) d
        h.1
    ∙ ap (λ es. (true, record p { entries = es }))
        (append_assoc p.entries (row_entry p.fields row ∷ []) (map (row_entry p.fields) rows))

IsRow-lines :
    (columns : ℕ) (rows : List (List (List ℕ))) → All (IsRow columns) rows → All IsLine rows
unfolding IsRow
IsRow-lines columns [] h = tt
IsRow-lines columns (row ∷ rows) h = (h.0.0, IsRow-lines columns rows h.1)

-- A table with distinct columns, whose header and rows are lines and whose rows have at most as many
-- fields as there are columns: its file is accepted, whatever the parser held before, and the parser
-- then holds the columns, and for each row, in order, its fields under their columns.
pub parse-table_file :
    (fields : List (List ℕ)) (rows : List (List (List ℕ))) (p : PinmapParser)
    → IsDistinct fields
    → IsLine fields
    → All (IsRow (length fields)) rows
    → parse (some (table_file fields rows)) p
      ≡ (true, record { fields = fields; entries = map (row_entry fields) rows })
unfolding table_file lines_of
parse-table_file fields rows p d l h =
    parse-split (table_file fields rows) (joined b',' fields) (lines_of rows) p
      (split_on-row_lines (fields ∷ rows) (l, IsRow-lines (length fields) rows h))
    ∙ ap (λ fs. parse_data (lines_of rows) (record { fields = fs; entries = [] }))
        (get_fields-joined fields l)
    ∙ parse_data-lines_of rows (record { fields = fields; entries = [] }) d h
