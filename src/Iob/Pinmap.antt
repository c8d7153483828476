-- ===== src/Iob/Pinmap.antt =====
-- ql-iob-plugin/pinmap_parser.cc: the pinmap file, a table with a header.
--
-- A file is the text of it, or `none` where it cannot be opened, and the stream is not good. A loop of
-- `std::getline` while the stream is good gives the parts between separators, the last one also where
-- it is empty, which is `split_on`. Lines are not stripped of carriage returns, as in the source.
pub mod Accepts
pub mod Table
use yosys_f4pga_plugins.Prelude.{
  ℕ, ◌≡◌, refl, Bool, true, false, Option, none, some, List, [], ◌∷◌, ◌++◌, if◌then◌else◌,
}
use yosys_f4pga_plugins.Prelude.Text.{same_text}
use yosys_f4pga_plugins.Prelude.Words.{split_on, split_on-nonempty}

-- std::map<std::string, std::string>; the order of its keys is never looked at.
abbrev pub Entry : Type 0
Entry = List (List ℕ × List ℕ)

-- entry[key] = value
unfoldable pub assign : List ℕ → List ℕ → Entry → Entry
assign key value [] = (key, value) ∷ []
assign key value ((k, v) ∷ m) =
    let rest = assign key value m in if same_text k key then (k, value) ∷ m else (k, v) ∷ rest

-- entry.count(key), and entry.at(key)
unfoldable pub find : {A : Type 0} → List ℕ → List (List ℕ × A) → Option A
find key [] = none
find key ((k, v) ∷ m) = let rest = find key m in if same_text k key then some v else rest

pub record PinmapParser : Type 0 where
  pub fields : List (List ℕ)
  pub entries : List Entry

unfoldable pub get_fields : List ℕ → List (List ℕ)
get_fields s = split_on b',' s

-- m_Fields = getFields(header); the test on an empty list of fields
unfoldable pub parse_header : List ℕ → PinmapParser → Bool × PinmapParser
unfolding get_fields
parse_header header p = elim (get_fields header) [
  | [] ↦ (false, record p { fields = [] })
  | f ∷ fs ↦ (true, record p { fields = f ∷ fs })
]

-- The loop over the fields of a line; `none` is the `return false` for a field without a column.
unfoldable pub parse_row : List (List ℕ) → List (List ℕ) → Entry → Option Entry
parse_row fields [] entry = some entry
parse_row [] (d ∷ data_) entry = none
parse_row (f ∷ fields) (d ∷ data_) entry = parse_row fields data_ (assign f d entry)

-- The loop over the lines that are left.
unfoldable pub parse_data : List (List ℕ) → PinmapParser → Bool × PinmapParser
parse_data [] p = (true, p)
parse_data ([] ∷ rest) p = parse_data rest p
parse_data ((c ∷ line) ∷ rest) p = elim (parse_row p.fields (get_fields (c ∷ line)) []) [
  | none ↦ (false, p)
  | some entry ↦ parse_data rest (record p { entries = p.entries ++ (entry ∷ []) })
]

-- parseHeader on the first line, parseData on the others
unfoldable pub parse_lines : List (List ℕ) → PinmapParser → Bool × PinmapParser
unfolding parse_header
parse_lines [] p = (false, p)
parse_lines (header ∷ rest) p =
    if (parse_header header p).0
    then parse_data rest (parse_header header p).1
    else parse_header header p

unfoldable pub parse : Option (List ℕ) → PinmapParser → Bool × PinmapParser
unfolding parse_lines
parse none p = (false, p)
parse (some content) p = parse_lines (split_on b'\n' content) (record p { entries = [] })

-- A file is parsed line by line: the header, then the data.
pub parse-split :
    (content header : List ℕ) (rest : List (List ℕ)) (p : PinmapParser)
    → split_on b'\n' content ≡ header ∷ rest
    → parse (some content) p
      ≡ parse_data rest (record p { fields = get_fields header; entries = [] })
unfolding parse parse_lines parse_header get_fields
parse-split content header rest p h = rw (h, header_eq (record p { entries = [] })) refl
  where
    header_eq :
        (q : PinmapParser) → parse_header header q ≡ (true, record q { fields = get_fields header })
    header_eq q = let (f, fs, e) = split_on-nonempty b',' header in rw (parse_header, e) refl
