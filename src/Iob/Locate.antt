-- ===== src/Iob/Locate.antt =====
-- ql-iob-plugin/ql-iob.cc: the pass `quicklogic_iob`, from the parsed files to the parameters of the
-- IO cells.
--
-- Names are those without RTLIL's escapes. The files are their texts, and the connections of a cell
-- give for a port its bits. `log_cmd_error` and an exception both end the pass, and are outcomes.
pub mod Choose
pub mod Maps
pub mod Nets
use yosys_f4pga_plugins.Prelude.{
  ℕ, ◌≡◌, refl, ◌⊎◌, inl, inr, Bool, true, false, ◌&&◌, ◌||◌, Option, none, some, List, [], ◌∷◌,
  ◌++◌, ◌==◌, leb, if◌then◌else◌,
}
use yosys_f4pga_plugins.Prelude.Text.{codes, decimal, same_text}
use yosys_f4pga_plugins.Prelude.Words.{split_on}
use yosys_f4pga_plugins.Iob.Pinmap.{Entry, find, PinmapParser, parse}
use yosys_f4pga_plugins.Iob.Pcf.{Constraint, parse_pcf, all_of}

pub record IoCellType : Type 0 where
  pub type : List ℕ
  pub port : List ℕ
  pub preferred_types : List (List ℕ)

pub data Outcome (A : Type 0) : Type 0 where
  rejected thrown : Outcome A
  returned : A → Outcome A

pub Outcome-cases :
    {A : Type 0} (o : Outcome A) → (o ≡ rejected) ⊎ ((o ≡ thrown) ⊎ ((a : A) × (o ≡ returned a)))
Outcome-cases rejected = inl refl
Outcome-cases thrown = inr (inl refl)
Outcome-cases (returned a) = inr (inr (a, refl))

-- emplace: a key that is there keeps its value.
unfoldable pub emplace : {A : Type 0} → List ℕ → A → List (List ℕ × A) → List (List ℕ × A)
unfolding find
emplace key a m = elim (find key m) [ none ↦ m ++ ((key, a) ∷ []) | some b ↦ m ]

-- [\w$] and [\w,$]
unfoldable pub is_word_char : ℕ → Bool
is_word_char c =
    leb b'a' c && leb c b'z'
    || (leb b'A' c && leb c b'Z' || (leb b'0' c && leb c b'9' || (c == b'_' || c == b'$')))

unfoldable pub is_list_char : ℕ → Bool
unfolding is_word_char
is_list_char c = is_word_char c || c == b','

-- A `+` of a class, as a whole text.
unfoldable pub all_some : (ℕ → Bool) → List ℕ → Bool
unfolding all_of
all_some p [] = false
all_some p (c ∷ s) = all_of p (c ∷ s)

-- The two regular expressions: parts between colons, which are in none of the classes.
unfoldable pub spec_of_parts : List (List ℕ) → Option IoCellType
unfolding all_some
spec_of_parts (type ∷ port ∷ []) =
    if all_some is_word_char type && all_some is_word_char port
    then some (record { type = type; port = port; preferred_types = [] })
    else none
spec_of_parts (type ∷ port ∷ preferred ∷ []) =
    if all_some is_word_char type && (all_some is_word_char port && all_some is_list_char preferred)
    then some (record { type = type; port = port; preferred_types = split_on b',' preferred })
    else none
spec_of_parts parts = none

-- The loop over the specifications; `none` is log_cmd_error.
unfoldable pub io_cell_specs :
    List (List ℕ) → List (List ℕ × IoCellType) → Option (List (List ℕ × IoCellType))
unfolding spec_of_parts emplace
io_cell_specs [] m = some m
io_cell_specs (arg ∷ args) m = elim (spec_of_parts (split_on b':' arg)) [
  | none ↦ none
  | some t ↦ io_cell_specs args (emplace t.type t m)
]

abbrev pub pad_type : List ℕ → List (List ℕ) → List ℕ × IoCellType
pad_type name preferred =
    (name, record { type = name; port = codes "P"; preferred_types = preferred })

abbrev pub default_types : List (List ℕ × IoCellType)
default_types =
    pad_type (codes "inpad") (codes "BIDIR" ∷ codes "SDIOMUX" ∷ [])
    ∷ pad_type (codes "outpad") (codes "BIDIR" ∷ codes "SDIOMUX" ∷ [])
    ∷ pad_type (codes "bipad") (codes "BIDIR" ∷ codes "SDIOMUX" ∷ [])
    ∷ pad_type (codes "ckpad") (codes "CLOCK" ∷ codes "BIDIR" ∷ codes "SDIOMUX" ∷ [])
    ∷ []

-- constraintMap; `none` is log_cmd_error on a net that is constrained twice.
unfoldable pub constraint_map :
    List Constraint → List (List ℕ × Constraint) → Option (List (List ℕ × Constraint))
constraint_map [] m = some m
constraint_map (c ∷ cs) m = elim (find c.net_name m) [
  | some d ↦ none
  | none ↦ constraint_map cs (emplace c.net_name c m)
]

-- pinmapMap[name].push_back(entry), after an empty vector for a new name
unfoldable pub push_entry : List ℕ → Entry → List (List ℕ × List Entry) → List (List ℕ × List Entry)
push_entry name entry [] = (name, entry ∷ []) ∷ []
push_entry name entry ((k, es) ∷ m) =
    let rest = push_entry name entry m in
    if same_text k name then (k, es ++ (entry ∷ [])) ∷ m else (k, es) ∷ rest

unfoldable pub pinmap_map : List Entry → List (List ℕ × List Entry) → List (List ℕ × List Entry)
unfolding push_entry
pinmap_map [] m = m
pinmap_map (entry ∷ entries) m =
    pinmap_map entries
      (elim (find (codes "name") entry) [ none ↦ m | some name ↦ push_entry name entry m ])

-- The inner loop of choosePinmapEntry: the first entry of a type. entry.at("type") throws where an
-- entry has no type.
unfoldable pub entry_of_type : List ℕ → List Entry → Outcome (Option Entry)
entry_of_type type [] = returned none
entry_of_type type (entry ∷ entries) =
    let rest = entry_of_type type entries in
    elim (find (codes "type") entry) [
      | none ↦ thrown
      | some t ↦ if same_text type t then returned (some entry) else rest
    ]

-- a_Entries[0]; pinmapMap holds no empty vector.
unfoldable pub first_entry : List Entry → Outcome Entry
first_entry [] = thrown
first_entry (entry ∷ entries) = returned entry

-- choosePinmapEntry; the loop over no preferred types is what its first test skips.
unfoldable pub choose_pinmap_entry : List Entry → List (List ℕ) → Outcome Entry
unfolding entry_of_type first_entry
choose_pinmap_entry entries [] = first_entry entries
choose_pinmap_entry entries (type ∷ types) = elim (entry_of_type type entries) [
  | rejected ↦ rejected
  | thrown ↦ thrown
  | returned o ↦ elim o [ some entry ↦ returned entry | none ↦ choose_pinmap_entry entries types ]
]
