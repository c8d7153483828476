-- ===== src/Iob/Locate/Choose.antt =====
-- Which entry of the pinmap a cell gets.
use yosys_f4pga_plugins.Prelude.{
  ℕ, ◌≡◌, refl, ◌∙◌, true, false, none, some, List, [], ◌∷◌, ◌++◌, All,
}
use yosys_f4pga_plugins.Prelude.Text.{codes, same_text}
use yosys_f4pga_plugins.Iob.Pinmap.{Entry, find}
use yosys_f4pga_plugins.Iob.Locate.{returned, entry_of_type, first_entry, choose_pinmap_entry}

-- The entry has a type, and it is not this one; it is this one.
unfoldable pub OtherType : List ℕ → Entry → Type 0
OtherType type entry =
    (t : List ℕ) × (find (codes "type") entry ≡ some t) × (same_text type t ≡ false)

unfoldable pub HasType : List ℕ → Entry → Type 0
HasType type entry = (t : List ℕ) × (find (codes "type") entry ≡ some t) × (same_text type t ≡ true)

entry_of_type-none :
    (type : List ℕ) (entries : List Entry)
    → All (OtherType type) entries
    → entry_of_type type entries ≡ returned none
unfolding entry_of_type OtherType
entry_of_type-none type [] h = refl
entry_of_type-none type (entry ∷ entries) h =
    let (t, e, d) = h.0 in rw (entry_of_type, e) (rw d (entry_of_type-none type entries h.1))

entry_of_type-first :
    (type : List ℕ) (before after : List Entry) (entry : Entry)
    → All (OtherType type) before
    → HasType type entry
    → entry_of_type type (before ++ (entry ∷ after)) ≡ returned (some entry)
unfolding entry_of_type OtherType HasType
entry_of_type-first type [] after entry h k = let (t, e, d) = k in rw (entry_of_type, e) (rw d refl)
entry_of_type-first type (other ∷ before) after entry h k =
    let (t, e, d) = h.0 in
    rw (entry_of_type, e) (rw d (entry_of_type-first type before after entry h.1 k))

-- The types that no entry has are passed over.
choose-skip :
    (entries : List Entry) (missing types : List (List ℕ))
    → All (λ type. All (OtherType type) entries) missing
    → choose_pinmap_entry entries (missing ++ types) ≡ choose_pinmap_entry entries types
unfolding choose_pinmap_entry
choose-skip entries [] types h = refl
choose-skip entries (type ∷ missing) types h =
    rw (choose_pinmap_entry, entry_of_type-none type entries h.0)
      (choose-skip entries missing types h.1)

-- An entry is chosen if it has a preferred type, every entry has a type, which is none of the types that
-- are preferred to that one, and each entry before it has a type, which is another one.
pub choose_pinmap_entry-preferred :
    (before after : List Entry) (entry : Entry) (missing types : List (List ℕ)) (type : List ℕ)
    → All (λ m. All (OtherType m) (before ++ (entry ∷ after))) missing
    → All (OtherType type) before
    → HasType type entry
    → choose_pinmap_entry (before ++ (entry ∷ after)) (missing ++ (type ∷ types)) ≡ returned entry
unfolding choose_pinmap_entry
choose_pinmap_entry-preferred before after entry missing types type m b h =
    choose-skip (before ++ (entry ∷ after)) missing (type ∷ types) m
    ∙ rw (choose_pinmap_entry, entry_of_type-first type before after entry b h) refl

-- Where every entry has a type, and none has one of the preferred types, the first entry is chosen.
pub choose_pinmap_entry-default :
    (entry : Entry) (entries : List Entry) (missing : List (List ℕ))
    → All (λ m. All (OtherType m) (entry ∷ entries)) missing
    → choose_pinmap_entry (entry ∷ entries) missing ≡ returned entry
unfolding choose_pinmap_entry first_entry
choose_pinmap_entry-default entry entries [] m = refl
choose_pinmap_entry-default entry entries (type ∷ missing) m =
    rw (choose_pinmap_entry, entry_of_type-none type (entry ∷ entries) m.0)
      (choose_pinmap_entry-default entry entries missing m.1)
