-- ===== src/Iob/Locate/Maps.antt =====
-- The two maps of `quicklogic_iob`, against the lists they are built from.
use mathlib.Core.List.{append_assoc, append-nil}
use yosys_f4pga_plugins.Prelude.{
  ℕ, ◌≡◌, ◌≢◌, refl, sym, ap, ◌∙◌, true, false, Bool-cases, Option, none, some, Option-cases, List,
  [], ◌∷◌, ◌++◌, arith, inl, inr, if◌then◌else◌,
}
use yosys_f4pga_plugins.Prelude.Text.{codes, same_text, same_text_iff}
use yosys_f4pga_plugins.Iob.Pinmap.{Entry, find}
use yosys_f4pga_plugins.Iob.Pcf.{Constraint}
use yosys_f4pga_plugins.Iob.Locate.{push_entry, pinmap_map}

same_text_self : (a : List ℕ) → same_text a a ≡ true
same_text_self a = (same_text_iff a a).1 refl

same_text_left : (a b c : List ℕ) → same_text a b ≡ true → same_text b c ≡ same_text a c
same_text_left a b c e = ap (λ t. same_text t c) (sym ((same_text_iff a b).0 e))

same_text_apart :
    (a b c : List ℕ) → same_text a b ≡ false → same_text a c ≡ true → same_text b c ≡ false
same_text_apart a b c e f = elim (Bool-cases (same_text b c)) [
  | inl g ↦ absurd (
      true_ne_false
        (sym ((same_text_iff a b).1 ((same_text_iff a c).0 f ∙ sym ((same_text_iff b c).0 g))) ∙ e))
  | inr g ↦ g
]
  where
    true_ne_false : true ≢ false
    true_ne_false k = cc

abbrev pub or_empty : Option (List Entry) → List Entry
or_empty none = []
or_empty (some es) = es

-- The entries of a pad, in the order of the file.
unfoldable pub named : List ℕ → List Entry → List Entry
named name [] = []
named name (entry ∷ entries) = elim (find (codes "name") entry) [
  | none ↦ named name entries
  | some n ↦ (if same_text n name then entry ∷ [] else []) ++ named name entries
]

find-push_entry :
    (name key : List ℕ) (entry : Entry) (m : List (List ℕ × List Entry))
    → or_empty (find key (push_entry name entry m))
      ≡ or_empty (find key m) ++ (if same_text name key then entry ∷ [] else [])
unfolding find push_entry
find-push_entry name key entry [] = elim (Bool-cases (same_text name key)) [
  | inl e ↦ rw e refl
  | inr e ↦ rw e refl
]
find-push_entry name key entry ((k, es) ∷ m) = elim (Bool-cases (same_text k name)) [
  | inl e ↦ elim (Bool-cases (same_text k key)) [
    | inl f ↦ rw e (rw (f, same_text_left k name key e ∙ f) refl)
    | inr f ↦
        rw e (rw (f, same_text_left k name key e ∙ f) (sym (append-nil (or_empty (find key m)))))
  ]
  | inr e ↦ elim (Bool-cases (same_text k key)) [
    | inl f ↦ rw e (rw (f, same_text_apart k name key e f) (sym (append-nil es)))
    | inr f ↦ rw e (rw f (find-push_entry name key entry m))
  ]
]

find-pinmap_map :
    (key : List ℕ) (entries : List Entry) (m : List (List ℕ × List Entry))
    → or_empty (find key (pinmap_map entries m)) ≡ or_empty (find key m) ++ named key entries
unfolding pinmap_map named
find-pinmap_map key [] m = sym (append-nil (or_empty (find key m)))
find-pinmap_map key (entry ∷ entries) m = elim (Option-cases (find (codes "name") entry)) [
  | inl e ↦ rw (pinmap_map, named, e) (find-pinmap_map key entries m)
  | inr (n, e) ↦
      rw (pinmap_map, named, e)
        (find-pinmap_map key entries (push_entry n entry m)
          ∙ ap (λ es. es ++ named key entries) (find-push_entry n key entry m)
          ∙ append_assoc (or_empty (find key m)) (if same_text n key then entry ∷ [] else [])
              (named key entries))
]

-- What pinmapMap holds for a pad, if anything, is the entries of the file with that name, in their
-- order; where it holds nothing, there are none.
pub pinmap_map-named :
    (key : List ℕ) (entries : List Entry)
    → or_empty (find key (pinmap_map entries [])) ≡ named key entries
unfolding find
pinmap_map-named key entries = find-pinmap_map key entries []

pub find-snoc-new :
    (key : List ℕ) (c : Constraint) (m : List (List ℕ × Constraint))
    → find key m ≡ none
    → find key (m ++ ((key, c) ∷ [])) ≡ some c
unfolding find
find-snoc-new key c [] h = rw (same_text_self key) refl
find-snoc-new key c ((k, v) ∷ m) h = ground (arith, find-snoc-new key c m)

pub find-snoc-old :
    (key other : List ℕ) (c d : Constraint) (m : List (List ℕ × Constraint))
    → find key m ≡ some d
    → find key (m ++ ((other, c) ∷ [])) ≡ some d
unfolding find
find-snoc-old key other c d [] h = absurd (cc h)
find-snoc-old key other c d ((k, v) ∷ m) h = ground (arith, find-snoc-old key other c d m)

pub find-snoc-apart :
    (key other : List ℕ) (c : Constraint) (m : List (List ℕ × Constraint))
    → find key (m ++ ((other, c) ∷ [])) ≡ none
    → (find key m ≡ none) × (same_text other key ≡ false)
unfolding find
find-snoc-apart key other c [] h = elim (Bool-cases (same_text other key)) [
  | inl e ↦ ground arith
  | inr e ↦ (refl, e)
]
find-snoc-apart key other c ((k, v) ∷ m) h = ground (arith, find-snoc-apart key other c m)
