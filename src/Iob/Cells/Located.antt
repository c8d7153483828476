-- ===== src/Iob/Cells/Located.antt =====
-- The pad, the place and the type that each bit of a port gives, and how the steps of the loop find them.
use mathlib.Core.Path.{subst}
use yosys_f4pga_plugins.Prelude.{
  ℕ, ◌≡◌, ◌⊎◌, refl, sym, ap, ◌∙◌, ◌||◌, true, none, some, Option-cases, List, [], ◌∷◌, ◌++◌, inl,
  inr, All,
}
use yosys_f4pga_plugins.Prelude.Text.{codes, decimal}
use yosys_f4pga_plugins.Iob.Pinmap.{Entry, find}
use yosys_f4pga_plugins.Iob.Pcf.{Constraint}
use yosys_f4pga_plugins.Iob.Locate.{returned, choose_pinmap_entry}
use yosys_f4pga_plugins.Iob.Cells.{Wire, SigBit, Location, constrain, set_place, set_type}

-- The value is what the last of the bits that give one gives, and else the one before.
module _ (P : SigBit → List ℕ → Type 0) where
  abbrev pub GivesNone : SigBit → Type 0
  GivesNone bit = (u : List ℕ) → P bit u → ⊥

  abbrev pub Step : SigBit → List ℕ → List ℕ → Type 0
  Step bit v v' = ((v' ≡ v) × GivesNone bit) ⊎ P bit v'

  unfoldable pub IsLast : List SigBit → List ℕ → List ℕ → Type 0
  IsLast bits v v' =
      ((v' ≡ v) × All GivesNone bits)
      ⊎ ((before : List SigBit) × (bit : SigBit) × (after : List SigBit) × (bits
            ≡ before ++ (bit ∷ after))
          × P bit v'
          × All GivesNone after)

  pub IsLast-Step :
      (bit : SigBit) (bits : List SigBit) (v v1 v' : List ℕ)
      → Step bit v v1
      → IsLast bits v1 v'
      → IsLast (bit ∷ bits) v v'
  unfolding IsLast
  IsLast-Step bit bits v v1 v' s (inr (before, b, after, e, p, n)) =
      inr (bit ∷ before, b, after, ap (λ bs. bit ∷ bs) e, p, n)
  IsLast-Step bit bits v v1 v' (inl (q, n)) (inl (e, ns)) = inl (e ∙ q, (n, ns))
  IsLast-Step bit bits v v1 v' (inr p) (inl (e, ns)) =
      inr ([], bit, bits, refl, subst (P bit) (sym e) p, ns)

module _ (constraints : List (List ℕ × Constraint)) (pinmap : List (List ℕ × List Entry))
    (preferred : List (List ℕ)) where
  -- The pad of the first name that is constrained; empty if none is.
  unfoldable pub IsPadOf : List (List ℕ) → List ℕ → Type 0
  IsPadOf [] pad = pad ≡ []
  IsPadOf (name ∷ names) pad =
      ((c : Constraint) × (find name constraints ≡ some c) × (pad ≡ c.pad_name))
      ⊎ ((find name constraints ≡ none) × IsPadOf names pad)

  -- The bit is on a wire that is a port of the top module, and the pad is that of the net `name`,
  -- `name[offset]` or `name(offset)`, in this order.
  unfoldable pub PadAt : SigBit → List ℕ → Type 0
  PadAt bit pad =
      (wire : Wire) × (bit.wire ≡ some wire)
      × (wire.port_input || wire.port_output ≡ true)
      × IsPadOf
          (wire.name
            ∷ (wire.name ++ (codes "[" ++ (decimal bit.offset ++ codes "]")))
            ∷ (wire.name ++ (codes "(" ++ (decimal bit.offset ++ codes ")")))
            ∷ [])
          pad

  -- The entry that is chosen among those of the bit's pad.
  unfoldable pub EntryAt : SigBit → Entry → Type 0
  EntryAt bit entry =
      (pad : List ℕ) × (entries : List Entry) × PadAt bit pad
      × (find pad pinmap ≡ some entries)
      × (choose_pinmap_entry entries preferred ≡ returned entry)

  -- "X" x "Y" y of the entry, which has both.
  unfoldable pub PlaceAt : SigBit → List ℕ → Type 0
  PlaceAt bit place =
      (entry : Entry) × EntryAt bit entry
      × (x : List ℕ) × (y : List ℕ) × (find (codes "x") entry ≡ some x)
      × (find (codes "y") entry ≡ some y)
      × (place ≡ codes "X" ++ (x ++ (codes "Y" ++ y)))

  unfoldable pub TypeAt : SigBit → List ℕ → Type 0
  TypeAt bit type = (entry : Entry) × EntryAt bit entry × (find (codes "type") entry ≡ some type)

  -- Where the bits lead to, from a location on.
  pub record IsLocated (bits : List SigBit) (l l' : Location) : Type 0 where
    pub pad : IsLast PadAt bits l.pad_name l'.pad_name
    pub place : IsLast PlaceAt bits l.loc_name l'.loc_name
    pub type : IsLast TypeAt bits l.cell_type l'.cell_type

  IsPadOf-unique :
      (names : List (List ℕ)) (p q : List ℕ) → IsPadOf names p → IsPadOf names q → p ≡ q
  unfolding IsPadOf
  IsPadOf-unique [] p q h k = h ∙ sym k
  IsPadOf-unique (name ∷ names) p q (inl (c, e, f)) (inl (d, g, h)) = cc
  IsPadOf-unique (name ∷ names) p q (inl (c, e, f)) (inr (g, h)) = absurd (cc (e, g))
  IsPadOf-unique (name ∷ names) p q (inr (e, f)) (inl (d, g, h)) = absurd (cc (e, g))
  IsPadOf-unique (name ∷ names) p q (inr (e, f)) (inr (g, h)) = IsPadOf-unique names p q f h

  pub PadAt-unique : (bit : SigBit) (p q : List ℕ) → PadAt bit p → PadAt bit q → p ≡ q
  unfolding PadAt
  PadAt-unique bit p q (w, e, i, h) (v, f, j, k) =
      IsPadOf-unique _ p q h (subst (λ wire. IsPadOf (names wire) q) (same f) k)
    where
      names : Wire → List (List ℕ)
      names wire =
          wire.name
          ∷ (wire.name ++ (codes "[" ++ (decimal bit.offset ++ codes "]")))
          ∷ (wire.name ++ (codes "(" ++ (decimal bit.offset ++ codes ")")))
          ∷ []

      same : bit.wire ≡ some v → v ≡ w
      same f = cc

  EntryAt-unique : (bit : SigBit) (a b : Entry) → EntryAt bit a → EntryAt bit b → a ≡ b
  unfolding EntryAt
  EntryAt-unique bit a b (p, es, h, f, c) (q, fs, k, g, d) =
      let same = PadAt-unique bit p q h k in cc

  pub constrain-IsPadOf :
      (names : List (List ℕ)) (l : Location)
      → IsPadOf names (constrain constraints pinmap preferred names l).pad_name
  unfolding constrain IsPadOf
  constrain-IsPadOf [] l = refl
  constrain-IsPadOf (name ∷ names) l = elim (Option-cases (find name constraints)) [
    | inl e ↦ rw (constrain, e) (inr (refl, constrain-IsPadOf names l))
    | inr (c, e) ↦ rw (constrain, e) (inl (c, refl, refl))
  ]

  pub constrain-keeps :
      (names : List (List ℕ)) (l : Location)
      → ((constrain constraints pinmap preferred names l).loc_name ≡ l.loc_name)
        × ((constrain constraints pinmap preferred names l).cell_type ≡ l.cell_type)
  unfolding constrain
  constrain-keeps [] l = (refl, refl)
  constrain-keeps (name ∷ names) l = elim (Option-cases (find name constraints)) [
    | inl e ↦ rw (constrain, e) (constrain-keeps names l)
    | inr (c, e) ↦ rw (constrain, e) (refl, refl)
  ]

  pub set_place-keeps :
      (entry : Entry) (l : Location)
      → ((set_place constraints pinmap preferred entry l).pad_name ≡ l.pad_name)
        × ((set_place constraints pinmap preferred entry l).cell_type ≡ l.cell_type)
  unfolding set_place
  set_place-keeps entry l = elim (Option-cases (find (codes "x") entry)) [
    | inl e ↦ rw (set_place, e) (refl, refl)
    | inr (x, e) ↦ elim (Option-cases (find (codes "y") entry)) [
      | inl f ↦ rw (set_place, e) (rw f (refl, refl))
      | inr (y, f) ↦ rw (set_place, e) (rw f (refl, refl))
    ]
  ]

  pub set_place-Step :
      (bit : SigBit) (entry : Entry) (l : Location)
      → EntryAt bit entry
      → Step PlaceAt bit l.loc_name (set_place constraints pinmap preferred entry l).loc_name
  unfolding set_place PlaceAt
  set_place-Step bit entry l h = elim (Option-cases (find (codes "x") entry)) [
    | inl e ↦
        rw (set_place, e)
          (inl (
            refl,
            λ u (entry', h', x, y, fx, fy, q).
                let same = EntryAt-unique bit entry' entry h' h in cc,
          ))
    | inr (x, e) ↦ elim (Option-cases (find (codes "y") entry)) [
      | inl f ↦
          rw (set_place, e)
            (rw f (
              inl (
                refl,
                λ u (entry', h', x', y, fx, fy, q).
                    let same = EntryAt-unique bit entry' entry h' h in cc,
              )))
      | inr (y, f) ↦ rw (set_place, e) (rw f (inr (entry, h, x, y, e, f, refl)))
    ]
  ]

  pub set_type-keeps :
      (entry : Entry) (l : Location)
      → ((set_type constraints pinmap preferred entry l).pad_name ≡ l.pad_name)
        × ((set_type constraints pinmap preferred entry l).loc_name ≡ l.loc_name)
  unfolding set_type
  set_type-keeps entry l = elim (Option-cases (find (codes "type") entry)) [
    | inl e ↦ rw (set_type, e) (refl, refl)
    | inr (t, e) ↦ rw (set_type, e) (refl, refl)
  ]

  pub set_type-Step :
      (bit : SigBit) (entry : Entry) (l : Location)
      → EntryAt bit entry
      → Step TypeAt bit l.cell_type (set_type constraints pinmap preferred entry l).cell_type
  unfolding set_type TypeAt
  set_type-Step bit entry l h = elim (Option-cases (find (codes "type") entry)) [
    | inl e ↦
        rw (set_type, e)
          (inl (refl, λ u (entry', h', f). let same = EntryAt-unique bit entry' entry h' h in cc))
    | inr (t, e) ↦ rw (set_type, e) (inr (entry, h, e))
  ]
