-- ===== src/Iob/Cells/Sound.antt =====
-- The parameters of an IO cell come from the constraints and the pinmap.
use mathlib.Core.Path.{subst}
use yosys_f4pga_plugins.Prelude.{
  ℕ, ◌≡◌, ◌⊎◌, refl, sym, ap, ◌∙◌, ◌||◌, Bool-cases, none, some, Option-cases, List, [], ◌∷◌, inl,
  inr,
}
use yosys_f4pga_plugins.Iob.Pinmap.{Entry, find}
use yosys_f4pga_plugins.Iob.Pcf.{Constraint}
use yosys_f4pga_plugins.Iob.Locate.{
  Outcome, rejected, thrown, returned, Outcome-cases, IoCellType, choose_pinmap_entry,
}
use yosys_f4pga_plugins.Iob.Cells.{
  Cell, SigBit, Location, net_names, constrain, set_place, set_type, locate, locate_bit,
  locate_bits, no_location, annotate, locate_cell,
}
use yosys_f4pga_plugins.Iob.Cells.Located.{
  IsLast, Step, IsLast-Step, PadAt, EntryAt, PlaceAt, TypeAt, IsLocated, PadAt-unique,
  constrain-IsPadOf, constrain-keeps, set_place-keeps, set_place-Step, set_type-keeps,
  set_type-Step,
}

module _ (constraints : List (List ℕ × Constraint)) (pinmap : List (List ℕ × List Entry))
    (preferred : List (List ℕ)) where
  -- One bit of which the pad is known, from `l` to `l'`.
  abbrev Moves : SigBit → Location → Location → Type 0
  Moves bit l l' =
      Step (PlaceAt constraints pinmap preferred) bit l.loc_name l'.loc_name
      × Step (TypeAt constraints pinmap preferred) bit l.cell_type l'.cell_type

  no_entry :
      (bit : SigBit) (l : Location)
      → ((entry : Entry) → EntryAt constraints pinmap preferred bit entry → ⊥)
      → Moves bit l l
  unfolding PlaceAt TypeAt
  no_entry bit l n = (inl (refl, λ u p. n p.0 p.1), inl (refl, λ u p. n p.0 p.1))

  locate-Moves :
      (bit : SigBit) (l l' : Location)
      → PadAt constraints pinmap preferred bit l.pad_name
      → locate constraints pinmap preferred l ≡ returned l'
      → (l'.pad_name ≡ l.pad_name) × Moves bit l l'
  unfolding locate EntryAt
  locate-Moves bit l l' h r = elim (Option-cases (find l.pad_name pinmap)) [
    | inl e ↦
        subst (λ m. (m.pad_name ≡ l.pad_name) × Moves bit l m) (same l (rw (locate, e) at r))
          (
            refl,
            no_entry bit l λ entry (pad, entries, p, f, c).
                let q = PadAt-unique constraints pinmap preferred bit pad l.pad_name p h in cc,
          )
    | inr (entries, e) ↦ elim (Outcome-cases (choose_pinmap_entry entries preferred)) [
      | inl k ↦ absurd (cc (rw k at (rw (locate, e) at r)))
      | inr (inl k) ↦ absurd (cc (rw k at (rw (locate, e) at r)))
      | inr (inr (entry, k)) ↦
          let h' : EntryAt constraints pinmap preferred bit entry =
            (l.pad_name, entries, h, e, k) in
          let l1 = set_place constraints pinmap preferred entry l in
          let (p1, t1) = set_place-keeps constraints pinmap preferred entry l in
          let (p2, o2) = set_type-keeps constraints pinmap preferred entry l1 in
          subst (λ m. (m.pad_name ≡ l.pad_name) × Moves bit l m)
            (same (set_type constraints pinmap preferred entry l1) (rw k at (rw (locate, e) at r)))
            (
              p2 ∙ p1,
              (
                subst (Step (PlaceAt constraints pinmap preferred) bit l.loc_name) (sym o2)
                    (set_place-Step constraints pinmap preferred bit entry l h'),
                subst
                    (λ t.
                      Step (TypeAt constraints pinmap preferred) bit t
                        (set_type constraints pinmap preferred entry l1).cell_type)
                    t1 (set_type-Step constraints pinmap preferred bit entry l1 h'),
              ),
            )
    ]
  ]
    where
      same : (m : Location) → returned m ≡ returned l' → m ≡ l'
      same m q = cc

  not_at_port :
      (bit : SigBit) (l : Location)
      → ((pad : List ℕ) → PadAt constraints pinmap preferred bit pad → ⊥)
      → Step (PadAt constraints pinmap preferred) bit l.pad_name l.pad_name × Moves bit l l
  unfolding EntryAt
  not_at_port bit l n = (inl (refl, n), no_entry bit l (λ entry (pad, entries, p, f, c). n pad p))

  locate_bit-Step :
      (bit : SigBit) (l l' : Location)
      → locate_bit constraints pinmap preferred bit l ≡ returned l'
      → Step (PadAt constraints pinmap preferred) bit l.pad_name l'.pad_name × Moves bit l l'
  unfolding locate_bit PadAt
  locate_bit-Step bit l l' r = elim (Option-cases bit.wire) [
    | inl e ↦
        subst
          (λ m. Step (PadAt constraints pinmap preferred) bit l.pad_name m.pad_name × Moves bit l m)
          (same l (rw (locate_bit, e) at r)) (not_at_port bit l λ pad (wire, f, p, h). cc)
    | inr (wire, e) ↦ elim (Bool-cases (wire.port_input || wire.port_output)) [
      | inr p ↦
          subst
            (λ m.
              Step (PadAt constraints pinmap preferred) bit l.pad_name m.pad_name × Moves bit l m)
            (same l (rw p at (rw (locate_bit, e) at r)))
            (not_at_port bit l λ pad (wire', f, q, h).
              let same_wire : wire' ≡ wire = cc in absurd (cc (same_wire, p, q)))
      | inl p ↦
          let names = net_names wire.name bit.offset in
          let l1 = constrain constraints pinmap preferred names l in
          let h : PadAt constraints pinmap preferred bit l1.pad_name =
            (wire, e, p, constrain-IsPadOf constraints pinmap preferred names l) in
          let (place_kept, type_kept) = constrain-keeps constraints pinmap preferred names l in
          let (pad, moves) = locate-Moves bit l1 l' h (rw p at (rw (locate_bit, e) at r)) in
          (
            inr (subst (PadAt constraints pinmap preferred bit) (sym pad) h),
            (
              subst (λ v. Step (PlaceAt constraints pinmap preferred) bit v l'.loc_name) place_kept
                  moves.0,
              subst (λ v. Step (TypeAt constraints pinmap preferred) bit v l'.cell_type) type_kept
                  moves.1,
            ),
          )
    ]
  ]
    where
      same : (m : Location) → returned m ≡ returned l' → m ≡ l'
      same m q = cc

  locate_bits-IsLocated :
      (bits : List SigBit) (l l' : Location)
      → locate_bits constraints pinmap preferred bits l ≡ returned l'
      → IsLocated constraints pinmap preferred bits l l'
  unfolding locate_bits IsLast
  locate_bits-IsLocated [] l l' r = record {
    pad = inl (ap (λ m. m.pad_name) same, tt);
    place = inl (ap (λ m. m.loc_name) same, tt);
    type = inl (ap (λ m. m.cell_type) same, tt);
  }
    where
      same : l' ≡ l
      same = cc
  locate_bits-IsLocated (bit ∷ bits) l l' r =
      elim (Outcome-cases (locate_bit constraints pinmap preferred bit l)) [
        | inl k ↦ absurd (cc (rw (locate_bits, k) at r))
        | inr (inl k) ↦ absurd (cc (rw (locate_bits, k) at r))
        | inr (inr (l1, k)) ↦
            let (pad, moves) = locate_bit-Step bit l l1 k in
            let rest = locate_bits-IsLocated bits l1 l' (rw (locate_bits, k) at r) in
            record {
              pad =
                  IsLast-Step (PadAt constraints pinmap preferred) bit bits l.pad_name l1.pad_name
                    l'.pad_name pad rest.pad;
              place =
                  IsLast-Step (PlaceAt constraints pinmap preferred) bit bits l.loc_name l1.loc_name
                    l'.loc_name moves.0 rest.place;
              type =
                  IsLast-Step (TypeAt constraints pinmap preferred) bit bits l.cell_type
                    l1.cell_type l'.cell_type moves.1 rest.type;
            }
      ]

  annotate-returned :
      (cell cell' : Cell) (o : Outcome Location)
      → annotate cell o ≡ returned cell'
      → (l : Location) × (o ≡ returned l)
        × (cell' ≡ record cell {
          io_pad = some l.pad_name;
          io_loc = some l.loc_name;
          io_type = some l.cell_type;
        })
  unfolding annotate
  annotate-returned cell cell' rejected e = absurd (cc e)
  annotate-returned cell cell' thrown e = absurd (cc e)
  annotate-returned cell cell' (returned l) e = (l, refl, cc)

  -- The parameters of a cell whose port has these bits, from empty ones on; only the three are set.
  unfoldable pub IsAnnotated : List SigBit → Cell → Cell → Type 0
  IsAnnotated bits cell cell' =
      (l : Location) × IsLocated constraints pinmap preferred bits no_location l
      × (cell' ≡ record cell {
        io_pad = some l.pad_name;
        io_loc = some l.loc_name;
        io_type = some l.cell_type;
      })

module _ (types : List (List ℕ × IoCellType)) (constraints : List (List ℕ × Constraint))
    (pinmap : List (List ℕ × List Entry)) where
  -- A cell of an IO type, for which the loop's body returns: only its three parameters are set. The pad
  -- is that of the first constrained one of the three names of the net at the last bit of the cell's
  -- port that is on a port of the top module, or empty. The location is "X" x "Y" y of the entry that
  -- is chosen for the last such bit whose pad is in the pinmap with an entry that has both, and the type
  -- that of the entry for the last such bit with a type; empty if there is no such bit, or no port.
  pub locate_cell-IsAnnotated :
      (cell cell' : Cell) (t : IoCellType)
      → find cell.type types ≡ some t
      → locate_cell types constraints pinmap cell ≡ returned cell'
      → (IsAnnotated constraints pinmap t.preferred_types [] cell cell'
          × (find t.port cell.connections ≡ none))
        ⊎ ((bits : List SigBit) × (find t.port cell.connections ≡ some bits)
            × IsAnnotated constraints pinmap t.preferred_types bits cell cell')
  unfolding locate_cell IsAnnotated locate_bits
  locate_cell-IsAnnotated cell cell' t e h = elim (Option-cases (find t.port cell.connections)) [
    | inl f ↦
        let (l, o, c) =
          annotate-returned constraints pinmap t.preferred_types cell cell' (returned no_location)
            (rw f at (rw (locate_cell, e) at h)) in
        inl
          ((l, locate_bits-IsLocated constraints pinmap t.preferred_types [] no_location l o, c), f)
    | inr (bits, f) ↦
        let (l, o, c) =
          annotate-returned constraints pinmap t.preferred_types cell cell' _
            (rw f at (rw (locate_cell, e) at h)) in
        inr (
          bits,
          f,
          (l, locate_bits-IsLocated constraints pinmap t.preferred_types bits no_location l o, c),
        )
  ]
