-- ===== src/Bram/Types/Passes.antt =====
-- What the passes that name RAM blocks do: the name says how the block is configured, and when the
-- run ends with an error.
use mathlib.Core.List.{append_assoc}
use yosys_f4pga_plugins.Prelude.{
  ℕ, ◌≡◌, refl, ap, sym, ◌∙◌, Bool, true, false, Option, none, some, inl, inr, List, [], ◌∷◌, ◌++◌,
  arith, if◌then◌else◌, Option-cases,
}
use yosys_f4pga_plugins.Prelude.Text.{codes, decimal, same_text_iff}
use yosys_f4pga_plugins.Bram.Types.{
  ConstApi, BramCell, Outcome, failed, retyped, add_width, add_widths, build_type, warn_widths,
  ecc_width_for_mode, flag, mode, types_cell, checked, ql_bramecc_types,
}
use yosys_f4pga_plugins.Bram.Types.Name.{
  Kind, bram, sync_fifo, async_fifo, Shape, nonsplit, split, text_of, kind_text, read_name,
  read_name-text,
}

-- The kind and the shape that configuration bits stand for.
abbrev pub kind_of : Bool → Bool → Kind
kind_of true true = sync_fifo
kind_of true false = async_fifo
kind_of false sync = bram

abbrev pair {ℓ κ} : {A : Type ℓ} {B : Type κ} → Option A → (A → Option B) → Option B
pair none f = none
pair (some a) f = f a

unfoldable pub shape_of : (ℕ → Option ℕ) → Bool → ℕ → ℕ → ℕ → ℕ → Option Shape
shape_of width true a1 b1 a2 b2 =
    pair (width a1)
      λ w. pair (width b1) λ x. pair (width a2) λ y. pair (width b2) λ z. some (split w x y z)
shape_of width false a1 b1 a2 b2 = pair (width a1) λ w. pair (width b1) λ x. some (nonsplit w x)

retyped_text : {s t : List ℕ} → retyped s ≡ retyped t → s ≡ t
retyped_text h = cc

abbrev named : List ℕ → Option Shape → Outcome
named type none = failed
named type (some s) = retyped (type ++ text_of s)

module _ (width : ℕ → Option ℕ) (label : List ℕ) (m : ℕ) (type : List ℕ)
    (rest : List ℕ → Outcome) where
  add_width-none : width m ≡ none → add_width width label m type rest ≡ failed
  unfolding add_width
  add_width-none e = rw (e, add_width)

  add_width-some :
      (w : ℕ)
      → width m ≡ some w
      → add_width width label m type rest ≡ rest (type ++ (label ++ (decimal w ++ (b'_' ∷ []))))
  unfolding add_width
  add_width-some w e = rw (e, add_width)

add_widths-split :
    (width : ℕ → Option ℕ) (a1 b1 a2 b2 : ℕ) (type : List ℕ)
    → add_widths width true a1 b1 a2 b2 type ≡ named type (shape_of width true a1 b1 a2 b2)
unfolding add_widths shape_of
add_widths-split width a1 b1 a2 b2 type = elim (Option-cases (width a1)) [
  | inl e1 ↦ rw e1 (add_width-none width _ a1 _ _ e1)
  | inr (w, e1) ↦
      add_width-some width _ a1 _ _ w e1
      ∙ rw e1 (elim (Option-cases (width b1)) [
        | inl e2 ↦ rw e2 (add_width-none width _ b1 _ _ e2)
        | inr (x, e2) ↦
            add_width-some width _ b1 _ _ x e2
            ∙ rw e2 (elim (Option-cases (width a2)) [
              | inl e3 ↦ rw e3 (add_width-none width _ a2 _ _ e3)
              | inr (y, e3) ↦
                  add_width-some width _ a2 _ _ y e3
                  ∙ rw e3 (elim (Option-cases (width b2)) [
                    | inl e4 ↦ rw e4 (add_width-none width _ b2 _ _ e4)
                    | inr (z, e4) ↦
                        add_width-some width _ b2 _ _ z e4 ∙ rw e4 (ap retyped (simp append_assoc))
                  ])
            ])
      ])
]

add_widths-nonsplit :
    (width : ℕ → Option ℕ) (a1 b1 a2 b2 : ℕ) (type : List ℕ)
    → add_widths width false a1 b1 a2 b2 type ≡ named type (shape_of width false a1 b1 a2 b2)
unfolding add_widths shape_of
add_widths-nonsplit width a1 b1 a2 b2 type = elim (Option-cases (width a1)) [
  | inl e1 ↦ rw e1 (add_width-none width _ a1 _ _ e1)
  | inr (w, e1) ↦
      add_width-some width _ a1 _ _ w e1
      ∙ rw e1 (elim (Option-cases (width b1)) [
        | inl e2 ↦ rw e2 (add_width-none width _ b1 _ _ e2)
        | inr (x, e2) ↦ add_width-some width _ b1 _ _ x e2 ∙ rw e2 (ap retyped (simp append_assoc))
      ])
]

add_widths-named :
    (width : ℕ → Option ℕ) (is_split : Bool) (a1 b1 a2 b2 : ℕ) (type : List ℕ)
    → add_widths width is_split a1 b1 a2 b2 type ≡ named type (shape_of width is_split a1 b1 a2 b2)
add_widths-named width true a1 b1 a2 b2 type = add_widths-split width a1 b1 a2 b2 type
add_widths-named width false a1 b1 a2 b2 type = add_widths-nonsplit width a1 b1 a2 b2 type

kind_prefix :
    (base : List ℕ) (fifo sync : Bool)
    → (if fifo
        then (base ++ codes "_FIFO_") ++ (if sync then codes "SYNC_" else codes "ASYNC_")
        else base ++ codes "_BRAM_")
      ≡ base ++ kind_text (kind_of fifo sync)
kind_prefix base true true = append_assoc base (codes "_FIFO_") (codes "SYNC_")
kind_prefix base true false = append_assoc base (codes "_FIFO_") (codes "ASYNC_")
kind_prefix base false sync = refl

-- A name that is built reads back as the configuration that it was built from.
build_type-name :
    (width : ℕ → Option ℕ) (base : List ℕ) (fifo sync is_split : Bool) (a1 b1 a2 b2 : ℕ)
    (t : List ℕ)
    → build_type width base fifo sync is_split a1 b1 a2 b2 ≡ retyped t
    → (s : Shape) × (shape_of width is_split a1 b1 a2 b2 ≡ some s)
      × (read_name base t ≡ some (kind_of fifo sync, s))
unfolding build_type
build_type-name width base fifo sync is_split a1 b1 a2 b2 t h =
    go (shape_of width is_split a1 b1 a2 b2) refl
  where
    e :
        named (base ++ kind_text (kind_of fifo sync)) (shape_of width is_split a1 b1 a2 b2)
        ≡ retyped t
    e =
        sym (
          ap (add_widths width is_split a1 b1 a2 b2) (kind_prefix base fifo sync)
          ∙ add_widths-named width is_split a1 b1 a2 b2 (base ++ kind_text (kind_of fifo sync)))
        ∙ h

    go :
        (o : Option Shape)
        → shape_of width is_split a1 b1 a2 b2 ≡ o
        → (s : Shape) × (shape_of width is_split a1 b1 a2 b2 ≡ some s)
          × (read_name base t ≡ some (kind_of fifo sync, s))
    go none p = absurd (cc (rw p at e))
    go (some s) p = (
      s,
      p,
      ap (read_name base) (retyped_text (sym (rw p at e)) ∙ append_assoc base _ _)
          ∙ read_name-text base (kind_of fifo sync) s,
    )

module _ (api : ConstApi) where
  open api use {Const, as_int-extract-lt}

  types_cell-retyped :
      (base : List ℕ) (configured : Const → Outcome) (cell : BramCell api) (t : List ℕ)
      → types_cell api base configured cell ≡ retyped t
      → (c : Const) × (cell.type ≡ base)
        × (cell.mode_bits ≡ some c)
        × (flag api c 13 ≡ flag api c 54)
        × (flag api c 0 ≡ flag api c 41)
        × (configured c ≡ retyped t)
  unfolding types_cell
  types_cell-retyped base configured cell t h = ground (arith, same_text_iff cell.type base)

  checked-retyped :
      (width : ℕ → Option ℕ) (base : List ℕ) (c : Const) (t : List ℕ)
      → checked api width base c ≡ retyped t
      → (mode api c 1 ≡ mode api c 7)
        × (mode api c 4 ≡ mode api c 10)
        × (mode api c 42 ≡ mode api c 48)
        × (mode api c 45 ≡ mode api c 51)
        × (build_type width base
              (flag api c 13)
              (flag api c 0)
              (flag api c 80)
              (mode api c 1)
              (mode api c 4)
              (mode api c 42)
              (mode api c 45)
            ≡ retyped t)
  unfolding checked warn_widths
  checked-retyped width base c t h = ground arith

  -- What a new name says of the cell: it had the base type and MODE_BITS, with equal FMODE and equal
  -- SYNC_FIFO bits in both halves, and the name reads back as the kind and the widths of the bits.
  -- The arguments are the modes that the name is made from.
  pub record Says (width : ℕ → Option ℕ) (base : List ℕ) (cell : BramCell api) (t : List ℕ)
      (c : Const) (a1 b1 a2 b2 : ℕ) : Type 0 where
    pub type : cell.type ≡ base
    pub same_kind : flag api c 13 ≡ flag api c 54
    pub same_sync : flag api c 0 ≡ flag api c 41
    pub shape : Shape
    pub shape_bits : shape_of width (flag api c 80) a1 b1 a2 b2 ≡ some shape
    pub reads_back : read_name base t ≡ some (kind_of (flag api c 13) (flag api c 0), shape)

  -- The passes that check the ports (ql_bram_types, ql_sdp_bram_types, ql_sdp_bramecc_types): if a
  -- cell gets a new type, its read and write modes agree at all four ports, and the name says how the
  -- block is configured.
  pub checked-Says :
      (width : ℕ → Option ℕ) (base : List ℕ) (cell : BramCell api) (t : List ℕ)
      → types_cell api base (checked api width base) cell ≡ retyped t
      → (c : Const) × (cell.mode_bits ≡ some c)
        × (mode api c 1 ≡ mode api c 7)
        × (mode api c 4 ≡ mode api c 10)
        × (mode api c 42 ≡ mode api c 48)
        × (mode api c 45 ≡ mode api c 51)
        × Says width base cell t c (mode api c 1) (mode api c 4) (mode api c 42) (mode api c 45)
  checked-Says width base cell t h =
      let (c, ty, mb, fm, sf, k) = types_cell-retyped base (checked api width base) cell t h in
      let (pa1, pb1, pa2, pb2, built) = checked-retyped width base c t k in
      let (s, bits, back) = build_type-name width base _ _ _ _ _ _ _ t built in
      (
        c,
        mb,
        pa1,
        pb1,
        pa2,
        pb2,
        record {
          type = ty;
          same_kind = fm;
          same_sync = sf;
          shape = s;
          shape_bits = bits;
          reads_back = back;
        },
      )

  -- The same of ql_bramecc_types, which compares no modes.
  pub ql_bramecc_types-Says :
      (cell : BramCell api) (t : List ℕ)
      → ql_bramecc_types api cell ≡ retyped t
      → (c : Const) × (cell.mode_bits ≡ some c)
        × Says ecc_width_for_mode
            (codes "TDP_ECC36K")
            cell
            t
            c
            (mode api c 7)
            (mode api c 4)
            (mode api c 48)
            (mode api c 45)
  unfolding ql_bramecc_types
  ql_bramecc_types-Says cell t h =
      let (c, ty, mb, fm, sf, built) = types_cell-retyped (codes "TDP_ECC36K") _ cell t h in
      let (s, bits, back) = build_type-name ecc_width_for_mode _ _ _ _ _ _ _ _ t built in
      (
        c,
        mb,
        record {
          type = ty;
          same_kind = fm;
          same_sync = sf;
          shape = s;
          shape_bits = bits;
          reads_back = back;
        },
      )
