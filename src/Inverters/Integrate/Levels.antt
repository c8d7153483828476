-- ===== src/Inverters/Integrate/Levels.antt =====
-- The pins of the cells see the same levels while inverters are integrated.
use mathlib.Core.Path.{subst}
use yosys_f4pga_plugins.Prelude.{
  ℕ, ◌≡◌, ◌≢◌, refl, sym, ap, ◌∙◌, Bool, not, Option, some, List, set, get_elem?,
}
use yosys_f4pga_plugins.Prelude.Text.{text_eq}
use yosys_f4pga_plugins.Prelude.Options.{>>=_some}
use yosys_f4pga_plugins.Inverters.{
  Cell, Cells, Pin, pin_eq, Design, not_type, y_port, a_port, get_cell, port_bit,
}
use yosys_f4pga_plugins.Inverters.Integrate.Pins.{seen, get_elem?-set_other, get_elem?-set_self}

module _ {B : Type 0} where
  get_cell-elem :
      (cells : Cells B) (i : ℕ) (c : Cell B)
      → get_cell cells i ≡ some c
      → get_elem? cells i ≡ some (some c)
  unfolding get_cell
  get_cell-elem cells i c h = let (o, e, f) = >>=_some (get_elem? cells i) _ c h in e ∙ ap some f

  pub get_cell-set_self :
      (cells : Cells B) (i : ℕ) (c : Cell B) (o : Option (Cell B))
      → get_cell cells i ≡ some c
      → get_cell (set cells i o) i ≡ o
  unfolding get_cell
  get_cell-set_self cells i c o h =
      rw (get_elem?-set_self cells i o (some c) (get_cell-elem cells i c h)) refl

  pub get_cell-set_other :
      (cells : Cells B) (i j : ℕ) (o : Option (Cell B))
      → i ≢ j
      → get_cell (set cells i o) j ≡ get_cell cells j
  unfolding get_cell
  get_cell-set_other cells i j o n = rw (get_elem?-set_other cells i j o n) refl

  unfoldable pub IsInverter : Cells B → ℕ → Type 0
  IsInverter cells i = (c : Cell B) → get_cell cells i ≡ some c → c.type ≡ not_type

module _ {B : Type 0} (design : Design B) where
  -- The parameter that goes with a pin is that of its port.
  unfoldable pub IsParam : Cells B → Pin → List ℕ → Type 0
  IsParam cells pin param_name =
      (i : ℕ) (c : Cell B)
      → pin.cell ≡ some i
      → get_cell cells i ≡ some c
      → design.invertible_pin c.type pin.port ≡ some param_name

  -- A pin of a cell is on the net of a canonical bit.
  unfoldable pub IsSink : Cells B → B → Pin → Type 0
  IsSink cells y pin =
      (i : ℕ)
      → pin.cell ≡ some i
      → (c : Cell B) × (b : B) × (get_cell cells i ≡ some c)
        × (port_bit c pin.port pin.bit ≡ some b)
        × (design.sig_map b ≡ y)

  -- A cell is an inverter whose output is on the net of a canonical bit.
  unfoldable pub Drives : Cells B → ℕ → B → Type 0
  Drives cells inv y =
      (c : Cell B) × (b : B) × (get_cell cells inv ≡ some c)
      × (c.type ≡ not_type)
      × (port_bit c y_port 0 ≡ some b)
      × (design.sig_map b ≡ y)

module _ {B : Type 0} (design : Design B) (level : B → Bool) where
  -- Each cell that is left was there, with the same type; its pins see what they saw; and an inverter
  -- is as it was.
  unfoldable pub Keeps : Cells B → Cells B → Type 0
  Keeps cells cells' =
      (i : ℕ) (c' : Cell B)
      → get_cell cells' i ≡ some c'
      → (c : Cell B) × (get_cell cells i ≡ some c)
        × (c.type ≡ c'.type)
        × ((q : List ℕ) (j : ℕ) → seen design level c' q j ≡ seen design level c q j)
        × (c.type ≡ not_type → c ≡ c')

  pub Keeps-refl : (cells : Cells B) → Keeps cells cells
  unfolding Keeps
  Keeps-refl cells i c h = (c, h, refl, λ q j. refl, λ t. refl)

  pub Keeps-trans :
      (cells cells' cells'' : Cells B)
      → Keeps cells cells'
      → Keeps cells' cells''
      → Keeps cells cells''
  unfolding Keeps
  Keeps-trans cells cells' cells'' h k i c'' e =
      let (c', e', t', s', u') = k i c'' e in
      let (c, e0, t, s, u) = h i c' e' in
      (c, e0, t ∙ t', λ q j. s' q j ∙ s q j, λ n. u n ∙ u' (sym t ∙ n))

  -- The levels invert at every inverter.
  unfoldable pub Inverts : Cells B → Type 0
  Inverts cells =
      (i : ℕ) (c : Cell B) (a y : B)
      → get_cell cells i ≡ some c
      → c.type ≡ not_type
      → port_bit c a_port 0 ≡ some a
      → port_bit c y_port 0 ≡ some y
      → level y ≡ not (level a)

  pub Inverts-Keeps : (cells cells' : Cells B) → Keeps cells cells' → Inverts cells → Inverts cells'
  unfolding Keeps Inverts
  Inverts-Keeps cells cells' k h i c' a y e t f g =
      let (c, e0, t0, s, u) = k i c' e in
      let same = u (t0 ∙ t) in h i c a y e0 (t0 ∙ t) (rw same f) (rw same g)

  pub IsInverter-Keeps :
      (cells cells' : Cells B) (i : ℕ)
      → Keeps cells cells'
      → IsInverter cells i
      → IsInverter cells' i
  unfolding Keeps IsInverter
  IsInverter-Keeps cells cells' i k h c' e = let (c, e0, t, s, u) = k i c' e in sym t ∙ h c e0

  pub IsParam-Keeps :
      (cells cells' : Cells B) (pin : Pin) (param_name : List ℕ)
      → Keeps cells cells'
      → IsParam design cells pin param_name
      → IsParam design cells' pin param_name
  unfolding Keeps IsParam
  IsParam-Keeps cells cells' pin param_name k h i c' p e =
      let (c, e0, t, s, u) = k i c' e in
      subst (λ t. design.invertible_pin t pin.port ≡ some param_name) t (h i c p e0)

  pub Drives-Keeps :
      (cells cells' : Cells B) (inv : ℕ) (y : B) (c' : Cell B)
      → get_cell cells' inv ≡ some c'
      → Keeps cells cells'
      → Drives design cells inv y
      → Drives design cells' inv y
  unfolding Keeps Drives
  Drives-Keeps cells cells' inv y c' e k (c, b, f, t, p, s) =
      let (d, f', t', s', u) = k inv c' e in
      let cd : c ≡ d = cc in
      let same : c ≡ c' = cd ∙ u (sym (ap (λ (x : Cell B). x.type) cd) ∙ t) in
      (c', b, e, rw (← same) t, rw (← same) p, s)
