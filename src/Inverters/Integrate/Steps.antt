-- ===== src/Inverters/Integrate/Steps.antt =====
-- One pin that is integrated, and all of an inverter's pins.
use mathlib.Core.Path.{subst}
use yosys_f4pga_plugins.Prelude.{
  ℕ, ◌≡◌, refl, sym, ap, ◌∙◌, Bool, false, not, none, some, List, [], ◌∷◌, set, All, All-imp,
  ℕ_discrete, arith,
}
use yosys_f4pga_plugins.Prelude.Text.{text_eq}
use yosys_f4pga_plugins.Prelude.Options.{>>=_some}
use yosys_f4pga_plugins.Prelude.Dict.{lookup, lookup-All, IsPool, member}
use yosys_f4pga_plugins.Inverters.{
  Cell, Cells, Pin, pin_eq, same_pin_iff, Design, not_type, a_port, get_cell, port_bit,
}
use yosys_f4pga_plugins.Inverters.Integrate.{rewire, integrate_pin, integrate_pins}
use yosys_f4pga_plugins.Inverters.Integrate.Pins.{
  seen, rewire-rewired, rewired-port_bit, rewire-seen,
}
use yosys_f4pga_plugins.Inverters.Integrate.Levels.{
  Keeps, Keeps-refl, Keeps-trans, Inverts, Inverts-Keeps, IsParam, IsParam-Keeps, IsSink, Drives,
  Drives-Keeps, get_cell-set_self, get_cell-set_other,
}

module _ {B : Type 0} (design : Design B) (level : B → Bool)
    (distinct : (type p q param_name : List ℕ)
      → design.invertible_pin type p ≡ some param_name
      → design.invertible_pin type q ≡ some param_name
      → p ≡ q)
    (plain : (port : List ℕ) → design.invertible_pin not_type port ≡ none)
    (respects : (b : B) → level (design.sig_map b) ≡ level b) (inv : ℕ)
    (inv_params : List (Pin × List ℕ)) (y : B) where
  -- What one call did.
  pub Step : Pin → Cells B → Cells B → Type 0
  Step pin cells cells' =
      (i : ℕ) × (c : Cell B) × (d : Cell B) × (a : B) × (p : List ℕ) × (c' : Cell B) × (pin.cell
        ≡ some i)
      × (get_cell cells i ≡ some c)
      × (get_cell cells inv ≡ some d)
      × (port_bit d a_port 0 ≡ some a)
      × (lookup pin inv_params ≡ some p)
      × (rewire c pin.port pin.bit a p ≡ some c')
      × (set cells i (some c') ≡ cells')

  integrate_pin-Step :
      (pin : Pin) (cells cells' : Cells B)
      → integrate_pin inv inv_params pin cells ≡ some cells'
      → Step pin cells cells'
  unfolding integrate_pin Step
  integrate_pin-Step pin cells cells' h =
      let (i, e1, h1) = >>=_some pin.cell _ cells' h in
      let (c, e2, h2) = >>=_some (get_cell cells i) _ cells' h1 in
      let (d, e3, h3) = >>=_some (get_cell cells inv) _ cells' h2 in
      let (a, e4, h4) = >>=_some (port_bit d a_port 0) _ cells' h3 in
      let (p, e5, h5) = >>=_some (lookup pin inv_params) _ cells' h4 in
      let (c', e6, h6) = >>=_some (rewire c pin.port pin.bit a p) _ cells' h5 in
      (i, c, d, a, p, c', e1, e2, e3, e4, e5, e6, injective (set cells i (some c')) h6)
    where
      injective : (s : Cells B) → some s ≡ some cells' → s ≡ cells'
      injective s h = cc

  module _ (pin : Pin) (cells cells' : Cells B)
      (params : All (λ (e : Pin × List ℕ). IsParam design cells e.0 e.1) inv_params)
      (inverts : Inverts design level cells) (drives : Drives design cells inv y)
      (sink : IsSink design cells y pin) (step : Step pin cells cells') where
    -- The level on the pin is the inverse of the level at the inverter's input.
    crossed :
        (c : Cell B) (b a : B) (i : ℕ) (d : Cell B)
        → design.sig_map b ≡ y
        → get_cell cells inv ≡ some d
        → port_bit d a_port 0 ≡ some a
        → level b ≡ not (level a)
    unfolding Drives Inverts
    crossed c b a i d s f g =
        let (e, z, e1, t, p, s') = drives in
        let same : e ≡ d = cc in
        sym (respects b) ∙ ap level (s ∙ sym s') ∙ respects z ∙ inverts inv e a z e1 t (rw same g) p

    step-Keeps : Keeps design level cells cells'
    unfolding Keeps Step IsSink IsParam
    step-Keeps j e h =
        let (i, c, d, a, p, c', e1, e2, e3, e4, e5, e6, e7) = step in
        let (c0, b, f0, g, s) = sink i e1 in
        let same : c0 ≡ c = cc in
        let invertible = lookup-All (IsParam design cells) pin p inv_params params e5 i c e1 e2 in
        let (bits, mask, k1, k2, r) = rewire-rewired c pin.port pin.bit a p c' e6 in
        elim (ℕ_discrete i j) [
          | yes n ↦
              let new : c' ≡ e = injective (
                sym (get_cell-set_self cells i c (some c') e2)
                ∙ ap (λ s. get_cell s i) e7
                ∙ ap (get_cell cells') n
                ∙ h) in
              (
                c,
                ap (get_cell cells) (sym n) ∙ e2,
                ap (λ (x : Cell B). x.type) (r ∙ new),
                λ q k.
                    subst (λ x. seen design level x q k ≡ seen design level c q k) new
                      (rewire-seen design level distinct c pin.port pin.bit a p invertible c' b e6
                        (rw (← same) g) (crossed c b a i d s e3 e4) q k),
                λ t. absurd (not_plain c p invertible t),
              )
          | no n ↦ (
            e,
            sym (get_cell-set_other cells i j (some c') n) ∙ ap (λ s. get_cell s j) e7 ∙ h,
            refl,
            λ q k. refl,
            λ t. refl,
          )
        ]
      where
        injective : {x z : Cell B} → some x ≡ some z → x ≡ z
        injective h = cc

        not_plain :
            (c : Cell B) (p : List ℕ)
            → design.invertible_pin c.type pin.port ≡ some p
            → c.type ≡ not_type
            → ⊥
        not_plain c p h t = cc (h, plain pin.port, ap (λ t. design.invertible_pin t pin.port) t)

    -- A pin on the net that is not this one is still on it.
    step-IsSink :
        (other : Pin)
        → pin_eq.beq pin other ≡ false
        → IsSink design cells y other
        → IsSink design cells' y other
    unfolding Step IsSink
    step-IsSink other n h j e =
        let (i, c, d, a, p, c', e1, e2, e3, e4, e5, e6, e7) = step in
        let (x, b, f, g, s) = h j e in
        elim (ℕ_discrete i j) [
          | yes k ↦
              let (bits, mask, k1, k2, r) = rewire-rewired c pin.port pin.bit a p c' e6 in
              let same : x ≡ c = injective (sym f ∙ ap (get_cell cells) (sym k) ∙ e2) in
              (
                c',
                b,
                ap (get_cell cells') (sym k)
                    ∙ ap (λ s. get_cell s i) (sym e7)
                    ∙ get_cell-set_self cells i c (some c') e2,
                subst (λ z. port_bit z other.port other.bit ≡ some b) r
                    (rewired-port_bit c pin.port pin.bit a p bits mask b other.port other.bit k1
                      (apart i j e1 e k) (rw (← same) g)),
                s,
              )
          | no k ↦ (
            x,
            b,
            ap (λ s. get_cell s j) (sym e7) ∙ get_cell-set_other cells i j (some c') k ∙ f,
            g,
            s,
          )
        ]
      where
        injective : {x z : Cell B} → some x ≡ some z → x ≡ z
        injective h = cc

        apart :
            (i j : ℕ)
            → pin.cell ≡ some i
            → other.cell ≡ some j
            → i ≡ j
            → (pin.port ≡ other.port → pin.bit ≡ other.bit → ⊥)
        apart i j e1 e k p q = cc (n, (same_pin_iff pin other).1 (cc))

    -- The inverter is still there, and drives what it drove.
    step-Drives : Drives design cells' inv y
    unfolding Step
    step-Drives =
        let (i, c, d, a, p, c', e1, e2, e3, e4, e5, e6, e7) = step in
        elim (ℕ_discrete i inv) [
          | yes k ↦
              Drives-Keeps design level cells cells' inv y c'
                (ap (get_cell cells') (sym k)
                  ∙ ap (λ s. get_cell s i) (sym e7)
                  ∙ get_cell-set_self cells i c (some c') e2)
                step-Keeps drives
          | no k ↦
              Drives-Keeps design level cells cells' inv y d
                (ap (λ s. get_cell s inv) (sym e7)
                  ∙ get_cell-set_other cells i inv (some c') k
                  ∙ e3)
                step-Keeps drives
        ]

    step-IsSinks :
        (others : List Pin)
        → member pin others ≡ false
        → All (IsSink design cells y) others
        → All (IsSink design cells' y) others
    unfolding member
    step-IsSinks [] n h = tt
    step-IsSinks (other ∷ others) n h =
        (step-IsSink other (ground arith) h.0, step-IsSinks others (ground arith) h.1)

  -- Distinct pins, all on the net of the inverter.
  pub integrate_pins-Keeps :
      (pins : List Pin) (cells cells' : Cells B)
      → All (λ (e : Pin × List ℕ). IsParam design cells e.0 e.1) inv_params
      → Inverts design level cells
      → Drives design cells inv y
      → IsPool pins
      → All (IsSink design cells y) pins
      → integrate_pins inv inv_params pins cells ≡ some cells'
      → Keeps design level cells cells'
  unfolding integrate_pins IsPool
  integrate_pins-Keeps [] cells cells' params inverts drives pool sinks h =
      subst (Keeps design level cells) (injective cells h) (Keeps-refl design level cells)
    where
      injective : (s : Cells B) → some s ≡ some cells' → s ≡ cells'
      injective s h = cc
  integrate_pins-Keeps (pin ∷ pins) cells cells' params inverts drives pool sinks h =
      let (next, e, h1) = >>=_some (integrate_pin inv inv_params pin cells) _ cells' h in
      let step = integrate_pin-Step pin cells next e in
      let k = step-Keeps pin cells next params inverts drives sinks.0 step in
      Keeps-trans design level cells next cells' k (
        integrate_pins-Keeps pins next cells'
          (All-imp _ _ (λ e. IsParam-Keeps design level cells next e.0 e.1 k) inv_params params)
          (Inverts-Keeps design level cells next k inverts)
          (step-Drives pin cells next params inverts drives sinks.0 step) pool.1
          (step-IsSinks pin cells next params inverts drives sinks.0 step pins pool.0 sinks.1) h1)
