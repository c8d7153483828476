-- ===== src/Inverters/Integrate/Whole.antt =====
-- The whole pass on a module keeps what the pins see.
use yosys_f4pga_plugins.Prelude.{
  ℕ, zero, suc, ◌≡◌, refl, sym, ap, ◌∙◌, Bool, Bool-cases, none, some, List, [], ◌∷◌, inl, inr, ◌⊎◌,
  set, All, All-imp, ℕ_discrete, length,
}
use mathlib.Core.Path.{subst}
use yosys_f4pga_plugins.Prelude.Equality.{Eq}
use yosys_f4pga_plugins.Prelude.Options.{>>=_some}
use yosys_f4pga_plugins.Prelude.Dict.{same_pool, same_pool-All, IsPool}
use yosys_f4pga_plugins.Inverters.{
  Cell, Cells, Pin, pin_eq, Design, not_type, y_port, get_cell, port_bit, range,
}
use yosys_f4pga_plugins.Inverters.Collect.{
  get_sinks_for_driver, build_inverter_map, collect_inverters,
}
use yosys_f4pga_plugins.Inverters.Integrate.{
  integrate_pins, integrate_inverter, integrate_inverters, execute_module,
}
use yosys_f4pga_plugins.Inverters.Integrate.Pins.{seen}
use yosys_f4pga_plugins.Inverters.Integrate.Levels.{
  Keeps, Keeps-refl, Keeps-trans, Inverts, Inverts-Keeps, IsParam, IsParam-Keeps, IsInverter,
  IsInverter-Keeps, IsSink, Drives, get_cell-set_other,
}
use yosys_f4pga_plugins.Inverters.Integrate.Steps.{integrate_pins-Keeps}
use yosys_f4pga_plugins.Inverters.Integrate.Sinks.{cell_sinks-IsSink, top_sinks-IsSink}
use yosys_f4pga_plugins.Inverters.Integrate.Found.{
  IsFound, build_inverter_map-IsInverter, collect_inverters-IsFound,
}

module _ {B : Type 0} ⦃bit_eq : Eq B⦄ (design : Design B) (cells : Cells B) where
  -- There are no sinks, or they are on the net of the cell's output.
  sinks-found :
      (inv : ℕ) (sinks : List Pin)
      → get_sinks_for_driver design cells inv y_port ≡ some sinks
      → IsInverter cells inv
      → (sinks ≡ []) ⊎ ((y : B) × Drives design cells inv y × All (IsSink design cells y) sinks)
  unfolding get_sinks_for_driver IsInverter Drives
  sinks-found inv sinks h v =
      let (c, e, h1) = >>=_some (get_cell cells inv) _ sinks h in
      elim (Bool-cases (design.output c.type y_port)) [
        | inr f ↦ inl (none_found (rw f at h1))
        | inl f ↦
            let (b, p, h2) = >>=_some (port_bit c y_port 0) _ sinks (rw f at h1) in
            inr (
              design.sig_map b,
              (c, b, e, v c e, p, refl),
              top_sinks-IsSink design cells (design.sig_map b) design.connections _ sinks h2 (
                  cell_sinks-IsSink design cells (design.sig_map b) (range 0 (length cells)) [] tt),
            )
      ]
    where
      none_found : some [] ≡ some sinks → sinks ≡ []
      none_found e = cc

get_cell-removed : {B : Type 0} (cells : Cells B) (i : ℕ) → get_cell (set cells i none) i ≡ none
unfolding get_cell
get_cell-removed [] i = refl
get_cell-removed (c ∷ cells) zero = refl
get_cell-removed (c ∷ cells) (suc i) = get_cell-removed cells i

module _ {B : Type 0} ⦃bit_eq : Eq B⦄ (design : Design B) (level : B → Bool)
    (distinct : (type p q param_name : List ℕ)
      → design.invertible_pin type p ≡ some param_name
      → design.invertible_pin type q ≡ some param_name
      → p ≡ q)
    (plain : (port : List ℕ) → design.invertible_pin not_type port ≡ none)
    (respects : (b : B) → level (design.sig_map b) ≡ level b) where
  removed-Keeps : (cells : Cells B) (inv : ℕ) → Keeps design level cells (set cells inv none)
  unfolding Keeps
  removed-Keeps cells inv i c' h = elim (ℕ_discrete inv i) [
    | no n ↦ (c', sym (get_cell-set_other cells inv i none n) ∙ h, refl, λ q j. refl, λ t. refl)
    | yes n ↦ absurd (cc (get_cell-removed cells inv, ap (get_cell (set cells inv none)) n, h))
  ]

  module _ (inv : ℕ) (pins : List Pin) (inv_params : List (Pin × List ℕ)) (cells : Cells B) where
    no_pins-Keeps :
        (cells' : Cells B) (ps : List Pin)
        → All (λ p. ⊥) ps
        → integrate_pins inv inv_params ps cells ≡ some cells'
        → Keeps design level cells cells'
    unfolding integrate_pins
    no_pins-Keeps cells' [] a h =
        subst (Keeps design level cells) (injective h) (Keeps-refl design level cells)
      where
        injective : some cells ≡ some cells' → cells ≡ cells'
        injective h = cc
    no_pins-Keeps cells' (p ∷ ps) a h = absurd a.0

    integrate_inverter-Keeps :
        (cells' : Cells B)
        → All (λ (e : Pin × List ℕ). IsParam design cells e.0 e.1) inv_params
        → Inverts design level cells
        → IsInverter cells inv
        → IsPool pins
        → integrate_inverter design inv pins inv_params cells ≡ some cells'
        → Keeps design level cells cells'
    unfolding integrate_inverter
    integrate_inverter-Keeps cells' params inverts v pool h =
        let (sinks, e, h1) = >>=_some (get_sinks_for_driver design cells inv y_port) _ cells' h in
        elim (Bool-cases (same_pool sinks pins)) [
          | inr f ↦
              subst (Keeps design level cells) (injective cells (rw f at h1))
                (Keeps-refl design level cells)
          | inl f ↦
              let (next, g, h2) =
                >>=_some (integrate_pins inv inv_params pins cells) _ cells' (rw f at h1) in
              subst (Keeps design level cells) (injective (set next inv none) h2) (
                Keeps-trans design level cells next (set next inv none)
                  (elim (sinks-found design cells inv sinks e v) [
                    | inl none_found ↦
                        no_pins-Keeps next pins
                          (same_pool-All (λ p. ⊥) [] pins (rw none_found at f) tt) g
                    | inr (y, drives, found) ↦
                        integrate_pins-Keeps design level distinct plain respects inv inv_params y
                          pins cells next params inverts drives pool
                          (same_pool-All (IsSink design cells y) sinks pins f found) g
                  ])
                  (removed-Keeps next inv))
        ]
      where
        injective : (s : Cells B) → some s ≡ some cells' → s ≡ cells'
        injective s h = cc

  integrate_inverters-Keeps :
      (entries : List (ℕ × List Pin)) (inv_params : List (Pin × List ℕ)) (cells cells' : Cells B)
      → All (λ (e : Pin × List ℕ). IsParam design cells e.0 e.1) inv_params
      → Inverts design level cells
      → All (λ (e : ℕ × List Pin). IsInverter cells e.0 × IsPool e.1) entries
      → integrate_inverters design entries inv_params cells ≡ some cells'
      → Keeps design level cells cells'
  unfolding integrate_inverters
  integrate_inverters-Keeps [] inv_params cells cells' params inverts a h =
      subst (Keeps design level cells) (injective h) (Keeps-refl design level cells)
    where
      injective : some cells ≡ some cells' → cells ≡ cells'
      injective h = cc
  integrate_inverters-Keeps ((inv, pins) ∷ entries) inv_params cells cells' params inverts a h =
      let (next, e, h1) =
        >>=_some (integrate_inverter design inv pins inv_params cells) _ cells' h in
      let k =
        integrate_inverter-Keeps inv pins inv_params cells next params inverts a.0.0 a.0.1 e in
      Keeps-trans design level cells next cells' k (
        integrate_inverters-Keeps entries inv_params next cells'
          (All-imp _ _ (λ e. IsParam-Keeps design level cells next e.0 e.1 k) inv_params params)
          (Inverts-Keeps design level cells next k inverts)
          (All-imp _ _ (λ e p. (IsInverter-Keeps design level cells next e.0 k p.0, p.1)) entries
            a.1)
          h1)

  -- Let no two ports of a type have the same parameter, let `$_NOT_` have no invertible pin, and let
  -- the levels of the nets respect the canonical bits and invert at every inverter. If the pass
  -- returns, then every cell that is left was there with the same type, and sees the level that it saw
  -- at each bit of each port, the control parameters applied.
  pub execute_module-seen :
      (selected : List ℕ) (cells cells' : Cells B)
      → Inverts design level cells
      → execute_module design selected cells ≡ some cells'
      → (i : ℕ) (c' : Cell B) → get_cell cells' i ≡ some c'
      → (c : Cell B) × (get_cell cells i ≡ some c)
        × (c.type ≡ c'.type)
        × ((q : List ℕ) (j : ℕ) → seen design level c' q j ≡ seen design level c q j)
  unfolding execute_module Keeps IsFound
  execute_module-seen selected cells cells' inverts h i c' e =
      let (m, e1, h1) =
        >>=_some (build_inverter_map design cells (range 0 (length cells)) []) _ cells' h in
      let (s, e2, h2) =
        >>=_some
          (collect_inverters design m cells selected (record { inverters = []; inv_params = [] })) _
          cells' h1 in
      let found =
        collect_inverters-IsFound design cells m
          (build_inverter_map-IsInverter design cells (range 0 (length cells)) [] m e1 tt) selected
          _ s e2 (tt, tt) in
      let k =
        integrate_inverters-Keeps s.inverters s.inv_params cells cells' found.1 inverts found.0 h2 i
          c' e in
      (k.0, k.1, k.2, k.3)
