-- ===== src/Inverters/Integrate/Found.antt =====
-- The inverters that are collected are inverters, and their pins have the parameters of their ports.
use yosys_f4pga_plugins.Prelude.{
  ℕ, ◌≡◌, ap, ◌∙◌, Bool-cases, none, some, Option-cases, List, [], ◌∷◌, inl, inr, All,
}
use yosys_f4pga_plugins.Prelude.Equality.{Eq, nat_eq}
use yosys_f4pga_plugins.Prelude.Text.{same_text, same_text_iff, text_eq}
use yosys_f4pga_plugins.Prelude.Options.{>>=_some}
use yosys_f4pga_plugins.Prelude.Dict.{lookup, insert, lookup-All, All-put, insert-IsPool, IsPool}
use yosys_f4pga_plugins.Inverters.{
  Cell, Cells, Pin, pin_eq, Design, not_type, y_port, get_cell, port_bit, range, ports_of,
}
use yosys_f4pga_plugins.Inverters.Collect.{
  Collected, save, sink_bit, port_width, build_inverter_map, collect_bits, collect_ports,
  collect_inverters,
}
use yosys_f4pga_plugins.Inverters.Integrate.Levels.{IsInverter, IsParam}

module _ {B : Type 0} ⦃bit_eq : Eq B⦄ (design : Design B) (cells : Cells B) where
  pub build_inverter_map-IsInverter :
      (is : List ℕ) (m m' : List (B × ℕ))
      → build_inverter_map design cells is m ≡ some m'
      → All (λ (e : B × ℕ). IsInverter cells e.1) m
      → All (λ (e : B × ℕ). IsInverter cells e.1) m'
  unfolding build_inverter_map IsInverter
  build_inverter_map-IsInverter [] m m' h a = rw (← injective h) a
    where
      injective : some m ≡ some m' → m ≡ m'
      injective e = cc
  build_inverter_map-IsInverter (i ∷ is) m m' h a = elim (Option-cases (get_cell cells i)) [
    | inl e ↦ build_inverter_map-IsInverter is m m' (rw (build_inverter_map, e) at h) a
    | inr (c, e) ↦ elim (Bool-cases (same_text c.type not_type)) [
      | inr f ↦ build_inverter_map-IsInverter is m m' (rw f at (rw (build_inverter_map, e) at h)) a
      | inl f ↦ elim (Option-cases (port_bit c y_port 0)) [
        | inl g ↦ absurd (cc (rw g at (rw f at (rw (build_inverter_map, e) at h))))
        | inr (y, g) ↦ elim (Option-cases (lookup (design.sig_map y) m)) [
          | inr (j, k) ↦ absurd (cc (rw k at (rw g at (rw f at (rw (build_inverter_map, e) at h)))))
          | inl k ↦
              build_inverter_map-IsInverter is _ m'
                (rw k at (rw g at (rw f at (rw (build_inverter_map, e) at h))))
                (All-put (λ b i. IsInverter cells i) (design.sig_map y) i m
                  (λ c' e'.
                    ap (λ (x : Cell B). x.type) (same c' c e' e)
                    ∙ (same_text_iff c.type not_type).0 f)
                  a)
        ]
      ]
    ]
  ]
    where
      same : (c' c : Cell B) → get_cell cells i ≡ some c' → get_cell cells i ≡ some c → c' ≡ c
      same c' c e' e = cc

  -- What holds of m_Inverters and m_InvParams.
  unfoldable pub IsFound : Collected → Type 0
  IsFound s =
      All (λ (e : ℕ × List Pin). IsInverter cells e.0 × IsPool e.1) s.inverters
      × All (λ (e : Pin × List ℕ). IsParam design cells e.0 e.1) s.inv_params

  save-IsFound :
      (inv : ℕ) (pin : Pin) (param_name : List ℕ) (s : Collected)
      → IsInverter cells inv
      → IsParam design cells pin param_name
      → IsFound s
      → IsFound (save inv pin param_name s)
  unfolding save IsFound IsPool
  save-IsFound inv pin param_name s v p h = (
    All-put (λ i pins. IsInverter cells i × IsPool pins) inv _ s.inverters (v, pool) h.0,
    All-put (IsParam design cells) pin param_name s.inv_params p h.1,
  )
    where
      pool : IsPool (insert pin (elim (lookup inv s.inverters) [ none ↦ [] | some pins ↦ pins ]))
      pool = elim (Option-cases (lookup inv s.inverters)) [
        | inl e ↦ rw e (insert-IsPool pin [] tt)
        | inr (pins, e) ↦ rw e (
            insert-IsPool pin pins
              (lookup-All (λ i pins. IsInverter cells i × IsPool pins) inv pins s.inverters h.0
                e).1)
      ]

  module _ (inv_map : List (B × ℕ))
      (found : All (λ (e : B × ℕ). IsInverter cells e.1) inv_map) where
    collect_bits-IsFound :
        (i : ℕ) (c : Cell B) (port param_name : List ℕ) (bits : List ℕ) (s s' : Collected)
        → get_cell cells i ≡ some c
        → design.invertible_pin c.type port ≡ some param_name
        → collect_bits design inv_map i c port param_name bits s ≡ some s'
        → IsFound s
        → IsFound s'
    unfolding collect_bits IsParam
    collect_bits-IsFound i c port param_name [] s s' e p h a = rw (← injective h) a
      where
        injective : some s ≡ some s' → s ≡ s'
        injective e = cc
    collect_bits-IsFound i c port param_name (bit ∷ bits) s s' e p h a =
        elim (Option-cases (sink_bit design c port bit)) [
          | inl f ↦
              collect_bits-IsFound i c port param_name bits s s' e p (rw (collect_bits, f) at h) a
          | inr (b, f) ↦ elim (Option-cases (lookup b inv_map)) [
            | inl g ↦
                collect_bits-IsFound i c port param_name bits s s' e p
                  (rw g at (rw (collect_bits, f) at h)) a
            | inr (inv, g) ↦ elim (Option-cases (lookup pin s.inv_params)) [
              | inr (q, k) ↦ absurd (cc (rw k at (rw g at (rw (collect_bits, f) at h))))
              | inl k ↦
                  collect_bits-IsFound i c port param_name bits (save inv pin param_name s) s' e p
                    (rw k at (rw g at (rw (collect_bits, f) at h)))
                    (save-IsFound inv pin param_name s
                      (lookup-All (λ b i. IsInverter cells i) b inv inv_map found g)
                      (λ j c' n e'.
                        ap (λ (x : Cell B). design.invertible_pin x.type port) (same j c' n e') ∙ p)
                      a)
            ]
          ]
        ]
      where
        pin : Pin
        pin = record { cell = some i; port = port; bit = bit }

        same : (j : ℕ) (c' : Cell B) → some i ≡ some j → get_cell cells j ≡ some c' → c' ≡ c
        same j c' n e' = cc

    collect_ports-IsFound :
        (i : ℕ) (c : Cell B) (ports : List (List ℕ)) (s s' : Collected)
        → get_cell cells i ≡ some c
        → collect_ports design inv_map i c ports s ≡ some s'
        → IsFound s
        → IsFound s'
    unfolding collect_ports
    collect_ports-IsFound i c [] s s' e h a = rw (← injective h) a
      where
        injective : some s ≡ some s' → s ≡ s'
        injective e = cc
    collect_ports-IsFound i c (port ∷ ports) s s' e h a =
        elim (Bool-cases (design.input c.type port)) [
          | inr f ↦ collect_ports-IsFound i c ports s s' e (rw (collect_ports, f) at h) a
          | inl f ↦ elim (Option-cases (design.invertible_pin c.type port)) [
            | inl g ↦
                collect_ports-IsFound i c ports s s' e (rw g at (rw (collect_ports, f) at h)) a
            | inr (param_name, g) ↦
                let (next, e1, e2) =
                  >>=_some
                    (collect_bits design inv_map i c port param_name
                      (range 0 (port_width design c port)) s)
                    _ s' (rw g at (rw (collect_ports, f) at h)) in
                collect_ports-IsFound i c ports next s' e e2
                  (collect_bits-IsFound i c port param_name _ s next e g e1 a)
          ]
        ]

    pub collect_inverters-IsFound :
        (is : List ℕ) (s s' : Collected)
        → collect_inverters design inv_map cells is s ≡ some s'
        → IsFound s
        → IsFound s'
    unfolding collect_inverters
    collect_inverters-IsFound [] s s' h a = rw (← injective h) a
      where
        injective : some s ≡ some s' → s ≡ s'
        injective e = cc
    collect_inverters-IsFound (i ∷ is) s s' h a =
        let (c, e, h1) = >>=_some (get_cell cells i) _ s' h in
        let (next, e1, e2) = >>=_some (collect_ports design inv_map i c (ports_of c) s) _ s' h1 in
        collect_inverters-IsFound is next s' e2
          (collect_ports-IsFound i c (ports_of c) s next e e1 a)
