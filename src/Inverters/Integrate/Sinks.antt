-- ===== src/Inverters/Integrate/Sinks.antt =====
-- The sinks that the walks over the cells and the connections collect are on the net of the driver.
use yosys_f4pga_plugins.Prelude.{
  ℕ, suc, ◌≡◌, ap, ◌∙◌, Bool-cases, some, Option-cases, List, [], ◌∷◌, inl, inr, All,
}
use yosys_f4pga_plugins.Prelude.Equality.{Eq, nat_eq}
use yosys_f4pga_plugins.Prelude.Text.{text_eq}
use yosys_f4pga_plugins.Prelude.Options.{>>=_some}
use yosys_f4pga_plugins.Prelude.Dict.{All-insert}
use yosys_f4pga_plugins.Inverters.{
  Cell, Cells, Pin, pin_eq, Design, get_cell, port_bit, range, ports_of,
}
use yosys_f4pga_plugins.Inverters.Collect.{
  sink_bit, port_width, bit_sinks, port_sinks, cell_sinks, top_bits, top_sinks,
}
use yosys_f4pga_plugins.Inverters.Integrate.Levels.{IsSink}

module _ {B : Type 0} ⦃bit_eq : Eq B⦄ (design : Design B) (cells : Cells B) where
  sink_bit-port_bit :
      (c : Cell B) (port : List ℕ) (bit : ℕ) (b' : B)
      → sink_bit design c port bit ≡ some b'
      → (b : B) × (port_bit c port bit ≡ some b) × (design.sig_map b ≡ b')
  unfolding sink_bit
  sink_bit-port_bit c port bit b' h =
      let (b, e, h1) = >>=_some (port_bit c port bit) _ b' h in
      elim (Option-cases (design.wire b)) [
        | inl f ↦ absurd (cc (rw f at h1))
        | inr (w, f) ↦ (b, e, injective b (rw f at h1))
      ]
    where
      injective : (b : B) → some (design.sig_map b) ≡ some b' → design.sig_map b ≡ b'
      injective b h = cc

  module _ (driver : B) where
    bit_sinks-IsSink :
        (i : ℕ) (c : Cell B) (port : List ℕ) (bits : List ℕ) (sinks : List Pin)
        → get_cell cells i ≡ some c
        → All (IsSink design cells driver) sinks
        → All (IsSink design cells driver) (bit_sinks design i c driver port bits sinks)
    unfolding bit_sinks IsSink
    bit_sinks-IsSink i c port [] sinks e h = h
    bit_sinks-IsSink i c port (bit ∷ bits) sinks e h =
        elim (Option-cases (sink_bit design c port bit)) [
          | inl f ↦ rw (bit_sinks, f) (bit_sinks-IsSink i c port bits sinks e h)
          | inr (b', f) ↦ elim (Bool-cases (bit_eq.beq b' driver)) [
            | inr g ↦ rw (bit_sinks, f) (rw g (bit_sinks-IsSink i c port bits sinks e h))
            | inl g ↦
                let (b, p, s) = sink_bit-port_bit c port bit b' f in
                rw (bit_sinks, f)
                  (rw g (
                    bit_sinks-IsSink i c port bits _ e (
                      All-insert (IsSink design cells driver) _ sinks
                        (λ j k. (
                          c,
                          b,
                          ap (get_cell cells) (injective j k) ∙ e,
                          p,
                          s ∙ (bit_eq.beq_iff b' driver).0 g,
                        ))
                        h)))
          ]
        ]
      where
        injective : (j : ℕ) → some i ≡ some j → j ≡ i
        injective j k = cc

    port_sinks-IsSink :
        (i : ℕ) (c : Cell B) (ports : List (List ℕ)) (sinks : List Pin)
        → get_cell cells i ≡ some c
        → All (IsSink design cells driver) sinks
        → All (IsSink design cells driver) (port_sinks design i c driver ports sinks)
    unfolding port_sinks
    port_sinks-IsSink i c [] sinks e h = h
    port_sinks-IsSink i c (port ∷ ports) sinks e h = elim (Bool-cases (design.input c.type port)) [
      | inr f ↦ rw (port_sinks, f) (port_sinks-IsSink i c ports sinks e h)
      | inl f ↦
          rw (port_sinks, f)
            (port_sinks-IsSink i c ports _ e
              (bit_sinks-IsSink i c port (range 0 (port_width design c port)) sinks e h))
    ]

    pub cell_sinks-IsSink :
        (is : List ℕ) (sinks : List Pin)
        → All (IsSink design cells driver) sinks
        → All (IsSink design cells driver) (cell_sinks design cells driver is sinks)
    unfolding cell_sinks
    cell_sinks-IsSink [] sinks h = h
    cell_sinks-IsSink (i ∷ is) sinks h = elim (Option-cases (get_cell cells i)) [
      | inl e ↦ rw (cell_sinks, e) (cell_sinks-IsSink is sinks h)
      | inr (c, e) ↦
          rw (cell_sinks, e) (cell_sinks-IsSink is _ (port_sinks-IsSink i c (ports_of c) sinks e h))
    ]

    top_bits-IsSink :
        (bits : List B) (bit : ℕ) (sinks sinks' : List Pin)
        → top_bits design driver bits bit sinks ≡ some sinks'
        → All (IsSink design cells driver) sinks
        → All (IsSink design cells driver) sinks'
    unfolding top_bits IsSink
    top_bits-IsSink [] bit sinks sinks' e h = rw (← injective e) h
      where
        injective : some sinks ≡ some sinks' → sinks ≡ sinks'
        injective e = cc
    top_bits-IsSink (b ∷ bits) bit sinks sinks' e h = elim (Option-cases (design.wire b)) [
      | inl f ↦ top_bits-IsSink bits (suc bit) sinks sinks' (rw (top_bits, f) at e) h
      | inr (w, f) ↦ elim (Bool-cases w.port_output) [
        | inr g ↦ top_bits-IsSink bits (suc bit) sinks sinks' (rw g at (rw (top_bits, f) at e)) h
        | inl g ↦ elim (Bool-cases (bit_eq.beq (design.sig_map b) driver)) [
          | inr k ↦
              top_bits-IsSink bits (suc bit) sinks sinks'
                (rw k at (rw g at (rw (top_bits, f) at e))) h
          | inl k ↦
              let (canonical, w', e') =
                >>=_some (design.wire (design.sig_map b)) _ sinks'
                  (rw k at (rw g at (rw (top_bits, f) at e))) in
              top_bits-IsSink bits (suc bit) _ sinks' e'
                (All-insert (IsSink design cells driver) _ sinks (λ i n. absurd (cc (n))) h)
        ]
      ]
    ]

    pub top_sinks-IsSink :
        (conns : List (List B × List B)) (sinks sinks' : List Pin)
        → top_sinks design driver conns sinks ≡ some sinks'
        → All (IsSink design cells driver) sinks
        → All (IsSink design cells driver) sinks'
    unfolding top_sinks
    top_sinks-IsSink [] sinks sinks' e h = rw (← injective e) h
      where
        injective : some sinks ≡ some sinks' → sinks ≡ sinks'
        injective e = cc
    top_sinks-IsSink ((dst, src) ∷ conns) sinks sinks' e h =
        let (next, e1, e2) = >>=_some (top_bits design driver dst 0 sinks) _ sinks' e in
        top_sinks-IsSink conns next sinks' e2 (top_bits-IsSink dst 0 sinks next e1 h)
