-- ===== src/Inverters/Collect.antt =====
-- integrateinv-plugin/integrateinv.cc: buildInverterMap, collectInverters and getSinksForDriver.
use yosys_f4pga_plugins.Prelude.{ℕ, suc, true, false, Option, none, some, List, [], ◌∷◌, length}
use yosys_f4pga_plugins.Prelude.Equality.{Eq, nat_eq}
use yosys_f4pga_plugins.Prelude.Text.{same_text, text_eq}
use yosys_f4pga_plugins.Prelude.Options.{◌>>=◌}
use yosys_f4pga_plugins.Prelude.Dict.{lookup, put, insert}
use yosys_f4pga_plugins.Inverters.{
  Cell, Cells, Pin, pin_eq, Design, not_type, y_port, get_cell, port_bit, range, ports_of,
}

-- m_Inverters and m_InvParams
pub record Collected : Type 0 where
  pub inverters : List (ℕ × List Pin)
  pub inv_params : List (Pin × List ℕ)

-- m_Inverters[inv].insert(pin); m_InvParams[pin] = paramName
unfoldable pub save : ℕ → Pin → List ℕ → Collected → Collected
unfolding lookup put insert
save inv pin param_name c = record {
  inverters =
      put inv (insert pin (elim (lookup inv c.inverters) [ none ↦ [] | some pins ↦ pins ]))
        c.inverters;
  inv_params = put pin param_name c.inv_params;
}

-- From here on, the bits are compared, and the cells are those of the design.
module _ {B : Type 0} ⦃bit_eq : Eq B⦄ (design : Design B) where
  -- The canonical bit of the bit of a pin; `none` where there is no such bit, or it is a constant.
  unfoldable pub sink_bit : Cell B → List ℕ → ℕ → Option B
  unfolding port_bit
  sink_bit c port bit = port_bit c port bit >>= λ b. elim (design.wire b) [
    | none ↦ none
    | some w ↦ some (design.sig_map b)
  ]

  unfoldable pub port_width : Cell B → List ℕ → ℕ
  unfolding lookup
  port_width c port = elim (lookup port c.connections) [ none ↦ 0 | some bits ↦ length bits ]

  unfoldable pub build_inverter_map : Cells B → List ℕ → List (B × ℕ) → Option (List (B × ℕ))
  unfolding get_cell port_bit lookup put
  build_inverter_map cells [] m = some m
  build_inverter_map cells (i ∷ is) m = elim (get_cell cells i) [
    | none ↦ build_inverter_map cells is m
    | some c ↦ elim (same_text c.type not_type) [
      | false ↦ build_inverter_map cells is m
      | true ↦ elim (port_bit c y_port 0) [
        | none ↦ none
        | some y ↦ elim (lookup (design.sig_map y) m) [
          | some j ↦ none
          | none ↦ build_inverter_map cells is (put (design.sig_map y) i m)
        ]
      ]
    ]
  ]

  module _ (inv_map : List (B × ℕ)) where
    unfoldable pub collect_bits :
        ℕ → Cell B → List ℕ → List ℕ → List ℕ → Collected → Option Collected
    unfolding sink_bit lookup save
    collect_bits i c port param_name [] s = some s
    collect_bits i c port param_name (bit ∷ bits) s = elim (sink_bit c port bit) [
      | none ↦ collect_bits i c port param_name bits s
      | some b ↦ elim (lookup b inv_map) [
        | none ↦ collect_bits i c port param_name bits s
        | some inv ↦
            let pin : Pin = record { cell = some i; port = port; bit = bit } in
            elim (lookup pin s.inv_params) [
              | some p ↦ none
              | none ↦ collect_bits i c port param_name bits (save inv pin param_name s)
            ]
      ]
    ]

    unfoldable pub collect_ports : ℕ → Cell B → List (List ℕ) → Collected → Option Collected
    unfolding collect_bits port_width
    collect_ports i c [] s = some s
    collect_ports i c (port ∷ ports) s = elim (design.input c.type port) [
      | false ↦ collect_ports i c ports s
      | true ↦ elim (design.invertible_pin c.type port) [
        | none ↦ collect_ports i c ports s
        | some param_name ↦
            collect_bits i c port param_name (range 0 (port_width c port)) s >>= λ s'.
            collect_ports i c ports s'
      ]
    ]

    unfoldable pub collect_inverters : Cells B → List ℕ → Collected → Option Collected
    unfolding get_cell collect_ports
    collect_inverters cells [] s = some s
    collect_inverters cells (i ∷ is) s = get_cell cells i >>= λ c.
        collect_ports i c (ports_of c) s >>= λ s'. collect_inverters cells is s'

  -- getSinksForDriver, whose driver has the canonical bit `driver`: the pins of cells,
  unfoldable pub bit_sinks : ℕ → Cell B → B → List ℕ → List ℕ → List Pin → List Pin
  unfolding sink_bit insert
  bit_sinks i c driver port [] sinks = sinks
  bit_sinks i c driver port (bit ∷ bits) sinks = elim (sink_bit c port bit) [
    | none ↦ bit_sinks i c driver port bits sinks
    | some b ↦ elim (bit_eq.beq b driver) [
      | false ↦ bit_sinks i c driver port bits sinks
      | true ↦
          bit_sinks i c driver port bits
            (insert (record { cell = some i; port = port; bit = bit }) sinks)
    ]
  ]

  unfoldable pub port_sinks : ℕ → Cell B → B → List (List ℕ) → List Pin → List Pin
  unfolding bit_sinks port_width
  port_sinks i c driver [] sinks = sinks
  port_sinks i c driver (port ∷ ports) sinks = elim (design.input c.type port) [
    | false ↦ port_sinks i c driver ports sinks
    | true ↦
        port_sinks i c driver ports (bit_sinks i c driver port (range 0 (port_width c port)) sinks)
  ]

  unfoldable pub cell_sinks : Cells B → B → List ℕ → List Pin → List Pin
  unfolding get_cell port_sinks
  cell_sinks cells driver [] sinks = sinks
  cell_sinks cells driver (i ∷ is) sinks = elim (get_cell cells i) [
    | none ↦ cell_sinks cells driver is sinks
    | some c ↦ cell_sinks cells driver is (port_sinks i c driver (ports_of c) sinks)
  ]

  -- and the output ports of the module that its connections drive. The wire whose name a pin gets is
  -- that of the canonical bit.
  unfoldable pub top_bits : B → List B → ℕ → List Pin → Option (List Pin)
  unfolding insert
  top_bits driver [] bit sinks = some sinks
  top_bits driver (b ∷ bits) bit sinks = elim (design.wire b) [
    | none ↦ top_bits driver bits (suc bit) sinks
    | some w ↦ elim w.port_output [
      | false ↦ top_bits driver bits (suc bit) sinks
      | true ↦ elim (bit_eq.beq (design.sig_map b) driver) [
        | false ↦ top_bits driver bits (suc bit) sinks
        | true ↦ design.wire (design.sig_map b) >>= λ canonical.
            top_bits driver bits (suc bit)
              (insert (record { cell = none; port = canonical.name; bit = bit }) sinks)
      ]
    ]
  ]

  unfoldable pub top_sinks : B → List (List B × List B) → List Pin → Option (List Pin)
  unfolding top_bits
  top_sinks driver [] sinks = some sinks
  top_sinks driver ((dst, src) ∷ conns) sinks =
      top_bits driver dst 0 sinks >>= λ sinks'. top_sinks driver conns sinks'

  -- The driver is bit 0 of a port of a cell.
  unfoldable pub get_sinks_for_driver : Cells B → ℕ → List ℕ → Option (List Pin)
  unfolding get_cell port_bit cell_sinks top_sinks
  get_sinks_for_driver cells i port = get_cell cells i >>= λ c. elim (design.output c.type port) [
    | false ↦ some []
    | true ↦ port_bit c port 0 >>= λ b.
        top_sinks (design.sig_map b) design.connections
          (cell_sinks cells (design.sig_map b) (range 0 (length cells)) [])
  ]
