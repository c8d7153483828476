-- ===== src/Inverters/Integrate/Tests.antt =====
-- A flip-flop behind an inverter. Net 0 is the inverter's input, net 1 its output, net 2 another name of
-- it, and net 3 the flip-flop's output.
use yosys_f4pga_plugins.Prelude.{
  ℕ, suc, zero, ◌≡◌, refl, sym, ap, ◌∙◌, Bool, true, false, ◌&&◌, none, some, List, [], ◌∷◌, ◌==◌,
  if◌then◌else◌, arith,
}
use yosys_f4pga_plugins.Prelude.Equality.{nat_eq}
use yosys_f4pga_plugins.Prelude.Text.{codes, same_text, same_text_iff, text_eq}
use yosys_f4pga_plugins.Prelude.Dict.{lookup, put, insert, same_pool, member, subset, replace}
use yosys_f4pga_plugins.Inverters.{
  s1, Cell, Cells, Design, not_type, y_port, a_port, get_cell, port_bit, range, same_pin, same_cell,
}
use yosys_f4pga_plugins.Inverters.Collect.{
  save, sink_bit, port_width, build_inverter_map, collect_bits, collect_ports, collect_inverters,
  bit_sinks, port_sinks, cell_sinks, top_bits, top_sinks, get_sinks_for_driver,
}
use yosys_f4pga_plugins.Inverters.Integrate.{
  toggled, toggle, inv_mask, rewire, integrate_pin, integrate_pins, integrate_inverter,
  integrate_inverters, execute_module,
}
use yosys_f4pga_plugins.Inverters.Integrate.Pins.{seen}
use yosys_f4pga_plugins.Inverters.Integrate.Levels.{Inverts}
use yosys_f4pga_plugins.Inverters.Integrate.Whole.{execute_module-seen}

abbrev flop_design : Design ℕ
unfolding same_text
flop_design = record {
  sig_map = λ b. if b == 2 then 1 else b;
  wire = λ b. some (record { name = codes "w"; port_output = false });
  input = λ type port. same_text port (codes "D") && true;
  output = λ type port. same_text port y_port;
  invertible_pin = λ type port.
      if same_text type (codes "ff") && same_text port (codes "D")
      then some (codes "INV")
      else none;
  connections = [];
}

abbrev inverter : Cell ℕ
inverter = record {
  type = not_type;
  connections = (a_port, 0 ∷ []) ∷ (y_port, 1 ∷ []) ∷ [];
  parameters = [];
}

abbrev flop : Cell ℕ
flop = record {
  type = codes "ff";
  connections = (codes "D", 2 ∷ []) ∷ (codes "Q", 3 ∷ []) ∷ [];
  parameters = [];
}

abbrev new_flop : Cell ℕ
new_flop = record {
  type = codes "ff";
  connections = (codes "D", 0 ∷ []) ∷ (codes "Q", 3 ∷ []) ∷ [];
  parameters = (codes "INV", s1 ∷ []) ∷ [];
}

abbrev flop_cells : Cells ℕ
flop_cells = some inverter ∷ some flop ∷ []

integrates : execute_module flop_design (0 ∷ 1 ∷ []) flop_cells ≡ some (none ∷ some new_flop ∷ [])
unfolding execute_module build_inverter_map collect_inverters integrate_inverters integrate_inverter
    get_sinks_for_driver integrate_pins integrate_pin get_cell port_bit lookup put replace insert
    member subset same_pool same_text save sink_bit port_width collect_bits collect_ports bit_sinks
    port_sinks cell_sinks top_bits top_sinks toggled toggle inv_mask rewire range same_pin same_cell
    flop_design
integrates = refl

-- The net of the inverter's output can be an output port of the module: the inverter goes all the
-- same, since only the module's connections are looked at, and nothing drives the port then.
exported_net_is_left :
    execute_module
      (record flop_design { wire = λ b. some (record { name = codes "w"; port_output = true }) })
      (0 ∷ 1 ∷ [])
      flop_cells
    ≡ some (none ∷ some new_flop ∷ [])
unfolding execute_module build_inverter_map collect_inverters integrate_inverters integrate_inverter
    get_sinks_for_driver integrate_pins integrate_pin get_cell port_bit lookup put replace insert
    member subset same_pool same_text save sink_bit port_width collect_bits collect_ports bit_sinks
    port_sinks cell_sinks top_bits top_sinks toggled toggle inv_mask rewire range same_pin same_cell
    flop_design
exported_net_is_left = refl

-- A connection of the module to an output port is a sink, and keeps the inverter.
connected_port_keeps_inverter :
    execute_module
      (record flop_design {
        wire = λ b. some (record { name = codes "w"; port_output = true });
        connections = (2 ∷ [], 1 ∷ []) ∷ [];
      })
      (0 ∷ 1 ∷ [])
      flop_cells
    ≡ some flop_cells
unfolding execute_module build_inverter_map collect_inverters integrate_inverters integrate_inverter
    get_sinks_for_driver integrate_pins integrate_pin get_cell port_bit lookup put replace insert
    member subset same_pool same_text save sink_bit port_width collect_bits collect_ports bit_sinks
    port_sinks cell_sinks top_bits top_sinks toggled toggle inv_mask rewire range same_pin same_cell
    flop_design
connected_port_keeps_inverter = refl

abbrev levels : ℕ → Bool
levels b = b == 0

flop_distinct :
    (type p q param_name : List ℕ)
    → flop_design.invertible_pin type p ≡ some param_name
    → flop_design.invertible_pin type q ≡ some param_name
    → p ≡ q
unfolding flop_design
flop_distinct type p q param_name e f =
    (same_text_iff p (codes "D")).0 (only p e) ∙ sym ((same_text_iff q (codes "D")).0 (only q f))
  where
    only :
        (r : List ℕ)
        → flop_design.invertible_pin type r ≡ some param_name
        → same_text r (codes "D") ≡ true
    only r g = ground arith

flop_plain : (port : List ℕ) → flop_design.invertible_pin not_type port ≡ none
unfolding flop_design same_text
flop_plain port = refl

flop_respects : (b : ℕ) → levels (flop_design.sig_map b) ≡ levels b
unfolding flop_design
flop_respects b = ground arith

flop-Inverts : Inverts flop_design levels flop_cells
unfolding Inverts get_cell port_bit lookup same_text
flop-Inverts zero c a y h t f g =
    rw (← inj y (rw (← cell h) at g)) (rw (← inj a (rw (← cell h) at f)) refl)
  where
    cell : some inverter ≡ some c → inverter ≡ c
    cell e = cc

    inj : {n : ℕ} (m : ℕ) → some n ≡ some m → n ≡ m
    inj m e = cc
flop-Inverts (suc zero) c a y h t f g = absurd (apart (ap (λ (x : Cell ℕ). x.type) (cell h) ∙ t))
  where
    cell : some flop ≡ some c → flop ≡ c
    cell e = cc

    apart : codes "ff" ≡ not_type → ⊥
    apart e = cc
flop-Inverts (suc (suc i)) c a y h t f g = cc

execute_module-seen_example :
    (c : Cell ℕ) × (get_cell flop_cells 1 ≡ some c)
    × (c.type ≡ codes "ff")
    × ((q : List ℕ) (j : ℕ) → seen flop_design levels new_flop q j ≡ seen flop_design levels c q j)
unfolding get_cell
execute_module-seen_example =
    execute_module-seen flop_design levels flop_distinct flop_plain flop_respects (0 ∷ 1 ∷ [])
      flop_cells (none ∷ some new_flop ∷ []) flop-Inverts integrates 1 new_flop refl
