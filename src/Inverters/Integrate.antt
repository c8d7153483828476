-- ===== src/Inverters/Integrate.antt =====
-- integrateinv-plugin/integrateinv.cc: integrateInverters, and the body of the loop of execute.
pub mod Pins
pub mod Levels
pub mod Steps
pub mod Sinks
pub mod Found
pub mod Whole
mod Tests
use yosys_f4pga_plugins.Prelude.{
  ℕ, Bool, true, false, Option, none, some, List, [], ◌∷◌, length, get_elem?, set, replicate, ltb,
  ◌==◌,
}
use yosys_f4pga_plugins.Prelude.Equality.{Eq}
use yosys_f4pga_plugins.Prelude.Text.{text_eq}
use yosys_f4pga_plugins.Prelude.Options.{◌>>=◌, ◌>>◌, check}
use yosys_f4pga_plugins.Prelude.Dict.{lookup, put, same_pool}
use yosys_f4pga_plugins.Inverters.{
  State, s0, s1, sx, sz, sa, sm, Cell, Cells, Pin, pin_eq, Design, y_port, a_port, get_cell,
  port_bit, range,
}
use yosys_f4pga_plugins.Inverters.Collect.{
  Collected, build_inverter_map, collect_inverters, get_sinks_for_driver,
}

-- The bit of the control parameter.
unfoldable pub toggled : State → Option State
toggled s0 = some s1
toggled s1 = some s0
toggled sx = none
toggled sz = none
toggled sa = none
toggled sm = none

unfoldable pub toggle : List State → ℕ → Option (List State)
unfolding toggled
toggle mask bit = do b ← get_elem? mask bit; b' ← toggled b; some (set mask bit b')

-- The bitmask of a parameter for a port of a width.
unfoldable pub inv_mask : List ℕ → ℕ → List (List ℕ × List State) → List State
unfolding lookup
inv_mask param_name width parameters = elim (lookup param_name parameters) [
  | none ↦ replicate width s0
  | some mask ↦ mask
]

-- A pin of a cell is connected to another bit, and its bit of the parameter is toggled.
unfoldable pub rewire : {B : Type 0} → Cell B → List ℕ → ℕ → B → List ℕ → Option (Cell B)
unfolding lookup put inv_mask toggle
rewire c port bit a param_name = do
  bits ← lookup port c.connections
  check (ltb bit (length bits))
  check (length (inv_mask param_name (length bits) c.parameters) == length bits)
  mask ← toggle (inv_mask param_name (length bits) c.parameters) bit
  some (record {
    type = c.type;
    connections = put port (set bits bit a) c.connections;
    parameters = put param_name mask c.parameters;
  })

unfoldable pub integrate_pin :
    {B : Type 0} → ℕ → List (Pin × List ℕ) → Pin → Cells B → Option (Cells B)
unfolding get_cell port_bit lookup rewire
integrate_pin inv inv_params pin cells = do
  i ← pin.cell
  c ← get_cell cells i
  inverter ← get_cell cells inv
  a ← port_bit inverter a_port 0
  param_name ← lookup pin inv_params
  c' ← rewire c pin.port pin.bit a param_name
  some (set cells i (some c'))

unfoldable pub integrate_pins :
    {B : Type 0} → ℕ → List (Pin × List ℕ) → List Pin → Cells B → Option (Cells B)
unfolding integrate_pin
integrate_pins inv inv_params [] cells = some cells
integrate_pins inv inv_params (pin ∷ pins) cells = do
  cells' ← integrate_pin inv inv_params pin cells
  integrate_pins inv inv_params pins cells'

module _ {B : Type 0} ⦃bit_eq : Eq B⦄ (design : Design B) where
  -- One entry of m_Inverters.
  unfoldable pub integrate_inverter :
      ℕ → List Pin → List (Pin × List ℕ) → Cells B → Option (Cells B)
  unfolding get_sinks_for_driver same_pool integrate_pins
  integrate_inverter inv pins inv_params cells =
      get_sinks_for_driver design cells inv y_port >>= λ sinks. elim (same_pool sinks pins) [
        | false ↦ some cells
        | true ↦ integrate_pins inv inv_params pins cells >>= λ cells'. some (set cells' inv none)
      ]

  unfoldable pub integrate_inverters :
      List (ℕ × List Pin) → List (Pin × List ℕ) → Cells B → Option (Cells B)
  unfolding integrate_inverter
  integrate_inverters [] inv_params cells = some cells
  integrate_inverters ((inv, pins) ∷ entries) inv_params cells =
      integrate_inverter inv pins inv_params cells >>= λ cells'.
      integrate_inverters entries inv_params cells'

  -- A module, whose selected cells are at the positions `selected`.
  unfoldable pub execute_module : List ℕ → Cells B → Option (Cells B)
  unfolding build_inverter_map collect_inverters integrate_inverters
  execute_module selected cells = do
    inv_map ← build_inverter_map design cells (range 0 (length cells)) []
    s ← collect_inverters design inv_map cells selected (record { inverters = []; inv_params = [] })
    integrate_inverters s.inverters s.inv_params cells
