-- ===== src/Registers/Process.antt =====
-- dsp-ff-plugin/dsp_ff.cc: processRegister as a whole, and the loops of execute over the cells of a module.
pub mod Found
pub mod Groups
pub mod Sound
mod Tests
use yosys_f4pga_plugins.Prelude.{
  ℕ, zero, suc, Bool, true, false, Option, none, some, List, [], ◌∷◌, get_elem?, set, length,
}
use yosys_f4pga_plugins.Prelude.Equality.{Eq, nat_eq}
use yosys_f4pga_plugins.Prelude.Text.{text_eq}
use yosys_f4pga_plugins.Prelude.Options.{◌>>=◌}
use yosys_f4pga_plugins.Prelude.Dict.{lookup, put, member}
use yosys_f4pga_plugins.Rules.{FlopType, PortType, RegisterType, DspType}
use yosys_f4pga_plugins.Rules.Load.{Types}
use yosys_f4pga_plugins.Registers.{Cell, Wire, Netlist, ConnMap, FlopData, build}
use yosys_f4pga_plugins.Registers.Scan.{Scanned, or_empty, scan_ports}
use yosys_f4pga_plugins.Registers.Integrate.{
  Changed, is_used, check_flop_data_against_dsp_register, reconnect_ports, map_ports,
  connect_consts, map_params, set_params,
}

-- The cells, m_CellsToRemove, and the parameters of m_DspChanges.
pub record State (B C : Type 0) : Type 0 where
  pub cells : List (Cell B C)
  pub removed : List ℕ
  pub changes : List (ℕ × List (List ℕ))

module _ {B C : Type 0} ⦃bit_eq : Eq B⦄ ⦃const_eq : Eq C⦄ (netlist : Netlist B C)
    (flop_types : List (List ℕ × FlopType C)) (conns : ConnMap B) where
  -- The changes, once the flip-flops of one group are found.
  unfoldable pub integrate :
      State B C
      → ℕ
      → Cell B C
      → RegisterType C
      → List (PortType C)
      → Scanned B C
      → FlopData B C
      → FlopType C
      → Option (State B C)
  unfolding reconnect_ports map_ports connect_consts map_params set_params lookup put
  integrate s i dsp register ports scanned d t = do
    r ← reconnect_ports netlist s.cells t scanned.flops ports dsp s.removed
    dsp' ← map_ports netlist d ports r.0
    let changed : Changed netlist = set_params netlist t.set (
        set_params netlist register.set (
          map_params netlist d t.map (
            map_params netlist d register.map
              (connect_consts netlist register.connect dsp', or_empty (lookup i s.changes)))))
    some (record {
      cells = set s.cells i changed.0;
      removed = r.1;
      changes = put i changed.1 s.changes;
    })

  -- The tests on what the scan found.
  unfoldable pub process_group :
      State B C
      → ℕ
      → Cell B C
      → RegisterType C
      → List (PortType C)
      → Scanned B C
      → List (FlopData B C)
      → Option (State B C)
  unfolding lookup check_flop_data_against_dsp_register integrate
  process_group s i dsp register ports scanned [] = some s
  process_group s i dsp register ports scanned (d ∷ d' ∷ groups) = some s
  process_group s i dsp register ports scanned (d ∷ []) = lookup d.type flop_types >>= λ t.
      check_flop_data_against_dsp_register netlist t (or_empty (lookup i s.changes)) d dsp register
        ports
      >>= λ ok. elim ok [ false ↦ some s | true ↦ integrate s i dsp register ports scanned d t ]

  unfoldable pub process_register :
      State B C → ℕ → RegisterType C → List (PortType C) → Option (State B C)
  unfolding is_used scan_ports process_group
  process_register s i register ports = get_elem? s.cells i >>= λ dsp.
      is_used netlist dsp register.set >>= λ used. elim used [
        | true ↦ some s
        | false ↦
            scan_ports netlist flop_types s.cells conns s.removed register dsp ports
              (record { flops_ok = true; groups = []; flops = [] })
            >>= λ scanned. elim scanned.flops_ok [
              | false ↦ some s
              | true ↦ process_group s i dsp register ports scanned scanned.groups
            ]
      ]

  unfoldable pub process_registers :
      State B C → ℕ → List (RegisterType C × List (PortType C)) → Option (State B C)
  unfolding process_register
  process_registers s i [] = some s
  process_registers s i ((register, ports) ∷ registers) =
      process_register s i register ports >>= λ s'. process_registers s' i registers

  -- The cells of a module, which are so many, from the i-th on.
  unfoldable pub process_cells : List (List ℕ × DspType C) → ℕ → ℕ → State B C → Option (State B C)
  unfolding lookup process_registers
  process_cells dsp_types i zero s = some s
  process_cells dsp_types i (suc n) s = get_elem? s.cells i >>= λ c.
      elim (lookup c.type dsp_types) [
        | none ↦ process_cells dsp_types (suc i) n s
        | some t ↦ process_registers s i t.registers >>= λ s'. process_cells dsp_types (suc i) n s'
      ]

-- The flip-flops that are to be removed leave nothing behind.
unfoldable pub remove_cells :
    {B C : Type 0} → List ℕ → ℕ → List (Cell B C) → List (Option (Cell B C))
unfolding member
remove_cells removed i [] = []
remove_cells removed i (c ∷ cells) =
    elim (member i removed) [ true ↦ none | false ↦ some c ] ∷ remove_cells removed (suc i) cells

-- The body of the loop over the modules. m_DspChanges is not cleared between them, but the cells of
-- another module are others.
unfoldable pub process_module :
    {B C : Type 0} ⦃b : Eq B⦄ ⦃c : Eq C⦄
    → Netlist B C
    → Types C
    → List (Wire B)
    → List (Cell B C)
    → Option (List (Option (Cell B C)))
unfolding build process_cells remove_cells
process_module netlist (dsp_types, flop_types) wires cells =
    process_cells netlist flop_types (build netlist cells wires) dsp_types 0 (length cells)
      (record { cells = cells; removed = []; changes = [] })
    >>= λ s. some (remove_cells s.removed 0 s.cells)
