-- ===== src/Registers/Process/Tests.antt =====
-- A multiplier with a flip-flop behind its output. Bit 0 is the constant x, net 5 is between the two, net
-- 6 is the flip-flop's output and net 7 its clock.
use yosys_f4pga_plugins.Prelude.{
  ℕ, ◌≡◌, ◌⊎◌, refl, Bool, true, false, not, ◌||◌, none, some, List, [], ◌∷◌, ◌==◌, All,
}
use yosys_f4pga_plugins.Prelude.Equality.{nat_eq}
use yosys_f4pga_plugins.Prelude.Text.{codes, same_text, text_eq}
use yosys_f4pga_plugins.Prelude.Dict.{
  lookup, put, replace, insert, insert_new, member, same_dict, within_dict,
}
use yosys_f4pga_plugins.Rules.{FlopType, PortType, RegisterType, DspType}
use yosys_f4pga_plugins.Inverters.{same_pin, same_cell}
use yosys_f4pga_plugins.Registers.{
  Cell, Netlist, ConnMap, FlopData, same_flop_data, get_param, add_sink, add_driver, build_bits,
  build_ports, build_cells, build_wire, build_wires, build, check_required, check_flop, port_conn,
  flop_conns, flop_params, insert_all, get_flop_data,
}
use yosys_f4pga_plugins.Registers.Scan.{
  is_removed, left_sinks, others_of, data_port, mapped_params, probe_flop, probe_pin, probe_others,
  is_excluded, probe_bit, has_group, insert_group, scan_bits, scan_ports,
}
use yosys_f4pga_plugins.Registers.Integrate.{
  check_assoc, check_conns, check_param, check_map, check_set, check_flop_data_against_dsp_register,
  is_used, through_flop, far_port, reconnect_bits, reconnect_ports, map_controls, map_ports,
  connect_consts, set_param, map_params, set_params,
}
use yosys_f4pga_plugins.Registers.Process.{
  State, integrate, process_group, process_register, process_registers, process_cells, remove_cells,
  process_module,
}
use yosys_f4pga_plugins.Registers.Process.Sound.{IsTaken, process_register-IsTaken}

abbrev flop_netlist : Netlist ℕ ℕ
unfolding same_text
flop_netlist = record {
  sig_map = λ b. b;
  is_wire = λ b. not (b == 0);
  sx = 0;
  input = λ type port. same_text port (codes "D") || same_text port (codes "C");
  output = λ type port. same_text port (codes "Q") || same_text port (codes "Z");
  default_param = λ type name. none;
  const_bits = λ c. c ∷ [];
  const_bit = λ c. some c;
  escape_id = λ s. s;
}

abbrev multiplier : Cell ℕ ℕ
multiplier = record {
  type = codes "M";
  keep = false;
  connections = (codes "Z", 5 ∷ []) ∷ [];
  parameters = (codes "R", 0) ∷ [];
}

abbrev flop : Bool → Cell ℕ ℕ
flop keep = record {
  type = codes "FD";
  keep = keep;
  connections = (codes "D", 5 ∷ []) ∷ (codes "Q", 6 ∷ []) ∷ (codes "C", 7 ∷ []) ∷ [];
  parameters = [];
}

abbrev flop_type : FlopType ℕ
flop_type = record {
  name = codes "FD";
  ports = (codes "q", codes "Q") ∷ (codes "d", codes "D") ∷ (codes "clk", codes "C") ∷ [];
  matching = [];
  required = [];
  set = [];
  map = [];
}

abbrev z_register : RegisterType ℕ
z_register = record { set = (codes "R", 1) ∷ []; map = []; connect = [] }

abbrev z_ports : List (PortType ℕ)
z_ports = record { name = codes "Z"; bits = none; assoc = (codes "clk", (codes "CK", 0)) ∷ [] } ∷ []

abbrev multiplier_type : DspType ℕ
multiplier_type = record { name = codes "M"; registers = (z_register, z_ports) ∷ [] }

abbrev registered : Cell ℕ ℕ
registered = record {
  type = codes "M";
  keep = false;
  connections = (codes "CK", 7 ∷ []) ∷ (codes "Z", 6 ∷ []) ∷ [];
  parameters = (codes "R", 1) ∷ [];
}

takes_flop :
    process_module flop_netlist
      ((codes "M", multiplier_type) ∷ [], (codes "FD", flop_type) ∷ [])
      []
      (multiplier ∷ flop false ∷ [])
    ≡ some (some registered ∷ none ∷ [])
unfolding build build_wires build_wire build_cells build_ports build_bits add_sink add_driver lookup
    put replace insert insert_new member same_dict within_dict same_text process_module
    process_cells process_registers process_register process_group integrate remove_cells is_used
    get_param scan_ports scan_bits probe_bit is_excluded others_of left_sinks is_removed
    probe_others probe_pin probe_flop data_port mapped_params check_flop check_required
    get_flop_data flop_conns port_conn flop_params insert_all same_flop_data has_group insert_group
    check_flop_data_against_dsp_register check_conns check_assoc check_map check_set check_param
    reconnect_ports reconnect_bits far_port through_flop map_ports map_controls connect_consts
    map_params set_params set_param same_pin same_cell flop_netlist
takes_flop = refl

-- A flip-flop that is to be kept stays.
keeps_flop :
    process_module flop_netlist
      ((codes "M", multiplier_type) ∷ [], (codes "FD", flop_type) ∷ [])
      []
      (multiplier ∷ flop true ∷ [])
    ≡ some (some multiplier ∷ some (flop true) ∷ [])
unfolding build build_wires build_wire build_cells build_ports build_bits add_sink add_driver lookup
    put replace insert insert_new member same_dict within_dict same_text process_module
    process_cells process_registers process_register process_group integrate remove_cells is_used
    get_param scan_ports scan_bits probe_bit is_excluded others_of left_sinks is_removed
    probe_others probe_pin probe_flop data_port mapped_params check_flop check_required
    get_flop_data flop_conns port_conn flop_params insert_all same_flop_data has_group insert_group
    check_flop_data_against_dsp_register check_conns check_assoc check_map check_set check_param
    reconnect_ports reconnect_bits far_port through_flop map_ports map_controls connect_consts
    map_params set_params set_param same_pin same_cell flop_netlist
keeps_flop = refl

-- So does one whose data net is an output of the module.
edge_keeps_flop :
    process_module flop_netlist
      ((codes "M", multiplier_type) ∷ [], (codes "FD", flop_type) ∷ [])
      (record { name = codes "o"; port_input = false; port_output = true; bits = 5 ∷ [] } ∷ [])
      (multiplier ∷ flop false ∷ [])
    ≡ some (some multiplier ∷ some (flop false) ∷ [])
unfolding build build_wires build_wire build_cells build_ports build_bits add_sink add_driver lookup
    put replace insert insert_new member same_dict within_dict same_text process_module
    process_cells process_registers process_register process_group integrate remove_cells is_used
    get_param scan_ports scan_bits probe_bit is_excluded others_of left_sinks is_removed
    probe_others probe_pin probe_flop data_port mapped_params check_flop check_required
    get_flop_data flop_conns port_conn flop_params insert_all same_flop_data has_group insert_group
    check_flop_data_against_dsp_register check_conns check_assoc check_map check_set check_param
    reconnect_ports reconnect_bits far_port through_flop map_ports map_controls connect_consts
    map_params set_params set_param same_pin same_cell flop_netlist
edge_keeps_flop = refl

-- A register whose clock has no rule gets a connection to a port without a name.
unnamed_port :
    map_controls flop_netlist
      (record { type = codes "FD"; conns = []; flop = []; dsp = [] })
      ((codes "clk", ([], 0)) ∷ [])
      multiplier
    ≡ some (record multiplier { connections = ([], 0 ∷ []) ∷ (codes "Z", 5 ∷ []) ∷ [] })
unfolding build build_wires build_wire build_cells build_ports build_bits add_sink add_driver lookup
    put replace insert insert_new member same_dict within_dict same_text process_module
    process_cells process_registers process_register process_group integrate remove_cells is_used
    get_param scan_ports scan_bits probe_bit is_excluded others_of left_sinks is_removed
    probe_others probe_pin probe_flop data_port mapped_params check_flop check_required
    get_flop_data flop_conns port_conn flop_params insert_all same_flop_data has_group insert_group
    check_flop_data_against_dsp_register check_conns check_assoc check_map check_set check_param
    reconnect_ports reconnect_bits far_port through_flop map_ports map_controls connect_consts
    map_params set_params set_param same_pin same_cell flop_netlist
unnamed_port = refl

abbrev conns : ConnMap ℕ
unfolding build build_wires build_wire build_cells build_ports build_bits add_sink add_driver lookup
    put replace insert_new same_text
conns = build flop_netlist (multiplier ∷ flop false ∷ []) []

abbrev before : State ℕ ℕ
before = record { cells = multiplier ∷ flop false ∷ []; removed = []; changes = [] }

abbrev behind : State ℕ ℕ
behind = record {
  cells = registered ∷ flop false ∷ [];
  removed = 1 ∷ [];
  changes = (0, (codes "R") ∷ []) ∷ [];
}

processes :
    process_register flop_netlist ((codes "FD", flop_type) ∷ []) conns before 0 z_register z_ports
    ≡ some behind
unfolding build build_wires build_wire build_cells build_ports build_bits add_sink add_driver lookup
    put replace insert insert_new member same_dict within_dict same_text process_module
    process_cells process_registers process_register process_group integrate remove_cells is_used
    get_param scan_ports scan_bits probe_bit is_excluded others_of left_sinks is_removed
    probe_others probe_pin probe_flop data_port mapped_params check_flop check_required
    get_flop_data flop_conns port_conn flop_params insert_all same_flop_data has_group insert_group
    check_flop_data_against_dsp_register check_conns check_assoc check_map check_set check_param
    reconnect_ports reconnect_bits far_port through_flop map_ports map_controls connect_consts
    map_params set_params set_param same_pin same_cell flop_netlist conns
processes = refl

process_register-IsTaken_example :
    (behind ≡ before)
    ⊎ ((d : FlopData ℕ ℕ) × All
          (IsTaken flop_netlist
            ((codes "FD", flop_type) ∷ [])
            conns
            before
            z_register
            z_ports
            multiplier
            d)
          (1 ∷ []))
process_register-IsTaken_example =
    process_register-IsTaken flop_netlist ((codes "FD", flop_type) ∷ []) conns before behind 0
      multiplier z_register z_ports refl processes
