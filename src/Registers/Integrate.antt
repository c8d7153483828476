-- ===== src/Registers/Integrate.antt =====
-- dsp-ff-plugin/dsp_ff.cc: checkFlopDataAgainstDspRegister, processRegister, and the loops of execute.
use yosys_f4pga_plugins.Prelude.{
  ℕ, Bool, true, false, not, ◌&&◌, ◌||◌, Option, none, some, List, [], ◌∷◌, get_elem?,
  if◌then◌else◌,
}
use yosys_f4pga_plugins.Prelude.Equality.{Eq, nat_eq}
use yosys_f4pga_plugins.Prelude.Text.{codes, same_text, text_eq}
use yosys_f4pga_plugins.Prelude.Options.{◌>>=◌}
use yosys_f4pga_plugins.Prelude.Dict.{lookup, put, insert, member}
use yosys_f4pga_plugins.Rules.{FlopType, PortType, RegisterType}
use yosys_f4pga_plugins.Registers.{Cell, Netlist, FlopData, get_param, port_conn}

module _ {B C : Type 0} ⦃bit_eq : Eq B⦄ ⦃const_eq : Eq C⦄ (netlist : Netlist B C) where
  -- Checks of the control connections of the DSP cell. Each constant x agrees with everything.
  unfoldable pub check_assoc : FlopData B C → Cell B C → List (List ℕ × (List ℕ × C)) → Option Bool
  unfolding port_conn lookup
  check_assoc d dsp [] = some true
  check_assoc d dsp ((key, (port, value)) ∷ assoc) = do
    conn ← (if same_text port [] then some none else port_conn netlist dsp port)
    ok ← check_assoc d dsp assoc
    elim conn [
      | none ↦ some ok
      | some b ↦ elim (bit_eq.beq b netlist.sx) [
        | true ↦ some ok
        | false ↦ lookup key d.conns >>= λ flop. some (bit_eq.beq b flop && ok)
      ]
    ]

  unfoldable pub check_conns : FlopData B C → Cell B C → List (PortType C) → Option Bool
  unfolding check_assoc
  check_conns d dsp [] = some true
  check_conns d dsp (port ∷ ports) = do
    ok ← check_assoc d dsp port.assoc
    ok' ← check_conns d dsp ports
    some (ok && ok')

  -- checkParam: a parameter that was changed before keeps its value.
  unfoldable pub check_param : List (List ℕ) → List ℕ → C → C → Bool
  unfolding member
  check_param changed name curr next = const_eq.beq curr next || not (member name changed)

  unfoldable pub check_map : List (List ℕ) → FlopData B C → Cell B C → List (List ℕ × List ℕ) → Bool
  unfolding check_param lookup
  check_map changed d dsp [] = true
  check_map changed d dsp ((to, from) ∷ map) =
      elim (lookup to dsp.parameters) [
        | none ↦ true
        | some curr ↦ elim (lookup from d.dsp) [
          | none ↦ true
          | some next ↦ check_param changed to curr next
        ]
      ]
      && check_map changed d dsp map

  unfoldable pub check_set : List (List ℕ) → Cell B C → List (List ℕ × C) → Bool
  unfolding check_param lookup
  check_set changed dsp [] = true
  check_set changed dsp ((name, value) ∷ more) =
      elim (lookup name dsp.parameters) [
        | none ↦ true
        | some curr ↦ check_param changed name curr value
      ]
      && check_set changed dsp more

  unfoldable pub check_flop_data_against_dsp_register :
      FlopType C
      → List (List ℕ)
      → FlopData B C
      → Cell B C
      → RegisterType C
      → List (PortType C)
      → Option Bool
  unfolding check_conns check_map check_set
  check_flop_data_against_dsp_register t changed d dsp register ports = do
    ok ← check_conns d dsp ports
    some (
        ok
        && (check_map changed d dsp register.map
            && (check_set changed dsp register.set
                && (check_map changed d dsp t.map && check_set changed dsp t.set))))

  -- The first loop of processRegister: a parameter of the register that is set already.
  unfoldable pub is_used : Cell B C → List (List ℕ × C) → Option Bool
  unfolding get_param
  is_used dsp [] = some false
  is_used dsp ((name, value) ∷ more) = get_param netlist dsp name >>= λ curr.
      elim (const_eq.beq curr value) [ true ↦ some true | false ↦ is_used dsp more ]

  -- A bit goes where the flip-flop's other side goes.
  unfoldable pub through_flop : Cell B C → List ℕ → Option B
  unfolding lookup
  through_flop flop flop_port = elim (lookup flop_port flop.connections) [
    | none ↦ none
    | some [] ↦ some netlist.sx
    | some (b ∷ []) ↦ some b
    | some (b ∷ b' ∷ bits) ↦ none
  ]

  -- The port of a flip-flop's type on the other side.
  unfoldable pub far_port : List ℕ → List ℕ → FlopType C → Option (List ℕ)
  unfolding lookup
  far_port type port t = elim (netlist.output type port) [
    | true ↦ lookup (netlist.escape_id (codes "q")) t.ports
    | false ↦ elim (netlist.input type port) [
      | true ↦ lookup (netlist.escape_id (codes "d")) t.ports
      | false ↦ some []
    ]
  ]

  unfoldable pub reconnect_bits :
      List (Cell B C)
      → List ℕ
      → List ℕ
      → FlopType C
      → List (Option ℕ)
      → List B
      → List ℕ
      → Option (List B × List ℕ)
  unfolding far_port through_flop insert
  reconnect_bits cells type port t [] bits removed = some (bits, removed)
  reconnect_bits cells type port t (flop ∷ flops) [] removed = none
  reconnect_bits cells type port t (none ∷ flops) (b ∷ bits) removed = do
    r ← reconnect_bits cells type port t flops bits removed
    some (b ∷ r.0, r.1)
  reconnect_bits cells type port t (some i ∷ flops) (b ∷ bits) removed = do
    flop ← get_elem? cells i
    flop_port ← far_port type port t
    b' ← through_flop flop flop_port
    r ← reconnect_bits cells type port t flops bits (insert i removed)
    some (b' ∷ r.0, r.1)

  unfoldable pub reconnect_ports :
      List (Cell B C)
      → FlopType C
      → List (List ℕ × List (Option ℕ))
      → List (PortType C)
      → Cell B C
      → List ℕ
      → Option (Cell B C × List ℕ)
  unfolding reconnect_bits lookup put
  reconnect_ports cells t flops [] dsp removed = some (dsp, removed)
  reconnect_ports cells t flops (port ∷ ports) dsp removed = elim (lookup port.name flops) [
    | none ↦ reconnect_ports cells t flops ports dsp removed
    | some conns ↦ do
      bits ← lookup port.name dsp.connections
      r ← reconnect_bits cells dsp.type port.name t conns bits removed
      reconnect_ports cells t flops ports
          (record dsp { connections = put port.name r.0 dsp.connections }) r.1
  ]

  -- The control signals: the flip-flops' net, or the default of the rule, which is made a bit first.
  unfoldable pub map_controls :
      FlopData B C → List (List ℕ × (List ℕ × C)) → Cell B C → Option (Cell B C)
  unfolding lookup put
  map_controls d [] dsp = some dsp
  map_controls d ((key, (port, value)) ∷ assoc) dsp = do
    default ← netlist.const_bit value
    map_controls d assoc (record dsp {
      connections =
          put port (elim (lookup key d.conns) [ none ↦ default | some b ↦ b ] ∷ []) dsp.connections;
    })

  unfoldable pub map_ports : FlopData B C → List (PortType C) → Cell B C → Option (Cell B C)
  unfolding map_controls
  map_ports d [] dsp = some dsp
  map_ports d (port ∷ ports) dsp = do dsp' ← map_controls d port.assoc dsp; map_ports d ports dsp'

  unfoldable pub connect_consts : List (List ℕ × C) → Cell B C → Cell B C
  unfolding put
  connect_consts [] dsp = dsp
  connect_consts ((port, value) ∷ more) dsp =
      connect_consts more
        (record dsp { connections = put port (netlist.const_bits value) dsp.connections })

  -- A cell, and the parameters of it that are marked as changed. The marks on its ports are never read,
  -- and are left out.
  abbrev pub Changed : Type 0
  Changed = Cell B C × List (List ℕ)

  unfoldable pub set_param : List ℕ → C → Changed → Changed
  unfolding put insert
  set_param name value (dsp, changed) =
      (record dsp { parameters = put name value dsp.parameters }, insert name changed)

  unfoldable pub map_params : FlopData B C → List (List ℕ × List ℕ) → Changed → Changed
  unfolding set_param lookup
  map_params d [] s = s
  map_params d ((to, from) ∷ map) s = elim (lookup from d.dsp) [
    | none ↦ map_params d map s
    | some value ↦ map_params d map (set_param to value s)
  ]

  unfoldable pub set_params : List (List ℕ × C) → Changed → Changed
  unfolding set_param
  set_params [] s = s
  set_params ((name, value) ∷ more) s = set_params more (set_param name value s)
