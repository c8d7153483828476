-- ===== src/Registers/Scan.antt =====
-- dsp-ff-plugin/dsp_ff.cc: the loop of processRegister over the bits of the ports of a register.
use yosys_f4pga_plugins.Prelude.{
  ℕ, suc, Bool, true, false, ◌||◌, Option, none, some, List, [], ◌∷◌, get_elem?, ltb, length,
  if◌then◌else◌,
}
use yosys_f4pga_plugins.Prelude.Equality.{Eq, nat_eq}
use yosys_f4pga_plugins.Prelude.Text.{codes, same_text, text_eq}
use yosys_f4pga_plugins.Prelude.Options.{◌>>=◌, ◌>>◌, check}
use yosys_f4pga_plugins.Prelude.Dict.{lookup, put, insert, insert_new, member}
use yosys_f4pga_plugins.Rules.{FlopType, PortType, RegisterType}
use yosys_f4pga_plugins.Inverters.{Pin, pin_eq}
use yosys_f4pga_plugins.Registers.{
  Cell, Netlist, ConnMap, FlopData, same_flop_data, check_flop, get_flop_data,
}

-- What a bit of a port leads to: nothing, something that rules the register out, or a flip-flop.
pub data Probe (B C : Type 0) : Type 0 where
  skipped refused : Probe B C
  found : ℕ → FlopData B C → Probe B C

-- flopsOk, groups, and flops
pub record Scanned (B C : Type 0) : Type 0 where
  pub flops_ok : Bool
  pub groups : List (FlopData B C)
  pub flops : List (List ℕ × List (Option ℕ))

-- A sink of a cell that is not to be removed.
unfoldable pub is_removed : List ℕ → Option ℕ → Bool
unfolding member
is_removed removed none = false
is_removed removed (some i) = member i removed

unfoldable pub left_sinks : List ℕ → List Pin → List Pin → List Pin
unfolding is_removed insert
left_sinks removed [] others = others
left_sinks removed (sink ∷ sinks) others =
    left_sinks removed sinks (if is_removed removed sink.cell then others else insert sink others)

abbrev pub or_empty : {A : Type 0} → Option (List A) → List A
or_empty none = []
or_empty (some list) = list

-- A bit that is out of the range of the rule is passed over.
unfoldable pub is_excluded : Option (ℕ × ℕ) → ℕ → Bool
is_excluded none i = false
is_excluded (some (low, high)) i = ltb i low || ltb high i

module _ {B C : Type 0} ⦃bit_eq : Eq B⦄ ⦃const_eq : Eq C⦄ where
  -- groups.insert(data)
  unfoldable pub has_group : FlopData B C → List (FlopData B C) → Bool
  unfolding same_flop_data
  has_group d [] = false
  has_group d (g ∷ groups) = same_flop_data d g || has_group d groups

  unfoldable pub insert_group : FlopData B C → List (FlopData B C) → List (FlopData B C)
  unfolding has_group
  insert_group d groups = if has_group d groups then groups else d ∷ groups

  -- mappedParams
  unfoldable pub mapped_params :
      Cell B C → List (List ℕ × List ℕ) → List (List ℕ × C) → Option (List (List ℕ × C))
  unfolding lookup insert_new
  mapped_params c [] params = some params
  mapped_params c ((dsp, flop) ∷ map) params = elim (lookup flop c.parameters) [
    | none ↦ mapped_params c map params
    | some value ↦ mapped_params c map (insert_new dsp value params)
  ]

module _ {B C : Type 0} (netlist : Netlist B C) where
  -- The function of the flip-flop's port that the DSP's port is to be connected to.
  unfoldable pub data_port : List ℕ → List ℕ → FlopType C → Option (List ℕ)
  unfolding lookup
  data_port type port t = elim (netlist.output type port) [
    | true ↦ lookup (netlist.escape_id (codes "d")) t.ports
    | false ↦ elim (netlist.input type port) [
      | true ↦ lookup (netlist.escape_id (codes "q")) t.ports
      | false ↦ some []
    ]
  ]

module _ {B C : Type 0} ⦃bit_eq : Eq B⦄ ⦃const_eq : Eq C⦄ (netlist : Netlist B C)
    (flop_types : List (List ℕ × FlopType C)) (cells : List (Cell B C)) (conns : ConnMap B)
    (removed : List ℕ) where
  -- `others`, or `none` where the driver has more than one sink.
  unfoldable pub others_of : List ℕ → List ℕ → B → Option (List Pin)
  unfolding left_sinks lookup
  others_of type port b = elim (netlist.output type port) [
    | true ↦ some (left_sinks removed (or_empty (lookup b conns.sinks)) [])
    | false ↦ elim (netlist.input type port) [
      | false ↦ some []
      | true ↦ elim (lookup b conns.drivers) [
        | none ↦ some []
        | some driver ↦
            if ltb 1 (length (or_empty (lookup b conns.sinks))) then none else some (driver ∷ [])
      ]
    ]
  ]

  module _ (register : RegisterType C) where
    -- A flip-flop at a pin, of a type that has rules.
    unfoldable pub probe_flop :
        List ℕ → List ℕ → ℕ → Pin → Cell B C → FlopType C → Option (Probe B C)
    unfolding data_port check_flop mapped_params get_flop_data same_text
    probe_flop type port i pin c t = data_port netlist type port t >>= λ flop_port.
        elim (same_text flop_port pin.port) [
          | false ↦ some refused
          | true ↦ check_flop netlist t c >>= λ ok. elim ok [
            | false ↦ some refused
            | true ↦ do
              params ← mapped_params c register.map []
              data' ← get_flop_data netlist t c params
              some (found i data')
          ]
        ]

    unfoldable pub probe_pin : List ℕ → List ℕ → Pin → Option (Probe B C)
    unfolding probe_flop lookup
    probe_pin type port pin = elim pin.cell [
      | none ↦ some (elim pin.port [ [] ↦ skipped | x ∷ xs ↦ refused ])
      | some i ↦ get_elem? cells i >>= λ c. elim (lookup c.type flop_types) [
        | none ↦ some refused
        | some t ↦ probe_flop type port i pin c t
      ]
    ]

    unfoldable pub probe_others : List ℕ → List ℕ → List Pin → Option (Probe B C)
    unfolding probe_pin
    probe_others type port [] = some skipped
    probe_others type port (pin ∷ []) = probe_pin type port pin
    probe_others type port (pin ∷ pin' ∷ pins) = some refused

    unfoldable pub probe_bit : List ℕ → PortType C → ℕ → B → Option (Probe B C)
    unfolding is_excluded others_of probe_others
    probe_bit type port i b = elim (netlist.is_wire (netlist.sig_map b)) [
      | false ↦ some skipped
      | true ↦ elim (is_excluded port.bits i) [
        | true ↦ some skipped
        | false ↦ elim (others_of type port.name (netlist.sig_map b)) [
          | none ↦ some refused
          | some others ↦ probe_others type port.name others
        ]
      ]
    ]

    -- The flip-flops of the bits from the i-th on, with flopsOk and the groups.
    unfoldable pub scan_bits :
        List ℕ
        → PortType C
        → List B
        → ℕ
        → Bool
        → List (FlopData B C)
        → Option (List (Option ℕ) × Bool × List (FlopData B C))
    unfolding probe_bit insert_group
    scan_bits type port [] i ok groups = some ([], ok, groups)
    scan_bits type port (b ∷ bits) i ok groups = probe_bit type port i b >>= λ p. elim p [
      | skipped ↦ scan_bits type port bits (suc i) ok groups >>= λ r. some (none ∷ r.0, r.1, r.2)
      | refused ↦ scan_bits type port bits (suc i) false groups >>= λ r. some (none ∷ r.0, r.1, r.2)
      | found flop d ↦ scan_bits type port bits (suc i) ok (insert_group d groups) >>= λ r.
          some (some flop ∷ r.0, r.1, r.2)
    ]

    -- The ports of the register of a DSP cell.
    unfoldable pub scan_ports : Cell B C → List (PortType C) → Scanned B C → Option (Scanned B C)
    unfolding scan_bits lookup put
    scan_ports dsp [] s = some s
    scan_ports dsp (port ∷ ports) s = elim (lookup port.name dsp.connections) [
      | none ↦ scan_ports dsp ports s
      | some bits ↦ do
        check (netlist.output dsp.type port.name || netlist.input dsp.type port.name)
        (flops, ok, groups) ← scan_bits dsp.type port bits 0 s.flops_ok s.groups
        scan_ports dsp ports
            (record { flops_ok = ok; groups = groups; flops = put port.name flops s.flops })
    ]
