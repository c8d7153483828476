-- ===== src/Registers.antt =====
-- dsp-ff-plugin/dsp_ff.cc: the flip-flops at the ports of a DSP cell: ConnMap, checkFlop and getFlopData.
--
-- Cells are at their positions in a list, and a pin is that of Inverters, whose struct is the same.
-- Bits are of a type `B` and constants of a type `C`, both with a comparison; what the pass asks of
-- RTLIL is the record `Netlist`. A failed assertion, `log_error` and an exception end the run, and are
-- `none`.
pub mod Scan
pub mod Integrate
pub mod Process
use yosys_f4pga_plugins.Prelude.{
  ℕ, zero, suc, Bool, true, false, not, ◌&&◌, ◌||◌, Option, none, some, List, [], ◌∷◌, ◌++◌,
  get_elem?, leb, length, if◌then◌else◌,
}
use yosys_f4pga_plugins.Prelude.Equality.{Eq}
use yosys_f4pga_plugins.Prelude.Text.{codes, same_text, text_eq}
use yosys_f4pga_plugins.Prelude.Options.{◌>>=◌, ◌>>◌, check}
use yosys_f4pga_plugins.Prelude.Dict.{lookup, put, insert_new, same_dict}
use yosys_f4pga_plugins.Rules.{FlopType}
use yosys_f4pga_plugins.Inverters.{Pin}

pub record Cell (B C : Type 0) : Type 0 where
  pub type : List ℕ
  pub keep : Bool
  pub connections : List (List ℕ × List B)
  pub parameters : List (List ℕ × C)

-- A wire, with its bits.
pub record Wire (B : Type 0) : Type 0 where
  pub name : List ℕ
  pub port_input : Bool
  pub port_output : Bool
  pub bits : List B

-- The canonical bit (SigMap), the test for a wire's bit, the constant bit x, the directions of ports, what
-- getParam gives for a parameter that the cell does not have (`none` is an exception), a constant as a
-- signal, one of a single bit as a bit, and RTLIL's escape_id.
pub record Netlist (B C : Type 0) : Type 0 where
  pub sig_map : B → B
  pub is_wire : B → Bool
  pub sx : B
  pub input : List ℕ → List ℕ → Bool
  pub output : List ℕ → List ℕ → Bool
  pub default_param : List ℕ → List ℕ → Option C
  pub const_bits : C → List B
  pub const_bit : C → Option B
  pub escape_id : List ℕ → List ℕ

pub record ConnMap (B : Type 0) : Type 0 where
  pub sinks : List (B × List Pin)
  pub drivers : List (B × Pin)

-- Describes unique flip-flop configuration.
pub record FlopData (B C : Type 0) : Type 0 where
  pub type : List ℕ
  pub conns : List (List ℕ × B)
  pub flop : List (List ℕ × C)
  pub dsp : List (List ℕ × C)

module _ {B C : Type 0} ⦃bit_eq : Eq B⦄ ⦃const_eq : Eq C⦄ where
  unfoldable pub same_flop_data : FlopData B C → FlopData B C → Bool
  unfolding same_dict
  same_flop_data l r =
      same_text l.type r.type
      && (same_dict bit_eq.beq l.conns r.conns
          && (same_dict const_eq.beq l.flop r.flop && same_dict const_eq.beq l.dsp r.dsp))

  module _ (netlist : Netlist B C) where
    -- cell->getParam(name)
    unfoldable pub get_param : Cell B C → List ℕ → Option C
    unfolding lookup
    get_param c name = elim (lookup name c.parameters) [
      | none ↦ netlist.default_param c.type name
      | some value ↦ some value
    ]

    -- ConnMap::build
    unfoldable pub add_sink : B → Pin → ConnMap B → ConnMap B
    unfolding lookup put
    add_sink b pin m = record m {
      sinks =
          put b (elim (lookup b m.sinks) [ none ↦ [] | some pins ↦ pins ] ++ (pin ∷ [])) m.sinks;
    }

    unfoldable pub add_driver : B → Pin → ConnMap B → ConnMap B
    unfolding insert_new
    add_driver b pin m = record m { drivers = insert_new b pin m.drivers }

    unfoldable pub build_bits : ℕ → List ℕ → List ℕ → List B → ℕ → ConnMap B → ConnMap B
    unfolding add_sink add_driver
    build_bits cell type port [] i m = m
    build_bits cell type port (b ∷ bits) i m =
        let pin : Pin = record { cell = some cell; port = port; bit = i } in
        let sunk = if netlist.input type port then add_sink (netlist.sig_map b) pin m else m in
        let driven =
          if netlist.output type port then add_driver (netlist.sig_map b) pin sunk else sunk in
        build_bits cell type port bits (suc i) driven

    unfoldable pub build_ports : ℕ → List ℕ → List (List ℕ × List B) → ConnMap B → ConnMap B
    unfolding build_bits
    build_ports cell type [] m = m
    build_ports cell type ((port, bits) ∷ conns) m =
        build_ports cell type conns (build_bits cell type port bits 0 m)

    unfoldable pub build_cells : List (Cell B C) → ℕ → ConnMap B → ConnMap B
    unfolding build_ports
    build_cells [] i m = m
    build_cells (c ∷ cells) i m = build_cells cells (suc i) (build_ports i c.type c.connections m)

    -- The sinks are under canonical bits, the drivers under the bits themselves.
    unfoldable pub build_wire : Wire B → List B → ℕ → ConnMap B → ConnMap B
    unfolding add_sink add_driver
    build_wire w [] i m = m
    build_wire w (b ∷ bits) i m =
        let pin : Pin = record { cell = none; port = w.name; bit = i } in
        let sunk = if w.port_output then add_sink (netlist.sig_map b) pin m else m in
        let driven = if w.port_input then add_driver b pin sunk else sunk in
        build_wire w bits (suc i) driven

    unfoldable pub build_wires : List (Wire B) → ConnMap B → ConnMap B
    unfolding build_wire
    build_wires [] m = m
    build_wires (w ∷ wires) m = build_wires wires (build_wire w w.bits 0 m)

    unfoldable pub build : List (Cell B C) → List (Wire B) → ConnMap B
    unfolding build_cells build_wires
    build cells wires =
        build_wires wires (build_cells cells 0 (record { sinks = []; drivers = [] }))

    -- checkFlop
    unfoldable pub check_required : Cell B C → List (List ℕ × C) → Option Bool
    unfolding get_param
    check_required c [] = some true
    check_required c ((name, value) ∷ required) = do
      curr ← get_param c name
      ok ← check_required c required
      some (const_eq.beq curr value && ok)

    unfoldable pub check_flop : FlopType C → Cell B C → Option Bool
    unfolding check_required
    check_flop t c = do ok ← check_required c t.required; some (not c.keep && ok)

    -- The canonical bit of a port that has at most one; `none` if it has more.
    unfoldable pub port_conn : Cell B C → List ℕ → Option (Option B)
    unfolding lookup
    port_conn c port = elim (lookup port c.connections) [
      | none ↦ some none
      | some [] ↦ some none
      | some (b ∷ []) ↦ some (some (netlist.sig_map b))
      | some (b ∷ b' ∷ bits) ↦ none
    ]

    -- The parts of getFlopData.
    unfoldable pub flop_conns :
        Cell B C → List (List ℕ × List ℕ) → List (List ℕ × B) → Option (List (List ℕ × B))
    unfolding port_conn put same_text
    flop_conns c [] conns = some conns
    flop_conns c ((key, port) ∷ ports) conns =
        elim (same_text key (netlist.escape_id (codes "d"))
          || same_text key (netlist.escape_id (codes "q"))) [
            | true ↦ flop_conns c ports conns
            | false ↦ elim (same_text port []) [
              | true ↦ flop_conns c ports conns
              | false ↦ elim (port_conn c port) [
                | none ↦ none
                | some none ↦ flop_conns c ports conns
                | some (some b) ↦ flop_conns c ports (put key b conns)
              ]
            ]
          ]

    -- The values of parameters that the cell itself must have.
    unfoldable pub flop_params :
        Cell B C → List (List ℕ) → List (List ℕ × C) → Option (List (List ℕ × C))
    unfolding lookup insert_new
    flop_params c [] params = some params
    flop_params c (name ∷ names) params = elim (lookup name c.parameters) [
      | none ↦ none
      | some value ↦ flop_params c names (insert_new name value params)
    ]

    unfoldable pub insert_all : List (List ℕ × C) → List (List ℕ × C) → List (List ℕ × C)
    unfolding insert_new
    insert_all [] params = params
    insert_all ((name, value) ∷ more) params = insert_all more (insert_new name value params)

    abbrev pub mapped_names : List (List ℕ × List ℕ) → List (List ℕ)
    mapped_names [] = []
    mapped_names ((dsp, flop) ∷ map) = flop ∷ mapped_names map

    unfoldable pub get_flop_data : FlopType C → Cell B C → List (List ℕ × C) → Option (FlopData B C)
    unfolding flop_conns flop_params insert_all
    get_flop_data t c extra = do
      conns ← flop_conns c t.ports []
      matching ← flop_params c t.matching []
      flop ← flop_params c (mapped_names t.map) matching
      some (record {
        type = c.type;
        conns = conns;
        flop = flop;
        dsp = insert_all extra (insert_all t.set []);
      })
