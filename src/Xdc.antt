-- ===== src/Xdc.antt =====
-- xdc-plugin/xdc.cc: the command `set_property`, and trim of common/utils.h.
--
-- Names are those without RTLIL's escapes, and values are texts. What `sscanf` with the format
-- "%[^[][%d]" reads in a name is a parameter; an index that is negative is `none`. A signal is its chunk,
-- if it is one chunk of a wire. An error and an exception end the run, and are `none`. The bank cells that
-- the command makes are kept apart from the other cells, of which none has their names or their type.
pub mod Property
pub mod Frame
pub mod Vref
mod Tests
use yosys_f4pga_plugins.Prelude.{
  ℕ, zero, suc, ◌+◌, ◌-◌, Bool, true, false, not, ◌&&◌, ◌||◌, Option, none, some, List, [], ◌∷◌,
  ◌++◌, get_elem?, ltb, leb, ◌==◌, if◌then◌else◌,
}
use yosys_f4pga_plugins.Prelude.Text.{codes, decimal, same_text, text_eq}
use yosys_f4pga_plugins.Prelude.Words.{words}
use yosys_f4pga_plugins.Prelude.Options.{◌>>=◌, ◌>>◌, check}
use yosys_f4pga_plugins.Prelude.Dict.{lookup, put, member}

pub record Wire : Type 0 where
  pub name : List ℕ
  pub port_input : Bool
  pub port_output : Bool
  pub start_offset : ℕ
  pub width : ℕ

pub record Chunk : Type 0 where
  pub wire : Wire
  pub offset : ℕ
  pub width : ℕ

pub record Cell : Type 0 where
  pub type : List ℕ
  pub connections : List (Option Chunk)
  pub parameters : List (List ℕ × List ℕ)

-- The wires of the top module, and its connections: a chunk, and the bits that drive it, each the name of
-- a wire and an offset, or a constant.
pub record Module : Type 0 where
  pub wires : List (List ℕ × Wire)
  pub connections : List (Option Chunk × List (Option (List ℕ × ℕ)))

-- supported_primitive_parameters
unfoldable pub primitive_parameters : List (List ℕ × List (List ℕ))
primitive_parameters =
    (
      codes "OBUF",
      codes "IO_LOC_PAIRS"
          ∷ codes "IOSTANDARD"
          ∷ codes "DRIVE"
          ∷ codes "SLEW"
          ∷ codes "IN_TERM"
          ∷ [],
    )
    ∷ (
      codes "OBUFDS",
      codes "IO_LOC_PAIRS" ∷ codes "IOSTANDARD" ∷ codes "SLEW" ∷ codes "IN_TERM" ∷ [],
    )
    ∷ (
      codes "OBUFTDS",
      codes "IO_LOC_PAIRS" ∷ codes "IOSTANDARD" ∷ codes "SLEW" ∷ codes "IN_TERM" ∷ [],
    )
    ∷ (codes "IBUF", codes "IO_LOC_PAIRS" ∷ codes "IOSTANDARD" ∷ [])
    ∷ (
      codes "IOBUF",
      codes "IO_LOC_PAIRS"
          ∷ codes "IOSTANDARD"
          ∷ codes "DRIVE"
          ∷ codes "SLEW"
          ∷ codes "IN_TERM"
          ∷ [],
    )
    ∷ (
      codes "IOBUFDS",
      codes "IO_LOC_PAIRS" ∷ codes "IOSTANDARD" ∷ codes "SLEW" ∷ codes "IN_TERM" ∷ [],
    )
    ∷ (codes "IBUFDS_GTE2", codes "IO_LOC_PAIRS" ∷ [])
    ∷ (codes "GTPE2_CHANNEL", codes "IO_LOC_PAIRS" ∷ [])
    ∷ []

-- std::isspace, and trim
unfoldable pub is_white : ℕ → Bool
is_white c = c == b' ' || (leb 9 c && leb c 13)

unfoldable pub trim_left : List ℕ → List ℕ
unfolding is_white
trim_left [] = []
trim_left (c ∷ s) = elim (is_white c) [ true ↦ trim_left s | false ↦ c ∷ s ]

-- The white space at the end goes: a character stays if it, or one behind it, is none.
unfoldable pub trim_right : List ℕ → List ℕ
unfolding is_white
trim_right [] = []
trim_right (c ∷ s) = elim (trim_right s) [
  | [] ↦ if is_white c then [] else c ∷ []
  | d ∷ rest ↦ c ∷ d ∷ rest
]

unfoldable pub trim : List ℕ → List ℕ
unfolding trim_left trim_right
trim s = trim_right (trim_left s)

abbrev pub io_loc_pairs : List ℕ
io_loc_pairs = codes "IO_LOC_PAIRS"

-- The name of a bit of a wire.
unfoldable pub bit_name : List ℕ → ℕ → List ℕ
bit_name name offset = if ltb 0 offset then name ++ (b'[' ∷ decimal offset ++ codes "]") else name

-- The value that goes into a cell, in which a value that is there comes first.
unfoldable pub joined_value : List ℕ → Cell → List ℕ → List ℕ
unfolding lookup same_text
joined_value parameter c value = elim (same_text parameter io_loc_pairs) [
  | false ↦ value
  | true ↦ elim (lookup parameter c.parameters) [
    | none ↦ value
    | some cur_value ↦ cur_value ++ (b',' ∷ value)
  ]
]

module _ (scan : List ℕ → List ℕ × Option ℕ) (top : Module) where
  -- is_signal_port
  unfoldable pub is_signal_port : Option Chunk → List ℕ → Bool
  unfolding same_text
  is_signal_port none port_name = false
  is_signal_port (some chunk) port_name =
      let (port, bit) = scan port_name in
      elim bit [
        | none ↦ false
        | some n ↦ same_text chunk.wire.name port && n == chunk.offset + chunk.wire.start_offset
      ]

  -- traverse_wire: the name of the source of the port, if a connection gives it one.
  unfoldable pub traverse_connections :
      List (Option Chunk × List (Option (List ℕ × ℕ))) → List ℕ → ℕ → List ℕ → Option (List ℕ)
  unfolding same_text bit_name
  traverse_connections [] signal bit port_name = some port_name
  traverse_connections ((none, src) ∷ conns) signal bit port_name =
      traverse_connections conns signal bit port_name
  traverse_connections ((some chunk, src) ∷ conns) signal bit port_name =
      elim (same_text chunk.wire.name signal
        && (leb chunk.offset bit && ltb bit (chunk.offset + chunk.width))) [
          | false ↦ traverse_connections conns signal bit port_name
          | true ↦ get_elem? src (bit - chunk.offset) >>= λ b. elim b [
            | none ↦ traverse_connections conns signal bit port_name
            | some (name, offset) ↦ some (bit_name name offset)
          ]
        ]

  -- The connections of a cell of a supported type; `value` is changed on the way.
  unfoldable pub set_on_connections :
      List ℕ → List ℕ → List (List ℕ) → List (Option Chunk) → Cell → List ℕ → Option (Cell × List ℕ)
  unfolding is_signal_port joined_value member put
  set_on_connections parameter port_name supported [] c value = some (c, value)
  set_on_connections parameter port_name supported (signal ∷ signals) c value =
      elim (is_signal_port signal port_name) [
        | false ↦ set_on_connections parameter port_name supported signals c value
        | true ↦ elim (member parameter supported) [
          | false ↦ none
          | true ↦
              let next : List ℕ = joined_value parameter c value in
              set_on_connections parameter port_name supported signals
                (record c { parameters = put parameter next c.parameters }) next
        ]
      ]

  -- The cells, in their order; the value goes on from one to the next.
  unfoldable pub set_on_cells : List ℕ → List ℕ → List Cell → List ℕ → Option (List Cell × List ℕ)
  unfolding set_on_connections lookup primitive_parameters
  set_on_cells parameter port_name [] value = some ([], value)
  set_on_cells parameter port_name (c ∷ cells) value = elim (lookup c.type primitive_parameters) [
    | none ↦ do r ← set_on_cells parameter port_name cells value; some (c ∷ r.0, r.1)
    | some supported ↦ do
      s ← set_on_connections parameter port_name supported c.connections c value
      r ← set_on_cells parameter port_name cells s.1
      some (s.0 ∷ r.0, r.1)
  ]

  -- process_port_parameter
  unfoldable pub process_port_parameter : List (List ℕ) → List Cell → Option (List Cell)
  unfolding lookup traverse_connections set_on_cells
  process_port_parameter (parameter ∷ value ∷ port_name ∷ rest) cells = do
    check (not (same_text port_name []))
    bit ← (scan port_name).1
    wire ← lookup (scan port_name).0 top.wires
    check (wire.port_input || wire.port_output)
    check (leb wire.start_offset bit && ltb bit (wire.start_offset + wire.width))
    source ← traverse_connections top.connections (scan port_name).0 bit port_name
    r ← set_on_cells parameter source cells value
    some r.0
  process_port_parameter _ cells = none
