-- ===== src/Iob/Cells/Tests.antt =====
-- A clock pad on a constrained net, from a PCF file to its parameters.
use yosys_f4pga_plugins.Prelude.{◌≡◌, ◌⊎◌, refl, true, false, none, some, List, [], ◌∷◌, All}
use yosys_f4pga_plugins.Prelude.Text.{codes, same_text, strip, decimal, decimal_loop}
use yosys_f4pga_plugins.Prelude.Words.{is_free, is_free-Free}
use yosys_f4pga_plugins.Iob.Pinmap.{Entry, find}
use yosys_f4pga_plugins.Iob.Pcf.{
  Constraint, all_of, is_any, is_name, is_space, span, match_line, parse_pcf,
}
use yosys_f4pga_plugins.Iob.Pcf.Line.{IsName, IsConstraint, constraint_line, comment_text}
use yosys_f4pga_plugins.Iob.Pcf.File.{
  PcfLine, constrains, other, pcf_file, constraints_of, IsLine, parse_pcf-file,
}
use yosys_f4pga_plugins.Iob.Locate.{choose_pinmap_entry, entry_of_type, IoCellType, default_types}
use yosys_f4pga_plugins.Iob.Cells.{
  Wire, SigBit, Cell, constrain, set_place, set_type, locate, locate_bit, locate_bits, annotate,
  locate_cell,
}
use yosys_f4pga_plugins.Iob.Cells.Sound.{IsAnnotated, locate_cell-IsAnnotated}

abbrev clk : Constraint
clk = record { net_name = codes "clk"; pad_name = codes "A1"; comment = codes " main" }

clk-IsConstraint : IsConstraint clk
unfolding all_of is_name is_any is_space IsName
clk-IsConstraint = record {
  net_word = ((λ e. cc), refl);
  pad_word = ((λ e. cc), refl);
  comment_line = refl;
}

abbrev pcf : List PcfLine
pcf = other (codes "# pins") ∷ constrains clk ∷ []

pcf-IsLine : All IsLine pcf
unfolding IsLine match_line span is_space strip is_free constraint_line comment_text
pcf-IsLine = (
  (refl, is_free-Free b'\n' (codes "# pins") refl),
  (
    record {
      constraint = clk-IsConstraint;
      one_line = is_free-Free b'\n' (constraint_line clk) refl;
    },
    tt,
  ),
)

parse_pcf-file_example : parse_pcf (some (pcf_file pcf)) [] ≡ (true, constraints_of pcf)
parse_pcf-file_example = parse_pcf-file pcf [] pcf-IsLine

abbrev a1 : Entry
a1 =
    (codes "name", codes "A1")
    ∷ (codes "x", codes "3")
    ∷ (codes "y", codes "7")
    ∷ (codes "type", codes "CLOCK")
    ∷ []

abbrev clk_wire : Wire
clk_wire = record { name = codes "clk"; port_input = true; port_output = false }

abbrev clk_pad : Cell
clk_pad = record {
  type = codes "ckpad";
  connections =
      (
        codes "P",
        record { wire = some clk_wire; offset = 0 } ∷ record { wire = none; offset = 0 } ∷ [],
      )
      ∷ [];
  io_pad = none;
  io_loc = none;
  io_type = none;
}

abbrev ckpad : IoCellType
ckpad = record {
  type = codes "ckpad";
  port = codes "P";
  preferred_types = codes "CLOCK" ∷ codes "BIDIR" ∷ codes "SDIOMUX" ∷ [];
}

abbrev located : Cell
located = record clk_pad {
  io_pad = some (codes "A1");
  io_loc = some (codes "X3Y7");
  io_type = some (codes "CLOCK");
}

-- The second bit of the port has no wire.
locate_cell-IsAnnotated_example :
    (IsAnnotated
        ((codes "clk", clk) ∷ [])
        ((codes "A1", a1 ∷ []) ∷ [])
        ckpad.preferred_types
        []
        clk_pad
        located
      × (find (codes "P") clk_pad.connections ≡ none))
    ⊎ ((bits : List SigBit) × (find (codes "P") clk_pad.connections ≡ some bits)
        × IsAnnotated
            ((codes "clk", clk) ∷ [])
            ((codes "A1", a1 ∷ []) ∷ [])
            ckpad.preferred_types
            bits
            clk_pad
            located)
unfolding find same_text locate_cell locate_bits locate_bit locate constrain set_place set_type
    annotate choose_pinmap_entry entry_of_type decimal decimal_loop
locate_cell-IsAnnotated_example =
    locate_cell-IsAnnotated default_types ((codes "clk", clk) ∷ []) ((codes "A1", a1 ∷ []) ∷ [])
      clk_pad located ckpad refl refl
