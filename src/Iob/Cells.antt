-- ===== src/Iob/Cells.antt =====
-- ql-iob-plugin/ql-iob.cc: `execute` from the maps on: the loop over the cells of the top module.
--
-- `sigbit.wire` is `none` for a constant bit. A cell keeps the three parameters that are set.
pub mod Located
pub mod Sound
mod Tests
use yosys_f4pga_plugins.Prelude.{
  ℕ, Bool, true, false, ◌||◌, Option, none, some, List, [], ◌∷◌, ◌++◌, if◌then◌else◌,
}
use yosys_f4pga_plugins.Prelude.Text.{codes, decimal}
use yosys_f4pga_plugins.Iob.Pinmap.{Entry, find, PinmapParser, parse}
use yosys_f4pga_plugins.Iob.Pcf.{Constraint, parse_pcf}
use yosys_f4pga_plugins.Iob.Locate.{
  Outcome, rejected, thrown, returned, IoCellType, io_cell_specs, default_types, constraint_map,
  pinmap_map, choose_pinmap_entry,
}

pub record Wire : Type 0 where
  pub name : List ℕ
  pub port_input : Bool
  pub port_output : Bool

pub record SigBit : Type 0 where
  pub wire : Option Wire
  pub offset : ℕ

pub record Cell : Type 0 where
  pub type : List ℕ
  pub connections : List (List ℕ × List SigBit)
  pub io_pad : Option (List ℕ)
  pub io_loc : Option (List ℕ)
  pub io_type : Option (List ℕ)

-- The local variables netName, padName, locName and cellType.
pub record Location : Type 0 where
  pub net_name : List ℕ
  pub pad_name : List ℕ
  pub loc_name : List ℕ
  pub cell_type : List ℕ

-- "%s", "%s[%d]", "%s(%d)"
abbrev pub net_names : List ℕ → ℕ → List (List ℕ)
net_names base offset =
    base
    ∷ (base ++ (b'[' ∷ (decimal offset ++ (b']' ∷ []))))
    ∷ (base ++ (b'(' ∷ (decimal offset ++ (b')' ∷ []))))
    ∷ []

module _ (constraints : List (List ℕ × Constraint)) (pinmap : List (List ℕ × List Entry))
    (preferred : List (List ℕ)) where
  -- The loop over the names of a net; padName and netName are empty before it.
  unfoldable pub constrain : List (List ℕ) → Location → Location
  unfolding find
  constrain [] l = record l { net_name = []; pad_name = [] }
  constrain (name ∷ names) l = elim (find name constraints) [
    | some c ↦ record l { net_name = name; pad_name = c.pad_name }
    | none ↦ constrain names l
  ]

  -- if (entry.count("x") && entry.count("y")) locName = ...
  unfoldable pub set_place : Entry → Location → Location
  set_place entry l = elim (find (codes "x") entry) [
    | none ↦ l
    | some x ↦ elim (find (codes "y") entry) [
      | none ↦ l
      | some y ↦ record l { loc_name = (b'X' ∷ x) ++ (b'Y' ∷ y) }
    ]
  ]

  -- if (entry.count("type")) cellType = entry.at("type")
  unfoldable pub set_type : Entry → Location → Location
  set_type entry l = elim (find (codes "type") entry) [
    | none ↦ l
    | some t ↦ record l { cell_type = t }
  ]

  -- if (pinmapMap.count(padName)) ...
  unfoldable pub locate : Location → Outcome Location
  unfolding choose_pinmap_entry set_place set_type
  locate l = elim (find l.pad_name pinmap) [
    | none ↦ returned l
    | some entries ↦ elim (choose_pinmap_entry entries preferred) [
      | rejected ↦ rejected
      | thrown ↦ thrown
      | returned entry ↦ returned (set_type entry (set_place entry l))
    ]
  ]

  -- The body of the loop over the bits.
  unfoldable pub locate_bit : SigBit → Location → Outcome Location
  unfolding constrain locate
  locate_bit bit l = elim bit.wire [
    | none ↦ returned l
    | some wire ↦
        if wire.port_input || wire.port_output
        then locate (constrain (net_names wire.name bit.offset) l)
        else returned l
  ]

  unfoldable pub locate_bits : List SigBit → Location → Outcome Location
  unfolding locate_bit
  locate_bits [] l = returned l
  locate_bits (bit ∷ bits) l = elim (locate_bit bit l) [
    | rejected ↦ rejected
    | thrown ↦ thrown
    | returned l' ↦ locate_bits bits l'
  ]

abbrev pub no_location : Location
no_location = record { net_name = []; pad_name = []; loc_name = []; cell_type = [] }

-- cell->setParam, three times
unfoldable pub annotate : Cell → Outcome Location → Outcome Cell
annotate cell rejected = rejected
annotate cell thrown = thrown
annotate cell (returned l) =
    returned (record cell {
      io_pad = some l.pad_name;
      io_loc = some l.loc_name;
      io_type = some l.cell_type;
    })

module _ (types : List (List ℕ × IoCellType)) (constraints : List (List ℕ × Constraint))
    (pinmap : List (List ℕ × List Entry)) where
  -- The body of the loop over the cells.
  unfoldable pub locate_cell : Cell → Outcome Cell
  unfolding annotate locate_bits
  locate_cell cell = elim (find cell.type types) [
    | none ↦ returned cell
    | some t ↦ elim (find t.port cell.connections) [
      | none ↦ annotate cell (returned no_location)
      | some bits ↦
          annotate cell (locate_bits constraints pinmap t.preferred_types bits no_location)
    ]
  ]

  unfoldable pub locate_cells : List Cell → Outcome (List Cell)
  unfolding locate_cell
  locate_cells [] = returned []
  locate_cells (cell ∷ cells) = elim (locate_cell cell) [
    | rejected ↦ rejected
    | thrown ↦ thrown
    | returned c ↦ elim (locate_cells cells) [
      | rejected ↦ rejected
      | thrown ↦ thrown
      | returned cs ↦ returned (c ∷ cs)
    ]
  ]

-- The part of `execute` from the two files on.
unfoldable pub process :
    List (List ℕ × IoCellType) → Option (List ℕ) → Option (List ℕ) → List Cell → Outcome (List Cell)
unfolding parse_pcf parse constraint_map pinmap_map locate_cells
process types pcf pinmap cells =
    if (parse_pcf pcf []).0
    then elim (constraint_map (parse_pcf pcf []).1 []) [
      | none ↦ rejected
      | some constraints ↦
          let (ok, p) = parse pinmap (record { fields = []; entries = [] }) in
          if ok then locate_cells types constraints (pinmap_map p.entries []) cells else rejected
    ]
    else rejected

-- `execute`, with the specifications behind the two file names, and the contents of the files. A
-- design has a top module here, and the test on the number of arguments is left out.
unfoldable pub execute :
    List (List ℕ) → Option (List ℕ) → Option (List ℕ) → List Cell → Outcome (List Cell)
unfolding process io_cell_specs
execute [] pcf pinmap cells = process default_types pcf pinmap cells
execute (arg ∷ args) pcf pinmap cells = elim (io_cell_specs (arg ∷ args) []) [
  | none ↦ rejected
  | some types ↦ process types pcf pinmap cells
]
