-- ===== src/Bram/Types.antt =====
-- ql-qlf-plugin/ql_bram_types.cc, ql_sdp_bram_types.cc, ql_bramecc_types.cc and
-- ql_sdp_bramecc_types.cc: the type of a RAM block, from its MODE_BITS.
--
-- A parameter's value is RTLIL::Const, a class of Yosys: its `extract`, `as_bool` and `as_int` are an
-- interface. `log_error` ends the run, and `failed` is that outcome. A run over a design treats each
-- selected cell by itself, so the model is of one cell.
pub mod Name
pub mod Passes
pub mod Errors
pub mod Tests
use yosys_f4pga_plugins.Prelude.{
  ℕ, ◌^◌, ◌<◌, ◌≡◌, Bool, true, false, not, ◌||◌, Option, none, some, List, [], ◌∷◌, ◌++◌, ◌==◌,
  if◌then◌else◌,
}
use yosys_f4pga_plugins.Prelude.Text.{codes, decimal, same_text}

-- RTLIL::Const, with the documented range of `extract(offset, len).as_int()`.
pub record ConstApi : Type 1 where
  pub Const : Type 0
  pub extract : Const → ℕ → ℕ → Const
  pub as_bool : Const → Bool
  pub as_int : Const → ℕ
  pub as_int-extract-lt : (c : Const) (offset len : ℕ) → as_int (extract c offset len) < 2 ^ len

pub data Outcome : Type 0 where
  unchanged failed : Outcome
  retyped : List ℕ → Outcome

-- `none` is log_error("Invalid mode").
unfoldable pub width_for_mode : ℕ → Option ℕ
width_for_mode mode =
    if mode == 1
    then some 9
    else if mode == 2
    then some 18
    else if mode == 3
    then some 36
    else if mode == 4
    then some 4
    else if mode == 5
    then some 1
    else if mode == 6
    then some 2
    else none

-- The table of the two passes for blocks with error correction.
unfoldable pub ecc_width_for_mode : ℕ → Option ℕ
ecc_width_for_mode mode =
    if mode == 0
    then some 1800
    else if mode == 1
    then some 9
    else if mode == 2
    then some 18
    else if mode == 3
    then some 36
    else if mode == 4
    then some 4
    else if mode == 5
    then some 1
    else if mode == 6
    then some 2
    else if mode == 7
    then some 3600
    else none

-- bool xor, for `!=`
abbrev pub differ : Bool → Bool → Bool
differ true b = not b
differ false b = b

-- The arguments of log_warning are computed first, and either of them may end the run.
unfoldable pub warn_widths : (ℕ → Option ℕ) → ℕ → ℕ → Outcome
warn_widths width r w = elim (width r) [
  | none ↦ failed
  | some a ↦ elim (width w) [ none ↦ failed | some b ↦ unchanged ]
]

-- if (RMODE != WMODE) { log_warning(...); continue; }, in front of what follows
unfoldable pub check_port : (ℕ → Option ℕ) → ℕ → ℕ → Outcome → Outcome
check_port width r w rest = if r == w then rest else warn_widths width r w

-- type += stringf("<label>%d_", width_for_mode(mode)), in front of what follows
unfoldable pub add_width : (ℕ → Option ℕ) → List ℕ → ℕ → List ℕ → (List ℕ → Outcome) → Outcome
add_width width label mode type rest = elim (width mode) [
  | none ↦ failed
  | some w ↦ rest (type ++ (label ++ (decimal w ++ (b'_' ∷ []))))
]

-- The part of the type behind `if (split)`.
unfoldable pub add_widths : (ℕ → Option ℕ) → Bool → ℕ → ℕ → ℕ → ℕ → List ℕ → Outcome
add_widths width true a1 b1 a2 b2 type = add_width width (codes "A1_X") a1 type λ t1.
    add_width width (codes "B1_X") b1 t1 λ t2.
      add_width width (codes "A2_X") a2 t2
        λ t3. add_width width (codes "B2_X") b2 t3 λ t4. retyped (t4 ++ codes "split")
add_widths width false a1 b1 a2 b2 type =
    add_width width (codes "A_X") a1 type
      λ t1. add_width width (codes "B_X") b1 t1 λ t2. retyped (t2 ++ codes "nonsplit")

-- The string that becomes the type, from its first assignment on.
unfoldable pub build_type : (ℕ → Option ℕ) → List ℕ → Bool → Bool → Bool → ℕ → ℕ → ℕ → ℕ → Outcome
build_type width base is_fifo sync_fifo is_split a1 b1 a2 b2 =
    add_widths width is_split a1 b1 a2 b2 (
      if is_fifo
      then (base ++ codes "_FIFO_") ++ (if sync_fifo then codes "SYNC_" else codes "ASYNC_")
      else base ++ codes "_BRAM_")

module _ (api : ConstApi) where
  open api use {Const, extract, as_bool, as_int}

  -- A selected cell: its type, and MODE_BITS if it has the parameter.
  pub record BramCell : Type 0 where
    pub type : List ℕ
    pub mode_bits : Option Const

  abbrev pub flag : Const → ℕ → Bool
  flag c offset = as_bool (extract c offset 1)

  abbrev pub mode : Const → ℕ → ℕ
  mode c offset = as_int (extract c offset 3)

  -- What the four passes share: the type and parameter test, and the tests on FMODE and SYNC_FIFO.
  unfoldable pub types_cell : List ℕ → (Const → Outcome) → BramCell → Outcome
  types_cell base configured cell =
      if same_text cell.type base
      then elim cell.mode_bits [
        | none ↦ unchanged
        | some c ↦
            if differ (flag c 13) (flag c 54)
            then unchanged
            else if differ (flag c 0) (flag c 41)
            then unchanged
            else configured c
      ]
      else unchanged

  -- The tests and the type name of the passes that check all four ports.
  unfoldable pub checked : (ℕ → Option ℕ) → List ℕ → Const → Outcome
  unfolding check_port
  checked width base c = check_port width (mode c 1) (mode c 7) (
      check_port width (mode c 4) (mode c 10) (
        check_port width (mode c 42) (mode c 48) (
          check_port width (mode c 45) (mode c 51) (
            build_type width base (flag c 13) (flag c 0) (flag c 80) (mode c 1) (mode c 4)
              (mode c 42) (mode c 45)))))

  -- ql_bram_types
  unfoldable pub ql_bram_types : BramCell → Outcome
  ql_bram_types = types_cell (codes "TDP36K") (checked width_for_mode (codes "TDP36K"))

  -- ql_sdp_bram_types
  unfoldable pub ql_sdp_bram_types : BramCell → Outcome
  ql_sdp_bram_types = types_cell (codes "SDP36K") (checked width_for_mode (codes "SDP36K"))

  -- ql_sdp_bramecc_types
  unfoldable pub ql_sdp_bramecc_types : BramCell → Outcome
  ql_sdp_bramecc_types =
      types_cell (codes "SDP_ECC36K") (checked ecc_width_for_mode (codes "SDP_ECC36K"))

  -- ql_bramecc_types checks no port, and names the A ports by their write modes, the B ports by
  -- their read modes.
  unfoldable pub ql_bramecc_types : BramCell → Outcome
  ql_bramecc_types = types_cell (codes "TDP_ECC36K") λ c.
      build_type ecc_width_for_mode (codes "TDP_ECC36K") (flag c 13) (flag c 0) (flag c 80)
        (mode c 7) (mode c 4) (mode c 48) (mode c 45)
