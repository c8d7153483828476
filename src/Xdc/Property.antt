-- ===== src/Xdc/Property.antt =====
-- xdc-plugin/xdc.cc: the options and dictionaries of `set_property`, and its INTERNAL_VREF.
use yosys_f4pga_plugins.Prelude.{
  ℕ, zero, suc, Bool, true, false, ◌||◌, Option, none, some, List, [], ◌∷◌, ◌++◌, ◌==◌,
  if◌then◌else◌,
}
use yosys_f4pga_plugins.Prelude.Text.{codes, decimal, same_text, text_eq}
use yosys_f4pga_plugins.Prelude.Words.{words}
use yosys_f4pga_plugins.Prelude.Options.{◌>>=◌, ◌>>◌, check}
use yosys_f4pga_plugins.Prelude.Dict.{put, member}
use yosys_f4pga_plugins.Xdc.{Cell, Module, trim, io_loc_pairs, process_port_parameter}

-- The tokens of a dictionary, two by two; `none` for an odd number.
unfoldable pub pairs_of : List (List ℕ) → Option (List (List ℕ × List ℕ))
pairs_of [] = some []
pairs_of (t ∷ []) = none
pairs_of (t ∷ t' ∷ tokens) = do pairs ← pairs_of tokens; some ((t, t') ∷ pairs)

-- The parameters of a bank cell.
pub record Bank : Type 0 where
  pub number : ℕ
  pub internal_vref : ℕ

pub record State : Type 0 where
  pub cells : List Cell
  pub banks : List (List ℕ × Bank)

-- `atoi`, whose negative results are `none`; a thousand times what `atof` reads, as an int, where what is
-- negative may be any number but a voltage; and the banks of the part.
pub record Banks : Type 0 where
  pub atoi : List ℕ → Option ℕ
  pub millivolts : List ℕ → ℕ
  pub is_bank : ℕ → Bool

unfoldable pub is_voltage : ℕ → Bool
is_voltage v = v == 600 || (v == 675 || (v == 750 || v == 900))

-- The first characters of a text, as many as fit.
unfoldable pub fitting : ℕ → List ℕ → List ℕ
fitting zero s = []
fitting (suc n) [] = []
fitting (suc n) (c ∷ s) = c ∷ fitting n s

-- snprintf to 16 characters, without the escape in front and the end of the text.
unfoldable pub bank_cell_name : ℕ → List ℕ
unfolding fitting decimal
bank_cell_name iobank = fitting 14 (codes "bank_cell_" ++ decimal iobank)

-- A bank's cell, new or not, gets its parameters.
unfoldable pub put_bank : ℕ → ℕ → State → State
unfolding bank_cell_name put
put_bank iobank vref s = record s {
  banks = put (bank_cell_name iobank) (record { number = iobank; internal_vref = vref }) s.banks;
}

module _ (scan : List ℕ → List ℕ × Option ℕ) (top : Module) where
  -- What is left of the design after process_port_parameter.
  unfoldable pub port_property : List (List ℕ) → State → Option State
  unfolding process_port_parameter
  port_property args s = do
    cells' ← process_port_parameter scan top args s.cells
    some (record s { cells = cells' })

  module _ (env : Banks) where
    -- process_vref, where the voltage and the bank are known.
    unfoldable pub process_vref : List (List ℕ) → State → Option State
    unfolding is_voltage put_bank
    process_vref (value ∷ bank ∷ rest) s = do
      iobank ← env.atoi bank
      check (env.is_bank iobank)
      (if is_voltage (env.millivolts value)
          then some (put_bank iobank (env.millivolts value) s)
          else some s)
    process_vref _ s = none

    -- A warning is given for an option that is not known.
    unfoldable pub read_property : List (List ℕ) → State → Option State
    unfolding port_property process_vref member same_text
    read_property [] s = none
    read_property (option ∷ args) s =
        if same_text option (codes "INTERNAL_VREF")
        then process_vref args s
        else if member option
            (codes "IOSTANDARD" ∷ codes "SLEW" ∷ codes "DRIVE" ∷ codes "IN_TERM" ∷ [])
        then port_property (option ∷ args) s
        else if member option (codes "LOC" ∷ codes "PACKAGE_PIN" ∷ [])
        then elim args [
          | pad ∷ port ∷ rest ↦
              port_property (io_loc_pairs ∷ (port ++ (b':' ∷ pad)) ∷ port ∷ rest) s
          | _ ↦ none
        ]
        else some s

    unfoldable pub read_pairs : List (List ℕ × List ℕ) → List (List ℕ) → State → Option State
    unfolding read_property
    read_pairs [] args s = some s
    read_pairs ((property, value) ∷ pairs) args s =
        read_property (property ∷ value ∷ args) s >>= λ s'. read_pairs pairs args s'

    -- The words behind `set_property`.
    unfoldable pub execute : List (List ℕ) → State → Option State
    unfolding read_property read_pairs pairs_of trim words same_text
    execute [] s = none
    execute (option ∷ args) s = elim (same_text option (codes "-dict")) [
      | false ↦ read_property (option ∷ args) s
      | true ↦ elim args [
        | [] ↦ none
        | dict ∷ rest ↦ pairs_of (words (trim dict)) >>= λ pairs. read_pairs pairs rest s
      ]
    ]
