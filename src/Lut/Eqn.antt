-- ===== src/Lut/Eqn.antt =====
-- ql-qlf-plugin/quicklogic_eqn.cc: the EQN parameter of LUT1 .. LUT5 cells.
--
-- Texts are lists of character codes. `init_bits` is `init.as_string()`, the most significant bit
-- first. `int width = (int)pow(2, inputs)` is at most 32 here and does not overflow.
pub mod Language
pub mod Meaning
pub mod Value
pub mod Tests
use Prim.Native.Nat.{bit_and}
use yosys_f4pga_plugins.Prelude.{
  ℕ, zero, suc, ◌+◌, ◌-◌, ◌^◌, Bool, not, List, [], ◌∷◌, ◌++◌, ◌==◌, if◌then◌else◌, get_or,
}
use yosys_f4pga_plugins.Prelude.Text.{String, codes, str_eq}

abbrev pub names : List (List ℕ)
names = codes "I0" ∷ codes "I1" ∷ codes "I2" ∷ codes "I3" ∷ codes "I4" ∷ []

-- One operand of a product: names[j], or "~" and names[j].
unfoldable pub operand_text : ℕ → ℕ → List ℕ
operand_text i j = if bit_and i (2 ^ j) == 0 then b'~' ∷ get_or names j [] else get_or names j []

-- The loop over j, with the rounds left.
unfoldable pub product_loop : ℕ → ℕ → ℕ → ℕ → List ℕ → List ℕ
product_loop inputs i zero j eqn = eqn
product_loop inputs i (suc n) j eqn =
    product_loop inputs i n (j + 1) (
      if j == inputs - 1 then eqn ++ operand_text i j else (eqn ++ operand_text i j) ++ (b'*' ∷ []))

-- The loop over i, with the rounds left.
unfoldable pub sum_loop : List ℕ → ℕ → ℕ → ℕ → List ℕ → List ℕ
sum_loop init_bits inputs zero i eqn = eqn
sum_loop init_bits inputs (suc n) i eqn = sum_loop init_bits inputs n (i + 1) (
    if get_or init_bits (2 ^ inputs - 1 - i) 0 == b'1'
    then product_loop inputs i inputs 0 (eqn ++ (b'(' ∷ [])) ++ (b')' ∷ b'+' ∷ [])
    else eqn)

-- eqn.substr(0, eqn.length() - 1)
unfoldable pub drop_last : List ℕ → List ℕ
drop_last [] = []
drop_last (c ∷ []) = []
drop_last (c ∷ d ∷ s) = c ∷ drop_last (d ∷ s)

-- if (eqn.empty()) return "0"
unfoldable pub or_zero : List ℕ → List ℕ
or_zero [] = codes "0"
or_zero (c ∷ s) = drop_last (c ∷ s)

unfoldable pub init2eqn : List ℕ → ℕ → List ℕ
unfolding or_zero sum_loop
init2eqn init_bits inputs = or_zero (sum_loop init_bits inputs (2 ^ inputs) 0 [])

-- A selected cell: its type, INIT and EQN.
pub record EqnCell : Type 0 where
  pub type : String
  pub init : List ℕ
  pub eqn : List ℕ

-- cell->type == ID(LUTn), one test after the other; no two of them hold.
unfoldable pub lut_inputs : String → ℕ
lut_inputs t =
    if str_eq t "LUT1"
    then 1
    else if str_eq t "LUT2"
    then 2
    else if str_eq t "LUT3"
    then 3
    else if str_eq t "LUT4"
    then 4
    else if str_eq t "LUT5"
    then 5
    else 0

unfoldable pub eqn_cell : EqnCell → EqnCell
eqn_cell c =
    if lut_inputs c.type == 0 then c else record c { eqn = init2eqn c.init (lut_inputs c.type) }

-- The cells of the selected modules, and cnt.
unfoldable pub eqn_cells : List EqnCell → ℕ → List EqnCell × ℕ
eqn_cells [] cnt = ([], cnt)
eqn_cells (c ∷ cells) cnt =
    let (rest, cnt') = eqn_cells cells (if lut_inputs c.type == 0 then cnt else cnt + 1) in
    (eqn_cell c ∷ rest, cnt')
