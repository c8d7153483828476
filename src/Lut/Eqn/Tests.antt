-- ===== src/Lut/Eqn/Tests.antt =====
-- Runs of the printer, and its theorem at a concrete table.
use yosys_f4pga_plugins.Prelude.{ℕ, ◌≡◌, refl, Bool, true, some, [], ◌∷◌, arith, ◌==◌}
use yosys_f4pga_plugins.Prelude.Text.{codes}
use yosys_f4pga_plugins.Lut.Table.{lut_index}
use yosys_f4pga_plugins.Lut.Eqn.{
  init2eqn, operand_text, product_loop, drop_last, eqn_cells, eqn_cell, lut_inputs,
}
use yosys_f4pga_plugins.Lut.Eqn.Language.{eval_eqn}
use yosys_f4pga_plugins.Lut.Eqn.Value.{init2eqn-value, upto}

xor_text : init2eqn (codes "0110") 2 ≡ codes "(I0*~I1)+(~I0*I1)"
unfolding init2eqn operand_text product_loop drop_last
xor_text = refl

zero_text : init2eqn (codes "00") 1 ≡ codes "0"
unfolding init2eqn
zero_text = refl

abbrev values : ℕ → Bool
values j = j == 1

cells_run :
    eqn_cells
      (record { type = "LUT1"; init = codes "01"; eqn = [] }
        ∷ record { type = "AND"; init = []; eqn = [] }
        ∷ [])
      0
    ≡ (
      record { type = "LUT1"; init = codes "01"; eqn = codes "(~I0)" }
          ∷ record { type = "AND"; init = []; eqn = [] }
          ∷ [],
      1,
    )
unfolding eqn_cells eqn_cell lut_inputs init2eqn operand_text product_loop drop_last
cells_run = refl

-- I0 = 0 and I1 = 1: bit 2 of INIT = 0110
init2eqn-value_example : eval_eqn values (init2eqn (codes "0110") 2) ≡ some true
unfolding lut_index upto
init2eqn-value_example = init2eqn-value values 2 (codes "0110") (omega arith) (omega arith) refl
