-- ===== src/Bram/Types/Errors.antt =====
-- When the passes that name RAM blocks end the run with an error.
use yosys_f4pga_plugins.Prelude.{
  ≢→==false, ℕ, zero, suc, ◌<◌, ◌≡◌, ◌≢◌, ◌⊎◌, refl, ◌∙◌, Bool, true, false, some, inl, inr, List,
  arith, Option-cases,
}
use yosys_f4pga_plugins.Prelude.Text.{codes, same_text_iff}
use yosys_f4pga_plugins.Bram.Types.{
  ConstApi, BramCell, Outcome, failed, add_width, add_widths, build_type, warn_widths, check_port,
  width_for_mode, ecc_width_for_mode, flag, mode, types_cell, checked, ql_bram_types,
  ql_sdp_bramecc_types, ql_bramecc_types,
}

-- The table of the passes with error correction knows all eight modes.
ecc_width_total : (m : ℕ) → m < 8 → (w : ℕ) × (ecc_width_for_mode m ≡ some w)
unfolding ecc_width_for_mode
ecc_width_total zero h = (1800, refl)
ecc_width_total (suc zero) h = (9, refl)
ecc_width_total (suc (suc zero)) h = (18, refl)
ecc_width_total (suc (suc (suc zero))) h = (36, refl)
ecc_width_total (suc (suc (suc (suc zero)))) h = (4, refl)
ecc_width_total (suc (suc (suc (suc (suc zero))))) h = (1, refl)
ecc_width_total (suc (suc (suc (suc (suc (suc zero)))))) h = (2, refl)
ecc_width_total (suc (suc (suc (suc (suc (suc (suc zero))))))) h = (3600, refl)
ecc_width_total (suc (suc (suc (suc (suc (suc (suc (suc m)))))))) h = absurd (omega arith)

add_widths-ne-failed :
    (is_split : Bool) (a1 b1 a2 b2 : ℕ) (type : List ℕ)
    → a1 < 8
    → b1 < 8
    → a2 < 8
    → b2 < 8
    → add_widths ecc_width_for_mode is_split a1 b1 a2 b2 type ≢ failed
unfolding add_widths add_width
add_widths-ne-failed true a1 b1 a2 b2 type p q r s =
    ground (arith, ecc_width_total a1, ecc_width_total b1, ecc_width_total a2, ecc_width_total b2)
add_widths-ne-failed false a1 b1 a2 b2 type p q r s =
    ground (arith, ecc_width_total a1, ecc_width_total b1)

warn_widths-ne-failed : (r w : ℕ) → r < 8 → w < 8 → warn_widths ecc_width_for_mode r w ≢ failed
unfolding warn_widths
warn_widths-ne-failed r w p q = ground (arith, ecc_width_total r, ecc_width_total w)

warn_widths-zero : (r w : ℕ) → (r ≡ 0) ⊎ (w ≡ 0) → warn_widths width_for_mode r w ≡ failed
unfolding warn_widths width_for_mode
warn_widths-zero r w (inl e) = rw e refl
warn_widths-zero r w (inr e) =
    rw e
      (elim (Option-cases (width_for_mode r)) [ inl q ↦ ground arith | inr (a, q) ↦ ground arith ])

module _ (api : ConstApi) where
  open api use {Const, as_int-extract-lt}

  types_cell-failed :
      (base : List ℕ) (configured : Const → Outcome) (cell : BramCell api)
      → types_cell api base configured cell ≡ failed
      → (c : Const) × (configured c ≡ failed)
  unfolding types_cell
  types_cell-failed base configured cell h = elim (Option-cases cell.mode_bits) [
    | inl e ↦ absurd (ground arith)
    | inr (c, e) ↦ (c, ground arith)
  ]

  types_cell-configured :
      (base : List ℕ) (configured : Const → Outcome) (cell : BramCell api) (c : Const)
      → cell.type ≡ base
      → cell.mode_bits ≡ some c
      → flag api c 13 ≡ flag api c 54
      → flag api c 0 ≡ flag api c 41
      → types_cell api base configured cell ≡ configured c
  unfolding types_cell
  types_cell-configured base configured cell c ty mb fm sf =
      ground (arith, same_text_iff cell.type base)

  build_type-ne-failed :
      (base : List ℕ) (c : Const) (i j k l : ℕ)
      → build_type ecc_width_for_mode base
          (flag api c 13)
          (flag api c 0)
          (flag api c 80)
          (mode api c i)
          (mode api c j)
          (mode api c k)
          (mode api c l)
        ≢ failed
  unfolding build_type
  build_type-ne-failed base c i j k l =
      add_widths-ne-failed (flag api c 80) _ _ _ _ _ (as_int-extract-lt c i 3)
        (as_int-extract-lt c j 3) (as_int-extract-lt c k 3) (as_int-extract-lt c l 3)

  check_port-ne-failed :
      (c : Const) (i j : ℕ) (rest : Outcome)
      → rest ≢ failed
      → check_port ecc_width_for_mode (mode api c i) (mode api c j) rest ≢ failed
  unfolding check_port
  check_port-ne-failed c i j rest ok = ground (
    arith,
    warn_widths-ne-failed (mode api c i) (mode api c j) (as_int-extract-lt c i 3)
        (as_int-extract-lt c j 3),
  )

  checked-ne-failed : (base : List ℕ) (c : Const) → checked api ecc_width_for_mode base c ≢ failed
  unfolding checked
  checked-ne-failed base c = check_port-ne-failed c 1 7 _ (
      check_port-ne-failed c 4 10 _ (
        check_port-ne-failed c 42 48 _
          (check_port-ne-failed c 45 51 _ (build_type-ne-failed base c 1 4 42 45))))

  -- The passes for blocks with error correction never end the run: whatever MODE_BITS is, the cell is
  -- left alone or gets a new type.
  pub ecc_types-ne-failed :
      (cell : BramCell api)
      → (ql_bramecc_types api cell ≢ failed) × (ql_sdp_bramecc_types api cell ≢ failed)
  unfolding ql_bramecc_types ql_sdp_bramecc_types
  ecc_types-ne-failed cell = (
    λ h.
        let (c, k) = types_cell-failed (codes "TDP_ECC36K") _ cell h in
        build_type-ne-failed (codes "TDP_ECC36K") c 7 4 48 45 k,
    λ h.
        let (c, k) = types_cell-failed (codes "SDP_ECC36K") _ cell h in
        checked-ne-failed (codes "SDP_ECC36K") c k,
  )

  pub ql_bram_types-warning_fails :
      (cell : BramCell api) (c : Const)
      → cell.type ≡ codes "TDP36K"
      → cell.mode_bits ≡ some c
      → flag api c 13 ≡ flag api c 54
      → flag api c 0 ≡ flag api c 41
      → mode api c 1 ≢ mode api c 7
      → (mode api c 1 ≡ 0) ⊎ (mode api c 7 ≡ 0)
      → ql_bram_types api cell ≡ failed
  unfolding ql_bram_types checked check_port
  ql_bram_types-warning_fails cell c ty mb fm sf ne bad =
      types_cell-configured (codes "TDP36K") _ cell c ty mb fm sf
      ∙ rw (≢→==false (mode api c 1) (mode api c 7) ne) (warn_widths-zero _ _ bad)
