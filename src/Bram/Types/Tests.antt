-- ===== src/Bram/Types/Tests.antt =====
-- Names of sample blocks, and the theorems at concrete configurations.
use yosys_f4pga_plugins.Prelude.{
  ℕ, zero, suc, ◌+◌, ◌*◌, ◌^◌, ◌<◌, ◌≡◌, ◌≢◌, refl, Bool, true, false, some, inl, List, [], ◌∷◌,
  ◌++◌, arith, replicate, if◌then◌else◌,
}
use native.Mathlib.Nat.{one-le-pow, pow-suc}
use yosys_f4pga_plugins.Prelude.Text.{codes, same_text, decimal}
use yosys_f4pga_plugins.Bram.Types.{
  ConstApi, BramCell, failed, retyped, add_width, add_widths, build_type, check_port,
  width_for_mode, ecc_width_for_mode, mode, types_cell, checked, ql_bram_types, ql_bramecc_types,
  ql_sdp_bramecc_types,
}
use yosys_f4pga_plugins.Bram.Types.Passes.{Says, checked-Says, ql_bramecc_types-Says}
use yosys_f4pga_plugins.Bram.Types.Errors.{ecc_types-ne-failed, ql_bram_types-warning_fails}

-- A constant as its bits, the lowest first; a read beyond the end is padded with zeros.
take_bits : ℕ → List Bool → List Bool
take_bits zero s = []
take_bits (suc n) [] = []
take_bits (suc n) (b ∷ s) = b ∷ take_bits n s

drop_bits : ℕ → List Bool → List Bool
drop_bits zero s = s
drop_bits (suc n) [] = []
drop_bits (suc n) (b ∷ s) = drop_bits n s

number : List Bool → ℕ
number [] = 0
number (b ∷ s) = (if b then 1 else 0) + 2 * number s

any_bit : List Bool → Bool
any_bit [] = false
any_bit (b ∷ s) = if b then true else any_bit s

number-lt : (n : ℕ) (s : List Bool) → number (take_bits n s) < 2 ^ n
unfolding number take_bits
number-lt zero s = omega arith
number-lt (suc n) [] = ground (arith, one-le-pow (suc n) 2)
number-lt (suc n) (b ∷ s) = ground (arith, pow-suc 2 n, number-lt n s)

abbrev bits : ConstApi
bits = record {
  Const = List Bool;
  extract = λ c offset len. take_bits len (drop_bits offset c);
  as_bool = any_bit;
  as_int = number;
  as_int-extract-lt = λ c offset len. number-lt len (drop_bits offset c);
}

-- Mode 1 on the ports A1 and B1 and mode 2 on A2 and B2, as RAM, not split.
abbrev ports1 : List Bool
ports1 =
    false ∷ true ∷ false ∷ false ∷ true ∷ false ∷ false ∷ true ∷ false ∷ false ∷ true ∷ false
    ∷ false ∷ []

abbrev ports2 : List Bool
ports2 =
    false ∷ false ∷ true ∷ false ∷ false ∷ true ∷ false ∷ false ∷ true ∷ false ∷ false ∷ true
    ∷ false ∷ []

abbrev configuration : List Bool
configuration = ports1 ++ (replicate 28 false ++ (ports2 ++ replicate 27 false))

abbrev block : List ℕ → BramCell bits
block type = record { type = type; mode_bits = some configuration }

tdp_name :
    ql_bram_types bits (block (codes "TDP36K")) ≡ retyped (codes "TDP36K_BRAM_A_X9_B_X9_nonsplit")
unfolding ql_bram_types types_cell checked check_port build_type add_widths add_width width_for_mode
    same_text decimal any_bit take_bits drop_bits number
tdp_name = refl

ecc_name :
    ql_bramecc_types bits (block (codes "TDP_ECC36K"))
    ≡ retyped (codes "TDP_ECC36K_BRAM_A_X9_B_X9_nonsplit")
unfolding ql_bramecc_types types_cell build_type add_widths add_width ecc_width_for_mode same_text
    decimal any_bit take_bits drop_bits number
ecc_name = refl

checked-Says_example :
    (c : List Bool) × (some configuration ≡ some c)
    × (mode bits c 1 ≡ mode bits c 7)
    × (mode bits c 4 ≡ mode bits c 10)
    × (mode bits c 42 ≡ mode bits c 48)
    × (mode bits c 45 ≡ mode bits c 51)
    × Says bits width_for_mode
        (codes "TDP36K")
        (block (codes "TDP36K"))
        (codes "TDP36K_BRAM_A_X9_B_X9_nonsplit")
        c
        (mode bits c 1)
        (mode bits c 4)
        (mode bits c 42)
        (mode bits c 45)
unfolding ql_bram_types
checked-Says_example =
    checked-Says bits width_for_mode (codes "TDP36K") (block (codes "TDP36K"))
      (codes "TDP36K_BRAM_A_X9_B_X9_nonsplit") tdp_name

ql_bramecc_types-Says_example :
    (c : List Bool) × (some configuration ≡ some c)
    × Says bits ecc_width_for_mode
        (codes "TDP_ECC36K")
        (block (codes "TDP_ECC36K"))
        (codes "TDP_ECC36K_BRAM_A_X9_B_X9_nonsplit")
        c
        (mode bits c 7)
        (mode bits c 4)
        (mode bits c 48)
        (mode bits c 45)
ql_bramecc_types-Says_example =
    ql_bramecc_types-Says bits (block (codes "TDP_ECC36K"))
      (codes "TDP_ECC36K_BRAM_A_X9_B_X9_nonsplit") ecc_name

ecc_types-ne-failed_example :
    (ql_bramecc_types bits (block (codes "TDP_ECC36K")) ≢ failed)
    × (ql_sdp_bramecc_types bits (block (codes "TDP_ECC36K")) ≢ failed)
ecc_types-ne-failed_example = ecc_types-ne-failed bits (block (codes "TDP_ECC36K"))

-- Only the write mode of port A1 is set.
abbrev write_only : List Bool
write_only = replicate 7 false ++ (true ∷ [])

ql_bram_types-warning_fails_example :
    ql_bram_types bits (record { type = codes "TDP36K"; mode_bits = some write_only }) ≡ failed
unfolding any_bit take_bits drop_bits number
ql_bram_types-warning_fails_example =
    ql_bram_types-warning_fails bits (record { type = codes "TDP36K"; mode_bits = some write_only })
      write_only refl refl refl refl (omega arith) (inl refl)
