-- ===== src/Sdc/Clocks/Tests.antt =====
-- The interfaces of the clocks at concrete wires and numbers: a wire is its attributes, a number is a
-- natural number, written as a row of 'x'.
use yosys_f4pga_plugins.Prelude.{
  ℕ, zero, suc, ◌*◌, ◌/◌, ◌⊎◌, IsIn, ◌≡◌, ◌≢◌, refl, ap, ◌∙◌, Bool, true, false, Option, none, some,
  List, [], ◌∷◌, ◌++◌, All, replicate, length, length-replicate, if◌then◌else◌, ◌==◌, arith,
}
use yosys_f4pga_plugins.Prelude.Ints.{pos, at_most}
use yosys_f4pga_plugins.Prelude.Text.{codes, same_text, same_text_iff}
use yosys_f4pga_plugins.Prelude.Words.{Free, split_on, split_on-append, split_on-Free}
use yosys_f4pga_plugins.Sdc.Clocks.{
  WireApi, FloatApi, propagated, add_clock, add_escaping, wire_name, period_of,
  update_abc9_delay_target, update_delay, get_clocks, insert_clock, is_clock, period_ps, min,
}
use yosys_f4pga_plugins.Sdc.Clocks.Reads.{ReadsAs, add_clock-ReadsAs}
use yosys_f4pga_plugins.Sdc.Clocks.Target.{
  IsHalfPeriod, IsMet, Distinct, update_abc9_delay_target-IsMet,
}

abbrev Store : Type 0
Store = List ℕ → Option (List ℕ)

abbrev is_some : Option (List ℕ) → Bool
is_some none = false
is_some (some v) = true

abbrev text_of : Option (List ℕ) → List ℕ
text_of none = []
text_of (some v) = v

abbrev if_filled : List ℕ → Option (List ℕ)
if_filled [] = none
if_filled (c ∷ v) = some (c ∷ v)

abbrev if_set : Bool → Option (List ℕ)
if_set true = some (b'1' ∷ [])
if_set false = none

abbrev write : List ℕ → Option (List ℕ) → Store → Store
write k v w = λ j. if same_text j k then v else w j

write_self : (k : List ℕ) (v : Option (List ℕ)) (w : Store) → write k v w k ≡ v
write_self k v w = rw ((same_text_iff k k).1 refl) refl

write_other :
    (j k : List ℕ) (v : Option (List ℕ)) (w : Store) → same_text j k ≡ false → write k v w j ≡ w j
write_other j k v w e = rw e refl

filled_is_some : (v : List ℕ) → v ≢ [] → is_some (if_filled v) ≡ true
filled_is_some [] h = absurd (h refl)
filled_is_some (c ∷ v) h = refl

filled_text : (v : List ℕ) → text_of (if_filled v) ≡ v
filled_text [] = refl
filled_text (c ∷ v) = refl

set_is_some : (b : Bool) → is_some (if_set b) ≡ b
set_is_some true = refl
set_is_some false = refl

abbrev wires : WireApi
wires = record {
  Wire = Store;
  name = λ w. codes "clk";
  port_input = λ w. false;
  set_string = λ k v w. write k (if_filled v) w;
  set_bool = λ k b w. write k (if_set b) w;
  has = λ k w. is_some (w k);
  get_string = λ k w. text_of (w k);
  get_bool = λ k w. is_some (w k);
  name-set_string = λ k v w. refl;
  name-set_bool = λ k b w. refl;
  set_string_self = λ k v w. (
    (λ h. ap is_some (write_self k (if_filled v) w) ∙ filled_is_some v h),
    ap text_of (write_self k (if_filled v) w) ∙ filled_text v,
  );
  set_bool_self = λ k b w. (
    ap is_some (write_self k (if_set b) w) ∙ set_is_some b,
    ap is_some (write_self k (if_set b) w) ∙ set_is_some b,
  );
  set_string_other = λ j k v w e. (
    ap is_some (write_other j k (if_filled v) w e),
    ap text_of (write_other j k (if_filled v) w e),
    ap is_some (write_other j k (if_filled v) w e),
  );
}

abbrev row : ℕ → List ℕ
row n = replicate (suc n) b'x'

abbrev read_row : List ℕ → Option ℕ
read_row [] = none
read_row (c ∷ s) = some (length s)

abbrev read_rows : List (List ℕ) → Option (ℕ × ℕ)
read_rows ((c ∷ a) ∷ (d ∷ b) ∷ []) = some (length a, length b)
read_rows _ = none

no_space_in_row : (n : ℕ) → Free b' ' (replicate n b'x')
no_space_in_row zero = tt
no_space_in_row (suc n) = ((λ e. omega arith), no_space_in_row n)

row_nonempty : (n : ℕ) → row n ≢ []
row_nonempty n e = cc

rows_read : (x y : ℕ) → read_rows (split_on b' ' (row x ++ (b' ' ∷ row y))) ≡ some (x, y)
rows_read x y =
    ap read_rows (split_on-append b' ' (row x) (row y) (no_space_in_row (suc x)))
    ∙ ap (λ r. read_rows (row x ∷ r)) (split_on-Free b' ' (row y) (no_space_in_row (suc y)))
    ∙ ap (λ n. some (n, blank_row_length y)) (row_length x)
    ∙ ap (λ n. some (x, n)) (row_length y)
  where
    blank_row_length : ℕ → ℕ
    blank_row_length n = length {A = ℕ} (replicate n b'x')

    row_length : (n : ℕ) → blank_row_length n ≡ n
    row_length n = length-replicate n b'x'

abbrev floats : FloatApi
floats = record {
  Float = ℕ;
  zero_float = 0;
  is_zero = λ n. n == 0;
  half = λ n. n;
  to_string = row;
  shown = row;
  stof = read_row;
  scan = λ s. read_rows (split_on b' ' s);
  Double = ℕ × ℕ;
  to_double = λ n. (n, 1);
  literal = λ n. (n, 1);
  times = λ x y. (x.0 * y.0, x.1 * y.1);
  over = λ x y. (x.0 * y.1, x.1 * y.0);
  to_int = λ x. some (pos (x.0 / x.1));
  rounded = λ n. n;
  to_string-nonempty = row_nonempty;
  stof-to_string = λ n. ap some (length-replicate n b'x');
  scan-to_string = rows_read;
}

abbrev bare : Store
bare k = none

add_clock-ReadsAs_example :
    ReadsAs wires floats
      (codes "sys")
      (wire_name wires floats bare)
      4
      0
      2
      true
      (add_clock wires floats (codes "sys") bare 4 0 2 propagated)
unfolding wire_name add_escaping
add_clock-ReadsAs_example =
    add_clock-ReadsAs wires floats (codes "sys") bare 4 0 2 propagated (λ e. cc) (λ e. cc)

abbrev clock : Store
clock =
    write (codes "CLOCK_SIGNAL") (some (codes "yes")) (write (codes "PERIOD") (some (row 4)) bare)

-- A period of 4 ns is 2000 ps for the mapping.
update_abc9_delay_target-IsMet_example :
    All (λ w. is_clock wires floats w ≡ true → IsMet wires floats (pos 2000) w) (clock ∷ [])
    × (at_most (pos 2000) (pos 2147483647) ≡ true)
    × ((pos 2000 ≡ pos 2147483647)
        ⊎ ((w : Store) × IsIn w (clock ∷ [])
            × (is_clock wires floats w ≡ true)
            × IsHalfPeriod wires floats w (pos 2000)))
unfolding update_abc9_delay_target update_delay get_clocks insert_clock period_of period_ps min
    at_most same_text Distinct
update_abc9_delay_target-IsMet_example =
    update_abc9_delay_target-IsMet wires floats (clock ∷ []) (pos 2147483647) (pos 2000) (tt, tt)
      refl
