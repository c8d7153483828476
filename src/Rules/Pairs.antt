-- ===== src/Rules/Pairs.antt =====
-- Settings `name=value` are read as they are written.
use yosys_f4pga_plugins.Prelude.{
  ℕ, ◌≡◌, ◌≢◌, refl, true, none, some, List, [], ◌∷◌, ◌++◌, map, All, arith,
}
use yosys_f4pga_plugins.Prelude.Words.{Free}
use yosys_f4pga_plugins.Rules.{
  returned, is_blank, no_blank, last_equals, match_name_value, parse_name_value,
}

pub record IsSetting (p : List ℕ × List ℕ) : Type 0 where
  pub name : p.0 ≢ []
  pub value : p.1 ≢ []
  pub name_blanks : no_blank p.0 ≡ true
  pub value_blanks : no_blank p.1 ≡ true
  pub last : Free b'=' p.1

abbrev pub joined : List ℕ × List ℕ → List ℕ
joined (name, value) = name ++ (b'=' ∷ value)

last_equals-none : (s : List ℕ) → Free b'=' s → last_equals s ≡ none
unfolding last_equals
last_equals-none [] h = refl
last_equals-none (c ∷ s) h = rw (last_equals, last_equals-none s h.1) (ground (arith, h.0))

last_equals-joined :
    (name value : List ℕ)
    → value ≢ []
    → Free b'=' value
    → last_equals (joined (name, value)) ≡ some (name, value)
unfolding last_equals
last_equals-joined [] [] n h = elim (n refl) [ ]
last_equals-joined [] (c ∷ value) n h = rw (last_equals, last_equals-none (c ∷ value) h) refl
last_equals-joined (d ∷ name) value n h = rw (last_equals, last_equals-joined name value n h) refl

no_blank-joined :
    (name value : List ℕ)
    → no_blank name ≡ true
    → no_blank value ≡ true
    → no_blank (joined (name, value)) ≡ true
unfolding no_blank is_blank
no_blank-joined [] value h k = k
no_blank-joined (c ∷ name) value h k = ground (arith, no_blank-joined name value (ground arith) k)

match_name_value-joined : (p : List ℕ × List ℕ) → IsSetting p → match_name_value (joined p) ≡ some p
unfolding match_name_value
match_name_value-joined ([], value) h = elim (h.name refl) [ ]
match_name_value-joined (c ∷ name, value) h =
    rw (match_name_value, no_blank-joined (c ∷ name) value h.name_blanks h.value_blanks)
      (rw (last_equals-joined (c ∷ name) value h.value h.last) refl)

-- Settings whose names and values are not empty and hold no white space, and whose values hold no `=`,
-- each written as `name=value`, are read as those settings, in order.
pub parse_name_value-joined :
    (ps : List (List ℕ × List ℕ))
    → All IsSetting ps
    → parse_name_value (map joined ps) ≡ returned ps
unfolding parse_name_value
parse_name_value-joined [] h = refl
parse_name_value-joined (p ∷ ps) h =
    rw (parse_name_value, match_name_value-joined p h.0) (rw (parse_name_value-joined ps h.1) refl)
