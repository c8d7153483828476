-- ===== src/Iob/Locate/Nets.antt =====
-- The map of nets to constraints: when it is built, and what it holds.
use yosys_f4pga_plugins.Prelude.{
  ℕ, ◌≡◌, ◌≢◌, refl, sym, ap, ◌∙◌, false, none, some, Option-cases, List, [], ◌∷◌, ◌++◌, All, inl,
  inr,
}
use yosys_f4pga_plugins.Prelude.Text.{same_text}
use yosys_f4pga_plugins.Iob.Pinmap.{find}
use yosys_f4pga_plugins.Iob.Pcf.{Constraint}
use yosys_f4pga_plugins.Iob.Locate.{emplace, constraint_map}
use yosys_f4pga_plugins.Iob.Locate.Maps.{find-snoc-new, find-snoc-old, find-snoc-apart}

-- No two constraints are on one net.
unfoldable pub IsOnePerNet : List Constraint → Type 0
IsOnePerNet [] = Unit
IsOnePerNet (c ∷ cs) = All (λ d. same_text c.net_name d.net_name ≡ false) cs × IsOnePerNet cs

abbrev ConstraintMap : Type 0
ConstraintMap = List (List ℕ × Constraint)

-- The map that a run makes of constraints and of an earlier map.
record Built (cs : List Constraint) (before after : ConstraintMap) : Type 0 where
  holds : All (λ c. find c.net_name after ≡ some c) cs
  keeps : (key : List ℕ) (d : Constraint) → find key before ≡ some d → find key after ≡ some d
  fresh : All (λ c. find c.net_name before ≡ none) cs
  distinct : IsOnePerNet cs

emplace-new :
    (c : Constraint) (m : ConstraintMap)
    → find c.net_name m ≡ none
    → emplace c.net_name c m ≡ m ++ ((c.net_name, c) ∷ [])
unfolding emplace
emplace-new c m h = rw (emplace, h) refl

constraint_map-cons :
    (c : Constraint) (cs : List Constraint) (m : ConstraintMap)
    → find c.net_name m ≡ none
    → constraint_map (c ∷ cs) m ≡ constraint_map cs (m ++ ((c.net_name, c) ∷ []))
unfolding constraint_map
constraint_map-cons c cs m h = rw (constraint_map, h) (ap (constraint_map cs) (emplace-new c m h))

constraint_map-taken :
    (c d : Constraint) (cs : List Constraint) (m : ConstraintMap)
    → find c.net_name m ≡ some d
    → constraint_map (c ∷ cs) m ≡ none
unfolding constraint_map
constraint_map-taken c d cs m h = rw (constraint_map, h) refl

apart_of_fresh :
    (c : Constraint) (cs : List Constraint) (m : ConstraintMap)
    → All (λ d. find d.net_name (m ++ ((c.net_name, c) ∷ [])) ≡ none) cs
    → All (λ d. find d.net_name m ≡ none) cs × All (λ d. same_text c.net_name d.net_name ≡ false) cs
apart_of_fresh c [] m h = (tt, tt)
apart_of_fresh c (d ∷ cs) m h =
    let (f, s) = find-snoc-apart d.net_name c.net_name c m h.0 in
    let (fs, ss) = apart_of_fresh c cs m h.1 in ((f, fs), (s, ss))

constraint_map-Built :
    (cs : List Constraint) (before after : ConstraintMap)
    → constraint_map cs before ≡ some after
    → Built cs before after
unfolding constraint_map IsOnePerNet
constraint_map-Built [] before after h = record {
  holds = tt;
  keeps = λ key d k. ap (find key) (sym same) ∙ k;
  fresh = tt;
  distinct = tt;
}
  where
    same : before ≡ after
    same = cc
constraint_map-Built (c ∷ cs) before after h = elim (Option-cases (find c.net_name before)) [
  | inr (d, e) ↦ absurd (some_ne_none (sym h ∙ constraint_map-taken c d cs before e))
  | inl e ↦
      let b =
        constraint_map-Built cs (before ++ ((c.net_name, c) ∷ [])) after
          (sym (constraint_map-cons c cs before e) ∙ h) in
      let (fs, ss) = apart_of_fresh c cs before b.fresh in
      record {
        holds = (b.keeps c.net_name c (find-snoc-new c.net_name c before e), b.holds);
        keeps = λ key d k. b.keeps key d (find-snoc-old key c.net_name c d before k);
        fresh = (e, fs);
        distinct = (ss, b.distinct);
      }
]
  where
    some_ne_none : some after ≢ none
    some_ne_none q = cc

-- If the constraints are accepted, no two of them are on one net, and the map gives for the net of
-- each of them that constraint.
pub constraint_map-holds :
    (cs : List Constraint) (m : List (List ℕ × Constraint))
    → constraint_map cs [] ≡ some m
    → IsOnePerNet cs × All (λ c. find c.net_name m ≡ some c) cs
constraint_map-holds cs m h = let b = constraint_map-Built cs [] m h in (b.distinct, b.holds)
