-- ===== src/Rules/Load/Maps.antt =====
-- Every type that the lines of a file give is in the map, under its name.
use yosys_f4pga_plugins.Prelude.{
  ℕ, ◌≡◌, refl, Bool-cases, none, some, Option-cases, List, [], ◌∷◌, inl, inr, All,
}
use yosys_f4pga_plugins.Prelude.Equality.{Eq, beq_refl}
use yosys_f4pga_plugins.Prelude.Text.{text_eq, same_text, same_text_iff}
use yosys_f4pga_plugins.Prelude.Words.{split_on}
use yosys_f4pga_plugins.Prelude.Dict.{lookup, insert_new}
use yosys_f4pga_plugins.Rules.{
  Outcome, rejected, thrown, undefined, returned, ◌>>=◌, Kernel, FlopType, DspType, reversed,
}
use yosys_f4pga_plugins.Rules.Sections.{Loader}
use yosys_f4pga_plugins.Rules.Load.{load_lines, start, load_rules, to_map, Types}

>>=-returned :
    {A B : Type 0} (m : Outcome A) (f : A → Outcome B) (b : B)
    → (m >>= f) ≡ returned b
    → (a : A) × (m ≡ returned a) × (f a ≡ returned b)
>>=-returned rejected f b h = absurd (differs h)
  where
    differs : rejected ≡ returned b → ⊥
    differs h = cc
>>=-returned thrown f b h = absurd (differs h)
  where
    differs : thrown ≡ returned b → ⊥
    differs h = cc
>>=-returned undefined f b h = absurd (differs h)
  where
    differs : undefined ≡ returned b → ⊥
    differs h = cc
>>=-returned (returned a) f b h = (a, refl, h)

module _ {T : Type 0} (name : T → List ℕ) where
  lookup-insert_new :
      (key other : List ℕ) (t u : T) (m : List (List ℕ × T))
      → lookup key m ≡ none
      → lookup other m ≡ some u
      → lookup other (insert_new key t m) ≡ some u
  unfolding insert_new lookup
  lookup-insert_new key other t u m h e = elim (Bool-cases (same_text other key)) [
    | inl k ↦ absurd (differs (rw ((same_text_iff other key).0 k) at e))
    | inr k ↦ rw (insert_new, h) (rw (lookup, k) e)
  ]
    where
      differs : lookup key m ≡ some u → ⊥
      differs e = cc

  lookup-insert_new_self :
      (key : List ℕ) (t : T) (m : List (List ℕ × T))
      → lookup key m ≡ none
      → lookup key (insert_new key t m) ≡ some t
  unfolding insert_new lookup
  lookup-insert_new_self key t m h = rw (insert_new, h) (rw (lookup, beq_refl key) refl)

  to_map-keeps :
      (types : List T) (m m' : List (List ℕ × T)) (key : List ℕ) (u : T)
      → to_map name types m ≡ returned m'
      → lookup key m ≡ some u
      → lookup key m' ≡ some u
  unfolding to_map
  to_map-keeps [] m m' key u h e = rw (← injective h) e
    where
      injective : returned m ≡ returned m' → m ≡ m'
      injective h = cc
  to_map-keeps (t ∷ types) m m' key u h e = elim (Option-cases (lookup (name t) m)) [
    | inl k ↦
        to_map-keeps types _ m' key u (rw (to_map, k) at h)
          (lookup-insert_new (name t) key t u m k e)
    | inr (v, k) ↦ absurd (cc (rw (to_map, k) at h))
  ]

  to_map-holds :
      (types : List T) (m m' : List (List ℕ × T))
      → to_map name types m ≡ returned m'
      → All (λ t. lookup (name t) m' ≡ some t) types
  unfolding to_map
  to_map-holds [] m m' h = tt
  to_map-holds (t ∷ types) m m' h = elim (Option-cases (lookup (name t) m)) [
    | inl k ↦ (
      to_map-keeps types _ m' (name t) t (rw (to_map, k) at h)
          (lookup-insert_new_self (name t) t m k),
      to_map-holds types _ m' (rw (to_map, k) at h),
    )
    | inr (v, k) ↦ absurd (cc (rw (to_map, k) at h))
  ]

-- If a rules file is read, its lines give DSP types and flip-flop types, and each of them is what the
-- maps then have under its name.
pub load_rules-holds :
    {C : Type 0} ⦃e : Eq C⦄ (kernel : Kernel C) (content : List ℕ) (types types' : Types C)
    → load_rules kernel (some content) types ≡ returned types'
    → (s : Loader C) × (load_lines kernel (split_on b'\n' content) (start kernel) ≡ returned s)
      × All (λ (t : DspType C). lookup t.name types'.0 ≡ some t) (reversed s.dsp_types [])
      × All (λ (t : FlopType C). lookup t.name types'.1 ≡ some t) (reversed s.flop_types [])
unfolding load_rules
load_rules-holds {C = C} kernel content types types' h =
    let (s, e1, h1) =
      >>=-returned (load_lines kernel (split_on b'\n' content) (start kernel)) _ types' h in
    let (dsps, e2, h2) =
      >>=-returned (to_map (λ (t : DspType C). t.name) (reversed s.dsp_types []) types.0) _ types'
        h1 in
    let (flops, e3, h3) =
      >>=-returned (to_map (λ (t : FlopType C). t.name) (reversed s.flop_types []) types.1) _ types'
        h2 in
    (
      s,
      e1,
      rw (← first (dsps, flops) h3) (to_map-holds (λ (t : DspType C). t.name) _ types.0 dsps e2),
      rw (← second (dsps, flops) h3) (to_map-holds (λ (t : FlopType C). t.name) _ types.1 flops e3),
    )
  where
    first : (d : Types C) → returned d ≡ returned types' → d.0 ≡ types'.0
    first d h = cc

    second : (d : Types C) → returned d ≡ returned types' → d.1 ≡ types'.1
    second d h = cc
