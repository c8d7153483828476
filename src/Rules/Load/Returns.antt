-- ===== src/Rules/Load/Returns.antt =====
-- The readers of words never meet an undefined case.
use yosys_f4pga_plugins.Prelude.{
  ℕ, Bool-cases, Option, some, Option-cases, List, [], ◌∷◌, inl, inr, ltb, ◌^◌, if◌then◌else◌,
}
use yosys_f4pga_plugins.Rules.{
  Outcome, rejected, thrown, undefined, returned, ◌>>=◌, parse_name_value, match_name_value,
  parse_port_name, match_port, stoi, number_of,
}

-- What returns has the property, and nothing is undefined.
unfoldable pub Holds : {A : Type 0} → (A → Type 0) → Outcome A → Type 0
Holds P rejected = Unit
Holds P thrown = Unit
Holds P undefined = ⊥
Holds P (returned a) = P a

pub >>=-Holds :
    {A B : Type 0} (P : A → Type 0) (Q : B → Type 0) (m : Outcome A) (f : A → Outcome B)
    → Holds P m
    → ((a : A) → P a → Holds Q (f a))
    → Holds Q (m >>= f)
unfolding Holds
>>=-Holds P Q rejected f h k = tt
>>=-Holds P Q thrown f h k = tt
>>=-Holds P Q undefined f h k = h
>>=-Holds P Q (returned a) f h k = k a h

abbrev pub Always : {A : Type 0} → A → Type 0
Always a = Unit

pub parse_name_value-Holds : (strs : List (List ℕ)) → Holds Always (parse_name_value strs)
unfolding parse_name_value Holds
parse_name_value-Holds [] = tt
parse_name_value-Holds (s ∷ strs) = elim (Option-cases (match_name_value s)) [
  | inl e ↦ rw (parse_name_value, e) tt
  | inr (pair, e) ↦
      rw (parse_name_value, e)
        (>>=-Holds Always Always (parse_name_value strs) _ (parse_name_value-Holds strs)
          (λ a h. tt))
]

stoi-Holds : (ds : List ℕ) → Holds Always (stoi ds)
unfolding stoi Holds
stoi-Holds ds = elim (Bool-cases (ltb (number_of ds) (2 ^ 31))) [
  | inl e ↦ rw (stoi, e) tt
  | inr e ↦ rw (stoi, e) tt
]

pub parse_port_name-Holds : (s : List ℕ) → Holds Always (parse_port_name s)
unfolding parse_port_name Holds
parse_port_name-Holds s = elim (Option-cases (match_port s)) [
  | inl e ↦ rw (parse_port_name, e) tt
  | inr ((name, high, low), e) ↦
      rw (parse_port_name, e)
        (>>=-Holds Always Always (stoi high) _ (stoi-Holds high)
          λ hi h. >>=-Holds Always Always (stoi low) _ (stoi-Holds low) λ lo k. ends name hi lo)
]
  where
    ends :
        (name : List ℕ) (hi lo : ℕ)
        → Holds {A = List ℕ × Option (ℕ × ℕ)} Always
            (if ltb hi lo then rejected else returned (name, some (lo, hi)))
    ends name hi lo = elim (Bool-cases (ltb hi lo)) [ inl e ↦ rw e tt | inr e ↦ rw e tt ]
