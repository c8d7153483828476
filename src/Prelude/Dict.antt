-- ===== src/Prelude/Dict.antt =====
-- The hashed containers: a dictionary as its entries and a pool as its elements, in the order in which
-- they are walked, the latest first.
use mathlib.Core.Path.{◌≡◌, refl, ap}
use mathlib.Core.Logic.{◌≢◌, inl, inr}
use mathlib.Core.Bool.{Bool, true, false, ◌&&◌, ◌||◌}
use mathlib.Core.Option.{Option, none, some}
use mathlib.Core.List.{List, [], ◌∷◌}
use native.Mathlib.Omega.{arith}
use yosys_f4pga_plugins.Prelude.Tests.{◌==◌, if◌then◌else◌, Bool-cases, Option-cases}
use yosys_f4pga_plugins.Prelude.Lists.{All, length}
use yosys_f4pga_plugins.Prelude.Equality.{Eq, beq_refl}

module _ {K : Type 0} ⦃eq : Eq K⦄ where
  pub beq_false : (a b : K) → a ≢ b → eq.beq a b ≡ false
  beq_false a b h = elim (Bool-cases (eq.beq a b)) [
    | inl e ↦ elim (h ((eq.beq_iff a b).0 e)) [ ]
    | inr e ↦ e
  ]

  unfoldable pub lookup : {A : Type 0} → K → List (K × A) → Option A
  lookup key [] = none
  lookup key ((k, a) ∷ m) = elim (eq.beq key k) [ true ↦ some a | false ↦ lookup key m ]

  -- An assignment to the key of an entry that is there.
  unfoldable pub replace : {A : Type 0} → K → A → List (K × A) → List (K × A)
  replace key a [] = []
  replace key a ((k, b) ∷ m) = elim (eq.beq key k) [
    | true ↦ (k, a) ∷ m
    | false ↦ (k, b) ∷ replace key a m
  ]

  unfoldable pub put : {A : Type 0} → K → A → List (K × A) → List (K × A)
  unfolding lookup replace
  put key a m = elim (lookup key m) [ none ↦ (key, a) ∷ m | some b ↦ replace key a m ]

  unfoldable pub member : K → List K → Bool
  member k [] = false
  member k (x ∷ xs) = eq.beq k x || member k xs

  unfoldable pub insert : K → List K → List K
  unfolding member
  insert k xs = if member k xs then xs else k ∷ xs

  unfoldable pub subset : List K → List K → Bool
  unfolding member
  subset [] ys = true
  subset (x ∷ xs) ys = member x ys && subset xs ys

  -- Two pools hold the same elements.
  unfoldable pub same_pool : List K → List K → Bool
  unfolding subset
  same_pool xs ys = length xs == length ys && (subset xs ys && subset ys xs)

  -- No element twice.
  unfoldable pub IsPool : List K → Type 0
  unfolding member
  IsPool [] = Unit
  IsPool (x ∷ xs) = (member x xs ≡ false) × IsPool xs

  lookup-replace_self :
      {A : Type 0} (key : K) (a b : A) (m : List (K × A))
      → lookup key m ≡ some b
      → lookup key (replace key a m) ≡ some a
  unfolding lookup replace
  lookup-replace_self key a b [] h = cc
  lookup-replace_self key a b ((k, c) ∷ m) h = elim (Bool-cases (eq.beq key k)) [
    | inl e ↦ rw (replace, e) (rw (lookup, e) refl)
    | inr e ↦ rw (replace, e) (rw (lookup, e) (lookup-replace_self key a b m (rw (lookup, e) at h)))
  ]

  lookup-replace_other :
      {A : Type 0} (key other : K) (a : A) (m : List (K × A))
      → eq.beq other key ≡ false
      → lookup other (replace key a m) ≡ lookup other m
  unfolding lookup replace
  lookup-replace_other key other a [] h = refl
  lookup-replace_other key other a ((k, c) ∷ m) h = elim (Bool-cases (eq.beq key k)) [
    | inl e ↦ rw (replace, e) (rw (lookup, passed e) refl)
    | inr e ↦
        rw (replace, e)
          (ap (λ l. elim (eq.beq other k) [ true ↦ some c | false ↦ l ])
            (lookup-replace_other key other a m h))
  ]
    where
      passed : eq.beq key k ≡ true → eq.beq other k ≡ false
      passed e = rw ((eq.beq_iff key k).0 e) at h

  pub lookup-put_self :
      {A : Type 0} (key : K) (a : A) (m : List (K × A)) → lookup key (put key a m) ≡ some a
  unfolding put lookup
  lookup-put_self key a m = elim (Option-cases (lookup key m)) [
    | inl e ↦ rw (put, e) (rw (lookup, beq_refl key) refl)
    | inr (b, e) ↦ rw (put, e) (lookup-replace_self key a b m e)
  ]

  pub lookup-put_other :
      {A : Type 0} (key other : K) (a : A) (m : List (K × A))
      → eq.beq other key ≡ false
      → lookup other (put key a m) ≡ lookup other m
  unfolding put lookup
  lookup-put_other key other a m h = elim (Option-cases (lookup key m)) [
    | inl e ↦ rw (put, e) (rw (lookup, h) refl)
    | inr (b, e) ↦ rw (put, e) (lookup-replace_other key other a m h)
  ]

  -- What holds of every entry and of the new value holds of every entry after an assignment.
  All-replace :
      {A : Type 0} (P : K → A → Type 0) (key : K) (a : A) (m : List (K × A))
      → P key a
      → All (λ (e : K × A). P e.0 e.1) m
      → All (λ (e : K × A). P e.0 e.1) (replace key a m)
  unfolding replace
  All-replace P key a [] p h = tt
  All-replace P key a ((k, b) ∷ m) p h = elim (Bool-cases (eq.beq key k)) [
    | inl e ↦ rw (replace, e) (rw (← (eq.beq_iff key k).0 e) p, h.1)
    | inr e ↦ rw (replace, e) (h.0, All-replace P key a m p h.1)
  ]

  pub All-put :
      {A : Type 0} (P : K → A → Type 0) (key : K) (a : A) (m : List (K × A))
      → P key a
      → All (λ (e : K × A). P e.0 e.1) m
      → All (λ (e : K × A). P e.0 e.1) (put key a m)
  unfolding put
  All-put P key a m p h = elim (Option-cases (lookup key m)) [
    | inl e ↦ rw (put, e) (p, h)
    | inr (b, e) ↦ rw (put, e) (All-replace P key a m p h)
  ]

  pub lookup-All :
      {A : Type 0} (P : K → A → Type 0) (key : K) (a : A) (m : List (K × A))
      → All (λ (e : K × A). P e.0 e.1) m
      → lookup key m ≡ some a
      → P key a
  unfolding lookup
  lookup-All P key a [] h e = elim (absent e) [ ]
    where
      absent : none ≡ some a → ⊥
      absent e = cc
  lookup-All P key a ((k, b) ∷ m) h e = elim (Bool-cases (eq.beq key k)) [
    | inl f ↦ rw ((eq.beq_iff key k).0 f) (rw (injective (rw (lookup, f) at e)) at h.0)
    | inr f ↦ lookup-All P key a m h.1 (rw (lookup, f) at e)
  ]
    where
      injective : {b : _} → some b ≡ some a → b ≡ a
      injective e = cc

  pub insert-IsPool : (k : K) (xs : List K) → IsPool xs → IsPool (insert k xs)
  unfolding insert IsPool
  insert-IsPool k xs h = elim (Bool-cases (member k xs)) [
    | inl e ↦ rw (insert, e) h
    | inr e ↦ rw (insert, e) (e, h)
  ]

  pub All-insert : (P : K → Type 0) (k : K) (xs : List K) → P k → All P xs → All P (insert k xs)
  unfolding insert
  All-insert P k xs p h = elim (Bool-cases (member k xs)) [
    | inl e ↦ rw (insert, e) h
    | inr e ↦ rw (insert, e) (p, h)
  ]

  pub member-All : (P : K → Type 0) (k : K) (xs : List K) → All P xs → member k xs ≡ true → P k
  unfolding member
  member-All P k [] h e = cc
  member-All P k (x ∷ xs) h e = elim (Bool-cases (eq.beq k x)) [
    | inl f ↦ rw ((eq.beq_iff k x).0 f) h.0
    | inr f ↦ member-All P k xs h.1 (rw f at e)
  ]

  pub subset-All : (P : K → Type 0) (xs ys : List K) → All P ys → subset xs ys ≡ true → All P xs
  unfolding subset
  subset-All P [] ys h e = tt
  subset-All P (x ∷ xs) ys h e =
      (member-All P x ys h (ground arith), subset-All P xs ys h (ground arith))

  pub same_pool-All :
      (P : K → Type 0) (xs ys : List K) → same_pool xs ys ≡ true → All P xs → All P ys
  unfolding same_pool
  same_pool-All P xs ys e h = subset-All P ys xs h (ground arith)

  -- The library's insertion, which keeps the value of a key that is there.
  unfoldable pub insert_new : {A : Type 0} → K → A → List (K × A) → List (K × A)
  unfolding lookup
  insert_new key a m = elim (lookup key m) [ none ↦ (key, a) ∷ m | some b ↦ m ]

  unfoldable pub within_dict : {A : Type 0} → (A → A → Bool) → List (K × A) → List (K × A) → Bool
  unfolding lookup
  within_dict same [] n = true
  within_dict same ((k, a) ∷ m) n =
      elim (lookup k n) [ none ↦ false | some b ↦ same a b ] && within_dict same m n

  -- Two dictionaries have the same entries, in whatever order.
  unfoldable pub same_dict : {A : Type 0} → (A → A → Bool) → List (K × A) → List (K × A) → Bool
  unfolding within_dict
  same_dict same m n = length m == length n && within_dict same m n
