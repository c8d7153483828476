-- ===== src/Prelude/Options.antt =====
-- Steps that can fail, one after the other.
use mathlib.Core.Path.{◌≡◌, refl}
use mathlib.Core.Bool.{Bool, true, false}
use mathlib.Core.Option.{Option, none, some}

infixl 5 ◌>>=◌
abbrev pub ◌>>=◌ {ℓ κ} : {A : Type ℓ} {B : Type κ} → Option A → (A → Option B) → Option B
none >>= f = none
some a >>= f = f a

infixl 5 ◌>>◌
abbrev pub ◌>>◌ {ℓ κ} : {A : Type ℓ} {B : Type κ} → Option A → Option B → Option B
none >> k = none
some a >> k = k

-- An assertion.
abbrev pub check : Bool → Option (Unit {0})
check true = some tt
check false = none

-- What returned, returned at each step.
pub >>=_some {ℓ κ} :
    {A : Type ℓ} {B : Type κ} (o : Option A) (f : A → Option B) (b : B)
    → (o >>= f) ≡ some b
    → (a : A) × (o ≡ some a) × (f a ≡ some b)
>>=_some none f b h = elim (none≢some h) [ ]
  where
    none≢some : none ≡ some b → ⊥
    none≢some h = cc
>>=_some (some a) f b h = (a, refl, h)

pub >>_some {ℓ κ} :
    {A : Type ℓ} {B : Type κ} (o : Option A) (k : Option B) (b : B)
    → (o >> k) ≡ some b
    → (a : A) × (o ≡ some a) × (k ≡ some b)
>>_some none k b h = elim (none≢some h) [ ]
  where
    none≢some : none ≡ some b → ⊥
    none≢some h = cc
>>_some (some a) k b h = (a, refl, h)

pub check-true : (t : Bool) (u : Unit {0}) → check t ≡ some u → t ≡ true
check-true true u h = refl
check-true false u h = cc
