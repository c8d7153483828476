-- ===== src/Lut/Eqn/Language.antt =====
-- The equations as a reader sees them, with no reference to the code that prints them: "0", or a sum
-- of products in parentheses, whose operands are I0, I1, ... or their negations.
use mathlib.Core.Option.{some-injective}
use yosys_f4pga_plugins.Prelude.{
  ℕ, ◌-◌, ◌≡◌, refl, ap, ◌∙◌, inl, inr, arith, Option-cases, Bool, true, false, not, ◌&&◌, ◌||◌,
  Option, none, some, List, [], ◌∷◌, ◌++◌, ◌==◌, leb, if◌then◌else◌,
}

-- What has been read: the sum so far, the product so far, a pending negation.
pub data Reader : Type 0 where
  start : Bool → Reader
  operand : Bool → Bool → Reader
  name : Bool → Bool → Bool → Reader
  digit : Bool → Bool → Bool → Reader
  after : Bool → Bool → Reader
  closed : Bool → Reader

abbrev pub negate : Bool → Bool → Bool
negate true b = not b
negate false b = b

-- One character; `none` is a syntax error. `v j` is the value of Ij.
unfoldable pub read : (ℕ → Bool) → ℕ → Reader → Option Reader
read v c (start sum) = if c == b'(' then some (operand sum true) else none
read v c (operand sum prod) =
    if c == b'~'
    then some (name true sum prod)
    else if c == b'I'
    then some (digit false sum prod)
    else none
read v c (name neg sum prod) = if c == b'I' then some (digit neg sum prod) else none
read v c (digit neg sum prod) =
    if leb b'0' c && leb c b'9' then some (after sum (prod && negate neg (v (c - b'0')))) else none
read v c (after sum prod) =
    if c == b'*'
    then some (operand sum prod)
    else if c == b')'
    then some (closed (sum || prod))
    else none
read v c (closed sum) = if c == b'+' then some (start sum) else none

unfoldable pub read_all : (ℕ → Bool) → List ℕ → Reader → Option Reader
read_all v [] r = some r
read_all v (c ∷ s) r = elim (read v c r) [ none ↦ none | some r' ↦ read_all v s r' ]

-- The value of a whole equation; `none` if it is not one.
abbrev value_of : Option Reader → Option Bool
value_of none = none
value_of (some (closed sum)) = some sum
value_of (some (start sum)) = none
value_of (some (operand sum prod)) = none
value_of (some (name neg sum prod)) = none
value_of (some (digit neg sum prod)) = none
value_of (some (after sum prod)) = none

unfoldable pub eval_sum : (ℕ → Bool) → List ℕ → Option Bool
unfolding read_all read
eval_sum v s = value_of (read_all v s (start false))

unfoldable pub eval_eqn : (ℕ → Bool) → List ℕ → Option Bool
unfolding eval_sum
eval_eqn v (c ∷ []) = if c == b'0' then some false else none
eval_eqn v s = eval_sum v s

pub read_all-append :
    (v : ℕ → Bool) (s t : List ℕ) (r q : Reader)
    → read_all v s r ≡ some q
    → read_all v (s ++ t) r ≡ read_all v t q
unfolding read_all
read_all-append v [] t r q h = ap (read_all v t) (some-injective r q h)
read_all-append v (c ∷ s) t r q h = elim (Option-cases (read v c r)) [
  | inl e ↦ cc
  | inr (r', e) ↦ rw (e, read_all) (read_all-append v s t r' q (ground arith))
]

-- Reading one text and then another.
pub read_all-then :
    (v : ℕ → Bool) (s t : List ℕ) (r q p : Reader)
    → read_all v s r ≡ some q
    → read_all v t q ≡ some p
    → read_all v (s ++ t) r ≡ some p
read_all-then v s t r q p h k = read_all-append v s t r q h ∙ k

pub read_star :
    (v : ℕ → Bool) (sum prod : Bool)
    → read_all v (b'*' ∷ []) (after sum prod) ≡ some (operand sum prod)
unfolding read_all read
read_star v sum prod = refl
