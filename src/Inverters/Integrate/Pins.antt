-- ===== src/Inverters/Integrate/Pins.antt =====
-- The level that a pin of a cell sees, and one pin that is rewired.
use mathlib.Core.Path.{subst}
use yosys_f4pga_plugins.Prelude.{
  ℕ, ◌≡◌, ◌≢◌, refl, sym, ap, ◌∙◌, Bool, true, false, not, Bool-cases, Option, none, some,
  Option-cases, List, inl, inr, length, get_elem?, set, replicate, ltb, ◌==◌, arith, zero, suc, [],
  ◌∷◌, ℕ_discrete,
}
use yosys_f4pga_plugins.Prelude.Text.{text_eq, same_text, same_text_iff}
use yosys_f4pga_plugins.Prelude.Options.{◌>>=◌, check, >>=_some, >>_some}
use yosys_f4pga_plugins.Prelude.Dict.{lookup, put, lookup-put_self, lookup-put_other, beq_false}
use yosys_f4pga_plugins.Inverters.{State, s0, s1, sx, sz, sa, sm, Cell, Design, port_bit}
use yosys_f4pga_plugins.Inverters.Integrate.{toggled, toggle, inv_mask, rewire}

pub is_set : Option State → Bool
is_set (some s1) = true
is_set _ = false

abbrev pub flip_by : Bool → Bool → Bool
flip_by true b = not b
flip_by false b = b

-- Whether a mask inverts a bit.
abbrev pub mask_bit : Option (List State) → ℕ → Bool
mask_bit none bit = false
mask_bit (some mask) bit = is_set (get_elem? mask bit)

module _ {B : Type 0} (design : Design B) where
  unfoldable pub is_inverted : Cell B → List ℕ → ℕ → Bool
  unfolding lookup
  is_inverted c port bit = elim (design.invertible_pin c.type port) [
    | none ↦ false
    | some param_name ↦ mask_bit (lookup param_name c.parameters) bit
  ]

module _ {B : Type 0} (design : Design B) (level : B → Bool) where
  -- What the logic of a cell sees at a bit of a port: the level of the net, inverted where the control
  -- parameter of the port says so.
  unfoldable pub seen : Cell B → List ℕ → ℕ → Option Bool
  unfolding port_bit is_inverted
  seen c port bit =
      port_bit c port bit >>= λ b. some (flip_by (is_inverted design c port bit) (level b))

pub get_elem?-set_self :
    {A : Type 0} (xs : List A) (i : ℕ) (a b : A)
    → get_elem? xs i ≡ some b
    → get_elem? (set xs i a) i ≡ some a
get_elem?-set_self [] i a b h = cc
get_elem?-set_self (x ∷ xs) zero a b h = refl
get_elem?-set_self (x ∷ xs) (suc i) a b h = get_elem?-set_self xs i a b h

pub get_elem?-set_other :
    {A : Type 0} (xs : List A) (i j : ℕ) (a : A) → i ≢ j → get_elem? (set xs i a) j ≡ get_elem? xs j
get_elem?-set_other [] i j a h = refl
get_elem?-set_other (x ∷ xs) zero zero a h = elim (h refl) [ ]
get_elem?-set_other (x ∷ xs) zero (suc j) a h = refl
get_elem?-set_other (x ∷ xs) (suc i) zero a h = refl
get_elem?-set_other (x ∷ xs) (suc i) (suc j) a h = get_elem?-set_other xs i j a (λ e. h (ap suc e))

is_set-replicate : (n i : ℕ) → is_set (get_elem? (replicate n s0) i) ≡ false
unfolding is_set
is_set-replicate zero i = refl
is_set-replicate (suc n) zero = refl
is_set-replicate (suc n) (suc i) = is_set-replicate n i

-- The mask that a parameter stands for inverts what the parameter inverts.
mask_bit-inv_mask :
    (param_name : List ℕ) (n : ℕ) (parameters : List (List ℕ × List State)) (bit : ℕ)
    → is_set (get_elem? (inv_mask param_name n parameters) bit)
      ≡ mask_bit (lookup param_name parameters) bit
unfolding inv_mask
mask_bit-inv_mask param_name n parameters bit = elim (Option-cases (lookup param_name parameters)) [
  | inl e ↦ rw (inv_mask, e) (is_set-replicate n bit)
  | inr (mask, e) ↦ rw (inv_mask, e) refl
]

toggled_flips : (s t : State) → toggled s ≡ some t → is_set (some t) ≡ not (is_set (some s))
unfolding toggled is_set
toggled_flips s0 t h = subst (λ u. is_set (some u) ≡ true) (injective h) refl
  where
    injective : some s1 ≡ some t → s1 ≡ t
    injective h = cc
toggled_flips s1 t h = subst (λ u. is_set (some u) ≡ false) (injective h) refl
  where
    injective : some s0 ≡ some t → s0 ≡ t
    injective h = cc
toggled_flips sx t h = cc
toggled_flips sz t h = cc
toggled_flips sa t h = cc
toggled_flips sm t h = cc

toggle_self :
    (mask mask' : List State) (bit : ℕ)
    → toggle mask bit ≡ some mask'
    → is_set (get_elem? mask' bit) ≡ not (is_set (get_elem? mask bit))
unfolding toggle
toggle_self mask mask' bit h =
    let (s, e, h1) = >>=_some (get_elem? mask bit) _ mask' h in
    let (t, f, h2) = >>=_some (toggled s) _ mask' h1 in
    rw e (
      subst (λ m. is_set (get_elem? m bit) ≡ not (is_set (some s))) (injective t h2)
        (rw (get_elem?-set_self mask bit t s e) (toggled_flips s t f)))
  where
    injective : (t : State) → some (set mask bit t) ≡ some mask' → set mask bit t ≡ mask'
    injective t h = cc

toggle_other :
    (mask mask' : List State) (bit j : ℕ)
    → toggle mask bit ≡ some mask'
    → bit ≢ j
    → get_elem? mask' j ≡ get_elem? mask j
unfolding toggle
toggle_other mask mask' bit j h n =
    let (s, e, h1) = >>=_some (get_elem? mask bit) _ mask' h in
    let (t, f, h2) = >>=_some (toggled s) _ mask' h1 in
    subst (λ m. get_elem? m j ≡ get_elem? mask j) (injective t h2)
      (get_elem?-set_other mask bit j t n)
  where
    injective : (t : State) → some (set mask bit t) ≡ some mask' → set mask bit t ≡ mask'
    injective t h = cc

module _ {B : Type 0} (c : Cell B) (port : List ℕ) (bit : ℕ) (a : B) (param_name : List ℕ) where
  -- What a cell is rewired to.
  abbrev pub rewired : List B → List State → Cell B
  rewired bits mask = record {
    type = c.type;
    connections = put port (set bits bit a) c.connections;
    parameters = put param_name mask c.parameters;
  }

  pub rewire-rewired :
      (c' : Cell B)
      → rewire c port bit a param_name ≡ some c'
      → (bits : List B) × (mask : List State) × (lookup port c.connections ≡ some bits)
        × (toggle (inv_mask param_name (length bits) c.parameters) bit ≡ some mask)
        × (rewired bits mask ≡ c')
  unfolding rewire
  rewire-rewired c' h =
      let (bits, e, h1) = >>=_some (lookup port c.connections) _ c' h in
      let (_, e2, h2) = >>_some (check (ltb bit (length bits))) _ c' h1 in
      let (_, e3, h3) =
        >>_some (check (length (inv_mask param_name (length bits) c.parameters) == length bits)) _
          c' h2 in
      let (mask, f, h4) =
        >>=_some (toggle (inv_mask param_name (length bits) c.parameters) bit) _ c' h3 in
      (bits, mask, e, f, injective bits mask h4)
    where
      injective :
          (bits : _) (mask : _) → some (rewired bits mask) ≡ some c' → rewired bits mask ≡ c'
      injective bits mask h = cc

  -- Every other pin is connected as before.
  pub rewired-port_bit :
      (bits : List B) (mask : List State) (b : B) (q : List ℕ) (j : ℕ)
      → lookup port c.connections ≡ some bits
      → (port ≡ q → bit ≡ j → ⊥)
      → port_bit c q j ≡ some b
      → port_bit (rewired bits mask) q j ≡ some b
  unfolding port_bit
  rewired-port_bit bits mask b q j e n g = elim (Bool-cases (same_text q port)) [
    | inl k ↦
        let same = (same_text_iff q port).0 k in
        rw same (
          rw (lookup-put_self port (set bits bit a) c.connections)
            (get_elem?-set_other bits bit j a (n (sym same)) ∙ rw (same, e) at g))
    | inr k ↦ rw (lookup-put_other port q (set bits bit a) c.connections k) g
  ]

module _ {B : Type 0} (design : Design B) (level : B → Bool)
    (distinct : (type p q param_name : List ℕ)
      → design.invertible_pin type p ≡ some param_name
      → design.invertible_pin type q ≡ some param_name
      → p ≡ q)
    (c : Cell B) (port : List ℕ) (bit : ℕ) (a : B) (param_name : List ℕ)
    (invertible : design.invertible_pin c.type port ≡ some param_name) where
  seen_other_port :
      (bits : List B) (mask : List State) (q : List ℕ) (j : ℕ)
      → q ≢ port
      → seen design level (rewired c port bit a param_name bits mask) q j ≡ seen design level c q j
  unfolding seen is_inverted port_bit
  seen_other_port bits mask q j n =
      rw (lookup-put_other port q (set bits bit a) c.connections (beq_false q port n)) (
        ap
          (λ i.
            (lookup q c.connections >>= λ bs. get_elem? bs j) >>= λ b. some (flip_by i (level b)))
          inverted_same)
    where
      inverted_same :
          is_inverted design (rewired c port bit a param_name bits mask) q j
          ≡ is_inverted design c q j
      inverted_same = elim (Option-cases (design.invertible_pin c.type q)) [
        | inl e ↦ rw (is_inverted, e) refl
        | inr (r, e) ↦
            rw (is_inverted, e)
              (ap (λ m. mask_bit m j)
                (lookup-put_other param_name r mask c.parameters (
                  beq_false r param_name
                    (λ k. n (distinct c.type q port param_name (e ∙ ap some k) invertible)))))
      ]

  inverted_here :
      (bits : List B) (mask : List State) (j : ℕ)
      → is_inverted design (rewired c port bit a param_name bits mask) port j
        ≡ is_set (get_elem? mask j)
  unfolding is_inverted
  inverted_here bits mask j =
      rw (is_inverted, invertible)
        (ap (λ m. mask_bit m j) (lookup-put_self param_name mask c.parameters))

  inverted_before :
      (n j : ℕ)
      → is_inverted design c port j ≡ is_set (get_elem? (inv_mask param_name n c.parameters) j)
  unfolding is_inverted
  inverted_before n j =
      rw (is_inverted, invertible) (sym (mask_bit-inv_mask param_name n c.parameters j))

  flip_twice : (i : Bool) (x y : Bool) → y ≡ not x → flip_by (not i) x ≡ flip_by i y
  flip_twice true true y h = ground arith
  flip_twice true false y h = ground arith
  flip_twice false true y h = ground arith
  flip_twice false false y h = ground arith

  seen_same_port :
      (bits : List B) (mask : List State) (b : B) (j : ℕ)
      → lookup port c.connections ≡ some bits
      → toggle (inv_mask param_name (length bits) c.parameters) bit ≡ some mask
      → get_elem? bits bit ≡ some b
      → level b ≡ not (level a)
      → seen design level (rewired c port bit a param_name bits mask) port j
        ≡ seen design level c port j
  unfolding seen port_bit
  seen_same_port bits mask b j e f g l = elim (ℕ_discrete bit j) [
    | yes n ↦ rw (lookup-put_self port (set bits bit a) c.connections) (
        rw e (
          rw (← n) (
            rw (get_elem?-set_self bits bit a b g) (
              rw g (
                rw (inverted_here bits mask bit) (
                  rw (inverted_before (length bits) bit) (
                    rw (toggle_self _ mask bit f)
                      (ap some (flip_twice _ (level a) (level b) l)))))))))
    | no n ↦ rw (lookup-put_self port (set bits bit a) c.connections) (
        rw e (
          rw (get_elem?-set_other bits bit j a n) (
            rw (inverted_here bits mask j)
              (rw (inverted_before (length bits) j) (rw (toggle_other _ mask bit j f n) refl)))))
  ]

  -- A pin whose net has the inverse of the level of the new net: every pin of the cell sees what it
  -- saw.
  pub rewire-seen :
      (c' : Cell B) (b : B)
      → rewire c port bit a param_name ≡ some c'
      → port_bit c port bit ≡ some b
      → level b ≡ not (level a)
      → (q : List ℕ) (j : ℕ) → seen design level c' q j ≡ seen design level c q j
  unfolding port_bit
  rewire-seen c' b h g l q j =
      let (bits, mask, e, f, r) = rewire-rewired c port bit a param_name c' h in
      subst (λ d. seen design level d q j ≡ seen design level c q j) r
        (elim (Bool-cases (same_text q port)) [
          | inl k ↦ rw ((same_text_iff q port).0 k) (seen_same_port bits mask b j e f (rw e at g) l)
          | inr k ↦ seen_other_port bits mask q j (λ m. cc (k, (same_text_iff q port).1 m))
        ])
