-- ===== src/Sdc/Clocks/Target.antt =====
-- The delay target of ABC9.
use mathlib.Core.Path.{subst}
use yosys_f4pga_plugins.Prelude.{
  ℕ, ◌≡◌, ◌≢◌, ◌⊎◌, refl, sym, ap, ◌∙◌, Bool-cases, true, some, Option-cases, List, [], ◌∷◌, All,
  IsIn, All-elements, element-All, inl, inr,
}
use yosys_f4pga_plugins.Prelude.Ints.{ℤ, at_most, at_most_refl, at_most_trans, at_most_total}
use yosys_f4pga_plugins.Prelude.Text.{same_text, same_text_iff}
use yosys_f4pga_plugins.Sdc.Clocks.{
  WireApi, FloatApi, returned, min, is_clock, wire_name, period_of, period_ps, update_delay,
  text_less, insert_clock, get_clocks, update_abc9_delay_target,
}

min-left : (a b : ℤ) → at_most (min a b) a ≡ true
unfolding min
min-left a b = elim (Bool-cases (at_most a b)) [
  | inl e ↦ rw e (at_most_refl a)
  | inr e ↦ rw e (at_most_total a b e)
]

min-right : (a b : ℤ) → at_most (min a b) b ≡ true
unfolding min
min-right a b = elim (Bool-cases (at_most a b)) [ inl e ↦ rw e e | inr e ↦ rw e (at_most_refl b) ]

min_cases : (a b : ℤ) → (min a b ≡ a) ⊎ (min a b ≡ b)
unfolding min
min_cases a b = elim (Bool-cases (at_most a b)) [
  | inl e ↦ inl (rw e refl)
  | inr e ↦ inr (rw e refl)
]

module _ (api : WireApi) (floats : FloatApi) where
  open api use {Wire}
  open floats use {Float, to_double, literal, times, over, to_int}

  -- The wire has a period, of which half, in picoseconds, is this number.
  unfoldable pub IsHalfPeriod : Wire → ℤ → Type 0
  IsHalfPeriod w ps =
      (period : Float) × (period_of api floats w ≡ some period)
      × (to_int (over (times (to_double period) (literal 1000)) (literal 2)) ≡ some ps)

  -- The target is not more than half of the wire's period.
  unfoldable pub IsMet : ℤ → Wire → Type 0
  IsMet target w = (ps : ℤ) × IsHalfPeriod w ps × (at_most target ps ≡ true)

  -- No two wires have one name.
  unfoldable pub Distinct : List Wire → Type 0
  Distinct [] = Unit
  Distinct (w ∷ wires) =
      All (λ v. wire_name api floats w ≢ wire_name api floats v) wires × Distinct wires

  insert_clock-holds :
      (key : List ℕ) (w : Wire) (m : List (List ℕ × Wire))
      → All (λ (e : List ℕ × Wire). e.0 ≢ key) m
      → IsIn (key, w) (insert_clock api floats key w m)
  unfolding insert_clock
  insert_clock-holds key w [] h = inl refl
  insert_clock-holds key w ((k, v) ∷ m) h = elim (Bool-cases (same_text k key)) [
    | inl e ↦ absurd (h.0 ((same_text_iff k key).0 e))
    | inr e ↦ elim (Bool-cases (text_less key k)) [
      | inl f ↦ rw (e, f) (inl refl)
      | inr f ↦ rw (e, f) (inr (insert_clock-holds key w m h.1))
    ]
  ]

  insert_clock-keeps :
      (key : List ℕ) (w : Wire) (e : List ℕ × Wire) (m : List (List ℕ × Wire))
      → IsIn e m
      → IsIn e (insert_clock api floats key w m)
  unfolding insert_clock
  insert_clock-keeps key w e [] h = absurd h
  insert_clock-keeps key w e ((k, v) ∷ m) h = elim (Bool-cases (same_text k key)) [
    | inl q ↦ rw q h
    | inr q ↦ elim (Bool-cases (text_less key k)) [
      | inl f ↦ rw (q, f) (inr h)
      | inr f ↦ rw (q, f) (elim h [ inl p ↦ inl p | inr p ↦ inr (insert_clock-keeps key w e m p) ])
    ]
  ]

  insert_clock-All :
      (P : List ℕ × Wire → Type 0) (key : List ℕ) (w : Wire) (m : List (List ℕ × Wire))
      → P (key, w)
      → All P m
      → All P (insert_clock api floats key w m)
  unfolding insert_clock
  insert_clock-All P key w [] p h = (p, tt)
  insert_clock-All P key w ((k, v) ∷ m) p h = elim (Bool-cases (same_text k key)) [
    | inl q ↦ rw q h
    | inr q ↦ elim (Bool-cases (text_less key k)) [
      | inl f ↦ rw (q, f) (p, h)
      | inr f ↦ rw (q, f) (h.0, insert_clock-All P key w m p h.1)
    ]
  ]

  get_clocks-All :
      (P : List ℕ × Wire → Type 0) (wires : List Wire) (m : List (List ℕ × Wire))
      → All (λ w. is_clock api floats w ≡ true → P (wire_name api floats w, w)) wires
      → All P m
      → All P (get_clocks api floats wires m)
  unfolding get_clocks
  get_clocks-All P [] m h a = a
  get_clocks-All P (w ∷ wires) m h a = elim (Bool-cases (is_clock api floats w)) [
    | inl e ↦ rw e (
        get_clocks-All P wires (insert_clock api floats (wire_name api floats w) w m) h.1
          (insert_clock-All P (wire_name api floats w) w m (h.0 e) a))
    | inr e ↦ rw e (get_clocks-All P wires m h.1 a)
  ]

  get_clocks-keeps :
      (wires : List Wire) (e : List ℕ × Wire) (m : List (List ℕ × Wire))
      → IsIn e m
      → IsIn e (get_clocks api floats wires m)
  unfolding get_clocks
  get_clocks-keeps [] e m h = h
  get_clocks-keeps (w ∷ wires) e m h = elim (Bool-cases (is_clock api floats w)) [
    | inl q ↦ rw q (
        get_clocks-keeps wires e (insert_clock api floats (wire_name api floats w) w m)
          (insert_clock-keeps (wire_name api floats w) w e m h))
    | inr q ↦ rw q (get_clocks-keeps wires e m h)
  ]

  -- A clock wire is in the map, under its name.
  abbrev IsHeld : List (List ℕ × Wire) → Wire → Type 0
  IsHeld clocks w = is_clock api floats w ≡ true → IsIn (wire_name api floats w, w) clocks

  abbrev IsNew : List (List ℕ × Wire) → Wire → Type 0
  IsNew m w = All (λ (e : List ℕ × Wire). e.0 ≢ wire_name api floats w) m

  insert_clock-IsNew :
      (key : List ℕ) (v : Wire) (m : List (List ℕ × Wire)) (wires : List Wire)
      → All (λ w. key ≢ wire_name api floats w) wires
      → All (IsNew m) wires
      → All (IsNew (insert_clock api floats key v m)) wires
  insert_clock-IsNew key v m [] n h = tt
  insert_clock-IsNew key v m (w ∷ wires) n h = (
    insert_clock-All (λ e. e.0 ≢ wire_name api floats w) key v m n.0 h.0,
    insert_clock-IsNew key v m wires n.1 h.1,
  )

  get_clocks-IsHeld :
      (wires : List Wire) (m : List (List ℕ × Wire))
      → Distinct wires
      → All (IsNew m) wires
      → All (IsHeld (get_clocks api floats wires m)) wires
  unfolding get_clocks Distinct
  get_clocks-IsHeld [] m d h = tt
  get_clocks-IsHeld (w ∷ wires) m d h =
      let m' = insert_clock api floats (wire_name api floats w) w m in
      elim (Bool-cases (is_clock api floats w)) [
        | inl e ↦
            subst (λ c. IsHeld c w × All (IsHeld c) wires) (sym (rw (get_clocks, e) refl))
              (
                (λ c.
                    get_clocks-keeps wires (wire_name api floats w, w) m'
                      (insert_clock-holds (wire_name api floats w) w m h.0)),
                get_clocks-IsHeld wires m' d.1
                    (insert_clock-IsNew (wire_name api floats w) w m wires d.0 h.1),
              )
        | inr e ↦
            subst (λ c. IsHeld c w × All (IsHeld c) wires) (sym (rw (get_clocks, e) refl))
              ((λ c. absurd (cc (c, e))), get_clocks-IsHeld wires m d.1 h.1)
      ]

  -- The least of a number and the half periods of some clocks.
  record IsLeast (clocks : List (List ℕ × Wire)) (delay target : ℤ) : Type 0 where
    met : All (λ (e : List ℕ × Wire). IsMet target e.1) clocks
    below : at_most target delay ≡ true
    attained : (target ≡ delay) ⊎ ((e : List ℕ × Wire) × IsIn e clocks × IsHalfPeriod e.1 target)

  update_delay-IsLeast :
      (clocks : List (List ℕ × Wire)) (delay target : ℤ)
      → update_delay api floats clocks delay ≡ returned target
      → IsLeast clocks delay target
  unfolding update_delay period_ps IsHalfPeriod IsMet
  update_delay-IsLeast [] delay target h = record {
    met = tt;
    below = subst (λ t. at_most t delay ≡ true) same (at_most_refl delay);
    attained = inl (sym same);
  }
    where
      same : delay ≡ target
      same = cc
  update_delay-IsLeast ((k, w) ∷ clocks) delay target h =
      elim (Option-cases (period_of api floats w)) [
        | inl e ↦ absurd (cc (rw (update_delay, e) at h))
        | inr (p, e) ↦ elim (Option-cases (period_ps api floats p)) [
          | inl f ↦ absurd (cc (rw f at (rw (update_delay, e) at h)))
          | inr (ps, f) ↦
              let rest =
                update_delay-IsLeast clocks (min delay ps) target
                  (rw f at (rw (update_delay, e) at h)) in
              record {
                met = (
                  (
                    ps,
                    (p, e, f),
                    at_most_trans target (min delay ps) ps rest.below (min-right delay ps),
                  ),
                  rest.met,
                );
                below = at_most_trans target (min delay ps) delay rest.below (min-left delay ps);
                attained = elim rest.attained [
                  | inr (c, m, a) ↦ inr (c, inr m, a)
                  | inl q ↦ elim (min_cases delay ps) [
                    | inl d ↦ inl (q ∙ d)
                    | inr d ↦ inr ((k, w), inl refl, (p, e, f ∙ ap some (sym (q ∙ d))))
                  ]
                ];
              }
        ]
      ]

  -- Where no two wires have one name, and the target is computed: every clock wire of the module has a
  -- period, and the target is not more than half of it, in picoseconds, and not more than the target
  -- that was set before; it is one of these numbers.
  pub update_abc9_delay_target-IsMet :
      (wires : List Wire) (delay target : ℤ)
      → Distinct wires
      → update_abc9_delay_target api floats wires delay ≡ returned target
      → All (λ w. is_clock api floats w ≡ true → IsMet target w) wires
        × (at_most target delay ≡ true)
        × ((target ≡ delay)
            ⊎ ((w : Wire) × IsIn w wires × (is_clock api floats w ≡ true) × IsHalfPeriod w target))
  unfolding update_abc9_delay_target
  update_abc9_delay_target-IsMet wires delay target d h =
      let clocks = get_clocks api floats wires [] in
      let least = update_delay-IsLeast clocks delay target h in
      let held = get_clocks-IsHeld wires [] d (All-elements (IsNew []) wires (λ w m. tt)) in
      let from_wires =
        get_clocks-All (λ e. IsIn e.1 wires × (is_clock api floats e.1 ≡ true)) wires []
          (All-elements _ wires (λ w m c. (m, c))) tt in
      (
        All-elements _ wires λ w m c.
            element-All (λ (e : List ℕ × Wire). IsMet target e.1) (wire_name api floats w, w) clocks
              (element-All (IsHeld clocks) w wires m held c) least.met,
        least.below,
        elim least.attained [
          | inl q ↦ inl q
          | inr (e, m, a) ↦
              let (i, c) =
                element-All
                  (λ (e : List ℕ × Wire). IsIn e.1 wires × (is_clock api floats e.1 ≡ true)) e
                  clocks m from_wires in
              inr (e.1, i, c, a)
        ],
      )
