-- ===== src/Lut/Eqn/Value.antt =====
-- Exactly one product of the equation is true at given inputs: that of the table's index.
use yosys_f4pga_plugins.Prelude.{
  ℕ, zero, suc, ◌+◌, ◌-◌, ◌/◌, ◌%◌, ◌^◌, ◌≤◌, ◌<◌, ◌≡◌, ◌↔◌, refl, ap, sym, ◌∙◌, Bool, true, false,
  ◌&&◌, ◌||◌, some, inl, inr, List, [], ◌∷◌, arith, Bool-cases, ◌==◌, ==_iff, get_elem?, get_or,
  length, ltb, leb, ℕ_discrete,
}
use yosys_f4pga_plugins.Prelude.Bits.{eq_of_digits}
use yosys_f4pga_plugins.Lut.Table.{level, digit, lut_index, lut_index-lt, lut_index-digit}
use yosys_f4pga_plugins.Lut.Eqn.{init2eqn}
use yosys_f4pga_plugins.Lut.Eqn.Language.{eval_eqn}
use yosys_f4pga_plugins.Lut.Eqn.Meaning.{
  agrees, agree_from, minterm, sum_value, sum_loop-Denotes, eval_of_Denotes,
}

-- k, k + 1, ..., k + n - 1: the input numbers.
unfoldable pub upto : ℕ → ℕ → List ℕ
upto zero k = []
upto (suc n) k = k ∷ upto n (k + 1)

length-upto : (n k : ℕ) → length (upto n k) ≡ n
unfolding upto
length-upto zero k = refl
length-upto (suc n) k = ap suc (length-upto n (k + 1))

get_elem?-upto : (n k j : ℕ) → j < n → get_elem? (upto n k) j ≡ some (k + j)
unfolding upto
get_elem?-upto zero k j h = absurd (omega arith)
get_elem?-upto (suc n) k zero h = ap some (omega arith)
get_elem?-upto (suc n) k (suc j) h =
    get_elem?-upto n (k + 1) j (omega arith) ∙ ap some (omega arith)

module _ (v : ℕ → Bool) (inputs : ℕ) where
  -- The index that the values of I0, I1, ... spell.
  abbrev pub index : ℕ
  index = lut_index v (upto inputs 0)

  index-lt : index < 2 ^ inputs
  index-lt = rw (ap (λ (n : ℕ). 2 ^ n) (length-upto inputs 0)) at (lut_index-lt v (upto inputs 0))

  index_digit : (j : ℕ) → j < inputs → index / 2 ^ j % 2 ≡ level (v j)
  index_digit j h =
      lut_index-digit v (upto inputs 0) j
      ∙ ap (digit v) (get_elem?-upto inputs 0 j h ∙ ap some (omega arith))

  agrees_iff : (i j : ℕ) → (agrees v i j ≡ true) ↔ (i / 2 ^ j % 2 ≡ level (v j))
  unfolding agrees
  agrees_iff i j = ground arith

  agree_all :
      (i n j : ℕ)
      → ((k : ℕ) → j ≤ k → k < j + n → agrees v i k ≡ true)
      → agree_from v i n j true ≡ true
  unfolding agree_from
  agree_all i zero j h = refl
  agree_all i (suc n) j h =
      rw (h j (omega arith) (omega arith))
        (agree_all i n (j + 1) (λ k p q. h k (omega arith) (omega arith)))

  agree_each :
      (i n j : ℕ) (acc : Bool)
      → agree_from v i n j acc ≡ true
      → (acc ≡ true) × ((k : ℕ) → j ≤ k → k < j + n → agrees v i k ≡ true)
  unfolding agree_from
  agree_each i zero j acc h = (h, λ k p q. absurd (omega arith))
  agree_each i (suc n) j acc h =
      let both = agree_each i n (j + 1) (acc && agrees v i j) h in
      (
        ground (arith, both.0),
        λ k p q. elim (ℕ_discrete j k) [
          | yes here ↦ rw (← here) (ground (arith, both.0))
          | no there ↦ both.1 k (omega arith) (omega arith)
        ],
      )

  -- The product of round i is true at `v` exactly if i is the index.
  agree_from-index : (i : ℕ) → i < 2 ^ inputs → agree_from v i inputs 0 true ≡ (i == index)
  agree_from-index i h = elim (Bool-cases (agree_from v i inputs 0 true)) [
    | inl p ↦
        p
        ∙ sym (
            (==_iff i index).1 (
              eq_of_digits i index inputs h index-lt (λ j q.
                (agrees_iff i j).0 ((agree_each i inputs 0 true p).1 j (omega arith) (omega arith))
                ∙ sym (index_digit j q))))
    | inr p ↦ elim (Bool-cases (i == index)) [
      | inl same ↦ absurd (
          cc (
            p,
            agree_all i inputs 0 (λ j _ q. (agrees_iff i j).1 (
                ap (λ (n : ℕ). n / 2 ^ j % 2) ((==_iff i index).0 same)
                ∙ index_digit j (omega arith))),
          ))
      | inr other ↦ p ∙ sym other
    ]
  ]

  sum_value-index :
      (init_bits : List ℕ) (at_index n i : ℕ) (b : Bool)
      → ((j : ℕ) → j < 2 ^ inputs → agree_from v j inputs 0 true ≡ (j == at_index))
      → i + n ≤ 2 ^ inputs
      → sum_value v init_bits inputs n i b
        ≡ (b || (leb i at_index && ltb at_index (i + n) && minterm v init_bits inputs at_index))
  unfolding sum_value
  sum_value-index init_bits k zero i b g h = ground arith
  sum_value-index init_bits k (suc n) i b g h = elim (ℕ_discrete i k) [
    | yes here ↦
        sum_value-index init_bits k n (i + 1) _ g (omega arith)
        ∙ rw (← here) (ground (arith, g i (omega arith)))
    | no there ↦
        sum_value-index init_bits k n (i + 1) _ g (omega arith) ∙ ground (arith, g i (omega arith))
  ]

  -- For LUT1 .. LUT5 and an INIT of the table's size, the printed text is an equation, and its value
  -- at any values of the inputs is the bit of INIT at the index that they spell.
  pub init2eqn-value :
      (init_bits : List ℕ)
      → 0 < inputs
      → inputs ≤ 5
      → length init_bits ≡ 2 ^ inputs
      → eval_eqn v (init2eqn init_bits inputs)
        ≡ some (get_or init_bits (length init_bits - 1 - index) 0 == b'1')
  unfolding init2eqn
  init2eqn-value init_bits p h len =
      eval_of_Denotes v _ _
        (sum_loop-Denotes v init_bits inputs (2 ^ inputs) 0 [] false p h (inl (refl, refl)))
      ∙ ap some (
          sum_value-index init_bits index (2 ^ inputs) 0 false agree_from-index (omega arith)
          ∙ rw len (ground (arith, index-lt)))
