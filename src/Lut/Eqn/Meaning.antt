-- ===== src/Lut/Eqn/Meaning.antt =====
-- The printed equation denotes the truth table.
use Prim.Native.Nat.{bit_and}
use native.Mathlib.Nat.{one-le-pow}
use mathlib.Core.List.{append_assoc, append-nil}
use yosys_f4pga_plugins.Prelude.{
  ℕ, zero, suc, ◌+◌, ◌-◌, ◌/◌, ◌%◌, ◌^◌, ◌≤◌, ◌<◌, ◌≡◌, refl, ap, sym, ◌∙◌, Bool, true, false, not,
  ◌&&◌, ◌||◌, ◌⊎◌, some, inl, inr, List, [], ◌∷◌, ◌++◌, arith, Bool-cases, ◌==◌, get_or,
  if◌then◌else◌,
}
use yosys_f4pga_plugins.Prelude.Bits.{bit_and_power}
use yosys_f4pga_plugins.Lut.Eqn.{names, operand_text, product_loop, sum_loop, drop_last, or_zero}
use yosys_f4pga_plugins.Lut.Eqn.Language.{
  Reader, start, operand, after, closed, negate, read, read_all, read_all-then, read_star, eval_eqn,
}

name_text : (j : ℕ) → j < 5 → get_or names j [] ≡ b'I' ∷ (b'0' + j) ∷ []
name_text zero h = refl
name_text (suc zero) h = refl
name_text (suc (suc zero)) h = refl
name_text (suc (suc (suc zero))) h = refl
name_text (suc (suc (suc (suc zero)))) h = refl
name_text (suc (suc (suc (suc (suc j))))) h = absurd (omega arith)

last_round : (j inputs : ℕ) → j + 1 ≡ inputs → (j == inputs - 1) ≡ true
last_round j inputs e = ground arith

inner_round : (j n inputs : ℕ) → j + suc (suc n) ≡ inputs → (j == inputs - 1) ≡ false
inner_round j n inputs e = ground arith

-- Bit j of i, and whether it is the value of Ij.
abbrev pub bit : ℕ → ℕ → Bool
bit i j = not (i / 2 ^ j % 2 == 0)

module _ (v : ℕ → Bool) where
  unfoldable pub agrees : ℕ → ℕ → Bool
  agrees i j = negate (not (bit i j)) (v j)

  -- Do all of the bits j, j + 1, ..., j + n - 1 agree?
  unfoldable pub agree_from : ℕ → ℕ → ℕ → Bool → Bool
  agree_from i zero j acc = acc
  agree_from i (suc n) j acc = agree_from i n (j + 1) (acc && agrees i j)

  tested_bit : (i j : ℕ) → (bit_and i (2 ^ j) == 0) ≡ not (bit i j)
  tested_bit i j = ground (arith, bit_and_power j i, one-le-pow j 2)

  read_name :
      (j : ℕ) (sum prod neg : Bool)
      → j < 5
      → read_all v ((b'0' + j) ∷ []) (Reader.digit neg sum prod)
        ≡ some (after sum (prod && negate neg (v j)))
  unfolding read_all read
  read_name zero sum prod neg h = refl
  read_name (suc zero) sum prod neg h = refl
  read_name (suc (suc zero)) sum prod neg h = refl
  read_name (suc (suc (suc zero))) sum prod neg h = refl
  read_name (suc (suc (suc (suc zero)))) sum prod neg h = refl
  read_name (suc (suc (suc (suc (suc j))))) sum prod neg h = absurd (omega arith)

  read_operand :
      (i j : ℕ) (sum prod : Bool)
      → j < 5
      → read_all v (operand_text i j) (operand sum prod) ≡ some (after sum (prod && agrees i j))
  unfolding operand_text agrees
  read_operand i j sum prod h = elim (Bool-cases (bit i j)) [
    | inl p ↦
        rw (tested_bit i j, p, name_text j h) (unfold read_all read in read_name j sum prod false h)
    | inr p ↦
        rw (tested_bit i j, p, name_text j h) (unfold read_all read in read_name j sum prod true h)
  ]

  -- The text that one round appends, taken out of the test.
  round_text :
      (t : Bool) (eqn o : List ℕ)
      → (if t then eqn ++ o else (eqn ++ o) ++ (b'*' ∷ []))
        ≡ eqn ++ (if t then o else o ++ (b'*' ∷ []))
  round_text true eqn o = refl
  round_text false eqn o = append_assoc eqn o (b'*' ∷ [])

  product_loop-append :
      (inputs i n j : ℕ) (eqn : List ℕ)
      → product_loop inputs i n j eqn ≡ eqn ++ product_loop inputs i n j []
  unfolding product_loop
  product_loop-append inputs i zero j eqn = sym (append-nil eqn)
  product_loop-append inputs i (suc n) j eqn =
      ap (product_loop inputs i n (j + 1)) (round_text (j == inputs - 1) eqn (operand_text i j))
      ∙ product_loop-append inputs i n (j + 1) _
      ∙ append_assoc eqn _ _
      ∙ ap (λ (t : List ℕ). eqn ++ t) (sym (product_loop-append inputs i n (j + 1) _))

  read_product :
      (inputs i n j : ℕ) (sum prod : Bool)
      → j + suc n ≡ inputs
      → inputs ≤ 5
      → read_all v (product_loop inputs i (suc n) j []) (operand sum prod)
        ≡ some (after sum (agree_from i (suc n) j prod))
  unfolding product_loop agree_from
  read_product inputs i zero j sum prod e h =
      rw (last_round j inputs e) (read_operand i j sum prod (omega arith))
  read_product inputs i (suc n) j sum prod e h =
      rw (inner_round j n inputs e, product_loop-append inputs i (suc n) (j + 1) _)
        (read_all-then v _ _ _ _ _
          (read_all-then v _ _ _ _ _ (read_operand i j sum prod (omega arith))
            (read_star v sum (prod && agrees i j)))
          (read_product inputs i n (j + 1) sum (prod && agrees i j) (omega arith) h))

  abbrev product_text : ℕ → ℕ → List ℕ
  product_text inputs i = b'(' ∷ (product_loop inputs i inputs 0 [] ++ (b')' ∷ []))

  read_piece :
      (inputs i : ℕ) (sum : Bool)
      → 0 < inputs
      → inputs ≤ 5
      → read_all v (product_text inputs i) (start sum)
        ≡ some (closed (sum || agree_from i inputs 0 true))
  read_piece zero i sum p h = absurd (omega arith)
  read_piece (suc n) i sum p h =
      read_all-then v (b'(' ∷ []) _ _ (operand sum true) _ (unfold read_all read in refl) (
        read_all-then v _ (b')' ∷ []) _ _ _ (read_product (suc n) i n 0 sum true (omega arith) h)
          (unfold read_all read in refl))

  -- What the text printed so far denotes: nothing yet, or an equation and a pending "+".
  abbrev pub Denotes : List ℕ → Bool → Type 0
  Denotes eqn b =
      ((eqn ≡ []) × (b ≡ false))
      ⊎ ((e : List ℕ) × (eqn ≡ e ++ (b'+' ∷ [])) × (read_all v e (start false) ≡ some (closed b)))

  piece_text :
      (inputs i : ℕ) (eqn : List ℕ)
      → product_loop inputs i inputs 0 (eqn ++ (b'(' ∷ [])) ++ (b')' ∷ b'+' ∷ [])
        ≡ (eqn ++ product_text inputs i) ++ (b'+' ∷ [])
  piece_text inputs i eqn =
      rw (product_loop-append inputs i inputs 0 (eqn ++ (b'(' ∷ []))) (simp append_assoc)

  add_piece :
      (inputs i : ℕ) (eqn : List ℕ) (b : Bool)
      → 0 < inputs
      → inputs ≤ 5
      → Denotes eqn b
      → Denotes
          (product_loop inputs i inputs 0 (eqn ++ (b'(' ∷ [])) ++ (b')' ∷ b'+' ∷ []))
          (b || agree_from i inputs 0 true)
  add_piece inputs i eqn b p h (inl (e, f)) =
      inr (
        product_text inputs i,
        piece_text inputs i eqn ∙ rw e,
        rw f (read_piece inputs i false p h),
      )
  add_piece inputs i eqn b p h (inr (e, f, g)) = inr (
    eqn ++ product_text inputs i,
    piece_text inputs i eqn,
    rw f (
        read_all-then v _ _ _ _ _
          (read_all-then v e (b'+' ∷ []) _ _ (start b) g (unfold read_all read in refl))
          (read_piece inputs i b p h)),
  )

  -- The value of the sum over the rounds i, ..., i + n - 1, in front of it the sum so far.
  abbrev pub minterm : List ℕ → ℕ → ℕ → Bool
  minterm init_bits inputs i = get_or init_bits (2 ^ inputs - 1 - i) 0 == b'1'

  unfoldable pub sum_value : List ℕ → ℕ → ℕ → ℕ → Bool → Bool
  sum_value init_bits inputs zero i b = b
  sum_value init_bits inputs (suc n) i b =
      sum_value init_bits inputs n (i + 1)
        (if minterm init_bits inputs i then b || agree_from i inputs 0 true else b)

  pub sum_loop-Denotes :
      (init_bits : List ℕ) (inputs n i : ℕ) (eqn : List ℕ) (b : Bool)
      → 0 < inputs
      → inputs ≤ 5
      → Denotes eqn b
      → Denotes (sum_loop init_bits inputs n i eqn) (sum_value init_bits inputs n i b)
  unfolding sum_loop sum_value
  sum_loop-Denotes init_bits inputs zero i eqn b p h d = d
  sum_loop-Denotes init_bits inputs (suc n) i eqn b p h d =
      elim (Bool-cases (minterm init_bits inputs i)) [
        | inl m ↦
            rw m
              (sum_loop-Denotes init_bits inputs n (i + 1) _ _ p h (add_piece inputs i eqn b p h d))
        | inr m ↦ rw m (sum_loop-Denotes init_bits inputs n (i + 1) eqn b p h d)
      ]

  drop_last-append : (s : List ℕ) (c : ℕ) → drop_last (s ++ (c ∷ [])) ≡ s
  unfolding drop_last
  drop_last-append [] c = refl
  drop_last-append (d ∷ []) c = refl
  drop_last-append (d ∷ e ∷ s) c = ap (λ (t : List ℕ). d ∷ t) (drop_last-append (e ∷ s) c)

  or_zero-append : (s : List ℕ) (c : ℕ) → or_zero (s ++ (c ∷ [])) ≡ s
  unfolding or_zero drop_last
  or_zero-append [] c = refl
  or_zero-append (d ∷ s) c = drop_last-append (d ∷ s) c

  eval_of_read :
      (e : List ℕ) (b : Bool) → read_all v e (start false) ≡ some (closed b) → eval_eqn v e ≡ some b
  unfolding eval_eqn
  eval_of_read [] b h = absurd (cc)
  eval_of_read (c ∷ []) b h = absurd (ground arith)
  eval_of_read (c ∷ d ∷ s) b h = rw h

  pub eval_of_Denotes :
      (eqn : List ℕ) (b : Bool) → Denotes eqn b → eval_eqn v (or_zero eqn) ≡ some b
  eval_of_Denotes eqn b (inl (e, f)) = rw (e, f) (unfold eval_eqn or_zero in refl)
  eval_of_Denotes eqn b (inr (e, f, g)) = rw (f, or_zero-append e b'+') (eval_of_read e b g)
