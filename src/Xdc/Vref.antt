-- ===== src/Xdc/Vref.antt =====
-- The INTERNAL_VREF of a bank.
use yosys_f4pga_plugins.Prelude.{
  ℕ, zero, suc, ◌+◌, ◌/◌, ◌<◌, ◌≤◌, ◌≡◌, ◌≢◌, ◌⊎◌, refl, sym, ap, ◌∙◌, inl, inr, Bool-cases, true,
  false, some, List, [], ◌∷◌, ◌++◌, length, ltb, ◌%◌, lt→ltb, Option, arith,
}
use yosys_f4pga_plugins.Prelude.Text.{codes, decimal, decimal_loop, text_eq}
use yosys_f4pga_plugins.Prelude.Dict.{lookup, lookup-put_self, lookup-put_other, beq_false}
use yosys_f4pga_plugins.Bram.Types.Name.{read_number, read_number-decimal}
use yosys_f4pga_plugins.Xdc.{Module}
use yosys_f4pga_plugins.Xdc.Property.{
  State, Banks, is_voltage, fitting, put_bank, bank_cell_name, process_vref,
}

decimal_injective : (m n : ℕ) → decimal m ≡ decimal n → m ≡ n
decimal_injective m n e = cc (
    sym (read_number-decimal m [])
    ∙ ap (λ s. read_number (s ++ (b'_' ∷ [])) 0) e
    ∙ read_number-decimal n [])

-- At most `k` digits behind the first.
abbrev IsShort : ℕ → ℕ → Type 0
IsShort zero n = n < 10
IsShort (suc k) n = IsShort k (n / 10)

decimal_loop-length :
    (k fuel n : ℕ) (acc : List ℕ)
    → IsShort k n
    → length (decimal_loop fuel n acc) ≤ suc k + length acc
unfolding decimal_loop
decimal_loop-length k zero n acc h = omega arith
decimal_loop-length zero (suc fuel) n acc h = rw (lt→ltb n 10 h) (omega arith)
decimal_loop-length (suc k) (suc fuel) n acc h = elim (Bool-cases (ltb n 10)) [
  | inl e ↦ rw e (omega arith)
  | inr e ↦ rw e (omega (arith, decimal_loop-length k fuel (n / 10) ((b'0' + n % 10) ∷ acc) h))
]

fitting-short : (n : ℕ) (s : List ℕ) → length s ≤ n → fitting n s ≡ s
unfolding fitting
fitting-short zero [] h = refl
fitting-short zero (c ∷ s) h = absurd (omega (arith, h))
fitting-short (suc n) [] h = refl
fitting-short (suc n) (c ∷ s) h = ap (λ t. c ∷ t) (fitting-short n s (omega (arith, h)))

-- A bank's number of up to four digits fits.
bank_cell_name-decimal : (n : ℕ) → n < 10000 → bank_cell_name n ≡ codes "bank_cell_" ++ decimal n
unfolding bank_cell_name fitting decimal
bank_cell_name-decimal n h = ap (λ s. codes "bank_cell_" ++ s) (fitting-short 4 (decimal n) short)
  where
    short : length (decimal n) ≤ 4
    short = omega (arith, decimal_loop-length 3 (suc n) n [] (omega (arith, h)))

bank_cell_name_injective :
    (m n : ℕ) → m < 10000 → n < 10000 → bank_cell_name m ≡ bank_cell_name n → m ≡ n
bank_cell_name_injective m n h k e =
    decimal_injective m n
      (ap (drop 10) (sym (bank_cell_name-decimal m h) ∙ e ∙ bank_cell_name-decimal n k))
  where
    drop : ℕ → List ℕ → List ℕ
    drop zero s = s
    drop (suc n) [] = []
    drop (suc n) (c ∷ s) = drop n s

voltages :
    (v : ℕ)
    → ((is_voltage v ≡ true) × ((v ≡ 600) ⊎ (v ≡ 675) ⊎ (v ≡ 750) ⊎ (v ≡ 900)))
      ⊎ ((is_voltage v ≡ false) × (v ≢ 600) × (v ≢ 675) × (v ≢ 750) × (v ≢ 900))
unfolding is_voltage
voltages v = ground arith

module _ (scan : List ℕ → List ℕ × Option ℕ) (top : Module) where
  pub process_vref-sets :
      (env : Banks) (value bank : List ℕ) (rest : List (List ℕ)) (s : State) (iobank : ℕ)
      → env.atoi bank ≡ some iobank
      → env.is_bank iobank ≡ true
      → iobank < 10000
      → (((env.millivolts value ≡ 600)
            ⊎ (env.millivolts value ≡ 675)
            ⊎ (env.millivolts value ≡ 750)
            ⊎ (env.millivolts value ≡ 900))
          × ((s' : State) × (process_vref scan top env (value ∷ bank ∷ rest) s ≡ some s')
              × (lookup (codes "bank_cell_" ++ decimal iobank) s'.banks
                  ≡ some (record { number = iobank; internal_vref = env.millivolts value }))
              × ((other : ℕ)
                  → other < 10000
                  → other ≢ iobank
                  → lookup (bank_cell_name other) s'.banks ≡ lookup (bank_cell_name other) s.banks)
              × (s'.cells ≡ s.cells)))
        ⊎ ((env.millivolts value ≢ 600)
            × (env.millivolts value ≢ 675)
            × (env.millivolts value ≢ 750)
            × (env.millivolts value ≢ 900)
            × (process_vref scan top env (value ∷ bank ∷ rest) s ≡ some s))
  unfolding process_vref put_bank
  process_vref-sets env value bank rest s iobank a b n = elim (voltages (env.millivolts value)) [
    | inr (v, n1, n2, n3, n4) ↦ inr (n1, n2, n3, n4, rw (process_vref, a) (rw b (rw v refl)))
    | inl (v, one) ↦ inl (
      one,
      (
        put_bank iobank (env.millivolts value) s,
        rw (process_vref, a) (rw b (rw v refl)),
        ap (λ name. lookup name (put_bank iobank (env.millivolts value) s).banks)
              (sym (bank_cell_name-decimal iobank n))
            ∙ lookup-put_self (bank_cell_name iobank) _ s.banks,
        (λ other m ne. lookup-put_other (bank_cell_name iobank) (bank_cell_name other) _ s.banks (
            beq_false (bank_cell_name other) (bank_cell_name iobank)
              (λ e. ne (bank_cell_name_injective other iobank m n e)))),
        refl,
      ),
    )
  ]
