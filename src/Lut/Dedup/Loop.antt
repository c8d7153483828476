-- ===== src/Lut/Dedup/Loop.antt =====
-- The loop of the pass over a module: it ends, no input is left to remove, and each cell keeps its
-- function.
use yosys_f4pga_plugins.Prelude.{
  ℕ, zero, suc, ◌+◌, ◌≤◌, ◌<◌, ◌≡◌, refl, ◌∙◌, ◌⊎◌, Bool, true, false, some, inl, inr, List, [],
  ◌∷◌, arith, Bool-cases, All, if◌then◌else◌,
}
use yosys_f4pga_plugins.Prelude.Equality.{Eq}
use yosys_f4pga_plugins.Prelude.Text.{str_eq}
use yosys_f4pga_plugins.Lut.Dedup.{LutCell, remove_input, dedup_cell, dedup_pass, dedup_module}
use yosys_f4pga_plugins.Lut.Dedup.Search.{same, find_dup_sound, find_dup_complete}
use yosys_f4pga_plugins.Lut.Dedup.Function.{
  Round, skipped, unique, shrunk, dedup_cell-Round, Keeps, dedup_cell-Keeps,
}

-- The inputs of all cells together, the measure of the loop.
unfoldable pub total_width : {B S : Type 0} → List (LutCell B S) → ℕ
total_width [] = 0
total_width (c ∷ cells) = c.width + total_width cells

-- Related elements at equal places of lists of equal length.
abbrev pub Pairwise : {A : Type 0} → (A → A → Type 0) → List A → List A → Type 0
Pairwise R [] [] = Unit
Pairwise R (x ∷ xs) (y ∷ ys) = R x y × Pairwise R xs ys
Pairwise R _ _ = ⊥

module _ {B S : Type 0} ⦃e : Eq B⦄ (s0 : S) (sigmap : B → B) where
  -- Any two inputs of a `$lut` cell are on different nets.
  abbrev pub HasDistinctInputs : LutCell B S → Type 0
  HasDistinctInputs c =
      str_eq c.type "$lut" ≡ true
      → (i j : ℕ) → i < j
      → j < c.width
      → same sigmap c.inputs i j ≡ false

  abbrev pub KeepsAll : List (LutCell B S) → List (LutCell B S) → Type 0
  KeepsAll = Pairwise (Keeps s0 sigmap)

  abbrev pass : List (LutCell B S) → Bool → ℕ → List (LutCell B S) × Bool × ℕ
  pass = dedup_pass s0 sigmap

  dedup_cell-width :
      (c : LutCell B S)
      → (if (dedup_cell s0 sigmap c).1 then 1 else 0) + (dedup_cell s0 sigmap c).0.width ≡ c.width
  dedup_cell-width c = go (dedup_cell-Round s0 sigmap c)
    where
      go :
          Round s0 sigmap c (dedup_cell s0 sigmap c)
          → (if (dedup_cell s0 sigmap c).1 then 1 else 0) + (dedup_cell s0 sigmap c).0.width
            ≡ c.width
      go (skipped p q) = rw q (omega arith)
      go (unique p f q) = rw q (omega arith)
      go (shrunk a b p f q) =
          rw q (unfold remove_input in omega (arith, find_dup_sound sigmap c.width c.inputs a b f))

  dedup_cell-unchanged :
      (c : LutCell B S)
      → (dedup_cell s0 sigmap c).1 ≡ false
      → ((dedup_cell s0 sigmap c).0 ≡ c) × HasDistinctInputs c
  dedup_cell-unchanged c h = go (dedup_cell-Round s0 sigmap c)
    where
      go :
          Round s0 sigmap c (dedup_cell s0 sigmap c)
          → ((dedup_cell s0 sigmap c).0 ≡ c) × HasDistinctInputs c
      go (skipped p q) = (rw q, λ t. cc)
      go (unique p f q) = (rw q, λ t. find_dup_complete sigmap c.width c.inputs f)
      go (shrunk a b p f q) = absurd (cc)

  -- What a pass says of its counters.
  pass_width :
      (cells : List (LutCell B S)) (any : Bool) (total : ℕ)
      → (pass cells any total).2 + total_width (pass cells any total).0 ≡ total + total_width cells
  unfolding dedup_pass total_width
  pass_width [] any total = refl
  pass_width (c ∷ cells) any total = ground (
    arith,
    dedup_cell-width c,
    pass_width cells (if (dedup_cell s0 sigmap c).1 then true else any)
        (if (dedup_cell s0 sigmap c).1 then total + 1 else total),
  )

  pass_falls :
      (cells : List (LutCell B S)) (any : Bool) (total : ℕ)
      → (total ≤ (pass cells any total).2)
        × ((pass cells any total).1 ≡ true → (any ≡ true) ⊎ (total < (pass cells any total).2))
  unfolding dedup_pass
  pass_falls [] any total = (omega arith, λ h. inl h)
  pass_falls (c ∷ cells) any total = ground (
    arith,
    pass_falls cells (if (dedup_cell s0 sigmap c).1 then true else any)
        (if (dedup_cell s0 sigmap c).1 then total + 1 else total),
  )

  pass-true : (cells : List (LutCell B S)) (total : ℕ) → (pass cells true total).1 ≡ true
  unfolding dedup_pass
  pass-true [] total = refl
  pass-true (c ∷ cells) total = elim (Bool-cases (dedup_cell s0 sigmap c).1) [
    | inl p ↦ rw p (pass-true cells (total + 1))
    | inr p ↦ rw p (pass-true cells total)
  ]

  pass_done :
      (cells : List (LutCell B S)) (any : Bool) (total : ℕ)
      → (pass cells any total).1 ≡ false
      → All HasDistinctInputs (pass cells any total).0
  unfolding dedup_pass
  pass_done [] any total h = tt
  pass_done (c ∷ cells) any total h = elim (Bool-cases (dedup_cell s0 sigmap c).1) [
    | inl p ↦ absurd (cc (pass-true cells (total + 1), rw p at h))
    | inr p ↦
        let same_cell = dedup_cell-unchanged c p in
        rw (p, same_cell.0) (same_cell.1, pass_done cells any total (rw p at h))
  ]

  pass_keeps :
      (cells : List (LutCell B S)) (any : Bool) (total : ℕ)
      → KeepsAll cells (pass cells any total).0
  unfolding dedup_pass
  pass_keeps [] any total = tt
  pass_keeps (c ∷ cells) any total = (dedup_cell-Keeps s0 sigmap c, pass_keeps cells _ _)

  -- A pass that changed something leaves fewer inputs.
  pass_shorter :
      (cells : List (LutCell B S)) (total : ℕ)
      → (pass cells false total).1 ≡ true
      → total_width (pass cells false total).0 < total_width cells
  pass_shorter cells total h = elim ((pass_falls cells false total).1 h) [
    | inl f ↦ cc
    | inr lt ↦ omega (arith, pass_width cells false total)
  ]

  Keeps-trans :
      {b c d : LutCell B S} → Keeps s0 sigmap b c → Keeps s0 sigmap c d → Keeps s0 sigmap b d
  Keeps-trans h k = record {
    type = k.type ∙ h.type;
    shape = λ w. k.shape (h.shape w);
    function = λ v w r. k.function v (h.shape w) r ∙ h.function v w r;
  }

  KeepsAll-trans :
      (bs cs ds : List (LutCell B S)) → KeepsAll bs cs → KeepsAll cs ds → KeepsAll bs ds
  KeepsAll-trans [] [] [] h k = tt
  KeepsAll-trans [] [] (d ∷ ds) h k = absurd k
  KeepsAll-trans [] (c ∷ cs) ds h k = absurd h
  KeepsAll-trans (b ∷ bs) [] ds h k = absurd h
  KeepsAll-trans (b ∷ bs) (c ∷ cs) [] h k = absurd k
  KeepsAll-trans (b ∷ bs) (c ∷ cs) (d ∷ ds) h k =
      (Keeps-trans h.0 k.0, KeepsAll-trans bs cs ds h.1 k.1)

  -- The outcome of the loop: the counter has gone up by the number of inputs that are gone, every
  -- cell keeps its function, and no `$lut` has two inputs on one net.
  pub record Outcome (cells : List (LutCell B S)) (total : ℕ) (r : List (LutCell B S) × ℕ)
      : Type 0 where
    pub counted : r.1 + total_width r.0 ≡ total + total_width cells
    pub kept : KeepsAll cells r.0
    pub distinct : All HasDistinctInputs r.0

  -- With more fuel than there are inputs the loop ends, and with that outcome.
  pub dedup_module_total :
      (fuel : ℕ) (cells : List (LutCell B S)) (total : ℕ)
      → total_width cells < fuel
      → (r : List (LutCell B S) × ℕ) × (dedup_module s0 sigmap fuel cells total ≡ some r)
        × Outcome cells total r
  unfolding dedup_module
  dedup_module_total zero cells total h = absurd (omega arith)
  dedup_module_total (suc fuel) cells total h = elim (Bool-cases (pass cells false total).1) [
    | inl more ↦
        let (r, e, o) =
          dedup_module_total fuel (pass cells false total).0 (pass cells false total).2
            (omega (arith, pass_shorter cells total more)) in
        (
          r,
          rw (more, dedup_module) e,
          record {
            counted = omega (arith, o.counted, pass_width cells false total);
            kept = KeepsAll-trans cells _ r.0 (pass_keeps cells false total) o.kept;
            distinct = o.distinct;
          },
        )
    | inr done ↦ (
      ((pass cells false total).0, (pass cells false total).2),
      rw (done, dedup_module),
      record {
        counted = pass_width cells false total;
        kept = pass_keeps cells false total;
        distinct = pass_done cells false total done;
      },
    )
  ]
