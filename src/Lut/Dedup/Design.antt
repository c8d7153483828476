-- ===== src/Lut/Dedup/Design.antt =====
-- The pass over all selected modules, from the loop over one.
use yosys_f4pga_plugins.Prelude.{ℕ, ◌+◌, ◌<◌, ◌≡◌, refl, Bool, some, List, [], ◌∷◌, arith, All}
use yosys_f4pga_plugins.Prelude.Equality.{Eq}
use yosys_f4pga_plugins.Lut.Dedup.{LutCell, LutModule, dedup_cell, dedup_module, execute}
use yosys_f4pga_plugins.Lut.Dedup.Function.{IsWellFormed, Respects, eval_lut, dedup_cell-Keeps}
use yosys_f4pga_plugins.Lut.Dedup.Loop.{
  total_width, Pairwise, HasDistinctInputs, KeepsAll, dedup_module_total,
}

-- All inputs of the modules together, before and after the pass.
unfoldable pub inputs_of : {B S : Type 0} → List (LutModule B S) → ℕ
inputs_of [] = 0
inputs_of (m ∷ ms) = total_width m.cells + inputs_of ms

unfoldable pub inputs_left : {B S : Type 0} → List (List (LutCell B S)) → ℕ
inputs_left [] = 0
inputs_left (cs ∷ css) = total_width cs + inputs_left css

module _ {B S : Type 0} ⦃e : Eq B⦄ (s0 : S) where
  -- The cell has the type of the old one, is well-formed, and has the old table's value at all levels
  -- that agree on connected bits.
  pub record SameTable (sigmap : B → B) (c d : LutCell B S) : Type 0 where
    pub type : d.type ≡ c.type
    pub shape : IsWellFormed d
    pub function : (v : B → Bool) → Respects sigmap v → eval_lut s0 v d ≡ eval_lut s0 v c

  same_tables :
      (sigmap : B → B) (cs ds : List (LutCell B S))
      → All IsWellFormed cs
      → KeepsAll s0 sigmap cs ds
      → Pairwise (SameTable sigmap) cs ds
  same_tables sigmap [] [] w h = tt
  same_tables sigmap [] (d ∷ ds) w h = absurd h
  same_tables sigmap (c ∷ cs) [] w h = absurd h
  same_tables sigmap (c ∷ cs) (d ∷ ds) w h = (
    record { type = h.0.type; shape = h.0.shape w.0; function = λ v r. h.0.function v w.0 r },
    same_tables sigmap cs ds w.1 h.1,
  )

  -- Each module's cells have the tables that they had, and no `$lut` has two inputs on one net.
  abbrev pub Deduped : List (LutModule B S) → List (List (LutCell B S)) → Type 0
  Deduped [] [] = Unit
  Deduped (m ∷ ms) (cs ∷ css) =
      Pairwise (SameTable m.sigmap) m.cells cs
      × All (HasDistinctInputs s0 m.sigmap) cs
      × Deduped ms css
  Deduped _ _ = ⊥

  execute-cons :
      (fuel : ℕ) (m : LutModule B S) (ms : List (LutModule B S)) (total : ℕ)
      (r : List (LutCell B S) × ℕ) (q : List (List (LutCell B S)) × ℕ)
      → dedup_module s0 m.sigmap fuel m.cells total ≡ some r
      → execute s0 fuel ms r.1 ≡ some q
      → execute s0 fuel (m ∷ ms) total ≡ some (r.0 ∷ q.0, q.1)
  unfolding execute
  execute-cons fuel m ms total r q e d = rw (e, execute) (rw (d, execute))

  -- With more fuel than the design has inputs, and well-formed `$lut` cells, the pass ends. The counter
  -- has gone up by the number of inputs that are gone. Module by module and cell by cell, the type and
  -- the function of the table are those from before, the cell is well-formed, and no `$lut` cell has two
  -- inputs on one net.
  pub execute_total :
      (fuel : ℕ) (ms : List (LutModule B S)) (total : ℕ)
      → inputs_of ms < fuel
      → All (λ m. All IsWellFormed m.cells) ms
      → (r : List (List (LutCell B S)) × ℕ) × (execute s0 fuel ms total ≡ some r)
        × (r.1 + inputs_left r.0 ≡ total + inputs_of ms)
        × Deduped ms r.0
  unfolding execute inputs_of inputs_left
  execute_total fuel [] total h w = (([], total), refl, refl, tt)
  execute_total fuel (m ∷ ms) total h w =
      let (r, e, o) = dedup_module_total s0 m.sigmap fuel m.cells total (omega arith) in
      let (q, d, n, k) = execute_total fuel ms r.1 (omega arith) w.1 in
      (
        (r.0 ∷ q.0, q.1),
        execute-cons fuel m ms total r q e d,
        omega (arith, o.counted),
        (same_tables m.sigmap m.cells r.0 w.0 o.kept, o.distinct, k),
      )

  -- A round of the cell loop keeps a well-formed cell well-formed, and keeps the value of its table at
  -- any levels that agree on connected bits.
  pub dedup_cell-eval :
      (sigmap : B → B) (c : LutCell B S) (v : B → Bool)
      → IsWellFormed c
      → Respects sigmap v
      → IsWellFormed (dedup_cell s0 sigmap c).0
        × (eval_lut s0 v (dedup_cell s0 sigmap c).0 ≡ eval_lut s0 v c)
  dedup_cell-eval sigmap c v w r =
      let k = dedup_cell-Keeps s0 sigmap c in (k.shape w, k.function v w r)
