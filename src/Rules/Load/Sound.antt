-- ===== src/Rules/Load/Sound.antt =====
-- Sections nest as the rules intend, so no list that is empty is asked for its last element.
use yosys_f4pga_plugins.Prelude.{
  ℕ, ◌≡◌, ◌≢◌, refl, true, false, Bool-cases, Option, none, some, Option-cases, All, List, [], ◌∷◌,
  inl, inr, ◌==◌,
}
use yosys_f4pga_plugins.Prelude.Equality.{Eq}
use yosys_f4pga_plugins.Prelude.Text.{same_text, codes, text_eq}
use yosys_f4pga_plugins.Prelude.Dict.{lookup}
use yosys_f4pga_plugins.Prelude.Words.{split_on, filled, words, onto_first}
use yosys_f4pga_plugins.Rules.{
  Outcome, rejected, thrown, undefined, returned, Kernel, PortType, RegisterType, reversed,
}
use yosys_f4pga_plugins.Rules.Sections.{
  Loader, dsp_rule, enddsp_rule, port_rule, endport_rule, ff_rule, endff_rule,
}
use yosys_f4pga_plugins.Rules.Signals.{
  control_rule, data_rule, require_rule, match_rule, set_rule, map_rule, con_rule,
}
use yosys_f4pga_plugins.Rules.Load.{
  strip_comment, is_blank_line, Rule, chain, rules, apply_fields, load_line, load_lines, start,
  load_rules, to_map, Types,
}
use yosys_f4pga_plugins.Rules.Load.Returns.{Holds, >>=-Holds, Always}
use yosys_f4pga_plugins.Rules.Load.Nested.{
  IsOpen, outside, Keeps, dsp_rule-Keeps, enddsp_rule-Keeps, port_rule-Keeps, endport_rule-Keeps,
  ff_rule-Keeps, endff_rule-Keeps, control_rule-Keeps, data_rule-Keeps, require_rule-Keeps,
  match_rule-Keeps, set_rule-Keeps, map_rule-Keeps, con_rule-Keeps,
}

-- A text that is not blank has a word.
words-nonempty : (s : List ℕ) → words s ≡ [] → is_blank_line s ≡ true
unfolding words filled is_blank_line split_on onto_first
words-nonempty [] h = refl
words-nonempty (c ∷ s) h = elim (Bool-cases (c == b' ')) [
  | inl e ↦ rw e (words-nonempty s (rw e at h))
  | inr e ↦ absurd (starts (split_on b' ' s) (rw e at h))
]
  where
    starts : (ws : List (List ℕ)) → filled (onto_first c ws) ≡ [] → ⊥
    starts [] h = cc
    starts (w ∷ ws) h = cc

module _ {C : Type 0} ⦃const_eq : Eq C⦄ (kernel : Kernel C) where
  -- A rule on a whole state.
  IsSound : Rule C → Type 0
  IsSound rule = (args : List (List ℕ)) (s : Loader C) → IsOpen s → Holds IsOpen (rule args s)

  kept :
      (rule : Rule C)
      → ((aliases names : List (List ℕ)) (p : PortType C) (r : RegisterType C)
            (args : List (List ℕ))
          → Keeps kernel aliases names p r (rule args))
      → IsSound rule
  unfolding IsOpen IsSound
  kept rule k args s h =
      k s.dsp_aliases s.port_names s.port_type s.register_type args s.tok s.dsp_types s.flop_types h

  rules-IsSound : All (λ (e : List ℕ × Rule C). IsSound e.1) (rules kernel)
  unfolding rules
  rules-IsSound = (
    kept (dsp_rule kernel) (λ a n p r. dsp_rule-Keeps kernel a n p r),
    (
      kept (enddsp_rule kernel) (λ a n p r. enddsp_rule-Keeps kernel a n p r),
      (
        kept (port_rule kernel) (λ a n p r. port_rule-Keeps kernel a n p r),
        (
          kept (endport_rule kernel) (λ a n p r. endport_rule-Keeps kernel a n p r),
          (
            kept (ff_rule kernel) (λ a n p r. ff_rule-Keeps kernel a n p r),
            (
              kept (endff_rule kernel) (λ a n p r. endff_rule-Keeps kernel a n p r),
              (
                kept (control_rule kernel (codes "clk"))
                    (λ a n p r. control_rule-Keeps kernel a n p r (codes "clk")),
                (
                  kept (control_rule kernel (codes "rst"))
                      (λ a n p r. control_rule-Keeps kernel a n p r (codes "rst")),
                  (
                    kept (control_rule kernel (codes "ena"))
                        (λ a n p r. control_rule-Keeps kernel a n p r (codes "ena")),
                    (
                      kept (data_rule kernel (codes "d"))
                          (λ a n p r. data_rule-Keeps kernel a n p r (codes "d")),
                      (
                        kept (data_rule kernel (codes "q"))
                            (λ a n p r. data_rule-Keeps kernel a n p r (codes "q")),
                        (
                          kept (require_rule kernel) (λ a n p r. require_rule-Keeps kernel a n p r),
                          (
                            kept (match_rule kernel) (λ a n p r. match_rule-Keeps kernel a n p r),
                            (
                              kept (set_rule kernel) (λ a n p r. set_rule-Keeps kernel a n p r),
                              (
                                kept (map_rule kernel) (λ a n p r. map_rule-Keeps kernel a n p r),
                                (
                                  kept (con_rule kernel) (λ a n p r. con_rule-Keeps kernel a n p r),
                                  tt,
                                ),
                              ),
                            ),
                          ),
                        ),
                      ),
                    ),
                  ),
                ),
              ),
            ),
          ),
        ),
      ),
    ),
  )

  chain-IsSound :
      (rs : List (List ℕ × Rule C)) (field : List ℕ)
      → All (λ (e : List ℕ × Rule C). IsSound e.1) rs
      → IsSound (chain rs field)
  unfolding chain IsSound Holds
  chain-IsSound [] field h args s o = tt
  chain-IsSound ((keyword, rule) ∷ rs) field h args s o =
      elim (Bool-cases (same_text field keyword)) [
        | inl e ↦ rw (chain, e) (h.0 args s o)
        | inr e ↦ rw (chain, e) (chain-IsSound rs field h.1 args s o)
      ]

  load_line-IsOpen :
      (line : List ℕ) (s : Loader C) → IsOpen s → Holds IsOpen (load_line kernel line s)
  unfolding load_line Holds apply_fields IsSound
  load_line-IsOpen line s h = elim (Bool-cases (is_blank_line (strip_comment line))) [
    | inl e ↦ rw (load_line, e) h
    | inr e ↦
        rw (load_line, e)
          (fields (words (strip_comment line)) (words-nonempty (strip_comment line)) e)
  ]
    where
      fields :
          (ws : List (List ℕ))
          → (ws ≡ [] → is_blank_line (strip_comment line) ≡ true)
          → is_blank_line (strip_comment line) ≡ false
          → Holds IsOpen (apply_fields kernel ws s)
      fields [] k e = absurd (cc (k refl, e))
      fields (field ∷ args) k e = chain-IsSound (rules kernel) field rules-IsSound args s h

  -- From a state in which the open sections are nested, and the types are there to which they belong,
  -- reading lines leads to such a state or is an error, and never asks an empty list for its last
  -- element.
  pub load_lines-Holds :
      (lines : List (List ℕ)) (s : Loader C) → IsOpen s → Holds IsOpen (load_lines kernel lines s)
  unfolding load_lines Holds
  load_lines-Holds [] s h = h
  load_lines-Holds (line ∷ lines) s h =
      >>=-Holds IsOpen IsOpen (load_line kernel line s) _ (load_line-IsOpen line s h)
        (λ s' h'. load_lines-Holds lines s' h')

  pub start-IsOpen : IsOpen (start kernel)
  unfolding IsOpen
  start-IsOpen = outside

to_map-Holds :
    {T : Type 0} (name : T → List ℕ) (types : List T) (m : List (List ℕ × T))
    → Holds Always (to_map name types m)
unfolding to_map Holds
to_map-Holds name [] m = tt
to_map-Holds name (t ∷ types) m = elim (Option-cases (lookup (name t) m)) [
  | inl e ↦ rw (to_map, e) (to_map-Holds name types _)
  | inr (u, e) ↦ rw (to_map, e) tt
]

Holds-undefined : {A : Type 0} (P : A → Type 0) (m : Outcome A) → Holds P m → m ≢ undefined
unfolding Holds
Holds-undefined P rejected h e = cc
Holds-undefined P thrown h e = cc
Holds-undefined P undefined h e = h
Holds-undefined P (returned a) h e = cc

pub load_rules-ne-undefined :
    {C : Type 0} ⦃e : Eq C⦄ (kernel : Kernel C) (file : Option (List ℕ)) (types : Types C)
    → load_rules kernel file types ≢ undefined
unfolding load_rules Holds
load_rules-ne-undefined kernel none types h = cc
load_rules-ne-undefined kernel (some content) types h =
    Holds-undefined Always _
      (>>=-Holds IsOpen Always (load_lines kernel (split_on b'\n' content) (start kernel)) _
        (load_lines-Holds kernel (split_on b'\n' content) (start kernel) (start-IsOpen kernel))
        λ s h.
          >>=-Holds Always Always (to_map _ (reversed s.dsp_types []) types.0) _
            (to_map-Holds _ (reversed s.dsp_types []) types.0)
            λ dsps k.
              >>=-Holds Always Always (to_map _ (reversed s.flop_types []) types.1) _
                (to_map-Holds _ (reversed s.flop_types []) types.1) λ flops l. tt)
      h
