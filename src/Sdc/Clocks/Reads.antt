-- ===== src/Sdc/Clocks/Reads.antt =====
-- What is read from a wire after `Clock::Add`.
use mathlib.Core.Path.{subst}
use yosys_f4pga_plugins.Prelude.{
  ℕ, ◌≡◌, ◌≢◌, refl, sym, ap, ◌∙◌, Bool, true, false, some, List, [], ◌∷◌, ◌++◌,
}
use yosys_f4pga_plugins.Prelude.Text.{codes, same_text}
use yosys_f4pga_plugins.Sdc.Clocks.{
  WireApi, FloatApi, ClockType, is_propagated_type, is_generated_type, is_explicit_type,
  add_escaping, add_clock, wire_name, period_of, waveform, clock_name, source_wire_name,
  bool_attribute,
}

module _ (api : WireApi) (floats : FloatApi) where
  open api use {
    Wire, name, has, get_string, get_bool, set_string, set_bool, name-set_string, name-set_bool,
    set_string_self, set_bool_self, set_string_other,
  }
  open floats use {Float, rounded, to_string, to_string-nonempty, stof-to_string, scan-to_string}

  -- An attribute that was set to a text, and kept by the settings after it.
  record Holds (k v : List ℕ) (w : Wire) : Type 0 where
    there : has k w ≡ true
    value : get_string k w ≡ v

  set-Holds : (k v : List ℕ) (w : Wire) → v ≢ [] → Holds k v (set_string k v w)
  set-Holds k v w ne = let (h, g) = set_string_self k v w in record { there = h ne; value = g }

  keep-Holds :
      (j k u v : List ℕ) (w : Wire)
      → same_text j k ≡ false
      → Holds j u w
      → Holds j u (set_string k v w)
  keep-Holds j k u v w d h =
      let (a, b, c) = set_string_other j k v w d in
      record { there = a ∙ h.there; value = b ∙ h.value }

  -- What the functions of `Clock` read from a wire.
  pub record ReadsAs (clock source : List ℕ) (period rising falling : Float) (is_propagated : Bool)
      (w : Wire) : Type 0 where
    pub name_read : clock_name api floats w ≡ clock
    pub source_read : source_wire_name api floats w ≡ source
    pub period_read : period_of api floats w ≡ some period
    pub waveform_read : waveform api floats w ≡ some (rising, falling)
    pub propagated_read : bool_attribute api floats (codes "IS_PROPAGATED") w ≡ is_propagated

  bool_attribute-kept :
      (j k v : List ℕ) (w : Wire)
      → same_text j k ≡ false
      → bool_attribute api floats j (set_string k v w) ≡ bool_attribute api floats j w
  unfolding bool_attribute
  bool_attribute-kept j k v w d = let (a, b, c) = set_string_other j k v w d in rw (a, c) refl

  bool_attribute-set :
      (k : List ℕ) (b : Bool) (w : Wire) → bool_attribute api floats k (set_bool k b w) ≡ b
  unfolding bool_attribute
  bool_attribute-set k true w = let (h, g) = set_bool_self k true w in rw (h, g) refl
  bool_attribute-set k false w = let (h, g) = set_bool_self k false w in rw h refl

  -- A text with something in front is not empty.
  append-nonempty : (s t : List ℕ) → s ≢ [] → s ++ t ≢ []
  append-nonempty [] t h = absurd (h refl)
  append-nonempty (c ∷ s) t h = λ e. cc

  -- The texts that are set last.
  texts : List ℕ → List ℕ → Float → Float → Float → Wire → Wire
  texts clock source period rising falling w =
      let w5 = set_string (codes "CLASS") (codes "clock") w in
      let w6 = set_string (codes "NAME") clock w5 in
      let w7 = set_string (codes "SOURCE_WIRES") source w6 in
      let w8 = set_string (codes "PERIOD") (to_string period) w7 in
      set_string (codes "WAVEFORM") (to_string rising ++ (b' ' ∷ to_string falling)) w8

  texts-name :
      (clock source : List ℕ) (period rising falling : Float) (w : Wire)
      → clock ≢ []
      → Holds (codes "NAME") clock (texts clock source period rising falling w)
  unfolding texts same_text
  texts-name clock source period rising falling w c =
      keep-Holds _ _ _ _ _ refl
        (keep-Holds _ _ _ _ _ refl (keep-Holds _ _ _ _ _ refl (set-Holds (codes "NAME") clock _ c)))

  texts-source :
      (clock source : List ℕ) (period rising falling : Float) (w : Wire)
      → source ≢ []
      → Holds (codes "SOURCE_WIRES") source (texts clock source period rising falling w)
  unfolding texts same_text
  texts-source clock source period rising falling w c =
      keep-Holds _ _ _ _ _ refl
        (keep-Holds _ _ _ _ _ refl (set-Holds (codes "SOURCE_WIRES") source _ c))

  texts-period :
      (clock source : List ℕ) (period rising falling : Float) (w : Wire)
      → Holds (codes "PERIOD") (to_string period) (texts clock source period rising falling w)
  unfolding texts same_text
  texts-period clock source period rising falling w =
      keep-Holds _ _ _ _ _ refl
        (set-Holds (codes "PERIOD") (to_string period) _ (to_string-nonempty period))

  texts-waveform :
      (clock source : List ℕ) (period rising falling : Float) (w : Wire)
      → Holds
          (codes "WAVEFORM")
          (to_string rising ++ (b' ' ∷ to_string falling))
          (texts clock source period rising falling w)
  unfolding texts
  texts-waveform clock source period rising falling w =
      set-Holds (codes "WAVEFORM") _ _ (append-nonempty _ _ (to_string-nonempty rising))

  texts-bool_attribute :
      (clock source : List ℕ) (period rising falling : Float) (w : Wire)
      → bool_attribute api floats
          (codes "IS_PROPAGATED")
          (texts clock source period rising falling w)
        ≡ bool_attribute api floats (codes "IS_PROPAGATED") w
  unfolding texts same_text
  texts-bool_attribute clock source period rising falling w =
      bool_attribute-kept _ _ _ _ refl
      ∙ bool_attribute-kept _ _ _ _ refl
      ∙ bool_attribute-kept _ _ _ _ refl
      ∙ bool_attribute-kept _ _ _ _ refl
      ∙ bool_attribute-kept _ _ _ _ refl

  texts-ReadsAs :
      (clock source : List ℕ) (period rising falling : Float) (w : Wire)
      → clock ≢ []
      → source ≢ []
      → ReadsAs clock source
          (rounded period)
          (rounded rising)
          (rounded falling)
          (bool_attribute api floats (codes "IS_PROPAGATED") w)
          (texts clock source period rising falling w)
  unfolding clock_name source_wire_name period_of waveform
  texts-ReadsAs clock source period rising falling w c s =
      let n = texts-name clock source period rising falling w c in
      let o = texts-source clock source period rising falling w s in
      let p = texts-period clock source period rising falling w in
      let v = texts-waveform clock source period rising falling w in
      record {
        name_read = rw (n.there, n.value) refl;
        source_read = rw (o.there, o.value) refl;
        period_read = rw (p.there, p.value) (stof-to_string period);
        waveform_read = rw (v.there, v.value) (scan-to_string rising falling);
        propagated_read = texts-bool_attribute clock source period rising falling w;
      }

  pub add_clock-ReadsAs :
      (clock : List ℕ) (w : Wire) (period rising falling : Float) (type : ClockType)
      → clock ≢ []
      → wire_name api floats w ≢ []
      → ReadsAs clock
          (wire_name api floats w)
          (rounded period)
          (rounded rising)
          (rounded falling)
          (is_propagated_type type)
          (add_clock api floats clock w period rising falling type)
  unfolding add_clock texts wire_name
  add_clock-ReadsAs clock w period rising falling type c s =
      let w1 = set_string (codes "CLOCK_SIGNAL") (codes "yes") w in
      let w2 = set_bool (codes "IS_GENERATED") (is_generated_type type) w1 in
      let w3 = set_bool (codes "IS_EXPLICIT") (is_explicit_type type) w2 in
      let w4 = set_bool (codes "IS_PROPAGATED") (is_propagated_type type) w3 in
      let same_name =
        name-set_string _ _ _
        ∙ name-set_string _ _ w4
        ∙ name-set_bool _ _ w3
        ∙ name-set_bool _ _ w2
        ∙ name-set_bool _ _ w1
        ∙ name-set_string _ _ w in
      let source = wire_name api floats w in
      let Reads = ReadsAs clock source (rounded period) (rounded rising) (rounded falling) in
      subst (λ src. Reads (is_propagated_type type) (texts clock src period rising falling w4))
        (sym (ap add_escaping same_name))
        (subst (λ b. Reads b (texts clock source period rising falling w4))
          (bool_attribute-set (codes "IS_PROPAGATED") (is_propagated_type type) w3)
          (texts-ReadsAs clock source period rising falling w4 c s))
