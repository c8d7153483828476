-- ===== src/Sdc/Clocks.antt =====
-- sdc-plugin/clocks.cc and clocks.h: clocks as attributes of wires, and SdcWriter::WriteClocks of
-- sdc_writer.cc, which prints them.
--
-- RTLIL::Wire with its attributes is an interface, where setting a text that is empty removes the
-- attribute, and so are C++'s floats: `to_string` is std::to_string, `stof` std::stof with `none` for
-- std::invalid_argument, `scan` the call of sscanf, with `none` where it reads less than two numbers,
-- `literal n` the literal n.0, `times` and `over` are the operations on doubles, and `to_int` is the
-- conversion to an int, with `none` where the number does not fit, which C++ leaves undefined. A text
-- that is printed is read back as a number that `to_string`'s six decimals round to.
pub mod Reads
pub mod Target
mod Tests
use yosys_f4pga_plugins.Prelude.{
  ℕ, ◌≡◌, ◌≢◌, Bool, true, false, not, ◌&&◌, ◌||◌, Option, none, some, List, [], ◌∷◌, ◌++◌, ◌==◌,
  ltb, if◌then◌else◌,
}
use yosys_f4pga_plugins.Prelude.Ints.{ℤ, at_most}
use yosys_f4pga_plugins.Prelude.Text.{codes, same_text}

pub record WireApi : Type 1 where
  pub Wire : Type 0
  pub name : Wire → List ℕ
  pub port_input : Wire → Bool
  pub set_string : List ℕ → List ℕ → Wire → Wire
  pub set_bool : List ℕ → Bool → Wire → Wire
  pub has : List ℕ → Wire → Bool
  pub get_string : List ℕ → Wire → List ℕ
  pub get_bool : List ℕ → Wire → Bool
  pub name-set_string : (k v : List ℕ) (w : Wire) → name (set_string k v w) ≡ name w
  pub name-set_bool : (k : List ℕ) (b : Bool) (w : Wire) → name (set_bool k b w) ≡ name w
  pub set_string_self :
      (k v : List ℕ) (w : Wire)
      → (v ≢ [] → has k (set_string k v w) ≡ true) × (get_string k (set_string k v w) ≡ v)
  pub set_bool_self :
      (k : List ℕ) (b : Bool) (w : Wire)
      → (has k (set_bool k b w) ≡ b) × (get_bool k (set_bool k b w) ≡ b)
  pub set_string_other :
      (j k v : List ℕ) (w : Wire)
      → same_text j k ≡ false
      → (has j (set_string k v w) ≡ has j w)
        × (get_string j (set_string k v w) ≡ get_string j w)
        × (get_bool j (set_string k v w) ≡ get_bool j w)

pub record FloatApi : Type 1 where
  pub Float : Type 0
  pub zero_float : Float
  pub is_zero : Float → Bool
  pub half : Float → Float
  pub to_string : Float → List ℕ
  pub shown : Float → List ℕ
  pub stof : List ℕ → Option Float
  pub scan : List ℕ → Option (Float × Float)
  pub Double : Type 0
  pub to_double : Float → Double
  pub literal : ℕ → Double
  pub times : Double → Double → Double
  pub over : Double → Double → Double
  pub to_int : Double → Option ℤ
  pub rounded : Float → Float
  pub to_string-nonempty : (x : Float) → to_string x ≢ []
  pub stof-to_string : (x : Float) → stof (to_string x) ≡ some (rounded x)
  pub scan-to_string :
      (x y : Float) → scan (to_string x ++ (b' ' ∷ to_string y)) ≡ some (rounded x, rounded y)

pub data ClockType : Type 0 where
  explicit generated propagated : ClockType

-- type == GENERATED, type == EXPLICIT, type == PROPAGATED
abbrev pub is_generated_type : ClockType → Bool
is_generated_type explicit = false
is_generated_type generated = true
is_generated_type propagated = false

abbrev pub is_explicit_type : ClockType → Bool
is_explicit_type explicit = true
is_explicit_type generated = false
is_explicit_type propagated = false

abbrev pub is_propagated_type : ClockType → Bool
is_propagated_type explicit = false
is_propagated_type generated = false
is_propagated_type propagated = true

-- std::regex_replace of each $ by \$
unfoldable pub add_escaping : List ℕ → List ℕ
add_escaping [] = []
add_escaping (c ∷ s) = let rest = add_escaping s in if c == b'$' then b'\\' ∷ c ∷ rest else c ∷ rest

-- std::string's order of keys
unfoldable pub text_less : List ℕ → List ℕ → Bool
text_less s [] = false
text_less [] (c ∷ t) = true
text_less (b ∷ s) (c ∷ t) = ltb b c || (b == c && text_less s t)

-- How UpdateAbc9DelayTarget ends: with the error or the exception of Clock::Period, with a number that
-- does not fit an int, or with the value of abc9.D.
pub data Delay : Type 0 where
  failed undefined : Delay
  returned : ℤ → Delay

-- std::min
unfoldable pub min : ℤ → ℤ → ℤ
unfolding at_most
min a b = if at_most a b then a else b

module _ (api : WireApi) (floats : FloatApi) where
  open api use {Wire, name, port_input, set_string, set_bool, has, get_string, get_bool}
  open floats use {
    Float, zero_float, is_zero, half, to_string, shown, stof, scan, to_double, literal, times, over,
    to_int,
  }

  unfoldable pub wire_name : Wire → List ℕ
  unfolding add_escaping
  wire_name w = add_escaping (name w)

  -- Clock::Add with a name
  unfoldable pub add_clock : List ℕ → Wire → Float → Float → Float → ClockType → Wire
  unfolding wire_name
  add_clock clock w period rising falling type =
      let w1 = set_string (codes "CLOCK_SIGNAL") (codes "yes") w in
      let w2 = set_bool (codes "IS_GENERATED") (is_generated_type type) w1 in
      let w3 = set_bool (codes "IS_EXPLICIT") (is_explicit_type type) w2 in
      let w4 = set_bool (codes "IS_PROPAGATED") (is_propagated_type type) w3 in
      let w5 = set_string (codes "CLASS") (codes "clock") w4 in
      let w6 = set_string (codes "NAME") clock w5 in
      let w7 = set_string (codes "SOURCE_WIRES") (wire_name w6) w6 in
      let w8 = set_string (codes "PERIOD") (to_string period) w7 in
      set_string (codes "WAVEFORM") (to_string rising ++ (b' ' ∷ to_string falling)) w8

  -- Clock::Period; `none` is log_cmd_error.
  unfoldable pub period_of : Wire → Option Float
  period_of w = if has (codes "PERIOD") w then stof (get_string (codes "PERIOD") w) else none

  -- Clock::Waveform
  unfoldable pub waveform : Wire → Option (Float × Float)
  unfolding period_of
  waveform w =
      if has (codes "WAVEFORM") w
      then scan (get_string (codes "WAVEFORM") w)
      else elim (period_of w) [
        | none ↦ none
        | some period ↦ if is_zero period then none else some (zero_float, half period)
      ]

  unfoldable pub clock_name : Wire → List ℕ
  clock_name w = if has (codes "NAME") w then get_string (codes "NAME") w else wire_name w

  unfoldable pub source_wire_name : Wire → List ℕ
  unfolding clock_name
  source_wire_name w =
      if has (codes "SOURCE_WIRES") w then get_string (codes "SOURCE_WIRES") w else clock_name w

  -- GetClockWireBoolAttribute
  unfoldable pub bool_attribute : List ℕ → Wire → Bool
  bool_attribute key w = if has key w then get_bool key w else false

  -- insert into a std::map: keys in their order, and a key that is there keeps its wire.
  unfoldable pub insert_clock : List ℕ → Wire → List (List ℕ × Wire) → List (List ℕ × Wire)
  insert_clock key w [] = (key, w) ∷ []
  insert_clock key w ((k, v) ∷ m) =
      let rest = insert_clock key w m in
      if same_text k key
      then (k, v) ∷ m
      else if text_less key k
      then (key, w) ∷ (k, v) ∷ m
      else (k, v) ∷ rest

  abbrev pub is_clock : Wire → Bool
  is_clock w =
      has (codes "CLOCK_SIGNAL") w && same_text (get_string (codes "CLOCK_SIGNAL") w) (codes "yes")

  -- Clocks::GetClocks, on the wires of the top module
  unfoldable pub get_clocks : List Wire → List (List ℕ × Wire) → List (List ℕ × Wire)
  unfolding insert_clock wire_name
  get_clocks [] m = m
  get_clocks (w ∷ wires) m =
      get_clocks wires (if is_clock w then insert_clock (wire_name w) w m else m)

  -- int period_ps = period * 1000.0 / 2.0
  unfoldable pub period_ps : Float → Option ℤ
  period_ps period = to_int (over (times (to_double period) (literal 1000)) (literal 2))

  -- The loop of UpdateAbc9DelayTarget over the clocks; the number is abc9.D of the scratchpad.
  unfoldable pub update_delay : List (List ℕ × Wire) → ℤ → Delay
  unfolding period_of period_ps min
  update_delay [] delay = returned delay
  update_delay ((k, w) ∷ clocks) delay = elim (period_of w) [
    | none ↦ failed
    | some period ↦ elim (period_ps period) [
      | none ↦ undefined
      | some ps ↦ update_delay clocks (min delay ps)
    ]
  ]

  unfoldable pub update_abc9_delay_target : List Wire → ℤ → Delay
  unfolding get_clocks update_delay
  update_abc9_delay_target wires delay = update_delay (get_clocks wires []) delay

  -- One line of WriteClocks.
  unfoldable pub write_clock : Wire → Option (List ℕ)
  unfolding period_of waveform source_wire_name
  write_clock w = elim (period_of w) [
    | none ↦ none
    | some period ↦ elim (waveform w) [
      | none ↦ none
      | some edges ↦ some (
          codes "create_clock -period "
          ++ (shown period
              ++ (codes " -waveform {"
                  ++ (shown edges.0
                      ++ ((b' ' ∷ shown edges.1)
                          ++ (codes "} " ++ (source_wire_name w ++ (b'\n' ∷ []))))))))
    ]
  ]

  -- The loop of WriteClocks: input ports are left out, and propagated clocks unless asked for.
  unfoldable pub write_clock_lines : Bool → List (List ℕ × Wire) → Option (List ℕ)
  unfolding write_clock bool_attribute
  write_clock_lines include_propagated [] = some []
  write_clock_lines include_propagated ((k, w) ∷ clocks) =
      let rest = write_clock_lines include_propagated clocks in
      if port_input w || (bool_attribute (codes "IS_PROPAGATED") w && not include_propagated)
      then rest
      else elim (write_clock w) [
        | none ↦ none
        | some line ↦ elim rest [ none ↦ none | some lines ↦ some (line ++ lines) ]
      ]

  unfoldable pub write_clocks : Bool → List Wire → Option (List ℕ)
  unfolding write_clock_lines get_clocks
  write_clocks include_propagated wires = write_clock_lines include_propagated (get_clocks wires [])
