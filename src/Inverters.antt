-- ===== src/Inverters.antt =====
-- integrateinv-plugin/integrateinv.cc: the pass `integrateinv`.
--
-- The cells of a module are at their positions in a list, which stand for their pointers, and a cell
-- that was removed leaves `none`. A bit is of a type with a comparison; what the pass asks of the
-- design is a record of functions. A failed assertion, `log_error`, a key that `at` does not find and
-- a read through a null or removed pointer end the pass, and are `none`.
pub mod Collect
pub mod Integrate
use yosys_f4pga_plugins.Prelude.{
  ℕ, zero, suc, ◌≡◌, refl, Bool, true, false, ◌&&◌, Option, none, some, List, [], ◌∷◌, map, ◌==◌,
  length, get_elem?, set, replicate, ltb, if◌then◌else◌, ==_iff, arith, ◌↔◌,
}
use yosys_f4pga_plugins.Prelude.Equality.{Eq}
use yosys_f4pga_plugins.Prelude.Text.{codes, same_text, same_text_iff, text_eq}
use yosys_f4pga_plugins.Prelude.Options.{◌>>=◌, ◌>>◌, check}
use yosys_f4pga_plugins.Prelude.Dict.{lookup, put, insert}

-- RTLIL::State
pub data State : Type 0 where
  s0 s1 sx sz sa sm : State

pub record Cell (B : Type 0) : Type 0 where
  pub type : List ℕ
  pub connections : List (List ℕ × List B)
  pub parameters : List (List ℕ × List State)

abbrev pub Cells : Type 0 → Type 0
Cells B = List (Option (Cell B))

-- The cell of a pin is `none` for a port of the module itself.
pub record Pin : Type 0 where
  pub cell : Option ℕ
  pub port : List ℕ
  pub bit : ℕ

unfoldable pub same_cell : Option ℕ → Option ℕ → Bool
same_cell none none = true
same_cell (some i) (some j) = i == j
same_cell _ _ = false

unfoldable pub same_pin : Pin → Pin → Bool
unfolding same_cell
same_pin l r = same_cell l.cell r.cell && (same_text l.port r.port && l.bit == r.bit)

same_cell_iff : (c d : Option ℕ) → (same_cell c d ≡ true) ↔ (c ≡ d)
unfolding same_cell
same_cell_iff none none = (λ h. refl, λ h. refl)
same_cell_iff none (some j) = (λ h. cc, λ h. cc)
same_cell_iff (some i) none = (λ h. cc, λ h. cc)
same_cell_iff (some i) (some j) = (λ h. ground arith, λ h. ground arith)

pub same_pin_iff : (l r : Pin) → (same_pin l r ≡ true) ↔ (l ≡ r)
unfolding same_pin
same_pin_iff l r = (
  λ h. ground (arith, same_cell_iff l.cell r.cell, same_text_iff l.port r.port),
  λ h. ground (arith, same_cell_iff l.cell r.cell, same_text_iff l.port r.port),
)

instance abbrev pub pin_eq : Eq Pin
pin_eq = record { beq = same_pin; beq_iff = same_pin_iff }

-- RTLIL::Wire, as far as the pass reads it.
pub record Wire : Type 0 where
  pub name : List ℕ
  pub port_output : Bool

-- What the pass asks of the design: the canonical bit of a bit (SigMap), the wire of a bit, which is
-- `none` for a constant, the direction of a port of a cell type, the parameter that the attribute
-- `invertible_pin` of a port names, `none` where there is no such module, wire or attribute, and the
-- module's own connections.
pub record Design (B : Type 0) : Type 0 where
  pub sig_map : B → B
  pub wire : B → Option Wire
  pub input : List ℕ → List ℕ → Bool
  pub output : List ℕ → List ℕ → Bool
  pub invertible_pin : List ℕ → List ℕ → Option (List ℕ)
  pub connections : List (List B × List B)

abbrev pub not_type : List ℕ
not_type = codes "$_NOT_"

abbrev pub y_port : List ℕ
y_port = codes "Y"

abbrev pub a_port : List ℕ
a_port = codes "A"

-- A cell that is still in the module.
unfoldable pub get_cell : {B : Type 0} → Cells B → ℕ → Option (Cell B)
get_cell cells i = get_elem? cells i >>= λ c. c

-- cell->getPort(port)[bit], or .bits().at(bit)
unfoldable pub port_bit : {B : Type 0} → Cell B → List ℕ → ℕ → Option B
unfolding lookup
port_bit c port bit = lookup port c.connections >>= λ bits. get_elem? bits bit

-- From a number on, so many numbers.
unfoldable pub range : ℕ → ℕ → List ℕ
range k zero = []
range k (suc n) = k ∷ range (suc k) n

abbrev pub ports_of : {B : Type 0} → Cell B → List (List ℕ)
ports_of c = map (λ e. e.0) c.connections
