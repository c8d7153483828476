-- ===== src/Prelude/Text.antt =====
-- Texts: the native `String` for whole texts, and lists of code points where the source walks bytes.
use Prim.Native.Char.{code}
use Prim.Native.String.{String}
use Prim.Native.Nat.{ℕ, zero, suc, ◌+◌, ◌/◌, ◌%◌}
use mathlib.Core.Path.{◌≡◌, refl}
use mathlib.Core.Logic.{◌↔◌}
use mathlib.Core.Bool.{Bool, true, false, ◌&&◌}
use mathlib.Core.Option.{Option, none, some}
use mathlib.Core.List.{List, [], ◌∷◌, ◌++◌}
use native.Mathlib.Omega.{arith}
use yosys_f4pga_plugins.Prelude.Tests.{ltb, ◌==◌, ==_self, if◌then◌else◌}
use yosys_f4pga_plugins.Prelude.Equality.{Eq}
pub use Prim.Native.String.{String, ◌++◌ as str_append}
pub use text.Mathlib.Text.{◌==◌ as str_eq, starts_with}
pub use text.Mathlib.TextEquality.{eq_iff}
pub use text.Mathlib.TextPositions.{eq_refl}

-- The code points of a text: its bytes, if it is ASCII.
abbrev pub codes : String → List ℕ
codes String.[] = []
codes (String.◌∷◌ c s) = code c ∷ codes s

-- printf's %d of a number that is not negative, by fuel; a number has fewer digits than its value
-- plus one.
unfoldable pub decimal_loop : ℕ → ℕ → List ℕ → List ℕ
decimal_loop zero n acc = acc
decimal_loop (suc fuel) n acc =
    let rest = decimal_loop fuel (n / 10) ((b'0' + n % 10) ∷ acc) in
    if ltb n 10 then (b'0' + n) ∷ acc else rest

unfoldable pub decimal : ℕ → List ℕ
unfolding decimal_loop
decimal n = decimal_loop (suc n) n []

-- Texts of character codes, compared.
unfoldable pub same_text : List ℕ → List ℕ → Bool
same_text [] [] = true
same_text (a ∷ s) (b ∷ t) = a == b && same_text s t
same_text _ _ = false

pub same_text_iff : (s t : List ℕ) → (same_text s t ≡ true) ↔ (s ≡ t)
unfolding same_text
same_text_iff [] [] = (λ h. refl, λ h. refl)
same_text_iff [] (b ∷ t) = (λ h. cc, λ h. cc)
same_text_iff (a ∷ s) [] = (λ h. cc, λ h. cc)
same_text_iff (a ∷ s) (b ∷ t) =
    (λ h. ground (arith, same_text_iff s t), λ h. ground (arith, same_text_iff s t))

-- The rest of a text behind a prefix.
unfoldable pub strip : List ℕ → List ℕ → Option (List ℕ)
strip [] s = some s
strip (a ∷ p) [] = none
strip (a ∷ p) (b ∷ s) = let rest = strip p s in if a == b then rest else none

pub strip-append : (p s : List ℕ) → strip p (p ++ s) ≡ some s
unfolding strip
strip-append [] s = refl
strip-append (a ∷ p) s = rw (==_self a) (strip-append p s)

instance abbrev pub text_eq : Eq (List ℕ)
text_eq = record { beq = same_text; beq_iff = same_text_iff }
