-- ===== src/Prelude/Ints.antt =====
-- Integers over the native numbers, and their order.
use Prim.Native.Nat.{ℕ}
use mathlib.Core.Path.{◌≡◌, refl}
use mathlib.Core.Bool.{Bool, true, false}
use yosys_f4pga_plugins.Prelude.Tests.{leb}
use native.Mathlib.Omega.{arith}

pub data ℤ : Type 0 where
  pos negsuc : ℕ → ℤ

unfoldable pub at_most : ℤ → ℤ → Bool
at_most (pos a) (pos b) = leb a b
at_most (pos a) (negsuc b) = false
at_most (negsuc a) (pos b) = true
at_most (negsuc a) (negsuc b) = leb b a

pub at_most_refl : (a : ℤ) → at_most a a ≡ true
unfolding at_most
at_most_refl (pos a) = ground arith
at_most_refl (negsuc a) = ground arith

pub at_most_trans : (a b c : ℤ) → at_most a b ≡ true → at_most b c ≡ true → at_most a c ≡ true
unfolding at_most
at_most_trans (pos a) (pos b) (pos c) h k = ground arith
at_most_trans (pos a) (pos b) (negsuc c) h k = absurd (cc k)
at_most_trans (pos a) (negsuc b) c h k = absurd (cc h)
at_most_trans (negsuc a) b (pos c) h k = refl
at_most_trans (negsuc a) (pos b) (negsuc c) h k = absurd (cc k)
at_most_trans (negsuc a) (negsuc b) (negsuc c) h k = ground arith

pub at_most_total : (a b : ℤ) → at_most a b ≡ false → at_most b a ≡ true
unfolding at_most
at_most_total (pos a) (pos b) h = ground arith
at_most_total (pos a) (negsuc b) h = refl
at_most_total (negsuc a) (pos b) h = absurd (cc h)
at_most_total (negsuc a) (negsuc b) h = ground arith
