-- ===== src/Prelude/Int.antt =====
-- Python's integers where a value may be negative, and their order.
use Prim.Native.Nat.{ℕ}
use mathlib.Core.Path.{◌≡◌}
use mathlib.Core.Bool.{Bool, true, false, not}
use native.Mathlib.Omega.{arith}
use package.crate_probe.Prelude.Tests.{leb}

-- `negsuc n` is -(n + 1).
pub data ℤ : Type 0 where
  pos : ℕ → ℤ
  negsuc : ℕ → ℤ

abbrev pub int_leb : ℤ → ℤ → Bool
int_leb (pos a) (pos b) = leb a b
int_leb (pos a) (negsuc b) = false
int_leb (negsuc a) (pos b) = true
int_leb (negsuc a) (negsuc b) = leb b a

abbrev pub int_ltb : ℤ → ℤ → Bool
int_ltb a b = not (int_leb b a)

pub int_leb_refl : (a : ℤ) → int_leb a a ≡ true
int_leb_refl (pos a) = ground arith
int_leb_refl (negsuc a) = ground arith

pub int_leb_trans : (a b c : ℤ) → int_leb a b ≡ true → int_leb b c ≡ true → int_leb a c ≡ true
int_leb_trans a b c h k = ground arith

pub int_leb_total : (a b : ℤ) → int_leb a b ≡ false → int_leb b a ≡ true
int_leb_total a b h = ground arith

pub int_leb_antisymm : (a b : ℤ) → int_leb a b ≡ true → int_leb b a ≡ true → a ≡ b
int_leb_antisymm a b h k = ground arith
