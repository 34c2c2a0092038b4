-- ===== src/Base/Int.antt =====
-- Signed integers over the native numbers, under the library's names, and the two's complement
-- patterns of C. `m` is the number of patterns, 2 ^ w for a type of `w` bits.
use native.Mathlib.Nat.{mod-eq_of_lt}
use mathlib.Core.Logic.{inl, inr}
use extunix.Base.Tests.{Bool-cases, ltb, if◌then◌else◌}
use Prim.Native.Nat.{ℕ, ◌-◌, ◌*◌, ◌%◌, ◌<◌, ◌^◌}
use mathlib.Core.Path.{◌≡◌}
use native.Mathlib.Omega.{arith}

-- `negsuc n` is -(n + 1).
pub data ℤ : Type 0 where
  pos : ℕ → ℤ
  negsuc : ℕ → ℤ

-- The conversion of an integer to a type with `m` patterns.
unfoldable pub pattern : ℕ → ℤ → ℕ
pattern m (pos n) = n % m
pattern m (negsuc n) = m - 1 - n % m

-- The integer that a pattern stands for in a signed type.
unfoldable pub signed : ℕ → ℕ → ℤ
signed m x = if ltb (2 * x) m then pos x else negsuc (m - 1 - x)

-- The integers of the signed type with `2 * h` patterns.
abbrev pub InSigned : ℕ → ℤ → Type 0
InSigned h (pos n) = n < h
InSigned h (negsuc n) = n < h

-- `Int_val`, to an `int` of 32 bits
unfoldable pub int_val : ℤ → ℤ
int_val z = signed (2 ^ 32) (pattern (2 ^ 32) z)

pub pattern-lt : (m : ℕ) (z : ℤ) → 0 < m → pattern m z < m
unfolding pattern
pattern-lt m (pos n) h = grind arith
pattern-lt m (negsuc n) h = omega arith

pub signed-pattern : (h : ℕ) (z : ℤ) → InSigned h z → signed (2 * h) (pattern (2 * h) z) ≡ z
unfolding signed pattern
signed-pattern h (pos n) r = rw (mod-eq_of_lt {n = n} {m = 2 * h} (omega arith)) (ground arith)
signed-pattern h (negsuc n) r = rw (mod-eq_of_lt {n = n} {m = 2 * h} (omega arith)) (ground arith)

pub pattern-signed : (m x : ℕ) → x < m → pattern m (signed m x) ≡ x
unfolding signed pattern
pattern-signed m x r = elim (Bool-cases (ltb (2 * x) m)) [
  | inl low ↦ rw low (mod-eq_of_lt r)
  | inr high ↦ rw (high, mod-eq_of_lt {n = m - 1 - x} {m = m} (omega arith)) (omega arith)
]

-- An `int` of C survives `Int_val`.
pub int_val-InSigned : (z : ℤ) → InSigned (2 ^ 31) z → int_val z ≡ z
unfolding int_val
int_val-InSigned z r = signed-pattern (2 ^ 31) z r
