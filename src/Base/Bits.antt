-- ===== src/Base/Bits.antt =====
-- The bits of a number, and `|` and `&` bit by bit at every width.
use Prim.Native.Nat.{
  ℕ, zero, suc, ◌+◌, ◌*◌, ◌/◌, ◌%◌, ◌^◌, ◌≤◌, min, max, bit_and, bit_or, digits, bitwise,
  bit_and-bitwise, bit_or-bitwise,
}
use mathlib.Core.Path.{◌≡◌, refl, ap, ◌∙◌}
use native.Mathlib.Nat.{pow-suc, le_refl}
use native.Mathlib.Omega.{arith}

-- Bit `i` of `x`.
abbrev pub testbit : ℕ → ℕ → ℕ
testbit zero x = x % 2
testbit (suc i) x = testbit i (x / 2)

-- The native operations are a recursion on binary digits with fuel; the fuel does not matter.
module _ (z : ℕ → ℕ) (f : ℕ → ℕ → ℕ) where
  any_fuel : (n m a b : ℕ) → a ≤ n → a ≤ m → digits z f n a b ≡ digits z f m a b
  any_fuel zero zero a b p q = refl
  any_fuel zero (suc m) zero b p q = refl
  any_fuel zero (suc m) (suc a) b p q = absurd (omega arith)
  any_fuel (suc n) zero zero b p q = refl
  any_fuel (suc n) zero (suc a) b p q = absurd (omega arith)
  any_fuel (suc n) (suc m) zero b p q = refl
  any_fuel (suc n) (suc m) (suc a) b p q =
      rw (any_fuel n m (suc a / 2) (b / 2) (omega arith) (omega arith))

  lowest_digit :
      (a b : ℕ)
      → bitwise z f (suc a) b ≡ bitwise z f (suc a / 2) (b / 2) * 2 + f (suc a % 2) (b % 2)
  lowest_digit a b =
      omega (arith, any_fuel a (suc a / 2) (suc a / 2) (b / 2) (omega arith) (le_refl _))

or_digit : (a b : ℕ) → bit_or a b ≡ bit_or (a / 2) (b / 2) * 2 + max (a % 2) (b % 2)
or_digit zero b = simp bit_or-bitwise (omega arith)
or_digit (suc a) b = simp bit_or-bitwise (lowest_digit (λ y. y) max a b)

and_digit : (a b : ℕ) → bit_and a b ≡ bit_and (a / 2) (b / 2) * 2 + min (a % 2) (b % 2)
and_digit zero b = simp bit_and-bitwise (omega arith)
and_digit (suc a) b = simp bit_and-bitwise (lowest_digit (λ y. 0) min a b)

pub testbit-bit_or : (i a b : ℕ) → testbit i (bit_or a b) ≡ max (testbit i a) (testbit i b)
testbit-bit_or zero a b = omega (arith, or_digit a b)
testbit-bit_or (suc i) a b =
    ap (testbit i) (omega (arith, or_digit a b)) ∙ testbit-bit_or i (a / 2) (b / 2)

pub testbit-bit_and : (i a b : ℕ) → testbit i (bit_and a b) ≡ min (testbit i a) (testbit i b)
testbit-bit_and zero a b = omega (arith, and_digit a b)
testbit-bit_and (suc i) a b =
    ap (testbit i) (omega (arith, and_digit a b)) ∙ testbit-bit_and i (a / 2) (b / 2)

pub testbit-le : (i x : ℕ) → testbit i x ≤ 1
testbit-le zero x = omega arith
testbit-le (suc i) x = testbit-le i (x / 2)

pub testbit-zero : (i : ℕ) → testbit i 0 ≡ 0
testbit-zero zero = refl
testbit-zero (suc i) = testbit-zero i

-- 2 ^ j has one bit.
pub testbit-pow_self : (j : ℕ) → testbit j (2 ^ j) ≡ 1
testbit-pow_self zero = refl
testbit-pow_self (suc j) = ap (testbit j) (omega (arith, pow-suc 2 j)) ∙ testbit-pow_self j

pub testbit-pow_ne : (i j : ℕ) → testbit i (2 ^ j) ≡ 1 → i ≡ j
testbit-pow_ne zero zero h = refl
testbit-pow_ne zero (suc j) h = absurd (omega (arith, pow-suc 2 j))
testbit-pow_ne (suc i) zero h = absurd (omega (arith, testbit-zero i))
testbit-pow_ne (suc i) (suc j) h =
    ap suc (testbit-pow_ne i j (ap (testbit i) (omega (arith, pow-suc 2 j)) ∙ h))

-- A mask of one bit.
pub bit_and-pow : (a n : ℕ) → testbit a n ≡ 1 → bit_and (2 ^ a) n ≡ 2 ^ a
bit_and-pow zero n h = omega (arith, and_digit 1 n, bit_and-bitwise 0 (n / 2))
bit_and-pow (suc a) n h = omega (
  arith,
  and_digit (2 ^ suc a) n,
  pow-suc 2 a,
  ap (λ (t : ℕ). bit_and t (n / 2)) (e a),
  bit_and-pow a (n / 2) h,
)
  where
    e : (a : ℕ) → 2 ^ suc a / 2 ≡ 2 ^ a
    e a = omega (arith, pow-suc 2 a)

pub testbit_of_mask : (a n : ℕ) → bit_and (2 ^ a) n ≡ 2 ^ a → testbit a n ≡ 1
testbit_of_mask a n h =
    omega (arith, testbit-bit_and a (2 ^ a) n, ap (testbit a) h, testbit-pow_self a, testbit-le a n)
