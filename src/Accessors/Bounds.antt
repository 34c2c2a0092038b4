-- ===== src/Accessors/Bounds.antt =====
-- The check of an offset refuses the places that do not lie in the string, and no other.
use native.Mathlib.Nat.{mod-eq_of_lt}
use extunix.Base.{
  ℕ, ◌+◌, ◌-◌, ◌^◌, ◌≤◌, ◌<◌, ◌≡◌, ◌⊎◌, refl, inl, inr, Bool, true, false, not, arith, ltb, leb,
  Bool-cases,
}
use extunix.Base.Int.{ℤ, pos, negsuc, pattern, InSigned}
use extunix.Checked.{Checked, invalid_arg, ran, room, is_above}
use extunix.Accessors.{
  Kind, uint8, int8, uint16, int16, uint31, int31, int32, uint63, int63, int64, is_past,
  checked_access,
}
use extunix.Accessors.Types.{read_type}

-- A place of `w` bytes is past the end or inside.
abbrev Side : Bool → ℕ → ℕ → ℕ → Type 0
Side past n w size = ((past ≡ true) × (size < n + w)) ⊎ ((past ≡ false) × (n + w ≤ size))

above-Side : (n w size : ℕ) → Side (is_above (pos n) (room size (pos w))) n w size
above-Side n w size = elim (Bool-cases (leb w size)) [
  | inl fits ↦ elim (Bool-cases (ltb (size - w) n)) [
    | inl high ↦ inl (rw fits high, ground arith)
    | inr low ↦ inr (rw fits low, ground arith)
  ]
  | inr long ↦ inl (rw long refl, ground arith)
]

byte-Side : (n size : ℕ) → Side (not (is_above (pos size) (pos n))) n 1 size
byte-Side n size = elim (Bool-cases (ltb n size)) [
  | inl low ↦ inr (rw low refl, ground arith)
  | inr high ↦ inl (rw high refl, ground arith)
]

is_past-Side : (k : Kind) (n size : ℕ) → Side (is_past k (pos n) size) n (read_type k).size size
is_past-Side uint8 n size = byte-Side n size
is_past-Side int8 n size = byte-Side n size
is_past-Side uint16 n size = above-Side n 2 size
is_past-Side int16 n size = above-Side n 2 size
is_past-Side uint31 n size = above-Side n 4 size
is_past-Side int31 n size = above-Side n 4 size
is_past-Side int32 n size = above-Side n 4 size
is_past-Side uint63 n size = above-Side n 8 size
is_past-Side int63 n size = above-Side n 8 size
is_past-Side int64 n size = above-Side n 8 size

-- An access is refused exactly if it is not inside, and `P` holds of one that is made.
abbrev pub Accessed : {A : Type 0} → Kind → ℤ → ℕ → (ℕ → A → Type 0) → Checked A → Type 0
Accessed k off size P (invalid_arg m) =
    (m ≡ "index out of bounds") × ((n : ℕ) → (off ≡ pos n) × (n + (read_type k).size ≤ size) → ⊥)
Accessed k off size P (ran a) = (n : ℕ) × (off ≡ pos n) × (n + (read_type k).size ≤ size) × P n a

module _ {A : Type 0} (k : Kind) (size : ℕ) where
  pub inside-ran :
      (n : ℕ) (access : ℕ → A)
      → n < 2 ^ 62
      → n + (read_type k).size ≤ size
      → checked_access k size (pos n) access ≡ ran (access n)
  unfolding checked_access pattern
  inside-ran n access small inside = elim (is_past-Side k n size) [
    | inl (past, beyond) ↦ absurd (omega (arith, beyond, inside))
    | inr (past, _) ↦ rw (past, mod-eq_of_lt {n = n} {m = 2 ^ 64} (omega arith)) refl
  ]

  pub checked_access-Accessed :
      (off : ℤ) (P : ℕ → A → Type 0) (access : ℕ → A)
      → InSigned (2 ^ 62) off
      → ((n : ℕ) → off ≡ pos n → n + (read_type k).size ≤ size → P n (access n))
      → Accessed k off size P (checked_access k size off access)
  checked_access-Accessed (negsuc n) P access small holds =
      unfold checked_access in (refl, λ n' h. cc)
  checked_access-Accessed (pos n) P access small holds = elim (is_past-Side k n size) [
    | inl (past, beyond) ↦
        unfold checked_access in
        rw past (refl, λ n' (e, inside). let same : n ≡ n' = cc in omega arith)
    | inr (past, inside) ↦
        rw (inside-ran n access small inside) (n, refl, inside, holds n refl inside)
  ]
