-- ===== src/Flags/Open.antt =====
-- src/common.c: the flags of `open`, for src/atfile.c, src/mktemp.c and src/pts.c.
use extunix.Base.{
  ℕ, zero, suc, refl, ◌≤◌, bit_or, String, ◌≡◌, ◌↔◌, ◌⊎◌, inl, inr, Option, none, some, List, [],
  ◌∷◌, arith, ltb, if◌then◌else◌, length, Bool-cases, max,
}
use extunix.Base.Bits.{testbit, testbit-bit_or, testbit-zero, testbit-le}
use extunix.Base.Int.{ℤ, pos, negsuc}
use extunix.Flags.Table.{Any, entry}

-- The values of the macros of the system headers, by name; `none` if a macro is not defined.
abbrev pub Header : Type 0
Header = String → Option ℕ

-- `#ifndef X #define X d`
abbrev pub defined_or : Option ℕ → ℕ → ℕ
defined_or none d = d
defined_or (some v) d = v

unfoldable pub open_flag_table : Header → List ℕ
open_flag_table hdr =
    defined_or (hdr "O_RDONLY") 0
    ∷ defined_or (hdr "O_WRONLY") 0
    ∷ defined_or (hdr "O_RDWR") 0
    ∷ defined_or (hdr "O_NONBLOCK") (defined_or (hdr "O_NDELAY") 0)
    ∷ defined_or (hdr "O_APPEND") 0
    ∷ defined_or (hdr "O_CREAT") 0
    ∷ defined_or (hdr "O_TRUNC") 0
    ∷ defined_or (hdr "O_EXCL") 0
    ∷ defined_or (hdr "O_NOCTTY") 0
    ∷ defined_or (hdr "O_DSYNC") 0
    ∷ defined_or (hdr "O_SYNC") 0
    ∷ defined_or (hdr "O_RSYNC") 0
    ∷ 0
    ∷ defined_or (hdr "O_CLOEXEC") 0
    ∷ defined_or (hdr "O_KEEPEXEC") 0
    ∷ []

-- One round of the loop: a flag outside the table is ignored.
unfoldable pub add_flag : List ℕ → ℕ → ℤ → ℕ
add_flag table res (pos flag) =
    if ltb flag (length table) then bit_or res (entry table flag) else res
add_flag table res (negsuc n) = res

unfoldable pub open_flags_loop : List ℕ → ℕ → List ℤ → ℕ
open_flags_loop table res [] = res
open_flags_loop table res (flag ∷ list) = open_flags_loop table (add_flag table res flag) list

unfoldable pub open_flags : Header → List ℤ → ℕ
unfolding open_flag_table open_flags_loop add_flag
open_flags hdr list = open_flags_loop (open_flag_table hdr) 0 list

-- What a flag stands for: its entry, and no bit if it is unknown.
abbrev pub meaning : List ℕ → ℤ → ℕ
meaning table (pos flag) = entry table flag
meaning table (negsuc n) = 0

entry_outside : (table : List ℕ) (i : ℕ) → length table ≤ i → entry table i ≡ 0
entry_outside [] i h = refl
entry_outside (t ∷ ts) zero h = absurd (omega arith)
entry_outside (t ∷ ts) (suc i) h = entry_outside ts i (omega arith)

add_flag-meaning :
    (b : ℕ) (table : List ℕ) (res : ℕ) (flag : ℤ)
    → testbit b (add_flag table res flag) ≡ max (testbit b res) (testbit b (meaning table flag))
unfolding add_flag
add_flag-meaning b table res (negsuc n) = omega (arith, testbit-zero b)
add_flag-meaning b table res (pos flag) = elim (Bool-cases (ltb flag (length table))) [
  | inl known ↦ rw known (testbit-bit_or b res (entry table flag))
  | inr unknown ↦
      rw (unknown, entry_outside table flag (ground arith)) (omega (arith, testbit-zero b))
]

step :
    (b : ℕ) (table : List ℕ) (flag : ℤ) (list : List ℤ) (res : ℕ)
    → (testbit b (open_flags_loop table (add_flag table res flag) list) ≡ 1) ↔ (
        (testbit b (add_flag table res flag) ≡ 1)
        ⊎ Any (λ flag. testbit b (meaning table flag) ≡ 1) list)
    → (testbit b (open_flags_loop table (add_flag table res flag) list) ≡ 1)
      ↔ ((testbit b res ≡ 1) ⊎ Any (λ flag. testbit b (meaning table flag) ≡ 1) (flag ∷ list))
step b table flag list res ih = (
  λ e. elim (ih.0 e) [
    | inl one ↦ elim (one_of one) [ inl p ↦ inl p | inr q ↦ inr (inl q) ]
    | inr a ↦ inr (inr a)
  ],
  λ s. ih.1 (elim s [
    | inl p ↦ inl (omega (arith, round, p, testbit-le b (meaning table flag)))
    | inr (inl q) ↦ inl (omega (arith, round, q, testbit-le b res))
    | inr (inr a) ↦ inr a
  ]),
)
  where
    round :
        testbit b (add_flag table res flag) ≡ max (testbit b res) (testbit b (meaning table flag))
    round = add_flag-meaning b table res flag

    one_of :
        testbit b (add_flag table res flag) ≡ 1
        → (testbit b res ≡ 1) ⊎ (testbit b (meaning table flag) ≡ 1)
    one_of one = ground (arith, round, testbit-le b res, testbit-le b (meaning table flag))

open_flags_loop-Any :
    (b : ℕ) (table : List ℕ) (list : List ℤ) (res : ℕ)
    → (testbit b (open_flags_loop table res list) ≡ 1)
      ↔ ((testbit b res ≡ 1) ⊎ Any (λ flag. testbit b (meaning table flag) ≡ 1) list)
unfolding open_flags_loop
open_flags_loop-Any b table [] res = (λ e. inl e, λ s. elim s [ inl e ↦ e | inr a ↦ absurd a ])
open_flags_loop-Any b table (flag ∷ list) res =
    step b table flag list res (open_flags_loop-Any b table list (add_flag table res flag))

-- A bit of the result is set exactly if it is set in what some flag of the list stands for.
pub open_flags-Any :
    (hdr : Header) (list : List ℤ) (b : ℕ)
    → (testbit b (open_flags hdr list) ≡ 1)
      ↔ Any (λ flag. testbit b (meaning (open_flag_table hdr) flag) ≡ 1) list
unfolding open_flags
open_flags-Any hdr list b =
    let l = open_flags_loop-Any b (open_flag_table hdr) list 0 in
    (
      λ e. elim (l.0 e) [ inl z ↦ absurd (omega (arith, z, testbit-zero b)) | inr a ↦ a ],
      λ a. l.1 (inr a),
    )
