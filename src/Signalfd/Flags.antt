-- ===== src/Signalfd/Flags.antt =====
-- The flags that src/signalfd.c gathers from a list of numbers.
use extunix.Base.{ℕ, ◌≡◌, ap, ◌↔◌, ◌⊎◌, inl, inr, List, [], ◌∷◌, arith, ◌==◌, Bool-cases}
use extunix.Base.Bits.{testbit, testbit-bit_or, testbit-zero, testbit-le}
use extunix.Base.Int.{ℤ, pos, negsuc, int_val}
use extunix.Flags.Open.{Header}
use extunix.Flags.Table.{Any}
use extunix.Signalfd.{sfd_nonblock, sfd_cloexec, match_flag, signal_flags}

-- The number is the flag, and the flag has the bit.
abbrev pub Gives : ℕ → ℕ → ℤ → Type 0
Gives b flag f = (f ≡ pos flag) × (testbit b flag ≡ 1)

-- A number of the list that is one of the two flags, with the bit.
abbrev pub HasBit : Header → ℕ → ℤ → Type 0
HasBit hdr b v = Gives b (sfd_nonblock hdr) (int_val v) ⊎ Gives b (sfd_cloexec hdr) (int_val v)

match_flag-bit :
    (b flag : ℕ) (f : ℤ) (flags : ℕ)
    → (testbit b (match_flag flag f flags) ≡ 1) ↔ ((testbit b flags ≡ 1) ⊎ Gives b flag f)
match_flag-bit b flag (negsuc n) flags =
    (λ one. inl one, λ s. elim s [ inl one ↦ one | inr g ↦ absurd cc ])
match_flag-bit b flag (pos n) flags = elim (Bool-cases (flag == n)) [
  | inl is ↦
      let same : n ≡ flag = ground arith in
      let bits = testbit-bit_or b flags flag in
      rw is (
        λ one. ground (arith, bits, testbit-le b flags, testbit-le b flag, ap pos same),
        λ s. elim s [
          | inl old ↦ omega (arith, bits, old, testbit-le b flag)
          | inr g ↦ omega (arith, bits, g.1, testbit-le b flags)
        ],
      )
  | inr other ↦ rw other (
    λ one. inl one,
    λ s. elim s [ inl old ↦ old | inr g ↦ let same : n ≡ flag = cc in absurd (ground arith) ],
  )
]

signal_flags-acc :
    (hdr : Header) (b : ℕ) (vflags : List ℤ) (flags : ℕ)
    → (testbit b (signal_flags hdr vflags flags) ≡ 1)
      ↔ ((testbit b flags ≡ 1) ⊎ Any (HasBit hdr b) vflags)
unfolding signal_flags
signal_flags-acc hdr b [] flags = (λ one. inl one, λ s. elim s [ inl one ↦ one | inr a ↦ absurd a ])
signal_flags-acc hdr b (v ∷ vs) flags =
    let f = int_val v in
    let nonblock = match_flag-bit b (sfd_nonblock hdr) f flags in
    let cloexec = match_flag-bit b (sfd_cloexec hdr) f (match_flag (sfd_nonblock hdr) f flags) in
    let later =
      signal_flags-acc hdr b vs
        (match_flag (sfd_cloexec hdr) f (match_flag (sfd_nonblock hdr) f flags)) in
    (
      λ one. elim (later.0 one) [
        | inr a ↦ inr (inr a)
        | inl here ↦ elim (cloexec.0 here) [
          | inr g ↦ inr (inl (inr g))
          | inl first ↦ elim (nonblock.0 first) [ inl old ↦ inl old | inr g ↦ inr (inl (inl g)) ]
        ]
      ],
      λ s. later.1 (elim s [
        | inl old ↦ inl (cloexec.1 (inl (nonblock.1 (inl old))))
        | inr (inl (inl g)) ↦ inl (cloexec.1 (inl (nonblock.1 (inr g))))
        | inr (inl (inr g)) ↦ inl (cloexec.1 (inr g))
        | inr (inr a) ↦ inr a
      ]),
    )

-- A bit is set if a number of the list is a flag that has it; other numbers add nothing.
pub signal_flags-bit :
    (hdr : Header) (b : ℕ) (vflags : List ℤ)
    → (testbit b (signal_flags hdr vflags 0) ≡ 1) ↔ Any (HasBit hdr b) vflags
signal_flags-bit hdr b vflags =
    let acc = signal_flags-acc hdr b vflags 0 in
    (
      λ one. elim (acc.0 one) [ inl zero_bit ↦ absurd (omega (arith, testbit-zero b)) | inr a ↦ a ],
      λ a. acc.1 (inr a),
    )
