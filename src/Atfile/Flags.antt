-- ===== src/Atfile/Flags.antt =====
-- The flags of src/atfile.c: each stub lets through the ones that src/extUnix.pp.ml documents for it.
use extunix.Base.{
  ℕ, ◌<◌, bit_or, String, ◌≡◌, refl, ◌⊎◌, inl, inr, ◌↔◌, List, [], ◌∷◌, map, arith, length,
}
use extunix.Base.Bits.{testbit, testbit-bit_and, testbit-bit_or, testbit-le}
use extunix.Base.Int.{ℤ, int_val}
use extunix.Base.Heap.{Heap}
use extunix.Flags.Open.{Header, defined_or}
use extunix.Flags.Table.{Any, IsConvert, entry, testbit-macros}
use extunix.Atfile.{
  System, at_symlink_nofollow, at_symlink_follow, at_no_automount, at_removedir, at_flags,
  at_flags_table, fstatat, unlinkat, linkat, fchownat, fchmodat,
}

-- `at_flag` of OCaml, and the number that it gives a constructor.
pub data AtFlag : Type 0 where
  eaccess symlink_nofollow removedir symlink_follow no_automount : AtFlag

abbrev pub at_flag_index : AtFlag → ℕ
at_flag_index eaccess = 0
at_flag_index symlink_nofollow = 1
at_flag_index removedir = 2
at_flag_index symlink_follow = 3
at_flag_index no_automount = 4

-- The macro of the same name.
abbrev at_macro_of : AtFlag → String
at_macro_of eaccess = "AT_EACCESS"
at_macro_of symlink_nofollow = "AT_SYMLINK_NOFOLLOW"
at_macro_of removedir = "AT_REMOVEDIR"
at_macro_of symlink_follow = "AT_SYMLINK_FOLLOW"
at_macro_of no_automount = "AT_NO_AUTOMOUNT"

abbrev pub at_macro : Header → AtFlag → ℕ
at_macro hdr f = defined_or (hdr (at_macro_of f)) 0

index-inside : (hdr : Header) (f : AtFlag) → at_flag_index f < length (at_flags_table hdr)
unfolding at_flags_table
index-inside hdr eaccess = omega arith
index-inside hdr symlink_nofollow = omega arith
index-inside hdr removedir = omega arith
index-inside hdr symlink_follow = omega arith
index-inside hdr no_automount = omega arith

entry-macro :
    (hdr : Header) (f : AtFlag) → entry (at_flags_table hdr) (at_flag_index f) ≡ at_macro hdr f
unfolding at_flags_table
entry-macro hdr eaccess = refl
entry-macro hdr symlink_nofollow = refl
entry-macro hdr removedir = refl
entry-macro hdr symlink_follow = refl
entry-macro hdr no_automount = refl

-- A call that takes flags, without them.
pub data FlagCall : Type 0 where
  fstatat_with : ℤ → String → FlagCall
  unlinkat_with : ℤ → String → FlagCall
  linkat_with : ℤ → String → ℤ → String → FlagCall
  fchownat_with : ℤ → String → ℤ → ℤ → FlagCall
  fchmodat_with : ℤ → String → ℤ → FlagCall

-- The supported flags: those that the documentation of OCaml names, and for `fchownat` and
-- `fchmodat`, where it names none, the one of POSIX.
abbrev pub supported : FlagCall → List AtFlag
supported (fstatat_with d p) = symlink_nofollow ∷ no_automount ∷ []
supported (unlinkat_with d p) = removedir ∷ []
supported (linkat_with d p d' p') = symlink_follow ∷ []
supported (fchownat_with d p o g) = symlink_nofollow ∷ []
supported (fchmodat_with d p m) = symlink_nofollow ∷ []

-- The kernel after the call of the system with the flags `bits`.
abbrev pub kernel_with : {K : Type 0} → System K → FlagCall → ℕ → K → K
kernel_with sys (fstatat_with d p) bits k = (sys.sys_fstatat (int_val d) p bits k).1
kernel_with sys (unlinkat_with d p) bits k = (sys.sys_unlinkat (int_val d) p bits k).1
kernel_with sys (linkat_with d p d' p') bits k =
    (sys.sys_linkat (int_val d) p (int_val d') p' bits k).1
kernel_with sys (fchownat_with d p o g) bits k =
    (sys.sys_fchownat (int_val d) p (int_val o) (int_val g) bits k).1
kernel_with sys (fchmodat_with d p m) bits k = (sys.sys_fchmodat (int_val d) p (int_val m) bits k).1

module _ {D K : Type 0} (sys : System K) (convert : List ℕ → List ℕ → ℕ) (hdr : Header)
    (cst_to_constr : ℕ → List ℕ → ℕ → ℕ) (copy_double : ℤ → D) where
  -- The kernel after the stub.
  unfoldable pub kernel_after : FlagCall → List ℕ → Heap K → K
  unfolding fstatat unlinkat linkat fchownat fchmodat
  kernel_after (fstatat_with d p) l s =
      (fstatat sys convert hdr cst_to_constr copy_double d p l s).1.kernel
  kernel_after (unlinkat_with d p) l s = (unlinkat sys convert hdr d p l s).1.kernel
  kernel_after (linkat_with d p d' p') l s = (linkat sys convert hdr d p d' p' l s).1.kernel
  kernel_after (fchownat_with d p o g) l s = (fchownat sys convert hdr d p o g l s).1.kernel
  kernel_after (fchmodat_with d p m) l s = (fchmodat sys convert hdr d p m l s).1.kernel

-- The masks of the code.
abbrev mask : Header → FlagCall → ℕ
mask hdr (fstatat_with d p) = bit_or (at_symlink_nofollow hdr) (at_no_automount hdr)
mask hdr (unlinkat_with d p) = at_removedir hdr
mask hdr (linkat_with d p d' p') = at_symlink_follow hdr
mask hdr (fchownat_with d p o g) = at_symlink_nofollow hdr
mask hdr (fchmodat_with d p m) = at_symlink_nofollow hdr

one_flag : {P : Type 0} → P ↔ (P ⊎ ⊥)
one_flag = (λ p. inl p, λ s. elim s [ inl p ↦ p | inr b ↦ absurd b ])

mask-supported :
    (hdr : Header) (n : ℕ) (c : FlagCall)
    → (testbit n (mask hdr c) ≡ 1) ↔ Any (λ f. testbit n (at_macro hdr f) ≡ 1) (supported c)
mask-supported hdr n (fstatat_with d p) =
    let both = testbit-bit_or n (at_symlink_nofollow hdr) (at_no_automount hdr) in
    let one = testbit-le n (at_symlink_nofollow hdr) in
    let two = testbit-le n (at_no_automount hdr) in
    (
      λ e.
          let s : (testbit n (at_symlink_nofollow hdr) ≡ 1)
              ⊎ (testbit n (at_no_automount hdr) ≡ 1) =
            ground (arith, both, one, two, e) in
          elim s [ inl a ↦ inl a | inr b ↦ inr (inl b) ],
      λ s. elim s [
        | inl a ↦ omega (arith, both, two, a)
        | inr (inl b) ↦ omega (arith, both, one, b)
        | inr (inr x) ↦ absurd x
      ],
    )
mask-supported hdr n (unlinkat_with d p) = one_flag
mask-supported hdr n (linkat_with d p d' p') = one_flag
mask-supported hdr n (fchownat_with d p o g) = one_flag
mask-supported hdr n (fchmodat_with d p m) = one_flag

masked-bits :
    (convert : List ℕ → List ℕ → ℕ) (hdr : Header) (c : FlagCall) (flags : List AtFlag) (n : ℕ)
    → IsConvert convert
    → (testbit n (at_flags convert hdr (map at_flag_index flags) (mask hdr c)) ≡ 1) ↔ (
        Any (λ f. testbit n (at_macro hdr f) ≡ 1) (supported c)
        × Any (λ f. testbit n (at_macro hdr f) ≡ 1) flags)
unfolding at_flags
masked-bits convert hdr c flags n is_convert =
    let given = convert (map at_flag_index flags) (at_flags_table hdr) in
    let bits =
      testbit-macros at_flag_index convert (at_flags_table hdr) (at_macro hdr) is_convert
        (index-inside hdr) (entry-macro hdr) n flags in
    let allowed = mask-supported hdr n c in
    let both = testbit-bit_and n given (mask hdr c) in
    let one = testbit-le n given in
    let two = testbit-le n (mask hdr c) in
    (
      λ e.
          (allowed.0 (omega (arith, both, one, two, e)), bits.0 (omega (arith, both, one, two, e))),
      λ p. omega (arith, both, allowed.1 p.0, bits.1 p.1),
    )

-- Each of the five stubs that take flags makes its one call of the system with the bits that both a
-- supported flag and a flag of the list have, by the macros of their names, for a runtime that
-- converts lists as `IsConvert` says.
pub kernel_after-supported :
    {D K : Type 0} (sys : System K) (convert : List ℕ → List ℕ → ℕ) (hdr : Header)
    (cst_to_constr : ℕ → List ℕ → ℕ → ℕ) (copy_double : ℤ → D) (c : FlagCall) (flags : List AtFlag)
    (s : Heap K)
    → IsConvert convert
    → (bits : ℕ) × ((n : ℕ)
        → (testbit n bits ≡ 1) ↔ (
            Any (λ f. testbit n (at_macro hdr f) ≡ 1) (supported c)
            × Any (λ f. testbit n (at_macro hdr f) ≡ 1) flags))
      × (kernel_after sys convert hdr cst_to_constr copy_double c (map at_flag_index flags) s
          ≡ kernel_with sys c bits s.kernel)
unfolding kernel_after
kernel_after-supported sys convert hdr cst_to_constr copy_double c flags s is_convert = (
  at_flags convert hdr (map at_flag_index flags) (mask hdr c),
  λ n. masked-bits convert hdr c flags n is_convert,
  same c,
)
  where
    same :
        (c : FlagCall)
        → kernel_after sys convert hdr cst_to_constr copy_double c (map at_flag_index flags) s
          ≡ kernel_with sys c (at_flags convert hdr (map at_flag_index flags) (mask hdr c)) s.kernel
    same (fstatat_with d p) = refl
    same (unlinkat_with d p) = refl
    same (linkat_with d p d' p') = refl
    same (fchownat_with d p o g) = refl
    same (fchmodat_with d p m) = refl
