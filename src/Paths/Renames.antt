-- ===== src/Paths/Renames.antt =====
-- What `renameat2` of src/rename.c asks of the system.
use extunix.Base.{
  ℕ, String, ◌≡◌, refl, ◌⊎◌, inl, inr, ◌↔◌, Bool, true, false, List, [], ◌∷◌, map, arith, ◌==◌,
  Bool-cases, ◌<◌, length,
}
use extunix.Base.Bits.{testbit}
use extunix.Base.Int.{ℤ, int_val}
use extunix.Base.Call.{not_available, Result, ok, raised}
use extunix.Flags.Open.{Header, defined_or}
use extunix.Flags.Table.{Any, IsConvert, entry, Any-map, testbit-macros}
use extunix.Base.Heap.{Heap, two_paths}
use extunix.Paths.{
  PathSystem, renameat2, check_flag_list, rename_checked, rename_whiteout_index, rename_flags_table,
  RenameFlag, rename_exchange, rename_noreplace, rename_whiteout, constructor_index,
}

check_flag_list-refuses :
    (l : List ℕ)
    → Any (λ i. rename_whiteout_index ≡ i) l
    → check_flag_list false l ≡ raised (not_available "RENAME_WHITEOUT")
unfolding check_flag_list
check_flag_list-refuses [] a = absurd a
check_flag_list-refuses (i ∷ l) a = elim (Bool-cases (rename_whiteout_index == i)) [
  | inl is ↦ rw is refl
  | inr other ↦
      rw other (check_flag_list-refuses l (elim a [ inl e ↦ absurd (ground arith) | inr b ↦ b ]))
]

check_flag_list-passes :
    (b : Bool) (l : List ℕ)
    → (b ≡ true) ⊎ (Any (λ i. rename_whiteout_index ≡ i) l → ⊥)
    → check_flag_list b l ≡ ok tt
unfolding check_flag_list
check_flag_list-passes b [] h = refl
check_flag_list-passes true (i ∷ l) h = check_flag_list-passes true l (inl refl)
check_flag_list-passes false (i ∷ l) (inl e) = cc
check_flag_list-passes false (i ∷ l) (inr h) =
    let other : (rename_whiteout_index == i) ≡ false =
      let no : rename_whiteout_index ≡ i → ⊥ = λ e. h (inl e) in ground arith in
    rw other (check_flag_list-passes false l (inr λ a. h (inr a)))

whiteout? :
    (l : List ℕ)
    → Any (λ i. rename_whiteout_index ≡ i) l ⊎ (Any (λ i. rename_whiteout_index ≡ i) l → ⊥)
whiteout? [] = inr λ a. a
whiteout? (i ∷ l) = elim (Bool-cases (rename_whiteout_index == i)) [
  | inl is ↦ inl (inl (ground arith))
  | inr other ↦ elim (whiteout? l) [
    | inl there ↦ inl (inr there)
    | inr nowhere ↦ inr (λ a. elim a [ inl e ↦ ground arith | inr b ↦ nowhere b ])
  ]
]

-- The macro whose bits the system gets for a constructor: for the first two it is the other's.
abbrev pub macro_of : RenameFlag → String
macro_of rename_exchange = "RENAME_NOREPLACE"
macro_of rename_noreplace = "RENAME_EXCHANGE"
macro_of rename_whiteout = "RENAME_WHITEOUT"

abbrev pub macro : Header → RenameFlag → ℕ
macro hdr f = defined_or (hdr (macro_of f)) 0

is_whiteout :
    (f : RenameFlag) → (rename_whiteout_index ≡ constructor_index f) ↔ (rename_whiteout ≡ f)
is_whiteout rename_exchange = (λ e. absurd (omega (arith, e)), λ e. cc)
is_whiteout rename_noreplace = (λ e. absurd (omega (arith, e)), λ e. cc)
is_whiteout rename_whiteout = (λ e. refl, λ e. refl)

index-inside :
    (hdr : Header) (f : RenameFlag) → constructor_index f < length (rename_flags_table hdr)
unfolding rename_flags_table
index-inside hdr rename_exchange = omega arith
index-inside hdr rename_noreplace = omega arith
index-inside hdr rename_whiteout = omega arith

entry-macro :
    (hdr : Header) (f : RenameFlag)
    → entry (rename_flags_table hdr) (constructor_index f) ≡ macro hdr f
unfolding rename_flags_table
entry-macro hdr rename_exchange = refl
entry-macro hdr rename_noreplace = refl
entry-macro hdr rename_whiteout = refl

-- The list asks for `RENAME_WHITEOUT`.
abbrev pub AsksWhiteout : List RenameFlag → Type 0
AsksWhiteout flags = Any (λ f. rename_whiteout ≡ f) flags

-- A call is refused with nothing changed, or made, with the bits of `macro_of`.
abbrev pub Renames :
    {K : Type 0}
    → PathSystem K
    → Header
    → Bool
    → ℤ
    → String
    → ℤ
    → String
    → List RenameFlag
    → Heap K
    → Result (Unit {0}) × Heap K
    → Type 0
Renames sys hdr have_whiteout f a g b flags s r =
    ((have_whiteout ≡ false)
      × AsksWhiteout flags
      × (r ≡ (raised (not_available "RENAME_WHITEOUT"), s)))
    ⊎ (((have_whiteout ≡ true) ⊎ (AsksWhiteout flags → ⊥))
        × (bits : ℕ) × ((n : ℕ)
            → (testbit n bits ≡ 1) ↔ Any (λ x. testbit n (macro hdr x) ≡ 1) flags)
        × (r ≡ two_paths "renameat2" (sys.sys_renameat2 (int_val f) a (int_val g) b bits) s))

asked :
    (flags : List RenameFlag)
    → Any (λ i. rename_whiteout_index ≡ i) (map constructor_index flags) ↔ AsksWhiteout flags
asked flags =
    Any-map constructor_index (λ i. rename_whiteout_index ≡ i) (λ f. rename_whiteout ≡ f)
      is_whiteout flags

abbrev convert_flags : (List ℕ → List ℕ → ℕ) → Header → List RenameFlag → ℕ
convert_flags convert hdr flags = convert (map constructor_index flags) (rename_flags_table hdr)

bits :
    (convert : List ℕ → List ℕ → ℕ) (hdr : Header) (flags : List RenameFlag)
    → IsConvert convert
    → (n : ℕ)
    → (testbit n (convert_flags convert hdr flags) ≡ 1)
      ↔ Any (λ x. testbit n (macro hdr x) ≡ 1) flags
bits convert hdr flags c n =
    testbit-macros constructor_index convert (rename_flags_table hdr) (macro hdr) c
      (index-inside hdr) (entry-macro hdr) n flags

-- For a runtime that converts lists as `IsConvert` says: if the system lacks `RENAME_WHITEOUT` and
-- the list has its constructor, `renameat2` raises `Not_available` with no call and no change. Else
-- it makes the call with both paths copied and freed, and the bits of the flags are those of
-- `RENAME_NOREPLACE` for `RENAME_EXCHANGE` of OCaml, of `RENAME_EXCHANGE` for `RENAME_NOREPLACE`, and
-- of `RENAME_WHITEOUT` for itself: the first two are exchanged on the way.
pub renameat2-Renames :
    {K : Type 0} (sys : PathSystem K) (convert : List ℕ → List ℕ → ℕ) (hdr : Header)
    (have_whiteout : Bool) (f : ℤ) (a : String) (g : ℤ) (b : String) (flags : List RenameFlag)
    (s : Heap K)
    → IsConvert convert
    → Renames sys hdr have_whiteout f a g b flags s
        (renameat2 sys convert hdr have_whiteout f a g b (map constructor_index flags) s)
unfolding renameat2 rename_checked
renameat2-Renames sys convert hdr true f a g b flags s c =
    rw (check_flag_list-passes true (map constructor_index flags) (inl refl))
      (inr (inl refl, convert_flags convert hdr flags, bits convert hdr flags c, refl))
renameat2-Renames sys convert hdr false f a g b flags s c =
    let asks = asked flags in
    elim (whiteout? (map constructor_index flags)) [
      | inl there ↦
          rw (check_flag_list-refuses (map constructor_index flags) there)
            (inl (refl, asks.0 there, refl))
      | inr nowhere ↦
          rw (check_flag_list-passes false (map constructor_index flags) (inr nowhere)) (
            inr (
              inr λ x. nowhere (asks.1 x),
              convert_flags convert hdr flags,
              bits convert hdr flags c,
              refl,
            ))
    ]
