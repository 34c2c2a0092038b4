-- ===== src/Atfile/Results.antt =====
-- What `fstatat` and `readlinkat` of src/atfile.c give.
use extunix.Base.{
  ℕ, zero, suc, ◌+◌, ◌-◌, ◌*◌, ◌^◌, ◌<◌, min, String, ◌≡◌, refl, sym, ap, ◌∙◌, inl, inr, true,
  false, List, [], ◌∷◌, arith, ltb, ◌==◌, length, take, length-take, take-all, Bool-cases,
}
use extunix.Base.Int.{int_val, ℤ, pos, signed, pattern}
use extunix.Base.Call.{check, eoverflow, Answer, got, failed, unix_error, ok, raised}
use extunix.Endian.Macros.{val_long}
use extunix.Transfer.Loop.{Keeps, Ends, iterate-Ends}
use extunix.Flags.Open.{Header, defined_or}
use extunix.Base.Heap.{Heap, strdup, stat_free, blocking}
use extunix.Atfile.{
  System, StructStat, Stats, stat_result, stat_aux, is_too_large, file_type, fstatat,
}
use extunix.Atfile.Readlink.{
  LinkVars, LinkOutcome, link, null, overflow, fits_or_double, after_resize, link_round,
  readlinkat_malloc, c_string, link_result, readlinkat,
}

val_long-size : (n : ℕ) → is_too_large (pos n) ≡ false → val_long (pos n) ≡ pos n
unfolding val_long signed pattern
val_long-size n h = ground arith

module _ {D : Type 0} (hdr : Header) (cst_to_constr : ℕ → List ℕ → ℕ → ℕ)
    (copy_double : ℤ → D) where
  stat_result-size :
      (buf : StructStat) (n : ℕ) (st : Stats D)
      → buf.st_size ≡ pos n
      → file_type hdr buf ≡ defined_or (hdr "S_IFREG") 0
      → stat_result hdr cst_to_constr copy_double (ok buf) ≡ ok st
      → st.size ≡ pos n
  unfolding stat_aux stat_result
  stat_result-size buf n st size regular e =
      let same_type : (file_type hdr buf == defined_or (hdr "S_IFREG") 0) ≡ true = ground arith in
      elim (Bool-cases (is_too_large (pos n))) [
        | inl large ↦
            let r : stat_result hdr cst_to_constr copy_double (ok buf)
                ≡ raised (unix_error eoverflow "fstatat") =
              rw (stat_result, size, large, same_type) refl in
            cc
        | inr fits ↦
            let r : stat_result hdr cst_to_constr copy_double (ok buf)
                ≡ ok (stat_aux hdr cst_to_constr copy_double buf) =
              rw (stat_result, size, fits) refl in
            let same : stat_aux hdr cst_to_constr copy_double buf ≡ st = cc in
            rw (← same, size) (val_long-size n fits)
      ]

  -- If the system says that a file is regular and has `n` bytes, and `fstatat` returns, the size in
  -- the record of OCaml is `n`: one that an `int` does not hold is refused, not cut.
  pub fstatat-size :
      {K : Type 0} (sys : System K) (convert : List ℕ → List ℕ → ℕ) (dirfd : ℤ) (name : String)
      (v_flags : List ℕ) (s : Heap K) (buf : StructStat) (n : ℕ) (st : Stats D)
      → ((flags : ℕ) (k : K) → (sys.sys_fstatat (int_val dirfd) name flags k).0 ≡ got buf)
      → buf.st_size ≡ pos n
      → file_type hdr buf ≡ defined_or (hdr "S_IFREG") 0
      → (fstatat sys convert hdr cst_to_constr copy_double dirfd name v_flags s).0 ≡ ok st
      → st.size ≡ pos n
  unfolding fstatat
  fstatat-size sys convert dirfd name v_flags s buf n st answers size regular e =
      stat_result-size buf n st size regular (
        sym (ap (λ a. stat_result hdr cst_to_constr copy_double (check "fstatat" a)) (answers _ _))
        ∙ e)

-- The link as the system gives it: its first `n` bytes when `n` are asked for; and memory enough.
pub record IsLink {K : Type 0} (sys : System K) (dirfd : ℤ) (name : String) (target : List ℕ)
    : Type 0 where
  pub reads : (n : ℕ) (k : K) → (sys.sys_readlinkat dirfd name n k).0 ≡ got (take n target)
  pub memory : (n : ℕ) (k : K) → (sys.resize n k).0 ≡ got tt

-- Bytes of a C string.
abbrev pub HasNoZero : List ℕ → Type 0
HasNoZero [] = Unit
HasNoZero (b ∷ bs) = (0 < b) × HasNoZero bs

c_string-all : (bs : List ℕ) → HasNoZero bs → c_string bs ≡ bs
c_string-all [] h = refl
c_string-all (zero ∷ bs) h = absurd (omega (arith, h.0))
c_string-all (suc b ∷ bs) h = ap (λ t. suc b ∷ t) (c_string-all bs h.1)

-- The loop has the whole link.
abbrev IsWhole : {K : Type 0} → List ℕ → LinkOutcome K → Type 0
IsWhole target (link chars s) = chars ≡ target
IsWhole target (null e s) = ⊥
IsWhole target overflow = ⊥

abbrev remaining : {K : Type 0} → List ℕ → LinkVars K → ℕ
remaining target v = length target + 1 - v.size

abbrev Sized : {K : Type 0} → LinkVars K → Type 0
Sized v = 0 < v.size

fits_or_double-Keeps :
    {K : Type 0} (target : List ℕ) (v : LinkVars K) (a : Answer (List ℕ) × Heap K)
    → length target < 2 ^ 30
    → Sized v
    → a.0 ≡ got (take v.size target)
    → Keeps Sized (IsWhole target) (remaining target) v (fits_or_double v.size a)
unfolding fits_or_double
fits_or_double-Keeps target v (failed e, s) short p h = ground arith
fits_or_double-Keeps target v (got chars, s) short p h =
    let taken : chars ≡ take v.size target = cc in
    let count : length chars ≡ min v.size (length target) =
      ap length taken ∙ length-take v.size target in
    elim (Bool-cases (ltb (length chars) v.size)) [
      | inl fits ↦ rw fits (taken ∙ take-all v.size target (ground (arith, count)))
      | inr full ↦
          let room : ltb (v.size * 2) (2 ^ 31) ≡ true = ground (arith, count) in
          rw (full, room) (omega arith, ground (arith, count))
    ]

after_resize-Keeps :
    {K : Type 0} (target : List ℕ) (read : ℕ → K → Answer (List ℕ) × K) (v : LinkVars K)
    (a : Answer (Unit {0}) × Heap K)
    → ((n : ℕ) (k : K) → (read n k).0 ≡ got (take n target))
    → length target < 2 ^ 30
    → Sized v
    → a.0 ≡ got tt
    → Keeps Sized (IsWhole target) (remaining target) v (after_resize read v a)
unfolding after_resize
after_resize-Keeps target read v (failed e, s) reads short p h = ground arith
after_resize-Keeps target read v (got _, s) reads short p h =
    fits_or_double-Keeps target v
      (blocking (read v.size) (record s { allocated = s.allocated + 1 - v.held })) short p
      (reads v.size s.kernel)

readlinkat_malloc-IsWhole :
    {K : Type 0} (sys : System K) (dirfd : ℤ) (name : String) (target : List ℕ)
    → IsLink sys dirfd name target
    → length target < 2 ^ 30
    → (fuel : ℕ) → length target < fuel
    → (s : Heap K) → Ends (IsWhole target) (readlinkat_malloc sys fuel dirfd name s)
unfolding readlinkat_malloc link_round
readlinkat_malloc-IsWhole {K} sys dirfd name target is_link short fuel enough s =
    iterate-Ends Sized (IsWhole target) (remaining target)
      (link_round sys (sys.sys_readlinkat dirfd name))
      (λ v p.
        after_resize-Keeps target (sys.sys_readlinkat dirfd name) v
          (blocking (sys.resize v.size) v.heap) is_link.reads short p
          (is_link.memory v.size v.heap.kernel))
      fuel (record { size = 100; held = 0; heap = s }) (omega arith) (omega arith)

-- For a link of fewer than 2 ^ 30 bytes, none of them 0, with memory for the buffer and fuel above
-- its length, `readlinkat` ends and returns the whole link: the doubling stops and cuts nothing.
pub readlinkat-whole :
    {K : Type 0} (sys : System K) (dirfd : ℤ) (name : String) (target : List ℕ)
    → IsLink sys (int_val dirfd) name target
    → HasNoZero target
    → length target < 2 ^ 30
    → (fuel : ℕ) → length target < fuel
    → (s : Heap K) → Ends (λ r. r.0 ≡ ok target) (readlinkat sys fuel dirfd name s)
unfolding readlinkat link_result
readlinkat-whole {K} sys dirfd name target is_link text short fuel enough s =
    go (
      readlinkat_malloc-IsWhole sys (int_val dirfd) name target is_link short fuel enough
        (strdup s))
  where
    go :
        Ends (IsWhole target) (readlinkat_malloc sys fuel (int_val dirfd) name (strdup s))
        → Ends (λ r. r.0 ≡ ok target) (readlinkat sys fuel dirfd name s)
    go (link chars s', e, w) = (
      (ok (c_string chars), stat_free (stat_free s')),
      rw (readlinkat, e) refl,
      rw w (ap ok (c_string-all target text)),
    )
    go (null x s', e, w) = absurd w
    go (overflow, e, w) = absurd w
