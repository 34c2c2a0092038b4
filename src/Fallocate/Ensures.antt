-- ===== src/Fallocate/Ensures.antt =====
-- What the emulations of src/fallocate.c and src/TODO/ftruncate/ftruncateC.c do to a file.
use native.Mathlib.Nat.{mod-eq_of_lt}
use extunix.Base.{
  ℕ, ◌+◌, ◌^◌, ◌<◌, String, ◌≡◌, refl, ap, ◌∙◌, sym, inl, inr, ◌⊎◌, arith, leb, if◌then◌else◌,
  Bool-cases, max,
}
use extunix.Base.Int.{pos, pattern}
use extunix.Base.Call.{Errno, Answer, unix_error, Result, ok, raised, check}
use extunix.Base.Stub.{Stub, pure, ◌>>=◌, ◌>>◌, uerror, Post, and_then}
use extunix.Fallocate.{
  file_begin, file_current, Win32, file_lseek, fits_in, extend, fallocate_do, fallocate,
  ftruncate_win32_do, ftruncate_win32,
}
use extunix.Fallocate.File.{File, cut, Sized, sized, unsized, Ended, ended, kept, IsFile}
use extunix.Fallocate.Seek.{and_then-file_lseek}

-- What an emulation may do to a file of `size` bytes that is to have `n`: if it returns, the file has
-- them and the pointer is where it was; if it raises, the size is the one or the other.
abbrev pub Outcome : String → File → ℕ → Result (Unit {0}) → File → Type 0
Outcome name f n (ok u) f' = f' ≡ cut n f
Outcome name f n (raised e) f' =
    ((f'.size ≡ f.size) ⊎ (f'.size ≡ n)) × (err : Errno) × (e ≡ unix_error err name)

fits_in-≤ :
    (off len size : ℕ)
    → off + len < 2 ^ 63
    → size < 2 ^ 63
    → fits_in off len size ≡ leb (off + len) size
unfolding fits_in
fits_in-≤ off len size h h' =
    rw
      (
        mod-eq_of_lt {n = off + len + 2 ^ 63} {m = 2 ^ 64} (omega arith),
        mod-eq_of_lt {n = size + 2 ^ 63} {m = 2 ^ 64} (omega arith),
      )
      (ground arith)

same_file : (f g : File) → f.size ≡ g.size → f.position ≡ g.position → f ≡ g
same_file f g e e' = cc

module _ {K : Type 0} (sys : Win32 K) (view : K → File) (is_file : IsFile sys view) where
  -- The end of the file at the pointer, and the pointer back to `cur`.
  abbrev restore : String → ℕ → Stub K (Unit {0})
  restore name cur = do
    uerror name sys.set_end_of_file
    _ ← file_lseek sys name cur file_begin
    pure tt

  restore-Outcome :
      (name : String) (f : File) (n cur : ℕ) (k : K)
      → cur ≡ f.position
      → cur < 2 ^ 63
      → (view k).size ≡ f.size
      → (view k).position ≡ n
      → Post (λ r k'. Outcome name f n r (view k')) (restore name cur k)
  restore-Outcome name f n cur k saved small size at_n =
      end_cases (sys.set_end_of_file k).0 (sys.set_end_of_file k).1 (view (sys.set_end_of_file k).1)
        refl (is_file.end_at k)
    where
      end_cases :
          (a : Answer (Unit {0})) (k' : K) (g : File)
          → g ≡ view k'
          → Ended (view k) a g
          → Post
              (λ r k''. Outcome name f n r (view k''))
              (and_then
                (check name a, k')
                (λ _. file_lseek sys name cur file_begin >>= λ _. pure tt))
      end_cases _ k' _ same ended =
          and_then-file_lseek sys view is_file (λ r. Outcome name f n r) name cur file_begin k'
            (λ _. pure tt) small
            (λ m k'' at _ size' pos'.
              same_file (view k'') (cut n f) (size' ∙ sym (ap (λ g. g.size) same) ∙ at_n)
                (omega (arith, pos', at, saved)))
            (λ err k'' size'. (inr (size' ∙ sym (ap (λ g. g.size) same) ∙ at_n), err, refl))
      end_cases _ k' _ same (kept e) = (inl (ap (λ g. g.size) (sym same) ∙ size), e, refl)

  extend-Outcome :
      (off len : ℕ) (k : K)
      → off + len < 2 ^ 63
      → Post (λ r k'. Outcome "fallocate" (view k) (off + len) r (view k')) (extend sys off len k)
  unfolding extend
  extend-Outcome off len k h =
      and_then-file_lseek sys view is_file (Outcome "fallocate" (view k) (off + len)) "fallocate" 0
        file_current k _ (omega arith)
        (λ cur k1 cur_at small size1 pos1.
          and_then-file_lseek sys view is_file (Outcome "fallocate" (view k) (off + len))
            "fallocate" off file_begin k1 _ (omega arith)
            (λ n2 k2 at2 _ size2 pos2.
              and_then-file_lseek sys view is_file (Outcome "fallocate" (view k) (off + len))
                "fallocate" len file_current k2 _ (omega arith)
                (λ n3 k3 at3 _ size3 pos3.
                  restore-Outcome "fallocate" (view k) (off + len) cur k3 (omega (arith, cur_at))
                    small (size3 ∙ size2 ∙ size1) (omega (arith, pos3, at3, pos2, at2)))
                (λ err k3 size3. (inl (size3 ∙ size2 ∙ size1), err, refl)))
            (λ err k2 size2. (inl (size2 ∙ size1), err, refl)))
        (λ err k1 size1. (inl size1, err, refl))

  fallocate_do-Outcome :
      (off len : ℕ) (k : K)
      → off + len < 2 ^ 63
      → Post
          (λ r k'. Outcome "fallocate" (view k) (max (off + len) (view k).size) r (view k'))
          (fallocate_do sys off len k)
  unfolding fallocate_do fits_in
  fallocate_do-Outcome off len k h =
      sizes (sys.get_file_size_ex k).0 (sys.get_file_size_ex k).1 (view (sys.get_file_size_ex k).1)
        refl (is_file.size_of k)
    where
      sizes :
          (a : Answer ℕ) (k' : K) (g : File)
          → g ≡ view k'
          → Sized (view k) a g
          → Post
              (λ r k''. Outcome "fallocate" (view k) (max (off + len) (view k).size) r (view k''))
              (and_then
                (check "fallocate" a, k')
                (λ size. if fits_in off len size then pure tt else extend sys off len))
      sizes _ k' _ same (sized small) = elim (Bool-cases (leb (off + len) (view k).size)) [
        | inl fits ↦
            rw (fits_in-≤ off len (view k).size h small, fits)
              (sym same
                ∙ same_file (view k) (cut (max (off + len) (view k).size) (view k)) (ground arith)
                    refl)
        | inr grows ↦
            let r = extend-Outcome off len k' h in
            let m : max (off + len) (view k).size ≡ off + len = ground arith in
            rw (fits_in-≤ off len (view k).size h small, grows, m) (rw (← same) at r)
      ]
      sizes _ k' _ same (unsized e) = (inl (ap (λ g. g.size) (sym same)), e, refl)

  ftruncate_win32_do-Outcome :
      (len : ℕ) (k : K)
      → len < 2 ^ 63
      → Post (λ r k'. Outcome "ftruncate" (view k) len r (view k')) (ftruncate_win32_do sys len k)
  unfolding ftruncate_win32_do
  ftruncate_win32_do-Outcome len k h =
      and_then-file_lseek sys view is_file (Outcome "ftruncate" (view k) len) "ftruncate" 0
        file_current k _ (omega arith)
        (λ cur k1 cur_at small size1 pos1.
          and_then-file_lseek sys view is_file (Outcome "ftruncate" (view k) len) "ftruncate" len
            file_begin k1 _ h
            (λ n2 k2 at2 _ size2 pos2.
              restore-Outcome "ftruncate" (view k) len cur k2 (omega (arith, cur_at)) small
                (size2 ∙ size1) (omega (arith, pos2, at2)))
            (λ err k2 size2. (inl (size2 ∙ size1), err, refl)))
        (λ err k1 size1. (inl size1, err, refl))

  -- On a file of Windows, for numbers from 0 on whose sum is below 2 ^ 63: if `fallocate` returns,
  -- the file is as long as it was or as long as `off + len`, whichever is more, and the position of
  -- the pointer is the one before; if it raises, it raises an error of the system, and the size is
  -- either of the two.
  pub fallocate-Outcome :
      (off len : ℕ) (k : K)
      → off + len < 2 ^ 63
      → Post
          (λ r k'. Outcome "fallocate" (view k) (max (off + len) (view k).size) r (view k'))
          (fallocate sys (pos off) (pos len) k)
  unfolding fallocate pattern
  fallocate-Outcome off len k h =
      rw
        (
          mod-eq_of_lt {n = off} {m = 2 ^ 64} (omega arith),
          mod-eq_of_lt {n = len} {m = 2 ^ 64} (omega arith),
        )
        (fallocate_do-Outcome off len k h)

  -- On a file of Windows, for a length from 0 on: if `ftruncate_win32` returns, the file is just so
  -- long, and the position of the pointer is the one before; if it raises, it raises an error of the
  -- system, and the size is the old or the new one.
  pub ftruncate_win32-Outcome :
      (len : ℕ) (k : K)
      → len < 2 ^ 63
      → Post
          (λ r k'. Outcome "ftruncate" (view k) len r (view k'))
          (ftruncate_win32 sys (pos len) k)
  unfolding ftruncate_win32 pattern
  ftruncate_win32-Outcome len k h =
      rw (mod-eq_of_lt {n = len} {m = 2 ^ 64} (omega arith)) (ftruncate_win32_do-Outcome len k h)
