-- ===== src/Fallocate/Seek.antt =====
-- A move of the file pointer by src/fallocate.c on a file of Windows.
use extunix.Base.{
  ℕ, ◌+◌, ◌*◌, ◌/◌, ◌%◌, ◌^◌, ◌<◌, String, ◌≡◌, refl, ap, ◌∙◌, sym, inl, inr, ◌⊎◌, Option, none,
  some, arith, true, ◌==◌, Bool-cases,
}
use extunix.Base.Call.{Errno, unix_error, Result, ok, raised}
use extunix.Base.Stub.{Stub, Post, and_then, and_then-Post}
use extunix.Fallocate.{
  MoveMethod, SeekResult, Win32, quad_part, invalid_set_file_pointer, seek_result, file_lseek,
  seek_error,
}
use extunix.Fallocate.File.{File, cut, move_base, Sought, moved, refused, IsFile}

-- After a move of the pointer by `place`.
abbrev pub Landed : File → ℕ → MoveMethod → String → Result ℕ → File → Type 0
Landed f place method name (ok n) f' =
    (n ≡ move_base method f + place)
    × (n < 2 ^ 63)
    × (f' ≡ record f { position = move_base method f + place })
Landed f place method name (raised e) f' = (f' ≡ f) × (err : Errno) × (e ≡ unix_error err name)

seek_error-none : (name : String) (o : Option Errno) (n : ℕ) → o ≡ none → seek_error name o n ≡ ok n
seek_error-none name none n e = refl
seek_error-none name (some x) n e = cc

seek_result-Landed :
    (f : File) (place : ℕ) (method : MoveMethod) (name : String) (r : SeekResult) (f' : File)
    → Sought f place method r f'
    → Landed f place method name (seek_result name r) f'
unfolding seek_result
seek_result-Landed f place method name _ _ (moved r at_base small clean) =
    elim (Bool-cases (r.low_part == invalid_set_file_pointer)) [
      | inl like_error ↦
          rw (like_error, seek_error-none name r.last_error (quad_part r) (clean (ground arith)))
            (at_base, small, refl)
      | inr other ↦ rw other (at_base, small, refl)
    ]
seek_result-Landed f place method name _ _ (refused r e low error) =
    let r' : (r.low_part == invalid_set_file_pointer) ≡ true = ground arith in
    rw (r', error) (refl, e, refl)

-- What an emulation may do to a file of `size` bytes that is to have `n`: if it returns, the file has
-- them and the pointer is where it was; if it raises, the size is the one or the other.
abbrev pub Outcome : String → File → ℕ → Result (Unit {0}) → File → Type 0
Outcome name f n (ok u) f' = f' ≡ cut n f
Outcome name f n (raised e) f' =
    ((f'.size ≡ f.size) ⊎ (f'.size ≡ n)) × (err : Errno) × (e ≡ unix_error err name)

module _ {K : Type 0} (sys : Win32 K) (view : K → File) (is_file : IsFile sys view) where
  file_lseek-Landed :
      (name : String) (place : ℕ) (method : MoveMethod) (k : K)
      → place < 2 ^ 63
      → Post
          (λ r k'. Landed (view k) place method name r (view k'))
          (file_lseek sys name place method k)
  unfolding file_lseek
  file_lseek-Landed name place method k h =
      let e : place % 2 ^ 32 + 2 ^ 32 * (place / 2 ^ 32) ≡ place = omega arith in
      let s =
        is_file.seek_to (place % 2 ^ 32) (place / 2 ^ 32) method k (omega arith)
          (omega (arith, e)) in
      seek_result-Landed (view k) place method name
        (sys.set_file_pointer (place % 2 ^ 32) (place / 2 ^ 32) method k).0
        (view (sys.set_file_pointer (place % 2 ^ 32) (place / 2 ^ 32) method k).1) (rw e at s)

  -- The rule for a move of the pointer, which leaves the size alone.
  pub and_then-file_lseek :
      {B : Type 0} (Q : Result B → File → Type 0) (name : String) (place : ℕ) (method : MoveMethod)
      (k : K) (f : ℕ → Stub K B)
      → place < 2 ^ 63
      → ((n : ℕ) (k' : K)
          → n ≡ move_base method (view k) + place
          → n < 2 ^ 63
          → (view k').size ≡ (view k).size
          → (view k').position ≡ n
          → Post (λ r k''. Q r (view k'')) (f n k'))
      → ((err : Errno) (k' : K)
          → (view k').size ≡ (view k).size
          → Q (raised (unix_error err name)) (view k'))
      → Post (λ r k''. Q r (view k'')) (and_then (file_lseek sys name place method k) f)
  and_then-file_lseek Q name place method k f h go stop =
      and_then-Post (λ r k'. Landed (view k) place method name r (view k')) (λ r k'. Q r (view k'))
        (file_lseek sys name place method k) f (file_lseek-Landed name place method k h)
        (λ n k' l. go n k' l.0 l.1 (ap (λ g. g.size) l.2) (ap (λ g. g.position) l.2 ∙ sym l.0))
        (λ e k' l. rw l.2 (stop l.1 k' (ap (λ g. g.size) l.0)))
