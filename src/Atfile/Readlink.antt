-- ===== src/Atfile/Readlink.antt =====
-- `readlinkat` of src/atfile.c, with a buffer that doubles until the link fits.
use extunix.Base.{
  ℕ, zero, suc, ◌+◌, ◌-◌, ◌*◌, ◌^◌, String, Option, none, some, List, [], ◌∷◌, ltb, if◌then◌else◌,
  length,
}
use extunix.Base.Int.{ℤ, int_val}
use extunix.Base.Call.{Errno, Answer, got, failed, unix_error, Result, ok, raised}
use extunix.Transfer.Loop.{Round, next, done, iterate}
use extunix.Base.Heap.{Heap, strdup, stat_free, blocking}
use extunix.Atfile.{System}

-- `size`, and the number of blocks of the loop: 0 while `buffer` is `NULL`, then 1.
pub record LinkVars (K : Type 0) : Type 0 where
  pub size : ℕ
  pub held : ℕ
  pub heap : Heap K

-- What the loop returns: the buffer up to the terminator, or `NULL` with `errno`. `overflow` is a
-- size that an `int` does not hold.
pub data LinkOutcome (K : Type 0) : Type 0 where
  link : List ℕ → Heap K → LinkOutcome K
  null : Errno → Heap K → LinkOutcome K
  overflow : LinkOutcome K

abbrev pub release : {K : Type 0} → ℕ → Heap K → Heap K
release held s = record s { allocated = s.allocated - held }

-- The end of a round: the link fits, or the buffer is to double.
unfoldable pub fits_or_double :
    {K : Type 0} → ℕ → Answer (List ℕ) × Heap K → Round (LinkVars K) (LinkOutcome K)
fits_or_double size (failed e, s) = done (null e (release 1 s))
fits_or_double size (got chars, s) =
    if ltb (length chars) size
    then done (link chars s)
    else if ltb (size * 2) (2 ^ 31)
    then next (record { size = size * 2; held = 1; heap = s })
    else done overflow

unfoldable pub after_resize :
    {K : Type 0}
    → (ℕ → K → Answer (List ℕ) × K)
    → LinkVars K
    → Answer (Unit {0}) × Heap K
    → Round (LinkVars K) (LinkOutcome K)
unfolding fits_or_double
after_resize read v (failed e, s) = done (null e (release v.held s))
after_resize read v (got _, s) =
    fits_or_double v.size
      (blocking (read v.size) (record s { allocated = s.allocated + 1 - v.held }))

module _ {K : Type 0} (sys : System K) where
  unfoldable pub link_round :
      (ℕ → K → Answer (List ℕ) × K) → LinkVars K → Round (LinkVars K) (LinkOutcome K)
  unfolding after_resize
  link_round read v = after_resize read v (blocking (sys.resize v.size) v.heap)

  unfoldable pub readlinkat_malloc : ℕ → ℤ → String → Heap K → Option (LinkOutcome K)
  unfolding link_round iterate
  readlinkat_malloc fuel dirfd filename s =
      iterate fuel (link_round (sys.sys_readlinkat dirfd filename))
        (record { size = 100; held = 0; heap = s })

-- `caml_copy_string`: up to the first byte 0
abbrev pub c_string : List ℕ → List ℕ
c_string [] = []
c_string (zero ∷ bs) = []
c_string (suc b ∷ bs) = suc b ∷ c_string bs

-- What the stub makes of the outcome; `none` is an overflow.
unfoldable pub link_result : {K : Type 0} → LinkOutcome K → Option (Result (List ℕ) × Heap K)
link_result (link chars s) = some (ok (c_string chars), stat_free (stat_free s))
link_result (null e s) = some (raised (unix_error e "readlinkat"), stat_free s)
link_result overflow = none

-- `none` if the fuel runs out, too.
unfoldable pub readlinkat :
    {K : Type 0} → System K → ℕ → ℤ → String → Heap K → Option (Result (List ℕ) × Heap K)
unfolding readlinkat_malloc link_result
readlinkat sys fuel dirfd name s =
    elim (readlinkat_malloc sys fuel (int_val dirfd) name (strdup s)) [
      | none ↦ none
      | some o ↦ link_result o
    ]
