-- ===== src/Resource/Priority.antt =====
-- The protocol of `getpriority`, where -1 is a priority as well as an error.
use extunix.Base.{ℕ, ◌≡◌, refl, Option, none, some}
use extunix.Base.Int.{ℤ, negsuc}
use extunix.Base.Call.{Errno, Answer, got, failed, unix_error, Result, ok, raised}
use extunix.Flags.Open.{Header}
use extunix.Resource.{WhichPrio, decode_which_prio, priority_result, getpriority}

-- How C reports an answer: -1 and `errno` for an error, else the priority with `errno` as it was.
abbrev pub report : Answer ℤ → ℤ × Option Errno
report (got z) = (z, none)
report (failed e) = (negsuc 0, some e)

abbrev pub reporting :
    {K : Type 0} → (ℕ → ℕ → K → Answer ℤ × K) → ℕ → ℕ → K → (ℤ × Option Errno) × K
reporting answer which who k = let (a, k') = answer which who k in (report a, k')

-- What a caller is to see.
abbrev pub seen : Answer ℤ → Result ℤ
seen (got z) = ok z
seen (failed e) = raised (unix_error e "getpriority")

priority_result-report : (a : Answer ℤ) → priority_result (report a) ≡ seen a
unfolding priority_result
priority_result-report (got z) = refl
priority_result-report (failed e) = refl

-- Where the system reports its answers as C does, `getpriority` returns every priority, -1 among
-- them, and raises every error.
pub getpriority-seen :
    {K : Type 0} (hdr : Header) (answer : ℕ → ℕ → K → Answer ℤ × K) (vwprio : WhichPrio) (k : K)
    → (getpriority hdr (reporting answer) vwprio k).0
      ≡ seen (answer (decode_which_prio hdr vwprio).0 (decode_which_prio hdr vwprio).1 k).0
unfolding getpriority
getpriority-seen hdr answer vwprio k = priority_result-report _
