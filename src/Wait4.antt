-- ===== src/Wait4.antt =====
-- src/wait4.c: the status of a child, and what it has used.
pub mod Status
mod Tests
use extunix.Base.{ℕ, String, Bool, true, false, List, [], ◌∷◌, ◌==◌, if◌then◌else◌}
use extunix.Base.Int.{ℤ, pos, negsuc, int_val}
use extunix.Base.Call.{Answer, got, failed, Exn, Result, ok, raised, check}
use extunix.Base.Stub.{Stub}
use extunix.Flags.Open.{Header, defined_or}

-- The macros of the system that take a status apart.
pub record StatusMacros : Type 0 where
  pub wifexited : ℕ → Bool
  pub wexitstatus : ℕ → ℕ
  pub wifstopped : ℕ → Bool
  pub wstopsig : ℕ → ℕ
  pub wtermsig : ℕ → ℕ

-- The variant of OCaml.
pub data ProcessStatus : Type 0 where
  wexited : ℤ → ProcessStatus
  wsignaled : ℤ → ProcessStatus
  wstopped : ℤ → ProcessStatus

pub record Rusage : Type 0 where
  pub utime_sec : ℤ
  pub utime_usec : ℤ
  pub stime_sec : ℤ
  pub stime_usec : ℤ
  pub ru_maxrss : ℤ

-- The record of OCaml; `D` are its floats.
pub record Used (D : Type 0) : Type 0 where
  pub utime : D
  pub stime : D
  pub maxrss : ℤ

-- What the system gives for a child.
pub record Waited : Type 0 where
  pub pid : ℤ
  pub wstatus : ℕ
  pub rusage : Rusage

abbrev pub is_zero : ℤ → Bool
is_zero (pos n) = n == 0
is_zero (negsuc n) = false

-- With `WNOHANG` and no child that has changed, the pid is 0 and the status is not set.
abbrev pub known_status : ℤ → ℕ → ℕ
known_status pid status = if is_zero pid then 0 else status

-- `rev_convert` is the runtime's `caml_rev_convert_signal_number`.
module _ (w : StatusMacros) (rev_convert : ℤ → ℤ) where
  unfoldable pub alloc_status : ℕ → ProcessStatus
  alloc_status status =
      if w.wifexited status
      then wexited (pos (w.wexitstatus status))
      else if w.wifstopped status
      then wstopped (rev_convert (pos (w.wstopsig status)))
      else wsignaled (rev_convert (pos (w.wtermsig status)))

  -- `seconds` is the float of seconds and microseconds.
  unfoldable pub alloc_wait4_return :
      {D : Type 0} → (ℤ → ℤ → D) → Waited → ℤ × ProcessStatus × Used D
  unfolding alloc_status
  alloc_wait4_return seconds r = (
    r.pid,
    alloc_status (known_status r.pid r.wstatus),
    record {
      utime = seconds r.rusage.utime_sec r.rusage.utime_usec;
      stime = seconds r.rusage.stime_sec r.rusage.stime_usec;
      maxrss = r.rusage.ru_maxrss;
    },
  )

  unfoldable pub wait_result :
      {D : Type 0} → (ℤ → ℤ → D) → Result Waited → Result (ℤ × ProcessStatus × Used D)
  unfolding alloc_wait4_return
  wait_result seconds (raised e) = raised e
  wait_result seconds (ok r) = ok (alloc_wait4_return seconds r)

unfoldable pub wait_flag_table : Header → List ℕ
wait_flag_table hdr = defined_or (hdr "WNOHANG") 0 ∷ defined_or (hdr "WUNTRACED") 0 ∷ []

unfoldable pub wait4 :
    {D K : Type 0}
    → StatusMacros
    → (ℤ → ℤ)
    → (ℤ → ℤ → D)
    → (List ℕ → List ℕ → ℕ)
    → Header
    → (ℤ → ℕ → K → Answer Waited × K)
    → List ℕ
    → ℤ
    → Stub K (ℤ × ProcessStatus × Used D)
unfolding wait_result wait_flag_table int_val
wait4 w rev_convert seconds convert hdr sys_wait4 vwait_flags vpid_req k =
    let (a, k') = sys_wait4 (int_val vpid_req) (convert vwait_flags (wait_flag_table hdr)) k in
    (wait_result w rev_convert seconds (check "wait4" a), k')
