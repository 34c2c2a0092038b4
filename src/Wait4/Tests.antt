-- ===== src/Wait4/Tests.antt =====
-- The statuses of Linux: an exit code in the high byte, a signal in the low one.
use extunix.Base.{
  ℕ, ◌<◌, Bool, true, false, if◌then◌else◌, ◌+◌, ◌*◌, ◌/◌, ◌%◌, ◌≡◌, refl, none, List, [], arith,
  ◌==◌,
}
use extunix.Base.Int.{ℤ, pos, negsuc}
use extunix.Base.Call.{Answer, got, ok}
use extunix.Flags.Open.{Header}
use extunix.Wait4.{StatusMacros, ProcessStatus, wexited, wsignaled, wstopped, Rusage, Waited, wait4}
use extunix.Wait4.Status.{Fate, exits, is_killed, is_stopped, IsStatus, seen, reported, wait4-seen}

abbrev linux : StatusMacros
linux = record {
  wifexited = λ s. s % 128 == 0;
  wexitstatus = λ s. (s / 256) % 256;
  wifstopped = λ s. s % 256 == 127;
  wstopsig = λ s. (s / 256) % 256;
  wtermsig = λ s. s % 128;
}

abbrev convert : ℤ → ℤ
convert (pos n) = negsuc n
convert (negsuc n) = negsuc n

abbrev pair : ℤ → ℤ → ℤ × ℤ
pair a b = (a, b)

abbrev used : Rusage
used = record {
  utime_sec = pos 1;
  utime_usec = pos 2;
  stime_sec = pos 3;
  stime_usec = pos 4;
  ru_maxrss = pos 5;
}

abbrev no_header : Header
no_header _ = none

abbrev no_flags : List ℕ → List ℕ → ℕ
no_flags l table = 0

abbrev child : ℤ → ℕ → ℤ → ℕ → ℕ → Answer Waited × ℕ
child pid status req flags k = (got (record { pid = pid; wstatus = status; rusage = used }), k)

abbrev StatusSeen : ℤ → ℕ → ProcessStatus → Type 0
StatusSeen pid status p =
    (wait4 linux convert pair no_flags no_header (child pid status) [] (pos 0) 7).0
    ≡ ok (pid, p, record { utime = (pos 1, pos 2); stime = (pos 3, pos 4); maxrss = pos 5 })

exited_run : StatusSeen (pos 9) 512 (wexited (pos 2))
unfolding wait4
exited_run = refl

killed_run : StatusSeen (pos 9) 11 (wsignaled (negsuc 11))
unfolding wait4
killed_run = refl

stopped_run : StatusSeen (pos 9) 4991 (wstopped (negsuc 19))
unfolding wait4
stopped_run = refl

-- No child has changed, and the status is whatever was there.
nothing_run : StatusSeen (pos 0) 4991 (wexited (pos 0))
unfolding wait4
nothing_run = refl

-- How the kernel of Linux makes a status.
abbrev linux_status : Fate → ℕ
linux_status (exits c) = 256 * c
linux_status (is_killed s core) = s + (if core then 128 else 0)
linux_status (is_stopped s) = 256 * s + 127

linux-killed_no_exit :
    (s : ℕ) (core : Bool)
    → 0 < s
    → s < 127
    → linux.wifexited (linux_status (is_killed s core)) ≡ false
linux-killed_no_exit s true low high = ground arith
linux-killed_no_exit s false low high = ground arith

linux-killed_no_stop :
    (s : ℕ) (core : Bool)
    → 0 < s
    → s < 127
    → linux.wifstopped (linux_status (is_killed s core)) ≡ false
linux-killed_no_stop s true low high = ground arith
linux-killed_no_stop s false low high = ground arith

linux-killed_signal :
    (s : ℕ) (core : Bool) → 0 < s → s < 127 → linux.wtermsig (linux_status (is_killed s core)) ≡ s
linux-killed_signal s true low high = omega arith
linux-killed_signal s false low high = omega arith

linux-IsStatus : IsStatus linux linux_status
linux-IsStatus = record {
  zero_exits = refl;
  exits_is = λ c r. ground arith;
  exits_code = λ c r. omega arith;
  killed_no_exit = linux-killed_no_exit;
  killed_no_stop = linux-killed_no_stop;
  killed_signal = linux-killed_signal;
  stopped_no_exit = λ s r. ground arith;
  stopped_is = λ s r. ground arith;
  stopped_signal = λ s r. omega arith;
}

abbrev killed_child : ℤ → ℕ → ℕ → Answer Waited × ℕ
killed_child req flags k = child (pos 9) (linux_status (is_killed 11 true)) req flags k

wait4-seen_example : wait4 linux convert pair no_flags no_header killed_child [] (pos 0) 7 ≡ (
  ok (
    pos 9,
    seen convert (reported (pos 9) (is_killed 11 true)),
    record {
      utime = pair used.utime_sec used.utime_usec;
      stime = pair used.stime_sec used.stime_usec;
      maxrss = used.ru_maxrss;
    },
  ),
  7,
)
wait4-seen_example =
    wait4-seen linux linux_status linux-IsStatus convert pair no_flags no_header killed_child []
      (pos 0) (pos 9) (is_killed 11 true) used 7 7 refl (omega arith, omega arith)
