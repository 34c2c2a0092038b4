-- ===== src/Calls/Tests.antt =====
-- A terminal, a traced process and small systems.
use extunix.Base.{ℕ, ◌+◌, ◌-◌, ◌^◌, ◌≡◌, refl, false, none, some, ◌==◌, if◌then◌else◌}
use extunix.Base.Int.{ℤ, pos, negsuc, signed, pattern}
use extunix.Base.Call.{
  eintr, ebadf, einval, other, Answer, got, failed, unix_error, not_found, invalid_argument, ok,
  raised,
}
use extunix.Flags.Open.{Header}
use extunix.Calls.Process.{ptrace, ptrace_peekdata, gettid}
use extunix.Calls.Files.{is_open_descr, dirfd, eventfd_read}
use extunix.Calls.Memory.{malloc_info}
use extunix.Calls.Terminal.{Termios, crtscts}
use extunix.Calls.Info.{sysconf}
use extunix.Calls.Protocol.{reporting, read_all, written, IsTerminal}

abbrev sevens : Header
sevens _ = some 7

abbrev nothing : Header
nothing _ = none

-- The word -1 is everywhere but at 0, which cannot be read.
abbrev words : ℕ → ℤ → ℤ → ℕ → Answer ℤ × ℕ
words request pid (pos n) k = (if n == 0 then failed (other 14) else got (negsuc 0), k)
words request pid (negsuc n) k = (got (negsuc 0), k)

peek_minus_one : (ptrace_peekdata sevens (reporting words) (pos 9) (pos 8) 0).0 ≡ ok (negsuc 0)
unfolding ptrace_peekdata
peek_minus_one = refl

-- A system that does not clear an old `errno` makes an error of the word -1.
peek_stale :
    (ptrace_peekdata {K = ℕ} sevens
      (λ request pid addr k. ((negsuc 0, some eintr), k))
      (pos 9)
      (pos 8)
      0).0
    ≡ raised (unix_error eintr "ptrace_peekdata")
unfolding ptrace_peekdata
peek_stale = refl

ptrace_other :
    (ptrace {K = ℕ} sevens (λ r p k. (got tt, k)) (pos 9) 2 0).0
    ≡ raised (invalid_argument "ptrace")
unfolding ptrace
ptrace_other = refl

closed_descr : (is_open_descr {K = ℕ} (λ fd k. (failed ebadf, k)) (pos 9) 0).0 ≡ ok false
unfolding is_open_descr
closed_descr = refl

closed_dir :
    (dirfd {K = ℕ} {Dir = ℕ} (λ d k. (got (pos d), k)) none 0).0 ≡ raised (unix_error ebadf "dirfd")
unfolding dirfd
closed_dir = refl

-- A thread's number beyond an `int`.
long_tid : (gettid {K = ℕ} (λ k. (pos (2 ^ 32 + 3), k)) 0).0 ≡ ok (pos 3)
unfolding gettid signed pattern
long_tid = refl

-- The largest counter is -1.
counter_wraps : (eventfd_read {K = ℕ} (λ fd k. (got (2 ^ 64 - 1), k)) (pos 4) 0).0 ≡ ok (negsuc 0)
unfolding eventfd_read signed pattern
counter_wraps = refl

info_freed :
    malloc_info {K = ℕ}
      (λ k. (got tt, k))
      (λ k. (failed einval, k))
      (record { blocks = 0; handles = 0; kernel = 5 })
    ≡ (raised (unix_error einval "malloc_info"), record { blocks = 0; handles = 0; kernel = 5 })
unfolding malloc_info
info_freed = refl

unknown_name :
    sysconf {K = ℕ} (λ sc k. ((pos 8, einval), k)) nothing 18 5 ≡ some (raised not_found, 5)
unfolding sysconf
unknown_name = refl

-- A value with no limit, for which the system leaves `errno` as it was.
no_limit :
    sysconf {K = ℕ} (λ sc k. ((negsuc 0, other 0), k)) sevens 5 5
    ≡ some (raised (unix_error (other 0) "sysconf"), 5)
unfolding sysconf
no_limit = refl

-- The state is the settings of the one terminal.
abbrev tty_get : ℤ → Termios → Answer Termios × Termios
tty_get fd t = (got t, t)

abbrev tty_set : ℤ → Termios → Termios → Answer (Unit {0}) × Termios
tty_set fd new t = (got tt, new)

abbrev raw : Termios
raw = record { c_iflag = 1; c_oflag = 2; c_cflag = 8; c_lflag = 4 }

tty-IsTerminal : IsTerminal tty_get tty_set (λ fd t. t)
tty-IsTerminal = record { reads = λ fd t. read_all; writes = λ fd new t. written }

crtscts_run : crtscts sevens tty_get tty_set (pos 0) raw ≡ (ok tt, record raw { c_cflag = 15 })
unfolding crtscts
crtscts_run = refl
