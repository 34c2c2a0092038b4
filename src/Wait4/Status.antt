-- ===== src/Wait4/Status.antt =====
-- The status that src/wait4.c takes apart is the one that the system has put together.
use extunix.Base.{
  ℕ, zero, suc, ◌<◌, arith, ◌≡◌, refl, sym, Bool, true, false, List, ◌==◌, if◌then◌else◌,
}
use extunix.Base.Int.{ℤ, pos, negsuc, int_val}
use extunix.Base.Call.{Answer, got, ok}
use extunix.Flags.Open.{Header}
use extunix.Wait4.{
  StatusMacros, ProcessStatus, wexited, wsignaled, wstopped, Rusage, Waited, is_zero, known_status,
  alloc_status, alloc_wait4_return, wait_result, wait_flag_table, wait4,
}

-- What has become of a child: its exit code, or the number of a signal; a child that a signal has
-- killed may have left a core.
pub data Fate : Type 0 where
  exits : ℕ → Fate
  is_killed : ℕ → Bool → Fate
  is_stopped : ℕ → Fate

-- The codes and signals that a status of the system holds: 8 bits of a code or of a signal that
-- stops, and 7 of a signal that kills, where 0 is an exit and 127 is a stop.
abbrev pub IsFate : Fate → Type 0
IsFate (exits c) = c < 256
IsFate (is_killed s core) = (0 < s) × (s < 127)
IsFate (is_stopped s) = s < 256

-- The macros know the statuses of the system, and 0 is a normal exit.
pub record IsStatus (w : StatusMacros) (status : Fate → ℕ) : Type 0 where
  pub zero_exits : status (exits 0) ≡ 0
  pub exits_is : (c : ℕ) → c < 256 → w.wifexited (status (exits c)) ≡ true
  pub exits_code : (c : ℕ) → c < 256 → w.wexitstatus (status (exits c)) ≡ c
  pub killed_no_exit :
      (s : ℕ) (core : Bool) → 0 < s → s < 127 → w.wifexited (status (is_killed s core)) ≡ false
  pub killed_no_stop :
      (s : ℕ) (core : Bool) → 0 < s → s < 127 → w.wifstopped (status (is_killed s core)) ≡ false
  pub killed_signal :
      (s : ℕ) (core : Bool) → 0 < s → s < 127 → w.wtermsig (status (is_killed s core)) ≡ s
  pub stopped_no_exit : (s : ℕ) → s < 256 → w.wifexited (status (is_stopped s)) ≡ false
  pub stopped_is : (s : ℕ) → s < 256 → w.wifstopped (status (is_stopped s)) ≡ true
  pub stopped_signal : (s : ℕ) → s < 256 → w.wstopsig (status (is_stopped s)) ≡ s

-- What OCaml is to see.
abbrev pub seen : (ℤ → ℤ) → Fate → ProcessStatus
seen rev_convert (exits c) = wexited (pos c)
seen rev_convert (is_killed s core) = wsignaled (rev_convert (pos s))
seen rev_convert (is_stopped s) = wstopped (rev_convert (pos s))

-- The fate that `wait4` reports: with no child that has changed, an exit with the code 0.
abbrev pub reported : ℤ → Fate → Fate
reported pid fate = if is_zero pid then exits 0 else fate

module _ (w : StatusMacros) (status : Fate → ℕ) (is_status : IsStatus w status)
    (rev_convert : ℤ → ℤ) where
  alloc_status-status :
      (fate : Fate) → IsFate fate → alloc_status w rev_convert (status fate) ≡ seen rev_convert fate
  unfolding alloc_status
  alloc_status-status (exits c) r = rw (is_status.exits_is c r, is_status.exits_code c r) refl
  alloc_status-status (is_killed s core) (low, high) =
      rw
        (
          is_status.killed_no_exit s core low high,
          is_status.killed_no_stop s core low high,
          is_status.killed_signal s core low high,
        )
        refl
  alloc_status-status (is_stopped s) r =
      rw (is_status.stopped_no_exit s r, is_status.stopped_is s r, is_status.stopped_signal s r)
        refl

  reported-IsFate : (pid : ℤ) (fate : Fate) → IsFate fate → IsFate (reported pid fate)
  reported-IsFate (pos zero) fate r = omega arith
  reported-IsFate (pos (suc n)) fate r =
      let other : (suc n == 0) ≡ false = ground arith in rw other r
  reported-IsFate (negsuc n) fate r = r

  known_status-status :
      (pid : ℤ) (fate : Fate) → known_status pid (status fate) ≡ status (reported pid fate)
  known_status-status (pos n) fate = by_zero (n == 0)
    where
      by_zero : (b : Bool) → (if b then 0 else status fate) ≡ status (if b then exits 0 else fate)
      by_zero true = sym is_status.zero_exits
      by_zero false = refl
  known_status-status (negsuc n) fate = refl

  -- Where the macros know the statuses of the system, and the system reports the fate of a child, a
  -- code below 256, a signal that kills from 1 to 126, or one that stops below 256:
  -- `wait4` gives its pid, what has become of it with the exit code or the signal in OCaml's numbers,
  -- and its use of resources; with a pid of 0 it gives an exit with the code 0.
  pub wait4-seen :
      {D K : Type 0} (seconds : ℤ → ℤ → D) (convert : List ℕ → List ℕ → ℕ) (hdr : Header)
      (sys_wait4 : ℤ → ℕ → K → Answer Waited × K) (vwait_flags : List ℕ) (vpid_req pid : ℤ)
      (fate : Fate) (rusage : Rusage) (k k' : K)
      → sys_wait4 (int_val vpid_req) (convert vwait_flags (wait_flag_table hdr)) k
        ≡ (got (record { pid = pid; wstatus = status fate; rusage = rusage }), k')
      → IsFate fate
      → wait4 w rev_convert seconds convert hdr sys_wait4 vwait_flags vpid_req k ≡ (
        ok (
          pid,
          seen rev_convert (reported pid fate),
          record {
            utime = seconds rusage.utime_sec rusage.utime_usec;
            stime = seconds rusage.stime_sec rusage.stime_usec;
            maxrss = rusage.ru_maxrss;
          },
        ),
        k',
      )
  unfolding wait4 wait_result alloc_wait4_return
  wait4-seen seconds convert hdr sys_wait4 vwait_flags vpid_req pid fate rusage k k' e r =
      let known = known_status-status pid fate in
      let is = alloc_status-status (reported pid fate) (reported-IsFate pid fate r) in
      rw (e, known, is) refl
