-- ===== src/Calls/Process.antt =====
-- Processes, users and tracing: src/unistd.c, src/ptrace.c, src/unshare.c, src/fexecve.c,
-- src/read_cred.c.
use extunix.Base.{ℕ, ◌^◌, String, Option, none, some, List, [], ◌∷◌, ◌==◌, if◌then◌else◌}
use extunix.Base.Int.{ℤ, pos, pattern, int_val}
use extunix.Base.Call.{Errno, Answer, unix_error, invalid_argument, Result, ok, raised, check}
use extunix.Base.Stub.{Stub, raise, uerror}
use extunix.Flags.Open.{Header, defined_or}
use extunix.Base.Heap.{Heap, strdup, stat_free}
use extunix.Paths.{table_of}
use extunix.Resource.{is_minus_one}

-- `uid_t` and `gid_t`
abbrev pub uid_val : ℤ → ℕ
uid_val v = pattern (2 ^ 32) (int_val v)

-- The result of a `ptrace` that peeks, and `errno` after it; `none` is 0.
abbrev pub Peeked : Type 0
Peeked = ℤ × Option Errno

abbrev pub errno_or : String → Option Errno → ℤ → Result ℤ
errno_or name none r = ok r
errno_or name (some e) r = raised (unix_error e name)

-- `if (-1 == r && 0 != errno)`
unfoldable pub peek_result : String → Peeked → Result ℤ
peek_result name (r, errno) = if is_minus_one r then errno_or name errno r else ok r

module _ {K : Type 0} where
  -- The thread's number is cut to an `int`.
  unfoldable pub gettid : (K → ℤ × K) → Stub K ℤ
  unfolding int_val
  gettid sys_gettid k = let (tid, k') = sys_gettid k in (ok (int_val tid), k')

  unfoldable pub setpgid : (ℤ → ℤ → K → Answer (Unit {0}) × K) → ℤ → ℤ → Stub K (Unit {0})
  unfolding int_val
  setpgid sys_setpgid v_pid v_pgid = uerror "setpgid" (sys_setpgid (int_val v_pid) (int_val v_pgid))

  unfoldable pub getpgid : (ℤ → K → Answer ℤ × K) → ℤ → Stub K ℤ
  unfolding int_val
  getpgid sys_getpgid v_pid = uerror "getpgid" (sys_getpgid (int_val v_pid))

  unfoldable pub getsid : (ℤ → K → Answer ℤ × K) → ℤ → Stub K ℤ
  unfolding int_val
  getsid sys_getsid v_pid = uerror "getsid" (sys_getsid (int_val v_pid))

  unfoldable pub setreuid : (ℤ → ℤ → K → Answer (Unit {0}) × K) → ℤ → ℤ → Stub K (Unit {0})
  unfolding int_val
  setreuid sys_setreuid v_ruid v_euid =
      uerror "setreuid" (sys_setreuid (int_val v_ruid) (int_val v_euid))

  unfoldable pub setregid : (ℤ → ℤ → K → Answer (Unit {0}) × K) → ℤ → ℤ → Stub K (Unit {0})
  unfolding int_val
  setregid sys_setregid v_rgid v_egid =
      uerror "setregid" (sys_setregid (int_val v_rgid) (int_val v_egid))

  unfoldable pub setresuid : (ℕ → ℕ → ℕ → K → Answer (Unit {0}) × K) → ℤ → ℤ → ℤ → Stub K (Unit {0})
  unfolding int_val
  setresuid sys_setresuid r e s =
      uerror "setresuid" (sys_setresuid (uid_val r) (uid_val e) (uid_val s))

  unfoldable pub setresgid : (ℕ → ℕ → ℕ → K → Answer (Unit {0}) × K) → ℤ → ℤ → ℤ → Stub K (Unit {0})
  unfolding int_val
  setresgid sys_setresgid r e s =
      uerror "setresgid" (sys_setresgid (uid_val r) (uid_val e) (uid_val s))

  unfoldable pub ptrace_traceme : Header → (ℕ → ℤ → K → Answer (Unit {0}) × K) → Stub K (Unit {0})
  ptrace_traceme hdr sys_ptrace =
      uerror "ptrace_traceme" (sys_ptrace (defined_or (hdr "PTRACE_TRACEME") 0) (pos 0))

  unfoldable pub ptrace : Header → (ℕ → ℤ → K → Answer (Unit {0}) × K) → ℤ → ℕ → Stub K (Unit {0})
  unfolding int_val
  ptrace hdr sys_ptrace v_pid v_req =
      if v_req == 0
      then uerror "ptrace" (sys_ptrace (defined_or (hdr "PTRACE_ATTACH") 0) (int_val v_pid))
      else if v_req == 1
      then uerror "ptrace" (sys_ptrace (defined_or (hdr "PTRACE_DETACH") 0) (int_val v_pid))
      else raise (invalid_argument "ptrace")

  unfoldable pub ptrace_peekdata : Header → (ℕ → ℤ → ℤ → K → Peeked × K) → ℤ → ℤ → Stub K ℤ
  unfolding peek_result int_val
  ptrace_peekdata hdr sys_ptrace v_pid v_addr k =
      let (r, k') = sys_ptrace (defined_or (hdr "PTRACE_PEEKDATA") 0) (int_val v_pid) v_addr k in
      (peek_result "ptrace_peekdata" r, k')

  unfoldable pub ptrace_peektext : Header → (ℕ → ℤ → ℤ → K → Peeked × K) → ℤ → ℤ → Stub K ℤ
  unfolding peek_result int_val
  ptrace_peektext hdr sys_ptrace v_pid v_addr k =
      let (r, k') = sys_ptrace (defined_or (hdr "PTRACE_PEEKTEXT") 0) (int_val v_pid) v_addr k in
      (peek_result "ptrace_peektext" r, k')

unfoldable pub clone_flags_table : Header → List ℕ
clone_flags_table hdr = table_of hdr (
    "CLONE_FS" ∷ "CLONE_FILES" ∷ "CLONE_NEWNS" ∷ "CLONE_SYSVSEM" ∷ "CLONE_NEWUTS" ∷ "CLONE_NEWIPC"
    ∷ "CLONE_NEWUSER" ∷ "CLONE_NEWPID" ∷ "CLONE_NEWNET" ∷ [])

unfoldable pub unshare :
    {K : Type 0}
    → (List ℕ → List ℕ → ℕ)
    → Header
    → (ℕ → K → Answer (Unit {0}) × K)
    → List ℕ
    → Stub K (Unit {0})
unfolding clone_flags_table
unshare convert hdr sys_unshare v_cloneflags =
    uerror "unshare" (sys_unshare (convert v_cloneflags (clone_flags_table hdr)))

-- The pointers to the strings, and a null pointer behind them.
abbrev pub array_of_value : List String → List (Option String)
array_of_value [] = none ∷ []
array_of_value (s ∷ v) = some s ∷ array_of_value v

-- Both arrays of pointers are allocated. A call that succeeds does not return
-- (`none`); else both are freed and the error is raised.
abbrev pub fexecve_result :
    {K : Type 0} → Option Errno → Heap K → Option (Result (Unit {0}) × Heap K)
fexecve_result none s = none
fexecve_result (some e) s = some (raised (unix_error e "fexecve"), stat_free (stat_free s))

unfoldable pub fexecve :
    {K : Type 0}
    → (ℤ → List (Option String) → List (Option String) → K → Option Errno × K)
    → ℤ
    → List String
    → List String
    → Heap K
    → Option (Result (Unit {0}) × Heap K)
unfolding int_val
fexecve sys_fexecve fd_val argv_val envp_val s =
    let s' = strdup (strdup s) in
    let (r, k) =
      sys_fexecve (int_val fd_val) (array_of_value argv_val) (array_of_value envp_val) s'.kernel in
    fexecve_result r (record s' { kernel = k })

-- `struct ucred`
pub record Ucred : Type 0 where
  pub pid : ℤ
  pub uid : ℕ
  pub gid : ℕ

abbrev pub credentials : Result Ucred → Result (ℤ × ℤ × ℤ)
credentials (raised e) = raised e
credentials (ok crd) = ok (crd.pid, pos crd.uid, pos crd.gid)

unfoldable pub read_credentials : {K : Type 0} → (ℤ → K → Answer Ucred × K) → ℤ → Stub K (ℤ × ℤ × ℤ)
unfolding int_val
read_credentials sys_getsockopt fd_val k =
    let (a, k') = sys_getsockopt (int_val fd_val) k in
    (credentials (check "read_credentials" a), k')
