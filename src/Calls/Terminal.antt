-- ===== src/Calls/Terminal.antt =====
-- Terminals: src/tty_ioctl.c, src/pts.c, and their calls in src/unistd.c.
use extunix.Base.{ℕ, bit_or, String, List}
use extunix.Base.Int.{ℤ, int_val}
use extunix.Base.Call.{Answer, got, failed, Result, ok, raised, check}
use extunix.Base.Stub.{Stub, uerror}
use extunix.Flags.Open.{Header, defined_or, open_flags}

-- The flags of `struct termios`.
pub record Termios : Type 0 where
  pub c_iflag : ℕ
  pub c_oflag : ℕ
  pub c_cflag : ℕ
  pub c_lflag : ℕ

-- `struct winsize`
pub record Winsize : Type 0 where
  pub ws_col : ℕ
  pub ws_row : ℕ
  pub ws_xpixel : ℕ
  pub ws_ypixel : ℕ

abbrev pub window : Result Winsize → Result (ℕ × ℕ × ℕ × ℕ)
window (raised e) = raised e
window (ok ws) = ok (ws.ws_col, ws.ws_row, ws.ws_xpixel, ws.ws_ypixel)

-- `t.c_cflag |= CRTSCTS`
abbrev pub with_crtscts : Header → Termios → Termios
with_crtscts hdr t = record t { c_cflag = bit_or t.c_cflag (defined_or (hdr "CRTSCTS") 0) }

module _ {K : Type 0} where
  -- The second call is made if the first one succeeds.
  unfoldable pub set_crtscts :
      Header
      → (ℤ → Termios → K → Answer (Unit {0}) × K)
      → ℤ
      → Answer Termios
      → K
      → Answer (Unit {0}) × K
  set_crtscts hdr tcsetattr fd (failed e) k = (failed e, k)
  set_crtscts hdr tcsetattr fd (got t) k = tcsetattr fd (with_crtscts hdr t) k

  unfoldable pub crtscts :
      Header
      → (ℤ → K → Answer Termios × K)
      → (ℤ → Termios → K → Answer (Unit {0}) × K)
      → ℤ
      → Stub K (Unit {0})
  unfolding set_crtscts int_val
  crtscts hdr tcgetattr tcsetattr mlfd k =
      let fd = int_val mlfd in
      let (a, k') = tcgetattr fd k in
      let (r, k'') = set_crtscts hdr tcsetattr fd a k' in (check "crtscts" r, k'')

  -- The call of the macro `TTY_IOCTL_INT`.
  unfoldable pub tty_ioctl_int :
      Header → String → (ℤ → ℕ → ℤ → K → Answer (Unit {0}) × K) → ℤ → ℤ → Stub K (Unit {0})
  unfolding int_val
  tty_ioctl_int hdr cmd sys_ioctl v_fd v_arg =
      uerror "ioctl" (sys_ioctl (int_val v_fd) (defined_or (hdr cmd) 0) (int_val v_arg))

  unfoldable pub ioctl_tiocmset :
      Header → (ℤ → ℕ → ℤ → K → Answer (Unit {0}) × K) → ℤ → ℤ → Stub K (Unit {0})
  unfolding tty_ioctl_int
  ioctl_tiocmset hdr = tty_ioctl_int hdr "TIOCMSET"

  unfoldable pub ioctl_tiocmbic :
      Header → (ℤ → ℕ → ℤ → K → Answer (Unit {0}) × K) → ℤ → ℤ → Stub K (Unit {0})
  unfolding tty_ioctl_int
  ioctl_tiocmbic hdr = tty_ioctl_int hdr "TIOCMBIC"

  unfoldable pub ioctl_tiocmbis :
      Header → (ℤ → ℕ → ℤ → K → Answer (Unit {0}) × K) → ℤ → ℤ → Stub K (Unit {0})
  unfolding tty_ioctl_int
  ioctl_tiocmbis hdr = tty_ioctl_int hdr "TIOCMBIS"

  unfoldable pub ioctl_tiocgwinsz : (ℤ → K → Answer Winsize × K) → ℤ → Stub K (ℕ × ℕ × ℕ × ℕ)
  unfolding int_val
  ioctl_tiocgwinsz sys_ioctl v_fd k =
      let (a, k') = sys_ioctl (int_val v_fd) k in (window (check "ioctl" a), k')

  unfoldable pub ioctl_tiocmget : (ℤ → K → Answer ℤ × K) → ℤ → Stub K ℤ
  unfolding int_val
  ioctl_tiocmget sys_ioctl v_fd = uerror "ioctl" (sys_ioctl (int_val v_fd))

  unfoldable pub posix_openpt : Header → (ℕ → K → Answer ℤ × K) → List ℤ → Stub K ℤ
  unfolding open_flags
  posix_openpt hdr sys_posix_openpt flags =
      uerror "posix_openpt" (sys_posix_openpt (open_flags hdr flags))

  unfoldable pub grantpt : (ℤ → K → Answer (Unit {0}) × K) → ℤ → Stub K (Unit {0})
  unfolding int_val
  grantpt sys_grantpt fd = uerror "grantpt" (sys_grantpt (int_val fd))

  unfoldable pub unlockpt : (ℤ → K → Answer (Unit {0}) × K) → ℤ → Stub K (Unit {0})
  unfolding int_val
  unlockpt sys_unlockpt fd = uerror "unlockpt" (sys_unlockpt (int_val fd))

  unfoldable pub ptsname : (ℤ → K → Answer String × K) → ℤ → Stub K String
  unfolding int_val
  ptsname sys_ptsname fd = uerror "ptsname" (sys_ptsname (int_val fd))

  unfoldable pub ttyname : (ℤ → K → Answer String × K) → ℤ → Stub K String
  unfolding int_val
  ttyname sys_ttyname v_fd = uerror "ttyname" (sys_ttyname (int_val v_fd))

  unfoldable pub ctermid : (K → String × K) → Stub K String
  ctermid sys_ctermid k = let (buf, k') = sys_ctermid k in (ok buf, k')

  unfoldable pub tcgetpgrp : (ℤ → K → Answer ℤ × K) → ℤ → Stub K ℤ
  unfolding int_val
  tcgetpgrp sys_tcgetpgrp v_fd = uerror "tcgetpgrp" (sys_tcgetpgrp (int_val v_fd))

  -- The result is that of the call.
  unfoldable pub tcsetpgrp : (ℤ → ℤ → K → Answer ℤ × K) → ℤ → ℤ → Stub K ℤ
  unfolding int_val
  tcsetpgrp sys_tcsetpgrp v_fd v_pgid =
      uerror "tcsetpgrp" (sys_tcsetpgrp (int_val v_fd) (int_val v_pgid))
