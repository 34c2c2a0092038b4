-- ===== src/Sockopt/Windows.antt =====
-- src/sockopt.c, the branches for Windows: a descriptor must be a socket.
use extunix.Base.{ℕ, String, Option, none, some, if◌then◌else◌}
use extunix.Base.Int.{ℤ, int_val}
use extunix.Base.Call.{
  Errno, enoprotoopt, Answer, got, failed, Exn, unix_error, invalid_argument, not_found, Result, ok,
  raised,
}
use extunix.Calls.Files.{DescrKind, kind_handle, kind_socket}
use extunix.Flags.Open.{Header}
use extunix.Sockopt.{SockOption, find_option, is_known}

-- The error of the call is that of `WSAGetLastError`; another one than `WSAENOPROTOOPT` is raised as
-- what `errno` holds, which the call does not set.
module _ {K : Type 0} (errno : K → Errno) where
  abbrev pub socket_error : String → Errno → K → Exn
  socket_error name enoprotoopt k = not_found
  socket_error name e k = unix_error (errno k) name

  abbrev pub hand_socket_on : {A : Type 0} → String → Answer A × K → Result A × K
  hand_socket_on name (got a, k) = (ok a, k)
  hand_socket_on name (failed e, k) = (raised (socket_error name e k), k)

  -- A call on an option that may be out of range or unknown.
  abbrev pub with_option :
      {A : Type 0} → String → Option SockOption → (SockOption → K → Answer A × K) → K → Result A × K
  with_option name none call k = (raised (invalid_argument name), k)
  with_option name (some o) call k =
      if is_known o.opt then hand_socket_on name (call o k) else (raised not_found, k)

  unfoldable pub win32_setsockopt_int :
      Header
      → (ℤ → ℕ → ℤ → ℤ → K → Answer (Unit {0}) × K)
      → DescrKind
      → ℤ
      → ℤ
      → ℤ
      → K
      → Result (Unit {0}) × K
  win32_setsockopt_int hdr sys_setsockopt kind_handle s k v st =
      (raised (invalid_argument "setsockopt_int"), st)
  win32_setsockopt_int hdr sys_setsockopt kind_socket s k v st =
      with_option "setsockopt_int" (find_option hdr k)
        (λ o. sys_setsockopt s o.level o.opt (int_val v)) st

  unfoldable pub win32_getsockopt_int :
      Header → (ℤ → ℕ → ℤ → K → Answer ℤ × K) → DescrKind → ℤ → ℤ → K → Result ℤ × K
  win32_getsockopt_int hdr sys_getsockopt kind_handle s k st =
      (raised (invalid_argument "getsockopt_int"), st)
  win32_getsockopt_int hdr sys_getsockopt kind_socket s k st =
      with_option "getsockopt_int" (find_option hdr k) (λ o. sys_getsockopt s o.level o.opt) st
