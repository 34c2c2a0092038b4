-- ===== src/Sockopt.antt =====
-- src/sockopt.c (on POSIX systems): integer options of a socket by their place in a table.
pub mod Missing
pub mod Windows
mod Tests
use extunix.Base.{
  ℕ, String, ◌≡◌, refl, ◌≢◌, ◌⊎◌, inl, inr, ◌↔◌, Bool, true, false, not, Option, none, some, List,
  [], ◌∷◌, get_elem?, arith, if◌then◌else◌, ◌==◌,
}
use extunix.Base.Int.{ℤ, pos, negsuc, int_val}
use extunix.Base.Call.{
  Errno, enoprotoopt, Answer, got, failed, Exn, unix_error, invalid_argument, not_found, Result, ok,
  raised,
}
use extunix.Flags.Open.{Header, defined_or}

pub record SockOption : Type 0 where
  pub opt : ℤ
  pub level : ℕ

-- `#ifndef X #define X (-1)`
abbrev pub or_minus_one : Option ℕ → ℤ
or_minus_one none = negsuc 0
or_minus_one (some v) = pos v

-- `TCP_KEEPIDLE`, or what an Apple system has in its place
unfoldable pub tcp_keepidle : Header → ℤ
tcp_keepidle hdr = elim (hdr "TCP_KEEPIDLE") [
  | some v ↦ pos v
  | none ↦ elim (hdr "__APPLE__") [ some _ ↦ or_minus_one (hdr "TCP_KEEPALIVE") | none ↦ negsuc 0 ]
]

unfoldable pub tcp_options : Header → List SockOption
unfolding tcp_keepidle
tcp_options hdr =
    let tcp = defined_or (hdr "IPPROTO_TCP") 0 in
    let socket = defined_or (hdr "SOL_SOCKET") 0 in
    record { opt = or_minus_one (hdr "TCP_KEEPCNT"); level = tcp }
    ∷ record { opt = tcp_keepidle hdr; level = tcp }
    ∷ record { opt = or_minus_one (hdr "TCP_KEEPINTVL"); level = tcp }
    ∷ record { opt = or_minus_one (hdr "SO_REUSEPORT"); level = socket }
    ∷ record { opt = or_minus_one (hdr "SO_ATTACH_BPF"); level = socket }
    ∷ record { opt = or_minus_one (hdr "SO_ATTACH_REUSEPORT_EBPF"); level = socket }
    ∷ record { opt = or_minus_one (hdr "SO_DETACH_FILTER"); level = socket }
    ∷ record { opt = or_minus_one (hdr "SO_DETACH_BPF"); level = socket }
    ∷ record { opt = or_minus_one (hdr "SO_LOCK_FILTER"); level = socket }
    ∷ []

-- `tcp_options[Int_val(k)]` behind the check of `Int_val(k)`: `none` if it is out of range.
abbrev pub find_option : Header → ℤ → Option SockOption
find_option hdr (pos k) = get_elem? (tcp_options hdr) k
find_option hdr (negsuc n) = none

-- `tcp_options[Int_val(k)].opt != -1`
abbrev pub is_known : ℤ → Bool
is_known (pos n) = true
is_known (negsuc n) = not (n == 0)

unfoldable pub have_option : Option SockOption → Result Bool
have_option none = raised (invalid_argument "have_sockopt")
have_option (some o) = ok (is_known o.opt)

unfoldable pub have_sockopt : Header → ℤ → Result Bool
unfolding have_option
have_sockopt hdr k = have_option (find_option hdr k)

-- The exception for a failed call.
unfoldable pub option_error : String → Errno → Exn
option_error name enoprotoopt = not_found
option_error name e = unix_error e name

-- A call on the option that `k` names, whose answer is handed on.
unfoldable pub hand_on : {A K : Type 0} → String → Answer A × K → Result A × K
unfolding option_error
hand_on name (got a, s) = (ok a, s)
hand_on name (failed e, s) = (raised (option_error name e), s)

-- `sys_setsockopt s level opt optval` and `sys_getsockopt s level opt`, on an option that was found
module _ {K : Type 0} where
  unfoldable pub set_option :
      (ℤ → ℕ → ℤ → ℤ → K → Answer (Unit {0}) × K)
      → ℤ
      → Option SockOption
      → ℤ
      → K
      → Result (Unit {0}) × K
  unfolding hand_on
  set_option sys_setsockopt fd none v s = (raised (invalid_argument "setsockopt_int"), s)
  set_option sys_setsockopt fd (some o) v s =
      if is_known o.opt
      then hand_on "setsockopt_int" (sys_setsockopt (int_val fd) o.level o.opt (int_val v) s)
      else (raised not_found, s)

  unfoldable pub get_option :
      (ℤ → ℕ → ℤ → K → Answer ℤ × K) → ℤ → Option SockOption → K → Result ℤ × K
  unfolding hand_on
  get_option sys_getsockopt fd none s = (raised (invalid_argument "getsockopt_int"), s)
  get_option sys_getsockopt fd (some o) s =
      if is_known o.opt
      then hand_on "getsockopt_int" (sys_getsockopt (int_val fd) o.level o.opt s)
      else (raised not_found, s)

  unfoldable pub setsockopt_int :
      Header → (ℤ → ℕ → ℤ → ℤ → K → Answer (Unit {0}) × K) → ℤ → ℤ → ℤ → K → Result (Unit {0}) × K
  unfolding set_option
  setsockopt_int hdr sys_setsockopt fd k v s = set_option sys_setsockopt fd (find_option hdr k) v s

  unfoldable pub getsockopt_int : Header → (ℤ → ℕ → ℤ → K → Answer ℤ × K) → ℤ → ℤ → K → Result ℤ × K
  unfolding get_option
  getsockopt_int hdr sys_getsockopt fd k s = get_option sys_getsockopt fd (find_option hdr k) s
