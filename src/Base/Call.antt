-- ===== src/Base/Call.antt =====
-- What a system call hands back, and the error numbers that the bindings tell apart.
use Prim.Native.Nat.{ℕ}
use Prim.Native.String.{String}
use mathlib.Core.Bool.{Bool, true, false}

pub data Errno : Type 0 where
  eintr eagain ewouldblock ebadf einval eoverflow enoprotoopt : Errno
  other : ℕ → Errno

-- A call returns a result, or -1 with `errno` set.
pub data Answer (A : Type 0) : Type 0 where
  got : A → Answer A
  failed : Errno → Answer A

-- How a stub leaves: a value, an exception of OCaml, or a failed `assert`.
pub data Exn : Type 0 where
  -- `caml_uerror(name, ...)` and `caml_unix_error(errno, name, ...)`
  unix_error : Errno → String → Exn
  -- `caml_invalid_argument(name)`
  invalid_argument : String → Exn
  -- `caml_raise_not_found()`
  not_found : Exn
  -- `ExtUnix.Not_available` with the name of a feature
  not_available : String → Exn
  -- `assert(...)`
  assert_failure : Exn

pub data Result (A : Type 0) : Type 0 where
  ok : A → Result A
  raised : Exn → Result A

abbrev pub is_eintr : Errno → Bool
is_eintr eintr = true
is_eintr _ = false

-- `errno == EAGAIN || errno == EWOULDBLOCK`
abbrev pub is_busy : Errno → Bool
is_busy eagain = true
is_busy ewouldblock = true
is_busy _ = false

-- `if (ret != 0) caml_uerror(name, ...)`
abbrev pub check : {A : Type 0} → String → Answer A → Result A
check name (got a) = ok a
check name (failed e) = raised (unix_error e name)
