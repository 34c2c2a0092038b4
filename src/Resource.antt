-- ===== src/Resource.antt =====
-- src/resource.c: priorities and resource limits.
pub mod Limits
pub mod Priority
pub mod Rlimits
mod Tests
use extunix.Base.{
  ℕ, ◌^◌, String, Bool, true, false, ◌&&◌, not, Option, none, some, List, [], ◌∷◌, ltb, ◌==◌,
  if◌then◌else◌, length,
}
use extunix.Base.Int.{ℤ, pos, negsuc, pattern, signed, int_val}
use extunix.Base.Call.{Errno, Answer, got, failed, unix_error, assert_failure, Result, ok, raised}
use extunix.Flags.Open.{Header, defined_or}
use extunix.Flags.Table.{entry}

-- `which_prio_t` of OCaml
pub data WhichPrio : Type 0 where
  prio_process prio_pgrp prio_user : ℤ → WhichPrio

-- `*pwhich` and `*pwho`; an `id_t` has 32 bits. The constants are those of POSIX systems.
unfoldable pub decode_which_prio : Header → WhichPrio → ℕ × ℕ
decode_which_prio hdr (prio_process who) = (defined_or (hdr "PRIO_PROCESS") 0, pattern (2 ^ 32) who)
decode_which_prio hdr (prio_pgrp who) = (defined_or (hdr "PRIO_PGRP") 0, pattern (2 ^ 32) who)
decode_which_prio hdr (prio_user who) = (defined_or (hdr "PRIO_USER") 0, pattern (2 ^ 32) who)

abbrev pub is_minus_one : ℤ → Bool
is_minus_one (pos n) = false
is_minus_one (negsuc n) = n == 0

-- `errno` is 0 before the call and `none` stands for a 0 afterwards; -1 is a priority, too.
unfoldable pub priority_result : ℤ × Option Errno → Result ℤ
priority_result (res, none) = ok res
priority_result (res, some e) =
    if is_minus_one res then raised (unix_error e "getpriority") else ok res

module _ {K : Type 0} (hdr : Header) where
  -- `sys_getpriority which who` gives the result and `errno`.
  unfoldable pub getpriority : (ℕ → ℕ → K → (ℤ × Option Errno) × K) → WhichPrio → K → Result ℤ × K
  unfolding decode_which_prio priority_result
  getpriority sys_getpriority vwprio k =
      let (which, who) = decode_which_prio hdr vwprio in
      let (r, k') = sys_getpriority which who k in (priority_result r, k')

  unfoldable pub setpriority :
      (ℕ → ℕ → ℤ → K → Answer (Unit {0}) × K) → WhichPrio → ℤ → K → Result (Unit {0}) × K
  unfolding decode_which_prio
  setpriority sys_setpriority vwprio vprio k =
      let (which, who) = decode_which_prio hdr vwprio in
      let (a, k') = sys_setpriority which who (int_val vprio) k in
      (elim a [ got u ↦ ok tt | failed e ↦ raised (unix_error e "setpriority") ], k')

unfoldable pub resource_map : Header → List ℕ
resource_map hdr =
    defined_or (hdr "RLIMIT_CORE") 0
    ∷ defined_or (hdr "RLIMIT_CPU") 0
    ∷ defined_or (hdr "RLIMIT_DATA") 0
    ∷ defined_or (hdr "RLIMIT_FSIZE") 0
    ∷ defined_or (hdr "RLIMIT_NOFILE") 0
    ∷ defined_or (hdr "RLIMIT_STACK") 0
    ∷ defined_or (hdr "RLIMIT_AS") 0
    ∷ []

-- `none` is a failed assertion.
unfoldable pub decode_resource : Header → ℤ → Option ℕ
unfolding resource_map
decode_resource hdr (pos n) = if ltb n 7 then some (entry (resource_map hdr) n) else none
decode_resource hdr (negsuc n) = none

-- `rlim_infinity` is `RLIM_INFINITY`; an `rlim_t` has 64 bits and no sign. A limit of OCaml is
-- `none` for no limit.
unfoldable pub encode_limit : ℕ → ℕ → Option ℤ
encode_limit rlim_infinity v = if v == rlim_infinity then none else some (signed (2 ^ 64) v)

unfoldable pub decode_limit : ℕ → Option ℤ → ℕ
decode_limit rlim_infinity none = rlim_infinity
decode_limit rlim_infinity (some z) = pattern (2 ^ 64) z

pub record Rlimit : Type 0 where
  pub rlim_cur : ℕ
  pub rlim_max : ℕ

unfoldable pub limits : ℕ → Answer Rlimit → Result (Option ℤ × Option ℤ)
unfolding encode_limit
limits rlim_infinity (failed e) = raised (unix_error e "getrlimit")
limits rlim_infinity (got rlmt) =
    ok (encode_limit rlim_infinity rlmt.rlim_cur, encode_limit rlim_infinity rlmt.rlim_max)

abbrev pub set_result : Answer (Unit {0}) → Result (Unit {0})
set_result (got u) = ok tt
set_result (failed e) = raised (unix_error e "setrlimit")

-- The calls on a decoded resource.
module _ {K : Type 0} where
  unfoldable pub get_limits :
      ℕ → (ℕ → K → Answer Rlimit × K) → Option ℕ → K → Result (Option ℤ × Option ℤ) × K
  unfolding limits
  get_limits rlim_infinity sys_getrlimit none k = (raised assert_failure, k)
  get_limits rlim_infinity sys_getrlimit (some rsrc) k =
      let (a, k') = sys_getrlimit rsrc k in (limits rlim_infinity a, k')

  unfoldable pub set_limits :
      (ℕ → Rlimit → K → Answer (Unit {0}) × K) → Option ℕ → Rlimit → K → Result (Unit {0}) × K
  set_limits sys_setrlimit none rlmt k = (raised assert_failure, k)
  set_limits sys_setrlimit (some rsrc) rlmt k =
      let (a, k') = sys_setrlimit rsrc rlmt k in (set_result a, k')

  unfoldable pub getrlimit :
      Header → ℕ → (ℕ → K → Answer Rlimit × K) → ℤ → K → Result (Option ℤ × Option ℤ) × K
  unfolding decode_resource get_limits
  getrlimit hdr rlim_infinity sys_getrlimit vrsrc k =
      get_limits rlim_infinity sys_getrlimit (decode_resource hdr vrsrc) k

  unfoldable pub setrlimit :
      Header
      → ℕ
      → (ℕ → Rlimit → K → Answer (Unit {0}) × K)
      → ℤ
      → Option ℤ
      → Option ℤ
      → K
      → Result (Unit {0}) × K
  unfolding decode_resource decode_limit set_limits
  setrlimit hdr rlim_infinity sys_setrlimit vrsrc vslimit vhlimit k =
      set_limits sys_setrlimit (decode_resource hdr vrsrc)
        (record {
          rlim_cur = decode_limit rlim_infinity vslimit;
          rlim_max = decode_limit rlim_infinity vhlimit;
        })
        k
