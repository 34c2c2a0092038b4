-- ===== src/Calls/Info.antt =====
-- What the system says of itself, and the environment: src/uname.c, src/sysinfo.c, src/sysconf.c,
-- src/stdlib.c.
use extunix.Base.{ℕ, String, Bool, Option, none, some, List, [], ◌∷◌, get_elem?, if◌then◌else◌}
use extunix.Base.Int.{ℤ, pos, negsuc}
use extunix.Base.Call.{Errno, Answer, unix_error, not_found, Result, ok, raised, check}
use extunix.Base.Stub.{Stub, uerror}
use extunix.Flags.Open.{Header}
use extunix.Endian.Macros.{val_long}
use extunix.Resource.{is_minus_one}

-- `struct utsname`, as texts
pub record Utsname : Type 0 where
  pub sysname : String
  pub nodename : String
  pub release : String
  pub version : String
  pub machine : String

unfoldable pub uname : {K : Type 0} → (K → Answer Utsname × K) → Stub K Utsname
uname sys_uname = uerror "uname" sys_uname

-- `struct sysinfo`
pub record StructSysinfo : Type 0 where
  pub load1 : ℕ
  pub load5 : ℕ
  pub load15 : ℕ
  pub uptime : ℤ
  pub totalram : ℕ
  pub freeram : ℕ
  pub sharedram : ℕ
  pub bufferram : ℕ
  pub totalswap : ℕ
  pub freeswap : ℕ
  pub procs : ℕ
  pub totalhigh : ℕ
  pub freehigh : ℕ
  pub mem_unit : ℕ

-- The record of OCaml; `D` are its floats.
pub record Sysinfo (D : Type 0) : Type 0 where
  pub loads : D × D × D
  pub up : ℤ
  pub total_ram : ℤ
  pub free_ram : ℤ
  pub shared_ram : ℤ
  pub buffer_ram : ℤ
  pub total_swap : ℤ
  pub free_swap : ℤ
  pub processes : ℤ
  pub total_high : ℤ
  pub free_high : ℤ
  pub unit_size : ℤ

-- `load` is the float of a load, divided by `1 << SI_LOAD_SHIFT`.
unfoldable pub convert : {D : Type 0} → (ℕ → D) → StructSysinfo → Sysinfo D
unfolding val_long
convert load s = record {
  loads = (load s.load1, load s.load5, load s.load15);
  up = val_long s.uptime;
  total_ram = val_long (pos s.totalram);
  free_ram = val_long (pos s.freeram);
  shared_ram = val_long (pos s.sharedram);
  buffer_ram = val_long (pos s.bufferram);
  total_swap = val_long (pos s.totalswap);
  free_swap = val_long (pos s.freeswap);
  processes = val_long (pos s.procs);
  total_high = val_long (pos s.totalhigh);
  free_high = val_long (pos s.freehigh);
  unit_size = val_long (pos s.mem_unit);
}

abbrev pub converted : {D : Type 0} → (ℕ → D) → Result StructSysinfo → Result (Sysinfo D)
converted load (raised e) = raised e
converted load (ok s) = ok (convert load s)

unfoldable pub sysinfo :
    {D K : Type 0} → (ℕ → D) → (K → Answer StructSysinfo × K) → Stub K (Sysinfo D)
unfolding convert
sysinfo load sys_sysinfo k = let (a, k') = sys_sysinfo k in (converted load (check "sysinfo" a), k')

abbrev pub uptime_of : Result StructSysinfo → Result ℤ
uptime_of (raised e) = raised e
uptime_of (ok s) = ok (val_long s.uptime)

unfoldable pub get_uptime : {K : Type 0} → (K → Answer StructSysinfo × K) → Stub K ℤ
unfolding val_long
get_uptime sys_sysinfo k = let (a, k') = sys_sysinfo k in (uptime_of (check "sysinfo" a), k')

-- The names of `sysconf`; those that the header lacks are -1.
abbrev pub conf_table_of : (String → Option ℕ) → List String → List ℤ
conf_table_of hdr [] = []
conf_table_of hdr (name ∷ names) =
    elim (hdr name) [ none ↦ negsuc 0 | some n ↦ pos n ] ∷ conf_table_of hdr names

unfoldable pub caml_conf_table : Header → List ℤ
caml_conf_table hdr = conf_table_of hdr (
    "_SC_ARG_MAX" ∷ "_SC_CHILD_MAX" ∷ "_SC_HOST_NAME_MAX" ∷ "_SC_LOGIN_NAME_MAX" ∷ "_SC_CLK_TCK"
    ∷ "_SC_OPEN_MAX" ∷ "_SC_PAGESIZE" ∷ "_SC_RE_DUP_MAX" ∷ "_SC_STREAM_MAX" ∷ "_SC_SYMLOOP_MAX"
    ∷ "_SC_TTY_NAME_MAX" ∷ "_SC_TZNAME_MAX" ∷ "_SC_VERSION" ∷ "_SC_LINE_MAX" ∷ "_SC_2_VERSION"
    ∷ "_SC_PHYS_PAGES" ∷ "_SC_AVPHYS_PAGES" ∷ "_SC_NPROCESSORS_CONF" ∷ "_SC_NPROCESSORS_ONLN" ∷ [])

-- The result of `sysconf` and `errno` after it: -1 is an error, and a value that has no limit.
abbrev pub conf_result : ℤ × Errno → Result ℤ
conf_result (r, errno) = if is_minus_one r then raised (unix_error errno "sysconf") else ok r

-- The name is an index of the table; `none` is one outside it, which C leaves undefined.
module _ {K : Type 0} (sys_sysconf : ℤ → K → (ℤ × Errno) × K) where
  unfoldable pub sysconf_entry : ℤ → Stub K ℤ
  sysconf_entry sc k =
      if is_minus_one sc
      then (raised not_found, k)
      else let (r, k') = sys_sysconf sc k in (conf_result r, k')

  abbrev pub sysconf_at : Option ℤ → K → Option (Result ℤ × K)
  sysconf_at none k = none
  sysconf_at (some sc) k = some (sysconf_entry sc k)

  unfoldable pub sysconf : Header → ℕ → K → Option (Result ℤ × K)
  unfolding sysconf_entry caml_conf_table
  sysconf hdr name k = sysconf_at (get_elem? (caml_conf_table hdr) name) k

module _ {K : Type 0} where
  unfoldable pub setenv :
      (String → String → Bool → K → Answer (Unit {0}) × K)
      → String
      → String
      → Bool
      → Stub K (Unit {0})
  setenv sys_setenv v_name v_val v_overwrite = uerror "setenv" (sys_setenv v_name v_val v_overwrite)

  unfoldable pub unsetenv : (String → K → Answer (Unit {0}) × K) → String → Stub K (Unit {0})
  unsetenv sys_unsetenv v_name = uerror "unsetenv" (sys_unsetenv v_name)

  unfoldable pub clearenv : (K → Answer (Unit {0}) × K) → Stub K (Unit {0})
  clearenv sys_clearenv = uerror "clearenv" sys_clearenv
