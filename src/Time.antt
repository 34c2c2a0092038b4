-- ===== src/Time.antt =====
-- src/time.c: the structure `tm` of C and the record of OCaml; the calendar is the C library's.
pub mod RoundTrip
pub mod Windows
mod Tests
use extunix.Base.{ℕ, String, Bool, true, false, Option, none, some, not, ◌==◌, if◌then◌else◌}
use extunix.Base.Int.{ℤ, pos, negsuc, int_val}
use extunix.Base.Call.{
  Errno, Answer, got, failed, einval, Exn, unix_error, Result, ok, raised, check,
}
use extunix.Base.Stub.{Stub, uerror}

-- `struct tm`
pub record StructTm : Type 0 where
  pub tm_sec : ℤ
  pub tm_min : ℤ
  pub tm_hour : ℤ
  pub tm_mday : ℤ
  pub tm_mon : ℤ
  pub tm_year : ℤ
  pub tm_wday : ℤ
  pub tm_yday : ℤ
  pub tm_isdst : ℤ

-- `Unix.tm`
pub record Tm : Type 0 where
  pub sec : ℤ
  pub min : ℤ
  pub hour : ℤ
  pub mday : ℤ
  pub mon : ℤ
  pub year : ℤ
  pub wday : ℤ
  pub yday : ℤ
  pub isdst : Bool

-- `tm->tm_isdst ? Val_true : Val_false`
abbrev pub is_nonzero : ℤ → Bool
is_nonzero (pos n) = not (n == 0)
is_nonzero (negsuc n) = true

unfoldable pub alloc_tm : StructTm → Tm
alloc_tm t = record {
  sec = t.tm_sec;
  min = t.tm_min;
  hour = t.tm_hour;
  mday = t.tm_mday;
  mon = t.tm_mon;
  year = t.tm_year;
  wday = t.tm_wday;
  yday = t.tm_yday;
  isdst = is_nonzero t.tm_isdst;
}

abbrev pub bool_val : Bool → ℤ
bool_val b = if b then pos 1 else pos 0

unfoldable pub fill_tm : Tm → StructTm
unfolding int_val
fill_tm t = record {
  tm_sec = int_val t.sec;
  tm_min = int_val t.min;
  tm_hour = int_val t.hour;
  tm_mday = int_val t.mday;
  tm_mon = int_val t.mon;
  tm_year = int_val t.year;
  tm_wday = int_val t.wday;
  tm_yday = int_val t.yday;
  tm_isdst = bool_val t.isdst;
}

-- The structure starts with zeros, and the members that the format has are set.
abbrev pub zero_tm : StructTm
zero_tm = record {
  tm_sec = pos 0;
  tm_min = pos 0;
  tm_hour = pos 0;
  tm_mday = pos 0;
  tm_mon = pos 0;
  tm_year = pos 0;
  tm_wday = pos 0;
  tm_yday = pos 0;
  tm_isdst = pos 0;
}

abbrev pub strptime_result : Option StructTm → Result Tm
strptime_result none = raised (unix_error einval "strptime")
strptime_result (some t) = ok (alloc_tm t)

unfoldable pub strptime :
    (String → String → StructTm → Option StructTm) → String → String → Result Tm
unfolding alloc_tm
strptime c_strptime v_fmt v_s = strptime_result (c_strptime v_s v_fmt zero_tm)

-- On POSIX systems: `asctime_r` gives a text or `NULL`.
unfoldable pub asctime : (StructTm → Answer String) → Tm → Result String
unfolding fill_tm
asctime c_asctime v_t = check "asctime" (c_asctime (fill_tm v_t))

-- The number of bytes that the text takes, with 0 for one that is empty or does not fit in 256.
abbrev pub strftime_result : ℕ × String → Result String
strftime_result (n, buf) = if n == 0 then raised (unix_error einval "strftime") else ok buf

unfoldable pub strftime : (ℕ → String → StructTm → ℕ × String) → String → Tm → Result String
unfolding fill_tm
strftime c_strftime v_fmt v_t = strftime_result (c_strftime 256 v_fmt (fill_tm v_t))

-- The variables that `tzset` sets.
pub record Zone : Type 0 where
  pub tzname : ℕ → String
  pub timezone : ℤ
  pub daylight : ℤ

unfoldable pub get_tzname : {K : Type 0} → (K → Zone × K) → Bool → Stub K String
get_tzname tzset v_isdst k = let (z, k') = tzset k in (ok (z.tzname (if v_isdst then 1 else 0)), k')

unfoldable pub get_timezone : {K : Type 0} → (K → Zone × K) → Stub K (ℤ × Bool)
get_timezone tzset k = let (z, k') = tzset k in (ok (z.timezone, is_nonzero z.daylight), k')

-- `time_t` becomes a float.
unfoldable pub timegm : {D : Type 0} → (StructTm → ℤ) → (ℤ → D) → Tm → D
unfolding fill_tm
timegm c_timegm copy_double v_t = copy_double (c_timegm (fill_tm v_t))
