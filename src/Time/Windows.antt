-- ===== src/Time/Windows.antt =====
-- src/time.c, the branches for Windows.
use extunix.Base.{ℕ, String, Bool, if◌then◌else◌}
use extunix.Base.Int.{ℤ}
use extunix.Base.Call.{Answer, got, failed, einval, unix_error, Result, ok, raised, check}
use extunix.Base.Stub.{Stub, pure, ◌>>=◌, and_then}
use extunix.Base.Heap.{Heap, strdup, stat_free}
use extunix.Time.{StructTm, Tm, fill_tm, is_nonzero, strftime_result}

-- `_wasctime_s` returns its error, and `caml_win32_maperr` maps it.
unfoldable pub win32_asctime : (StructTm → Answer String) → Tm → Result String
unfolding fill_tm
win32_asctime wasctime_s v_t = check "asctime" (wasctime_s (fill_tm v_t))

-- The format is copied, and freed before the result is looked at.
unfoldable pub win32_strftime :
    {K : Type 0}
    → (ℕ → String → StructTm → ℕ × String)
    → String
    → Tm
    → Heap K
    → Result String × Heap K
unfolding fill_tm
win32_strftime wcsftime v_fmt v_t s =
    let s' = strdup s in (strftime_result (wcsftime 256 v_fmt (fill_tm v_t)), stat_free s')

-- An error becomes `EINVAL`, whatever it is.
abbrev pub einval_for : {A : Type 0} → String → Answer A → Result A
einval_for name (got a) = ok a
einval_for name (failed e) = raised (unix_error einval name)

abbrev pub get_or_einval : {A K : Type 0} → String → (K → Answer A × K) → Stub K A
get_or_einval name call k = let (a, k') = call k in (einval_for name a, k')

-- The calls of the C library of Windows about the time zone.
pub record Win32Zone (K : Type 0) : Type 0 where
  pub tzset : K → K
  -- how many letters the name has, and then the name in a buffer
  pub sys_get_tzname_size : ℕ → K → Answer ℕ × K
  pub sys_get_tzname : ℕ → ℕ → K → Answer String × K
  pub sys_get_timezone : K → Answer ℤ × K
  pub sys_get_daylight : K → Answer ℤ × K

module _ {K : Type 0} (sys : Win32Zone K) where
  unfoldable pub win32_tzname : Bool → Stub K String
  win32_tzname v_isdst k =
      let i = if v_isdst then 1 else 0 in
      and_then (get_or_einval "tzname" (sys.sys_get_tzname_size i) (sys.tzset k))
        λ size. get_or_einval "tzname" (sys.sys_get_tzname i size)

  unfoldable pub win32_timezone : Stub K (ℤ × Bool)
  win32_timezone k = and_then (get_or_einval "timezone" sys.sys_get_timezone (sys.tzset k)) λ zone.
      do light ← get_or_einval "daylight" sys.sys_get_daylight; pure (zone, is_nonzero light)

-- `_mkgmtime`
unfoldable pub win32_timegm : {D : Type 0} → (StructTm → ℤ) → (ℤ → D) → Tm → D
unfolding fill_tm
win32_timegm mkgmtime copy_double v_t = copy_double (mkgmtime (fill_tm v_t))
