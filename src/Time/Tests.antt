-- ===== src/Time/Tests.antt =====
-- A summer evening.
use extunix.Base.{◌≡◌, refl, none, some, arith}
use extunix.Base.Int.{pos, negsuc}
use extunix.Base.Call.{einval, unix_error, ok, raised}
use extunix.Time.{StructTm, alloc_tm, fill_tm, strptime, strftime, zero_tm}
use extunix.Time.RoundTrip.{normal, fill_tm-alloc_tm}

abbrev evening : StructTm
evening = record {
  tm_sec = pos 59;
  tm_min = pos 30;
  tm_hour = pos 21;
  tm_mday = pos 1;
  tm_mon = pos 6;
  tm_year = negsuc 4;
  tm_wday = pos 0;
  tm_yday = pos 181;
  tm_isdst = negsuc 0;
}

strptime_fails : strptime (λ s fmt t. none) "%Y" "soon" ≡ raised (unix_error einval "strptime")
unfolding strptime
strptime_fails = refl

strptime_run :
    strptime (λ s fmt t. some (record t { tm_year = pos 70 })) "%Y" "1970"
    ≡ ok (alloc_tm (record zero_tm { tm_year = pos 70 }))
unfolding strptime
strptime_run = refl

-- An empty text is refused like one that is too long.
strftime_empty :
    strftime (λ n fmt t. (0, "")) "" (alloc_tm evening) ≡ raised (unix_error einval "strftime")
unfolding strftime
strftime_empty = refl

fill_tm-alloc_tm_example : fill_tm (alloc_tm evening) ≡ normal evening
fill_tm-alloc_tm_example = fill_tm-alloc_tm evening (
  omega arith,
  omega arith,
  omega arith,
  omega arith,
  omega arith,
  omega arith,
  omega arith,
  omega arith,
)
