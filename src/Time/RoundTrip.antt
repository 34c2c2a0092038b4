-- ===== src/Time/RoundTrip.antt =====
-- A time of C comes back from OCaml as it was.
use extunix.Base.{◌^◌, ◌≡◌, refl}
use extunix.Base.Int.{InSigned, int_val-InSigned}
use extunix.Time.{StructTm, alloc_tm, fill_tm, is_nonzero, bool_val}

-- The members are of type `int`.
abbrev pub IsTm : StructTm → Type 0
IsTm t =
    InSigned (2 ^ 31) t.tm_sec
    × InSigned (2 ^ 31) t.tm_min
    × InSigned (2 ^ 31) t.tm_hour
    × InSigned (2 ^ 31) t.tm_mday
    × InSigned (2 ^ 31) t.tm_mon
    × InSigned (2 ^ 31) t.tm_year
    × InSigned (2 ^ 31) t.tm_wday
    × InSigned (2 ^ 31) t.tm_yday

-- With the flag for daylight saving time as 1 where it is not 0.
abbrev pub normal : StructTm → StructTm
normal t = record t { tm_isdst = bool_val (is_nonzero t.tm_isdst) }

-- A structure of C whose members are of type `int` comes back from OCaml as it was, but for the flag
-- of daylight saving time, which becomes 1 if it is not 0: unknown, -1, is lost.
pub fill_tm-alloc_tm : (t : StructTm) → IsTm t → fill_tm (alloc_tm t) ≡ normal t
unfolding fill_tm alloc_tm
fill_tm-alloc_tm t (s, m, h, d, mo, y, wd, yd) =
    rw
      (
        int_val-InSigned t.tm_sec s,
        int_val-InSigned t.tm_min m,
        int_val-InSigned t.tm_hour h,
        int_val-InSigned t.tm_mday d,
        int_val-InSigned t.tm_mon mo,
        int_val-InSigned t.tm_year y,
        int_val-InSigned t.tm_wday wd,
        int_val-InSigned t.tm_yday yd,
      )
      refl
