-- ===== src/Resource/Tests.antt =====
-- Priorities and limits on a system that keeps one pair of limits.
use extunix.Base.{ℕ, ◌^◌, ◌≡◌, refl, ◌≢◌, ◌-◌, none, some, arith, if◌then◌else◌, ◌==◌}
use extunix.Base.Int.{ℤ, pos, negsuc, pattern}
use extunix.Base.Call.{Answer, got, failed, einval, assert_failure, ok, raised}
use extunix.Flags.Open.{Header}
use extunix.Resource.{prio_process, getpriority, Rlimit, getrlimit, setrlimit}
use extunix.Resource.Priority.{reporting}
use extunix.Resource.Limits.{Remembers, getrlimit-setrlimit}

abbrev sevens : Header
sevens _ = some 7

abbrev infinity : ℕ
infinity = 2 ^ 64 - 1

-- Every process has the priority -1, and other users' cannot be asked for.
abbrev answer : ℕ → ℕ → ℕ → Answer ℤ × ℕ
answer which who k = (if who == 0 then got (negsuc 0) else failed einval, k)

getpriority_run : (getpriority sevens (reporting answer) (prio_process (pos 0)) 5).0 ≡ ok (negsuc 0)
unfolding getpriority pattern
getpriority_run = refl

abbrev keep : ℕ → Rlimit → Rlimit → Answer (Unit {0}) × Rlimit
keep rsrc l k = (got tt, l)

abbrev give : ℕ → Rlimit → Answer Rlimit × Rlimit
give rsrc k = (got k, k)

keep-Remembers : Remembers keep give
keep-Remembers rsrc l k e = refl

abbrev old : Rlimit
old = record { rlim_cur = 0; rlim_max = 0 }

set_run : (setrlimit sevens infinity keep (pos 3) (some (pos 10)) none old).0 ≡ ok tt
unfolding setrlimit
set_run = refl

assert_run :
    (setrlimit sevens infinity keep (pos 7) (some (pos 10)) none old).0 ≡ raised assert_failure
unfolding setrlimit
assert_run = refl

ten_is_limit : pattern (2 ^ 64) (pos 10) ≢ infinity
unfolding pattern
ten_is_limit e = omega (arith, e)

getrlimit-setrlimit_example :
    (getrlimit sevens infinity give
      (pos 3)
      (setrlimit sevens infinity keep (pos 3) (some (pos 10)) none old).1).0
    ≡ ok (some (pos 10), none)
getrlimit-setrlimit_example =
    getrlimit-setrlimit sevens infinity keep give keep-Remembers (pos 3) (some (pos 10)) none old
      (omega arith, ten_is_limit) tt set_run
