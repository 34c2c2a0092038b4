-- ===== src/Sockopt/Tests.antt =====
-- The option calls on a kernel of one integer.
use extunix.Base.{ℕ, ◌≡◌, refl, ◌≢◌, ◌⊎◌, ◌↔◌, false, true, none, some, arith}
use extunix.Base.Int.{ℤ, pos, int_val, pattern, signed}
use extunix.Base.Call.{Answer, got, failed, enoprotoopt, ok, raised, not_found, invalid_argument}
use extunix.Flags.Open.{Header}
use extunix.Sockopt.{
  SockOption, find_option, tcp_options, tcp_keepidle, have_sockopt, setsockopt_int, getsockopt_int,
}
use extunix.Sockopt.Missing.{setsockopt_int-not_found, sockopt-untouched}

-- A system with no option of the table.
abbrev bare : Header
bare _ = none

-- A system where every macro is 7.
abbrev sevens : Header
sevens _ = some 7

abbrev put : ℤ → ℕ → ℤ → ℤ → ℤ → Answer (Unit {0}) × ℤ
put fd level opt v s = (got tt, v)

abbrev look : ℤ → ℕ → ℤ → ℤ → Answer ℤ × ℤ
look fd level opt s = (got s, s)

set_get_run :
    getsockopt_int sevens look
      (pos 3)
      (pos 8)
      (setsockopt_int sevens put (pos 3) (pos 8) (pos 30) (pos 0)).1
    ≡ (ok (pos 30), pos 30)
unfolding getsockopt_int setsockopt_int tcp_options int_val pattern signed
set_get_run = refl

outside_run :
    setsockopt_int sevens put (pos 3) (pos 9) (pos 30) (pos 0)
    ≡ (raised (invalid_argument "setsockopt_int"), pos 0)
unfolding setsockopt_int tcp_options
outside_run = refl

setsockopt_int-not_found_example :
    ((setsockopt_int bare put (pos 3) (pos 1) (pos 30) (pos 0)).0 ≡ raised not_found) ↔ (
      (have_sockopt bare (pos 1) ≡ ok false)
      ⊎ ((o : SockOption) × (find_option bare (pos 1) ≡ some o)
          × ((put (int_val (pos 3)) o.level o.opt (int_val (pos 30)) (pos 0)).0
              ≡ failed enoprotoopt)))
setsockopt_int-not_found_example =
    setsockopt_int-not_found bare put (pos 3) (pos 1) (pos 30) (pos 0)

bare_has_none : have_sockopt bare (pos 1) ≢ ok true
unfolding have_sockopt tcp_options tcp_keepidle
bare_has_none h = ground arith

sockopt-untouched_example :
    ((setsockopt_int bare put (pos 3) (pos 1) (pos 30) (pos 0)).1 ≡ pos 0)
    × ((getsockopt_int bare look (pos 3) (pos 1) (pos 0)).1 ≡ pos 0)
sockopt-untouched_example =
    sockopt-untouched bare put look (pos 3) (pos 1) (pos 30) (pos 0) bare_has_none
