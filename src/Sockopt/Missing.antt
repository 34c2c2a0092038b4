-- ===== src/Sockopt/Missing.antt =====
-- What an option that the system lacks does to the calls of src/sockopt.c.
use extunix.Base.{
  ℕ, String, ◌≡◌, refl, ap, ◌≢◌, ◌⊎◌, inl, inr, ◌↔◌, true, false, Option, none, some, Bool-cases,
}
use extunix.Base.Int.{ℤ, int_val}
use extunix.Base.Call.{
  Errno, eintr, eagain, ewouldblock, ebadf, einval, eoverflow, enoprotoopt, other, Answer, got,
  failed, not_found, ok, raised,
}
use extunix.Flags.Open.{Header}
use extunix.Sockopt.{
  SockOption, find_option, is_known, have_sockopt, have_option, set_option, get_option,
  option_error, hand_on, setsockopt_int, getsockopt_int,
}

option_error-not_found :
    (name : String) (e : Errno) → option_error name e ≡ not_found → e ≡ enoprotoopt
unfolding option_error
option_error-not_found name eintr h = cc
option_error-not_found name eagain h = cc
option_error-not_found name ewouldblock h = cc
option_error-not_found name ebadf h = cc
option_error-not_found name einval h = cc
option_error-not_found name eoverflow h = cc
option_error-not_found name enoprotoopt h = refl
option_error-not_found name (other n) h = cc

hand_on-not_found :
    {A K : Type 0} (name : String) (a : Answer A × K)
    → ((hand_on name a).0 ≡ raised not_found) ↔ (a.0 ≡ failed enoprotoopt)
unfolding hand_on
hand_on-not_found name (got a, s) = (λ h. cc, λ h. cc)
hand_on-not_found name (failed e, s) = (
  λ h. let m : option_error name e ≡ not_found = cc in ap failed (option_error-not_found name e m),
  λ h. let m : e ≡ enoprotoopt = cc in rw m (unfold option_error in refl),
)

module _ {K : Type 0} (sys_setsockopt : ℤ → ℕ → ℤ → ℤ → K → Answer (Unit {0}) × K)
    (sys_getsockopt : ℤ → ℕ → ℤ → K → Answer ℤ × K) (fd : ℤ) where
  set_option-not_found :
      (f : Option SockOption) (v : ℤ) (s : K)
      → ((set_option sys_setsockopt fd f v s).0 ≡ raised not_found) ↔ (
          (have_option f ≡ ok false)
          ⊎ ((o : SockOption) × (f ≡ some o)
              × ((sys_setsockopt (int_val fd) o.level o.opt (int_val v) s).0 ≡ failed enoprotoopt)))
  unfolding set_option have_option
  set_option-not_found none v s = (λ h. cc, λ x. elim x [ inl h ↦ cc | inr (o, h, _) ↦ cc ])
  set_option-not_found (some o) v s = elim (Bool-cases (is_known o.opt)) [
    | inl known ↦
        let i =
          hand_on-not_found "setsockopt_int"
            (sys_setsockopt (int_val fd) o.level o.opt (int_val v) s) in
        rw known (
          λ h. inr (o, refl, i.0 h),
          λ x. elim x [ inl h ↦ cc | inr (o', h, e) ↦ i.1 (let same : o ≡ o' = cc in rw same e) ],
        )
    | inr unknown ↦ rw unknown (λ h. inl refl, λ x. refl)
  ]

  option-untouched :
      (f : Option SockOption) (v : ℤ) (s : K)
      → have_option f ≢ ok true
      → ((set_option sys_setsockopt fd f v s).1 ≡ s) × ((get_option sys_getsockopt fd f s).1 ≡ s)
  unfolding set_option get_option have_option
  option-untouched none v s h = (refl, refl)
  option-untouched (some o) v s h = elim (Bool-cases (is_known o.opt)) [
    | inl known ↦ absurd (h (ap ok known))
    | inr unknown ↦ rw unknown (refl, refl)
  ]

-- `setsockopt_int` says that an option is not found exactly if `have_sockopt` says no, or the
-- option is one of the table and the system answers `ENOPROTOOPT`.
pub setsockopt_int-not_found :
    {K : Type 0} (hdr : Header) (sys_setsockopt : ℤ → ℕ → ℤ → ℤ → K → Answer (Unit {0}) × K)
    (fd k v : ℤ) (s : K)
    → ((setsockopt_int hdr sys_setsockopt fd k v s).0 ≡ raised not_found) ↔ (
        (have_sockopt hdr k ≡ ok false)
        ⊎ ((o : SockOption) × (find_option hdr k ≡ some o)
            × ((sys_setsockopt (int_val fd) o.level o.opt (int_val v) s).0 ≡ failed enoprotoopt)))
unfolding setsockopt_int have_sockopt
setsockopt_int-not_found hdr sys_setsockopt fd k v s =
    set_option-not_found sys_setsockopt (λ _ _ _ s. (failed enoprotoopt, s)) fd (find_option hdr k)
      v s

-- Neither call reaches the system for an option that `have_sockopt` does not report.
pub sockopt-untouched :
    {K : Type 0} (hdr : Header) (sys_setsockopt : ℤ → ℕ → ℤ → ℤ → K → Answer (Unit {0}) × K)
    (sys_getsockopt : ℤ → ℕ → ℤ → K → Answer ℤ × K) (fd k v : ℤ) (s : K)
    → have_sockopt hdr k ≢ ok true
    → ((setsockopt_int hdr sys_setsockopt fd k v s).1 ≡ s)
      × ((getsockopt_int hdr sys_getsockopt fd k s).1 ≡ s)
unfolding setsockopt_int getsockopt_int have_sockopt
sockopt-untouched hdr sys_setsockopt sys_getsockopt fd k v s h =
    option-untouched sys_setsockopt sys_getsockopt fd (find_option hdr k) v s h
