-- ===== src/Poll/Ready.antt =====
-- The list that `poll` returns has the ready descriptors and no other, in reverse order.
use extunix.Base.{
  ℕ, ◌+◌, ◌-◌, ◌%◌, ◌^◌, ◌≤◌, ◌<◌, ◌≡◌, refl, sym, ◌∙◌, inl, inr, true, false, List, [], ◌∷◌, ◌++◌,
  reverse, arith, ltb, ◌==◌, if◌then◌else◌, length, Bool-cases,
}
use extunix.Base.Int.{ℤ, pos, negsuc, pattern, signed, InSigned, int_val, int_val-InSigned}
use extunix.Base.Call.{Answer, got, invalid_argument, ok, raised}
use extunix.Base.Heap.{Heap}
use extunix.Poll.{Pollfd, requests, collect, poll_result, poll}
use mathlib.Core.List.{reverse-cons, append_assoc, append-nil}
use native.Mathlib.Nat.{mod-eq_of_lt}

-- The descriptors with events, and their events, in the order of the array.
abbrev pub ready : List Pollfd → List (ℤ × ℤ)
ready [] = []
ready (p ∷ fds) =
    if p.revents == 0 then ready fds else (p.fd, signed (2 ^ 16) p.revents) ∷ ready fds

collect-ready :
    (fds : List Pollfd) (v_l : List (ℤ × ℤ)) → collect fds v_l ≡ reverse (ready fds) ++ v_l
unfolding collect
collect-ready [] v_l = refl
collect-ready (p ∷ fds) v_l = elim (Bool-cases (p.revents == 0)) [
  | inl quiet ↦ rw quiet (collect-ready fds v_l)
  | inr event ↦
      rw (event, reverse-cons)
        (collect-ready fds ((p.fd, signed (2 ^ 16) p.revents) ∷ v_l)
          ∙ sym (append_assoc (reverse (ready fds)) _ v_l))
]

-- For a number of descriptors between 1 and the length of the array, where the system answers the
-- requests with the array `fds`, `poll` returns the entries of `fds` that have events, the last
-- first, and frees the array.
pub poll-ready :
    {K : Type 0} (sys_poll : List Pollfd → ℤ → K → Answer (List Pollfd) × K) (v_fds : List (ℤ × ℤ))
    (n : ℕ) (timeout : ℤ) (s : Heap K) (k' : K) (fds : List Pollfd)
    → 0 < n
    → n ≤ length v_fds
    → n < 2 ^ 31
    → sys_poll (requests v_fds n) timeout s.kernel ≡ (got fds, k')
    → poll sys_poll v_fds (pos n) timeout s ≡ (ok (reverse (ready fds)), record s { kernel = k' })
unfolding poll pattern poll_result
poll-ready sys_poll v_fds n timeout s k' fds positive inside short e =
    let int : int_val (pos n) ≡ pos n = int_val-InSigned (pos n) (omega (arith, short)) in
    let whole : n % 2 ^ 64 ≡ n = mod-eq_of_lt (omega arith) in
    let freed : s.allocated + 1 - 1 ≡ s.allocated = omega arith in
    let enough : ltb (length v_fds) n ≡ false = ground arith in
    let some_asked : (n == 0) ≡ false = ground arith in
    let all : collect fds [] ≡ reverse (ready fds) =
      collect-ready fds [] ∙ append-nil (reverse (ready fds)) in
    rw (int, whole, enough, some_asked, e, all, freed) refl

-- A number that the array does not have: too large or negative.
abbrev pub IsOutside : List (ℤ × ℤ) → ℤ → Type 0
IsOutside v_fds (pos n) = length v_fds < n
IsOutside v_fds (negsuc n) = Unit

-- For an `int` that the array does not have as a number of entries, negative ones among them, `poll`
-- raises and neither calls the system nor allocates; the array is shorter than 2 ^ 63.
poll-refused :
    {K : Type 0} (sys_poll : List Pollfd → ℤ → K → Answer (List Pollfd) × K) (v_fds : List (ℤ × ℤ))
    (v_n timeout : ℤ) (s : Heap K)
    → InSigned (2 ^ 31) v_n
    → length v_fds < 2 ^ 63
    → IsOutside v_fds v_n
    → poll sys_poll v_fds v_n timeout s ≡ (raised (invalid_argument "poll"), s)
unfolding poll pattern
poll-refused sys_poll v_fds (pos n) timeout s r short h =
    let int : int_val (pos n) ≡ pos n = int_val-InSigned (pos n) r in
    let whole : n % 2 ^ 64 ≡ n = mod-eq_of_lt (omega arith) in
    let outside : ltb (length v_fds) n ≡ true = ground arith in rw (int, whole, outside) refl
poll-refused sys_poll v_fds (negsuc n) timeout s r short h =
    let int : int_val (negsuc n) ≡ negsuc n = int_val-InSigned (negsuc n) r in
    let outside : ltb (length v_fds) (2 ^ 64 - 1 - n % 2 ^ 64) ≡ true = ground arith in
    rw (int, outside) refl
