-- ===== src/Poll.antt =====
-- src/poll.c: an array of descriptors to wait for, and the list of those that are ready.
pub mod Ready
mod Tests
use extunix.Base.{ℕ, ◌^◌, String, Bool, List, [], ◌∷◌, map, take, ltb, ◌==◌, if◌then◌else◌, length}
use extunix.Base.Int.{ℤ, pattern, signed, int_val}
use extunix.Base.Call.{Answer, got, failed, unix_error, invalid_argument, Result, ok, raised}
use extunix.Base.Heap.{Heap, stat_alloc, stat_free, blocking}

-- `struct pollfd`; the events are the patterns of a `short`.
pub record Pollfd : Type 0 where
  pub fd : ℤ
  pub events : ℕ
  pub revents : ℕ

-- The first loop, on the first `n` fields of the array: the requested events, cut to a `short`.
abbrev pub request : ℤ × ℤ → Pollfd
request (fd, events) = record { fd = int_val fd; events = pattern (2 ^ 16) events; revents = 0 }

unfoldable pub requests : List (ℤ × ℤ) → ℕ → List Pollfd
unfolding pattern
requests v_fds n = map request (take n v_fds)

-- The second loop: `v_l` grows at its front.
unfoldable pub collect : List Pollfd → List (ℤ × ℤ) → List (ℤ × ℤ)
collect [] v_l = v_l
collect (p ∷ fds) v_l =
    collect fds (if p.revents == 0 then v_l else (p.fd, signed (2 ^ 16) p.revents) ∷ v_l)

unfoldable pub poll_result : Answer (List Pollfd) → Result (List (ℤ × ℤ))
unfolding collect
poll_result (failed e) = raised (unix_error e "poll")
poll_result (got fds) = ok (collect fds [])

-- `size_t n = Int_val(v_n)`: a negative `int` is a large number. `timeout` is `v_ms * 1000` as an
-- `int`; the multiplication of floats is not modelled.
unfoldable pub poll :
    {K : Type 0}
    → (List Pollfd → ℤ → K → Answer (List Pollfd) × K)
    → List (ℤ × ℤ)
    → ℤ
    → ℤ
    → Heap K
    → Result (List (ℤ × ℤ)) × Heap K
unfolding requests poll_result
poll sys_poll v_fds v_n timeout s =
    let n = pattern (2 ^ 64) (int_val v_n) in
    if ltb (length v_fds) n
    then (raised (invalid_argument "poll"), s)
    else if n == 0
    then (ok [], s)
    else let (a, s') = blocking (sys_poll (requests v_fds n) timeout) (stat_alloc s) in
      (poll_result a, stat_free s')
