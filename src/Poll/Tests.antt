-- ===== src/Poll/Tests.antt =====
-- `poll` on a system where the descriptors 4 and 6 are ready.
use extunix.Base.{ℕ, ◌≡◌, refl, List, [], ◌∷◌, map, reverse, arith, if◌then◌else◌, ◌==◌, ◌+◌}
use extunix.Base.Int.{ℤ, pos, negsuc, signed, pattern, int_val}
use extunix.Base.Call.{Answer, got, ok}
use extunix.Base.Heap.{Heap}
use extunix.Poll.{Pollfd, requests, poll}
use extunix.Poll.Ready.{ready, poll-ready}

abbrev answer : Pollfd → Pollfd
answer p = elim p.fd [
  | pos n ↦
      if n == 4 then record p { revents = 1 } else if n == 6 then record p { revents = 4 } else p
  | negsuc n ↦ p
]

abbrev sys_poll : List Pollfd → ℤ → ℕ → Answer (List Pollfd) × ℕ
sys_poll fds timeout k = (got (map answer fds), k + 1)

abbrev v_fds : List (ℤ × ℤ)
v_fds = (pos 4, pos 1) ∷ (pos 5, pos 1) ∷ (pos 6, pos 4) ∷ (pos 4, pos 1) ∷ []

abbrev answered : List Pollfd
answered =
    record { fd = pos 4; events = 1; revents = 1 }
    ∷ record { fd = pos 5; events = 1; revents = 0 }
    ∷ record { fd = pos 6; events = 4; revents = 4 }
    ∷ []

asked_run : sys_poll (requests v_fds 3) (pos 100) 0 ≡ (got answered, 1)
unfolding requests int_val pattern signed
asked_run = refl

ready_run : reverse (ready answered) ≡ (pos 6, pos 4) ∷ (pos 4, pos 1) ∷ []
unfolding signed
ready_run = refl

abbrev before : Heap ℕ
before = record { allocated = 2; kernel = 0 }

poll-ready_example :
    poll sys_poll v_fds (pos 3) (pos 100) before
    ≡ (ok (reverse (ready answered)), record before { kernel = 1 })
poll-ready_example =
    poll-ready sys_poll v_fds 3 (pos 100) before 1 answered (omega arith) (omega arith)
      (omega arith) asked_run
