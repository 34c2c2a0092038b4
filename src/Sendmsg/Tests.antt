-- ===== src/Sendmsg/Tests.antt =====
-- A pair of sockets with one message in flight.
use extunix.Base.{
  ℕ, ◌+◌, ◌-◌, ltb, if◌then◌else◌, false, ◌≡◌, refl, Option, none, some, List, [], ◌∷◌, arith, take,
  length,
}
use extunix.Base.Int.{ℤ, pos, negsuc, int_val, pattern, signed}
use extunix.Base.Call.{Answer, got, failed, eagain, einval, unix_error, ok, raised}
use extunix.Flags.Open.{Header}
use extunix.Base.Heap.{Heap}
use extunix.Sendmsg.{Cmsghdr, Msghdr, sendmsg, recvmsg}
use extunix.Sendmsg.Channel.{
  Connects, SameFile, Passes, CarriesFd, recvmsg-sendmsg, recvmsg-CarriesFd,
}

abbrev ones : Header
ones _ = some 1

abbrev Pipe : Type 0
Pipe = Option Msghdr

abbrev sys_sendmsg : ℤ → Msghdr → Pipe → Answer ℕ × Pipe
sys_sendmsg fd m k = (got (length m.iov), some m)

abbrev sys_recvmsg : ℤ → ℕ → Pipe → Answer Msghdr × Pipe
sys_recvmsg fd n none = (failed eagain, none)
sys_recvmsg fd n (some m) = (got (record m { iov = take n m.iov }), none)

abbrev idle : Heap Pipe
idle = record { allocated = 0; kernel = none }

-- Each descriptor of the sender is a file of its number, and the receiver has it five higher.
abbrev opened : Pipe → ℤ → Option ℕ
opened k (pos n) = some n
opened k (negsuc n) = none

abbrev opened' : Pipe → ℤ → Option ℕ
opened' k (pos n) = if ltb n 5 then none else some (n - 5)
opened' k (negsuc n) = none

abbrev renumber : ℤ → ℤ
renumber (pos n) = pos (n + 5)
renumber (negsuc n) = negsuc n

renumber-opened : (k k' : Pipe) (z : ℤ) → opened' k (renumber z) ≡ opened k' z
renumber-opened k k' (pos n) =
    let high : ltb (n + 5) 5 ≡ false = ground arith in
    let same : n + 5 - 5 ≡ n = omega arith in rw (high, same) refl
renumber-opened k k' (negsuc n) = refl

abbrev renumbered : Option Cmsghdr → Option Cmsghdr
renumbered none = none
renumbered (some c) = some (record c { cmsg_data = renumber c.cmsg_data })

abbrev other_end : ℤ → ℕ → Pipe → Answer Msghdr × Pipe
other_end fd n none = (failed eagain, none)
other_end fd n (some m) =
    (got (record { control = renumbered m.control; iov = take n m.iov }), none)

renumbered-Passes : (c : Option Cmsghdr) → Passes (opened none) (opened' none) c (renumbered c)
renumbered-Passes none = tt
renumbered-Passes (some c) = (refl, refl, refl, renumber-opened none none c.cmsg_data)

connected :
    Connects ones 20 opened opened' sys_sendmsg other_end (int_val (pos 3)) (int_val (pos 4)) none
connected m n sent some_bytes rights e = (
  record { control = renumbered m.control; iov = take n m.iov },
  refl,
  refl,
  renumbered-Passes m.control,
)

abbrev hello : List ℕ
hello = 104 ∷ 105 ∷ []

sent_run : (sendmsg ones 20 sys_sendmsg (pos 3) (some (pos 7)) hello idle).0 ≡ ok tt
unfolding sendmsg
sent_run = refl

-- The receiver gets the descriptor 12.
arrived_run :
    (recvmsg ones 20 other_end
      (pos 4)
      (sendmsg ones 20 sys_sendmsg (pos 3) (some (pos 7)) hello idle).1.kernel).0
    ≡ ok (some (pos 12), hello)
unfolding sendmsg recvmsg int_val pattern signed
arrived_run = refl

recvmsg-sendmsg_example :
    (received : Option ℤ) × ((recvmsg ones 20 other_end
        (pos 4)
        (sendmsg ones 20 sys_sendmsg (pos 3) (some (pos 7)) hello idle).1.kernel).0
      ≡ ok (received, hello))
    × SameFile
        (opened none)
        (opened'
          (recvmsg ones 20 other_end
            (pos 4)
            (sendmsg ones 20 sys_sendmsg (pos 3) (some (pos 7)) hello idle).1.kernel).1)
        (some (pos 7))
        received
    × ((sendmsg ones 20 sys_sendmsg (pos 3) (some (pos 7)) hello idle).1.allocated ≡ 0)
recvmsg-sendmsg_example =
    recvmsg-sendmsg ones 20 opened opened' sys_sendmsg other_end (pos 3) (pos 4) idle connected
      (some (pos 7)) hello (omega arith) (omega arith) (omega arith) sent_run

abbrev flying : Msghdr
flying = record {
  control = some (record { cmsg_len = 20; cmsg_level = 1; cmsg_type = 1; cmsg_data = pos 7 });
  iov = hello;
}

received_run : (recvmsg ones 20 sys_recvmsg (pos 4) (some flying)).0 ≡ ok (some (pos 7), hello)
unfolding recvmsg
received_run = refl

-- A control message of another type
refused_run :
    (recvmsg ones 20 sys_recvmsg (pos 4) (
      some (record flying {
        control = some (record { cmsg_len = 20; cmsg_level = 1; cmsg_type = 2; cmsg_data = pos 7 });
      }))).0
    ≡ raised (unix_error einval "recvmsg")
unfolding recvmsg
refused_run = refl

recvmsg-CarriesFd_example :
    (msg : Msghdr) × ((sys_recvmsg (int_val (pos 4)) 4096 (some flying)).0 ≡ got msg)
    × CarriesFd ones 20 (pos 7) msg.control
recvmsg-CarriesFd_example =
    recvmsg-CarriesFd ones 20 sys_recvmsg (pos 4) (pos 7) hello (some flying) received_run
