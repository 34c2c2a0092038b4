-- ===== src/Sendmsg/Channel.antt =====
-- A descriptor and some bytes go through a socket; what `recvmsg` takes for a descriptor.
use extunix.Base.{
  ℕ, ◌^◌, ◌<◌, ◌≤◌, ◌≡◌, refl, ap, ◌∙◌, inl, inr, Option, none, some, List, arith, ◌==◌, length,
  take, take-all, Bool-cases,
}
use extunix.Base.Int.{ℤ, int_val, InSigned, int_val-InSigned}
use extunix.Base.Call.{einval, Answer, got, failed, unix_error, Result, ok, raised}
use extunix.Flags.Open.{Header}
use extunix.Base.Heap.{Heap}
use extunix.Sendmsg.{
  Cmsghdr, Msghdr, sol_socket, scm_rights, control_of, sendmsg, received_fd, with_data, recv_result,
  recvmsg,
}

-- A descriptor that an `int` of C holds, if there is one.
abbrev pub IsInt : Option ℤ → Type 0
IsInt none = Unit
IsInt (some fd) = InSigned (2 ^ 31) fd

-- `opened` and `opened'` say which open file a descriptor of the sender and one of the receiver is.
module _ {File : Type 0} (opened opened' : ℤ → Option File) where
  -- The receiver has a descriptor if one was sent, and it is of the same open file.
  abbrev pub SameFile : Option ℤ → Option ℤ → Type 0
  SameFile none none = Unit
  SameFile (some fd) (some fd') = opened' fd' ≡ opened fd
  SameFile none (some fd') = ⊥
  SameFile (some fd) none = ⊥

  -- A control message arrives as it was sent, but for the number of the descriptor.
  abbrev pub Passes : Option Cmsghdr → Option Cmsghdr → Type 0
  Passes none none = Unit
  Passes (some c) (some c') =
      (c'.cmsg_len ≡ c.cmsg_len)
      × (c'.cmsg_level ≡ c.cmsg_level)
      × (c'.cmsg_type ≡ c.cmsg_type)
      × (opened' c'.cmsg_data ≡ opened c.cmsg_data)
  Passes none (some c') = ⊥
  Passes (some c) none = ⊥

  received_fd-Passes :
      (hdr : Header) (len_of_fd : ℕ) (sendfd : Option ℤ) (control' : Option Cmsghdr)
      → IsInt sendfd
      → Passes (control_of hdr len_of_fd sendfd) control'
      → (fd' : Option ℤ) × (received_fd hdr len_of_fd control' ≡ ok fd') × SameFile sendfd fd'
  unfolding received_fd control_of
  received_fd-Passes hdr len_of_fd none none r p = (none, refl, tt)
  received_fd-Passes hdr len_of_fd none (some c') r p = absurd p
  received_fd-Passes hdr len_of_fd (some fd) none r p = absurd p
  received_fd-Passes hdr len_of_fd (some fd) (some c') r (l, v, t, file) =
      (some c'.cmsg_data, rw (l, v, t) (ground arith), rw (int_val-InSigned fd r) at file)

-- No control message, or one that hands over one descriptor.
abbrev pub IsRights : Header → ℕ → Option Cmsghdr → Type 0
IsRights hdr len_of_fd none = Unit
IsRights hdr len_of_fd (some c) =
    (c.cmsg_len ≡ len_of_fd) × (c.cmsg_level ≡ sol_socket hdr) × (c.cmsg_type ≡ scm_rights hdr)

control_of-IsRights :
    (hdr : Header) (len_of_fd : ℕ) (sendfd : Option ℤ)
    → IsRights hdr len_of_fd (control_of hdr len_of_fd sendfd)
unfolding control_of
control_of-IsRights hdr len_of_fd none = tt
control_of-IsRights hdr len_of_fd (some fd) = (refl, refl, refl)

-- The documented behaviour of a pair of sockets of the Unix domain that keep the bounds of messages,
-- `fd` of the sender and `fd'` of the receiver, with no other message under way and a receiver that
-- has a descriptor left: a message of at least one byte is sent as a whole or not at all; the receiver
-- gets it, cut to the bytes that it has room for, and a new descriptor of the file whose descriptor
-- was sent. `opened k` and `opened' k` say which files the descriptors of the two processes are.
abbrev pub Connects :
    {K File : Type 0}
    → Header
    → ℕ
    → (K → ℤ → Option File)
    → (K → ℤ → Option File)
    → (ℤ → Msghdr → K → Answer ℕ × K)
    → (ℤ → ℕ → K → Answer Msghdr × K)
    → ℤ
    → ℤ
    → K
    → Type 0
Connects {K} hdr len_of_fd opened opened' sys_sendmsg sys_recvmsg fd fd' k =
    (m : Msghdr) (n sent : ℕ)
    → 0 < length m.iov
    → IsRights hdr len_of_fd m.control
    → (sys_sendmsg fd m k).0 ≡ got sent
    → (m' : Msghdr) × ((sys_recvmsg fd' n (sys_sendmsg fd m k).1).0 ≡ got m')
      × (m'.iov ≡ take n m.iov)
      × Passes (opened k) (opened' (sys_recvmsg fd' n (sys_sendmsg fd m k).1).1) m.control
          m'.control

abbrev sent_result : Answer ℕ → Result (Unit {0})
sent_result a = elim a [ got n ↦ ok tt | failed e ↦ raised (unix_error e "sendmsg") ]

sent_result-got : (a : Answer ℕ) → sent_result a ≡ ok tt → (n : ℕ) × (a ≡ got n)
sent_result-got (got n) e = (n, refl)
sent_result-got (failed x) e = cc

-- Over connected sockets as `Connects` says, after a `sendmsg` of 1 to 4096 bytes that returns,
-- `recvmsg` returns all the bytes, and a descriptor exactly if one, an `int`, was sent; the
-- receiver's descriptor, whatever its number, is of the same open file as the sender's. The copy of
-- the bytes is freed.
pub recvmsg-sendmsg :
    {K File : Type 0} (hdr : Header) (len_of_fd : ℕ) (opened opened' : K → ℤ → Option File)
    (sys_sendmsg : ℤ → Msghdr → K → Answer ℕ × K) (sys_recvmsg : ℤ → ℕ → K → Answer Msghdr × K)
    (fd fd' : ℤ) (s : Heap K)
    → Connects hdr len_of_fd opened opened' sys_sendmsg sys_recvmsg
        (int_val fd)
        (int_val fd')
        s.kernel
    → (sendfd : Option ℤ) (bytes : List ℕ) → IsInt sendfd
    → 0 < length bytes
    → length bytes ≤ 4096
    → (sendmsg hdr len_of_fd sys_sendmsg fd sendfd bytes s).0 ≡ ok tt
    → (received : Option ℤ) × ((recvmsg hdr len_of_fd sys_recvmsg fd'
          (sendmsg hdr len_of_fd sys_sendmsg fd sendfd bytes s).1.kernel).0
        ≡ ok (received, bytes))
      × SameFile
          (opened s.kernel)
          (opened'
            (recvmsg hdr len_of_fd sys_recvmsg fd'
              (sendmsg hdr len_of_fd sys_sendmsg fd sendfd bytes s).1.kernel).1)
          sendfd
          received
      × ((sendmsg hdr len_of_fd sys_sendmsg fd sendfd bytes s).1.allocated ≡ s.allocated)
unfolding sendmsg recvmsg recv_result
recvmsg-sendmsg {K} {File} hdr len_of_fd opened opened' sys_sendmsg sys_recvmsg fd fd' s connects
      sendfd bytes is_int some_bytes short e =
    let m : Msghdr = record { control = control_of hdr len_of_fd sendfd; iov = bytes } in
    let k' : K = (sys_sendmsg (int_val fd) m s.kernel).1 in
    let (n, sent) = sent_result-got (sys_sendmsg (int_val fd) m s.kernel).0 e in
    let (m', gets, iov, passes) =
      connects m 4096 n some_bytes (control_of-IsRights hdr len_of_fd sendfd) sent in
    let (received, is_ok, same) =
      received_fd-Passes (opened s.kernel) (opened' (sys_recvmsg (int_val fd') 4096 k').1) hdr
        len_of_fd sendfd m'.control is_int passes in
    (
      received,
      ap (recv_result hdr len_of_fd) gets
          ∙ ap (with_data hdr len_of_fd m'.iov) is_ok
          ∙ ap (λ bs. ok (received, bs)) (iov ∙ take-all 4096 bytes short),
      same,
      omega arith,
    )

-- What a message with a descriptor looks like.
abbrev pub CarriesFd : Header → ℕ → ℤ → Option Cmsghdr → Type 0
CarriesFd hdr len_of_fd fd none = ⊥
CarriesFd hdr len_of_fd fd (some c) =
    (c.cmsg_len ≡ len_of_fd)
    × (c.cmsg_level ≡ sol_socket hdr)
    × (c.cmsg_type ≡ scm_rights hdr)
    × (c.cmsg_data ≡ fd)

received_fd-CarriesFd :
    (hdr : Header) (len_of_fd : ℕ) (fd : ℤ) (control : Option Cmsghdr)
    → received_fd hdr len_of_fd control ≡ ok (some fd)
    → CarriesFd hdr len_of_fd fd control
unfolding received_fd
received_fd-CarriesFd hdr len_of_fd fd none e = cc
received_fd-CarriesFd hdr len_of_fd fd (some c) e = elim (Bool-cases (c.cmsg_len == len_of_fd)) [
  | inr l ↦ let r : received_fd hdr len_of_fd (some c) ≡ refused = rw l refl in cc
  | inl l ↦ elim (Bool-cases (c.cmsg_level == sol_socket hdr)) [
    | inr v ↦ let r : received_fd hdr len_of_fd (some c) ≡ refused = rw (l, v) refl in cc
    | inl v ↦ elim (Bool-cases (c.cmsg_type == scm_rights hdr)) [
      | inr t ↦ let r : received_fd hdr len_of_fd (some c) ≡ refused = rw (l, v, t) refl in cc
      | inl t ↦
          let r : received_fd hdr len_of_fd (some c) ≡ ok (some c.cmsg_data) = rw (l, v, t) refl in
          (ground arith, ground arith, ground arith, cc)
    ]
  ]
]
  where
    refused : Result (Option ℤ)
    refused = raised (unix_error einval "recvmsg")

with_data-ok :
    (hdr : Header) (len_of_fd : ℕ) (bytes bytes' : List ℕ) (r : Result (Option ℤ)) (o : Option ℤ)
    → with_data hdr len_of_fd bytes r ≡ ok (o, bytes')
    → r ≡ ok o
with_data-ok hdr len_of_fd bytes bytes' (ok fd) o e = ap ok cc
with_data-ok hdr len_of_fd bytes bytes' (raised x) o e = cc

-- If `recvmsg` returns a descriptor, the system gave it in a control message of the right length,
-- level and type.
pub recvmsg-CarriesFd :
    {K : Type 0} (hdr : Header) (len_of_fd : ℕ) (sys_recvmsg : ℤ → ℕ → K → Answer Msghdr × K)
    (fd sendfd : ℤ) (bytes : List ℕ) (k : K)
    → (recvmsg hdr len_of_fd sys_recvmsg fd k).0 ≡ ok (some sendfd, bytes)
    → (msg : Msghdr) × ((sys_recvmsg (int_val fd) 4096 k).0 ≡ got msg)
      × CarriesFd hdr len_of_fd sendfd msg.control
unfolding recvmsg recv_result
recvmsg-CarriesFd hdr len_of_fd sys_recvmsg fd sendfd bytes k e =
    go (sys_recvmsg (int_val fd) 4096 k).0 e
  where
    go :
        (a : Answer Msghdr)
        → recv_result hdr len_of_fd a ≡ ok (some sendfd, bytes)
        → (msg : Msghdr) × (a ≡ got msg) × CarriesFd hdr len_of_fd sendfd msg.control
    go (got msg) h = (
      msg,
      refl,
      received_fd-CarriesFd hdr len_of_fd sendfd msg.control (
          with_data-ok hdr len_of_fd msg.iov bytes (received_fd hdr len_of_fd msg.control)
            (some sendfd) h),
    )
    go (failed x) h =
        let r : recv_result hdr len_of_fd (failed x) ≡ raised (unix_error x "recvmsg") = refl in cc
