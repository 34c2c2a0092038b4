-- ===== src/Sendmsg.antt =====
-- src/sendmsg.c, where the system has `CMSG_SPACE`: a message over a socket that may carry a
-- descriptor.
pub mod Channel
mod Tests
use extunix.Base.{ℕ, String, Bool, not, ◌||◌, Option, none, some, List, ◌==◌, if◌then◌else◌}
use extunix.Base.Int.{ℤ, int_val}
use extunix.Base.Call.{einval, Answer, got, failed, unix_error, Result, ok, raised}
use extunix.Flags.Open.{Header, defined_or}
use extunix.Base.Heap.{Heap, stat_alloc, stat_free, blocking}

-- `struct cmsghdr` and the descriptor behind it.
pub record Cmsghdr : Type 0 where
  pub cmsg_len : ℕ
  pub cmsg_level : ℕ
  pub cmsg_type : ℕ
  pub cmsg_data : ℤ

-- `struct msghdr`: the control message, if there is one, and the bytes of the one `iovec`.
pub record Msghdr : Type 0 where
  pub control : Option Cmsghdr
  pub iov : List ℕ

abbrev pub sol_socket : Header → ℕ
sol_socket hdr = defined_or (hdr "SOL_SOCKET") 0

abbrev pub scm_rights : Header → ℕ
scm_rights hdr = defined_or (hdr "SCM_RIGHTS") 0

-- `cmsg_len` is `CMSG_LEN(sizeof(int))`.
module _ (hdr : Header) (len_of_fd : ℕ) where
  unfoldable pub control_of : Option ℤ → Option Cmsghdr
  control_of none = none
  control_of (some sendfd) = some (record {
    cmsg_len = len_of_fd;
    cmsg_level = sol_socket hdr;
    cmsg_type = scm_rights hdr;
    cmsg_data = int_val sendfd;
  })

  unfoldable pub sendmsg :
      {K : Type 0}
      → (ℤ → Msghdr → K → Answer ℕ × K)
      → ℤ
      → Option ℤ
      → List ℕ
      → Heap K
      → Result (Unit {0}) × Heap K
  unfolding control_of
  sendmsg sys_sendmsg fd sendfd bytes s =
      let m : Msghdr = record { control = control_of sendfd; iov = bytes } in
      let (a, s') = blocking (sys_sendmsg (int_val fd) m) (stat_alloc s) in
      (elim a [ got n ↦ ok tt | failed e ↦ raised (unix_error e "sendmsg") ], stat_free s')

  -- The checks of the control message.
  unfoldable pub received_fd : Option Cmsghdr → Result (Option ℤ)
  received_fd none = ok none
  received_fd (some c) =
      if not (c.cmsg_len == len_of_fd)
      then raised (unix_error einval "recvmsg")
      else if not (c.cmsg_level == sol_socket hdr) || not (c.cmsg_type == scm_rights hdr)
      then raised (unix_error einval "recvmsg")
      else ok (some c.cmsg_data)

  abbrev pub with_data : List ℕ → Result (Option ℤ) → Result (Option ℤ × List ℕ)
  with_data bytes (ok fd) = ok (fd, bytes)
  with_data bytes (raised e) = raised e

  unfoldable pub recv_result : Answer Msghdr → Result (Option ℤ × List ℕ)
  unfolding received_fd
  recv_result (failed e) = raised (unix_error e "recvmsg")
  recv_result (got msg) = with_data msg.iov (received_fd msg.control)

  -- `sys_recvmsg fd n` gives a message of at most `n` bytes.
  unfoldable pub recvmsg :
      {K : Type 0} → (ℤ → ℕ → K → Answer Msghdr × K) → ℤ → K → Result (Option ℤ × List ℕ) × K
  unfolding recv_result
  recvmsg sys_recvmsg fd k = let (a, k') = sys_recvmsg (int_val fd) 4096 k in (recv_result a, k')
