-- ===== src/Signalfd/Siginfo.antt =====
-- src/signalfd.c: the structure that is read from the descriptor, and its members.
use extunix.Base.{ℕ, ◌^◌, List, length, ◌==◌, if◌then◌else◌}
use extunix.Base.Int.{ℤ, signed, int_val}
use extunix.Base.Call.{Answer, got, failed, einval, unix_error, Result, ok, raised}
use extunix.Base.Stub.{Stub}

-- Unsigned members are their bit patterns, and so are signed ones.
pub record SignalfdSiginfo : Type 0 where
  pub ssi_signo : ℕ
  pub ssi_errno : ℕ
  pub ssi_code : ℕ
  pub ssi_pid : ℕ
  pub ssi_uid : ℕ
  pub ssi_fd : ℕ
  pub ssi_tid : ℕ
  pub ssi_band : ℕ
  pub ssi_overrun : ℕ
  pub ssi_trapno : ℕ
  pub ssi_status : ℕ
  pub ssi_int : ℕ
  pub ssi_ptr : ℕ
  pub ssi_utime : ℕ
  pub ssi_stime : ℕ
  pub ssi_addr : ℕ

-- `SSI_SIZE`
abbrev pub ssi_size : ℕ
ssi_size = 128

-- `read` gives the bytes that it has put into `ssi`; the copy of the structure is in the block of OCaml.
abbrev pub read_result : Answer (List ℕ) → Result (List ℕ)
read_result (failed e) = raised (unix_error einval "signalfd_read")
read_result (got bs) =
    if length bs == ssi_size then ok bs else raised (unix_error einval "signalfd_read")

unfoldable pub signalfd_read :
    {K : Type 0} → (ℤ → ℕ → K → Answer (List ℕ) × K) → ℤ → Stub K (List ℕ)
unfolding int_val
signalfd_read sys_read v_fd k =
    let (a, k') = sys_read (int_val v_fd) ssi_size k in (read_result a, k')

-- `caml_copy_int32` and `caml_copy_int64` of an unsigned member.
abbrev pub copy_int32 : ℕ → ℤ
copy_int32 x = signed (2 ^ 32) x

abbrev pub copy_uint64 : ℕ → ℤ
copy_uint64 x = signed (2 ^ 64) x

-- `rev_convert` is the runtime's `caml_rev_convert_signal_number`.
abbrev pub ssi_signo_sys : (ℤ → ℤ) → SignalfdSiginfo → ℤ
ssi_signo_sys rev_convert ssi = rev_convert (signed (2 ^ 32) ssi.ssi_signo)

abbrev pub get_signo : SignalfdSiginfo → ℤ
get_signo ssi = copy_int32 ssi.ssi_signo

abbrev pub get_errno : SignalfdSiginfo → ℤ
get_errno ssi = copy_int32 ssi.ssi_errno

abbrev pub get_code : SignalfdSiginfo → ℤ
get_code ssi = copy_int32 ssi.ssi_code

abbrev pub get_pid : SignalfdSiginfo → ℤ
get_pid ssi = copy_int32 ssi.ssi_pid

abbrev pub get_uid : SignalfdSiginfo → ℤ
get_uid ssi = copy_int32 ssi.ssi_uid

abbrev pub get_fd : SignalfdSiginfo → ℤ
get_fd ssi = copy_int32 ssi.ssi_fd

abbrev pub get_tid : SignalfdSiginfo → ℤ
get_tid ssi = copy_int32 ssi.ssi_tid

abbrev pub get_band : SignalfdSiginfo → ℤ
get_band ssi = copy_int32 ssi.ssi_band

abbrev pub get_overrun : SignalfdSiginfo → ℤ
get_overrun ssi = copy_int32 ssi.ssi_overrun

abbrev pub get_trapno : SignalfdSiginfo → ℤ
get_trapno ssi = copy_int32 ssi.ssi_trapno

abbrev pub get_status : SignalfdSiginfo → ℤ
get_status ssi = copy_int32 ssi.ssi_status

abbrev pub get_int : SignalfdSiginfo → ℤ
get_int ssi = copy_int32 ssi.ssi_int

abbrev pub get_ptr : SignalfdSiginfo → ℤ
get_ptr ssi = copy_uint64 ssi.ssi_ptr

abbrev pub get_utime : SignalfdSiginfo → ℤ
get_utime ssi = copy_uint64 ssi.ssi_utime

abbrev pub get_stime : SignalfdSiginfo → ℤ
get_stime ssi = copy_uint64 ssi.ssi_stime

abbrev pub get_addr : SignalfdSiginfo → ℤ
get_addr ssi = copy_uint64 ssi.ssi_addr
