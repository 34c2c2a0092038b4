-- ===== src/Signalfd.antt =====
-- src/signalfd.c: a descriptor from which signals are read.
pub mod Siginfo
pub mod Flags
pub mod Set
mod Tests
use extunix.Base.{ℕ, bit_or, Bool, Option, none, some, List, [], ◌∷◌, ◌==◌, if◌then◌else◌}
use extunix.Base.Int.{ℤ, pos, negsuc, int_val}
use extunix.Base.Call.{Answer, einval, Exn, unix_error, Result, ok, raised, check}
use extunix.Base.Stub.{Stub, and_then, uerror}
use extunix.Flags.Open.{Header, defined_or}

-- `S` are the sets of signals, `sigaddset` is the call of the system, and `convert` is the runtime's
-- `caml_convert_signal_number`.
module _ {S : Type 0} (sigaddset : ℤ → S → Answer S) (convert : ℤ → ℤ) where
  unfoldable pub add_signal : ℤ → Result S → Result S
  unfolding int_val
  add_signal v_sig (ok ss) = check "sigaddset" (sigaddset (convert (int_val v_sig)) ss)
  add_signal v_sig (raised e) = raised e

  -- The loop over the list, which raises at the first signal that the set refuses.
  unfoldable pub add_signals : List ℤ → Result S → Result S
  unfolding add_signal
  add_signals [] ss = ss
  add_signals (v_sig ∷ vsigs) ss = add_signals vsigs (add_signal v_sig ss)

abbrev pub sfd_nonblock : Header → ℕ
sfd_nonblock hdr = defined_or (hdr "SFD_NONBLOCK") 0

abbrev pub sfd_cloexec : Header → ℕ
sfd_cloexec hdr = defined_or (hdr "SFD_CLOEXEC") 0

-- `if (flag == f) flags |= flag`
abbrev pub match_flag : ℕ → ℤ → ℕ → ℕ
match_flag flag (pos f) flags = if flag == f then bit_or flags flag else flags
match_flag flag (negsuc f) flags = flags

unfoldable pub signal_flags : Header → List ℤ → ℕ → ℕ
unfolding int_val
signal_flags hdr [] flags = flags
signal_flags hdr (v_flag ∷ vflags) flags =
    let f = int_val v_flag in
    signal_flags hdr vflags (match_flag (sfd_cloexec hdr) f (match_flag (sfd_nonblock hdr) f flags))

-- The descriptor to change, or -1 for a new one.
abbrev pub signal_fd : Option ℤ → ℤ
signal_fd none = negsuc 0
signal_fd (some vfd) = int_val vfd

unfoldable pub signalfd :
    {S K : Type 0}
    → Header
    → (ℤ → S → Answer S)
    → S
    → (ℤ → ℤ)
    → (ℤ → S → ℕ → K → Answer ℤ × K)
    → Option ℤ
    → List ℤ
    → List ℤ
    → Stub K ℤ
unfolding add_signals signal_flags int_val
signalfd hdr sigaddset sigemptyset convert sys_signalfd vfd vsigs vflags k =
    and_then (add_signals sigaddset convert vsigs (ok sigemptyset), k)
      λ ss. uerror "signalfd" (sys_signalfd (signal_fd vfd) ss (signal_flags hdr vflags 0))
