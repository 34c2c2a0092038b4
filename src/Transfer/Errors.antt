-- ===== src/Transfer/Errors.antt =====
-- When a loop may end at an error, told without its handler.
use extunix.Base.{ℕ, zero, suc, ◌<◌, ◌≡◌, refl, ◌⊎◌, inl, inr, true, false, arith}
use extunix.Base.Call.{
  Errno, eintr, eagain, ewouldblock, ebadf, einval, eoverflow, enoprotoopt, other,
}
use extunix.Transfer.Loop.{has, bit_noerror, bit_nointr, leave, raise, verdict}

-- An interruption in a mode with `BIT_NOINTR`.
abbrev pub IsRetried : ℕ → Errno → Type 0
IsRetried mode e = (e ≡ eintr) × (has mode bit_nointr ≡ true)

abbrev pub IsBusy : Errno → Type 0
IsBusy e = (e ≡ eagain) ⊎ (e ≡ ewouldblock)

-- A loop returns at an error only if something is done, and the error says that there is no more
-- now or the mode has `BIT_NOERROR`.
abbrev pub MayLeave : ℕ → ℕ → Errno → Type 0
MayLeave mode processed e =
    (0 < processed) × (IsRetried mode e → ⊥) × (IsBusy e ⊎ (has mode bit_noerror ≡ true))

-- A loop raises an error only if nothing is done, or the error is no such one and the mode has no
-- `BIT_NOERROR`.
abbrev pub MayRaise : ℕ → ℕ → Errno → Type 0
MayRaise mode processed e =
    (IsRetried mode e → ⊥) × ((processed ≡ 0) ⊎ ((IsBusy e → ⊥) × (has mode bit_noerror ≡ false)))

leave-not_retried :
    (mode processed : ℕ) (e : Errno) → verdict mode processed e ≡ leave → IsRetried mode e → ⊥
unfolding verdict
leave-not_retried mode processed e h (is, b) = ground arith

raise-not_retried :
    (mode processed : ℕ) (e : Errno) → verdict mode processed e ≡ raise → IsRetried mode e → ⊥
unfolding verdict
raise-not_retried mode processed e h (is, b) = ground arith

leave-done : (mode processed : ℕ) (e : Errno) → verdict mode processed e ≡ leave → 0 < processed
unfolding verdict
leave-done mode processed e h = ground arith

why_leave :
    (mode processed : ℕ) (e : Errno)
    → verdict mode processed e ≡ leave
    → IsBusy e ⊎ (has mode bit_noerror ≡ true)
unfolding verdict
why_leave mode processed eagain h = inl (inl refl)
why_leave mode processed ewouldblock h = inl (inr refl)
why_leave mode processed eintr h = inr (ground arith)
why_leave mode processed ebadf h = inr (ground arith)
why_leave mode processed einval h = inr (ground arith)
why_leave mode processed eoverflow h = inr (ground arith)
why_leave mode processed enoprotoopt h = inr (ground arith)
why_leave mode processed (other n) h = inr (ground arith)

why_raise :
    (mode processed : ℕ) (e : Errno)
    → verdict mode processed e ≡ raise
    → 0 < processed
    → (IsBusy e → ⊥) × (has mode bit_noerror ≡ false)
unfolding verdict
why_raise mode processed e h some_done =
    (λ b. elim b [ inl is ↦ ground arith | inr is ↦ ground arith ], ground arith)

pub verdict-MayLeave :
    (mode processed : ℕ) (e : Errno) → verdict mode processed e ≡ leave → MayLeave mode processed e
verdict-MayLeave mode processed e h = (
  leave-done mode processed e h,
  leave-not_retried mode processed e h,
  why_leave mode processed e h,
)

pub verdict-MayRaise :
    (mode processed : ℕ) (e : Errno) → verdict mode processed e ≡ raise → MayRaise mode processed e
verdict-MayRaise mode zero e h = (raise-not_retried mode zero e h, inl refl)
verdict-MayRaise mode (suc n) e h =
    (raise-not_retried mode (suc n) e h, inr (why_raise mode (suc n) e h (omega arith)))

-- With `BIT_NOERROR` an error is raised only while nothing is done.
pub MayRaise-noerror :
    (mode processed : ℕ) (e : Errno)
    → has mode bit_noerror ≡ true
    → MayRaise mode processed e
    → processed ≡ 0
MayRaise-noerror mode processed e b (_, inl none_done) = none_done
MayRaise-noerror mode processed e b (_, inr (_, without)) = cc
