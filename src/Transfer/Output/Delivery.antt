-- ===== src/Transfer/Output/Delivery.antt =====
-- What a writing loop delivers: a front part of the range that it is given, in order.
use extunix.Base.{ℕ, ◌+◌, ◌≤◌, ◌<◌, String, ◌≡◌, ◌⊎◌, true, List, [], ◌++◌, length, take, drop}
use extunix.Base.Call.{Errno, eintr, Answer, got, failed}
use extunix.Transfer.Loop.{Vars, Outcome, returned, raised, fault, has, bit_once}
use extunix.Transfer.Errors.{MayLeave, MayRaise}

-- What the loops rely on of `pwrite` and `write` on one descriptor. `Wrote off k bs k'` says that
-- `bs` was written at `off` on the way from `k` to `k'`. A call takes a front part of what it is
-- offered, and nothing only if `Stalls`; a failed one takes nothing.
pub record IsSink {K : Type 0} (call : List ℕ → ℕ → K → Answer ℕ × K)
    (Wrote : ℕ → K → List ℕ → K → Type 0) (Possible : Errno → Type 0) (Stalls : Type 0)
    (patience : K → ℕ) : Type 0 where
  pub nothing : (off : ℕ) (k : K) → Wrote off k [] k
  pub joins :
      (off next : ℕ) (k k' k'' : K) (bs cs : List ℕ)
      → next ≡ off + length bs
      → Wrote off k bs k'
      → Wrote next k' cs k''
      → Wrote off k (bs ++ cs) k''
  pub takes :
      (bytes : List ℕ) (off : ℕ) (k : K) (n : ℕ) (k' : K)
      → call bytes off k ≡ (got n, k')
      → (n ≤ length bytes)
        × Wrote off k (take n bytes) k'
        × (n ≡ 0 → 0 < length bytes → Stalls)
        × (patience k' ≤ patience k)
  pub fails :
      (bytes : List ℕ) (off : ℕ) (k : K) (e : Errno) (k' : K)
      → call bytes off k ≡ (failed e, k')
      → Possible e
        × Wrote off k [] k'
        × (patience k' ≤ patience k)
        × (e ≡ eintr → patience k' < patience k)

-- `s` is reached from `s0` by writing the first `s.processed` bytes of the range; the buffer is
-- as it was.
pub record Sending {K : Type 0} (Wrote : ℕ → K → List ℕ → K → Type 0) (s0 s : Vars K) : Type 0 where
  pub left : s.len + s.processed ≡ s0.len
  pub place : s.ofs ≡ s0.ofs + s.processed
  pub offset : s.off ≡ s0.off + s.processed
  pub kept : s.buf ≡ s0.buf
  pub written : Wrote s0.off s0.kernel (take s.processed (drop s0.ofs s0.buf)) s.kernel

-- Why a loop may return: all is written, the call takes nothing more, `BIT_ONCE` once
-- something was written, or an error at which it `MayLeave`.
abbrev pub Reason : {K : Type 0} → (Errno → Type 0) → Type 0 → ℕ → Vars K → Type 0
Reason Possible Stalls mode s =
    (s.len ≡ 0)
    ⊎ Stalls
    ⊎ ((has mode bit_once ≡ true) × (0 < s.processed))
    ⊎ ((e : Errno) × Possible e × MayLeave mode s.processed e)

abbrev pub Delivered :
    {K : Type 0}
    → (ℕ → K → List ℕ → K → Type 0)
    → (Errno → Type 0)
    → Type 0
    → ℕ
    → String
    → Vars K
    → Outcome K
    → Type 0
Delivered Wrote Possible Stalls mode name s0 (returned s) =
    Sending Wrote s0 s × Reason Possible Stalls mode s
Delivered Wrote Possible Stalls mode name s0 (raised e n s) =
    Sending Wrote s0 s × Possible e × MayRaise mode s.processed e × (n ≡ name)
Delivered Wrote Possible Stalls mode name s0 fault = ⊥
