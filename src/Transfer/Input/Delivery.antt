-- ===== src/Transfer/Input/Delivery.antt =====
-- What a reading loop delivers: the bytes that the source gave, in order, and nothing else.
use extunix.Base.{ℕ, ◌+◌, ◌≤◌, ◌<◌, String, ◌≡◌, ◌⊎◌, true, List, [], ◌++◌, length, overwrite}
use extunix.Base.Call.{Errno, eintr, Answer, got, failed}
use extunix.Base.Word.{u64_mod}
use extunix.Transfer.Loop.{Vars, Outcome, returned, raised, fault, has, bit_once}
use extunix.Transfer.Errors.{MayLeave, MayRaise}

-- What the loops rely on of `pread` and `read` on one descriptor. `pending off k` are the bytes
-- from `off` on; a call takes a front part of them, and none only at their end. A failed call
-- takes nothing, its error is one that `Possible` allows, and interruptions do not go on forever.
pub record IsSource {K : Type 0} (call : ℕ → ℕ → K → Answer (List ℕ) × K) (pending : ℕ → K → List ℕ)
    (Possible : Errno → Type 0) (patience : K → ℕ) : Type 0 where
  pub gives :
      (n off : ℕ) (k : K) (bs : List ℕ) (k' : K)
      → call n off k ≡ (got bs, k')
      → (length bs ≤ n)
        × (pending off k ≡ bs ++ pending (off + length bs) k')
        × (length bs ≡ 0 → 0 < n → pending off k ≡ [])
        × (patience k' ≤ patience k)
  pub fails :
      (n off : ℕ) (k : K) (e : Errno) (k' : K)
      → call n off k ≡ (failed e, k')
      → Possible e
        × (pending off k' ≡ pending off k)
        × (patience k' ≤ patience k)
        × (e ≡ eintr → patience k' < patience k)

-- `s` is reached from `s0` by moving the bytes `moved` from the source into the buffer.
pub record Moving {K : Type 0} (pending : ℕ → K → List ℕ) (s0 s : Vars K) : Type 0 where
  pub moved : List ℕ
  pub count : length moved ≡ s.processed
  pub left : s.len + s.processed ≡ s0.len
  pub place : s.ofs ≡ s0.ofs + s.processed
  pub offset : s.off ≡ s0.off + s.processed
  pub stored : s.buf ≡ overwrite s0.ofs moved s0.buf
  pub taken : pending s0.off s0.kernel ≡ moved ++ pending s.off s.kernel

-- Why a loop may return: all is read, the source has ended, `BIT_ONCE` once
-- something was read, or an error at which it `MayLeave`.
abbrev pub Reason : {K : Type 0} → (ℕ → K → List ℕ) → (Errno → Type 0) → ℕ → Vars K → Type 0
Reason pending Possible mode s =
    (s.len ≡ 0)
    ⊎ (pending s.off s.kernel ≡ [])
    ⊎ ((has mode bit_once ≡ true) × (0 < s.processed))
    ⊎ ((e : Errno) × Possible e × MayLeave mode s.processed e)

abbrev pub Delivered :
    {K : Type 0} → (ℕ → K → List ℕ) → (Errno → Type 0) → ℕ → String → Vars K → Outcome K → Type 0
Delivered pending Possible mode name s0 (returned s) =
    Moving pending s0 s × Reason pending Possible mode s
Delivered pending Possible mode name s0 (raised e n s) =
    Moving pending s0 s × Possible e × MayRaise mode s.processed e × (n ≡ name)
Delivered pending Possible mode name s0 fault = ⊥

-- The buffer holds the range that is asked for, and neither counter wraps.
pub record Fits {K : Type 0} (s : Vars K) : Type 0 where
  pub inside : s.ofs + s.len ≤ length s.buf
  pub addressable : length s.buf < u64_mod
  pub seekable : s.off + s.len < u64_mod
