-- ===== src/Transfer/Writing.antt =====
-- The writing functions of src/unistd.c and src/pread_pwrite_ba.c: what they deliver in each mode.
use extunix.Base.{ℕ, ◌+◌, ◌≤◌, ◌<◌, ◌≡◌, refl, List, arith, length}
use extunix.Base.Call.{Errno, eintr, Answer}
use extunix.Base.Word.{u64_mod}
use extunix.Transfer.Loop.{start, bit_nointr, bit_noerror, Ends, Ends-map}
use extunix.Transfer.Reading.{numbytes_bounds, whole_bounds, start-Fits}
use extunix.Transfer.Output.Delivery.{IsSink, Delivered}
use extunix.Transfer.Output.Rounds.{output_loop-Delivered}
use extunix.Transfer.Output.Complete.{
  AllWritten, AllWritten-of-Delivered, RaisesClean, RaisesClean-of-Delivered,
}
use extunix.Transfer.Unistd
use extunix.Transfer.Unistd.{numbytes}
use extunix.Transfer.Bigarray
use extunix.Transfer.Bigarray.{whole}

module _ {K : Type 0} (size : ℕ) (pos : 0 < size) (sys_pwrite : ℕ → List ℕ → ℕ → K → Answer ℕ × K)
    (fd : ℕ) {Wrote : ℕ → K → List ℕ → K → Type 0} {Possible : Errno → Type 0} {Stalls : Type 0}
    {patience : K → ℕ} (sink : IsSink (sys_pwrite fd) Wrote Possible Stalls patience) (off : ℕ)
    (buf : List ℕ) (ofs len : ℕ) (k : K) (inside : ofs + len ≤ length buf)
    (addressable : length buf < u64_mod) (seekable : off + len < u64_mod) (fuel : ℕ)
    (enough : len + patience k < fuel) where
  -- For a sink that meets `IsSink`, a positive buffer size, a range inside an addressable buffer, an end
  -- offset below 2 ^ 64 and fuel above `len + patience k`, `pwrite_common` ends in every mode without an
  -- access outside the buffer. It returns or raises in a state where the front part of the range, as
  -- long as it counts, is written at `off` in order and the buffer is as it was. It returns only with
  -- all written, when the call takes nothing, with `BIT_ONCE` once something was written, or at an error
  -- once something was written, if that is `EAGAIN` or `EWOULDBLOCK` or the mode has `BIT_NOERROR`; it
  -- raises other errors, or any while nothing was written; and with `BIT_NOINTR` it ends at no
  -- interruption.
  pub pwrite_common-Delivered :
      (mode : ℕ)
      → Ends
          (Delivered Wrote Possible Stalls mode "pwrite" (start off buf ofs len k))
          (Unistd.pwrite_common size sys_pwrite fuel fd off buf ofs len mode k)
  unfolding Unistd.pwrite_common
  pwrite_common-Delivered mode =
      output_loop-Delivered (numbytes size) sink mode "pwrite" _
        (start-Fits off buf ofs len k inside addressable seekable) (numbytes_bounds size pos) refl
        fuel enough

  -- For a sink that meets `IsSink`, a positive buffer size, a range inside an addressable buffer, an end
  -- offset below 2 ^ 64 and fuel above `len + patience k`, `intr_pwrite` ends, and if it raises an error
  -- nothing is written. If it returns, the front part that it counts was written at `off`.
  pub intr_pwrite-RaisesClean :
      Ends
        (RaisesClean Wrote (start off buf ofs len k))
        (Unistd.intr_pwrite size sys_pwrite fuel fd off buf ofs len k)
  unfolding Unistd.intr_pwrite
  intr_pwrite-RaisesClean =
      Ends-map
        (RaisesClean-of-Delivered Wrote "pwrite" (start off buf ofs len k) Possible Stalls
          bit_noerror refl)
        (pwrite_common-Delivered bit_noerror)

abbrev pub write_call :
    {K : Type 0} → (ℕ → List ℕ → K → Answer ℕ × K) → ℕ → List ℕ → ℕ → K → Answer ℕ × K
write_call sys_write fd bytes _ k = sys_write fd bytes k

module _ {K : Type 0} (sys_write : ℕ → List ℕ → K → Answer ℕ × K) (fd : ℕ)
    {Wrote : ℕ → K → List ℕ → K → Type 0} {patience : K → ℕ}
    (sink : IsSink (write_call sys_write fd) Wrote (λ e. e ≡ eintr) ⊥ patience) where
  -- For a sink that meets `IsSink`, where only interruptions fail and no call takes nothing, a positive
  -- buffer size, a range inside an addressable buffer and fuel above `len + patience k`, `all_write`
  -- returns and has written the whole range in order; the buffer is as it was.
  pub all_write-AllWritten :
      (size : ℕ)
      → 0 < size
      → (buf : List ℕ) (ofs len : ℕ) (k : K) → ofs + len ≤ length buf
      → length buf < u64_mod
      → (fuel : ℕ) → len + patience k < fuel
      → Ends
          (AllWritten Wrote (start 0 buf ofs len k))
          (Unistd.all_write size sys_write fuel fd buf ofs len k)
  unfolding Unistd.all_write start
  all_write-AllWritten size pos buf ofs len k inside addressable fuel enough =
      Ends-map (AllWritten-of-Delivered Wrote "write" (start 0 buf ofs len k)) (
        output_loop-Delivered (numbytes size) sink bit_nointr "write" (start 0 buf ofs len k)
          (start-Fits 0 buf ofs len k inside addressable (omega arith)) (numbytes_bounds size pos)
          refl fuel enough)

module _ {K : Type 0} (sys_pwrite : ℕ → List ℕ → ℕ → K → Answer ℕ × K) (fd : ℕ)
    {Wrote : ℕ → K → List ℕ → K → Type 0} {patience : K → ℕ}
    (sink : IsSink (sys_pwrite fd) Wrote (λ e. e ≡ eintr) ⊥ patience) where
  -- For a sink that meets `IsSink`, where only interruptions fail and no call takes nothing, an
  -- addressable bigarray, an end offset below 2 ^ 64 and fuel above its length plus `patience k`,
  -- `all_pwrite` returns and has written the whole bigarray at `off` in order; it is as it was.
  pub ba_all_pwrite-AllWritten :
      (off : ℕ) (buf : List ℕ) (k : K)
      → length buf < u64_mod
      → off + length buf < u64_mod
      → (fuel : ℕ) → length buf + patience k < fuel
      → Ends
          (AllWritten Wrote (start off buf 0 (length buf) k))
          (Bigarray.all_pwrite sys_pwrite fuel fd off buf k)
  unfolding Bigarray.all_pwrite start
  ba_all_pwrite-AllWritten off buf k addressable seekable fuel enough =
      Ends-map (AllWritten-of-Delivered Wrote "pwrite" (start off buf 0 (length buf) k)) (
        output_loop-Delivered whole sink bit_nointr "pwrite" (start off buf 0 (length buf) k)
          (start-Fits off buf 0 (length buf) k (omega arith) addressable seekable) whole_bounds refl
          fuel enough)
