-- ===== src/Transfer/Reading.antt =====
-- The reading functions of src/unistd.c and src/pread_pwrite_ba.c: what they deliver in each mode.
use extunix.Base.{ℕ, ◌+◌, ◌≤◌, ◌<◌, ◌≡◌, refl, List, arith, length, bit_or}
use extunix.Base.Call.{Errno, eintr, Answer}
use extunix.Base.Word.{u64_mod}
use extunix.Transfer.Loop.{start, bit_nointr, bit_noerror, Ends, Ends-map}
use extunix.Transfer.Input.Delivery.{IsSource, Delivered, Fits}
use extunix.Transfer.Input.Rounds.{input_loop-Delivered}
use extunix.Transfer.Input.Complete.{
  AllRead, AllRead-of-Delivered, RaisesClean, RaisesClean-of-Delivered,
}
use extunix.Transfer.Unistd
use extunix.Transfer.Unistd.{numbytes}
use extunix.Transfer.Bigarray
use extunix.Transfer.Bigarray.{whole}

pub numbytes_bounds :
    (size : ℕ) → 0 < size → (n : ℕ) → 0 < n → (0 < numbytes size n) × (numbytes size n ≤ n)
unfolding numbytes
numbytes_bounds size pos n h = ground arith

pub whole_bounds : (n : ℕ) → 0 < n → (0 < whole n) × (whole n ≤ n)
whole_bounds n h = omega arith

pub start-Fits :
    {K : Type 0} (off : ℕ) (buf : List ℕ) (ofs len : ℕ) (k : K)
    → ofs + len ≤ length buf
    → length buf < u64_mod
    → off + len < u64_mod
    → Fits (start off buf ofs len k)
unfolding start
start-Fits off buf ofs len k i a s = record { inside = i; addressable = a; seekable = s }

module _ {K : Type 0} (size : ℕ) (pos : 0 < size) (sys_pread : ℕ → ℕ → ℕ → K → Answer (List ℕ) × K)
    (fd : ℕ) {pending : ℕ → K → List ℕ} {Possible : Errno → Type 0} {patience : K → ℕ}
    (src : IsSource (sys_pread fd) pending Possible patience) (off : ℕ) (buf : List ℕ) (ofs len : ℕ)
    (k : K) (inside : ofs + len ≤ length buf) (addressable : length buf < u64_mod)
    (seekable : off + len < u64_mod) (fuel : ℕ) (enough : len + patience k < fuel) where
  -- For a source that meets `IsSource`, a positive buffer size, a range inside a buffer of addressable
  -- size, an end offset below 2 ^ 64 and fuel above `len + patience k`, `pread_common` ends in every
  -- mode without an access outside the buffer. It returns or raises in a state where the bytes it took
  -- from the source, in order, are what stands in the buffer from `ofs` on and in number what it
  -- counts. It returns only with all read, at the end of the source, with `BIT_ONCE` once something was
  -- read, or at an error once something was read, if that is `EAGAIN` or `EWOULDBLOCK` or the mode has
  -- `BIT_NOERROR`; it raises other errors, or any while nothing was read; and with `BIT_NOINTR` it ends
  -- at no interruption.
  pub pread_common-Delivered :
      (mode : ℕ)
      → Ends
          (Delivered pending Possible mode "pread" (start off buf ofs len k))
          (Unistd.pread_common size sys_pread fuel fd off buf ofs len mode k)
  unfolding Unistd.pread_common
  pread_common-Delivered mode =
      input_loop-Delivered (numbytes size) src mode "pread" _
        (start-Fits off buf ofs len k inside addressable seekable) (numbytes_bounds size pos) refl
        fuel enough

  -- For a source that meets `IsSource`, a positive buffer size, a range inside an addressable buffer, an
  -- end offset below 2 ^ 64 and fuel above `len + patience k`, `pread` ends, and if it raises an error
  -- nothing is read: the buffer and the bytes that the source has left are as before. If it returns,
  -- the bytes that it counts were moved from the source to `ofs`, in order.
  pub pread-RaisesClean :
      Ends
        (RaisesClean pending (start off buf ofs len k))
        (Unistd.pread size sys_pread fuel fd off buf ofs len k)
  unfolding Unistd.pread
  pread-RaisesClean =
      Ends-map
        (RaisesClean-of-Delivered pending "pread" (start off buf ofs len k) Possible
          (bit_or bit_nointr bit_noerror) refl)
        (pread_common-Delivered (bit_or bit_nointr bit_noerror))

module _ {K : Type 0} (size : ℕ) (pos : 0 < size) (sys_pread : ℕ → ℕ → ℕ → K → Answer (List ℕ) × K)
    (fd : ℕ) {pending : ℕ → K → List ℕ} {patience : K → ℕ}
    (src : IsSource (sys_pread fd) pending (λ e. e ≡ eintr) patience) where
  -- For a source that meets `IsSource` and where only interruptions fail, a positive buffer size, a range
  -- inside an addressable buffer, an end offset below 2 ^ 64 and fuel above `len + patience k`,
  -- `all_pread` returns, and has read `len` bytes, or all that are left at `off` if those are fewer, to
  -- `ofs`; the count says how many.
  pub all_pread-AllRead :
      (off : ℕ) (buf : List ℕ) (ofs len : ℕ) (k : K)
      → ofs + len ≤ length buf
      → length buf < u64_mod
      → off + len < u64_mod
      → (fuel : ℕ) → len + patience k < fuel
      → Ends
          (AllRead buf ofs len (pending off k))
          (Unistd.all_pread size sys_pread fuel fd off buf ofs len k)
  unfolding Unistd.all_pread start
  all_pread-AllRead off buf ofs len k inside addressable seekable fuel enough =
      Ends-map (AllRead-of-Delivered pending "pread" (start off buf ofs len k)) (
        pread_common-Delivered size pos sys_pread fd src off buf ofs len k inside addressable
          seekable fuel enough bit_nointr)

  -- The same straight into a bigarray, which is filled or takes all that is left at `off`.
  pub ba_all_pread-AllRead :
      (off : ℕ) (buf : List ℕ) (k : K)
      → length buf < u64_mod
      → off + length buf < u64_mod
      → (fuel : ℕ) → length buf + patience k < fuel
      → Ends
          (AllRead buf 0 (length buf) (pending off k))
          (Bigarray.all_pread sys_pread fuel fd off buf k)
  unfolding Bigarray.all_pread start
  ba_all_pread-AllRead off buf k addressable seekable fuel enough =
      Ends-map (AllRead-of-Delivered pending "pread" (start off buf 0 (length buf) k)) (
        input_loop-Delivered whole src bit_nointr "pread" (start off buf 0 (length buf) k)
          (start-Fits off buf 0 (length buf) k (omega arith) addressable seekable) whole_bounds refl
          fuel enough)

abbrev pub read_call :
    {K : Type 0} → (ℕ → ℕ → K → Answer (List ℕ) × K) → ℕ → ℕ → ℕ → K → Answer (List ℕ) × K
read_call sys_read fd n _ k = sys_read fd n k

module _ {K : Type 0} (sys_read : ℕ → ℕ → K → Answer (List ℕ) × K) (fd : ℕ)
    {pending : ℕ → K → List ℕ} {patience : K → ℕ}
    (src : IsSource (read_call sys_read fd) pending (λ e. e ≡ eintr) patience) where
  -- For a source that meets `IsSource` and where only interruptions fail, a positive buffer size, a range
  -- inside an addressable buffer and fuel above `len + patience k`, `all_read` returns, and has read
  -- `len` bytes, or all that are left if those are fewer, to `ofs`; the count says how many.
  pub all_read-AllRead :
      (size : ℕ)
      → 0 < size
      → (buf : List ℕ) (ofs len : ℕ) (k : K) → ofs + len ≤ length buf
      → length buf < u64_mod
      → (fuel : ℕ) → len + patience k < fuel
      → Ends
          (AllRead buf ofs len (pending 0 k))
          (Unistd.all_read size sys_read fuel fd buf ofs len k)
  unfolding Unistd.all_read start
  all_read-AllRead size pos buf ofs len k inside addressable fuel enough =
      Ends-map (AllRead-of-Delivered pending "read" (start 0 buf ofs len k)) (
        input_loop-Delivered (numbytes size) src bit_nointr "read" (start 0 buf ofs len k)
          (start-Fits 0 buf ofs len k inside addressable (omega arith)) (numbytes_bounds size pos)
          refl fuel enough)

  -- For a source that meets `IsSource` and where only interruptions fail, an addressable bigarray and fuel
  -- above its length plus `patience k`, `all_read` over the bigarray returns, and has filled it, or read
  -- all that is left to its beginning if that is less; the count says how many.
  pub ba_all_read-AllRead :
      (buf : List ℕ) (k : K)
      → length buf < u64_mod
      → (fuel : ℕ) → length buf + patience k < fuel
      → Ends (AllRead buf 0 (length buf) (pending 0 k)) (Bigarray.all_read sys_read fuel fd buf k)
  unfolding Bigarray.all_read start
  ba_all_read-AllRead buf k addressable fuel enough =
      Ends-map (AllRead-of-Delivered pending "read" (start 0 buf 0 (length buf) k)) (
        input_loop-Delivered whole src bit_nointr "read" (start 0 buf 0 (length buf) k)
          (start-Fits 0 buf 0 (length buf) k (omega arith) addressable (omega arith)) whole_bounds
          refl fuel enough)
