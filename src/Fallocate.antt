-- ===== src/Fallocate.antt =====
-- src/fallocate.c and src/TODO/ftruncate/ftruncateC.c: space for a file, and its length. Windows has
-- no such calls there: the file pointer goes to the new end, the end is set, and the pointer goes
-- back.
pub mod File
pub mod Seek
pub mod Ensures
pub mod Returns
mod Tests
use extunix.Base.{
  ℕ, ◌+◌, ◌-◌, ◌*◌, ◌/◌, ◌%◌, ◌^◌, String, Bool, Option, none, some, leb, ◌==◌, if◌then◌else◌,
}
use extunix.Base.Int.{ℤ, pattern, int_val}
use extunix.Base.Call.{Errno, Answer, Exn, unix_error, Result, ok, raised}
use extunix.Base.Stub.{Stub, pure, ◌>>=◌, ◌>>◌, and_then, uerror}

pub data MoveMethod : Type 0 where
  file_begin file_current : MoveMethod

-- What `SetFilePointer` hands back: the low 32 bits of the new position, the high ones through its
-- pointer, and the error that `GetLastError` gives, `none` for `NO_ERROR`.
pub record SeekResult : Type 0 where
  pub low_part : ℕ
  pub high_part : ℕ
  pub last_error : Option Errno

-- The calls of Windows on one handle. An `Errno` is the error as `caml_win32_maperr` maps it, and
-- 64-bit numbers are their bit patterns.
pub record Win32 (K : Type 0) : Type 0 where
  pub get_file_size_ex : K → Answer ℕ × K
  pub set_file_pointer : ℕ → ℕ → MoveMethod → K → SeekResult × K
  pub set_end_of_file : K → Answer (Unit {0}) × K

abbrev pub invalid_set_file_pointer : ℕ
invalid_set_file_pointer = 2 ^ 32 - 1

-- `liRes.QuadPart`
abbrev pub quad_part : SeekResult → ℕ
quad_part r = r.low_part + 2 ^ 32 * r.high_part

-- The low part alone does not tell an error from a position that ends in 32 ones.
abbrev pub seek_error : String → Option Errno → ℕ → Result ℕ
seek_error name none pos = ok pos
seek_error name (some e) pos = raised (unix_error e name)

unfoldable pub seek_result : String → SeekResult → Result ℕ
seek_result name r =
    if r.low_part == invalid_set_file_pointer
    then seek_error name r.last_error (quad_part r)
    else ok (quad_part r)

-- `i64Off + i64Len <= liFileSize.QuadPart`, of signed numbers
abbrev order64 : ℕ → ℕ
order64 x = (x + 2 ^ 63) % 2 ^ 64

unfoldable pub fits_in : ℕ → ℕ → ℕ → Bool
fits_in off len size = leb (order64 (off + len)) (order64 size)

module _ {K : Type 0} (sys : Win32 K) where
  unfoldable pub file_lseek : String → ℕ → MoveMethod → Stub K ℕ
  unfolding seek_result
  file_lseek name pos method k =
      let (r, k') = sys.set_file_pointer (pos % 2 ^ 32) (pos / 2 ^ 32) method k in
      (seek_result name r, k')

  -- The end of the file goes to `off + len`, and the pointer back to where it was.
  unfoldable pub extend : ℕ → ℕ → Stub K (Unit {0})
  unfolding file_lseek
  extend off len = do
    cur ← file_lseek "fallocate" 0 file_current
    _ ← file_lseek "fallocate" off file_begin
    _ ← file_lseek "fallocate" len file_current
    uerror "fallocate" sys.set_end_of_file
    _ ← file_lseek "fallocate" cur file_begin
    pure tt

  unfoldable pub fallocate_do : ℕ → ℕ → Stub K (Unit {0})
  unfolding extend fits_in
  fallocate_do off len = do
    size ← uerror "fallocate" sys.get_file_size_ex
    if fits_in off len size then pure tt else extend off len

  unfoldable pub fallocate64 : ℤ → ℤ → Stub K (Unit {0})
  unfolding fallocate_do
  fallocate64 voff vlen = fallocate_do (pattern (2 ^ 64) voff) (pattern (2 ^ 64) vlen)

  unfoldable pub fallocate : ℤ → ℤ → Stub K (Unit {0})
  unfolding fallocate_do
  fallocate voff vlen = fallocate_do (pattern (2 ^ 64) voff) (pattern (2 ^ 64) vlen)

  unfoldable pub ftruncate_win32_do : ℕ → Stub K (Unit {0})
  unfolding file_lseek
  ftruncate_win32_do len = do
    cur ← file_lseek "ftruncate" 0 file_current
    _ ← file_lseek "ftruncate" len file_begin
    uerror "ftruncate" sys.set_end_of_file
    _ ← file_lseek "ftruncate" cur file_begin
    pure tt

  unfoldable pub ftruncate_win32 : ℤ → Stub K (Unit {0})
  unfolding ftruncate_win32_do
  ftruncate_win32 vlen = ftruncate_win32_do (pattern (2 ^ 64) vlen)

  unfoldable pub ftruncate64_win32 : ℤ → Stub K (Unit {0})
  unfolding ftruncate_win32_do
  ftruncate64_win32 vlen = ftruncate_win32_do (pattern (2 ^ 64) vlen)

-- POSIX systems have the call; `posix_fallocate` returns its error, 0 for none.
module _ {K : Type 0} (posix_fallocate : ℤ → ℤ → ℤ → K → Answer (Unit {0}) × K) where
  unfoldable pub posix_fallocate64_stub : ℤ → ℤ → ℤ → Stub K (Unit {0})
  posix_fallocate64_stub vfd voff vlen =
      uerror "fallocate" (posix_fallocate (int_val vfd) voff vlen)

  unfoldable pub posix_fallocate_stub : ℤ → ℤ → ℤ → Stub K (Unit {0})
  posix_fallocate_stub vfd voff vlen = uerror "fallocate" (posix_fallocate (int_val vfd) voff vlen)
