-- ===== src/Calls/Files.antt =====
-- Descriptors and files: src/fsync.c, src/fadvise.c, src/dirfd.c, src/eventfd.c and
-- `is_open_descr` of src/unistd.c.
use extunix.Base.{ℕ, ◌^◌, Bool, true, false, Option, none, some, List, [], ◌∷◌}
use extunix.Base.Int.{ℤ, int_val, signed, pattern}
use extunix.Base.Call.{ebadf, Answer, got, failed, unix_error, invalid_argument, Result, ok, raised}
use extunix.Base.Stub.{Stub, raise, uerror}
use extunix.Flags.Open.{Header}
use extunix.Flags.Table.{entry}
use extunix.Paths.{table_of}

-- On Windows a descriptor is a handle or a socket.
pub data DescrKind : Type 0 where
  kind_handle kind_socket : DescrKind

unfoldable pub fadv_flags_table : Header → List ℕ
fadv_flags_table hdr = table_of hdr (
    "POSIX_FADV_NORMAL" ∷ "POSIX_FADV_SEQUENTIAL" ∷ "POSIX_FADV_RANDOM" ∷ "POSIX_FADV_NOREUSE"
    ∷ "POSIX_FADV_WILLNEED" ∷ "POSIX_FADV_DONTNEED" ∷ [])

-- `fcntl` fails with `EBADF` for a descriptor that is not open.
unfoldable pub is_open_result : Answer ℕ → Result Bool
is_open_result (got flags) = ok true
is_open_result (failed ebadf) = ok false
is_open_result (failed e) = raised (unix_error e "fcntl")

unfoldable pub counter_result : Answer ℕ → Result ℤ
counter_result (got v) = ok (signed (2 ^ 64) v)
counter_result (failed e) = raised (unix_error e "eventfd_read")

module _ {K : Type 0} where
  -- The error is what `errno` holds, which `FlushFileBuffers` does not set.
  unfoldable pub win32_fsync : (ℤ → K → Answer (Unit {0}) × K) → DescrKind → ℤ → Stub K (Unit {0})
  win32_fsync flush_file_buffers kind_socket handle = raise (invalid_argument "fsync")
  win32_fsync flush_file_buffers kind_handle handle = uerror "fsync" (flush_file_buffers handle)

  unfoldable pub win32_fdatasync :
      (ℤ → K → Answer (Unit {0}) × K) → DescrKind → ℤ → Stub K (Unit {0})
  unfolding win32_fsync
  win32_fdatasync flush_file_buffers kind handle = win32_fsync flush_file_buffers kind handle

  unfoldable pub fsync : (ℤ → K → Answer (Unit {0}) × K) → ℤ → Stub K (Unit {0})
  unfolding int_val
  fsync sys_fsync v_fd = uerror "fsync" (sys_fsync (int_val v_fd))

  unfoldable pub fdatasync : (ℤ → K → Answer (Unit {0}) × K) → ℤ → Stub K (Unit {0})
  unfolding int_val
  fdatasync sys_fdatasync v_fd = uerror "fdatasync" (sys_fdatasync (int_val v_fd))

  unfoldable pub sync : (K → K) → Stub K (Unit {0})
  sync sys_sync k = (ok tt, sys_sync k)

  unfoldable pub syncfs : (ℤ → K → Answer (Unit {0}) × K) → ℤ → Stub K (Unit {0})
  unfolding int_val
  syncfs sys_syncfs v_fd = uerror "syncfs" (sys_syncfs (int_val v_fd))

  -- The advice is an index of the table.
  unfoldable pub fadvise64 :
      Header → (ℤ → ℤ → ℤ → ℕ → K → Answer (Unit {0}) × K) → ℤ → ℤ → ℤ → ℕ → Stub K (Unit {0})
  unfolding fadv_flags_table int_val
  fadvise64 hdr posix_fadvise vfd voff vlen vadvise =
      uerror "fadvise64"
        (posix_fadvise (int_val vfd) voff vlen (entry (fadv_flags_table hdr) vadvise))

  unfoldable pub fadvise :
      Header → (ℤ → ℤ → ℤ → ℕ → K → Answer (Unit {0}) × K) → ℤ → ℤ → ℤ → ℕ → Stub K (Unit {0})
  unfolding fadv_flags_table int_val
  fadvise hdr posix_fadvise vfd voff vlen vadvise =
      uerror "fadvise"
        (posix_fadvise (int_val vfd) voff vlen (entry (fadv_flags_table hdr) vadvise))

  -- A directory that has been closed is `NULL`.
  unfoldable pub dirfd : {Dir : Type 0} → (Dir → K → Answer ℤ × K) → Option Dir → Stub K ℤ
  dirfd sys_dirfd none = raise (unix_error ebadf "dirfd")
  dirfd sys_dirfd (some dir) = uerror "dirfd" (sys_dirfd dir)

  unfoldable pub is_open_descr : (ℤ → K → Answer ℕ × K) → ℤ → Stub K Bool
  unfolding is_open_result int_val
  is_open_descr sys_fcntl v_fd k =
      let (a, k') = sys_fcntl (int_val v_fd) k in (is_open_result a, k')

  unfoldable pub eventfd : (ℤ → K → Answer ℤ × K) → ℤ → Stub K ℤ
  unfolding int_val
  eventfd sys_eventfd v_init = uerror "eventfd" (sys_eventfd (int_val v_init))

  -- The counter is a `uint64_t`; OCaml has its 64 bits as a signed number.
  unfoldable pub eventfd_read : (ℤ → K → Answer ℕ × K) → ℤ → Stub K ℤ
  unfolding counter_result int_val
  eventfd_read sys_eventfd_read v_fd k =
      let (a, k') = sys_eventfd_read (int_val v_fd) k in (counter_result a, k')

  unfoldable pub eventfd_write : (ℤ → ℕ → K → Answer (Unit {0}) × K) → ℤ → ℤ → Stub K (Unit {0})
  unfolding int_val
  eventfd_write sys_eventfd_write v_fd v_val =
      uerror "eventfd_write" (sys_eventfd_write (int_val v_fd) (pattern (2 ^ 64) v_val))
