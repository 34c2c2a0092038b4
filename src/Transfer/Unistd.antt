-- ===== src/Transfer/Unistd.antt =====
-- The loops of src/unistd.c: over a part of a `Bytes.t`, through a buffer of `UNIX_BUFFER_SIZE`
-- bytes on the stack. `Long_val` and `Int64_val` give offsets and lengths as 64-bit patterns, and
-- the functions take them as such. `read` and `write` have no offset of their own; the loop's
-- stays at what it counts from 0, and no call reads it.
use extunix.Base.{ℕ, bit_or, Option, List, ltb, if◌then◌else◌}
use extunix.Base.Call.{Answer}
use extunix.Transfer.Loop.{Outcome, bit_once, bit_noerror, bit_nointr, start}
use extunix.Transfer.Input.{input_loop}
use extunix.Transfer.Output.{output_loop}

-- `numbytes` of a round
unfoldable pub numbytes : ℕ → ℕ → ℕ
numbytes unix_buffer_size len = if ltb unix_buffer_size len then unix_buffer_size else len

module _ {K : Type 0} (unix_buffer_size : ℕ) (sys_pread : ℕ → ℕ → ℕ → K → Answer (List ℕ) × K) where
  unfoldable pub pread_common : ℕ → ℕ → ℕ → List ℕ → ℕ → ℕ → ℕ → K → Option (Outcome K)
  unfolding input_loop start numbytes
  pread_common fuel fd off buf ofs len mode k =
      input_loop (sys_pread fd) (numbytes unix_buffer_size) fuel mode "pread"
        (start off buf ofs len k)

  unfoldable pub all_pread : ℕ → ℕ → ℕ → List ℕ → ℕ → ℕ → K → Option (Outcome K)
  unfolding pread_common
  all_pread fuel fd off buf ofs len k = pread_common fuel fd off buf ofs len bit_nointr k

  unfoldable pub single_pread : ℕ → ℕ → ℕ → List ℕ → ℕ → ℕ → K → Option (Outcome K)
  unfolding pread_common
  single_pread fuel fd off buf ofs len k = pread_common fuel fd off buf ofs len bit_once k

  unfoldable pub pread : ℕ → ℕ → ℕ → List ℕ → ℕ → ℕ → K → Option (Outcome K)
  unfolding pread_common
  pread fuel fd off buf ofs len k =
      pread_common fuel fd off buf ofs len (bit_or bit_nointr bit_noerror) k

  unfoldable pub intr_pread : ℕ → ℕ → ℕ → List ℕ → ℕ → ℕ → K → Option (Outcome K)
  unfolding pread_common
  intr_pread fuel fd off buf ofs len k = pread_common fuel fd off buf ofs len bit_noerror k

  unfoldable pub all_pread64 : ℕ → ℕ → ℕ → List ℕ → ℕ → ℕ → K → Option (Outcome K)
  unfolding pread_common
  all_pread64 fuel fd off buf ofs len k = pread_common fuel fd off buf ofs len bit_nointr k

  unfoldable pub single_pread64 : ℕ → ℕ → ℕ → List ℕ → ℕ → ℕ → K → Option (Outcome K)
  unfolding pread_common
  single_pread64 fuel fd off buf ofs len k = pread_common fuel fd off buf ofs len bit_once k

  unfoldable pub pread64 : ℕ → ℕ → ℕ → List ℕ → ℕ → ℕ → K → Option (Outcome K)
  unfolding pread_common
  pread64 fuel fd off buf ofs len k =
      pread_common fuel fd off buf ofs len (bit_or bit_nointr bit_noerror) k

  unfoldable pub intr_pread64 : ℕ → ℕ → ℕ → List ℕ → ℕ → ℕ → K → Option (Outcome K)
  unfolding pread_common
  intr_pread64 fuel fd off buf ofs len k = pread_common fuel fd off buf ofs len bit_noerror k

module _ {K : Type 0} (unix_buffer_size : ℕ) (sys_pwrite : ℕ → List ℕ → ℕ → K → Answer ℕ × K) where
  unfoldable pub pwrite_common : ℕ → ℕ → ℕ → List ℕ → ℕ → ℕ → ℕ → K → Option (Outcome K)
  unfolding output_loop start numbytes
  pwrite_common fuel fd off buf ofs len mode k =
      output_loop (sys_pwrite fd) (numbytes unix_buffer_size) fuel mode "pwrite"
        (start off buf ofs len k)

  unfoldable pub all_pwrite : ℕ → ℕ → ℕ → List ℕ → ℕ → ℕ → K → Option (Outcome K)
  unfolding pwrite_common
  all_pwrite fuel fd off buf ofs len k = pwrite_common fuel fd off buf ofs len bit_nointr k

  unfoldable pub single_pwrite : ℕ → ℕ → ℕ → List ℕ → ℕ → ℕ → K → Option (Outcome K)
  unfolding pwrite_common
  single_pwrite fuel fd off buf ofs len k = pwrite_common fuel fd off buf ofs len bit_once k

  unfoldable pub pwrite : ℕ → ℕ → ℕ → List ℕ → ℕ → ℕ → K → Option (Outcome K)
  unfolding pwrite_common
  pwrite fuel fd off buf ofs len k =
      pwrite_common fuel fd off buf ofs len (bit_or bit_nointr bit_noerror) k

  unfoldable pub intr_pwrite : ℕ → ℕ → ℕ → List ℕ → ℕ → ℕ → K → Option (Outcome K)
  unfolding pwrite_common
  intr_pwrite fuel fd off buf ofs len k = pwrite_common fuel fd off buf ofs len bit_noerror k

  unfoldable pub all_pwrite64 : ℕ → ℕ → ℕ → List ℕ → ℕ → ℕ → K → Option (Outcome K)
  unfolding pwrite_common
  all_pwrite64 fuel fd off buf ofs len k = pwrite_common fuel fd off buf ofs len bit_nointr k

  unfoldable pub single_pwrite64 : ℕ → ℕ → ℕ → List ℕ → ℕ → ℕ → K → Option (Outcome K)
  unfolding pwrite_common
  single_pwrite64 fuel fd off buf ofs len k = pwrite_common fuel fd off buf ofs len bit_once k

  unfoldable pub pwrite64 : ℕ → ℕ → ℕ → List ℕ → ℕ → ℕ → K → Option (Outcome K)
  unfolding pwrite_common
  pwrite64 fuel fd off buf ofs len k =
      pwrite_common fuel fd off buf ofs len (bit_or bit_nointr bit_noerror) k

  unfoldable pub intr_pwrite64 : ℕ → ℕ → ℕ → List ℕ → ℕ → ℕ → K → Option (Outcome K)
  unfolding pwrite_common
  intr_pwrite64 fuel fd off buf ofs len k = pwrite_common fuel fd off buf ofs len bit_noerror k

module _ {K : Type 0} (unix_buffer_size : ℕ) (sys_read : ℕ → ℕ → K → Answer (List ℕ) × K) where
  unfoldable pub read_common : ℕ → ℕ → List ℕ → ℕ → ℕ → ℕ → K → Option (Outcome K)
  unfolding input_loop start numbytes
  read_common fuel fd buf ofs len mode k =
      input_loop (λ n _ k. sys_read fd n k) (numbytes unix_buffer_size) fuel mode "read"
        (start 0 buf ofs len k)

  unfoldable pub all_read : ℕ → ℕ → List ℕ → ℕ → ℕ → K → Option (Outcome K)
  unfolding read_common
  all_read fuel fd buf ofs len k = read_common fuel fd buf ofs len bit_nointr k

  unfoldable pub single_read : ℕ → ℕ → List ℕ → ℕ → ℕ → K → Option (Outcome K)
  unfolding read_common
  single_read fuel fd buf ofs len k = read_common fuel fd buf ofs len bit_once k

  unfoldable pub read : ℕ → ℕ → List ℕ → ℕ → ℕ → K → Option (Outcome K)
  unfolding read_common
  read fuel fd buf ofs len k = read_common fuel fd buf ofs len (bit_or bit_nointr bit_noerror) k

  unfoldable pub intr_read : ℕ → ℕ → List ℕ → ℕ → ℕ → K → Option (Outcome K)
  unfolding read_common
  intr_read fuel fd buf ofs len k = read_common fuel fd buf ofs len bit_noerror k

module _ {K : Type 0} (unix_buffer_size : ℕ) (sys_write : ℕ → List ℕ → K → Answer ℕ × K) where
  unfoldable pub write_common : ℕ → ℕ → List ℕ → ℕ → ℕ → ℕ → K → Option (Outcome K)
  unfolding output_loop start numbytes
  write_common fuel fd buf ofs len mode k =
      output_loop (λ bytes _ k. sys_write fd bytes k) (numbytes unix_buffer_size) fuel mode "write"
        (start 0 buf ofs len k)

  unfoldable pub all_write : ℕ → ℕ → List ℕ → ℕ → ℕ → K → Option (Outcome K)
  unfolding write_common
  all_write fuel fd buf ofs len k = write_common fuel fd buf ofs len bit_nointr k

  unfoldable pub single_write : ℕ → ℕ → List ℕ → ℕ → ℕ → K → Option (Outcome K)
  unfolding write_common
  single_write fuel fd buf ofs len k = write_common fuel fd buf ofs len bit_once k

  unfoldable pub write : ℕ → ℕ → List ℕ → ℕ → ℕ → K → Option (Outcome K)
  unfolding write_common
  write fuel fd buf ofs len k = write_common fuel fd buf ofs len (bit_or bit_nointr bit_noerror) k

  unfoldable pub intr_write : ℕ → ℕ → List ℕ → ℕ → ℕ → K → Option (Outcome K)
  unfolding write_common
  intr_write fuel fd buf ofs len k = write_common fuel fd buf ofs len bit_noerror k
