-- ===== src/Transfer/Bigarray.antt =====
-- The loops of src/pread_pwrite_ba.c: over a whole bigarray, with no buffer in between, so a call
-- asks for all that is left. `Long_val` and `Int64_val` give the offset as the pattern of an
-- `off_t`, and the functions take it as such.
use extunix.Base.{ℕ, bit_or, Option, List, length}
use extunix.Base.Call.{Answer}
use extunix.Transfer.Loop.{Outcome, bit_once, bit_noerror, bit_nointr, start}
use extunix.Transfer.Input.{input_loop}
use extunix.Transfer.Output.{output_loop}

-- `len` of a round: all that is left
abbrev pub whole : ℕ → ℕ
whole n = n

module _ {K : Type 0} (sys_pread : ℕ → ℕ → ℕ → K → Answer (List ℕ) × K) where
  unfoldable pub pread_common : ℕ → ℕ → ℕ → List ℕ → ℕ → K → Option (Outcome K)
  unfolding input_loop start
  pread_common fuel fd off buf mode k =
      input_loop (sys_pread fd) whole fuel mode "pread" (start off buf 0 (length buf) k)

  unfoldable pub all_pread : ℕ → ℕ → ℕ → List ℕ → K → Option (Outcome K)
  unfolding pread_common
  all_pread fuel fd off buf k = pread_common fuel fd off buf bit_nointr k

  unfoldable pub single_pread : ℕ → ℕ → ℕ → List ℕ → K → Option (Outcome K)
  unfolding pread_common
  single_pread fuel fd off buf k = pread_common fuel fd off buf bit_once k

  unfoldable pub pread : ℕ → ℕ → ℕ → List ℕ → K → Option (Outcome K)
  unfolding pread_common
  pread fuel fd off buf k = pread_common fuel fd off buf (bit_or bit_nointr bit_noerror) k

  unfoldable pub intr_pread : ℕ → ℕ → ℕ → List ℕ → K → Option (Outcome K)
  unfolding pread_common
  intr_pread fuel fd off buf k = pread_common fuel fd off buf bit_noerror k

  unfoldable pub all_pread64 : ℕ → ℕ → ℕ → List ℕ → K → Option (Outcome K)
  unfolding pread_common
  all_pread64 fuel fd off buf k = pread_common fuel fd off buf bit_nointr k

  unfoldable pub single_pread64 : ℕ → ℕ → ℕ → List ℕ → K → Option (Outcome K)
  unfolding pread_common
  single_pread64 fuel fd off buf k = pread_common fuel fd off buf bit_once k

  unfoldable pub pread64 : ℕ → ℕ → ℕ → List ℕ → K → Option (Outcome K)
  unfolding pread_common
  pread64 fuel fd off buf k = pread_common fuel fd off buf (bit_or bit_nointr bit_noerror) k

  unfoldable pub intr_pread64 : ℕ → ℕ → ℕ → List ℕ → K → Option (Outcome K)
  unfolding pread_common
  intr_pread64 fuel fd off buf k = pread_common fuel fd off buf bit_noerror k

module _ {K : Type 0} (sys_pwrite : ℕ → List ℕ → ℕ → K → Answer ℕ × K) where
  unfoldable pub pwrite_common : ℕ → ℕ → ℕ → List ℕ → ℕ → K → Option (Outcome K)
  unfolding output_loop start
  pwrite_common fuel fd off buf mode k =
      output_loop (sys_pwrite fd) whole fuel mode "pwrite" (start off buf 0 (length buf) k)

  unfoldable pub all_pwrite : ℕ → ℕ → ℕ → List ℕ → K → Option (Outcome K)
  unfolding pwrite_common
  all_pwrite fuel fd off buf k = pwrite_common fuel fd off buf bit_nointr k

  unfoldable pub single_pwrite : ℕ → ℕ → ℕ → List ℕ → K → Option (Outcome K)
  unfolding pwrite_common
  single_pwrite fuel fd off buf k = pwrite_common fuel fd off buf bit_once k

  unfoldable pub pwrite : ℕ → ℕ → ℕ → List ℕ → K → Option (Outcome K)
  unfolding pwrite_common
  pwrite fuel fd off buf k = pwrite_common fuel fd off buf (bit_or bit_nointr bit_noerror) k

  unfoldable pub intr_pwrite : ℕ → ℕ → ℕ → List ℕ → K → Option (Outcome K)
  unfolding pwrite_common
  intr_pwrite fuel fd off buf k = pwrite_common fuel fd off buf bit_noerror k

  unfoldable pub all_pwrite64 : ℕ → ℕ → ℕ → List ℕ → K → Option (Outcome K)
  unfolding pwrite_common
  all_pwrite64 fuel fd off buf k = pwrite_common fuel fd off buf bit_nointr k

  unfoldable pub single_pwrite64 : ℕ → ℕ → ℕ → List ℕ → K → Option (Outcome K)
  unfolding pwrite_common
  single_pwrite64 fuel fd off buf k = pwrite_common fuel fd off buf bit_once k

  unfoldable pub pwrite64 : ℕ → ℕ → ℕ → List ℕ → K → Option (Outcome K)
  unfolding pwrite_common
  pwrite64 fuel fd off buf k = pwrite_common fuel fd off buf (bit_or bit_nointr bit_noerror) k

  unfoldable pub intr_pwrite64 : ℕ → ℕ → ℕ → List ℕ → K → Option (Outcome K)
  unfolding pwrite_common
  intr_pwrite64 fuel fd off buf k = pwrite_common fuel fd off buf bit_noerror k

module _ {K : Type 0} (sys_read : ℕ → ℕ → K → Answer (List ℕ) × K) where
  unfoldable pub read_common : ℕ → ℕ → List ℕ → ℕ → K → Option (Outcome K)
  unfolding input_loop start
  read_common fuel fd buf mode k =
      input_loop (λ n _ k. sys_read fd n k) whole fuel mode "read" (start 0 buf 0 (length buf) k)

  unfoldable pub all_read : ℕ → ℕ → List ℕ → K → Option (Outcome K)
  unfolding read_common
  all_read fuel fd buf k = read_common fuel fd buf bit_nointr k

  unfoldable pub single_read : ℕ → ℕ → List ℕ → K → Option (Outcome K)
  unfolding read_common
  single_read fuel fd buf k = read_common fuel fd buf bit_once k

  unfoldable pub read : ℕ → ℕ → List ℕ → K → Option (Outcome K)
  unfolding read_common
  read fuel fd buf k = read_common fuel fd buf (bit_or bit_nointr bit_noerror) k

  unfoldable pub intr_read : ℕ → ℕ → List ℕ → K → Option (Outcome K)
  unfolding read_common
  intr_read fuel fd buf k = read_common fuel fd buf bit_noerror k

module _ {K : Type 0} (sys_write : ℕ → List ℕ → K → Answer ℕ × K) where
  unfoldable pub write_common : ℕ → ℕ → List ℕ → ℕ → K → Option (Outcome K)
  unfolding output_loop start
  write_common fuel fd buf mode k =
      output_loop (λ bytes _ k. sys_write fd bytes k) whole fuel mode "write"
        (start 0 buf 0 (length buf) k)

  unfoldable pub all_write : ℕ → ℕ → List ℕ → K → Option (Outcome K)
  unfolding write_common
  all_write fuel fd buf k = write_common fuel fd buf bit_nointr k

  unfoldable pub single_write : ℕ → ℕ → List ℕ → K → Option (Outcome K)
  unfolding write_common
  single_write fuel fd buf k = write_common fuel fd buf bit_once k

  unfoldable pub write : ℕ → ℕ → List ℕ → K → Option (Outcome K)
  unfolding write_common
  write fuel fd buf k = write_common fuel fd buf (bit_or bit_nointr bit_noerror) k

  unfoldable pub intr_write : ℕ → ℕ → List ℕ → K → Option (Outcome K)
  unfolding write_common
  intr_write fuel fd buf k = write_common fuel fd buf bit_noerror k
