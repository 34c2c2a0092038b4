-- ===== src/Checked.antt =====
-- src/extUnix.pp.ml: the checks of arguments in front of the loops of src/unistd.c.
pub mod Safe
mod Tests
use extunix.Base.{
  ℕ, ◌-◌, ◌^◌, String, Bool, true, false, ◌||◌, Option, List, ltb, leb, length, if◌then◌else◌,
}
use extunix.Base.Int.{ℤ, pos, negsuc, pattern}
use extunix.Base.Call.{Answer}
use extunix.Transfer.Loop.{Outcome}
use extunix.Transfer.Unistd

-- `invalid_arg`, or the result of the stub.
pub data Checked (A : Type 0) : Type 0 where
  invalid_arg : String → Checked A
  ran : A → Checked A

abbrev pub is_negative : ℤ → Bool
is_negative (pos n) = false
is_negative (negsuc n) = true

-- `Bytes.length buf - len`, for a `len` that is not negative
abbrev pub room : ℕ → ℤ → ℤ
room size (pos n) = if leb n size then pos (size - n) else negsuc (n - size - 1)
room size (negsuc n) = pos size

-- `ofs > z`, for an `ofs` that is not negative
abbrev pub is_above : ℤ → ℤ → Bool
is_above (pos n) (pos m) = ltb m n
is_above (pos n) (negsuc m) = true
is_above (negsuc n) z = false

-- `Long_val` and `Int64_val`, as 64-bit patterns
abbrev pub word : ℤ → ℕ
word z = pattern (2 ^ 64) z

-- `if ofs < 0 || len < 0 || ofs > Bytes.length buf - len then invalid_arg name`
unfoldable pub checked : {A : Type 0} → String → ℤ → ℤ → ℕ → (ℕ → ℕ → A) → Checked A
unfolding pattern
checked name ofs len size call =
    if is_negative ofs || (is_negative len || is_above ofs (room size len))
    then invalid_arg name
    else ran (call (word ofs) (word len))

-- The same with an offset in the file.
unfoldable pub checked_at : {A : Type 0} → String → ℤ → ℤ → ℤ → ℕ → (ℕ → ℕ → ℕ → A) → Checked A
unfolding pattern
checked_at name off ofs len size call =
    if is_negative off || (is_negative ofs || (is_negative len || is_above ofs (room size len)))
    then invalid_arg name
    else ran (call (word off) (word ofs) (word len))

-- The functions of `LargeFile` check the offset in the file only.
unfoldable pub checked_offset : {A : Type 0} → String → ℤ → ℤ → ℤ → (ℕ → ℕ → ℕ → A) → Checked A
unfolding pattern
checked_offset name off ofs len call =
    if is_negative off then invalid_arg name else ran (call (word off) (word ofs) (word len))

module _ {K : Type 0} (unix_buffer_size : ℕ) (sys : ℕ → ℕ → ℕ → K → Answer (List ℕ) × K)
    (fuel fd : ℕ) where
  unfoldable pub all_pread : ℤ → List ℕ → ℤ → ℤ → K → Checked (Option (Outcome K))
  unfolding Unistd.all_pread checked_at checked
  all_pread off buf ofs len k =
      checked_at "ExtUnix.all_pread" off ofs len (length buf)
        λ o w n. Unistd.all_pread unix_buffer_size sys fuel fd o buf w n k

  unfoldable pub single_pread : ℤ → List ℕ → ℤ → ℤ → K → Checked (Option (Outcome K))
  unfolding Unistd.single_pread checked_at checked
  single_pread off buf ofs len k =
      checked_at "ExtUnix.single_pread" off ofs len (length buf)
        λ o w n. Unistd.single_pread unix_buffer_size sys fuel fd o buf w n k

  unfoldable pub pread : ℤ → List ℕ → ℤ → ℤ → K → Checked (Option (Outcome K))
  unfolding Unistd.pread checked_at checked
  pread off buf ofs len k =
      checked_at "ExtUnix.pread" off ofs len (length buf)
        λ o w n. Unistd.pread unix_buffer_size sys fuel fd o buf w n k

  unfoldable pub intr_pread : ℤ → List ℕ → ℤ → ℤ → K → Checked (Option (Outcome K))
  unfolding Unistd.intr_pread checked_at checked
  intr_pread off buf ofs len k =
      checked_at "ExtUnix.intr_pread" off ofs len (length buf)
        λ o w n. Unistd.intr_pread unix_buffer_size sys fuel fd o buf w n k

  unfoldable pub all_pread64 : ℤ → List ℕ → ℤ → ℤ → K → Checked (Option (Outcome K))
  unfolding Unistd.all_pread64 checked_offset
  all_pread64 off buf ofs len k =
      checked_offset "ExtUnix.LargeFile.all_pread" off ofs len
        λ o w n. Unistd.all_pread64 unix_buffer_size sys fuel fd o buf w n k

  unfoldable pub single_pread64 : ℤ → List ℕ → ℤ → ℤ → K → Checked (Option (Outcome K))
  unfolding Unistd.single_pread64 checked_offset
  single_pread64 off buf ofs len k =
      checked_offset "ExtUnix.LargeFile.single_pread" off ofs len
        λ o w n. Unistd.single_pread64 unix_buffer_size sys fuel fd o buf w n k

  unfoldable pub pread64 : ℤ → List ℕ → ℤ → ℤ → K → Checked (Option (Outcome K))
  unfolding Unistd.pread64 checked_offset
  pread64 off buf ofs len k =
      checked_offset "ExtUnix.LargeFile.pread" off ofs len
        λ o w n. Unistd.pread64 unix_buffer_size sys fuel fd o buf w n k

  unfoldable pub intr_pread64 : ℤ → List ℕ → ℤ → ℤ → K → Checked (Option (Outcome K))
  unfolding Unistd.intr_pread64 checked_offset
  intr_pread64 off buf ofs len k =
      checked_offset "ExtUnix.LargeFile.intr_pread" off ofs len
        λ o w n. Unistd.intr_pread64 unix_buffer_size sys fuel fd o buf w n k

module _ {K : Type 0} (unix_buffer_size : ℕ) (sys : ℕ → List ℕ → ℕ → K → Answer ℕ × K)
    (fuel fd : ℕ) where
  unfoldable pub all_pwrite : ℤ → List ℕ → ℤ → ℤ → K → Checked (Option (Outcome K))
  unfolding Unistd.all_pwrite checked_at checked
  all_pwrite off buf ofs len k =
      checked_at "ExtUnix.all_pwrite" off ofs len (length buf)
        λ o w n. Unistd.all_pwrite unix_buffer_size sys fuel fd o buf w n k

  unfoldable pub single_pwrite : ℤ → List ℕ → ℤ → ℤ → K → Checked (Option (Outcome K))
  unfolding Unistd.single_pwrite checked_at checked
  single_pwrite off buf ofs len k =
      checked_at "ExtUnix.single_pwrite" off ofs len (length buf)
        λ o w n. Unistd.single_pwrite unix_buffer_size sys fuel fd o buf w n k

  unfoldable pub pwrite : ℤ → List ℕ → ℤ → ℤ → K → Checked (Option (Outcome K))
  unfolding Unistd.pwrite checked_at checked
  pwrite off buf ofs len k =
      checked_at "ExtUnix.pwrite" off ofs len (length buf)
        λ o w n. Unistd.pwrite unix_buffer_size sys fuel fd o buf w n k

  unfoldable pub intr_pwrite : ℤ → List ℕ → ℤ → ℤ → K → Checked (Option (Outcome K))
  unfolding Unistd.intr_pwrite checked_at checked
  intr_pwrite off buf ofs len k =
      checked_at "ExtUnix.intr_pwrite" off ofs len (length buf)
        λ o w n. Unistd.intr_pwrite unix_buffer_size sys fuel fd o buf w n k

  unfoldable pub all_pwrite64 : ℤ → List ℕ → ℤ → ℤ → K → Checked (Option (Outcome K))
  unfolding Unistd.all_pwrite64 checked_offset
  all_pwrite64 off buf ofs len k =
      checked_offset "ExtUnix.LargeFile.all_pwrite" off ofs len
        λ o w n. Unistd.all_pwrite64 unix_buffer_size sys fuel fd o buf w n k

  unfoldable pub single_pwrite64 : ℤ → List ℕ → ℤ → ℤ → K → Checked (Option (Outcome K))
  unfolding Unistd.single_pwrite64 checked_offset
  single_pwrite64 off buf ofs len k =
      checked_offset "ExtUnix.LargeFile.single_pwrite" off ofs len
        λ o w n. Unistd.single_pwrite64 unix_buffer_size sys fuel fd o buf w n k

  unfoldable pub pwrite64 : ℤ → List ℕ → ℤ → ℤ → K → Checked (Option (Outcome K))
  unfolding Unistd.pwrite64 checked_offset
  pwrite64 off buf ofs len k =
      checked_offset "ExtUnix.LargeFile.pwrite" off ofs len
        λ o w n. Unistd.pwrite64 unix_buffer_size sys fuel fd o buf w n k

  unfoldable pub intr_pwrite64 : ℤ → List ℕ → ℤ → ℤ → K → Checked (Option (Outcome K))
  unfolding Unistd.intr_pwrite64 checked_offset
  intr_pwrite64 off buf ofs len k =
      checked_offset "ExtUnix.LargeFile.intr_pwrite" off ofs len
        λ o w n. Unistd.intr_pwrite64 unix_buffer_size sys fuel fd o buf w n k

module _ {K : Type 0} (unix_buffer_size : ℕ) (sys : ℕ → ℕ → K → Answer (List ℕ) × K)
    (fuel fd : ℕ) where
  unfoldable pub all_read : List ℕ → ℤ → ℤ → K → Checked (Option (Outcome K))
  unfolding Unistd.all_read checked_at checked
  all_read buf ofs len k =
      checked "ExtUnix.all_read" ofs len (length buf)
        λ w n. Unistd.all_read unix_buffer_size sys fuel fd buf w n k

  unfoldable pub single_read : List ℕ → ℤ → ℤ → K → Checked (Option (Outcome K))
  unfolding Unistd.single_read checked_at checked
  single_read buf ofs len k =
      checked "ExtUnix.single_read" ofs len (length buf)
        λ w n. Unistd.single_read unix_buffer_size sys fuel fd buf w n k

  unfoldable pub read : List ℕ → ℤ → ℤ → K → Checked (Option (Outcome K))
  unfolding Unistd.read checked_at checked
  read buf ofs len k =
      checked "ExtUnix.read" ofs len (length buf)
        λ w n. Unistd.read unix_buffer_size sys fuel fd buf w n k

  unfoldable pub intr_read : List ℕ → ℤ → ℤ → K → Checked (Option (Outcome K))
  unfolding Unistd.intr_read checked_at checked
  intr_read buf ofs len k =
      checked "ExtUnix.intr_read" ofs len (length buf)
        λ w n. Unistd.intr_read unix_buffer_size sys fuel fd buf w n k

module _ {K : Type 0} (unix_buffer_size : ℕ) (sys : ℕ → List ℕ → K → Answer ℕ × K)
    (fuel fd : ℕ) where
  unfoldable pub all_write : List ℕ → ℤ → ℤ → K → Checked (Option (Outcome K))
  unfolding Unistd.all_write checked_at checked
  all_write buf ofs len k =
      checked "ExtUnix.all_write" ofs len (length buf)
        λ w n. Unistd.all_write unix_buffer_size sys fuel fd buf w n k

  unfoldable pub single_write : List ℕ → ℤ → ℤ → K → Checked (Option (Outcome K))
  unfolding Unistd.single_write checked_at checked
  single_write buf ofs len k =
      checked "ExtUnix.single_write" ofs len (length buf)
        λ w n. Unistd.single_write unix_buffer_size sys fuel fd buf w n k

  unfoldable pub write : List ℕ → ℤ → ℤ → K → Checked (Option (Outcome K))
  unfolding Unistd.write checked_at checked
  write buf ofs len k =
      checked "ExtUnix.write" ofs len (length buf)
        λ w n. Unistd.write unix_buffer_size sys fuel fd buf w n k

  unfoldable pub intr_write : List ℕ → ℤ → ℤ → K → Checked (Option (Outcome K))
  unfolding Unistd.intr_write checked_at checked
  intr_write buf ofs len k =
      checked "ExtUnix.intr_write" ofs len (length buf)
        λ w n. Unistd.intr_write unix_buffer_size sys fuel fd buf w n k
