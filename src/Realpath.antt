-- ===== src/Realpath.antt =====
-- src/realpath.c: the path with no links in it. A POSIX system hands back a block that the stub
-- frees; on Windows the file is opened, and its name is copied to a buffer.
pub mod Balance
mod Tests
use extunix.Base.{ℕ, ◌+◌, ◌-◌, ◌*◌, String}
use extunix.Base.Int.{ℤ}
use extunix.Base.Call.{Answer, got, failed, unix_error, Result, ok, raised}

-- The blocks on the heap of C that the stub owns, its open handles, and the system.
pub record Owned (K : Type 0) : Type 0 where
  pub blocks : ℕ
  pub handles : ℕ
  pub kernel : K

abbrev pub alloc : {K : Type 0} → Owned K → Owned K
alloc s = record s { blocks = s.blocks + 1 }

abbrev pub free : {K : Type 0} → Owned K → Owned K
free s = record s { blocks = s.blocks - 1 }

abbrev pub close_handle : {K : Type 0} → Owned K → Owned K
close_handle s = record s { handles = s.handles - 1 }

-- `realpath(path, NULL)` allocates the path that it gives.
unfoldable pub posix_path : {K : Type 0} → Answer String → Owned K → Result String × Owned K
posix_path (got r) s = (ok r, free (alloc s))
posix_path (failed e) s = (raised (unix_error e "realpath"), s)

unfoldable pub posix_realpath :
    {K : Type 0} → (String → K → Answer String × K) → String → Owned K → Result String × Owned K
unfolding posix_path
posix_realpath sys_realpath p s =
    let (a, k) = sys_realpath p s.kernel in posix_path a (record s { kernel = k })

-- The calls of Windows; an `Errno` is the error as `caml_win32_maperr` maps it.
pub record Win32Path (K : Type 0) : Type 0 where
  pub create_file : String → K → Answer ℤ × K
  -- how many letters the name has: `GetFinalPathNameByHandle` with no buffer
  pub final_length : ℤ → K → Answer ℕ × K
  -- what stands in a buffer of so many letters after the call
  pub final_path : ℤ → ℕ → K → Answer String × K

-- After the second call for the name, with the buffer.
unfoldable pub after_name : {K : Type 0} → Answer String → Owned K → Result String × Owned K
after_name (got wr) s = (ok wr, free (close_handle s))
after_name (failed e) s = (raised (unix_error e "realpath"), free (close_handle s))

module _ {K : Type 0} (sys : Win32Path K) where
  -- After the first call: a buffer with a letter more.
  unfoldable pub after_length : Answer ℕ → ℤ → Owned K → Result String × Owned K
  unfolding after_name
  after_length (failed e) h s = (raised (unix_error e "realpath"), close_handle s)
  after_length (got wr_len) h s =
      let s' = alloc s in
      let (a, k) = sys.final_path h wr_len s'.kernel in after_name a (record s' { kernel = k })

  -- After `CreateFile`.
  unfoldable pub after_open : Answer ℤ → Owned K → Result String × Owned K
  unfolding after_length
  after_open (failed e) s = (raised (unix_error e "realpath"), s)
  after_open (got h) s =
      let (a, k) = sys.final_length h s.kernel in
      after_length a h (record s { handles = s.handles + 1; kernel = k })

  -- The path itself is copied, and freed after `CreateFile`.
  unfoldable pub win32_realpath : String → Owned K → Result String × Owned K
  unfolding after_open
  win32_realpath p s =
      let s' = alloc s in
      let (a, k) = sys.create_file p s'.kernel in after_open a (free (record s' { kernel = k }))
