-- ===== src/Fallocate/File.antt =====
-- A file of Windows as its calls show it: a size, and the position of the handle's pointer.
use extunix.Base.{ℕ, ◌+◌, ◌*◌, ◌^◌, ◌<◌, ◌≡◌, none, some, max}
use extunix.Base.Call.{Errno, Answer, got, failed}
use extunix.Fallocate.{
  MoveMethod, file_begin, file_current, SeekResult, Win32, quad_part, invalid_set_file_pointer,
}

pub record File : Type 0 where
  pub size : ℕ
  pub position : ℕ

-- What the calls promise: the file is at least `n` long, or just `n` long, and the pointer stays.
abbrev pub ensure : ℕ → File → File
ensure n f = record f { size = max n f.size }

abbrev pub cut : ℕ → File → File
cut n f = record f { size = n }

abbrev pub move_base : MoveMethod → File → ℕ
move_base file_begin f = 0
move_base file_current f = f.position

-- The answer of `SetFilePointer` to a move by `pos`: the new position in two parts, with no error
-- where the low one looks like one, or an error.
pub data Sought (f : File) (pos : ℕ) (method : MoveMethod) : SeekResult → File → Type 0 where
  moved :
      (r : SeekResult)
      → quad_part r ≡ move_base method f + pos
      → quad_part r < 2 ^ 63
      → (r.low_part ≡ invalid_set_file_pointer → r.last_error ≡ none)
      → Sought f pos method r (record f { position = move_base method f + pos })
  refused :
      (r : SeekResult) (e : Errno)
      → r.low_part ≡ invalid_set_file_pointer
      → r.last_error ≡ some e
      → Sought f pos method r f

pub data Sized (f : File) : Answer ℕ → File → Type 0 where
  sized : f.size < 2 ^ 63 → Sized f (got f.size) f
  unsized : (e : Errno) → Sized f (failed e) f

pub data Ended (f : File) : Answer (Unit {0}) → File → Type 0 where
  ended : Ended f (got tt) (cut f.position f)
  kept : (e : Errno) → Ended f (failed e) f

-- `view` is the file in the state of the system.
pub record IsFile {K : Type 0} (sys : Win32 K) (view : K → File) : Type 0 where
  pub size_of : (k : K) → let (a, k') = sys.get_file_size_ex k in Sized (view k) a (view k')
  pub seek_to :
      (low high : ℕ) (method : MoveMethod) (k : K)
      → low < 2 ^ 32
      → low + 2 ^ 32 * high < 2 ^ 63
      → let (r, k') = sys.set_file_pointer low high method k in
        Sought (view k) (low + 2 ^ 32 * high) method r (view k')
  pub end_at : (k : K) → let (a, k') = sys.set_end_of_file k in Ended (view k) a (view k')
