-- ===== src/Realpath/Balance.antt =====
-- No path through src/realpath.c keeps a block or a handle.
use extunix.Base.{ℕ, ◌+◌, String, ◌≡◌, refl, arith}
use extunix.Base.Int.{ℤ}
use extunix.Base.Call.{Answer, got, failed, Result}
use extunix.Realpath.{
  Owned, posix_path, posix_realpath, Win32Path, after_name, after_length, after_open,
  win32_realpath,
}

-- As many blocks and handles as before, and the result for an answer of the system.
abbrev pub Balanced : {K : Type 0} → Owned K → Result String × Owned K → Type 0
Balanced s (r, s') = (s'.blocks ≡ s.blocks) × (s'.handles ≡ s.handles)

posix_path-Balanced : {K : Type 0} (a : Answer String) (s : Owned K) → Balanced s (posix_path a s)
unfolding posix_path
posix_path-Balanced (got r) s = (omega arith, refl)
posix_path-Balanced (failed e) s = (refl, refl)

-- With a block and a handle more than `s`.
after_name-Balanced :
    {K : Type 0} (a : Answer String) (s s' : Owned K)
    → s'.blocks ≡ s.blocks + 1
    → s'.handles ≡ s.handles + 1
    → Balanced s (after_name a s')
unfolding after_name
after_name-Balanced (got wr) s s' b h = (omega arith, omega arith)
after_name-Balanced (failed e) s s' b h = (omega arith, omega arith)

module _ {K : Type 0} (sys : Win32Path K) where
  after_length-Balanced :
      (a : Answer ℕ) (handle : ℤ) (s s' : Owned K)
      → s'.blocks ≡ s.blocks
      → s'.handles ≡ s.handles + 1
      → Balanced s (after_length sys a handle s')
  unfolding after_length
  after_length-Balanced (failed e) handle s s' b h = (b, omega arith)
  after_length-Balanced (got n) handle s s' b h =
      after_name-Balanced (sys.final_path handle n s'.kernel).0 s _ (omega arith) h

  after_open-Balanced :
      (a : Answer ℤ) (s s' : Owned K)
      → s'.blocks ≡ s.blocks
      → s'.handles ≡ s.handles
      → Balanced s (after_open sys a s')
  unfolding after_open
  after_open-Balanced (failed e) s s' b h = (b, h)
  after_open-Balanced (got handle) s s' b h =
      after_length-Balanced (sys.final_length handle s'.kernel).0 handle s _ b (omega arith)

  -- On Windows, whether `realpath` returns or raises after any of its calls, every block that it
  -- allocated is freed and the handle that it opened is closed.
  pub win32_realpath-Balanced : (p : String) (s : Owned K) → Balanced s (win32_realpath sys p s)
  unfolding win32_realpath
  win32_realpath-Balanced p s =
      after_open-Balanced (sys.create_file p s.kernel).0 s _ (omega arith) refl

-- On POSIX systems the path that the system allocates is freed.
pub posix_realpath-Balanced :
    {K : Type 0} (sys_realpath : String → K → Answer String × K) (p : String) (s : Owned K)
    → Balanced s (posix_realpath sys_realpath p s)
unfolding posix_realpath
posix_realpath-Balanced sys_realpath p s =
    posix_path-Balanced (sys_realpath p s.kernel).0
      (record s { kernel = (sys_realpath p s.kernel).1 })
