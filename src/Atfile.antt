-- ===== src/Atfile.antt =====
-- src/atfile.c: calls on a path below a directory. A stub copies its paths to the heap of C, since
-- OCaml may move a string while the call blocks, and frees them before it raises.
pub mod Readlink
pub mod Balance
pub mod Results
pub mod Flags
mod Tests
use extunix.Base.{
  ℕ, ◌+◌, ◌-◌, ◌^◌, ◌*◌, bit_and, bit_or, String, Bool, true, false, ◌&&◌, Option, none, some, List,
  [], ◌∷◌, ltb, ◌==◌, if◌then◌else◌,
}
use extunix.Base.Int.{ℤ, pos, negsuc, int_val}
use extunix.Base.Call.{
  Errno, eoverflow, Answer, got, failed, Exn, unix_error, Result, ok, raised, check,
}
use extunix.Base.Heap.{Heap, strdup, stat_free, stat_alloc, blocking, one_path, two_paths}
use extunix.Endian.Macros.{val_long}
use extunix.Flags.Open.{Header, defined_or, open_flags}

abbrev pub at_symlink_nofollow : Header → ℕ
at_symlink_nofollow hdr = defined_or (hdr "AT_SYMLINK_NOFOLLOW") 0

abbrev pub at_symlink_follow : Header → ℕ
at_symlink_follow hdr = defined_or (hdr "AT_SYMLINK_FOLLOW") 0

abbrev pub at_no_automount : Header → ℕ
at_no_automount hdr = defined_or (hdr "AT_NO_AUTOMOUNT") 0

-- A system without `AT_REMOVEDIR` has no build; the model has 0 there.
abbrev pub at_removedir : Header → ℕ
at_removedir hdr = defined_or (hdr "AT_REMOVEDIR") 0

unfoldable pub at_flags_table : Header → List ℕ
at_flags_table hdr =
    defined_or (hdr "AT_EACCESS") 0
    ∷ at_symlink_nofollow hdr
    ∷ at_removedir hdr
    ∷ at_symlink_follow hdr
    ∷ at_no_automount hdr
    ∷ []

-- `flags = caml_convert_flag_list(v_flags, at_flags_table); flags &= allowed`
unfoldable pub at_flags : (List ℕ → List ℕ → ℕ) → Header → List ℕ → ℕ → ℕ
unfolding at_flags_table
at_flags convert hdr v_flags allowed = bit_and (convert v_flags (at_flags_table hdr)) allowed

unfoldable pub file_kind_table : Header → List ℕ
file_kind_table hdr =
    defined_or (hdr "S_IFREG") 0
    ∷ defined_or (hdr "S_IFDIR") 0
    ∷ defined_or (hdr "S_IFCHR") 0
    ∷ defined_or (hdr "S_IFBLK") 0
    ∷ defined_or (hdr "S_IFLNK") 0
    ∷ defined_or (hdr "S_IFIFO") 0
    ∷ defined_or (hdr "S_IFSOCK") 0
    ∷ []

pub record StructStat : Type 0 where
  pub st_dev : ℕ
  pub st_ino : ℕ
  pub st_mode : ℕ
  pub st_nlink : ℕ
  pub st_uid : ℕ
  pub st_gid : ℕ
  pub st_rdev : ℕ
  pub st_size : ℤ
  pub st_atime : ℤ
  pub st_mtime : ℤ
  pub st_ctime : ℤ

-- The record of OCaml; `D` are its floats.
pub record Stats (D : Type 0) : Type 0 where
  pub dev : ℤ
  pub ino : ℤ
  pub kind : ℕ
  pub perm : ℤ
  pub nlink : ℤ
  pub uid : ℤ
  pub gid : ℤ
  pub rdev : ℤ
  pub size : ℤ
  pub atime : D
  pub mtime : D
  pub ctime : D

-- `buf.st_mode & S_IFMT`
abbrev pub file_type : Header → StructStat → ℕ
file_type hdr buf = bit_and buf.st_mode (defined_or (hdr "S_IFMT") 0)

-- `buf.st_size > Max_long`, on a 64-bit system
abbrev pub is_too_large : ℤ → Bool
is_too_large (pos n) = ltb (2 ^ 62 - 1) n
is_too_large (negsuc n) = false

-- `cst_to_constr` is `caml_unix_cst_to_constr`, `copy_double` is `caml_copy_double`.
module _ {D : Type 0} (hdr : Header) (cst_to_constr : ℕ → List ℕ → ℕ → ℕ)
    (copy_double : ℤ → D) where
  unfoldable pub stat_aux : StructStat → Stats D
  unfolding file_kind_table val_long
  stat_aux buf = record {
    dev = val_long (pos buf.st_dev);
    ino = val_long (pos buf.st_ino);
    kind = cst_to_constr (file_type hdr buf) (file_kind_table hdr) 0;
    perm = val_long (pos (bit_and buf.st_mode 4095));
    nlink = val_long (pos buf.st_nlink);
    uid = val_long (pos buf.st_uid);
    gid = val_long (pos buf.st_gid);
    rdev = val_long (pos buf.st_rdev);
    size = val_long buf.st_size;
    atime = copy_double buf.st_atime;
    mtime = copy_double buf.st_mtime;
    ctime = copy_double buf.st_ctime;
  }

  unfoldable pub stat_result : Result StructStat → Result (Stats D)
  unfolding stat_aux
  stat_result (raised e) = raised e
  stat_result (ok buf) =
      if is_too_large buf.st_size && (file_type hdr buf == defined_or (hdr "S_IFREG") 0)
      then raised (unix_error eoverflow "fstatat")
      else ok (stat_aux buf)

-- The calls of the system, below a directory.
pub record System (K : Type 0) : Type 0 where
  pub sys_fstatat : ℤ → String → ℕ → K → Answer StructStat × K
  pub sys_unlinkat : ℤ → String → ℕ → K → Answer (Unit {0}) × K
  pub sys_renameat : ℤ → String → ℤ → String → K → Answer (Unit {0}) × K
  pub sys_mkdirat : ℤ → String → ℤ → K → Answer (Unit {0}) × K
  pub sys_linkat : ℤ → String → ℤ → String → ℕ → K → Answer (Unit {0}) × K
  pub sys_fchownat : ℤ → String → ℤ → ℤ → ℕ → K → Answer (Unit {0}) × K
  pub sys_fchmodat : ℤ → String → ℤ → ℕ → K → Answer (Unit {0}) × K
  pub sys_symlinkat : String → ℤ → String → K → Answer (Unit {0}) × K
  pub sys_openat : ℤ → String → ℕ → ℤ → K → Answer ℤ × K
  -- at most as many bytes of the link as asked for
  pub sys_readlinkat : ℤ → String → ℕ → K → Answer (List ℕ) × K
  -- `caml_stat_resize_noexc`, which may find no memory
  pub resize : ℕ → K → Answer (Unit {0}) × K

module _ {K : Type 0} (sys : System K) (convert : List ℕ → List ℕ → ℕ) (hdr : Header) where
  unfoldable pub fstatat :
      {D : Type 0}
      → (ℕ → List ℕ → ℕ → ℕ)
      → (ℤ → D)
      → ℤ
      → String
      → List ℕ
      → Heap K
      → Result (Stats D) × Heap K
  unfolding one_path at_flags stat_result
  fstatat cst_to_constr copy_double dirfd name v_flags s =
      let flags =
        at_flags convert hdr v_flags (bit_or (at_symlink_nofollow hdr) (at_no_automount hdr)) in
      let (r, s') = one_path "fstatat" (sys.sys_fstatat (int_val dirfd) name flags) s in
      (stat_result hdr cst_to_constr copy_double r, s')

  unfoldable pub unlinkat : ℤ → String → List ℕ → Heap K → Result (Unit {0}) × Heap K
  unfolding one_path at_flags
  unlinkat dirfd name v_flags =
      one_path "unlinkat"
        (sys.sys_unlinkat (int_val dirfd) name (at_flags convert hdr v_flags (at_removedir hdr)))

  unfoldable pub renameat : ℤ → String → ℤ → String → Heap K → Result (Unit {0}) × Heap K
  unfolding two_paths
  renameat oldfd oldname newfd newname =
      two_paths "renameat" (sys.sys_renameat (int_val oldfd) oldname (int_val newfd) newname)

  unfoldable pub mkdirat : ℤ → String → ℤ → Heap K → Result (Unit {0}) × Heap K
  unfolding one_path
  mkdirat dirfd name mode = one_path "mkdirat" (sys.sys_mkdirat (int_val dirfd) name (int_val mode))

  unfoldable pub linkat : ℤ → String → ℤ → String → List ℕ → Heap K → Result (Unit {0}) × Heap K
  unfolding two_paths at_flags
  linkat olddirfd oldname newdirfd newname v_flags = two_paths "linkat" (
      sys.sys_linkat (int_val olddirfd) oldname (int_val newdirfd) newname
        (at_flags convert hdr v_flags (at_symlink_follow hdr)))

  unfoldable pub fchownat : ℤ → String → ℤ → ℤ → List ℕ → Heap K → Result (Unit {0}) × Heap K
  unfolding one_path at_flags
  fchownat dirfd name owner group v_flags = one_path "fchownat" (
      sys.sys_fchownat (int_val dirfd) name (int_val owner) (int_val group)
        (at_flags convert hdr v_flags (at_symlink_nofollow hdr)))

  unfoldable pub fchmodat : ℤ → String → ℤ → List ℕ → Heap K → Result (Unit {0}) × Heap K
  unfolding one_path at_flags
  fchmodat dirfd name mode v_flags = one_path "fchmodat" (
      sys.sys_fchmodat (int_val dirfd) name (int_val mode)
        (at_flags convert hdr v_flags (at_symlink_nofollow hdr)))

  unfoldable pub symlinkat : String → ℤ → String → Heap K → Result (Unit {0}) × Heap K
  unfolding two_paths
  symlinkat path newdirfd newname =
      two_paths "symlinkat" (sys.sys_symlinkat path (int_val newdirfd) newname)

  unfoldable pub openat : ℤ → String → List ℤ → ℤ → Heap K → Result ℤ × Heap K
  unfolding one_path open_flags
  openat dirfd path flags perm =
      one_path "openat" (sys.sys_openat (int_val dirfd) path (open_flags hdr flags) (int_val perm))
