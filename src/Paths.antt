-- ===== src/Paths.antt =====
-- src/mount.c, src/mktemp.c, src/rename.c and `chroot` of src/unistd.c: calls with paths that are
-- copied to the heap of C while the call blocks.
pub mod Balance
pub mod Renames
mod Tests
use extunix.Base.{ℕ, bit_or, String, Bool, true, false, List, [], ◌∷◌, ◌==◌, if◌then◌else◌}
use extunix.Base.Int.{ℤ, int_val}
use extunix.Base.Call.{Answer, Exn, not_available, Result, ok, raised, check}
use extunix.Base.Stub.{Stub, raise, uerror}
use extunix.Flags.Open.{Header, defined_or, open_flags}
use extunix.Base.Heap.{Heap, strdup, stat_free, blocking, one_path, two_paths}

-- The macros of a table, in order.
abbrev pub table_of : Header → List String → List ℕ
table_of hdr [] = []
table_of hdr (name ∷ names) = defined_or (hdr name) 0 ∷ table_of hdr names

unfoldable pub mountflags_table : Header → List ℕ
mountflags_table hdr = table_of hdr (
    "MS_RDONLY" ∷ "MS_NOSUID" ∷ "MS_NODEV" ∷ "MS_NOEXEC" ∷ "MS_SYNCHRONOUS" ∷ "MS_REMOUNT"
    ∷ "MS_MANDLOCK" ∷ "MS_DIRSYNC" ∷ "MS_NOATIME" ∷ "MS_NODIRATIME" ∷ "MS_BIND" ∷ "MS_MOVE"
    ∷ "MS_REC" ∷ "MS_SILENT" ∷ "MS_POSIXACL" ∷ "MS_UNBINDABLE" ∷ "MS_PRIVATE" ∷ "MS_SLAVE"
    ∷ "MS_SHARED" ∷ "MS_RELATIME" ∷ "MS_KERNMOUNT" ∷ "MS_I_VERSION" ∷ "MS_STRICTATIME" ∷ "MS_NOUSER"
    ∷ [])

unfoldable pub umountflags_table : Header → List ℕ
umountflags_table hdr =
    table_of hdr ("MNT_FORCE" ∷ "MNT_DETACH" ∷ "MNT_EXPIRE" ∷ "UMOUNT_NOFOLLOW" ∷ [])

-- `RENAME_WHITEOUT` is 0 where the header lacks it.
unfoldable pub rename_flags_table : Header → List ℕ
rename_flags_table hdr =
    table_of hdr ("RENAME_NOREPLACE" ∷ "RENAME_EXCHANGE" ∷ "RENAME_WHITEOUT" ∷ [])

-- `rename_flag` of src/extUnix.pp.ml, and the number that OCaml gives a constructor. The table of C
-- has the first two in the other order.
pub data RenameFlag : Type 0 where
  rename_exchange rename_noreplace rename_whiteout : RenameFlag

abbrev pub constructor_index : RenameFlag → ℕ
constructor_index rename_exchange = 0
constructor_index rename_noreplace = 1
constructor_index rename_whiteout = 2

abbrev pub rename_whiteout_index : ℕ
rename_whiteout_index = 2

-- `have_whiteout` is `EXTUNIX_HAVE_RENAME_WHITEOUT`: without it a list with the flag is refused.
unfoldable pub check_flag_list : Bool → List ℕ → Result (Unit {0})
check_flag_list have_whiteout [] = ok tt
check_flag_list true (i ∷ list) = check_flag_list true list
check_flag_list false (i ∷ list) =
    let rest = check_flag_list false list in
    if rename_whiteout_index == i then raised (not_available "RENAME_WHITEOUT") else rest

-- The calls of the system.
pub record PathSystem (K : Type 0) : Type 0 where
  pub sys_mount : String → String → String → ℕ → String → K → Answer (Unit {0}) × K
  pub sys_umount2 : String → ℕ → K → Answer (Unit {0}) × K
  pub sys_chroot : String → K → Answer (Unit {0}) × K
  -- the path with its last letters replaced
  pub sys_mkdtemp : String → K → Answer String × K
  pub sys_renameat2 : ℤ → String → ℤ → String → ℕ → K → Answer (Unit {0}) × K
  -- the template with its letters replaced, and a descriptor
  pub sys_mkstemps : String → ℤ → K → Answer (ℤ × String) × K
  pub sys_mkostemps : String → ℤ → ℕ → K → Answer (ℤ × String) × K

module _ {K : Type 0} (sys : PathSystem K) (convert : List ℕ → List ℕ → ℕ) (hdr : Header) where
  unfoldable pub mount :
      String → String → String → List ℕ → String → Heap K → Result (Unit {0}) × Heap K
  unfolding mountflags_table
  mount v_source v_target v_fstype v_mountflags v_data s =
      let flags = convert v_mountflags (mountflags_table hdr) in
      let (ret, s') =
        blocking (sys.sys_mount v_source v_target v_fstype flags v_data)
          (strdup (strdup (strdup (strdup s)))) in
      (check "mount" ret, stat_free (stat_free (stat_free (stat_free s'))))

  unfoldable pub umount2 : String → List ℕ → Heap K → Result (Unit {0}) × Heap K
  unfolding one_path umountflags_table
  umount2 v_target v_umountflags =
      one_path "umount" (sys.sys_umount2 v_target (convert v_umountflags (umountflags_table hdr)))

  unfoldable pub chroot : String → Heap K → Result (Unit {0}) × Heap K
  unfolding one_path
  chroot v_path = one_path "chroot" (sys.sys_chroot v_path)

  -- The copy is freed on either branch.
  unfoldable pub mkdtemp : String → Heap K → Result String × Heap K
  unfolding one_path
  mkdtemp v_path = one_path "mkdtemp" (sys.sys_mkdtemp v_path)

  -- The flags are checked before the paths are copied.
  unfoldable pub rename_checked :
      Result (Unit {0})
      → (Heap K → Result (Unit {0}) × Heap K)
      → Heap K
      → Result (Unit {0}) × Heap K
  rename_checked (ok u) call s = call s
  rename_checked (raised e) call s = (raised e, s)

  unfoldable pub renameat2 :
      Bool → ℤ → String → ℤ → String → List ℕ → Heap K → Result (Unit {0}) × Heap K
  unfolding check_flag_list rename_checked two_paths rename_flags_table int_val
  renameat2 have_whiteout v_oldfd v_oldname v_newfd v_newname v_flags =
      rename_checked (check_flag_list have_whiteout v_flags) (
        two_paths "renameat2" (
          sys.sys_renameat2 (int_val v_oldfd) v_oldname (int_val v_newfd) v_newname
            (convert v_flags (rename_flags_table hdr))))

  -- The template is in the heap of OCaml, and the system writes to it.
  unfoldable pub mkstemps : String → ℤ → Stub K (ℤ × String)
  unfolding int_val
  mkstemps v_template v_suffixlen =
      uerror "mkstemps" (sys.sys_mkstemps v_template (int_val v_suffixlen))

  unfoldable pub mkostemps : String → ℤ → List ℤ → Stub K (ℤ × String)
  unfolding int_val open_flags
  mkostemps v_template v_suffixlen v_flags = uerror "mkostemps" (
      sys.sys_mkostemps v_template (int_val v_suffixlen)
        (bit_or (open_flags hdr v_flags) (defined_or (hdr "O_CLOEXEC") 0)))
