-- ===== src/Flags/Statvfs.antt =====
-- src/statvfs.c (the branch for POSIX systems): the flags of a file system and its figures.
use extunix.Base.{
  ℕ, ◌^◌, ◌<◌, bit_and, String, ◌≡◌, ◌↔◌, Bool, true, not, List, [], ◌∷◌, ◌==◌, length,
}
use extunix.Base.Int.{ℤ, pos, signed}
use extunix.Base.Call.{Answer, got, failed, unix_error, Result, ok, raised}
use extunix.Endian.Macros.{val_long}
use extunix.Flags.Open.{Header, defined_or}
use extunix.Flags.Table.{Any, entry, list_set, list_set-entry, IsDescending, list_set-IsDescending}

unfoldable pub st_flags_table : Header → List ℕ
st_flags_table hdr =
    defined_or (hdr "ST_RDONLY") 0
    ∷ defined_or (hdr "ST_NOSUID") 0
    ∷ defined_or (hdr "ST_NODEV") 0
    ∷ defined_or (hdr "ST_NOEXEC") 0
    ∷ defined_or (hdr "ST_SYNCHRONOUS") 0
    ∷ defined_or (hdr "ST_MANDLOCK") 0
    ∷ defined_or (hdr "ST_WRITE") 0
    ∷ defined_or (hdr "ST_APPEND") 0
    ∷ defined_or (hdr "ST_IMMUTABLE") 0
    ∷ defined_or (hdr "ST_NOATIME") 0
    ∷ defined_or (hdr "ST_NODIRATIME") 0
    ∷ defined_or (hdr "ST_RELATIME") 0
    ∷ []

-- `f_flag & st_flags_table[i]`, as a condition
abbrev pub has_flag : ℕ → ℕ → Bool
has_flag f_flag t = not (bit_and f_flag t == 0)

unfoldable pub convert_st_flags : Header → ℕ → List ℕ
unfolding list_set st_flags_table
convert_st_flags hdr f_flag = list_set (has_flag f_flag) (st_flags_table hdr) 0 []

-- `struct statvfs`, less `f_frsize`; each field is an unsigned 64-bit number.
pub record StructStatvfs : Type 0 where
  pub f_bsize : ℕ
  pub f_blocks : ℕ
  pub f_bfree : ℕ
  pub f_bavail : ℕ
  pub f_files : ℕ
  pub f_ffree : ℕ
  pub f_favail : ℕ
  pub f_fsid : ℕ
  pub f_flag : ℕ
  pub f_namemax : ℕ

-- The record of OCaml, in the order of its fields.
pub record Statvfs : Type 0 where
  pub bsize : ℤ
  pub blocks : ℤ
  pub bfree : ℤ
  pub bavail : ℤ
  pub files : ℤ
  pub ffree : ℤ
  pub favail : ℤ
  pub fsid : ℤ
  pub flag : ℤ
  pub flags : List ℕ
  pub namemax : ℤ

-- `caml_copy_int64` of an unsigned number
abbrev pub copy_int64 : ℕ → ℤ
copy_int64 n = signed (2 ^ 64) n

unfoldable pub convert : Header → StructStatvfs → Statvfs
unfolding convert_st_flags val_long
convert hdr s = record {
  bsize = val_long (pos s.f_bsize);
  blocks = copy_int64 s.f_blocks;
  bfree = copy_int64 s.f_bfree;
  bavail = copy_int64 s.f_bavail;
  files = copy_int64 s.f_files;
  ffree = copy_int64 s.f_ffree;
  favail = copy_int64 s.f_favail;
  fsid = copy_int64 s.f_fsid;
  flag = val_long (pos s.f_flag);
  flags = convert_st_flags hdr s.f_flag;
  namemax = val_long (pos s.f_namemax);
}

-- `sys_statvfs path k` fills the structure, or fails.
module _ {K : Type 0} (hdr : Header) where
  unfoldable pub statvfs : (String → K → Answer StructStatvfs × K) → String → K → Result Statvfs × K
  unfolding convert
  statvfs sys_statvfs path k =
      let (a, k') = sys_statvfs path k in
      elim a [ failed e ↦ (raised (unix_error e "statvfs"), k') | got s ↦ (ok (convert hdr s), k') ]

  unfoldable pub fstatvfs : (ℕ → K → Answer StructStatvfs × K) → ℕ → K → Result Statvfs × K
  unfolding convert
  fstatvfs sys_fstatvfs fd k =
      let (a, k') = sys_fstatvfs fd k in
      elim a [
        | failed e ↦ (raised (unix_error e "fstatvfs"), k')
        | got s ↦ (ok (convert hdr s), k')
      ]

-- The decoded flags are the indices of the table whose bits are set in `f_flag`, each once, the
-- highest first.
pub convert_st_flags-entry :
    (hdr : Header) (f_flag j : ℕ)
    → (Any (λ k. j ≡ k) (convert_st_flags hdr f_flag) ↔ (
        (j < length (st_flags_table hdr))
        × (has_flag f_flag (entry (st_flags_table hdr) j) ≡ true)))
      × IsDescending (convert_st_flags hdr f_flag)
unfolding convert_st_flags
convert_st_flags-entry hdr f_flag j = (
  list_set-entry (has_flag f_flag) (st_flags_table hdr) j,
  list_set-IsDescending (has_flag f_flag) (st_flags_table hdr),
)
