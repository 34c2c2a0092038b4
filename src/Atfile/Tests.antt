-- ===== src/Atfile/Tests.antt =====
-- The calls of src/atfile.c on a small system.
use extunix.Base.{
  ℕ, ◌+◌, bit_or, ◌≡◌, refl, ap, ◌↔◌, none, some, List, [], ◌∷◌, arith, map, take, if◌then◌else◌,
}
use extunix.Base.Bits.{testbit}
use extunix.Base.Int.{ℤ, pos, signed, pattern}
use extunix.Base.Call.{got, failed, einval, ok}
use extunix.Endian.Macros.{val_long}
use extunix.Transfer.Loop.{Ends}
use extunix.Flags.Open.{Header}
use extunix.Flags.Table.{Any, entry, IsConvert}
use extunix.Base.Heap.{Heap}
use extunix.Atfile.{System, StructStat, Stats, at_flags, at_flags_table, fstatat}
use extunix.Atfile.Readlink.{readlinkat}
use extunix.Atfile.Balance.{readlinkat_call, at_step, at_step-allocated}
use extunix.Atfile.Flags.{
  at_macro, at_flag_index, symlink_nofollow, removedir, unlinkat_with, kernel_after,
  kernel_after-supported,
}
use extunix.Atfile.Results.{fstatat-size, readlinkat-whole}
use text.Mathlib.Text.{◌==◌ as str_eq}

abbrev target : List ℕ
target = 47 ∷ 116 ∷ 109 ∷ 112 ∷ []

abbrev file : StructStat
file = record {
  st_dev = 1;
  st_ino = 2;
  st_mode = 33188;
  st_nlink = 1;
  st_uid = 0;
  st_gid = 0;
  st_rdev = 0;
  st_size = pos 4096;
  st_atime = pos 0;
  st_mtime = pos 0;
  st_ctime = pos 0;
}

-- The kernel counts its calls.
abbrev sys : System ℕ
sys = record {
  sys_fstatat = λ d p f k. (got file, k + 1);
  sys_unlinkat = λ d p f k. (failed einval, k + 1);
  sys_renameat = λ d p d' p' k. (got tt, k + 1);
  sys_mkdirat = λ d p m k. (got tt, k + 1);
  sys_linkat = λ d p d' p' f k. (got tt, k + 1);
  sys_fchownat = λ d p o g f k. (got tt, k + 1);
  sys_fchmodat = λ d p m f k. (got tt, k + 1);
  sys_symlinkat = λ p d p' k. (got tt, k + 1);
  sys_openat = λ d p f m k. (got (pos 5), k + 1);
  sys_readlinkat = λ d p n k. (got (take n target), k + 1);
  resize = λ n k. (got tt, k);
}

-- `S_IFMT` and `S_IFREG` of Linux, and two flags
abbrev linux : Header
linux name =
    if str_eq name "S_IFMT"
    then some 61440
    else if str_eq name "S_IFREG"
    then some 32768
    else if str_eq name "AT_SYMLINK_NOFOLLOW"
    then some 256
    else if str_eq name "AT_REMOVEDIR"
    then some 512
    else none

-- The kernel is the flags that `unlinkat` was last called with.
abbrev flag_sys : System ℕ
flag_sys = record sys { sys_unlinkat = λ d p f k. (failed einval, f) }

abbrev or_entries : List ℕ → List ℕ → ℕ
or_entries [] table = 0
or_entries (i ∷ l) table = bit_or (entry table i) (or_entries l table)

or_entries-IsConvert : IsConvert or_entries
or_entries-IsConvert = (λ table. refl, λ i l table h. refl)

abbrev first : ℕ → List ℕ → ℕ → ℕ
first n table d = d

abbrev zero_heap : Heap ℕ
zero_heap = record { allocated = 0; kernel = 0 }

kernel_after-supported_example :
    (bits : ℕ) × ((n : ℕ)
      → (testbit n bits ≡ 1) ↔ (
          Any (λ f. testbit n (at_macro linux f) ≡ 1) (removedir ∷ [])
          × Any (λ f. testbit n (at_macro linux f) ≡ 1) (symlink_nofollow ∷ removedir ∷ [])))
    × (kernel_after flag_sys or_entries linux first
          (λ z. z)
          (unlinkat_with (pos 3) "dir")
          (map at_flag_index (symlink_nofollow ∷ removedir ∷ []))
          zero_heap
        ≡ bits)
kernel_after-supported_example =
    kernel_after-supported flag_sys or_entries linux first (λ z. z) (unlinkat_with (pos 3) "dir")
      (symlink_nofollow ∷ removedir ∷ []) zero_heap or_entries-IsConvert

-- `unlinkat` drops `AT_SYMLINK_NOFOLLOW`.
unlinkat_run :
    kernel_after flag_sys or_entries linux first
      (λ z. z)
      (unlinkat_with (pos 3) "dir")
      (map at_flag_index (symlink_nofollow ∷ removedir ∷ []))
      zero_heap
    ≡ 512
unfolding kernel_after
unlinkat_run = refl

at_flags_run : at_flags or_entries linux (1 ∷ 2 ∷ []) 256 ≡ 256
unfolding at_flags at_flags_table
at_flags_run = refl

readlinkat-whole_example : Ends (λ r. r.0 ≡ ok target) (readlinkat sys 5 (pos 3) "link" zero_heap)
readlinkat-whole_example =
    readlinkat-whole sys (pos 3) "link" target
      (record { reads = λ n k. refl; memory = λ n k. refl })
      (omega arith, (omega arith, (omega arith, (omega arith, tt)))) (omega arith) 5 (omega arith)
      zero_heap

abbrev stats : Stats ℤ
stats = record {
  dev = pos 1;
  ino = pos 2;
  kind = 0;
  perm = pos 420;
  nlink = pos 1;
  uid = pos 0;
  gid = pos 0;
  rdev = pos 0;
  size = pos 4096;
  atime = pos 0;
  mtime = pos 0;
  ctime = pos 0;
}

fstatat_run :
    fstatat sys or_entries linux first (λ z. z) (pos 3) "file" [] zero_heap
    ≡ (ok stats, record { allocated = 0; kernel = 1 })
unfolding fstatat val_long signed pattern
fstatat_run = refl

fstatat-size_example : stats.size ≡ pos 4096
fstatat-size_example =
    fstatat-size linux first (λ z. z) sys or_entries (pos 3) "file" [] zero_heap file 4096 stats
      (λ flags k. refl) refl refl (ap (λ p. p.0) fstatat_run)

abbrev after_link : Heap ℕ
after_link = record { allocated = 0; kernel = 1 }

at_step_run :
    at_step sys or_entries linux first (λ z. z) 5 (readlinkat_call (pos 3) "link") zero_heap
    ≡ some after_link
unfolding at_step
at_step_run = refl

at_step-allocated_example : after_link.allocated ≡ zero_heap.allocated
at_step-allocated_example =
    at_step-allocated sys or_entries linux first (λ z. z) 5 (readlinkat_call (pos 3) "link")
      zero_heap after_link at_step_run
