-- ===== src/Paths/Tests.antt =====
-- A system whose state is the last path that it was given.
use text.Mathlib.Text.{◌==◌ as str_eq}
use extunix.Base.{
  ℕ, String, ◌≡◌, refl, false, none, some, bit_or, map, List, [], ◌∷◌, if◌then◌else◌,
}
use extunix.Base.Int.{pos}
use extunix.Base.Call.{got, failed, eoverflow, not_available, unix_error, ok, raised}
use extunix.Flags.Open.{Header}
use extunix.Base.Heap.{Heap}
use extunix.Paths.{
  PathSystem, mount, renameat2, mkostemps, rename_flags_table, rename_exchange, constructor_index,
}
use extunix.Paths.Balance.{
  PathCall, mount_call, chroot_call, mkdtemp_call, renameat2_call, path_run, path_run-allocated,
}
use extunix.Paths.Renames.{Renames, renameat2-Renames}
use extunix.Flags.Table.{entry, IsConvert}

abbrev system : PathSystem String
system = record {
  sys_mount = λ source target fstype flags options k. (failed eoverflow, target);
  sys_umount2 = λ target flags k. (got tt, target);
  sys_chroot = λ path k. (got tt, path);
  sys_mkdtemp = λ path k. (got "/tmp/a1", path);
  sys_renameat2 = λ f a g b flags k. (got tt, b);
  sys_mkstemps = λ template n k. (got (pos 4, template), template);
  sys_mkostemps = λ template n flags k. (got (pos flags, template), template);
}

-- The last entry of the table that is asked for.
abbrev last : List ℕ → List ℕ → ℕ
last l table = 0

abbrev sevens : Header
sevens name = if str_eq name "O_CLOEXEC" then some 64 else some 1

abbrev at_start : Heap String
at_start = record { allocated = 3; kernel = "" }

mount_fails :
    mount system last sevens "dev" "/mnt" "ext4" [] "" at_start
    ≡ (raised (unix_error eoverflow "mount"), record { allocated = 3; kernel = "/mnt" })
unfolding mount
mount_fails = refl

whiteout_refused :
    renameat2 system last sevens false (pos 0) "a" (pos 0) "b" (0 ∷ 2 ∷ []) at_start
    ≡ (raised (not_available "RENAME_WHITEOUT"), at_start)
unfolding renameat2
whiteout_refused = refl

mkostemps_flags :
    (mkostemps system last sevens "fooXXXXXX" (pos 0) (pos 1 ∷ []) "").0 ≡ ok (pos 65, "fooXXXXXX")
unfolding mkostemps
mkostemps_flags = refl

abbrev calls : List PathCall
calls =
    mount_call "dev" "/mnt" "ext4" (0 ∷ []) ""
    ∷ mkdtemp_call "/tmp/XXXXXX"
    ∷ renameat2_call (pos 0) "a" (pos 0) "b" (2 ∷ [])
    ∷ chroot_call "/"
    ∷ []

path_run-allocated_example : (path_run system last sevens false calls at_start).allocated ≡ 3
path_run-allocated_example = path_run-allocated system last sevens false calls at_start

abbrev or_entries : List ℕ → List ℕ → ℕ
or_entries [] table = 0
or_entries (i ∷ l) table = bit_or (entry table i) (or_entries l table)

or_entries-IsConvert : IsConvert or_entries
or_entries-IsConvert = (λ table. refl, λ i l table h. refl)

abbrev linux : Header
linux name =
    if str_eq name "RENAME_NOREPLACE"
    then some 1
    else if str_eq name "RENAME_EXCHANGE"
    then some 2
    else if str_eq name "RENAME_WHITEOUT"
    then some 4
    else none

-- `RENAME_EXCHANGE` of OCaml asks the system for `RENAME_NOREPLACE`.
exchange_run :
    or_entries (map constructor_index (rename_exchange ∷ [])) (rename_flags_table linux) ≡ 1
unfolding rename_flags_table
exchange_run = refl

renameat2-Renames_example :
    Renames system linux false (pos 0) "a" (pos 0) "b" (rename_exchange ∷ []) at_start (
      renameat2 system or_entries linux false
        (pos 0)
        "a"
        (pos 0)
        "b"
        (map constructor_index (rename_exchange ∷ []))
        at_start)
renameat2-Renames_example =
    renameat2-Renames system or_entries linux false (pos 0) "a" (pos 0) "b" (rename_exchange ∷ [])
      at_start or_entries-IsConvert
