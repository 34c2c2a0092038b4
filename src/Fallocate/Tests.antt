-- ===== src/Fallocate/Tests.antt =====
-- A file of Windows that refuses positions from 2 ^ 63 on.
use extunix.Base.{
  ℕ, ◌+◌, ◌-◌, ◌*◌, ◌/◌, ◌%◌, ◌^◌, ◌<◌, ◌≡◌, refl, none, some, arith, ltb, Bool, true, false,
}
use extunix.Base.Int.{pos, pattern}
use extunix.Base.Call.{Answer, got, failed, einval, eoverflow, other, unix_error, ok, raised}
use extunix.Base.Stub.{Post}
use extunix.Fallocate.{
  MoveMethod, SeekResult, Win32, invalid_set_file_pointer, fallocate, ftruncate_win32,
}
use extunix.Fallocate.File.{
  File, move_base, cut, Sought, moved, refused, Sized, sized, unsized, ended, IsFile,
}
use extunix.Fallocate.Ensures.{Outcome, fallocate-Outcome, ftruncate_win32-Outcome}
use extunix.Fallocate.Returns.{NeverFails, Returns, fallocate-Returns}

abbrev answer_size : File → Bool → Answer ℕ
answer_size f true = got f.size
answer_size f false = failed eoverflow

abbrev answer_seek : File → ℕ → Bool → SeekResult × File
answer_seek f n true = (
  record { low_part = n % 2 ^ 32; high_part = n / 2 ^ 32; last_error = none },
  record f { position = n },
)
answer_seek f n false =
    (record { low_part = invalid_set_file_pointer; high_part = 0; last_error = some einval }, f)

abbrev disk : Win32 File
disk = record {
  get_file_size_ex = λ f. (answer_size f (ltb f.size (2 ^ 63)), f);
  set_file_pointer = λ low high method f.
      let n = move_base method f + (low + 2 ^ 32 * high) in answer_seek f n (ltb n (2 ^ 63));
  set_end_of_file = λ f. (got tt, cut f.position f);
}

disk_size : (f : File) (b : Bool) → ltb f.size (2 ^ 63) ≡ b → Sized f (answer_size f b) f
disk_size f true e = sized (ground arith)
disk_size f false e = unsized eoverflow

disk_seek :
    (f : File) (method : MoveMethod) (to n : ℕ) (b : Bool)
    → n ≡ move_base method f + to
    → ltb n (2 ^ 63) ≡ b
    → Sought f to method (answer_seek f n b).0 (answer_seek f n b).1
disk_seek f method to n true e h =
    let small : n < 2 ^ 63 = ground arith in
    rw e (moved _ (omega arith) (omega (arith, small, e)) λ _. refl)
disk_seek f method to n false e h = refused _ einval refl refl

disk-IsFile : IsFile disk (λ f. f)
disk-IsFile = record {
  size_of = λ f. disk_size f (ltb f.size (2 ^ 63)) refl;
  seek_to = λ low high method f _ _. disk_seek f method (low + 2 ^ 32 * high) _ _ refl refl;
  end_at = λ f. ended;
}

-- A disk with no limit.
abbrev good_disk : Win32 File
good_disk = record {
  get_file_size_ex = λ f. (got f.size, f);
  set_file_pointer =
      λ low high method f. answer_seek f (move_base method f + (low + 2 ^ 32 * high)) true;
  set_end_of_file = λ f. (got tt, cut f.position f);
}

-- Ten bytes, and the pointer after the third.
abbrev ten : File
ten = record { size = 10; position = 3 }

-- Over 4 GiB, where both halves of a position count.
fallocate_grows :
    fallocate disk (pos (2 ^ 32)) (pos 5) ten ≡ (ok tt, record { size = 4294967301; position = 3 })
unfolding fallocate pattern
fallocate_grows = refl

-- A new end whose low part looks like an error.
fallocate_ones :
    fallocate disk (pos (2 ^ 32 - 1)) (pos 0) ten
    ≡ (ok tt, record { size = 4294967295; position = 3 })
unfolding fallocate pattern
fallocate_ones = refl

fallocate_fits : fallocate disk (pos 4) (pos 6) ten ≡ (ok tt, ten)
unfolding fallocate pattern
fallocate_fits = refl

-- The end cannot be set on a disk that is full: the pointer stays at the new end.
abbrev full : Win32 File
full = record disk { set_end_of_file = λ f. (failed (other 28), f) }

fallocate_no_space :
    fallocate full (pos 4) (pos 16) ten
    ≡ (raised (unix_error (other 28) "fallocate"), record { size = 10; position = 20 })
unfolding fallocate pattern
fallocate_no_space = refl

ftruncate_shrinks : ftruncate_win32 disk (pos 4) ten ≡ (ok tt, record { size = 4; position = 3 })
unfolding ftruncate_win32 pattern
ftruncate_shrinks = refl

fallocate-Outcome_example :
    Post (λ r f. Outcome "fallocate" ten 20 r f) (fallocate disk (pos 4) (pos 16) ten)
fallocate-Outcome_example = fallocate-Outcome disk (λ f. f) disk-IsFile 4 16 ten (omega arith)

ftruncate_win32-Outcome_example :
    Post (λ r f. Outcome "ftruncate" ten 4 r f) (ftruncate_win32 disk (pos 4) ten)
ftruncate_win32-Outcome_example =
    ftruncate_win32-Outcome disk (λ f. f) disk-IsFile 4 ten (omega arith)

disk-NeverFails : NeverFails good_disk
disk-NeverFails = record {
  sizes = λ f. (f.size, refl);
  seeks = λ low high method f. refl;
  ends = λ f. refl;
}

fallocate-Returns_example : Post Returns (fallocate good_disk (pos 4) (pos 16) ten)
fallocate-Returns_example = fallocate-Returns good_disk disk-NeverFails (pos 4) (pos 16) ten
