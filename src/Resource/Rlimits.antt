-- ===== src/Resource/Rlimits.antt =====
-- The module Rlimit of src/extUnix.pp.ml: limits that are compared and printed.
pub mod Order
pub mod Parts
mod Tests
use extunix.Base.{
  ℕ, zero, suc, ◌+◌, ◌/◌, ◌%◌, Bool, false, not, Option, none, some, List, [], ◌∷◌, ltb, leb, ◌==◌,
  if◌then◌else◌,
}
use extunix.Base.Int.{ℤ, pos, negsuc}
use extunix.Checked.{is_negative}
use mathlib.Core.List.{foldl}

-- `Int64.compare`; below, at and above are -1, 0 and 1.
abbrev pub below : ℤ
below = negsuc 0

abbrev sign : Bool → Bool → ℤ
sign is_below is_same = if is_below then below else if is_same then pos 0 else pos 1

abbrev pub compare_int64 : ℤ → ℤ → ℤ
compare_int64 (pos n) (pos m) = sign (ltb n m) (n == m)
compare_int64 (pos n) (negsuc m) = pos 1
compare_int64 (negsuc n) (pos m) = below
compare_int64 (negsuc n) (negsuc m) = sign (ltb m n) (n == m)

unfoldable pub compare_limits : Option ℤ → Option ℤ → ℤ
compare_limits (some l1) (some l2) = compare_int64 l1 l2
compare_limits none none = pos 0
compare_limits (some l1) none = below
compare_limits none (some l2) = pos 1

abbrev equals_zero : ℤ → Bool
equals_zero (pos n) = n == 0
equals_zero (negsuc n) = false

abbrev is_positive : ℤ → Bool
is_positive (pos n) = ltb 0 n
is_positive (negsuc n) = false

-- `eq`, `gt`, `ge`, `lt` and `le`
unfoldable pub eq : Option ℤ → Option ℤ → Bool
unfolding compare_limits
eq l1 l2 = equals_zero (compare_limits l1 l2)

unfoldable pub gt : Option ℤ → Option ℤ → Bool
unfolding compare_limits
gt l1 l2 = is_positive (compare_limits l1 l2)

unfoldable pub ge : Option ℤ → Option ℤ → Bool
unfolding compare_limits
ge l1 l2 = not (is_negative (compare_limits l1 l2))

unfoldable pub lt : Option ℤ → Option ℤ → Bool
unfolding compare_limits
lt l1 l2 = is_negative (compare_limits l1 l2)

unfoldable pub le : Option ℤ → Option ℤ → Bool
unfolding compare_limits
le l1 l2 = not (is_positive (compare_limits l1 l2))

-- The units "B", "KB", "MB", "GB" and "TB"
pub data ByteUnit : Type 0 where
  b kb mb gb tb : ByteUnit

-- `Int64.div sz 1024L` and `Int64.rem sz 1024L`, which round to 0.
abbrev negative : ℕ → ℤ
negative zero = pos 0
negative (suc n) = negsuc n

abbrev div_1024 : ℤ → ℤ
div_1024 (pos n) = pos (n / 1024)
div_1024 (negsuc n) = negative ((n + 1) / 1024)

abbrev rem_1024 : ℤ → ℤ
rem_1024 (pos n) = pos (n % 1024)
rem_1024 (negsuc n) = negative ((n + 1) % 1024)

-- The texts of `acc` before they are printed: numbers and their units.
abbrev add_part : ℤ → ByteUnit → List (ℤ × ByteUnit) → List (ℤ × ByteUnit)
add_part r e acc = if equals_zero r then acc else (r, e) ∷ acc

-- The function that `List.fold_left` runs over the units.
abbrev part : ℤ × List (ℤ × ByteUnit) → ByteUnit → ℤ × List (ℤ × ByteUnit)
part (sz, acc) e = (div_1024 sz, add_part (rem_1024 sz) e acc)

-- The last match: no text is "0 B".
abbrev or_none : List (ℤ × ByteUnit) → List (ℤ × ByteUnit)
or_none [] = (pos 0, b) ∷ []
or_none (p ∷ acc) = p ∷ acc

unfoldable pub string_of_bytes : ℤ → List (ℤ × ByteUnit)
string_of_bytes n =
    let (sz, acc) = foldl part (n, []) (b ∷ kb ∷ mb ∷ gb ∷ []) in or_none (add_part sz tb acc)
