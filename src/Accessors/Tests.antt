-- ===== src/Accessors/Tests.antt =====
-- Accessors on a string of four bytes.
use extunix.Base.{ℕ, ◌≡◌, refl, true, some, List, [], ◌∷◌, arith, length, take, drop, slice}
use extunix.Base.Int.{pos, negsuc, signed}
use extunix.Checked.{invalid_arg, ran}
use extunix.Endian.Memory.{big, little, bswap, value_le, bytes_le}
use extunix.Endian.Convert.{reading}
use extunix.Endian.Macros.{c_value, val_long}
use extunix.Accessors.{int16, uint8, int32, checked_get, checked_set}
use extunix.Accessors.Types.{read_type, boxing}
use extunix.Accessors.Bounds.{Accessed}
use extunix.Accessors.Safe.{checked_get-Accessed, checked_set-Accessed}

abbrev str : List ℕ
str = 255 ∷ 254 ∷ 1 ∷ 2 ∷ []

get_run : checked_get true big int16 str (pos 0) ≡ ran (some (negsuc 1))
unfolding checked_get slice val_long signed bswap value_le bytes_le
get_run = refl

last_run : checked_get true little uint8 str (pos 3) ≡ ran (some (pos 2))
unfolding checked_get slice val_long signed value_le
last_run = refl

past_run : checked_get true little int32 str (pos 1) ≡ invalid_arg "index out of bounds"
unfolding checked_get
past_run = refl

set_run : checked_set true big int16 str (negsuc 0) (pos 7) ≡ invalid_arg "index out of bounds"
unfolding checked_set
set_run = refl

checked_get-Accessed_example :
    Accessed int16
      (pos 1)
      4
      (λ n r.
        r
        ≡ some (boxing int16 (c_value (read_type int16) (reading true big (take 2 (drop n str))))))
      (checked_get true big int16 str (pos 1))
checked_get-Accessed_example =
    checked_get-Accessed true big int16 str (pos 1)
      (omega arith, (omega arith, (omega arith, (omega arith, tt)))) (omega arith)

checked_set-Accessed_example :
    Accessed int16
      (pos 1)
      4
      (λ n r.
        (str' : List ℕ) × (r ≡ some str')
        × (length str' ≡ 4)
        × (checked_get true big int16 str' (pos 1) ≡ ran (some (negsuc 299))))
      (checked_set true big int16 str (pos 1) (negsuc 299))
checked_set-Accessed_example =
    checked_set-Accessed true big int16 str (pos 1) (negsuc 299) (omega arith) (omega arith)
