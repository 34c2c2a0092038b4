-- ===== src/Endian/Tests.antt =====
-- Concrete strings: runs of the accessors, and the theorems at concrete inputs.
use extunix.Base.{
  ℕ, ◌≡◌, refl, true, false, inr, some, none, List, [], ◌∷◌, arith, length, slice, memcpy,
}
use extunix.Base.Int.{pos, negsuc, pattern, signed}
use extunix.Endian.Memory.{little, big, bytes_le, bswap, value_le}
use extunix.Endian.Macros.{c_value, c_pattern, val_long, get, set, int16, uint16, uint32}
use extunix.Endian.Getters
use extunix.Endian.Setters
use extunix.Endian.Bigarray.Get
use extunix.Endian.Bigarray.Set
use extunix.Endian.Bigarray.RoundTrip.{get_s64-set_64}
use extunix.Endian.RoundTrip.{get-set}
use extunix.Endian.Places.{get-set_apart}

abbrev str : List ℕ
str = 255 ∷ 254 ∷ 3 ∷ 4 ∷ 5 ∷ 6 ∷ 7 ∷ 8 ∷ 9 ∷ 10 ∷ []

get_bs16_run : Getters.get_bs16 true str 0 ≡ some (negsuc 1)
unfolding Getters.get_bs16 slice val_long signed pattern bswap value_le bytes_le
get_bs16_run = refl

get_lu16_run : Getters.get_lu16 false str 0 ≡ some (pos 65279)
unfolding Getters.get_lu16 slice val_long signed pattern bswap value_le bytes_le
get_lu16_run = refl

get_outside_run : Getters.get_lu16 false str 9 ≡ none
unfolding Getters.get_lu16 slice
get_outside_run = refl

set_l16_run :
    Setters.set_l16 true str 1 (negsuc 1) ≡ some (255 ∷ 254 ∷ 255 ∷ 4 ∷ 5 ∷ 6 ∷ 7 ∷ 8 ∷ 9 ∷ 10 ∷ [])
unfolding Setters.set_l16 memcpy bytes_le pattern
set_l16_run = refl

get-set_example :
    (str' : List ℕ) × (set false uint16 big str 3 (negsuc 4) ≡ some str')
    × (get false int16 big val_long str' 3
        ≡ some (val_long (c_value int16 (c_pattern uint16 (negsuc 4)))))
get-set_example = get-set false uint16 int16 big val_long str 3 (negsuc 4) refl (omega arith)

get-set_apart_example :
    (str' : List ℕ) × (set true uint32 big str 1 (pos 7) ≡ some str')
    × (length str' ≡ length str)
    × (get true int16 little val_long str' 5 ≡ get true int16 little val_long str 5)
get-set_apart_example =
    get-set_apart true uint32 int16 big little val_long str 1 5 (pos 7) (omega arith)
      (inr (omega arith))

get_s64-set_64_example :
    ((buf' : List ℕ) × (Set.set_b64 false str 1 (pos 9) ≡ some buf')
      × (Get.get_bs64 false buf' 1 ≡ some (pos 9)))
    × ((buf' : List ℕ) × (Set.set_l64 false str 1 (pos 9) ≡ some buf')
        × (Get.get_ls64 false buf' 1 ≡ some (pos 9)))
    × ((buf' : List ℕ) × (Set.set_h64 false str 1 (pos 9) ≡ some buf')
        × (Get.get_hs64 false buf' 1 ≡ some (pos 9)))
get_s64-set_64_example = get_s64-set_64 false str 1 (pos 9) (omega arith) (omega arith)
