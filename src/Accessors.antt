-- ===== src/Accessors.antt =====
-- src/extUnix.pp.ml: the accessors of the modules BigEndian, LittleEndian and HostEndian, which check
-- the offset in front of src/endian.c.
pub mod Types
pub mod Bounds
pub mod Safe
mod Tests
use extunix.Base.{ℕ, Bool, not, ◌||◌, Option, List, length, if◌then◌else◌}
use extunix.Base.Int.{ℤ, pos, pattern}
use extunix.Checked.{Checked, invalid_arg, ran, is_negative, room, is_above, word}
use extunix.Endian.Memory.{Order, big, little, host}
use extunix.Endian.Getters.{
  get_bs16, get_bs31, get_bs32, get_bs63, get_bs64, get_bu16, get_bu31, get_bu63, get_hs16,
  get_hs31, get_hs32, get_hs63, get_hs64, get_hu16, get_hu31, get_hu63, get_ls16, get_ls31,
  get_ls32, get_ls63, get_ls64, get_lu16, get_lu31, get_lu63, get_s8, get_u8,
}
use extunix.Endian.Setters.{
  set_8, set_b16, set_b31, set_b32, set_b63, set_b64, set_h16, set_h31, set_h32, set_h63, set_h64,
  set_l16, set_l31, set_l32, set_l63, set_l64,
}

-- The `X` of `get_X` and `set_X`.
pub data Kind : Type 0 where
  uint8 int8 uint16 int16 uint31 int31 int32 uint63 int63 int64 : Kind

-- `off >= String.length str` for one byte, and `off > String.length str - n` for more.
abbrev pub is_past : Kind → ℤ → ℕ → Bool
is_past uint8 off size = not (is_above (pos size) off)
is_past int8 off size = not (is_above (pos size) off)
is_past uint16 off size = is_above off (room size (pos 2))
is_past int16 off size = is_above off (room size (pos 2))
is_past uint31 off size = is_above off (room size (pos 4))
is_past int31 off size = is_above off (room size (pos 4))
is_past int32 off size = is_above off (room size (pos 4))
is_past uint63 off size = is_above off (room size (pos 8))
is_past int63 off size = is_above off (room size (pos 8))
is_past int64 off size = is_above off (room size (pos 8))

-- `raise (Invalid_argument "index out of bounds")`, or the accessor without a check.
unfoldable pub checked_access : {A : Type 0} → Kind → ℕ → ℤ → (ℕ → A) → Checked A
unfolding pattern
checked_access kind size off access =
    if is_negative off || is_past kind off size
    then invalid_arg "index out of bounds"
    else ran (access (word off))

-- The order is that of the module; the host's is little if `h` is.
module _ (h : Bool) where
  -- The externals; an access outside the string is `none`.
  unfoldable pub unsafe_get : Order → Kind → List ℕ → ℕ → Option ℤ
  unfolding get_bs16 get_bs31 get_bs32 get_bs63 get_bs64 get_bu16 get_bu31 get_bu63 get_hs16
      get_hs31 get_hs32 get_hs63 get_hs64 get_hu16 get_hu31 get_hu63 get_ls16 get_ls31 get_ls32
      get_ls63 get_ls64 get_lu16 get_lu31 get_lu63 get_s8 get_u8
  unsafe_get big uint8 = get_u8 h
  unsafe_get big int8 = get_s8 h
  unsafe_get big uint16 = get_bu16 h
  unsafe_get big int16 = get_bs16 h
  unsafe_get big uint31 = get_bu31 h
  unsafe_get big int31 = get_bs31 h
  unsafe_get big int32 = get_bs32 h
  unsafe_get big uint63 = get_bu63 h
  unsafe_get big int63 = get_bs63 h
  unsafe_get big int64 = get_bs64 h
  unsafe_get little uint8 = get_u8 h
  unsafe_get little int8 = get_s8 h
  unsafe_get little uint16 = get_lu16 h
  unsafe_get little int16 = get_ls16 h
  unsafe_get little uint31 = get_lu31 h
  unsafe_get little int31 = get_ls31 h
  unsafe_get little int32 = get_ls32 h
  unsafe_get little uint63 = get_lu63 h
  unsafe_get little int63 = get_ls63 h
  unsafe_get little int64 = get_ls64 h
  unsafe_get host uint8 = get_u8 h
  unsafe_get host int8 = get_s8 h
  unsafe_get host uint16 = get_hu16 h
  unsafe_get host int16 = get_hs16 h
  unsafe_get host uint31 = get_hu31 h
  unsafe_get host int31 = get_hs31 h
  unsafe_get host int32 = get_hs32 h
  unsafe_get host uint63 = get_hu63 h
  unsafe_get host int63 = get_hs63 h
  unsafe_get host int64 = get_hs64 h

  unfoldable pub unsafe_set : Order → Kind → List ℕ → ℕ → ℤ → Option (List ℕ)
  unfolding set_8 set_b16 set_b31 set_b32 set_b63 set_b64 set_h16 set_h31 set_h32 set_h63 set_h64
      set_l16 set_l31 set_l32 set_l63 set_l64
  unsafe_set big uint8 = set_8 h
  unsafe_set big int8 = set_8 h
  unsafe_set big uint16 = set_b16 h
  unsafe_set big int16 = set_b16 h
  unsafe_set big uint31 = set_b31 h
  unsafe_set big int31 = set_b31 h
  unsafe_set big int32 = set_b32 h
  unsafe_set big uint63 = set_b63 h
  unsafe_set big int63 = set_b63 h
  unsafe_set big int64 = set_b64 h
  unsafe_set little uint8 = set_8 h
  unsafe_set little int8 = set_8 h
  unsafe_set little uint16 = set_l16 h
  unsafe_set little int16 = set_l16 h
  unsafe_set little uint31 = set_l31 h
  unsafe_set little int31 = set_l31 h
  unsafe_set little int32 = set_l32 h
  unsafe_set little uint63 = set_l63 h
  unsafe_set little int63 = set_l63 h
  unsafe_set little int64 = set_l64 h
  unsafe_set host uint8 = set_8 h
  unsafe_set host int8 = set_8 h
  unsafe_set host uint16 = set_h16 h
  unsafe_set host int16 = set_h16 h
  unsafe_set host uint31 = set_h31 h
  unsafe_set host int31 = set_h31 h
  unsafe_set host int32 = set_h32 h
  unsafe_set host uint63 = set_h63 h
  unsafe_set host int63 = set_h63 h
  unsafe_set host int64 = set_h64 h

  -- `get_X` and `set_X`
  unfoldable pub checked_get : Order → Kind → List ℕ → ℤ → Checked (Option ℤ)
  unfolding unsafe_get checked_access
  checked_get order kind str off =
      checked_access kind (length str) off λ n. unsafe_get order kind str n

  unfoldable pub checked_set : Order → Kind → List ℕ → ℤ → ℤ → Checked (Option (List ℕ))
  unfolding unsafe_set checked_access
  checked_set order kind str off v =
      checked_access kind (length str) off λ n. unsafe_set order kind str n v
