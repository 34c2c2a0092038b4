-- ===== src/Endian/Macros.antt =====
-- The macros `CONV`, `GET` and `SET` of src/endian.c and their instances.
use extunix.Base.{ℕ, ◌^◌, Bool, true, false, Option, List, if◌then◌else◌, slice, memcpy}
use extunix.Base.Int.{ℤ, pos, pattern, signed}
use extunix.Endian.Memory.{patterns, load, store, Order, convert}
use mathlib.Core.Option

-- An integer type of C: its size in bytes and whether it has a sign.
pub record CType : Type 0 where
  pub size : ℕ
  pub is_signed : Bool

abbrev pub uint8 : CType
uint8 = record { size = 1; is_signed = false }

abbrev pub int8 : CType
int8 = record { size = 1; is_signed = true }

abbrev pub uint16 : CType
uint16 = record { size = 2; is_signed = false }

abbrev pub int16 : CType
int16 = record { size = 2; is_signed = true }

abbrev pub uint32 : CType
uint32 = record { size = 4; is_signed = false }

abbrev pub int32 : CType
int32 = record { size = 4; is_signed = true }

abbrev pub uint64 : CType
uint64 = record { size = 8; is_signed = false }

abbrev pub int64 : CType
int64 = record { size = 8; is_signed = true }

-- The integer that a pattern stands for.
unfoldable pub c_value : CType → ℕ → ℤ
c_value t x = if t.is_signed then signed (patterns t.size) x else pos x

-- `Val_long`: an `int` of OCaml has 63 bits, and the top bit of a longer value is lost.
unfoldable pub val_long : ℤ → ℤ
val_long z = signed (2 ^ 63) (pattern (2 ^ 63) z)

-- `caml_copy_int32` and `caml_copy_int64` box the value of an `int32_t` or `int64_t` as it is.
unfoldable pub copy_int : ℤ → ℤ
copy_int z = z

-- `Long_val`, `Int32_val` and `Int64_val` give the integer; the declaration `type x` converts it.
unfoldable pub c_pattern : CType → ℤ → ℕ
c_pattern t z = pattern (patterns t.size) z

-- The host's byte order is a parameter: it is little if `h` is.
module _ (h : Bool) where
  unfoldable pub conv : CType → Order → (ℤ → ℤ) → ℤ → ℤ
  unfolding convert c_value c_pattern
  conv t o val_type z = val_type (c_value t (convert h o t.size (c_pattern t z)))

  -- `none` is an access outside the string.
  unfoldable pub get : CType → Order → (ℤ → ℤ) → List ℕ → ℕ → Option ℤ
  unfolding convert c_value load
  get t o val_type str off =
      Option.map (λ bytes. val_type (c_value t (convert h o t.size (load h bytes))))
        (slice str off t.size)

  unfoldable pub set : CType → Order → List ℕ → ℕ → ℤ → Option (List ℕ)
  unfolding convert c_pattern store
  set t o str off z = memcpy str off (store h t.size (convert h o t.size (c_pattern t z)))
