-- ===== src/Endian/Bigarray/Get.antt =====
-- The functions that read a bigarray of src/endianba.c, instances of its macros.
use extunix.Base.{ℕ, Bool, Option, List}
use extunix.Base.Int.{ℤ}
use extunix.Endian.Memory.{big, little, host}
use extunix.Endian.Macros.{
  uint8, int8, uint16, int16, uint32, int32, uint64, int64, val_long, copy_int,
}
use extunix.Endian.Bigarray.{get}

module _ (h : Bool) where
  unfoldable pub get_bu16 : List ℕ → ℕ → Option ℤ
  unfolding get
  get_bu16 = get h uint16 big val_long

  unfoldable pub get_bs16 : List ℕ → ℕ → Option ℤ
  unfolding get
  get_bs16 = get h int16 big val_long

  unfoldable pub get_bu31 : List ℕ → ℕ → Option ℤ
  unfolding get
  get_bu31 = get h uint32 big val_long

  unfoldable pub get_bs31 : List ℕ → ℕ → Option ℤ
  unfolding get
  get_bs31 = get h int32 big val_long

  unfoldable pub get_bs32 : List ℕ → ℕ → Option ℤ
  unfolding get
  get_bs32 = get h int32 big copy_int

  unfoldable pub get_bu63 : List ℕ → ℕ → Option ℤ
  unfolding get
  get_bu63 = get h uint64 big val_long

  unfoldable pub get_bs63 : List ℕ → ℕ → Option ℤ
  unfolding get
  get_bs63 = get h int64 big val_long

  unfoldable pub get_bs64 : List ℕ → ℕ → Option ℤ
  unfolding get
  get_bs64 = get h int64 big copy_int

  unfoldable pub get_lu16 : List ℕ → ℕ → Option ℤ
  unfolding get
  get_lu16 = get h uint16 little val_long

  unfoldable pub get_ls16 : List ℕ → ℕ → Option ℤ
  unfolding get
  get_ls16 = get h int16 little val_long

  unfoldable pub get_lu31 : List ℕ → ℕ → Option ℤ
  unfolding get
  get_lu31 = get h uint32 little val_long

  unfoldable pub get_ls31 : List ℕ → ℕ → Option ℤ
  unfolding get
  get_ls31 = get h int32 little val_long

  unfoldable pub get_ls32 : List ℕ → ℕ → Option ℤ
  unfolding get
  get_ls32 = get h int32 little copy_int

  unfoldable pub get_lu63 : List ℕ → ℕ → Option ℤ
  unfolding get
  get_lu63 = get h uint64 little val_long

  unfoldable pub get_ls63 : List ℕ → ℕ → Option ℤ
  unfolding get
  get_ls63 = get h int64 little val_long

  unfoldable pub get_ls64 : List ℕ → ℕ → Option ℤ
  unfolding get
  get_ls64 = get h int64 little copy_int

  unfoldable pub get_u8 : List ℕ → ℕ → Option ℤ
  unfolding get
  get_u8 = get h uint8 host val_long

  unfoldable pub get_s8 : List ℕ → ℕ → Option ℤ
  unfolding get
  get_s8 = get h int8 host val_long

  unfoldable pub get_hu16 : List ℕ → ℕ → Option ℤ
  unfolding get
  get_hu16 = get h uint16 host val_long

  unfoldable pub get_hs16 : List ℕ → ℕ → Option ℤ
  unfolding get
  get_hs16 = get h int16 host val_long

  unfoldable pub get_hu31 : List ℕ → ℕ → Option ℤ
  unfolding get
  get_hu31 = get h uint32 host val_long

  unfoldable pub get_hs31 : List ℕ → ℕ → Option ℤ
  unfolding get
  get_hs31 = get h int32 host val_long

  unfoldable pub get_hs32 : List ℕ → ℕ → Option ℤ
  unfolding get
  get_hs32 = get h int32 host copy_int

  unfoldable pub get_hu63 : List ℕ → ℕ → Option ℤ
  unfolding get
  get_hu63 = get h uint64 host val_long

  unfoldable pub get_hs63 : List ℕ → ℕ → Option ℤ
  unfolding get
  get_hs63 = get h int64 host val_long

  unfoldable pub get_hs64 : List ℕ → ℕ → Option ℤ
  unfolding get
  get_hs64 = get h int64 host copy_int
