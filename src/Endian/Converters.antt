-- ===== src/Endian/Converters.antt =====
-- The conversions of one integer of src/endian.c, instances of its macros.
use extunix.Base.{Bool}
use extunix.Base.Int.{ℤ}
use extunix.Endian.Memory.{big, little}
use extunix.Endian.Macros.{uint16, int16, uint32, int32, int64, val_long, copy_int, conv}

module _ (h : Bool) where
  unfoldable pub htobe16 : ℤ → ℤ
  unfolding conv
  htobe16 = conv h uint16 big val_long

  unfoldable pub htobe16_signed : ℤ → ℤ
  unfolding conv
  htobe16_signed = conv h int16 big val_long

  unfoldable pub be16toh : ℤ → ℤ
  unfolding conv
  be16toh = conv h uint16 big val_long

  unfoldable pub be16toh_signed : ℤ → ℤ
  unfolding conv
  be16toh_signed = conv h int16 big val_long

  unfoldable pub htobe31 : ℤ → ℤ
  unfolding conv
  htobe31 = conv h uint32 big val_long

  unfoldable pub htobe31_signed : ℤ → ℤ
  unfolding conv
  htobe31_signed = conv h int32 big val_long

  unfoldable pub be31toh : ℤ → ℤ
  unfolding conv
  be31toh = conv h uint32 big val_long

  unfoldable pub be31toh_signed : ℤ → ℤ
  unfolding conv
  be31toh_signed = conv h int32 big val_long

  unfoldable pub htobe32 : ℤ → ℤ
  unfolding conv
  htobe32 = conv h int32 big copy_int

  unfoldable pub be32toh : ℤ → ℤ
  unfolding conv
  be32toh = conv h int32 big copy_int

  unfoldable pub htobe64 : ℤ → ℤ
  unfolding conv
  htobe64 = conv h int64 big copy_int

  unfoldable pub be64toh : ℤ → ℤ
  unfolding conv
  be64toh = conv h int64 big copy_int

  unfoldable pub htole16 : ℤ → ℤ
  unfolding conv
  htole16 = conv h uint16 little val_long

  unfoldable pub htole16_signed : ℤ → ℤ
  unfolding conv
  htole16_signed = conv h int16 little val_long

  unfoldable pub le16toh : ℤ → ℤ
  unfolding conv
  le16toh = conv h uint16 little val_long

  unfoldable pub le16toh_signed : ℤ → ℤ
  unfolding conv
  le16toh_signed = conv h int16 little val_long

  unfoldable pub htole31 : ℤ → ℤ
  unfolding conv
  htole31 = conv h uint32 little val_long

  unfoldable pub htole31_signed : ℤ → ℤ
  unfolding conv
  htole31_signed = conv h int32 little val_long

  unfoldable pub le31toh : ℤ → ℤ
  unfolding conv
  le31toh = conv h uint32 little val_long

  unfoldable pub le31toh_signed : ℤ → ℤ
  unfolding conv
  le31toh_signed = conv h int32 little val_long

  unfoldable pub htole32 : ℤ → ℤ
  unfolding conv
  htole32 = conv h int32 little copy_int

  unfoldable pub le32toh : ℤ → ℤ
  unfolding conv
  le32toh = conv h int32 little copy_int

  unfoldable pub htole64 : ℤ → ℤ
  unfolding conv
  htole64 = conv h int64 little copy_int

  unfoldable pub le64toh : ℤ → ℤ
  unfolding conv
  le64toh = conv h int64 little copy_int
