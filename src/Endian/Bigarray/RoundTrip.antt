-- ===== src/Endian/Bigarray/RoundTrip.antt =====
-- Round trips through a bigarray.
use extunix.Base.{ℕ, ◌+◌, ◌^◌, ◌≤◌, ◌≡◌, refl, ap, ◌∙◌, Bool, some, List, length}
use extunix.Base.Int.{ℤ, InSigned, signed-pattern}
use extunix.Endian.Memory.{Order, big, little, host}
use extunix.Endian.Macros
use extunix.Endian.Macros.{CType, c_value, c_pattern, copy_int, int32, uint32, int64, uint64}
use extunix.Endian.RoundTrip.{get-set}
use extunix.Endian.Bigarray
use extunix.Endian.Bigarray.Get
use extunix.Endian.Bigarray.Set

-- A bigarray and a string with the same bytes are read and written alike.
ba_get-get :
    (h : Bool) (t : CType) (o : Order) (val_type : ℤ → ℤ) (buf : List ℕ) (off : ℕ)
    → Bigarray.get h t o val_type buf off ≡ Macros.get h t o val_type buf off
unfolding Bigarray.get Macros.get
ba_get-get h t o val_type buf off = refl

ba_set-set :
    (h : Bool) (t : CType) (o : Order) (buf : List ℕ) (off : ℕ) (z : ℤ)
    → Bigarray.set h t o buf off z ≡ Macros.set h t o buf off z
unfolding Bigarray.set Macros.set
ba_set-set h t o buf off z = refl

boxed :
    (h : Bool) (u s : CType) (o : Order) (buf : List ℕ) (off : ℕ) (z : ℤ)
    → s.size ≡ u.size
    → off + u.size ≤ length buf
    → c_value s (c_pattern u z) ≡ z
    → (buf' : List ℕ) × (Bigarray.set h u o buf off z ≡ some buf')
      × (Bigarray.get h s o copy_int buf' off ≡ some z)
unfolding copy_int
boxed h u s o buf off z e inside same =
    let r = get-set h u s o copy_int buf off z e inside in
    (r.0, ba_set-set h u o buf off z ∙ r.1, ba_get-get h s o copy_int r.0 off ∙ r.2 ∙ ap some same)

value32 : (z : ℤ) → InSigned (2 ^ 31) z → c_value int32 (c_pattern uint32 z) ≡ z
unfolding c_value c_pattern
value32 z r = signed-pattern (2 ^ 31) z r

value64 : (z : ℤ) → InSigned (2 ^ 63) z → c_value int64 (c_pattern uint64 z) ≡ z
unfolding c_value c_pattern
value64 z r = signed-pattern (2 ^ 63) z r

-- Every `int32` that one of the three setters for 32 bits writes inside a bigarray is read back by
-- the getter for its byte order.
pub get_s32-set_32 :
    (h : Bool) (buf : List ℕ) (off : ℕ) (z : ℤ)
    → InSigned (2 ^ 31) z
    → off + 4 ≤ length buf
    → ((buf' : List ℕ) × (Set.set_b32 h buf off z ≡ some buf') × (Get.get_bs32 h buf' off ≡ some z))
      × ((buf' : List ℕ) × (Set.set_l32 h buf off z ≡ some buf')
          × (Get.get_ls32 h buf' off ≡ some z))
      × ((buf' : List ℕ) × (Set.set_h32 h buf off z ≡ some buf')
          × (Get.get_hs32 h buf' off ≡ some z))
unfolding Set.set_b32 Set.set_l32 Set.set_h32 Get.get_bs32 Get.get_ls32 Get.get_hs32
get_s32-set_32 h buf off z r inside = (
  boxed h uint32 int32 big buf off z refl inside (value32 z r),
  boxed h uint32 int32 little buf off z refl inside (value32 z r),
  boxed h uint32 int32 host buf off z refl inside (value32 z r),
)

-- Every `int64` that one of the three setters for 64 bits writes inside a bigarray is read back by
-- the getter for its byte order.
pub get_s64-set_64 :
    (h : Bool) (buf : List ℕ) (off : ℕ) (z : ℤ)
    → InSigned (2 ^ 63) z
    → off + 8 ≤ length buf
    → ((buf' : List ℕ) × (Set.set_b64 h buf off z ≡ some buf') × (Get.get_bs64 h buf' off ≡ some z))
      × ((buf' : List ℕ) × (Set.set_l64 h buf off z ≡ some buf')
          × (Get.get_ls64 h buf' off ≡ some z))
      × ((buf' : List ℕ) × (Set.set_h64 h buf off z ≡ some buf')
          × (Get.get_hs64 h buf' off ≡ some z))
unfolding Set.set_b64 Set.set_l64 Set.set_h64 Get.get_bs64 Get.get_ls64 Get.get_hs64
get_s64-set_64 h buf off z r inside = (
  boxed h uint64 int64 big buf off z refl inside (value64 z r),
  boxed h uint64 int64 little buf off z refl inside (value64 z r),
  boxed h uint64 int64 host buf off z refl inside (value64 z r),
)
