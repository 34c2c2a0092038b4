-- ===== src/Endian/Bigarray.antt =====
-- src/endianba.c: the macros `GET` and `SET` over the bytes of a bigarray.
pub mod Get
pub mod Set
pub mod RoundTrip
use extunix.Base.{ℕ, Bool, Option, List, slice, memcpy}
use extunix.Base.Int.{ℤ}
use extunix.Endian.Memory.{load, store, Order, convert}
use extunix.Endian.Macros.{CType, c_value, c_pattern}
use mathlib.Core.Option

-- `none` is an access outside the bigarray; the host's byte order is little if `h` is.
module _ (h : Bool) where
  unfoldable pub get : CType → Order → (ℤ → ℤ) → List ℕ → ℕ → Option ℤ
  unfolding convert c_value load
  get t o val_type buf off =
      Option.map (λ bytes. val_type (c_value t (convert h o t.size (load h bytes))))
        (slice buf off t.size)

  unfoldable pub set : CType → Order → List ℕ → ℕ → ℤ → Option (List ℕ)
  unfolding convert c_pattern store
  set t o buf off z = memcpy buf off (store h t.size (convert h o t.size (c_pattern t z)))
