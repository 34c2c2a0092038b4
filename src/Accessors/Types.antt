-- ===== src/Accessors/Types.antt =====
-- What `GET` and `SET` of src/endian.c have for each accessor.
use extunix.Base.{◌≡◌, refl, Bool}
use extunix.Base.Int.{ℤ}
use extunix.Endian.Memory.{Order, big, little, host}
use extunix.Endian.Macros.{CType, c_value, c_pattern, val_long, copy_int, get, set}
use extunix.Endian.Macros
use extunix.Accessors.{
  Kind, uint8, int8, uint16, int16, uint31, int31, int32, uint63, int63, int64, unsafe_get,
  unsafe_set,
}

-- The type that `GET` and `SET` have for an accessor, and the conversion to OCaml.
abbrev pub read_type : Kind → CType
read_type uint8 = Macros.uint8
read_type int8 = Macros.int8
read_type uint16 = Macros.uint16
read_type int16 = Macros.int16
read_type uint31 = Macros.uint32
read_type int31 = Macros.int32
read_type int32 = Macros.int32
read_type uint63 = Macros.uint64
read_type int63 = Macros.int64
read_type int64 = Macros.int64

abbrev pub write_type : Kind → CType
write_type uint8 = Macros.uint8
write_type int8 = Macros.uint8
write_type uint16 = Macros.uint16
write_type int16 = Macros.uint16
write_type uint31 = Macros.uint32
write_type int31 = Macros.uint32
write_type int32 = Macros.uint32
write_type uint63 = Macros.uint64
write_type int63 = Macros.uint64
write_type int64 = Macros.uint64

abbrev pub boxing : Kind → ℤ → ℤ
boxing int32 z = copy_int z
boxing int64 z = copy_int z
boxing uint8 z = val_long z
boxing int8 z = val_long z
boxing uint16 z = val_long z
boxing int16 z = val_long z
boxing uint31 z = val_long z
boxing int31 z = val_long z
boxing uint63 z = val_long z
boxing int63 z = val_long z

-- One byte has no order.
abbrev pub order_of : Order → Kind → Order
order_of o uint8 = host
order_of o int8 = host
order_of o uint16 = o
order_of o int16 = o
order_of o uint31 = o
order_of o int31 = o
order_of o int32 = o
order_of o uint63 = o
order_of o int63 = o
order_of o int64 = o

pub unsafe_get-get :
    (h : Bool) (o : Order) (k : Kind)
    → unsafe_get h o k ≡ get h (read_type k) (order_of o k) (boxing k)
unfolding unsafe_get
unsafe_get-get h big uint8 = refl
unsafe_get-get h big int8 = refl
unsafe_get-get h big uint16 = refl
unsafe_get-get h big int16 = refl
unsafe_get-get h big uint31 = refl
unsafe_get-get h big int31 = refl
unsafe_get-get h big int32 = refl
unsafe_get-get h big uint63 = refl
unsafe_get-get h big int63 = refl
unsafe_get-get h big int64 = refl
unsafe_get-get h little uint8 = refl
unsafe_get-get h little int8 = refl
unsafe_get-get h little uint16 = refl
unsafe_get-get h little int16 = refl
unsafe_get-get h little uint31 = refl
unsafe_get-get h little int31 = refl
unsafe_get-get h little int32 = refl
unsafe_get-get h little uint63 = refl
unsafe_get-get h little int63 = refl
unsafe_get-get h little int64 = refl
unsafe_get-get h host uint8 = refl
unsafe_get-get h host int8 = refl
unsafe_get-get h host uint16 = refl
unsafe_get-get h host int16 = refl
unsafe_get-get h host uint31 = refl
unsafe_get-get h host int31 = refl
unsafe_get-get h host int32 = refl
unsafe_get-get h host uint63 = refl
unsafe_get-get h host int63 = refl
unsafe_get-get h host int64 = refl

pub unsafe_set-set :
    (h : Bool) (o : Order) (k : Kind) → unsafe_set h o k ≡ set h (write_type k) (order_of o k)
unfolding unsafe_set
unsafe_set-set h big uint8 = refl
unsafe_set-set h big int8 = refl
unsafe_set-set h big uint16 = refl
unsafe_set-set h big int16 = refl
unsafe_set-set h big uint31 = refl
unsafe_set-set h big int31 = refl
unsafe_set-set h big int32 = refl
unsafe_set-set h big uint63 = refl
unsafe_set-set h big int63 = refl
unsafe_set-set h big int64 = refl
unsafe_set-set h little uint8 = refl
unsafe_set-set h little int8 = refl
unsafe_set-set h little uint16 = refl
unsafe_set-set h little int16 = refl
unsafe_set-set h little uint31 = refl
unsafe_set-set h little int31 = refl
unsafe_set-set h little int32 = refl
unsafe_set-set h little uint63 = refl
unsafe_set-set h little int63 = refl
unsafe_set-set h little int64 = refl
unsafe_set-set h host uint8 = refl
unsafe_set-set h host int8 = refl
unsafe_set-set h host uint16 = refl
unsafe_set-set h host int16 = refl
unsafe_set-set h host uint31 = refl
unsafe_set-set h host int31 = refl
unsafe_set-set h host int32 = refl
unsafe_set-set h host uint63 = refl
unsafe_set-set h host int63 = refl
unsafe_set-set h host int64 = refl

pub same_size : (k : Kind) → (read_type k).size ≡ (write_type k).size
same_size uint8 = refl
same_size int8 = refl
same_size uint16 = refl
same_size int16 = refl
same_size uint31 = refl
same_size int31 = refl
same_size int32 = refl
same_size uint63 = refl
same_size int63 = refl
same_size int64 = refl
