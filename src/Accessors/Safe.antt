-- ===== src/Accessors/Safe.antt =====
-- The accessors that check their offset: no access outside the string, and round trips.
use extunix.Base.{
  ℕ, ◌+◌, ◌^◌, ◌≤◌, ◌<◌, ◌≡◌, refl, ap, ◌∙◌, Bool, true, false, some, List, arith, length, take,
  drop, overwrite, length-overwrite,
}
use extunix.Base.Int.{ℤ, pos, negsuc, InSigned, signed-pattern}
use extunix.Checked.{ran}
use extunix.Endian.Memory.{patterns, store, Order, convert, IsBytes}
use extunix.Endian.Convert.{reading}
use extunix.Endian.Macros.{CType, c_value, c_pattern, val_long, copy_int, get, set}
use extunix.Endian.Macros
use extunix.Endian.Laws.{get-reading, set-fits, get_of_stored}
use extunix.Endian.RoundTrip.{
  InType, c_value-c_pattern, c_pattern-lt, val_long-int64, val_long-uint64, Holds,
}
use extunix.Accessors.{
  Kind, uint8, int8, uint16, int16, uint31, int31, int32, uint63, int63, int64, checked_access,
  unsafe_get, unsafe_set, checked_get, checked_set,
}
use extunix.Accessors.Types.{
  read_type, write_type, boxing, order_of, unsafe_get-get, unsafe_set-set, same_size,
}
use extunix.Accessors.Bounds.{Accessed, inside-ran, checked_access-Accessed}

-- An accessor returns or refuses: it refuses exactly if its place does not lie in the string, and
-- else it returns the value that the bytes there have in the order of the module. The string is one
-- of bytes, and the offset an `int` of OCaml.
pub checked_get-Accessed :
    (h : Bool) (o : Order) (k : Kind) (str : List ℕ) (off : ℤ)
    → IsBytes str
    → InSigned (2 ^ 62) off
    → Accessed k off
        (length str)
        (λ n r.
          r
          ≡ some (
              boxing k (
                c_value
                  (read_type k)
                  (reading h (order_of o k) (take (read_type k).size (drop n str))))))
        (checked_get h o k str off)
unfolding checked_get
checked_get-Accessed h o k str off bytes small =
    checked_access-Accessed k (length str) off _ (unsafe_get h o k str) small (λ n e inside.
      rw (unsafe_get-get h o k)
        (get-reading h (read_type k) (order_of o k) (boxing k) str n bytes inside))

-- The integers that an accessor can hold.
abbrev pub Fits : Kind → ℤ → Type 0
Fits uint63 v = InSigned (2 ^ 62) v
Fits int63 v = InSigned (2 ^ 62) v
Fits uint8 v = Holds (read_type uint8) v
Fits int8 v = Holds (read_type int8) v
Fits uint16 v = Holds (read_type uint16) v
Fits int16 v = Holds (read_type int16) v
Fits uint31 v = Holds (read_type uint31) v
Fits int31 v = Holds (read_type int31) v
Fits int32 v = Holds (read_type int32) v
Fits int64 v = Holds (read_type int64) v

val_long-InType : (b : Bool) (m : ℕ) (z : ℤ) → m ≤ 2 ^ 62 → InType b m z → val_long z ≡ z
unfolding val_long
val_long-InType true m (pos n) small r = signed-pattern (2 ^ 62) (pos n) (omega (arith, r))
val_long-InType true m (negsuc n) small r = signed-pattern (2 ^ 62) (negsuc n) (omega (arith, r))
val_long-InType false m (pos n) small r = signed-pattern (2 ^ 62) (pos n) (omega (arith, r))
val_long-InType false m (negsuc n) small r = absurd r

boxing-Holds :
    (t : CType) (z : ℤ)
    → 0 < t.size
    → patterns t.size ≤ 2 ^ 62
    → Holds t z
    → val_long (c_value t (c_pattern t z)) ≡ z
boxing-Holds t z some_size small r =
    rw (c_value-c_pattern t z some_size r) (val_long-InType t.is_signed (patterns t.size) z small r)

boxing-Fits :
    (k : Kind) (v : ℤ)
    → Fits k v
    → boxing k (c_value (read_type k) (c_pattern (write_type k) v)) ≡ v
unfolding c_pattern copy_int
boxing-Fits uint63 v r = val_long-uint64 v r
boxing-Fits int63 v r = val_long-int64 v r
boxing-Fits int32 v r = c_value-c_pattern Macros.int32 v (omega arith) r
boxing-Fits int64 v r = c_value-c_pattern Macros.int64 v (omega arith) r
boxing-Fits uint8 v r = boxing-Holds Macros.uint8 v (omega arith) (omega arith) r
boxing-Fits int8 v r = boxing-Holds Macros.int8 v (omega arith) (omega arith) r
boxing-Fits uint16 v r = boxing-Holds Macros.uint16 v (omega arith) (omega arith) r
boxing-Fits int16 v r = boxing-Holds Macros.int16 v (omega arith) (omega arith) r
boxing-Fits uint31 v r = boxing-Holds Macros.uint32 v (omega arith) (omega arith) r
boxing-Fits int31 v r = boxing-Holds Macros.int32 v (omega arith) (omega arith) r

set-Stored :
    (h : Bool) (o : Order) (k : Kind) (str : List ℕ) (n : ℕ) (v : ℤ)
    → n < 2 ^ 62
    → n + (read_type k).size ≤ length str
    → Fits k v
    → (str' : List ℕ) × (unsafe_set h o k str n v ≡ some str')
      × (length str' ≡ length str)
      × (checked_get h o k str' (pos n) ≡ ran (some v))
unfolding checked_get
set-Stored h o k str n v small inside fits = (
  str',
  rw (unsafe_set-set h o k) (set-fits h w (order_of o k) str n v within),
  same,
  inside-ran k (length str') n (unsafe_get h o k str') small (omega (arith, same, inside))
      ∙ ap ran (
          rw (unsafe_get-get h o k) (
            get_of_stored h w (read_type k) (order_of o k) (boxing k) str n (c_pattern w v)
              (same_size k) within (c_pattern-lt w v)
            ∙ ap some (boxing-Fits k v fits))),
)
  where
    w : CType
    w = write_type k

    within : n + w.size ≤ length str
    within = rw (← same_size k) inside

    xs : List ℕ
    xs = store h w.size (convert h (order_of o k) w.size (c_pattern w v))

    str' : List ℕ
    str' = overwrite n xs str

    same : length str' ≡ length str
    same = length-overwrite n xs str

-- A `set_X` refuses exactly if its place does not lie in the string; else it keeps the length, and
-- `get_X` of the same module at the same offset returns the integer, for every integer that `X` can
-- hold. The offset is an `int` of OCaml.
pub checked_set-Accessed :
    (h : Bool) (o : Order) (k : Kind) (str : List ℕ) (off v : ℤ)
    → InSigned (2 ^ 62) off
    → Fits k v
    → Accessed k off
        (length str)
        (λ n r.
          (str' : List ℕ) × (r ≡ some str')
          × (length str' ≡ length str)
          × (checked_get h o k str' off ≡ ran (some v)))
        (checked_set h o k str off v)
unfolding checked_set
checked_set-Accessed h o k str (negsuc n) v small fits = unfold checked_access in (refl, λ n' h. cc)
checked_set-Accessed h o k str (pos n) v small fits =
    checked_access-Accessed k (length str) (pos n) _ (λ n. unsafe_set h o k str n v) small
      (λ n' e inside.
        let same : n ≡ n' = cc in
        rw (← same) (set-Stored h o k str n v small (rw same inside) fits))
