-- ===== src/Endian/RoundTrip.antt =====
-- Round trips of src/endian.c through memory and through the conversions.
use extunix.Base.{
  ℕ, zero, suc, ◌+◌, ◌*◌, ◌/◌, ◌^◌, ◌≤◌, ◌<◌, ◌≡◌, refl, sym, ap, ◌∙◌, Bool, true, false, some,
  List, reverse, arith, length, take, drop, overwrite, if◌then◌else◌,
}
use extunix.Base.Int.{
  ℤ, pos, negsuc, pattern, signed, pattern-lt, pattern-signed, signed-pattern, InSigned,
}
use extunix.Endian.Memory.{
  patterns, store, Order, big, convert, IsBytes, value_be, value_le-lt, value_le-reverse,
  length-reverse, reverse-IsBytes,
}
use extunix.Endian.Convert.{convert-convert, convert-lt}
use extunix.Endian.Macros.{
  CType, c_value, c_pattern, val_long, copy_int, conv, get, set, int64, uint64, uint32,
}
use extunix.Endian.Getters
use extunix.Endian.Setters
use extunix.Endian.Converters
use extunix.Endian.Laws.{
  set-fits, get_of_stored, get-reading, length-slice, take-IsBytes, drop-IsBytes,
}
use native.Mathlib.Nat.{pow-suc, mod-eq_of_lt}

-- The integers that a type with `m` patterns can hold, with a sign and without.
abbrev pub InType : Bool → ℕ → ℤ → Type 0
InType true m z = InSigned (m / 2) z
InType false m (pos n) = n < m
InType false m (negsuc n) = ⊥

abbrev pub Holds : CType → ℤ → Type 0
Holds t z = InType t.is_signed (patterns t.size) z

patterns_even : (w : ℕ) → 0 < w → 2 * (patterns w / 2) ≡ patterns w
patterns_even zero h = absurd (omega arith)
patterns_even (suc w) h = omega (arith, pow-suc 256 w)

patterns_pos : (w : ℕ) → 0 < patterns w
patterns_pos zero = omega arith
patterns_pos (suc w) = omega (arith, pow-suc 256 w, patterns_pos w)

in_type :
    (b : Bool) (m : ℕ) (z : ℤ)
    → 2 * (m / 2) ≡ m
    → InType b m z
    → (if b then signed m (pattern m z) else pos (pattern m z)) ≡ z
in_type true m z e r = rw e at (signed-pattern (m / 2) z r)
in_type false m (pos n) e r = unfold pattern in ap pos (mod-eq_of_lt r)
in_type false m (negsuc n) e r = absurd r

-- A value that the type can hold survives its conversion.
pub c_value-c_pattern : (t : CType) (z : ℤ) → 0 < t.size → Holds t z → c_value t (c_pattern t z) ≡ z
unfolding c_value c_pattern
c_value-c_pattern t z h r = in_type t.is_signed (patterns t.size) z (patterns_even t.size h) r

pub c_pattern-lt : (t : CType) (z : ℤ) → c_pattern t z < patterns t.size
unfolding c_pattern
c_pattern-lt t z = pattern-lt (patterns t.size) z (patterns_pos t.size)

-- A type's value determines its pattern.
pattern_of_value : (t : CType) (x : ℕ) → x < patterns t.size → c_pattern t (c_value t x) ≡ x
unfolding c_pattern c_value
pattern_of_value t x r = go t.is_signed
  where
    go :
        (b : Bool) → pattern (patterns t.size) (if b then signed (patterns t.size) x else pos x) ≡ x
    go true = pattern-signed (patterns t.size) x r
    go false = unfold pattern in mod-eq_of_lt r

-- A write inside the string succeeds, and reading the same place in the same order with a type of the
-- same size gives the written integer as it wraps in the two types, on every host.
pub get-set :
    (h : Bool) (t t' : CType) (o : Order) (val_type : ℤ → ℤ) (str : List ℕ) (off : ℕ) (z : ℤ)
    → t'.size ≡ t.size
    → off + t.size ≤ length str
    → (str' : List ℕ) × (set h t o str off z ≡ some str')
      × (get h t' o val_type str' off ≡ some (val_type (c_value t' (c_pattern t z))))
get-set h t t' o val_type str off z e inside = (
  overwrite off (store h t.size (convert h o t.size (c_pattern t z))) str,
  set-fits h t o str off z inside,
  get_of_stored h t t' o val_type str off (c_pattern t z) e inside (c_pattern-lt t z),
)

-- The 63-bit accessors.
pub val_long-int64 :
    (z : ℤ) → InSigned (2 ^ 62) z → val_long (c_value int64 (c_pattern uint64 z)) ≡ z
unfolding val_long c_value c_pattern signed pattern
val_long-int64 (pos n) r = ground arith
val_long-int64 (negsuc n) r = ground arith

pub val_long-uint64 :
    (z : ℤ) → InSigned (2 ^ 62) z → val_long (c_value uint64 (c_pattern uint64 z)) ≡ z
unfolding val_long c_value c_pattern signed pattern
val_long-uint64 (pos n) r = ground arith
val_long-uint64 (negsuc n) r = ground arith

-- An `int` of OCaml (63 bits) that `set_b63` writes inside the string is read back by `get_bs63` and
-- by `get_bu63`.
get_bs63-set_b63 :
    (h : Bool) (str : List ℕ) (off : ℕ) (z : ℤ)
    → InSigned (2 ^ 62) z
    → off + 8 ≤ length str
    → (str' : List ℕ) × (Setters.set_b63 h str off z ≡ some str')
      × (Getters.get_bs63 h str' off ≡ some z)
      × (Getters.get_bu63 h str' off ≡ some z)
unfolding Setters.set_b63 Getters.get_bs63 Getters.get_bu63
get_bs63-set_b63 h str off z r inside =
    let small = c_pattern-lt uint64 z in
    (
      overwrite off (store h 8 (convert h big 8 (c_pattern uint64 z))) str,
      set-fits h uint64 big str off z inside,
      get_of_stored h uint64 int64 big val_long str off (c_pattern uint64 z) refl inside small
          ∙ ap some (val_long-int64 z r),
      get_of_stored h uint64 uint64 big val_long str off (c_pattern uint64 z) refl inside small
          ∙ ap some (val_long-uint64 z r),
    )

-- A conversion of an integer that its type (of at least one byte) can hold undoes itself, for every
-- order and host; the OCaml value is boxed.
pub conv-conv :
    (h : Bool) (t : CType) (o : Order) (z : ℤ)
    → 0 < t.size
    → Holds t z
    → conv h t o copy_int (conv h t o copy_int z) ≡ z
unfolding conv copy_int
conv-conv h t o z pos_size r =
    rw
      (
        pattern_of_value t (convert h o t.size (c_pattern t z))
            (convert-lt h o t.size (c_pattern t z) (c_pattern-lt t z)),
        convert-convert h o t.size (c_pattern t z) (c_pattern-lt t z),
      )
      (c_value-c_pattern t z pos_size r)

-- Values below 2 ^ 62 are `int`s of OCaml.
val_long-small : (n : ℕ) → n < 2 ^ 62 → val_long (pos n) ≡ pos n
unfolding val_long signed pattern
val_long-small n r = ground arith

conv-val_long : (h : Bool) (z : ℤ) → conv h uint32 big val_long z ≡ conv h uint32 big copy_int z
unfolding conv copy_int c_value
conv-val_long h z =
    val_long-small (convert h big 4 (c_pattern uint32 z))
      (omega (arith, convert-lt h big 4 (c_pattern uint32 z) (c_pattern-lt uint32 z)))

-- `be31toh` undoes `htobe31` on every value of 32 bits without a sign.
pub be31toh-htobe31 :
    (h : Bool) (n : ℕ) → n < 2 ^ 32 → Converters.be31toh h (Converters.htobe31 h (pos n)) ≡ pos n
unfolding Converters.be31toh Converters.htobe31
be31toh-htobe31 h n r =
    conv-val_long h (conv h uint32 big val_long (pos n))
    ∙ ap (conv h uint32 big copy_int) (conv-val_long h (pos n))
    ∙ conv-conv h uint32 big (pos n) (omega arith) r

value_be-lt : (bs : List ℕ) → IsBytes bs → value_be bs < patterns (length bs)
value_be-lt bs k =
    rw (sym (value_le-reverse bs), sym (length-reverse bs))
      (value_le-lt (reverse bs) (reverse-IsBytes bs k))

-- On every host `get_bu31` gives the number that the four bytes write with the highest first.
pub get_bu31-value_be :
    (h : Bool) (str : List ℕ) (off : ℕ)
    → IsBytes str
    → off + 4 ≤ length str
    → Getters.get_bu31 h str off ≡ some (pos (value_be (take 4 (drop off str))))
unfolding Getters.get_bu31
get_bu31-value_be h str off bytes inside =
    get-reading h uint32 big val_long str off bytes inside
    ∙ ap some (unfold c_value in val_long-small (value_be four) (omega (arith, small)))
  where
    four : List ℕ
    four = take 4 (drop off str)

    small : value_be four < patterns 4
    small =
        rw (length-slice off 4 str inside) at
          (value_be-lt four (take-IsBytes 4 (drop off str) (drop-IsBytes off str bytes)))
