-- ===== src/Endian/Memory.antt =====
-- How a value of `w` bytes lies in memory, and the conversions of src/endian_helper.h.
use extunix.Base.{
  ℕ, zero, suc, ◌+◌, ◌*◌, ◌/◌, ◌%◌, ◌^◌, ◌<◌, ◌≡◌, refl, ap, ap₂, ◌∙◌, Bool, List, [], ◌∷◌, ◌++◌,
  reverse, arith, if◌then◌else◌, length, length-append,
}
use mathlib.Core.List.{reverse-cons}
use native.Mathlib.Nat.{pow-suc}

-- Values with `w` bytes
abbrev pub patterns : ℕ → ℕ
patterns w = 256 ^ w

-- The low `w` bytes, lowest first, and the value that such bytes stand for.
unfoldable pub bytes_le : ℕ → ℕ → List ℕ
bytes_le zero x = []
bytes_le (suc w) x = (x % 256) ∷ bytes_le w (x / 256)

unfoldable pub value_le : List ℕ → ℕ
value_le [] = 0
value_le (b ∷ bs) = b + 256 * value_le bs

-- The value of bytes with the highest first.
unfoldable pub value_be : List ℕ → ℕ
value_be [] = 0
value_be (b ∷ bs) = b * 256 ^ length bs + value_be bs

-- `memcpy(&x, bytes, sizeof(x))` and `memcpy(bytes, &x, sizeof(x))`: the host says which byte of a
-- variable comes first.
unfoldable pub load : Bool → List ℕ → ℕ
load little bs = value_le (if little then bs else reverse bs)

unfoldable pub store : Bool → ℕ → ℕ → List ℕ
store little w x = if little then bytes_le w x else reverse (bytes_le w x)

-- `__builtin_bswap16`, `32`, `64`, and `htons` and its like on a host that is not in network order
unfoldable pub bswap : ℕ → ℕ → ℕ
bswap w x = value_le (reverse (bytes_le w x))

pub data Order : Type 0 where
  big little host : Order

-- `htobe16`, `be16toh`, `htole16`, ... by the byte order of the host, and `id`.
unfoldable pub convert : Bool → Order → ℕ → ℕ → ℕ
convert host_little big w x = if host_little then bswap w x else x
convert host_little little w x = if host_little then x else bswap w x
convert host_little host w x = x

abbrev pub IsBytes : List ℕ → Type 0
IsBytes [] = Unit
IsBytes (b ∷ bs) = (b < 256) × IsBytes bs

pub length-bytes_le : (w x : ℕ) → length (bytes_le w x) ≡ w
unfolding bytes_le
length-bytes_le zero x = refl
length-bytes_le (suc w) x = ap suc (length-bytes_le w (x / 256))

pub bytes_le-IsBytes : (w x : ℕ) → IsBytes (bytes_le w x)
unfolding bytes_le
bytes_le-IsBytes zero x = tt
bytes_le-IsBytes (suc w) x = (omega arith, bytes_le-IsBytes w (x / 256))

pub value_le-bytes_le : (w x : ℕ) → x < patterns w → value_le (bytes_le w x) ≡ x
unfolding value_le bytes_le
value_le-bytes_le zero x h = omega arith
value_le-bytes_le (suc w) x h =
    omega (arith, pow-suc 256 w, value_le-bytes_le w (x / 256) (omega (arith, pow-suc 256 w)))

pub bytes_le-value_le :
    (w : ℕ) (bs : List ℕ) → length bs ≡ w → IsBytes bs → bytes_le w (value_le bs) ≡ bs
unfolding value_le bytes_le
bytes_le-value_le zero [] e h = refl
bytes_le-value_le (suc w) [] e h = absurd (omega arith)
bytes_le-value_le zero (b ∷ bs) e h = absurd (omega arith)
bytes_le-value_le (suc w) (b ∷ bs) e h =
    ap₂ ◌∷◌ (omega (arith, h.0))
      (ap (bytes_le w) (omega (arith, h.0)) ∙ bytes_le-value_le w bs (omega arith) h.1)

pub value_le-lt : (bs : List ℕ) → IsBytes bs → value_le bs < patterns (length bs)
unfolding value_le
value_le-lt [] h = omega arith
value_le-lt (b ∷ bs) h = omega (arith, pow-suc 256 (length bs), value_le-lt bs h.1, h.0)

value_le-append :
    (bs : List ℕ) (b : ℕ) → value_le (bs ++ (b ∷ [])) ≡ b * 256 ^ length bs + value_le bs
unfolding value_le
value_le-append [] b = omega arith
value_le-append (x ∷ bs) b = omega (
  arith,
  value_le-append bs b,
  pow-suc 256 (length bs),
  ap (λ (t : ℕ). b * t) (pow-suc 256 (length bs)),
)

pub length-reverse : (bs : List ℕ) → length (reverse bs) ≡ length bs
length-reverse [] = refl
length-reverse (b ∷ bs) =
    rw reverse-cons (omega (arith, length-append (reverse bs) (b ∷ []), length-reverse bs))

pub value_le-reverse : (bs : List ℕ) → value_le (reverse bs) ≡ value_be bs
unfolding value_be
value_le-reverse [] = unfold value_le in refl
value_le-reverse (b ∷ bs) =
    rw reverse-cons (value_le-append (reverse bs) b ∙ rw (length-reverse bs, value_le-reverse bs))

IsBytes-append : (bs cs : List ℕ) → IsBytes bs → IsBytes cs → IsBytes (bs ++ cs)
IsBytes-append [] cs h k = k
IsBytes-append (b ∷ bs) cs h k = (h.0, IsBytes-append bs cs h.1 k)

pub reverse-IsBytes : (bs : List ℕ) → IsBytes bs → IsBytes (reverse bs)
reverse-IsBytes [] h = h
reverse-IsBytes (b ∷ bs) h =
    rw reverse-cons (IsBytes-append (reverse bs) (b ∷ []) (reverse-IsBytes bs h.1) (h.0, tt))
