-- ===== src/Endian/Convert.antt =====
-- The conversions give the big and the little reading of the bytes on every host.
use extunix.Base.{ℕ, ◌<◌, ◌≡◌, refl, ◌∙◌, Bool, true, false, List, reverse, length}
use extunix.Endian.Memory.{
  patterns, bytes_le, value_le, value_be, load, store, bswap, Order, big, little, host, convert,
  IsBytes, length-bytes_le, bytes_le-IsBytes, value_le-bytes_le, bytes_le-value_le, value_le-lt,
  length-reverse, value_le-reverse, reverse-IsBytes,
}
use mathlib.Core.List.{reverse-reverse}
use mathlib.Core.Path.{subst}

-- The value that the bytes have in an order; `host_little` matters for the host's own only.
abbrev pub reading : Bool → Order → List ℕ → ℕ
reading host_little big bs = value_be bs
reading host_little little bs = value_le bs
reading true host bs = value_le bs
reading false host bs = value_be bs

bswap-value_le :
    (w : ℕ) (bs : List ℕ) → length bs ≡ w → IsBytes bs → bswap w (value_le bs) ≡ value_be bs
unfolding bswap
bswap-value_le w bs e h = rw (bytes_le-value_le w bs e h) (value_le-reverse bs)

bswap-reverse :
    (w : ℕ) (bs : List ℕ)
    → length bs ≡ w
    → IsBytes bs
    → bswap w (value_le (reverse bs)) ≡ value_le bs
unfolding bswap
bswap-reverse w bs e h = rw (
  bytes_le-value_le w (reverse bs) (length-reverse bs ∙ e) (reverse-IsBytes bs h),
  reverse-reverse,
)

-- What is loaded and converted is the value that the bytes have in the order asked for.
pub convert-load :
    (h : Bool) (o : Order) (w : ℕ) (bs : List ℕ)
    → length bs ≡ w
    → IsBytes bs
    → convert h o w (load h bs) ≡ reading h o bs
unfolding convert load
convert-load true big w bs e k = bswap-value_le w bs e k
convert-load true little w bs e k = refl
convert-load true host w bs e k = refl
convert-load false big w bs e k = value_le-reverse bs
convert-load false little w bs e k = bswap-reverse w bs e k
convert-load false host w bs e k = value_le-reverse bs

bswap-lt : (w x : ℕ) → bswap w x < patterns w
unfolding bswap
bswap-lt w x =
    subst (λ n. value_le (reverse (bytes_le w x)) < patterns n)
      (length-reverse (bytes_le w x) ∙ length-bytes_le w x)
      (value_le-lt (reverse (bytes_le w x)) (reverse-IsBytes (bytes_le w x) (bytes_le-IsBytes w x)))

bswap-bswap : (w x : ℕ) → x < patterns w → bswap w (bswap w x) ≡ x
unfolding bswap
bswap-bswap w x h =
    rw
      (
        bytes_le-value_le w (reverse (bytes_le w x))
            (length-reverse (bytes_le w x) ∙ length-bytes_le w x)
            (reverse-IsBytes (bytes_le w x) (bytes_le-IsBytes w x)),
        reverse-reverse,
      )
      (value_le-bytes_le w x h)

pub convert-convert :
    (h : Bool) (o : Order) (w x : ℕ) → x < patterns w → convert h o w (convert h o w x) ≡ x
unfolding convert
convert-convert true big w x k = bswap-bswap w x k
convert-convert true little w x k = refl
convert-convert true host w x k = refl
convert-convert false big w x k = refl
convert-convert false little w x k = bswap-bswap w x k
convert-convert false host w x k = refl

pub convert-lt : (h : Bool) (o : Order) (w x : ℕ) → x < patterns w → convert h o w x < patterns w
unfolding convert
convert-lt true big w x k = bswap-lt w x
convert-lt true little w x k = k
convert-lt true host w x k = k
convert-lt false big w x k = k
convert-lt false little w x k = bswap-lt w x
convert-lt false host w x k = k

pub load-store : (h : Bool) (w x : ℕ) → x < patterns w → load h (store h w x) ≡ x
unfolding load store
load-store true w x k = value_le-bytes_le w x k
load-store false w x k = rw reverse-reverse (value_le-bytes_le w x k)

pub length-store : (h : Bool) (w x : ℕ) → length (store h w x) ≡ w
unfolding store
length-store true w x = length-bytes_le w x
length-store false w x = length-reverse (bytes_le w x) ∙ length-bytes_le w x
