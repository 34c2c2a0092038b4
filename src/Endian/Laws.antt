-- ===== src/Endian/Laws.antt =====
-- Reading, writing and converting, for every type, byte order and host.
use extunix.Base.{
  ℕ, zero, suc, ◌+◌, ◌≤◌, ◌<◌, ◌≡◌, refl, sym, ap, Bool, some, List, [], ◌∷◌, arith, length, take,
  drop, overwrite, slice-fits, memcpy-fits, length-take, length-drop, length-overwrite,
}
use extunix.Base.Int.{ℤ}
use extunix.Endian.Memory.{patterns, store, Order, convert, IsBytes}
use extunix.Endian.Convert.{
  reading, convert-load, convert-convert, convert-lt, load-store, length-store,
}
use extunix.Endian.Macros.{CType, c_value, c_pattern, get, set}

-- The bytes of a slice are bytes, and as many as asked for.
pub take-IsBytes : (n : ℕ) (bs : List ℕ) → IsBytes bs → IsBytes (take n bs)
take-IsBytes zero bs h = tt
take-IsBytes (suc n) [] h = tt
take-IsBytes (suc n) (b ∷ bs) h = (h.0, take-IsBytes n bs h.1)

pub drop-IsBytes : (n : ℕ) (bs : List ℕ) → IsBytes bs → IsBytes (drop n bs)
drop-IsBytes zero bs h = h
drop-IsBytes (suc n) [] h = tt
drop-IsBytes (suc n) (b ∷ bs) h = drop-IsBytes n bs h.1

pub length-slice : (o n : ℕ) (xs : List ℕ) → o + n ≤ length xs → length (take n (drop o xs)) ≡ n
length-slice o n xs h = omega (arith, length-take n (drop o xs), length-drop o xs)

-- On every host, a read of any type in any order from a string of bytes, inside the string, gives the
-- value that the bytes at the offset have in that order, as the type sees it.
pub get-reading :
    (h : Bool) (t : CType) (o : Order) (val_type : ℤ → ℤ) (str : List ℕ) (off : ℕ)
    → IsBytes str
    → off + t.size ≤ length str
    → get h t o val_type str off
      ≡ some (val_type (c_value t (reading h o (take t.size (drop off str)))))
unfolding get
get-reading h t o val_type str off bytes inside = rw (
  get,
  slice-fits str off t.size inside,
  convert-load h o t.size (take t.size (drop off str)) (length-slice off t.size str inside)
      (take-IsBytes t.size (drop off str) (drop-IsBytes off str bytes)),
)

-- What was written over a place is read back from it.
pub slice-overwrite :
    (off n : ℕ) (xs buf : List ℕ)
    → n ≡ length xs
    → off + n ≤ length buf
    → take n (drop off (overwrite off xs buf)) ≡ xs
slice-overwrite zero zero [] buf e h = refl
slice-overwrite zero (suc n) [] buf e h = absurd (omega arith)
slice-overwrite zero zero (x ∷ xs) buf e h = absurd (omega arith)
slice-overwrite zero (suc n) (x ∷ xs) [] e h = absurd (omega arith)
slice-overwrite zero (suc n) (x ∷ xs) (b ∷ buf) e h =
    ap (λ t. x ∷ t) (slice-overwrite zero n xs buf (omega arith) (omega arith))
slice-overwrite (suc off) n xs [] e h = absurd (omega arith)
slice-overwrite (suc off) n xs (b ∷ buf) e h = slice-overwrite off n xs buf e (omega arith)

-- A write inside the string, on both sides.
pub set-fits :
    (h : Bool) (t : CType) (o : Order) (str : List ℕ) (off : ℕ) (z : ℤ)
    → off + t.size ≤ length str
    → set h t o str off z
      ≡ some (overwrite off (store h t.size (convert h o t.size (c_pattern t z))) str)
unfolding set
set-fits h t o str off z inside =
    memcpy-fits str off (store h t.size (convert h o t.size (c_pattern t z)))
      (omega (arith, length-store h t.size (convert h o t.size (c_pattern t z))))

pub get_of_stored :
    (h : Bool) (t t' : CType) (o : Order) (val_type : ℤ → ℤ) (str : List ℕ) (off x : ℕ)
    → t'.size ≡ t.size
    → off + t.size ≤ length str
    → x < patterns t.size
    → get h t' o val_type (overwrite off (store h t.size (convert h o t.size x)) str) off
      ≡ some (val_type (c_value t' x))
unfolding get
get_of_stored h t t' o val_type str off x e inside fits = rw (
  get,
  e,
  slice-fits (overwrite off (store h t.size (convert h o t.size x)) str) off t.size
      (omega (arith, length-overwrite off (store h t.size (convert h o t.size x)) str)),
  slice-overwrite off t.size (store h t.size (convert h o t.size x)) str
      (sym (length-store h t.size (convert h o t.size x))) inside,
  load-store h t.size (convert h o t.size x) (convert-lt h o t.size x fits),
  convert-convert h o t.size x fits,
)
