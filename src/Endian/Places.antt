-- ===== src/Endian/Places.antt =====
-- A write changes no value that lies before or behind it.
use extunix.Base.{
  ℕ, zero, suc, ◌+◌, ◌≤◌, ◌≡◌, refl, ap, ◌⊎◌, inl, inr, Bool, some, List, [], ◌∷◌, arith, length,
  take, drop, overwrite, slice, length-overwrite,
}
use extunix.Base.Int.{ℤ}
use extunix.Endian.Memory.{store, Order, convert}
use extunix.Endian.Convert.{length-store}
use extunix.Endian.Macros.{CType, c_pattern, get, set}
use extunix.Endian.Laws.{set-fits}

take-overwrite :
    (n off : ℕ) (xs buf : List ℕ) → n ≤ off → take n (overwrite off xs buf) ≡ take n buf
take-overwrite zero off xs buf h = refl
take-overwrite (suc n) zero xs buf h = absurd (omega arith)
take-overwrite (suc n) (suc off) xs [] h = refl
take-overwrite (suc n) (suc off) xs (b ∷ buf) h =
    ap (λ t. b ∷ t) (take-overwrite n off xs buf (omega arith))

drop-overwrite :
    (n off : ℕ) (xs buf : List ℕ) → off + length xs ≤ n → drop n (overwrite off xs buf) ≡ drop n buf
drop-overwrite n zero [] buf h = refl
drop-overwrite zero zero (x ∷ xs) buf h = absurd (omega arith)
drop-overwrite (suc n) zero (x ∷ xs) [] h = refl
drop-overwrite (suc n) zero (x ∷ xs) (b ∷ buf) h = drop-overwrite n zero xs buf (omega arith)
drop-overwrite zero (suc off) xs buf h = absurd (omega arith)
drop-overwrite (suc n) (suc off) xs [] h = refl
drop-overwrite (suc n) (suc off) xs (b ∷ buf) h = drop-overwrite n off xs buf (omega arith)

slice_before :
    (o n off : ℕ) (xs buf : List ℕ)
    → o + n ≤ off
    → take n (drop o (overwrite off xs buf)) ≡ take n (drop o buf)
slice_before zero n off xs buf h = take-overwrite n off xs buf (omega arith)
slice_before (suc o) n zero xs buf h = absurd (omega arith)
slice_before (suc o) n (suc off) xs [] h = refl
slice_before (suc o) n (suc off) xs (b ∷ buf) h = slice_before o n off xs buf (omega arith)

slice_apart :
    (o n off w : ℕ) (xs buf : List ℕ)
    → length xs ≡ w
    → (o + n ≤ off) ⊎ (off + w ≤ o)
    → take n (drop o (overwrite off xs buf)) ≡ take n (drop o buf)
slice_apart o n off w xs buf e (inl before) = slice_before o n off xs buf before
slice_apart o n off w xs buf e (inr behind) =
    ap (take n) (drop-overwrite o off xs buf (omega (arith, e)))

-- A write inside the string succeeds and keeps the length, and a read of a place that does not
-- overlap with the written one gives what it gave before.
pub get-set_apart :
    (h : Bool) (t t' : CType) (o o' : Order) (val_type : ℤ → ℤ) (str : List ℕ) (off off' : ℕ)
    (z : ℤ)
    → off + t.size ≤ length str
    → (off' + t'.size ≤ off) ⊎ (off + t.size ≤ off')
    → (str' : List ℕ) × (set h t o str off z ≡ some str')
      × (length str' ≡ length str)
      × (get h t' o' val_type str' off' ≡ get h t' o' val_type str off')
unfolding get slice
get-set_apart h t t' o o' val_type str off off' z inside apart = (
  overwrite off bytes str,
  set-fits h t o str off z inside,
  length-overwrite off bytes str,
  rw
      (
        length-overwrite off bytes str,
        slice_apart off' t'.size off t.size bytes str
            (length-store h t.size (convert h o t.size (c_pattern t z))) apart,
      )
      refl,
)
  where
    bytes : List ℕ
    bytes = store h t.size (convert h o t.size (c_pattern t z))
