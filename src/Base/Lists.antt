-- ===== src/Base/Lists.antt =====
-- C arrays, OCaml strings and files as lists that native numbers index.
use Prim.Native.Nat.{ℕ, zero, suc, ◌+◌, ◌-◌, ◌≤◌, min}
use mathlib.Core.Path.{◌≡◌, refl, ap}
use mathlib.Core.Option.{Option, none, some}
use mathlib.Core.List.{List, [], ◌∷◌, ◌++◌}
use native.Mathlib.Omega.{arith}
use extunix.Base.Tests.{leb, if◌then◌else◌}

module _ {ℓ} {A : Type ℓ} where
  abbrev pub length : List A → ℕ
  length [] = 0
  length (x ∷ xs) = suc (length xs)

  abbrev pub get_elem? : List A → ℕ → Option A
  get_elem? [] i = none
  get_elem? (x ∷ xs) zero = some x
  get_elem? (x ∷ xs) (suc i) = get_elem? xs i

  abbrev pub take : ℕ → List A → List A
  take zero xs = []
  take (suc n) [] = []
  take (suc n) (x ∷ xs) = x ∷ take n xs

  abbrev pub drop : ℕ → List A → List A
  drop zero xs = xs
  drop (suc n) [] = []
  drop (suc n) (x ∷ xs) = drop n xs

  -- `xs` written over `buf` from index `o` on; what falls behind the end is lost.
  abbrev pub overwrite : ℕ → List A → List A → List A
  overwrite zero [] buf = buf
  overwrite zero (x ∷ xs) [] = []
  overwrite zero (x ∷ xs) (b ∷ buf) = x ∷ overwrite zero xs buf
  overwrite (suc o) xs [] = []
  overwrite (suc o) xs (b ∷ buf) = b ∷ overwrite o xs buf

module _ {ℓ} {A : Type ℓ} where
  pub length-append : (xs ys : List A) → length (xs ++ ys) ≡ length xs + length ys
  length-append [] ys = omega arith
  length-append (x ∷ xs) ys = omega (arith, length-append xs ys)

  pub nil-of-length : (xs : List A) → length xs ≡ 0 → xs ≡ []
  nil-of-length [] e = refl
  nil-of-length (x ∷ xs) e = absurd (omega arith)

  pub nil-of-append : (xs ys : List A) → xs ++ ys ≡ [] → ys ≡ []
  nil-of-append [] ys e = e
  nil-of-append (x ∷ xs) ys e = cc

  pub length-take : (n : ℕ) (xs : List A) → length (take n xs) ≡ min n (length xs)
  length-take zero xs = omega arith
  length-take (suc n) [] = omega arith
  length-take (suc n) (x ∷ xs) = omega (arith, length-take n xs)

  pub length-drop : (n : ℕ) (xs : List A) → length (drop n xs) ≡ length xs - n
  length-drop zero xs = omega arith
  length-drop (suc n) [] = omega arith
  length-drop (suc n) (x ∷ xs) = omega (arith, length-drop n xs)

  pub take-split :
      (p n q : ℕ) (xs : List A) → q ≡ p + n → take q xs ≡ take p xs ++ take n (drop p xs)
  take-split zero n q xs e = ap (λ k. take k xs) (omega arith)
  take-split (suc p) n zero xs e = absurd (omega arith)
  take-split (suc p) zero (suc q) [] e = refl
  take-split (suc p) (suc n) (suc q) [] e = refl
  take-split (suc p) n (suc q) (x ∷ xs) e = ap (λ t. x ∷ t) (take-split p n q xs (omega arith))

  pub drop-drop : (p n q : ℕ) (xs : List A) → q ≡ p + n → drop n (drop p xs) ≡ drop q xs
  drop-drop zero n q xs e = ap (λ k. drop k xs) (omega arith)
  drop-drop (suc p) n zero xs e = absurd (omega arith)
  drop-drop (suc p) zero (suc q) [] e = refl
  drop-drop (suc p) (suc n) (suc q) [] e = refl
  drop-drop (suc p) n (suc q) (x ∷ xs) e = drop-drop p n q xs (omega arith)

  pub take-take : (n m : ℕ) (xs : List A) → n ≤ m → take n (take m xs) ≡ take n xs
  take-take zero m xs h = refl
  take-take (suc n) zero xs h = absurd (omega arith)
  take-take (suc n) (suc m) [] h = refl
  take-take (suc n) (suc m) (x ∷ xs) h = ap (λ t. x ∷ t) (take-take n m xs (omega arith))

  pub take-all : (n : ℕ) (xs : List A) → length xs ≤ n → take n xs ≡ xs
  take-all zero [] h = refl
  take-all zero (x ∷ xs) h = absurd (omega arith)
  take-all (suc n) [] h = refl
  take-all (suc n) (x ∷ xs) h = ap (λ t. x ∷ t) (take-all n xs (omega arith))

  pub take-append : (n : ℕ) (xs ys : List A) → n ≡ length xs → take n (xs ++ ys) ≡ xs
  take-append zero [] ys e = refl
  take-append (suc n) [] ys e = absurd (omega arith)
  take-append zero (x ∷ xs) ys e = absurd (omega arith)
  take-append (suc n) (x ∷ xs) ys e = ap (λ t. x ∷ t) (take-append n xs ys (omega arith))

  pub length-overwrite : (o : ℕ) (xs buf : List A) → length (overwrite o xs buf) ≡ length buf
  length-overwrite zero [] buf = refl
  length-overwrite zero (x ∷ xs) [] = refl
  length-overwrite zero (x ∷ xs) (b ∷ buf) = ap suc (length-overwrite zero xs buf)
  length-overwrite (suc o) xs [] = refl
  length-overwrite (suc o) xs (b ∷ buf) = ap suc (length-overwrite o xs buf)

  pub overwrite-nothing : (o : ℕ) (buf : List A) → overwrite o [] buf ≡ buf
  overwrite-nothing zero buf = refl
  overwrite-nothing (suc o) [] = refl
  overwrite-nothing (suc o) (b ∷ buf) = ap (λ t. b ∷ t) (overwrite-nothing o buf)

  overwrite-nil : (o : ℕ) (xs : List A) → overwrite o xs [] ≡ []
  overwrite-nil zero [] = refl
  overwrite-nil zero (x ∷ xs) = refl
  overwrite-nil (suc o) xs = refl

  -- Two writes, the second just behind the first, are one write.
  pub overwrite-append :
      (o n : ℕ) (xs ys buf : List A)
      → n ≡ o + length xs
      → overwrite n ys (overwrite o xs buf) ≡ overwrite o (xs ++ ys) buf
  overwrite-append zero zero [] ys buf e = refl
  overwrite-append zero (suc n) [] ys buf e = absurd (omega arith)
  overwrite-append zero n (x ∷ xs) ys [] e = overwrite-nil n ys
  overwrite-append zero zero (x ∷ xs) ys (b ∷ buf) e = absurd (omega arith)
  overwrite-append zero (suc n) (x ∷ xs) ys (b ∷ buf) e =
      ap (λ t. x ∷ t) (overwrite-append zero n xs ys buf (omega arith))
  overwrite-append (suc o) n xs ys [] e = overwrite-nil n ys
  overwrite-append (suc o) zero xs ys (b ∷ buf) e = absurd (omega arith)
  overwrite-append (suc o) (suc n) xs ys (b ∷ buf) e =
      ap (λ t. b ∷ t) (overwrite-append o n xs ys buf (omega arith))

-- `memcpy(buf + o, xs, n)`; `none` is a write past the end of the buffer, which C leaves undefined.
unfoldable pub memcpy {ℓ} : {A : Type ℓ} → List A → ℕ → List A → Option (List A)
memcpy buf o xs = if leb (o + length xs) (length buf) then some (overwrite o xs buf) else none

-- `memcpy(tmp, buf + o, n)`; `none` is a read past the end of the buffer.
unfoldable pub slice {ℓ} : {A : Type ℓ} → List A → ℕ → ℕ → Option (List A)
slice buf o n = if leb (o + n) (length buf) then some (take n (drop o buf)) else none

module _ {ℓ} {A : Type ℓ} where
  pub memcpy-fits :
      (buf : List A) (o : ℕ) (xs : List A)
      → o + length xs ≤ length buf
      → memcpy buf o xs ≡ some (overwrite o xs buf)
  unfolding memcpy
  memcpy-fits buf o xs h = ground arith

  pub slice-fits :
      (buf : List A) (o n : ℕ) → o + n ≤ length buf → slice buf o n ≡ some (take n (drop o buf))
  unfolding slice
  slice-fits buf o n h = ground arith
