-- ===== src/Resource/Rlimits/Parts.antt =====
-- The numbers that a limit is printed as add up to it.
use extunix.Base.{
  ℕ, zero, suc, ◌+◌, ◌*◌, ◌/◌, ◌%◌, ◌<◌, ◌≡◌, refl, ◌⊎◌, inl, inr, false, List, [], ◌∷◌, arith,
  ◌==◌,
}
use extunix.Base.Int.{ℤ, pos, negsuc}
use extunix.Resource.Rlimits.{ByteUnit, b, kb, mb, gb, tb, add_part, or_none, string_of_bytes}

abbrev scale : ByteUnit → ℕ
scale b = 1
scale kb = 1024
scale mb = 1048576
scale gb = 1073741824
scale tb = 1099511627776

-- Each number is below 1024, but for the terabytes, and together they are `n` bytes.
abbrev AddsUp : List (ℤ × ByteUnit) → ℕ → Type 0
AddsUp [] n = n ≡ 0
AddsUp ((negsuc r, e) ∷ ps) n = ⊥
AddsUp ((pos r, e) ∷ ps) n = ((e ≡ tb) ⊎ (r < 1024)) × (m : ℕ) × AddsUp ps m × (n ≡ r * scale e + m)

add_part-AddsUp :
    (r : ℕ) (e : ByteUnit) (acc : List (ℤ × ByteUnit)) (m n : ℕ)
    → (e ≡ tb) ⊎ (r < 1024)
    → AddsUp acc m
    → n ≡ r * scale e + m
    → AddsUp (add_part (pos r) e acc) n
add_part-AddsUp zero e acc m n small h sum = let same : n ≡ m = omega (arith, sum) in rw same h
add_part-AddsUp (suc r) e acc m n small h sum =
    let some_of_it : (suc r == 0) ≡ false = ground arith in rw some_of_it (small, m, h, sum)

or_none-AddsUp : (ps : List (ℤ × ByteUnit)) (n : ℕ) → AddsUp ps n → AddsUp (or_none ps) n
or_none-AddsUp [] n h = (inr (omega arith), 0, refl, h)
or_none-AddsUp (p ∷ ps) n h = h

-- A limit of bytes is printed as terabytes, gigabytes, megabytes, kilobytes and bytes that add up to
-- it, each below 1024 but for the terabytes.
string_of_bytes-AddsUp : (n : ℕ) → AddsUp (string_of_bytes (pos n)) n
unfolding string_of_bytes
string_of_bytes-AddsUp n =
    let k = n / 1024 in
    let m = n / 1024 / 1024 in
    let g = n / 1024 / 1024 / 1024 in
    let p0 = add_part-AddsUp (n % 1024) b [] 0 (n % 1024) (inr (omega arith)) refl (omega arith) in
    let p1 = add_part-AddsUp (k % 1024) kb _ _ (n % 1048576) (inr (omega arith)) p0 (omega arith) in
    let p2 =
      add_part-AddsUp (m % 1024) mb _ _ (n % 1073741824) (inr (omega arith)) p1 (omega arith) in
    let p3 =
      add_part-AddsUp (g % 1024) gb _ _ (n % 1099511627776) (inr (omega arith)) p2 (omega arith) in
    or_none-AddsUp _ n (add_part-AddsUp (g / 1024) tb _ _ n (inl refl) p3 (omega arith))
