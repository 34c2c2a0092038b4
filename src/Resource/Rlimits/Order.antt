-- ===== src/Resource/Rlimits/Order.antt =====
-- How the comparisons of limits relate to the numbers of the system.
use extunix.Base.{
  ℕ, ◌+◌, ◌-◌, ◌*◌, ◌^◌, ◌<◌, ◌≡◌, refl, inl, inr, true, false, Option, none, some, arith, ltb, leb,
  ◌==◌, Bool-cases, if◌then◌else◌,
}
use extunix.Base.Int.{ℤ, pos, negsuc, signed}
use extunix.Resource.{encode_limit}
use extunix.Resource.Rlimits.{below, compare_limits, eq, gt, ge, lt, le}

-- Where a limit of the system stands: the numbers from 2 ^ 63 on are negative in OCaml and come
-- first, then the smaller ones, and no limit is last.
abbrev pub place : ℕ → ℕ → ℕ
place rlim_infinity v =
    if v == rlim_infinity then 2 ^ 64 else if ltb v (2 ^ 63) then v + 2 ^ 63 else v - 2 ^ 63

-- What the comparisons say of two limits, for two numbers.
abbrev pub Compares : Option ℤ → Option ℤ → ℕ → ℕ → Type 0
Compares l1 l2 v w =
    (eq l1 l2 ≡ (v == w))
    × (lt l1 l2 ≡ ltb v w)
    × (le l1 l2 ≡ leb v w)
    × (gt l1 l2 ≡ ltb w v)
    × (ge l1 l2 ≡ leb w v)

-- The three outcomes of a comparison.
Compares-less :
    (l1 l2 : Option ℤ) (v w : ℕ) → compare_limits l1 l2 ≡ below → v < w → Compares l1 l2 v w
unfolding eq gt ge lt le
Compares-less l1 l2 v w e h =
    let other : (v == w) ≡ false = ground arith in
    let lower : ltb v w ≡ true = ground arith in
    let at_most : leb v w ≡ true = ground arith in
    let not_higher : ltb w v ≡ false = ground arith in
    let not_least : leb w v ≡ false = ground arith in
    rw (e, other, lower, at_most, not_higher, not_least) (refl, refl, refl, refl, refl)

Compares-same :
    (l1 l2 : Option ℤ) (v w : ℕ) → compare_limits l1 l2 ≡ pos 0 → v ≡ w → Compares l1 l2 v w
unfolding eq gt ge lt le
Compares-same l1 l2 v w e h =
    let same : (v == w) ≡ true = ground arith in
    let not_lower : ltb v w ≡ false = ground arith in
    let at_most : leb v w ≡ true = ground arith in
    let not_higher : ltb w v ≡ false = ground arith in
    let at_least : leb w v ≡ true = ground arith in
    rw (e, same, not_lower, at_most, not_higher, at_least) (refl, refl, refl, refl, refl)

Compares-greater :
    (l1 l2 : Option ℤ) (v w : ℕ) → compare_limits l1 l2 ≡ pos 1 → w < v → Compares l1 l2 v w
unfolding eq gt ge lt le
Compares-greater l1 l2 v w e h =
    let other : (v == w) ≡ false = ground arith in
    let not_lower : ltb v w ≡ false = ground arith in
    let not_most : leb v w ≡ false = ground arith in
    let higher : ltb w v ≡ true = ground arith in
    let at_least : leb w v ≡ true = ground arith in
    rw (e, other, not_lower, not_most, higher, at_least) (refl, refl, refl, refl, refl)

-- A limit as OCaml has it, with its place.
abbrev At : Option ℤ → ℕ → Type 0
At none p = p ≡ 2 ^ 64
At (some (pos n)) p = (n < 2 ^ 63) × (p ≡ n + 2 ^ 63)
At (some (negsuc n)) p = (n < 2 ^ 63) × (p + n + 1 ≡ 2 ^ 63)

encode_limit-At :
    (rlim_infinity v : ℕ) → v < 2 ^ 64 → At (encode_limit rlim_infinity v) (place rlim_infinity v)
unfolding encode_limit signed
encode_limit-At rlim_infinity v h = elim (Bool-cases (v == rlim_infinity)) [
  | inl unlimited ↦ rw unlimited refl
  | inr limited ↦ elim (Bool-cases (ltb v (2 ^ 63))) [
    | inl low ↦
        let positive : ltb (2 * v) (2 ^ 64) ≡ true = ground arith in
        rw (limited, low, positive) (ground arith, refl)
    | inr high ↦
        let negative : ltb (2 * v) (2 ^ 64) ≡ false = ground arith in
        rw (limited, high, negative) (ground arith, ground arith)
  ]
]

At-Compares : (l1 l2 : Option ℤ) (p q : ℕ) → At l1 p → At l2 q → Compares l1 l2 p q
At-Compares none none p q h k =
    Compares-same none none p q (unfold compare_limits in refl) (omega arith)
At-Compares none (some (pos m)) p q h k =
    Compares-greater none (some (pos m)) p q (unfold compare_limits in refl)
      (omega (arith, k.0, k.1))
At-Compares none (some (negsuc m)) p q h k =
    Compares-greater none (some (negsuc m)) p q (unfold compare_limits in refl)
      (omega (arith, k.0, k.1))
At-Compares (some (pos n)) none p q h k =
    Compares-less (some (pos n)) none p q (unfold compare_limits in refl) (omega (arith, h.0, h.1))
At-Compares (some (negsuc n)) none p q h k =
    Compares-less (some (negsuc n)) none p q (unfold compare_limits in refl)
      (omega (arith, h.0, h.1))
At-Compares (some (pos n)) (some (negsuc m)) p q h k =
    Compares-greater (some (pos n)) (some (negsuc m)) p q (unfold compare_limits in refl)
      (omega (arith, h.1, k.1))
At-Compares (some (negsuc n)) (some (pos m)) p q h k =
    Compares-less (some (negsuc n)) (some (pos m)) p q (unfold compare_limits in refl)
      (omega (arith, h.1, k.1))
At-Compares (some (pos n)) (some (pos m)) p q h k = elim (Bool-cases (ltb n m)) [
  | inl lower ↦
      Compares-less (some (pos n)) (some (pos m)) p q (unfold compare_limits in rw lower refl)
        (ground (arith, lower, h.1, k.1))
  | inr not_lower ↦ elim (Bool-cases (n == m)) [
    | inl same ↦
        Compares-same (some (pos n)) (some (pos m)) p q
          (unfold compare_limits in rw (not_lower, same) refl) (ground (arith, same, h.1, k.1))
    | inr other ↦
        Compares-greater (some (pos n)) (some (pos m)) p q
          (unfold compare_limits in rw (not_lower, other) refl)
          (ground (arith, not_lower, other, h.1, k.1))
  ]
]
At-Compares (some (negsuc n)) (some (negsuc m)) p q h k = elim (Bool-cases (ltb m n)) [
  | inl lower ↦
      Compares-less (some (negsuc n)) (some (negsuc m)) p q (unfold compare_limits in rw lower refl)
        (ground (arith, lower, h.1, k.1))
  | inr not_lower ↦ elim (Bool-cases (n == m)) [
    | inl same ↦
        Compares-same (some (negsuc n)) (some (negsuc m)) p q
          (unfold compare_limits in rw (not_lower, same) refl) (ground (arith, same, h.1, k.1))
    | inr other ↦
        Compares-greater (some (negsuc n)) (some (negsuc m)) p q
          (unfold compare_limits in rw (not_lower, other) refl)
          (ground (arith, not_lower, other, h.1, k.1))
  ]
]

-- For any two limits of the system, numbers below 2 ^ 64, as `getrlimit` gives them to OCaml: `eq`,
-- `lt`, `le`, `gt` and `ge` compare their places. So numbers below 2 ^ 63 compare as they are, and
-- `RLIM_INFINITY` is above all; but a number from 2 ^ 63 on that is not `RLIM_INFINITY` is below every
-- number under 2 ^ 63.
pub compare_limits-Compares :
    (rlim_infinity v w : ℕ)
    → v < 2 ^ 64
    → w < 2 ^ 64
    → Compares
        (encode_limit rlim_infinity v)
        (encode_limit rlim_infinity w)
        (place rlim_infinity v)
        (place rlim_infinity w)
compare_limits-Compares rlim_infinity v w hv hw =
    At-Compares (encode_limit rlim_infinity v) (encode_limit rlim_infinity w)
      (place rlim_infinity v) (place rlim_infinity w) (encode_limit-At rlim_infinity v hv)
      (encode_limit-At rlim_infinity w hw)
