-- ===== src/Splice/Inside.antt =====
-- The regions of src/splice.c against their bigarrays.
use extunix.Base.{
  ℕ, ◌+◌, ◌-◌, ◌%◌, not, ◌^◌, ◌<◌, ◌≡◌, refl, Bool, true, false, ◌&&◌, List, [], ◌∷◌, map, arith,
  leb, if◌then◌else◌, Bool-cases, inl, inr,
}
use extunix.Base.Int.{ℤ, pos, negsuc, InSigned, pattern, signed, int_val, int_val-InSigned}
use extunix.Base.Call.{Answer, invalid_argument, ok, raised}
use extunix.Base.Stub.{raise, uerror}
use extunix.Flags.Open.{Header}
use extunix.Splice.{
  Region, exceeds, Iovec, add_int, iovec, cons_iov, fill_iov, vmsplice, splice_flags_table,
}

-- The sum of two integers.
abbrev difference : ℕ → ℕ → ℤ
difference m n = if leb n m then pos (m - n) else negsuc (n - m - 1)

abbrev pub plus : ℤ → ℤ → ℤ
plus (pos m) (pos n) = pos (m + n)
plus (pos m) (negsuc n) = difference m (n + 1)
plus (negsuc m) (pos n) = difference n (m + 1)
plus (negsuc m) (negsuc n) = negsuc (m + n + 1)

-- The address is a `char *`, and the offset leads to one.
abbrev pub IsAddress : ℕ → ℤ → Type 0
IsAddress address (pos n) = address + n < 2 ^ 64
IsAddress address (negsuc n) = (n < address) × (address < 2 ^ 64)

-- The offset, the length and their sum are each an `int`, and the offset leads to an address.
abbrev pub IsSmall : Region → Type 0
IsSmall r =
    InSigned (2 ^ 31) r.offset
    × InSigned (2 ^ 31) r.length
    × InSigned (2 ^ 31) (plus r.offset r.length)
    × IsAddress r.ba.address r.offset

abbrev pub AreSmall : List Region → Type 0
AreSmall [] = Unit
AreSmall (r ∷ rs) = IsSmall r × AreSmall rs

-- The region does not end past its bigarray; it may begin before it.
abbrev at_most : ℤ → ℕ → Bool
at_most (pos n) dim = leb n dim
at_most (negsuc n) dim = true

abbrev pub ends_inside : Region → Bool
ends_inside r = at_most (plus r.offset r.length) r.ba.dim

abbrev pub all_end_inside : List Region → Bool
all_end_inside [] = true
all_end_inside (r ∷ rs) = ends_inside r && all_end_inside rs

-- The address at an offset, and a length as the system takes it: a negative one is huge.
abbrev shift : ℕ → ℤ → ℕ
shift address (pos n) = address + n
shift address (negsuc n) = address - (n + 1)

abbrev size_of : ℤ → ℕ
size_of (pos n) = n
size_of (negsuc n) = 2 ^ 64 - (n + 1)

abbrev pub memory : Region → Iovec
memory r = record { iov_base = shift r.ba.address r.offset; iov_len = size_of r.length }

pattern-size : (z : ℤ) → InSigned (2 ^ 31) z → pattern (2 ^ 64) z ≡ size_of z
unfolding pattern
pattern-size (pos n) h = omega (arith, h)
pattern-size (negsuc n) h = omega (arith, h)

base-shift :
    (a : ℕ) (z : ℤ)
    → InSigned (2 ^ 31) z
    → IsAddress a z
    → (a + pattern (2 ^ 64) z) % 2 ^ 64 ≡ shift a z
unfolding pattern
base-shift a (pos n) h r = omega (arith, h, r)
base-shift a (negsuc n) h r = omega (arith, h, r.0, r.1)

iovec-memory : (r : Region) → IsSmall r → iovec r.ba r.offset r.length ≡ memory r
unfolding iovec
iovec-memory r (o, l, _, address) =
    rw (base-shift r.ba.address r.offset o address, pattern-size r.length l) refl

-- A sum that is an `int` does not wrap around.
add_int-plus :
    (x y : ℤ)
    → InSigned (2 ^ 31) x
    → InSigned (2 ^ 31) y
    → InSigned (2 ^ 31) (plus x y)
    → add_int x y ≡ plus x y
unfolding add_int pattern signed
add_int-plus (pos m) (pos n) hx hy h = ground arith
add_int-plus (pos m) (negsuc n) hx hy h = elim (Bool-cases (leb (n + 1) m)) [
  | inl b ↦ ground arith
  | inr b ↦ ground arith
]
add_int-plus (negsuc m) (pos n) hx hy h = elim (Bool-cases (leb (m + 1) n)) [
  | inl b ↦ ground arith
  | inr b ↦ ground arith
]
add_int-plus (negsuc m) (negsuc n) hx hy h = ground arith

exceeds-at_most : (z : ℤ) (dim : ℕ) → exceeds z dim ≡ not (at_most z dim)
exceeds-at_most (pos n) dim = ground arith
exceeds-at_most (negsuc n) dim = refl

cons_iov-if :
    (v : Iovec) (iov : List Iovec) (b : Bool)
    → cons_iov v (if b then ok iov else raised (invalid_argument "vmsplice"))
      ≡ (if true && b then ok (v ∷ iov) else raised (invalid_argument "vmsplice"))
cons_iov-if v iov true = refl
cons_iov-if v iov false = refl

fill_iov-memory :
    (rs : List Region)
    → AreSmall rs
    → fill_iov rs
      ≡ (if all_end_inside rs then ok (map memory rs) else raised (invalid_argument "vmsplice"))
unfolding fill_iov
fill_iov-memory [] small = refl
fill_iov-memory (r ∷ rs) (s, small) =
    rw
      (
        int_val-InSigned r.offset s.0,
        int_val-InSigned r.length s.1,
        add_int-plus r.offset r.length s.0 s.1 s.2,
        exceeds-at_most (plus r.offset r.length) r.ba.dim,
        iovec-memory r s,
        fill_iov-memory rs small,
      )
      (elim (Bool-cases (ends_inside r)) [
        | inl inside ↦ rw inside (cons_iov-if (memory r) (map memory rs) (all_end_inside rs))
        | inr outside ↦ rw outside refl
      ])

-- The stub on regions whose offset, length and their sum are each an `int`, negative ones included,
-- and whose offset leads to an address: it raises, with no call of the system, exactly if a region
-- ends past its bigarray. Else the system gets the memory of every
-- region, in order, from the address at its offset on, and the stub returns what the system gives or
-- raises its error. So a negative offset leads to memory before the bigarray, and a negative length
-- to a huge one.
pub vmsplice-memory :
    {K : Type 0} (convert : List ℕ → List ℕ → ℕ) (hdr : Header)
    (sys_vmsplice : ℤ → List Iovec → ℕ → K → Answer ℕ × K) (fd : ℤ) (rs : List Region)
    (v_flags : List ℕ) (k : K)
    → AreSmall rs
    → vmsplice convert hdr sys_vmsplice fd rs v_flags k
      ≡ (if all_end_inside rs
            then uerror "vmsplice" (
                sys_vmsplice
                  (int_val fd)
                  (map memory rs)
                  (convert v_flags (splice_flags_table hdr)))
            else raise (invalid_argument "vmsplice"))
          k
unfolding vmsplice
vmsplice-memory convert hdr sys_vmsplice fd rs v_flags k small =
    elim (Bool-cases (all_end_inside rs)) [
      | inl inside ↦ rw (fill_iov-memory rs small, inside) refl
      | inr outside ↦ rw (fill_iov-memory rs small, outside) refl
    ]
