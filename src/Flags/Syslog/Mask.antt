-- ===== src/Flags/Syslog/Mask.antt =====
-- A second `setlogmask` returns the levels that the first one set.
use extunix.Base.{
  ℕ, zero, suc, ◌≤◌, ◌<◌, ◌^◌, ◌≡◌, refl, sym, ap, ◌∙◌, ◌≢◌, inl, inr, ◌↔◌, true, List, [], ◌∷◌,
  map, arith, length,
}
use extunix.Base.Bits.{
  testbit, testbit-pow_self, testbit-pow_ne, bit_and-pow, testbit_of_mask, testbit-zero,
}
use extunix.Flags.Open.{Header}
use extunix.Flags.Table.{
  Any, AreInside, entry, list_set, list_set-entry, IsConvert, testbit-convert,
}
use extunix.Flags.Syslog.{level_table, log_mask, mask_table, is_masked, setlogmask, IsSetlogmask}
use native.Mathlib.Decide.{dec_lt}

Any-map : {P Q : ℕ → Type 0} (l : List ℕ) → ((x : ℕ) → P x → Q x) → Any P l → Any Q l
Any-map [] f a = a
Any-map (x ∷ l) f (inl p) = inl (f x p)
Any-map (x ∷ l) f (inr a) = inr (Any-map l f a)

-- The priorities are different numbers.
abbrev pub AreDistinct : List ℕ → Type 0
AreDistinct ts = (i j : ℕ) → i < length ts → j < length ts → entry ts i ≡ entry ts j → i ≡ j

entry-mask : (ts : List ℕ) (i : ℕ) → i < length ts → entry (map log_mask ts) i ≡ 2 ^ entry ts i
entry-mask [] i h = absurd (omega arith)
entry-mask (t ∷ ts) zero h = refl
entry-mask (t ∷ ts) (suc i) h = entry-mask ts i (omega arith)

entry-outside : (ts : List ℕ) (i : ℕ) → length ts ≤ i → entry (map log_mask ts) i ≡ 0
entry-outside [] i h = refl
entry-outside (t ∷ ts) zero h = absurd (omega arith)
entry-outside (t ∷ ts) (suc i) h = entry-outside ts i (omega arith)

length-mask : (ts : List ℕ) → length (map log_mask ts) ≡ length ts
length-mask [] = refl
length-mask (t ∷ ts) = ap suc (length-mask ts)

is_masked-testbit : (a nmask : ℕ) → (is_masked nmask (2 ^ a) ≡ true) ↔ (testbit a nmask ≡ 1)
is_masked-testbit a nmask =
    (λ e. testbit_of_mask a nmask (ground arith), λ e. ground (arith, bit_and-pow a nmask e))

module _ (ts : List ℕ) (distinct : AreDistinct ts) (j : ℕ) (inside : j < length ts) where
  only_own : (i : ℕ) → testbit (entry ts j) (entry (map log_mask ts) i) ≡ 1 → j ≡ i
  only_own i e = elim (dec_lt i (length ts)) [
    | yes known ↦ distinct j i inside known (
        testbit-pow_ne (entry ts j) (entry ts i)
          (ap (testbit (entry ts j)) (sym (entry-mask ts i known)) ∙ e))
    | no unknown ↦ absurd (
        omega (
          arith,
          e,
          ap (testbit (entry ts j)) (entry-outside ts i (omega arith)),
          testbit-zero (entry ts j),
        ))
  ]

  own : (i : ℕ) → j ≡ i → testbit (entry ts j) (entry (map log_mask ts) i) ≡ 1
  own i e =
      rw (← e) (ap (testbit (entry ts j)) (entry-mask ts j inside) ∙ testbit-pow_self (entry ts j))

  -- Decoding an encoded list gives its members.
  decode-encode :
      (convert : List ℕ → List ℕ → ℕ)
      → IsConvert convert
      → (l : List ℕ) → AreInside (map log_mask ts) l
      → Any (λ k. j ≡ k) (list_set (is_masked (convert l (map log_mask ts))) (map log_mask ts) 0 [])
        ↔ Any (λ k. j ≡ k) l
  decode-encode convert c l known = (
    λ a. Any-map l only_own (bits.0 (mask.0 (rw (entry-mask ts j inside) at ((listed.0 a).1)))),
    λ a. listed.1 (
      omega (arith, length-mask ts),
      rw (entry-mask ts j inside) (mask.1 (bits.1 (Any-map l own a))),
    ),
  )
    where
      nmask : ℕ
      nmask = convert l (map log_mask ts)

      listed :
          Any (λ k. j ≡ k) (list_set (is_masked nmask) (map log_mask ts) 0 [])
          ↔ ((j < length (map log_mask ts)) × (is_masked nmask (entry (map log_mask ts) j) ≡ true))
      listed = list_set-entry (is_masked nmask) (map log_mask ts) j

      mask : (is_masked nmask (2 ^ entry ts j) ≡ true) ↔ (testbit (entry ts j) nmask ≡ 1)
      mask = is_masked-testbit (entry ts j) nmask

      bits :
          (testbit (entry ts j) nmask ≡ 1)
          ↔ Any (λ i. testbit (entry ts j) (entry (map log_mask ts) i) ≡ 1) l
      bits = testbit-convert convert c (entry ts j) l (map log_mask ts) known

  convert_nonzero :
      (convert : List ℕ → List ℕ → ℕ)
      → IsConvert convert
      → (l : List ℕ) → AreInside (map log_mask ts) l
      → Any (λ k. j ≡ k) l
      → convert l (map log_mask ts) ≢ 0
  convert_nonzero convert c l known a e = omega (
    arith,
    testbit-zero (entry ts j),
    ap (testbit (entry ts j)) e,
    (testbit-convert convert c (entry ts j) l (map log_mask ts) known).1 (Any-map l own a),
  )

-- After `setlogmask level`, with at least one of the eight levels in it, the next call returns exactly
-- the levels of `level`. The runtime and the kernel behave as `IsConvert` and `IsSetlogmask` say, and
-- the priorities in the header are distinct.
pub setlogmask-setlogmask :
    {K : Type 0} (hdr : Header) (convert : List ℕ → List ℕ → ℕ) (sys_setlogmask : ℕ → K → ℕ × K)
    (mask_of : K → ℕ)
    → IsConvert convert
    → IsSetlogmask sys_setlogmask mask_of
    → AreDistinct (level_table hdr)
    → (level level' : List ℕ) (k : K) (first : ℕ) → AreInside (mask_table hdr) level
    → first < 8
    → Any (λ i. first ≡ i) level
    → (j : ℕ) → j < 8
    → let k' = (setlogmask hdr convert sys_setlogmask level k).1 in
      Any (λ i. j ≡ i) (setlogmask hdr convert sys_setlogmask level' k').0 ↔ Any (λ i. j ≡ i) level
unfolding setlogmask
setlogmask-setlogmask hdr convert sys_setlogmask mask_of c s distinct level level' k first known f
      member j in_table =
    rw
      (
        s.0,
        s.1 (convert level (mask_table hdr)) k
            (convert_nonzero (level_table hdr) distinct first f convert c level known member),
      )
      (decode-encode (level_table hdr) distinct j in_table convert c level known)
