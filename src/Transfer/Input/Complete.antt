-- ===== src/Transfer/Input/Complete.antt =====
-- Consequences of a delivery for the four modes.
use extunix.Base.{
  ℕ, String, ◌≡◌, refl, sym, ap, ◌∙◌, ◌⊎◌, inl, inr, List, [], ◌++◌, arith, true, length, take,
  overwrite, min, length-append, take-all, take-append, overwrite-nothing,
}
use extunix.Base.Call.{Errno, eintr}
use extunix.Transfer.Loop.{Vars, Outcome, returned, raised, fault, bit_nointr, bit_noerror, has}
use extunix.Transfer.Errors.{MayRaise-noerror}
use extunix.Transfer.Input.Delivery.{Moving, Delivered}
use mathlib.Core.List.{append-nil}

module _ {K : Type 0} {pending : ℕ → K → List ℕ} {s0 s : Vars K} (m : Moving pending s0 s) where
  front : take (length m.moved) (pending s0.off s0.kernel) ≡ m.moved
  front = ap (take (length m.moved)) m.taken ∙ take-append (length m.moved) m.moved _ refl

  -- All that was asked for, or all that there is.
  complete :
      (s.len ≡ 0) ⊎ (pending s.off s.kernel ≡ [])
      → (s.processed ≡ min s0.len (length (pending s0.off s0.kernel)))
        × (s.buf ≡ overwrite s0.ofs (take s0.len (pending s0.off s0.kernel)) s0.buf)
  complete (inl all) = (
    omega
        (arith, m.left, m.count, ap length m.taken, length-append m.moved (pending s.off s.kernel)),
    m.stored
        ∙ ap (λ t. overwrite s0.ofs t s0.buf)
            (sym front
              ∙ ap (λ n. take n (pending s0.off s0.kernel)) (omega (arith, m.left, m.count))),
  )
  complete (inr ended) = (
    omega (arith, m.left, m.count, ap length whole),
    m.stored
        ∙ ap (λ t. overwrite s0.ofs t s0.buf)
            (sym whole
              ∙ sym (
                  take-all s0.len (pending s0.off s0.kernel)
                    (omega (arith, ap length whole, m.left, m.count)))),
  )
    where
      whole : pending s0.off s0.kernel ≡ m.moved
      whole = m.taken ∙ ap (λ t. m.moved ++ t) ended ∙ append-nil m.moved

  -- Nothing was moved.
  untouched :
      s.processed ≡ 0 → (s.buf ≡ s0.buf) × (pending s.off s.kernel ≡ pending s0.off s0.kernel)
  untouched e = (
    m.stored ∙ ap (λ t. overwrite s0.ofs t s0.buf) none_moved ∙ overwrite-nothing s0.ofs s0.buf,
    sym (m.taken ∙ ap (λ t. t ++ pending s.off s.kernel) none_moved),
  )
    where
      none_moved : m.moved ≡ []
      none_moved = sym front ∙ ap (λ n. take n (pending s0.off s0.kernel)) (m.count ∙ e)

-- The result of `all_pread` or `all_read` where nothing but interruptions can fail.
abbrev pub AllRead : {K : Type 0} → List ℕ → ℕ → ℕ → List ℕ → Outcome K → Type 0
AllRead buf ofs len bytes (returned s) =
    (s.processed ≡ min len (length bytes)) × (s.buf ≡ overwrite ofs (take len bytes) buf)
AllRead buf ofs len bytes _ = ⊥

-- A raise that has moved nothing: the buffer and the source are as they were.
abbrev pub RaisesClean : {K : Type 0} → (ℕ → K → List ℕ) → Vars K → Outcome K → Type 0
RaisesClean pending s0 (returned s) = Moving pending s0 s
RaisesClean pending s0 (raised e n s) =
    (s.processed ≡ 0) × (s.buf ≡ s0.buf) × (pending s.off s.kernel ≡ pending s0.off s0.kernel)
RaisesClean pending s0 fault = ⊥

module _ {K : Type 0} (pending : ℕ → K → List ℕ) (name : String) (s0 : Vars K) where
  pub AllRead-of-Delivered :
      (o : Outcome K)
      → Delivered pending (λ e. e ≡ eintr) bit_nointr name s0 o
      → AllRead s0.buf s0.ofs s0.len (pending s0.off s0.kernel) o
  AllRead-of-Delivered (returned s) (m, inl all) = complete m (inl all)
  AllRead-of-Delivered (returned s) (m, inr (inl ended)) = complete m (inr ended)
  AllRead-of-Delivered (returned s) (m, inr (inr (inl (once, _)))) = cc
  AllRead-of-Delivered (returned s) (m, inr (inr (inr (e, p, may)))) = absurd (may.1 (p, refl))
  AllRead-of-Delivered (raised e n s) (m, p, may, _) = absurd (may.0 (p, refl))
  AllRead-of-Delivered fault d = d

  pub RaisesClean-of-Delivered :
      (Possible : Errno → Type 0) (mode : ℕ)
      → has mode bit_noerror ≡ true
      → (o : Outcome K) → Delivered pending Possible mode name s0 o
      → RaisesClean pending s0 o
  RaisesClean-of-Delivered Possible mode b (returned s) (m, _) = m
  RaisesClean-of-Delivered Possible mode b (raised e n s) (m, _, v, _) =
      let z = MayRaise-noerror mode s.processed e b v in let u = untouched m z in (z, u.0, u.1)
  RaisesClean-of-Delivered Possible mode b fault d = d
