-- ===== src/Transfer/Output/Complete.antt =====
-- Consequences of a delivery for the modes of the writing functions.
use extunix.Base.{ℕ, String, ◌≡◌, refl, inl, inr, List, [], arith, true, take, drop}
use extunix.Base.Call.{Errno, eintr}
use extunix.Transfer.Loop.{Vars, Outcome, returned, raised, fault, bit_nointr, bit_noerror, has}
use extunix.Transfer.Errors.{MayRaise-noerror}
use extunix.Transfer.Output.Delivery.{Sending, Delivered}

-- The result of `all_pwrite` or `all_write` where nothing but interruptions can fail.
abbrev pub AllWritten : {K : Type 0} → (ℕ → K → List ℕ → K → Type 0) → Vars K → Outcome K → Type 0
AllWritten Wrote s0 (returned s) =
    (s.processed ≡ s0.len)
    × (s.buf ≡ s0.buf)
    × Wrote s0.off s0.kernel (take s0.len (drop s0.ofs s0.buf)) s.kernel
AllWritten Wrote s0 _ = ⊥

-- A raise before anything was written.
abbrev pub RaisesClean : {K : Type 0} → (ℕ → K → List ℕ → K → Type 0) → Vars K → Outcome K → Type 0
RaisesClean Wrote s0 (returned s) = Sending Wrote s0 s
RaisesClean Wrote s0 (raised e n s) = (s.processed ≡ 0) × Wrote s0.off s0.kernel [] s.kernel
RaisesClean Wrote s0 fault = ⊥

module _ {K : Type 0} (Wrote : ℕ → K → List ℕ → K → Type 0) (name : String) (s0 : Vars K) where
  complete :
      (s : Vars K)
      → Sending Wrote s0 s
      → s.len ≡ 0
      → (s.processed ≡ s0.len)
        × (s.buf ≡ s0.buf)
        × Wrote s0.off s0.kernel (take s0.len (drop s0.ofs s0.buf)) s.kernel
  complete s m all =
      let e : s.processed ≡ s0.len = omega (arith, m.left) in (e, m.kept, rw e at m.written)

  pub AllWritten-of-Delivered :
      (o : Outcome K)
      → Delivered Wrote (λ e. e ≡ eintr) ⊥ bit_nointr name s0 o
      → AllWritten Wrote s0 o
  AllWritten-of-Delivered (returned s) (m, inl all) = complete s m all
  AllWritten-of-Delivered (returned s) (m, inr (inl stalled)) = absurd stalled
  AllWritten-of-Delivered (returned s) (m, inr (inr (inl (once, _)))) = cc
  AllWritten-of-Delivered (returned s) (m, inr (inr (inr (e, p, may)))) = absurd (may.1 (p, refl))
  AllWritten-of-Delivered (raised e n s) (m, p, may, _) = absurd (may.0 (p, refl))
  AllWritten-of-Delivered fault d = d

  pub RaisesClean-of-Delivered :
      (Possible : Errno → Type 0) (Stalls : Type 0) (mode : ℕ)
      → has mode bit_noerror ≡ true
      → (o : Outcome K) → Delivered Wrote Possible Stalls mode name s0 o
      → RaisesClean Wrote s0 o
  RaisesClean-of-Delivered Possible Stalls mode b (returned s) (m, _) = m
  RaisesClean-of-Delivered Possible Stalls mode b (raised e n s) (m, _, v, _) =
      let z = MayRaise-noerror mode s.processed e b v in (z, rw z at m.written)
  RaisesClean-of-Delivered Possible Stalls mode b fault d = d
