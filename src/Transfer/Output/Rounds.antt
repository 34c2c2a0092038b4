-- ===== src/Transfer/Output/Rounds.antt =====
-- Every round of a writing loop keeps what is delivered so far, and the loop ends.
use extunix.Base.{
  ℕ, ◌+◌, ◌-◌, ◌≤◌, ◌<◌, String, ◌≡◌, refl, sym, ap, ◌≢◌, inl, inr, List, [], ◌++◌, arith, ◌==◌,
  length, take, drop, slice-fits, Bool-cases, length-take, length-drop, take-split, drop-drop,
  take-take,
}
use extunix.Base.Call.{Errno, eintr, Answer, got, failed}
use extunix.Base.Word.{add64, sub64}
use extunix.Transfer.Loop.{
  Vars, Outcome, returned, raised, Round, next, done, has, bit_once, Verdict, again, leave, raise,
  verdict, on_error, Keeps, Ends, iterate-Ends, verdict-again,
}
use extunix.Transfer.Errors.{verdict-MayLeave, verdict-MayRaise}
use extunix.Transfer.Input.Delivery.{Fits}
use extunix.Transfer.Output.{account, settle, output_round, output_loop}
use extunix.Transfer.Output.Delivery.{IsSink, Sending, Delivered}
use mathlib.Core.List.{append-nil}
use mathlib.Core.Path.{subst}

module _ {K : Type 0} {call : List ℕ → ℕ → K → Answer ℕ × K} (chunk : ℕ → ℕ)
    {Wrote : ℕ → K → List ℕ → K → Type 0} {Possible : Errno → Type 0} {Stalls : Type 0}
    {patience : K → ℕ} (sink : IsSink call Wrote Possible Stalls patience) (mode : ℕ)
    (name : String) (s0 : Vars K) (fits : Fits s0) where
  abbrev measure : Vars K → ℕ
  measure s = s.len + patience s.kernel

  abbrev KeepsDelivery : Vars K → Round (Vars K) (Outcome K) → Type 0
  KeepsDelivery = Keeps (Sending Wrote s0) (Delivered Wrote Possible Stalls mode name s0) measure

  -- The loop's variables after a round that wrote `n` bytes.
  abbrev advance : Vars K → ℕ → K → Vars K
  advance s n k = record s {
    off = add64 s.off n;
    ofs = add64 s.ofs n;
    len = sub64 s.len n;
    processed = add64 s.processed n;
    kernel = k;
  }

  front_length :
      (s : Vars K)
      → Sending Wrote s0 s
      → length (take s.processed (drop s0.ofs s0.buf)) ≡ s.processed
  front_length s m = omega (
    arith,
    length-take s.processed (drop s0.ofs s0.buf),
    length-drop s0.ofs s0.buf,
    m.left,
    fits.inside,
  )

  module _ (s : Vars K) (n : ℕ) (k : K) (m : Sending Wrote s0 s) (small : n ≤ s.len)
      (wrote : Wrote s.off s.kernel (take n (drop s.ofs s.buf)) k) where
    no_wrap :
        (add64 s.off n ≡ s.off + n)
        × (add64 s.ofs n ≡ s.ofs + n)
        × (sub64 s.len n ≡ s.len - n)
        × (add64 s.processed n ≡ s.processed + n)
    no_wrap = omega (arith, m.place, m.offset, m.left, fits.inside, fits.addressable, fits.seekable)

    joined :
        take s.processed (drop s0.ofs s0.buf) ++ take n (drop s.ofs s.buf)
        ≡ take (s.processed + n) (drop s0.ofs s0.buf)
    joined =
        rw (m.kept, ← drop-drop s0.ofs s.processed s.ofs s0.buf m.place)
          (sym (take-split s.processed n _ (drop s0.ofs s0.buf) refl))

    written_on : Wrote s0.off s0.kernel (take (s.processed + n) (drop s0.ofs s0.buf)) k
    written_on = rw joined at (
        sink.joins s0.off s.off s0.kernel s.kernel k (take s.processed (drop s0.ofs s0.buf))
          (take n (drop s.ofs s.buf)) (omega (arith, m.offset, front_length s m)) m.written wrote)

    advance-Sending : Sending Wrote s0 (advance s n k)
    advance-Sending = record {
      left = omega (arith, no_wrap, m.left);
      place = omega (arith, no_wrap, m.place);
      offset = omega (arith, no_wrap, m.offset);
      kept = m.kept;
      written = rw no_wrap.3 written_on;
    }

    account-Keeps :
        n ≢ 0
        → patience k ≤ patience s.kernel
        → KeepsDelivery s (account mode (record s { kernel = k }) n)
    unfolding account
    account-Keeps some_bytes calm = elim (Bool-cases (has mode bit_once)) [
      | inl once ↦
          rw once (advance-Sending, inr (inr (inl (once, ground (arith, some_bytes, no_wrap.3)))))
      | inr more ↦ rw more (advance-Sending, omega (arith, no_wrap))
    ]

  Sending-kernel :
      (s : Vars K) (k : K)
      → Sending Wrote s0 s
      → Wrote s.off s.kernel [] k
      → Sending Wrote s0 (record s { kernel = k })
  Sending-kernel s k m w = record {
    left = m.left;
    place = m.place;
    offset = m.offset;
    kept = m.kept;
    written = rw append-nil at (
        sink.joins s0.off s.off s0.kernel s.kernel k (take s.processed (drop s0.ofs s0.buf)) []
          (omega (arith, m.offset, front_length s m)) m.written w);
  }

  failed-Keeps :
      (s : Vars K) (e : Errno) (k : K)
      → Sending Wrote s0 s
      → Possible e
      → Wrote s.off s.kernel [] k
      → patience k ≤ patience s.kernel
      → (e ≡ eintr → patience k < patience s.kernel)
      → KeepsDelivery s (on_error mode name (record s { kernel = k }) e)
  unfolding on_error
  failed-Keeps s e k m p same calm strict = go (verdict mode s.processed e) refl
    where
      s' : Vars K
      s' = record s { kernel = k }

      m' : Sending Wrote s0 s'
      m' = Sending-kernel s k m same

      go :
          (v : Verdict)
          → verdict mode s.processed e ≡ v
          → KeepsDelivery s (elim v [
            | again ↦ next s'
            | leave ↦ done (returned s')
            | raise ↦ done (raised e name s')
          ])
      go again h = (m', omega (arith, strict (verdict-again mode s.processed e h)))
      go leave h = (m', inr (inr (inr (e, p, verdict-MayLeave mode s.processed e h))))
      go raise h = (m', p, verdict-MayRaise mode s.processed e h, refl)

  settle-Keeps :
      (s : Vars K)
      → Sending Wrote s0 s
      → (0 < chunk s.len) × (chunk s.len ≤ s.len)
      → (a : Answer ℕ × K) → call (take (chunk s.len) (drop s.ofs s.buf)) s.off s.kernel ≡ a
      → KeepsDelivery s (settle mode name s a)
  unfolding settle
  settle-Keeps s m asked (failed e, k) h =
      let f = sink.fails _ s.off s.kernel e k h in failed-Keeps s e k m f.0 f.1 f.2 f.3
  settle-Keeps s m asked (got n, k) h = elim (Bool-cases (n == 0)) [
    | inl stalled ↦
        let zero_taken : n ≡ 0 = ground arith in
        let nothing : take n offered ≡ [] = ap (λ t. take t offered) zero_taken in
        rw stalled (
          Sending-kernel s k m (subst (λ t. Wrote s.off s.kernel t k) nothing g.1),
          inr (inl (g.2 (ground arith) (omega (arith, asked, offered_length)))),
        )
    | inr some_bytes ↦ rw some_bytes (
        account-Keeps s n k m (omega (arith, asked, g.0, offered_length))
          (rw (take-take n (chunk s.len) (drop s.ofs s.buf) (omega (arith, g.0, offered_length))) at
            g.1)
          (ground arith) g.3)
  ]
    where
      offered : List ℕ
      offered = take (chunk s.len) (drop s.ofs s.buf)

      offered_length : length offered ≡ chunk s.len
      offered_length = omega (
        arith,
        asked,
        length-take (chunk s.len) (drop s.ofs s.buf),
        length-drop s.ofs s.buf,
        m.place,
        m.left,
        fits.inside,
        ap length m.kept,
      )

      g :
          (n ≤ length offered)
          × Wrote s.off s.kernel (take n offered) k
          × (n ≡ 0 → 0 < length offered → Stalls)
          × (patience k ≤ patience s.kernel)
      g = sink.takes offered s.off s.kernel n k h

  round-Keeps :
      ((n : ℕ) → 0 < n → (0 < chunk n) × (chunk n ≤ n))
      → (s : Vars K) → Sending Wrote s0 s
      → KeepsDelivery s (output_round call chunk mode name s)
  unfolding output_round
  round-Keeps chunks s m = elim (Bool-cases (s.len == 0)) [
    | inl all ↦ rw all (m, inl (ground arith))
    | inr more ↦
        let asked = chunks s.len (ground arith) in
        rw
          (
            more,
            slice-fits s.buf s.ofs (chunk s.len)
                (omega (arith, asked, m.place, m.left, fits.inside, ap length m.kept)),
          )
          (settle-Keeps s m asked (call (take (chunk s.len) (drop s.ofs s.buf)) s.off s.kernel)
            refl)
  ]

  Sending-start : s0.processed ≡ 0 → Sending Wrote s0 s0
  Sending-start e = record {
    left = omega arith;
    place = omega arith;
    offset = omega arith;
    kept = refl;
    written = rw e (sink.nothing s0.off s0.kernel);
  }

  -- With fuel for every byte and every interruption the loop ends, and delivers.
  pub output_loop-Delivered :
      ((n : ℕ) → 0 < n → (0 < chunk n) × (chunk n ≤ n))
      → s0.processed ≡ 0
      → (fuel : ℕ) → s0.len + patience s0.kernel < fuel
      → Ends
          (Delivered Wrote Possible Stalls mode name s0)
          (output_loop call chunk fuel mode name s0)
  unfolding output_loop
  output_loop-Delivered chunks e fuel enough =
      iterate-Ends (Sending Wrote s0) (Delivered Wrote Possible Stalls mode name s0) measure
        (output_round call chunk mode name) (round-Keeps chunks) fuel s0 enough (Sending-start e)
