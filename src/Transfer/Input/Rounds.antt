-- ===== src/Transfer/Input/Rounds.antt =====
-- Every round of a reading loop keeps what is delivered so far, and the loop ends.
use extunix.Base.{
  ℕ, ◌+◌, ◌-◌, ◌≤◌, ◌<◌, String, ◌≡◌, refl, sym, ap, ◌∙◌, ◌≢◌, inl, inr, List, [], ◌++◌, arith,
  ◌==◌, if◌then◌else◌, length, overwrite, Bool-cases, length-append, length-overwrite,
  overwrite-append, overwrite-nothing, nil-of-append, memcpy-fits,
}
use extunix.Base.Call.{Errno, eintr, Answer, got, failed}
use extunix.Base.Word.{add64, sub64}
use extunix.Transfer.Loop.{
  Vars, Outcome, returned, raised, Round, next, done, has, bit_once, Verdict, again, leave, raise,
  verdict, on_error, Keeps, Ends, iterate-Ends, verdict-again,
}
use extunix.Transfer.Errors.{verdict-MayLeave, verdict-MayRaise}
use extunix.Transfer.Input.{store, receive, input_round, input_loop}
use extunix.Transfer.Input.Delivery.{IsSource, Moving, Delivered, Fits}
use mathlib.Core.List.{append_assoc}

Moving-kernel :
    {K : Type 0} {pending : ℕ → K → List ℕ} {s0 s : Vars K} (k : K)
    → Moving pending s0 s
    → pending s.off k ≡ pending s.off s.kernel
    → Moving pending s0 (record s { kernel = k })
Moving-kernel {pending = pending} k m same = record {
  moved = m.moved;
  count = m.count;
  left = m.left;
  place = m.place;
  offset = m.offset;
  stored = m.stored;
  taken = m.taken ∙ ap (λ t. m.moved ++ t) (sym same);
}

module _ {K : Type 0} {call : ℕ → ℕ → K → Answer (List ℕ) × K} (chunk : ℕ → ℕ)
    {pending : ℕ → K → List ℕ} {Possible : Errno → Type 0} {patience : K → ℕ}
    (src : IsSource call pending Possible patience) (mode : ℕ) (name : String) (s0 : Vars K)
    (fits : Fits s0) where
  abbrev measure : Vars K → ℕ
  measure s = s.len + patience s.kernel

  abbrev KeepsDelivery : Vars K → Round (Vars K) (Outcome K) → Type 0
  KeepsDelivery = Keeps (Moving pending s0) (Delivered pending Possible mode name s0) measure

  -- The loop's variables after a round that read `bs`.
  abbrev advance : Vars K → List ℕ → K → Vars K
  advance s bs k = record {
    off = add64 s.off (length bs);
    ofs = add64 s.ofs (length bs);
    len = sub64 s.len (length bs);
    processed = add64 s.processed (length bs);
    buf = overwrite s.ofs bs s.buf;
    kernel = k;
  }

  module _ (s : Vars K) (bs : List ℕ) (k : K) (m : Moving pending s0 s)
      (small : length bs ≤ s.len) where
    buf_length : length s.buf ≡ length s0.buf
    buf_length = rw m.stored (length-overwrite s0.ofs m.moved s0.buf)

    store_step :
        store mode (record s { kernel = k }) bs
        ≡ (if has mode bit_once then done (returned (advance s bs k)) else next (advance s bs k))
    unfolding store
    store_step = rw (
      store,
      memcpy-fits s.buf s.ofs bs (omega (arith, buf_length, m.place, m.left, fits.inside)),
    )

    -- No counter wraps.
    no_wrap :
        (add64 s.off (length bs) ≡ s.off + length bs)
        × (add64 s.ofs (length bs) ≡ s.ofs + length bs)
        × (sub64 s.len (length bs) ≡ s.len - length bs)
        × (add64 s.processed (length bs) ≡ s.processed + length bs)
    no_wrap = omega (arith, m.place, m.offset, m.left, fits.inside, fits.addressable, fits.seekable)

    advance-Moving :
        pending s.off s.kernel ≡ bs ++ pending (s.off + length bs) k
        → Moving pending s0 (advance s bs k)
    advance-Moving gives = record {
      moved = m.moved ++ bs;
      count = omega (arith, no_wrap, length-append m.moved bs, m.count);
      left = omega (arith, no_wrap, m.left);
      place = omega (arith, no_wrap, m.place);
      offset = omega (arith, no_wrap, m.offset);
      stored =
          ap (overwrite s.ofs bs) m.stored
          ∙ overwrite-append s0.ofs s.ofs m.moved bs s0.buf (omega (arith, m.place, m.count));
      taken =
          m.taken
          ∙ ap (λ t. m.moved ++ t) (gives ∙ ap (λ o. bs ++ pending o k) (sym no_wrap.0))
          ∙ sym (append_assoc m.moved bs _);
    }

    store-Keeps :
        length bs ≢ 0
        → pending s.off s.kernel ≡ bs ++ pending (s.off + length bs) k
        → patience k ≤ patience s.kernel
        → KeepsDelivery s (store mode (record s { kernel = k }) bs)
    store-Keeps some_bytes gives calm = rw store_step (elim (Bool-cases (has mode bit_once)) [
      | inl once ↦
          rw once
            (advance-Moving gives, inr (inr (inl (once, ground (arith, some_bytes, no_wrap.3)))))
      | inr more ↦ rw more (advance-Moving gives, omega (arith, no_wrap))
    ])

  failed-Keeps :
      (s : Vars K) (e : Errno) (k : K)
      → Moving pending s0 s
      → Possible e
      → pending s.off k ≡ pending s.off s.kernel
      → patience k ≤ patience s.kernel
      → (e ≡ eintr → patience k < patience s.kernel)
      → KeepsDelivery s (on_error mode name (record s { kernel = k }) e)
  unfolding on_error
  failed-Keeps s e k m p same calm strict = go (verdict mode s.processed e) refl
    where
      s' : Vars K
      s' = record s { kernel = k }

      m' : Moving pending s0 s'
      m' = Moving-kernel k m same

      go :
          (v : Verdict)
          → verdict mode s.processed e ≡ v
          → KeepsDelivery s (elim v [
            | again ↦ next s'
            | leave ↦ done (returned s')
            | raise ↦ done (raised e name s')
          ])
      go again h = (m', omega (arith, strict (verdict-again mode s.processed e h)))
      go leave h = (m', inr (inr (inr (e, p, verdict-MayLeave mode s.processed e h))))
      go raise h = (m', p, verdict-MayRaise mode s.processed e h, refl)

  round-Keeps :
      ((n : ℕ) → 0 < n → (0 < chunk n) × (chunk n ≤ n))
      → (s : Vars K) → Moving pending s0 s
      → KeepsDelivery s (input_round call chunk mode name s)
  unfolding input_round
  round-Keeps chunks s m = elim (Bool-cases (s.len == 0)) [
    | inl all ↦ rw all (m, inl (ground arith))
    | inr more ↦ rw more (go (chunks s.len (ground arith)) (call (chunk s.len) s.off s.kernel) refl)
  ]
    where
      go :
          (0 < chunk s.len) × (chunk s.len ≤ s.len)
          → (a : Answer (List ℕ) × K) → call (chunk s.len) s.off s.kernel ≡ a
          → KeepsDelivery s (receive mode name s a)
      go asked (got bs, k) h = elim (Bool-cases (length bs == 0)) [
        | inl none_left ↦
            let ended : pending s.off s.kernel ≡ [] = g.2 (ground arith) asked.0 in
            let still : pending s.off k ≡ [] =
              ap (λ o. pending o k) (ground arith) ∙ nil-of-append bs _ (sym g.1 ∙ ended) in
            rw none_left (Moving-kernel k m (still ∙ sym ended), inr (inl still))
        | inr some_bytes ↦
            rw some_bytes (store-Keeps s bs k m (omega (arith, g.0)) (ground arith) g.1 g.3)
      ]
        where
          g :
              (length bs ≤ chunk s.len)
              × (pending s.off s.kernel ≡ bs ++ pending (s.off + length bs) k)
              × (length bs ≡ 0 → 0 < chunk s.len → pending s.off s.kernel ≡ [])
              × (patience k ≤ patience s.kernel)
          g = src.gives (chunk s.len) s.off s.kernel bs k h
      go asked (failed e, k) h =
          let f = src.fails (chunk s.len) s.off s.kernel e k h in
          failed-Keeps s e k m f.0 (f.1) f.2 f.3

  Moving-start : s0.processed ≡ 0 → Moving pending s0 s0
  Moving-start e = record {
    moved = [];
    count = omega arith;
    left = omega arith;
    place = omega arith;
    offset = omega arith;
    stored = sym (overwrite-nothing s0.ofs s0.buf);
    taken = refl;
  }

  -- With fuel for every byte and every interruption the loop ends, and delivers.
  pub input_loop-Delivered :
      ((n : ℕ) → 0 < n → (0 < chunk n) × (chunk n ≤ n))
      → s0.processed ≡ 0
      → (fuel : ℕ) → s0.len + patience s0.kernel < fuel
      → Ends (Delivered pending Possible mode name s0) (input_loop call chunk fuel mode name s0)
  unfolding input_loop
  input_loop-Delivered chunks e fuel enough =
      iterate-Ends (Moving pending s0) (Delivered pending Possible mode name s0) measure
        (input_round call chunk mode name) (round-Keeps chunks) fuel s0 enough (Moving-start e)
