-- ===== src/Transfer/Single.antt =====
-- `single_read` of src/unistd.c: one call, whose answer is handed on.
use extunix.Base.{
  ℕ, suc, ◌+◌, ◌≤◌, ◌<◌, ◌≡◌, refl, sym, ap, ◌∙◌, List, arith, length, overwrite, ◌==◌, memcpy-fits,
  overwrite-nothing, Bool-cases, inl, inr, false, nil-of-length,
}
use extunix.Base.Call.{Errno, Answer, got, failed}
use extunix.Base.Word.{u64_mod, add64, sub64}
use extunix.Transfer.Loop.{
  Outcome, returned, raised, start, bit_once, Ends, on_error, iterate, verdict, raise,
}
use extunix.Transfer.Input.{input_loop, input_round, receive, store}
use extunix.Transfer.Unistd
use extunix.Transfer.Unistd.{numbytes}

raises : (e : Errno) → verdict bit_once 0 e ≡ raise
unfolding verdict
raises e = ground arith

-- What `single_read` is to do with the answer to its one call.
abbrev pub OneRead : {K : Type 0} → List ℕ → ℕ → Answer (List ℕ) × K → Outcome K → Type 0
OneRead buf ofs (got bs, k') (returned s) =
    (s.processed ≡ length bs) × (s.buf ≡ overwrite ofs bs buf) × (s.kernel ≡ k')
OneRead buf ofs (failed e, k') (raised e' n s) =
    (e' ≡ e) × (s.processed ≡ 0) × (s.buf ≡ buf) × (s.kernel ≡ k')
OneRead buf ofs _ _ = ⊥

module _ {K : Type 0} (size : ℕ) (sys_read : ℕ → ℕ → K → Answer (List ℕ) × K) (fd : ℕ) where
  -- `single_read` of at least one byte into a range inside an addressable buffer, over a call that
  -- gives no more than it is asked for, hands on the answer to one call: its bytes at `ofs` and their
  -- number, or its error with the buffer as it was.
  pub single_read-OneRead :
      (buf : List ℕ) (ofs len : ℕ) (k : K)
      → 0 < len
      → ofs + len ≤ length buf
      → length buf < u64_mod
      → ((bs : List ℕ) (k' : K)
          → sys_read fd (numbytes size len) k ≡ (got bs, k')
          → length bs ≤ len)
      → (fuel : ℕ)
      → Ends
          (OneRead buf ofs (sys_read fd (numbytes size len) k))
          (Unistd.single_read size sys_read (suc fuel) fd buf ofs len k)
  unfolding Unistd.single_read
  single_read-OneRead buf ofs len k some_asked inside addressable honest fuel =
      go (sys_read fd (numbytes size len) k) refl
    where
      asks : (len == 0) ≡ false
      asks = ground arith

      go :
          (a : Answer (List ℕ) × K)
          → sys_read fd (numbytes size len) k ≡ a
          → Ends (OneRead buf ofs a) (Unistd.single_read size sys_read (suc fuel) fd buf ofs len k)
      go (got bs, k') e = elim (Bool-cases (length bs == 0)) [
        | inl nothing ↦
            let no_bytes : length bs ≡ 0 = ground arith in
            (
              returned (record (start 0 buf ofs len k) { kernel = k' }),
              rw (input_loop, iterate, input_round, receive, store, on_error, asks, e, nothing),
              (
                sym no_bytes,
                sym (
                    ap (λ t. overwrite ofs t buf) (nil-of-length bs no_bytes)
                    ∙ overwrite-nothing ofs buf),
                refl,
              ),
            )
        | inr some_bytes ↦ (
          returned (record {
            off = add64 0 (length bs);
            ofs = add64 ofs (length bs);
            len = sub64 len (length bs);
            processed = add64 0 (length bs);
            buf = overwrite ofs bs buf;
            kernel = k';
          }),
          rw (
            input_loop,
            iterate,
            input_round,
            receive,
            store,
            on_error,
            asks,
            e,
            some_bytes,
            memcpy-fits buf ofs bs (omega (arith, honest bs k' e)),
          ),
          (omega (arith, honest bs k' e), refl, refl),
        )
      ]
      go (failed err, k') e = (
        raised err "read" (record (start 0 buf ofs len k) { kernel = k' }),
        rw (input_loop, iterate, input_round, receive, store, on_error, asks, e, raises err),
        (refl, refl, refl, refl),
      )
