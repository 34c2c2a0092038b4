-- ===== src/Transfer/Input.antt =====
-- The two reading loops, `pread` and `read`, over any call that fills a buffer.
pub mod Delivery
pub mod Rounds
pub mod Complete
use extunix.Base.{
  ℕ, zero, suc, ◌+◌, ◌-◌, ◌≤◌, ◌<◌, String, ◌≡◌, refl, sym, ap, ◌∙◌, ◌⊎◌, inl, inr, Bool, true,
  false, Option, none, some, List, [], ◌∷◌, ◌++◌, arith, ltb, leb, ◌==◌, if◌then◌else◌, length,
  memcpy, overwrite, Bool-cases,
}
use extunix.Base.Call.{Errno, eintr, is_eintr, Answer, got, failed}
use extunix.Base.Word.{add64, sub64, u64_mod}
use extunix.Transfer.Loop.{
  Vars, Outcome, returned, raised, fault, Round, next, done, iterate, has, bit_once, bit_nointr,
  Verdict, again, leave, raise, verdict, on_error, Keeps, Ends, iterate-Ends,
}

-- The end of a round that read `bs`: the copy into the buffer and the updates.
unfoldable pub store : {K : Type 0} → ℕ → Vars K → List ℕ → Round (Vars K) (Outcome K)
store {K} mode s bs = elim (memcpy s.buf s.ofs bs) [
  | none ↦ done fault
  | some buf ↦
      let s' : Vars K = record {
        off = add64 s.off (length bs);
        ofs = add64 s.ofs (length bs);
        len = sub64 s.len (length bs);
        processed = add64 s.processed (length bs);
        buf = buf;
        kernel = s.kernel;
      } in
      if has mode bit_once then done (returned s') else next s'
]

unfoldable pub receive :
    {K : Type 0} → ℕ → String → Vars K → Answer (List ℕ) × K → Round (Vars K) (Outcome K)
unfolding store on_error
receive mode name s (got bs, k) =
    let s' = record s { kernel = k } in
    if length bs == 0 then done (returned s') else store mode s' bs
receive mode name s (failed e, k) = on_error mode name (record s { kernel = k }) e

-- `call n off k` asks for `n` bytes at `off`; `chunk` bounds what one call asks for.
module _ {K : Type 0} (call : ℕ → ℕ → K → Answer (List ℕ) × K) (chunk : ℕ → ℕ) where
  unfoldable pub input_round : ℕ → String → Vars K → Round (Vars K) (Outcome K)
  unfolding receive
  input_round mode name s =
      if s.len == 0
      then done (returned s)
      else receive mode name s (call (chunk s.len) s.off s.kernel)

  unfoldable pub input_loop : ℕ → ℕ → String → Vars K → Option (Outcome K)
  unfolding input_round iterate
  input_loop fuel mode name s = iterate fuel (input_round mode name) s
