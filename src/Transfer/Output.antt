-- ===== src/Transfer/Output.antt =====
-- The two writing loops, `pwrite` and `write`, over any call that takes bytes.
pub mod Delivery
pub mod Rounds
pub mod Complete
use extunix.Base.{ℕ, String, ◌≡◌, Bool, Option, none, some, List, ◌==◌, if◌then◌else◌, slice}
use extunix.Base.Call.{Answer, got, failed}
use extunix.Base.Word.{add64, sub64}
use extunix.Transfer.Loop.{
  Vars, Outcome, returned, fault, Round, next, done, iterate, has, bit_once, on_error,
}

-- The end of a round of which the call took `n` bytes.
unfoldable pub account : {K : Type 0} → ℕ → Vars K → ℕ → Round (Vars K) (Outcome K)
account {K} mode s n =
    let s' : Vars K = record s {
      off = add64 s.off n;
      ofs = add64 s.ofs n;
      len = sub64 s.len n;
      processed = add64 s.processed n;
    } in
    if has mode bit_once then done (returned s') else next s'

unfoldable pub settle :
    {K : Type 0} → ℕ → String → Vars K → Answer ℕ × K → Round (Vars K) (Outcome K)
unfolding account on_error
settle mode name s (got n, k) =
    let s' = record s { kernel = k } in if n == 0 then done (returned s') else account mode s' n
settle mode name s (failed e, k) = on_error mode name (record s { kernel = k }) e

-- `call bytes off k` offers `bytes` at `off`; `chunk` bounds what one call offers.
module _ {K : Type 0} (call : List ℕ → ℕ → K → Answer ℕ × K) (chunk : ℕ → ℕ) where
  unfoldable pub output_round : ℕ → String → Vars K → Round (Vars K) (Outcome K)
  unfolding settle
  output_round mode name s =
      if s.len == 0 then done (returned s) else elim (slice s.buf s.ofs (chunk s.len)) [
        | none ↦ done fault
        | some bytes ↦ settle mode name s (call bytes s.off s.kernel)
      ]

  unfoldable pub output_loop : ℕ → ℕ → String → Vars K → Option (Outcome K)
  unfolding output_round iterate
  output_loop fuel mode name s = iterate fuel (output_round mode name) s
