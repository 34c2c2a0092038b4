-- ===== src/Flags/Syslog/Copies.antt =====
-- The stubs of src/syslog.c keep one copy of the identity at most, on every path.
use extunix.Base.{
  ℕ, String, ◌≡◌, Option, none, some, List, [], ◌∷◌, arith, ltb, length, Bool-cases, inl, inr,
}
use extunix.Base.Call.{Result}
use extunix.Flags.Open.{Header}
use extunix.Flags.Syslog.{Log, openlog, closelog, syslog, drop_ident, copy_ident, facility_table}

-- What an identity needs.
abbrev pub held : Option String → ℕ
held none = 0
held (some _) = 1

-- The identity's copy is all that is allocated.
abbrev pub OwnsIdent : {K : Type 0} → Log K → Type 0
OwnsIdent s = s.copies ≡ held s.ident

-- The calls of a client.
pub data LogCall : Type 0 where
  open_call : Option String → List ℕ → ℕ → LogCall
  close_call : LogCall
  log_call : Option ℕ → ℕ → String → LogCall

module _ {K : Type 0} (hdr : Header) (convert : List ℕ → List ℕ → ℕ)
    (sys_openlog : Option String → ℕ → ℕ → K → K) (sys_closelog : K → K)
    (sys_syslog : ℕ → String → K → K) where
  unfoldable pub log_step : LogCall → Log K → Result (Unit {0}) × Log K
  unfolding openlog closelog syslog
  log_step (open_call i o f) s = openlog hdr convert sys_openlog i o f s
  log_step close_call s = closelog hdr convert sys_closelog s
  log_step (log_call f l str) s = syslog hdr convert sys_syslog f l str s

  unfoldable pub log_run : List LogCall → Log K → Log K
  unfolding log_step
  log_run [] s = s
  log_run (c ∷ cs) s = log_run cs (log_step c s).1

  drop_ident-copies : (s : Log K) → OwnsIdent s → ((drop_ident s).copies ≡ 0)
  unfolding drop_ident
  drop_ident-copies s h = ground arith

  copy_ident-OwnsIdent : (i : Option String) (s : Log K) → s.copies ≡ 0 → OwnsIdent (copy_ident i s)
  unfolding copy_ident
  copy_ident-OwnsIdent none s h = h
  copy_ident-OwnsIdent (some name) s h = omega arith

  openlog-OwnsIdent :
      (i : Option String) (o : List ℕ) (f : ℕ) (s : Log K)
      → OwnsIdent s
      → OwnsIdent (openlog hdr convert sys_openlog i o f s).1
  unfolding openlog
  openlog-OwnsIdent i o f s h =
      let copied = copy_ident-OwnsIdent i (drop_ident s) (drop_ident-copies s h) in
      elim (Bool-cases (ltb f (length (facility_table hdr)))) [
        | inl known ↦ rw known copied
        | inr unknown ↦ rw unknown copied
      ]

  syslog-OwnsIdent :
      (f : Option ℕ) (l : ℕ) (str : String) (s : Log K)
      → OwnsIdent s
      → OwnsIdent (syslog hdr convert sys_syslog f l str s).1
  unfolding syslog
  syslog-OwnsIdent f l str s h = ground arith

  log_step-OwnsIdent : (c : LogCall) (s : Log K) → OwnsIdent s → OwnsIdent (log_step c s).1
  unfolding log_step closelog
  log_step-OwnsIdent (open_call i o f) s h = openlog-OwnsIdent i o f s h
  log_step-OwnsIdent close_call s h = h
  log_step-OwnsIdent (log_call f l str) s h = syslog-OwnsIdent f l str s h

  -- Whatever calls a client makes, with failed assertions among them, at most the copy that `ident`
  -- points to is allocated afterwards: nothing leaks and nothing is freed twice, if it was so before.
  pub log_run-OwnsIdent : (cs : List LogCall) (s : Log K) → OwnsIdent s → OwnsIdent (log_run cs s)
  unfolding log_run
  log_run-OwnsIdent [] s h = h
  log_run-OwnsIdent (c ∷ cs) s h = log_run-OwnsIdent cs (log_step c s).1 (log_step-OwnsIdent c s h)
