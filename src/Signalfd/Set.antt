-- ===== src/Signalfd/Set.antt =====
-- The set of signals that src/signalfd.c hands to the system.
use extunix.Base.{ℕ, ◌≡◌, refl, ap, ◌↔◌, ◌⊎◌, inl, inr, Option, List, [], ◌∷◌}
use extunix.Base.Int.{ℤ, int_val}
use extunix.Base.Call.{Errno, Answer, got, failed, Exn, unix_error, Result, ok, raised, check}
use extunix.Base.Stub.{uerror, and_then}
use extunix.Flags.Open.{Header}
use extunix.Base.Bits.{testbit}
use extunix.Flags.Table.{Any}
use extunix.Signalfd.Flags.{HasBit, signal_flags-bit}
use extunix.Signalfd.{add_signals, signalfd, signal_fd, signal_flags}

-- `sigaddset` adds its signal and no other, or refuses one that is no signal.
pub record IsSigset {S : Type 0} (sigaddset : ℤ → S → Answer S) (sigemptyset : S)
    (Member : ℤ → S → Type 0) (IsSignal : ℤ → Type 0) : Type 1 where
  pub empty : (z : ℤ) → Member z sigemptyset → ⊥
  pub added :
      (sig : ℤ) (s s' : S)
      → sigaddset sig s ≡ got s'
      → (IsSignal sig) × ((z : ℤ) → Member z s' ↔ ((z ≡ sig) ⊎ Member z s))
  pub refused : (sig : ℤ) (s : S) (e : Errno) → sigaddset sig s ≡ failed e → IsSignal sig → ⊥

abbrev pub All : {A : Type 0} → (A → Type 0) → List A → Type 0
All P [] = Unit
All P (x ∷ xs) = P x × All P xs

module _ {S : Type 0} (sigaddset : ℤ → S → Answer S) (sigemptyset : S) (convert : ℤ → ℤ)
    (Member : ℤ → S → Type 0) (IsSignal : ℤ → Type 0)
    (is_sigset : IsSigset sigaddset sigemptyset Member IsSignal) where
  -- A signal of OCaml is the number of a signal of the system.
  abbrev pub Stands : ℤ → Type 0
  Stands v_sig = IsSignal (convert (int_val v_sig))

  abbrev Gathered : List ℤ → S → Result S → Type 0
  Gathered vsigs s (ok s') =
      All Stands vsigs
      × ((z : ℤ) → Member z s' ↔ (Any (λ v. z ≡ convert (int_val v)) vsigs ⊎ Member z s))
  Gathered vsigs s (raised e) =
      (All Stands vsigs → ⊥) × (err : Errno) × (e ≡ unix_error err "sigaddset")

  add_signals-raised :
      (vsigs : List ℤ) (e : Exn) → add_signals sigaddset convert vsigs (raised e) ≡ raised e
  unfolding add_signals
  add_signals-raised [] e = refl
  add_signals-raised (v ∷ vs) e = add_signals-raised vs e

  add_signals-Gathered :
      (vsigs : List ℤ) (s : S) → Gathered vsigs s (add_signals sigaddset convert vsigs (ok s))
  unfolding add_signals
  add_signals-Gathered [] s = (tt, λ z. (λ m. inr m, λ u. elim u [ inl b ↦ absurd b | inr m ↦ m ]))
  add_signals-Gathered (v ∷ vs) s =
      go (sigaddset (convert (int_val v)) s) refl (λ s1. add_signals-Gathered vs s1)
    where
      after :
          (s1 : S) (r : Result S)
          → sigaddset (convert (int_val v)) s ≡ got s1
          → Gathered vs s1 r
          → Gathered (v ∷ vs) s r
      after s1 (ok s2) e (all, members) =
          let (signal, one) = is_sigset.added (convert (int_val v)) s s1 e in
          (
            (signal, all),
            λ z. (
              λ m. elim ((members z).0 m) [
                | inl later ↦ inl (inr later)
                | inr m1 ↦ elim ((one z).0 m1) [ inl here ↦ inl (inl here) | inr old ↦ inr old ]
              ],
              λ u. (members z).1 (elim u [
                | inl (inl here) ↦ inr ((one z).1 (inl here))
                | inl (inr later) ↦ inl later
                | inr old ↦ inr ((one z).1 (inr old))
              ]),
            ),
          )
      after s1 (raised x) e (bad, err, is) = (λ all. bad all.1, err, is)

      go :
          (a : Answer S)
          → sigaddset (convert (int_val v)) s ≡ a
          → ((s1 : S) → Gathered vs s1 (add_signals sigaddset convert vs (ok s1)))
          → Gathered (v ∷ vs) s (add_signals sigaddset convert vs (check "sigaddset" a))
      go (got s1) e ih = after s1 (add_signals sigaddset convert vs (ok s1)) e (ih s1)
      go (failed x) e ih =
          rw (add_signals-raised vs (unix_error x "sigaddset"))
            (λ all. is_sigset.refused (convert (int_val v)) s x e all.0, x, refl)

  -- What a call amounts to: the system gets a set of just the signals of the list and the two flags
  -- that are asked for, or one of the signals is none, and the system is not called.
  abbrev pub SignalOutcome :
      {K : Type 0}
      → Header
      → (ℤ → S → ℕ → K → Answer ℤ × K)
      → Option ℤ
      → List ℤ
      → List ℤ
      → K
      → Result ℤ × K
      → Type 0
  SignalOutcome hdr sys_signalfd vfd vsigs vflags k r =
      (All Stands vsigs
        × (ss : S) × ((z : ℤ) → Member z ss ↔ Any (λ v. z ≡ convert (int_val v)) vsigs)
        × (flags : ℕ) × ((b : ℕ) → (testbit b flags ≡ 1) ↔ Any (HasBit hdr b) vflags)
        × (r ≡ uerror "signalfd" (sys_signalfd (signal_fd vfd) ss flags) k))
      ⊎ ((All Stands vsigs → ⊥) × (err : Errno) × (r ≡ (raised (unix_error err "sigaddset"), k)))

  -- Where the system's sets are sets: if each number of the list is a signal, the system gets the set
  -- of just these signals and flags whose bits are those of `SFD_NONBLOCK` and `SFD_CLOEXEC` if they
  -- are in the list, and the stub returns what it gives or raises its error; else the stub raises an
  -- error of `sigaddset`, and the system is not called.
  pub signalfd-SignalOutcome :
      {K : Type 0} (hdr : Header) (sys_signalfd : ℤ → S → ℕ → K → Answer ℤ × K) (vfd : Option ℤ)
      (vsigs vflags : List ℤ) (k : K)
      → SignalOutcome hdr sys_signalfd vfd vsigs vflags k
          (signalfd hdr sigaddset sigemptyset convert sys_signalfd vfd vsigs vflags k)
  unfolding signalfd
  signalfd-SignalOutcome {K} hdr sys_signalfd vfd vsigs vflags k =
      go (add_signals sigaddset convert vsigs (ok sigemptyset))
        (add_signals-Gathered vsigs sigemptyset)
    where
      go :
          (r : Result S)
          → Gathered vsigs sigemptyset r
          → SignalOutcome hdr sys_signalfd vfd vsigs vflags k (
              and_then
                (r, k)
                λ ss.
                  uerror "signalfd" (sys_signalfd (signal_fd vfd) ss (signal_flags hdr vflags 0)))
      go (ok ss) (all, members) = inl (
        all,
        ss,
        λ z. (
          λ m. elim ((members z).0 m) [
            | inl a ↦ a
            | inr none_there ↦ absurd (is_sigset.empty z none_there)
          ],
          λ a. (members z).1 (inl a),
        ),
        signal_flags hdr vflags 0,
        λ b. signal_flags-bit hdr b vflags,
        refl,
      )
      go (raised x) (bad, err, is) = inr (bad, err, ap (λ y. (raised y, k)) is)
