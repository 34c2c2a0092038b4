-- ===== src/Signalfd/Tests.antt =====
-- Sets of signals as lists, of a system with the signals from 1 to 64.
use text.Mathlib.Text.{◌==◌ as str_eq}
use extunix.Base.{
  ℕ, ◌≡◌, refl, Bool, true, false, none, some, List, [], ◌∷◌, arith, leb, ◌==◌, ◌&&◌, if◌then◌else◌,
}
use extunix.Base.Int.{ℤ, pos, negsuc, signed, pattern}
use extunix.Base.Call.{Answer, got, failed, einval, unix_error, ok, raised}
use extunix.Flags.Open.{Header}
use extunix.Flags.Table.{Any}
use extunix.Signalfd.{signalfd}
use extunix.Signalfd.Set.{IsSigset, SignalOutcome, signalfd-SignalOutcome}

abbrev is_signal : ℤ → Bool
is_signal (pos n) = leb 1 n && leb n 64
is_signal (negsuc n) = false

abbrev add_to : List ℤ → ℤ → Bool → Answer (List ℤ)
add_to s sig true = got (sig ∷ s)
add_to s sig false = failed einval

abbrev add : ℤ → List ℤ → Answer (List ℤ)
add sig s = add_to s sig (is_signal sig)

-- The numbers of OCaml for the signals that it knows are negative; -7 is its interrupt.
abbrev convert_signal : ℤ → ℤ
convert_signal (pos n) = pos n
convert_signal (negsuc n) = if n == 6 then pos 2 else negsuc n

-- The state is the set of the last call, and what flags it had.
abbrev system : ℤ → List ℤ → ℕ → List ℤ × ℕ → Answer ℤ × (List ℤ × ℕ)
system fd ss flags k = (got (pos 5), (ss, flags))

abbrev linux : Header
linux name = if str_eq name "SFD_NONBLOCK" then some 2048 else some 524288

signalfd_sets :
    signalfd linux add [] convert_signal system none
      (negsuc 6 ∷ pos 15 ∷ [])
      (pos 2048 ∷ pos 3 ∷ [])
      ([], 0)
    ≡ (ok (pos 5), (pos 15 ∷ pos 2 ∷ [], 2048))
unfolding signalfd signed pattern
signalfd_sets = refl

signalfd_raises :
    signalfd linux add [] convert_signal system none (negsuc 6 ∷ pos 99 ∷ pos 15 ∷ []) [] ([], 0)
    ≡ (raised (unix_error einval "sigaddset"), ([], 0))
unfolding signalfd signed pattern
signalfd_raises = refl

add-added :
    (sig : ℤ) (s s' : List ℤ) (b : Bool)
    → is_signal sig ≡ b
    → add_to s sig b ≡ got s'
    → (is_signal sig ≡ true) × (s' ≡ sig ∷ s)
add-added sig s s' true e h = (e, cc)
add-added sig s s' false e h = cc

lists-IsSigset : IsSigset add [] (λ z s. Any (λ y. z ≡ y) s) (λ z. is_signal z ≡ true)
lists-IsSigset = record {
  empty = λ z m. m;
  added = λ sig s s' e.
      let (signal, is) = add-added sig s s' (is_signal sig) refl e in
      (signal, λ z. rw is (λ m. m, λ m. m));
  refused = λ sig s x e signal. ground arith;
}

signalfd-SignalOutcome_example :
    SignalOutcome add [] convert_signal
      (λ z s. Any (λ y. z ≡ y) s)
      (λ z. is_signal z ≡ true)
      lists-IsSigset
      linux
      system
      none
      (negsuc 6 ∷ pos 15 ∷ [])
      (pos 2048 ∷ [])
      ([], 0)
      (signalfd linux add [] convert_signal system none
        (negsuc 6 ∷ pos 15 ∷ [])
        (pos 2048 ∷ [])
        ([], 0))
signalfd-SignalOutcome_example =
    signalfd-SignalOutcome add [] convert_signal (λ z s. Any (λ y. z ≡ y) s)
      (λ z. is_signal z ≡ true) lists-IsSigset linux system none (negsuc 6 ∷ pos 15 ∷ [])
      (pos 2048 ∷ []) ([], 0)
