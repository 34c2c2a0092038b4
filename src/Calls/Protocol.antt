-- ===== src/Calls/Protocol.antt =====
-- How the single calls tell results from errors, and what they leave alone.
use extunix.Base.{
  ℕ, ◌+◌, ◌≤◌, String, ◌≡◌, refl, sym, ap, ◌==◌, ◌∙◌, inl, inr, some, List, length, arith,
  memcpy-fits, slice-fits, overwrite, length-overwrite, Bool-cases,
}
use extunix.Base.Int.{ℤ, pos, negsuc, int_val}
use extunix.Base.Call.{Errno, Answer, got, failed, unix_error, Result, ok, raised, check}
use extunix.Base.Stub.{Post}
use extunix.Flags.Open.{Header, defined_or}
use extunix.Endian.Laws.{slice-overwrite}
use extunix.Resource.Priority.{report}
use extunix.Calls.Process.{Peeked, peek_result, ptrace_peekdata, ptrace_peektext}
use extunix.Calls.Terminal.{Termios, with_crtscts, set_crtscts, crtscts}
use extunix.Calls.Memory.{get_substr, set_substr}

-- A system that reports as C does: a word with `errno` 0, or -1 and the error.
abbrev pub reporting : {K : Type 0} → (ℕ → ℤ → ℤ → K → Answer ℤ × K) → ℕ → ℤ → ℤ → K → Peeked × K
reporting answer request pid addr k = let (a, k') = answer request pid addr k in (report a, k')

peek_result-report : (name : String) (a : Answer ℤ) → peek_result name (report a) ≡ check name a
unfolding peek_result
peek_result-report name (got (pos n)) = refl
peek_result-report name (got (negsuc n)) = elim (Bool-cases (n == 0)) [
  | inl minus_one ↦ rw minus_one refl
  | inr other ↦ rw other refl
]
peek_result-report name (failed e) = refl

-- Where the system reports its answers as C does, and clears `errno` for a word that it finds, both
-- calls return every word, -1 among them, and raise every error.
pub ptrace_peek-check :
    {K : Type 0} (hdr : Header) (answer : ℕ → ℤ → ℤ → K → Answer ℤ × K) (v_pid v_addr : ℤ) (k : K)
    → ((ptrace_peekdata hdr (reporting answer) v_pid v_addr k).0
        ≡ check "ptrace_peekdata"
            (answer (defined_or (hdr "PTRACE_PEEKDATA") 0) (int_val v_pid) v_addr k).0)
      × ((ptrace_peektext hdr (reporting answer) v_pid v_addr k).0
          ≡ check "ptrace_peektext"
              (answer (defined_or (hdr "PTRACE_PEEKTEXT") 0) (int_val v_pid) v_addr k).0)
unfolding ptrace_peekdata ptrace_peektext
ptrace_peek-check hdr answer v_pid v_addr k = (peek_result-report _ _, peek_result-report _ _)

-- A terminal: what the two calls do to its settings.
pub data Read (t : Termios) : Answer Termios → Termios → Type 0 where
  read_all : Read t (got t) t
  unread : (e : Errno) → Read t (failed e) t

pub data Written (old new : Termios) : Answer (Unit {0}) → Termios → Type 0 where
  written : Written old new (got tt) new
  unwritten : (e : Errno) → Written old new (failed e) old

pub record IsTerminal {K : Type 0} (tcgetattr : ℤ → K → Answer Termios × K)
    (tcsetattr : ℤ → Termios → K → Answer (Unit {0}) × K) (view : ℤ → K → Termios) : Type 0 where
  pub reads : (fd : ℤ) (k : K) → let (a, k') = tcgetattr fd k in Read (view fd k) a (view fd k')
  pub writes :
      (fd : ℤ) (t : Termios) (k : K)
      → let (a, k') = tcsetattr fd t k in Written (view fd k) t a (view fd k')

-- The settings with the flag set, or an error and the settings as they were.
abbrev pub Adds : Header → Termios → Result (Unit {0}) → Termios → Type 0
Adds hdr t (ok u) t' = t' ≡ with_crtscts hdr t
Adds hdr t (raised e) t' = (t' ≡ t) × (err : Errno) × (e ≡ unix_error err "crtscts")

module _ {K : Type 0} (hdr : Header) (tcgetattr : ℤ → K → Answer Termios × K)
    (tcsetattr : ℤ → Termios → K → Answer (Unit {0}) × K) (view : ℤ → K → Termios)
    (is_terminal : IsTerminal tcgetattr tcsetattr view) where
  Written-Adds :
      (t old new' : Termios) (a : Answer (Unit {0}))
      → old ≡ t
      → Written old (with_crtscts hdr t) a new'
      → Adds hdr t (check "crtscts" a) new'
  Written-Adds t old _ _ e written = refl
  Written-Adds t old _ _ e (unwritten err) = (e, err, refl)

  set_crtscts-Adds :
      (fd : ℤ) (t t' : Termios) (a : Answer Termios) (k : K)
      → t' ≡ view fd k
      → Read t a t'
      → Adds hdr t
          (check "crtscts" (set_crtscts hdr tcsetattr fd a k).0)
          (view fd (set_crtscts hdr tcsetattr fd a k).1)
  unfolding set_crtscts
  set_crtscts-Adds fd t _ _ k e read_all =
      Written-Adds t (view fd k) (view fd (tcsetattr fd (with_crtscts hdr t) k).1)
        (tcsetattr fd (with_crtscts hdr t) k).0 (sym e)
        (is_terminal.writes fd (with_crtscts hdr t) k)
  set_crtscts-Adds fd t _ _ k e (unread err) = (sym e, err, refl)

  -- On a terminal: if `crtscts` returns, the settings are those before with the flag `CRTSCTS` set
  -- and no other change; if either call fails, it raises the error and the settings are as before.
  pub crtscts-Adds :
      (mlfd : ℤ) (k : K)
      → Post
          (λ r k'. Adds hdr (view (int_val mlfd) k) r (view (int_val mlfd) k'))
          (crtscts hdr tcgetattr tcsetattr mlfd k)
  unfolding crtscts
  crtscts-Adds mlfd k =
      let fd = int_val mlfd in
      set_crtscts-Adds fd (view fd k) (view fd (tcgetattr fd k).1) (tcgetattr fd k).0
        (tcgetattr fd k).1 refl (is_terminal.reads fd k)

-- A text that is put into a bigarray where it fits is what the same place then holds.
pub get_substr-set_substr :
    (buf str : List ℕ) (off : ℕ)
    → off + length str ≤ length buf
    → (buf' : List ℕ) × (set_substr buf off str ≡ some buf')
      × (get_substr buf' off (length str) ≡ some str)
unfolding get_substr set_substr
get_substr-set_substr buf str off h = (
  overwrite off str buf,
  memcpy-fits buf off str h,
  slice-fits (overwrite off str buf) off (length str) (omega (arith, length-overwrite off str buf))
      ∙ ap some (slice-overwrite off (length str) str buf refl h),
)
