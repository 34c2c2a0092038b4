-- ===== src/Checked/Safe.antt =====
-- With the checks of src/extUnix.pp.ml no argument leads a loop of src/unistd.c out of the buffer.
use native.Mathlib.Nat.{mod-eq_of_lt}
use extunix.Base.{
  ℕ, ◌+◌, ◌-◌, ◌^◌, ◌≤◌, ◌<◌, String, ◌≡◌, refl, inl, inr, true, false, Option, List, arith, ltb,
  leb, length, bit_or, Bool-cases,
}
use extunix.Base.Int.{ℤ, pos, negsuc, pattern, InSigned}
use extunix.Base.Call.{Errno, Answer}
use extunix.Transfer.Loop.{Outcome, Ends, start, bit_once, bit_noerror, bit_nointr}
use extunix.Transfer.Input.Delivery.{IsSource, Delivered as DeliveredIn}
use extunix.Transfer.Output.Delivery.{IsSink, Delivered as DeliveredOut}
use extunix.Transfer.Reading.{pread_common-Delivered}
use extunix.Transfer.Writing.{pwrite_common-Delivered}
use extunix.Checked.{Checked, invalid_arg, ran, checked_at, room, is_above}
use extunix.Checked
use extunix.Transfer.Unistd

-- The arguments are numbers from 0 on, and the range lies in a buffer of `size` bytes.
abbrev pub IsRange : ℤ → ℤ → ℤ → ℕ → ℕ → ℕ → ℕ → Type 0
IsRange off ofs len size o w n = (off ≡ pos o) × (ofs ≡ pos w) × (len ≡ pos n) × (w + n ≤ size)

-- Arguments that are no range are refused, and others lead to a result for which `P` holds.
abbrev pub Runs :
    {A : Type 0} → String → ℤ → ℤ → ℤ → ℕ → (ℕ → ℕ → ℕ → A → Type 0) → Checked A → Type 0
Runs name off ofs len size P (invalid_arg m) =
    (m ≡ name) × ((o w n : ℕ) → IsRange off ofs len size o w n → ⊥)
Runs name off ofs len size P (ran a) =
    (o : ℕ) × (w : ℕ) × (n : ℕ) × IsRange off ofs len size o w n × P o w n a

no_range :
    (w n size : ℕ) (off : ℤ)
    → is_above (pos w) (room size (pos n)) ≡ true
    → (o' w' n' : ℕ) → IsRange off (pos w) (pos n) size o' w' n'
    → ⊥
no_range w n size off e o' w' n' (_, ew, en, inside) =
    let same : w ≡ w' = cc in
    let same' : n ≡ n' = cc in
    elim (Bool-cases (leb n size)) [
      | inl fits ↦ let e' : ltb (size - n) w ≡ true = rw fits at e in ground arith
      | inr long ↦ ground arith
    ]

in_range : (w n size : ℕ) → is_above (pos w) (room size (pos n)) ≡ false → w + n ≤ size
in_range w n size e = elim (Bool-cases (leb n size)) [
  | inl fits ↦ let e' : ltb (size - n) w ≡ false = rw fits at e in ground arith
  | inr long ↦ let e' : true ≡ false = rw long at e in cc
]

checked_at-Runs :
    {A : Type 0} (name : String) (off ofs len : ℤ) (size : ℕ) (P : ℕ → ℕ → ℕ → A → Type 0)
    (call : ℕ → ℕ → ℕ → A)
    → InSigned (2 ^ 62) off
    → InSigned (2 ^ 62) ofs
    → InSigned (2 ^ 62) len
    → ((o w n : ℕ) → o < 2 ^ 62 → IsRange off ofs len size o w n → P o w n (call o w n))
    → Runs name off ofs len size P (checked_at name off ofs len size call)
unfolding checked_at pattern
checked_at-Runs name (negsuc o) ofs len size P call so sw sn holds = (refl, λ o' w' n' r. cc)
checked_at-Runs name (pos o) (negsuc w) len size P call so sw sn holds = (refl, λ o' w' n' r. cc)
checked_at-Runs name (pos o) (pos w) (negsuc n) size P call so sw sn holds =
    (refl, λ o' w' n' r. cc)
checked_at-Runs name (pos o) (pos w) (pos n) size P call so sw sn holds =
    elim (Bool-cases (is_above (pos w) (room size (pos n)))) [
      | inl above ↦ rw above (refl, no_range w n size (pos o) above)
      | inr below ↦
          rw
            (
              below,
              mod-eq_of_lt {n = o} {m = 2 ^ 64} (omega arith),
              mod-eq_of_lt {n = w} {m = 2 ^ 64} (omega arith),
              mod-eq_of_lt {n = n} {m = 2 ^ 64} (omega arith),
            )
            (let range : IsRange (pos o) (pos w) (pos n) size o w n =
                (refl, refl, refl, in_range w n size below) in
              (o, w, n, range, holds o w n so range))
    ]

-- The arguments are refused, or the loop delivers in its mode.
abbrev pub PreadRuns :
    {K : Type 0}
    → (ℕ → K → List ℕ)
    → (Errno → Type 0)
    → ℤ
    → List ℕ
    → ℤ
    → ℤ
    → K
    → String
    → ℕ
    → Checked (Option (Outcome K))
    → Type 0
PreadRuns pending Possible off buf ofs len k name mode =
    Runs name off ofs len (length buf)
      (λ o w n. Ends (DeliveredIn pending Possible mode "pread" (start o buf w n k)))

module _ {K : Type 0} (size : ℕ) (positive : 0 < size) (sys : ℕ → ℕ → ℕ → K → Answer (List ℕ) × K)
    (fd : ℕ) {pending : ℕ → K → List ℕ} {Possible : Errno → Type 0} {patience : K → ℕ}
    (src : IsSource (sys fd) pending Possible patience) (off : ℤ) (buf : List ℕ) (ofs len : ℤ)
    (k : K) (off_int : InSigned (2 ^ 62) off) (ofs_int : InSigned (2 ^ 62) ofs)
    (len_int : InSigned (2 ^ 62) len) (addressable : length buf < 2 ^ 62) (fuel : ℕ)
    (enough : length buf + patience k < fuel) where
  pread_mode-Runs :
      (name : String) (mode : ℕ)
      → PreadRuns pending Possible off buf ofs len k name mode (
          checked_at name off ofs len
            (length buf)
            λ o w n. Unistd.pread_common size sys fuel fd o buf w n mode k)
  pread_mode-Runs name mode =
      checked_at-Runs name off ofs len (length buf)
        (λ o w n. Ends (DeliveredIn pending Possible mode "pread" (start o buf w n k)))
        (λ o w n. Unistd.pread_common size sys fuel fd o buf w n mode k) off_int ofs_int len_int
        λ o w n small range.
          pread_common-Delivered size positive sys fd src o buf w n k range.3 (omega arith)
            (omega (arith, range.3)) fuel (omega (arith, range.3)) mode

  -- For a source that meets `IsSource`, a positive buffer size, arguments that are 63-bit integers of OCaml, a
  -- buffer that OCaml can have and fuel for all of it: each of the four functions refuses arguments
  -- that are negative or a range outside the buffer, and no others, with its own name and no call;
  -- else it ends without an access outside the buffer and delivers what its mode promises.
  pub pread-Runs :
      PreadRuns pending Possible off buf ofs len k "ExtUnix.all_pread" bit_nointr
        (Checked.all_pread size sys fuel fd off buf ofs len k)
      × PreadRuns pending Possible off buf ofs len k "ExtUnix.single_pread" bit_once
          (Checked.single_pread size sys fuel fd off buf ofs len k)
      × PreadRuns pending Possible off buf ofs len k "ExtUnix.pread"
          (bit_or bit_nointr bit_noerror)
          (Checked.pread size sys fuel fd off buf ofs len k)
      × PreadRuns pending Possible off buf ofs len k "ExtUnix.intr_pread" bit_noerror
          (Checked.intr_pread size sys fuel fd off buf ofs len k)
  unfolding Checked.all_pread Checked.single_pread Checked.pread Checked.intr_pread Unistd.all_pread
      Unistd.single_pread Unistd.pread Unistd.intr_pread
  pread-Runs = (
    pread_mode-Runs "ExtUnix.all_pread" bit_nointr,
    pread_mode-Runs "ExtUnix.single_pread" bit_once,
    pread_mode-Runs "ExtUnix.pread" (bit_or bit_nointr bit_noerror),
    pread_mode-Runs "ExtUnix.intr_pread" bit_noerror,
  )

-- The arguments are refused, or the loop delivers in its mode.
abbrev pub PwriteRuns :
    {K : Type 0}
    → (ℕ → K → List ℕ → K → Type 0)
    → (Errno → Type 0)
    → Type 0
    → ℤ
    → List ℕ
    → ℤ
    → ℤ
    → K
    → String
    → ℕ
    → Checked (Option (Outcome K))
    → Type 0
PwriteRuns Wrote Possible Stalls off buf ofs len k name mode =
    Runs name off ofs len (length buf)
      (λ o w n. Ends (DeliveredOut Wrote Possible Stalls mode "pwrite" (start o buf w n k)))

module _ {K : Type 0} (size : ℕ) (positive : 0 < size) (sys : ℕ → List ℕ → ℕ → K → Answer ℕ × K)
    (fd : ℕ) {Wrote : ℕ → K → List ℕ → K → Type 0} {Possible : Errno → Type 0} {Stalls : Type 0}
    {patience : K → ℕ} (sink : IsSink (sys fd) Wrote Possible Stalls patience) (off : ℤ)
    (buf : List ℕ) (ofs len : ℤ) (k : K) (off_int : InSigned (2 ^ 62) off)
    (ofs_int : InSigned (2 ^ 62) ofs) (len_int : InSigned (2 ^ 62) len)
    (addressable : length buf < 2 ^ 62) (fuel : ℕ) (enough : length buf + patience k < fuel) where
  pwrite_mode-Runs :
      (name : String) (mode : ℕ)
      → PwriteRuns Wrote Possible Stalls off buf ofs len k name mode (
          checked_at name off ofs len
            (length buf)
            λ o w n. Unistd.pwrite_common size sys fuel fd o buf w n mode k)
  pwrite_mode-Runs name mode =
      checked_at-Runs name off ofs len (length buf)
        (λ o w n. Ends (DeliveredOut Wrote Possible Stalls mode "pwrite" (start o buf w n k)))
        (λ o w n. Unistd.pwrite_common size sys fuel fd o buf w n mode k) off_int ofs_int len_int
        λ o w n small range.
          pwrite_common-Delivered size positive sys fd sink o buf w n k range.3 (omega arith)
            (omega (arith, range.3)) fuel (omega (arith, range.3)) mode

  -- For a sink that meets `IsSink`, a positive buffer size, arguments that are 63-bit integers of OCaml, a
  -- buffer that OCaml can have and fuel for all of it: each of the four functions refuses arguments
  -- that are negative or a range outside the buffer, and no others, with its own name and no call;
  -- else it ends without an access outside the buffer and delivers what its mode promises.
  pub pwrite-Runs :
      PwriteRuns Wrote Possible Stalls off buf ofs len k "ExtUnix.all_pwrite" bit_nointr
        (Checked.all_pwrite size sys fuel fd off buf ofs len k)
      × PwriteRuns Wrote Possible Stalls off buf ofs len k "ExtUnix.single_pwrite" bit_once
          (Checked.single_pwrite size sys fuel fd off buf ofs len k)
      × PwriteRuns Wrote Possible Stalls off buf ofs len k "ExtUnix.pwrite"
          (bit_or bit_nointr bit_noerror)
          (Checked.pwrite size sys fuel fd off buf ofs len k)
      × PwriteRuns Wrote Possible Stalls off buf ofs len k "ExtUnix.intr_pwrite" bit_noerror
          (Checked.intr_pwrite size sys fuel fd off buf ofs len k)
  unfolding Checked.all_pwrite Checked.single_pwrite Checked.pwrite Checked.intr_pwrite
      Unistd.all_pwrite Unistd.single_pwrite Unistd.pwrite Unistd.intr_pwrite
  pwrite-Runs = (
    pwrite_mode-Runs "ExtUnix.all_pwrite" bit_nointr,
    pwrite_mode-Runs "ExtUnix.single_pwrite" bit_once,
    pwrite_mode-Runs "ExtUnix.pwrite" (bit_or bit_nointr bit_noerror),
    pwrite_mode-Runs "ExtUnix.intr_pwrite" bit_noerror,
  )
