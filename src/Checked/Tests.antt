-- ===== src/Checked/Tests.antt =====
-- The checks in front of the loops, on the device of the transfer tests.
use extunix.Base.{ℕ, bit_or, ◌≡◌, refl, some, List, [], ◌∷◌, arith, memcpy}
use extunix.Base.Int.{pos, negsuc, pattern}
use extunix.Base.Call.{eintr}
use extunix.Transfer.Loop.{fault, bit_once, bit_noerror, bit_nointr}
use extunix.Transfer.Device.{interrupt, short, Device, from, dev_pread, dev_pread-IsSource}
use extunix.Transfer.Device.Streams.{dev_pwrite, Overwritten, dev_pwrite-IsSink}
use extunix.Checked
use extunix.Checked.{invalid_arg, ran}
use extunix.Checked.Safe.{PreadRuns, pread-Runs, PwriteRuns, pwrite-Runs}

abbrev bumpy : Device
bumpy = record { content = 11 ∷ 12 ∷ 13 ∷ 14 ∷ 15 ∷ 16 ∷ []; turns = interrupt ∷ short 0 ∷ [] }

abbrev buffer : List ℕ
buffer = 1 ∷ 2 ∷ 3 ∷ 4 ∷ []

refused_run :
    Checked.all_pread 3 dev_pread 20 0 (pos 0) buffer (pos 2) (pos 3) bumpy
    ≡ invalid_arg "ExtUnix.all_pread"
unfolding Checked.all_pread
refused_run = refl

negative_run :
    Checked.write 3 (λ fd bs k. dev_pwrite fd bs 0 k) 20 0 buffer (negsuc 0) (pos 3) bumpy
    ≡ invalid_arg "ExtUnix.write"
unfolding Checked.write
negative_run = refl

-- `LargeFile` lets the same range through, and the loop leaves the buffer.
large_file_run :
    Checked.all_pread64 3 dev_pread 20 0
      (pos 0)
      buffer
      (pos 2)
      (pos 3)
      (record bumpy { turns = [] })
    ≡ ran (some fault)
unfolding Checked.all_pread64 pattern memcpy
large_file_run = refl

pread-Runs_example :
    PreadRuns from
      (λ e. e ≡ eintr)
      (pos 1)
      buffer
      (pos 1)
      (pos 3)
      bumpy
      "ExtUnix.all_pread"
      bit_nointr
      (Checked.all_pread 3 dev_pread 20 0 (pos 1) buffer (pos 1) (pos 3) bumpy)
    × PreadRuns from
        (λ e. e ≡ eintr)
        (pos 1)
        buffer
        (pos 1)
        (pos 3)
        bumpy
        "ExtUnix.single_pread"
        bit_once
        (Checked.single_pread 3 dev_pread 20 0 (pos 1) buffer (pos 1) (pos 3) bumpy)
    × PreadRuns from
        (λ e. e ≡ eintr)
        (pos 1)
        buffer
        (pos 1)
        (pos 3)
        bumpy
        "ExtUnix.pread"
        (bit_or bit_nointr bit_noerror)
        (Checked.pread 3 dev_pread 20 0 (pos 1) buffer (pos 1) (pos 3) bumpy)
    × PreadRuns from
        (λ e. e ≡ eintr)
        (pos 1)
        buffer
        (pos 1)
        (pos 3)
        bumpy
        "ExtUnix.intr_pread"
        bit_noerror
        (Checked.intr_pread 3 dev_pread 20 0 (pos 1) buffer (pos 1) (pos 3) bumpy)
pread-Runs_example =
    pread-Runs 3 (omega arith) dev_pread 0 (dev_pread-IsSource 0) (pos 1) buffer (pos 1) (pos 3)
      bumpy (omega arith) (omega arith) (omega arith) (omega arith) 20 (omega arith)

pwrite-Runs_example :
    PwriteRuns Overwritten
      (λ e. e ≡ eintr)
      ⊥
      (pos 1)
      buffer
      (pos 1)
      (pos 3)
      bumpy
      "ExtUnix.all_pwrite"
      bit_nointr
      (Checked.all_pwrite 3 dev_pwrite 20 0 (pos 1) buffer (pos 1) (pos 3) bumpy)
    × PwriteRuns Overwritten
        (λ e. e ≡ eintr)
        ⊥
        (pos 1)
        buffer
        (pos 1)
        (pos 3)
        bumpy
        "ExtUnix.single_pwrite"
        bit_once
        (Checked.single_pwrite 3 dev_pwrite 20 0 (pos 1) buffer (pos 1) (pos 3) bumpy)
    × PwriteRuns Overwritten
        (λ e. e ≡ eintr)
        ⊥
        (pos 1)
        buffer
        (pos 1)
        (pos 3)
        bumpy
        "ExtUnix.pwrite"
        (bit_or bit_nointr bit_noerror)
        (Checked.pwrite 3 dev_pwrite 20 0 (pos 1) buffer (pos 1) (pos 3) bumpy)
    × PwriteRuns Overwritten
        (λ e. e ≡ eintr)
        ⊥
        (pos 1)
        buffer
        (pos 1)
        (pos 3)
        bumpy
        "ExtUnix.intr_pwrite"
        bit_noerror
        (Checked.intr_pwrite 3 dev_pwrite 20 0 (pos 1) buffer (pos 1) (pos 3) bumpy)
pwrite-Runs_example =
    pwrite-Runs 3 (omega arith) dev_pwrite 0 (dev_pwrite-IsSink 0) (pos 1) buffer (pos 1) (pos 3)
      bumpy (omega arith) (omega arith) (omega arith) (omega arith) 20 (omega arith)
