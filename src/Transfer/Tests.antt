-- ===== src/Transfer/Tests.antt =====
-- The transfer functions on a concrete device: runs, and the theorems at concrete inputs.
use extunix.Base.{ℕ, ◌≡◌, refl, List, [], ◌∷◌, arith, some, memcpy, Option}
use extunix.Base.Call.{eintr}
use extunix.Transfer.Loop.{Outcome, returned, start, bit_noerror, Ends}
use extunix.Transfer.Input
use extunix.Transfer.Output
use extunix.Transfer.Unistd
use extunix.Transfer.Unistd.{numbytes}
use extunix.Transfer.Bigarray
use extunix.Transfer.Device.{interrupt, short, Device, from, dev_pread, dev_pread-IsSource}
use extunix.Transfer.Device.Streams.{
  dev_read, dev_pwrite, dev_write, Appended, Overwritten, dev_read-IsSource, dev_pwrite-IsSink,
  dev_write-IsSink,
}
use extunix.Transfer.Reading.{
  pread_common-Delivered, pread-RaisesClean, all_pread-AllRead, all_read-AllRead,
}
use extunix.Transfer.Agreement.{all_pread-Agree, Agree}
use extunix.Transfer.Writing.{
  pwrite_common-Delivered, intr_pwrite-RaisesClean, all_write-AllWritten,
}

abbrev bumpy : Device
bumpy = record {
  content = 11 ∷ 12 ∷ 13 ∷ 14 ∷ 15 ∷ 16 ∷ 17 ∷ 18 ∷ [];
  turns = interrupt ∷ short 0 ∷ interrupt ∷ [];
}

abbrev buffer : List ℕ
buffer = 1 ∷ 2 ∷ 3 ∷ 4 ∷ 5 ∷ 6 ∷ 7 ∷ []

-- The count and the buffer of a normal return.
abbrev summary : Option (Outcome Device) → List ℕ
summary (some (returned s)) = s.processed ∷ s.buf
summary _ = []

all_pread_run :
    summary (Unistd.all_pread 3 dev_pread 20 0 2 buffer 1 5 bumpy)
    ≡ 5 ∷ 1 ∷ 13 ∷ 14 ∷ 15 ∷ 16 ∷ 17 ∷ 7 ∷ []
unfolding Unistd.all_pread memcpy
all_pread_run = refl

single_pread_run :
    summary (Unistd.single_pread 3 dev_pread 20 0 2 buffer 1 5 (record bumpy { turns = [] }))
    ≡ 3 ∷ 1 ∷ 13 ∷ 14 ∷ 15 ∷ 5 ∷ 6 ∷ 7 ∷ []
unfolding Unistd.single_pread memcpy
single_pread_run = refl

pread_common-Delivered_example :
    Ends
      (Input.Delivery.Delivered from
        (λ e. e ≡ eintr)
        bit_noerror
        "pread"
        (start 2 buffer 1 5 bumpy))
      (Unistd.pread_common 3 dev_pread 20 0 2 buffer 1 5 bit_noerror bumpy)
pread_common-Delivered_example =
    pread_common-Delivered 3 (omega arith) dev_pread 0 (dev_pread-IsSource 0) 2 buffer 1 5 bumpy
      (omega arith) (omega arith) (omega arith) 20 (omega arith) bit_noerror

pread-RaisesClean_example :
    Ends
      (Input.Complete.RaisesClean from (start 2 buffer 1 5 bumpy))
      (Unistd.pread 3 dev_pread 20 0 2 buffer 1 5 bumpy)
pread-RaisesClean_example =
    pread-RaisesClean 3 (omega arith) dev_pread 0 (dev_pread-IsSource 0) 2 buffer 1 5 bumpy
      (omega arith) (omega arith) (omega arith) 20 (omega arith)

all_pread-AllRead_example :
    Ends
      (Input.Complete.AllRead buffer 1 5 (13 ∷ 14 ∷ 15 ∷ 16 ∷ 17 ∷ 18 ∷ []))
      (Unistd.all_pread 3 dev_pread 20 0 2 buffer 1 5 bumpy)
all_pread-AllRead_example =
    all_pread-AllRead 3 (omega arith) dev_pread 0 (dev_pread-IsSource 0) 2 buffer 1 5 bumpy
      (omega arith) (omega arith) (omega arith) 20 (omega arith)

all_read-AllRead_example :
    Ends
      (Input.Complete.AllRead buffer 1 5 bumpy.content)
      (Unistd.all_read 3 dev_read 20 0 buffer 1 5 bumpy)
all_read-AllRead_example =
    all_read-AllRead dev_read 0 (dev_read-IsSource 0) 3 (omega arith) buffer 1 5 bumpy (omega arith)
      (omega arith) 20 (omega arith)

abbrev calm : Device
calm = record bumpy { turns = [] }

all_pread-Agree_example :
    Ends
      (λ o. Ends (Agree o) (Bigarray.all_pread dev_pread 20 0 2 buffer bumpy))
      (Unistd.all_pread 3 dev_pread 20 0 2 buffer 0 7 bumpy)
all_pread-Agree_example =
    all_pread-Agree 3 (omega arith) dev_pread 0 (dev_pread-IsSource 0) 2 buffer bumpy (omega arith)
      (omega arith) 20 (omega arith)

pwrite_common-Delivered_example :
    Ends
      (Output.Delivery.Delivered Overwritten
        (λ e. e ≡ eintr)
        ⊥
        bit_noerror
        "pwrite"
        (start 2 buffer 1 5 bumpy))
      (Unistd.pwrite_common 3 dev_pwrite 20 0 2 buffer 1 5 bit_noerror bumpy)
pwrite_common-Delivered_example =
    pwrite_common-Delivered 3 (omega arith) dev_pwrite 0 (dev_pwrite-IsSink 0) 2 buffer 1 5 bumpy
      (omega arith) (omega arith) (omega arith) 20 (omega arith) bit_noerror

intr_pwrite-RaisesClean_example :
    Ends
      (Output.Complete.RaisesClean Overwritten (start 2 buffer 1 5 bumpy))
      (Unistd.intr_pwrite 3 dev_pwrite 20 0 2 buffer 1 5 bumpy)
intr_pwrite-RaisesClean_example =
    intr_pwrite-RaisesClean 3 (omega arith) dev_pwrite 0 (dev_pwrite-IsSink 0) 2 buffer 1 5 bumpy
      (omega arith) (omega arith) (omega arith) 20 (omega arith)

all_write-AllWritten_example :
    Ends
      (Output.Complete.AllWritten Appended (start 0 buffer 1 5 bumpy))
      (Unistd.all_write 3 dev_write 20 0 buffer 1 5 bumpy)
all_write-AllWritten_example =
    all_write-AllWritten dev_write 0 (dev_write-IsSink 0) 3 (omega arith) buffer 1 5 bumpy
      (omega arith) (omega arith) 20 (omega arith)
