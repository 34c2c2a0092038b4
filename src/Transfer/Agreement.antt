-- ===== src/Transfer/Agreement.antt =====
-- The loops of src/unistd.c and of src/pread_pwrite_ba.c against each other.
use extunix.Base.{ℕ, ◌+◌, ◌<◌, ◌≡◌, sym, ◌∙◌, List, arith, length}
use extunix.Base.Call.{eintr, Answer}
use extunix.Base.Word.{u64_mod}
use extunix.Transfer.Loop.{Outcome, returned, raised, fault, Ends, Ends-map}
use extunix.Transfer.Input.Delivery.{IsSource}
use extunix.Transfer.Input.Complete.{AllRead}
use extunix.Transfer.Unistd
use extunix.Transfer.Unistd.{numbytes}
use extunix.Transfer.Bigarray
use extunix.Transfer.Bigarray.{whole}
use extunix.Transfer.Reading.{all_pread-AllRead, ba_all_pread-AllRead}

abbrev pub Agree : {K : Type 0} → Outcome K → Outcome K → Type 0
Agree (returned s) (returned s') = (s.processed ≡ s'.processed) × (s.buf ≡ s'.buf)
Agree _ _ = ⊥

Agree-of-AllRead :
    {K : Type 0} (buf bytes : List ℕ) (ofs len : ℕ) (o o' : Outcome K)
    → AllRead buf ofs len bytes o
    → AllRead buf ofs len bytes o'
    → Agree o o'
Agree-of-AllRead buf bytes ofs len (returned s) (returned s') a b = (a.0 ∙ sym b.0, a.1 ∙ sym b.1)
Agree-of-AllRead buf bytes ofs len (returned s) (raised e n s') a b = b
Agree-of-AllRead buf bytes ofs len (returned s) fault a b = b
Agree-of-AllRead buf bytes ofs len (raised e n s) o a b = absurd a
Agree-of-AllRead buf bytes ofs len fault o a b = absurd a

module _ {K : Type 0} (size : ℕ) (pos : 0 < size) (sys_pread : ℕ → ℕ → ℕ → K → Answer (List ℕ) × K)
    (fd : ℕ) {pending : ℕ → K → List ℕ} {patience : K → ℕ}
    (src : IsSource (sys_pread fd) pending (λ e. e ≡ eintr) patience) where
  -- For a source that meets `IsSource` and where only interruptions fail, a positive buffer size, an
  -- addressable buffer, an end offset below 2 ^ 64 and fuel above `length buf + patience k`, `all_pread`
  -- of the whole buffer through the stack and `all_pread` straight into a bigarray both return, with the
  -- same count and the same content.
  pub all_pread-Agree :
      (off : ℕ) (buf : List ℕ) (k : K)
      → length buf < u64_mod
      → off + length buf < u64_mod
      → (fuel : ℕ) → length buf + patience k < fuel
      → Ends
          (λ o. Ends (Agree o) (Bigarray.all_pread sys_pread fuel fd off buf k))
          (Unistd.all_pread size sys_pread fuel fd off buf 0 (length buf) k)
  all_pread-Agree off buf k addressable seekable fuel enough =
      Ends-map
        (λ o a.
          Ends-map (λ o' b. Agree-of-AllRead buf (pending off k) 0 (length buf) o o' a b)
            (ba_all_pread-AllRead size pos sys_pread fd src off buf k addressable seekable fuel
              enough))
        (all_pread-AllRead size pos sys_pread fd src off buf 0 (length buf) k (omega arith)
          addressable seekable fuel enough)
