-- ===== src/Fallocate/Returns.antt =====
-- The emulation of `posix_fallocate` returns where the system does what it is asked to.
use extunix.Base.{
  ℕ, ◌/◌, ◌%◌, ◌^◌, String, ◌≡◌, inl, inr, none, true, false, Bool, ◌==◌, if◌then◌else◌, Bool-cases,
}
use extunix.Base.Int.{ℤ, pattern}
use extunix.Base.Call.{got, Result, ok, raised}
use extunix.Base.Stub.{Stub, pure, Post, and_then, and_then-Post}
use extunix.Fallocate.{
  MoveMethod, file_begin, file_current, Win32, invalid_set_file_pointer, seek_result, file_lseek,
  fits_in, extend, fallocate_do, fallocate,
}

-- A system none of whose calls fails.
pub record NeverFails {K : Type 0} (sys : Win32 K) : Type 0 where
  pub sizes : (k : K) → (n : ℕ) × ((sys.get_file_size_ex k).0 ≡ got n)
  pub seeks :
      (low high : ℕ) (method : MoveMethod) (k : K)
      → (sys.set_file_pointer low high method k).0.last_error ≡ none
  pub ends : (k : K) → (sys.set_end_of_file k).0 ≡ got tt

abbrev pub Returns : {A K : Type 0} → Result A → K → Type 0
Returns (ok a) k = Unit
Returns (raised e) k = ⊥

module _ {K : Type 0} (sys : Win32 K) (good : NeverFails sys) where
  file_lseek-Returns :
      (name : String) (place : ℕ) (method : MoveMethod) (k : K)
      → Post Returns (file_lseek sys name place method k)
  unfolding file_lseek seek_result
  file_lseek-Returns name place method k =
      let r = (sys.set_file_pointer (place % 2 ^ 32) (place / 2 ^ 32) method k).0 in
      elim (Bool-cases (r.low_part == invalid_set_file_pointer)) [
        | inl like_error ↦ rw (like_error, good.seeks (place % 2 ^ 32) (place / 2 ^ 32) method k) tt
        | inr other ↦ rw other tt
      ]

  lseek_then :
      {B : Type 0} (name : String) (place : ℕ) (method : MoveMethod) (k : K) (f : ℕ → Stub K B)
      → ((n : ℕ) (k' : K) → Post Returns (f n k'))
      → Post Returns (and_then (file_lseek sys name place method k) f)
  lseek_then name place method k f go =
      and_then-Post Returns Returns (file_lseek sys name place method k) f
        (file_lseek-Returns name place method k) (λ n k' _. go n k') (λ e k' b. b)

  extend-Returns : (off len : ℕ) (k : K) → Post Returns (extend sys off len k)
  unfolding extend
  extend-Returns off len k = lseek_then "fallocate" 0 file_current k _ λ cur k1.
      lseek_then "fallocate" off file_begin k1 _ λ _ k2.
        lseek_then "fallocate" len file_current k2 _
          λ _ k3. rw (good.ends k3) (lseek_then "fallocate" cur file_begin _ _ λ _ k4. tt)

  either :
      (off len : ℕ) (fits : Bool) (k : K)
      → Post Returns ((if fits then pure tt else extend sys off len) k)
  either off len true k = tt
  either off len false k = extend-Returns off len k

  -- If no call of the system fails, `fallocate` returns.
  pub fallocate-Returns : (voff vlen : ℤ) (k : K) → Post Returns (fallocate sys voff vlen k)
  unfolding fallocate fallocate_do
  fallocate-Returns voff vlen k =
      let off = pattern (2 ^ 64) voff in
      let len = pattern (2 ^ 64) vlen in
      rw ((good.sizes k).1) (either off len (fits_in off len (good.sizes k).0) _)
