-- ===== src/Splice.antt =====
-- src/splice.c: data between descriptors, and from bigarrays to a pipe.
pub mod Inside
mod Tests
use extunix.Base.{
  ℕ, ◌+◌, ◌-◌, ◌^◌, ◌%◌, String, Bool, true, false, Option, none, some, List, [], ◌∷◌, ltb,
  if◌then◌else◌,
}
use extunix.Base.Int.{ℤ, pos, negsuc, pattern, signed, int_val}
use extunix.Base.Call.{Answer, Exn, invalid_argument, Result, ok, raised}
use extunix.Base.Stub.{Stub, raise, and_then, ◌>>=◌, uerror}
use extunix.Flags.Open.{Header, defined_or}

unfoldable pub splice_flags_table : Header → List ℕ
splice_flags_table hdr =
    defined_or (hdr "SPLICE_F_MOVE") 0
    ∷ defined_or (hdr "SPLICE_F_NONBLOCK") 0
    ∷ defined_or (hdr "SPLICE_F_MORE") 0
    ∷ defined_or (hdr "SPLICE_F_GIFT") 0
    ∷ []

-- `size_t len = Int_val(v_len)`
abbrev pub size_val : ℤ → ℕ
size_val v_len = pattern (2 ^ 64) (int_val v_len)

-- An offset of type `loff_t`, or `NULL`.
unfoldable pub offset_val : Option ℤ → Option ℤ
unfolding int_val
offset_val none = none
offset_val (some v_off) = some (int_val v_off)

module _ {K : Type 0} (convert : List ℕ → List ℕ → ℕ) (hdr : Header) where
  unfoldable pub splice :
      (ℤ → Option ℤ → ℤ → Option ℤ → ℕ → ℕ → K → Answer ℕ × K)
      → ℤ
      → Option ℤ
      → ℤ
      → Option ℤ
      → ℤ
      → List ℕ
      → Stub K ℕ
  unfolding splice_flags_table offset_val int_val
  splice sys_splice v_fd_in v_off_in v_fd_out v_off_out v_len v_flags = uerror "splice" (
      sys_splice (int_val v_fd_in) (offset_val v_off_in) (int_val v_fd_out) (offset_val v_off_out)
        (size_val v_len) (convert v_flags (splice_flags_table hdr)))

  unfoldable pub tee : (ℤ → ℤ → ℕ → ℕ → K → Answer ℕ × K) → ℤ → ℤ → ℤ → List ℕ → Stub K ℕ
  unfolding splice_flags_table int_val
  tee sys_tee v_fd_in v_fd_out v_len v_flags = uerror "tee" (
      sys_tee (int_val v_fd_in) (int_val v_fd_out) (size_val v_len)
        (convert v_flags (splice_flags_table hdr)))

-- A bigarray of bytes: where its data are in memory, and how many.
pub record CamlBaArray : Type 0 where
  pub address : ℕ
  pub dim : ℕ

-- A member of the array of OCaml.
pub record Region : Type 0 where
  pub ba : CamlBaArray
  pub offset : ℤ
  pub length : ℤ

pub record Iovec : Type 0 where
  pub iov_base : ℕ
  pub iov_len : ℕ

-- `offset + length`, of type `int`; the model wraps around where C leaves the sum undefined.
unfoldable pub add_int : ℤ → ℤ → ℤ
add_int x y = signed (2 ^ 32) ((pattern (2 ^ 32) x + pattern (2 ^ 32) y) % 2 ^ 32)

-- `sum > ba->dim[0]`
abbrev pub exceeds : ℤ → ℕ → Bool
exceeds (pos n) dim = ltb dim n
exceeds (negsuc n) dim = false

-- `(char *) ba->data + offset`, and the length as a `size_t`
unfoldable pub iovec : CamlBaArray → ℤ → ℤ → Iovec
iovec ba offset length = record {
  iov_base = (ba.address + pattern (2 ^ 64) offset) % 2 ^ 64;
  iov_len = pattern (2 ^ 64) length;
}

abbrev pub cons_iov : Iovec → Result (List Iovec) → Result (List Iovec)
cons_iov v (ok iov) = ok (v ∷ iov)
cons_iov v (raised e) = raised e

-- The loop over the array, which raises at the first region that is too long.
unfoldable pub fill_iov : List Region → Result (List Iovec)
unfolding int_val add_int iovec
fill_iov [] = ok []
fill_iov (tmp ∷ v_iov) =
    let rest = fill_iov v_iov in
    let offset = int_val tmp.offset in
    let length = int_val tmp.length in
    if exceeds (add_int offset length) tmp.ba.dim
    then raised (invalid_argument "vmsplice")
    else cons_iov (iovec tmp.ba offset length) rest

unfoldable pub vmsplice :
    {K : Type 0}
    → (List ℕ → List ℕ → ℕ)
    → Header
    → (ℤ → List Iovec → ℕ → K → Answer ℕ × K)
    → ℤ
    → List Region
    → List ℕ
    → Stub K ℕ
unfolding splice_flags_table fill_iov int_val
vmsplice convert hdr sys_vmsplice v_fd_out v_iov v_flags k =
    and_then (fill_iov v_iov, k)
      λ iov.
        uerror "vmsplice"
          (sys_vmsplice (int_val v_fd_out) iov (convert v_flags (splice_flags_table hdr)))
