-- ===== src/Resource/Limits.antt =====
-- Limits survive the way to the system and back.
use extunix.Base.{
  ℕ, ◌^◌, ◌<◌, ◌≡◌, refl, ap, ap₂, ◌∙◌, ◌≢◌, inl, inr, Option, none, some, arith, ◌==◌, Bool-cases,
}
use extunix.Base.Int.{ℤ, pattern, InSigned, signed-pattern, pattern-signed}
use extunix.Base.Call.{Answer, got, failed, ok}
use extunix.Flags.Open.{Header}
use extunix.Resource.{
  encode_limit, decode_limit, Rlimit, decode_resource, limits, getrlimit, setrlimit, set_result,
  get_limits, set_limits,
}

-- A limit of the system, a number below 2 ^ 64, comes back from OCaml as it was.
pub decode_limit-encode_limit :
    (rlim_infinity v : ℕ)
    → v < 2 ^ 64
    → decode_limit rlim_infinity (encode_limit rlim_infinity v) ≡ v
unfolding decode_limit encode_limit
decode_limit-encode_limit rlim_infinity v h = elim (Bool-cases (v == rlim_infinity)) [
  | inl unlimited ↦ rw unlimited (ground arith)
  | inr limited ↦ rw limited (pattern-signed (2 ^ 64) v h)
]

-- A limit of OCaml whose 64 bits are not those of `RLIM_INFINITY`.
abbrev pub IsLimit : ℕ → Option ℤ → Type 0
IsLimit rlim_infinity none = Unit
IsLimit rlim_infinity (some z) = InSigned (2 ^ 63) z × (pattern (2 ^ 64) z ≢ rlim_infinity)

encode_limit-decode_limit :
    (rlim_infinity : ℕ) (l : Option ℤ)
    → IsLimit rlim_infinity l
    → encode_limit rlim_infinity (decode_limit rlim_infinity l) ≡ l
unfolding decode_limit encode_limit
encode_limit-decode_limit rlim_infinity none h = ground arith
encode_limit-decode_limit rlim_infinity (some z) (r, n) =
    elim (Bool-cases (pattern (2 ^ 64) z == rlim_infinity)) [
      | inl same ↦ absurd (n (ground arith))
      | inr other ↦ rw other (ap some (signed-pattern (2 ^ 63) z r))
    ]

-- A `getrlimit` that gives what the last `setrlimit` on the resource has set.
abbrev pub Remembers :
    {K : Type 0} → (ℕ → Rlimit → K → Answer (Unit {0}) × K) → (ℕ → K → Answer Rlimit × K) → Type 0
Remembers {K} sys_setrlimit sys_getrlimit =
    (rsrc : ℕ) (l : Rlimit) (k : K)
    → (sys_setrlimit rsrc l k).0 ≡ got tt
    → (sys_getrlimit rsrc (sys_setrlimit rsrc l k).1).0 ≡ got l

set_result-got : (a : Answer (Unit {0})) → set_result a ≡ ok tt → a ≡ got tt
set_result-got (got u) e = refl
set_result-got (failed x) e = cc

get_limits-set_limits :
    {K : Type 0} (rlim_infinity : ℕ) (sys_setrlimit : ℕ → Rlimit → K → Answer (Unit {0}) × K)
    (sys_getrlimit : ℕ → K → Answer Rlimit × K)
    → Remembers sys_setrlimit sys_getrlimit
    → (r : Option ℕ) (l : Rlimit) (k : K) → (set_limits sys_setrlimit r l k).0 ≡ ok tt
    → (get_limits rlim_infinity sys_getrlimit r (set_limits sys_setrlimit r l k).1).0
      ≡ ok (encode_limit rlim_infinity l.rlim_cur, encode_limit rlim_infinity l.rlim_max)
unfolding get_limits set_limits limits
get_limits-set_limits rlim_infinity sys_setrlimit sys_getrlimit remembers none l k e = cc
get_limits-set_limits rlim_infinity sys_setrlimit sys_getrlimit remembers (some rsrc) l k e =
    ap (limits rlim_infinity) (remembers rsrc l k (set_result-got (sys_setrlimit rsrc l k).0 e))

-- Where the system remembers limits, a `setrlimit` that returns is followed by a `getrlimit` with
-- the same two limits, if neither is a number that stands for no limit.
pub getrlimit-setrlimit :
    {K : Type 0} (hdr : Header) (rlim_infinity : ℕ)
    (sys_setrlimit : ℕ → Rlimit → K → Answer (Unit {0}) × K)
    (sys_getrlimit : ℕ → K → Answer Rlimit × K)
    → Remembers sys_setrlimit sys_getrlimit
    → (vrsrc : ℤ) (soft hard : Option ℤ) (k : K) → IsLimit rlim_infinity soft
    → IsLimit rlim_infinity hard
    → (setrlimit hdr rlim_infinity sys_setrlimit vrsrc soft hard k).0 ≡ ok tt
    → (getrlimit hdr rlim_infinity sys_getrlimit vrsrc
        (setrlimit hdr rlim_infinity sys_setrlimit vrsrc soft hard k).1).0
      ≡ ok (soft, hard)
unfolding getrlimit setrlimit
getrlimit-setrlimit {K} hdr rlim_infinity sys_setrlimit sys_getrlimit remembers vrsrc soft hard k s
      h e =
    get_limits-set_limits rlim_infinity sys_setrlimit sys_getrlimit remembers
      (decode_resource hdr vrsrc)
      (record {
        rlim_cur = decode_limit rlim_infinity soft;
        rlim_max = decode_limit rlim_infinity hard;
      })
      k e
    ∙ ap ok (
        ap₂ (λ a b. (a, b)) (encode_limit-decode_limit rlim_infinity soft s)
          (encode_limit-decode_limit rlim_infinity hard h))
