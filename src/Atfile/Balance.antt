-- ===== src/Atfile/Balance.antt =====
-- Every stub of src/atfile.c frees what it allocates, whether it returns or raises.
use extunix.Base.{
  ℕ, zero, suc, ◌+◌, ◌≤◌, String, ◌≡◌, refl, inl, inr, Option, none, some, List, arith, ltb, ◌*◌,
  ◌^◌, length, Bool-cases,
}
use extunix.Base.Int.{int_val, ℤ}
use extunix.Base.Call.{Answer, got, failed}
use extunix.Transfer.Loop.{Round, next, done, iterate}
use extunix.Flags.Open.{Header}
use extunix.Base.Heap.{Heap, strdup, stat_free, one_path, two_paths}
use extunix.Atfile.{
  System, fstatat, unlinkat, renameat, mkdirat, linkat, fchownat, fchmodat, symlinkat, openat,
}
use extunix.Atfile.Readlink.{
  LinkVars, LinkOutcome, link, null, overflow, fits_or_double, after_resize, link_round,
  readlinkat_malloc, link_result, readlinkat,
}

-- The calls of a client.
pub data AtCall : Type 0 where
  fstatat_call : ℤ → String → List ℕ → AtCall
  unlinkat_call : ℤ → String → List ℕ → AtCall
  renameat_call : ℤ → String → ℤ → String → AtCall
  mkdirat_call : ℤ → String → ℤ → AtCall
  linkat_call : ℤ → String → ℤ → String → List ℕ → AtCall
  fchownat_call : ℤ → String → ℤ → ℤ → List ℕ → AtCall
  fchmodat_call : ℤ → String → ℤ → List ℕ → AtCall
  symlinkat_call : String → ℤ → String → AtCall
  openat_call : ℤ → String → List ℤ → ℤ → AtCall
  readlinkat_call : ℤ → String → AtCall

-- The heap after a call, whatever its result; `none` is a `readlinkat` that has not ended.
abbrev heap_of : {A K : Type 0} → Option (A × Heap K) → Option (Heap K)
heap_of none = none
heap_of (some (a, s)) = some s

module _ {D K : Type 0} (sys : System K) (convert : List ℕ → List ℕ → ℕ) (hdr : Header)
    (cst_to_constr : ℕ → List ℕ → ℕ → ℕ) (copy_double : ℤ → D) (fuel : ℕ) where
  unfoldable pub at_step : AtCall → Heap K → Option (Heap K)
  unfolding fstatat unlinkat renameat mkdirat linkat fchownat fchmodat symlinkat openat readlinkat
  at_step (fstatat_call d p l) s =
      some (fstatat sys convert hdr cst_to_constr copy_double d p l s).1
  at_step (unlinkat_call d p l) s = some (unlinkat sys convert hdr d p l s).1
  at_step (renameat_call d p d' p') s = some (renameat sys convert hdr d p d' p' s).1
  at_step (mkdirat_call d p m) s = some (mkdirat sys convert hdr d p m s).1
  at_step (linkat_call d p d' p' l) s = some (linkat sys convert hdr d p d' p' l s).1
  at_step (fchownat_call d p o g l) s = some (fchownat sys convert hdr d p o g l s).1
  at_step (fchmodat_call d p m l) s = some (fchmodat sys convert hdr d p m l s).1
  at_step (symlinkat_call t d p) s = some (symlinkat sys convert hdr t d p s).1
  at_step (openat_call d p l m) s = some (openat sys convert hdr d p l m s).1
  at_step (readlinkat_call d p) s = heap_of (readlinkat sys fuel d p s)

ended : {K : Type 0} {s s' : Heap K} {n : ℕ} → some s ≡ some s' → s.allocated ≡ n → s'.allocated ≡ n
ended {K} {s} {s'} e h = let same : s ≡ s' = cc in rw same at h

-- An invariant of a loop, whether the loop ends or not.
iterate-result :
    {S O : Type 0} (P : S → Type 0) (Q : O → Type 0) (body : S → Round S O)
    → ((s s' : S) → P s → body s ≡ next s' → P s')
    → ((s : S) (o : O) → P s → body s ≡ done o → Q o)
    → (fuel : ℕ) (s : S) (o : O) → P s
    → iterate fuel body s ≡ some o
    → Q o
unfolding iterate
iterate-result P Q body keep stop zero s o p e = cc
iterate-result {S} {O} P Q body keep stop (suc fuel) s o p e =
    go (body s) refl (λ s' p' e'. iterate-result P Q body keep stop fuel s' o p' e') e
  where
    go :
        (r : Round S O)
        → body s ≡ r
        → ((s' : S) → P s' → iterate fuel body s' ≡ some o → Q o)
        → elim r [ next s' ↦ iterate fuel body s' | done o' ↦ some o' ] ≡ some o
        → Q o
    go (next s') b later e' = later s' (keep s s' p b) e'
    go (done o') b later e' = let same : o' ≡ o = cc in rw (← same) (stop s o' p b)

-- With `n` blocks before the loop: a block more after a link, as many after `NULL`.
abbrev Held : {K : Type 0} → ℕ → LinkVars K → Type 0
Held n v = (v.heap.allocated ≡ n + v.held) × (v.held ≤ 1)

abbrev Left : {K : Type 0} → ℕ → LinkOutcome K → Type 0
Left n (link chars s) = s.allocated ≡ n + 1
Left n (null e s) = s.allocated ≡ n
Left n overflow = Unit

-- Both kinds of end of a round at once.
abbrev IsHeld : {K : Type 0} → ℕ → Round (LinkVars K) (LinkOutcome K) → Type 0
IsHeld n (next v) = Held n v
IsHeld n (done o) = Left n o

fits_or_double-Held :
    {K : Type 0} (n size : ℕ) (a : Answer (List ℕ) × Heap K)
    → a.1.allocated ≡ n + 1
    → IsHeld n (fits_or_double size a)
unfolding fits_or_double
fits_or_double-Held n size (failed e, s) h = omega arith
fits_or_double-Held n size (got chars, s) h = elim (Bool-cases (ltb (length chars) size)) [
  | inl fits ↦ rw fits h
  | inr full ↦ elim (Bool-cases (ltb (size * 2) (2 ^ 31))) [
    | inl room ↦ rw (full, room) (h, omega arith)
    | inr large ↦ rw (full, large) tt
  ]
]

after_resize-Held :
    {K : Type 0} (n : ℕ) (read : ℕ → K → Answer (List ℕ) × K) (v : LinkVars K)
    (a : Answer (Unit {0}) × Heap K)
    → a.1.allocated ≡ n + v.held
    → v.held ≤ 1
    → IsHeld n (after_resize read v a)
unfolding after_resize
after_resize-Held n read v (failed e, s) h b = omega arith
after_resize-Held n read v (got _, s) h b = fits_or_double-Held n v.size _ (omega arith)

link_round-Held :
    {K : Type 0} (sys : System K) (n : ℕ) (read : ℕ → K → Answer (List ℕ) × K) (v : LinkVars K)
    → Held n v
    → IsHeld n (link_round sys read v)
unfolding link_round
link_round-Held sys n read v (h, b) = after_resize-Held n read v _ h b

readlinkat_malloc-Left :
    {K : Type 0} (sys : System K) (fuel : ℕ) (dirfd : ℤ) (name : String) (s : Heap K)
    (o : LinkOutcome K)
    → readlinkat_malloc sys fuel dirfd name s ≡ some o
    → Left s.allocated o
unfolding readlinkat_malloc
readlinkat_malloc-Left {K} sys fuel dirfd name s o e =
    iterate-result (Held s.allocated) (Left s.allocated) (link_round sys read)
      (λ v v' p b. rw b at (link_round-Held sys s.allocated read v p))
      (λ v o' p b. rw b at (link_round-Held sys s.allocated read v p)) fuel
      (record { size = 100; held = 0; heap = s }) o (omega arith, omega arith) e
  where
    read : ℕ → K → Answer (List ℕ) × K
    read = sys.sys_readlinkat dirfd name

link_result-allocated :
    {K : Type 0} (n : ℕ) (o : LinkOutcome K) (s' : Heap K)
    → Left (n + 1) o
    → heap_of (link_result o) ≡ some s'
    → s'.allocated ≡ n
unfolding link_result
link_result-allocated n (link chars s) s' h e =
    let same : stat_free (stat_free s) ≡ s' = cc in rw (← same) (omega arith)
link_result-allocated n (null x s) s' h e =
    let same : stat_free s ≡ s' = cc in rw (← same) (omega arith)
link_result-allocated n overflow s' h e = cc

readlinkat-allocated :
    {K : Type 0} (sys : System K) (fuel : ℕ) (dirfd : ℤ) (name : String) (s s' : Heap K)
    → heap_of (readlinkat sys fuel dirfd name s) ≡ some s'
    → s'.allocated ≡ s.allocated
unfolding readlinkat
readlinkat-allocated {K} sys fuel dirfd name s s' e =
    go (readlinkat_malloc sys fuel (int_val dirfd) name (strdup s)) refl e
  where
    go :
        (r : Option (LinkOutcome K))
        → readlinkat_malloc sys fuel (int_val dirfd) name (strdup s) ≡ r
        → heap_of (elim r [ none ↦ none | some o ↦ link_result o ]) ≡ some s'
        → s'.allocated ≡ s.allocated
    go none b e' = cc
    go (some o) b e' =
        link_result-allocated s.allocated o s'
          (readlinkat_malloc-Left sys fuel (int_val dirfd) name (strdup s) o b) e'

module _ {D K : Type 0} (sys : System K) (convert : List ℕ → List ℕ → ℕ) (hdr : Header)
    (cst_to_constr : ℕ → List ℕ → ℕ → ℕ) (copy_double : ℤ → D) (fuel : ℕ) where
  -- A call of the file that ends leaves as many blocks allocated as there were, whatever the system
  -- answers, out of memory included.
  pub at_step-allocated :
      (c : AtCall) (s s' : Heap K)
      → at_step sys convert hdr cst_to_constr copy_double fuel c s ≡ some s'
      → s'.allocated ≡ s.allocated
  unfolding at_step fstatat unlinkat renameat mkdirat linkat fchownat fchmodat symlinkat openat
      one_path two_paths
  at_step-allocated (fstatat_call d p l) s s' e = ended e (omega arith)
  at_step-allocated (unlinkat_call d p l) s s' e = ended e (omega arith)
  at_step-allocated (renameat_call d p d' p') s s' e = ended e (omega arith)
  at_step-allocated (mkdirat_call d p m) s s' e = ended e (omega arith)
  at_step-allocated (linkat_call d p d' p' l) s s' e = ended e (omega arith)
  at_step-allocated (fchownat_call d p o g l) s s' e = ended e (omega arith)
  at_step-allocated (fchmodat_call d p m l) s s' e = ended e (omega arith)
  at_step-allocated (symlinkat_call t d p) s s' e = ended e (omega arith)
  at_step-allocated (openat_call d p l m) s s' e = ended e (omega arith)
  at_step-allocated (readlinkat_call d p) s s' e = readlinkat-allocated sys fuel d p s s' e
