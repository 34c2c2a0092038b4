-- ===== src/Transfer/Loop.antt =====
-- What the eight loops share: their state, the mode bits, the handling of an error, and a loop
-- that runs rounds on fuel.
use extunix.Base.{
  ℕ, zero, suc, ◌<◌, bit_and, String, ◌≡◌, refl, Bool, not, ◌&&◌, Option, none, some, List, arith,
  ltb, ◌==◌, if◌then◌else◌,
}
use extunix.Base.Call.{Errno, eintr, is_eintr, is_busy}

-- `enum mode_bits`
abbrev pub bit_once : ℕ
bit_once = 1

abbrev pub bit_noerror : ℕ
bit_noerror = 2

abbrev pub bit_nointr : ℕ
bit_nointr = 4

-- `mode & bit`, as a condition
abbrev pub has : ℕ → ℕ → Bool
has mode bit = not (bit_and mode bit == 0)

-- The local variables of a loop, the buffer and the state of the kernel. A loop over a bigarray
-- moves the pointer `buf` where one over `Bytes.t` moves `ofs`; both are `ofs` here.
pub record Vars (K : Type 0) : Type 0 where
  pub off : ℕ
  pub ofs : ℕ
  pub len : ℕ
  pub processed : ℕ
  pub buf : List ℕ
  pub kernel : K

-- The variables as they are declared; `processed` is 0.
unfoldable pub start : {K : Type 0} → ℕ → List ℕ → ℕ → ℕ → K → Vars K
start off buf ofs len k = record {
  off = off;
  ofs = ofs;
  len = len;
  processed = 0;
  buf = buf;
  kernel = k;
}

-- `fault` is an access past the end of the buffer.
pub data Outcome (K : Type 0) : Type 0 where
  returned : Vars K → Outcome K
  raised : Errno → String → Vars K → Outcome K
  fault : Outcome K

pub data Round (S : Type 0) (O : Type 0) : Type 0 where
  next : S → Round S O
  done : O → Round S O

-- `while`: the fuel bounds the rounds, and `none` says that it ran out.
unfoldable pub iterate : {S O : Type 0} → ℕ → (S → Round S O) → S → Option O
iterate zero body s = none
iterate (suc fuel) body s = elim (body s) [ next s' ↦ iterate fuel body s' | done o ↦ some o ]

-- What the handler of `ret == -1` does: try again, leave the loop, or raise.
pub data Verdict : Type 0 where
  again leave raise : Verdict

unfoldable pub verdict : ℕ → ℕ → Errno → Verdict
verdict mode processed e =
    if is_eintr e && has mode bit_nointr
    then again
    else if ltb 0 processed && is_busy e
    then leave
    else if ltb 0 processed && has mode bit_noerror
    then leave
    else raise

unfoldable pub on_error : {K : Type 0} → ℕ → String → Vars K → Errno → Round (Vars K) (Outcome K)
unfolding verdict
on_error mode name s e = elim (verdict mode s.processed e) [
  | again ↦ next s
  | leave ↦ done (returned s)
  | raise ↦ done (raised e name s)
]

pub verdict-again : (mode processed : ℕ) (e : Errno) → verdict mode processed e ≡ again → e ≡ eintr
unfolding verdict
verdict-again mode processed e h = ground arith

-- The rule for `iterate`: `P` holds before each round, `Q` of the result, and the measure falls.
abbrev pub Keeps : {S O : Type 0} → (S → Type 0) → (O → Type 0) → (S → ℕ) → S → Round S O → Type 0
Keeps P Q measure s (next s') = P s' × (measure s' < measure s)
Keeps P Q measure s (done o) = Q o

abbrev pub Ends : {O : Type 0} → (O → Type 0) → Option O → Type 0
Ends {O} Q r = (o : O) × (r ≡ some o) × Q o

pub iterate-Ends :
    {S O : Type 0} (P : S → Type 0) (Q : O → Type 0) (measure : S → ℕ) (body : S → Round S O)
    → ((s : S) → P s → Keeps P Q measure s (body s))
    → (fuel : ℕ) (s : S) → measure s < fuel
    → P s
    → Ends Q (iterate fuel body s)
unfolding iterate
iterate-Ends P Q measure body keep zero s m h = absurd (omega arith)
iterate-Ends {S} {O} P Q measure body keep (suc fuel) s m h =
    go (body s) (keep s h) (iterate-Ends P Q measure body keep fuel)
  where
    go :
        (r : Round S O)
        → Keeps P Q measure s r
        → ((s' : S) → measure s' < fuel → P s' → Ends Q (iterate fuel body s'))
        → Ends Q (elim r [ next s' ↦ iterate fuel body s' | done o ↦ some o ])
    go (next s') k later = later s' (omega arith) k.0
    go (done o) k later = (o, refl, k)

pub Ends-map :
    {O : Type 0} {P Q : O → Type 0} {r : Option O} → ((o : O) → P o → Q o) → Ends P r → Ends Q r
Ends-map f (o, e, p) = (o, e, f o p)
