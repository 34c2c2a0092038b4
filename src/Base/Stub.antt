-- ===== src/Base/Stub.antt =====
-- A stub over the state of the system: it changes the state, and gives a value or raises.
use Prim.Native.String.{String}
use extunix.Base.Call.{Answer, Exn, Result, ok, raised, check}

abbrev pub Stub : Type 0 → Type 0 → Type 0
Stub K A = K → Result A × K

abbrev pub pure : {A K : Type 0} → A → Stub K A
pure a k = (ok a, k)

abbrev pub raise : {A K : Type 0} → Exn → Stub K A
raise e k = (raised e, k)

-- Nothing runs after an exception.
abbrev pub and_then : {A B K : Type 0} → Result A × K → (A → Stub K B) → Result B × K
and_then (ok a, k) f = f a k
and_then (raised e, k) f = (raised e, k)

infixl 5 ◌>>=◌ ◌>>◌
abbrev pub ◌>>=◌ : {A B K : Type 0} → Stub K A → (A → Stub K B) → Stub K B
◌>>=◌ m f k = and_then (m k) f

abbrev pub ◌>>◌ : {B K : Type 0} → Stub K (Unit {0}) → Stub K B → Stub K B
m >> m' = m >>= λ _. m'

-- `if (call(...) fails) caml_uerror(name, ...)`
abbrev pub uerror : {A K : Type 0} → String → (K → Answer A × K) → Stub K A
uerror name call k = let (a, k') = call k in (check name a, k')

-- What holds of the outcome of a stub.
abbrev pub Post : {A K : Type 0} → (Result A → K → Type 0) → Result A × K → Type 0
Post Q (r, k) = Q r k

-- The rule for a sequence: `P` holds of the first part, and `Q` follows on either way.
pub and_then-Post :
    {A B K : Type 0} (P : Result A → K → Type 0) (Q : Result B → K → Type 0) (r : Result A × K)
    (f : A → Stub K B)
    → Post P r
    → ((a : A) (k : K) → P (ok a) k → Post Q (f a k))
    → ((e : Exn) (k : K) → P (raised e) k → Q (raised e) k)
    → Post Q (and_then r f)
and_then-Post P Q (ok a, k) f p go stop = go a k p
and_then-Post P Q (raised e, k) f p go stop = stop e k p

-- A stub keeps `I`, whether it returns or raises.
abbrev pub Keeps : {A K : Type 0} → (K → Type 0) → Stub K A → Type 0
Keeps {A} {K} I m = (k : K) → I k → I (m k).1

pub >>=-Keeps :
    {A B K : Type 0} (I : K → Type 0) (m : Stub K A) (f : A → Stub K B)
    → Keeps I m
    → ((a : A) → Keeps I (f a))
    → Keeps I (m >>= f)
>>=-Keeps {A} {B} {K} I m f keep then_keep k i = go (m k) (keep k i)
  where
    go : (r : Result A × K) → I r.1 → I (and_then r f).1
    go (ok a, k') i' = then_keep a k' i'
    go (raised e, k') i' = i'
