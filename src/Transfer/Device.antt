-- ===== src/Transfer/Device.antt =====
-- A concrete kernel for the tests: a device with some bytes, and a list of turns that says which
-- calls are interrupted or short. Its `pread` meets what the loops rely on.
pub mod Streams
use extunix.Base.{
  ℕ, zero, suc, ◌+◌, ◌-◌, ◌≤◌, ◌<◌, ◌≡◌, refl, sym, ap, ◌∙◌, Option, none, some, List, [], ◌∷◌,
  ◌++◌, arith, length, take, drop, overwrite, min, length-take, length-drop, drop-drop, take-split,
  overwrite-append, overwrite-nothing, nil-of-length,
}
use extunix.Base.Call.{Errno, eintr, Answer, got, failed}
use extunix.Transfer.Input.Delivery.{IsSource}
use extunix.Transfer.Output.Delivery.{IsSink}
use mathlib.Core.Path.{subst}

pub data Turn : Type 0 where
  interrupt : Turn
  short : ℕ → Turn

pub record Device : Type 0 where
  pub content : List ℕ
  pub turns : List Turn

-- How many of `n` bytes the next call moves (`none`: it is interrupted), and the turns left.
abbrev pub grant : ℕ → List Turn → Option ℕ × List Turn
grant n [] = (some n, [])
grant n (interrupt ∷ ts) = (none, ts)
grant n (short m ∷ ts) = (some (min n (suc m)), ts)

abbrev pub Granted : ℕ → List Turn → Option ℕ × List Turn → Type 0
Granted n ts (some q, ts') = (q ≤ n) × (0 < n → 0 < q) × (length ts' ≤ length ts)
Granted n ts (none, ts') = length ts' < length ts

pub grant-Granted : (n : ℕ) (ts : List Turn) → Granted n ts (grant n ts)
grant-Granted n [] = omega arith
grant-Granted n (interrupt ∷ ts) = omega arith
grant-Granted n (short m ∷ ts) = omega arith

-- `pread`
abbrev pub supply : ℕ → Device → Option ℕ × List Turn → Answer (List ℕ) × Device
supply off d (none, ts) = (failed eintr, record d { turns = ts })
supply off d (some q, ts) = (got (take q (drop off d.content)), record d { turns = ts })

abbrev pub dev_pread : ℕ → ℕ → ℕ → Device → Answer (List ℕ) × Device
dev_pread fd n off d = supply off d (grant n d.turns)

abbrev pub from : ℕ → Device → List ℕ
from off d = drop off d.content

abbrev pub patience : Device → ℕ
patience d = length d.turns

pub split_at : (q : ℕ) (xs : List ℕ) → xs ≡ take q xs ++ drop (length (take q xs)) xs
split_at zero xs = refl
split_at (suc q) [] = refl
split_at (suc q) (x ∷ xs) = ap (λ t. x ∷ t) (split_at q xs)

pub dev_pread-IsSource : (fd : ℕ) → IsSource (dev_pread fd) from (λ e. e ≡ eintr) patience
dev_pread-IsSource fd = record { gives = gives; fails = fails }
  where
    gives_to :
        (n off : ℕ) (d : Device) (g : Option ℕ × List Turn) (bs : List ℕ) (d' : Device)
        → Granted n d.turns g
        → supply off d g ≡ (got bs, d')
        → (length bs ≤ n)
          × (from off d ≡ bs ++ from (off + length bs) d')
          × (length bs ≡ 0 → 0 < n → from off d ≡ [])
          × (patience d' ≤ patience d)
    gives_to n off d (none, ts) bs d' ok e = cc
    gives_to n off d (some q, ts) bs d' ok e =
        let eb : take q (drop off d.content) ≡ bs = cc in
        let ed : record d { turns = ts } ≡ d' = cc in
        rw (← eb, ← ed)
          (
            omega (arith, ok, length-take q (drop off d.content)),
            split_at q (drop off d.content)
                ∙ ap (λ t. take q (drop off d.content) ++ t)
                    (drop-drop off (length (take q (drop off d.content))) _ d.content refl),
            λ z p. nil-of-length _ (omega (arith, ok, z, length-take q (drop off d.content))),
            ok.2,
          )

    gives :
        (n off : ℕ) (d : Device) (bs : List ℕ) (d' : Device)
        → dev_pread fd n off d ≡ (got bs, d')
        → (length bs ≤ n)
          × (from off d ≡ bs ++ from (off + length bs) d')
          × (length bs ≡ 0 → 0 < n → from off d ≡ [])
          × (patience d' ≤ patience d)
    gives n off d bs d' e = gives_to n off d (grant n d.turns) bs d' (grant-Granted n d.turns) e

    fails_to :
        (n off : ℕ) (d : Device) (g : Option ℕ × List Turn) (x : Errno) (d' : Device)
        → Granted n d.turns g
        → supply off d g ≡ (failed x, d')
        → (x ≡ eintr)
          × (from off d' ≡ from off d)
          × (patience d' ≤ patience d)
          × (x ≡ eintr → patience d' < patience d)
    fails_to n off d (some q, ts) x d' ok e = cc
    fails_to n off d (none, ts) x d' ok e =
        let ex : eintr ≡ x = cc in
        let ed : record d { turns = ts } ≡ d' = cc in
        rw (← ed) (sym ex, refl, omega (arith, ok), λ _. ok)

    fails :
        (n off : ℕ) (d : Device) (x : Errno) (d' : Device)
        → dev_pread fd n off d ≡ (failed x, d')
        → (x ≡ eintr)
          × (from off d' ≡ from off d)
          × (patience d' ≤ patience d)
          × (x ≡ eintr → patience d' < patience d)
    fails n off d x d' e = fails_to n off d (grant n d.turns) x d' (grant-Granted n d.turns) e
