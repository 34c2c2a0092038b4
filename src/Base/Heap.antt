-- ===== src/Base/Heap.antt =====
-- The blocks on the heap of C that a stub owns: the copies of its paths, and its arrays.
use extunix.Base.{ℕ, ◌+◌, ◌-◌, String}
use extunix.Base.Call.{Answer, Result, check}

-- The number of blocks on the heap of C that the stubs own, and the kernel.
pub record Heap (K : Type 0) : Type 0 where
  pub allocated : ℕ
  pub kernel : K

-- `caml_stat_strdup` and `caml_stat_free`
abbrev pub strdup : {K : Type 0} → Heap K → Heap K
strdup s = record s { allocated = s.allocated + 1 }

abbrev pub stat_free : {K : Type 0} → Heap K → Heap K
stat_free s = record s { allocated = s.allocated - 1 }

-- `caml_stat_alloc`, whatever the size.
abbrev pub stat_alloc : {K : Type 0} → Heap K → Heap K
stat_alloc s = record s { allocated = s.allocated + 1 }

-- The blocking section.
abbrev pub blocking : {A K : Type 0} → (K → Answer A × K) → Heap K → Answer A × Heap K
blocking call s = let (a, k) = call s.kernel in (a, record s { kernel = k })

-- A call with one copied path, and one with two.
unfoldable pub one_path : {A K : Type 0} → String → (K → Answer A × K) → Heap K → Result A × Heap K
one_path name call s = let (a, s') = blocking call (strdup s) in (check name a, stat_free s')

unfoldable pub two_paths : {A K : Type 0} → String → (K → Answer A × K) → Heap K → Result A × Heap K
two_paths name call s =
    let (a, s') = blocking call (strdup (strdup s)) in (check name a, stat_free (stat_free s'))
