-- ===== src/Calls/Memory.antt =====
-- Memory: src/memalign.c, src/malloc.c, src/mman.c, src/bigarray.c, src/execinfo.c.
use extunix.Base.{ℕ, ◌+◌, String, Option, List, [], ◌∷◌, memcpy, slice}
use extunix.Base.Int.{ℤ, int_val}
use extunix.Base.Call.{Answer, got, failed, unix_error, Result, ok, raised, check}
use extunix.Base.Stub.{Stub, uerror}
use extunix.Flags.Open.{Header, defined_or}
use extunix.Base.Heap.{Heap, strdup, stat_free}
use extunix.Realpath.{Owned, free, close_handle}
use extunix.Splice.{CamlBaArray, size_val}

-- A bigarray over the memory that `posix_memalign` gives.
abbrev pub bigarray_of : ℕ → Result ℕ → Result CamlBaArray
bigarray_of size (raised e) = raised e
bigarray_of size (ok memptr) = ok (record { address = memptr; dim = size })

unfoldable pub memalign : {K : Type 0} → (ℕ → ℕ → K → Answer ℕ × K) → ℤ → ℤ → Stub K CamlBaArray
unfolding int_val
memalign posix_memalign valignment vsize k =
    let (a, k') = posix_memalign (size_val valignment) (size_val vsize) k in
    (bigarray_of (size_val vsize) (check "memalign" a), k')

unfoldable pub malloc_stats : {K : Type 0} → (K → K) → Stub K (Unit {0})
malloc_stats sys_malloc_stats k = (ok tt, sys_malloc_stats k)

unfoldable pub mtrace : {K : Type 0} → (K → K) → Stub K (Unit {0})
mtrace sys_mtrace k = (ok tt, sys_mtrace k)

unfoldable pub muntrace : {K : Type 0} → (K → K) → Stub K (Unit {0})
muntrace sys_muntrace k = (ok tt, sys_muntrace k)

-- After `malloc_info` and `fclose`: the text is copied, and the buffer of the stream freed.
unfoldable pub info_result : {K : Type 0} → Answer String → Owned K → Result String × Owned K
info_result (got buf) s = (ok buf, free s)
info_result (failed e) s = (raised (unix_error e "malloc_info"), free s)

-- `open_memstream` makes a stream with a buffer; the stream counts as a handle.
unfoldable pub after_memstream :
    {K : Type 0} → (K → Answer String × K) → Answer (Unit {0}) → Owned K → Result String × Owned K
unfolding info_result
after_memstream sys_malloc_info (failed e) s = (raised (unix_error e "malloc_info"), s)
after_memstream sys_malloc_info (got u) s =
    let s' = record s { blocks = s.blocks + 1; handles = s.handles + 1 } in
    let (a, k) = sys_malloc_info s'.kernel in
    info_result a (close_handle (record s' { kernel = k }))

unfoldable pub malloc_info :
    {K : Type 0}
    → (K → Answer (Unit {0}) × K)
    → (K → Answer String × K)
    → Owned K
    → Result String × Owned K
unfolding after_memstream
malloc_info open_memstream sys_malloc_info s =
    let (a, k) = open_memstream s.kernel in
    after_memstream sys_malloc_info a (record s { kernel = k })

unfoldable pub mlockall_flags_table : Header → List ℕ
mlockall_flags_table hdr = defined_or (hdr "MCL_CURRENT") 0 ∷ defined_or (hdr "MCL_FUTURE") 0 ∷ []

unfoldable pub mlockall :
    {K : Type 0}
    → (List ℕ → List ℕ → ℕ)
    → Header
    → (ℕ → K → Answer (Unit {0}) × K)
    → List ℕ
    → Stub K (Unit {0})
unfolding mlockall_flags_table
mlockall convert hdr sys_mlockall v_flags =
    uerror "mlockall" (sys_mlockall (convert v_flags (mlockall_flags_table hdr)))

unfoldable pub munlockall : {K : Type 0} → (K → Answer (Unit {0}) × K) → Stub K (Unit {0})
munlockall sys_munlockall = uerror "munlockall" sys_munlockall

-- The bytes of a bigarray from `off` on; the OCaml code checks that they are there.
unfoldable pub get_substr : List ℕ → ℕ → ℕ → Option (List ℕ)
unfolding slice
get_substr buf off len = slice buf off len

unfoldable pub set_substr : List ℕ → ℕ → List ℕ → Option (List ℕ)
unfolding memcpy
set_substr buf off str = memcpy buf off str

-- The strings that `backtrace_symbols` allocates in one block.
unfoldable pub backtrace_result :
    {K : Type 0} → Answer (List String) → Heap K → Result (List String) × Heap K
backtrace_result (failed e) s = (raised (unix_error e "backtrace"), s)
backtrace_result (got strings) s = (ok strings, stat_free (strdup s))

unfoldable pub backtrace :
    {K : Type 0}
    → (ℕ → K → List ℕ × K)
    → (List ℕ → K → Answer (List String) × K)
    → Heap K
    → Result (List String) × Heap K
unfolding backtrace_result
backtrace sys_backtrace backtrace_symbols s =
    let (buffer, k) = sys_backtrace 100 s.kernel in
    let (a, k') = backtrace_symbols buffer k in backtrace_result a (record s { kernel = k' })
