-- ===== src/Splice/Tests.antt =====
-- Regions of two small bigarrays, and a pipe that takes what it is given.
use extunix.Base.{ℕ, ◌+◌, ◌^◌, ◌≡◌, refl, none, some, List, [], ◌∷◌, arith, map, if◌then◌else◌}
use extunix.Base.Int.{ℤ, pos, negsuc, int_val, signed, pattern}
use extunix.Base.Call.{Answer, got, invalid_argument, ok, raised}
use extunix.Base.Stub.{raise, uerror}
use extunix.Flags.Open.{Header}
use extunix.Splice.{CamlBaArray, Region, Iovec, vmsplice, offset_val, splice_flags_table}
use extunix.Splice.Inside.{AreSmall, all_end_inside, memory, vmsplice-memory}

abbrev hundred : CamlBaArray
hundred = record { address = 1000; dim = 100 }

abbrev few : CamlBaArray
few = record { address = 5000; dim = 3 }

abbrev any_flags : List ℕ → List ℕ → ℕ
any_flags l table = 0

abbrev no_header : Header
no_header _ = none

-- The state is what the pipe was given.
abbrev pipe : ℤ → List Iovec → ℕ → List Iovec → Answer ℕ × List Iovec
pipe fd iov flags given = (got 7, iov)

abbrev region : CamlBaArray → ℤ → ℤ → Region
region ba offset length = record { ba = ba; offset = offset; length = length }

abbrev regions : List Region
regions = region hundred (pos 90) (pos 10) ∷ region few (pos 1) (pos 2) ∷ []

abbrev too_long : List Region
too_long = region hundred (pos 90) (pos 10) ∷ region few (pos 2) (pos 2) ∷ []

vmsplice_inside : vmsplice any_flags no_header pipe (pos 3) regions [] [] ≡ (
  ok 7,
  record { iov_base = 1090; iov_len = 10 } ∷ record { iov_base = 5001; iov_len = 2 } ∷ [],
)
unfolding vmsplice signed pattern
vmsplice_inside = refl

vmsplice_outside :
    vmsplice any_flags no_header pipe (pos 3) too_long [] []
    ≡ (raised (invalid_argument "vmsplice"), [])
unfolding vmsplice signed pattern
vmsplice_outside = refl

-- A negative offset passes: eight bytes before the bigarray.
vmsplice_negative :
    vmsplice any_flags no_header pipe (pos 3) (region few (negsuc 7) (pos 4) ∷ []) [] []
    ≡ (ok 7, record { iov_base = 4992; iov_len = 4 } ∷ [])
unfolding vmsplice signed pattern
vmsplice_negative = refl

-- An offset of 4 GiB and five bytes is five.
offset_truncates : offset_val (some (pos (2 ^ 32 + 5))) ≡ some (pos 5)
unfolding offset_val signed pattern
offset_truncates = refl

-- The second one begins eight bytes before its bigarray.
abbrev mixed : List Region
mixed = region hundred (pos 90) (pos 10) ∷ region few (negsuc 7) (pos 4) ∷ []

mixed-AreSmall : AreSmall mixed
mixed-AreSmall = (
  (omega arith, omega arith, omega arith, omega arith),
  ((omega arith, omega arith, omega arith, (omega arith, omega arith)), tt),
)

vmsplice-memory_example :
    vmsplice any_flags no_header pipe (pos 3) mixed [] []
    ≡ (if all_end_inside mixed
          then uerror "vmsplice" (
              pipe
                (int_val (pos 3))
                (map memory mixed)
                (any_flags [] (splice_flags_table no_header)))
          else raise (invalid_argument "vmsplice"))
        []
vmsplice-memory_example =
    vmsplice-memory any_flags no_header pipe (pos 3) mixed [] [] mixed-AreSmall
