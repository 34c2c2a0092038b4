-- ===== src/Endian/Bigarray/Set.antt =====
-- The functions that write a bigarray of src/endianba.c, instances of its macros.
use extunix.Base.{ℕ, Bool, Option, List}
use extunix.Base.Int.{ℤ}
use extunix.Endian.Memory.{big, little, host}
use extunix.Endian.Macros.{uint8, uint16, uint32, uint64}
use extunix.Endian.Bigarray.{set}

module _ (h : Bool) where
  unfoldable pub set_b16 : List ℕ → ℕ → ℤ → Option (List ℕ)
  unfolding set
  set_b16 = set h uint16 big

  unfoldable pub set_b31 : List ℕ → ℕ → ℤ → Option (List ℕ)
  unfolding set
  set_b31 = set h uint32 big

  unfoldable pub set_b32 : List ℕ → ℕ → ℤ → Option (List ℕ)
  unfolding set
  set_b32 = set h uint32 big

  unfoldable pub set_b63 : List ℕ → ℕ → ℤ → Option (List ℕ)
  unfolding set
  set_b63 = set h uint64 big

  unfoldable pub set_b64 : List ℕ → ℕ → ℤ → Option (List ℕ)
  unfolding set
  set_b64 = set h uint64 big

  unfoldable pub set_l16 : List ℕ → ℕ → ℤ → Option (List ℕ)
  unfolding set
  set_l16 = set h uint16 little

  unfoldable pub set_l31 : List ℕ → ℕ → ℤ → Option (List ℕ)
  unfolding set
  set_l31 = set h uint32 little

  unfoldable pub set_l32 : List ℕ → ℕ → ℤ → Option (List ℕ)
  unfolding set
  set_l32 = set h uint32 little

  unfoldable pub set_l63 : List ℕ → ℕ → ℤ → Option (List ℕ)
  unfolding set
  set_l63 = set h uint64 little

  unfoldable pub set_l64 : List ℕ → ℕ → ℤ → Option (List ℕ)
  unfolding set
  set_l64 = set h uint64 little

  unfoldable pub set_8 : List ℕ → ℕ → ℤ → Option (List ℕ)
  unfolding set
  set_8 = set h uint8 host

  unfoldable pub set_h16 : List ℕ → ℕ → ℤ → Option (List ℕ)
  unfolding set
  set_h16 = set h uint16 host

  unfoldable pub set_h31 : List ℕ → ℕ → ℤ → Option (List ℕ)
  unfolding set
  set_h31 = set h uint32 host

  unfoldable pub set_h32 : List ℕ → ℕ → ℤ → Option (List ℕ)
  unfolding set
  set_h32 = set h uint32 host

  unfoldable pub set_h63 : List ℕ → ℕ → ℤ → Option (List ℕ)
  unfolding set
  set_h63 = set h uint64 host

  unfoldable pub set_h64 : List ℕ → ℕ → ℤ → Option (List ℕ)
  unfolding set
  set_h64 = set h uint64 host
