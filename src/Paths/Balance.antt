-- ===== src/Paths/Balance.antt =====
-- The paths of src/mount.c, src/mktemp.c, src/rename.c and `chroot` on the heap of C.
use extunix.Base.{ℕ, String, ◌≡◌, refl, ◌∙◌, Bool, List, [], ◌∷◌, arith}
use extunix.Base.Int.{ℤ}
use extunix.Base.Call.{Result, ok, raised}
use extunix.Flags.Open.{Header}
use extunix.Base.Heap.{Heap}
use extunix.Paths.{
  PathSystem, mount, umount2, chroot, mkdtemp, renameat2, check_flag_list, rename_checked,
}

-- The calls of a client.
pub data PathCall : Type 0 where
  mount_call : String → String → String → List ℕ → String → PathCall
  umount2_call : String → List ℕ → PathCall
  chroot_call : String → PathCall
  mkdtemp_call : String → PathCall
  renameat2_call : ℤ → String → ℤ → String → List ℕ → PathCall

module _ {K : Type 0} (sys : PathSystem K) (convert : List ℕ → List ℕ → ℕ) (hdr : Header)
    (have_whiteout : Bool) where
  unfoldable pub path_step : PathCall → Heap K → Heap K
  unfolding mount umount2 chroot mkdtemp renameat2
  path_step (mount_call a b c l d) s = (mount sys convert hdr a b c l d s).1
  path_step (umount2_call a l) s = (umount2 sys convert hdr a l s).1
  path_step (chroot_call a) s = (chroot sys convert hdr a s).1
  path_step (mkdtemp_call a) s = (mkdtemp sys convert hdr a s).1
  path_step (renameat2_call f a g b l) s = (renameat2 sys convert hdr have_whiteout f a g b l s).1

  abbrev pub path_run : List PathCall → Heap K → Heap K
  path_run [] s = s
  path_run (c ∷ cs) s = path_run cs (path_step c s)

  rename_checked-allocated :
      (r : Result (Unit {0})) (call : Heap K → Result (Unit {0}) × Heap K) (s : Heap K)
      → ((call s).1.allocated ≡ s.allocated)
      → (rename_checked sys convert hdr r call s).1.allocated ≡ s.allocated
  unfolding rename_checked
  rename_checked-allocated (ok u) call s h = h
  rename_checked-allocated (raised e) call s h = refl

  path_step-allocated : (c : PathCall) (s : Heap K) → (path_step c s).allocated ≡ s.allocated
  unfolding path_step
  path_step-allocated (mount_call a b c l d) s = omega arith
  path_step-allocated (umount2_call a l) s = omega arith
  path_step-allocated (chroot_call a) s = omega arith
  path_step-allocated (mkdtemp_call a) s = omega arith
  path_step-allocated (renameat2_call f a g b l) s =
      rename_checked-allocated (check_flag_list have_whiteout l) _ s (omega arith)

  -- Over any sequence of calls, whatever they return or raise, every copy of a path is freed.
  pub path_run-allocated :
      (cs : List PathCall) (s : Heap K) → (path_run cs s).allocated ≡ s.allocated
  path_run-allocated [] s = refl
  path_run-allocated (c ∷ cs) s = path_run-allocated cs (path_step c s) ∙ path_step-allocated c s
