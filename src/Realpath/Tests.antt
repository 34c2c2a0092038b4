-- ===== src/Realpath/Tests.antt =====
-- A file that is opened, and whose name is asked for while it is renamed.
use extunix.Base.{String, ◌≡◌, refl, Bool, true, false}
use extunix.Base.Int.{pos}
use extunix.Base.Call.{Answer, got, failed, other, unix_error, ok, raised}
use extunix.Realpath.{Owned, Win32Path, win32_realpath}
use extunix.Realpath.Balance.{Balanced, win32_realpath-Balanced}

abbrev named : Bool → Answer String
named true = got "C:/a"
named false = failed (other 2)

-- The state says whether the name can be had.
abbrev system : Win32Path Bool
system = record {
  create_file = λ p k. (got (pos 8), k);
  final_length = λ h k. (got 5, k);
  final_path = λ h n k. (named k, k);
}

abbrev at_start : Bool → Owned Bool
at_start k = record { blocks = 2; handles = 1; kernel = k }

realpath_returns : win32_realpath system "a" (at_start true) ≡ (ok "C:/a", at_start true)
unfolding win32_realpath
realpath_returns = refl

realpath_raises :
    win32_realpath system "a" (at_start false)
    ≡ (raised (unix_error (other 2) "realpath"), at_start false)
unfolding win32_realpath
realpath_raises = refl

win32_realpath-Balanced_example :
    Balanced (at_start false) (win32_realpath system "a" (at_start false))
win32_realpath-Balanced_example = win32_realpath-Balanced system "a" (at_start false)
