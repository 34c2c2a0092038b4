-- ===== src/Flags/Tests.antt =====
-- Concrete headers: runs of the tables, and the theorems at concrete inputs.
use extunix.Base.{
  ℕ, zero, suc, ◌+◌, ◌<◌, bit_or, String, ◌≡◌, refl, sym, ◌∙◌, ◌↔◌, inl, Option, none, some, List,
  [], ◌∷◌, arith, ◌==◌, if◌then◌else◌, true, length,
}
use extunix.Base.Bits.{testbit}
use extunix.Base.Int.{pos, negsuc}
use extunix.Flags.Table.{Any, AreInside, entry, IsConvert, IsDescending}
use extunix.Flags.Open.{Header, open_flags, open_flag_table, meaning, open_flags-Any}
use extunix.Flags.Statvfs.{convert_st_flags, st_flags_table, has_flag, convert_st_flags-entry}
use extunix.Flags.Syslog.{Log, level_table, mask_table, setlogmask, IsSetlogmask}
use extunix.Flags.Syslog.Mask.{AreDistinct, setlogmask-setlogmask}
use extunix.Flags.Syslog.Copies.{
  LogCall, open_call, close_call, log_call, OwnsIdent, log_run, log_run-OwnsIdent,
}
use text.Mathlib.Text.{◌==◌ as str_eq}

-- Numbers of Linux; the macros that are not listed are taken as undefined.
abbrev macros : List (String × ℕ)
macros =
    ("O_WRONLY", 1)
    ∷ ("O_RDWR", 2)
    ∷ ("O_CREAT", 64)
    ∷ ("O_APPEND", 1024)
    ∷ ("ST_NOSUID", 2)
    ∷ ("ST_NOATIME", 1024)
    ∷ ("LOG_EMERG", 0)
    ∷ ("LOG_ALERT", 1)
    ∷ ("LOG_CRIT", 2)
    ∷ ("LOG_ERR", 3)
    ∷ ("LOG_WARNING", 4)
    ∷ ("LOG_NOTICE", 5)
    ∷ ("LOG_INFO", 6)
    ∷ ("LOG_DEBUG", 7)
    ∷ []

abbrev lookup : String → List (String × ℕ) → Option ℕ
lookup k [] = none
lookup k ((j, v) ∷ m) = if str_eq j k then some v else lookup k m

abbrev linux : Header
linux name = lookup name macros

open_flags_run : open_flags linux (pos 1 ∷ pos 5 ∷ pos 99 ∷ negsuc 0 ∷ pos 4 ∷ []) ≡ 1089
unfolding open_flags
open_flags_run = refl

open_flags-Any_example :
    (testbit 6 (open_flags linux (pos 5 ∷ pos 99 ∷ [])) ≡ 1)
    ↔ Any (λ flag. testbit 6 (meaning (open_flag_table linux) flag) ≡ 1) (pos 5 ∷ pos 99 ∷ [])
open_flags-Any_example = open_flags-Any linux (pos 5 ∷ pos 99 ∷ []) 6

convert_st_flags_run : convert_st_flags linux 1030 ≡ 9 ∷ 1 ∷ []
unfolding convert_st_flags
convert_st_flags_run = refl

convert_st_flags-entry_example :
    (Any (λ k. 9 ≡ k) (convert_st_flags linux 1030) ↔ (
      (9 < length (st_flags_table linux))
      × (has_flag 1030 (entry (st_flags_table linux) 9) ≡ true)))
    × IsDescending (convert_st_flags linux 1030)
convert_st_flags-entry_example = convert_st_flags-entry linux 1030 9

-- The runtime's conversion, and a kernel that is its mask.
abbrev or_all : List ℕ → List ℕ → ℕ
or_all [] table = 0
or_all (i ∷ l) table = bit_or (entry table i) (or_all l table)

abbrev set_mask : ℕ → ℕ → ℕ × ℕ
set_mask m k = (k, if m == 0 then k else m)

or_all-IsConvert : IsConvert or_all
or_all-IsConvert = (λ table. refl, λ i l table h. refl)

set_mask-IsSetlogmask : IsSetlogmask set_mask (λ k. k)
set_mask-IsSetlogmask = (λ m k. refl, λ m k h. ground arith)

setlogmask_run :
    setlogmask linux or_all set_mask (3 ∷ 1 ∷ []) 255 ≡ (7 ∷ 6 ∷ 5 ∷ 4 ∷ 3 ∷ 2 ∷ 1 ∷ 0 ∷ [], 10)
unfolding setlogmask
setlogmask_run = refl

level_number : (i : ℕ) → i < 8 → entry (level_table linux) i ≡ i
unfolding level_table
level_number zero h = refl
level_number (suc zero) h = refl
level_number (suc (suc zero)) h = refl
level_number (suc (suc (suc zero))) h = refl
level_number (suc (suc (suc (suc zero)))) h = refl
level_number (suc (suc (suc (suc (suc zero))))) h = refl
level_number (suc (suc (suc (suc (suc (suc zero)))))) h = refl
level_number (suc (suc (suc (suc (suc (suc (suc zero))))))) h = refl
level_number (suc (suc (suc (suc (suc (suc (suc (suc i)))))))) h = absurd (omega arith)

levels-AreDistinct : AreDistinct (level_table linux)
unfolding level_table
levels-AreDistinct i j p q e = sym (level_number i p) ∙ e ∙ level_number j q

levels_inside : AreInside (mask_table linux) (3 ∷ 1 ∷ [])
unfolding mask_table level_table
levels_inside = (omega arith, (omega arith, tt))

setlogmask-setlogmask_example :
    let k' = (setlogmask linux or_all set_mask (3 ∷ 1 ∷ []) 255).1 in
    Any (λ (i : ℕ). 1 ≡ i) (setlogmask linux or_all set_mask [] k').0
    ↔ Any (λ (i : ℕ). 1 ≡ i) (3 ∷ 1 ∷ [])
setlogmask-setlogmask_example =
    setlogmask-setlogmask linux or_all set_mask (λ k. k) or_all-IsConvert set_mask-IsSetlogmask
      levels-AreDistinct (3 ∷ 1 ∷ []) [] 255 3 levels_inside (omega arith) (inl refl) 1
      (omega arith)

abbrev calls : List LogCall
calls =
    open_call (some "one") (0 ∷ []) 1
    ∷ open_call (some "two") [] 99
    ∷ log_call none 3 "text"
    ∷ close_call
    ∷ []

abbrev quiet : Log ℕ
quiet = record { ident = none; copies = 0; kernel = 0 }

abbrev opened : Option String → ℕ → ℕ → ℕ → ℕ
opened ident option facility k = k + 1

abbrev logged : ℕ → String → ℕ → ℕ
logged priority str k = k + 1

log_run-OwnsIdent_example : OwnsIdent (log_run linux or_all opened (λ k. k) logged calls quiet)
log_run-OwnsIdent_example = log_run-OwnsIdent linux or_all opened (λ k. k) logged calls quiet refl
