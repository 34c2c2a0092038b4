-- ===== src/Flags/Syslog.antt =====
-- src/syslog.c: the log mask, and a log that keeps its own copy of the identity.
pub mod Mask
pub mod Copies
use extunix.Base.{
  ℕ, zero, suc, ◌+◌, ◌-◌, ◌≤◌, ◌<◌, ◌^◌, bit_and, bit_or, String, ◌≡◌, refl, sym, ap, ◌∙◌, ◌≢◌, ◌⊎◌,
  inl, inr, ◌↔◌, Bool, true, false, Option, none, some, List, [], ◌∷◌, map, arith, ltb, ◌==◌,
  if◌then◌else◌, length, Bool-cases,
}
use extunix.Base.Bits.{testbit, testbit-pow_self, testbit-pow_ne, bit_and-pow, testbit_of_mask}
use extunix.Base.Call.{Exn, assert_failure, Result, ok, raised}
use extunix.Flags.Open.{Header, defined_or}
use extunix.Flags.Table.{Any, entry, list_set, list_set-entry, IsConvert, testbit-convert}

-- The priorities of `<syslog.h>`, in the order of the tables.
unfoldable pub level_table : Header → List ℕ
level_table hdr =
    defined_or (hdr "LOG_EMERG") 0
    ∷ defined_or (hdr "LOG_ALERT") 0
    ∷ defined_or (hdr "LOG_CRIT") 0
    ∷ defined_or (hdr "LOG_ERR") 0
    ∷ defined_or (hdr "LOG_WARNING") 0
    ∷ defined_or (hdr "LOG_NOTICE") 0
    ∷ defined_or (hdr "LOG_INFO") 0
    ∷ defined_or (hdr "LOG_DEBUG") 0
    ∷ []

-- `LOG_MASK(pri)` is `1 << pri`.
abbrev pub log_mask : ℕ → ℕ
log_mask pri = 2 ^ pri

unfoldable pub mask_table : Header → List ℕ
unfolding level_table
mask_table hdr = map log_mask (level_table hdr)

-- `(mask_table[i] & nmask) == mask_table[i]`
abbrev pub is_masked : ℕ → ℕ → Bool
is_masked nmask t = bit_and t nmask == t

-- `convert` is `caml_convert_flag_list`; `sys_setlogmask` sets the mask and returns the old one.
module _ {K : Type 0} (hdr : Header) (convert : List ℕ → List ℕ → ℕ)
    (sys_setlogmask : ℕ → K → ℕ × K) where
  unfoldable pub setlogmask : List ℕ → K → List ℕ × K
  unfolding mask_table list_set
  setlogmask level k =
      let (nmask, k') = sys_setlogmask (convert level (mask_table hdr)) k in
      (list_set (is_masked nmask) (mask_table hdr) 0 [], k')

-- The documented `setlogmask`: it returns the mask in force, and a mask of 0 changes nothing.
abbrev pub IsSetlogmask : {K : Type 0} → (ℕ → K → ℕ × K) → (K → ℕ) → Type 0
IsSetlogmask sys_setlogmask mask_of =
    ((m : ℕ) (k : _) → (sys_setlogmask m k).0 ≡ mask_of k)
    × ((m : ℕ) (k : _) → m ≢ 0 → mask_of (sys_setlogmask m k).1 ≡ m)

unfoldable pub option_table : Header → List ℕ
option_table hdr =
    defined_or (hdr "LOG_PID") 0
    ∷ defined_or (hdr "LOG_CONS") 0
    ∷ defined_or (hdr "LOG_NDELAY") 0
    ∷ defined_or (hdr "LOG_ODELAY") 0
    ∷ defined_or (hdr "LOG_NOWAIT") 0
    ∷ []

unfoldable pub facility_table : Header → List ℕ
facility_table hdr =
    defined_or (hdr "LOG_KERN") 0
    ∷ defined_or (hdr "LOG_USER") 0
    ∷ defined_or (hdr "LOG_MAIL") 0
    ∷ defined_or (hdr "LOG_NEWS") 0
    ∷ defined_or (hdr "LOG_UUCP") 0
    ∷ defined_or (hdr "LOG_DAEMON") 0
    ∷ defined_or (hdr "LOG_AUTH") 0
    ∷ defined_or (hdr "LOG_CRON") 0
    ∷ defined_or (hdr "LOG_LPR") 0
    ∷ defined_or (hdr "LOG_LOCAL0") 0
    ∷ defined_or (hdr "LOG_LOCAL1") 0
    ∷ defined_or (hdr "LOG_LOCAL2") 0
    ∷ defined_or (hdr "LOG_LOCAL3") 0
    ∷ defined_or (hdr "LOG_LOCAL4") 0
    ∷ defined_or (hdr "LOG_LOCAL5") 0
    ∷ defined_or (hdr "LOG_LOCAL6") 0
    ∷ defined_or (hdr "LOG_LOCAL7") 0
    ∷ []

-- The static variable `ident`, the number of copies of strings that are allocated and not yet
-- freed, and the system's log.
pub record Log (K : Type 0) : Type 0 where
  pub ident : Option String
  pub copies : ℕ
  pub kernel : K

-- `if (NULL != ident) { caml_stat_free(ident); ident = NULL; }`
unfoldable pub drop_ident : {K : Type 0} → Log K → Log K
drop_ident s = elim s.ident [ none ↦ s | some _ ↦ record s { ident = none; copies = s.copies - 1 } ]

-- `ident = (Val_none == v_ident) ? NULL : caml_stat_strdup(...)`
unfoldable pub copy_ident : {K : Type 0} → Option String → Log K → Log K
copy_ident none s = record s { ident = none }
copy_ident (some name) s = record s { ident = some name; copies = s.copies + 1 }

-- The facility of a message: 0 if there is none, `none` if the assertion fails.
unfoldable pub message_facility : Header → Option ℕ → Option ℕ
unfolding facility_table
message_facility hdr none = some 0
message_facility hdr (some index) =
    if ltb index (length (facility_table hdr))
    then some (entry (facility_table hdr) index)
    else none

module _ {K : Type 0} (hdr : Header) (convert : List ℕ → List ℕ → ℕ) where
  unfoldable pub openlog :
      (Option String → ℕ → ℕ → K → K)
      → Option String
      → List ℕ
      → ℕ
      → Log K
      → Result (Unit {0}) × Log K
  unfolding drop_ident copy_ident option_table facility_table
  openlog sys_openlog v_ident v_option index_facility s =
      let s' = copy_ident v_ident (drop_ident s) in
      let option = convert v_option (option_table hdr) in
      if ltb index_facility (length (facility_table hdr))
      then (
        ok tt,
        record s' {
          kernel =
              sys_openlog s'.ident option (entry (facility_table hdr) index_facility) s'.kernel;
        },
      )
      else (raised assert_failure, s')

  unfoldable pub closelog : (K → K) → Log K → Result (Unit {0}) × Log K
  closelog sys_closelog s = (ok tt, record s { kernel = sys_closelog s.kernel })

  unfoldable pub syslog :
      (ℕ → String → K → K) → Option ℕ → ℕ → String → Log K → Result (Unit {0}) × Log K
  unfolding message_facility level_table
  syslog sys_syslog v_facility index_level str s = elim (message_facility hdr v_facility) [
    | none ↦ (raised assert_failure, s)
    | some facility ↦
        if ltb index_level (length (level_table hdr))
        then (
          ok tt,
          record s {
            copies = s.copies + 1 - 1;
            kernel =
                sys_syslog (bit_or (entry (level_table hdr) index_level) facility) str s.kernel;
          },
        )
        else (raised assert_failure, s)
  ]
