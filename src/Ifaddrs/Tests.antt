-- ===== src/Ifaddrs/Tests.antt =====
-- Three interfaces, of which one has no address.
use extunix.Base.{ℕ, String, ◌≡◌, refl, Bool, true, none, some, List, [], ◌∷◌, ◌==◌, if◌then◌else◌}
use text.Mathlib.Text.{◌==◌ as str_eq}
use extunix.Base.Int.{pos}
use extunix.Base.Call.{Answer, got, failed, other, unix_error, ok, raised}
use extunix.Flags.Open.{Header}
use extunix.Ifaddrs.{ioctl_siocgifconf, Ifaddr, Lists, Fetched, getifaddrs}
use extunix.Ifaddrs.Outcome.{addresses, listing, getifaddrs-listing}

abbrev linux : Header
linux name = if str_eq name "AF_INET" then some 2 else some 10

-- An address with no bytes cannot be printed.
abbrev print : ℕ → List ℕ → Answer String
print family [] = failed (other 28)
print family (b ∷ bs) = got (if family == 2 then "127.0.0.1" else "::1")

abbrev three : List Ifaddr
three =
    record { ifa_name = "lo"; ifa_addr = some (record { sa_family = 2; addr = 127 ∷ [] }) }
    ∷ record { ifa_name = "tun"; ifa_addr = none }
    ∷ record { ifa_name = "eth"; ifa_addr = some (record { sa_family = 10; addr = 1 ∷ [] }) }
    ∷ []

abbrev broken : List Ifaddr
broken = record { ifa_name = "bad"; ifa_addr = some (record { sa_family = 2; addr = [] }) } ∷ three

abbrev gives : List Ifaddr → Bool → Fetched × Bool
gives l k = (record { code = got tt; ifaddrs = some l }, k)

abbrev at_start : Lists Bool
at_start = record { unfreed = 0; kernel = true }

getifaddrs_run :
    getifaddrs linux print (gives three) at_start
    ≡ (ok (("eth", "::1") ∷ ("lo", "127.0.0.1") ∷ []), at_start)
unfolding getifaddrs
getifaddrs_run = refl

-- The list leaks.
getifaddrs_leaks :
    getifaddrs linux print (gives broken) at_start
    ≡ (raised (unix_error (other 28) "inet_ntop"), record { unfreed = 1; kernel = true })
unfolding getifaddrs
getifaddrs_leaks = refl

siocgifconf_run :
    (ioctl_siocgifconf 40
      (λ a. "10.0.0.1")
      (λ fd len k. (
        got (record {
          ifc_len = 80;
          ifreqs =
              record { ifr_name = "a"; sin_addr = 1 }
              ∷ record { ifr_name = "b"; sin_addr = 2 }
              ∷ [];
        }),
        k,
      ))
      (pos 3)
      true).0
    ≡ ok (("b", "10.0.0.1") ∷ ("a", "10.0.0.1") ∷ [])
unfolding ioctl_siocgifconf
siocgifconf_run = refl

getifaddrs-listing_example :
    getifaddrs linux print (gives broken) at_start
    ≡ listing linux print (addresses linux print broken) at_start true
getifaddrs-listing_example = getifaddrs-listing linux print (gives broken) broken at_start true refl
