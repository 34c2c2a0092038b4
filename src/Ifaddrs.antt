-- ===== src/Ifaddrs.antt =====
-- src/ioctl_siocgifconf.c: the addresses of the network interfaces.
pub mod Outcome
mod Tests
use extunix.Base.{
  ℕ, ◌+◌, ◌-◌, ◌*◌, ◌/◌, String, Bool, Option, none, some, List, [], ◌∷◌, ◌==◌, ◌||◌, take,
  if◌then◌else◌,
}
use extunix.Base.Int.{ℤ, int_val}
use extunix.Base.Call.{Errno, Answer, got, failed, Exn, unix_error, Result, ok, raised, check}
use extunix.Base.Stub.{Stub, and_then}
use extunix.Flags.Open.{Header, defined_or}

-- An entry that the kernel fills in; the address is that of IPv4 in its structure.
pub record Ifreq : Type 0 where
  pub ifr_name : String
  pub sin_addr : ℕ

-- What `ioctl` leaves: the length in bytes, and the array.
pub record Ifconf : Type 0 where
  pub ifc_len : ℕ
  pub ifreqs : List Ifreq

-- The loop puts each entry before those so far. `sizeof_ifreq` is that of the system.
unfoldable pub list_ifreqs :
    (ℕ → String) → List Ifreq → List (String × String) → List (String × String)
list_ifreqs inet_ntoa [] lst = lst
list_ifreqs inet_ntoa (r ∷ rs) lst =
    list_ifreqs inet_ntoa rs ((r.ifr_name, inet_ntoa r.sin_addr) ∷ lst)

unfoldable pub ifconf_result : ℕ → (ℕ → String) → Result Ifconf → Result (List (String × String))
unfolding list_ifreqs
ifconf_result sizeof_ifreq inet_ntoa (raised e) = raised e
ifconf_result sizeof_ifreq inet_ntoa (ok c) =
    ok (list_ifreqs inet_ntoa (take (c.ifc_len / sizeof_ifreq) c.ifreqs) [])

-- The array has 32 entries.
unfoldable pub ioctl_siocgifconf :
    {K : Type 0}
    → ℕ
    → (ℕ → String)
    → (ℤ → ℕ → K → Answer Ifconf × K)
    → ℤ
    → Stub K (List (String × String))
unfolding ifconf_result int_val
ioctl_siocgifconf sizeof_ifreq inet_ntoa sys_ioctl v_sock k =
    let (a, k') = sys_ioctl (int_val v_sock) (32 * sizeof_ifreq) k in
    (ifconf_result sizeof_ifreq inet_ntoa (check "ioctl(SIOCGIFCONF)" a), k')

-- A socket address: its family, and the bytes of the address.
pub record Sockaddr : Type 0 where
  pub sa_family : ℕ
  pub addr : List ℕ

pub record Ifaddr : Type 0 where
  pub ifa_name : String
  pub ifa_addr : Option Sockaddr

-- The lists of `getifaddrs` that have not been freed, and the system.
pub record Lists (K : Type 0) : Type 0 where
  pub unfreed : ℕ
  pub kernel : K

-- What `getifaddrs` leaves: whether it failed, and a list unless the pointer is still `NULL`.
pub record Fetched : Type 0 where
  pub code : Answer (Unit {0})
  pub ifaddrs : Option (List Ifaddr)

abbrev pub af_inet : Header → ℕ
af_inet hdr = defined_or (hdr "AF_INET") 0

abbrev pub af_inet6 : Header → ℕ
af_inet6 hdr = defined_or (hdr "AF_INET6") 0

-- The families that are listed.
abbrev pub is_listed : Header → ℕ → Bool
is_listed hdr family = (family == af_inet hdr) || (family == af_inet6 hdr)

abbrev pub add_address :
    String → Result String → List (String × String) → Result (List (String × String))
add_address name (ok addr_str) lst = ok ((name, addr_str) ∷ lst)
add_address name (raised e) lst = raised e

-- `inet_ntop` for either family.
module _ (hdr : Header) (inet_ntop : ℕ → List ℕ → Answer String) where
  unfoldable pub list_address :
      String → Option Sockaddr → List (String × String) → Result (List (String × String))
  list_address name none lst = ok lst
  list_address name (some a) lst =
      if is_listed hdr a.sa_family
      then add_address name (check "inet_ntop" (inet_ntop a.sa_family a.addr)) lst
      else ok lst

  unfoldable pub list_ifaddrs :
      List Ifaddr → Result (List (String × String)) → Result (List (String × String))
  unfolding list_address
  list_ifaddrs rest (raised e) = raised e
  list_ifaddrs [] (ok lst) = ok lst
  list_ifaddrs (i ∷ rest) (ok lst) = list_ifaddrs rest (list_address i.ifa_name i.ifa_addr lst)

abbrev pub freeifaddrs : {K : Type 0} → Lists K → Lists K
freeifaddrs s = record s { unfreed = s.unfreed - 1 }

-- The list counts as allocated if the pointer is not `NULL`.
abbrev pub held : {K : Type 0} → Option (List Ifaddr) → Lists K → Lists K
held none s = s
held (some l) s = record s { unfreed = s.unfreed + 1 }

abbrev pub iter : Option (List Ifaddr) → List Ifaddr
iter none = []
iter (some l) = l

abbrev pub free_held : {K : Type 0} → Option (List Ifaddr) → Lists K → Lists K
free_held none s = s
free_held (some l) s = freeifaddrs s

-- An exception in the loop leaves without `freeifaddrs`.
unfoldable pub after_loop :
    {K : Type 0}
    → Option (List Ifaddr)
    → Result (List (String × String))
    → Lists K
    → Result (List (String × String)) × Lists K
after_loop l (ok lst) s = (ok lst, free_held l s)
after_loop l (raised e) s = (raised e, s)

unfoldable pub after_fetch :
    {K : Type 0}
    → Header
    → (ℕ → List ℕ → Answer String)
    → Answer (Unit {0})
    → Option (List Ifaddr)
    → Lists K
    → Result (List (String × String)) × Lists K
unfolding after_loop list_ifaddrs
after_fetch hdr inet_ntop (failed e) l s = (raised (unix_error e "getifaddrs"), free_held l s)
after_fetch hdr inet_ntop (got u) l s = after_loop l (list_ifaddrs hdr inet_ntop (iter l) (ok [])) s

unfoldable pub getifaddrs :
    {K : Type 0}
    → Header
    → (ℕ → List ℕ → Answer String)
    → (K → Fetched × K)
    → Lists K
    → Result (List (String × String)) × Lists K
unfolding after_fetch
getifaddrs hdr inet_ntop sys_getifaddrs s =
    let (f, k) = sys_getifaddrs s.kernel in
    after_fetch hdr inet_ntop f.code f.ifaddrs (held f.ifaddrs (record s { kernel = k }))
