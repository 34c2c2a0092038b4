-- ===== src/Ifaddrs/Outcome.antt =====
-- What `getifaddrs` of src/ioctl_siocgifconf.c returns, and whether it frees the list.
use mathlib.Core.List.{reverse-cons, append_assoc, append-nil}
use extunix.Base.{
  ℕ, ◌+◌, ◌-◌, String, ◌≡◌, refl, ap, sym, ◌∙◌, inl, inr, Option, none, some, List, [], ◌∷◌, ◌++◌,
  reverse, arith, if◌then◌else◌, Bool-cases,
}
use extunix.Base.Call.{Answer, got, failed, Exn, unix_error, Result, ok, raised, check}
use extunix.Flags.Open.{Header}
use extunix.Ifaddrs.{
  Sockaddr, Ifaddr, Lists, Fetched, is_listed, add_address, list_address, list_ifaddrs, getifaddrs,
  after_fetch, after_loop,
}

module _ (hdr : Header) (inet_ntop : ℕ → List ℕ → Answer String) where
  -- An address of a family that is listed.
  abbrev pub visible : Option Sockaddr → Option Sockaddr
  visible none = none
  visible (some a) = if is_listed hdr a.sa_family then some a else none

  abbrev pub cons_address :
      String → Answer String → Result (List (String × String)) → Result (List (String × String))
  cons_address name (failed e) rest = raised (unix_error e "inet_ntop")
  cons_address name (got s) (raised e) = raised e
  cons_address name (got s) (ok l) = ok ((name, s) ∷ l)

  abbrev pub cons_visible :
      String → Option Sockaddr → Result (List (String × String)) → Result (List (String × String))
  cons_visible name none rest = rest
  cons_visible name (some a) rest = cons_address name (inet_ntop a.sa_family a.addr) rest

  -- The names and addresses in the order of the list, or the first error of `inet_ntop`.
  abbrev pub addresses : List Ifaddr → Result (List (String × String))
  addresses [] = ok []
  addresses (i ∷ rest) = cons_visible i.ifa_name (visible i.ifa_addr) (addresses rest)

  abbrev onto :
      List (String × String) → Result (List (String × String)) → Result (List (String × String))
  onto lst (ok l) = ok (reverse l ++ lst)
  onto lst (raised e) = raised e

  list_ifaddrs-raised :
      (l : List Ifaddr) (e : Exn) → list_ifaddrs hdr inet_ntop l (raised e) ≡ raised e
  unfolding list_ifaddrs
  list_ifaddrs-raised [] e = refl
  list_ifaddrs-raised (i ∷ l) e = refl

  onto-cons_address :
      (name s : String) (lst : List (String × String)) (rest : Result (List (String × String)))
      → onto ((name, s) ∷ lst) rest ≡ onto lst (cons_address name (got s) rest)
  onto-cons_address name s lst (raised e) = refl
  onto-cons_address name s lst (ok l) = ap ok (
      sym (append_assoc (reverse l) ((name, s) ∷ []) lst)
      ∙ ap (λ r. r ++ lst) (sym (reverse-cons (name, s) l)))

  -- The loop on the rest of a list does what the reference does.
  abbrev Follows : List Ifaddr → Type 0
  Follows l =
      (lst : List (String × String))
      → list_ifaddrs hdr inet_ntop l (ok lst) ≡ onto lst (addresses l)

  after_answer :
      (l : List Ifaddr) (name : String) (a : Answer String) (lst : List (String × String))
      → Follows l
      → list_ifaddrs hdr inet_ntop l (add_address name (check "inet_ntop" a) lst)
        ≡ onto lst (cons_address name a (addresses l))
  after_answer l name (got s) lst ih =
      ih ((name, s) ∷ lst) ∙ onto-cons_address name s lst (addresses l)
  after_answer l name (failed e) lst ih = list_ifaddrs-raised l (unix_error e "inet_ntop")

  after_address :
      (l : List Ifaddr) (name : String) (o : Option Sockaddr) (lst : List (String × String))
      → Follows l
      → list_ifaddrs hdr inet_ntop l (list_address hdr inet_ntop name o lst)
        ≡ onto lst (cons_visible name (visible o) (addresses l))
  unfolding list_address
  after_address l name none lst ih = ih lst
  after_address l name (some a) lst ih = elim (Bool-cases (is_listed hdr a.sa_family)) [
    | inl listed ↦ rw listed (after_answer l name (inet_ntop a.sa_family a.addr) lst ih)
    | inr other ↦ rw other (ih lst)
  ]

  list_ifaddrs-addresses : (l : List Ifaddr) → Follows l
  unfolding list_ifaddrs
  list_ifaddrs-addresses [] lst = refl
  list_ifaddrs-addresses (i ∷ l) lst =
      after_address l i.ifa_name i.ifa_addr lst (list_ifaddrs-addresses l)

  -- The last interface first and nothing left to free; or an error, and a list that is not freed.
  abbrev pub listing :
      {K : Type 0}
      → Result (List (String × String))
      → Lists K
      → K
      → Result (List (String × String)) × Lists K
  listing (ok l) s k = (ok (reverse l), record s { kernel = k })
  listing (raised e) s k = (raised e, record { unfreed = s.unfreed + 1; kernel = k })

  after_loop-listing :
      {K : Type 0} (l : List Ifaddr) (r : Result (List (String × String))) (s : Lists K) (k : K)
      → after_loop (some l) (onto [] r) (record { unfreed = s.unfreed + 1; kernel = k })
        ≡ listing r s k
  unfolding after_loop
  after_loop-listing l (raised e) s k = refl
  after_loop-listing l (ok r) s k =
      let back : s.unfreed + 1 - 1 ≡ s.unfreed = omega arith in
      rw (append-nil (reverse r), back) refl

  -- Where the system gives the list `l`: `getifaddrs` returns the names and addresses of the
  -- interfaces of IPv4 and IPv6, the last first, and frees the list; if `inet_ntop` fails for one of
  -- them, it raises the first such error, and the list is not freed.
  pub getifaddrs-listing :
      {K : Type 0} (sys_getifaddrs : K → Fetched × K) (l : List Ifaddr) (s : Lists K) (k : K)
      → sys_getifaddrs s.kernel ≡ (record { code = got tt; ifaddrs = some l }, k)
      → getifaddrs hdr inet_ntop sys_getifaddrs s ≡ listing (addresses l) s k
  unfolding getifaddrs after_fetch
  getifaddrs-listing sys_getifaddrs l s k e =
      rw (e, list_ifaddrs-addresses l []) (after_loop-listing l (addresses l) s k)
