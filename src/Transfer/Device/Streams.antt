-- ===== src/Transfer/Device/Streams.antt =====
-- `read`, `write` and `pwrite` of the concrete kernel.
use extunix.Base.{
  ℕ, zero, suc, ◌∷◌, ◌+◌, ◌≤◌, ◌<◌, ◌≡◌, refl, sym, ap, ◌∙◌, Option, none, some, List, [], ◌++◌,
  arith, length, take, drop, overwrite, length-take, overwrite-append, overwrite-nothing,
  nil-of-length,
}
use extunix.Base.Call.{Errno, eintr, Answer, got, failed}
use extunix.Transfer.Input.Delivery.{IsSource}
use extunix.Transfer.Output.Delivery.{IsSink}
use extunix.Transfer.Reading.{read_call}
use extunix.Transfer.Writing.{write_call}
use extunix.Transfer.Device.{Turn, Device, grant, Granted, grant-Granted, patience}
use mathlib.Core.List.{append-nil, append_assoc}

-- `read`: the bytes that are taken are gone.
abbrev pub consume : Device → Option ℕ × List Turn → Answer (List ℕ) × Device
consume d (none, ts) = (failed eintr, record d { turns = ts })
consume d (some q, ts) = (got (take q d.content), record { content = drop q d.content; turns = ts })

abbrev pub dev_read : ℕ → ℕ → Device → Answer (List ℕ) × Device
dev_read fd n d = consume d (grant n d.turns)

-- A writing call that puts the bytes it takes into the content by `put`.
abbrev pub absorb :
    (ℕ → List ℕ → List ℕ → List ℕ) → List ℕ → ℕ → Device → Option ℕ × List Turn → Answer ℕ × Device
absorb put bytes off d (none, ts) = (failed eintr, record d { turns = ts })
absorb put bytes off d (some q, ts) =
    (got q, record { content = put off (take q bytes) d.content; turns = ts })

-- `pwrite`: what falls behind the end of the device is dropped.
abbrev pub dev_pwrite : ℕ → List ℕ → ℕ → Device → Answer ℕ × Device
dev_pwrite fd bytes off d = absorb overwrite bytes off d (grant (length bytes) d.turns)

-- `write`: the bytes join what is there.
abbrev join : ℕ → List ℕ → List ℕ → List ℕ
join off bs c = c ++ bs

abbrev pub dev_write : ℕ → List ℕ → Device → Answer ℕ × Device
dev_write fd bytes d = absorb join bytes 0 d (grant (length bytes) d.turns)

abbrev pub stream : ℕ → Device → List ℕ
stream off d = d.content

-- The content of `d'` is that of `d` with `bs` put in at `off`.
abbrev pub Put : (ℕ → List ℕ → List ℕ → List ℕ) → ℕ → Device → List ℕ → Device → Type 0
Put put off d bs d' = d'.content ≡ put off bs d.content

abbrev pub Appended : ℕ → Device → List ℕ → Device → Type 0
Appended = Put join

abbrev pub Overwritten : ℕ → Device → List ℕ → Device → Type 0
Overwritten = Put overwrite

take-append-drop : (q : ℕ) (xs : List ℕ) → xs ≡ take q xs ++ drop q xs
take-append-drop zero xs = refl
take-append-drop (suc q) [] = refl
take-append-drop (suc q) (x ∷ xs) = ap (λ t. x ∷ t) (take-append-drop q xs)

pub dev_read-IsSource : (fd : ℕ) → IsSource (read_call dev_read fd) stream (λ e. e ≡ eintr) patience
dev_read-IsSource fd = record {
  gives = λ n off d bs d' e. gives_to n off d (grant n d.turns) bs d' (grant-Granted n d.turns) e;
  fails = λ n off d x d' e. fails_to n off d (grant n d.turns) x d' (grant-Granted n d.turns) e;
}
  where
    gives_to :
        (n off : ℕ) (d : Device) (g : Option ℕ × List Turn) (bs : List ℕ) (d' : Device)
        → Granted n d.turns g
        → consume d g ≡ (got bs, d')
        → (length bs ≤ n)
          × (stream off d ≡ bs ++ stream (off + length bs) d')
          × (length bs ≡ 0 → 0 < n → stream off d ≡ [])
          × (patience d' ≤ patience d)
    gives_to n off d (none, ts) bs d' ok e = cc
    gives_to n off d (some q, ts) bs d' ok e =
        let eb : take q d.content ≡ bs = cc in
        let ed : record { content = drop q d.content; turns = ts } ≡ d' = cc in
        rw (← eb, ← ed)
          (
            omega (arith, ok, length-take q d.content),
            take-append-drop q d.content,
            λ z p. nil-of-length _ (omega (arith, ok, z, length-take q d.content)),
            ok.2,
          )

    fails_to :
        (n off : ℕ) (d : Device) (g : Option ℕ × List Turn) (x : Errno) (d' : Device)
        → Granted n d.turns g
        → consume d g ≡ (failed x, d')
        → (x ≡ eintr)
          × (stream off d' ≡ stream off d)
          × (patience d' ≤ patience d)
          × (x ≡ eintr → patience d' < patience d)
    fails_to n off d (some q, ts) x d' ok e = cc
    fails_to n off d (none, ts) x d' ok e =
        let ex : eintr ≡ x = cc in
        let ed : record d { turns = ts } ≡ d' = cc in
        rw (← ed) (sym ex, refl, omega (arith, ok), λ _. ok)

-- Both writing calls meet what the loops rely on.
module _ (put : ℕ → List ℕ → List ℕ → List ℕ)
    (put_nothing : (off : ℕ) (c : List ℕ) → put off [] c ≡ c) where
  takes_to :
      (bytes : List ℕ) (off : ℕ) (d : Device) (g : Option ℕ × List Turn) (n : ℕ) (d' : Device)
      → Granted (length bytes) d.turns g
      → absorb put bytes off d g ≡ (got n, d')
      → (n ≤ length bytes)
        × Put put off d (take n bytes) d'
        × (n ≡ 0 → 0 < length bytes → ⊥)
        × (patience d' ≤ patience d)
  takes_to bytes off d (none, ts) n d' ok e = cc
  takes_to bytes off d (some q, ts) n d' ok e =
      let en : q ≡ n = cc in
      let ed : record { content = put off (take q bytes) d.content; turns = ts } ≡ d' = cc in
      rw (← ed, ← en) (ok.0, refl, λ z p. absurd (omega (arith, z, ok.1 p)), ok.2)

  refuses_to :
      (bytes : List ℕ) (off : ℕ) (d : Device) (g : Option ℕ × List Turn) (x : Errno) (d' : Device)
      → Granted (length bytes) d.turns g
      → absorb put bytes off d g ≡ (failed x, d')
      → (x ≡ eintr)
        × Put put off d [] d'
        × (patience d' ≤ patience d)
        × (x ≡ eintr → patience d' < patience d)
  refuses_to bytes off d (some q, ts) x d' ok e = cc
  refuses_to bytes off d (none, ts) x d' ok e =
      let ex : eintr ≡ x = cc in
      let ed : record d { turns = ts } ≡ d' = cc in
      rw (← ed) (sym ex, sym (put_nothing off d.content), omega (arith, ok), λ _. ok)

pub dev_pwrite-IsSink : (fd : ℕ) → IsSink (dev_pwrite fd) Overwritten (λ e. e ≡ eintr) ⊥ patience
dev_pwrite-IsSink fd = record {
  nothing = λ off d. sym (overwrite-nothing off d.content);
  joins = λ off next d d' d'' bs cs e p q.
      q ∙ ap (overwrite next cs) p ∙ overwrite-append off next bs cs d.content e;
  takes = λ bytes off d n d' e.
      takes_to overwrite overwrite-nothing bytes off d _ n d' (grant-Granted (length bytes) d.turns)
        e;
  fails = λ bytes off d x d' e.
      refuses_to overwrite overwrite-nothing bytes off d _ x d'
        (grant-Granted (length bytes) d.turns) e;
}

pub dev_write-IsSink :
    (fd : ℕ) → IsSink (write_call dev_write fd) Appended (λ e. e ≡ eintr) ⊥ patience
dev_write-IsSink fd = record {
  nothing = λ off d. sym (append-nil d.content);
  joins = λ off next d d' d'' bs cs e p q. q ∙ ap (λ t. t ++ cs) p ∙ append_assoc d.content bs cs;
  takes = λ bytes off d n d' e.
      takes_to join (λ off c. append-nil c) bytes off d _ n d'
        (grant-Granted (length bytes) d.turns) e;
  fails = λ bytes off d x d' e.
      refuses_to join (λ off c. append-nil c) bytes off d _ x d'
        (grant-Granted (length bytes) d.turns) e;
}
