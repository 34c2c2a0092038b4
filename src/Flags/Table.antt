-- ===== src/Flags/Table.antt =====
-- Tables of flag values, a loop that lists the set ones, and `caml_convert_flag_list`.
use extunix.Base.{
  ℕ, zero, suc, ◌+◌, ◌≤◌, ◌<◌, bit_or, ◌≡◌, refl, ap, ◌∙◌, ◌⊎◌, inl, inr, ◌↔◌, Bool, true, List, [],
  ◌∷◌, arith, if◌then◌else◌, length, Bool-cases, max, map, sym,
}
use mathlib.Core.Bool.{false≢true}
use extunix.Base.Bits.{testbit, testbit-bit_or, testbit-zero, testbit-le}

-- `P` holds of a member of the list.
abbrev pub Any {ℓ} : {A : Type ℓ} → (A → Type 0) → List A → Type 0
Any P [] = ⊥
Any P (x ∷ xs) = P x ⊎ Any P xs

-- The entry of a table, and 0 out of range.
abbrev pub entry : List ℕ → ℕ → ℕ
entry [] i = 0
entry (t ∷ ts) zero = t
entry (t ∷ ts) (suc i) = entry ts i

-- `for (i = 0; i < size; i++) if (is_set(table[i])) list = i :: list`
unfoldable pub list_set : (ℕ → Bool) → List ℕ → ℕ → List ℕ → List ℕ
list_set is_set [] i list = list
list_set is_set (t ∷ ts) i list = list_set is_set ts (i + 1) (if is_set t then i ∷ list else list)

-- The documented behaviour of the runtime's `caml_convert_flag_list`.
abbrev pub IsConvert : (List ℕ → List ℕ → ℕ) → Type 0
IsConvert convert =
    ((table : List ℕ) → convert [] table ≡ 0)
    × ((i : ℕ) (l table : List ℕ)
        → i < length table
        → convert (i ∷ l) table ≡ bit_or (entry table i) (convert l table))

-- The indices of constructors: they lie in the table.
abbrev pub AreInside : List ℕ → List ℕ → Type 0
AreInside table [] = Unit
AreInside table (i ∷ l) = (i < length table) × AreInside table l

-- Each index from `i` on whose entry is set, and what was there.
abbrev Listed : (ℕ → Bool) → List ℕ → ℕ → ℕ → Type 0
Listed is_set [] i j = ⊥
Listed is_set (t ∷ ts) i j = ((j ≡ i) × (is_set t ≡ true)) ⊎ Listed is_set ts (i + 1) j

list_set-Listed :
    (is_set : ℕ → Bool) (ts : List ℕ) (i : ℕ) (list : List ℕ) (j : ℕ)
    → Any (λ k. j ≡ k) (list_set is_set ts i list) ↔ (Listed is_set ts i j ⊎ Any (λ k. j ≡ k) list)
unfolding list_set
list_set-Listed is_set [] i list j = (λ a. inr a, λ s. elim s [ inl b ↦ absurd b | inr a ↦ a ])
list_set-Listed is_set (t ∷ ts) i list j = elim (Bool-cases (is_set t)) [
  | inl yes_set ↦
      let ih = list_set-Listed is_set ts (i + 1) (i ∷ list) j in
      rw yes_set (
        λ a. elim (ih.0 a) [
          | inl l ↦ inl (inr l)
          | inr (inl e) ↦ inl (inl (e, refl))
          | inr (inr b) ↦ inr b
        ],
        λ s.
            ih.1
              (elim s [ inl (inl p) ↦ inr (inl p.0) | inl (inr l) ↦ inl l | inr b ↦ inr (inr b) ]),
      )
  | inr not_set ↦
      let ih = list_set-Listed is_set ts (i + 1) list j in
      rw not_set (
        λ a. elim (ih.0 a) [ inl l ↦ inl (inr l) | inr b ↦ inr b ],
        λ s. ih.1 (elim s [
          | inl (inl (e, p)) ↦ absurd (false≢true p)
          | inl (inr l) ↦ inl l
          | inr b ↦ inr b
        ]),
      )
]

Listed-le : (is_set : ℕ → Bool) (ts : List ℕ) (i j : ℕ) → Listed is_set ts i j → i ≤ j
Listed-le is_set (t ∷ ts) i j (inl p) = omega (arith, p.0)
Listed-le is_set (t ∷ ts) i j (inr l) = omega (arith, Listed-le is_set ts (i + 1) j l)
Listed-le is_set [] i j l = absurd l

Listed-entry :
    (is_set : ℕ → Bool) (ts : List ℕ) (i n j : ℕ)
    → j ≡ i + n
    → Listed is_set ts i j ↔ ((n < length ts) × (is_set (entry ts n) ≡ true))
Listed-entry is_set [] i n j e = (λ b. absurd b, λ p. absurd (omega (arith, p.0)))
Listed-entry is_set (t ∷ ts) i zero j e = (
  λ l. elim l [
    | inl p ↦ (omega arith, p.1)
    | inr later ↦ absurd (omega (arith, Listed-le is_set ts (i + 1) j later))
  ],
  λ p. inl (omega arith, p.1),
)
Listed-entry is_set (t ∷ ts) i (suc n) j e =
    let ih = Listed-entry is_set ts (i + 1) n j (omega arith) in
    (
      λ l. elim l [
        | inl (p, q) ↦ absurd (omega arith)
        | inr later ↦ (omega (arith, (ih.0 later).0), (ih.0 later).1)
      ],
      λ p. inr (ih.1 (omega arith, p.1)),
    )

-- The loop lists exactly the indices whose entry is set.
pub list_set-entry :
    (is_set : ℕ → Bool) (table : List ℕ) (j : ℕ)
    → Any (λ k. j ≡ k) (list_set is_set table 0 [])
      ↔ ((j < length table) × (is_set (entry table j) ≡ true))
list_set-entry is_set table j =
    let l = list_set-Listed is_set table 0 [] j in
    let e = Listed-entry is_set table 0 j j (omega arith) in
    (λ a. e.0 (elim (l.0 a) [ inl x ↦ x | inr b ↦ absurd b ]), λ p. l.1 (inl (e.1 p)))

-- The head of the list, if there is one, is less than `x`.
abbrev pub Below : ℕ → List ℕ → Type 0
Below x [] = Unit
Below x (y ∷ ys) = y < x

abbrev pub IsDescending : List ℕ → Type 0
IsDescending [] = Unit
IsDescending (x ∷ xs) = Below x xs × IsDescending xs

Below-mono : (x y : ℕ) (xs : List ℕ) → x ≤ y → Below x xs → Below y xs
Below-mono x y [] h b = tt
Below-mono x y (z ∷ xs) h b = omega arith

list_set_descends :
    (is_set : ℕ → Bool) (ts : List ℕ) (i : ℕ) (list : List ℕ)
    → Below i list
    → IsDescending list
    → IsDescending (list_set is_set ts i list)
unfolding list_set
list_set_descends is_set [] i list b d = d
list_set_descends is_set (t ∷ ts) i list b d = elim (Bool-cases (is_set t)) [
  | inl yes_set ↦ rw yes_set (list_set_descends is_set ts (i + 1) (i ∷ list) (omega arith) (b, d))
  | inr not_set ↦
      rw not_set
        (list_set_descends is_set ts (i + 1) list (Below-mono i (i + 1) list (omega arith) b) d)
]

-- The loop lists each index once, the highest first.
pub list_set-IsDescending :
    (is_set : ℕ → Bool) (table : List ℕ) → IsDescending (list_set is_set table 0 [])
list_set-IsDescending is_set table = list_set_descends is_set table 0 [] tt tt

-- The bits of a converted list of flags are those of its members.
testbit-convert_cons :
    (b x y z : ℕ) (A : Type 0)
    → z ≡ bit_or x y
    → (testbit b y ≡ 1) ↔ A
    → (testbit b z ≡ 1) ↔ ((testbit b x ≡ 1) ⊎ A)
testbit-convert_cons b x y z A e ih = (
  λ one. elim (one_of one) [ inl p ↦ inl p | inr q ↦ inr (ih.0 q) ],
  λ s. elim s [
    | inl p ↦ omega (arith, bits, p, testbit-le b y)
    | inr a ↦ omega (arith, bits, ih.1 a, testbit-le b x)
  ],
)
  where
    bits : testbit b z ≡ max (testbit b x) (testbit b y)
    bits = ap (testbit b) e ∙ testbit-bit_or b x y

    one_of : testbit b z ≡ 1 → (testbit b x ≡ 1) ⊎ (testbit b y ≡ 1)
    one_of one = ground (arith, bits, testbit-le b x, testbit-le b y)

pub testbit-convert :
    (convert : List ℕ → List ℕ → ℕ)
    → IsConvert convert
    → (b : ℕ) (l table : List ℕ) → AreInside table l
    → (testbit b (convert l table) ≡ 1) ↔ Any (λ i. testbit b (entry table i) ≡ 1) l
testbit-convert convert c b [] table inside =
    (λ e. absurd (omega (arith, testbit-zero b, ap (testbit b) (c.0 table))), λ a. absurd a)
testbit-convert convert c b (i ∷ l) table inside =
    testbit-convert_cons b (entry table i) (convert l table) (convert (i ∷ l) table)
      (Any (λ i. testbit b (entry table i) ≡ 1) l) (c.1 i l table inside.0)
      (testbit-convert convert c b l table inside.1)

-- A list of constructors, by the number that OCaml gives each.
module _ {F : Type 0} (index : F → ℕ) where
  pub Any-map :
      (P : ℕ → Type 0) (Q : F → Type 0)
      → ((f : F) → P (index f) ↔ Q f)
      → (fs : List F) → Any P (map index fs) ↔ Any Q fs
  Any-map P Q same [] = (λ a. a, λ a. a)
  Any-map P Q same (f ∷ fs) =
      let rest = Any-map P Q same fs in
      (
        λ a. elim a [ inl p ↦ inl ((same f).0 p) | inr b ↦ inr (rest.0 b) ],
        λ a. elim a [ inl q ↦ inl ((same f).1 q) | inr b ↦ inr (rest.1 b) ],
      )

  pub map-AreInside :
      (table : List ℕ)
      → ((f : F) → index f < length table)
      → (fs : List F) → AreInside table (map index fs)
  map-AreInside table inside [] = tt
  map-AreInside table inside (f ∷ fs) = (inside f, map-AreInside table inside fs)

  -- The bits of a converted list are those of the macros that its constructors stand for.
  pub testbit-macros :
      (convert : List ℕ → List ℕ → ℕ) (table : List ℕ) (macro : F → ℕ)
      → IsConvert convert
      → ((f : F) → index f < length table)
      → ((f : F) → entry table (index f) ≡ macro f)
      → (b : ℕ) (fs : List F)
      → (testbit b (convert (map index fs) table) ≡ 1) ↔ Any (λ f. testbit b (macro f) ≡ 1) fs
  testbit-macros convert table macro c inside entries b fs =
      let bits = testbit-convert convert c b (map index fs) table (map-AreInside table inside fs) in
      let members =
        Any-map (λ i. testbit b (entry table i) ≡ 1) (λ f. testbit b (macro f) ≡ 1)
          (λ f. (λ e. ap (testbit b) (sym (entries f)) ∙ e, λ e. ap (testbit b) (entries f) ∙ e))
          fs in
      (λ e. members.0 (bits.0 e), λ a. bits.1 (members.1 a))
