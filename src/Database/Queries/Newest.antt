-- ===== src/Database/Queries/Newest.antt =====
-- The newest rows of a query.
use mathlib.Core.List.{Perm}
use mathlib.Core.List.Perm
use multi_agent_ai_analyst.Prelude.{
  ap, ◌++◌, drop, All-mono, ℕ, zero, suc, ◌≤◌, ◌≡◌, refl, List, [], ◌∷◌, All, take, length, arith,
  leb, min, Bool-cases, inl, inr, leb→le,
}
use multi_agent_ai_analyst.Database.Queries.{order_by_desc, insert_by_desc}

-- Rows from the greatest key to the least.
abbrev pub Descending {ℓ} : {A : Type ℓ} → (A → ℕ) → List A → Type 0
Descending key [] = Unit
Descending key (x ∷ xs) = All (λ y. key y ≤ key x) xs × Descending key xs

All-insert_by_desc {ℓ κ} :
    {A : Type ℓ} (P : A → Type κ) (key : A → ℕ) (x : A) (xs : List A)
    → P x
    → All P xs
    → All P (insert_by_desc key x xs)
unfolding insert_by_desc
All-insert_by_desc P key x [] px h = (px, tt)
All-insert_by_desc P key x (y ∷ ys) px h =
    let rest = All-insert_by_desc P key x ys px h.1 in
    elim (Bool-cases (leb (key y) (key x))) [ inl le ↦ rw le (px, h) | inr gt ↦ rw gt (h.0, rest) ]

Descending-insert_by_desc {ℓ} :
    {A : Type ℓ} (key : A → ℕ) (x : A) (xs : List A)
    → Descending key xs
    → Descending key (insert_by_desc key x xs)
unfolding insert_by_desc
Descending-insert_by_desc key x [] h = (tt, tt)
Descending-insert_by_desc key x (y ∷ ys) h =
    let rest = Descending-insert_by_desc key x ys h.1 in
    elim (Bool-cases (leb (key y) (key x))) [
      | inl low ↦
          rw low ((leb→le (key y) (key x) low, All-mono _ _ ys (λ z le. ground arith) h.0), h)
      | inr high ↦ rw high (All-insert_by_desc _ key x ys (ground arith) h.0, rest)
    ]

length-insert_by_desc {ℓ} :
    {A : Type ℓ} (key : A → ℕ) (x : A) (xs : List A)
    → length (insert_by_desc key x xs) ≡ suc (length xs)
unfolding insert_by_desc
length-insert_by_desc key x [] = refl
length-insert_by_desc key x (y ∷ ys) = ground (arith, length-insert_by_desc key x ys)

All-take {ℓ κ} : {A : Type ℓ} (P : A → Type κ) (n : ℕ) (xs : List A) → All P xs → All P (take n xs)
All-take P zero xs h = tt
All-take P (suc n) [] h = tt
All-take P (suc n) (x ∷ xs) h = (h.0, All-take P n xs h.1)

Descending-take {ℓ} :
    {A : Type ℓ} (key : A → ℕ) (n : ℕ) (xs : List A)
    → Descending key xs
    → Descending key (take n xs)
Descending-take key zero xs h = tt
Descending-take key (suc n) [] h = tt
Descending-take key (suc n) (x ∷ xs) h = (All-take _ n xs h.0, Descending-take key n xs h.1)

length-take {ℓ} : {A : Type ℓ} (n : ℕ) (xs : List A) → length (take n xs) ≡ min n (length xs)
length-take zero xs = omega arith
length-take (suc n) [] = omega arith
length-take (suc n) (x ∷ xs) = omega (arith, length-take n xs)

length-order_by_desc {ℓ} :
    {A : Type ℓ} (key : A → ℕ) (xs : List A) → length (order_by_desc key xs) ≡ length xs
unfolding order_by_desc
length-order_by_desc key [] = refl
length-order_by_desc key (x ∷ xs) =
    omega (arith, length-insert_by_desc key x (order_by_desc key xs), length-order_by_desc key xs)

Descending-order_by_desc {ℓ} :
    {A : Type ℓ} (key : A → ℕ) (xs : List A) → Descending key (order_by_desc key xs)
unfolding order_by_desc
Descending-order_by_desc key [] = tt
Descending-order_by_desc key (x ∷ xs) =
    Descending-insert_by_desc key x (order_by_desc key xs) (Descending-order_by_desc key xs)

insert_by_desc-Perm :
    {A : Type 0} (key : A → ℕ) (x : A) (xs : List A) → Perm (insert_by_desc key x xs) (x ∷ xs)
unfolding insert_by_desc
insert_by_desc-Perm key x [] = Perm.refl (x ∷ [])
insert_by_desc-Perm key x (y ∷ ys) = elim (Bool-cases (leb (key y) (key x))) [
  | inl low ↦ rw low (Perm.refl (x ∷ y ∷ ys))
  | inr high ↦ rw high (Perm.trans (Perm.cons y (insert_by_desc-Perm key x ys)) (Perm.swap x y ys))
]

order_by_desc-Perm : {A : Type 0} (key : A → ℕ) (xs : List A) → Perm (order_by_desc key xs) xs
unfolding order_by_desc
order_by_desc-Perm key [] = Perm.refl []
order_by_desc-Perm key (x ∷ xs) =
    Perm.trans (insert_by_desc-Perm key x (order_by_desc key xs))
      (Perm.cons x (order_by_desc-Perm key xs))

take-drop {ℓ} : {A : Type ℓ} (n : ℕ) (xs : List A) → take n xs ++ drop n xs ≡ xs
take-drop zero xs = refl
take-drop (suc n) [] = refl
take-drop (suc n) (x ∷ xs) = ap (λ rest. x ∷ rest) (take-drop n xs)

-- No row of the second list has a greater key than a row of the first.
abbrev pub NoneNewer {ℓ} : {A : Type ℓ} → (A → ℕ) → List A → List A → Type 0
NoneNewer key page rest = All (λ x. All (λ y. key y ≤ key x) rest) page

All-drop {ℓ κ} : {A : Type ℓ} (P : A → Type κ) (n : ℕ) (xs : List A) → All P xs → All P (drop n xs)
All-drop P zero xs h = h
All-drop P (suc n) [] h = tt
All-drop P (suc n) (x ∷ xs) h = All-drop P n xs h.1

NoneNewer-take {ℓ} :
    {A : Type ℓ} (key : A → ℕ) (n : ℕ) (xs : List A)
    → Descending key xs
    → NoneNewer key (take n xs) (drop n xs)
NoneNewer-take key zero xs h = tt
NoneNewer-take key (suc n) [] h = tt
NoneNewer-take key (suc n) (x ∷ xs) h = (All-drop _ n xs h.0, NoneNewer-take key n xs h.1)

-- A page of the rows and the rows that it leaves out: the page has as many as the limit and the rows
-- allow, from the greatest key to the least, no row that is left out is newer than one of the page, and
-- the two together are the rows, each as often as it stands there.
abbrev pub IsNewestPage : {A : Type 0} → (A → ℕ) → (limit : ℕ) → (rows page : List A) → Type 0
IsNewestPage {A} key limit rows page =
    (length page ≡ min limit (length rows))
    × Descending key page
    × ((rest : List A) × NoneNewer key page rest × Perm (page ++ rest) rows)

pub order_by_desc-IsNewestPage :
    {A : Type 0} (key : A → ℕ) (n : ℕ) (xs : List A)
    → IsNewestPage key n xs (take n (order_by_desc key xs))
order_by_desc-IsNewestPage key n xs =
    let ordered = order_by_desc key xs in
    let falling = Descending-order_by_desc key xs in
    (
      omega (arith, length-take n ordered, length-order_by_desc key xs),
      Descending-take key n ordered falling,
      (
        drop n ordered,
        NoneNewer-take key n ordered falling,
        rw (take-drop n ordered) (order_by_desc-Perm key xs),
      ),
    )
