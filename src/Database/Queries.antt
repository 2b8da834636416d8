-- ===== src/Database/Queries.antt =====
-- The parts of a query: `where`, `order_by`, `limit`, the first row, and a maximum.
pub mod Newest
use multi_agent_ai_analyst.Database.{change_where}
use multi_agent_ai_analyst.Prelude.{
  first, drop, ℕ, zero, suc, ◌+◌, ◌≤◌, ◌≡◌, refl, Bool, true, false, ◌&&◌, List, [], ◌∷◌, ◌++◌, map,
  Option, none, some, max, arith, filter, leb, ltb, ◌==◌, if◌then◌else◌, All, length, ap, sym,
}

-- `order_by(key.asc())`, by insertion: rows with one key keep their order.
insert_by {ℓ} : {A : Type ℓ} → (A → ℕ) → A → List A → List A
insert_by key x [] = x ∷ []
insert_by key x (y ∷ ys) = if leb (key x) (key y) then x ∷ y ∷ ys else y ∷ insert_by key x ys

unfoldable pub order_by {ℓ} : {A : Type ℓ} → (A → ℕ) → List A → List A
unfolding insert_by
order_by key [] = []
order_by key (x ∷ xs) = insert_by key x (order_by key xs)

-- `order_by(key.desc())`
unfoldable pub insert_by_desc {ℓ} : {A : Type ℓ} → (A → ℕ) → A → List A → List A
insert_by_desc key x [] = x ∷ []
insert_by_desc key x (y ∷ ys) =
    if leb (key y) (key x) then x ∷ y ∷ ys else y ∷ insert_by_desc key x ys

unfoldable pub order_by_desc {ℓ} : {A : Type ℓ} → (A → ℕ) → List A → List A
unfolding insert_by_desc
order_by_desc key [] = []
order_by_desc key (x ∷ xs) = insert_by_desc key x (order_by_desc key xs)

-- `coalesce(max(key), 0)`
unfoldable pub max_of {ℓ} : {A : Type ℓ} → (A → ℕ) → List A → ℕ
max_of key [] = 0
max_of key (x ∷ xs) = max (key x) (max_of key xs)

pub filter-append {ℓ} :
    {A : Type ℓ} (p : A → Bool) (xs ys : List A) → filter p (xs ++ ys) ≡ filter p xs ++ filter p ys
unfolding filter
filter-append p [] ys = refl
filter-append p (x ∷ xs) ys = ground (arith, filter-append p xs ys)

-- A test that does not see a change picks the same rows, changed.
pub filter-map {ℓ} :
    {A : Type ℓ} (p : A → Bool) (f : A → A)
    → ((x : A) → p (f x) ≡ p x)
    → (xs : List A) → filter p (map f xs) ≡ map f (filter p xs)
unfolding filter
filter-map p f same [] = refl
filter-map p f same (x ∷ xs) = ground (arith, same x, filter-map p f same xs)

pub first-map {ℓ} :
    {A : Type ℓ} (f : A → A) (xs : List A)
    → first (map f xs) ≡ elim (first xs) [ none ↦ none | some x ↦ some (f x) ]
first-map f [] = refl
first-map f (x ∷ xs) = refl

-- The first row of a query, after a change of the rows with its key that the query does not see.
pub first-change {ℓ} :
    {A : Type ℓ} (key : A → ℕ) (p : A → Bool) (f : A → A) (xs : List A) (x : A)
    → ((y : A) → p (f y) ≡ p y)
    → first (filter p xs) ≡ some x
    → first (filter p (change_where (λ y. key y == key x) f xs)) ≡ some (f x)
first-change key p f xs x same e =
    rw
      (
        filter-map p (λ y. if key y == key x then f y else y) (λ y. ground (arith, same y)) xs,
        first-map (λ y. if key y == key x then f y else y) (filter p xs),
        e,
      )
      (ground arith)

pub All-filter {ℓ} : {A : Type ℓ} (p : A → Bool) (xs : List A) → All (λ x. p x ≡ true) (filter p xs)
unfolding filter
All-filter p [] = tt
All-filter p (x ∷ xs) = ground (arith, All-filter p xs)

-- Rows whose keys are `n + 1`, `n + 2`, and so on.
abbrev pub NumberedFrom {ℓ} : {A : Type ℓ} → (A → ℕ) → ℕ → List A → Type 0
NumberedFrom key n [] = Unit
NumberedFrom key n (x ∷ xs) = (key x ≡ n + 1) × NumberedFrom key (n + 1) xs

pub NumberedFrom-snoc {ℓ} :
    {A : Type ℓ} (key : A → ℕ) (n : ℕ) (xs : List A) (x : A)
    → NumberedFrom key n xs
    → key x ≡ n + length xs + 1
    → NumberedFrom key n (xs ++ x ∷ [])
NumberedFrom-snoc key n [] x h e = (omega arith, tt)
NumberedFrom-snoc key n (y ∷ xs) x h e = (h.0, NumberedFrom-snoc key (n + 1) xs x h.1 (omega arith))

pub max_of-NumberedFrom {ℓ} :
    {A : Type ℓ} (key : A → ℕ) (n : ℕ) (xs : List A)
    → NumberedFrom key n xs
    → max n (max_of key xs) ≡ n + length xs
unfolding max_of
max_of-NumberedFrom key n [] h = omega arith
max_of-NumberedFrom key n (x ∷ xs) h = omega (arith, max_of-NumberedFrom key (n + 1) xs h.1, h.0)

-- Numbered rows are in order already.
pub order_by-NumberedFrom {ℓ} :
    {A : Type ℓ} (key : A → ℕ) (n : ℕ) (xs : List A) → NumberedFrom key n xs → order_by key xs ≡ xs
unfolding order_by
order_by-NumberedFrom key n [] h = refl
order_by-NumberedFrom key n (x ∷ []) h = refl
order_by-NumberedFrom key n (x ∷ y ∷ xs) h =
    rw (order_by-NumberedFrom key (n + 1) (y ∷ xs) h.1) (ground arith)

pub NumberedFrom-drop {ℓ} :
    {A : Type ℓ} (key : A → ℕ) (m n : ℕ) (xs : List A)
    → NumberedFrom key m xs
    → NumberedFrom key (m + n) (drop n xs)
NumberedFrom-drop key m zero xs h = ground (arith, h)
NumberedFrom-drop key m (suc n) [] h = tt
NumberedFrom-drop key m (suc n) (x ∷ xs) h = ground (arith, NumberedFrom-drop key (m + 1) n xs h.1)

filter-above {ℓ} :
    {A : Type ℓ} (key : A → ℕ) (b m : ℕ) (xs : List A)
    → b ≤ m
    → NumberedFrom key m xs
    → filter (λ x. ltb b (key x)) xs ≡ xs
unfolding filter
filter-above key b m [] le h = refl
filter-above key b m (x ∷ xs) le h =
    ground (arith, h.0, filter-above key b (m + 1) xs (omega arith) h.1)

-- The rows above a number are those after that many rows.
pub filter-NumberedFrom {ℓ} :
    {A : Type ℓ} (key : A → ℕ) (b m n : ℕ) (xs : List A)
    → b ≡ m + n
    → NumberedFrom key m xs
    → filter (λ x. ltb b (key x)) xs ≡ drop n xs
unfolding filter
filter-NumberedFrom key b m zero xs e h = filter-above key b m xs (omega arith) h
filter-NumberedFrom key b m (suc n) [] e h = refl
filter-NumberedFrom key b m (suc n) (x ∷ xs) e h =
    ground (arith, h.0, filter-NumberedFrom key b (m + 1) n xs (omega arith) h.1)

-- A conjunct that every row with the first one meets can be left out.
pub filter-both {ℓ} :
    {A : Type ℓ} (p q r : A → Bool) (xs : List A)
    → All (λ x. q x ≡ true) (filter p xs)
    → filter (λ x. p x && q x && r x) xs ≡ filter r (filter p xs)
unfolding filter
filter-both p q r [] h = refl
filter-both p q r (x ∷ xs) h = ground (arith, h, filter-both p q r xs)

pub filter-none {ℓ} :
    {A : Type ℓ} (p q r : A → Bool) (xs : List A)
    → All (λ x. q x ≡ false) (filter p xs)
    → filter (λ x. p x && q x && r x) xs ≡ []
unfolding filter
filter-none p q r [] h = refl
filter-none p q r (x ∷ xs) h = ground (arith, h, filter-none p q r xs)

pub filter-pair {ℓ} :
    {A : Type ℓ} (p q r : A → Bool) (xs : List A)
    → filter (λ x. p x && q x && r x) xs ≡ filter r (filter (λ x. p x && q x) xs)
unfolding filter
filter-pair p q r [] = refl
filter-pair p q r (x ∷ xs) = ground (arith, filter-pair p q r xs)

pub change_where-none {ℓ} :
    {A : Type ℓ} (b : A → Bool) (f : A → A) (xs : List A)
    → All (λ x. b x ≡ false) xs
    → change_where b f xs ≡ xs
change_where-none b f [] h = refl
change_where-none b f (x ∷ xs) h = ground (arith, h.0, change_where-none b f xs h.1)

abbrev pub Ascending {ℓ} : {A : Type ℓ} → (A → ℕ) → List A → Type 0
Ascending key [] = Unit
Ascending key (x ∷ []) = Unit
Ascending key (x ∷ y ∷ xs) = (key x ≤ key y) × Ascending key (y ∷ xs)

-- Rows in order stay as they are.
pub order_by-Ascending {ℓ} :
    {A : Type ℓ} (key : A → ℕ) (xs : List A) → Ascending key xs → order_by key xs ≡ xs
unfolding order_by
order_by-Ascending key [] h = refl
order_by-Ascending key (x ∷ []) h = refl
order_by-Ascending key (x ∷ y ∷ xs) h =
    rw (order_by-Ascending key (y ∷ xs) h.1) (ground (arith, h.0))
