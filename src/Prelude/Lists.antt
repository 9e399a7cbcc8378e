-- ===== src/Prelude/Lists.antt =====
-- Lists measured by native numbers, the rows that pass a test, and sorting by a test.
use Prim.Native.Nat.{ℕ, zero, suc, ◌+◌, ◌≤◌}
use mathlib.Core.Path.{◌≡◌, refl, ap}
use mathlib.Core.Bool.{Bool, true, false, ◌&&◌, ◌||◌}
use mathlib.Core.List.{List, [], ◌∷◌, ◌++◌}
use native.Mathlib.Omega.{arith}
use mathlib.Core.Logic.{inl, inr}
use family_inventory.Prelude.Tests.{if◌then◌else◌, Bool-cases}

module _ {ℓ} {A : Type ℓ} where
  abbrev pub length : List A → ℕ
  length [] = 0
  length (x ∷ xs) = suc (length xs)

  abbrev pub take : ℕ → List A → List A
  take zero xs = []
  take (suc n) [] = []
  take (suc n) (x ∷ xs) = x ∷ take n xs

  abbrev pub drop : ℕ → List A → List A
  drop zero xs = xs
  drop (suc n) [] = []
  drop (suc n) (x ∷ xs) = drop n xs

  -- The rows that pass a test, in their order.
  abbrev pub select : (A → Bool) → List A → List A
  select p [] = []
  select p (x ∷ xs) = let rest = select p xs in if p x then x ∷ rest else rest

  -- Whether some row passes a test.
  abbrev pub exists : (A → Bool) → List A → Bool
  exists p [] = false
  exists p (x ∷ xs) = p x || exists p xs

  abbrev pub insert_by : (A → A → Bool) → A → List A → List A
  insert_by le x [] = x ∷ []
  insert_by le x (y ∷ l) = if le x y then x ∷ y ∷ l else y ∷ insert_by le x l

  -- A stable insertion sort, for ORDER BY.
  abbrev pub sort_by : (A → A → Bool) → List A → List A
  sort_by le [] = []
  sort_by le (x ∷ l) = insert_by le x (sort_by le l)

  abbrev pub All {κ} : (A → Type κ) → List A → Type κ
  All P [] = Unit
  All P (x ∷ xs) = P x × All P xs

  pub length-append : (xs ys : List A) → length (xs ++ ys) ≡ length xs + length ys
  length-append [] ys = omega arith
  length-append (x ∷ xs) ys = omega (arith, length-append xs ys)

  pub append-nil : (l : List A) → l ++ [] ≡ l
  append-nil [] = refl
  append-nil (x ∷ l) = ap (λ t. x ∷ t) (append-nil l)

  pub append-append : (a b c : List A) → (a ++ b) ++ c ≡ a ++ (b ++ c)
  append-append [] b c = refl
  append-append (x ∷ a) b c = ap (λ t. x ∷ t) (append-append a b c)

  pub length-take-le : (n : ℕ) (xs : List A) → length (take n xs) ≤ n
  length-take-le zero xs = omega arith
  length-take-le (suc n) [] = omega arith
  length-take-le (suc n) (x ∷ xs) = omega (arith, length-take-le n xs)

  pub length-select-le : (p : A → Bool) (xs : List A) → length (select p xs) ≤ length xs
  length-select-le p [] = omega arith
  length-select-le p (x ∷ xs) = ground (arith, length-select-le p xs)

  pub take_all : (n : ℕ) (xs : List A) → length xs ≤ n → take n xs ≡ xs
  take_all zero [] h = refl
  take_all zero (x ∷ xs) h = absurd (omega arith)
  take_all (suc n) [] h = refl
  take_all (suc n) (x ∷ xs) h = rw (take_all n xs (omega arith))

  pub take-append-drop : (n : ℕ) (xs : List A) → take n xs ++ drop n xs ≡ xs
  take-append-drop zero xs = refl
  take-append-drop (suc n) [] = refl
  take-append-drop (suc n) (x ∷ xs) = rw (take-append-drop n xs)

  pub length-insert_by :
      (le : A → A → Bool) (x : A) (l : List A) → length (insert_by le x l) ≡ suc (length l)
  length-insert_by le x [] = refl
  length-insert_by le x (y ∷ l) = ground (arith, length-insert_by le x l)

  pub length-sort_by : (le : A → A → Bool) (l : List A) → length (sort_by le l) ≡ length l
  length-sort_by le [] = refl
  length-sort_by le (x ∷ l) =
      omega (arith, length-insert_by le x (sort_by le l), length-sort_by le l)

  -- How many rows pass does not depend on their order, and two tests in turn are one.
  length-select-insert_by :
      (q : A → Bool) (le : A → A → Bool) (x : A) (l : List A)
      → length (select q (insert_by le x l)) ≡ length (select q (x ∷ l))
  length-select-insert_by q le x [] = refl
  length-select-insert_by q le x (y ∷ l) = ground (arith, length-select-insert_by q le x l)

  pub length-select-sort_by :
      (q : A → Bool) (le : A → A → Bool) (l : List A)
      → length (select q (sort_by le l)) ≡ length (select q l)
  length-select-sort_by q le [] = refl
  length-select-sort_by q le (x ∷ l) =
      ground (arith, length-select-insert_by q le x (sort_by le l), length-select-sort_by q le l)

  pub length-select-select :
      (q p : A → Bool) (l : List A)
      → length (select q (select p l)) ≡ length (select (λ x. p x && q x) l)
  length-select-select q p [] = refl
  length-select-select q p (x ∷ l) = ground (arith, length-select-select q p l)

  pub exists-append :
      (p : A → Bool) (xs ys : List A) → exists p (xs ++ ys) ≡ exists p xs || exists p ys
  exists-append p [] ys = refl
  exists-append p (x ∷ xs) ys = ground (arith, exists-append p xs ys)

  pub exists-insert_by :
      (p : A → Bool) (le : A → A → Bool) (x : A) (l : List A)
      → exists p (insert_by le x l) ≡ p x || exists p l
  exists-insert_by p le x [] = refl
  exists-insert_by p le x (y ∷ l) = ground (arith, exists-insert_by p le x l)

  pub exists-sort_by :
      (p : A → Bool) (le : A → A → Bool) (l : List A) → exists p (sort_by le l) ≡ exists p l
  exists-sort_by p le [] = refl
  exists-sort_by p le (x ∷ l) =
      ground (arith, exists-insert_by p le x (sort_by le l), exists-sort_by p le l)

  pub exists-take :
      (p : A → Bool) (n : ℕ) (l : List A) → exists p (take n l) ≡ true → exists p l ≡ true
  exists-take p zero l h = cc
  exists-take p (suc n) [] h = h
  exists-take p (suc n) (x ∷ l) h = ground (arith, exists-take p n l)

-- Sorted by a test: each row comes before all that follow it.
abbrev pub IsSorted {ℓ} : {A : Type ℓ} → (A → A → Bool) → List A → Type 0
IsSorted le [] = Unit
IsSorted le (x ∷ l) = All (λ y. le x y ≡ true) l × IsSorted le l

module _ {ℓ κ} {A : Type ℓ} (Q : A → Type κ) where
  pub All-select : (p : A → Bool) (l : List A) → All Q l → All Q (select p l)
  All-select p [] h = h
  All-select p (x ∷ l) h = elim (Bool-cases (p x)) [
    | inl e ↦ rw e (h.0, All-select p l h.1)
    | inr e ↦ rw e (All-select p l h.1)
  ]

  pub All-append : (xs ys : List A) → All Q xs → All Q ys → All Q (xs ++ ys)
  All-append [] ys g h = h
  All-append (x ∷ xs) ys g h = (g.0, All-append xs ys g.1 h)

  pub All-insert_by :
      (le : A → A → Bool) (x : A) (l : List A) → Q x → All Q l → All Q (insert_by le x l)
  All-insert_by le x [] q h = (q, tt)
  All-insert_by le x (y ∷ l) q h = elim (Bool-cases (le x y)) [
    | inl e ↦ rw e (q, h)
    | inr e ↦ rw e (h.0, All-insert_by le x l q h.1)
  ]

  pub All-sort_by : (le : A → A → Bool) (l : List A) → All Q l → All Q (sort_by le l)
  All-sort_by le [] h = h
  All-sort_by le (x ∷ l) h = All-insert_by le x (sort_by le l) h.0 (All-sort_by le l h.1)

  pub All-take : (n : ℕ) (l : List A) → All Q l → All Q (take n l)
  All-take zero l h = tt
  All-take (suc n) [] h = tt
  All-take (suc n) (x ∷ l) h = (h.0, All-take n l h.1)

  pub All-drop : (n : ℕ) (l : List A) → All Q l → All Q (drop n l)
  All-drop zero l h = h
  All-drop (suc n) [] h = tt
  All-drop (suc n) (x ∷ l) h = All-drop n l h.1

  -- A row that passes a test, and what is known of it.
  pub All-exists :
      (p : A → Bool) (l : List A) → All Q l → exists p l ≡ true → (x : A) × (p x ≡ true) × Q x
  All-exists p [] h e = cc
  All-exists p (x ∷ l) h e = elim (Bool-cases (p x)) [
    | inl px ↦ (x, px, h.0)
    | inr px ↦ All-exists p l h.1 (rw px at e)
  ]

pub All-imply {ℓ κ μ} :
    {A : Type ℓ} (P : A → Type κ) (Q : A → Type μ) (l : List A)
    → ((a : A) → P a → Q a)
    → All P l
    → All Q l
All-imply P Q [] f h = tt
All-imply P Q (x ∷ l) f h = (f x h.0, All-imply P Q l f h.1)

pub All-true {ℓ κ} : {A : Type ℓ} {P : A → Type κ} (l : List A) → ((a : A) → P a) → All P l
All-true [] f = tt
All-true (x ∷ l) f = (f x, All-true l f)

pub All-both {ℓ κ μ} :
    {A : Type ℓ} (P : A → Type κ) (Q : A → Type μ) (l : List A)
    → All P l
    → All Q l
    → All (λ a. P a × Q a) l
All-both P Q [] g h = tt
All-both P Q (x ∷ l) g h = ((g.0, h.0), All-both P Q l g.1 h.1)

pub All-select_self {ℓ} :
    {A : Type ℓ} (p : A → Bool) (l : List A) → All (λ x. p x ≡ true) (select p l)
All-select_self p [] = tt
All-select_self p (x ∷ l) = elim (Bool-cases (p x)) [
  | inl e ↦ rw e (e, All-select_self p l)
  | inr e ↦ rw e (All-select_self p l)
]

-- Sorting by a total and transitive test.
module _ {ℓ} {A : Type ℓ} (le : A → A → Bool) (total : (a b : A) → le a b ≡ false → le b a ≡ true)
    (transitive : (a b c : A) → le a b ≡ true → le b c ≡ true → le a c ≡ true) where
  insert_by-IsSorted : (x : A) (l : List A) → IsSorted le l → IsSorted le (insert_by le x l)
  insert_by-IsSorted x [] h = (tt, tt)
  insert_by-IsSorted x (y ∷ l) h = elim (Bool-cases (le x y)) [
    | inl e ↦ rw e ((e, All-imply _ _ l (λ z g. transitive x y z e g) h.0), h)
    | inr e ↦
        rw e
          (All-insert_by (λ z. le y z ≡ true) le x l (total x y e) h.0, insert_by-IsSorted x l h.1)
  ]

  pub sort_by-IsSorted : (l : List A) → IsSorted le (sort_by le l)
  sort_by-IsSorted [] = tt
  sort_by-IsSorted (x ∷ l) = insert_by-IsSorted x (sort_by le l) (sort_by-IsSorted l)

-- In a sorted list, what a cut keeps comes before what it leaves.
pub take-drop-IsSorted {ℓ} :
    {A : Type ℓ} (le : A → A → Bool) (n : ℕ) (l : List A)
    → IsSorted le l
    → All (λ a. All (λ b. le a b ≡ true) (drop n l)) (take n l)
take-drop-IsSorted le zero l h = tt
take-drop-IsSorted le (suc n) [] h = tt
take-drop-IsSorted le (suc n) (x ∷ l) h =
    (All-drop (λ b. le x b ≡ true) n l h.0, take-drop-IsSorted le n l h.1)
