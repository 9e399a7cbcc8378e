-- ===== src/Prelude/Table.antt =====
-- A table of the database as the list of its rows, each with a numeric key, and the statements
-- that the repositories send: a row by its key, UPDATE .. WHERE, and the claim that updates the
-- rows of a subquery `WHERE .. ORDER BY .. LIMIT .. FOR UPDATE SKIP LOCKED`.
pub mod Claim
pub mod Results
use mathlib.Core.Option
use Prim.Native.Nat.{ℕ, suc, ◌+◌, ◌≤◌}
use mathlib.Core.Path.{◌≡◌, refl, sym, ap, ◌∙◌}
use mathlib.Core.Logic.{inl, inr}
use mathlib.Core.Bool.{Bool, true, false, ◌||◌}
use mathlib.Core.Option.{Option, none, some}
use mathlib.Core.List.{List, [], ◌∷◌}
use native.Mathlib.Omega.{arith}
use family_inventory.Prelude.Tests.{◌==◌, ==_iff, if◌then◌else◌, Bool-cases}
use family_inventory.Prelude.Lists.{
  length, take, drop, select, exists, sort_by, All, exists-sort_by, length-take-le, take_all,
  length-sort_by, All-select, All-sort_by, All-take, All-exists, All-imply, All-both,
  All-select_self, exists-append, take-append-drop, take-drop-IsSorted, sort_by-IsSorted, All-drop,
}

module _ {A : Type 0} where
  -- UPDATE: `f` on the rows that pass the test
  abbrev pub update : (A → Bool) → (A → A) → List A → List A
  update p f [] = []
  update p f (r ∷ t) = (if p r then f r else r) ∷ update p f t

  pub length-update : (p : A → Bool) (f : A → A) (t : List A) → length (update p f t) ≡ length t
  length-update p f [] = refl
  length-update p f (r ∷ t) = ap suc (length-update p f t)

  pub All-update_imply {κ μ} :
      (P : A → Type κ) (Q : A → Type μ) (p : A → Bool) (f : A → A) (t : List A)
      → ((r : A) → p r ≡ true → P r → Q (f r))
      → ((r : A) → P r → Q r)
      → All P t
      → All Q (update p f t)
  All-update_imply P Q p f [] hit miss h = tt
  All-update_imply P Q p f (r ∷ t) hit miss h = elim (Bool-cases (p r)) [
    | inl e ↦ rw e (hit r e h.0, All-update_imply P Q p f t hit miss h.1)
    | inr e ↦ rw e (miss r h.0, All-update_imply P Q p f t hit miss h.1)
  ]

  pub All-update {κ} :
      (Q : A → Type κ) (p : A → Bool) (f : A → A) (t : List A)
      → ((r : A) → p r ≡ true → Q r → Q (f r))
      → All Q t
      → All Q (update p f t)
  All-update Q p f t keep h = All-update_imply Q Q p f t keep (λ r q. q) h

module _ {A : Type 0} (key : A → ℕ) where
  -- the row of a key
  abbrev pub get : ℕ → List A → Option A
  get i [] = none
  get i (r ∷ t) = if key r == i then some r else get i t

  -- `id IN (..)`
  abbrev pub has : ℕ → List A → Bool
  has i t = exists (λ r. key r == i) t

  -- The keys are pairwise different: the primary key.
  abbrev pub IsKeyed : List A → Type 0
  IsKeyed [] = Unit
  IsKeyed (r ∷ t) = (has (key r) t ≡ false) × IsKeyed t

  -- The rows of the subquery, in its order and within its limit.
  abbrev pub chosen : (A → Bool) → (A → A → Bool) → ℕ → List A → List A
  chosen p le n t = take n (sort_by le (select p t))

  -- UPDATE .. WHERE id IN (subquery): the table afterwards.
  unfoldable pub claim : (A → Bool) → (A → A → Bool) → ℕ → (A → A) → List A → List A
  claim p le n f t = update (λ r. has (key r) (chosen p le n t)) f t

  -- RETURNING: the rows as they are after the update.
  unfoldable pub claimed : (A → Bool) → (A → A → Bool) → ℕ → (A → A) → List A → List A
  unfolding claim
  claimed p le n f t = select (λ r. has (key r) (chosen p le n t)) (claim p le n f t)

  pub get-key : (i : ℕ) (t : List A) (r : A) → get i t ≡ some r → key r ≡ i
  get-key i [] r h = cc
  get-key i (x ∷ t) r h = ground (arith, get-key i t r)

  pub get-update :
      (i : ℕ) (p : A → Bool) (f : A → A) (t : List A)
      → ((r : A) → key (f r) ≡ key r)
      → get i (update p f t) ≡ Option.map (λ r. if p r then f r else r) (get i t)
  get-update i p f [] h = refl
  get-update i p f (r ∷ t) h = ground (arith, h r, get-update i p f t h)

  has-update :
      (i : ℕ) (p : A → Bool) (f : A → A) (t : List A)
      → ((r : A) → key (f r) ≡ key r)
      → has i (update p f t) ≡ has i t
  has-update i p f [] h = refl
  has-update i p f (r ∷ t) h = ground (arith, h r, has-update i p f t h)

  -- An update that keeps each row's key keeps the keys different.
  pub update-IsKeyed :
      (p : A → Bool) (f : A → A) (t : List A)
      → ((r : A) → key (f r) ≡ key r)
      → IsKeyed t
      → IsKeyed (update p f t)
  update-IsKeyed p f [] h k = tt
  update-IsKeyed p f (r ∷ t) h k = (
    ground (arith, h r, has-update (key r) p f t h, has-update (key (f r)) p f t h),
    update-IsKeyed p f t h k.1,
  )

  has-select-false :
      (i : ℕ) (p : A → Bool) (t : List A) → has i t ≡ false → has i (select p t) ≡ false
  has-select-false i p [] h = refl
  has-select-false i p (r ∷ t) h = ground (arith, has-select-false i p t)

  pub select-IsKeyed : (p : A → Bool) (t : List A) → IsKeyed t → IsKeyed (select p t)
  select-IsKeyed p [] h = tt
  select-IsKeyed p (r ∷ t) h = elim (Bool-cases (p r)) [
    | inl e ↦ rw e (has-select-false (key r) p t h.0, select-IsKeyed p t h.1)
    | inr e ↦ rw e (select-IsKeyed p t h.1)
  ]

  -- A row that passes is found among those that pass.
  pub get-select :
      (i : ℕ) (p : A → Bool) (t : List A) (r : A)
      → get i t ≡ some r
      → p r ≡ true
      → get i (select p t) ≡ some r
  get-select i p [] r h e = cc
  get-select i p (x ∷ t) r h e = ground (arith, get-select i p t r, e)

  pub has-of-get : (i : ℕ) (t : List A) (r : A) → get i t ≡ some r → has i t ≡ true
  has-of-get i [] r h = cc
  has-of-get i (x ∷ t) r h = ground (arith, has-of-get i t r)

  get-cons_ne :
      (r : A) (t : List A)
      → has (key r) t ≡ false
      → (s : A) → get (key s) t ≡ some s
      → get (key s) (r ∷ t) ≡ some s
  get-cons_ne r t h s e = elim (Bool-cases (key r == key s)) [
    | inl k ↦
        absurd (
          ground
            (arith, has-of-get (key s) t s e, ap (λ i. has i t) ((==_iff (key r) (key s)).0 k)))
    | inr k ↦ rw k e
  ]

  pub get_of_key_eq :
      (i : ℕ) (t : List A) (r : A) → get (key r) t ≡ some r → (key r == i) ≡ true → get i t ≡ some r
  get_of_key_eq i t r h e = rw (← (==_iff (key r) i).0 e) h

  -- Every row of a keyed table is the row of its key.
  pub All-get : (t : List A) → IsKeyed t → All (λ r. get (key r) t ≡ some r) t
  All-get [] h = tt
  All-get (r ∷ t) h = (ground arith, All-imply _ _ t (get-cons_ne r t h.0) (All-get t h.1))

  -- The row of a key that fails the test is not among those that pass.
  pub has-select_fail :
      (i : ℕ) (p : A → Bool) (t : List A) (r : A)
      → IsKeyed t
      → get i t ≡ some r
      → p r ≡ false
      → has i (select p t) ≡ false
  has-select_fail i p [] r k g e = refl
  has-select_fail i p (x ∷ t) r k g e = elim (Bool-cases (key x == i)) [
    | inl h ↦
        let away : has i t ≡ false = ap (λ j. has j t) (sym ((==_iff (key x) i).0 h)) ∙ k.0 in
        ground (arith, has-select-false i p t away, e, g, h)
    | inr h ↦ ground (arith, has-select_fail i p t r k.1, g, e, h)
  ]

  has-select :
      (i : ℕ) (p : A → Bool) (t : List A) (r : A)
      → get i t ≡ some r
      → p r ≡ true
      → has i (select p t) ≡ true
  has-select i p [] r g e = cc
  has-select i p (x ∷ t) r g e = ground (arith, has-select i p t r, e)

  -- What is known of the rows drawn from a keyed table.
  pub IsDrawn : (A → Bool) → List A → A → Type 0
  IsDrawn p t r = (get (key r) t ≡ some r) × (p r ≡ true)

  module _ (p : A → Bool) (le : A → A → Bool) (n : ℕ) (t : List A) (keyed : IsKeyed t) where
    abbrev pub eligible : List A
    eligible = sort_by le (select p t)

    pub eligible-IsDrawn : All (IsDrawn p t) eligible
    unfolding IsDrawn
    eligible-IsDrawn =
        All-sort_by _ le (select p t)
          (All-both _ _ (select p t) (All-select _ p t (All-get t keyed)) (All-select_self p t))

    pub has-IsDrawn :
        (i : ℕ) (l : List A)
        → All (IsDrawn p t) l
        → has i l ≡ true
        → (r : A) → get i t ≡ some r
        → p r ≡ true
    unfolding IsDrawn
    has-IsDrawn i l h e r g =
        let (x, k, q) = All-exists (IsDrawn p t) (λ x. key x == i) l h e in
        ground (arith, get_of_key_eq i t x q.0 k)

    -- Only rows that pass the WHERE are chosen.
    pub chosen_sound :
        (i : ℕ) (r : A) → get i t ≡ some r → has i (chosen p le n t) ≡ true → p r ≡ true
    chosen_sound i r g e =
        has-IsDrawn i (take n eligible) (All-take _ n eligible eligible-IsDrawn) e r g

    -- Every row that passes the WHERE is chosen or cut off by the LIMIT.
    pub has-eligible : (i : ℕ) (r : A) → get i t ≡ some r → p r ≡ true → has i eligible ≡ true
    has-eligible i r g e = exists-sort_by (λ x. key x == i) le (select p t) ∙ has-select i p t r g e
