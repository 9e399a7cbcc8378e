-- ===== src/Prelude/Table/Claim.antt =====
-- What a claim (UPDATE of the rows that a limited and ordered subquery locks) does to a table.
use mathlib.Core.Option
use family_inventory.Prelude.{
  ℕ, ◌+◌, ◌≤◌, ◌≡◌, ◌∙◌, ap, Bool, true, false, ◌||◌, some, List, [], ◌∷◌, arith, ◌==◌, ==_iff,
  if◌then◌else◌, Bool-cases, inl, inr, length, take, drop, select, sort_by, All, exists-append,
  take-append-drop, take-drop-IsSorted, sort_by-IsSorted, length-sort_by, take_all, length-take-le,
  All-exists, All-both, All-take, All-drop,
}
use family_inventory.Prelude.Table.{
  update, get, has, IsKeyed, chosen, claim, claimed, get-update, get-key, IsDrawn, eligible,
  eligible-IsDrawn, has-eligible, get_of_key_eq, update-IsKeyed, get-select, select-IsKeyed,
  All-update_imply, chosen_sound, All-get,
}

module _ {A : Type 0} where
  length-select-or :
      (a b : A → Bool) (t : List A)
      → length (select (λ r. a r || b r) t) ≤ length (select a t) + length (select b t)
  length-select-or a b [] = omega arith
  length-select-or a b (r ∷ t) = ground (arith, length-select-or a b t)

  length-select-update :
      (q : A → Bool) (f : A → A) (t : List A)
      → ((r : A) → q (f r) ≡ q r)
      → length (select q (update q f t)) ≡ length (select q t)
  length-select-update q f [] h = omega arith
  length-select-update q f (r ∷ t) h = ground (arith, h r, length-select-update q f t h)

All-select-update {κ} :
    {A : Type 0} (Q : A → Type κ) (q : A → Bool) (f : A → A) (t : List A)
    → ((r : A) → Q (f r))
    → ((r : A) → q (f r) ≡ q r)
    → All Q (select q (update q f t))
All-select-update Q q f [] h s = tt
All-select-update Q q f (r ∷ t) h s = elim (Bool-cases (q r)) [
  | inl e ↦ rw e (rw (s r ∙ e) (h r, All-select-update Q q f t h s))
  | inr e ↦ rw e (rw e (All-select-update Q q f t h s))
]

module _ {A : Type 0} (key : A → ℕ) where
  select-has_none :
      (k : ℕ) (t : List A) → has key k t ≡ false → length (select (λ r. k == key r) t) ≡ 0
  select-has_none k [] h = omega arith
  select-has_none k (r ∷ t) h = ground (arith, select-has_none k t)

  select-key-le : (k : ℕ) (t : List A) → IsKeyed key t → length (select (λ r. k == key r) t) ≤ 1
  select-key-le k [] h = omega arith
  select-key-le k (r ∷ t) h = elim (Bool-cases (k == key r)) [
    | inl e ↦
        rw e (
          omega (arith, select-has_none k t (ap (λ i. has key i t) ((==_iff k (key r)).0 e) ∙ h.0)))
    | inr e ↦ rw e (select-key-le k t h.1)
  ]

  -- As many rows are updated as the subquery has, at most.
  select-has-le :
      (c t : List A) → IsKeyed key t → length (select (λ r. has key (key r) c) t) ≤ length c
  select-has-le [] t h = omega (arith, select_none t)
    where
      select_none : (t : List A) → length (select (λ r. false) t) ≡ 0
      select_none [] = omega arith
      select_none (r ∷ t) = select_none t
  select-has-le (x ∷ c) t h = omega (
    arith,
    length-select-or (λ r. key x == key r) (λ r. has key (key r) c) t,
    select-key-le (key x) t h,
    select-has-le c t h,
  )

  module _ (p : A → Bool) (le : A → A → Bool) (n : ℕ) (f : A → A) (t : List A)
      (same : (r : A) → key (f r) ≡ key r) where
    pub get-claim :
        (i : ℕ)
        → get key i (claim key p le n f t)
          ≡ Option.map (λ r. if has key (key r) (chosen key p le n t) then f r else r) (get key i t)
    unfolding claim
    get-claim i = get-update key i (λ r. has key (key r) (chosen key p le n t)) f t same

    -- A chosen row is updated, and any other row is kept.
    pub claim_hit :
        (i : ℕ) (r : A)
        → get key i t ≡ some r
        → has key i (chosen key p le n t) ≡ true
        → get key i (claim key p le n f t) ≡ some (f r)
    claim_hit i r g e = rw (get-claim i, g) (rw (get-key key i t r g) (rw e))

    pub claim_miss :
        (i : ℕ) (r : A)
        → get key i t ≡ some r
        → has key i (chosen key p le n t) ≡ false
        → get key i (claim key p le n f t) ≡ some r
    claim_miss i r g e = rw (get-claim i, g) (rw (get-key key i t r g) (rw e))

    pub claim-IsKeyed : IsKeyed key t → IsKeyed key (claim key p le n f t)
    unfolding claim
    claim-IsKeyed h = update-IsKeyed key (λ r. has key (key r) (chosen key p le n t)) f t same h

    -- A claim keeps what every updated row keeps, given that the row passed the WHERE.
    pub All-claim {κ} :
        (Q : A → Type κ)
        → IsKeyed key t
        → ((r : A) → p r ≡ true → Q r → Q (f r))
        → All Q t
        → All Q (claim key p le n f t)
    unfolding claim
    All-claim Q k q h =
        All-update_imply _ Q (λ r. has key (key r) (chosen key p le n t)) f t
          (λ r e g. q r (chosen_sound key p le n t k (key r) r g.1 e) g.0) (λ r g. g.0)
          (All-both Q _ t h (All-get key t k))

    -- What is returned are updated rows.
    pub All-claimed {κ} : (Q : A → Type κ) → ((r : A) → Q (f r)) → All Q (claimed key p le n f t)
    unfolding claimed claim
    All-claimed Q q =
        All-select-update Q (λ r. has key (key r) (chosen key p le n t)) f t q
          (λ r. ap (λ i. has key i (chosen key p le n t)) (same r))

    -- A chosen row is among those returned, and these have different keys.
    pub get-claimed :
        (i : ℕ) (r : A)
        → get key i t ≡ some r
        → has key i (chosen key p le n t) ≡ true
        → get key i (claimed key p le n f t) ≡ some (f r)
    unfolding claimed
    get-claimed i r g e =
        get-select key i (λ r. has key (key r) (chosen key p le n t)) (claim key p le n f t) (f r)
          (claim_hit i r g e)
          (ap (λ k. has key k (chosen key p le n t)) (same r ∙ get-key key i t r g) ∙ e)

    pub claimed-IsKeyed : IsKeyed key t → IsKeyed key (claimed key p le n f t)
    unfolding claimed
    claimed-IsKeyed h = select-IsKeyed key _ (claim key p le n f t) (claim-IsKeyed h)

    -- A claim returns no more rows than its LIMIT.
    pub length-claimed-le : IsKeyed key t → length (claimed key p le n f t) ≤ n
    unfolding claimed claim
    length-claimed-le h = omega (
      arith,
      length-select-update (λ r. has key (key r) (chosen key p le n t)) f t
          (λ r. ap (λ i. has key i (chosen key p le n t)) (same r)),
      select-has-le (chosen key p le n t) t h,
      length-take-le n (sort_by le (select p t)),
    )

  module _ (p : A → Bool) (le : A → A → Bool) (n : ℕ) (t : List A) (keyed : IsKeyed key t) where
    -- If the rows that pass fit within the LIMIT, all of them are chosen.
    pub chosen_complete :
        (i : ℕ) (r : A)
        → get key i t ≡ some r
        → p r ≡ true
        → length (select p t) ≤ n
        → has key i (chosen key p le n t) ≡ true
    chosen_complete i r g e fits =
        rw
          (take_all n (sort_by le (select p t))
            (omega (arith, length-sort_by le (select p t), fits)))
          (has-eligible key p le n t keyed i r g e)

    -- A row that is chosen comes no later than a row that passes the WHERE and is cut off.
    pub chosen_first :
        ((a b : A) → le a b ≡ false → le b a ≡ true)
        → ((a b c : A) → le a b ≡ true → le b c ≡ true → le a c ≡ true)
        → (i j : ℕ) (r s : A) → get key i t ≡ some r
        → get key j t ≡ some s
        → has key i (chosen key p le n t) ≡ true
        → p s ≡ true
        → has key j (chosen key p le n t) ≡ false
        → le r s ≡ true
    unfolding IsDrawn
    chosen_first total transitive i j r s gi gj ci ps cj =
        let l = eligible key p le n t keyed in
        let drawn = eligible-IsDrawn key p le n t keyed in
        let split = ap (has key j) (take-append-drop n l) in
        let in_rest : has key j (drop n l) ≡ true = ground (
          arith,
          exists-append (λ r. key r == j) (take n l) (drop n l),
          split,
          has-eligible key p le n t keyed j s gj ps,
        ) in
        let (x, kx, qx) =
          All-exists _ (λ x. key x == i) (take n l)
            (All-both _ _ (take n l) (All-take _ n l drawn)
              (take-drop-IsSorted le n l (sort_by-IsSorted le total transitive (select p t))))
            ci in
        let (y, ky, qy) =
          All-exists _ (λ y. key y == j) (drop n l)
            (All-both _ _ (drop n l) qx.1 (All-drop _ n l drawn)) in_rest in
        ground (arith, get_of_key_eq key i t x qx.0.0 kx, get_of_key_eq key j t y qy.1.0 ky, qy.0)
