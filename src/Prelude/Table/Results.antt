-- ===== src/Prelude/Table/Results.antt =====
-- A Python dict from ids to results, built from a list: of two results for one id the later stands.
use mathlib.Core.Option
use mathlib.Core.Option.{some-injective}
use mathlib.Core.Path.{subst}
use family_inventory.Prelude.{
  ℕ, ◌≡◌, ◌∙◌, refl, sym, ap, true, false, Option, none, some, List, [], ◌∷◌, ◌++◌, map, arith,
  ◌==◌, ==_iff, if◌then◌else◌, Bool-cases, Option-cases, inl, inr, All,
}
use family_inventory.Prelude.Table.{get, has, IsKeyed}

module _ {R : Type 0} (id_of : R → ℕ) where
  unfoldable pub last : ℕ → List R → Option R
  last i [] = none
  last i (r ∷ rs) = elim (last i rs) [
    | some later ↦ some later
    | none ↦ if id_of r == i then some r else none
  ]

  pub last-nil : (i : ℕ) → last i [] ≡ none
  unfolding last
  last-nil i = refl

  -- What holds of every result holds of the one that is found.
  pub All-last {κ} :
      (Q : R → Type κ) (i : ℕ) (rs : List R) (r : R) → All Q rs → last i rs ≡ some r → Q r
  unfolding last
  All-last Q i [] r h e = cc
  All-last Q i (x ∷ rs) r h e = elim (Option-cases (last i rs)) [
    | inl n ↦ elim (Bool-cases (id_of x == i)) [
      | inl b ↦ subst Q (some-injective _ _ (rw (n, b) at e)) h.0
      | inr b ↦ cc (rw (n, b) at e)
    ]
    | inr (y, s) ↦ All-last Q i rs r h.1 (s ∙ (rw s at e))
  ]

  -- A later list of results without one for an id leaves the earlier ones.
  pub last-append_none : (i : ℕ) (xs ys : List R) → last i ys ≡ none → last i (xs ++ ys) ≡ last i xs
  unfolding last
  last-append_none i [] ys h = h
  last-append_none i (x ∷ xs) ys h = rw (last-append_none i xs ys h) refl

  pub last-append_some :
      (i : ℕ) (xs ys : List R) (r : R) → last i ys ≡ some r → last i (xs ++ ys) ≡ some r
  unfolding last
  last-append_some i [] ys r h = h
  last-append_some i (x ∷ xs) ys r h = rw (last-append_some i xs ys r h) refl

  module _ {A : Type 0} (key : A → ℕ) (send : A → R)
      (named : (a : A) → id_of (send a) ≡ key a) where
    pub last-none : (i : ℕ) (t : List A) → has key i t ≡ false → last i (map send t) ≡ none
    unfolding last
    last-none i [] h = refl
    last-none i (d ∷ t) h = ground (arith, named d, last-none i t)

    -- The result of a row among the results of rows with different keys.
    pub last-map :
        (i : ℕ) (t : List A) (d : A)
        → IsKeyed key t
        → get key i t ≡ some d
        → last i (map send t) ≡ some (send d)
    unfolding last
    last-map i [] d k h = cc
    last-map i (x ∷ t) d k h = elim (Bool-cases (key x == i)) [
      | inl e ↦
          let same : some x ≡ some d = rw e at h in
          let away : has key i t ≡ false =
            ap (λ j. has key j t) (sym ((==_iff (key x) i).0 e)) ∙ k.0 in
          let hit : (id_of (send x) == i) ≡ true = rw (named x) e in
          rw (last-none i t away, hit) (ap (Option.map send) same)
      | inr e ↦ rw (last-map i t d k.1 (rw e at h))
    ]
