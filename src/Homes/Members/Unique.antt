-- ===== src/Homes/Members/Unique.antt =====
-- The members of homes as a table whose key is the user and the home (app/apis/homeuser).
use family_inventory.Prelude.{
  ℕ, ◌≡◌, refl, Bool, true, false, ◌&&◌, some, List, [], ◌∷◌, ◌==◌, arith, select,
}
use family_inventory.Prelude.Table
use family_inventory.Homes.Members.{HomeUser, is_member, find}

module _ {A : Type 0} where
  pub find-update_other :
      (p q : A → Bool) (f : A → A) (t : List A)
      → ((r : A) → p (f r) ≡ p r)
      → ((r : A) → p r ≡ true → q r ≡ false)
      → find p (Table.update q f t) ≡ find p t
  find-update_other p q f [] same apart = refl
  find-update_other p q f (r ∷ t) same apart =
      ground (arith, same r, apart r, find-update_other p q f t same apart)

  pub find-select_other :
      (p q : A → Bool) (t : List A)
      → ((r : A) → p r ≡ true → q r ≡ true)
      → find p (select q t) ≡ find p t
  find-select_other p q [] kept = refl
  find-select_other p q (r ∷ t) kept = ground (arith, kept r, find-select_other p q t kept)

  pub find-test : (p : A → Bool) (t : List A) (r : A) → find p t ≡ some r → p r ≡ true
  find-test p [] r h = cc
  find-test p (x ∷ t) r h = ground (arith, find-test p t r)

pub is_member_apart :
    (u h u' h' : ℕ) (m : HomeUser)
    → (u == u' && h == h') ≡ false
    → is_member u h m ≡ true
    → is_member u' h' m ≡ false
is_member_apart u h u' h' m n e = ground arith
