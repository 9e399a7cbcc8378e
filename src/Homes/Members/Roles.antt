-- ===== src/Homes/Members/Roles.antt =====
-- Who may change the members of a home: app/apis/homeuser/service.py and app/apis/homes/service.py.
use family_inventory.Prelude.{
  ℕ, ◌≡◌, ◌≢◌, refl, String, Bool, true, false, ◌||◌, some, List, [], ◌∷◌, arith, Bool-cases,
  Option-cases, inl, inr, is_none, str_eq,
}
use family_inventory.Prelude.Table
use family_inventory.Notifications.Result.{ok, err}
use family_inventory.Homes.Members.{
  UserType, Home, is_owner, User, Homes, HomeUser, is_member, find, get_member, get_home, required,
  require, permission_denied, user_is_owner, add_user_to_home, change_user_role,
  remove_user_from_home, delete_home, with_role,
}

module _ (h : ℕ) (current : User) (s : Homes) (plain : current.is_admin ≡ false)
    (outside : user_is_owner current.id h s ≡ false) where
  add-denied :
      (email : String) (role : UserType) (s' : Homes)
      → add_user_to_home h email role current s ≢ ok s'
  unfolding add_user_to_home required require
  add-denied email role s' e = elim (Bool-cases (is_owner role)) [
    | inl a ↦ cc (e, a)
    | inr a ↦ elim (Option-cases (get_home h s)) [
      | inl b ↦ cc (e, a, b)
      | inr (home, b) ↦ elim (Option-cases (find (λ x. str_eq x.email email) s.users)) [
        | inl c ↦ cc (e, a, b, c)
        | inr (target, c) ↦ cc (e, a, b, c, plain, outside)
      ]
    ]
  ]

  change-denied :
      (u : ℕ) (role : UserType) (s' : Homes) → change_user_role h u role current s ≢ ok s'
  unfolding change_user_role required require
  change-denied u role s' e = elim (Bool-cases (is_owner role)) [
    | inl a ↦ cc (e, a)
    | inr a ↦ elim (Option-cases (get_home h s)) [
      | inl b ↦ cc (e, a, b)
      | inr (home, b) ↦ cc (e, a, b, plain, outside)
    ]
  ]

  remove-denied : (u : ℕ) (s' : Homes) → remove_user_from_home h u current s ≢ ok s'
  unfolding remove_user_from_home required require
  remove-denied u s' e = elim (Option-cases (get_home h s)) [
    | inl b ↦ cc (e, b)
    | inr (home, b) ↦ cc (e, b, plain, outside)
  ]

  delete-denied : is_none (get_home h s) ≡ false → delete_home h current s ≡ err permission_denied
  unfolding delete_home require
  delete-denied there = rw (delete_home, there, outside, plain) refl

  -- A user who is no administrator and does not own a home that exists cannot add a member to it,
  -- change a role in it, remove a member from it or delete it: each of these calls raises.
  pub outsider_denied :
      (u : ℕ) (email : String) (role : UserType) (s' : Homes)
      → is_none (get_home h s) ≡ false
      → (add_user_to_home h email role current s ≢ ok s')
        × (change_user_role h u role current s ≢ ok s')
        × (remove_user_from_home h u current s ≢ ok s')
        × (delete_home h current s ≡ err permission_denied)
  outsider_denied u email role s' there =
      (add-denied email role s', change-denied u role s', remove-denied u s', delete-denied there)

find-update_hit :
    {A : Type 0} (p : A → Bool) (f : A → A) (t : List A) (r : A)
    → ((x : A) → p (f x) ≡ p x)
    → find p t ≡ some r
    → find p (Table.update p f t) ≡ some (f r)
find-update_hit p f [] r same h = cc
find-update_hit p f (x ∷ t) r same h = ground (arith, same x, find-update_hit p f t r same, h)

-- In a home that exists, an owner or an administrator who gives a member, also one who is an owner,
-- the role of a resident or a guest succeeds, and the member then has that role.
pub owner_demoted :
    (h u : ℕ) (role : UserType) (current : User) (s : Homes) (home : Home) (m : HomeUser)
    → is_owner role ≡ false
    → get_home h s ≡ some home
    → current.is_admin || user_is_owner current.id h s ≡ true
    → get_member u h s ≡ some m
    → (s' : Homes) × (change_user_role h u role current s ≡ ok s')
      × (get_member u h s' ≡ some (record m { user_type = role }))
unfolding change_user_role required require
owner_demoted h u role current s home m low there may here = (
  with_role u h role s,
  rw (change_user_role, low, there, may, here) refl,
  find-update_hit (is_member u h) (λ x. record x { user_type = role }) s.members m (λ x. refl) here,
)
