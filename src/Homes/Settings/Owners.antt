-- ===== src/Homes/Settings/Owners.antt =====
-- The owner of a home is safe from its settings: app/apis/homes/settings.py.
use mathlib.Core.Path.{subst}
use family_inventory.Prelude.{
  str_eq, exists, ℕ, ◌≡◌, refl, ◌∙◌, ap, true, false, not, ◌&&◌, ◌||◌, none, some, List, [], ◌∷◌,
  ◌==◌, arith, String, Bool-cases, Option-cases, inl, inr,
}
use family_inventory.Prelude.Table
use family_inventory.Notifications.Errors.{Exception}
use family_inventory.Notifications.Result.{Result, ok, err, Result-cases}
use family_inventory.Homes.Members.{
  UserType, is_owner, HomeUser, User, Homes, is_member, find, get_member, with_member, with_role,
  without_member, required, require, add_user_to_home, get_home, user_is_owner,
}
use family_inventory.Homes.Members.Unique.{find-update_other, find-select_other, is_member_apart}
use family_inventory.Homes.Settings.{
  Request, renames, adds, changes, removes, handle, serve, committed, managed_home, editable_member,
  rename_home, add_member, change_member, remove_member,
}

same_pair : (a b c d : ℕ) → (a == b && c == d) ≡ true → (a ≡ b) × (c ≡ d)
same_pair a b c d e = ground arith

committed-ok :
    (P : Homes → Type 0) (s s' : Homes) (r : Result Homes) → r ≡ ok s' → P s' → P (committed r s)
unfolding committed
committed-ok P s s' r e h = rw e h

committed-err :
    (P : Homes → Type 0) (s : Homes) (exc : Exception) (r : Result Homes)
    → r ≡ err exc
    → P s
    → P (committed r s)
unfolding committed
committed-err P s exc r e h = rw e h

module _ (u h : ℕ) (m : HomeUser) (owns : is_owner m.user_type ≡ true) where
  IsKept : Homes → Type 0
  IsKept s = get_member u h s ≡ some m

  with_member-get :
      (n : HomeUser) (s : Homes)
      → IsKept s
      → get_member n.user_id n.home_id s ≡ none
      → IsKept (with_member n s)
  unfolding IsKept
  with_member-get n s here new = elim (Bool-cases (n.user_id == u && n.home_id == h)) [
    | inl e ↦ let (p, q) = same_pair n.user_id u n.home_id h e in cc (here, new, p, q)
    | inr e ↦ rw e here
  ]

  with_role-get :
      (v k : ℕ) (role : UserType) (s : Homes)
      → (u == v && h == k) ≡ false
      → IsKept s
      → IsKept (with_role v k role s)
  unfolding IsKept
  with_role-get v k role s apart here =
      find-update_other (is_member u h) (is_member v k) _ s.members (λ r. refl)
        (λ r. is_member_apart u h v k r apart)
      ∙ here

  without_member-get :
      (v k : ℕ) (s : Homes) → (u == v && h == k) ≡ false → IsKept s → IsKept (without_member v k s)
  unfolding IsKept
  without_member-get v k s apart here =
      find-select_other (is_member u h) (λ r. not (is_member v k r)) s.members
        (λ r e. ap not (is_member_apart u h v k r apart e))
      ∙ here

  -- An editable member is not this owner.
  editable-apart :
      (k v : ℕ) (s : Homes) (n : HomeUser)
      → IsKept s
      → editable_member k v s ≡ ok n
      → (u == v && h == k) ≡ false
  unfolding IsKept editable_member required require
  editable-apart k v s n here e = elim (Bool-cases (u == v && h == k)) [
    | inl c ↦
        let (p, q) = same_pair u v h k c in
        let found : get_member v k s ≡ some m = cc (here, p, q) in
        cc (rw (editable_member, found, owns) at e)
    | inr c ↦ c
  ]

  -- A request either raises or leads to a state with this owner.
  add_user-keeps :
      (k : ℕ) (email : String) (role : UserType) (user : User) (s s' : Homes)
      → IsKept s
      → add_user_to_home k email role user s ≡ ok s'
      → IsKept s'
  unfolding add_user_to_home require required
  add_user-keeps k email role user s s' here e = elim (Bool-cases (is_owner role)) [
    | inl a ↦ cc (e, a)
    | inr a ↦ elim (Option-cases (get_home k s)) [
      | inl b ↦ cc (e, a, b)
      | inr (home, b) ↦ elim (Option-cases (find (λ x. str_eq x.email email) s.users)) [
        | inl c ↦ cc (e, a, b, c)
        | inr (target, c) ↦ elim (Bool-cases (user.is_admin || user_is_owner user.id k s)) [
          | inr d ↦ cc (e, a, b, c, d)
          | inl d ↦ elim (Option-cases (get_member target.id k s)) [
            | inr (x, f) ↦ cc (e, a, b, c, d, f)
            | inl f ↦
                let n : HomeUser = record { user_id = target.id; home_id = k; user_type = role } in
                let made : with_member n s ≡ s' = cc (e, a, b, c, d, f) in
                subst IsKept made (with_member-get n s here f)
          ]
        ]
      ]
    ]
  ]

  change-keeps :
      (k v : ℕ) (role : UserType) (user : User) (s s' : Homes)
      → IsKept s
      → change_member k v role user s ≡ ok s'
      → IsKept s'
  unfolding change_member require
  change-keeps k v role user s s' here e = elim (Result-cases (managed_home k user s)) [
    | inr (x, a) ↦ cc (e, a)
    | inl (home, a) ↦ elim (Bool-cases (is_owner role)) [
      | inl b ↦ cc (e, a, b)
      | inr b ↦ elim (Result-cases (editable_member k v s)) [
        | inr (x, c) ↦ cc (e, a, b, c)
        | inl (n, c) ↦
            let made : with_role v k role s ≡ s' = cc (e, a, b, c) in
            subst IsKept made (with_role-get v k role s (editable-apart k v s n here c) here)
      ]
    ]
  ]

  remove-keeps :
      (k v : ℕ) (user : User) (s s' : Homes)
      → IsKept s
      → remove_member k v user s ≡ ok s'
      → IsKept s'
  unfolding remove_member
  remove-keeps k v user s s' here e = elim (Result-cases (managed_home k user s)) [
    | inr (x, a) ↦ cc (e, a)
    | inl (home, a) ↦ elim (Result-cases (editable_member k v s)) [
      | inr (x, c) ↦ cc (e, a, c)
      | inl (n, c) ↦
          let made : without_member v k s ≡ s' = cc (e, a, c) in
          subst IsKept made (without_member-get v k s (editable-apart k v s n here c) here)
    ]
  ]

  rename-keeps :
      (k : ℕ) (name : String) (user : User) (s s' : Homes)
      → IsKept s
      → rename_home k name user s ≡ ok s'
      → IsKept s'
  unfolding rename_home IsKept require
  rename-keeps k name user s s' here e = elim (Result-cases (managed_home k user s)) [
    | inr (x, a) ↦ cc (e, a)
    | inl (home, a) ↦
        elim (Bool-cases (exists (λ x. str_eq x.name name && not (x.id == k)) s.homes)) [
          | inl b ↦ cc (e, a, b)
          | inr b ↦
              let made : (record s {
                homes = Table.update (λ x. x.id == k) (λ x. record x { name = name }) s.homes;
              })
                  ≡ s' =
                cc (e, a, b) in
              subst (λ x. get_member u h x ≡ some m) made here
        ]
  ]

  ok-keeps :
      (user : User) (r : Request) (s s' : Homes) → IsKept s → handle user r s ≡ ok s' → IsKept s'
  unfolding handle add_member
  ok-keeps user (renames k name) s s' here e = rename-keeps k name user s s' here e
  ok-keeps user (adds k email role) s s' here e = elim (Result-cases (managed_home k user s)) [
    | inr (x, a) ↦ cc (e, a)
    | inl (home, a) ↦ add_user-keeps k email role user s s' here (rw a at e)
  ]
  ok-keeps user (changes k v role) s s' here e = change-keeps k v role user s s' here e
  ok-keeps user (removes k v) s s' here e = remove-keeps k v user s s' here e

  handle-keeps :
      (user : User) (r : Request) (s : Homes) → IsKept s → IsKept (committed (handle user r s) s)
  handle-keeps user r s here = elim (Result-cases (handle user r s)) [
    | inl (s', e) ↦ committed-ok IsKept s s' (handle user r s) e (ok-keeps user r s s' here e)
    | inr (x, e) ↦ committed-err IsKept s x (handle user r s) e here
  ]

  serve-keeps : (rs : List (User × Request)) (s : Homes) → IsKept s → IsKept (serve rs s)
  unfolding serve
  serve-keeps [] s here = here
  serve-keeps ((user, r) ∷ rs) s here =
      serve-keeps rs (committed (handle user r s) s) (handle-keeps user r s here)

  -- Whatever requests any users send to the settings of any homes, in any order, an owner of a home
  -- stays a member of it with the role of owner.
  pub owner_stays :
      (rs : List (User × Request)) (s : Homes)
      → get_member u h s ≡ some m
      → get_member u h (serve rs s) ≡ some m
  unfolding IsKept
  owner_stays rs s here = serve-keeps rs s here
