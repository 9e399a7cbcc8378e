-- ===== src/Users/Active.antt =====
-- What an active account of app/apis/users keeps.
use family_inventory.Prelude.{
  ℕ, ◌≡◌, refl, sym, ◌∙◌, true, false, not, some, List, [], ◌∷◌, exists, Bool-cases, inl, inr, ◌==◌,
  ==_iff, ap,
}
use family_inventory.Prelude.Table
use family_inventory.Users.{
  User, Users, Settings, Platform, Accounts, save, get_by_id, key, clashes,
}
use family_inventory.Users.Activation.{with_activation, activated, new_user}
use family_inventory.Users.Auth.{with_reset, with_password}
use family_inventory.Users.Steps.{
  Step, stays, inserts, links, starts, asks, renews, deletes, serve-Step,
}
use family_inventory.Users.Unique.{IsUnique, get_by_id-find, serve-IsUnique, exists-clashes-has}
use family_inventory.Users.Life.{same_row, get_by_id-save, stale-inactive}
use family_inventory.Users.Cleanup.{cleanup_users, is_stale}
use family_inventory.Users.Requests.{Request, serve, serve_all}

-- The later row is of the same user, who is active.
pub record IsSameUser (u u' : User) : Type 0 where
  pub username : u'.username ≡ u.username
  pub email : u'.email ≡ u.email
  pub is_admin : u'.is_admin ≡ u.is_admin
  pub is_active : u'.is_active ≡ true

-- The row of an active user in a later table.
abbrev pub StaysActive : ℕ → User → Users → Type 0
StaysActive i u t = (u' : User) × (get_by_id i t ≡ some u') × IsSameUser u u'

itself :
    (i : ℕ) (u : User) (t : Users) → get_by_id i t ≡ some u → u.is_active ≡ true → StaysActive i u t
itself i u t e a = (u, e, record { username = refl; email = refl; is_admin = refl; is_active = a })

save-StaysActive :
    (i : ℕ) (f : User → User) (user u : User) (t : Users)
    → ((r : User) → (f r).id ≡ r.id)
    → get_by_id i t ≡ some u
    → u.is_active ≡ true
    → IsSameUser u (f u)
    → StaysActive i u (save f user t)
save-StaysActive i f user u t k e a h = elim (Bool-cases (u.id == user.id)) [
  | inl m ↦ (f u, rw (get_by_id-save i f user t k, e, m) refl, h)
  | inr m ↦ itself i u (save f user t) (rw (get_by_id-save i f user t k, e, m) refl) a
]

start-StaysActive :
    (i : ℕ) (f : User → User) (user u : User) (t : Users)
    → ((r : User) → (f r).id ≡ r.id)
    → get_by_id i t ≡ some u
    → u.is_active ≡ true
    → get_by_id user.id t ≡ some user
    → user.is_active ≡ false
    → StaysActive i u (save f user t)
start-StaysActive i f user u t k e a here off = elim (Bool-cases (u.id == user.id)) [
  | inl m ↦
      let same : u ≡ user = same_row i t u user e here m in
      absurd (cc (a, off, ap (λ x. x.is_active) same))
  | inr m ↦ itself i u (save f user t) (rw (get_by_id-save i f user t k, e, m) refl) a
]

-- A new row has a new id.
get_by_id-cons :
    (i : ℕ) (n u : User) (t : Users)
    → exists (clashes n) t ≡ false
    → get_by_id i t ≡ some u
    → get_by_id i (n ∷ t) ≡ some u
get_by_id-cons i n u t free e = elim (Bool-cases (n.id == i)) [
  | inl m ↦ absurd (
      cc (
        Table.has-of-get key i t u e,
        ap (λ k. Table.has key k t) (sym ((==_iff n.id i).0 m)) ∙ exists-clashes-has n t free,
      ))
  | inr m ↦ rw m e
]

module _ (p : Platform) (c : Settings) where
  Step-StaysActive :
      (i : ℕ) (u : User) {t t' : Users}
      → Step p c t t'
      → IsUnique t
      → get_by_id i t ≡ some u
      → u.is_active ≡ true
      → StaysActive i u t'
  unfolding cleanup_users
  Step-StaysActive i u (stays {t}) h e a = itself i u t e a
  Step-StaysActive i u (inserts {t} base f now free) h e a =
      let n = new_user p c base f now in
      save-StaysActive i (with_activation p c f.token now) n u (n ∷ t) (λ r. refl)
        (get_by_id-cons i n u t free e) a
        (record { username = refl; email = refl; is_admin = refl; is_active = a })
  Step-StaysActive i u (links {t} user token now) h e a =
      save-StaysActive i (with_activation p c token now) user u t (λ r. refl) e a
        (record { username = refl; email = refl; is_admin = refl; is_active = a })
  Step-StaysActive i u (starts {t} user email hashed g off) h e a =
      start-StaysActive i (activated p c hashed) user u t (λ r. refl) e a
        (get_by_id-find _ t user h g) off
  Step-StaysActive i u (asks {t} user token now) h e a =
      save-StaysActive i (with_reset p c token now) user u t (λ r. refl) e a
        (record { username = refl; email = refl; is_admin = refl; is_active = a })
  Step-StaysActive i u (renews {t} user hashed) h e a =
      save-StaysActive i (with_password p c hashed) user u t (λ r. refl) e a
        (record { username = refl; email = refl; is_admin = refl; is_active = a })
  Step-StaysActive i u (deletes {t} now) h e a = elim (Bool-cases (is_stale c now u)) [
    | inl m ↦ absurd (cc (a, stale-inactive c now u m))
    | inr m ↦
        itself i u (cleanup_users c now t).0
          (Table.get-select key i (λ r. not (is_stale c now r)) t u e (ap not m)) a
  ]

  -- An active user is still there, active, and has the same username, email and administrator flag
  -- after any sequence of registrations, activations, resends, password resets and cleanups, if no
  -- two users shared an id, a username or an email before it.
  pub active_user_stays :
      (rs : List (ℕ × Request)) (i : ℕ) (u : User) (s : Accounts p)
      → IsUnique s.users
      → get_by_id i s.users ≡ some u
      → u.is_active ≡ true
      → StaysActive i u (serve_all p c rs s).users
  unfolding serve_all
  active_user_stays [] i u s h e a = itself i u s.users e a
  active_user_stays ((now, r) ∷ rs) i u s h e a =
      let (u', e', k) = Step-StaysActive i u (serve-Step p c now r s) h e a in
      let (u'', e'', k') =
        active_user_stays rs i u' (serve p c now r s) (serve-IsUnique p c now r s h) e'
          k.is_active in
      (
        u'',
        e'',
        record {
          username = k'.username ∙ k.username;
          email = k'.email ∙ k.email;
          is_admin = k'.is_admin ∙ k.is_admin;
          is_active = k'.is_active;
        },
      )
