-- ===== src/Users/Kept.antt =====
-- Cleanup and activation together: app/jobs/user_cleanup_job.py and create_user of
-- app/apis/users/user_service.py.
use family_inventory.Prelude.{
  ℕ, ◌≡◌, String, Bool, true, false, not, ◌&&◌, some, [], ◌∷◌, arith, select, Bool-cases,
  Option-cases, inl, inr, str_eq, All, is_none,
}
use mathlib.Core.Path.{subst}
use family_inventory.Notifications.Result.{ok}
use family_inventory.Homes.Members.{find, required, require}
use family_inventory.Users.{
  User, UserBase, Users, Settings, Platform, Accounts, get_by_email, verify_activation_token,
  with_users, hash_password, save,
}
use family_inventory.Users.Activation.{create_user, is_replaced, activated}
use family_inventory.Users.Cleanup.{cleanup_users, is_stale}

find-select_kept :
    (q w : User → Bool) (t : Users) (u : User)
    → find q t ≡ some u
    → w u ≡ true
    → find q (select w t) ≡ some u
find-select_kept q w [] u e k = cc
find-select_kept q w (x ∷ t) u e k = ground (arith, find-select_kept q w t u, e, k)

fresh-stale :
    (c : Settings) (now : ℕ) (u : User) (d : String)
    → is_none u.activation_token_hash ≡ false
    → is_replaced d now u ≡ false
    → is_stale c now u ≡ false
unfolding is_stale is_replaced
fresh-stale c now u d e r = elim (Option-cases u.activation_token_hash) [
  | inl n ↦ cc (e, n)
  | inr (h, k) ↦ ground (arith, k, r)
]

find-All :
    (Q : User → Type 0) (q : User → Bool) (t : Users) (u : User) → All Q t → find q t ≡ some u → Q u
find-All Q q [] u h e = cc
find-All Q q (x ∷ t) u h e = elim (Bool-cases (q x)) [
  | inl a ↦ let same : some x ≡ some u = rw a at e in subst Q (cc (same)) h.0
  | inr a ↦ find-All Q q t u h.1 (rw a at e)
]

module _ (p : Platform) (c : Settings) where
  -- the state after the cleanup
  abbrev pub cleaned : ℕ → Accounts p → Accounts p
  cleaned now s = with_users p (cleanup_users c now s.users).0 s

  cleaned-email :
      (now : ℕ) (s : Accounts p) (email : String) (u : User)
      → get_by_email email s.users ≡ some u
      → is_stale c now u ≡ false
      → get_by_email email (cleaned now s).users ≡ some u
  unfolding cleanup_users
  cleaned-email now s email u e k =
      find-select_kept _ (λ r. not (is_stale c now r)) s.users u e (simp k)

  create-found :
      (link password salt : String) (now : ℕ) (s : Accounts p) (raw : p.Text) (base : UserBase)
      (u : User)
      → verify_activation_token p link now s.cache ≡ some raw
      → p.load_json raw ≡ some base
      → get_by_email base.email s.users ≡ some u
      → (not u.is_active && str_eq u.username base.username) ≡ true
      → is_replaced (p.digest link) now u ≡ false
      → create_user p c link password salt now s
        ≡ ok (with_users p (save (activated p c (hash_password p salt password)) u s.users) s)
  unfolding create_user required require
  create-found link password salt now s raw base u live read e g r =
      simp (create_user, live, read, e, g, r)

  -- what a successful activation has read
  abbrev pub IsUsable : String → ℕ → Accounts p → Type 0
  IsUsable link now s =
      (raw : p.Text) × (base : UserBase) × (u : User) × (verify_activation_token p link now s.cache
        ≡ some raw)
      × (p.load_json raw ≡ some base)
      × (get_by_email base.email s.users ≡ some u)
      × ((not u.is_active && str_eq u.username base.username) ≡ true)
      × (is_replaced (p.digest link) now u ≡ false)

  create-IsUsable :
      (link password salt : String) (now : ℕ) (s s' : Accounts p)
      → create_user p c link password salt now s ≡ ok s'
      → IsUsable link now s
  unfolding create_user required require
  create-IsUsable link password salt now s s' done =
      elim (Option-cases (verify_activation_token p link now s.cache)) [
        | inl a ↦ cc (done, a)
        | inr (raw, a) ↦ elim (Option-cases (p.load_json raw)) [
          | inl b ↦ cc (done, a, b)
          | inr (base, b) ↦ elim (Option-cases (get_by_email base.email s.users)) [
            | inl d ↦ cc (done, a, b, d)
            | inr (u, d) ↦ elim (Bool-cases (not u.is_active && str_eq u.username base.username)) [
              | inr g ↦ cc (done, a, b, d, g)
              | inl g ↦ elim (Bool-cases (is_replaced (p.digest link) now u)) [
                | inl h ↦ cc (done, a, b, d, g, h)
                | inr h ↦ (raw, base, u, a, b, d, g, h)
              ]
            ]
          ]
        ]
      ]

  -- The cleanup does not take an account whose link still works: if every user has the digest of a
  -- link and a link would activate a user now, then it still does after a cleanup at that time.
  pub cleanup_keeps_links :
      (link password salt : String) (now : ℕ) (s s' : Accounts p)
      → All (λ u. is_none u.activation_token_hash ≡ false) s.users
      → create_user p c link password salt now s ≡ ok s'
      → (s'' : Accounts p) × (create_user p c link password salt now (cleaned now s) ≡ ok s'')
  cleanup_keeps_links link password salt now s s' sent done =
      let (raw, base, u, live, read, e, g, r) = create-IsUsable link password salt now s s' done in
      let k = find-All _ _ s.users u sent e in
      let there = cleaned-email now s base.email u e (fresh-stale c now u (p.digest link) k r) in
      (
        with_users p (save (activated p c (hash_password p salt password)) u (cleaned now s).users)
            (cleaned now s),
        create-found link password salt now (cleaned now s) raw base u live read there g r,
      )
