-- ===== src/Users/Steps.antt =====
-- What a request of app/apis/users can do to the table of users, as a step relation.
use family_inventory.Prelude.{
  ℕ, ◌≡◌, String, Bool, true, false, not, ◌&&◌, some, ◌∷◌, arith, Bool-cases, Option-cases, inl,
  inr, exists, is_none, str_eq, if◌then◌else◌,
}
use family_inventory.Homes.Members.Guards.{after}
use family_inventory.Homes.Members.{required, require}
use family_inventory.Users.{
  User, UserBase, Users, Settings, Platform, Fresh, Accounts, create, clashes, save, hash_password,
  get_by_email, get_by_username, get_by_reset_hash, verify_activation_token,
}
use family_inventory.Users.Activation.{
  with_activation, new_user, activated, register_user, insert_user, queue_activation, create_user,
  resend_activation, resend_allowed, is_replaced, is_over,
}
use family_inventory.Users.Auth.{
  with_reset, with_password, issue_reset, request_allowed, request_password_reset, reset_password,
}
use family_inventory.Users.Cleanup.{cleanup_users}
use family_inventory.Users.Requests.{
  Request, registers, resends, activates, asks_reset, resets, cleans, serve,
}

module _ (p : Platform) (c : Settings) where
  pub data Step : Users → Users → Type 0 where
    stays : {t : Users} → Step t t
    inserts :
        {t : Users} (user_data : UserBase) (f : Fresh) (now : ℕ)
        → exists (clashes (new_user p c user_data f now)) t ≡ false
        → Step t (
            save
              (with_activation p c f.token now)
              (new_user p c user_data f now)
              (new_user p c user_data f now ∷ t))
    links :
        {t : Users} (user : User) (token : String) (now : ℕ)
        → Step t (save (with_activation p c token now) user t)
    starts :
        {t : Users} (user : User) (email hashed : String)
        → get_by_email email t ≡ some user
        → user.is_active ≡ false
        → Step t (save (activated p c hashed) user t)
    asks :
        {t : Users} (user : User) (token : String) (now : ℕ)
        → Step t (save (with_reset p c token now) user t)
    renews :
        {t : Users} (user : User) (hashed : String)
        → Step t (save (with_password p c hashed) user t)
    deletes : {t : Users} (now : ℕ) → Step t (cleanup_users c now t).0

  branch-Step :
      (t : Users) (b : Bool) (x y : Accounts p)
      → Step t x.users
      → Step t y.users
      → Step t (if b then x else y).users
  branch-Step t true x y g h = g
  branch-Step t false x y g h = h

  insert-Step :
      (user_data : UserBase) (f : Fresh) (now : ℕ) (s : Accounts p)
      → Step s.users (after s (insert_user p c user_data f now s)).users
  unfolding insert_user create queue_activation
  insert-Step user_data f now s =
      elim (Bool-cases (exists (clashes (new_user p c user_data f now)) s.users)) [
        | inl e ↦ elim (Bool-cases (is_none (get_by_username user_data.username s.users))) [
          | inl n ↦ rw (insert_user, create, e, n) stays
          | inr n ↦ rw (insert_user, create, e, n) stays
        ]
        | inr e ↦ rw (insert_user, create, e) (inserts user_data f now e)
      ]

  register-Step :
      (user_data : UserBase) (seen : Users) (f : Fresh) (now : ℕ) (s : Accounts p)
      → Step s.users (after s (register_user p c user_data seen f now s)).users
  unfolding register_user require
  register-Step user_data seen f now s =
      elim (Bool-cases (is_none (get_by_username user_data.username seen))) [
        | inr n ↦ rw n stays
        | inl n ↦ elim (Bool-cases (is_none (get_by_email user_data.email seen))) [
          | inl e ↦ rw (n, e) (insert-Step user_data f now s)
          | inr e ↦ rw (n, e) stays
        ]
      ]

  resend-Step :
      (email : String) (f : Fresh) (now : ℕ) (s : Accounts p)
      → Step s.users (resend_allowed p c email f now s).users
  unfolding resend_allowed queue_activation
  resend-Step email f now s = elim (Option-cases (get_by_email email s.users)) [
    | inl e ↦ rw (resend_allowed, e) stays
    | inr (u, e) ↦ elim (Bool-cases u.is_active) [
      | inl a ↦ rw (resend_allowed, e, a) stays
      | inr a ↦ rw (resend_allowed, e, a) (links u f.token now)
    ]
  ]

  ask-Step :
      (email : String) (f : Fresh) (now : ℕ) (s : Accounts p)
      → Step s.users (request_allowed p c email f now s).users
  unfolding request_allowed issue_reset
  ask-Step email f now s = elim (Option-cases (get_by_email email s.users)) [
    | inl e ↦ rw (request_allowed, e) stays
    | inr (u, e) ↦ elim (Bool-cases u.is_active) [
      | inl a ↦ rw (request_allowed, e, a) (asks u f.token now)
      | inr a ↦ rw (request_allowed, e, a) stays
    ]
  ]

  resends-Step :
      (email : String) (f : Fresh) (now : ℕ) (s : Accounts p)
      → Step s.users (resend_activation p c email f now s).users
  unfolding resend_activation
  resends-Step email f now s = branch-Step s.users _ _ _ (resend-Step email f now _) stays

  activate-Step :
      (key password salt : String) (now : ℕ) (s : Accounts p)
      → Step s.users (after s (create_user p c key password salt now s)).users
  unfolding create_user required require
  activate-Step key password salt now s =
      elim (Option-cases (verify_activation_token p key now s.cache)) [
        | inl a ↦ rw a stays
        | inr (raw, a) ↦ elim (Option-cases (p.load_json raw)) [
          | inl b ↦ rw (a, b) stays
          | inr (base, b) ↦ elim (Option-cases (get_by_email base.email s.users)) [
            | inl d ↦ rw (a, b, d) stays
            | inr (u, d) ↦ elim (Bool-cases (not u.is_active && str_eq u.username base.username)) [
              | inr g ↦ rw (a, b, d, g) stays
              | inl g ↦ elim (Bool-cases (is_replaced (p.digest key) now u)) [
                | inl h ↦ rw (a, b, d, g, h) stays
                | inr h ↦
                    rw (a, b, d, g, h)
                      (starts u base.email (hash_password p salt password) d (ground (arith, g)))
              ]
            ]
          ]
        ]
      ]

  reset-Step :
      (token password salt : String) (now : ℕ) (s : Accounts p)
      → Step s.users (after s (reset_password p c token password salt now s)).users
  unfolding reset_password required require
  reset-Step token password salt now s =
      elim (Option-cases (get_by_reset_hash (p.digest token) s.users)) [
        | inl a ↦ rw a stays
        | inr (u, a) ↦
            elim (Bool-cases (u.is_active && not (is_over u.password_reset_expires_at now))) [
              | inr b ↦ rw (a, b) stays
              | inl b ↦ rw (a, b) (renews u (hash_password p salt password))
            ]
      ]

  asks-Step :
      (email : String) (f : Fresh) (now : ℕ) (s : Accounts p)
      → Step s.users (request_password_reset p c email f now s).users
  unfolding request_password_reset
  asks-Step email f now s = branch-Step s.users _ _ _ (ask-Step email f now _) stays

  pub serve-Step : (now : ℕ) (r : Request) (s : Accounts p) → Step s.users (serve p c now r s).users
  unfolding serve
  serve-Step now (registers user_data seen f) s = register-Step user_data seen f now s
  serve-Step now (resends email f) s = resends-Step email f now s
  serve-Step now (activates key password salt) s = activate-Step key password salt now s
  serve-Step now (asks_reset email f) s = asks-Step email f now s
  serve-Step now (resets token password salt) s = reset-Step token password salt now s
  serve-Step now cleans s = deletes now
