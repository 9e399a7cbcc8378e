-- ===== src/Users/Reset.antt =====
-- Password reset links, from the request to the login: app/apis/users/auth_service.py.
use family_inventory.Prelude.{
  ℕ, ◌+◌, ◌*◌, ◌≡◌, refl, sym, ◌∙◌, String, true, false, not, ◌&&◌, some, none, arith, leb,
  Bool-cases, Option-cases, inl, inr, eq_refl, length, select, ◌<◌, ◌≤◌, ap,
}
use family_inventory.Notifications.Result.{ok, err}
use family_inventory.Homes.Members.{required, require}
use family_inventory.Users.{
  User, Settings, Platform, Fresh, Accounts, save, get_by_email, get_by_reset_hash, equals,
  hash_password, with_users,
}
use family_inventory.Users.Activation.{is_over}
use family_inventory.Users.Auth.{
  Signer, login, create_access_token, issue_reset, with_reset, with_password, request_allowed,
  request_password_reset, reset_key, reset_password, invalid_reset_token,
}
use family_inventory.Users.Quiet.{throttled, request-first}
use family_inventory.Users.Unique.{
  IsUnique, get_by_email-save, find-save_new, find-save_cleared, get_by_id-find,
}
use family_inventory.Users.Links.{login-active}

module _ (p : Platform) (c : Settings) where
  ask-users :
      (email : String) (f : Fresh) (u : User) (s : Accounts p) (now : ℕ)
      → get_by_email email s.users ≡ some u
      → u.is_active ≡ true
      → (request_allowed p c email f now s).users ≡ save (with_reset p c f.token now) u s.users
  unfolding request_allowed issue_reset
  ask-users email f u s now e a = rw (request_allowed, e, a) refl

  reset-found :
      (token password salt : String) (now : ℕ) (s : Accounts p) (u : User)
      → get_by_reset_hash (p.digest token) s.users ≡ some u
      → (u.is_active && not (is_over u.password_reset_expires_at now)) ≡ true
      → reset_password p c token password salt now s
        ≡ ok (with_users p (save (with_password p c (hash_password p salt password)) u s.users) s)
  unfolding reset_password required require
  reset-found token password salt now s u e a = simp (reset_password, e, a)

  reset_allowed-login :
      (j : Signer) (email : String) (f : Fresh) (password salt jti : String) (t1 t2 t3 : ℕ)
      (s : Accounts p) (u : User)
      → IsUnique s.users
      → get_by_email email s.users ≡ some u
      → u.is_active ≡ true
      → get_by_reset_hash (p.digest f.token) s.users ≡ none
      → t2 < t1 + c.password_reset_expire_minutes * 60
      → p.truncated password ≡ password
      → (s' : Accounts p) × (token : j.Token) × (reset_password p c f.token password salt t2
            (request_allowed p c email f t1 s)
          ≡ ok s')
        × (login p c j email password jti t3 s' ≡ ok token)
  reset_allowed-login j email f password salt jti t1 t2 t3 s u h e a new soon short =
      let asked = with_reset p c f.token t1 u in
      let hashed = hash_password p salt password in
      let s1 = request_allowed p c email f t1 s in
      let rows = ask-users email f u s t1 e a in
      let mail =
        ap (get_by_email email) rows
        ∙ get_by_email-save email (with_reset p c f.token t1) s.users u (λ r. ((refl, refl), refl))
            e in
      let digested =
        ap (get_by_reset_hash (p.digest f.token)) rows
        ∙ find-save_new (λ r. equals (p.digest f.token) r.password_reset_hash)
            (with_reset p c f.token t1) s.users u new (get_by_id-find _ s.users u h e)
            (eq_refl (p.digest f.token)) in
      let open_yet : leb (t1 + c.password_reset_expire_minutes * 60) t2 ≡ false = ground arith in
      let s2 = with_users p (save (with_password p c hashed) asked s1.users) s1 in
      (
        s2,
        create_access_token p c j (with_password p c hashed asked) jti t3,
        reset-found f.token password salt t2 s1 asked digested (simp (a, open_yet)),
        login-active p c j email password salt jti t3 s2 (with_password p c hashed asked)
            (get_by_email-save email (with_password p c hashed) s1.users asked
              (λ r. ((refl, refl), refl)) mail)
            a refl short,
      )

  -- The link of a password reset works: if it is asked for an active user outside the cooldown, its
  -- digest is new, and it is followed before it expires with a password that the limit of 72 bytes
  -- does not cut, then the reset succeeds and the email logs in with the new password, if no two
  -- users share an id, a username or an email.
  pub reset_logs_in :
      (j : Signer) (email : String) (f : Fresh) (password salt jti : String) (t1 t2 t3 : ℕ)
      (s : Accounts p) (u : User)
      → IsUnique s.users
      → p.cache_get (reset_key p c email) t1 s.cache ≡ none
      → get_by_email email s.users ≡ some u
      → u.is_active ≡ true
      → get_by_reset_hash (p.digest f.token) s.users ≡ none
      → t2 < t1 + c.password_reset_expire_minutes * 60
      → p.truncated password ≡ password
      → (s' : Accounts p) × (token : j.Token) × (reset_password p c f.token password salt t2
            (request_password_reset p c email f t1 s)
          ≡ ok s')
        × (login p c j email password jti t3 s' ≡ ok token)
  reset_logs_in j email f password salt jti t1 t2 t3 s u h free e a new soon short =
      let (s', token, done, entered) =
        reset_allowed-login j email f password salt jti t1 t2 t3
          (throttled p c (reset_key p c email) t1 s) u h e a new soon short in
      (
        s',
        token,
        ap (reset_password p c f.token password salt t2) (request-first p c email f t1 s free)
            ∙ done,
        entered,
      )

  reset-lost :
      (token password salt : String) (now : ℕ) (s : Accounts p)
      → get_by_reset_hash (p.digest token) s.users ≡ none
      → reset_password p c token password salt now s ≡ err invalid_reset_token
  unfolding reset_password required
  reset-lost token password salt now s e = simp (reset_password, e)

  -- A reset link works once: after a reset with a token whose digest one row at most holds, another
  -- reset with the same token is refused.
  pub reset_once :
      (token password salt password' salt' : String) (now later : ℕ) (s s' : Accounts p)
      → length (select (λ r. equals (p.digest token) r.password_reset_hash) s.users) ≤ 1
      → reset_password p c token password salt now s ≡ ok s'
      → reset_password p c token password' salt' later s' ≡ err invalid_reset_token
  unfolding reset_password required require
  reset_once token password salt password' salt' now later s s' one done =
      elim (Option-cases (get_by_reset_hash (p.digest token) s.users)) [
        | inl e ↦ cc (done, e)
        | inr (u, e) ↦
            elim (Bool-cases (u.is_active && not (is_over u.password_reset_expires_at now))) [
              | inr a ↦ cc (done, e, a)
              | inl a ↦
                  let first = reset-found token password salt now s u e a in
                  let gone =
                    find-save_cleared (λ r. equals (p.digest token) r.password_reset_hash)
                      (with_password p c (hash_password p salt password)) s.users u (λ r. refl) one
                      e in
                  let same : with_users p
                        (save (with_password p c (hash_password p salt password)) u s.users) s
                      ≡ s' =
                    cc (first, done) in
                  reset-lost token password' salt' later s' (
                    ap (λ (x : Accounts p). get_by_reset_hash (p.digest token) x.users) (sym same)
                    ∙ gone)
            ]
      ]
