-- ===== src/Users/Links.antt =====
-- Links that were sent and are used: activation and password reset, app/apis/users/user_service.py
-- and auth_service.py.
use family_inventory.Prelude.{
  ℕ, ◌+◌, ◌*◌, ◌<◌, ◌≡◌, refl, ◌∙◌, String, true, false, some, none, [], ◌∷◌, arith, leb, exists,
  ◌==◌, str_eq, eq_refl, ap,
}
use family_inventory.Notifications.Result.{ok}
use family_inventory.Homes.Members.{required, require}
use family_inventory.Users.{
  User, UserBase, Users, Settings, Platform, Fresh, Accounts, save, get_by_id, get_by_email,
  get_by_username, clashes, create, verify_activation_token, activation_key, hash_password,
}
use family_inventory.Users.Activation.{
  with_activation, activated, new_user, register_user, insert_user, queue_activation, create_user,
  is_replaced,
}
use family_inventory.Users.Auth.{
  Signer, login, create_access_token, get_current_user, user_of_claims, claims_of,
}

-- A name and an email that no row has are not found.
free-username :
    (u : User) (t : Users) → exists (clashes u) t ≡ false → get_by_username u.username t ≡ none
unfolding clashes
free-username u [] h = refl
free-username u (r ∷ t) h = ground (arith, free-username u t)

free-email : (u : User) (t : Users) → exists (clashes u) t ≡ false → get_by_email u.email t ≡ none
unfolding clashes
free-email u [] h = refl
free-email u (r ∷ t) h = ground (arith, free-email u t)

module _ (p : Platform) (c : Settings) (user_data : UserBase) (f : Fresh) (now : ℕ) where
  abbrev pub fresh_user : User
  fresh_user = new_user p c user_data f now

  abbrev pub linked_user : User
  linked_user = with_activation p c f.token now fresh_user

  -- the state after the registration of a new user
  abbrev pub registered : Accounts p → Accounts p
  registered s =
      queue_activation p c fresh_user user_data f now
        (record { users = fresh_user ∷ s.users; outbox = s.outbox; cache = s.cache })

  pub register-new :
      (s : Accounts p)
      → exists (clashes fresh_user) s.users ≡ false
      → register_user p c user_data s.users f now s ≡ ok (registered s)
  unfolding register_user insert_user create require
  register-new s free =
      rw
        (
          register_user,
          free-username fresh_user s.users free,
          free-email fresh_user s.users free,
          insert_user,
          create,
          free,
        )
        refl

  -- The new user heads the table.
  pub registered-head :
      (s : Accounts p)
      → (registered s).users
        ≡ linked_user ∷ save (with_activation p c f.token now) fresh_user s.users
  unfolding queue_activation
  registered-head s = ground arith

  live_token :
      (later : ℕ) (s : Accounts p)
      → later < now + c.activation_token_expire_minutes * 60
      → verify_activation_token p f.token later (registered s).cache ≡ some (p.dump_json user_data)
  unfolding queue_activation verify_activation_token
  live_token later s h =
      rw
        (
          verify_activation_token,
          queue_activation,
          p.get-set (activation_key p f.token) (p.dump_json user_data)
              (c.activation_token_expire_minutes * 60) now later s.cache h,
          p.dump_full user_data,
        )
        refl

  -- The new user once the link was followed.
  abbrev pub active_user : String → String → User
  active_user salt password = activated p c (hash_password p salt password) linked_user

  activated-registered :
      (later : ℕ) (salt password : String) (s : Accounts p)
      → later < now + c.activation_token_expire_minutes * 60
      → (s' : Accounts p) × (create_user p c f.token password salt later (registered s) ≡ ok s')
        × (get_by_email user_data.email s'.users ≡ some (active_user salt password))
        × (get_by_id f.user_id s'.users ≡ some (active_user salt password))
  unfolding create_user required require is_replaced queue_activation
  activated-registered later salt password s h =
      let live = live_token later s h in
      let back = p.load-dump user_data in
      let named : str_eq user_data.email user_data.email ≡ true = eq_refl user_data.email in
      let called : str_eq user_data.username user_data.username ≡ true =
        eq_refl user_data.username in
      let hashed : str_eq (p.digest f.token) (p.digest f.token) ≡ true =
        eq_refl (p.digest f.token) in
      let same : (f.user_id == f.user_id) ≡ true = ground arith in
      let open_yet : leb (now + c.activation_token_expire_minutes * 60) later ≡ false =
        ground arith in
      (
        record {
          users =
              save (activated p c (hash_password p salt password)) linked_user (registered s).users;
          outbox = (registered s).outbox;
          cache = (registered s).cache;
        },
        rw (create_user, live, back, queue_activation, same, named, called, hashed, open_yet) refl,
        rw (queue_activation, same, same, named) refl,
        rw (queue_activation, same, same, same) refl,
      )

module _ (p : Platform) (c : Settings) (j : Signer) where
  -- the right password of an active user
  pub login-active :
      (email password salt jti : String) (now : ℕ) (s : Accounts p) (u : User)
      → get_by_email email s.users ≡ some u
      → u.is_active ≡ true
      → u.hashed_password ≡ hash_password p salt password
      → p.truncated password ≡ password
      → login p c j email password jti now s ≡ ok (create_access_token p c j u jti now)
  unfolding login required require
  login-active email password salt jti now s u e a h short =
      let right : p.crypt_verify password u.hashed_password ≡ true =
        ap (p.crypt_verify password) (h ∙ ap (p.crypt_hash salt) short)
        ∙ p.verify-hash salt password in
      simp (login, e, a, right)

  -- the user of an access token that has not expired
  pub get_current_user-login :
      (jti : String) (now later : ℕ) (t : Users) (u : User)
      → get_by_id u.id t ≡ some u
      → u.is_active ≡ true
      → later < now + c.access_token_expire_minutes * 60
      → get_current_user p c j (create_access_token p c j u jti now) later t ≡ ok u
  unfolding get_current_user user_of_claims create_access_token required require
  get_current_user-login jti now later t u e a h =
      rw
        (
          get_current_user,
          j.decode-encode later (claims_of p c j u jti now) h,
          p.str_full u.id,
          p.parse-str u.id,
          e,
          a,
        )
        refl

  -- From registration to the first request of a session: if the id, the username and the email of
  -- a registration are new, the link that it sends is followed before it expires and the password
  -- is not cut by the limit of 72 bytes, then registration and activation succeed, the email and
  -- the password log in, and until it expires the access token gives back the user just activated,
  -- who has the registered username and email and is no administrator.
  pub registered_user_logs_in :
      (user_data : UserBase) (f : Fresh) (salt password jti : String) (t1 t2 t3 t4 : ℕ)
      (s : Accounts p)
      → exists (clashes (fresh_user p c user_data f t1)) s.users ≡ false
      → t2 < t1 + c.activation_token_expire_minutes * 60
      → t4 < t3 + c.access_token_expire_minutes * 60
      → p.truncated password ≡ password
      → (s1 s2 : Accounts p) × (token : j.Token) × (u : User) × (register_user p c user_data s.users
            f t1 s
          ≡ ok s1)
        × (create_user p c f.token password salt t2 s1 ≡ ok s2)
        × (login p c j user_data.email password jti t3 s2 ≡ ok token)
        × (get_current_user p c j token t4 s2.users ≡ ok u)
        × (u.username ≡ user_data.username)
        × (u.email ≡ user_data.email)
        × (u.is_admin ≡ false)
  registered_user_logs_in user_data f salt password jti t1 t2 t3 t4 s free soon valid short =
      let (s2, done, mail, row) = activated-registered p c user_data f t1 t2 salt password s soon in
      let u = active_user p c user_data f t1 salt password in
      (
        registered p c user_data f t1 s,
        s2,
        create_access_token p c j u jti t3,
        u,
        register-new p c user_data f t1 s free,
        done,
        login-active user_data.email password salt jti t3 s2 u mail refl refl short,
        get_current_user-login jti t3 t4 s2.users u row refl valid,
        refl,
        refl,
        refl,
      )
