-- ===== src/Users/Refused.antt =====
-- Activation links that are refused: replaced by a later one, or used already.
-- app/apis/users/user_service.py (create_user, resend_activation).
use family_inventory.Prelude.{
  ℕ, ◌≡◌, refl, sym, ◌∙◌, String, true, false, not, ◌&&◌, some, none, List, arith, Bool-cases, inl,
  inr, str_eq, ap,
}
use family_inventory.Notifications.Result.{err}
use family_inventory.Homes.Members.{required, require}
use family_inventory.Users.{
  User, UserBase, Settings, Platform, Fresh, Accounts, save, get_by_id, get_by_email,
  verify_activation_token,
}
use family_inventory.Users.Activation.{
  resend_key, resend_activation, create_user, resend_allowed, is_replaced, invalid_activation_token,
  queue_activation, with_activation,
}
use family_inventory.Users.Quiet.{resend_throttled, resend-first}
use family_inventory.Users.Unique.{IsUnique, get_by_email-id, serve_all-IsUnique, get_by_email-save}
use family_inventory.Users.Active.{active_user_stays}
use family_inventory.Users.Requests.{Request, serve_all}

module _ (p : Platform) (c : Settings) where
  -- A link whose data name the email of a user is refused if the user is active already, or if the
  -- last link of the user is another one or has expired.
  pub create-refused :
      (link password salt : String) (now : ℕ) (s : Accounts p) (raw : p.Text) (base : UserBase)
      (u : User)
      → get_by_email base.email s.users ≡ some u
      → (not u.is_active && not (is_replaced (p.digest link) now u)) ≡ false
      → verify_activation_token p link now s.cache ≡ some raw
      → p.load_json raw ≡ some base
      → create_user p c link password salt now s ≡ err invalid_activation_token
  unfolding create_user required require
  create-refused link password salt now s raw base u e a live read =
      elim (Bool-cases (not u.is_active && str_eq u.username base.username)) [
        | inr g ↦ simp (create_user, live, read, e, g)
        | inl g ↦
            let r : is_replaced (p.digest link) now u ≡ true = ground (arith, a, g) in
            simp (create_user, live, read, e, g, r)
      ]

  -- Once a user is active, no activation link sets the password again: after any sequence of
  -- requests, a link whose stored data name the email of the user is refused, if no two users shared
  -- an id, a username or an email before it.
  pub used_link_refused :
      (rs : List (ℕ × Request)) (i : ℕ) (u : User) (s : Accounts p) (link password salt : String)
      (now : ℕ) (raw : p.Text) (base : UserBase)
      → IsUnique s.users
      → get_by_id i s.users ≡ some u
      → u.is_active ≡ true
      → verify_activation_token p link now (serve_all p c rs s).cache ≡ some raw
      → p.load_json raw ≡ some base
      → base.email ≡ u.email
      → create_user p c link password salt now (serve_all p c rs s) ≡ err invalid_activation_token
  used_link_refused rs i u s link password salt now raw base h e a live read named =
      let (u', e', k) = active_user_stays p c rs i u s h e a in
      let found =
        get_by_email-id i (serve_all p c rs s).users u' (serve_all-IsUnique p c rs s h) e' in
      create-refused link password salt now (serve_all p c rs s) raw base u'
        (ap (λ m. get_by_email m (serve_all p c rs s).users) (named ∙ sym k.email) ∙ found)
        (simp k.is_active) live read

  resend-users :
      (email : String) (f : Fresh) (u : User) (s : Accounts p) (now : ℕ)
      → get_by_email email s.users ≡ some u
      → u.is_active ≡ false
      → (resend_allowed p c email f now s).users ≡ save (with_activation p c f.token now) u s.users
  unfolding resend_allowed queue_activation
  resend-users email f u s now e a = rw (resend_allowed, e, a) refl

  resend_allowed-replaces :
      (f : Fresh) (u : User) (s : Accounts p) (now later : ℕ) (link password salt : String)
      (raw : p.Text) (base : UserBase)
      → get_by_email base.email s.users ≡ some u
      → u.is_active ≡ false
      → str_eq (p.digest f.token) (p.digest link) ≡ false
      → verify_activation_token p link later (resend_allowed p c base.email f now s).cache
        ≡ some raw
      → p.load_json raw ≡ some base
      → create_user p c link password salt later (resend_allowed p c base.email f now s)
        ≡ err invalid_activation_token
  unfolding is_replaced
  resend_allowed-replaces f u s now later link password salt raw base e a other live read =
      create-refused link password salt later (resend_allowed p c base.email f now s) raw base
        (with_activation p c f.token now u)
        (ap (get_by_email base.email) (resend-users base.email f u s now e a)
          ∙ get_by_email-save base.email (with_activation p c f.token now) s.users u
              (λ r. ((refl, refl), refl)) e)
        (simp (is_replaced, a, other)) live read

  -- A resend makes every earlier link of an inactive user useless: once a resend outside the cooldown
  -- has queued a new link, a link with another digest whose stored data name the email is refused.
  pub resend_replaces :
      (f : Fresh) (u : User) (s : Accounts p) (now later : ℕ) (link password salt : String)
      (raw : p.Text) (base : UserBase)
      → p.cache_get (resend_key p c base.email) now s.cache ≡ none
      → get_by_email base.email s.users ≡ some u
      → u.is_active ≡ false
      → str_eq (p.digest f.token) (p.digest link) ≡ false
      → verify_activation_token p link later (resend_activation p c base.email f now s).cache
        ≡ some raw
      → p.load_json raw ≡ some base
      → create_user p c link password salt later (resend_activation p c base.email f now s)
        ≡ err invalid_activation_token
  resend_replaces f u s now later link password salt raw base free e a other live read =
      let sent = resend-first p c base.email f now s free in
      ap (create_user p c link password salt later) sent
      ∙ resend_allowed-replaces f u (resend_throttled p c base.email now s) now later link password
          salt raw base e a other
          (ap (λ (x : Accounts p). verify_activation_token p link later x.cache) (sym sent) ∙ live)
          read
