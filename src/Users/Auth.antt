-- ===== src/Users/Auth.antt =====
-- Login, password reset and the user of a request: app/apis/users/auth_service.py,
-- app/iam/token_service.py (access tokens), app/iam/dependencies.py, permissions.py and
-- websocket_auth.py.
use Prim.Native.String.{◌++◌ as append}
use family_inventory.Prelude.{
  leb, sort_by, ℕ, ◌+◌, ◌*◌, ◌<◌, ◌≡◌, String, Bool, not, ◌||◌, ◌&&◌, Option, none, some, [], ◌∷◌,
  str_eq, if◌then◌else◌,
}
use family_inventory.Notifications.Headers.{text}
use family_inventory.Notifications.Outbox.{NotificationOutbox}
use family_inventory.Notifications.Result.{Result, ok, err, ◌>>=◌, ◌>>◌}
use family_inventory.Notifications.Errors.{Exception}
use family_inventory.Core.Pagination.{PaginatedOutput, apply_pagination}
use family_inventory.Homes.Members.{raise, required, require}
use family_inventory.Users.{
  User, Users, Settings, Platform, Fresh, Accounts, with_users, get_by_email, get_by_id,
  get_by_reset_hash, save, hash_password, verify_password,
}
use family_inventory.Users.Activation.{new_notification, add, is_over}

pub record JwtPayload : Type 0 where
  pub user_id : String
  pub email : String
  pub is_admin : Bool
  pub iat : ℕ
  pub exp : ℕ
  pub jti : String

-- What decoding a token gives.
pub data Decoded : Type 0 where
  expired_signature jwt_error : Decoded
  payload : JwtPayload → Decoded

-- jose's JWTs under the program's key: a token that was encoded decodes until it expires.
pub record Signer : Type 1 where
  pub Token : Type 0
  pub is_blank : Token → Bool
  pub encode : JwtPayload → Token
  pub decode : ℕ → Token → Decoded
  pub decode-encode :
      (now : ℕ) (claims : JwtPayload)
      → now < claims.exp
      → decode now (encode claims) ≡ payload claims

abbrev pub invalid_credentials : Exception
invalid_credentials = raise "InvalidCredentials" ""

abbrev pub invalid_reset_token : Exception
invalid_reset_token = raise "InvalidResetToken" ""

abbrev pub http_exception : String → Exception
http_exception detail = raise "HTTPException" detail

module _ (p : Platform) (c : Settings) (j : Signer) where
  -- the claims of `create_access_token`
  abbrev pub claims_of : User → String → ℕ → JwtPayload
  claims_of user jti now = record {
    user_id = p.str_id user.id;
    email = user.email;
    is_admin = user.is_admin;
    iat = now;
    exp = now + c.access_token_expire_minutes * 60;
    jti = jti;
  }

  -- `create_access_token`
  unfoldable pub create_access_token : User → String → ℕ → j.Token
  create_access_token user jti now = j.encode (claims_of user jti now)

  unfoldable pub login : String → String → String → ℕ → Accounts p → Result j.Token
  unfolding create_access_token
  login email password jti now s = do
    user ← required invalid_credentials (get_by_email email s.users)
    require invalid_credentials user.is_active
    require invalid_credentials (verify_password p password user.hashed_password)
    ok (create_access_token user jti now)

  -- `get_current_user` once the token is decoded
  unfoldable pub user_of_claims : JwtPayload → Users → Result User
  user_of_claims claims t = do
    require invalid_credentials (not (str_eq claims.user_id ""))
    user_id ← required (raise "ValueError" "") (p.parse_id claims.user_id)
    user ← required invalid_credentials (get_by_id user_id t)
    require (http_exception "User account is not active") user.is_active
    ok user

  unfoldable pub get_current_user : j.Token → ℕ → Users → Result User
  unfolding user_of_claims
  get_current_user token now t = elim (j.decode now token) [
    | expired_signature ↦ err (http_exception "Token expired")
    | jwt_error ↦ err (http_exception "Invalid token")
    | payload claims ↦ user_of_claims claims t
  ]

  -- `PermissionsValidator.__call__`
  unfoldable pub validate_permissions : Bool → User → Result (Unit {0})
  validate_permissions require_admin user =
      require (http_exception "Permission denied") (not (require_admin && not user.is_admin))

  abbrev active_only : Option User → Option User
  active_only none = none
  active_only (some user) = if user.is_active then some user else none

  abbrev user_of_id : Option ℕ → Users → Option User
  user_of_id none t = none
  user_of_id (some i) t = active_only (get_by_id i t)

  -- `get_current_user_ws`, given the token of the socket: none closes the socket with 4401.
  unfoldable pub get_current_user_ws : Option j.Token → ℕ → Users → Option User
  get_current_user_ws none now t = none
  get_current_user_ws (some token) now t = elim (j.decode now token) [
    | expired_signature ↦ none
    | jwt_error ↦ none
    | payload claims ↦
        let user = user_of_id (p.parse_id claims.user_id) t in
        if j.is_blank token || str_eq claims.user_id "" then none else user
  ]

module _ (p : Platform) (c : Settings) where
  abbrev pub with_reset : String → ℕ → User → User
  with_reset token now r = record r {
    password_reset_hash = some (p.digest token);
    password_reset_expires_at = some (now + c.password_reset_expire_minutes * 60);
  }

  abbrev reset_message : User → Fresh → ℕ → NotificationOutbox
  reset_message user f now =
      new_notification f.outbox_id f.event_id "users.password_reset.requested"
        (("event_id", text (p.str_id f.event_id))
          ∷ ("user_id", text (p.str_id user.id))
          ∷ ("subject", text "Reset your Family Inventory password")
          ∷ (
            "message",
            text (
                append
                  (append
                    (append "Reset your password using this link:\n\n"
                      (append c.public_base_url (append "/reset-password/" f.token)))
                    "\n\nThis link expires in ")
                  (append (p.str_number c.password_reset_expire_minutes)
                    " minutes. If you did not request a password reset, ignore this email.")),
          )
          ∷ [])
        (("source", text "users") ∷ ("event_id", text (p.str_id f.event_id)) ∷ []) now

  -- A new reset link for an active user.
  unfoldable pub issue_reset : User → Fresh → ℕ → Accounts p → Accounts p
  issue_reset user f now s = record {
    users = save (with_reset f.token now) user s.users;
    outbox = add (reset_message user f now) s.outbox;
    cache = s.cache;
  }

  abbrev pub reset_key : String → String
  reset_key email = append "password-reset:" email

  -- `request_password_reset` once the throttle has let it pass
  unfoldable pub request_allowed : String → Fresh → ℕ → Accounts p → Accounts p
  unfolding issue_reset
  request_allowed email f now s = elim (get_by_email email s.users) [
    | none ↦ s
    | some user ↦ if user.is_active then issue_reset user f now s else s
  ]

  unfoldable pub request_password_reset : String → Fresh → ℕ → Accounts p → Accounts p
  unfolding request_allowed
  request_password_reset email f now s =
      let (cache, allowed) =
        p.cache_set_nx (reset_key email) p.one c.password_reset_cooldown_seconds now s.cache in
      let s' : Accounts p = record { users = s.users; outbox = s.outbox; cache = cache } in
      if allowed then request_allowed email f now s' else s'

  abbrev pub with_password : String → User → User
  with_password hashed r = record r {
    hashed_password = hashed;
    password_reset_hash = none;
    password_reset_expires_at = none;
  }

  unfoldable pub reset_password : String → String → String → ℕ → Accounts p → Result (Accounts p)
  reset_password token password salt now s = do
    user ← required invalid_reset_token (get_by_reset_hash (p.digest token) s.users)
    require invalid_reset_token (user.is_active && not (is_over user.password_reset_expires_at now))
    ok (with_users p (save (with_password (hash_password p salt password)) user s.users) s)

-- `UserService.get_all_users`: the pages of all users, the last id first.
unfoldable pub get_all_users : ℕ → ℕ → Users → PaginatedOutput User
get_all_users page page_size t =
    apply_pagination page page_size (sort_by (λ (a b : User). leb b.id a.id) t)
