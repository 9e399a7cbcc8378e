-- ===== src/Users/Activation.antt =====
-- Registration and activation: app/apis/users/user_service.py, and the format of a key in
-- app/iam/types.py.
use Prim.Native.Char.{Char, code}
use Prim.Native.String.{◌++◌ as append, [] as empty, ◌∷◌ as char_cons}
use family_inventory.Prelude.{
  ℕ, ◌+◌, ◌*◌, String, Bool, true, false, not, ◌&&◌, ◌||◌, Option, none, some, List, [], ◌∷◌, leb,
  length, ◌==◌, str_eq, if◌then◌else◌, is_none,
}
use family_inventory.Notifications.Headers.{Headers, text}
use family_inventory.Notifications.Outbox.{Outbox, NotificationOutbox, literal, StatusWord}
use family_inventory.Notifications.Result.{Result, ok, err, ◌>>=◌, ◌>>◌}
use family_inventory.Notifications.Errors.{Exception}
use family_inventory.Homes.Members.{raise, required, require}
use family_inventory.Users.{
  User, UserBase, Users, Settings, Platform, Fresh, Accounts, with_users, get_by_username,
  get_by_email, get_by_activation_token_hash, create, save, hash_password, create_activation_token,
  verify_activation_token,
}

abbrev is_key_char : Char → Bool
is_key_char c =
    let n = code c in
    (leb b'A' n && leb n b'Z')
    || ((leb b'a' n && leb n b'z') || ((leb b'0' n && leb n b'9') || (n == b'_' || n == b'-')))

-- the characters, less one newline at the end, which `$` passes over
abbrev key_chars : String → List Char
key_chars empty = []
key_chars (char_cons c s) =
    let rest = key_chars s in if str_eq s "" && code c == 10 then [] else c ∷ rest

abbrev all_key_chars : List Char → Bool
all_key_chars [] = true
all_key_chars (c ∷ l) = is_key_char c && all_key_chars l

-- TOKEN_REGEX
unfoldable pub is_activation_key : String → Bool
is_activation_key value =
    let chars = key_chars value in
    all_key_chars chars && (leb 20 (length chars) && leb (length chars) 100)

abbrev pub invalid_activation_token : Exception
invalid_activation_token = raise "InvalidActivationToken" ""

abbrev pub user_name_already_exists : Exception
user_name_already_exists = raise "UserNameAlreadyExists" ""

abbrev pub user_already_active : Exception
user_already_active = raise "UserAlreadyActive" ""

-- a new row of the outbox, with the defaults of its columns
abbrev pub new_notification : ℕ → ℕ → String → Headers → Headers → ℕ → NotificationOutbox
new_notification id event_id topic payload headers now = record {
  id = id;
  event_id = event_id;
  topic = topic;
  payload = payload;
  headers = headers;
  status = literal StatusWord.pending;
  attempt_count = 0;
  last_error = none;
  next_retry_at = none;
  created_at = now;
}

-- `NotificationOutboxRepository.add`, and the flush of the staged row
abbrev pub add : NotificationOutbox → Outbox → Outbox
add v t = v ∷ t

-- `value <= now`, and true for NULL
abbrev pub is_over : Option ℕ → ℕ → Bool
is_over none now = true
is_over (some t) now = leb t now

-- The link is not the one that the row was given last, or has expired.
unfoldable pub is_replaced : String → ℕ → User → Bool
is_replaced input_hash now user = elim user.activation_token_hash [
  | none ↦ false
  | some h ↦ not (str_eq h input_hash) || is_over user.activation_expires_at now
]

module _ (p : Platform) (c : Settings) where
  abbrev pub with_activation : String → ℕ → User → User
  with_activation token now r = record r {
    activation_token_hash = some (p.digest token);
    activation_expires_at = some (now + c.activation_token_expire_minutes * 60);
  }

  abbrev activation_link : String → String
  activation_link token = append c.public_base_url (append "/activate/" (p.quote token))

  abbrev activation_message : User → Fresh → ℕ → NotificationOutbox
  activation_message user f now =
      new_notification f.outbox_id f.event_id "users.activation.requested"
        (("event_id", text (p.str_id f.event_id))
          ∷ ("user_id", text (p.str_id user.id))
          ∷ ("subject", text "Activate your Family Inventory account")
          ∷ (
            "message",
            text (
                append
                  (append
                    (append "Set your password to activate your account:\n\n"
                      (activation_link f.token))
                    "\n\nThis link expires in ")
                  (append (p.str_number c.activation_token_expire_minutes)
                    " minutes. If you did not request this account, ignore this email.")),
          )
          ∷ [])
        (("source", text "users") ∷ ("event_id", text (p.str_id f.event_id)) ∷ []) now

  -- `_queue_activation`
  unfoldable pub queue_activation : User → UserBase → Fresh → ℕ → Accounts p → Accounts p
  queue_activation user user_data f now s = record {
    users = save (with_activation f.token now) user s.users;
    outbox = add (activation_message user f now) s.outbox;
    cache = create_activation_token p c f.token user_data now s.cache;
  }

  abbrev pub new_user : UserBase → Fresh → ℕ → User
  new_user user_data f now = record {
    id = f.user_id;
    username = user_data.username;
    email = user_data.email;
    hashed_password = hash_password p f.salt f.secret;
    is_active = false;
    is_admin = false;
    password_reset_hash = none;
    password_reset_expires_at = none;
    activation_token_hash = none;
    activation_expires_at = none;
    created_at = now;
  }

  -- The INSERT of `register_user` in its savepoint, and what follows it.
  unfoldable pub insert_user : UserBase → Fresh → ℕ → Accounts p → Result (Accounts p)
  unfolding create queue_activation
  insert_user user_data f now s = elim (create (new_user user_data f now) s.users) [
    | none ↦
        if is_none (get_by_username user_data.username s.users)
        then ok s
        else err user_name_already_exists
    | some t ↦ ok (queue_activation (new_user user_data f now) user_data f now (with_users p t s))
  ]

  -- `register_user`; `seen` are the rows that its two SELECTs read, before the INSERT meets `s`.
  unfoldable pub register_user : UserBase → Users → Fresh → ℕ → Accounts p → Result (Accounts p)
  register_user user_data seen f now s = do
    require user_name_already_exists (is_none (get_by_username user_data.username seen))
    if is_none (get_by_email user_data.email seen) then insert_user user_data f now s else ok s

  -- The last steps of `validate_activation_link`, with the user of the link.
  unfoldable pub check_link : String → ℕ → UserBase → Accounts p → Result (Unit {0})
  check_link key now user_base s = do
    user ← required invalid_activation_token (get_by_email user_base.email s.users)
    require invalid_activation_token (str_eq user.username user_base.username)
    require invalid_activation_token (not (is_replaced (p.digest key) now user))
    require user_already_active (not user.is_active)

  abbrev is_active_user : Option User → Bool
  is_active_user none = false
  is_active_user (some u) = u.is_active

  -- its steps without a live token
  unfoldable pub check_dead_link : String → Accounts p → Result (Unit {0})
  check_dead_link key s = do
    user ← get_by_activation_token_hash (p.digest key) s.users
    require user_already_active (not (is_active_user user))
    err invalid_activation_token

  -- `ActivationKey(key)` and `verify_activation_token`; none for a ValueError of either
  abbrev read_link : String → ℕ → Accounts p → Option p.Text
  read_link key now s =
      let raw = verify_activation_token p key now s.cache in
      if is_activation_key key then raw else none

  abbrev pub validation_error : Exception
  validation_error = raise "ValidationError" ""

  unfoldable pub validate_activation_link : String → ℕ → Accounts p → Result (Unit {0})
  validate_activation_link key now s = elim (read_link key now s) [
    | none ↦ check_dead_link key s
    | some raw ↦ do
      user_base ← required validation_error (p.load_json raw)
      check_link key now user_base s
  ]

  abbrev pub activated : String → User → User
  activated hashed r = record r { hashed_password = hashed; is_active = true }

  -- `create_user`: the user of the key becomes active.
  unfoldable pub create_user : String → String → String → ℕ → Accounts p → Result (Accounts p)
  create_user key password salt now s = do
    raw ← required invalid_activation_token (verify_activation_token p key now s.cache)
    user_base ← required validation_error (p.load_json raw)
    user ← required invalid_activation_token (get_by_email user_base.email s.users)
    require invalid_activation_token (not user.is_active && str_eq user.username user_base.username)
    require invalid_activation_token (not (is_replaced (p.digest key) now user))
    ok (with_users p (save (activated (hash_password p salt password)) user s.users) s)

  abbrev pub resend_key : String → String
  resend_key email = append "activation-resend:" (p.digest (p.normalized email))

  -- `resend_activation` once the throttle has let it pass
  unfoldable pub resend_allowed : String → Fresh → ℕ → Accounts p → Accounts p
  unfolding queue_activation
  resend_allowed email f now s = elim (get_by_email email s.users) [
    | none ↦ s
    | some user ↦
        if user.is_active
        then s
        else queue_activation user (record { username = user.username; email = user.email }) f now s
  ]

  unfoldable pub resend_activation : String → Fresh → ℕ → Accounts p → Accounts p
  unfolding resend_allowed
  resend_activation email f now s =
      let (cache, allowed) =
        p.cache_set_nx (resend_key email) p.one c.activation_resend_cooldown_seconds now s.cache in
      let s' : Accounts p = record { users = s.users; outbox = s.outbox; cache = cache } in
      if allowed then resend_allowed email f now s' else s'
