-- ===== src/Users.antt =====
-- The accounts and what they stand on: app/apis/users/models.py, queries.py and repository.py,
-- utils.py, app/iam/password_service.py and app/iam/token_service.py, app/core/redis/service.py.
-- Times are seconds.
pub mod Activation
pub mod Auth
pub mod Cleanup
pub mod Requests
pub mod Steps
pub mod Unique
pub mod Life
pub mod Active
pub mod Links
pub mod Refused
pub mod Reset
pub mod Quiet
pub mod Kept
use Prim.Native.String.{◌++◌ as append}
use family_inventory.Prelude.{
  ℕ, ◌+◌, ◌*◌, ◌<◌, ◌≡◌, String, Bool, true, false, ◌||◌, Option, none, some, List, [], ◌∷◌, ◌==◌,
  str_eq, if◌then◌else◌, exists, select,
}
use family_inventory.Prelude.Table
use family_inventory.Notifications.Outbox.{Outbox, NotificationOutbox}
use family_inventory.Notifications.Result.{Result, ok, err}
use family_inventory.Homes.Members.{find, raise}

pub record User : Type 0 where
  pub id : ℕ
  pub username : String
  pub email : String
  pub hashed_password : String
  pub is_active : Bool
  pub is_admin : Bool
  pub password_reset_hash : Option String
  pub password_reset_expires_at : Option ℕ
  pub activation_token_hash : Option String
  pub activation_expires_at : Option ℕ
  pub created_at : ℕ

pub record UserBase : Type 0 where
  pub username : String
  pub email : String

abbrev pub Users : Type 0
Users = List User

-- settings
pub record Settings : Type 0 where
  pub public_base_url : String
  pub access_token_expire_minutes : ℕ
  pub password_reset_expire_minutes : ℕ
  pub password_reset_cooldown_seconds : ℕ
  pub activation_token_expire_minutes : ℕ
  pub activation_resend_cooldown_seconds : ℕ
  pub unactivated_user_retention_days : ℕ

-- What the accounts use of packages and services, with the documented behaviour that is relied on:
-- Redis (GET, SET with EX and with NX, at a time), pydantic's JSON of a UserBase, SHA-256, passlib's
-- hash (with its salt) and verify, the first 72 bytes of a password as text, and texts of values and
-- of ids (`UUID(text)` reads them back).
pub record Platform : Type 1 where
  pub Store : Type 0
  pub Text : Type 0
  pub is_empty : Text → Bool
  pub one : Text
  pub cache_get : String → ℕ → Store → Option Text
  pub cache_set : String → Text → ℕ → ℕ → Store → Store
  pub cache_set_nx : String → Text → ℕ → ℕ → Store → Store × Bool
  pub dump_json : UserBase → Text
  pub load_json : Text → Option UserBase
  pub digest : String → String
  pub crypt_hash : String → String → String
  pub crypt_verify : String → String → Bool
  pub truncated : String → String
  pub normalized : String → String
  pub str_id : ℕ → String
  pub parse_id : String → Option ℕ
  pub str_number : ℕ → String
  pub quote : String → String
  pub get-set :
      (k : String) (v : Text) (ttl now t : ℕ) (s : Store)
      → t < now + ttl
      → cache_get k t (cache_set k v ttl now s) ≡ some v
  pub get-set_ne :
      (j k : String) (v : Text) (ttl now t : ℕ) (s : Store)
      → str_eq k j ≡ false
      → cache_get j t (cache_set k v ttl now s) ≡ cache_get j t s
  pub nx_free :
      (k : String) (v : Text) (ttl now : ℕ) (s : Store)
      → cache_get k now s ≡ none
      → cache_set_nx k v ttl now s ≡ (cache_set k v ttl now s, true)
  pub nx_taken :
      (k : String) (v w : Text) (ttl now : ℕ) (s : Store)
      → cache_get k now s ≡ some w
      → cache_set_nx k v ttl now s ≡ (s, false)
  pub load-dump : (u : UserBase) → load_json (dump_json u) ≡ some u
  pub dump_full : (u : UserBase) → is_empty (dump_json u) ≡ false
  pub parse-str : (i : ℕ) → parse_id (str_id i) ≡ some i
  pub str_full : (i : ℕ) → str_eq (str_id i) "" ≡ false
  pub verify-hash :
      (salt password : String) → crypt_verify password (crypt_hash salt password) ≡ true

-- `get_by_username`; a username is unique, so the first row is the only one.
abbrev pub get_by_username : String → Users → Option User
get_by_username username t = find (λ r. str_eq r.username username) t

-- `get_by_email`
abbrev pub get_by_email : String → Users → Option User
get_by_email email t = find (λ r. str_eq r.email email) t

abbrev pub key : User → ℕ
key r = r.id

-- `get_by_id`
abbrev pub get_by_id : ℕ → Users → Option User
get_by_id i t = Table.get key i t

-- `column == value`, false for NULL
abbrev pub equals : String → Option String → Bool
equals v none = false
equals v (some w) = str_eq w v

abbrev has_activation_hash : String → User → Bool
has_activation_hash token_hash r = equals token_hash r.activation_token_hash

-- `scalar_one_or_none`
unfoldable pub at_most_one : Users → Result (Option User)
at_most_one [] = ok none
at_most_one (r ∷ []) = ok (some r)
at_most_one (r ∷ q ∷ t) = err (raise "MultipleResultsFound" "")

-- `get_by_activation_token_hash`; the column is not unique.
abbrev pub get_by_activation_token_hash : String → Users → Result (Option User)
get_by_activation_token_hash token_hash t = at_most_one (select (has_activation_hash token_hash) t)

-- `select(User).where(User.password_reset_hash == digest)`
abbrev pub get_by_reset_hash : String → Users → Option User
get_by_reset_hash token_hash t = find (λ r. equals token_hash r.password_reset_hash) t

-- The id, the username or the email stands in another row.
unfoldable pub clashes : User → User → Bool
clashes u r = r.id == u.id || (str_eq r.username u.username || str_eq r.email u.email)

-- `create`: none if a unique constraint refuses the row.
unfoldable pub create : User → Users → Option Users
create u t = if exists (clashes u) t then none else some (u ∷ t)

-- The attributes of one user, written on flush.
abbrev pub save : (User → User) → User → Users → Users
save f user t = Table.update (λ r. r.id == user.id) f t

-- What a call draws: ids by uuid4, tokens by `secrets`, and passlib's salt.
pub record Fresh : Type 0 where
  pub user_id : ℕ
  pub event_id : ℕ
  pub outbox_id : ℕ
  pub token : String
  pub secret : String
  pub salt : String

module _ (p : Platform) where
  pub record Accounts : Type 0 where
    pub users : Users
    pub outbox : Outbox
    pub cache : p.Store

  abbrev pub with_users : Users → Accounts → Accounts
  with_users t s = record { users = t; outbox = s.outbox; cache = s.cache }

  -- `PasswordService.hash`: the text of at most 72 bytes is hashed. A password is taken to have no NUL
  -- character, for which passlib raises.
  abbrev pub hash_password : String → String → String
  hash_password salt password = p.crypt_hash salt (p.truncated password)

  -- `PasswordService.verify`
  abbrev pub verify_password : String → String → Bool
  verify_password password hashed = p.crypt_verify password hashed

  abbrev pub activation_key : String → String
  activation_key token = append "activation:" token

  -- the store after `create_activation_token`, which returns the token drawn
  abbrev pub create_activation_token : Settings → String → UserBase → ℕ → p.Store → p.Store
  create_activation_token c token user_data now cache =
      p.cache_set (activation_key token) (p.dump_json user_data)
        (c.activation_token_expire_minutes * 60) now cache

  -- `verify_activation_token`; none for its ValueError
  unfoldable pub verify_activation_token : String → ℕ → p.Store → Option p.Text
  verify_activation_token token now cache = elim (p.cache_get (activation_key token) now cache) [
    | none ↦ none
    | some user_data ↦ if p.is_empty user_data then none else some user_data
  ]
