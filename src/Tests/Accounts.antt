-- ===== src/Tests/Accounts.antt =====
-- Accounts at concrete rows, with a small platform that meets what is assumed of the real one.
use Prim.Native.String.{◌∷◌ as char_cons}
use family_inventory.Prelude.{
  ℕ, ◌+◌, ◌≡◌, refl, String, Bool, true, false, Option, none, some, List, [], ◌∷◌, arith, str_eq,
  eq_refl, ltb, is_none, if◌then◌else◌,
}
use family_inventory.Notifications.Result.{ok, err}
use family_inventory.Users.{
  User, UserBase, Settings, Platform, Fresh, Accounts, clashes, with_users, save,
  verify_activation_token,
}
use family_inventory.Users.Activation.{
  resend_activation, register_user, create_user, resend_allowed, queue_activation, is_replaced,
  activated, invalid_activation_token,
}
use family_inventory.Users.Auth.{
  request_password_reset, Signer, JwtPayload, Decoded, login, get_current_user, reset_password,
  with_password, invalid_reset_token,
}
use family_inventory.Homes.Members.{required, require}
use family_inventory.Users.Requests.{
  Request, registers, activates, asks_reset, cleans, serve, serve_all,
}
use family_inventory.Users.Unique.{IsUnique, serve_all-IsUnique}
use family_inventory.Users.Active.{StaysActive, active_user_stays}
use family_inventory.Users.Life.{Next, phase, account_refines}
use family_inventory.Users.Links.{registered_user_logs_in}
use family_inventory.Users.Refused.{used_link_refused, resend_replaces}
use family_inventory.Users.Reset.{reset_logs_in, reset_once}
use family_inventory.Users.Kept.{cleaned, cleanup_keeps_links}
use family_inventory.Tests.Ids.{tally, parse, count-tally, tally_full}

abbrev Entry : Type 0
Entry = String × (Option UserBase × ℕ)

read : String → ℕ → List Entry → Option (Option UserBase)
read k t [] = none
read k t ((j, (v, e)) ∷ s) = if str_eq j k then (if ltb t e then some v else none) else read k t s

abbrev write : String → Option UserBase → ℕ → ℕ → List Entry → List Entry
write k v ttl now s = (k, (v, now + ttl)) ∷ s

write_nx : String → Option UserBase → ℕ → ℕ → List Entry → List Entry × Bool
unfolding read
write_nx k v ttl now s = if is_none (read k now s) then (write k v ttl now s, true) else (s, false)

platform : Platform
unfolding read write_nx tally parse
platform = record {
  Store = List Entry;
  Text = Option UserBase;
  is_empty = is_none;
  one = none;
  cache_get = read;
  cache_set = write;
  cache_set_nx = write_nx;
  dump_json = λ u. some u;
  load_json = λ v. v;
  digest = λ s. s;
  crypt_hash = λ salt password. password;
  crypt_verify = str_eq;
  truncated = λ s. s;
  normalized = λ s. s;
  str_id = λ i. char_cons "|" (tally i);
  parse_id = parse;
  str_number = tally;
  quote = λ s. s;
  get-set = λ k v ttl now t s h. ground (arith, eq_refl k, h);
  get-set_ne = λ j k v ttl now t s e. rw e refl;
  nx_free = λ k v ttl now s e. rw (write_nx, e) refl;
  nx_taken = λ k v w ttl now s e. rw (write_nx, e) refl;
  load-dump = λ u. refl;
  dump_full = λ u. refl;
  parse-str = λ i. rw (count-tally i) refl;
  str_full = tally_full;
  verify-hash = λ salt password. eq_refl password;
}

signer : Signer
signer = record {
  Token = JwtPayload;
  is_blank = λ t. false;
  encode = λ claims. claims;
  decode = λ now claims. Decoded.payload claims;
  decode-encode = λ now claims h. refl;
}

abbrev settings : Settings
settings = record {
  public_base_url = "http://localhost";
  access_token_expire_minutes = 30;
  password_reset_expire_minutes = 30;
  password_reset_cooldown_seconds = 60;
  activation_token_expire_minutes = 30;
  activation_resend_cooldown_seconds = 60;
  unactivated_user_retention_days = 7;
}

abbrev bea : UserBase
bea = record { username = "bea"; email = "bea@b.c" }

abbrev drawn : Fresh
drawn = record {
  user_id = 2;
  event_id = 20;
  outbox_id = 21;
  token = "aaaaaaaaaaaaaaaaaaaaaaaa";
  secret = "s";
  salt = "x";
}

abbrev ann : User
ann = record {
  id = 1;
  username = "ann";
  email = "ann@b.c";
  hashed_password = "old1";
  is_active = true;
  is_admin = false;
  password_reset_hash = some "rrr";
  password_reset_expires_at = some 5000;
  activation_token_hash = some "ttt";
  activation_expires_at = some 1000;
  created_at = 5;
}

abbrev cal : User
cal = record ann {
  id = 3;
  username = "cal";
  email = "cal@b.c";
  is_active = false;
  password_reset_hash = none;
  activation_expires_at = some 5000;
}

abbrev cal_base : UserBase
cal_base = record { username = "cal"; email = "cal@b.c" }

state : Accounts platform
unfolding platform
state = record {
  users = ann ∷ cal ∷ [];
  outbox = [];
  cache =
      ("activation:ttt", (some cal_base, 9000))
      ∷ ("activation:old", (some (record { username = "ann"; email = "ann@b.c" }), 9000))
      ∷ [];
}

unique : IsUnique state.users
unfolding IsUnique clashes state
unique = (refl, (refl, tt))

requests : List (ℕ × Request)
requests =
    (1000, registers bea [] drawn)
    ∷ (1010, activates "aaaaaaaaaaaaaaaaaaaaaaaa" "new1" "y")
    ∷ (1020, asks_reset "ann@b.c" drawn)
    ∷ (1030, cleans)
    ∷ []

serve_all-IsUnique_example : IsUnique (serve_all platform settings requests state).users
serve_all-IsUnique_example = serve_all-IsUnique platform settings requests state unique

active_user_stays_example : StaysActive 1 ann (serve_all platform settings requests state).users
unfolding state
active_user_stays_example =
    active_user_stays platform settings requests 1 ann state unique refl refl

account_refines_example :
    Next
      (phase 1 state.users)
      (phase 1 (serve platform settings 1000 (registers bea [] drawn) state).users)
account_refines_example =
    account_refines platform settings 1 1000 (registers bea [] drawn) state unique

registered_user_logs_in_example :
    (s1 s2 : Accounts platform) × (token : signer.Token) × (u : User) × (register_user platform
        settings bea state.users drawn 1000 state
      ≡ ok s1)
    × (create_user platform settings drawn.token "new1" "y" 1900 s1 ≡ ok s2)
    × (login platform settings signer "bea@b.c" "new1" "j" 2000 s2 ≡ ok token)
    × (get_current_user platform settings signer token 2100 s2.users ≡ ok u)
    × (u.username ≡ "bea")
    × (u.email ≡ "bea@b.c")
    × (u.is_admin ≡ false)
unfolding state clashes platform
registered_user_logs_in_example =
    registered_user_logs_in platform settings signer bea drawn "y" "new1" "j" 1000 1900 2000 2100
      state refl (omega arith) (omega arith) refl

used_link_refused_example :
    create_user platform settings "old" "new1" "y" 2000 (serve_all platform settings [] state)
    ≡ err invalid_activation_token
unfolding state platform verify_activation_token serve_all read
used_link_refused_example =
    used_link_refused platform settings [] 1 ann state "old" "new1" "y" 2000
      (some (record { username = "ann"; email = "ann@b.c" }))
      (record { username = "ann"; email = "ann@b.c" }) unique refl refl refl refl refl

resend_replaces_example :
    create_user platform settings "ttt" "new1" "y" 2000
      (resend_activation platform settings "cal@b.c" drawn 1500 state)
    ≡ err invalid_activation_token
unfolding state platform verify_activation_token resend_activation resend_allowed queue_activation
    read write_nx
resend_replaces_example =
    resend_replaces platform settings drawn cal state 1500 2000 "ttt" "new1" "y" (some cal_base)
      cal_base refl refl refl refl refl refl

reset_logs_in_example :
    (s' : Accounts platform) × (token : signer.Token) × (reset_password platform settings
        drawn.token "new1" "y" 2000
        (request_password_reset platform settings "ann@b.c" drawn 1500 state)
      ≡ ok s')
    × (login platform settings signer "ann@b.c" "new1" "j" 2100 s' ≡ ok token)
unfolding state platform read
reset_logs_in_example =
    reset_logs_in platform settings signer "ann@b.c" drawn "new1" "y" "j" 1500 2000 2100 state ann
      unique refl refl refl refl (omega arith) refl

reset_once_example :
    reset_password platform settings "rrr" "third1" "z" 2010
      (with_users platform (save (with_password platform settings "new1") ann state.users) state)
    ≡ err invalid_reset_token
unfolding state platform reset_password required require
reset_once_example =
    reset_once platform settings "rrr" "new1" "y" "third1" "z" 2000 2010 state
      (with_users platform (save (with_password platform settings "new1") ann state.users) state)
      (omega arith) refl

cleanup_keeps_links_example :
    (s : Accounts platform) × (create_user platform settings "ttt" "new1" "y" 2000
        (cleaned platform settings 2000 state)
      ≡ ok s)
unfolding state platform create_user required require is_replaced verify_activation_token read
cleanup_keeps_links_example =
    cleanup_keeps_links platform settings "ttt" "new1" "y" 2000 state
      (with_users platform (save (activated platform settings "new1") cal state.users) state)
      (refl, (refl, tt)) refl
