-- ===== src/Notifications/Subscription/Service.antt =====
-- The subscriptions of a user: app/apis/notifications/services/subscription.py and
-- repository/subscription_repository.py (create, get, delete, list_for_user, upsert_subscription).
use family_inventory.Prelude.{
  ℕ, String, Bool, true, not, ◌&&◌, ◌||◌, Option, none, some, List, ◌∷◌, ◌==◌, str_eq,
  if◌then◌else◌, exists, select, sort_by,
}
use family_inventory.Prelude.Table
use family_inventory.Notifications.Types.{NotificationChannel, channel_eq}
use family_inventory.Notifications.Subscription.{NotificationSubscription}
use family_inventory.Notifications.Errors.{Exception}
use family_inventory.Notifications.Result.{Result, ok, ◌>>=◌, ◌>>◌}
use family_inventory.Homes.Members.{Homes, raise, require, required}
use family_inventory.Households.{user_has_access}

abbrev pub Subscriptions : Type 0
Subscriptions = List NotificationSubscription

abbrev pub key : NotificationSubscription → ℕ
key r = r.id

-- the columns of uq_notification_subscription_target
abbrev pub same_target : NotificationSubscription → NotificationSubscription → Bool
same_target a b =
    (b.home_id == a.home_id && b.user_id == a.user_id)
    && (str_eq b.topic a.topic && channel_eq b.channel a.channel)

pub record SubscriptionCreateRequest : Type 0 where
  pub home_id : ℕ
  pub topic : String
  pub channel : NotificationChannel
  pub enabled : Bool

-- none for a field that is left out or null
pub record SubscriptionUpdate : Type 0 where
  pub topic : Option String
  pub channel : Option NotificationChannel
  pub enabled : Option Bool

abbrev pub domain_error : String → String → Exception
domain_error = raise

abbrev pub duplicate : Exception
duplicate = raise "DomainConflictError" "SUBSCRIPTION_DUPLICATE"

abbrev pub not_found : Exception
not_found = raise "DomainNotFoundError" "SUBSCRIPTION_NOT_FOUND"

abbrev pub not_allowed : Exception
not_allowed = raise "DomainPermissionError" "SUBSCRIPTION_FORBIDDEN"

abbrev pub no_access : Exception
no_access = raise "DomainPermissionError" "HOME_PERMISSION_DENIED"

abbrev pub new_subscription : ℕ → ℕ → SubscriptionCreateRequest → NotificationSubscription
new_subscription new_id user_id req = record {
  id = new_id;
  home_id = req.home_id;
  user_id = user_id;
  topic = req.topic;
  channel = req.channel;
  enabled = req.enabled;
  target = record { email = none; phone = none };
}

abbrev in_home : Option ℕ → NotificationSubscription → Bool
in_home none r = true
in_home (some h) r = r.home_id == h

-- `list_my_subscriptions`; `le` is the order of topics in the database.
unfoldable pub list_my_subscriptions :
    (NotificationSubscription → NotificationSubscription → Bool)
    → ℕ
    → Option ℕ
    → Subscriptions
    → Subscriptions
list_my_subscriptions le user_id home_id t =
    sort_by le (select (λ r. r.user_id == user_id && in_home home_id r) t)

-- `create_subscription`; the flush raises if the id or the target is taken.
unfoldable pub create_subscription :
    ℕ → ℕ → SubscriptionCreateRequest → Homes → Subscriptions → Result Subscriptions
create_subscription new_id user_id req homes t = do
  require no_access (user_has_access user_id req.home_id homes)
  require duplicate
      (not (Table.has key new_id t || exists (same_target (new_subscription new_id user_id req)) t))
  ok (new_subscription new_id user_id req ∷ t)

abbrev or_old : {A : Type 0} → Option A → A → A
or_old none old = old
or_old (some v) old = v

abbrev pub changed : SubscriptionUpdate → NotificationSubscription → NotificationSubscription
changed req r = record r {
  topic = or_old req.topic r.topic;
  channel = or_old req.channel r.channel;
  enabled = or_old req.enabled r.enabled;
}

-- another row has the target
abbrev pub is_taken : NotificationSubscription → Subscriptions → Bool
is_taken v t = exists (λ r. not (r.id == v.id) && same_target v r) t

unfoldable pub update_subscription :
    ℕ → ℕ → SubscriptionUpdate → Homes → Subscriptions → Result Subscriptions
update_subscription user_id subscription_id req homes t = do
  sub ← required not_found (Table.get key subscription_id t)
  require not_allowed (sub.user_id == user_id)
  require no_access (user_has_access user_id sub.home_id homes)
  require duplicate (not (is_taken (changed req sub) t))
  ok (Table.update (λ r. r.id == subscription_id) (changed req) t)

-- `delete_subscription` once it has its row
abbrev pub delete_found :
    ℕ → ℕ → NotificationSubscription → Homes → Subscriptions → Result Subscriptions
delete_found user_id subscription_id sub homes t = do
  require not_allowed (sub.user_id == user_id)
  require no_access (user_has_access user_id sub.home_id homes)
  ok (select (λ r. not (r.id == subscription_id)) t)

unfoldable pub delete_subscription : ℕ → ℕ → Homes → Subscriptions → Result Subscriptions
delete_subscription user_id subscription_id homes t = elim (Table.get key subscription_id t) [
  | none ↦ ok t
  | some sub ↦ delete_found user_id subscription_id sub homes t
]

-- `upsert_subscription`: ON CONFLICT DO UPDATE of `enabled`.
unfoldable pub upsert_subscription :
    ℕ → ℕ → SubscriptionCreateRequest → Subscriptions → Subscriptions
upsert_subscription new_id user_id req t =
    let v = new_subscription new_id user_id req in
    if exists (same_target v) t
    then Table.update (same_target v) (λ r. record r { enabled = req.enabled }) t
    else v ∷ t
