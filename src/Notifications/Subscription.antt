-- ===== src/Notifications/Subscription.antt =====
-- Subscriptions: app/apis/notifications/models.py (NotificationSubscription) and
-- app/apis/notifications/repository/subscription_repository.py.
mod Topic
pub mod Service
pub mod Own
pub mod Unique
pub mod Runs
pub mod Switch
unfoldable pub use Topic.{wildcard, has_dot, before_last_dot}
pub use Topic.{wildcard-append}
use family_inventory.Prelude.{
  ℕ, String, Bool, ◌&&◌, ◌||◌, Option, List, ltb, leb, ◌==◌, str_eq, select, sort_by,
}
use family_inventory.Notifications.Types.{NotificationChannel}

-- The target is a JSON object that the code reads at `email` and `phone`.
pub record Target : Type 0 where
  pub email : Option String
  pub phone : Option String

pub record NotificationSubscription : Type 0 where
  pub id : ℕ
  pub home_id : ℕ
  pub user_id : ℕ
  pub topic : String
  pub channel : NotificationChannel
  pub enabled : Bool
  pub target : Target

-- The order of the channels in the database's enumeration type.
abbrev pub channel_rank : NotificationChannel → ℕ
channel_rank NotificationChannel.email = 0
channel_rank NotificationChannel.sms = 1
channel_rank NotificationChannel.push = 2
channel_rank NotificationChannel.log = 3
channel_rank NotificationChannel.in_app = 4

-- ORDER BY user_id, channel
abbrev pub is_before : NotificationSubscription → NotificationSubscription → Bool
is_before a b =
    ltb a.user_id b.user_id
    || (a.user_id == b.user_id && leb (channel_rank a.channel) (channel_rank b.channel))

unfoldable pub is_enabled_for : ℕ → String → NotificationSubscription → Bool
is_enabled_for home_id topic s =
    s.home_id == home_id && ((str_eq s.topic topic || str_eq s.topic (wildcard topic)) && s.enabled)

unfoldable pub list_enabled_for_topic :
    ℕ → String → List NotificationSubscription → List NotificationSubscription
list_enabled_for_topic home_id topic t = sort_by is_before (select (is_enabled_for home_id topic) t)
