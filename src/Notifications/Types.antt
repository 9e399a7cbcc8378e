-- ===== src/Notifications/Types.antt =====
-- app/apis/notifications/types.py
use family_inventory.Prelude.{Bool, true, false, String, ◌≡◌, arith}

pub data NotificationChannel : Type 0 where
  email sms push log in_app : NotificationChannel

pub data NotificationSource : Type 0 where
  inventory ui system : NotificationSource

pub data NotificationRecipientType : Type 0 where
  email phone slack_channel in_app_user log : NotificationRecipientType

pub data DeliveryStatus : Type 0 where
  pending sending sent failed dlq : DeliveryStatus

-- the comparisons with one member, as the queries make them
abbrev pub is_pending : DeliveryStatus → Bool
is_pending DeliveryStatus.pending = true
is_pending _ = false

abbrev pub is_sending : DeliveryStatus → Bool
is_sending DeliveryStatus.sending = true
is_sending _ = false

abbrev pub is_failed : DeliveryStatus → Bool
is_failed DeliveryStatus.failed = true
is_failed _ = false

abbrev pub channel_eq : NotificationChannel → NotificationChannel → Bool
channel_eq NotificationChannel.email NotificationChannel.email = true
channel_eq NotificationChannel.sms NotificationChannel.sms = true
channel_eq NotificationChannel.push NotificationChannel.push = true
channel_eq NotificationChannel.log NotificationChannel.log = true
channel_eq NotificationChannel.in_app NotificationChannel.in_app = true
channel_eq _ _ = false

-- the enum's values, which error texts show
abbrev pub channel_value : NotificationChannel → String
channel_value NotificationChannel.email = "email"
channel_value NotificationChannel.sms = "sms"
channel_value NotificationChannel.push = "push"
channel_value NotificationChannel.log = "log"
channel_value NotificationChannel.in_app = "in_app"

abbrev pub recipient_type_eq : NotificationRecipientType → NotificationRecipientType → Bool
recipient_type_eq NotificationRecipientType.email NotificationRecipientType.email = true
recipient_type_eq NotificationRecipientType.phone NotificationRecipientType.phone = true
recipient_type_eq NotificationRecipientType.slack_channel NotificationRecipientType.slack_channel =
    true
recipient_type_eq NotificationRecipientType.in_app_user NotificationRecipientType.in_app_user = true
recipient_type_eq NotificationRecipientType.log NotificationRecipientType.log = true
recipient_type_eq _ _ = false

pub channel_eq→eq : (a b : NotificationChannel) → channel_eq a b ≡ true → a ≡ b
channel_eq→eq a b h = ground arith

pub channel_eq_refl : (a : NotificationChannel) → channel_eq a a ≡ true
channel_eq_refl a = ground arith

pub recipient_type_eq→eq : (a b : NotificationRecipientType) → recipient_type_eq a b ≡ true → a ≡ b
recipient_type_eq→eq a b h = ground arith

pub recipient_type_eq_refl : (a : NotificationRecipientType) → recipient_type_eq a a ≡ true
recipient_type_eq_refl a = ground arith
