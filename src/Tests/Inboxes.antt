-- ===== src/Tests/Inboxes.antt =====
-- The inbox and the subscriptions of users at concrete rows.
use family_inventory.Prelude.{
  ℕ, ◌≡◌, refl, String, true, false, none, some, List, [], ◌∷◌, str_eq, if◌then◌else◌,
}
use family_inventory.Notifications.Headers.{Value, text}
use family_inventory.Notifications.Result.{ok}
use family_inventory.Notifications.Types.{NotificationChannel}
use family_inventory.Homes.Members.{Homes, owner, guest, require, required}
use family_inventory.Notifications.Inbox.{
  InAppNotification, Texts, Sending, send_in_app, ids_of, insert_row,
}
use family_inventory.Notifications.Inbox.Stored.{in_app_again}
use family_inventory.Notifications.Subscription.{NotificationSubscription}
use family_inventory.Notifications.Subscription.Service.{
  SubscriptionCreateRequest, SubscriptionUpdate, new_subscription,
}
use family_inventory.Notifications.Subscription.Own.{Request, IsUnique, creates, updates, deletes}
use family_inventory.Notifications.Subscription.Runs.{handle_all, of_user, subscriptions_are_own}

abbrev show : Value → String
show (text s) = s
show _ = ""

texts : Texts
texts = record { parse_id = λ s. if str_eq s "" then none else some 1; str = show }

abbrev sending : Sending
sending = record {
  recipient = "1";
  subject = some "Milk";
  message = "Milk expires";
  headers = ("event_id", text "1") ∷ ("home_id", text "1") ∷ [];
  new_id = 50;
  now = 8;
}

abbrev unread : InAppNotification
unread = record {
  id = 50;
  event_id = 1;
  user_id = 1;
  home_id = 1;
  subject = some "Milk";
  message = "Milk expires";
  read_at = none;
  created_at = 8;
}

abbrev of_bob : InAppNotification
of_bob = record unread { id = 51; user_id = 2 }

in_app_again_example :
    send_in_app texts (record sending { new_id = 60; now = 20 }) (unread ∷ [])
    ≡ ok (unread ∷ [], "stored")
unfolding texts send_in_app ids_of insert_row required require
in_app_again_example = in_app_again texts sending 60 20 [] (unread ∷ []) "stored" refl

abbrev homes : Homes
homes = record {
  homes = [];
  members =
      record { user_id = 1; home_id = 3; user_type = owner }
      ∷ record { user_id = 2; home_id = 3; user_type = guest }
      ∷ [];
  users = [];
}

abbrev request : SubscriptionCreateRequest
request = record {
  home_id = 3;
  topic = "inventory.item.expired";
  channel = NotificationChannel.email;
  enabled = true;
}

abbrev off : SubscriptionUpdate
off = record { topic = none; channel = none; enabled = some false }

abbrev of_ann : NotificationSubscription
of_ann = new_subscription 70 1 request

unique : IsUnique (of_ann ∷ [])
unfolding IsUnique
unique = ((refl, refl), tt)

abbrev by_bob : List (ℕ × Request)
by_bob = (2, creates 71 request) ∷ (2, updates 70 off) ∷ (2, deletes 70) ∷ []

subscriptions_are_own_example :
    of_user 1 (handle_all homes by_bob (of_ann ∷ [])) ≡ of_user 1 (of_ann ∷ [])
subscriptions_are_own_example =
    subscriptions_are_own 1 homes by_bob (of_ann ∷ []) unique (refl, (refl, (refl, tt)))
