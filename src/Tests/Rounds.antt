-- ===== src/Tests/Rounds.antt =====
-- Rounds of claim, send and finalize at concrete rows, and the outbox's sweep.
use family_inventory.Prelude.{ℕ, ◌≡◌, refl, none, some, [], arith}
use family_inventory.Prelude.Table
use family_inventory.Notifications.Types.{NotificationChannel, DeliveryStatus}
use family_inventory.Notifications.Errors.{Exception, ExceptionClass}
use family_inventory.Notifications.Delivery.{
  NotificationDelivery, DeliverySendResult, key, is_claimable, is_ready,
}
use family_inventory.Notifications.Delivery.Send.{Sender, Senders, failure_result}
use family_inventory.Notifications.Delivery.Round.{deliver, deliver_sends}
use family_inventory.Tests.Rows.{waiting, rows, rows-IsKeyed, claim}

abbrev timeout : Exception
timeout = record {
  exception_class = ExceptionClass.other_error;
  type_name = "TimeoutError";
  message = "no answer";
}

abbrev working : Sender
working i recipient subject message headers = none

abbrev broken : Sender
broken i recipient subject message headers = some timeout

abbrev mail : Sender → Senders
mail s NotificationChannel.email = some s
mail s _ = none

abbrev clock : ℕ → ℕ
clock i = 130

abbrev fails : NotificationDelivery → DeliverySendResult
fails = failure_result timeout clock

fails_named : (d : NotificationDelivery) → (fails d).delivery_id ≡ d.id
unfolding failure_result
fails_named d = refl

deliver_sends_example :
    Table.get key 1 (deliver (mail working) clock "s" "m" [] claim rows)
    ≡ some (record waiting {
      status = DeliveryStatus.sent;
      attempt_count = 1;
      last_attempt_at = some 100;
    })
unfolding is_claimable is_ready
deliver_sends_example =
    deliver_sends (mail working) clock "s" "m" [] claim rows 1 waiting working rows-IsKeyed
      (omega arith) refl refl refl refl
