-- ===== src/Tests/Rows.antt =====
-- Rows that the tests share.
use family_inventory.Prelude.{ℕ, refl, Bool, false, none, some, [], ◌∷◌}
use family_inventory.Prelude.Table
use family_inventory.Notifications.Types.{
  NotificationChannel, NotificationRecipientType, DeliveryStatus,
}
use family_inventory.Notifications.Delivery.{NotificationDelivery, Deliveries, Claim, key}

-- a new delivery of event 7
abbrev pub waiting : NotificationDelivery
waiting = record {
  id = 1;
  event_id = 7;
  recipient_type = NotificationRecipientType.email;
  recipient = "a@b.c";
  channel = NotificationChannel.email;
  status = DeliveryStatus.pending;
  attempt_count = 0;
  max_attempts = 5;
  next_retry_at = none;
  last_attempt_at = none;
  last_error = none;
  context = [];
  locked_by = none;
  locked_at = none;
  lock_expires_at = none;
  created_at = 10;
}

-- a younger delivery, held by worker 4 until 200
abbrev pub held : NotificationDelivery
held = record waiting {
  id = 2;
  status = DeliveryStatus.sending;
  attempt_count = 1;
  locked_by = some 4;
  locked_at = some 80;
  lock_expires_at = some 200;
  created_at = 20;
}

abbrev pub sent : NotificationDelivery
sent = record waiting { id = 3; status = DeliveryStatus.sent; attempt_count = 1; created_at = 30 }

-- a delivery that has failed as often as it may
abbrev pub exhausted : NotificationDelivery
exhausted = record waiting {
  id = 4;
  status = DeliveryStatus.failed;
  attempt_count = 5;
  created_at = 40;
}

-- a second new delivery
abbrev pub later : NotificationDelivery
later = record waiting { id = 5; created_at = 50 }

abbrev pub rows : Deliveries
rows = waiting ∷ held ∷ sent ∷ exhausted ∷ later ∷ []

pub rows-IsKeyed : Table.IsKeyed key rows
rows-IsKeyed = (refl, (refl, (refl, (refl, (refl, tt)))))

abbrev pub free : ℕ → Bool
free i = false

-- worker 9 at 100
abbrev pub claim : Claim
claim = record { event_id = 7; now = 100; worker_id = 9; claim_limit = 10; locked = free }

abbrev pub claim_of_one : Claim
claim_of_one = record claim { claim_limit = 1 }
