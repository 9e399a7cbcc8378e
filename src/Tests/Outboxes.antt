-- ===== src/Tests/Outboxes.antt =====
-- The outbox at concrete rows.
use family_inventory.Prelude.{ℕ, ◌≡◌, refl, String, false, none, some, [], ◌∷◌, arith, inl}
use family_inventory.Prelude.Table
use family_inventory.Notifications.Headers.{Value, text}
use family_inventory.Notifications.Errors.{Exception, ExceptionClass}
use family_inventory.Notifications.Outbox.{
  NotificationOutbox, Outbox, StatusWord, literal, key, SendClaim, is_claimable, is_open,
}
use family_inventory.Notifications.Outbox.Sweep.{Broker, sweep_outbox_once}
use family_inventory.Notifications.Outbox.Published.{sweep_publishes}
use family_inventory.Notifications.Outbox.Runs.{claims, claims_one, ensures, run, taken_waits}

abbrev stored : NotificationOutbox
stored = record {
  id = 1;
  event_id = 7;
  topic = "inventory.item.expired";
  payload = [];
  headers = [];
  status = literal StatusWord.pending;
  attempt_count = 0;
  last_error = none;
  next_retry_at = none;
  created_at = 10;
}

-- a row that a publisher has claimed
abbrev claimed : NotificationOutbox
claimed = record stored {
  id = 2;
  event_id = 8;
  status = literal StatusWord.sending;
  attempt_count = 1;
}

abbrev box : Outbox
box = stored ∷ claimed ∷ []

abbrev claim : SendClaim
claim = record { now = 100; limit = 5; max_attempts = 5; locked = λ i. false }

abbrev other : NotificationOutbox
other = record stored { id = 9 }

abbrev str_id : ℕ → String
str_id i = "id"

abbrev str : Value → String
str (text s) = s
str _ = "?"

abbrev down : Exception
down = record {
  exception_class = ExceptionClass.other_error;
  type_name = "ConnectionError";
  message = "down";
}

abbrev up_broker : Broker
up_broker i e = none

abbrev down_broker : Broker
down_broker i e = some down

abbrev clock : ℕ → ℕ
clock i = 130

box-IsKeyed : Table.IsKeyed key box
box-IsKeyed = (refl, (refl, tt))

sweep_publishes_example :
    Table.get key 1 (sweep_outbox_once str_id str up_broker clock claim box).0
    ≡ some (record stored { status = literal StatusWord.sent; attempt_count = 1 })
unfolding is_claimable is_open
sweep_publishes_example =
    sweep_publishes str_id str up_broker clock claim box 1 stored box-IsKeyed (omega arith) refl
      refl refl

taken_waits_example :
    Table.get key 2 (run (claims claim ∷ claims_one 2 100 5 ∷ ensures other ∷ []) box)
    ≡ some claimed
taken_waits_example =
    taken_waits 2 claimed (inl refl) (claims claim ∷ claims_one 2 100 5 ∷ ensures other ∷ []) box
      box-IsKeyed refl (tt, (tt, (tt, tt)))
