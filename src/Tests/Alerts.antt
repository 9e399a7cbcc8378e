-- ===== src/Tests/Alerts.antt =====
-- Alerts and expiry events at concrete items.
use family_inventory.Jobs.Expiry.{Run, State, rows_of, publish_and_mark}
use family_inventory.Jobs.Expiry.Drained.{job_drains}
use Prim.Native.String.{[], ◌∷◌}
use family_inventory.Notifications.Outbox.Sweep.{EventEnvelope}
use family_inventory.Notifications.Errors.{Exception}
use family_inventory.Prelude.{
  ℕ, ◌-◌, str_eq, ◌≡◌, refl, String, false, Option, none, some, [], ◌∷◌, arith, inl,
}
use family_inventory.Prelude.Table
use family_inventory.Prelude.Integers.{pos}
use family_inventory.Tests.Ids.{tally, parse, count-tally, tally_full}
use family_inventory.Notifications.Headers.{Value, text, int}
use family_inventory.Notifications.Result.{ok}
use family_inventory.Notifications.Outbox.{NotificationOutbox, StatusWord, literal, key}
use family_inventory.Inventory.Alerts.{
  InventoryItem, InventoryExpiryAlert, expired, Registration, Fetch,
}
use mathlib.Core.List.{Memᴰ}
use family_inventory.Inventory.Expiry.{
  Outside, Attempt, event_id_of, build_outbox_row, publish_expiry_event,
}
use family_inventory.Inventory.Expiry.Published.{
  expiry_published, expiry_not_repeated, sent, answered,
}

abbrev milk : InventoryItem
milk = record { id = 1; home_id = 3; product_name = "Milk"; expiry_date = some 90; created_at = 5 }

abbrev rice : InventoryItem
rice = record { id = 2; home_id = 3; product_name = "Rice"; expiry_date = some 300; created_at = 6 }

abbrev published : InventoryExpiryAlert
published = record {
  id = 31;
  inventory_item_id = 1;
  alert_type = expired;
  alert_date = 95;
  published_at = some 9000;
  publish_attempts = 1;
  last_publish_error = none;
}

abbrev fresh : InventoryExpiryAlert
fresh = record published { id = 32; alert_date = 100; published_at = none; publish_attempts = 2 }

abbrev registration : Registration
registration = record {
  alert_type = expired;
  today = 100;
  days = 7;
  home_id = none;
  limit = 100;
  new_id = λ i. 50;
}

abbrev fetch : Fetch
fetch = record {
  alert_type = some expired;
  home_id = none;
  limit = 500;
  max_attempts = 5;
  locked = λ i. false;
  locked_item = λ i. false;
}

abbrev show : Value → String
show (text s) = s
show _ = "?"

abbrev broker : EventEnvelope → Option Exception
broker e = none

outside : Outside
unfolding tally parse
outside = record {
  str_id = λ i. "|" ∷ tally i;
  str = show;
  isoformat = tally;
  parse_id = parse;
  uuid5 = λ s. 7;
  days_between = λ a b. int (pos (a - b));
  new_id = 60;
  publish = broker;
}

ids : (i : ℕ) → outside.parse_id (outside.str (text (outside.str_id i))) ≡ some i
unfolding outside tally parse
ids i = rw (count-tally i) refl

shown : (i : ℕ) → str_eq (outside.str_id i) "" ≡ false
unfolding outside
shown i = tally_full i

expiry_published_example :
    (a : Attempt) × (publish_expiry_event outside milk expired 100 8000 5 [] ≡ ok a)
    × (a.tried ≡ some (sent outside ids shown milk expired 100 8000 5 90 refl))
    × (Table.get key 60 a.outbox
        ≡ some (answered outside ids shown milk expired 100 8000 5 90 refl))
unfolding outside event_id_of build_outbox_row
expiry_published_example =
    expiry_published outside ids shown milk expired 100 8000 5 90 refl [] (omega arith) refl

-- the event's row, after it was sent
abbrev done : NotificationOutbox
done = record {
  id = 61;
  event_id = 7;
  topic = "inventory.item.expired";
  payload = [];
  headers = [];
  status = literal StatusWord.sent;
  attempt_count = 1;
  last_error = none;
  next_retry_at = none;
  created_at = 7000;
}

expiry_not_repeated_example :
    (a : Attempt) × (publish_expiry_event outside milk expired 100 8000 5 (done ∷ []) ≡ ok a)
    × (a.tried ≡ none)
    × (Table.get key 61 a.outbox ≡ some done)
unfolding outside event_id_of
expiry_not_repeated_example =
    expiry_not_repeated outside ids shown milk expired 100 8000 5 90 refl (done ∷ []) done refl refl
      (inl refl)

-- a run of the job in which no call is cut off
abbrev run : Run
run = record {
  outside = outside;
  today = 100;
  now = 8000;
  limit = 100;
  days = 7;
  items = milk ∷ rice ∷ [];
  new_id = λ i. 50;
  cut_off = λ i. none;
}

abbrev state : State
state = record { alerts = published ∷ fresh ∷ []; outbox = [] }

job_drains_example : rows_of run expired (publish_and_mark run expired 100 state).0 ≡ []
job_drains_example = job_drains run expired 100 state (omega arith)
