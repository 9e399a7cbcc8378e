-- ===== src/Notifications/Delivery.antt =====
-- Delivery rows and what the worker does with them: app/apis/notifications/models.py
-- (NotificationDelivery) and app/apis/notifications/worker/handlers.py (claim, send, finalize).
-- Ids and worker ids are only compared, so they are numbers; a time is a number of seconds. The
-- column updated_at decides nothing and is left out.
mod Backoff
pub mod Send
pub mod Round
pub mod Free
pub mod Claims
pub mod Settles
pub mod Lease
pub mod Reach
pub use Backoff.{backoff_bounds, backoff_doubles}
unfoldable pub use Backoff.{backoff_minutes, next_retry_at}
use family_inventory.Prelude.{
  ℕ, ◌+◌, String, Bool, true, false, not, ◌&&◌, ◌||◌, Option, none, some, List, [], ◌∷◌, ltb, leb,
  ◌==◌, is_none, if◌then◌else◌, length, select,
}
use family_inventory.Prelude.Table
use family_inventory.Prelude.Table.Results.{last}
use family_inventory.Notifications.Types.{
  NotificationChannel, NotificationRecipientType, DeliveryStatus, is_pending, is_sending, is_failed,
}
use family_inventory.Notifications.Headers.{Headers}

pub record NotificationDelivery : Type 0 where
  pub id : ℕ
  pub event_id : ℕ
  pub recipient_type : NotificationRecipientType
  pub recipient : String
  pub channel : NotificationChannel
  pub status : DeliveryStatus
  pub attempt_count : ℕ
  pub max_attempts : ℕ
  pub next_retry_at : Option ℕ
  pub last_attempt_at : Option ℕ
  pub last_error : Option String
  pub context : Headers
  pub locked_by : Option ℕ
  pub locked_at : Option ℕ
  pub lock_expires_at : Option ℕ
  pub created_at : ℕ

abbrev pub Deliveries : Type 0
Deliveries = List NotificationDelivery

-- the primary key
abbrev pub key : NotificationDelivery → ℕ
key d = d.id

abbrev pub lease_seconds : ℕ
lease_seconds = 120

-- `column <= now`, which is not true of NULL
abbrev pub due_by : Option ℕ → ℕ → Bool
due_by none now = false
due_by (some t) now = leb t now

-- `column < now`
abbrev pub past : Option ℕ → ℕ → Bool
past none now = false
past (some t) now = ltb t now

-- `column = value`
abbrev pub holds : Option ℕ → ℕ → Bool
holds none w = false
holds (some v) w = v == w

-- the or_ of the status in the WHERE
unfoldable pub is_ready : ℕ → NotificationDelivery → Bool
is_ready now d =
    is_pending d.status
    || (is_failed d.status && (is_none d.next_retry_at || due_by d.next_retry_at now))
    || (is_sending d.status && (not (is_none d.lock_expires_at) && past d.lock_expires_at now))

-- The WHERE of the subquery. `locked` are the rows that SKIP LOCKED passes over, since another
-- transaction holds them.
unfoldable pub is_claimable : ℕ → ℕ → (ℕ → Bool) → NotificationDelivery → Bool
is_claimable event_id now locked d =
    d.event_id == event_id
    && (ltb d.attempt_count d.max_attempts && (is_ready now d && not (locked d.id)))

-- ORDER BY created_at
abbrev pub is_older : NotificationDelivery → NotificationDelivery → Bool
is_older a b = leb a.created_at b.created_at

-- the values of the UPDATE
unfoldable pub mark_sending : ℕ → ℕ → NotificationDelivery → NotificationDelivery
mark_sending now worker_id d = record d {
  status = DeliveryStatus.sending;
  locked_by = some worker_id;
  locked_at = some now;
  lock_expires_at = some (now + lease_seconds);
  last_attempt_at = some now;
  attempt_count = d.attempt_count + 1;
}

-- What a query of the claim is about: the event, the time, the worker, the limit and the rows that
-- others have locked.
pub record Claim : Type 0 where
  pub event_id : ℕ
  pub now : ℕ
  pub worker_id : ℕ
  pub claim_limit : ℕ
  pub locked : ℕ → Bool

-- The table after the claim, and the rows that it returns.
unfoldable pub claim_deliveries_to_send : Claim → Deliveries → Deliveries × Deliveries
claim_deliveries_to_send c t =
    let p = is_claimable c.event_id c.now c.locked in
    let f = mark_sending c.now c.worker_id in
    (Table.claim key p is_older c.claim_limit f t, Table.claimed key p is_older c.claim_limit f t)

pub record DeliverySendResult : Type 0 where
  pub delivery_id : ℕ
  pub status : DeliveryStatus
  pub last_error : Option String
  pub next_retry_at : Option ℕ

-- `by_id[i]`: of two results for one delivery the later stands.
abbrev pub result_for : ℕ → List DeliverySendResult → Option DeliverySendResult
result_for = last (λ r. r.delivery_id)

-- the WHERE of the UPDATE: in the ids, held by this worker, still sending
unfoldable pub is_settled : ℕ → List DeliverySendResult → NotificationDelivery → Bool
is_settled worker_id results d =
    not (is_none (result_for d.id results)) && (holds d.locked_by worker_id && is_sending d.status)

-- the values of the UPDATE: the CASE on the id, and the lock cleared
unfoldable pub settle : List DeliverySendResult → NotificationDelivery → NotificationDelivery
settle results d = elim (result_for d.id results) [
  | none ↦ record d { locked_by = none; locked_at = none; lock_expires_at = none }
  | some r ↦ record d {
    status = r.status;
    next_retry_at = r.next_retry_at;
    last_error = r.last_error;
    locked_by = none;
    locked_at = none;
    lock_expires_at = none;
  }
]

-- The table afterwards, and the number of rows updated.
unfoldable pub finalize_delivery_results : ℕ → List DeliverySendResult → Deliveries → Deliveries × ℕ
finalize_delivery_results worker_id [] t = (t, 0)
finalize_delivery_results worker_id (r ∷ rs) t =
    let p = is_settled worker_id (r ∷ rs) in
    (Table.update p (settle (r ∷ rs)) t, length (select p t))
