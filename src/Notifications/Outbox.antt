-- ===== src/Notifications/Outbox.antt =====
-- The outbox: app/apis/notifications/models.py (NotificationOutbox) and
-- app/apis/notifications/repository/outbox_repository.py. A status is a text; the code compares it
-- with four words in upper case, some after `upper()`, so a status is its word and whether it is
-- spelled in upper case.
pub mod Claims
pub mod Ensure
pub mod Sweep
pub mod Published
pub mod Runs
use family_inventory.Prelude.{
  ℕ, ◌+◌, String, Bool, true, false, not, ◌&&◌, ◌||◌, Option, none, some, List, [], ◌∷◌, ltb, leb,
  ◌==◌, is_none, if◌then◌else◌,
}
use family_inventory.Prelude.Table
use family_inventory.Prelude.Table.Results.{last}
use family_inventory.Notifications.Headers.{Headers}
use family_inventory.Notifications.Delivery.{due_by}

pub data StatusWord : Type 0 where
  pending sending sent failed unknown : StatusWord

pub record OutboxStatus : Type 0 where
  pub word : StatusWord
  pub is_upper : Bool

-- the literals "PENDING", "SENDING", "SENT" and "FAILED"
abbrev pub literal : StatusWord → OutboxStatus
literal w = record { word = w; is_upper = true }

-- `upper(status)`
abbrev pub upper : OutboxStatus → OutboxStatus
upper s = literal s.word

-- `status IN ('PENDING', 'FAILED')`
unfoldable pub is_open : OutboxStatus → Bool
is_open s =
    s.is_upper && elim s.word [ StatusWord.pending ↦ true | StatusWord.failed ↦ true | _ ↦ false ]

pub record NotificationOutbox : Type 0 where
  pub id : ℕ
  pub event_id : ℕ
  pub topic : String
  pub payload : Headers
  pub headers : Headers
  pub status : OutboxStatus
  pub attempt_count : ℕ
  pub last_error : Option String
  pub next_retry_at : Option ℕ
  pub created_at : ℕ

abbrev pub Outbox : Type 0
Outbox = List NotificationOutbox

abbrev pub key : NotificationOutbox → ℕ
key r = r.id

-- the column of the unique constraint uq_notification_outbox_event_id
abbrev pub event_key : NotificationOutbox → ℕ
event_key r = r.event_id

-- `next_retry_at IS NULL OR next_retry_at <= now`
abbrev pub is_due : ℕ → NotificationOutbox → Bool
is_due now r = is_none r.next_retry_at || due_by r.next_retry_at now

-- A query of `claim_for_send`; `locked` are the rows that SKIP LOCKED passes over.
pub record SendClaim : Type 0 where
  pub now : ℕ
  pub limit : ℕ
  pub max_attempts : ℕ
  pub locked : ℕ → Bool

unfoldable pub is_claimable : SendClaim → NotificationOutbox → Bool
unfolding is_open
is_claimable c r =
    ltb r.attempt_count c.max_attempts
    && (is_open r.status && (is_due c.now r && not (c.locked r.id)))

-- ORDER BY created_at, id
abbrev pub is_older : NotificationOutbox → NotificationOutbox → Bool
is_older a b = ltb a.created_at b.created_at || (a.created_at == b.created_at && leb a.id b.id)

unfoldable pub mark_sending : NotificationOutbox → NotificationOutbox
mark_sending r = record r {
  status = literal StatusWord.sending;
  attempt_count = r.attempt_count + 1;
}

-- The table after the claim, and the rows that it returns.
unfoldable pub claim_for_send : SendClaim → Outbox → Outbox × Outbox
claim_for_send c t = (
  Table.claim key (is_claimable c) is_older c.limit mark_sending t,
  Table.claimed key (is_claimable c) is_older c.limit mark_sending t,
)

-- an entry of `results`
pub record OutboxResult : Type 0 where
  pub outbox_id : ℕ
  pub status : OutboxStatus
  pub last_error : Option String
  pub next_retry_at : Option ℕ

-- `results[i]`; a later entry replaces an earlier one.
abbrev pub result_for : ℕ → List OutboxResult → Option OutboxResult
result_for = last (λ r. r.outbox_id)

-- the CASE on the id of the three columns
unfoldable pub settle : List OutboxResult → NotificationOutbox → NotificationOutbox
settle rs r = elim (result_for r.id rs) [
  | none ↦ r
  | some x ↦ record r {
    status = x.status;
    last_error = x.last_error;
    next_retry_at = x.next_retry_at;
  }
]

unfoldable pub finalize_results : List OutboxResult → Outbox → Outbox
finalize_results [] t = t
finalize_results (x ∷ rs) t =
    Table.update (λ r. not (is_none (result_for r.id (x ∷ rs)))) (settle (x ∷ rs)) t

-- INSERT .. ON CONFLICT (event_id) DO NOTHING, then SELECT if nothing was inserted: the id, the
-- status and the attempts of the row of the event. The SELECT follows in the same transaction, so
-- it finds the row that the INSERT met.
unfoldable pub ensure : NotificationOutbox → Outbox → Outbox × (ℕ × OutboxStatus × ℕ)
ensure v t = elim (Table.get event_key v.event_id t) [
  | none ↦ (v ∷ t, (v.id, v.status, v.attempt_count))
  | some r ↦ (t, (r.id, r.status, r.attempt_count))
]

-- the WHERE of `claim_one`
unfoldable pub is_claimable_one : ℕ → ℕ → ℕ → NotificationOutbox → Bool
unfolding is_open
is_claimable_one outbox_id now max_attempts r =
    r.id == outbox_id
    && (is_open (upper r.status) && (is_due now r && ltb r.attempt_count max_attempts))

-- The table afterwards, and the attempts of the row if it was claimed.
unfoldable pub claim_one : ℕ → ℕ → ℕ → Outbox → Outbox × Option ℕ
claim_one outbox_id now max_attempts t =
    let p = is_claimable_one outbox_id now max_attempts in
    (
      Table.update p mark_sending t,
      elim (Table.get key outbox_id t) [
        | none ↦ none
        | some r ↦ if p r then some (r.attempt_count + 1) else none
      ],
    )

unfoldable pub get_state : ℕ → Outbox → Option (OutboxStatus × ℕ × Option ℕ)
get_state outbox_id t = elim (Table.get key outbox_id t) [
  | none ↦ none
  | some r ↦ some (r.status, r.attempt_count, r.next_retry_at)
]

-- UPDATE of one row: its status, error and retry time.
unfoldable pub update : ℕ → OutboxStatus → Option String → Option ℕ → Outbox → Outbox
update outbox_id status last_error next_retry_at t =
    Table.update (λ r. r.id == outbox_id)
      (λ r. record r { status = status; last_error = last_error; next_retry_at = next_retry_at }) t
