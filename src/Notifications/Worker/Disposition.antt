-- ===== src/Notifications/Worker/Disposition.antt =====
-- What becomes of a message: `on_message` of app/apis/notifications/worker/consumer.py.
use mathlib.Core.Path.{subst}
use family_inventory.Prelude.{
  ℕ, ◌≡◌, sym, ◌⊎◌, inl, inr, refl, Option, none, some, Bool-cases, Option-cases,
}
use family_inventory.Prelude.Integers.{succ, is_above}
use family_inventory.Notifications.Headers.{Headers, Value}
use family_inventory.Notifications.Errors.{Exception}
use family_inventory.Notifications.Result.{ok, err, Result-cases}
use family_inventory.Notifications.Delivery.Send.{Senders}
use family_inventory.Notifications.Ingest.Upsert.{Defaults}
use family_inventory.Notifications.Ingest.{Texts, Database}
use family_inventory.Notifications.Worker.Prepare.{Worker}
use family_inventory.Notifications.Worker.Message.{
  Message, Publication, Reply, WorkerConfig, Outside, Outcome, is_unprocessable, get_retry_count,
  read_message, send_to_dlq, publish_retry, forward, on_error, answer, process, on_message,
}

-- What may become of a message: it is put back and nothing is published; or it is acknowledged,
-- and either it was handled or a message with its body was published without an error.
abbrev pub IsSafe : Outside → Message → Type 0 → Outcome → Type 0
IsSafe o m handled r =
    ((r.reply ≡ Reply.requeue) × (r.published ≡ none))
    ⊎ ((r.reply ≡ Reply.ack)
        × (((r.published ≡ none) × handled)
            ⊎ ((p : Publication) × (r.published ≡ some p)
                × (o.publish p ≡ none)
                × (p.message.body ≡ m.body))))

module _ (o : Outside) (m : Message) where
  forward-IsSafe :
      (h : Type 0) (p : Publication) (db : Database)
      → p.message.body ≡ m.body
      → IsSafe o m h (forward o p db)
  unfolding forward
  forward-IsSafe h p db b = elim (Option-cases (o.publish p)) [
    | inl e ↦ rw (e, forward) (inr (refl, inr (p, refl, e, b)))
    | inr (x, e) ↦ rw (e, forward) (inl (refl, refl))
  ]

  on_error-IsSafe :
      (h : Type 0) (cfg : WorkerConfig) (headers : Option Headers) (exc : Exception) (db : Database)
      → IsSafe o m h (on_error o cfg m headers exc db)
  unfolding on_error send_to_dlq publish_retry
  on_error-IsSafe h cfg headers exc db = elim (Bool-cases (is_unprocessable o exc)) [
    | inl u ↦ rw u (forward-IsSafe h _ db refl)
    | inr u ↦ elim (Bool-cases (is_above cfg.max_retries (succ (get_retry_count o m)))) [
      | inl n ↦ rw (u, n) (forward-IsSafe h _ db refl)
      | inr n ↦ elim (Bool-cases cfg.use_broker_retries) [
        | inl b ↦ elim (Option-cases headers) [
          | inl e ↦ rw (u, n, b, e) (inl (refl, refl))
          | inr (k, e) ↦ rw (u, n, b, e) (forward-IsSafe h _ db refl)
        ]
        | inr b ↦ rw (u, n, b) (inl (refl, refl))
      ]
    ]
  ]

  module _ (x : Texts) (g : Defaults) (senders : Senders) (clock : ℕ → ℕ) (w : Worker) where
    -- The body was read, and its deliveries were claimed, sent and recorded without an error.
    abbrev pub IsHandled : Database → Type 0
    IsHandled db =
        (payload : Value) × (headers : Headers) × (read_message o m ≡ ok (payload, headers))
        × ((process o x g senders clock w m payload headers db).1 ≡ none)

    pub on_message-read :
        (cfg : WorkerConfig) (db : Database) (payload : Value) (headers : Headers)
        → read_message o m ≡ ok (payload, headers)
        → on_message o x g senders clock w cfg m db
          ≡ answer o x g senders clock w cfg m headers
              (process o x g senders clock w m payload headers db)
    unfolding on_message
    on_message-read cfg db payload headers e = rw (e, on_message) refl

    pub on_message-unread :
        (cfg : WorkerConfig) (db : Database) (exc : Exception)
        → read_message o m ≡ err exc
        → on_message o x g senders clock w cfg m db ≡ on_error o cfg m none exc db
    unfolding on_message
    on_message-unread cfg db exc e = rw (e, on_message) refl

    answer-IsSafe :
        (cfg : WorkerConfig) (h : Headers) (db : Database) (done : Database × Option Exception)
        → (done.1 ≡ none → IsHandled db)
        → IsSafe o m (IsHandled db) (answer o x g senders clock w cfg m h done)
    unfolding answer
    answer-IsSafe cfg h db (db', none) fine = inr (refl, inl (refl, fine refl))
    answer-IsSafe cfg h db (db', some exc) fine =
        on_error-IsSafe (IsHandled db) cfg (some h) exc db'

    -- A message is acknowledged only when it was handled or a message with its body was published
    -- to the dead letter or the retry exchange; otherwise it is put back and nothing is published.
    pub never_lost :
        (cfg : WorkerConfig) (db : Database)
        → IsSafe o m (IsHandled db) (on_message o x g senders clock w cfg m db)
    unfolding on_message
    never_lost cfg db = elim (Result-cases (read_message o m)) [
      | inr (exc, e) ↦
          subst (λ r. IsSafe o m (IsHandled db) r) (sym (on_message-unread cfg db exc e))
            (on_error-IsSafe (IsHandled db) cfg none exc db)
      | inl ((payload, headers), e) ↦
          subst (λ r. IsSafe o m (IsHandled db) r) (sym (on_message-read cfg db payload headers e))
            (answer-IsSafe cfg headers db (process o x g senders clock w m payload headers db)
              (λ n. (payload, headers, e, n)))
    ]
