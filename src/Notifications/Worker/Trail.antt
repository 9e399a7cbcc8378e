-- ===== src/Notifications/Worker/Trail.antt =====
-- What becomes of a message that always fails, over its deliveries: `on_message` of
-- app/apis/notifications/worker/consumer.py with the retry exchange between the calls.
use family_inventory.Prelude.{
  zero, suc, ℕ, ◌+◌, ◌≡◌, ◌∙◌, ap, refl, true, false, none, some, List, [], ◌∷◌, ◌++◌, length, All,
  All-imply, arith,
}
use family_inventory.Prelude.Integers.{ℤ, pos, succ, plus, is_above, IsBelow-plus}
use family_inventory.Notifications.Headers.{Headers, Value, int}
use family_inventory.Notifications.Errors.{Exception}
use family_inventory.Notifications.Result.{ok}
use family_inventory.Notifications.Delivery.Send.{Senders}
use family_inventory.Notifications.Ingest.Upsert.{Defaults}
use family_inventory.Notifications.Ingest.{Texts, Database}
use family_inventory.Notifications.Worker.Prepare.{Worker}
use family_inventory.Notifications.Worker.Message.{
  Message, Exchange, Publication, WorkerConfig, Outside, is_unprocessable, get_retry_count,
  read_message, process, on_message,
}
use family_inventory.Notifications.Worker.Retries.{retried, over_limit}

module _ (o : Outside) (x : Texts) (g : Defaults) (senders : Senders) (clock : ℕ → ℕ) (w : Worker)
    (cfg : WorkerConfig) (arrive : Message → Message) where
  -- What is published for a message, for at most so many deliveries: a message of the retry exchange
  -- arrives again, and is handled with the database that the delivery before it left.
  pub trail : ℕ → Message → Database → List Publication
  trail zero m db = []
  trail (suc n) m db =
      let r = on_message o x g senders clock w cfg m db in
      elim r.published [
        | none ↦ []
        | some p ↦ p ∷ (elim p.exchange [
          | Exchange.dlx ↦ []
          | Exchange.retry ↦ trail n (arrive p.message) r.database
        ])
      ]

  trail-retry :
      (n : ℕ) (m : Message) (db : Database) (p : Publication)
      → let r = on_message o x g senders clock w cfg m db in
        r.published ≡ some p
        → p.exchange ≡ Exchange.retry
        → trail (suc n) m db ≡ p ∷ trail n (arrive p.message) r.database
  unfolding trail
  trail-retry n m db p published retry = rw (trail, published, retry) refl

  -- A delivery of a message fails in its processing, with an error that is not unprocessable.
  abbrev pub IsFailing : Message → Database → Type 0
  IsFailing m db =
      (payload : Value) × (headers : Headers) × (exc : Exception) × (read_message o m
        ≡ ok (payload, headers))
      × ((process o x g senders clock w m payload headers db).1 ≡ some exc)
      × (is_unprocessable o exc ≡ false)

  -- So many publications to the retry exchange, then one to the dead letter exchange, all with a body.
  abbrev pub IsTrail : ℕ → Message → List Publication → Type 0
  IsTrail k m ps =
      (retries : List Publication) × (last : Publication) × (ps ≡ retries ++ (last ∷ []))
      × (length retries ≡ k)
      × All (λ p. (p.exchange ≡ Exchange.retry) × (p.message.body ≡ m.body)) retries
      × (last.exchange ≡ Exchange.dlx)
      × (last.message.body ≡ m.body)

  module _ (reads : (n : ℤ) → o.to_int (int n) ≡ some n)
      (works : (p : Publication) → o.publish p ≡ none)
      (same : (m : Message)
        → ((arrive m).body ≡ m.body) × (get_retry_count o (arrive m) ≡ get_retry_count o m))
      (broker : cfg.use_broker_retries ≡ true) where
    last-trail :
        (n : ℕ) (m : Message) (db : Database)
        → IsFailing m db
        → is_above cfg.max_retries (succ (get_retry_count o m)) ≡ true
        → IsTrail 0 m (trail (suc n) m db)
    unfolding trail
    last-trail n m db (payload, headers, exc, read, raised, processable) over =
        let (ack, (p, published, dlx, body)) =
          over_limit o reads x g senders clock w cfg m db payload headers exc read raised
            processable works over in
        ([], p, rw (trail, published, dlx) refl, refl, tt, dlx, body)

    -- A message whose processing always fails with an error that is not unprocessable is retried as
    -- often as is left until max_retries, and then goes to the dead letter exchange, each time with
    -- its body: no more is published for it, however long one looks. This is so if broker retries are
    -- enabled, publishing works, integers are read back from headers, and the broker delivers what
    -- was published with its body and retry count.
    pub dead_lettered :
        (k extra : ℕ) (m : Message) (db : Database)
        → plus (get_retry_count o m) k ≡ pos cfg.max_retries
        → ((m' : Message) (db' : Database) → m'.body ≡ m.body → IsFailing m' db')
        → IsTrail k m (trail (suc (k + extra)) m db)
    unfolding trail
    dead_lettered zero extra m db left fails =
        let over : is_above cfg.max_retries (succ (get_retry_count o m)) ≡ true =
          rw left (ground arith) in
        last-trail (zero + extra) m db (fails m db refl) over
    dead_lettered (suc k) extra m db left fails =
        let (payload, headers, exc, read, raised, processable) = fails m db refl in
        let below = IsBelow-plus cfg.max_retries (get_retry_count o m) k left in
        let (ack, (p, published, retry, body, count, kept)) =
          retried o reads x g senders clock w cfg m db payload headers exc read raised processable
            works broker below in
        let m' = arrive p.message in
        let db' = (on_message o x g senders clock w cfg m db).database in
        let same_body : m'.body ≡ m.body = (same p.message).0 ∙ body in
        let counted : get_retry_count o m' ≡ succ (get_retry_count o m) =
          (same p.message).1 ∙ count in
        let (retries, last, is, many, all, dlx, last_body) =
          dead_lettered k extra m' db' (ap (λ z. plus z k) counted ∙ left)
            (λ m'' db'' e. fails m'' db'' (e ∙ same_body)) in
        let fuel : suc k + extra ≡ suc (k + extra) = omega arith in
        (
          p ∷ retries,
          last,
          trail-retry (suc k + extra) m db p published retry
              ∙ ap (λ ps. p ∷ ps) (ap (λ n. trail n m' db') fuel ∙ is),
          omega (arith, many),
          ((retry, body), All-imply _ _ retries (λ q (e, b). (e, b ∙ same_body)) all),
          dlx,
          last_body ∙ same_body,
        )
