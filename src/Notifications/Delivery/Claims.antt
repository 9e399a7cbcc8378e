-- ===== src/Notifications/Delivery/Claims.antt =====
-- What `claim_deliveries_to_send` of app/apis/notifications/worker/handlers.py does to the table.
use mathlib.Core.Option.{some-injective}
use family_inventory.Prelude.{
  sym, refl, ◌≢◌, ◌<◌, ◌+◌, leb, All, ℕ, ◌≤◌, ◌≡◌, ap, ◌∙◌, Bool, true, false, ◌⊎◌, inl, inr, some,
  arith, leb→le, Bool-cases, length, select,
}
use family_inventory.Prelude.Table
use family_inventory.Prelude.Table.Claim.{
  claim_hit, claim_miss, All-claimed, length-claimed-le, chosen_complete, chosen_first,
}
use family_inventory.Notifications.Types.{DeliveryStatus}
use family_inventory.Notifications.Delivery.{
  NotificationDelivery, Deliveries, key, Claim, claim_deliveries_to_send, is_claimable, is_older,
  mark_sending,
}
use family_inventory.Notifications.Delivery.Free.{IsFree, claimable-IsFree}

-- whether the subquery of a claim has the row of an id
unfoldable pub is_chosen : Claim → Deliveries → ℕ → Bool
is_chosen c t i =
    Table.has key i
      (Table.chosen key (is_claimable c.event_id c.now c.locked) is_older c.claim_limit t)

pub key-mark_sending : (now w : ℕ) (d : NotificationDelivery) → key (mark_sending now w d) ≡ key d
unfolding mark_sending
key-mark_sending now w d = ground arith

module _ (c : Claim) (t : Deliveries) (i : ℕ) (d : NotificationDelivery)
    (here : Table.get key i t ≡ some d) where
  pub claim-chosen :
      is_chosen c t i ≡ true
      → Table.get key i (claim_deliveries_to_send c t).0 ≡ some (mark_sending c.now c.worker_id d)
  unfolding is_chosen claim_deliveries_to_send
  claim-chosen e =
      claim_hit key _ is_older c.claim_limit _ t (key-mark_sending c.now c.worker_id) i d here e

  pub claim-spared :
      is_chosen c t i ≡ false → Table.get key i (claim_deliveries_to_send c t).0 ≡ some d
  unfolding is_chosen claim_deliveries_to_send
  claim-spared e =
      claim_miss key _ is_older c.claim_limit _ t (key-mark_sending c.now c.worker_id) i d here e

mark_sending-held :
    (now w : ℕ) (d : NotificationDelivery)
    → let d' = mark_sending now w d in
      (d'.locked_by ≡ some w) × (d'.status ≡ DeliveryStatus.sending)
unfolding mark_sending
mark_sending-held now w d = (refl, refl)

mark_sending-ne : (now w : ℕ) (d : NotificationDelivery) → mark_sending now w d ≢ d
unfolding mark_sending
mark_sending-ne now w d e = omega (arith, ap (λ (x : NotificationDelivery). x.attempt_count) e)

is_chosen-of_taken :
    (c : Claim) (t : Deliveries) (i : ℕ) (d : NotificationDelivery)
    → Table.get key i t ≡ some d
    → Table.get key i (claim_deliveries_to_send c t).0 ≢ some d
    → is_chosen c t i ≡ true
is_chosen-of_taken c t i d here taken = elim (Bool-cases (is_chosen c t i)) [
  | inl e ↦ e
  | inr e ↦ absurd (taken (claim-spared c t i d here e))
]

not-is_chosen-of_left :
    (c : Claim) (t : Deliveries) (i : ℕ) (d : NotificationDelivery)
    → Table.get key i t ≡ some d
    → Table.get key i (claim_deliveries_to_send c t).0 ≡ some d
    → is_chosen c t i ≡ false
not-is_chosen-of_left c t i d here left = elim (Bool-cases (is_chosen c t i)) [
  | inl e ↦ absurd (
      mark_sending-ne c.now c.worker_id d
        (some-injective _ _ (sym (claim-chosen c t i d here e) ∙ left)))
  | inr e ↦ e
]

-- whether the WHERE of a claim holds of a row
abbrev pub fits : Claim → NotificationDelivery → Bool
fits c d = is_claimable c.event_id c.now c.locked d

module _ (c : Claim) (t : Deliveries) (keyed : Table.IsKeyed key t) where
  -- Each row is left alone, or met the WHERE and was updated.
  pub claim_cases :
      (i : ℕ) (d : NotificationDelivery)
      → Table.get key i t ≡ some d
      → let (t', _) = claim_deliveries_to_send c t in
        (Table.get key i t' ≡ some d)
        ⊎ ((fits c d ≡ true) × (Table.get key i t' ≡ some (mark_sending c.now c.worker_id d)))
  unfolding is_chosen
  claim_cases i d here = elim (Bool-cases (is_chosen c t i)) [
    | inl e ↦ inr (
      Table.chosen_sound key (fits c) is_older c.claim_limit t keyed i d here e,
      claim-chosen c t i d here e,
    )
    | inr e ↦ inl (claim-spared c t i d here e)
  ]

  -- In a table with different ids, a claim takes a row or leaves it as it is. A row that it takes was
  -- of the event, with attempts left, open and not locked, and is then being sent, held by the claiming
  -- worker for a lease of 120 seconds, with one more attempt. A row that it leaves could not be
  -- claimed, unless more rows could be than the limit.
  pub claim_exact :
      (i : ℕ) (d : NotificationDelivery)
      → Table.get key i t ≡ some d
      → let (t', _) = claim_deliveries_to_send c t in
        (IsFree c d
          × (Table.get key i t'
              ≡ some (record d {
                status = DeliveryStatus.sending;
                locked_by = some c.worker_id;
                locked_at = some c.now;
                lock_expires_at = some (c.now + 120);
                last_attempt_at = some c.now;
                attempt_count = d.attempt_count + 1;
              })))
        ⊎ ((Table.get key i t' ≡ some d)
            × ((¬ IsFree c d) ⊎ (c.claim_limit < length (select (fits c) t))))
  unfolding is_chosen mark_sending
  claim_exact i d here = elim (Bool-cases (is_chosen c t i)) [
    | inl e ↦ inl (
      (claimable-IsFree c d).0
          (Table.chosen_sound key (fits c) is_older c.claim_limit t keyed i d here e),
      claim-chosen c t i d here e,
    )
    | inr e ↦ inr (
      claim-spared c t i d here e,
      elim (Bool-cases (leb (length (select (fits c) t)) c.claim_limit)) [
        | inr full ↦ inr (ground (arith, full))
        | inl room ↦ inl (λ free.
            let taken =
              chosen_complete key (fits c) is_older c.claim_limit t keyed i d here
                ((claimable-IsFree c d).1 free) (leb→le _ _ room) in
            cc (e, taken))
      ],
    )
  ]

  -- In a table with different ids, if the claimable rows are no more than the limit, a claim takes
  -- every one of them.
  pub claim_complete :
      length (select (fits c) t) ≤ c.claim_limit
      → (i : ℕ) (d : NotificationDelivery) → Table.get key i t ≡ some d
      → fits c d ≡ true
      → Table.get key i (claim_deliveries_to_send c t).0 ≡ some (mark_sending c.now c.worker_id d)
  unfolding is_chosen
  claim_complete room i d here e =
      claim-chosen c t i d here
        (chosen_complete key (fits c) is_older c.claim_limit t keyed i d here e room)

  -- From a table with different ids, a claim returns at most its limit of rows, and each of them is
  -- being sent and held by the claiming worker.
  pub claim_returns :
      let (_, rows) = claim_deliveries_to_send c t in
      (length rows ≤ c.claim_limit)
      × All (λ d. (d.locked_by ≡ some c.worker_id) × (d.status ≡ DeliveryStatus.sending)) rows
  unfolding claim_deliveries_to_send
  claim_returns = (
    length-claimed-le key (fits c) is_older c.claim_limit _ t (key-mark_sending c.now c.worker_id)
        keyed,
    All-claimed key (fits c) is_older c.claim_limit _ t (key-mark_sending c.now c.worker_id) _
        (mark_sending-held c.now c.worker_id),
  )

  -- In a table with different ids, deliveries are claimed in the order of their creation: one that
  -- is left although it could be claimed is no older than one that is claimed.
  pub claim_oldest_first :
      (i j : ℕ) (d e : NotificationDelivery)
      → Table.get key i t ≡ some d
      → Table.get key j t ≡ some e
      → Table.get key i (claim_deliveries_to_send c t).0 ≢ some d
      → fits c e ≡ true
      → Table.get key j (claim_deliveries_to_send c t).0 ≡ some e
      → d.created_at ≤ e.created_at
  unfolding is_chosen
  claim_oldest_first i j d e here there taken fit left = leb→le d.created_at e.created_at (
      chosen_first key (fits c) is_older c.claim_limit t keyed (λ a b h. ground arith)
        (λ a b k h g. ground arith) i j d e here there (is_chosen-of_taken c t i d here taken) fit
        (not-is_chosen-of_left c t j e there left))
