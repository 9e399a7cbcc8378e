-- ===== src/Notifications/Ingest/Clash.antt =====
-- When the rows of one command clash: `handle_inventory_event` of
-- app/apis/notifications/services/ingest.py, whose INSERT .. ON CONFLICT DO UPDATE fails on two
-- rows with one target.
use family_inventory.Prelude.{
  ◌≤◌, ◌&&◌, length, select, length-select-sort_by, length-select-select, eq_iff, ℕ, String, Bool,
  true, false, ◌≡◌, refl, sym, none, some, List, [], ◌∷◌, arith, Bool-cases, inl, inr, exists, ◌∙◌,
  ap,
}
use text.Mathlib.TextPositions.{eq_refl}
use family_inventory.Notifications.Types.{
  channel_eq→eq, channel_eq_refl, recipient_type_eq→eq, recipient_type_eq_refl,
}
use family_inventory.Notifications.Headers.{Headers}
use family_inventory.Notifications.Result.{ok, err}
use family_inventory.Notifications.Subscription.{
  NotificationSubscription, list_enabled_for_topic, is_enabled_for, is_before,
}
use family_inventory.Notifications.Ingest.Upsert.{
  Defaults, DeliveryRow, upsert, same_row, has_duplicate, cardinality_violation,
}
use family_inventory.Notifications.Ingest.{
  Texts, User, Database, row_for, delivery_rows, read_id, handle_inventory_event,
}

same_row→eq : (a b : DeliveryRow) → same_row a b ≡ true → a ≡ b
same_row→eq a b h = ground (
  arith,
  channel_eq→eq a.channel b.channel,
  recipient_type_eq→eq a.recipient_type b.recipient_type,
  eq_iff a.recipient b.recipient,
)

same_row_refl : (a : DeliveryRow) → same_row a a ≡ true
same_row_refl a =
    ground (
      arith,
      channel_eq_refl a.channel,
      recipient_type_eq_refl a.recipient_type,
      eq_refl a.recipient,
    )

clash : (x y : DeliveryRow) → x ≡ y → same_row x y ≡ false → ⊥
clash x y e h = cc (ap (same_row x) e, same_row_refl x)

no_more :
    (r x : DeliveryRow) (rs : List DeliveryRow)
    → same_row r x ≡ true
    → exists (same_row x) rs ≡ false
    → length (select (same_row r) rs) ≡ 0
no_more r x [] e h = omega arith
no_more r x (y ∷ rs) e h = elim (Bool-cases (same_row r y)) [
  | inl d ↦ absurd (clash x y (sym (same_row→eq r x e) ∙ same_row→eq r y d) (ground arith))
  | inr d ↦ rw d (no_more r x rs e (ground arith))
]

-- Without a duplicate, a target stands in the rows at most once.
once :
    (r : DeliveryRow) (rs : List DeliveryRow)
    → has_duplicate rs ≡ false
    → length (select (same_row r) rs) ≤ 1
unfolding has_duplicate
once r [] h = omega arith
once r (x ∷ rs) h = elim (Bool-cases (same_row r x)) [
  | inl e ↦ rw e (omega (arith, no_more r x rs e (ground arith)))
  | inr e ↦ rw e (once r rs (ground arith))
]

module _ (x : Texts) where
  -- whether a subscription yields a delivery to the target of a row
  unfoldable pub yields : ℕ → List User → DeliveryRow → NotificationSubscription → Bool
  yields event_id users r s = elim (row_for x event_id users s) [
    | none ↦ false
    | some q ↦ same_row r q
  ]

  count-delivery_rows :
      (event_id : ℕ) (users : List User) (r : DeliveryRow) (subs : List NotificationSubscription)
      → length (select (same_row r) (delivery_rows x event_id users subs))
        ≡ length (select (yields event_id users r) subs)
  unfolding delivery_rows yields
  count-delivery_rows e us r [] = refl
  count-delivery_rows e us r (s ∷ subs) = ground (arith, count-delivery_rows e us r subs)

  -- If the ids of the event and the home can be read, and two or more of the home's enabled
  -- subscriptions for the topic yield a delivery to one target, handling the event fails with the
  -- error of ON CONFLICT DO UPDATE, and no database is returned.
  pub shared_target_fails :
      (g : Defaults) (topic : String) (payload : Headers) (db : Database) (event_id home_id : ℕ)
      (r : DeliveryRow)
      → read_id x "event_id" payload ≡ ok event_id
      → read_id x "home_id" payload ≡ ok home_id
      → 2
        ≤ length (
            select
              (λ s. is_enabled_for home_id topic s && yields event_id db.users r s)
              db.subscriptions)
      → handle_inventory_event x g topic payload db ≡ err cardinality_violation
  unfolding handle_inventory_event upsert list_enabled_for_topic
  shared_target_fails g topic payload db event_id home_id r he hh two =
      let subs = list_enabled_for_topic home_id topic db.subscriptions in
      elim (Bool-cases (has_duplicate (delivery_rows x event_id db.users subs))) [
        | inl d ↦ rw (he, hh, d)
        | inr d ↦ absurd (
            omega (
              arith,
              once r (delivery_rows x event_id db.users subs) d,
              count-delivery_rows event_id db.users r subs,
              length-select-sort_by (yields event_id db.users r) is_before
                  (select (is_enabled_for home_id topic) db.subscriptions),
              length-select-select (yields event_id db.users r) (is_enabled_for home_id topic)
                  db.subscriptions,
            ))
      ]
