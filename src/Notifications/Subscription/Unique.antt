-- ===== src/Notifications/Subscription/Unique.antt =====
-- One subscription per home, user, topic and channel: the constraint of
-- app/apis/notifications/models.py under the requests of services/subscription.py.
use family_inventory.Prelude.{
  ℕ, ◌≡◌, refl, sym, ◌∙◌, ap, Bool, true, false, not, ◌&&◌, ◌||◌, some, List, [], ◌∷◌, arith, ◌==◌,
  ==_iff, Bool-cases, Option-cases, inl, inr, exists, select, All, All-imply, All-both, str_eq,
  eq_refl, eq_iff,
}
use family_inventory.Prelude.Table
use family_inventory.Notifications.Types.{channel_eq, channel_eq_refl, channel_eq→eq}
use family_inventory.Notifications.Subscription.{NotificationSubscription}
use family_inventory.Homes.Members.{Homes}
use family_inventory.Homes.Members.Guards.{after, after-require, after-required}
use family_inventory.Notifications.Subscription.Service.{
  Subscriptions, SubscriptionCreateRequest, SubscriptionUpdate, key, same_target, new_subscription,
  create_subscription, changed, update_subscription, delete_subscription,
}
use family_inventory.Notifications.Subscription.Own.{
  IsUnique, unique-IsKeyed, Request, creates, updates, deletes, handle,
}

same_target-eq : (a b : NotificationSubscription) → same_target a b ≡ true → same_target b a ≡ true
same_target-eq a b h =
    let home : b.home_id ≡ a.home_id = ground (arith, h) in
    let user : b.user_id ≡ a.user_id = ground (arith, h) in
    let topic : b.topic ≡ a.topic = (eq_iff b.topic a.topic).0 (ground (arith, h)) in
    let channel : b.channel ≡ a.channel = channel_eq→eq b.channel a.channel (ground (arith, h)) in
    ground (
      arith,
      home,
      user,
      ap (λ t. str_eq t b.topic) (sym topic) ∙ eq_refl b.topic,
      ap (λ c. channel_eq c b.channel) (sym channel) ∙ channel_eq_refl b.channel,
    )

same_target-false :
    (a b : NotificationSubscription) → same_target a b ≡ false → same_target b a ≡ false
same_target-false a b h = elim (Bool-cases (same_target b a)) [
  | inl e ↦ cc (h, same_target-eq b a e)
  | inr e ↦ e
]

exists-select-false :
    {A : Type 0} (q w : A → Bool) (t : List A) → exists q t ≡ false → exists q (select w t) ≡ false
exists-select-false q w [] h = refl
exists-select-false q w (r ∷ t) h = ground (arith, exists-select-false q w t)

module _ (i : ℕ) (req : SubscriptionUpdate) (v : NotificationSubscription) where
  abbrev rows : Subscriptions → Subscriptions
  rows t = Table.update (λ r. r.id == i) (changed req) t

  -- what is known of each row: the updated ones become `v`, and the others do not have its target
  abbrev IsApart : NotificationSubscription → Type 0
  IsApart r =
      ((r.id == i) ≡ true → changed req r ≡ v) × ((r.id == i) ≡ false → same_target v r ≡ false)

  has-rows : (k : ℕ) (t : Subscriptions) → Table.has key k (rows t) ≡ Table.has key k t
  has-rows k [] = refl
  has-rows k (r ∷ t) = ground (arith, has-rows k t)

  exists-rows :
      (a : NotificationSubscription) (t : Subscriptions)
      → same_target v a ≡ false
      → All IsApart t
      → exists (same_target a) t ≡ false
      → exists (same_target a) (rows t) ≡ false
  exists-rows a [] n q h = h
  exists-rows a (r ∷ t) n q h = elim (Bool-cases (r.id == i)) [
    | inl m ↦
        let hit : same_target a (changed req r) ≡ false =
          ap (same_target a) (q.0.0 m) ∙ same_target-false v a n in
        rw (m, hit) (exists-rows a t n q.1 (ground (arith, h)))
    | inr m ↦
        let miss : same_target a r ≡ false = ground (arith, h) in
        rw (m, miss) (exists-rows a t n q.1 (ground (arith, h)))
  ]

  -- no row has the id
  exists-away :
      (k : ℕ) (t : Subscriptions)
      → (k == i) ≡ true
      → Table.has key k t ≡ false
      → All IsApart t
      → (exists (same_target v) (rows t) ≡ false)
  exists-away k [] e h q = refl
  exists-away k (r ∷ t) e h q =
      let away : (r.id == i) ≡ false = ground (arith, h, e) in
      let miss : same_target v r ≡ false = q.0.1 away in
      rw (away, miss) (exists-away k t e (ground (arith, h)) q.1)

  rows-IsUnique : (t : Subscriptions) → All IsApart t → IsUnique t → IsUnique (rows t)
  unfolding IsUnique
  rows-IsUnique [] q h = tt
  rows-IsUnique (r ∷ t) q h = elim (Bool-cases (r.id == i)) [
    | inl m ↦ rw m (
      (
        has-rows r.id t ∙ h.0.0,
        ap (λ a. exists (same_target a) (rows t)) (q.0.0 m) ∙ exists-away r.id t m h.0.0 q.1,
      ),
      rows-IsUnique t q.1 h.1,
    )
    | inr m ↦
        rw m
          ((has-rows r.id t ∙ h.0.0, exists-rows r t (q.0.1 m) q.1 h.0.1), rows-IsUnique t q.1 h.1)
  ]

select-IsUnique :
    (w : NotificationSubscription → Bool) (t : Subscriptions) → IsUnique t → IsUnique (select w t)
unfolding IsUnique
select-IsUnique w [] h = tt
select-IsUnique w (r ∷ t) h = elim (Bool-cases (w r)) [
  | inl e ↦ rw e (
    (
      exists-select-false (λ x. x.id == r.id) w t h.0.0,
      exists-select-false (same_target r) w t h.0.1,
    ),
    select-IsUnique w t h.1,
  )
  | inr e ↦ rw e (select-IsUnique w t h.1)
]

cons-IsUnique :
    (v : NotificationSubscription) (t : Subscriptions)
    → (Table.has key v.id t || exists (same_target v) t) ≡ false
    → IsUnique t
    → IsUnique (v ∷ t)
unfolding IsUnique
cons-IsUnique v t e h = ((ground (arith, e), ground (arith, e)), h)

All-none_is :
    {A : Type 0} (p : A → Bool) (l : List A) → exists p l ≡ false → All (λ x. p x ≡ false) l
All-none_is p [] h = tt
All-none_is p (x ∷ l) h = (ground (arith, h), All-none_is p l (ground (arith, h)))

create-IsUnique :
    (u i : ℕ) (r : SubscriptionCreateRequest) (homes : Homes) (t : Subscriptions)
    → IsUnique t
    → IsUnique (after t (create_subscription i u r homes t))
unfolding create_subscription
create-IsUnique u i r homes t h = after-require IsUnique t h _ _ _ (λ a.
    after-require IsUnique t h _ _ _
      (λ b. cons-IsUnique (new_subscription i u r) t (ground (arith, b)) h))

update-IsUnique :
    (u i : ℕ) (req : SubscriptionUpdate) (homes : Homes) (t : Subscriptions)
    → IsUnique t
    → IsUnique (after t (update_subscription u i req homes t))
unfolding update_subscription
update-IsUnique u i req homes t h = after-required IsUnique t h _ _ _ (λ sub e.
    after-require IsUnique t h _ _ _ (λ own. after-require IsUnique t h _ _ _ (λ b.
      after-require IsUnique t h _ _ _ (λ free.
        rows-IsUnique i req (changed req sub) t
          (All-imply _ _ t
            (λ r q. (
              λ m. let same : r ≡ sub = cc (e, q.0, (==_iff r.id i).0 m) in ap (changed req) same,
              λ m.
                  let here : sub.id ≡ i = Table.get-key key i t sub e in
                  let away : (r.id == sub.id) ≡ false = ap (λ k. r.id == k) here ∙ m in
                  ground (arith, q.1, away),
            ))
            (All-both (λ r. Table.get key r.id t ≡ some r)
              (λ r. (not (r.id == sub.id) && same_target (changed req sub) r) ≡ false) t
              (Table.All-get key t (unique-IsKeyed t h))
              (All-none_is (λ r. not (r.id == sub.id) && same_target (changed req sub) r) t
                (ground (arith, free)))))
          h))))

delete-IsUnique :
    (u i : ℕ) (homes : Homes) (t : Subscriptions)
    → IsUnique t
    → IsUnique (after t (delete_subscription u i homes t))
unfolding delete_subscription
delete-IsUnique u i homes t h = elim (Option-cases (Table.get key i t)) [
  | inl e ↦ rw (delete_subscription, e) h
  | inr (sub, e) ↦
      rw (delete_subscription, e)
        (after-require IsUnique t h _ _ _
          (λ own. after-require IsUnique t h _ _ _ (λ b. select-IsUnique _ t h)))
]

pub handle-IsUnique :
    (u : ℕ) (homes : Homes) (r : Request) (t : Subscriptions)
    → IsUnique t
    → IsUnique (handle u homes r t)
unfolding handle
handle-IsUnique u homes (creates i req) t h = create-IsUnique u i req homes t h
handle-IsUnique u homes (updates i req) t h = update-IsUnique u i req homes t h
handle-IsUnique u homes (deletes i) t h = delete-IsUnique u i homes t h
