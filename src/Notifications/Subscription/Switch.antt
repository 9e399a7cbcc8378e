-- ===== src/Notifications/Subscription/Switch.antt =====
-- Switching a subscription off, and the topics' lists: app/apis/notifications/services/subscription.py
-- with list_enabled_for_topic of repository/subscription_repository.py.
use mathlib.Core.Path.{subst}
use family_inventory.Prelude.{
  ℕ, ◌≡◌, refl, ◌∙◌, String, true, false, ◌||◌, some, [], ◌∷◌, arith, ◌==◌, Bool-cases,
  Option-cases, inl, inr, exists, select, sort_by, exists-sort_by, eq_refl,
}
use family_inventory.Prelude.Table
use family_inventory.Notifications.Subscription.{
  NotificationSubscription, is_before, is_enabled_for, list_enabled_for_topic,
}
use family_inventory.Notifications.Result.{ok}
use family_inventory.Homes.Members.{Homes, require, required}
use family_inventory.Households.{user_has_access}
use family_inventory.Notifications.Subscription.Service.{
  Subscriptions, SubscriptionCreateRequest, SubscriptionUpdate, key, same_target, new_subscription,
  create_subscription, changed, is_taken, update_subscription,
}

updated-rows :
    (u i : ℕ) (req : SubscriptionUpdate) (homes : Homes) (t t' : Subscriptions)
    → update_subscription u i req homes t ≡ ok t'
    → Table.update (λ r. r.id == i) (changed req) t ≡ t'
unfolding update_subscription required require
updated-rows u i req homes t t' e = elim (Option-cases (Table.get key i t)) [
  | inl a ↦ cc (e, a)
  | inr (sub, a) ↦ elim (Bool-cases (sub.user_id == u)) [
    | inr b ↦ cc (e, a, b)
    | inl b ↦ elim (Bool-cases (user_has_access u sub.home_id homes)) [
      | inr c ↦ cc (e, a, b, c)
      | inl c ↦ elim (Bool-cases (is_taken (changed req sub) t)) [
        | inl d ↦ cc (e, a, b, c, d)
        | inr d ↦ cc (e, a, b, c, d)
      ]
    ]
  ]
]

off-absent :
    (i h : ℕ) (topic : String) (req : SubscriptionUpdate) (t : Subscriptions)
    → req.enabled ≡ some false
    → exists
        (λ (r : NotificationSubscription). r.id == i)
        (select (is_enabled_for h topic) (Table.update (λ r. r.id == i) (changed req) t))
      ≡ false
unfolding is_enabled_for
off-absent i h topic req [] off = refl
off-absent i h topic req (r ∷ t) off = elim (Bool-cases (r.id == i)) [
  | inl m ↦ ground (arith, m, off, off-absent i h topic req t off)
  | inr m ↦ ground (arith, m, off-absent i h topic req t off)
]

-- When a user has switched a subscription off, no topic of any home lists it any more.
pub switched_off :
    (u i h : ℕ) (topic : String) (req : SubscriptionUpdate) (homes : Homes) (t t' : Subscriptions)
    → req.enabled ≡ some false
    → update_subscription u i req homes t ≡ ok t'
    → Table.has key i (list_enabled_for_topic h topic t') ≡ false
unfolding list_enabled_for_topic
switched_off u i h topic req homes t t' off e =
    subst (λ x. Table.has key i (sort_by is_before (select (is_enabled_for h topic) x)) ≡ false)
      (updated-rows u i req homes t t' e)
      (exists-sort_by (λ (r : NotificationSubscription). r.id == i) is_before _
        ∙ off-absent i h topic req t off)

created-rows :
    (u i : ℕ) (req : SubscriptionCreateRequest) (homes : Homes) (t t' : Subscriptions)
    → create_subscription i u req homes t ≡ ok t'
    → new_subscription i u req ∷ t ≡ t'
unfolding create_subscription require
created-rows u i req homes t t' e = elim (Bool-cases (user_has_access u req.home_id homes)) [
  | inr a ↦ cc (e, a)
  | inl a ↦
      elim (Bool-cases (Table.has key i t || exists (same_target (new_subscription i u req)) t)) [
        | inl b ↦ cc (e, a, b)
        | inr b ↦ cc (e, a, b)
      ]
]

-- A subscription that a user has created enabled is listed for its topic in its home.
pub subscribed_listed :
    (u i : ℕ) (req : SubscriptionCreateRequest) (homes : Homes) (t t' : Subscriptions)
    → req.enabled ≡ true
    → create_subscription i u req homes t ≡ ok t'
    → Table.has key i (list_enabled_for_topic req.home_id req.topic t') ≡ true
unfolding list_enabled_for_topic is_enabled_for
subscribed_listed u i req homes t t' on e =
    subst
      (λ x.
        Table.has key i (sort_by is_before (select (is_enabled_for req.home_id req.topic) x))
        ≡ true)
      (created-rows u i req homes t t' e)
      (exists-sort_by (λ (r : NotificationSubscription). r.id == i) is_before
          (select (is_enabled_for req.home_id req.topic) (new_subscription i u req ∷ t))
        ∙ ground (arith, on, eq_refl req.topic))
