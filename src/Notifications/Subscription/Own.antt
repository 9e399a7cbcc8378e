-- ===== src/Notifications/Subscription/Own.antt =====
-- What a user's requests do to the subscriptions: app/apis/notifications/services/subscription.py.
use family_inventory.Prelude.{
  ℕ, ◌≡◌, refl, ◌∙◌, ap, Bool, true, false, not, some, [], ◌∷◌, arith, ◌==◌, ==_iff, Bool-cases,
  Option-cases, inl, inr, exists, select, All, All-imply,
}
use family_inventory.Prelude.Table
use family_inventory.Notifications.Subscription.{NotificationSubscription}
use family_inventory.Homes.Members.{Homes}
use family_inventory.Homes.Members.Guards.{after, after-require, after-required}
use family_inventory.Notifications.Subscription.Service.{
  Subscriptions, SubscriptionCreateRequest, SubscriptionUpdate, key, same_target,
  create_subscription, changed, update_subscription, delete_subscription,
}

-- The ids are different, and no two rows have the same home, user, topic and channel.
unfoldable pub IsUnique : Subscriptions → Type 0
IsUnique [] = Unit
IsUnique (r ∷ t) =
    ((Table.has key r.id t ≡ false) × (exists (same_target r) t ≡ false)) × IsUnique t

pub unique-IsKeyed : (t : Subscriptions) → IsUnique t → Table.IsKeyed key t
unfolding IsUnique
unique-IsKeyed [] h = tt
unique-IsKeyed (r ∷ t) h = (h.0.0, unique-IsKeyed t h.1)

pub data Request : Type 0 where
  creates : (new_id : ℕ) → SubscriptionCreateRequest → Request
  updates : (subscription_id : ℕ) → SubscriptionUpdate → Request
  deletes : (subscription_id : ℕ) → Request

unfoldable pub handle : ℕ → Homes → Request → Subscriptions → Subscriptions
handle user homes (creates i req) t = after t (create_subscription i user req homes t)
handle user homes (updates i req) t = after t (update_subscription user i req homes t)
handle user homes (deletes i) t = after t (delete_subscription user i homes t)

-- the rows of the other users
abbrev pub others : ℕ → Subscriptions → Subscriptions
others u t = select (λ r. not (r.user_id == u)) t

pub record IsLocal (u : ℕ) (t t' : Subscriptions) : Type 0 where
  pub same : others u t' ≡ others u t

others-update :
    (u : ℕ) (p : NotificationSubscription → Bool)
    (f : NotificationSubscription → NotificationSubscription) (t : Subscriptions)
    → ((r : NotificationSubscription) → (f r).user_id ≡ r.user_id)
    → All (λ r. p r ≡ true → r.user_id ≡ u) t
    → others u (Table.update p f t) ≡ others u t
others-update u p f [] k g = refl
others-update u p f (r ∷ t) k g = elim (Bool-cases (p r)) [
  | inl e ↦ ground (arith, e, k r, g.0 e, others-update u p f t k g.1)
  | inr e ↦ ground (arith, e, others-update u p f t k g.1)
]

others-select :
    (u : ℕ) (p : NotificationSubscription → Bool) (t : Subscriptions)
    → All (λ r. p r ≡ true → r.user_id ≡ u) t
    → others u (select (λ r. not (p r)) t) ≡ others u t
others-select u p [] g = refl
others-select u p (r ∷ t) g = elim (Bool-cases (p r)) [
  | inl e ↦ ground (arith, e, g.0 e, others-select u p t g.1)
  | inr e ↦ ground (arith, e, others-select u p t g.1)
]

-- the rows with the id of a user's row are the user's
ids-user :
    (u i : ℕ) (t : Subscriptions) (sub : NotificationSubscription)
    → Table.IsKeyed key t
    → Table.get key i t ≡ some sub
    → (sub.user_id == u) ≡ true
    → All (λ r. (r.id == i) ≡ true → r.user_id ≡ u) t
ids-user u i t sub k e own =
    All-imply _ _ t
      (λ r g m.
        let same : r ≡ sub = cc (e, g, (==_iff r.id i).0 m) in
        ap (λ (x : NotificationSubscription). x.user_id) same ∙ (==_iff sub.user_id u).0 own)
      (Table.All-get key t k)

nothing : (u : ℕ) (t : Subscriptions) → IsLocal u t t
nothing u t = record { same = refl }

create-IsLocal :
    (u i : ℕ) (req : SubscriptionCreateRequest) (homes : Homes) (t : Subscriptions)
    → IsLocal u t (handle u homes (creates i req) t)
unfolding handle create_subscription
create-IsLocal u i req homes t =
    after-require (IsLocal u t) t (nothing u t) _ _ _
      (λ a. after-require (IsLocal u t) t (nothing u t) _ _ _ (λ b. record { same = ground arith }))

update-IsLocal :
    (u i : ℕ) (req : SubscriptionUpdate) (homes : Homes) (t : Subscriptions)
    → Table.IsKeyed key t
    → IsLocal u t (handle u homes (updates i req) t)
unfolding handle update_subscription
update-IsLocal u i req homes t k = after-required (IsLocal u t) t (nothing u t) _ _ _ (λ sub e.
    after-require (IsLocal u t) t (nothing u t) _ _ _ (λ own.
      after-require (IsLocal u t) t (nothing u t) _ _ _ (λ b.
        after-require (IsLocal u t) t (nothing u t) _ _ _ (λ d. record {
          same = others-update u _ (changed req) t (λ r. refl) (ids-user u i t sub k e own);
        }))))

delete-IsLocal :
    (u i : ℕ) (homes : Homes) (t : Subscriptions)
    → Table.IsKeyed key t
    → IsLocal u t (handle u homes (deletes i) t)
unfolding handle delete_subscription
delete-IsLocal u i homes t k = elim (Option-cases (Table.get key i t)) [
  | inl e ↦ rw (handle, delete_subscription, e) (nothing u t)
  | inr (sub, e) ↦
      rw (handle, delete_subscription, e)
        (after-require (IsLocal u t) t (nothing u t) _ _ _ (λ own.
          after-require (IsLocal u t) t (nothing u t) _ _ _
            (λ b. record { same = others-select u _ t (ids-user u i t sub k e own) })))
]

pub handle-IsLocal :
    (u : ℕ) (homes : Homes) (r : Request) (t : Subscriptions)
    → Table.IsKeyed key t
    → IsLocal u t (handle u homes r t)
handle-IsLocal u homes (creates i req) t k = create-IsLocal u i req homes t
handle-IsLocal u homes (updates i req) t k = update-IsLocal u i req homes t k
handle-IsLocal u homes (deletes i) t k = delete-IsLocal u i homes t k
