-- ===== src/Notifications/Subscription/Runs.antt =====
-- Requests of several users, one after another: app/apis/notifications/services/subscription.py.
use family_inventory.Prelude.{
  ℕ, ◌≡◌, refl, sym, ◌∙◌, ap, false, List, [], ◌∷◌, arith, ◌==◌, select, All,
}
use family_inventory.Homes.Members.{Homes}
use family_inventory.Notifications.Subscription.Service.{Subscriptions}
use family_inventory.Notifications.Subscription.Own.{
  IsUnique, unique-IsKeyed, Request, handle, handle-IsLocal, others,
}
use family_inventory.Notifications.Subscription.Unique.{handle-IsUnique}

-- requests of users, one after another
unfoldable pub handle_all : Homes → List (ℕ × Request) → Subscriptions → Subscriptions
unfolding handle
handle_all homes [] t = t
handle_all homes ((u, r) ∷ l) t = handle_all homes l (handle u homes r t)

-- If no two subscriptions share an id, or a home, user, topic and channel, then none do after any
-- requests of any users that create, update and delete subscriptions.
pub handle_all-IsUnique :
    (homes : Homes) (l : List (ℕ × Request)) (t : Subscriptions)
    → IsUnique t
    → IsUnique (handle_all homes l t)
unfolding handle_all
handle_all-IsUnique homes [] t h = h
handle_all-IsUnique homes ((u, r) ∷ l) t h =
    handle_all-IsUnique homes l (handle u homes r t) (handle-IsUnique u homes r t h)

-- the rows of a user
abbrev pub of_user : ℕ → Subscriptions → Subscriptions
of_user u t = select (λ r. r.user_id == u) t

of_user-others :
    (u w : ℕ) (t : Subscriptions) → (w == u) ≡ false → of_user u (others w t) ≡ of_user u t
of_user-others u w [] e = refl
of_user-others u w (r ∷ t) e = ground (arith, of_user-others u w t e, e)

-- The subscriptions of a user stay as they are through any requests of other users, if no two
-- subscriptions share an id, or a home, user, topic and channel.
pub subscriptions_are_own :
    (u : ℕ) (homes : Homes) (l : List (ℕ × Request)) (t : Subscriptions)
    → IsUnique t
    → All (λ x. (x.0 == u) ≡ false) l
    → of_user u (handle_all homes l t) ≡ of_user u t
unfolding handle_all
subscriptions_are_own u homes [] t h q = refl
subscriptions_are_own u homes ((w, r) ∷ l) t h q =
    let step = handle-IsLocal w homes r t (unique-IsKeyed t h) in
    subscriptions_are_own u homes l (handle w homes r t) (handle-IsUnique w homes r t h) q.1
    ∙ (sym (of_user-others u w (handle w homes r t) q.0)
        ∙ (ap (of_user u) step.same ∙ of_user-others u w t q.0))
