-- ===== src/Notifications/Inbox/Reading.antt =====
-- Reading the inbox: app/apis/notifications/services/inbox.py.
use family_inventory.Prelude.{
  ℕ, suc, ◌≤◌, ◌≡◌, refl, sym, ◌∙◌, ap, Bool, true, false, not, ◌&&◌, Option, none, some, [], ◌∷◌,
  arith, leb, ◌==◌, ==_iff, Bool-cases, inl, inr, length, select, sort_by, is_none, length-sort_by,
  take_all,
}
use family_inventory.Prelude.Table
use family_inventory.Notifications.Inbox.{
  InAppNotification, Inbox, key, is_listed, list_inbox, unread_count, mark_read, in_home,
}

select-same :
    (p q : InAppNotification → Bool) (t : Inbox)
    → ((r : InAppNotification) → p r ≡ q r)
    → select p t ≡ select q t
select-same p q [] k = refl
select-same p q (r ∷ t) k = ground (arith, k r, select-same p q t k)

-- The unread count is the length of the unread list of the same user and home, when the limit leaves
-- room for it.
pub unread_counted :
    (user_id : ℕ) (home_id : Option ℕ) (limit : ℕ) (t : Inbox)
    → unread_count user_id home_id t ≤ limit
    → length (list_inbox user_id home_id true limit 0 t) ≡ unread_count user_id home_id t
unfolding list_inbox unread_count is_listed
unread_counted user_id home_id limit t room =
    let newer : InAppNotification → InAppNotification → Bool =
      λ a b. leb b.created_at a.created_at in
    let p : InAppNotification → Bool =
      λ r. r.user_id == user_id && (is_none r.read_at && in_home home_id r) in
    let same : select (is_listed user_id home_id true) t ≡ select p t =
      select-same (is_listed user_id home_id true) p t (λ r. ground arith) in
    let all = length-sort_by newer (select (is_listed user_id home_id true) t) ∙ ap length same in
    ap length
      (take_all limit (sort_by newer (select (is_listed user_id home_id true) t)) (rw all room))
    ∙ all

others-mark :
    (user_id i now : ℕ) (t : Inbox)
    → select (λ r. not (r.user_id == user_id)) (mark_read user_id i now t).0
      ≡ select (λ r. not (r.user_id == user_id)) t
unfolding mark_read
others-mark user_id i now [] = refl
others-mark user_id i now (r ∷ t) = ground (arith, others-mark user_id i now t)

-- A row of a user that has no row with the id is not counted differently.
count-absent :
    (user_id : ℕ) (home_id : Option ℕ) (i now : ℕ) (t : Inbox)
    → Table.has key i t ≡ false
    → unread_count user_id home_id (mark_read user_id i now t).0 ≡ unread_count user_id home_id t
unfolding mark_read unread_count
count-absent user_id home_id i now [] h = refl
count-absent user_id home_id i now (r ∷ t) h =
    ground (arith, count-absent user_id home_id i now t, h)

count-mark :
    (user_id i now : ℕ) (t : Inbox) (r : InAppNotification)
    → Table.IsKeyed key t
    → Table.get key i t ≡ some r
    → r.user_id ≡ user_id
    → r.read_at ≡ none
    → suc (unread_count user_id none (mark_read user_id i now t).0) ≡ unread_count user_id none t
unfolding mark_read unread_count
count-mark user_id i now [] r k e u n = cc e
count-mark user_id i now (x ∷ t) r k e u n = elim (Bool-cases (x.id == i)) [
  | inl m ↦
      let same : some x ≡ some r = rw m at e in
      let row : x ≡ r = cc same in
      let own : x.user_id ≡ user_id = ap (λ (y : InAppNotification). y.user_id) row ∙ u in
      let fresh : x.read_at ≡ none = ap (λ (y : InAppNotification). y.read_at) row ∙ n in
      let away : Table.has key i t ≡ false =
        ap (λ j. Table.has key j t) (sym ((==_iff x.id i).0 m)) ∙ k.0 in
      ground (arith, m, own, fresh, count-absent user_id none i now t away)
  | inr m ↦
      let there : Table.get key i t ≡ some r = rw m at e in
      ground (arith, m, count-mark user_id i now t r k.1 there u n)
]

marked :
    (user_id i now : ℕ) (t : Inbox) (r : InAppNotification)
    → Table.get key i t ≡ some r
    → r.user_id ≡ user_id
    → (mark_read user_id i now t).1 ≡ true
unfolding mark_read
marked user_id i now [] r e u = cc e
marked user_id i now (x ∷ t) r e u = elim (Bool-cases (x.id == i)) [
  | inl m ↦
      let same : some x ≡ some r = rw m at e in
      let row : x ≡ r = cc same in
      let own : x.user_id ≡ user_id = ap (λ (y : InAppNotification). y.user_id) row ∙ u in
      ground (arith, m, own)
  | inr m ↦
      let there : Table.get key i t ≡ some r = rw m at e in
      ground (arith, m, marked user_id i now t r there u)
]

-- Marking an unread notification of the user as read succeeds and lowers the user's unread count by
-- one, and leaves the notifications of every other user as they are, if the ids of the notifications
-- are different.
pub read_counted :
    (user_id i now : ℕ) (t : Inbox) (r : InAppNotification)
    → Table.IsKeyed key t
    → Table.get key i t ≡ some r
    → r.user_id ≡ user_id
    → r.read_at ≡ none
    → ((mark_read user_id i now t).1 ≡ true)
      × (suc (unread_count user_id none (mark_read user_id i now t).0)
          ≡ unread_count user_id none t)
      × (select (λ r. not (r.user_id == user_id)) (mark_read user_id i now t).0
          ≡ select (λ r. not (r.user_id == user_id)) t)
read_counted user_id i now t r k e u n = (
  marked user_id i now t r e u,
  count-mark user_id i now t r k e u n,
  others-mark user_id i now t,
)
