-- ===== src/Notifications/Inbox/Stored.antt =====
-- What the in-app sender of app/apis/notifications/worker/channels.py stores.
use mathlib.Core.Path.{subst}
use family_inventory.Prelude.{
  ℕ, ◌≡◌, refl, ◌∙◌, ap, String, Bool, false, none, some, List, [], ◌∷◌, arith, Bool-cases,
  Option-cases, inl, inr, exists,
}
use family_inventory.Notifications.Result.{Result, ok, err, Result-cases}
use family_inventory.Notifications.Errors.{Exception}
use family_inventory.Homes.Members.{find}
use family_inventory.Notifications.Inbox.{
  InAppNotification, Inbox, Texts, Sending, is_for, insert_row, ids_of, new_row, send_in_app,
  mark_read, is_own,
}

-- No two rows are of the same event and user.
unfoldable pub IsSingle : Inbox → Type 0
IsSingle [] = Unit
IsSingle (r ∷ t) = (exists (is_for r.event_id r.user_id) t ≡ false) × IsSingle t

find-exists-false :
    (q : InAppNotification → Bool) (t : Inbox) → find q t ≡ none → exists q t ≡ false
find-exists-false q [] h = refl
find-exists-false q (r ∷ t) h = ground (arith, find-exists-false q t)

pub insert-IsSingle : (v : InAppNotification) (t : Inbox) → IsSingle t → IsSingle (insert_row v t)
unfolding insert_row IsSingle
insert-IsSingle v t h = elim (Option-cases (find (is_for v.event_id v.user_id) t)) [
  | inl e ↦ rw e (find-exists-false (is_for v.event_id v.user_id) t e, h)
  | inr (r, e) ↦ rw e h
]

exists-mark :
    (e u user i now : ℕ) (t : Inbox)
    → exists (is_for e u) (mark_read user i now t).0 ≡ exists (is_for e u) t
unfolding mark_read
exists-mark e u user i now [] = refl
exists-mark e u user i now (r ∷ t) = ground (arith, exists-mark e u user i now t)

pub mark-IsSingle : (user i now : ℕ) (t : Inbox) → IsSingle t → IsSingle (mark_read user i now t).0
unfolding mark_read IsSingle
mark-IsSingle user i now [] h = tt
mark-IsSingle user i now (r ∷ t) h = elim (Bool-cases (is_own user i r)) [
  | inl e ↦
      rw e (exists-mark r.event_id r.user_id user i now t ∙ h.0, mark-IsSingle user i now t h.1)
  | inr e ↦
      rw e (exists-mark r.event_id r.user_id user i now t ∙ h.0, mark-IsSingle user i now t h.1)
]

-- What the worker and the users do to the inbox.
pub data Action : Type 0 where
  sends : Sending → Action
  reads : (user_id notification_id now : ℕ) → Action

abbrev pub stored : Inbox → Result (Inbox × String) → Inbox
stored t (err e) = t
stored t (ok r) = r.0

-- insert_row finds the row of the event and the user afterwards
insert-found :
    (v : InAppNotification) (t : Inbox)
    → (r : InAppNotification) × (find (is_for v.event_id v.user_id) (insert_row v t) ≡ some r)
unfolding insert_row
insert-found v t = elim (Option-cases (find (is_for v.event_id v.user_id) t)) [
  | inl e ↦ (v, rw (insert_row, e) (ground arith))
  | inr (r, e) ↦ (r, rw (insert_row, e) e)
]

insert-taken :
    (w : InAppNotification) (t : Inbox) (r : InAppNotification)
    → find (is_for w.event_id w.user_id) t ≡ some r
    → insert_row w t ≡ t
unfolding insert_row
insert-taken w t r e = rw (insert_row, e) refl

insert_again :
    (v w : InAppNotification) (t : Inbox)
    → w.event_id ≡ v.event_id
    → w.user_id ≡ v.user_id
    → insert_row w (insert_row v t) ≡ insert_row v t
insert_again v w t a b =
    let (r, e) = insert-found v t in
    insert-taken w (insert_row v t) r (
      ap (λ k. find (is_for k w.user_id) (insert_row v t)) a
      ∙ (ap (λ k. find (is_for v.event_id k) (insert_row v t)) b ∙ e))

module _ (x : Texts) where
  unfoldable pub act : Action → Inbox → Inbox
  act (sends c) t = stored t (send_in_app x c t)
  act (reads user i now) t = (mark_read user i now t).0

  unfoldable pub act_all : List Action → Inbox → Inbox
  unfolding act
  act_all [] t = t
  act_all (a ∷ l) t = act_all l (act a t)

  act-IsSingle : (a : Action) (t : Inbox) → IsSingle t → IsSingle (act a t)
  unfolding act send_in_app
  act-IsSingle (sends c) t h = elim (Result-cases (ids_of x c.recipient c.headers)) [
    | inl (v, e) ↦ rw e (insert-IsSingle (new_row x c v) t h)
    | inr (exc, e) ↦ rw e h
  ]
  act-IsSingle (reads user i now) t h = mark-IsSingle user i now t h

  -- However often the worker sends and the users mark rows as read, the inbox has at most one row per
  -- event and user, if it had at the start.
  pub act_all-IsSingle : (l : List Action) (t : Inbox) → IsSingle t → IsSingle (act_all l t)
  unfolding act_all
  act_all-IsSingle [] t h = h
  act_all-IsSingle (a ∷ l) t h = act_all-IsSingle l (act a t) (act-IsSingle a t h)

  send-row :
      (c : Sending) (t : Inbox) (ids : ℕ × ℕ × ℕ)
      → ids_of x c.recipient c.headers ≡ ok ids
      → send_in_app x c t ≡ ok (insert_row (new_row x c ids) t, "stored")
  unfolding send_in_app
  send-row c t ids e = rw (send_in_app, e) refl

  send-failed :
      (c : Sending) (t : Inbox) (exc : Exception)
      → ids_of x c.recipient c.headers ≡ err exc
      → send_in_app x c t ≡ err exc
  unfolding send_in_app
  send-failed c t exc e = rw (send_in_app, e) refl

  -- A message whose in-app notification was stored can be sent again, at another time and with
  -- another id for a row: the call succeeds and leaves the inbox as it is.
  pub in_app_again :
      (c : Sending) (i now : ℕ) (t t' : Inbox) (answer : String)
      → send_in_app x c t ≡ ok (t', answer)
      → send_in_app x (record c { new_id = i; now = now }) t' ≡ ok (t', "stored")
  in_app_again c i now t t' answer done = elim (Result-cases (ids_of x c.recipient c.headers)) [
    | inr (exc, e) ↦ cc (done, send-failed c t exc e)
    | inl (ids, e) ↦
        let d : Sending = record c { new_id = i; now = now } in
        let v = new_row x c ids in
        let same : insert_row v t ≡ t' = cc (done, send-row c t ids e) in
        subst (λ b. send_in_app x d b ≡ ok (b, "stored")) same
          (send-row d (insert_row v t) ids e
            ∙ ap (λ b. ok (b, "stored")) (insert_again v (new_row x d ids) t refl refl))
  ]
