-- ===== src/Notifications/Outbox/Claims.antt =====
-- What `claim_for_send` and `claim_one` of
-- app/apis/notifications/repository/outbox_repository.py do to the outbox.
use family_inventory.Prelude.{
  not, is_none, String, ◌≢◌, ℕ, ◌≡◌, refl, Bool, true, ◌⊎◌, inl, inr, Option, none, some, arith,
  Bool-cases, List, [], ◌∷◌, if◌then◌else◌, ◌==◌, ap,
}
use family_inventory.Prelude.Table
use family_inventory.Prelude.Table.Results.{last-nil}
use family_inventory.Prelude.Table.Claim.{claim_hit, claim_miss, claim-IsKeyed}
use family_inventory.Notifications.Outbox.{
  NotificationOutbox, Outbox, OutboxStatus, key, event_key, SendClaim, is_claimable, is_older,
  mark_sending, claim_for_send, claim_one, is_claimable_one, OutboxResult, finalize_results, settle,
  result_for, update,
}

pub key-mark_sending : (r : NotificationOutbox) → key (mark_sending r) ≡ key r
unfolding mark_sending
key-mark_sending r = refl

event_key-mark_sending : (r : NotificationOutbox) → event_key (mark_sending r) ≡ event_key r
unfolding mark_sending
event_key-mark_sending r = refl

pub is_chosen : SendClaim → Outbox → ℕ → Bool
is_chosen c t i = Table.has key i (Table.chosen key (is_claimable c) is_older c.limit t)

module _ (c : SendClaim) (t : Outbox) (keyed : Table.IsKeyed key t) where
  -- In an outbox with different ids, a claim of the sweeper leaves each row alone, or the row was
  -- pending or failed, due, unlocked and had attempts left, and is now being sent with one more
  -- attempt.
  pub claim_for_send_exact :
      (i : ℕ) (r : NotificationOutbox)
      → Table.get key i t ≡ some r
      → let (t', _) = claim_for_send c t in
        (Table.get key i t' ≡ some r)
        ⊎ ((is_claimable c r ≡ true) × (Table.get key i t' ≡ some (mark_sending r)))
  unfolding claim_for_send is_chosen
  claim_for_send_exact i r here = elim (Bool-cases (is_chosen c t i)) [
    | inl e ↦ inr (
      Table.chosen_sound key (is_claimable c) is_older c.limit t keyed i r here e,
      claim_hit key (is_claimable c) is_older c.limit mark_sending t key-mark_sending i r here e,
    )
    | inr e ↦ inl (
        claim_miss key (is_claimable c) is_older c.limit mark_sending t key-mark_sending i r here e)
  ]

  pub claim_for_send-IsKeyed : Table.IsKeyed key (claim_for_send c t).0
  unfolding claim_for_send
  claim_for_send-IsKeyed =
      claim-IsKeyed key (is_claimable c) is_older c.limit mark_sending t key-mark_sending keyed

settle-nil : (r : NotificationOutbox) → settle [] r ≡ r
unfolding settle
settle-nil r = rw (last-nil (λ (x : OutboxResult). x.outbox_id) r.id, settle)

key-settle : (rs : List OutboxResult) (r : NotificationOutbox) → key (settle rs r) ≡ key r
unfolding settle
key-settle rs r = ground arith

settle_if :
    (rs : List OutboxResult) (r : NotificationOutbox)
    → (if not (is_none (result_for r.id rs)) then settle rs r else r) ≡ settle rs r
unfolding settle
settle_if rs r = ground arith

pub finalize-get :
    (rs : List OutboxResult) (t : Outbox) (i : ℕ) (r : NotificationOutbox)
    → Table.get key i t ≡ some r
    → Table.get key i (finalize_results rs t) ≡ some (settle rs r)
unfolding finalize_results
finalize-get [] t i r h = rw settle-nil h
finalize-get (x ∷ rs) t i r h =
    rw (Table.get-update key i _ (settle (x ∷ rs)) t (key-settle (x ∷ rs)), h)
      (ap some (settle_if (x ∷ rs) r))

pub claim_one-get :
    (j now max_attempts : ℕ) (t : Outbox) (i : ℕ) (r : NotificationOutbox)
    → Table.get key i t ≡ some r
    → Table.get key i (claim_one j now max_attempts t).0
      ≡ some (if is_claimable_one j now max_attempts r then mark_sending r else r)
unfolding claim_one
claim_one-get j now m t i r h =
    rw (Table.get-update key i (is_claimable_one j now m) mark_sending t key-mark_sending, h)

pub claim_one-IsKeyed :
    (j now max_attempts : ℕ) (t : Outbox)
    → Table.IsKeyed key t
    → Table.IsKeyed key (claim_one j now max_attempts t).0
unfolding claim_one
claim_one-IsKeyed j now m t k =
    Table.update-IsKeyed key (is_claimable_one j now m) mark_sending t key-mark_sending k

pub finalize-IsKeyed :
    (rs : List OutboxResult) (t : Outbox)
    → Table.IsKeyed key t
    → Table.IsKeyed key (finalize_results rs t)
unfolding finalize_results
finalize-IsKeyed [] t k = k
finalize-IsKeyed (x ∷ rs) t k =
    Table.update-IsKeyed key _ (settle (x ∷ rs)) t (key-settle (x ∷ rs)) k

pub settle-none :
    (rs : List OutboxResult) (r : NotificationOutbox) → result_for r.id rs ≡ none → settle rs r ≡ r
unfolding settle
settle-none rs r e = rw (e, settle)

module _ (j : ℕ) (status : OutboxStatus) (last_error : Option String) (next_retry_at : Option ℕ)
    (t : Outbox) where
  pub update-IsKeyed :
      Table.IsKeyed key t → Table.IsKeyed key (update j status last_error next_retry_at t)
  unfolding update
  update-IsKeyed k = Table.update-IsKeyed key _ _ t (λ r. refl) k

  pub update-get :
      (i : ℕ) (r : NotificationOutbox)
      → Table.get key i t ≡ some r
      → Table.get key i (update j status last_error next_retry_at t)
        ≡ some (
            if r.id == j
            then record r {
              status = status;
              last_error = last_error;
              next_retry_at = next_retry_at;
            }
            else r)
  unfolding update
  update-get i r here = rw (
    Table.get-update key i (λ x. x.id == j)
        (λ (x : NotificationOutbox). record x {
          status = status;
          last_error = last_error;
          next_retry_at = next_retry_at;
        })
        t (λ x. refl),
    here,
  )

  pub update-get_ne :
      (i : ℕ) (r : NotificationOutbox)
      → j ≢ i
      → Table.get key i t ≡ some r
      → Table.get key i (update j status last_error next_retry_at t) ≡ some r
  update-get_ne i r n here = ground (arith, update-get i r here, Table.get-key key i t r here)
