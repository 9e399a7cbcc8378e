-- ===== src/Notifications/Outbox/Runs.antt =====
-- The outbox over every sequence of what its users do to it: the sweeper
-- (app/apis/notifications/worker/sweeper.py) and the producers of events, through
-- app/apis/notifications/repository/outbox_repository.py.
use family_inventory.Prelude.{
  ◌⊎◌, ap, ◌∙◌, ℕ, ◌≡◌, ◌≢◌, String, false, Option, none, some, List, [], ◌∷◌, arith, All,
  Bool-cases, Option-cases, inl, inr, if◌then◌else◌,
}
use family_inventory.Prelude.Table
use family_inventory.Notifications.Outbox.{
  NotificationOutbox, Outbox, OutboxStatus, StatusWord, key, event_key, SendClaim, is_claimable,
  claim_for_send, claim_one, is_claimable_one, OutboxResult, finalize_results, result_for, ensure,
  update,
}
use family_inventory.Notifications.Outbox.Claims.{
  claim_for_send_exact, claim_for_send-IsKeyed, finalize-get, claim_one-get, claim_one-IsKeyed,
  finalize-IsKeyed, update-IsKeyed, update-get_ne, settle-none,
}
use family_inventory.Notifications.Outbox.Ensure.{ensure-new, ensure-old}

-- A claim of the sweeper, a claim by a producer, the results of a sweep, and a new event.
pub data Action : Type 0 where
  claims : SendClaim → Action
  claims_one : ℕ → ℕ → ℕ → Action
  finalizes : List OutboxResult → Action
  updates : ℕ → OutboxStatus → Option String → Option ℕ → Action
  ensures : NotificationOutbox → Action

unfoldable pub step : Action → Outbox → Outbox
step (claims c) t = (claim_for_send c t).0
step (claims_one i now max_attempts) t = (claim_one i now max_attempts t).0
step (finalizes rs) t = finalize_results rs t
step (updates i s e n) t = update i s e n t
step (ensures v) t = if Table.has key v.id t then t else (ensure v t).0

unfoldable pub run : List Action → Outbox → Outbox
run [] t = t
run (a ∷ acts) t = run acts (step a t)

-- The action carries no result for the row of an id.
abbrev pub NotNamed : ℕ → Action → Type 0
NotNamed i (finalizes rs) = result_for i rs ≡ none
NotNamed i (updates j s e n) = j ≢ i
NotNamed i _ = Unit

-- Claimed or sent, in whatever case the word is spelled.
abbrev pub IsTaken : NotificationOutbox → Type 0
IsTaken r = (r.status.word ≡ StatusWord.sending) ⊎ (r.status.word ≡ StatusWord.sent)

ensure-get :
    (v : NotificationOutbox) (t : Outbox) (i : ℕ) (r : NotificationOutbox)
    → Table.has key v.id t ≡ false
    → Table.get key i t ≡ some r
    → Table.get key i (ensure v t).0 ≡ some r
ensure-get v t i r new here = elim (Option-cases (Table.get event_key v.event_id t)) [
  | inl n ↦ rw (ensure-new v t n) (ground (arith, Table.has-of-get key i t r here))
  | inr (x, e) ↦ rw (ensure-old v x t e) here
]

ensure-IsKeyed :
    (v : NotificationOutbox) (t : Outbox)
    → Table.has key v.id t ≡ false
    → Table.IsKeyed key t
    → Table.IsKeyed key (ensure v t).0
ensure-IsKeyed v t new k = elim (Option-cases (Table.get event_key v.event_id t)) [
  | inl n ↦ rw (ensure-new v t n) (new, k)
  | inr (x, e) ↦ rw (ensure-old v x t e) k
]

pub step-IsKeyed : (a : Action) (t : Outbox) → Table.IsKeyed key t → Table.IsKeyed key (step a t)
unfolding step
step-IsKeyed (claims c) t k = claim_for_send-IsKeyed c t k
step-IsKeyed (claims_one i now m) t k = claim_one-IsKeyed i now m t k
step-IsKeyed (finalizes rs) t k = finalize-IsKeyed rs t k
step-IsKeyed (updates i s e n) t k = update-IsKeyed i s e n t k
step-IsKeyed (ensures v) t k = elim (Bool-cases (Table.has key v.id t)) [
  | inl e ↦ rw e k
  | inr e ↦ rw e (ensure-IsKeyed v t e k)
]

module _ (i : ℕ) (r : NotificationOutbox) (taken : IsTaken r) where
  not-claimable : (c : SendClaim) → is_claimable c r ≡ false
  unfolding is_claimable
  not-claimable c = ground arith

  not-claimable_one : (j now m : ℕ) → is_claimable_one j now m r ≡ false
  unfolding is_claimable_one
  not-claimable_one j now m = ground arith

  step-taken :
      (a : Action) (t : Outbox)
      → Table.IsKeyed key t
      → Table.get key i t ≡ some r
      → NotNamed i a
      → Table.get key i (step a t) ≡ some r
  unfolding step
  step-taken (claims c) t k here n = elim (claim_for_send_exact c t k i r here) [
    | inl e ↦ e
    | inr (f, _) ↦ cc (f, not-claimable c)
  ]
  step-taken (claims_one j now m) t k here n =
      rw (claim_one-get j now m t i r here, not-claimable_one j now m)
  step-taken (finalizes rs) t k here n =
      rw (finalize-get rs t i r here)
        (ap some (settle-none rs r (ap (λ j. result_for j rs) (Table.get-key key i t r here) ∙ n)))
  step-taken (updates j s e m) t k here n = update-get_ne j s e m t i r n here
  step-taken (ensures v) t k here n = elim (Bool-cases (Table.has key v.id t)) [
    | inl e ↦ rw e here
    | inr e ↦ rw e (ensure-get v t i r e here)
  ]

  -- In an outbox with different ids, a row that is claimed or sent is left alone by every claim, by
  -- every event that is ensured and by every result or update for other rows, in any number and
  -- order.
  pub taken_waits :
      (acts : List Action) (t : Outbox)
      → Table.IsKeyed key t
      → Table.get key i t ≡ some r
      → All (NotNamed i) acts
      → Table.get key i (run acts t) ≡ some r
  unfolding run
  taken_waits [] t k here n = here
  taken_waits (a ∷ acts) t k here n =
      taken_waits acts (step a t) (step-IsKeyed a t k) (step-taken a t k here n.0) n.1
