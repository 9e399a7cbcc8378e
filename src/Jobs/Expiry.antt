-- ===== src/Jobs/Expiry.antt =====
-- The expiry job: `run_inventory_expiry_job` of app/jobs/inventory_expiry_job.py. The calls of a batch
-- are taken in the order of its rows, in which their transactions commit.
pub mod Drained
use Prim.Native.String.{◌++◌ as append}
use family_inventory.Prelude.{
  ℕ, zero, suc, ◌+◌, String, Bool, true, false, ◌&&◌, Option, none, some, List, [], ◌∷◌,
  if◌then◌else◌, length, take, is_none,
}
use family_inventory.Notifications.Errors.{Exception, error_text}
use family_inventory.Notifications.Result.{Result, ok, err}
use family_inventory.Notifications.Outbox.{Outbox}
use family_inventory.Inventory.Alerts.{
  InventoryItem, InventoryExpiryAlert, InventoryAlertType, expired, expiring_soon, Alerts, Fetch,
  Registration, register_expiry_alerts, get_unpublished_alerts_with_items, mark_alerts_published,
  mark_alerts_failed,
}
use family_inventory.Inventory.Expiry.{Outside, publish_expiry_event}

abbrev pub max_batches : ℕ
max_batches = 100

pub record State : Type 0 where
  pub alerts : Alerts
  pub outbox : Outbox

-- What the results of a batch are collected in.
pub record Results : Type 0 where
  pub outbox : Outbox
  pub published_ids : List ℕ
  pub failed_ids : List ℕ
  pub errors : List String

-- A run of the job: what is outside, the day, the time, the limit, the time of expiry in days, the
-- items, the ids of new alerts, and the error of a call that is cut off by its timeout, whose
-- transaction is rolled back.
pub record Run : Type 0 where
  pub outside : Outside
  pub today : ℕ
  pub now : ℕ
  pub limit : ℕ
  pub days : ℕ
  pub items : List InventoryItem
  pub new_id : ℕ → ℕ
  pub cut_off : ℕ → Option Exception

module _ (r : Run) where
  -- `_publish_one`
  unfoldable pub publish_one :
      InventoryAlertType → InventoryExpiryAlert → InventoryItem → Outbox → Outbox × Option Exception
  publish_one alert_type a i t = elim (r.cut_off a.id) [
    | some exc ↦ (t, some exc)
    | none ↦ elim (publish_expiry_event r.outside i alert_type r.today r.now 5 t) [
      | ok attempt ↦ (attempt.outbox, none)
      | err exc ↦ (t, some exc)
    ]
  ]

  abbrev pub collected : ℕ → Option Exception → Results → Results
  collected i none x = record x { published_ids = i ∷ x.published_ids }
  collected i (some exc) x = record x {
    failed_ids = i ∷ x.failed_ids;
    errors = error_text exc ∷ x.errors;
  }

  -- step 2: publish the rows of a batch and collect the results
  unfoldable pub publish_batch :
      InventoryAlertType → List (InventoryExpiryAlert × InventoryItem) → Outbox → Results
  publish_batch alert_type [] t = record {
    outbox = t;
    published_ids = [];
    failed_ids = [];
    errors = [];
  }
  publish_batch alert_type ((a, i) ∷ rows) t =
      let (t', exc) = publish_one alert_type a i t in
      collected a.id exc (publish_batch alert_type rows t')

  -- `"; ".join(errors)`
  unfoldable pub join : List String → String
  join [] = ""
  join (e ∷ []) = e
  join (e ∷ f ∷ es) = append e (append "; " (join (f ∷ es)))

  -- step 3: the marks. With no ids nothing is marked, as in the code.
  unfoldable pub mark_batch : Results → Alerts → Alerts
  mark_batch x t =
      (mark_alerts_failed x.failed_ids (join (take 3 x.errors))
        (mark_alerts_published x.published_ids r.now t).0).0

  unfoldable pub fetch_of : InventoryAlertType → Fetch
  fetch_of alert_type = record {
    alert_type = some alert_type;
    home_id = none;
    limit = r.limit;
    max_attempts = 5;
    locked = λ i. false;
    locked_item = λ i. false;
  }

  unfoldable pub rows_of : InventoryAlertType → State → List (InventoryExpiryAlert × InventoryItem)
  rows_of alert_type s = get_unpublished_alerts_with_items (fetch_of alert_type) r.items s.alerts

  unfoldable pub after_batch :
      InventoryAlertType → List (InventoryExpiryAlert × InventoryItem) → State → State
  after_batch alert_type rows s =
      let x = publish_batch alert_type rows s.outbox in
      record { alerts = mark_batch x s.alerts; outbox = x.outbox }

  -- `_publish_and_mark`, for a number of batches: the state and the number of published alerts
  unfoldable pub publish_and_mark : InventoryAlertType → ℕ → State → State × ℕ
  publish_and_mark alert_type zero s = (s, 0)
  publish_and_mark alert_type (suc n) s =
      let rows = rows_of alert_type s in
      elim rows [
        | [] ↦ (s, 0)
        | ◌∷◌ row rest ↦
            let x = publish_batch alert_type (row ∷ rest) s.outbox in
            let (s', k) = publish_and_mark alert_type n (after_batch alert_type (row ∷ rest) s) in
            (s', length x.published_ids + k)
      ]

  unfoldable pub registration_of : InventoryAlertType → ℕ → Registration
  registration_of alert_type days = record {
    alert_type = alert_type;
    today = r.today;
    days = days;
    home_id = none;
    limit = r.limit;
    new_id = r.new_id;
  }

  unfoldable pub publish_both : State → State
  publish_both s =
      (publish_and_mark expired max_batches (publish_and_mark expiring_soon max_batches s).0).0

  -- The job returns early when no alert was registered.
  unfoldable pub run_inventory_expiry_job : State → State
  run_inventory_expiry_job s =
      let (t, expiring_ids) =
        register_expiry_alerts (registration_of expiring_soon r.days) r.items s.alerts in
      let (t', expired_ids) = register_expiry_alerts (registration_of expired 7) r.items t in
      let registered : State = record s { alerts = t' } in
      elim expiring_ids [
        | [] ↦ elim expired_ids [ [] ↦ registered | ◌∷◌ i is ↦ publish_both registered ]
        | ◌∷◌ i is ↦ publish_both registered
      ]
