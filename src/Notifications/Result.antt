-- ===== src/Notifications/Result.antt =====
-- A call that returns a value or raises an exception, for the services of app/apis/notifications.
use family_inventory.Prelude.{◌≡◌, refl, ◌⊎◌, inl, inr}
use family_inventory.Notifications.Errors.{Exception}

pub data Result {ℓ} (T : Type ℓ) : Type ℓ where
  err : (raised : Exception) → Result T
  ok : (returned : T) → Result T

-- An exception ends the chain.
infixl 5 ◌>>=◌
abbrev pub ◌>>=◌ {ℓ κ} : {T : Type ℓ} → {U : Type κ} → Result T → (T → Result U) → Result U
err raised >>= next = err raised
ok returned >>= next = next returned

pub Result-cases {ℓ} :
    {T : Type ℓ} (m : Result T) → ((t : T) × (m ≡ ok t)) ⊎ ((e : Exception) × (m ≡ err e))
Result-cases (err e) = inr (e, refl)
Result-cases (ok t) = inl (t, refl)

infixl 5 ◌>>◌
abbrev pub ◌>>◌ {ℓ κ} : {T : Type ℓ} → {U : Type κ} → Result T → Result U → Result U
err raised >> next = err raised
ok returned >> next = next
