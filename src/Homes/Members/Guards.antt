-- ===== src/Homes/Members/Guards.antt =====
-- What holds after a call that checks guards and then returns a new state: the services raise from a
-- guard and their transaction is rolled back (app/core/database/session.py).
use family_inventory.Prelude.{◌≡◌, refl, Bool, true, false, Option, none, some}
use family_inventory.Notifications.Result.{Result, ok, err, ◌>>=◌, ◌>>◌}
use family_inventory.Notifications.Errors.{Exception}
use family_inventory.Homes.Members.{require, required}

-- The state after a call: an exception leaves it.
abbrev pub after {ℓ} : {A : Type ℓ} → A → Result A → A
after s (err e) = s
after s (ok s') = s'

module _ {S : Type 0} (P : S → Type 0) (s : S) (before : P s) where
  pub after-err : (e : Exception) → P (after s (err e))
  after-err e = before

  -- past a guard
  pub after-require :
      (e : Exception) (b : Bool) (rest : Result S)
      → (b ≡ true → P (after s rest))
      → P (after s (require e b >> rest))
  unfolding require
  after-require e true rest h = h refl
  after-require e false rest h = before

  -- past a lookup
  pub after-required :
      {A : Type 0} (e : Exception) (o : Option A) (rest : A → Result S)
      → ((a : A) → o ≡ some a → P (after s (rest a)))
      → P (after s (required e o >>= rest))
  unfolding required
  after-required e none rest h = before
  after-required e (some a) rest h = h a refl

  -- past a call that may raise
  pub after-bind :
      {A : Type 0} (m : Result A) (rest : A → Result S)
      → ((a : A) → m ≡ ok a → P (after s (rest a)))
      → P (after s (m >>= rest))
  after-bind (err e) rest h = before
  after-bind (ok a) rest h = h a refl

  pub after-then :
      (m : Result (Unit {0})) (rest : Result S)
      → (m ≡ ok tt → P (after s rest))
      → P (after s (m >> rest))
  after-then (err e) rest h = before
  after-then (ok tt) rest h = h refl
