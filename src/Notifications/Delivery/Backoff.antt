-- ===== src/Notifications/Delivery/Backoff.antt =====
-- `_next_retry_at` of app/apis/notifications/worker/handlers.py, and `_outbox_next_retry_at` of the
-- sweeper, which is the same function: 1, 2, 4, 8, 16, 32 and then 60 minutes.
use family_inventory.Prelude.{ℕ, zero, suc, ◌+◌, ◌-◌, ◌*◌, ◌^◌, ◌≤◌, ◌≡◌, min, arith}
use native.Mathlib.Nat.{pow-suc}

-- `attempt_count - 1` stops at 0, as `max(0, attempt_count - 1)` does.
unfoldable pub backoff_minutes : ℕ → ℕ
backoff_minutes attempt_count = min 60 (2 ^ (attempt_count - 1))

unfoldable pub next_retry_at : ℕ → ℕ → ℕ
next_retry_at now attempt_count = now + backoff_minutes attempt_count * 60

pow-pos : (n : ℕ) → 1 ≤ 2 ^ n
pow-pos zero = omega arith
pow-pos (suc n) = rw pow-suc (omega (arith, pow-pos n))

-- A retry is set at least one minute and at most one hour ahead.
pub backoff_bounds :
    (now attempt_count : ℕ)
    → (now + 60 ≤ next_retry_at now attempt_count) × (next_retry_at now attempt_count ≤ now + 3600)
unfolding backoff_minutes next_retry_at
backoff_bounds now n = (omega (arith, pow-pos (n - 1)), omega arith)

-- From the first attempt on the pause doubles until it reaches the hour.
pub backoff_doubles : (n : ℕ) → backoff_minutes (suc (suc n)) ≡ min 60 (2 * backoff_minutes (suc n))
unfolding backoff_minutes
backoff_doubles n =
    let first : suc n - 1 ≡ n = omega arith in
    let second : suc (suc n) - 1 ≡ suc n = omega arith in rw (second, first, pow-suc) (omega arith)
