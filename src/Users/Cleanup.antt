-- ===== src/Users/Cleanup.antt =====
-- The deletion of stale inactive accounts: app/jobs/user_cleanup_job.py.
use family_inventory.Prelude.{ℕ, ◌+◌, ◌*◌, Bool, not, ◌&&◌, ltb, length, select}
use family_inventory.Users.{User, Users, Settings}
use family_inventory.Users.Activation.{is_over}

-- The WHERE of the DELETE. The cutoff is the retention before `now`; no row is older than the time 0.
unfoldable pub is_stale : Settings → ℕ → User → Bool
is_stale c now r =
    not r.is_active
    && (ltb (r.created_at + c.unactivated_user_retention_days * 86400) now
        && is_over r.activation_expires_at now)

-- `cleanup_users`: the rows that stay, and how many were deleted.
unfoldable pub cleanup_users : Settings → ℕ → Users → Users × ℕ
unfolding is_stale
cleanup_users c now t = (select (λ r. not (is_stale c now r)) t, length (select (is_stale c now) t))
