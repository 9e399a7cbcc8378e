-- ===== src/Users/Requests.antt =====
-- The requests that change accounts, one after another, and the cleanup between them:
-- app/apis/users/router.py and app/jobs/user_cleanup_job.py. A request that raises is rolled back.
use family_inventory.Prelude.{ℕ, String, List, [], ◌∷◌}
use family_inventory.Homes.Members.Guards.{after}
use family_inventory.Users.{UserBase, Users, Settings, Platform, Fresh, Accounts, with_users}
use family_inventory.Users.Activation.{register_user, resend_activation, create_user}
use family_inventory.Users.Auth.{request_password_reset, reset_password}
use family_inventory.Users.Cleanup.{cleanup_users}

pub data Request : Type 0 where
  registers : UserBase → Users → Fresh → Request
  resends : (email : String) → Fresh → Request
  activates : (key password salt : String) → Request
  asks_reset : (email : String) → Fresh → Request
  resets : (token password salt : String) → Request
  cleans : Request

module _ (p : Platform) (c : Settings) where
  unfoldable pub serve : ℕ → Request → Accounts p → Accounts p
  serve now (registers user_data seen f) s = after s (register_user p c user_data seen f now s)
  serve now (resends email f) s = resend_activation p c email f now s
  serve now (activates key password salt) s = after s (create_user p c key password salt now s)
  serve now (asks_reset email f) s = request_password_reset p c email f now s
  serve now (resets token password salt) s = after s (reset_password p c token password salt now s)
  serve now cleans s = with_users p (cleanup_users c now s.users).0 s

  unfoldable pub serve_all : List (ℕ × Request) → Accounts p → Accounts p
  unfolding serve
  serve_all [] s = s
  serve_all ((now, r) ∷ rs) s = serve_all rs (serve now r s)
