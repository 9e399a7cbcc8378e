-- ===== src/Homes/Settings.antt =====
-- The settings of a home: app/apis/homes/settings.py (managed_home, rename_home, add_member,
-- editable_member, change_member, remove_member).
pub mod Owners
use family_inventory.Prelude.{
  ℕ, String, Bool, true, false, not, ◌&&◌, ◌||◌, Option, none, some, List, [], ◌∷◌, ◌==◌, str_eq,
  if◌then◌else◌, exists,
}
use family_inventory.Prelude.Table
use family_inventory.Notifications.Errors.{Exception}
use family_inventory.Notifications.Result.{Result, ok, err, ◌>>=◌, ◌>>◌}
use family_inventory.Homes.Members.{
  UserType, is_owner, Home, HomeUser, User, Homes, raise, required, require, get_member, get_home,
  add_user_to_home, with_role, without_member,
}

abbrev pub forbidden : Exception
forbidden = raise "HTTPException" "You do not have permission to manage this home."

-- `membership and (membership.user_type == OWNER or user.is_admin)`
abbrev pub may_manage : User → Option HomeUser → Bool
may_manage user none = false
may_manage user (some m) = is_owner m.user_type || user.is_admin

unfoldable pub managed_home : ℕ → User → Homes → Result Home
managed_home h user s = do
  require forbidden (may_manage user (get_member user.id h s))
  required (raise "HTTPException" "Home not found.") (get_home h s)

unfoldable pub editable_member : ℕ → ℕ → Homes → Result HomeUser
editable_member h u s = do
  m ← required (raise "HTTPException" "Member not found in this home.") (get_member u h s)
  require (raise "HTTPException" "Home owners cannot be removed or demoted in settings.")
      (not (is_owner m.user_type))
  ok m

-- `name` is the trimmed name of the request.
unfoldable pub rename_home : ℕ → String → User → Homes → Result Homes
rename_home h name user s = do
  home ← managed_home h user s
  require (raise "HTTPException" "A home with this name already exists.")
      (not (exists (λ x. str_eq x.name name && not (x.id == h)) s.homes))
  ok (record s { homes = Table.update (λ x. x.id == h) (λ x. record x { name = name }) s.homes })

unfoldable pub add_member : ℕ → String → UserType → User → Homes → Result Homes
add_member h email user_type user s = do
  home ← managed_home h user s
  add_user_to_home h email user_type user s

unfoldable pub change_member : ℕ → ℕ → UserType → User → Homes → Result Homes
change_member h u user_type user s = do
  home ← managed_home h user s
  require (raise "HTTPException" "Choose resident or guest.") (not (is_owner user_type))
  m ← editable_member h u s
  ok (with_role u h user_type s)

unfoldable pub remove_member : ℕ → ℕ → User → Homes → Result Homes
remove_member h u user s = do
  home ← managed_home h user s
  m ← editable_member h u s
  ok (without_member u h s)

-- A request of the settings page.
pub data Request : Type 0 where
  renames : ℕ → String → Request
  adds : ℕ → String → UserType → Request
  changes : ℕ → ℕ → UserType → Request
  removes : ℕ → ℕ → Request

unfoldable pub handle : User → Request → Homes → Result Homes
handle user (renames h name) s = rename_home h name user s
handle user (adds h email t) s = add_member h email t user s
handle user (changes h u t) s = change_member h u t user s
handle user (removes h u) s = remove_member h u user s

-- A request that raises is rolled back.
unfoldable pub committed : Result Homes → Homes → Homes
committed (ok s') s = s'
committed (err exc) s = s

-- Requests of several users, in the order in which they commit.
unfoldable pub serve : List (User × Request) → Homes → Homes
unfolding committed
serve [] s = s
serve ((user, r) ∷ rs) s = serve rs (committed (handle user r s) s)
