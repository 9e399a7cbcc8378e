-- ===== src/Homes/Members.antt =====
-- Homes and the roles of their members: app/apis/homeuser/models.py, service.py and repository.py,
-- and app/apis/homes/service.py (create_home, delete_home).
pub mod Unique
pub mod Roles
pub mod Guards
use family_inventory.Prelude.{
  ℕ, String, Bool, true, false, not, ◌&&◌, ◌||◌, Option, none, some, List, [], ◌∷◌, ◌==◌, str_eq,
  if◌then◌else◌, is_none, exists, select,
}
use family_inventory.Prelude.Table
use family_inventory.Notifications.Errors.{Exception, ExceptionClass}
use family_inventory.Notifications.Result.{Result, ok, err, ◌>>=◌, ◌>>◌}

pub data UserType : Type 0 where
  owner residence guest : UserType

abbrev pub is_owner : UserType → Bool
is_owner owner = true
is_owner _ = false

pub record Home : Type 0 where
  pub id : ℕ
  pub name : String

pub record HomeUser : Type 0 where
  pub user_id : ℕ
  pub home_id : ℕ
  pub user_type : UserType

-- what is read of a user
pub record User : Type 0 where
  pub id : ℕ
  pub username : String
  pub email : String
  pub is_admin : Bool

pub record Homes : Type 0 where
  pub homes : List Home
  pub members : List HomeUser
  pub users : List User

-- the first row that passes a test
abbrev pub find {ℓ} : {A : Type ℓ} → (A → Bool) → List A → Option A
find p [] = none
find p (r ∷ t) = if p r then some r else find p t

-- the primary key of a member: the user and the home
abbrev pub is_member : ℕ → ℕ → HomeUser → Bool
is_member u h m = m.user_id == u && m.home_id == h

abbrev pub raise : String → String → Exception
raise name message = record {
  exception_class = ExceptionClass.other_error;
  type_name = name;
  message = message;
}

abbrev pub permission_denied : Exception
permission_denied = raise "HomePermissionDenied" ""

-- A lookup that raises if there is no row.
unfoldable pub required {ℓ} : {A : Type ℓ} → Exception → Option A → Result A
required exc none = err exc
required exc (some r) = ok r

-- A guard that raises if its test fails.
unfoldable pub require : Exception → Bool → Result (Unit {0})
require exc true = ok tt
require exc false = err exc

abbrev pub get_member : ℕ → ℕ → Homes → Option HomeUser
get_member u h s = find (is_member u h) s.members

abbrev pub get_home : ℕ → Homes → Option Home
get_home h s = Table.get (λ (x : Home). x.id) h s.homes

unfoldable pub user_is_owner : ℕ → ℕ → Homes → Bool
user_is_owner u h s = exists (λ m. is_member u h m && is_owner m.user_type) s.members

-- `create_home`: the name of a home is unique.
unfoldable pub create_home : ℕ → String → User → Homes → Result Homes
create_home new_id name current s = do
  require (raise "HomeAlreadyExists" name) (not (exists (λ h. str_eq h.name name) s.homes))
  let home : Home = record { id = new_id; name = name }
  let link : HomeUser = record { user_id = current.id; home_id = new_id; user_type = owner }
  ok (record s { homes = home ∷ s.homes; members = link ∷ s.members })

-- `delete_home`: its members go with it (ON DELETE CASCADE).
unfoldable pub delete_home : ℕ → User → Homes → Result Homes
delete_home h current s = if is_none (get_home h s) then ok s else do
  require permission_denied (user_is_owner current.id h s || current.is_admin)
  ok (record s {
    homes = select (λ x. not (x.id == h)) s.homes;
    members = select (λ m. not (m.home_id == h)) s.members;
  })

-- the rows of `add_user_to_home` once its checks have passed
abbrev pub with_member : HomeUser → Homes → Homes
with_member m s = record s { members = m ∷ s.members }

unfoldable pub add_user_to_home : ℕ → String → UserType → User → Homes → Result Homes
add_user_to_home h email user_type current s = do
  require (raise "OwnerAssignmentNotAllowed" "") (not (is_owner user_type))
  home ← required (raise "HomeNotFound" "") (get_home h s)
  target ←
      required (raise "TargetUserDoesNotExist" email) (find (λ u. str_eq u.email email) s.users)
  require permission_denied (current.is_admin || user_is_owner current.id h s)
  require (raise "AlreadyMemberException" "") (is_none (get_member target.id h s))
  ok (with_member (record { user_id = target.id; home_id = h; user_type = user_type }) s)

abbrev pub with_role : ℕ → ℕ → UserType → Homes → Homes
with_role u h role s = record s {
  members = Table.update (is_member u h) (λ m. record m { user_type = role }) s.members;
}

unfoldable pub change_user_role : ℕ → ℕ → UserType → User → Homes → Result Homes
change_user_role h u new_role current s = do
  require (raise "OwnerAssignmentNotAllowed" "") (not (is_owner new_role))
  home ← required (raise "HomeNotFound" "") (get_home h s)
  require permission_denied (current.is_admin || user_is_owner current.id h s)
  m ← required (raise "TargetUserDoesNotExist" "") (get_member u h s)
  ok (with_role u h new_role s)

abbrev pub without_member : ℕ → ℕ → Homes → Homes
without_member u h s = record s { members = select (λ m. not (is_member u h m)) s.members }

unfoldable pub remove_user_from_home : ℕ → ℕ → User → Homes → Result Homes
remove_user_from_home h u current s = do
  home ← required (raise "HomeNotFound" "") (get_home h s)
  require permission_denied (current.is_admin || user_is_owner current.id h s)
  m ← required (raise "TargetUserDoesNotExist" "") (get_member u h s)
  ok (without_member u h s)
