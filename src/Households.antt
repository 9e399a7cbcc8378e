-- ===== src/Households.antt =====
-- The categories of a household: app/apis/household_categories/models.py, repository.py and
-- service.py, and the categories in app/apis/homes/settings.py.
use family_inventory.Prelude.{
  ℕ, String, Bool, not, ◌&&◌, ◌||◌, List, ◌∷◌, ◌==◌, leb, str_eq, if◌then◌else◌, is_none, exists,
  select, sort_by,
}
use family_inventory.Prelude.Table
use family_inventory.Notifications.Errors.{Exception}
use family_inventory.Notifications.Result.{Result, ok, err, ◌>>=◌, ◌>>◌}
use family_inventory.Homes.Members.{
  User, Homes, find, raise, required, require, get_member, user_is_owner,
}
use family_inventory.Homes.Settings.{managed_home}

pub record HouseholdCategory : Type 0 where
  pub id : ℕ
  pub home_id : ℕ
  pub name : String

abbrev pub Categories : Type 0
Categories = List HouseholdCategory

abbrev pub key : HouseholdCategory → ℕ
key r = r.id

-- the columns of uq_household_category_home_name
abbrev pub is_named : ℕ → String → HouseholdCategory → Bool
is_named h name r = r.home_id == h && str_eq r.name name

abbrev pub name_conflict : String → Exception
name_conflict name = raise "HouseholdCategoryNameConflict" name

-- `create`: INSERT .. ON CONFLICT DO NOTHING, which inserts nothing if the name is taken.
unfoldable pub create : HouseholdCategory → Categories → Result Categories
create category t =
    if exists (is_named category.home_id category.name) t
    then err (name_conflict category.name)
    else ok (category ∷ t)

-- `list_by_home`; `le` is the order of names in the database.
unfoldable pub list_by_home :
    (HouseholdCategory → HouseholdCategory → Bool) → ℕ → Categories → Categories
list_by_home le h t = sort_by le (select (λ r. r.home_id == h) t)

abbrev pub contains_id : ℕ → List ℕ → Bool
contains_id i ids = exists (λ k. k == i) ids

-- `lock_for_inventory`
unfoldable pub lock_for_inventory : ℕ → List ℕ → Categories → Categories
lock_for_inventory h category_ids t =
    sort_by (λ (a b : HouseholdCategory). leb a.id b.id)
      (select (λ r. r.home_id == h && contains_id r.id category_ids) t)

abbrev pub inventory_access_denied : Exception
inventory_access_denied = raise "InventoryAccessDenied" ""

-- `user_has_access`
abbrev pub user_has_access : ℕ → ℕ → Homes → Bool
user_has_access u h s = not (is_none (get_member u h s))

-- `create_category`; `new_id` is the uuid4 of the row.
unfoldable pub create_category : ℕ → ℕ → String → User → Homes → Categories → Result Categories
create_category new_id h name current homes t = do
  require inventory_access_denied
      (user_is_owner current.id h homes || (current.is_admin && user_has_access current.id h homes))
  create (record { id = new_id; home_id = h; name = name }) t

-- `home_category`
unfoldable pub home_category : ℕ → ℕ → Categories → Result HouseholdCategory
home_category h category_id t =
    required (raise "HTTPException" "Category not found in this home.")
      (find (λ r. r.id == category_id && r.home_id == h) t)

abbrev pub taken_name : Exception
taken_name = raise "HTTPException" "A category with this name already exists in this home."

abbrev pub in_use : Exception
in_use =
    raise "HTTPException"
      "Move this category's inventory items to another category before deleting."

-- `rename_category`: the unique constraint counts the other rows only.
unfoldable pub rename_category : ℕ → ℕ → String → User → Homes → Categories → Result Categories
rename_category h category_id name user homes t = do
  home ← managed_home h user homes
  category ← home_category h category_id t
  require taken_name (not (exists (λ r. not (r.id == category.id) && is_named h name r) t))
  ok (
      Table.update (λ (r : HouseholdCategory). r.id == category.id) (λ r. record r { name = name })
        t)

-- `delete_category`; `used` tells whether an item references a category (ON DELETE RESTRICT).
unfoldable pub delete_category : ℕ → ℕ → (ℕ → Bool) → User → Homes → Categories → Result Categories
delete_category h category_id used user homes t = do
  home ← managed_home h user homes
  category ← home_category h category_id t
  require in_use (not (used category.id))
  ok (select (λ r. not (r.id == category.id)) t)
