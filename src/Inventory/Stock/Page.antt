-- ===== src/Inventory/Stock/Page.antt =====
-- The settings page of a home, with its members and the number of items in each category:
-- app/apis/homes/settings.py (get_settings) and list_members_with_users of
-- app/apis/homeuser/repository.py.
use mathlib.Core.List.{Memᴰ}
use mathlib.Core.List.Memᴰ
use mathlib.Core.List.Memᴰ.{head, tail}
use mathlib.Core.Path.{subst}
use family_inventory.Prelude.Membership.{mem-select, mem-sort_by, All-mem}
use family_inventory.Prelude.Table
use family_inventory.Households
use family_inventory.Prelude.{
  ℕ, ◌≡◌, refl, ◌∙◌, ap, String, Bool, true, false, not, ◌&&◌, ◌||◌, List, [], ◌∷◌, map, arith, ltb,
  leb, ◌==◌, if◌then◌else◌, Bool-cases, Option-cases, ==_iff, sym, some, inl, inr, select, sort_by,
  length,
}
use family_inventory.Notifications.Result.{Result-cases, Result, ok, err, ◌>>=◌}
use family_inventory.Homes.Members.{
  UserType, owner, residence, guest, Home, User, Homes, require, required, find, get_home,
  get_member,
}
use family_inventory.Homes.Settings.{managed_home, may_manage}
use family_inventory.Homes.Listing.{MemberRow, GetHomesResponse, response_of, joined}
use family_inventory.Households.{
  Categories, HouseholdCategory, delete_category, home_category, in_use,
}
use family_inventory.Inventory.Stock.{Stock, InventoryItem, Items}
use family_inventory.Inventory.Stock.Requests.{is_used}

pub record CategoryCount : Type 0 where
  pub id : ℕ
  pub name : String
  pub item_count : ℕ

pub record SettingsPage : Type 0 where
  pub home_id : ℕ
  pub name : String
  pub members : List GetHomesResponse
  pub categories : List CategoryCount

-- The order of the roles in the database's enumeration type.
abbrev pub role_rank : UserType → ℕ
role_rank owner = 0
role_rank residence = 1
role_rank guest = 2

-- ORDER BY user_type, user
abbrev pub is_ranked : MemberRow → MemberRow → Bool
is_ranked a b =
    ltb (role_rank a.user_type) (role_rank b.user_type)
    || (role_rank a.user_type == role_rank b.user_type && leb a.user.id b.user.id)

-- `list_members_with_users`
unfoldable pub list_members_with_users : ℕ → Homes → List MemberRow
list_members_with_users h s =
    sort_by is_ranked (select (λ r. r.home.id == h) (joined s.homes s.members s.users))

-- `count(InventoryItem.id)` of the outer join
abbrev pub item_count : ℕ → Items → ℕ
item_count k t = length (select (λ (r : InventoryItem). r.household_category_id == k) t)

abbrev pub counted : Items → HouseholdCategory → CategoryCount
counted t c = record { id = c.id; name = c.name; item_count = item_count c.id t }

-- `get_settings`; `le` is the order of names in the database.
unfoldable pub get_settings :
    (HouseholdCategory → HouseholdCategory → Bool) → ℕ → User → Stock → Result SettingsPage
unfolding list_members_with_users
get_settings le h user s = do
  home ← managed_home h user s.homes
  ok (record {
    home_id = home.id;
    name = home.name;
    members = map response_of (list_members_with_users home.id s.homes);
    categories =
        map (counted s.items) (sort_by le (select (λ c. c.home_id == home.id) s.categories));
  })

used-count : (k : ℕ) (t : Items) → is_used t k ≡ not (item_count k t == 0)
used-count k [] = refl
used-count k (r ∷ t) = ground (arith, used-count k t)

find-category :
    (h : ℕ) (c : HouseholdCategory) (t : Categories)
    → Table.IsKeyed Households.key t
    → Memᴰ c t
    → c.home_id ≡ h
    → find (λ r. r.id == c.id && r.home_id == h) t ≡ some c
find-category h c [] keyed m e = elim m [ ]
find-category h c (y ∷ t) keyed (head q) e =
    let first : y.home_id ≡ h → find (λ r. r.id == y.id && r.home_id == h) (y ∷ t) ≡ some y =
      λ e. ground arith in
    subst
      (λ (z : HouseholdCategory).
        z.home_id ≡ h → find (λ r. r.id == z.id && r.home_id == h) (y ∷ t) ≡ some z)
      (sym q) first e
find-category h c (y ∷ t) keyed (tail m) e =
    let known = All-mem _ t (Table.All-get Households.key t keyed.1) c m in
    let there = Table.has-of-get Households.key c.id t c known in
    elim (Bool-cases (y.id == c.id)) [
      | inl same ↦
          let i : y.id ≡ c.id = (==_iff y.id c.id).0 same in
          let gone : Table.has Households.key c.id t ≡ false = rw i at keyed.0 in cc (there, gone)
      | inr other ↦ rw other (find-category h c t keyed.1 m e)
    ]

managed-id :
    (h : ℕ) (user : User) (s : Homes) (home : Home) → managed_home h user s ≡ ok home → home.id ≡ h
unfolding managed_home required require
managed-id h user s home e = elim (Bool-cases (may_manage user (get_member user.id h s))) [
  | inr f ↦ cc (e, f)
  | inl f ↦ elim (Option-cases (get_home h s)) [
    | inl g ↦ cc (e, f, g)
    | inr (x, g) ↦
        let same : x ≡ home = cc (e, f, g) in
        subst (λ (y : Home). y.id ≡ h) same (Table.get-key (λ (y : Home). y.id) h s.homes x g)
  ]
]

counted-deletes :
    (h : ℕ) (user : User) (s : Stock) (home : Home) (c : HouseholdCategory)
    → managed_home h user s.homes ≡ ok home
    → home_category h c.id s.categories ≡ ok c
    → delete_category h c.id (is_used s.items) user s.homes s.categories ≡ (
        if item_count c.id s.items == 0
        then ok (select (λ r. not (r.id == c.id)) s.categories)
        else err in_use)
unfolding delete_category require
counted-deletes h user s home c may there = elim (Bool-cases (item_count c.id s.items == 0)) [
  | inl e ↦
      let free : is_used s.items c.id ≡ false = used-count c.id s.items ∙ ap not e in
      rw (delete_category, may, there, free, e) refl
  | inr e ↦
      let busy : is_used s.items c.id ≡ true = used-count c.id s.items ∙ ap not e in
      rw (delete_category, may, there, busy, e) refl
]

abbrev categories_of : Result SettingsPage → List CategoryCount
categories_of (ok page) = page.categories
categories_of (err exc) = []

-- The counts of the settings page tell what can be deleted. If the ids of the categories are
-- different and a user gets the page of a home, then for each category on it, the user's request to
-- delete it succeeds, and only that category goes, if the page counts no item in it, and else is
-- refused since it is in use.
pub count_decides :
    (le : HouseholdCategory → HouseholdCategory → Bool) (h : ℕ) (user : User) (s : Stock)
    (page : SettingsPage) (shown : CategoryCount)
    → Table.IsKeyed Households.key s.categories
    → get_settings le h user s ≡ ok page
    → Memᴰ shown page.categories
    → delete_category h shown.id (is_used s.items) user s.homes s.categories ≡ (
        if shown.item_count == 0
        then ok (select (λ r. not (r.id == shown.id)) s.categories)
        else err in_use)
unfolding get_settings home_category required
count_decides le h user s page shown keyed e m = elim (Result-cases (managed_home h user s.homes)) [
  | inr (x, f) ↦ cc (e, f)
  | inl (home, f) ↦
      let rows = sort_by le (select (λ c. c.home_id == home.id) s.categories) in
      let same : map (counted s.items) rows ≡ page.categories =
        ap categories_of (rw (get_settings, f) at e) in
      let (c, n, q) = Memᴰ.of_map (counted s.items) rows (subst (λ l. Memᴰ shown l) (sym same) m) in
      let (k, here) =
        mem-select (λ (c : HouseholdCategory). c.home_id == home.id) s.categories c
          (mem-sort_by le _ c n) in
      let at_home : c.home_id ≡ h =
        (==_iff c.home_id home.id).0 here ∙ managed-id h user s.homes home f in
      subst
        (λ (x : CategoryCount).
          delete_category h x.id (is_used s.items) user s.homes s.categories ≡ (
            if x.item_count == 0
            then ok (select (λ r. not (r.id == x.id)) s.categories)
            else err in_use))
        q
        (counted-deletes h user s home c f
          (rw (home_category, find-category h c s.categories keyed k at_home) refl))
]
