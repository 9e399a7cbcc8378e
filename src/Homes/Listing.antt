-- ===== src/Homes/Listing.antt =====
-- The listings of homes with their members: app/apis/homes/repository.py and service.py
-- (get_all_homes_for_user), and list_members_with_users of
-- app/apis/homeuser/repository.py.
pub mod Grouped
pub mod Joined
pub mod Owned
use family_inventory.Prelude.{
  ℕ, ◌+◌, ◌-◌, String, Bool, not, is_none, ◌&&◌, ◌||◌, none, some, List, [], ◌∷◌, ◌++◌, map, ltb,
  leb, ◌==◌, if◌then◌else◌, is_none, exists, select, sort_by, length,
}
use family_inventory.Prelude.Table
use family_inventory.Core.Pagination.{PaginatedOutput, page_rows, total_pages}
use family_inventory.Notifications.Result.{Result, ok, ◌>>=◌, ◌>>◌}
use family_inventory.Homes.Members.{
  UserType, Home, HomeUser, User, Homes, is_owner, raise, required, require, get_home, get_member,
}

-- A row of homes joined with their members and the users of these.
pub record MemberRow : Type 0 where
  pub home : Home
  pub user : User
  pub user_type : UserType

pub record GetHomesResponse : Type 0 where
  pub user_id : ℕ
  pub username : String
  pub email : String
  pub user_type : UserType

-- The fields that `get_all_homes_for_user` fills; the times of a home keep their default None.
pub record GetHomeWithMembersResponse : Type 0 where
  pub home_id : ℕ
  pub name : String
  pub members : List GetHomesResponse

-- a home, a member of it and the user of the member
abbrev join_user : Home → HomeUser → List User → List MemberRow
join_user h m [] = []
join_user h m (u ∷ us) =
    let rest = join_user h m us in
    if u.id == m.user_id
    then record { home = h; user = u; user_type = m.user_type } ∷ rest
    else rest

abbrev join_members : Home → List User → List HomeUser → List MemberRow
join_members h us [] = []
join_members h us (m ∷ ms) =
    let rest = join_members h us ms in if m.home_id == h.id then join_user h m us ++ rest else rest

-- `FROM homes JOIN home_users .. JOIN users ..`
unfoldable pub joined : List Home → List HomeUser → List User → List MemberRow
joined [] ms us = []
joined (h ∷ hs) ms us = join_members h us ms ++ joined hs ms us

-- `get_home_ids_for_owner`
unfoldable pub get_home_ids_for_owner : ℕ → Homes → List ℕ
get_home_ids_for_owner u s =
    map (λ (m : HomeUser). m.home_id)
      (select (λ m. m.user_id == u && is_owner m.user_type) s.members)

-- `get_home_for_user`, with the query of app/apis/homes/queries.py
unfoldable pub get_home_for_user : ℕ → User → Homes → Result Home
get_home_for_user h current s = do
  home ← required (raise "DomainPermissionError" "HOME_PERMISSION_DENIED") (get_home h s)
  require (raise "DomainPermissionError" "HOME_PERMISSION_DENIED")
      (current.is_admin || not (is_none (get_member current.id h s)))
  ok home

-- ORDER BY home, user
abbrev pub is_before : MemberRow → MemberRow → Bool
is_before a b = ltb a.home.id b.home.id || (a.home.id == b.home.id && leb a.user.id b.user.id)

-- `get_homes_with_members_for_owner`
unfoldable pub get_homes_with_members_for_owner : List ℕ → Homes → List MemberRow
get_homes_with_members_for_owner home_ids s =
    sort_by is_before
      (select (λ r. exists (λ i. i == r.home.id) home_ids) (joined s.homes s.members s.users))

abbrev pub response_of : MemberRow → GetHomesResponse
response_of r = record {
  user_id = r.user.id;
  username = r.user.username;
  email = r.user.email;
  user_type = r.user_type;
}

-- `homes_by_id[home.id].members.append(..)`, after an entry for a new home was put at the end
unfoldable pub add_row :
    MemberRow → List GetHomeWithMembersResponse → List GetHomeWithMembersResponse
add_row r [] = record { home_id = r.home.id; name = r.home.name; members = response_of r ∷ [] } ∷ []
add_row r (e ∷ es) =
    let rest = add_row r es in
    if e.home_id == r.home.id
    then record e { members = e.members ++ (response_of r ∷ []) } ∷ es
    else e ∷ rest

-- the loop over the rows, with the dictionary so far
unfoldable pub group_rows :
    List MemberRow → List GetHomeWithMembersResponse → List GetHomeWithMembersResponse
unfolding add_row
group_rows [] homes = homes
group_rows (r ∷ rs) homes = group_rows rs (add_row r homes)

-- `get_all_homes_for_user`; without a home the loop has no rows.
unfoldable pub get_all_homes_for_user : User → Homes → List GetHomeWithMembersResponse
unfolding get_homes_with_members_for_owner
get_all_homes_for_user current s =
    group_rows (get_homes_with_members_for_owner (get_home_ids_for_owner current.id s) s) []
