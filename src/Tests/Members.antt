-- ===== src/Tests/Members.antt =====
-- Members of homes at concrete rows.
use family_inventory.Prelude.Table
use family_inventory.Prelude.{◌≡◌, ◌≢◌, ◌↔◌, refl, false, some, List, [], ◌∷◌}
use family_inventory.Notifications.Result.{ok, err}
use family_inventory.Homes.Members.{
  owner, guest, Home, HomeUser, User, Homes, get_member, user_is_owner, permission_denied,
  add_user_to_home, change_user_role, remove_user_from_home, delete_home,
}
use family_inventory.Homes.Members.Roles.{outsider_denied}
use mathlib.Core.List.{Memᴰ}
use family_inventory.Homes.Listing.{GetHomesResponse, get_all_homes_for_user}
use family_inventory.Homes.Listing.Grouped.{key as listing_key, members_of}
use family_inventory.Homes.Listing.Owned.{Owns, IsMember, owner_sees_members}
use family_inventory.Homes.Settings.{Request, renames, changes, removes, serve}
use family_inventory.Homes.Settings.Owners.{owner_stays}

abbrev ann : User
ann = record { id = 1; username = "ann"; email = "ann@b.c"; is_admin = false }

abbrev bob : User
bob = record { id = 2; username = "bob"; email = "bob@b.c"; is_admin = false }

abbrev owns : HomeUser
owns = record { user_id = 1; home_id = 3; user_type = owner }

abbrev flat : Home
flat = record { id = 3; name = "Flat" }

-- Ann owns the flat and Bob is a guest in it.
abbrev state : Homes
state = record {
  homes = flat ∷ [];
  members = owns ∷ record { user_id = 2; home_id = 3; user_type = guest } ∷ [];
  users = ann ∷ bob ∷ [];
}

-- Bob as he is to be shown
abbrev bob_shown : GetHomesResponse
bob_shown = record { user_id = 2; username = "bob"; email = "bob@b.c"; user_type = guest }

abbrev requests : List (User × Request)
requests = (bob, removes 3 1) ∷ (ann, changes 3 1 guest) ∷ (ann, renames 3 "House") ∷ []

owner_stays_example : get_member 1 3 (serve requests state) ≡ some owns
owner_stays_example = owner_stays 1 3 owns refl requests state refl

outsider_denied_example :
    (add_user_to_home 3 "cat@b.c" guest bob state ≢ ok state)
    × (change_user_role 3 1 guest bob state ≢ ok state)
    × (remove_user_from_home 3 1 bob state ≢ ok state)
    × (delete_home 3 bob state ≡ err permission_denied)
unfolding user_is_owner
outsider_denied_example = outsider_denied 3 bob state refl refl 1 "cat@b.c" guest state refl

owner_sees_members_example :
    let out = get_all_homes_for_user ann state in
    Table.IsKeyed listing_key out
    × (Memᴰ bob_shown (members_of 3 out) ↔ (Owns ann state 3 × IsMember state 3 bob_shown))
owner_sees_members_example = owner_sees_members ann state 3 bob_shown
