-- ===== src/Homes/Listing/Owned.antt =====
-- What the owner of homes is shown: `get_all_homes_for_user` of app/apis/homes/service.py with the
-- queries of app/apis/homes/repository.py and app/apis/homeuser/repository.py.
use mathlib.Core.Path.{subst}
use mathlib.Core.List.{Memᴰ}
use mathlib.Core.List.Memᴰ
use family_inventory.Prelude.{
  ℕ, ◌≡◌, ◌↔◌, sym, ◌∙◌, ap, true, ◌&&◌, [], arith, ◌==◌, ==_iff, exists, select, sort_by,
}
use family_inventory.Prelude.Membership.{
  mem-select, select-mem, mem-sort_by, sort_by-mem, exists-mem_id,
}
use family_inventory.Prelude.Table
use family_inventory.Homes.Members.{UserType, owner, is_owner, Home, HomeUser, User, Homes}
use family_inventory.Homes.Listing.{
  MemberRow, GetHomesResponse, response_of, joined, get_homes_with_members_for_owner,
  get_home_ids_for_owner, get_all_homes_for_user, is_before,
}
use family_inventory.Homes.Listing.Grouped.{
  key, members_of, shown, group_rows-members, group_rows-IsKeyed,
}
use family_inventory.Homes.Listing.Joined.{row, mem-joined, joined-mem}

-- A user owns a home by a row of the members.
abbrev pub Owns : User → Homes → ℕ → Type 0
Owns current s h =
    (m : HomeUser) × Memᴰ m s.members
    × (m.user_id ≡ current.id)
    × (m.home_id ≡ h)
    × (m.user_type ≡ owner)

-- A member of a home as it is to be shown: the user of a row of the members, with the role in it.
abbrev pub IsMember : Homes → ℕ → GetHomesResponse → Type 0
IsMember s h x =
    (home : Home) × (m : HomeUser) × (u : User) × Memᴰ home s.homes
    × Memᴰ m s.members
    × Memᴰ u s.users
    × (home.id ≡ h)
    × (m.home_id ≡ h)
    × (u.id ≡ m.user_id)
    × (x ≡ record {
      user_id = u.id;
      username = u.username;
      email = u.email;
      user_type = m.user_type;
    })

is_owner-owner : (t : UserType) → (is_owner t ≡ true) ↔ (t ≡ owner)
is_owner-owner t = ground arith

-- The subquery of the homes that a user owns.
owned_iff :
    (current : User) (s : Homes) (h : ℕ)
    → (exists (λ i. i == h) (get_home_ids_for_owner current.id s) ≡ true) ↔ Owns current s h
unfolding get_home_ids_for_owner
owned_iff current s h =
    let ids = get_home_ids_for_owner current.id s in
    let p = λ (m : HomeUser). m.user_id == current.id && is_owner m.user_type in
    (
      λ e.
          let (m, n, i) =
            Memᴰ.of_map (λ (m : HomeUser). m.home_id) (select p s.members)
              ((exists-mem_id h ids).0 e) in
          let (k, f) = mem-select p s.members m n in
          (m, k, ground (arith, f), i, (is_owner-owner m.user_type).0 (ground (arith, f))),
      λ (m, k, u, i, t).
          let f : p m ≡ true = let g = (is_owner-owner m.user_type).1 t in ground (arith, u, g) in
          (exists-mem_id h ids).1 (
            Memᴰ.cast (sym i)
              (Memᴰ.map (λ (m : HomeUser). m.home_id) (select-mem p s.members m k f))),
    )

-- What is shown for a home, from the rows of the query.
shown_iff :
    (current : User) (s : Homes) (h : ℕ) (x : GetHomesResponse)
    → let owned = get_home_ids_for_owner current.id s in
      Memᴰ x (shown h (get_homes_with_members_for_owner owned s))
      ↔ (Owns current s h × IsMember s h x)
unfolding get_homes_with_members_for_owner
shown_iff current s h x =
    let owned = get_home_ids_for_owner current.id s in
    let all = joined s.homes s.members s.users in
    let p = λ (r : MemberRow). exists (λ i. i == r.home.id) owned in
    let here = λ (r : MemberRow). r.home.id == h in
    let rows = sort_by is_before (select p all) in
    (
      λ k.
          let (r, n, q) = Memᴰ.of_map response_of (select here rows) k in
          let (l, i) = mem-select here rows r n in
          let (j, o) = mem-select p all r (mem-sort_by is_before (select p all) r l) in
          let (home, m, u, hm, mm, um, a, b, c) = mem-joined s.homes s.members s.users r j in
          let at : home.id ≡ h =
            ap (λ (r : MemberRow). r.home.id) (sym c) ∙ (==_iff r.home.id h).0 i in
          let id : r.home.id ≡ h = (==_iff r.home.id h).0 i in
          (
            (owned_iff current s h).0 (rw id at o),
            (home, m, u, hm, mm, um, at, a ∙ at, b, sym q ∙ ap response_of c),
          ),
      λ (own, (home, m, u, hm, mm, um, at, a, b, q)).
          let r = row home m u in
          let j = joined-mem s.homes s.members s.users home m u hm mm um (a ∙ sym at) b in
          let o : p r ≡ true = rw at ((owned_iff current s h).1 own) in
          let i : here r ≡ true = (==_iff home.id h).1 at in
          Memᴰ.cast q (
            Memᴰ.map response_of (
              select-mem here rows r
                (sort_by-mem is_before (select p all) r (select-mem p all r j o)) i)),
    )

-- The listing of a user's homes has each home at most once, and its members of a home are exactly
-- the members of that home, each with the name, the email and the role in it, if the user owns the
-- home; for any other home there are none.
pub owner_sees_members :
    (current : User) (s : Homes) (h : ℕ) (x : GetHomesResponse)
    → let out = get_all_homes_for_user current s in
      Table.IsKeyed key out × (Memᴰ x (members_of h out) ↔ (Owns current s h × IsMember s h x))
unfolding get_all_homes_for_user
owner_sees_members current s h x =
    let rows = get_homes_with_members_for_owner (get_home_ids_for_owner current.id s) s in
    (
      group_rows-IsKeyed rows [] tt,
      subst (λ l. Memᴰ x l ↔ (Owns current s h × IsMember s h x))
          (sym (group_rows-members h rows [])) (shown_iff current s h x),
    )
