-- ===== src/Homes/Listing/Grouped.antt =====
-- The grouping of rows by home, each home once: app/apis/homes/service.py (get_all_homes_for_user).
use family_inventory.Prelude.{
  ℕ, ◌≡◌, refl, sym, ◌∙◌, ap, true, false, ◌||◌, List, [], ◌∷◌, ◌++◌, map, arith, ◌==◌,
  if◌then◌else◌, Bool-cases, inl, inr, select, append-nil, append-append,
}
use family_inventory.Prelude.Table
use family_inventory.Homes.Listing.{
  MemberRow, GetHomesResponse, GetHomeWithMembersResponse, response_of, add_row, group_rows,
}

abbrev pub key : GetHomeWithMembersResponse → ℕ
key e = e.home_id

-- the members that a listing gives for a home
abbrev pub members_of : ℕ → List GetHomeWithMembersResponse → List GetHomesResponse
members_of h [] = []
members_of h (e ∷ es) = if e.home_id == h then e.members else members_of h es

-- the rows of a home, as they are shown
abbrev pub shown : ℕ → List MemberRow → List GetHomesResponse
shown h rs = map response_of (select (λ r. r.home.id == h) rs)

add_row-members :
    (h : ℕ) (r : MemberRow) (g : List GetHomeWithMembersResponse)
    → members_of h (add_row r g) ≡ members_of h g ++ shown h (r ∷ [])
unfolding add_row
add_row-members h r [] = ground arith
add_row-members h r (e ∷ es) = elim (Bool-cases (e.home_id == r.home.id)) [
  | inl m ↦ elim (Bool-cases (e.home_id == h)) [
    | inl k ↦ let q : (r.home.id == h) ≡ true = ground (arith, m, k) in rw (m, k, q) refl
    | inr k ↦
        let q : (r.home.id == h) ≡ false = ground (arith, m, k) in
        rw (m, k, q) (sym (append-nil (members_of h es)))
  ]
  | inr m ↦ elim (Bool-cases (e.home_id == h)) [
    | inl k ↦
        let q : (r.home.id == h) ≡ false = ground (arith, m, k) in
        rw (m, k, q) (sym (append-nil e.members))
    | inr k ↦ rw (m, k) (add_row-members h r es)
  ]
]

shown-cons :
    (h : ℕ) (r : MemberRow) (rs : List MemberRow)
    → shown h (r ∷ []) ++ shown h rs ≡ shown h (r ∷ rs)
shown-cons h r rs = elim (Bool-cases (r.home.id == h)) [ inl e ↦ rw e refl | inr e ↦ rw e refl ]

pub group_rows-members :
    (h : ℕ) (rs : List MemberRow) (g : List GetHomeWithMembersResponse)
    → members_of h (group_rows rs g) ≡ members_of h g ++ shown h rs
unfolding group_rows
group_rows-members h [] g = sym (append-nil (members_of h g))
group_rows-members h (r ∷ rs) g =
    group_rows-members h rs (add_row r g)
    ∙ (ap (λ l. l ++ shown h rs) (add_row-members h r g)
        ∙ (append-append (members_of h g) (shown h (r ∷ [])) (shown h rs)
            ∙ ap (λ l. members_of h g ++ l) (shown-cons h r rs)))

has-add_row :
    (h : ℕ) (r : MemberRow) (g : List GetHomeWithMembersResponse)
    → Table.has key h (add_row r g) ≡ Table.has key h g || r.home.id == h
unfolding add_row
has-add_row h r [] = ground arith
has-add_row h r (e ∷ es) = ground (arith, has-add_row h r es)

add_row-IsKeyed :
    (r : MemberRow) (g : List GetHomeWithMembersResponse)
    → Table.IsKeyed key g
    → Table.IsKeyed key (add_row r g)
unfolding add_row
add_row-IsKeyed r [] k = (refl, tt)
add_row-IsKeyed r (e ∷ es) k = elim (Bool-cases (e.home_id == r.home.id)) [
  | inl m ↦ rw m k
  | inr m ↦ rw m (ground (arith, has-add_row e.home_id r es, k.0, m), add_row-IsKeyed r es k.1)
]

pub group_rows-IsKeyed :
    (rs : List MemberRow) (g : List GetHomeWithMembersResponse)
    → Table.IsKeyed key g
    → Table.IsKeyed key (group_rows rs g)
unfolding group_rows
group_rows-IsKeyed [] g k = k
group_rows-IsKeyed (r ∷ rs) g k = group_rows-IsKeyed rs (add_row r g) (add_row-IsKeyed r g k)
