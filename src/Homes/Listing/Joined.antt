-- ===== src/Homes/Listing/Joined.antt =====
-- The rows of homes joined with their members and the users of these: the FROM of the queries in
-- app/apis/homes/repository.py.
use mathlib.Core.Path.{subst}
use mathlib.Core.List.{Memᴰ}
use mathlib.Core.List.Memᴰ
use mathlib.Core.List.Memᴰ.{head, tail}
use family_inventory.Prelude.{◌≡◌, refl, sym, ◌∙◌, ap, true, List, [], ◌∷◌, ◌==◌, ==_iff, inl, inr}
use family_inventory.Prelude.Membership.{
  mem-if_cons, if_cons-mem, if_cons-mem_head, mem-if_append, if_append-mem, if_append-mem_left,
}
use family_inventory.Homes.Members.{Home, HomeUser, User}
use family_inventory.Homes.Listing.{MemberRow, join_user, join_members, joined}

-- A row of the join.
abbrev pub row : Home → HomeUser → User → MemberRow
row h m u = record { home = h; user = u; user_type = m.user_type }

mem-join_user :
    (h : Home) (m : HomeUser) (us : List User) (r : MemberRow)
    → Memᴰ r (join_user h m us)
    → (u : User) × Memᴰ u us × (u.id ≡ m.user_id) × (r ≡ row h m u)
mem-join_user h m [] r k = elim k [ ]
mem-join_user h m (u ∷ us) r k =
    elim (mem-if_cons (u.id == m.user_id) (row h m u) (join_user h m us) r k) [
      | inl (e, q) ↦ (u, head refl, (==_iff u.id m.user_id).0 e, q)
      | inr n ↦ let (v, l, i, q) = mem-join_user h m us r n in (v, tail l, i, q)
    ]

join_user-mem :
    (h : Home) (m : HomeUser) (us : List User) (u : User)
    → Memᴰ u us
    → u.id ≡ m.user_id
    → Memᴰ (row h m u) (join_user h m us)
join_user-mem h m [] u k i = elim k [ ]
join_user-mem h m (v ∷ us) u k i = elim (Memᴰ.cases_cons k) [
  | inl q ↦
      let e : (v.id == m.user_id) ≡ true =
        (==_iff v.id m.user_id).1 (ap (λ (u : User). u.id) (sym q) ∙ i) in
      Memᴰ.cast (ap (row h m) q)
        (if_cons-mem_head (v.id == m.user_id) (row h m v) (join_user h m us) e)
  | inr n ↦
      if_cons-mem (v.id == m.user_id) (row h m v) (join_user h m us) (row h m u)
        (join_user-mem h m us u n i)
]

mem-join_members :
    (h : Home) (us : List User) (ms : List HomeUser) (r : MemberRow)
    → Memᴰ r (join_members h us ms)
    → (m : HomeUser) × (u : User) × Memᴰ m ms
      × Memᴰ u us
      × (m.home_id ≡ h.id)
      × (u.id ≡ m.user_id)
      × (r ≡ row h m u)
mem-join_members h us [] r k = elim k [ ]
mem-join_members h us (m ∷ ms) r k =
    elim (mem-if_append (m.home_id == h.id) (join_user h m us) (join_members h us ms) r k) [
      | inl (e, n) ↦
          let (u, l, i, q) = mem-join_user h m us r n in
          (m, u, head refl, l, (==_iff m.home_id h.id).0 e, i, q)
      | inr n ↦
          let (m', u, j, l, i, p, q) = mem-join_members h us ms r n in (m', u, tail j, l, i, p, q)
    ]

join_members-mem :
    (h : Home) (us : List User) (ms : List HomeUser) (m : HomeUser) (u : User)
    → Memᴰ m ms
    → Memᴰ u us
    → m.home_id ≡ h.id
    → u.id ≡ m.user_id
    → Memᴰ (row h m u) (join_members h us ms)
join_members-mem h us [] m u k l i j = elim k [ ]
join_members-mem h us (m' ∷ ms) m u k l i j = elim (Memᴰ.cases_cons k) [
  | inl q ↦
      let e : (m'.home_id == h.id) ≡ true =
        (==_iff m'.home_id h.id).1 (ap (λ (m : HomeUser). m.home_id) (sym q) ∙ i) in
      if_append-mem_left (m'.home_id == h.id) (join_user h m' us) (join_members h us ms) (row h m u)
        e (subst (λ z. Memᴰ (row h m u) (join_user h z us)) q (join_user-mem h m us u l j))
  | inr n ↦
      if_append-mem (m'.home_id == h.id) (join_user h m' us) (join_members h us ms) (row h m u)
        (join_members-mem h us ms m u n l i j)
]

pub mem-joined :
    (hs : List Home) (ms : List HomeUser) (us : List User) (r : MemberRow)
    → Memᴰ r (joined hs ms us)
    → (h : Home) × (m : HomeUser) × (u : User) × Memᴰ h hs
      × Memᴰ m ms
      × Memᴰ u us
      × (m.home_id ≡ h.id)
      × (u.id ≡ m.user_id)
      × (r ≡ row h m u)
unfolding joined
mem-joined [] ms us r k = elim k [ ]
mem-joined (h ∷ hs) ms us r k = elim (Memᴰ.append_cases (join_members h us ms) k) [
  | inl n ↦
      let (m, u, j, l, i, p, q) = mem-join_members h us ms r n in
      (h, m, u, head refl, j, l, i, p, q)
  | inr n ↦
      let (h', m, u, g, j, l, i, p, q) = mem-joined hs ms us r n in
      (h', m, u, tail g, j, l, i, p, q)
]

pub joined-mem :
    (hs : List Home) (ms : List HomeUser) (us : List User) (h : Home) (m : HomeUser) (u : User)
    → Memᴰ h hs
    → Memᴰ m ms
    → Memᴰ u us
    → m.home_id ≡ h.id
    → u.id ≡ m.user_id
    → Memᴰ (row h m u) (joined hs ms us)
unfolding joined
joined-mem [] ms us h m u k j l i p = elim k [ ]
joined-mem (h' ∷ hs) ms us h m u k j l i p = elim (Memᴰ.cases_cons k) [
  | inl q ↦ Memᴰ.append_left (joined hs ms us) (
      subst (λ z. Memᴰ (row h m u) (join_members z us ms)) q (join_members-mem h us ms m u j l i p))
  | inr n ↦ Memᴰ.append_right (join_members h' us ms) (joined-mem hs ms us h m u n j l i p)
]
