-- ===== src/Users/Life.antt =====
-- The life of an account in app/apis/users: absent, inactive, active.
use family_inventory.Prelude.{
  ℕ, ◌≡◌, refl, sym, ◌∙◌, String, Bool, true, false, not, Option, none, some, [], ◌∷◌, arith,
  select, exists, Bool-cases, Option-cases, inl, inr, ◌==◌, ==_iff, if◌then◌else◌, ap,
}
use mathlib.Core.Option
use mathlib.Core.Path.{subst}
use family_inventory.Prelude.Table
use family_inventory.Users.{
  clashes, User, Users, Settings, Platform, Accounts, save, get_by_id, key,
}
use family_inventory.Users.Activation.{with_activation, activated, new_user}
use family_inventory.Users.Auth.{with_reset, with_password}
use family_inventory.Users.Steps.{
  Step, stays, inserts, links, starts, asks, renews, deletes, serve-Step,
}
use family_inventory.Users.Unique.{IsUnique, unique-IsKeyed, exists-clashes-has, get_by_id-find}
use family_inventory.Users.Cleanup.{cleanup_users, is_stale}
use family_inventory.Users.Requests.{Request, serve}

-- The abstract account: whether it exists and whether it is active.
pub data Phase : Type 0 where
  absent inactive active : Phase

abbrev pub phase_of : Option User → Phase
phase_of none = absent
phase_of (some u) = if u.is_active then active else inactive

abbrev pub phase : ℕ → Users → Phase
phase i t = phase_of (get_by_id i t)

-- An account is created inactive, becomes active once, and only an inactive one disappears.
pub data Next : Phase → Phase → Type 0 where
  remains : {a : Phase} → Next a a
  appears : Next absent inactive
  awakens : Next inactive active
  expires : Next inactive absent

-- What an update does to the row of an id.
pub get_by_id-save :
    (i : ℕ) (f : User → User) (user : User) (t : Users)
    → ((r : User) → (f r).id ≡ r.id)
    → get_by_id i (save f user t)
      ≡ Option.map (λ (r : User). if r.id == user.id then f r else r) (get_by_id i t)
get_by_id-save i f user t k = Table.get-update key i (λ r. r.id == user.id) f t k

-- An update that leaves the flag of every row leaves the phases.
save-phase :
    (i : ℕ) (f : User → User) (user : User) (t : Users)
    → ((r : User) → (f r).id ≡ r.id)
    → ((r : User) → (f r).is_active ≡ r.is_active)
    → phase i (save f user t) ≡ phase i t
save-phase i f user t k a = elim (Option-cases (get_by_id i t)) [
  | inl e ↦ rw (get_by_id-save i f user t k, e) refl
  | inr (r, e) ↦ elim (Bool-cases (r.id == user.id)) [
    | inl m ↦ rw (get_by_id-save i f user t k, e, m, a r) refl
    | inr m ↦ rw (get_by_id-save i f user t k, e, m) refl
  ]
]

-- The row of an id is one row.
pub same_row :
    (i : ℕ) (t : Users) (r user : User)
    → get_by_id i t ≡ some r
    → get_by_id user.id t ≡ some user
    → (r.id == user.id) ≡ true
    → r ≡ user
same_row i t r user e here m =
    let k : r.id ≡ i = Table.get-key key i t r e in
    let n : r.id ≡ user.id = (==_iff r.id user.id).0 m in cc (e, here, k, n)

get_by_id-select-none :
    (i : ℕ) (w : User → Bool) (t : Users) → get_by_id i t ≡ none → get_by_id i (select w t) ≡ none
get_by_id-select-none i w [] h = refl
get_by_id-select-none i w (r ∷ t) h = ground (arith, get_by_id-select-none i w t)

get_by_id-has-none : (i : ℕ) (t : Users) → Table.has key i t ≡ false → get_by_id i t ≡ none
get_by_id-has-none i [] h = refl
get_by_id-has-none i (r ∷ t) h = ground (arith, get_by_id-has-none i t)

start-Next :
    (i : ℕ) (user : User) (hashed : String) (t : Users) (p : Platform) (c : Settings)
    → get_by_id user.id t ≡ some user
    → user.is_active ≡ false
    → Next (phase i t) (phase i (save (activated p c hashed) user t))
start-Next i user hashed t p c here a = elim (Option-cases (get_by_id i t)) [
  | inl e ↦ rw (get_by_id-save i (activated p c hashed) user t (λ r. refl), e) remains
  | inr (r, e) ↦ elim (Bool-cases (r.id == user.id)) [
    | inl m ↦
        let same : r ≡ user = same_row i t r user e here m in
        rw
          (
            get_by_id-save i (activated p c hashed) user t (λ r. refl),
            e,
            m,
            ap (λ x. x.is_active) same,
            a,
          )
          awakens
    | inr m ↦ rw (get_by_id-save i (activated p c hashed) user t (λ r. refl), e, m) remains
  ]
]

pub stale-inactive :
    (c : Settings) (now : ℕ) (r : User) → is_stale c now r ≡ true → r.is_active ≡ false
unfolding is_stale
stale-inactive c now r h = ground arith

select-Next :
    (i now : ℕ) (c : Settings) (t : Users)
    → IsUnique t
    → Next (phase i t) (phase i (cleanup_users c now t).0)
unfolding cleanup_users
select-Next i now c t h = elim (Option-cases (get_by_id i t)) [
  | inl e ↦ rw (e, get_by_id-select-none i (λ r. not (is_stale c now r)) t e) remains
  | inr (r, e) ↦ elim (Bool-cases (is_stale c now r)) [
    | inr m ↦ rw (e, Table.get-select key i (λ r. not (is_stale c now r)) t r e (ap not m)) remains
    | inl m ↦
        rw
          (
            e,
            get_by_id-has-none i (select (λ r. not (is_stale c now r)) t) (
                Table.has-select_fail key i (λ r. not (is_stale c now r)) t r (unique-IsKeyed t h) e
                  (ap not m)),
            stale-inactive c now r m,
          )
          expires
  ]
]

create-Next :
    (i : ℕ) (u : User) (t : Users)
    → u.is_active ≡ false
    → exists (clashes u) t ≡ false
    → Next (phase i t) (phase i (u ∷ t))
create-Next i u t a free = elim (Bool-cases (u.id == i)) [
  | inl m ↦
      let none_before : get_by_id i t ≡ none =
        get_by_id-has-none i t
          (ap (λ k. Table.has key k t) (sym ((==_iff u.id i).0 m)) ∙ exists-clashes-has u t free) in
      rw (none_before, m, a) appears
  | inr m ↦ rw m remains
]

module _ (p : Platform) (c : Settings) where
  step-Next : (i : ℕ) {t t' : Users} → Step p c t t' → IsUnique t → Next (phase i t) (phase i t')
  step-Next i stays h = remains
  step-Next i (inserts {t} base f now free) h =
      subst (λ ph. Next (phase i t) ph)
        (sym (
          save-phase i (with_activation p c f.token now) (new_user p c base f now)
            (new_user p c base f now ∷ t) (λ r. refl) (λ r. refl)))
        (create-Next i (new_user p c base f now) t refl free)
  step-Next i (links {t} u token now) h =
      rw (save-phase i (with_activation p c token now) u t (λ r. refl) (λ r. refl)) remains
  step-Next i (starts {t} u email hashed e a) h =
      start-Next i u hashed t p c (get_by_id-find _ t u h e) a
  step-Next i (asks {t} u token now) h =
      rw (save-phase i (with_reset p c token now) u t (λ r. refl) (λ r. refl)) remains
  step-Next i (renews {t} u hashed) h =
      rw (save-phase i (with_password p c hashed) u t (λ r. refl) (λ r. refl)) remains
  step-Next i (deletes {t} now) h = select-Next i now c t h

  -- Each request takes every account along a step of the abstract life of an account, in which it
  -- appears inactive, becomes active and, only while it is inactive, disappears: if no two users
  -- share an id, a username or an email before it.
  pub account_refines :
      (i now : ℕ) (r : Request) (s : Accounts p)
      → IsUnique s.users
      → Next (phase i s.users) (phase i (serve p c now r s).users)
  account_refines i now r s = step-Next i (serve-Step p c now r s)
