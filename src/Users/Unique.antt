-- ===== src/Users/Unique.antt =====
-- The unique columns of app/apis/users/models.py: the id, the username and the email of a user.
use family_inventory.Prelude.{
  ℕ, ◌≡◌, refl, String, Bool, true, false, some, none, List, [], ◌∷◌, arith, exists, select,
  Bool-cases, inl, inr, ◌==◌, ◌≤◌, length, str_eq, eq_refl, eq_iff,
}
use family_inventory.Prelude.Table
use family_inventory.Homes.Members.{find}
use family_inventory.Users.{
  User, Users, Settings, Platform, Accounts, clashes, save, get_by_id, get_by_email, key,
}
use family_inventory.Users.Steps.{
  Step, stays, inserts, links, starts, asks, renews, deletes, serve-Step,
}
use family_inventory.Users.Activation.{with_activation, activated, new_user}
use family_inventory.Users.Auth.{with_reset, with_password}
use family_inventory.Users.Cleanup.{cleanup_users}
use family_inventory.Users.Requests.{Request, serve, serve_all}

-- No two rows share an id, a username or an email.
unfoldable pub IsUnique : Users → Type 0
IsUnique [] = Unit
IsUnique (r ∷ t) = (exists (clashes r) t ≡ false) × IsUnique t

-- An update that keeps the unique columns.
abbrev pub Keeps : (User → User) → Type 0
Keeps f = (r : User) → (((f r).id ≡ r.id) × ((f r).username ≡ r.username)) × ((f r).email ≡ r.email)

exists-update :
    (u : User) (q : User → Bool) (f : User → User) (t : Users)
    → Keeps f
    → exists (clashes u) (Table.update q f t) ≡ exists (clashes u) t
unfolding clashes
exists-update u q f [] k = refl
exists-update u q f (r ∷ t) k = ground (arith, k r, exists-update u q f t k)

clashes_kept : (u r : User) (f : User → User) → Keeps f → clashes (f u) r ≡ clashes u r
unfolding clashes
clashes_kept u r f k = ground (arith, k u)

exists_kept :
    (u : User) (f : User → User) (t : Users)
    → Keeps f
    → exists (clashes (f u)) t ≡ exists (clashes u) t
exists_kept u f [] k = refl
exists_kept u f (r ∷ t) k = ground (arith, clashes_kept u r f k, exists_kept u f t k)

pub update-IsUnique :
    (q : User → Bool) (f : User → User) (t : Users)
    → Keeps f
    → IsUnique t
    → IsUnique (Table.update q f t)
unfolding IsUnique
update-IsUnique q f [] k h = tt
update-IsUnique q f (r ∷ t) k h = (
  ground (arith, exists-update r q f t k, exists-update (f r) q f t k, exists_kept r f t k, h.0),
  update-IsUnique q f t k h.1,
)

insert-IsUnique :
    (u : User) (t : Users) → exists (clashes u) t ≡ false → IsUnique t → IsUnique (u ∷ t)
unfolding IsUnique
insert-IsUnique u t free h = (free, h)

exists-select-false :
    {A : Type 0} (q w : A → Bool) (t : List A) → exists q t ≡ false → exists q (select w t) ≡ false
exists-select-false q w [] h = refl
exists-select-false q w (r ∷ t) h = ground (arith, exists-select-false q w t)

pub select-IsUnique : (w : User → Bool) (t : Users) → IsUnique t → IsUnique (select w t)
unfolding IsUnique
select-IsUnique w [] h = tt
select-IsUnique w (r ∷ t) h = elim (Bool-cases (w r)) [
  | inl e ↦ rw e (exists-select-false (clashes r) w t h.0, select-IsUnique w t h.1)
  | inr e ↦ rw e (select-IsUnique w t h.1)
]

pub exists-clashes-has :
    (r : User) (t : Users) → exists (clashes r) t ≡ false → Table.has key r.id t ≡ false
unfolding clashes
exists-clashes-has r [] h = refl
exists-clashes-has r (x ∷ t) h = ground (arith, exists-clashes-has r t)

-- The id is a primary key.
pub unique-IsKeyed : (t : Users) → IsUnique t → Table.IsKeyed key t
unfolding IsUnique
unique-IsKeyed [] h = tt
unique-IsKeyed (r ∷ t) h = (exists-clashes-has r t h.0, unique-IsKeyed t h.1)

exists-clashes-find :
    (x : User) (q : User → Bool) (t : Users) (u : User)
    → exists (clashes x) t ≡ false
    → find q t ≡ some u
    → (x.id == u.id) ≡ false
unfolding clashes
exists-clashes-find x q [] u h e = cc
exists-clashes-find x q (r ∷ t) u h e = ground (arith, exists-clashes-find x q t u)

-- A user found by any column is the user of its id.
pub get_by_id-find :
    (q : User → Bool) (t : Users) (u : User)
    → IsUnique t
    → find q t ≡ some u
    → get_by_id u.id t ≡ some u
unfolding IsUnique
get_by_id-find q [] u h e = cc
get_by_id-find q (x ∷ t) u h e =
    ground (arith, exists-clashes-find x q t u h.0, get_by_id-find q t u h.1, e)

clashes-found_email :
    (x : User) (i : ℕ) (t : Users) (u : User)
    → exists (clashes x) t ≡ false
    → get_by_id i t ≡ some u
    → str_eq u.email x.email ≡ false
unfolding clashes
clashes-found_email x i [] u h e = cc
clashes-found_email x i (r ∷ t) u h e = ground (arith, clashes-found_email x i t u)

-- The user of an id is the user of its email.
pub get_by_email-id :
    (i : ℕ) (t : Users) (u : User)
    → IsUnique t
    → get_by_id i t ≡ some u
    → get_by_email u.email t ≡ some u
unfolding IsUnique
get_by_email-id i [] u h e = cc
get_by_email-id i (x ∷ t) u h e = ground (
  arith,
  eq_refl u.email,
  eq_iff x.email u.email,
  clashes-found_email x i t u h.0,
  get_by_email-id i t u h.1,
  e,
)

-- After an update of the user of an email, it is still the user of the email.
pub get_by_email-save :
    (email : String) (f : User → User) (t : Users) (u : User)
    → Keeps f
    → get_by_email email t ≡ some u
    → get_by_email email (save f u t) ≡ some (f u)
get_by_email-save email f [] u k e = cc
get_by_email-save email f (x ∷ t) u k e =
    ground (arith, k x, k u, get_by_email-save email f t u k, e)

-- What is written to the row of a user can be looked up, if nothing was found before.
pub find-save_new :
    (q : User → Bool) (f : User → User) (t : Users) (u : User)
    → find q t ≡ none
    → get_by_id u.id t ≡ some u
    → q (f u) ≡ true
    → find q (save f u t) ≡ some (f u)
find-save_new q f [] u h e g = cc
find-save_new q f (x ∷ t) u h e g = ground (arith, find-save_new q f t u, h, e, g)

find-save-none :
    (q : User → Bool) (f : User → User) (t : Users) (u : User)
    → ((r : User) → q (f r) ≡ false)
    → length (select q t) ≡ 0
    → find q (save f u t) ≡ none
find-save-none q f [] u g h = refl
find-save-none q f (x ∷ t) u g h = ground (arith, find-save-none q f t u g, g x)

-- If one row at most is found and it is cleared, none is found.
pub find-save_cleared :
    (q : User → Bool) (f : User → User) (t : Users) (u : User)
    → ((r : User) → q (f r) ≡ false)
    → length (select q t) ≤ 1
    → find q t ≡ some u
    → find q (save f u t) ≡ none
find-save_cleared q f [] u g h e = cc
find-save_cleared q f (x ∷ t) u g h e =
    ground (arith, find-save_cleared q f t u g, find-save-none q f t u g, g x, e)

module _ (p : Platform) (c : Settings) where
  Step-IsUnique : {t t' : Users} → Step p c t t' → IsUnique t → IsUnique t'
  unfolding cleanup_users
  Step-IsUnique stays h = h
  Step-IsUnique (inserts {t} base f now free) h =
      let u = new_user p c base f now in
      update-IsUnique (λ r. r.id == u.id) (with_activation p c f.token now) (u ∷ t)
        (λ r. ((refl, refl), refl)) (insert-IsUnique u t free h)
  Step-IsUnique (links u token now) h =
      update-IsUnique _ (with_activation p c token now) _ (λ r. ((refl, refl), refl)) h
  Step-IsUnique (starts u email hashed e a) h =
      update-IsUnique _ (activated p c hashed) _ (λ r. ((refl, refl), refl)) h
  Step-IsUnique (asks u token now) h =
      update-IsUnique _ (with_reset p c token now) _ (λ r. ((refl, refl), refl)) h
  Step-IsUnique (renews u hashed) h =
      update-IsUnique _ (with_password p c hashed) _ (λ r. ((refl, refl), refl)) h
  Step-IsUnique (deletes now) h = select-IsUnique _ _ h

  pub serve-IsUnique :
      (now : ℕ) (r : Request) (s : Accounts p)
      → IsUnique s.users
      → IsUnique (serve p c now r s).users
  serve-IsUnique now r s = Step-IsUnique (serve-Step p c now r s)

  -- If no two users share an id, a username or an email, then none do after any sequence of
  -- registrations, activations, resends, password resets and cleanups, whatever rows the
  -- registrations read before they insert.
  pub serve_all-IsUnique :
      (rs : List (ℕ × Request)) (s : Accounts p)
      → IsUnique s.users
      → IsUnique (serve_all p c rs s).users
  unfolding serve_all
  serve_all-IsUnique [] s h = h
  serve_all-IsUnique ((now, r) ∷ rs) s h =
      serve_all-IsUnique rs (serve p c now r s) (serve-IsUnique now r s h)
