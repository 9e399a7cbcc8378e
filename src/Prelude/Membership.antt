-- ===== src/Prelude/Membership.antt =====
-- Which rows a list has, by its elements: for the queries' WHERE, ORDER BY and JOIN. Models no file
-- of the repository by itself.
use Prim.Native.Nat.{ℕ}
use native.Mathlib.Omega.{arith}
use mathlib.Core.Path.{◌≡◌, refl, sym, ap, ◌∙◌, subst}
use mathlib.Core.Bool.{Bool, true, false}
use mathlib.Core.Logic.{◌⊎◌, ◌↔◌, inl, inr}
use mathlib.Core.List.{List, [], ◌∷◌, ◌++◌, Memᴰ, Permᴰ}
use mathlib.Core.List.Memᴰ
use mathlib.Core.List.Memᴰ.{head, tail}
use mathlib.Core.List.Permᴰ
use mathlib.Core.List.Permᴰ.{nil, cons, swap, trans}
use family_inventory.Prelude.Tests.{if◌then◌else◌, Bool-cases, ◌==◌, ==_iff}
use family_inventory.Prelude.Lists.{exists, select, insert_by, sort_by, All}

module _ {ℓ} {A : Type ℓ} where
  pub mem-select :
      (p : A → Bool) (l : List A) (x : A) → Memᴰ x (select p l) → Memᴰ x l × (p x ≡ true)
  mem-select p [] x m = elim m [ ]
  mem-select p (y ∷ l) x m = elim (Bool-cases (p y)) [
    | inl e ↦ elim (rw e at m) [
      | head q ↦ (head q, ap p q ∙ e)
      | tail n ↦ let (k, f) = mem-select p l x n in (tail k, f)
    ]
    | inr e ↦ let (k, f) = mem-select p l x (rw e at m) in (tail k, f)
  ]

  pub select-mem : (p : A → Bool) (l : List A) (x : A) → Memᴰ x l → p x ≡ true → Memᴰ x (select p l)
  select-mem p [] x m e = elim m [ ]
  select-mem p (y ∷ l) x (head q) e = rw (sym (ap p q) ∙ e) (head q)
  select-mem p (y ∷ l) x (tail m) e = elim (Bool-cases (p y)) [
    | inl f ↦ rw f (tail (select-mem p l x m e))
    | inr f ↦ rw f (select-mem p l x m e)
  ]

  insert_by-Permᴰ : (le : A → A → Bool) (x : A) (l : List A) → Permᴰ (insert_by le x l) (x ∷ l)
  insert_by-Permᴰ le x [] = Permᴰ.refl (x ∷ [])
  insert_by-Permᴰ le x (y ∷ l) = elim (Bool-cases (le x y)) [
    | inl e ↦ rw e (Permᴰ.refl (x ∷ y ∷ l))
    | inr e ↦ rw e (trans (cons refl (insert_by-Permᴰ le x l)) (swap refl refl))
  ]

  pub sort_by-Permᴰ : (le : A → A → Bool) (l : List A) → Permᴰ (sort_by le l) l
  sort_by-Permᴰ le [] = nil
  sort_by-Permᴰ le (x ∷ l) =
      trans (insert_by-Permᴰ le x (sort_by le l)) (cons refl (sort_by-Permᴰ le l))

  pub mem-Permᴰ : {l l' : List A} (x : A) → Permᴰ l l' → Memᴰ x l → Memᴰ x l'
  mem-Permᴰ x nil m = m
  mem-Permᴰ x (cons e d) (head q) = head (q ∙ e)
  mem-Permᴰ x (cons e d) (tail m) = tail (mem-Permᴰ x d m)
  mem-Permᴰ x (swap e f) (head q) = tail (head (q ∙ e))
  mem-Permᴰ x (swap e f) (tail (head q)) = head (q ∙ f)
  mem-Permᴰ x (swap e f) (tail (tail m)) = tail (tail m)
  mem-Permᴰ x (trans c d) m = mem-Permᴰ x d (mem-Permᴰ x c m)

  pub mem-sort_by : (le : A → A → Bool) (l : List A) (x : A) → Memᴰ x (sort_by le l) → Memᴰ x l
  mem-sort_by le l x m = mem-Permᴰ x (sort_by-Permᴰ le l) m

  pub sort_by-mem : (le : A → A → Bool) (l : List A) (x : A) → Memᴰ x l → Memᴰ x (sort_by le l)
  sort_by-mem le l x m = mem-Permᴰ x (Permᴰ.symm (sort_by-Permᴰ le l)) m

  pub All-mem {κ} : (Q : A → Type κ) (l : List A) → All Q l → (x : A) → Memᴰ x l → Q x
  All-mem Q [] h x m = elim m [ ]
  All-mem Q (y ∷ l) h x (head q) = subst Q (sym q) h.0
  All-mem Q (y ∷ l) h x (tail m) = All-mem Q l h.1 x m

  -- Lists that a test adds to: one row, or several.
  pub mem-if_cons :
      (b : Bool) (a : A) (l : List A) (x : A)
      → Memᴰ x (if b then a ∷ l else l)
      → ((b ≡ true) × (x ≡ a)) ⊎ Memᴰ x l
  mem-if_cons true a l x (head q) = inl (refl, q)
  mem-if_cons true a l x (tail m) = inr m
  mem-if_cons false a l x m = inr m

  pub if_cons-mem :
      (b : Bool) (a : A) (l : List A) (x : A) → Memᴰ x l → Memᴰ x (if b then a ∷ l else l)
  if_cons-mem true a l x m = tail m
  if_cons-mem false a l x m = m

  pub if_cons-mem_head :
      (b : Bool) (a : A) (l : List A) → b ≡ true → Memᴰ a (if b then a ∷ l else l)
  if_cons-mem_head true a l e = head refl
  if_cons-mem_head false a l e = cc (e)

  pub mem-if_append :
      (b : Bool) (k l : List A) (x : A)
      → Memᴰ x (if b then k ++ l else l)
      → ((b ≡ true) × Memᴰ x k) ⊎ Memᴰ x l
  mem-if_append true k l x m = elim (Memᴰ.append_cases k m) [
    | inl n ↦ inl (refl, n)
    | inr n ↦ inr n
  ]
  mem-if_append false k l x m = inr m

  pub if_append-mem :
      (b : Bool) (k l : List A) (x : A) → Memᴰ x l → Memᴰ x (if b then k ++ l else l)
  if_append-mem true k l x m = Memᴰ.append_right k m
  if_append-mem false k l x m = m

  pub if_append-mem_left :
      (b : Bool) (k l : List A) (x : A) → b ≡ true → Memᴰ x k → Memᴰ x (if b then k ++ l else l)
  if_append-mem_left true k l x e m = Memᴰ.append_left l m
  if_append-mem_left false k l x e m = cc (e)

-- The test of `IN`, as queries make it.
pub exists-mem_id : (k : ℕ) (ids : List ℕ) → (exists (λ i. i == k) ids ≡ true) ↔ Memᴰ k ids
exists-mem_id k [] = (λ e. cc (e), λ m. elim m [ ])
exists-mem_id k (i ∷ ids) = (
  λ e. elim (Bool-cases (i == k)) [
    | inl h ↦ head (sym ((==_iff i k).0 h))
    | inr h ↦ tail ((exists-mem_id k ids).0 (rw h at e))
  ],
  λ m. elim m [
    | head q ↦ let h : (i == k) ≡ true = ground (arith, q) in rw h refl
    | tail n ↦ ground (arith, (exists-mem_id k ids).1 n)
  ],
)
