-- ===== src/Core/Pagination.antt =====
-- Pages of a query: app/core/database/pagination.py. The rows are those of the query in its order;
-- the links are kept as the numbers of their pages. `Page` holds a page of at least 1 and a size
-- from 1 to 100.
use native.Mathlib.Nat.{suc-mul, lt-div-mul-add, le-div_iff_mul-le}
use family_inventory.Prelude.{
  ◌↔◌, take-append-drop, ℕ, zero, suc, ◌+◌, ◌-◌, ◌*◌, ◌/◌, ◌≤◌, ◌<◌, ◌≡◌, refl, ◌∙◌, sym, ap, false,
  Option, none, some, List, [], ◌∷◌, ◌++◌, arith, ltb, leb, if◌then◌else◌, length, take, drop,
  length-take-le, append-nil, append-append, ◌&&◌, is_none, not, ◌||◌,
}

-- the limit and the offset
unfoldable pub get_limit_skip : ℕ → ℕ → ℕ × ℕ
get_limit_skip page page_size = (page_size, (page - 1) * page_size)

-- `math.ceil(total / page_size)`
unfoldable pub total_pages : ℕ → ℕ → ℕ
total_pages total page_size = (total + (page_size - 1)) / page_size

pub record PaginatedOutput (A : Type 0) : Type 0 where
  pub count : ℕ
  pub total_pages : ℕ
  pub next : Option ℕ
  pub previous : Option ℕ
  pub results : List A

module _ {A : Type 0} where
  -- LIMIT and OFFSET
  unfoldable pub page_rows : ℕ → ℕ → List A → List A
  page_rows page page_size rows =
      let (limit, offset) = get_limit_skip page page_size in take limit (drop offset rows)

  unfoldable pub apply_pagination : ℕ → ℕ → List A → PaginatedOutput A
  unfolding page_rows
  apply_pagination page page_size rows =
      let pages = total_pages (length rows) page_size in
      record {
        count = length rows;
        total_pages = pages;
        next = if ltb page pages then some (page + 1) else none;
        previous = if ltb 1 page then some (page - 1) else none;
        results = page_rows page page_size rows;
      }

  -- The rows of `n` pages from a page on.
  unfoldable pub pages_from : ℕ → ℕ → ℕ → List A → List A
  unfolding page_rows
  pages_from zero page page_size rows = []
  pages_from (suc n) page page_size rows =
      page_rows page page_size rows ++ pages_from n (suc page) page_size rows

  drop-drop : (n m : ℕ) (l : List A) → drop m (drop n l) ≡ drop (n + m) l
  drop-drop zero m l = let e : 0 + m ≡ m = omega arith in rw e refl
  drop-drop (suc n) zero [] = let e : suc n + 0 ≡ suc n = omega arith in rw e refl
  drop-drop (suc n) (suc m) [] = let e : suc n + suc m ≡ suc (n + suc m) = omega arith in rw e refl
  drop-drop (suc n) m (x ∷ l) =
      let e : suc n + m ≡ suc (n + m) = omega arith in rw e (drop-drop n m l)

  drop_all : (n : ℕ) (l : List A) → length l ≤ n → drop n l ≡ []
  drop_all zero [] h = refl
  drop_all zero (x ∷ l) h = absurd (omega arith)
  drop_all (suc n) [] h = refl
  drop_all (suc n) (x ∷ l) h = drop_all n l (omega arith)

  page_rows-drop :
      (p size : ℕ) (l : List A)
      → page_rows (suc p) size l ++ drop (suc p * size) l ≡ drop (p * size) l
  unfolding page_rows get_limit_skip
  page_rows-drop p size l =
      let before : suc p - 1 ≡ p = omega arith in
      let rest : drop (suc p * size) l ≡ drop size (drop (p * size) l) =
        ap (λ n. drop n l) (suc-mul p size) ∙ sym (drop-drop (p * size) size l) in
      rw (before, rest) (take-append-drop size (drop (p * size) l))

  pages_from-drop :
      (n p size : ℕ) (l : List A)
      → pages_from n (suc p) size l ++ drop ((n + p) * size) l ≡ drop (p * size) l
  unfolding pages_from
  pages_from-drop zero p size l = let e : 0 + p ≡ p = omega arith in rw e refl
  pages_from-drop (suc n) p size l =
      let next : suc n + p ≡ n + suc p = omega arith in
      append-append (page_rows (suc p) size l) (pages_from n (suc (suc p)) size l)
        (drop ((suc n + p) * size) l)
      ∙ (ap
            (λ k.
              page_rows (suc p) size l ++ (pages_from n (suc (suc p)) size l ++ drop (k * size) l))
            next
          ∙ (ap (λ r. page_rows (suc p) size l ++ r) (pages_from-drop n (suc p) size l)
              ∙ page_rows-drop p size l))

total-le : (t size : ℕ) → 0 < size → t ≤ total_pages t size * size
unfolding total_pages
total-le t size pos = omega (arith, lt-div-mul-add {a = t + (size - 1)} pos)

lt-total_pages : (page t size : ℕ) → 0 < size → (page < total_pages t size) ↔ (page * size < t)
unfolding total_pages
lt-total_pages page t size pos =
    let (down, up) = le-div_iff_mul-le {x = suc page} {y = t + (size - 1)} pos in
    let step = suc-mul page size in
    (
      λ h. let g = down h in omega arith,
      λ h. let g : suc page * size ≤ t + (size - 1) = omega arith in up g,
    )

-- For a page size of at least one, the pages one after the other, from the first to the last, are
-- the rows of the query, each once and in their order.
pub pages_cover :
    {A : Type 0} (size : ℕ) (rows : List A)
    → 0 < size
    → pages_from (total_pages (length rows) size) 1 size rows ≡ rows
pages_cover size rows pos =
    let n = total_pages (length rows) size in
    let none_left : drop ((n + 0) * size) rows ≡ [] =
      drop_all ((n + 0) * size) rows
        (let e : n + 0 ≡ n = omega arith in rw e (total-le (length rows) size pos)) in
    sym (append-nil (pages_from n 1 size rows))
    ∙ (ap (λ r. pages_from n 1 size rows ++ r) (sym none_left)
        ∙ (pages_from-drop n 0 size rows ∙ (let z : 0 * size ≡ 0 = omega arith in rw z refl)))

-- For a page size of at least one, a page has a link to the next exactly when rows are left after
-- it, and a link to the previous one exactly when its number is above one; it holds at most its
-- size of rows.
pub page_links :
    {A : Type 0} (page size : ℕ) (rows : List A)
    → 0 < size
    → let out = apply_pagination page size rows in
      (length out.results ≤ size)
      × ((is_none out.next ≡ false) ↔ (page * size < length rows))
      × ((is_none out.previous ≡ false) ↔ (1 < page))
unfolding apply_pagination page_rows get_limit_skip
page_links page size rows pos = (
  length-take-le size (drop ((page - 1) * size) rows),
  (
    λ h. (lt-total_pages page (length rows) size pos).0 (ground arith),
    λ h. let g = (lt-total_pages page (length rows) size pos).1 h in ground arith,
  ),
  ground arith,
)

-- `Page` validates its fields; it ignores `limit` and `skip`.
unfoldable pub validated_page : Option ℕ → Option ℕ → Option (ℕ × ℕ)
validated_page none page = none
validated_page (some page_size) none = none
validated_page (some page_size) (some page) =
    if leb 1 page_size && (leb page_size 100 && leb 1 page) then some (page, page_size) else none

-- `get_pagination`: the page and its size, or no value where it raises with status 400.
unfoldable pub get_pagination : Option ℕ → Option ℕ → Option ℕ → Option ℕ → Option (ℕ × ℕ)
get_pagination page_size page limit skip =
    let acceptable_condition_1 =
      (is_none limit && is_none skip) && not (is_none page_size || is_none page) in
    let acceptable_condition_2 = is_none page && not (is_none limit || is_none skip) in
    if acceptable_condition_1 || acceptable_condition_2 then validated_page page_size page else none

-- If a request's parameters are accepted, they are a page of at least one and a size from 1 to 100,
-- without a limit and without a skip, and the result is that page and size.
pub pagination_needs_page :
    (page_size page limit skip : Option ℕ) (p size : ℕ)
    → get_pagination page_size page limit skip ≡ some (p, size)
    → (page ≡ some p)
      × (page_size ≡ some size)
      × (limit ≡ none)
      × (skip ≡ none)
      × (1 ≤ p)
      × (1 ≤ size)
      × (size ≤ 100)
unfolding get_pagination validated_page
pagination_needs_page page_size page limit skip p size h = ground arith
