-- ===== src/Pagination/Pages.antt =====
-- The pages of a listing together.
mod Tests
use urban_octo_tribble.Base.{
  ℕ, zero, suc, ◌+◌, ◌-◌, ◌*◌, ◌/◌, ◌≤◌, ◌<◌, min, ◌≡◌, refl, sym, ap, ◌∙◌, List, [], ◌∷◌, ◌++◌,
  length, take, drop, length-drop, take-append-drop, arith,
}
use urban_octo_tribble.Pagination.{
  PaginationParams, IsValid, PaginatedResponse, create, page_of, skip, limit,
}

module _ {ℓ} {A : Type ℓ} where
  -- The items of `count` pages, from page `first + 1` on.
  abbrev pub items_of : ℕ → ℕ → ℕ → List A → List A
  items_of page_size first zero rows = []
  items_of page_size first (suc count) rows =
      page_of (record { page = first + 1; page_size = page_size }) rows
      ++ items_of page_size (first + 1) count rows

  drop_all : (n : ℕ) (l : List A) → length l ≤ n → drop n l ≡ []
  drop_all zero [] h = refl
  drop_all zero (x ∷ l) h = absurd (ground arith)
  drop_all (suc n) [] h = refl
  drop_all (suc n) (x ∷ l) h = drop_all n l (omega arith)

  drop_nil : (n : ℕ) → ◌≡◌ {A = List A} (drop n []) []
  drop_nil zero = refl
  drop_nil (suc n) = refl

  drop-drop : (m n : ℕ) (l : List A) → drop m (drop n l) ≡ drop (n + m) l
  drop-drop m zero l = let e : 0 + m ≡ m = omega arith in rw e refl
  drop-drop m (suc n) [] = let e : suc n + m ≡ suc (n + m) = omega arith in rw e (drop_nil m)
  drop-drop m (suc n) (x ∷ l) =
      let e : suc n + m ≡ suc (n + m) = omega arith in rw e (drop-drop m n l)

  items_of-drop :
      (page_size first count : ℕ) (rows : List A)
      → length rows ≤ (first + count) * page_size
      → items_of page_size first count rows ≡ drop (first * page_size) rows
  items_of-drop page_size first zero rows h = sym (drop_all (first * page_size) rows (grind arith))
  items_of-drop page_size first (suc count) rows h =
      let start : (first + 1 - 1) * page_size ≡ first * page_size = grind arith in
      let next : (first + 1) * page_size ≡ first * page_size + page_size = grind arith in
      let more : (first + suc count) * page_size ≡ (first + 1 + count) * page_size = grind arith in
      let rest = items_of-drop page_size (first + 1) count rows (rw⁻¹ more h) in
      rw (start, rest, next)
        (ap (λ (t : List A). take page_size (drop (first * page_size) rows) ++ t)
            (sym (drop-drop page_size (first * page_size) rows))
          ∙ take-append-drop page_size (drop (first * page_size) rows))

pages_enough :
    (total page_size : ℕ) → 1 ≤ page_size → total ≤ (total + page_size - 1) / page_size * page_size
pages_enough total page_size h = grind arith

pages_least :
    (total page_size n : ℕ)
    → 1 ≤ page_size
    → total ≤ n * page_size
    → (total + page_size - 1) / page_size ≤ n
pages_least total page_size n h i = grind arith

module _ {ℓ} {A : Type ℓ} where
  -- The pages that a response counts show every row once, in order: one after the other they
  -- are the listing. The page size is within its bounds.
  pub pages_show_all :
      (rows : List A) (p : PaginationParams)
      → IsValid p
      → items_of p.page_size 0 (create (page_of p rows) (length rows) p).pages rows ≡ rows
  unfolding create
  pages_show_all rows p valid =
      let pages = (length rows + p.page_size - 1) / p.page_size in
      let zero_pages : 0 + pages ≡ pages = omega arith in
      let zero_skip : 0 * p.page_size ≡ 0 = grind arith in
      items_of-drop p.page_size 0 ((length rows + p.page_size - 1) / p.page_size) rows
        (rw zero_pages (pages_enough (length rows) p.page_size valid.page_size_ge))
      ∙ rw zero_skip refl

  -- No smaller number of pages of that size has room for the rows than the number that a
  -- response counts. The page size is within its bounds.
  pub pages_fewest :
      (rows : List A) (p : PaginationParams) (n : ℕ)
      → IsValid p
      → length rows ≤ n * p.page_size
      → (create (page_of p rows) (length rows) p).pages ≤ n
  unfolding create
  pages_fewest rows p n valid h = pages_least (length rows) p.page_size n valid.page_size_ge h
