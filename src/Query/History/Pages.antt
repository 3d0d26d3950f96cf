-- ===== src/Query/History/Pages.antt =====
-- The pages of a history.
mod Tests
use urban_octo_tribble.Base.{
  ℕ, zero, suc, ◌+◌, ◌-◌, ◌*◌, ◌/◌, ◌≤◌, ◌<◌, ◌≡◌, refl, sym, ap, ◌∙◌, Bool, true, false, List, [],
  ◌∷◌, ◌++◌, map, All, Option, none, some, Text, length, take, drop, ◌==◌, arith,
}
use mathlib.Core.List.{Memᴰ, Permᴰ}
use mathlib.Core.List.Memᴰ.{head, tail}
use mathlib.Core.List.Memᴰ
use mathlib.Core.List.Permᴰ.{nil, cons, swap, trans}
use mathlib.Core.List.Permᴰ
use mathlib.Core.Path.{subst, subst⁻¹}
use urban_octo_tribble.Database.{matching, Table}
use urban_octo_tribble.Database.Found.{matching-All}
use urban_octo_tribble.Pagination.{PaginationParams, IsValid, create, page_of}
use urban_octo_tribble.Pagination.Pages.{items_of, pages_show_all}
use urban_octo_tribble.Query.{QueryRow, same_query}
use urban_octo_tribble.Query.History.{QueryHistory, validated, own, get_query_history}

-- Newest first, no two of the same time.
abbrev pub Descends : List QueryRow → Type 0
Descends [] = Unit
Descends (r ∷ rows) = All (λ q. q.created_at < r.created_at) rows × Descends rows

-- The rows that there are, newest first.
pub record IsNewestFirst (rows sorted : List QueryRow) : Type 0 where
  pub permutes : Permᴰ sorted rows
  pub descends : Descends sorted

permutes-length : (l m : List QueryRow) → Permᴰ l m → length l ≡ length m
permutes-length _ _ nil = refl
permutes-length _ _ (cons e d) = ap suc (permutes-length _ _ d)
permutes-length _ _ (swap e f) = refl
permutes-length _ _ (trans c d) = permutes-length _ _ c ∙ permutes-length _ _ d

permuted : (l m : List QueryRow) → Permᴰ l m → (x : QueryRow) → Memᴰ x l → Memᴰ x m
permuted _ _ nil x i = i
permuted _ _ (cons e d) x (head e') = head (e' ∙ e)
permuted _ _ (cons e d) x (tail i) = tail (permuted _ _ d x i)
permuted _ _ (swap e f) x (head e') = tail (head (e' ∙ e))
permuted _ _ (swap e f) x (tail (head e')) = head (e' ∙ f)
permuted _ _ (swap e f) x (tail (tail i)) = tail (tail i)
permuted _ _ (trans c d) x i = permuted _ _ d x (permuted _ _ c x i)

older :
    (r : QueryRow) (rows : List QueryRow)
    → All (λ q. q.created_at < r.created_at) rows
    → (x : QueryRow) → Memᴰ x rows
    → x.created_at < r.created_at
older r [] _ x i = absurd (Memᴰ.not-nil i)
older r (q ∷ rows) (h, _) x (head e) = subst⁻¹ (λ (y : QueryRow). y.created_at < r.created_at) e h
older r (q ∷ rows) (_, h) x (tail m) = older r rows h x m

not_older :
    (r : QueryRow) (rows : List QueryRow)
    → All (λ q. q.created_at < r.created_at) rows
    → Memᴰ r rows
    → ⊥
not_older r rows h m = omega (arith, older r rows h r m)

same_head :
    (r q : QueryRow) (rows others : List QueryRow)
    → Descends (r ∷ rows)
    → Descends (q ∷ others)
    → Memᴰ r (q ∷ others)
    → Memᴰ q (r ∷ rows)
    → r ≡ q
same_head r q rows others h k (head e) n = e
same_head r q rows others h k (tail m) (head e) = sym e
same_head r q rows others (h, _) (k, _) (tail m) (tail n) =
    absurd (omega (arith, older r rows h q n, older q others k r m))

-- A row of the tail is not the head, which is newer.
in_tail :
    (r q : QueryRow) (rows others : List QueryRow)
    → q ≡ r
    → All (λ x. x.created_at < r.created_at) rows
    → (x : QueryRow) → Memᴰ x rows
    → Memᴰ x (q ∷ others)
    → Memᴰ x others
in_tail r q rows others e h x m (head e') =
    absurd (not_older r rows h (subst (λ y. Memᴰ y rows) (e' ∙ e) m))
in_tail r q rows others e h x m (tail n) = n

sorted_once :
    (l m : List QueryRow)
    → Descends l
    → Descends m
    → ((x : QueryRow) → Memᴰ x l → Memᴰ x m)
    → ((x : QueryRow) → Memᴰ x m → Memᴰ x l)
    → l ≡ m
sorted_once [] [] h k f g = refl
sorted_once [] (q ∷ m) h k f g = absurd (Memᴰ.not-nil (g q (head refl)))
sorted_once (r ∷ l) [] h k f g = absurd (Memᴰ.not-nil (f r (head refl)))
sorted_once (r ∷ l) (q ∷ m) h k f g =
    let e : r ≡ q = same_head r q l m h k (f r (head refl)) (g q (head refl)) in
    let rest =
      sorted_once l m h.1 k.1 (λ x i. in_tail r q l m (sym e) h.0 x i (f x (tail i)))
        (λ x i. in_tail q r m l e k.0 x i (g x (tail i))) in
    ap (λ (y : QueryRow). y ∷ l) e ∙ ap (λ (z : List QueryRow). q ∷ z) rest

-- There is one list of the rows newest first.
newest_first_once : (rows l m : List QueryRow) → IsNewestFirst rows l → IsNewestFirst rows m → l ≡ m
newest_first_once rows l m h k =
    sorted_once l m h.descends k.descends
      (λ x i. permuted _ _ (Permᴰ.symm k.permutes) x (permuted _ _ h.permutes x i))
      (λ x i. permuted _ _ (Permᴰ.symm h.permutes) x (permuted _ _ k.permutes x i))

map-append : (l m : List QueryRow) → map validated (l ++ m) ≡ map validated l ++ map validated m
map-append [] m = refl
map-append (r ∷ l) m = ap (λ (t : List QueryHistory). validated r ∷ t) (map-append l m)

module _ (T : Table QueryRow same_query) (orders : ℕ → List QueryRow → List QueryRow) where
  -- The items of so many pages, after a number of pages; each request has an order of its own.
  abbrev pub shown : ℕ → ℕ → ℕ → ℕ → T.Store → List QueryHistory
  shown user_id page_size first zero t = []
  shown user_id page_size first (suc count) t =
      (get_query_history T (orders (first + 1)) user_id
        (record { page = first + 1; page_size = page_size }) t).items
      ++ shown user_id page_size (first + 1) count t

  shown-eq-items_of :
      (user_id page_size first count : ℕ) (t : T.Store) (sorted : List QueryRow)
      → ((n : ℕ) → orders n (own T (orders n) user_id t) ≡ sorted)
      → shown user_id page_size first count t
        ≡ map validated (items_of page_size first count sorted)
  unfolding get_query_history
  shown-eq-items_of user_id page_size first zero t sorted h = refl
  shown-eq-items_of user_id page_size first (suc count) t sorted h =
      let page : PaginationParams = record { page = first + 1; page_size = page_size } in
      ap
        (λ (l : List QueryRow).
          map validated (page_of page l) ++ shown user_id page_size (first + 1) count t)
        (h (first + 1))
      ∙ ap (λ (l : List QueryHistory). map validated (page_of page sorted) ++ l)
          (shown-eq-items_of user_id page_size (first + 1) count t sorted h)
      ∙ sym (map-append (page_of page sorted) (items_of page_size (first + 1) count sorted))

  -- As many pages as a response counts, one request after the other on the same rows, show all of
  -- the user's queries, each once and newest first, and no query of another user, when the database
  -- sorts them newest first at each request and no two have the same time. The page size is within
  -- its bounds.
  pub history_pages_show_own :
      (user_id : ℕ) (p : PaginationParams) (t : T.Store)
      → ((n : ℕ)
          → IsNewestFirst (own T (orders n) user_id t) (orders n (own T (orders n) user_id t)))
      → IsValid p
      → let all = orders 1 (own T (orders 1) user_id t) in
        (shown user_id p.page_size 0 (get_query_history T (orders 1) user_id p t).pages t
          ≡ map validated all)
        × IsNewestFirst (own T (orders 1) user_id t) all
        × All (λ r. (r.user_id == user_id) ≡ true) (own T (orders 1) user_id t)
  unfolding get_query_history create
  history_pages_show_own user_id p t order valid =
      let rows = own T (orders 1) user_id t in
      let sorted = orders 1 rows in
      let same = λ (n : ℕ). newest_first_once rows (orders n rows) sorted (order n) (order 1) in
      let counted =
        subst (λ n. items_of p.page_size 0 ((n + p.page_size - 1) / p.page_size) sorted ≡ sorted)
          (permutes-length sorted rows (order 1).permutes) (pages_show_all sorted p valid) in
      (
        shown-eq-items_of user_id p.page_size 0 ((length rows + p.page_size - 1) / p.page_size) t
              sorted same
            ∙ ap (map validated) counted,
        order 1,
        matching-All (λ r. r.user_id == user_id) (T.rows t),
      )
