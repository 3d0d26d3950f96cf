-- ===== src/Pagination.antt =====
-- Pages of a listing: app/schemas/pagination.py.
pub mod Pages
use urban_octo_tribble.Base.{ℕ, ◌+◌, ◌-◌, ◌*◌, ◌/◌, ◌≤◌, List, take, drop}

-- `PaginationParams`, with the bounds that its fields declare.
pub record PaginationParams : Type 0 where
  pub page : ℕ
  pub page_size : ℕ

pub record IsValid (p : PaginationParams) : Type 0 where
  pub page_ge : 1 ≤ p.page
  pub page_size_ge : 1 ≤ p.page_size
  pub page_size_le : p.page_size ≤ 100

abbrev pub skip : PaginationParams → ℕ
skip p = (p.page - 1) * p.page_size

abbrev pub limit : PaginationParams → ℕ
limit p = p.page_size

pub record PaginatedResponse {ℓ} (A : Type ℓ) : Type ℓ where
  pub items : List A
  pub total : ℕ
  pub page : ℕ
  pub page_size : ℕ
  pub pages : ℕ

module _ {ℓ} {A : Type ℓ} where
  unfoldable pub create : List A → ℕ → PaginationParams → PaginatedResponse A
  create items total pagination = record {
    items = items;
    total = total;
    page = pagination.page;
    page_size = pagination.page_size;
    pages = (total + pagination.page_size - 1) / pagination.page_size;
  }

  -- A query's `.offset(pagination.skip).limit(pagination.limit)`
  abbrev pub page_of : PaginationParams → List A → List A
  page_of p rows = take (limit p) (drop (skip p) rows)
