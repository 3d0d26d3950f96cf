-- ===== src/Pagination/Pages/Tests.antt =====
-- Five rows in pages of two.
use urban_octo_tribble.Base.{ℕ, ◌≡◌, refl, List, [], ◌∷◌, arith}
use urban_octo_tribble.Pagination.{PaginationParams, IsValid, create, page_of}

abbrev rows : List ℕ
rows = 10 ∷ 20 ∷ 30 ∷ 40 ∷ 50 ∷ []

abbrev third : PaginationParams
third = record { page = 3; page_size = 2 }

third-IsValid : IsValid third
third-IsValid = record {
  page_ge = omega arith;
  page_size_ge = omega arith;
  page_size_le = omega arith;
}

create_runs :
    create (page_of third rows) 5 third
    ≡ record { items = 50 ∷ []; total = 5; page = 3; page_size = 2; pages = 3 }
unfolding create
create_runs = refl
