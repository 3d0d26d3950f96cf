-- ===== src/Query/Search/Tests.antt =====
-- A search that finds one row, with natural numbers for scores.
use urban_octo_tribble.Base.{
  ℕ, ◌≤◌, ◌≡◌, refl, List, [], ◌∷◌, Option, none, some, codes, length, take, length-take,
  some-injective, arith,
}
use mathlib.Core.Path.{subst}
use urban_octo_tribble.HybridSearch.Samples.{score_numbers}
use urban_octo_tribble.HybridSearch.{Row, Backends}
use urban_octo_tribble.Query.Search.{
  SearchRequest, semantic_search, hybrid_search_route, HeedsLimit,
  hybrid_search_route-eq-semantic_search,
}

abbrev row : Row score_numbers
row = record {
  chunk_id = some 4;
  document_id = 7;
  chunk_index = 0;
  chunk_text = codes "text";
  score = 80;
  metadata = [];
}

abbrev found : Backends score_numbers
found = record {
  search_vectors = λ query d limit s. some (take limit (row ∷ []));
  search_words = λ query d limit. some [];
}

found-HeedsLimit : HeedsLimit score_numbers found
found-HeedsLimit = record { vectors = λ query d limit s rows h. one_row limit rows h }
  where
    one_row :
        (limit : ℕ) (rows : List (Row score_numbers))
        → ◌≡◌ {A = Option (List (Row score_numbers))} (some (take limit (row ∷ []))) (some rows)
        → length rows ≤ limit
    one_row limit rows h =
        subst (λ l. length l ≤ limit) (some-injective _ _ h)
          (omega (arith, length-take limit (row ∷ [])))

abbrev request : SearchRequest score_numbers
request = record {
  query = codes "fee";
  document_id = none;
  limit = 5;
  score_threshold = 60;
  mode = codes "vector";
}

hybrid_search_route-eq-semantic_search_example :
    hybrid_search_route score_numbers found request ≡ semantic_search score_numbers found request
hybrid_search_route-eq-semantic_search_example =
    hybrid_search_route-eq-semantic_search score_numbers found request found-HeedsLimit refl
