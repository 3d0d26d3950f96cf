-- ===== src/Query/Search.antt =====
-- The two handlers of app/routes/query.py that search, and app/schemas/search.py. What the services
-- find is a parameter, as in the hybrid search.
mod Tests
use urban_octo_tribble.Base.{
  ℕ, zero, suc, ◌+◌, ◌≤◌, ◌≡◌, refl, sym, ap, ◌∙◌, Bool, true, false, List, [], ◌∷◌, map, Option,
  none, some, Text, codes, text_eq, length, take, arith,
}
use urban_octo_tribble.HybridSearch.{
  Scores, Row, Ranked, Merged, Backends, Found, ranked, merged, ranked_from, as_ranked, cut,
  vector_search, hybrid_search,
}

module _ (F : Scores) where
  pub record SearchRequest : Type 0 where
    pub query : Text
    pub document_id : Option ℕ
    pub limit : ℕ
    pub score_threshold : F.Score
    pub mode : Text

  pub record SearchResult : Type 0 where
    pub chunk_text : Text
    pub document_id : ℕ
    pub chunk_index : ℕ
    pub score : F.Score
    pub metadata : List (Text × Text)
    pub vector_score : Option F.Score
    pub keyword_score : Option F.Score
    pub rrf_score : Option F.Score

  pub record SearchResponse : Type 0 where
    pub query : Text
    pub results : List SearchResult
    pub total_results : ℕ
    pub mode : Text

  abbrev pub of_row : Row F → SearchResult
  of_row r = record {
    chunk_text = r.chunk_text;
    document_id = r.document_id;
    chunk_index = r.chunk_index;
    score = r.score;
    metadata = r.metadata;
    vector_score = none;
    keyword_score = none;
    rrf_score = none;
  }

  abbrev pub of_ranked : Ranked F → SearchResult
  of_ranked r = of_row r.row

  -- A score of 0 is false, and then `score` is 0 too.
  abbrev pub of_merged : Merged F → SearchResult
  of_merged m = record {
    chunk_text = m.chunk.chunk_text;
    document_id = m.chunk.document_id;
    chunk_index = m.chunk.chunk_index;
    score = m.rrf_score;
    metadata = m.chunk.metadata;
    vector_score = m.chunk.vector_score;
    keyword_score = m.chunk.keyword_score;
    rrf_score = some m.rrf_score;
  }

  abbrev pub response : Text → Text → List SearchResult → SearchResponse
  response query mode results = record {
    query = query;
    results = results;
    total_results = length results;
    mode = mode;
  }

  -- `none` is an exception, which is raised again.
  abbrev pub semantic_response : Text → Option (List (Row F)) → Option SearchResponse
  semantic_response query none = none
  semantic_response query (some rows) = some (response query (codes "vector") (map of_row rows))

  unfoldable pub semantic_search : Backends F → SearchRequest → Option SearchResponse
  semantic_search b request =
      semantic_response request.query
        (b.search_vectors request.query request.document_id request.limit request.score_threshold)

  abbrev pub results_of : Found F → List SearchResult
  results_of (ranked rows) = map of_ranked rows
  results_of (merged chunks) = map of_merged chunks

  abbrev pub found_response : Text → Text → Option (Found F) → Option SearchResponse
  found_response query mode none = none
  found_response query mode (some found) = some (response query mode (results_of found))

  unfoldable pub hybrid_search_route : Backends F → SearchRequest → Option SearchResponse
  hybrid_search_route b request = found_response request.query request.mode (
      hybrid_search F b request.query request.document_id request.limit request.score_threshold
        request.mode)

  -- The searches heed their limit.
  pub record HeedsLimit (b : Backends F) : Type 0 where
    pub vectors :
        (query : Text) (document_id : Option ℕ) (limit : ℕ) (score_threshold : F.Score)
        (rows : List (Row F))
        → b.search_vectors query document_id limit score_threshold ≡ some rows
        → length rows ≤ limit

  of_ranked-take :
      (n rank : ℕ) (rows : List (Row F))
      → length rows ≤ n
      → map of_ranked (take n (ranked_from F rank rows)) ≡ map of_row rows
  of_ranked-take zero rank [] h = refl
  of_ranked-take zero rank (r ∷ rows) h = absurd (omega (arith, h))
  of_ranked-take (suc n) rank [] h = refl
  of_ranked-take (suc n) rank (r ∷ rows) h =
      ap (λ (l : List SearchResult). of_row r ∷ l)
        (of_ranked-take n (rank + 1) rows (omega (arith, h)))

  found_vectors :
      (query : Text) (limit : ℕ) (o : Option (List (Row F)))
      → ((rows : List (Row F)) → o ≡ some rows → length rows ≤ limit)
      → found_response query (codes "vector") (cut F limit (as_ranked F o))
        ≡ semantic_response query o
  found_vectors query limit none h = refl
  found_vectors query limit (some rows) h =
      ap (λ l. some (response query (codes "vector") l)) (of_ranked-take limit 1 rows (h rows refl))

  -- The search by hybrid search in its mode "vector" answers as the deprecated semantic search does,
  -- where the vector search heeds its limit.
  pub hybrid_search_route-eq-semantic_search :
      (b : Backends F) (request : SearchRequest)
      → HeedsLimit b
      → request.mode ≡ codes "vector"
      → hybrid_search_route b request ≡ semantic_search b request
  unfolding hybrid_search_route semantic_search hybrid_search vector_search text_eq
  hybrid_search_route-eq-semantic_search b request heeds e = rw e (
      found_vectors request.query request.limit
        (b.search_vectors request.query request.document_id request.limit request.score_threshold)
        (heeds.vectors request.query request.document_id request.limit request.score_threshold))
