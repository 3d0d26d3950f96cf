-- ===== src/HybridSearch.antt =====
-- Search by meaning and by words together, app/services/ai/hybrid_search.py. The scores are a
-- parameter, since they are floats: sums, the quotients 1 / n and comparison. What the vector store
-- and PostgreSQL find is a parameter too: lists of rows, best first.
pub mod Fusion
pub mod Samples
use urban_octo_tribble.Base.{
  ℕ, suc, ◌+◌, ◌*◌, ◌≡◌, Bool, true, false, List, [], ◌∷◌, Option, none, some, Text, codes, text_eq,
  take, if◌then◌else◌,
}
use urban_octo_tribble.Base.Dict.{get, put, has, keys}

-- What is relied on of floats: `leb` orders them.
pub record Scores : Type 1 where
  pub Score : Type 0
  pub zero_score : Score
  pub add : Score → Score → Score
  pub inverse : ℕ → Score
  pub leb : Score → Score → Bool
  pub leb_total : (a b : Score) → leb a b ≡ false → leb b a ≡ true
  pub leb_trans : (a b c : Score) → leb a b ≡ true → leb b c ≡ true → leb a c ≡ true

module _ (F : Scores) where
  -- A row that one of the two searches finds.
  pub record Row : Type 0 where
    pub chunk_id : Option ℕ
    pub document_id : ℕ
    pub chunk_index : ℕ
    pub chunk_text : Text
    pub score : F.Score
    pub metadata : List (Text × Text)

  -- A row with its rank, from 1 on.
  pub record Ranked : Type 0 where
    pub row : Row
    pub rank : ℕ

  -- An entry of `chunk_data`.
  pub record ChunkData : Type 0 where
    pub chunk_id : ℕ
    pub document_id : ℕ
    pub chunk_index : ℕ
    pub chunk_text : Text
    pub metadata : List (Text × Text)
    pub vector_score : Option F.Score
    pub keyword_score : Option F.Score

  pub record Merged : Type 0 where
    pub chunk : ChunkData
    pub rrf_score : F.Score

  -- enumerate(results, start=rank)
  abbrev pub ranked_from : ℕ → List Row → List Ranked
  ranked_from rank [] = []
  ranked_from rank (r ∷ rs) = record { row = r; rank = rank } ∷ ranked_from (rank + 1) rs

  -- The two dictionaries of `reciprocal_rank_fusion`.
  pub record Tables : Type 0 where
    pub rrf_scores : List (ℕ × F.Score)
    pub chunk_data : List (ℕ × ChunkData)

  abbrev pub score_or_zero : Option F.Score → F.Score
  score_or_zero none = F.zero_score
  score_or_zero (some s) = s

  -- rrf_scores[chunk_id] = rrf_scores.get(chunk_id, 0.0) + (1.0 / (k + rank))
  abbrev pub add_score : ℕ → ℕ → ℕ → List (ℕ × F.Score) → List (ℕ × F.Score)
  add_score k chunk_id rank scores =
      put chunk_id (F.add (score_or_zero (get chunk_id scores)) (F.inverse (k + rank))) scores

  abbrev pub data_of : ℕ → Row → Option F.Score → Option F.Score → ChunkData
  data_of chunk_id r vector_score keyword_score = record {
    chunk_id = chunk_id;
    document_id = r.document_id;
    chunk_index = r.chunk_index;
    chunk_text = r.chunk_text;
    metadata = r.metadata;
    vector_score = vector_score;
    keyword_score = keyword_score;
  }

  -- if chunk_id not in chunk_data: ...
  abbrev pub add_vector_data :
      ℕ → Row → Option ChunkData → List (ℕ × ChunkData) → List (ℕ × ChunkData)
  add_vector_data chunk_id r none chunks =
      put chunk_id (data_of chunk_id r (some r.score) none) chunks
  add_vector_data chunk_id r (some _) chunks = chunks

  abbrev pub add_keyword_data :
      ℕ → Row → Option ChunkData → List (ℕ × ChunkData) → List (ℕ × ChunkData)
  add_keyword_data chunk_id r none chunks =
      put chunk_id (data_of chunk_id r none (some r.score)) chunks
  add_keyword_data chunk_id r (some c) chunks =
      put chunk_id (record c { keyword_score = some r.score }) chunks

  pub vector_step : ℕ → Option ℕ → Ranked → Tables → Tables
  vector_step k none r t = t
  vector_step k (some chunk_id) r t = record {
    rrf_scores = add_score k chunk_id r.rank t.rrf_scores;
    chunk_data = add_vector_data chunk_id r.row (get chunk_id t.chunk_data) t.chunk_data;
  }

  pub keyword_step : ℕ → Option ℕ → Ranked → Tables → Tables
  keyword_step k none r t = t
  keyword_step k (some chunk_id) r t = record {
    rrf_scores = add_score k chunk_id r.rank t.rrf_scores;
    chunk_data = add_keyword_data chunk_id r.row (get chunk_id t.chunk_data) t.chunk_data;
  }

  -- The two loops.
  pub vector_loop : ℕ → List Ranked → Tables → Tables
  unfolding vector_step
  vector_loop k [] t = t
  vector_loop k (r ∷ rs) t = vector_loop k rs (vector_step k r.row.chunk_id r t)

  pub keyword_loop : ℕ → List Ranked → Tables → Tables
  unfolding keyword_step
  keyword_loop k [] t = t
  keyword_loop k (r ∷ rs) t = keyword_loop k rs (keyword_step k r.row.chunk_id r t)

  -- for chunk_id, rrf_score in rrf_scores.items(): ...; `none` is a KeyError.
  abbrev pub prepend : F.Score → Option ChunkData → Option (List Merged) → Option (List Merged)
  prepend s none rest = none
  prepend s (some c) none = none
  prepend s (some c) (some rest) = some (record { chunk = c; rrf_score = s } ∷ rest)

  abbrev pub combine : List (ℕ × ChunkData) → List (ℕ × F.Score) → Option (List Merged)
  combine chunks [] = some []
  combine chunks ((chunk_id, s) ∷ scores) = prepend s (get chunk_id chunks) (combine chunks scores)

  -- sort(key=rrf_score, reverse=True), which keeps the order of equal scores
  pub place : Merged → List Merged → List Merged
  place m [] = m ∷ []
  place m (n ∷ l) = if F.leb n.rrf_score m.rrf_score then m ∷ n ∷ l else n ∷ place m l

  pub sort_descending : List Merged → List Merged
  unfolding place
  sort_descending [] = []
  sort_descending (m ∷ l) = place m (sort_descending l)

  abbrev pub sorted : Option (List Merged) → Option (List Merged)
  sorted none = none
  sorted (some l) = some (sort_descending l)

  abbrev pub no_tables : Tables
  no_tables = record { rrf_scores = []; chunk_data = [] }

  pub reciprocal_rank_fusion : List Ranked → List Ranked → ℕ → Option (List Merged)
  unfolding vector_loop keyword_loop sort_descending
  reciprocal_rank_fusion vector_results keyword_results k =
      let t = keyword_loop k keyword_results (vector_loop k vector_results no_tables) in
      sorted (combine t.chunk_data t.rrf_scores)

  -- What the two searches find for a query, with a document to filter by and a limit; `none` is an
  -- exception.
  pub record Backends : Type 0 where
    pub search_vectors : Text → Option ℕ → ℕ → F.Score → Option (List Row)
    pub search_words : Text → Option ℕ → ℕ → Option (List Row)

  pub data Found : Type 0 where
    ranked : List Ranked → Found
    merged : List Merged → Found

  abbrev pub as_ranked : Option (List Row) → Option (List Ranked)
  as_ranked none = none
  as_ranked (some rows) = some (ranked_from 1 rows)

  unfoldable pub vector_search : Backends → Text → Option ℕ → ℕ → F.Score → Option (List Ranked)
  vector_search b query document_id limit score_threshold =
      as_ranked (b.search_vectors query document_id limit score_threshold)

  unfoldable pub keyword_search : Backends → Text → Option ℕ → ℕ → Option (List Ranked)
  keyword_search b query document_id limit = as_ranked (b.search_words query document_id limit)

  abbrev pub cut : ℕ → Option (List Ranked) → Option Found
  cut limit none = none
  cut limit (some l) = some (ranked (take limit l))

  abbrev pub cut_merged : ℕ → Option (List Merged) → Option Found
  cut_merged limit none = none
  cut_merged limit (some l) = some (merged (take limit l))

  abbrev pub fuse : ℕ → Option (List Ranked) → Option (List Ranked) → Option Found
  fuse limit none keyword_results = none
  fuse limit (some v) none = none
  fuse limit (some v) (some w) = cut_merged limit (reciprocal_rank_fusion v w 60)

  unfoldable pub hybrid_search : Backends → Text → Option ℕ → ℕ → F.Score → Text → Option Found
  unfolding vector_search keyword_search reciprocal_rank_fusion
  hybrid_search b query document_id limit score_threshold mode =
      if text_eq mode (codes "vector")
      then cut limit (vector_search b query document_id limit score_threshold)
      else (if text_eq mode (codes "keyword")
          then cut limit (keyword_search b query document_id limit)
          else fuse limit (vector_search b query document_id (limit * 4) score_threshold)
              (keyword_search b query document_id (limit * 4)))
