-- ===== src/HybridSearch/Fusion/Formula/Tests.antt =====
-- A fusion on concrete results, with natural numbers for scores.
use urban_octo_tribble.Base.{ℕ, ◌≡◌, List, [], ◌∷◌, ◌++◌, Option, none, some, codes}
use urban_octo_tribble.HybridSearch.Samples.{score_numbers}
use urban_octo_tribble.HybridSearch.{Row, Ranked, Merged, reciprocal_rank_fusion, ranked_from}
use urban_octo_tribble.HybridSearch.Fusion.Formula.{IsFusion, reciprocal_rank_fusion-IsFusion}

abbrev row : Option ℕ → ℕ → Row score_numbers
row id score = record {
  chunk_id = id;
  document_id = 7;
  chunk_index = 0;
  chunk_text = codes "text";
  score = score;
  metadata = [];
}

abbrev vector_rows : List (Ranked score_numbers)
vector_rows = ranked_from score_numbers 1 (row (some 4) 90 ∷ row none 80 ∷ row (some 5) 70 ∷ [])

abbrev keyword_rows : List (Ranked score_numbers)
keyword_rows = ranked_from score_numbers 1 (row (some 5) 3 ∷ row (some 6) 2 ∷ [])

reciprocal_rank_fusion-IsFusion_example :
    (result : List (Merged score_numbers)) × (reciprocal_rank_fusion score_numbers vector_rows
        keyword_rows 60
      ≡ some result)
    × IsFusion score_numbers 60 (vector_rows ++ keyword_rows) result
reciprocal_rank_fusion-IsFusion_example =
    reciprocal_rank_fusion-IsFusion score_numbers vector_rows keyword_rows 60
