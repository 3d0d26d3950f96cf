-- ===== src/HybridSearch/Samples.antt =====
-- Natural numbers for scores.
use urban_octo_tribble.Base.{ℕ, ◌+◌, ◌/◌, leb, arith}
use urban_octo_tribble.HybridSearch.{Scores}

abbrev pub score_numbers : Scores
score_numbers = record {
  Score = ℕ;
  zero_score = 0;
  add = λ a b. a + b;
  inverse = λ n. 100000 / n;
  leb = leb;
  leb_total = λ a b h. ground arith;
  leb_trans = λ a b c h h'. ground arith;
}
