-- ===== src/Classifier/Routing/Tests.antt =====
-- A short question, with words counted by their spaces and no pattern that matches.
use urban_octo_tribble.Base.{
  ℕ, suc, ◌+◌, ◌≡◌, refl, false, [], ◌∷◌, Text, codes, ◌==◌, if◌then◌else◌,
}
use urban_octo_tribble.Base.Int.{◌+ℤ◌}
use urban_octo_tribble.Classifier.{simple, TextTools, classify, complexity_score}

abbrev count_char : ℕ → Text → ℕ
count_char c [] = 0
count_char c (d ∷ t) = let rest = count_char c t in if c == d then suc rest else rest

abbrev tools : TextTools
tools = record {
  normalize = λ t. t;
  word_count = λ t. count_char 32 t + 1;
  search = λ p t. false;
  count_question_marks = count_char 63;
  count_conjunctions = λ t. 0;
}

abbrev question : Text
question = codes "what is the fee?"

classify_runs : classify tools question ≡ simple
unfolding classify complexity_score ◌+ℤ◌
classify_runs = refl
