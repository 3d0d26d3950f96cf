-- ===== src/Classifier/Routing.antt =====
-- Which queries are simple, and which model and cache they get.
mod Tests
use urban_octo_tribble.Base.{
  ℕ, ◌≤◌, ◌<◌, ◌≡◌, ◌↔◌, refl, sym, ap, ◌∙◌, Bool, true, false, ◌⊎◌, inl, inr, Bool-cases, List, [],
  ◌∷◌, Text, codes, text_eq, ltb, if◌then◌else◌, arith,
}
use urban_octo_tribble.Base.Int.{ℤ, pos, negsuc, ◌+ℤ◌, ◌-ℤ◌, leb_ℤ}
use urban_octo_tribble.Classifier.{
  QueryComplexity, simple, moderate, complex, TextTools, contains, any_of, count_of,
  simple_indicators, complex_indicators, simple_patterns, complex_patterns, length_score, when,
  complexity_score, complexity_of, classify, get_recommended_model, should_use_cache,
}

module _ (tools : TextTools) where
  by_tests :
      (p i : Bool)
      → complexity_of tools (
          negsuc 1
          +ℤ when p (negsuc 1)
          +ℤ when false (pos 2)
          +ℤ when i (negsuc 0)
          +ℤ pos 0
          +ℤ when false (pos 1)
          +ℤ when false (pos 1))
        ≡ simple
  unfolding ◌+ℤ◌
  by_tests true true = refl
  by_tests true false = refl
  by_tests false true = refl
  by_tests false false = refl

  classify_simple :
      (query : Text)
      → tools.word_count (tools.normalize query) < 10
      → any_of (λ p. tools.search p (tools.normalize query)) complex_patterns ≡ false
      → count_of (λ i. contains i (tools.normalize query)) complex_indicators ≡ 0
      → tools.count_question_marks (tools.normalize query) ≤ 1
      → tools.count_conjunctions (tools.normalize query) ≤ 2
      → classify tools query ≡ simple
  unfolding classify complexity_score
  classify_simple query short pattern indicators marks conjunctions =
      let few : ltb (tools.word_count (tools.normalize query)) 10 ≡ true = ground arith in
      let one : ltb 1 (tools.count_question_marks (tools.normalize query)) ≡ false = ground arith in
      let two : ltb 2 (tools.count_conjunctions (tools.normalize query)) ≡ false = ground arith in
      rw (few, pattern, indicators, one, two)
        (by_tests (any_of (λ p. tools.search p (tools.normalize query)) simple_patterns)
          (any_of (λ i. contains i (tools.normalize query)) simple_indicators))

  -- A query of fewer than ten words is simple, is given the small model of Anthropic where that
  -- is the provider, and is cached, if nothing in it points to a complex one: no complex
  -- pattern or indicator, at most one question mark, at most two conjunctions.
  pub classify_short :
      (query : Text)
      → tools.word_count (tools.normalize query) < 10
      → any_of (λ p. tools.search p (tools.normalize query)) complex_patterns ≡ false
      → count_of (λ i. contains i (tools.normalize query)) complex_indicators ≡ 0
      → tools.count_question_marks (tools.normalize query) ≤ 1
      → tools.count_conjunctions (tools.normalize query) ≤ 2
      → (classify tools query ≡ simple)
        × (get_recommended_model tools query (codes "anthropic")
            ≡ (codes "anthropic", codes "claude-haiku-3-5-20241022"))
        × (should_use_cache tools query ≡ true)
  unfolding get_recommended_model should_use_cache text_eq
  classify_short query short pattern indicators marks conjunctions =
      let e = classify_simple query short pattern indicators marks conjunctions in
      rw e (refl, refl, refl)
