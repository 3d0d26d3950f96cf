-- ===== src/Classifier.antt =====
-- The classifier of queries, app/services/ai/query_classifier.py. What Python's text methods and
-- regular expressions make of a query is a parameter; substrings are looked for here.
pub mod Routing
use urban_octo_tribble.Base.{
  ℕ, suc, Bool, true, false, ◌||◌, List, [], ◌∷◌, Text, codes, text_eq, length, ltb, ◌==◌,
  if◌then◌else◌,
}
use urban_octo_tribble.Base.Int.{ℤ, pos, negsuc, ◌+ℤ◌, ◌-ℤ◌, leb_ℤ}

pub data QueryComplexity : Type 0 where
  simple moderate complex : QueryComplexity

-- `lower().strip()`, `split()` counted, `re.search`, and the two counts of matches.
pub record TextTools : Type 0 where
  pub normalize : Text → Text
  pub word_count : Text → ℕ
  pub search : Text → Text → Bool
  pub count_question_marks : Text → ℕ
  pub count_conjunctions : Text → ℕ

abbrev pub starts_with : Text → Text → Bool
starts_with [] t = true
starts_with (c ∷ p) [] = false
starts_with (c ∷ p) (d ∷ t) = if c == d then starts_with p t else false

-- `indicator in normalized`
abbrev pub contains : Text → Text → Bool
contains p [] = starts_with p []
contains p (c ∷ t) = starts_with p (c ∷ t) || contains p t

abbrev pub any_of : (Text → Bool) → List Text → Bool
any_of test [] = false
any_of test (t ∷ ts) = if test t then true else any_of test ts

abbrev pub count_of : (Text → Bool) → List Text → ℕ
count_of test [] = 0
count_of test (t ∷ ts) = let rest = count_of test ts in if test t then suc rest else rest

abbrev pub simple_indicators : List Text
simple_indicators =
    codes "what is"
    ∷ codes "who is"
    ∷ codes "when was"
    ∷ codes "where is"
    ∷ codes "define"
    ∷ codes "definition"
    ∷ codes "meaning of"
    ∷ codes "list"
    ∷ codes "name"
    ∷ codes "identify"
    ∷ []

abbrev pub complex_indicators : List Text
complex_indicators =
    codes "analyze"
    ∷ codes "compare"
    ∷ codes "contrast"
    ∷ codes "evaluate"
    ∷ codes "explain why"
    ∷ codes "how does"
    ∷ codes "what are the implications"
    ∷ codes "synthesize"
    ∷ codes "critique"
    ∷ codes "assess"
    ∷ codes "reasoning"
    ∷ codes "argument"
    ∷ codes "perspective"
    ∷ []

abbrev pub simple_patterns : List Text
simple_patterns =
    codes "^what is "
    ∷ codes "^who is "
    ∷ codes "^when "
    ∷ codes "^where "
    ∷ codes "^how many "
    ∷ codes "^list "
    ∷ []

abbrev pub complex_patterns : List Text
complex_patterns =
    codes "compare .+ and "
    ∷ codes "analyze .+ in terms of"
    ∷ codes "what are the implications"
    ∷ codes "explain the relationship between"
    ∷ codes "why does .+ affect "
    ∷ []

abbrev pub length_score : ℕ → ℤ
length_score n =
    if ltb n 10
    then negsuc 1
    else (if ltb n 20
        then negsuc 0
        else (if ltb 50 n then pos 2 else (if ltb 30 n then pos 1 else pos 0)))

abbrev pub when : Bool → ℤ → ℤ
when b n = if b then n else pos 0

module _ (tools : TextTools) where
  unfoldable pub complexity_score : Text → ℤ
  complexity_score normalized =
      length_score (tools.word_count normalized)
      +ℤ when (any_of (λ p. tools.search p normalized) simple_patterns) (negsuc 1)
      +ℤ when (any_of (λ p. tools.search p normalized) complex_patterns) (pos 2)
      +ℤ when (any_of (λ i. contains i normalized) simple_indicators) (negsuc 0)
      +ℤ pos (count_of (λ i. contains i normalized) complex_indicators)
      +ℤ when (ltb 1 (tools.count_question_marks normalized)) (pos 1)
      +ℤ when (ltb 2 (tools.count_conjunctions normalized)) (pos 1)

  abbrev pub complexity_of : ℤ → QueryComplexity
  complexity_of score =
      if leb_ℤ score (negsuc 1) then simple else (if leb_ℤ (pos 2) score then complex else moderate)

  unfoldable pub classify : Text → QueryComplexity
  unfolding complexity_score
  classify query = complexity_of (complexity_score (tools.normalize query))

  abbrev pub anthropic_model : QueryComplexity → Text
  anthropic_model simple = codes "claude-haiku-3-5-20241022"
  anthropic_model moderate = codes "claude-sonnet-4-20250514"
  anthropic_model complex = codes "claude-sonnet-4-20250514"

  abbrev pub ollama_model : QueryComplexity → Text
  ollama_model simple = codes "llama3.2:1b"
  ollama_model moderate = codes "llama3.2"
  ollama_model complex = codes "llama3.2:70b"

  unfoldable pub get_recommended_model : Text → Text → Text × Text
  unfolding classify
  get_recommended_model query primary_provider =
      let complexity = classify query in
      if text_eq primary_provider (codes "anthropic")
      then (codes "anthropic", anthropic_model complexity)
      else (codes "ollama", ollama_model complexity)

  abbrev pub is_cached : QueryComplexity → Bool
  is_cached simple = true
  is_cached moderate = true
  is_cached complex = false

  unfoldable pub should_use_cache : Text → Bool
  unfolding classify
  should_use_cache query = is_cached (classify query)
