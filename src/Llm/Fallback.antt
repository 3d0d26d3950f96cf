-- ===== src/Llm/Fallback.antt =====
-- Which provider answers, and how a stream ends.
mod Tests
use urban_octo_tribble.Base.{
  ℕ, ◌≡◌, ◌↔◌, refl, sym, ap, ◌∙◌, Bool, true, false, List, [], ◌∷◌, ◌++◌, Option, none, some, Text,
  codes, map, if◌then◌else◌,
}
use urban_octo_tribble.Base.Exec.{Result, ok, err}
use urban_octo_tribble.Llm.{
  Temperature, LlmProvider, LlmError, Generated, StreamEvent, LlmService, temperature_or, fallback,
  generated, from_fallback, from_result, from_primary, generate, after_primary, stream_fallback,
  stream_with, stream_from, generate_stream, Event,
}

abbrev pub answer_of : {A : Type 0} → Result LlmError A → Option A
answer_of (ok a) = some a
answer_of (err e) = none

-- The providers in the order in which they are asked.
abbrev pub or_nobody : Option LlmProvider → List LlmProvider
or_nobody none = []
or_nobody (some f) = f ∷ []

abbrev pub providers : LlmService → List LlmProvider
providers s = s.primary_provider ∷ or_nobody (fallback s)

-- The answer of the first of some providers that does not raise.
abbrev pub or_else : {A : Type 0} → Option A → Option A → Option A
or_else none o = o
or_else (some a) o = some a

abbrev pub first_answer : (LlmProvider → Option Generated) → List LlmProvider → Option Generated
first_answer ask [] = none
first_answer ask (p ∷ ps) = or_else (ask p) (first_answer ask ps)

abbrev pub answered : LlmProvider → Result Text (Text × Option ℕ) → Option Generated
answered p (ok a) = some (generated p a)
answered p (err e) = none

abbrev pub answers : Text → Text → Temperature → LlmProvider → Option Generated
answers system_prompt user_prompt temp p = answered p (p.generate system_prompt user_prompt temp)

first_of :
    (s : LlmService) (ask : LlmProvider → Result Text (Text × Option ℕ))
    → answer_of (from_primary s ask (ask s.primary_provider))
      ≡ first_answer (λ p. answered p (ask p)) (providers s)
first_of s ask = by_primary (ask s.primary_provider) (fallback s)
  where
    by_fallback :
        (f : LlmProvider) (e : Text) (r : Result Text (Text × Option ℕ))
        → answer_of (from_fallback f e r) ≡ or_else (answered f r) none
    by_fallback f e (ok a) = refl
    by_fallback f e (err d) = refl

    by_primary :
        (r : Result Text (Text × Option ℕ)) (o : Option LlmProvider)
        → answer_of (from_result s.primary_provider ask r o)
          ≡ or_else
              (answered s.primary_provider r)
              (first_answer (λ p. answered p (ask p)) (or_nobody o))
    by_primary (ok a) o = refl
    by_primary (err e) none = refl
    by_primary (err e) (some f) = by_fallback f e (ask f)

ends_iff :
    (s : LlmService) (ask : LlmProvider → List Event × Option Text)
    → ((stream_from s ask (ask s.primary_provider)).1 ≡ none) ↔ ((ask s.primary_provider).1 ≡ none)
ends_iff s ask = by_stream (ask s.primary_provider) (fallback s)
  where
    raises : (e : Text) (o : Option LlmProvider) → (after_primary ask e o).1 ≡ none → ⊥
    raises e none h = cc
    raises e (some f) h = by_answer (ask f) h
      where
        by_answer : (r : List Event × Option Text) → (stream_fallback f e r).1 ≡ none → ⊥
        by_answer (events, none) h = cc
        by_answer (events, some d) h = cc

    by_stream :
        (r : List Event × Option Text) (o : Option LlmProvider)
        → ((stream_with s.primary_provider ask r o).1 ≡ none) ↔ (r.1 ≡ none)
    by_stream (events, none) o = (λ h. refl, λ h. refl)
    by_stream (events, some e) o = (λ h. absurd (raises e o h), λ h. cc)

-- The answer is that of the first provider, the fallback after the primary, that does not raise,
-- under that provider's names; there is none exactly if all of them raise.
pub generate_first :
    (default : Temperature) (s : LlmService) (system_prompt user_prompt : Text)
    (temperature : Option Temperature)
    → answer_of (generate default s system_prompt user_prompt temperature)
      ≡ first_answer
          (answers system_prompt user_prompt (temperature_or default temperature))
          (providers s)
unfolding generate
generate_first default s system_prompt user_prompt temperature =
    first_of s (λ p. p.generate system_prompt user_prompt (temperature_or default temperature))

-- A stream ends without an exception exactly if the primary's does: once the primary raises, the
-- service raises too, even where the fallback has answered in full.
pub stream_ends_iff :
    (default : Temperature) (s : LlmService) (system_prompt user_prompt : Text)
    (temperature : Option Temperature)
    → ((generate_stream default s system_prompt user_prompt temperature).1 ≡ none) ↔ (
        (s.primary_provider.generate_stream system_prompt user_prompt
          (temperature_or default temperature)).1
        ≡ none)
unfolding generate_stream
stream_ends_iff default s system_prompt user_prompt temperature =
    ends_iff s
      (λ p. p.generate_stream system_prompt user_prompt (temperature_or default temperature))
