-- ===== src/Llm/Fallback/Tests.antt =====
-- A primary provider that raises, with a fallback that answers.
use urban_octo_tribble.Base.{◌≡◌, ◌↔◌, refl, true, [], ◌∷◌, none, some, codes, text_eq}
use urban_octo_tribble.Base.Exec.{ok, err}
use urban_octo_tribble.Llm.{
  token, LlmProvider, LlmService, from_provider, error_event, generation_failed, create_provider,
  new_service, generate, generate_stream,
}
use urban_octo_tribble.Llm.Fallback.{
  answer_of, answers, first_answer, providers, generate_first, stream_ends_iff,
}

abbrev down : LlmProvider
down = record {
  provider_name = codes "anthropic";
  model_name = codes "claude";
  generate = λ s u t. err (codes "503");
  generate_stream = λ s u t. (token (codes "He") ∷ [], some (codes "503"));
}

abbrev local : LlmProvider
local = record {
  provider_name = codes "ollama";
  model_name = codes "llama3.2";
  generate = λ s u t. ok (codes "Hello", none);
  generate_stream = λ s u t. (token (codes "Hello") ∷ [], none);
}

abbrev service : LlmService
service = record {
  primary_provider = down;
  fallback_enabled = true;
  fallback_provider = some local;
}

new_service_runs :
    new_service (record { anthropic = ok down; ollama = ok local }) (codes "anthropic") true
    ≡ ok service
unfolding new_service create_provider text_eq
new_service_runs = refl

generate_runs :
    generate 70 service (codes "s") (codes "u") none
    ≡ ok (record {
      response = codes "Hello";
      provider = codes "ollama";
      model = codes "llama3.2";
      tokens = none;
    })
unfolding generate
generate_runs = refl

-- The fallback's events are followed by an error.
generate_stream_runs : generate_stream 70 service (codes "s") (codes "u") none ≡ (
  from_provider (token (codes "He")) (codes "anthropic") (codes "claude")
      ∷ from_provider (token (codes "Hello")) (codes "ollama") (codes "llama3.2")
      ∷ error_event (generation_failed (codes "503"))
      ∷ [],
  some (generation_failed (codes "503")),
)
unfolding generate_stream
generate_stream_runs = refl

generate_first_example :
    answer_of (generate 70 service (codes "s") (codes "u") none)
    ≡ first_answer (answers (codes "s") (codes "u") 70) (providers service)
generate_first_example = generate_first 70 service (codes "s") (codes "u") none

stream_ends_iff_example :
    ((generate_stream 70 service (codes "s") (codes "u") none).1 ≡ none)
    ↔ ((down.generate_stream (codes "s") (codes "u") 70).1 ≡ none)
stream_ends_iff_example = stream_ends_iff 70 service (codes "s") (codes "u") none
