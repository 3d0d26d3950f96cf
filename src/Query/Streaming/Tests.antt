-- ===== src/Query/Streaming/Tests.antt =====
-- Streams of a provider that answers, and of one that fails.
use urban_octo_tribble.Base.{◌≡◌, true, [], ◌∷◌, none, some, codes}
use urban_octo_tribble.Base.Exec.{ok, err}
use urban_octo_tribble.Database.{Table, list_table}
use urban_octo_tribble.Llm.{token, usage, LlmProvider}
use urban_octo_tribble.Llm.Providers.{api_error, anthropic_stream, anthropic_stream-EndsByError}
use urban_octo_tribble.Rag.Samples.{
  scores, server, answers, vectors, tools, service, times, question, start,
}
use urban_octo_tribble.Query.{QueryRow, same_query, Draws, State}
use urban_octo_tribble.Query.Streaming.{event_generator}
use urban_octo_tribble.Query.Streaming.Ends.{EndsWell, event_generator-EndsWell}
use urban_octo_tribble.Query.Streaming.Cut.{with_providers, event_generator-eq}

abbrev queries : Table QueryRow same_query
queries = list_table same_query

abbrev state : State scores tools answers vectors server queries
state = record { rag = start; store = []; events = [] }

abbrev draws : Draws
draws = record {
  times = times;
  new_id = some 9;
  refreshes = true;
  now = 20;
  event_id = some 10;
  response_time_ms = 3;
  has_events = true;
}

abbrev up : LlmProvider
up = record {
  provider_name = codes "ollama";
  model_name = codes "llama3.2";
  generate = λ s u t. ok (codes "A fee.", none);
  generate_stream = λ s u t. (token (codes "A ") ∷ token (codes "fee.") ∷ usage none ∷ [], none);
}

abbrev down : LlmProvider
down = record {
  provider_name = codes "anthropic";
  model_name = codes "claude";
  generate = λ s u t. err (codes "503");
  generate_stream = λ s u t. anthropic_stream (codes "A " ∷ []) (api_error (codes "503"));
}

event_generator-EndsWell_example :
    EndsWell scores tools answers vectors server queries 2 (some 7) (codes "fee?") [] (
      event_generator scores tools answers vectors server queries
        (with_providers scores tools answers vectors server queries service up none)
        draws
        2
        (some 7)
        question
        state)
event_generator-EndsWell_example =
    event_generator-EndsWell scores tools answers vectors server queries
      (with_providers scores tools answers vectors server queries service up none) draws 2 (some 7)
      question state

event_generator-eq_example :
    event_generator scores tools answers vectors server queries
      (with_providers scores tools answers vectors server queries service down (some up))
      draws
      2
      none
      question
      state
    ≡ event_generator scores tools answers vectors server queries
        (with_providers scores tools answers vectors server queries service down none)
        draws
        2
        none
        question
        state
event_generator-eq_example =
    event_generator-eq scores tools answers vectors server queries service down (some up) none draws
      2 none question state
      (λ system_prompt user_prompt. anthropic_stream-EndsByError (codes "A " ∷ []) (codes "503"))
