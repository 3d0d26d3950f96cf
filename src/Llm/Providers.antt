-- ===== src/Llm/Providers.antt =====
-- The streams of the two providers, app/services/ai/llm.py, by what their HTTP clients give.
use urban_octo_tribble.Base.{
  ℕ, ◌+◌, ◌≡◌, refl, Bool, true, false, List, [], ◌∷◌, ◌++◌, map, Option, none, some, Text,
}
use urban_octo_tribble.Llm.{Event, token, usage, error}

-- How a stream of a client ends: with the token counts of input and output, if there are any, with
-- an error of the API, or with another exception.
pub data ClientEnd : Type 0 where
  finished : Option (ℕ × ℕ) → ClientEnd
  api_error : Text → ClientEnd
  other_error : Text → ClientEnd

abbrev pub usage_events : Option (ℕ × ℕ) → List Event
usage_events none = []
usage_events (some (input_tokens, output_tokens)) = usage (some (input_tokens + output_tokens)) ∷ []

-- `AnthropicProvider.generate_stream`
unfoldable pub anthropic_stream : List Text → ClientEnd → List Event × Option Text
anthropic_stream texts (finished counts) = (map token texts ++ usage_events counts, none)
anthropic_stream texts (api_error e) = (map token texts ++ error e ∷ [], some e)
anthropic_stream texts (other_error e) = (map token texts, some e)

-- A line of Ollama: its field "response", if there is one, and its field "done".
pub record OllamaLine : Type 0 where
  pub response : Option Text
  pub is_done : Bool

abbrev pub response_events : Option Text → List Event
response_events none = []
response_events (some text) = token text ∷ []

abbrev pub done_events : Bool → List Event
done_events true = usage none ∷ []
done_events false = []

abbrev pub line_events : List OllamaLine → List Event
line_events [] = []
line_events (l ∷ lines) = response_events l.response ++ done_events l.is_done ++ line_events lines

-- `OllamaProvider.generate_stream`
unfoldable pub ollama_stream : List OllamaLine → ClientEnd → List Event × Option Text
ollama_stream lines (finished counts) = (line_events lines, none)
ollama_stream lines (api_error e) = (line_events lines ++ error e ∷ [], some e)
ollama_stream lines (other_error e) = (line_events lines, some e)

-- A stream that an error of the API ends.
abbrev pub EndsByError : List Event × Option Text → Type 0
EndsByError r = (events : List Event) × (e : Text) × (r ≡ (events ++ error e ∷ [], some e))

pub anthropic_stream-EndsByError :
    (texts : List Text) (e : Text) → EndsByError (anthropic_stream texts (api_error e))
unfolding anthropic_stream
anthropic_stream-EndsByError texts e = (map token texts, e, refl)

pub ollama_stream-EndsByError :
    (lines : List OllamaLine) (e : Text) → EndsByError (ollama_stream lines (api_error e))
unfolding ollama_stream
ollama_stream-EndsByError lines e = (line_events lines, e, refl)
