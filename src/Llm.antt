-- ===== src/Llm.antt =====
-- The service that asks a language model, with its fallback: `LLMService` of app/services/ai/llm.py.
-- The providers are parameters: what each answers, or yields and raises. An exception is its text.
pub mod Fallback
pub mod Providers
use urban_octo_tribble.Base.{
  ℕ, Bool, true, false, List, [], ◌∷◌, ◌++◌, Option, none, some, Text, codes, text_eq, map,
  if◌then◌else◌,
}
use urban_octo_tribble.Base.Exec.{Result, ok, err}

-- The events that a provider yields.
pub data Event : Type 0 where
  token : Text → Event
  usage : Option ℕ → Event
  error : Text → Event

-- Temperatures, in hundredths.
abbrev pub Temperature : Type 0
Temperature = ℕ

-- A provider of `LLMProvider`; a stream is the events that are yielded,
-- and then the exception, if one ends it.
pub record LlmProvider : Type 0 where
  pub provider_name : Text
  pub model_name : Text
  pub generate : Text → Text → Temperature → Result Text (Text × Option ℕ)
  pub generate_stream : Text → Text → Temperature → List Event × Option Text

-- The errors that the service raises.
pub data LlmError : Type 0 where
  unknown_provider : Text → LlmError
  provider_error : Text → LlmError
  both_failed : Text → Text → LlmError
  generation_failed : Text → LlmError

pub record Generated : Type 0 where
  pub response : Text
  pub provider : Text
  pub model : Text
  pub tokens : Option ℕ

-- A provider's event with its names, or the service's own error event.
pub data StreamEvent : Type 0 where
  from_provider : Event → Text → Text → StreamEvent
  error_event : LlmError → StreamEvent

pub record LlmService : Type 0 where
  pub primary_provider : LlmProvider
  pub fallback_enabled : Bool
  pub fallback_provider : Option LlmProvider

-- The two constructors, which can raise.
pub record Constructors : Type 0 where
  pub anthropic : Result Text LlmProvider
  pub ollama : Result Text LlmProvider

abbrev pub raised : Result Text LlmProvider → Result LlmError LlmProvider
raised (ok p) = ok p
raised (err e) = err (provider_error e)

unfoldable pub create_provider : Constructors → Text → Result LlmError LlmProvider
create_provider make provider_type =
    if text_eq provider_type (codes "anthropic")
    then raised make.anthropic
    else (if text_eq provider_type (codes "ollama")
        then raised make.ollama
        else err (unknown_provider provider_type))

abbrev pub fallback_type : Text → Text
fallback_type primary =
    if text_eq primary (codes "anthropic") then codes "ollama" else codes "anthropic"

-- A fallback that cannot be made turns the fallback off.
abbrev pub with_fallback : LlmProvider → Result LlmError LlmProvider → LlmService
with_fallback p (ok f) = record {
  primary_provider = p;
  fallback_enabled = true;
  fallback_provider = some f;
}
with_fallback p (err e) = record {
  primary_provider = p;
  fallback_enabled = false;
  fallback_provider = none;
}

abbrev pub with_primary :
    Constructors → Text → Bool → Result LlmError LlmProvider → Result LlmError LlmService
with_primary make llm_provider enabled (err e) = err e
with_primary make llm_provider enabled (ok p) =
    if enabled
    then ok (with_fallback p (create_provider make (fallback_type llm_provider)))
    else ok (record { primary_provider = p; fallback_enabled = false; fallback_provider = none })

-- `LLMService.__init__`, by the settings LLM_PROVIDER and LLM_FALLBACK_ENABLED.
unfoldable pub new_service : Constructors → Text → Bool → Result LlmError LlmService
unfolding create_provider
new_service make llm_provider enabled =
    with_primary make llm_provider enabled (create_provider make llm_provider)

abbrev pub temperature_or : Temperature → Option Temperature → Temperature
temperature_or default none = default
temperature_or default (some t) = t

-- `self.fallback_enabled and self.fallback_provider`
abbrev pub fallback : LlmService → Option LlmProvider
fallback s = if s.fallback_enabled then s.fallback_provider else none

abbrev pub generated : LlmProvider → Text × Option ℕ → Generated
generated p (response, tokens) = record {
  response = response;
  provider = p.provider_name;
  model = p.model_name;
  tokens = tokens;
}

abbrev pub from_fallback :
    LlmProvider → Text → Result Text (Text × Option ℕ) → Result LlmError Generated
from_fallback f e (ok answer) = ok (generated f answer)
from_fallback f e (err fallback_error) = err (both_failed e fallback_error)

abbrev pub from_result :
    LlmProvider
    → (LlmProvider → Result Text (Text × Option ℕ))
    → Result Text (Text × Option ℕ)
    → Option LlmProvider
    → Result LlmError Generated
from_result p ask (ok answer) o = ok (generated p answer)
from_result p ask (err e) none = err (generation_failed e)
from_result p ask (err e) (some f) = from_fallback f e (ask f)

abbrev pub from_primary :
    LlmService
    → (LlmProvider → Result Text (Text × Option ℕ))
    → Result Text (Text × Option ℕ)
    → Result LlmError Generated
from_primary s ask r = from_result s.primary_provider ask r (fallback s)

unfoldable pub generate :
    Temperature → LlmService → Text → Text → Option Temperature → Result LlmError Generated
generate default s system_prompt user_prompt temperature =
    let temp = temperature_or default temperature in
    let ask : LlmProvider → Result Text (Text × Option ℕ) =
      λ p. p.generate system_prompt user_prompt temp in
    from_primary s ask (ask s.primary_provider)

abbrev pub named_events : LlmProvider → List Event → List StreamEvent
named_events p events = map (λ e. from_provider e p.provider_name p.model_name) events

abbrev pub failed_with : LlmError → List StreamEvent × Option LlmError
failed_with e = (error_event e ∷ [], some e)

-- The fallback's stream, and what comes after it: if it does not raise, the code goes on to the
-- error of a service without a fallback.
abbrev pub stream_fallback :
    LlmProvider → Text → List Event × Option Text → List StreamEvent × Option LlmError
stream_fallback f e (events, none) =
    let (rest, raises) = failed_with (generation_failed e) in
    (named_events f events ++ rest, raises)
stream_fallback f e (events, some fallback_error) =
    let (rest, raises) = failed_with (both_failed e fallback_error) in
    (named_events f events ++ rest, raises)

abbrev pub after_primary :
    (LlmProvider → List Event × Option Text)
    → Text
    → Option LlmProvider
    → List StreamEvent × Option LlmError
after_primary ask e none = failed_with (generation_failed e)
after_primary ask e (some f) = stream_fallback f e (ask f)

abbrev pub stream_with :
    LlmProvider
    → (LlmProvider → List Event × Option Text)
    → List Event × Option Text
    → Option LlmProvider
    → List StreamEvent × Option LlmError
stream_with p ask (events, none) o = (named_events p events, none)
stream_with p ask (events, some e) o =
    let (rest, raises) = after_primary ask e o in (named_events p events ++ rest, raises)

abbrev pub stream_from :
    LlmService
    → (LlmProvider → List Event × Option Text)
    → List Event × Option Text
    → List StreamEvent × Option LlmError
stream_from s ask r = stream_with s.primary_provider ask r (fallback s)

unfoldable pub generate_stream :
    Temperature → LlmService → Text → Text → Option Temperature → List StreamEvent × Option LlmError
generate_stream default s system_prompt user_prompt temperature =
    let temp = temperature_or default temperature in
    let ask : LlmProvider → List Event × Option Text =
      λ p. p.generate_stream system_prompt user_prompt temp in
    stream_from s ask (ask s.primary_provider)
