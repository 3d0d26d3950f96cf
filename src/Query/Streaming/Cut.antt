-- ===== src/Query/Streaming/Cut.antt =====
-- A stream whose provider fails, with and without a fallback.
use urban_octo_tribble.Base.{
  ℕ, ◌≡◌, refl, sym, ap, ◌∙◌, true, List, [], ◌∷◌, ◌++◌, map, Option, Text, if◌then◌else◌,
}
use mathlib.Core.Path.{subst⁻¹}
use urban_octo_tribble.Base.Exec.{Result, ok, err}
use urban_octo_tribble.Redis.{Redis}
use urban_octo_tribble.Cache.{Json, KeyTools}
use urban_octo_tribble.Database.{Table}
use urban_octo_tribble.Llm.{
  Event, token, usage, error, LlmProvider, LlmError, StreamEvent, named_events, after_primary,
  generate_stream, stream_with,
}
use urban_octo_tribble.Llm.Providers.{EndsByError}
use urban_octo_tribble.Rag.{
  Numbers, RagError, Vector, Answer, RagService, Question, llm_event, RetrievedChunk, citation,
}
use urban_octo_tribble.Rag.Asking.{
  cached_embedding, embedding_or_new, State, ask_stream, stream_retrieved, retrieve_chunks,
  stream_from, track_complexity, skip, system_and_user,
}
use urban_octo_tribble.Query.{QueryRow, same_query, Draws, provider_fault, truthy, chunk_ids}
use urban_octo_tribble.Query.Streaming.{
  S, Sse, citations_sse, token_sse, usage_sse, error_sse, Progress, no_progress, returned, send,
  forward, conclude, event_generator,
}

module _ (N : Numbers) (tools : KeyTools N.Score) (answers : Json (Answer N))
    (vectors : Json (Vector N)) (R : Redis Text Text) (T : Table QueryRow same_query) where
  -- The service with a primary provider and perhaps a fallback.
  abbrev pub with_providers : RagService N → LlmProvider → Option LlmProvider → RagService N
  with_providers service primary other = record service {
    llm_service = record {
      primary_provider = primary;
      fallback_enabled = true;
      fallback_provider = other;
    };
  }

  -- What the loop sends of a provider's events, up to an error.
  abbrev sent_until : LlmProvider → Text → List Event → List (Sse N tools answers vectors R T)
  sent_until provider e [] = error_sse (provider_fault e) ∷ []
  sent_until provider e (token text ∷ events) =
      token_sse text provider.provider_name provider.model_name ∷ sent_until provider e events
  sent_until provider e (usage total ∷ events) = usage_sse total ∷ sent_until provider e events
  sent_until provider e (error e' ∷ events) = error_sse (provider_fault e') ∷ []

  forward-error :
      (provider : LlmProvider) (events : List Event) (e : Text) (rest : List StreamEvent)
      (p : Progress N tools answers vectors R T)
      → forward N tools answers vectors R T p
          (map llm_event (named_events provider (events ++ error e ∷ []) ++ rest))
        ≡ (sent_until provider e events, returned)
  unfolding forward
  forward-error provider [] e rest p = refl
  forward-error provider (token text ∷ events) e rest p =
      ap (send N tools answers vectors R T _) (forward-error provider events e rest _)
  forward-error provider (usage total ∷ events) e rest p =
      ap (send N tools answers vectors R T _) (forward-error provider events e rest _)
  forward-error provider (error e' ∷ events) e rest p = refl

  -- The events and the exception of a service whose primary provider ended by an error.
  abbrev Streamed : Type 0
  Streamed = List StreamEvent × Option LlmError

  forward-ended :
      (provider : LlmProvider) (ask : LlmProvider → List Event × Option Text)
      (r : List Event × Option Text) (other : Option LlmProvider) (h : EndsByError r)
      (p : Progress N tools answers vectors R T)
      → forward N tools answers vectors R T p (map llm_event (stream_with provider ask r other).0)
        ≡ (sent_until provider h.1 h.0, returned)
  forward-ended provider ask r other (events, e, same) p =
      subst⁻¹
        (λ x.
          forward N tools answers vectors R T p (map llm_event (stream_with provider ask x other).0)
          ≡ (sent_until provider e events, returned))
        same (forward-error provider events e (after_primary ask e other).0 p)

  abbrev concluded :
      RagService N
      → Draws
      → ℕ
      → Option ℕ
      → Question N
      → Result RagError (List (RetrievedChunk N))
      → State N tools answers vectors R
      → S N tools answers vectors R T
      → List (Sse N tools answers vectors R T) × S N tools answers vectors R T
  concluded service draws user_id document_id q chunks rag s =
      let stream = stream_retrieved N tools answers vectors R service q chunks rag in
      conclude N tools answers vectors R T draws user_id document_id q.query stream
        (forward N tools answers vectors R T (no_progress N tools answers vectors R T)
          stream.events)
        s

  concluded-ended :
      (service : RagService N) (primary : LlmProvider) (o : Option LlmProvider) (draws : Draws)
      (user_id : ℕ) (document_id : Option ℕ) (q : Question N) (c : RetrievedChunk N)
      (chunks : List (RetrievedChunk N)) (rag : State N tools answers vectors R)
      (s : S N tools answers vectors R T)
      → (h : EndsByError (
          primary.generate_stream service.rag_system_prompt
            (system_and_user N tools answers vectors R q (c ∷ chunks))
            service.temperature))
      → concluded
          (with_providers service primary o)
          draws
          user_id
          document_id
          q
          (ok (c ∷ chunks))
          rag
          s
        ≡ (
          citations_sse (map (citation N) (c ∷ chunks)) ∷ sent_until primary h.1 h.0,
          record s { rag = rag },
        )
  unfolding forward generate_stream
  concluded-ended service primary o draws user_id document_id q c chunks rag s h =
      let citations = map (citation N) (c ∷ chunks) in
      let prompt = system_and_user N tools answers vectors R q (c ∷ chunks) in
      let ask : LlmProvider → List Event × Option Text =
        λ p. p.generate_stream service.rag_system_prompt prompt service.temperature in
      let stream =
        stream_from N tools answers vectors R (with_providers service primary o) q (c ∷ chunks)
          rag in
      let p : Progress N tools answers vectors R T =
        record (no_progress N tools answers vectors R T) {
          chunks_used = truthy (chunk_ids N tools answers vectors R T citations);
        } in
      ap
        (λ x.
          conclude N tools answers vectors R T draws user_id document_id q.query stream
            (send N tools answers vectors R T (citations_sse citations) x) s)
        (forward-ended primary ask (ask primary) o h p)

  -- The error of the primary provider.
  abbrev pub FailsByError : LlmProvider → ℕ → Type 0
  FailsByError primary temperature =
      (system_prompt user_prompt : Text)
      → EndsByError (primary.generate_stream system_prompt user_prompt temperature)

  concluded-eq :
      (service : RagService N) (primary : LlmProvider) (a b : Option LlmProvider) (draws : Draws)
      (user_id : ℕ) (document_id : Option ℕ) (q : Question N)
      (chunks : Result RagError (List (RetrievedChunk N))) (rag : State N tools answers vectors R)
      (s : S N tools answers vectors R T)
      → FailsByError primary service.temperature
      → concluded (with_providers service primary a) draws user_id document_id q chunks rag s
        ≡ concluded (with_providers service primary b) draws user_id document_id q chunks rag s
  unfolding forward generate_stream
  concluded-eq service primary a b draws user_id document_id q (err e) rag s h = refl
  concluded-eq service primary a b draws user_id document_id q (ok []) rag s h = refl
  concluded-eq service primary a b draws user_id document_id q (ok (c ∷ chunks)) rag s h =
      let failure =
        h service.rag_system_prompt (system_and_user N tools answers vectors R q (c ∷ chunks)) in
      concluded-ended service primary a draws user_id document_id q c chunks rag s failure
      ∙ sym (concluded-ended service primary b draws user_id document_id q c chunks rag s failure)

  -- Where the primary provider's stream ends by an error of its API, the stream that a handler sends
  -- and the state that it leaves do not depend on the fallback provider, or on whether there is one:
  -- the handler returns at the error event that the primary provider yields before it raises.
  pub event_generator-eq :
      (service : RagService N) (primary : LlmProvider) (a b : Option LlmProvider) (draws : Draws)
      (user_id : ℕ) (document_id : Option ℕ) (q : Question N) (s : S N tools answers vectors R T)
      → FailsByError primary service.temperature
      → event_generator N tools answers vectors R T
          (with_providers service primary a)
          draws
          user_id
          document_id
          q
          s
        ≡ event_generator N tools answers vectors R T
            (with_providers service primary b)
            draws
            user_id
            document_id
            q
            s
  unfolding event_generator ask_stream retrieve_chunks cached_embedding embedding_or_new
  event_generator-eq service primary a b draws user_id document_id q s h =
      let classified =
        (if service.has_metrics
            then track_complexity N tools answers vectors R service service.classifier q.query
            else skip N tools answers vectors R)
          s.rag in
      let retrieved =
        retrieve_chunks N tools answers vectors R service draws.times.embedded q classified.1 in
      concluded-eq service primary a b draws user_id document_id q retrieved.0 retrieved.1 s h
