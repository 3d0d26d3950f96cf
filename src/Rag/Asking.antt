-- ===== src/Rag/Asking.antt =====
-- `_retrieve_chunks`, `ask` and `ask_stream` of app/services/ai/rag.py. They read the clock of the
-- cache three times: for the answer, for the embedding, and when the answer is kept.
pub mod Connected
pub mod Cached
use urban_octo_tribble.Base.{
  ℕ, zero, suc, ◌+◌, ◌≡◌, Bool, true, false, List, [], ◌∷◌, ◌++◌, map, Option, none, some, Text,
  codes, length, take, ltb, if◌then◌else◌,
}
use urban_octo_tribble.Base.Exec.{
  Result, ok, err, Exec, raise, lift, gets, ◌>>=◌, ◌>>◌, continue, modify, raise_if, pure,
}
use urban_octo_tribble.Redis.{Redis}
use urban_octo_tribble.Cache.{
  Json, KeyTools, RedisService, get_rag_response, set_rag_response, get_query_embedding,
  set_query_embedding,
}
use urban_octo_tribble.Classifier.{TextTools, QueryComplexity, classify}
use urban_octo_tribble.Llm.{
  LlmService, LlmError, Generated, StreamEvent, from_provider, error_event, token, usage, error,
  generate, generate_stream,
}
use urban_octo_tribble.Rag.{
  Numbers, CacheType, rag_response, embedding, Metric, cache_hit, cache_miss, search_latency,
  llm_latency, query_complexity, tokens_used, RagError, session_not_set, model_error,
  embedding_error, search_error, llm_error, Vector, Hit, RetrievedChunk, Citation, Answer,
  RagService, Question, RagEvent, citations_event, no_context_token, llm_event, retrieved, filtered,
  build_context, build_prompt, citation, no_answer, with_generated, without_context,
}

pub record Times : Type 0 where
  pub asked : ℕ
  pub embedded : ℕ
  pub answered : ℕ

module _ (N : Numbers) (tools : KeyTools N.Score) (answers : Json (Answer N))
    (vectors : Json (Vector N)) (R : Redis Text Text) where
  pub record State : Type 0 where
    pub redis : RedisService R
    pub metrics : List Metric

  abbrev pub Action : Type 0 → Type 0
  Action A = Exec RagError State A

  -- if self.metrics_service: await self.metrics_service.track_...
  abbrev pub track : RagService N → Metric → Action (Unit {0})
  track service m =
      modify (λ s. if service.has_metrics then record s { metrics = s.metrics ++ m ∷ [] } else s)

  abbrev pub skip : Action (Unit {0})
  skip = pure tt

  abbrev pub track_complexity : RagService N → Option TextTools → Text → Action (Unit {0})
  track_complexity service none query = skip
  track_complexity service (some c) query = track service (query_complexity (classify c query))

  -- if tokens: ...
  abbrev pub track_tokens : RagService N → Option ℕ → Text → Action (Unit {0})
  track_tokens service none provider = skip
  track_tokens service (some zero) provider = skip
  track_tokens service (some (suc n)) provider = track service (tokens_used (suc n) provider)

  abbrev pub lift_error : {A : Type 0} → (Text → RagError) → Result Text A → Action A
  lift_error f (ok a) = pure a
  lift_error f (err e) = raise (f e)

  -- An empty vector is false, but it is not `None`.
  abbrev pub track_embedding : RagService N → Option (Vector N) → Action (Unit {0})
  track_embedding service none = track service (cache_miss embedding)
  track_embedding service (some []) = track service (cache_miss embedding)
  track_embedding service (some (c ∷ v)) = track service (cache_hit embedding)

  unfoldable pub cached_embedding : RagService N → Text → ℕ → Action (Option (Vector N))
  cached_embedding service query now s =
      if s.redis.is_available
      then (let found = get_query_embedding tools answers vectors R query now s.redis in
          (track_embedding service found >> pure found) s)
      else (ok none, s)

  unfoldable pub keep_embedding : Text → Vector N → ℕ → Action (Unit {0})
  keep_embedding query v now = modify (λ s.
      if s.redis.is_available
      then record s {
        redis = (set_query_embedding tools answers vectors R query v 86400 now s.redis).1;
      }
      else s)

  unfoldable pub embedding_or_new : RagService N → Text → ℕ → Option (Vector N) → Action (Vector N)
  unfolding keep_embedding
  embedding_or_new service query now (some v) = pure v
  embedding_or_new service query now none = do
    v ← lift_error embedding_error (service.embed_text query)
    keep_embedding query v now
    pure v

  unfoldable pub retrieve_chunks : RagService N → ℕ → Question N → Action (List (RetrievedChunk N))
  unfolding cached_embedding embedding_or_new
  retrieve_chunks service now q = do
    raise_if (if service.session_set then false else true) session_not_set
    lift_error model_error service.ensure_model_loaded
    cached ← cached_embedding service q.query now
    query_embedding ← embedding_or_new service q.query now cached
    search_results ←
        lift_error search_error
          (service.search query_embedding q.document_id q.max_chunks q.min_score)
    track service search_latency
    pure (map (retrieved N) (filtered N q.min_score search_results))

  abbrev pub lift_llm : Result LlmError Generated → Action Generated
  lift_llm (ok g) = pure g
  lift_llm (err e) = raise (llm_error e)

  abbrev pub system_and_user : Question N → List (RetrievedChunk N) → Text
  system_and_user q chunks = build_prompt N q.query (build_context N chunks)

  pub keep_answer : Question N → ℕ → Answer N → Action (Unit {0})
  keep_answer q now a = modify (λ s.
      if s.redis.is_available
      then record s {
        redis =
            (set_rag_response tools answers vectors R q.query q.document_id q.max_chunks q.min_score
              a 3600 now s.redis).1;
      }
      else s)

  pub answer_from :
      RagService N → ℕ → Question N → List (RetrievedChunk N) → Action (Answer N × Bool)
  unfolding keep_answer
  answer_from service now q [] = pure (without_context N, false)
  answer_from service now q (c ∷ chunks) = do
    g ← lift_llm (
        generate service.temperature service.llm_service service.rag_system_prompt
          (system_and_user q (c ∷ chunks)) none)
    track service (llm_latency g.provider)
    track_tokens service g.tokens g.provider
    keep_answer q now (with_generated N g (c ∷ chunks))
    pure (with_generated N g (c ∷ chunks), false)

  pub ask_anew : RagService N → Times → Question N → Action (Answer N × Bool)
  unfolding retrieve_chunks answer_from
  ask_anew service times q = do
    (if service.has_metrics then track_complexity service service.classifier q.query else skip)
    chunks ← retrieve_chunks service times.embedded q
    answer_from service times.answered q chunks

  pub answer_cached :
      RagService N → Times → Question N → Option (Answer N) → Action (Answer N × Bool)
  unfolding ask_anew
  answer_cached service times q (some a) = do track service (cache_hit rag_response); pure (a, true)
  answer_cached service times q none = do
    track service (cache_miss rag_response)
    ask_anew service times q

  unfoldable pub ask : RagService N → Times → Question N → Action (Answer N × Bool)
  unfolding answer_cached ask_anew
  ask service times q s =
      if s.redis.is_available
      then answer_cached service times q
          (get_rag_response tools answers vectors R q.query q.document_id q.max_chunks q.min_score
            times.asked s.redis)
          s
      else ask_anew service times q s

  -- `ask_stream`: the events that are yielded, and then the exception, if one ends it.
  abbrev pub total_tokens : Option ℕ → List StreamEvent → Option ℕ
  total_tokens n [] = n
  total_tokens n (from_provider (usage t) provider model ∷ events) = total_tokens t events
  total_tokens n (from_provider (token _) provider model ∷ events) = total_tokens n events
  total_tokens n (from_provider (error _) provider model ∷ events) = total_tokens n events
  total_tokens n (error_event _ ∷ events) = total_tokens n events

  abbrev pub last_provider : Text → List StreamEvent → Text
  last_provider p [] = p
  last_provider p (from_provider e provider model ∷ events) = last_provider provider events
  last_provider p (error_event _ ∷ events) = last_provider (codes "none") events

  abbrev pub track_stream : RagService N → List StreamEvent → Option LlmError → Action (Unit {0})
  track_stream service events (some e) = skip
  track_stream service events none = do
    track service (llm_latency (last_provider (codes "none") events))
    track_tokens service (total_tokens none events) (last_provider (codes "none") events)

  abbrev pub raised : Option LlmError → Option RagError
  raised none = none
  raised (some e) = some (llm_error e)

  -- The events that are yielded, the exception that ends them, and the state: where the consumer
  -- leaves at an event, and where it takes them all.
  pub record RagStream : Type 0 where
    pub events : List (RagEvent N)
    pub raises : Option RagError
    pub left : State
    pub exhausted : State

  abbrev pub stream_from : RagService N → Question N → List (RetrievedChunk N) → State → RagStream
  stream_from service q [] s = record {
    events = no_context_token (no_answer N) ∷ citations_event [] ∷ [];
    raises = none;
    left = s;
    exhausted = s;
  }
  stream_from service q (c ∷ chunks) s =
      let (events, raises) =
        generate_stream service.temperature service.llm_service service.rag_system_prompt
          (system_and_user q (c ∷ chunks)) none in
      record {
        events = citations_event (map (citation N) (c ∷ chunks)) ∷ map llm_event events;
        raises = raised raises;
        left = s;
        exhausted = (track_stream service events raises s).1;
      }

  abbrev pub stream_retrieved :
      RagService N → Question N → Result RagError (List (RetrievedChunk N)) → State → RagStream
  stream_retrieved service q (err e) s = record {
    events = [];
    raises = some e;
    left = s;
    exhausted = s;
  }
  stream_retrieved service q (ok chunks) s = stream_from service q chunks s

  unfoldable pub ask_stream : RagService N → ℕ → Question N → State → RagStream
  unfolding retrieve_chunks
  ask_stream service now q s =
      let (_, s') =
        (if service.has_metrics then track_complexity service service.classifier q.query else skip)
          s in
      let (chunks, s'') = retrieve_chunks service now q s' in stream_retrieved service q chunks s''
