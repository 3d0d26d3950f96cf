-- ===== src/Query/Streaming.antt =====
-- The handlers of app/routes/query.py that stream an answer by Server-Sent Events. What a handler
-- sends is the list of its events.
pub mod Ends
pub mod Cut
mod Tests
use urban_octo_tribble.Base.{
  ℕ, zero, suc, ◌+◌, ◌≡◌, Bool, true, false, ◌&&◌, List, [], ◌∷◌, ◌++◌, map, Option, none, some,
  Text, codes, ◌==◌, if◌then◌else◌,
}
use urban_octo_tribble.Base.Exec.{Result, ok, err}
use urban_octo_tribble.Redis.{Redis}
use urban_octo_tribble.Cache.{Json, KeyTools}
use urban_octo_tribble.Database.{Lookup, absent, one, several, Table}
use urban_octo_tribble.Llm.{StreamEvent, from_provider, error_event, token, usage, error}
use urban_octo_tribble.Rag.{
  Numbers, RagError, Vector, Citation, Answer, RagService, Question, RagEvent, citations_event,
  no_context_token, llm_event,
}
use urban_octo_tribble.Rag.Asking.{Times, RagStream, ask_stream}
use urban_octo_tribble.Query.{
  QueryRow, same_query, QueryError, rag_error, clock_exception, commit_error, refresh_error,
  multiple_results, query_not_found, Fault, raised, provider_fault, service_fault, Draws, truthy,
  QueryRequest, State, question, chunk_ids,
}

module _ (N : Numbers) (tools : KeyTools N.Score) (answers : Json (Answer N))
    (vectors : Json (Vector N)) (R : Redis Text Text) (T : Table QueryRow same_query) where
  abbrev pub S : Type 0
  S = State N tools answers vectors R T

  -- An event on the wire.
  pub data Sse : Type 0 where
    citations_sse : List (Citation N) → Sse
    token_sse : Text → Text → Text → Sse
    usage_sse : Option ℕ → Sse
    error_sse : Fault → Sse
    done_sse : ℕ → Text → ℕ → Sse

  -- The variables of a generator.
  pub record Progress : Type 0 where
    pub full_answer : Text
    pub provider : Text
    pub model : Text
    pub tokens_used : Option ℕ
    pub chunks_used : List ℕ

  abbrev pub no_progress : Progress
  no_progress = record {
    full_answer = [];
    provider = codes "none";
    model = codes "none";
    tokens_used = none;
    chunks_used = [];
  }

  abbrev pub add_token : Text → Text → Text → Progress → Progress
  add_token text provider model p = record p {
    full_answer = p.full_answer ++ text;
    provider = provider;
    model = model;
  }

  -- The loop returns at an error event, or ends with its variables.
  pub data Ending : Type 0 where
    returned : Ending
    ended : Progress → Ending

  abbrev pub send : Sse → List Sse × Ending → List Sse × Ending
  send e (sent, ending) = (e ∷ sent, ending)

  unfoldable pub forward : Progress → List (RagEvent N) → List Sse × Ending
  forward p [] = ([], ended p)
  forward p (citations_event citations ∷ events) = send (citations_sse citations) (
      forward (record p { chunks_used = truthy (chunk_ids N tools answers vectors R T citations) })
        events)
  forward p (no_context_token text ∷ events) =
      send (token_sse text (codes "none") (codes "none"))
        (forward (add_token text (codes "none") (codes "none") p) events)
  forward p (llm_event (from_provider (token text) provider model) ∷ events) =
      send (token_sse text provider model) (forward (add_token text provider model p) events)
  forward p (llm_event (from_provider (usage total) provider model) ∷ events) =
      send (usage_sse total) (forward (record p { tokens_used = total }) events)
  forward p (llm_event (from_provider (error e) provider model) ∷ events) =
      (error_sse (provider_fault e) ∷ [], returned)
  forward p (llm_event (error_event e) ∷ events) = (error_sse (service_fault e) ∷ [], returned)

  abbrev pub streamed_row : ℕ → Draws → ℕ → Option ℕ → Text → Progress → QueryRow
  streamed_row id draws user_id document_id query p = record {
    id = id;
    created_at = draws.now;
    user_id = user_id;
    document_id = document_id;
    query = query;
    answer = p.full_answer;
    chunks_used = p.chunks_used;
    llm_provider = p.provider;
    llm_model = p.model;
    tokens_used = p.tokens_used;
    response_time_ms = draws.response_time_ms;
  }

  -- session.refresh(query_record), after the commit: the row is read by its key, unless it raises.
  abbrev pub refreshed : Bool → QueryRow → Lookup QueryRow → Sse
  refreshed false row found = error_sse (raised refresh_error)
  refreshed true row absent = error_sse (raised refresh_error)
  refreshed true row (one r) = done_sse r.id row.answer row.response_time_ms
  refreshed true row several = error_sse (raised refresh_error)

  abbrev pub stored : Bool → QueryRow → Option T.Store → S → Sse × S
  stored refreshes row none s = (error_sse (raised commit_error), s)
  stored refreshes row (some t) s =
      (refreshed refreshes row (T.select (λ r. r.id == row.id) t), record s { store = t })

  unfoldable pub save_streamed : Bool → QueryRow → S → Sse × S
  save_streamed refreshes row s = stored refreshes row (T.insert row s.store) s

  abbrev pub save_drawn : Draws → ℕ → Option ℕ → Text → Progress → Option ℕ → S → Sse × S
  save_drawn draws user_id document_id query p none s = (error_sse (raised clock_exception), s)
  save_drawn draws user_id document_id query p (some id) s =
      save_streamed draws.refreshes (streamed_row id draws user_id document_id query p) s

  -- What is sent after the loop, when it has gone through.
  abbrev pub close : Draws → ℕ → Option ℕ → Text → Progress → Option RagError → S → Sse × S
  close draws user_id document_id query p (some e) s = (error_sse (raised (rag_error e)), s)
  close draws user_id document_id query p none s =
      save_drawn draws user_id document_id query p draws.new_id s

  abbrev pub conclude :
      Draws
      → ℕ
      → Option ℕ
      → Text
      → RagStream N tools answers vectors R
      → List Sse × Ending
      → S
      → List Sse × S
  conclude draws user_id document_id query stream (sent, returned) s =
      (sent, record s { rag = stream.left })
  conclude draws user_id document_id query stream (sent, ended p) s =
      let (last, s') =
        close draws user_id document_id query p stream.raises
          (record s { rag = stream.exhausted }) in
      (sent ++ last ∷ [], s')

  -- The generator, for a question, and the document of the row that it saves.
  unfoldable pub event_generator :
      RagService N → Draws → ℕ → Option ℕ → Question N → S → List Sse × S
  unfolding forward save_streamed
  event_generator service draws user_id document_id q s =
      let stream = ask_stream N tools answers vectors R service draws.times.embedded q s.rag in
      conclude draws user_id document_id q.query stream (forward no_progress stream.events) s

  unfoldable pub query_documents_stream :
      RagService N → Draws → ℕ → QueryRequest N tools answers vectors R T → S → List Sse × S
  unfolding event_generator
  query_documents_stream service draws user_id request s =
      event_generator service draws user_id request.document_id
        (question N tools answers vectors R T request request.document_id) s

  unfoldable pub query_document_stream :
      RagService N → Draws → ℕ → ℕ → QueryRequest N tools answers vectors R T → S → List Sse × S
  unfolding event_generator
  query_document_stream service draws document_id user_id request s =
      event_generator service draws user_id (some document_id)
        (question N tools answers vectors R T request (some document_id)) s

  -- A query that is run again, with the limits of a new request; the score 0.6 is an argument.
  abbrev pub rerun :
      N.Score → RagService N → Draws → ℕ → Lookup QueryRow → S → Result QueryError (List Sse) × S
  rerun default_score service draws user_id absent s = (err query_not_found, s)
  rerun default_score service draws user_id several s = (err multiple_results, s)
  rerun default_score service draws user_id (one original) s =
      let q : Question N = record {
        query = original.query;
        document_id = original.document_id;
        max_chunks = 5;
        min_score = default_score;
      } in
      let (sent, s') = event_generator service draws user_id original.document_id q s in
      (ok sent, s')

  unfoldable pub stream_query_by_id :
      N.Score → RagService N → Draws → ℕ → ℕ → S → Result QueryError (List Sse) × S
  unfolding event_generator
  stream_query_by_id default_score service draws user_id query_id s =
      rerun default_score service draws user_id
        (T.select (λ r. (r.id == query_id) && (r.user_id == user_id)) s.store) s
