-- ===== src/Query.antt =====
-- Questions and their history: app/routes/query.py, with app/models/query.py and
-- app/schemas/query.py. A handler takes what it draws from the id generator and the clock as
-- arguments. An exception of the event producer is logged there, so publishing does not raise.
pub mod Streaming
pub mod History
pub mod Search
use urban_octo_tribble.Base.{
  ℕ, zero, suc, ◌+◌, ◌*◌, ◌-◌, ◌/◌, ◌≡◌, Bool, true, false, ◌&&◌, List, [], ◌∷◌, ◌++◌, map, Option,
  none, some, Text, codes, length, take, drop, ◌==◌, if◌then◌else◌,
}
use urban_octo_tribble.Base.Exec.{
  Result, ok, err, Exec, raise, lift, gets, ◌>>=◌, ◌>>◌, continue, modify, pure,
}
use urban_octo_tribble.Redis.{Redis}
use urban_octo_tribble.Cache.{Json, KeyTools}
use urban_octo_tribble.Database.{Lookup, absent, one, several, Table, matching}
use urban_octo_tribble.Llm.{StreamEvent, LlmError, from_provider, error_event, token, usage, error}
use urban_octo_tribble.Pagination.{PaginationParams, PaginatedResponse}
use urban_octo_tribble.Rag.{
  Numbers, RagError, Vector, Citation, Answer, RagService, Question, RagEvent, citations_event,
  no_context_token, llm_event,
}
use urban_octo_tribble.Rag.Asking.{Times, RagStream, ask, ask_stream}
use urban_octo_tribble.Rag.Asking

-- A row of `queries`.
pub record QueryRow : Type 0 where
  pub id : ℕ
  pub created_at : ℕ
  pub user_id : ℕ
  pub document_id : Option ℕ
  pub query : Text
  pub answer : Text
  pub chunks_used : List ℕ
  pub llm_provider : Text
  pub llm_model : Text
  pub tokens_used : Option ℕ
  pub response_time_ms : ℕ

-- The primary key is unique.
abbrev pub same_query : QueryRow → QueryRow → Bool
same_query a b = a.id == b.id

-- `QueryExecutedEvent` with its data.
pub record QueryExecuted : Type 0 where
  pub event_id : ℕ
  pub user_id : ℕ
  pub query_id : ℕ
  pub document_id : Option ℕ
  pub query_text : Text
  pub answer_length : ℕ
  pub chunks_used : ℕ
  pub llm_provider : Text
  pub llm_model : Text
  pub tokens_used : Option ℕ
  pub response_time_ms : ℕ
  pub cache_hit : Bool

pub data QueryError : Type 0 where
  rag_error : RagError → QueryError
  clock_exception : QueryError
  commit_error : QueryError
  refresh_error : QueryError
  multiple_results : QueryError
  query_not_found : QueryError

-- What an SSE error event tells.
pub data Fault : Type 0 where
  raised : QueryError → Fault
  provider_fault : Text → Fault
  service_fault : LlmError → Fault

-- What a request draws from outside: the times of the cache, the id and the time of a new row, the
-- id of an event, the time that the answer took, and whether there is an event producer.
pub record Draws : Type 0 where
  pub times : Times
  pub new_id : Option ℕ
  pub now : ℕ
  pub event_id : Option ℕ
  pub response_time_ms : ℕ
  pub has_events : Bool
  -- whether session.refresh is answered
  pub refreshes : Bool

-- [c.chunk_id for c in citations if c.chunk_id is not None]
abbrev pub present : List (Option ℕ) → List ℕ
present [] = []
present (none ∷ ids) = present ids
present (some id ∷ ids) = id ∷ present ids

-- The streams leave out an id of 0 too.
abbrev pub truthy : List (Option ℕ) → List ℕ
truthy [] = []
truthy (none ∷ ids) = truthy ids
truthy (some zero ∷ ids) = truthy ids
truthy (some (suc id) ∷ ids) = suc id ∷ truthy ids

module _ (N : Numbers) (tools : KeyTools N.Score) (answers : Json (Answer N))
    (vectors : Json (Vector N)) (R : Redis Text Text) (T : Table QueryRow same_query) where
  pub record QueryRequest : Type 0 where
    pub query : Text
    pub document_id : Option ℕ
    pub max_chunks : ℕ
    pub min_score : N.Score

  pub record QueryResponse : Type 0 where
    pub query : Text
    pub answer : Text
    pub citations : List (Citation N)
    pub llm_provider : Text
    pub llm_model : Text
    pub tokens_used : Option ℕ
    pub response_time_ms : ℕ

  pub record State : Type 0 where
    pub rag : Asking.State N tools answers vectors R
    pub store : T.Store
    pub events : List QueryExecuted

  abbrev pub Handler : Type 0 → Type 0
  Handler A = Exec QueryError State A

  abbrev pub question : QueryRequest → Option ℕ → Question N
  question request document_id = record {
    query = request.query;
    document_id = document_id;
    max_chunks = request.max_chunks;
    min_score = request.min_score;
  }

  abbrev pub chunk_ids : List (Citation N) → List (Option ℕ)
  chunk_ids citations = map (λ (c : Citation N). c.chunk_id) citations

  abbrev pub to_result : {A : Type 0} → QueryError → Option A → Result QueryError A
  to_result e none = err e
  to_result e (some a) = ok a

  abbrev pub wrap : {A : Type 0} → Result RagError A → Result QueryError A
  wrap (ok a) = ok a
  wrap (err e) = err (rag_error e)

  -- await rag_service.ask(...)
  pub asked : RagService N → Times → Question N → Handler (Answer N × Bool)
  asked service times q s =
      let (r, rag) = ask N tools answers vectors R service times q s.rag in
      (wrap r, record s { rag = rag })

  -- session.add(query_record), session.commit()
  pub save : QueryRow → Handler (Unit {0})
  save row s = elim (T.insert row s.store) [
    | none ↦ (err commit_error, s)
    | some t ↦ (ok tt, record s { store = t })
  ]

  -- if services.events: ...
  pub publish : Draws → QueryRow → List (Citation N) → Bool → Handler (Unit {0})
  publish draws row citations cache_hit s =
      if draws.has_events
      then (elim draws.event_id [
        | none ↦ (err clock_exception, s)
        | some event_id ↦
            let event : QueryExecuted = record {
              event_id = event_id;
              user_id = row.user_id;
              query_id = row.id;
              document_id = row.document_id;
              query_text = row.query;
              answer_length = length row.answer;
              chunks_used = length citations;
              llm_provider = row.llm_provider;
              llm_model = row.llm_model;
              tokens_used = row.tokens_used;
              response_time_ms = row.response_time_ms;
              cache_hit = cache_hit;
            } in
            (ok tt, record s { events = s.events ++ event ∷ [] })
      ])
      else (ok tt, s)

  abbrev pub answered_row : ℕ → Draws → ℕ → Option ℕ → Text → Answer N → QueryRow
  answered_row id draws user_id document_id query a = record {
    id = id;
    created_at = draws.now;
    user_id = user_id;
    document_id = document_id;
    query = query;
    answer = a.answer;
    chunks_used = present (chunk_ids a.citations);
    llm_provider = a.provider;
    llm_model = a.model;
    tokens_used = a.tokens_used;
    response_time_ms = draws.response_time_ms;
  }

  abbrev pub query_response : Draws → Text → Answer N → QueryResponse
  query_response draws query a = record {
    query = query;
    answer = a.answer;
    citations = a.citations;
    llm_provider = a.provider;
    llm_model = a.model;
    tokens_used = a.tokens_used;
    response_time_ms = draws.response_time_ms;
  }

  -- The handlers for one document and for all ask about different documents, and write the same row.
  pub query_about : RagService N → Draws → ℕ → QueryRequest → Option ℕ → Handler QueryResponse
  unfolding asked save publish
  query_about service draws user_id request document_id = do
    (a, cache_hit) ← asked service draws.times (question request document_id)
    id ← lift (to_result clock_exception draws.new_id)
    let row = answered_row id draws user_id request.document_id request.query a
    save row
    publish draws row a.citations cache_hit
    pure (query_response draws request.query a)

  unfoldable pub query_documents : RagService N → Draws → ℕ → QueryRequest → Handler QueryResponse
  unfolding query_about
  query_documents service draws user_id request =
      query_about service draws user_id request request.document_id

  -- The document is the one that `verify_document_ownership` found.
  unfoldable pub query_document :
      RagService N → Draws → ℕ → ℕ → QueryRequest → Handler QueryResponse
  unfolding query_about
  query_document service draws document_id user_id request =
      query_about service draws user_id request (some document_id)
