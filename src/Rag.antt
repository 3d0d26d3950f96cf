-- ===== src/Rag.antt =====
-- Answers from retrieved chunks: `RAGService` of app/services/ai/rag.py. The embedding model and the
-- search of the vector store are parameters, and so is how a score is written. Metrics are the list of the calls that
-- are made of the metrics service, which never raises.
pub mod Asking
pub mod Samples
use urban_octo_tribble.Base.{
  ℕ, zero, suc, ◌+◌, ◌≡◌, Bool, true, false, List, [], ◌∷◌, ◌++◌, map, Option, none, some, Text,
  codes, length, take, ltb, if◌then◌else◌,
}
use urban_octo_tribble.Base.Exec.{
  Result, ok, err, Exec, raise, lift, gets, ◌>>=◌, ◌>>◌, continue, modify, raise_if, pure,
}
use urban_octo_tribble.Redis.{Redis}
use urban_octo_tribble.Cache.{
  Json, KeyTools, RedisService, get_rag_response, set_rag_response, get_query_embedding,
  set_query_embedding,
}
use urban_octo_tribble.Classifier.{TextTools, QueryComplexity, classify}
use urban_octo_tribble.Llm.{
  LlmService, LlmError, Generated, StreamEvent, from_provider, error_event, token, usage, error,
  generate, generate_stream,
}

-- What the program relies on of scores, floats from 0 to 1, and of components of vectors.
pub record Numbers : Type 1 where
  pub Score : Type 0
  pub leb : Score → Score → Bool
  -- f"{score:.2f}"
  pub show_score : Score → Text
  -- f"{position}"
  pub show_number : ℕ → Text
  pub Component : Type 0

pub data CacheType : Type 0 where
  rag_response embedding : CacheType

-- The calls of the metrics service; durations are left out.
pub data Metric : Type 0 where
  cache_hit : CacheType → Metric
  cache_miss : CacheType → Metric
  search_latency : Metric
  llm_latency : Text → Metric
  query_complexity : QueryComplexity → Metric
  tokens_used : ℕ → Text → Metric

pub data RagError : Type 0 where
  session_not_set : RagError
  model_error : Text → RagError
  embedding_error : Text → RagError
  search_error : Text → RagError
  llm_error : LlmError → RagError

module _ (N : Numbers) where
  abbrev pub Vector : Type 0
  Vector = List N.Component

  -- A dictionary that `VectorStoreService.search` returns, as far as it is read here.
  pub record Hit : Type 0 where
    pub chunk_id : Option ℕ
    pub chunk_text : Text
    pub chunk_index : ℕ
    pub document_id : ℕ
    pub document_title : Option Text
    pub score : N.Score

  -- A dictionary of `_retrieve_chunks`.
  pub record RetrievedChunk : Type 0 where
    pub chunk_id : Option ℕ
    pub chunk_text : Text
    pub chunk_position : ℕ
    pub document_id : ℕ
    pub document_title : Text
    pub similarity_score : N.Score

  pub record Citation : Type 0 where
    pub chunk_id : Option ℕ
    pub document_id : ℕ
    pub document_title : Text
    pub chunk_position : ℕ
    pub similarity_score : N.Score
    pub text_preview : Text

  -- The dictionary in the cache, which is also what `ask` returns, less the flag.
  pub record Answer : Type 0 where
    pub answer : Text
    pub citations : List Citation
    pub provider : Text
    pub model : Text
    pub tokens_used : Option ℕ

  -- The service: what its parts answer.
  pub record RagService : Type 0 where
    pub session_set : Bool
    pub ensure_model_loaded : Result Text (Unit {0})
    pub embed_text : Text → Result Text Vector
    pub search : Vector → Option ℕ → ℕ → N.Score → Result Text (List Hit)
    pub llm_service : LlmService
    pub temperature : ℕ
    pub rag_system_prompt : Text
    pub has_metrics : Bool
    pub classifier : Option TextTools

  pub record Question : Type 0 where
    pub query : Text
    pub document_id : Option ℕ
    pub max_chunks : ℕ
    pub min_score : N.Score

  pub data RagEvent : Type 0 where
    citations_event : List Citation → RagEvent
    no_context_token : Text → RagEvent
    llm_event : StreamEvent → RagEvent

  abbrev pub or_unknown : Option Text → Text
  or_unknown none = codes "Unknown"
  or_unknown (some title) = title

  abbrev pub retrieved : Hit → RetrievedChunk
  retrieved h = record {
    chunk_id = h.chunk_id;
    chunk_text = h.chunk_text;
    chunk_position = h.chunk_index;
    document_id = h.document_id;
    document_title = or_unknown h.document_title;
    similarity_score = h.score;
  }

  -- if result.get("score", 0) >= min_score
  abbrev pub filtered : N.Score → List Hit → List Hit
  filtered min_score [] = []
  filtered min_score (h ∷ hits) =
      if N.leb min_score h.score then h ∷ filtered min_score hits else filtered min_score hits

  abbrev pub context_part : ℕ → RetrievedChunk → Text
  context_part idx c =
      codes "[Source "
      ++ N.show_number idx
      ++ codes "] (Document: "
      ++ c.document_title
      ++ codes ", Position: "
      ++ N.show_number c.chunk_position
      ++ codes ", Similarity: "
      ++ N.show_score c.similarity_score
      ++ codes ")\n"
      ++ c.chunk_text
      ++ codes "\n"

  -- "\n".join of the parts, numbered from `idx` on
  abbrev pub join_parts : ℕ → RetrievedChunk → List RetrievedChunk → Text
  join_parts idx c [] = context_part idx c
  join_parts idx c (d ∷ chunks) = context_part idx c ++ codes "\n" ++ join_parts (idx + 1) d chunks

  unfoldable pub build_context : List RetrievedChunk → Text
  build_context [] = codes "No relevant context found."
  build_context (c ∷ chunks) = join_parts 1 c chunks

  unfoldable pub build_prompt : Text → Text → Text
  build_prompt query context =
      codes "Context:\n"
      ++ context
      ++ codes "\n\nQuestion: "
      ++ query
      ++ codes
          "\n\nPlease answer the question based on the provided context. Include citations using [Source N] format."

  abbrev pub preview : Text → Text
  preview t = if ltb 200 (length t) then take 200 t ++ codes "..." else t

  unfoldable pub citation : RetrievedChunk → Citation
  citation c = record {
    chunk_id = c.chunk_id;
    document_id = c.document_id;
    document_title = c.document_title;
    chunk_position = c.chunk_position;
    similarity_score = c.similarity_score;
    text_preview = preview c.chunk_text;
  }

  abbrev pub no_answer : Text
  no_answer =
      codes
        "I couldn't find any relevant information in your documents to answer this question. Please try rephrasing your question or ensure the relevant documents are uploaded."

  abbrev pub with_generated : Generated → List RetrievedChunk → Answer
  with_generated g chunks = record {
    answer = g.response;
    citations = map citation chunks;
    provider = g.provider;
    model = g.model;
    tokens_used = g.tokens;
  }

  abbrev pub without_context : Answer
  without_context = record {
    answer = no_answer;
    citations = [];
    provider = codes "none";
    model = codes "none";
    tokens_used = none;
  }
