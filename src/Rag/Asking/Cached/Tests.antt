-- ===== src/Rag/Asking/Cached/Tests.antt =====
-- A question that is answered twice, with a server that is a list and numbers for scores.
use urban_octo_tribble.Base.{◌≡◌, refl, true, false, [], ◌∷◌, codes, text_eq, arith}
use urban_octo_tribble.Base.Exec.{ok}
use urban_octo_tribble.Redis.{list_redis-IsReliable}
use urban_octo_tribble.Cache.{
  generate_cache_key, get_rag_response, set_rag_response, get_query_embedding, set_query_embedding,
}
use urban_octo_tribble.Llm.{generate}
use urban_octo_tribble.Rag.{rag_response, cache_hit, citation}
use urban_octo_tribble.Rag.Asking.{
  State, track, cached_embedding, keep_embedding, embedding_or_new, retrieve_chunks, keep_answer,
  answer_from, ask_anew, answer_cached, ask,
}
use urban_octo_tribble.Rag.Samples.{
  scores, server, text_eq_iff, answers, vectors, tools, service, times, later, question, start,
  answer,
}
use urban_octo_tribble.Rag.Asking.Cached.{ask_again}

abbrev kept : State scores tools answers vectors server
kept =
    (keep_answer scores tools answers vectors server question 30 answer
      (keep_embedding scores tools answers vectors server (codes "fee?") (1 ∷ []) 20 start).1).1

ask_runs :
    ask scores tools answers vectors server service times question start
    ≡ (ok (answer, false), kept)
unfolding ask answer_cached ask_anew answer_from retrieve_chunks embedding_or_new cached_embedding
    keep_embedding keep_answer get_rag_response get_query_embedding generate citation text_eq
    generate_cache_key set_query_embedding set_rag_response
ask_runs = refl

ask_again_example : ask scores tools answers vectors server service later question kept ≡ (
  ok (answer, true),
  (track scores tools answers vectors server service (cache_hit rag_response) kept).1,
)
ask_again_example =
    ask_again scores tools answers vectors server (list_redis-IsReliable text_eq text_eq_iff)
      service service times later question question start refl ask_runs (λ h. cc h)
      (record { query = refl; document_id = refl; max_chunks = refl; min_score = refl })
      (omega arith) (omega arith)
