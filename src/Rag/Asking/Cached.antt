-- ===== src/Rag/Asking/Cached.antt =====
-- Asking the same question twice.
mod Tests
use urban_octo_tribble.Base.{
  ℕ, zero, suc, ◌+◌, ◌*◌, ◌≤◌, ◌<◌, ◌≡◌, ◌≢◌, refl, sym, ap, ◌∙◌, ◌⊎◌, inl, inr, Bool, true, false,
  Bool-cases, List, [], ◌∷◌, ◌++◌, map, Option, none, some, Text, codes, ltb, if◌then◌else◌, arith,
}
use mathlib.Core.Path.{subst, subst⁻¹}
use urban_octo_tribble.Base.Exec.{
  Result, ok, err, Exec, raise, lift, gets, ◌>>=◌, ◌>>◌, continue, modify, raise_if, pure,
  >>=-eq-ok, pure-eq-ok,
}
use urban_octo_tribble.Redis.{Redis, IsReliable}
use urban_octo_tribble.Cache.{
  Json, KeyTools, RedisService, second, loaded, rag_key, get_json, get_rag_response,
  set_rag_response, get_query_embedding, set_query_embedding,
}
use urban_octo_tribble.Classifier.{TextTools, classify}
use urban_octo_tribble.Llm.{LlmError, Generated, generate}
use urban_octo_tribble.Rag.{
  Numbers, rag_response, Metric, cache_hit, llm_latency, search_latency, RagError, session_not_set,
  model_error, embedding_error, search_error, Hit, retrieved, filtered, Vector, RetrievedChunk,
  Answer, RagService, Question, with_generated,
}
use urban_octo_tribble.Rag.Asking.{
  Times, State, Action, track, skip, track_complexity, track_tokens, lift_error, track_embedding,
  cached_embedding, keep_embedding, embedding_or_new, retrieve_chunks, lift_llm, system_and_user,
  keep_answer, answer_from, ask_anew, answer_cached, ask,
}
use urban_octo_tribble.Rag.Asking.Connected.{
  Keeps, track-Keeps, track_complexity-Keeps, retrieve_chunks-Keeps, track_tokens-Keeps, if_Keeps,
}

module _ (N : Numbers) (tools : KeyTools N.Score) (answers : Json (Answer N))
    (vectors : Json (Vector N)) (R : Redis Text Text) where
  abbrev S : Type 0
  S = State N tools answers vectors R

  abbrev Act : Type 0 → Type 0
  Act A = Exec RagError S A

  -- The cache holds an answer to a question from a time on, for an hour.
  record Kept (q : Question N) (since : ℕ) (a : Answer N) (s : S) : Type 0 where
    connected : s.redis.is_available ≡ true
    held :
        (t : ℕ)
        → since ≤ t
        → R.look (rag_key tools q.query q.document_id q.max_chunks q.min_score) t s.redis.store
          ≡ (if ltb t (since + 3600 * second) then some (answers.dumps a) else none)

  keep_answer-Kept :
      IsReliable R
      → (q : Question N) (now : ℕ) (a : Answer N) (s : S) → s.redis.is_available ≡ true
      → Kept q now a (keep_answer N tools answers vectors R q now a s).1
  unfolding keep_answer set_rag_response
  keep_answer-Kept reliable q now a s e = record {
    connected = rw e refl;
    held = λ t h. rw e (
        R.look-save_self _ (answers.dumps a) (3600 * second) now t s.redis.store
          (reliable.saves _ _ _ _ _) h);
  }

  abbrev generated_answer :
      RagService N → ℕ → Question N → List (RetrievedChunk N) → Generated → Act (Answer N × Bool)
  generated_answer service now q chunks g = do
    track N tools answers vectors R service (llm_latency g.provider)
    track_tokens N tools answers vectors R service g.tokens g.provider
    keep_answer N tools answers vectors R q now (with_generated N g chunks)
    pure (with_generated N g chunks, false)

  generated-Kept :
      IsReliable R
      → (service : RagService N) (now : ℕ) (q : Question N) (chunks : List (RetrievedChunk N))
        (g : Generated) (s : S) {a : Answer N} {flag : Bool} {s' : S}
      → s.redis.is_available ≡ true
      → generated_answer service now q chunks g s ≡ (ok (a, flag), s')
      → Kept q now a s'
  unfolding keep_answer
  generated-Kept reliable service now q chunks g s {a = a} {flag = flag} {s' = s'} e h =
      let t = (track N tools answers vectors R service (llm_latency g.provider) s).1 in
      let u = (track_tokens N tools answers vectors R service g.tokens g.provider t).1 in
      let finish : Unit {0} → Act (Answer N × Bool) = λ _.
        keep_answer N tools answers vectors R q now (with_generated N g chunks)
        >> pure (with_generated N g chunks, false) in
      let (_, _, last) =
        >>=-eq-ok (track_tokens N tools answers vectors R service g.tokens g.provider) finish t h in
      let (same, state) = pure-eq-ok last in
      let up : u.redis.is_available ≡ true =
        track_tokens-Keeps N tools answers vectors R service g.tokens g.provider t
        ∙ track-Keeps N tools answers vectors R service (llm_latency g.provider) s
        ∙ e in
      subst (Kept q now a) state (
        subst
          (λ x.
            Kept q now x
              (keep_answer N tools answers vectors R q now (with_generated N g chunks) u).1)
          (ap (λ (x : Answer N × Bool). x.0) same)
          (keep_answer-Kept reliable q now (with_generated N g chunks) u up))

  lifted-Kept :
      IsReliable R
      → (service : RagService N) (now : ℕ) (q : Question N) (chunks : List (RetrievedChunk N))
        (r : Result LlmError Generated) (s : S) {a : Answer N} {flag : Bool} {s' : S}
      → s.redis.is_available ≡ true
      → (lift_llm N tools answers vectors R r >>= generated_answer service now q chunks) s
        ≡ (ok (a, flag), s')
      → Kept q now a s'
  lifted-Kept reliable service now q chunks (ok g) s e h =
      generated-Kept reliable service now q chunks g s e h
  lifted-Kept reliable service now q chunks (err x) s e h =
      absurd (cc (ap (λ (y : Result RagError (Answer N × Bool) × S). y.0) h))

  answer_from-Kept :
      IsReliable R
      → (service : RagService N) (now : ℕ) (q : Question N) (chunks : List (RetrievedChunk N))
        (s : S) {a : Answer N} {flag : Bool} {s' : S}
      → s.redis.is_available ≡ true
      → answer_from N tools answers vectors R service now q chunks s ≡ (ok (a, flag), s')
      → a.citations ≢ []
      → Kept q now a s'
  unfolding answer_from
  answer_from-Kept reliable service now q [] s e h cited =
      let (same, _) = pure-eq-ok h in
      absurd (cited (ap (λ (x : Answer N × Bool). x.0.citations) (sym same)))
  answer_from-Kept reliable service now q (c ∷ chunks) s e h cited =
      lifted-Kept reliable service now q (c ∷ chunks)
        (generate service.temperature service.llm_service service.rag_system_prompt
          (system_and_user N tools answers vectors R q (c ∷ chunks)) none)
        s e h

  ask_anew-Kept :
      IsReliable R
      → (service : RagService N) (times : Times) (q : Question N) (s : S) {a : Answer N}
        {flag : Bool} {s' : S}
      → s.redis.is_available ≡ true
      → ask_anew N tools answers vectors R service times q s ≡ (ok (a, flag), s')
      → a.citations ≢ []
      → Kept q times.answered a s'
  unfolding ask_anew
  ask_anew-Kept reliable service times q s e h cited =
      let classified : Act (Unit {0}) =
        if service.has_metrics
        then track_complexity N tools answers vectors R service service.classifier q.query
        else skip N tools answers vectors R in
      let classified-Keeps : Keeps N tools answers vectors R classified =
        if_Keeps N tools answers vectors R service.has_metrics _ _
          (track_complexity-Keeps N tools answers vectors R service service.classifier q.query)
          (λ _. refl) in
      let retrieve = retrieve_chunks N tools answers vectors R service times.embedded q in
      let finish = answer_from N tools answers vectors R service times.answered q in
      let (_, _, h') = >>=-eq-ok classified (λ _. retrieve >>= finish) s h in
      let t = (classified s).1 in
      let (chunks, _, h'') = >>=-eq-ok retrieve finish t h' in
      answer_from-Kept reliable service times.answered q chunks (retrieve t).1
        (retrieve_chunks-Keeps N tools answers vectors R service times.embedded q t
          ∙ classified-Keeps s
          ∙ e)
        h'' cited

  answer_cached-Kept :
      IsReliable R
      → (service : RagService N) (times : Times) (q : Question N) (o : Option (Answer N)) (s : S)
        {a : Answer N} {s' : S}
      → s.redis.is_available ≡ true
      → answer_cached N tools answers vectors R service times q o s ≡ (ok (a, false), s')
      → a.citations ≢ []
      → Kept q times.answered a s'
  unfolding answer_cached
  answer_cached-Kept reliable service times q (some b) s e h cited =
      let (same, _) = pure-eq-ok h in absurd (cc (ap (λ (x : Answer N × Bool). x.1) same))
  answer_cached-Kept reliable service times q none s e h cited =
      ask_anew-Kept reliable service times q _
        (track-Keeps N tools answers vectors R service _ s ∙ e) h cited

  loaded_text :
      (t : Text) (a : Answer N)
      → t ≢ []
      → answers.loads t ≡ some a
      → loaded answers (some (some t)) ≡ some a
  loaded_text [] a h e = absurd (h refl)
  loaded_text (c ∷ t) a h e = e

  -- The same question to the cache.
  pub record IsAlike (q r : Question N) : Type 0 where
    query : tools.normalize q.query ≡ tools.normalize r.query
    document_id : q.document_id ≡ r.document_id
    max_chunks : q.max_chunks ≡ r.max_chunks
    min_score : q.min_score ≡ r.min_score

  rag_key-eq :
      (q r : Question N)
      → IsAlike q r
      → rag_key tools q.query q.document_id q.max_chunks q.min_score
        ≡ rag_key tools r.query r.document_id r.max_chunks r.min_score
  rag_key-eq q r alike = rw (alike.query, alike.document_id, alike.max_chunks, alike.min_score) refl

  found_again :
      IsReliable R
      → (q r : Question N) (since now : ℕ) (a : Answer N) (s : S) → Kept q since a s
      → IsAlike q r
      → since ≤ now
      → now < since + 3600 * second
      → get_rag_response tools answers vectors R r.query r.document_id r.max_chunks r.min_score now
          s.redis
        ≡ some a
  unfolding get_rag_response
  found_again reliable q r since now a s kept alike h h' =
      let early : ltb now (since + 3600 * second) ≡ true = ground arith in
      let held : R.look (rag_key tools r.query r.document_id r.max_chunks r.min_score) now
            s.redis.store
          ≡ some (answers.dumps a) =
        subst (λ key. R.look key now s.redis.store ≡ some (answers.dumps a)) (rag_key-eq q r alike)
          (kept.held now h ∙ rw early refl) in
      rw
        (
          kept.connected,
          reliable.reads (rag_key tools r.query r.document_id r.max_chunks r.min_score) now
              s.redis.store,
          held,
        )
        (loaded_text (answers.dumps a) a (answers.dumps_nonempty a) (answers.loads-dumps a))

  answered_again :
      (other : RagService N) (u : Times) (r : Question N) (s : S) {o : Option (Answer N)}
      {a : Answer N}
      → o ≡ some a
      → answer_cached N tools answers vectors R other u r o s
        ≡ (ok (a, true), (track N tools answers vectors R other (cache_hit rag_response) s).1)
  unfolding answer_cached
  answered_again other u r s e = rw e refl

  -- A question that was answered from chunks is answered again, within the hour, by the same answer
  -- and from the cache, by any service, whatever its model and its chunks are by then: the state
  -- changes in no more than a metric. The two questions have the same document, the same number of
  -- chunks and the same minimal score, and the same query after `lower().strip()`; Redis is
  -- connected and answers every command.
  pub ask_again :
      IsReliable R
      → (first other : RagService N) (t u : Times) (q r : Question N) (s : S) {a : Answer N}
        {s' : S}
      → s.redis.is_available ≡ true
      → ask N tools answers vectors R first t q s ≡ (ok (a, false), s')
      → a.citations ≢ []
      → IsAlike q r
      → t.answered ≤ u.asked
      → u.asked < t.answered + 3600 * second
      → ask N tools answers vectors R other u r s'
        ≡ (ok (a, true), (track N tools answers vectors R other (cache_hit rag_response) s').1)
  unfolding ask
  ask_again reliable first other t u q r s {a = a} {s' = s'} e h cited alike after before =
      let cached : Question N → ℕ → S → Option (Answer N) = λ x now z.
        get_rag_response tools answers vectors R x.query x.document_id x.max_chunks x.min_score now
          z.redis in
      let by_cache =
        subst
          (λ b.
            (if b
              then answer_cached N tools answers vectors R first t q (cached q t.asked s) s
              else ask_anew N tools answers vectors R first t q s)
            ≡ (ok (a, false), s'))
          e h in
      let kept = answer_cached-Kept reliable first t q (cached q t.asked s) s e by_cache cited in
      subst⁻¹
        (λ b.
          (if b
            then answer_cached N tools answers vectors R other u r (cached r u.asked s') s'
            else ask_anew N tools answers vectors R other u r s')
          ≡ (ok (a, true), (track N tools answers vectors R other (cache_hit rag_response) s').1))
        kept.connected
        (answered_again other u r s'
          (found_again reliable q r t.answered u.asked a s' kept alike after before))
