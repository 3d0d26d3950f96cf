-- ===== src/Rag/Asking/Connected.antt =====
-- Asking leaves the client of the cache connected.
use urban_octo_tribble.Base.{
  ℕ, zero, suc, ◌≡◌, refl, ap, ◌∙◌, inl, inr, Bool, true, false, Bool-cases, List, [], ◌∷◌, map,
  Option, none, some, Text, if◌then◌else◌,
}
use mathlib.Core.Path.{subst⁻¹}
use urban_octo_tribble.Base.Exec.{Result, ok, err, Exec, ◌>>=◌, ◌>>◌, continue, raise_if, pure}
use urban_octo_tribble.Redis.{Redis}
use urban_octo_tribble.Cache.{
  Json, KeyTools, RedisService, get_query_embedding, set_query_embedding,
}
use urban_octo_tribble.Classifier.{TextTools}
use urban_octo_tribble.Rag.{
  Numbers, Metric, search_latency, RagError, session_not_set, model_error, embedding_error,
  search_error, Hit, retrieved, filtered, Vector, RetrievedChunk, Answer, RagService, Question,
}
use urban_octo_tribble.Rag.Asking.{
  State, track, track_complexity, track_tokens, lift_error, track_embedding, cached_embedding,
  keep_embedding, embedding_or_new, retrieve_chunks,
}

module _ (N : Numbers) (tools : KeyTools N.Score) (answers : Json (Answer N))
    (vectors : Json (Vector N)) (R : Redis Text Text) where
  abbrev pub S : Type 0
  S = State N tools answers vectors R

  abbrev pub Act : Type 0 → Type 0
  Act A = Exec RagError S A

  -- The client stays connected.
  abbrev pub Keeps : {A : Type 0} → Act A → Type 0
  Keeps m = (s : S) → (m s).1.redis.is_available ≡ s.redis.is_available

  continue-Keeps :
      {A B : Type 0} (r : Result RagError A) (f : A → Act B) (s : S)
      → ((a : A) → Keeps (f a))
      → (continue r f s).1.redis.is_available ≡ s.redis.is_available
  continue-Keeps (ok a) f s h = h a s
  continue-Keeps (err e) f s h = refl

  then_Keeps :
      {A B : Type 0} (m : Act A) (f : A → Act B)
      → Keeps m
      → ((a : A) → Keeps (f a))
      → Keeps (m >>= f)
  then_Keeps m f hm hf s = continue-Keeps (m s).0 f (m s).1 hf ∙ hm s

  track-redis :
      (service : RagService N) (m : Metric) (s : S)
      → (track N tools answers vectors R service m s).1.redis ≡ s.redis
  track-redis service m s = elim (Bool-cases service.has_metrics) [
    | inl e ↦ rw e refl
    | inr e ↦ rw e refl
  ]

  pub track-Keeps :
      (service : RagService N) (m : Metric) → Keeps (track N tools answers vectors R service m)
  track-Keeps service m s = ap (λ (r : RedisService R). r.is_available) (track-redis service m s)

  lift_error-Keeps :
      {A : Type 0} (f : Text → RagError) (r : Result Text A)
      → Keeps (lift_error N tools answers vectors R f r)
  lift_error-Keeps f (ok a) s = refl
  lift_error-Keeps f (err e) s = refl

  track_embedding-Keeps :
      (service : RagService N) (o : Option (Vector N))
      → Keeps (track_embedding N tools answers vectors R service o)
  track_embedding-Keeps service none = track-Keeps service _
  track_embedding-Keeps service (some []) = track-Keeps service _
  track_embedding-Keeps service (some (c ∷ v)) = track-Keeps service _

  pub track_complexity-Keeps :
      (service : RagService N) (o : Option TextTools) (query : Text)
      → Keeps (track_complexity N tools answers vectors R service o query)
  track_complexity-Keeps service none query s = refl
  track_complexity-Keeps service (some c) query s = track-Keeps service _ s

  raise_if-Keeps : (b : Bool) (e : RagError) → Keeps (raise_if b e)
  raise_if-Keeps true e s = refl
  raise_if-Keeps false e s = refl

  cached_embedding-Keeps :
      (service : RagService N) (query : Text) (now : ℕ)
      → Keeps (cached_embedding N tools answers vectors R service query now)
  unfolding cached_embedding
  cached_embedding-Keeps service query now s =
      let found = get_query_embedding tools answers vectors R query now s.redis in
      elim (Bool-cases s.redis.is_available) [
        | inl e ↦
            subst⁻¹
              (λ b.
                (if b
                  then (track_embedding N tools answers vectors R service found >> pure found) s
                  else (ok none, s)).1.redis.is_available
                ≡ s.redis.is_available)
              e
              (then_Keeps (track_embedding N tools answers vectors R service found)
                (λ _. pure found) (track_embedding-Keeps service found) (λ _ s. refl) s)
        | inr e ↦ rw e refl
      ]

  keep_embedding-Keeps :
      (query : Text) (v : Vector N) (now : ℕ)
      → Keeps (keep_embedding N tools answers vectors R query v now)
  unfolding keep_embedding set_query_embedding
  keep_embedding-Keeps query v now s = elim (Bool-cases s.redis.is_available) [
    | inl e ↦ rw e refl
    | inr e ↦ rw e refl
  ]

  embedding_or_new-Keeps :
      (service : RagService N) (query : Text) (now : ℕ) (o : Option (Vector N))
      → Keeps (embedding_or_new N tools answers vectors R service query now o)
  unfolding embedding_or_new
  embedding_or_new-Keeps service query now (some v) s = refl
  embedding_or_new-Keeps service query now none s =
      let kept : Vector N → Act (Vector N) =
        λ v. keep_embedding N tools answers vectors R query v now >> pure v in
      then_Keeps (lift_error N tools answers vectors R embedding_error (service.embed_text query))
        kept (lift_error-Keeps embedding_error (service.embed_text query))
        (λ v.
          then_Keeps (keep_embedding N tools answers vectors R query v now) (λ _. pure v)
            (keep_embedding-Keeps query v now) (λ _ s. refl))
        s

  pub retrieve_chunks-Keeps :
      (service : RagService N) (now : ℕ) (q : Question N)
      → Keeps (retrieve_chunks N tools answers vectors R service now q)
  unfolding retrieve_chunks
  retrieve_chunks-Keeps service now q =
      let find : Vector N → Result Text (List (Hit N)) =
        λ v. service.search v q.document_id q.max_chunks q.min_score in
      let result : List (Hit N) → List (RetrievedChunk N) =
        λ hits. map (retrieved N) (filtered N q.min_score hits) in
      let tracked : List (Hit N) → Act (List (RetrievedChunk N)) =
        λ hits. track N tools answers vectors R service search_latency >> pure (result hits) in
      let searched : Vector N → Act (List (RetrievedChunk N)) =
        λ v. lift_error N tools answers vectors R search_error (find v) >>= tracked in
      let embedded : Option (Vector N) → Act (List (RetrievedChunk N)) =
        λ o. embedding_or_new N tools answers vectors R service q.query now o >>= searched in
      let looked : Act (List (RetrievedChunk N)) =
        cached_embedding N tools answers vectors R service q.query now >>= embedded in
      let loaded : Act (List (RetrievedChunk N)) =
        lift_error N tools answers vectors R model_error service.ensure_model_loaded >> looked in
      let tracked-Keeps : (hits : List (Hit N)) → Keeps (tracked hits) = λ hits.
        then_Keeps (track N tools answers vectors R service search_latency)
          (λ _. pure (result hits)) (track-Keeps service search_latency) (λ _ s. refl) in
      let searched-Keeps : (v : Vector N) → Keeps (searched v) = λ v.
        then_Keeps (lift_error N tools answers vectors R search_error (find v)) tracked
          (lift_error-Keeps search_error (find v)) tracked-Keeps in
      let embedded-Keeps : (o : Option (Vector N)) → Keeps (embedded o) = λ o.
        then_Keeps (embedding_or_new N tools answers vectors R service q.query now o) searched
          (embedding_or_new-Keeps service q.query now o) searched-Keeps in
      let looked-Keeps : Keeps looked =
        then_Keeps (cached_embedding N tools answers vectors R service q.query now) embedded
          (cached_embedding-Keeps service q.query now) embedded-Keeps in
      let loaded-Keeps : Keeps loaded =
        then_Keeps (lift_error N tools answers vectors R model_error service.ensure_model_loaded)
          (λ _. looked) (lift_error-Keeps model_error service.ensure_model_loaded)
          (λ _. looked-Keeps) in
      let unset = if service.session_set then false else true in
      then_Keeps (raise_if unset session_not_set) (λ _. loaded)
        (raise_if-Keeps unset session_not_set) (λ _. loaded-Keeps)

  pub track_tokens-Keeps :
      (service : RagService N) (o : Option ℕ) (provider : Text)
      → Keeps (track_tokens N tools answers vectors R service o provider)
  track_tokens-Keeps service none provider s = refl
  track_tokens-Keeps service (some zero) provider s = refl
  track_tokens-Keeps service (some (suc n)) provider s = track-Keeps service _ s

  pub if_Keeps :
      {A : Type 0} (b : Bool) (m n : Act A) → Keeps m → Keeps n → Keeps (if b then m else n)
  if_Keeps true m n h h' = h
  if_Keeps false m n h h' = h'
