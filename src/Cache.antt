-- ===== src/Cache.antt =====
-- The caches of answers and of embeddings, in app/services/optimization/redis_service.py. The hash
-- and JSON are parameters, and so are Python's `lower().strip()`. The server holds texts by key.

use urban_octo_tribble.Base.{
  ℕ, suc, ◌*◌, ◌≡◌, ◌≢◌, Bool, true, false, ◌||◌, List, [], ◌∷◌, ◌++◌, Option, none, some, Text,
  codes, take, if◌then◌else◌,
}
use urban_octo_tribble.Redis.{Redis}
use urban_octo_tribble.Classifier.{starts_with}

-- What `json.dumps` and `json.loads` are relied on for; `none` is an exception.
pub record Json (A : Type 0) : Type 0 where
  pub dumps : A → Text
  pub loads : Text → Option A
  pub loads-dumps : (a : A) → loads (dumps a) ≡ some a
  pub dumps_nonempty : (a : A) → dumps a ≢ []

-- The arguments of `_generate_cache_key`.
pub data KeyArgs (Score : Type 0) : Type 0 where
  rag_args : Text → Option ℕ → ℕ → Score → KeyArgs Score
  embedding_args : Text → KeyArgs Score

pub record KeyTools (Score : Type 0) : Type 0 where
  pub normalize : Text → Text
  -- json.dumps(args, sort_keys=True, default=str)
  pub dumps_args : KeyArgs Score → Text
  -- hashlib.sha256(data.encode()).hexdigest()
  pub sha256 : Text → Text

abbrev pub second : ℕ
second = 1000000

-- Whether the pool has a client, and the server.
pub record RedisService (R : Redis Text Text) : Type 0 where
  pub is_available : Bool
  pub store : R.Store

module _ {Score : Type 0} (tools : KeyTools Score) where
  unfoldable pub generate_cache_key : Text → KeyArgs Score → Text
  generate_cache_key prefix args =
      prefix ++ codes ":" ++ take 16 (tools.sha256 (tools.dumps_args args))

  abbrev pub rag_key : Text → Option ℕ → ℕ → Score → Text
  rag_key query document_id max_chunks min_score =
      generate_cache_key (codes "rag_response")
        (rag_args (tools.normalize query) document_id max_chunks min_score)

  abbrev pub embedding_key : Text → Text
  embedding_key query =
      generate_cache_key (codes "embedding") (embedding_args (tools.normalize query))

module _ {A : Type 0} (json : Json A) where
  -- `if cached: return json.loads(cached)`; an exception of the client or of `loads` is logged.
  abbrev pub loaded : Option (Option Text) → Option A
  loaded none = none
  loaded (some none) = none
  loaded (some (some [])) = none
  loaded (some (some (c ∷ text))) = json.loads (c ∷ text)

  module _ (R : Redis Text Text) where
    abbrev pub get_json : Text → ℕ → RedisService R → Option A
    get_json key now s = if s.is_available then loaded (R.read key now s.store) else none

    abbrev pub set_json : Text → A → ℕ → ℕ → RedisService R → Bool × RedisService R
    set_json key a ttl now s =
        if s.is_available
        then (let (done, store) = R.save key (json.dumps a) (ttl * second) now s.store in
            (done, record s { store = store }))
        else (false, s)

module _ {Score Answer Vector : Type 0} (tools : KeyTools Score) (answers : Json Answer)
    (vectors : Json Vector) (R : Redis Text Text) where
  unfoldable pub get_rag_response : Text → Option ℕ → ℕ → Score → ℕ → RedisService R → Option Answer
  get_rag_response query document_id max_chunks min_score now s =
      get_json answers R (rag_key tools query document_id max_chunks min_score) now s

  unfoldable pub set_rag_response :
      Text → Option ℕ → ℕ → Score → Answer → ℕ → ℕ → RedisService R → Bool × RedisService R
  set_rag_response query document_id max_chunks min_score response ttl now s =
      set_json answers R (rag_key tools query document_id max_chunks min_score) response ttl now s

  unfoldable pub get_query_embedding : Text → ℕ → RedisService R → Option Vector
  get_query_embedding query now s = get_json vectors R (embedding_key tools query) now s

  unfoldable pub set_query_embedding :
      Text → Vector → ℕ → ℕ → RedisService R → Bool × RedisService R
  set_query_embedding query embedding ttl now s =
      set_json vectors R (embedding_key tools query) embedding ttl now s

abbrev pub rag_prefix : Text
rag_prefix = codes "rag_response:"

-- The prefixes of `clear_all_cache`.
abbrev pub is_cached : Text → Bool
is_cached key =
    starts_with rag_prefix key
    || (starts_with (codes "embedding:") key || starts_with (codes "metrics:") key)

-- What the program relies on of SCAN and DELETE: the keys that hold something and match, and what
-- a deletion leaves; `none` and `false` are exceptions of the client.
pub record Scanner (R : Redis Text Text) : Type 0 where
  pub scan : (Text → Bool) → ℕ → R.Store → Option (List Text)
  pub delete : Text → R.Store → Bool × R.Store

pub record CacheStats : Type 0 where
  pub rag_responses_cached : ℕ
  pub embeddings_cached : ℕ
  pub response_ttl_seconds : ℕ
  pub embedding_ttl_seconds : ℕ

pub data Stats : Type 0 where
  disabled : Stats
  failed : Stats
  enabled : CacheStats → Stats

abbrev pub is_embedding : Text → Bool
is_embedding key =
    if starts_with rag_prefix key then false else starts_with (codes "embedding:") key

abbrev pub count_keys : (Text → Bool) → List Text → ℕ
count_keys test [] = 0
count_keys test (key ∷ keys) =
    let rest = count_keys test keys in if test key then suc rest else rest

abbrev pub stats_of : Option (List Text) → Stats
stats_of none = failed
stats_of (some keys) = enabled (record {
  rag_responses_cached = count_keys (starts_with rag_prefix) keys;
  embeddings_cached = count_keys is_embedding keys;
  response_ttl_seconds = 3600;
  embedding_ttl_seconds = 86400;
})

module _ (R : Redis Text Text) (S : Scanner R) where
  -- A deletion that raises is passed over.
  unfoldable pub delete_each : List Text → R.Store → ℕ × R.Store
  delete_each [] s = (0, s)
  delete_each (key ∷ keys) s =
      let (done, s') = S.delete key s in
      let (deleted, s'') = delete_each keys s' in (if done then suc deleted else deleted, s'')

  abbrev pub delete_scanned : Option (List Text) → RedisService R → ℕ × RedisService R
  delete_scanned none s = (0, s)
  delete_scanned (some keys) s =
      let (deleted, store) = delete_each keys s.store in (deleted, record s { store = store })

  unfoldable pub invalidate_document_cache : ℕ → ℕ → RedisService R → ℕ × RedisService R
  unfolding delete_each
  invalidate_document_cache document_id now s =
      if s.is_available
      then delete_scanned (S.scan (starts_with rag_prefix) now s.store) s
      else (0, s)

  -- A deletion that raises ends the loop, and the result is 0.
  unfoldable pub delete_cached : List Text → R.Store → Bool × ℕ × R.Store
  delete_cached [] s = (true, 0, s)
  delete_cached (key ∷ keys) s =
      let (done, s') = S.delete key s in
      let (finished, deleted, s'') = delete_cached keys s' in
      if is_cached key
      then (if done then (finished, suc deleted, s'') else (false, 0, s'))
      else delete_cached keys s

  abbrev pub clear_scanned : Option (List Text) → RedisService R → ℕ × RedisService R
  clear_scanned none s = (0, s)
  clear_scanned (some keys) s =
      let (finished, deleted, store) = delete_cached keys s.store in
      (if finished then deleted else 0, record s { store = store })

  unfoldable pub clear_all_cache : ℕ → RedisService R → ℕ × RedisService R
  unfolding delete_cached
  clear_all_cache now s =
      if s.is_available then clear_scanned (S.scan (λ key. true) now s.store) s else (0, s)

  unfoldable pub get_cache_stats : ℕ → RedisService R → Stats
  get_cache_stats now s =
      if s.is_available then stats_of (S.scan (λ key. true) now s.store) else disabled
