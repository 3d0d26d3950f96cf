-- ===== src/Idempotency.antt =====
-- The idempotency middleware, app/middleware/idempotency.py. The application behind it is a
-- parameter: what it answers to a request and makes of the world, or that it raises; so are the
-- hash, which bodies are UTF-8, and what `dict` makes of headers. A response is what it is built
-- with: the headers that its constructor adds are not modelled. That headers survive `json.dumps` and `json.loads` is taken for
-- granted, and a request reads the clock once.
pub mod Retry
use urban_octo_tribble.Base.{
  ℕ, ◌*◌, Bool, true, false, ◌&&◌, List, Option, none, some, Text, codes, text_eq, leb, ltb, ◌++◌,
  if◌then◌else◌,
}
use urban_octo_tribble.Redis.{Redis}

pub record Request : Type 0 where
  pub method : Text
  pub idempotency_key : Option Text
  pub path : Text
  pub body : Text

pub record Response : Type 0 where
  pub status_code : ℕ
  pub body : Text
  pub headers : List (Text × Text)
  pub media_type : Option Text

-- The hash under `idempotency:{key}`.
pub record Cached : Type 0 where
  pub body_hash : Text
  pub response_body : Text
  pub status_code : ℕ
  pub headers : List (Text × Text)
  pub media_type : Text

-- The application: `none` is an exception, of which the world keeps what was done before it.
abbrev pub Application : Type 0 → Type 0
Application World = Request → World → Option Response × World

-- What the response is built with.
pub record Tools : Type 0 where
  pub sha256 : Text → Text
  pub is_utf8 : Text → Bool
  -- dict(response.headers): a name that is repeated has one value there
  pub dict_of : List (Text × Text) → List (Text × Text)

abbrev pub second : ℕ
second = 1000000

-- "IdempotencyKeyReused"
abbrev pub key_reused : Response
key_reused = record {
  status_code = 422;
  body =
      codes
        "{\"success\": false, \"error\": \"IdempotencyKeyReused\", \"message\": \"Key reused with different body\"}";
  headers = List.[];
  media_type = some (codes "application/json");
}

abbrev pub or_json : Option Text → Text
or_json none = codes "application/json"
or_json (some t) = t

abbrev pub replayed : Cached → Response
replayed c = record {
  status_code = c.status_code;
  body = c.response_body;
  headers = c.headers;
  media_type = some c.media_type;
}

abbrev pub cached_of : Tools → Request → Response → Cached
cached_of tools request r = record {
  body_hash = tools.sha256 request.body;
  response_body = r.body;
  status_code = r.status_code;
  headers = tools.dict_of r.headers;
  media_type = or_json r.media_type;
}

-- The response that is made anew once the body has been read.
abbrev pub rebuilt : Tools → Response → Response
rebuilt tools r = record r { headers = tools.dict_of r.headers }

abbrev pub is_success : Response → Bool
is_success r = leb 200 r.status_code && ltb r.status_code 300

abbrev pub redis_key : Text → Text
redis_key key = codes "idempotency:" ++ key

-- A header that is missing or empty counts as none.
abbrev pub key_of : Option Text → Option Text
key_of none = none
key_of (some List.[]) = none
key_of (some (List.◌∷◌ c t)) = some (List.◌∷◌ c t)

module _ (R : Redis Text Cached) (tools : Tools) {World : Type 0}
    (call_next : Application World) where
  -- `services.redis` with its client, and the world of the application.
  pub record State : Type 0 where
    pub is_available : Bool
    pub store : R.Store
    pub world : World

  abbrev pub Answer : Type 0
  Answer = Option Response × State

  unfoldable pub pass : Request → State → Answer
  pass request s = let (r, world) = call_next request s.world in (r, record s { world = world })

  -- After the application has answered: an exception of the server, or a body that does not decode,
  -- ends in the handler's second call of the application.
  unfoldable pub keep : ℕ → Text → Request → ℕ → Response → State → Answer
  unfolding pass
  keep ttl_seconds key request now r s =
      let (done, store) =
        R.save (redis_key key) (cached_of tools request r) (ttl_seconds * second) now s.store in
      if is_success r
      then (if tools.is_utf8 r.body
          then (if done
              then (some (rebuilt tools r), record s { store = store })
              else pass request (record s { store = store }))
          else pass request s)
      else (some r, s)

  abbrev pub after_call : ℕ → Text → Request → ℕ → Answer → Answer
  after_call ttl_seconds key request now (none, s) = pass request s
  after_call ttl_seconds key request now (some r, s) = keep ttl_seconds key request now r s

  -- What the read of the key has brought; `none` is its exception.
  unfoldable pub answer_from : ℕ → Text → Request → ℕ → Option (Option Cached) → State → Answer
  unfolding pass keep
  answer_from ttl_seconds key request now none s = pass request s
  answer_from ttl_seconds key request now (some none) s =
      after_call ttl_seconds key request now (pass request s)
  answer_from ttl_seconds key request now (some (some c)) s =
      if text_eq c.body_hash (tools.sha256 request.body)
      then (some (replayed c), s)
      else (some key_reused, s)

  abbrev pub with_key : ℕ → Request → ℕ → Option Text → State → Answer
  with_key ttl_seconds request now none s = pass request s
  with_key ttl_seconds request now (some key) s =
      if s.is_available
      then answer_from ttl_seconds key request now (R.read (redis_key key) now s.store) s
      else pass request s

  unfoldable pub dispatch : ℕ → Request → ℕ → State → Answer
  unfolding pass answer_from
  dispatch ttl_seconds request now s =
      if text_eq request.method (codes "POST")
      then with_key ttl_seconds request now (key_of request.idempotency_key) s
      else pass request s
