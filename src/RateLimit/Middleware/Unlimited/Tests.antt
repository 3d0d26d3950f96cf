-- ===== src/RateLimit/Middleware/Unlimited/Tests.antt =====
-- A refresh token at the rate limit.
use urban_octo_tribble.Base.{
  text_eq, ℕ, ◌+◌, ◌≡◌, refl, true, [], ◌∷◌, ◌++◌, Option, some, Text, codes, ◌==◌, ==_iff, arith,
}
use urban_octo_tribble.Redis.{Redis, list_redis}
use urban_octo_tribble.Auth.{Settings, create_refresh_token}
use urban_octo_tribble.Auth.PlainJwt.{plain_jwt}
use urban_octo_tribble.RateLimit.{BucketState}
use urban_octo_tribble.RateLimit.Middleware.{
  Request, Responses, State, bearer_token, rate_limit_middleware,
}
use urban_octo_tribble.RateLimit.Middleware.Unlimited.{refresh_token_unlimited}

abbrev server : Redis ℕ BucketState
server = list_redis ◌==◌ ==_iff

abbrev statuses : Responses ℕ
statuses = record { with_remaining = λ k r. r; too_many_requests = λ l w. 429 }

abbrev counting : Request → ℕ → Option ℕ × ℕ
counting request n = (some 200, n + 1)

abbrev settings : Settings
settings = record { access_token_expire_minutes = 30; refresh_token_expire_days = 7 }

abbrev refresh : Text
refresh = create_refresh_token plain_jwt settings 3000000 5 (codes "ann") (codes "read" ∷ [])

abbrev asking : Request
asking = record {
  path = codes "/api/v1/documents/";
  authorization = some (codes "Bearer " ++ refresh);
}

abbrev start : State plain_jwt server statuses counting
start = record { redis = record { is_available = true; store = [] }; world = 0 }

bearer_token_runs : bearer_token (codes "Bearer " ++ refresh) ≡ refresh
unfolding bearer_token
bearer_token_runs = refl

refresh_token_unlimited_example :
    rate_limit_middleware plain_jwt server statuses counting asking 4000000 start
    ≡ (some 200, record start { world = 1 })
unfolding text_eq
refresh_token_unlimited_example =
    refresh_token_unlimited plain_jwt server statuses counting settings 3000000 5 (codes "ann")
      (codes "read" ∷ []) asking 66 (codes "earer " ++ refresh) 4000000 start refl refl
      bearer_token_runs (omega arith)
