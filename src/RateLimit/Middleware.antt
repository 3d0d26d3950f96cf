-- ===== src/RateLimit/Middleware.antt =====
-- The middleware of app/middleware/rate_limit.py. The application behind it is a parameter: what it
-- answers and makes of the world, or that it raises.
pub mod Unlimited
use urban_octo_tribble.Base.{
  ℕ, zero, suc, Bool, true, false, List, [], ◌∷◌, Option, none, some, Text, codes, text_eq, length,
  ◌==◌, if◌then◌else◌,
}
use urban_octo_tribble.Base.Int.{ℤ}
use urban_octo_tribble.Redis.{Redis}
use urban_octo_tribble.Auth.{Jwt, Payload, decode_token}
use urban_octo_tribble.RateLimit.{BucketState, TokenBucket, Info, Service, consume}

-- What is left of a text after a prefix.
abbrev pub after_prefix : Text → Text → Option Text
after_prefix [] t = some t
after_prefix (c ∷ p) [] = none
after_prefix (c ∷ p) (d ∷ t) = if c == d then after_prefix p t else none

-- `t.replace(p, "")`: every occurrence is taken out, from the left. A unit of fuel for each
-- character is enough.
abbrev pub remove_all : Text → ℕ → Text → Text
remove_all p zero t = []
remove_all p (suc fuel) [] = []
remove_all p (suc fuel) (c ∷ t) =
    let skipped = remove_all p fuel in
    elim (after_prefix p (c ∷ t)) [ none ↦ c ∷ skipped t | some rest ↦ skipped rest ]

unfoldable pub bearer_token : Text → Text
bearer_token header = remove_all (codes "Bearer ") (length header) header

pub record Request : Type 0 where
  pub path : Text
  pub authorization : Option Text

-- The two responses that the middleware makes: with the header X-RateLimit-Remaining, and 429 with
-- the limit and the seconds to wait.
pub record Responses (Response : Type 0) : Type 0 where
  pub with_remaining : ℤ → Response → Response
  pub too_many_requests : ℕ → ℕ → Response

-- `info.get("retry_after", 60)`
abbrev pub or_minute : Option ℕ → ℕ
or_minute none = 60
or_minute (some s) = s

abbrev pub both : Option ℕ → Option ℕ → Option (ℕ × ℕ)
both none l = none
both (some id) none = none
both (some id) (some tier_limit) = some (id, tier_limit)

-- The user id and the limit that a payload carries.
abbrev pub limits_of : Option Payload → Option (ℕ × ℕ)
limits_of none = none
limits_of (some p) = both p.id p.tier_limit

module _ (J : Jwt) (R : Redis ℕ BucketState) {Response : Type 0} (responses : Responses Response)
    {World : Type 0} (call_next : Request → World → Option Response × World) where
  pub record State : Type 0 where
    pub redis : Service R
    pub world : World

  abbrev pub Answer : Type 0
  Answer = Option Response × State

  unfoldable pub forward : Request → State → Answer
  forward request s = let (r, world) = call_next request s.world in (r, record s { world = world })

  -- An application that raises is called once more, by the handler of the exception.
  abbrev pub again : Request → Answer → Answer
  again request (none, s) = forward request s
  again request (some r, s) = (some r, s)

  abbrev pub counted : Request → ℤ → Answer → Answer
  counted request remaining (none, s) = forward request s
  counted request remaining (some r, s) = (some (responses.with_remaining remaining r), s)

  abbrev pub decided : Request → ℕ → Bool × Info → State → Answer
  decided request tier_limit (true, info) s = counted request info.remaining (forward request s)
  decided request tier_limit (false, info) s =
      (some (responses.too_many_requests tier_limit (or_minute info.retry_after)), s)

  unfoldable pub limited : Request → ℕ → Option (ℕ × ℕ) → State → Answer
  unfolding forward
  limited request now none s = again request (forward request s)
  limited request now (some (user_id, tier_limit)) s =
      let bucket : TokenBucket = record { capacity = tier_limit; refill_rate = tier_limit } in
      let (answer, redis) = consume R bucket user_id 1 now s.redis in
      decided request tier_limit answer (record s { redis = redis })

  abbrev pub with_header : Request → ℕ → Option Text → State → Answer
  with_header request now none s = forward request s
  with_header request now (some []) s = forward request s
  with_header request now (some (c ∷ t)) s =
      limited request now (limits_of (decode_token J now (bearer_token (c ∷ t)))) s

  unfoldable pub rate_limit_middleware : Request → ℕ → State → Answer
  unfolding forward limited bearer_token
  rate_limit_middleware request now s =
      if text_eq request.path (codes "/health")
      then forward request s
      else with_header request now request.authorization s
