-- ===== src/RateLimit.antt =====
-- The rate limiter, app/middleware/rate_limit.py, with its part of
-- app/services/optimization/redis_service.py.
--
-- Times are whole microseconds, and tokens are counted in parts of 1/60000000, so that the refill
-- rate of `tier_limit / 60` tokens a second is `tier_limit` parts a microsecond. The rounding of
-- Python's floats is not modelled.
pub mod Bucket
pub mod Middleware
use urban_octo_tribble.Base.{
  ℕ, suc, ◌+◌, ◌-◌, ◌*◌, ◌/◌, Bool, true, false, ◌||◌, List, [], ◌∷◌, Option, none, some, Text,
  codes, text_eq, length, leb, if◌then◌else◌,
}
use urban_octo_tribble.Base.Int.{ℤ, pos, negsuc, ◌+ℤ◌, ◌-ℤ◌, leb_ℤ, ltb_ℤ}
use urban_octo_tribble.Redis.{Redis}

-- Parts of a token, and microseconds of a second.
abbrev pub token : ℕ
token = 60000000

abbrev pub second : ℕ
second = 1000000

-- The hash under `rate_limit:{user_id}`.
pub record BucketState : Type 0 where
  pub tokens : ℤ
  pub last_refill : ℕ

-- `TokenBucket`: the capacity in tokens, the rate in parts a microsecond.
pub record TokenBucket : Type 0 where
  pub capacity : ℕ
  pub refill_rate : ℕ

pub record Info : Type 0 where
  pub remaining : ℤ
  pub retry_after : Option ℕ

abbrev pub scale : ℤ → ℕ → ℤ
scale (pos a) n = pos (a * n)
scale (negsuc a) n = pos 0 -ℤ pos (suc a * n)

abbrev pub min_ℤ : ℤ → ℤ → ℤ
min_ℤ a b = if ltb_ℤ b a then b else a

-- `int(x)` of a number of tokens: towards zero.
abbrev pub whole_tokens : ℤ → ℤ
whole_tokens (pos a) = pos (a / token)
whole_tokens (negsuc a) = pos 0 -ℤ pos (suc a / token)

pub refilled : TokenBucket → BucketState → ℕ → ℤ
refilled b state now =
    min_ℤ (pos (b.capacity * token))
      (state.tokens +ℤ scale (pos now -ℤ pos state.last_refill) b.refill_rate)

module _ (R : Redis ℕ BucketState) where
  -- The service: the server, and whether the client is connected.
  pub record Service : Type 0 where
    pub is_available : Bool
    pub store : R.Store

  -- `none` too where the client raises: the exception is logged.
  pub get_rate_limit_state : ℕ → ℕ → Service → Option BucketState
  get_rate_limit_state user_id now s =
      if s.is_available
      then (elim (R.read user_id now s.store) [ none ↦ none | some state ↦ state ])
      else none

  pub set_rate_limit_state : ℕ → ℤ → ℕ → ℕ → ℕ → Service → Bool × Service
  set_rate_limit_state user_id tokens last_refill ttl now s =
      if s.is_available
      then (let (done, store) =
            R.save user_id (record { tokens = tokens; last_refill = last_refill }) (ttl * second)
              now s.store in
          (done, record s { store = store }))
      else (false, s)

  -- The rest of `consume` once the state has been read.
  consume_from : TokenBucket → ℕ → ℕ → ℕ → Option BucketState → Service → (Bool × Info) × Service
  unfolding set_rate_limit_state
  consume_from b user_id tokens now none s = (
    (true, record { remaining = pos b.capacity -ℤ pos tokens; retry_after = none }),
    (set_rate_limit_state user_id (pos (b.capacity * token) -ℤ pos (tokens * token)) now 60 now
        s).1,
  )
  consume_from b user_id tokens now (some state) s =
      let current_tokens = refilled b state now in
      let new_tokens = current_tokens -ℤ pos (tokens * token) in
      if leb_ℤ (pos (tokens * token)) current_tokens
      then (
        (true, record { remaining = whole_tokens new_tokens; retry_after = none }),
        (set_rate_limit_state user_id new_tokens now 60 now s).1,
      )
      else ((false, record { remaining = pos 0; retry_after = some 60 }), s)

  pub consume : TokenBucket → ℕ → ℕ → ℕ → Service → (Bool × Info) × Service
  unfolding consume_from get_rate_limit_state
  consume b user_id tokens now s =
      if s.is_available
      then consume_from b user_id tokens now (get_rate_limit_state user_id now s) s
      else ((true, record { remaining = pos b.capacity; retry_after = none }), s)
