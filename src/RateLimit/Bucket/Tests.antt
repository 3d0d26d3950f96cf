-- ===== src/RateLimit/Bucket/Tests.antt =====
-- Two requests a minute against a server that is a list.
use urban_octo_tribble.Base.{
  ℕ, ◌≤◌, ◌+◌, ◌*◌, ◌-◌, ◌≡◌, refl, true, false, List, [], ◌∷◌, none, ◌==◌, ==_iff, arith,
}
use urban_octo_tribble.Base.Int.{◌+ℤ◌, ◌-ℤ◌}
use urban_octo_tribble.Redis.{Redis, IsReliable, list_redis, list_redis-IsReliable}
use urban_octo_tribble.RateLimit.{
  token, BucketState, TokenBucket, Service, consume, get_rate_limit_state, set_rate_limit_state,
  consume_from, refilled,
}
use urban_octo_tribble.RateLimit.Bucket.{Follows, take_token}
use urban_octo_tribble.RateLimit.Bucket.Window.{
  count, consume_all, consume-take, consume_all-bound, consume_after_minute,
}

abbrev server : Redis ℕ BucketState
server = list_redis ◌==◌ ==_iff

abbrev reliable : IsReliable server
reliable = list_redis-IsReliable ◌==◌ ==_iff

abbrev bucket : TokenBucket
bucket = record { capacity = 2; refill_rate = 2 }

abbrev empty : Service server
empty = record { is_available = true; store = [] }

abbrev times : List ℕ
times = 1000 ∷ 2000 ∷ 3000 ∷ 30003000 ∷ 90003000 ∷ []

empty-Follows : Follows server reliable bucket 7 none 1000 empty
unfolding Follows
empty-Follows = (refl, λ t _. refl)

consume_all_runs : consume_all server bucket 7 times empty ≡ true ∷ true ∷ false ∷ true ∷ true ∷ []
unfolding consume get_rate_limit_state set_rate_limit_state consume_from refilled ◌+ℤ◌ ◌-ℤ◌
consume_all_runs = refl

consume-take_example :
    ((consume server bucket 7 1 1000 empty).0.0 ≡ (take_token bucket none 1000).0)
    × Follows server reliable bucket 7
        (take_token bucket none 1000).1
        1000
        (consume server bucket 7 1 1000 empty).1
consume-take_example =
    consume-take server reliable bucket 7 none 1000 empty empty-Follows tt (omega arith) refl

consume_all-bound_example :
    count (consume_all server bucket 7 times empty) * token ≤ 2 * token + (90003000 - 1000) * 2
consume_all-bound_example =
    consume_all-bound server reliable bucket 7 none 1000 times empty empty-Follows tt
      (omega arith, (omega arith, (omega arith, (omega arith, (omega arith, tt))))) (omega arith)
      refl

consume_after_minute_example :
    (consume server bucket 7 1 60001000 (consume server bucket 7 1 1000 empty).1).0.0 ≡ true
consume_after_minute_example =
    consume_after_minute server reliable bucket 7 none 1000 60001000 empty empty-Follows tt
      (omega arith) refl (omega arith)
