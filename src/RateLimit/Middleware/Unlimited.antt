-- ===== src/RateLimit/Middleware/Unlimited.antt =====
-- Requests that the rate limit does not count.
mod Tests
use urban_octo_tribble.Base.{
  ℕ, ◌+◌, ◌*◌, ◌/◌, ◌<◌, ◌≡◌, refl, sym, ap, ◌∙◌, Bool, true, false, List, [], ◌∷◌, Option, none,
  some, Text, codes, text_eq, ◌⊎◌, inl, inr, Bool-cases, if◌then◌else◌,
}
use urban_octo_tribble.Redis.{Redis}
use urban_octo_tribble.Auth.{second, Jwt, Settings, Claims, decode_token, create_refresh_token}
use urban_octo_tribble.RateLimit.{BucketState}
use urban_octo_tribble.RateLimit.Middleware.{
  Request, Responses, State, limits_of, bearer_token, again, forward, limited, with_header,
  rate_limit_middleware,
}

module _ (J : Jwt) (R : Redis ℕ BucketState) {Response : Type 0} (responses : Responses Response)
    {World : Type 0} (call_next : Request → World → Option Response × World) where
  -- An application that raises is called a second time.
  abbrev pub handed_on : Request → Option Response × World → Option Response × World
  handed_on request (some r, world) = (some r, world)
  handed_on request (none, world) = call_next request world

  again_lem :
      (request : Request) (s : State J R responses call_next) (a : Option Response × World)
      → again J R responses call_next request (a.0, record s { world = a.1 })
        ≡ ((handed_on request a).0, record s { world = (handed_on request a).1 })
  unfolding forward
  again_lem request s (some r, world) = refl
  again_lem request s (none, world) = refl

  -- A request whose authorization header brings a refresh token in place of an access token is
  -- never limited, while the token lives, and whatever its path but /health: it is handed on, a
  -- second time if the application raises, the answer is returned as it is, and no bucket is
  -- read or written.
  pub refresh_token_unlimited :
      (settings : Settings) (made user_id : ℕ) (username : Text) (scopes : List Text)
      (request : Request) (c : ℕ) (t : Text) (now : ℕ) (s : State J R responses call_next)
      → text_eq request.path (codes "/health") ≡ false
      → request.authorization ≡ some (c ∷ t)
      → bearer_token (c ∷ t) ≡ create_refresh_token J settings made user_id username scopes
      → now
        < ((made + settings.refresh_token_expire_days * 24 * 60 * 60 * second) / second + 10)
          * second
      → let (r, world) = handed_on request (call_next request s.world) in
        rate_limit_middleware J R responses call_next request now s
        ≡ (r, record s { world = world })
  unfolding rate_limit_middleware limited forward
  refresh_token_unlimited settings made user_id username scopes request c t now s path header token
        live =
      let claims : Claims = record {
        sub = username;
        id = user_id;
        tier_limit = none;
        scopes = scopes;
        expire = made + settings.refresh_token_expire_days * 24 * 60 * 60 * second;
        kind = codes "refresh";
      } in
      let decoded = ap (decode_token J now) token ∙ J.decode-encode 10 now claims live in
      rw path (
        ap (λ h. with_header J R responses call_next request now h s) header
        ∙ ap (λ p. limited J R responses call_next request now (limits_of p) s) decoded
        ∙ again_lem request s (call_next request s.world))
