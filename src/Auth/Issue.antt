-- ===== src/Auth/Issue.antt =====
-- The tokens that a login and a refresh give out, and the refresh, of app/routes/auth.py.

pub mod Claimed
pub mod Refreshed
use urban_octo_tribble.Base.{
  ℕ, ◌*◌, Bool, true, false, not, List, [], ◌∷◌, Option, none, some, Text, codes, text_eq,
  if◌then◌else◌,
}
use urban_octo_tribble.Base.Exec.{Result, ok, err}
use urban_octo_tribble.Base.Results.{◌>>=◌, ◌>>◌, stop_if, some_or}
use urban_octo_tribble.Redis.{Redis}
use urban_octo_tribble.Database.{Lookup, absent, one, several, Table}
use urban_octo_tribble.Auth.{
  UserRole, UserTier, role_of, tier_of, scopes, limit, User, same_user, Payload, Jwt, Settings,
  create_access_token, create_refresh_token, decode_token, RedisService, is_token_blacklisted,
}
use urban_octo_tribble.Auth.Access.{
  Failure, credentials, inactive_user, multiple_results, value_error,
}

pub record Token : Type 0 where
  pub access_token : Text
  pub token_type : Text
  pub scopes : List Text

-- A response, with what it does to the cookie `refresh_token`: a value and its age in seconds.
pub record LoginResponse : Type 0 where
  pub body : Token
  pub refresh_token : Text
  pub max_age : ℕ

module _ (J : Jwt) (settings : Settings) where
  -- `Token(access_token=..., token_type="bearer", scopes=...)`; a tier or a role of no known name
  -- raises.
  unfoldable pub issue_token : ℕ → User → Result Failure Token
  issue_token now u = do
    tier ← some_or value_error (tier_of u.tier_name)
    role ← some_or value_error (role_of u.role_name)
    ok (record {
      access_token = create_access_token J settings now u.id u.username (limit tier) (scopes role);
      token_type = codes "bearer";
      scopes = scopes role;
    })

  unfoldable pub issue_tokens : ℕ → User → Result Failure LoginResponse
  unfolding issue_token
  issue_tokens now u = do
    token ← issue_token now u
    ok (record {
      body = token;
      refresh_token = create_refresh_token J settings now u.id u.username token.scopes;
      max_age = settings.refresh_token_expire_days * 24 * 60 * 60;
    })

-- An empty text counts as none.
abbrev pub nonempty : Option Text → Option Text
nonempty none = none
nonempty (some []) = none
nonempty (some (c ∷ t)) = some (c ∷ t)

abbrev pub is_kind : Text → Option Text → Bool
is_kind kind none = false
is_kind kind (some k) = text_eq k kind

-- `not user or not user.is_active`
abbrev pub refreshed_user : Lookup User → Result Failure User
refreshed_user absent = err inactive_user
refreshed_user (one u) = if u.is_active then ok u else err inactive_user
refreshed_user several = err multiple_results

module _ (J : Jwt) (settings : Settings) (R : Redis Text Text) (T : Table User same_user) where
  -- `redis and await redis.is_token_blacklisted(refresh_token)`
  abbrev pub blacklisted_in : Text → ℕ → Option (RedisService R) → Bool
  blacklisted_in token now none = false
  blacklisted_in token now (some redis) = is_token_blacklisted R token now redis

  unfoldable pub refresh_access_token :
      Option Text → ℕ → Option (RedisService R) → T.Store → Result Failure Token
  unfolding issue_token
  refresh_access_token cookie now redis users = do
    refresh_token ← some_or credentials (nonempty cookie)
    stop_if (blacklisted_in refresh_token now redis) credentials
    payload ← some_or credentials (decode_token J now refresh_token)
    stop_if (not (is_kind (codes "refresh") payload.kind)) credentials
    username ← some_or credentials (nonempty payload.sub)
    u ← refreshed_user (T.select (λ q. text_eq q.username username) users)
    issue_token J settings now u
