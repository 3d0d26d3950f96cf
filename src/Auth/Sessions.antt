-- ===== src/Auth/Sessions.antt =====
-- Login and logout, of app/routes/auth.py. A handler reads the clock once here, and the
-- events that a login publishes are left out: they change nothing that is modelled.
pub mod Login
pub mod Logout
use urban_octo_tribble.Base.{
  ℕ, ◌+◌, ◌-◌, ◌*◌, ◌/◌, Bool, true, false, ◌||◌, not, List, [], ◌∷◌, Option, none, some, Text,
  codes, text_eq, ◌==◌, ltb, if◌then◌else◌,
}
use urban_octo_tribble.Base.Exec.{
  Result, ok, err, Exec, pure, raise, lift, gets, modify, raise_if, continue, ◌>>=◌, ◌>>◌,
}
use urban_octo_tribble.Auth.Issue.{Token, LoginResponse, issue_tokens}
use urban_octo_tribble.Redis.{Redis}
use urban_octo_tribble.Database.{Lookup, absent, one, several, Table}
use urban_octo_tribble.Auth.{
  UserRole, UserTier, role_of, tier_of, scopes, limit, User, same_user, second, Payload, Jwt,
  PasswordHash, Settings, create_access_token, create_refresh_token, decode_token, get_token_expiry,
  RedisService, blacklist_token, is_token_blacklisted,
}
use urban_octo_tribble.Auth.Access.{
  Failure, credentials, inactive_user, multiple_results, value_error,
}

pub data LogoutResponse : Type 0 where
  -- "Logout skipped: Cache unavailable", the cookie kept
  skipped : LogoutResponse
  -- "Successfully logged out", the cookie deleted
  logged_out : LogoutResponse

module _ (J : Jwt) (P : PasswordHash) (settings : Settings) (T : Table User same_user) where
  -- `user.last_login = utc_now()`, committed before the tokens are made. The column `updated_at` has
  -- `onupdate=func.now()`; the clock of the database is taken to be the program's.
  unfoldable pub set_last_login : ℕ → User → T.Store → T.Store
  set_last_login now u users =
      T.update (λ q. q.id == u.id) (λ q. record q { last_login = now; updated_at = now }) users

  unfoldable pub login_found : Text → ℕ → Lookup User → Exec Failure T.Store LoginResponse
  unfolding set_last_login
  login_found password now absent = raise credentials
  login_found password now several = raise multiple_results
  login_found password now (one u) = do
    raise_if (not (P.verify password u.hashed_password)) credentials
    raise_if (not u.is_active) inactive_user
    modify (set_last_login now u)
    lift (issue_tokens J settings now u)

  unfoldable pub login_for_access_token : Text → Text → ℕ → Exec Failure T.Store LoginResponse
  unfolding login_found
  login_for_access_token username password now = do
    found ← gets (T.select (λ u. text_eq u.username username))
    login_found password now found

-- Whole seconds until a token expires, 0 if it has.
abbrev pub seconds_left : ℕ → ℕ → ℕ
seconds_left expiry now = (expiry * second - now) / second

module _ (J : Jwt) (R : Redis Text Text) where
  abbrev pub blacklist_for : Text → ℕ → RedisService R → Option ℕ → RedisService R
  blacklist_for token now redis none = redis
  blacklist_for token now redis (some expiry) =
      let diff = seconds_left expiry now in
      if ltb 0 diff then (blacklist_token R token diff now redis).1 else redis

  -- The blacklisting of one token, which `logout` writes out twice.
  unfoldable pub blacklist_until_expiry : Text → ℕ → RedisService R → RedisService R
  unfolding blacklist_token
  blacklist_until_expiry token now redis =
      blacklist_for token now redis (get_token_expiry J now token)

  abbrev blacklist_cookie : Option Text → ℕ → RedisService R → RedisService R
  blacklist_cookie none now redis = redis
  blacklist_cookie (some refresh_token) now redis = blacklist_until_expiry refresh_token now redis

  unfoldable pub logout :
      Text → Option Text → ℕ → Option (RedisService R) → LogoutResponse × Option (RedisService R)
  unfolding blacklist_until_expiry
  logout token refresh_token now none = (skipped, none)
  logout token refresh_token now (some redis) = (
    logged_out,
    some (blacklist_cookie refresh_token now (blacklist_until_expiry token now redis)),
  )
