-- ===== src/Auth.antt =====
-- Users and tokens: app/core/constants.py, app/models/user.py, app/core/security.py, and the token
-- blacklist of app/services/optimization/redis_service.py. Times are in microseconds.
pub mod Access
pub mod Issue
pub mod PlainJwt
mod Tests
pub mod Sessions
use urban_octo_tribble.Base.{
  ℕ, ◌+◌, ◌*◌, ◌/◌, ◌<◌, ◌≤◌, ◌≡◌, Bool, true, false, ◌||◌, List, [], ◌∷◌, ◌++◌, Option, none, some,
  Text, codes, text_eq, ◌==◌, if◌then◌else◌,
}
use urban_octo_tribble.Redis.{Redis}

pub data UserRole : Type 0 where
  admin moderator user : UserRole

pub data UserTier : Type 0 where
  free paid enterprise : UserTier

abbrev pub base_scopes : List Text
base_scopes = codes "read" ∷ codes "write" ∷ []

abbrev pub scopes : UserRole → List Text
scopes admin = base_scopes ++ codes "admin" ∷ []
scopes moderator = base_scopes ++ codes "moderate" ∷ []
scopes user = base_scopes

abbrev pub limit : UserTier → ℕ
limit free = 20
limit paid = 100
limit enterprise = 1000

-- `UserRole(name)`; `none` is its ValueError.
pub role_of : Text → Option UserRole
role_of name =
    if text_eq name (codes "admin")
    then some admin
    else (if text_eq name (codes "moderator")
        then some moderator
        else (if text_eq name (codes "user") then some user else none))

pub tier_of : Text → Option UserTier
tier_of name =
    if text_eq name (codes "free")
    then some free
    else (if text_eq name (codes "paid")
        then some paid
        else (if text_eq name (codes "enterprise") then some enterprise else none))

pub record User : Type 0 where
  pub id : ℕ
  pub email : Text
  pub username : Text
  pub hashed_password : Text
  pub is_active : Bool
  pub role_name : Text
  pub tier_name : Text
  pub last_login : ℕ
  pub updated_at : ℕ

-- The primary key, the email and the username are unique.
abbrev pub same_user : User → User → Bool
same_user a b = a.id == b.id || text_eq a.email b.email || text_eq a.username b.username

-- The dictionary that `jwt.encode` signs; a refresh token has no `tier_limit`.
pub record Claims : Type 0 where
  pub sub : Text
  pub id : ℕ
  pub tier_limit : Option ℕ
  pub scopes : List Text
  pub expire : ℕ
  pub kind : Text

-- The dictionary that `jwt.decode` returns, of which any key can be missing; `exp` is in seconds.
pub record Payload : Type 0 where
  pub sub : Option Text
  pub id : Option ℕ
  pub tier_limit : Option ℕ
  pub scopes : Option (List Text)
  pub exp : Option ℕ
  pub kind : Option Text

abbrev pub second : ℕ
second = 1000000

abbrev pub payload_of : Claims → Payload
payload_of c = record {
  sub = some c.sub;
  id = some c.id;
  tier_limit = c.tier_limit;
  scopes = some c.scopes;
  exp = some (c.expire / second);
  kind = some c.kind;
}

-- PyJWT with the program's key and algorithm: what the program relies on. `decode` takes the leeway
-- in seconds and the time; `none` is any exception of it.
pub record Jwt : Type 0 where
  pub encode : Claims → Text
  pub decode : ℕ → ℕ → Text → Option Payload
  pub decode-encode :
      (leeway now : ℕ) (c : Claims)
      → now < (c.expire / second + leeway) * second
      → decode leeway now (encode c) ≡ some (payload_of c)
  pub decode_expires :
      (leeway now : ℕ) (token : Text) (p : Payload) (e : ℕ)
      → decode leeway now token ≡ some p
      → p.exp ≡ some e
      → now < (e + leeway) * second
  pub decode_later :
      (leeway now t : ℕ) (token : Text) (p : Payload) (e : ℕ)
      → decode leeway now token ≡ some p
      → p.exp ≡ some e
      → now ≤ t
      → t < (e + leeway) * second
      → decode leeway t token ≡ some p

-- pwdlib's hash
pub record PasswordHash : Type 0 where
  pub hash : Text → Text
  pub verify : Text → Text → Bool

pub record Settings : Type 0 where
  pub access_token_expire_minutes : ℕ
  pub refresh_token_expire_days : ℕ

-- `TokenManager`
module _ (J : Jwt) (settings : Settings) where
  abbrev pub create_access_token : ℕ → ℕ → Text → ℕ → List Text → Text
  create_access_token now user_id username tier_limit scopes = J.encode (record {
    sub = username;
    id = user_id;
    tier_limit = some tier_limit;
    scopes = scopes;
    expire = now + settings.access_token_expire_minutes * 60 * second;
    kind = codes "access";
  })

  abbrev pub create_refresh_token : ℕ → ℕ → Text → List Text → Text
  create_refresh_token now user_id username scopes = J.encode (record {
    sub = username;
    id = user_id;
    tier_limit = none;
    scopes = scopes;
    expire = now + settings.refresh_token_expire_days * 24 * 60 * 60 * second;
    kind = codes "refresh";
  })

-- An `exp` of 0 is taken for none.
abbrev pub nonzero : Option ℕ → Option ℕ
nonzero none = none
nonzero (some e) = if e == 0 then none else some e

abbrev pub expiry_of : Option Payload → Option ℕ
expiry_of none = none
expiry_of (some p) = nonzero p.exp

module _ (J : Jwt) where
  abbrev pub decode_token : ℕ → Text → Option Payload
  decode_token now token = J.decode 10 now token

  -- In seconds.
  pub get_token_expiry : ℕ → Text → Option ℕ
  get_token_expiry now token = expiry_of (decode_token now token)

abbrev pub blacklist_key : Text → Text
blacklist_key token = codes "blacklist:" ++ token

-- The blacklist of `RedisService`.
module _ (R : Redis Text Text) where
  pub record RedisService : Type 0 where
    pub is_available : Bool
    pub store : R.Store

  pub blacklist_token : Text → ℕ → ℕ → RedisService → Bool × RedisService
  blacklist_token token expires_in now s =
      if s.is_available
      then (let (done, store) =
            R.save (blacklist_key token) (codes "1") (expires_in * second) now s.store in
          (done, record s { store = store }))
      else (false, s)

  -- False too where the client raises.
  pub is_token_blacklisted : Text → ℕ → RedisService → Bool
  is_token_blacklisted token now s =
      if s.is_available
      then (elim (R.read (blacklist_key token) now s.store) [
        | none ↦ false
        | some held ↦ elim held [ none ↦ false | some _ ↦ true ]
      ])
      else false
