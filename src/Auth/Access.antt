-- ===== src/Auth/Access.antt =====
-- Who may do what: the dependencies of app/dependencies.py that check tokens, roles and owners.

pub mod Guards
use urban_octo_tribble.Base.{
  ℕ, Bool, true, false, not, List, [], ◌∷◌, Option, none, some, Text, codes, text_eq, ◌==◌,
  if◌then◌else◌,
}
use urban_octo_tribble.Base.Exec.{Result, ok, err}
use urban_octo_tribble.Base.Results.{◌>>=◌, ◌>>◌, stop_if, some_or}
use urban_octo_tribble.Redis.{Redis}
use urban_octo_tribble.Database.{Lookup, absent, one, several, Table}
use urban_octo_tribble.Auth.{
  UserRole, admin, moderator, user, role_of, User, same_user, Payload, Jwt, decode_token,
  RedisService, is_token_blacklisted,
}

-- The exceptions of app/exceptions.py that the dependencies raise, and those of the libraries.
pub data Failure : Type 0 where
  credentials user_not_found inactive_user document_not_found not_authorized : Failure
  insufficient_scopes : List Text → List Text → Failure
  requires_role : Text → Failure
  multiple_results value_error : Failure

-- The columns of `Document` that the checks read.
pub record Document : Type 0 where
  pub id : ℕ
  pub owner_id : ℕ

abbrev pub same_document : Document → Document → Bool
same_document a b = a.id == b.id

abbrev pub has_scope : Text → List Text → Bool
has_scope scope [] = false
has_scope scope (s ∷ provided) = if text_eq scope s then true else has_scope scope provided

-- The loop over the required scopes.
abbrev pub has_scopes : List Text → List Text → Bool
has_scopes [] provided = true
has_scopes (scope ∷ required) provided =
    if has_scope scope provided then has_scopes required provided else false

-- `payload.get("scopes", [])`
abbrev pub token_scopes : Option (List Text) → List Text
token_scopes none = []
token_scopes (some scopes) = scopes

abbrev pub active_user : Lookup User → Result Failure User
active_user absent = err user_not_found
active_user (one u) = if u.is_active then ok u else err inactive_user
active_user several = err multiple_results

abbrev pub role : User → Result Failure UserRole
role u = some_or value_error (role_of u.role_name)

-- The string that a `UserRole` is.
abbrev pub role_text : UserRole → Text
role_text admin = codes "admin"
role_text moderator = codes "moderator"
role_text user = codes "user"

abbrev pub is_admin : UserRole → Bool
is_admin admin = true
is_admin moderator = false
is_admin user = false

module _ (J : Jwt) (R : Redis Text Text) (T : Table User same_user) where
  -- The payload and the user name of a token that is not on the blacklist.
  unfoldable pub subject : Text → ℕ → RedisService R → Result Failure (Payload × Text)
  subject token now redis = do
    stop_if (is_token_blacklisted R token now redis) credentials
    payload ← some_or credentials (decode_token J now token)
    username ← some_or credentials payload.sub
    ok (payload, username)

  unfoldable pub get_current_user :
      List Text → Text → ℕ → RedisService R → T.Store → Result Failure User
  unfolding subject
  get_current_user required token now redis users = do
    found ← subject token now redis
    let provided = token_scopes found.0.scopes
    stop_if (not (has_scopes required provided)) (insufficient_scopes required provided)
    active_user (T.select (λ u. text_eq u.username found.1) users)

  unfoldable pub get_current_active_user : Text → ℕ → RedisService R → T.Store → Result Failure User
  unfolding subject
  get_current_active_user token now redis users = do
    found ← subject token now redis
    active_user (T.select (λ u. text_eq u.username found.1) users)

  pub get_admin_user : Text → ℕ → RedisService R → T.Store → Result Failure User
  unfolding get_current_user
  get_admin_user token now redis users = do
    current_user ← get_current_user (codes "admin" ∷ []) token now redis users
    r ← role current_user
    stop_if (not (is_admin r)) (requires_role (codes "admin"))
    ok current_user

  -- `require_role(required_role)`
  pub role_checker : Text → Text → ℕ → RedisService R → T.Store → Result Failure User
  unfolding get_current_active_user
  role_checker required_role token now redis users = do
    current_user ← get_current_active_user token now redis users
    r ← role current_user
    stop_if (not (text_eq (role_text r) required_role)) (requires_role required_role)
    ok current_user

  module _ (D : Table Document same_document) where
    unfoldable pub owned : User → Document → Result Failure Document
    owned current_user document = do
      r ← role current_user
      (if is_admin r
          then ok document
          else (if document.owner_id == current_user.id then ok document else err not_authorized))

    unfoldable pub found_document : Lookup Document → Result Failure Document
    found_document absent = err document_not_found
    found_document (one d) = ok d
    found_document several = err multiple_results

    unfoldable pub verify_document_ownership :
        ℕ → Text → ℕ → RedisService R → T.Store → D.Store → Result Failure Document
    unfolding get_current_user owned found_document
    verify_document_ownership document_id token now redis users documents = do
      current_user ← get_current_user (codes "read" ∷ []) token now redis users
      document ← found_document (D.select (λ d. d.id == document_id) documents)
      owned current_user document
