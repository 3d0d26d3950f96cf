-- ===== src/Auth/Tests.antt =====
-- Login and logout with users in a list, a server that is a list, and claims without a signature.
use urban_octo_tribble.Base.{
  ℕ, ◌+◌, ◌*◌, ◌≡◌, ◌↔◌, ◌⊎◌, refl, true, false, List, [], ◌∷◌, none, some, Text, codes, text_eq,
  text_eq_refl, text_eq_sound, ◌==◌, ◌++◌, arith,
}
use urban_octo_tribble.Base.Exec.{ok, err}
use urban_octo_tribble.Redis.{Redis, IsReliable, list_redis, list_redis-IsReliable}
use urban_octo_tribble.Database.{one, Table, list_table}
use urban_octo_tribble.Auth.{
  UserRole, admin, user, Payload, role_of, tier_of, scopes, User, same_user, second, payload_of,
  PasswordHash, Settings, create_access_token, create_refresh_token, RedisService,
  is_token_blacklisted, blacklist_token, get_token_expiry,
}
use urban_octo_tribble.Auth.Access.{
  credentials, Document, same_document, has_scopes, token_scopes, subject, get_current_user,
  verify_document_ownership, owned, found_document,
}
use urban_octo_tribble.Auth.Access.Guards.{
  SpeaksFor, get_current_user_iff, verify_document_ownership_iff,
}
use urban_octo_tribble.Auth.Issue.Refreshed.{Refreshed, refresh-Refreshed}
use urban_octo_tribble.Auth.Issue.{
  Token, refresh_access_token, LoginResponse, issue_token, issue_tokens,
}
use urban_octo_tribble.Auth.Sessions.{
  logged_out, set_last_login, login_found, login_for_access_token, blacklist_until_expiry, logout,
}
use urban_octo_tribble.Auth.Sessions.Login.{
  Opened, login-Opened, login_grants, login_refresh_grants,
}
use urban_octo_tribble.Auth.Sessions.Logout.{logout_blocks, logout_lapses}
use urban_octo_tribble.Auth.PlainJwt.{plain_jwt, decode}

text_eq_iff : (s t : Text) → (text_eq s t ≡ true) ↔ (s ≡ t)
text_eq_iff s t = (text_eq_sound s t, λ e. rw e (text_eq_refl t))

abbrev server : Redis Text Text
server = list_redis text_eq text_eq_iff

abbrev reliable : IsReliable server
reliable = list_redis-IsReliable text_eq text_eq_iff

abbrev users_table : Table User same_user
users_table = list_table same_user

abbrev documents_table : Table Document same_document
documents_table = list_table same_document

abbrev hashing : PasswordHash
hashing = record { hash = λ p. 36 ∷ p; verify = λ p h. text_eq (36 ∷ p) h }

abbrev settings : Settings
settings = record { access_token_expire_minutes = 30; refresh_token_expire_days = 7 }

abbrev ann : User
ann = record {
  id = 5;
  email = codes "a@b.c";
  username = codes "ann";
  hashed_password = codes "$pw";
  is_active = true;
  role_name = codes "user";
  tier_name = codes "free";
  last_login = 0;
  updated_at = 0;
}

abbrev ann_seen : User
ann_seen = record ann { last_login = 3000000; updated_at = 3000000 }

abbrev access : Text
access = create_access_token plain_jwt settings 3000000 5 (codes "ann") 20 (scopes user)

abbrev refresh : Text
refresh = create_refresh_token plain_jwt settings 3000000 5 (codes "ann") (scopes user)

abbrev response : LoginResponse
response = record {
  body = record { access_token = access; token_type = codes "bearer"; scopes = scopes user };
  refresh_token = refresh;
  max_age = 604800;
}

abbrev empty : RedisService server
empty = record { is_available = true; store = [] }

abbrev after_logout : RedisService server
after_logout = record {
  is_available = true;
  store = (codes "blacklist:" ++ access, codes "1", 4000000 + 1799 * second) ∷ [];
}

login_runs :
    login_for_access_token plain_jwt hashing settings users_table
      (codes "ann")
      (codes "pw")
      3000000
      (ann ∷ [])
    ≡ (ok response, ann_seen ∷ [])
unfolding login_for_access_token login_found set_last_login issue_tokens issue_token role_of tier_of
    text_eq
login_runs = refl

login_wrong_password :
    login_for_access_token plain_jwt hashing settings users_table
      (codes "ann")
      (codes "pv")
      3000000
      (ann ∷ [])
    ≡ (err credentials, ann ∷ [])
unfolding login_for_access_token login_found set_last_login issue_tokens issue_token role_of tier_of
    text_eq
login_wrong_password = refl

logout_runs :
    logout plain_jwt server access none 4000000 (some empty) ≡ (logged_out, some after_logout)
unfolding logout blacklist_until_expiry get_token_expiry blacklist_token decode
logout_runs = refl

abbrev read_scope : List Text
read_scope = codes "read" ∷ []

passes :
    SpeaksFor plain_jwt server users_table access 4000000 empty
      (ann ∷ [])
      (payload_of (record {
        sub = codes "ann";
        id = 5;
        tier_limit = some 20;
        scopes = scopes user;
        expire = 1803000000;
        kind = codes "access";
      }))
      ann
unfolding is_token_blacklisted decode text_eq
passes = record {
  username = codes "ann";
  kept = refl;
  decoded = refl;
  named = refl;
  selected = refl;
  active = refl;
}

get_current_user_iff_example :
    (get_current_user plain_jwt server users_table read_scope access 4000000 empty (ann ∷ [])
      ≡ ok ann)
    ↔ ((payload : Payload) × SpeaksFor plain_jwt server users_table access 4000000 empty
          (ann ∷ [])
          payload
          ann
        × (has_scopes read_scope (token_scopes payload.scopes) ≡ true))
get_current_user_iff_example =
    get_current_user_iff plain_jwt server users_table access 4000000 empty (ann ∷ []) read_scope ann

abbrev report : Document
report = record { id = 9; owner_id = 5 }

verify_runs :
    verify_document_ownership plain_jwt server users_table documents_table 9 access 4000000 empty
      (ann ∷ [])
      (report ∷ [])
    ≡ ok report
unfolding verify_document_ownership get_current_user subject owned found_document
    is_token_blacklisted decode text_eq role_of
verify_runs = refl

verify_document_ownership_iff_example :
    (verify_document_ownership plain_jwt server users_table documents_table 9 access 4000000 empty
        (ann ∷ [])
        (report ∷ [])
      ≡ ok report)
    ↔ ((u : User) × (r : UserRole) × (get_current_user plain_jwt server users_table
            (codes "read" ∷ [])
            access
            4000000
            empty
            (ann ∷ [])
          ≡ ok u)
        × (documents_table.select (λ d. d.id == 9) (report ∷ []) ≡ one report)
        × (role_of u.role_name ≡ some r)
        × ((r ≡ admin) ⊎ (report.owner_id ≡ u.id)))
verify_document_ownership_iff_example =
    verify_document_ownership_iff plain_jwt server users_table access 4000000 empty (ann ∷ [])
      documents_table (report ∷ []) 9 report

login-Opened_example :
    Opened plain_jwt hashing settings users_table
      (codes "ann")
      (codes "pw")
      3000000
      (ann ∷ [])
      response
      (ann_seen ∷ [])
login-Opened_example =
    login-Opened plain_jwt hashing settings users_table (codes "ann") (codes "pw") 3000000
      (ann ∷ []) response (ann_seen ∷ []) login_runs

abbrev NotListed : Text → ℕ → Type 0
NotListed token t = is_token_blacklisted server token t empty ≡ false

nothing_listed : (token : Text) (t : ℕ) → NotListed token t
unfolding is_token_blacklisted
nothing_listed token t = refl

ann_found :
    users_table.select (λ q. text_eq q.username (codes "ann")) (ann_seen ∷ []) ≡ one ann_seen
unfolding text_eq
ann_found = refl

user_reads : has_scopes read_scope (scopes user) ≡ true
unfolding text_eq
user_reads = refl

login_grants_example :
    get_current_user plain_jwt server users_table read_scope access 1812999999 empty (ann_seen ∷ [])
    ≡ ok ann_seen
login_grants_example =
    login_grants plain_jwt hashing settings users_table server (codes "ann") (codes "pw") 3000000
      (ann ∷ []) response (ann_seen ∷ []) read_scope 1812999999 empty (ann_seen ∷ []) ann_seen
      login_runs (omega arith) (nothing_listed access 1812999999) user_reads ann_found refl

login_refresh_grants_example :
    get_current_user plain_jwt server users_table read_scope refresh 500000000000 empty
      (ann_seen ∷ [])
    ≡ ok ann_seen
login_refresh_grants_example =
    login_refresh_grants plain_jwt hashing settings users_table server (codes "ann") (codes "pw")
      3000000 (ann ∷ []) response (ann_seen ∷ []) read_scope 500000000000 empty (ann_seen ∷ [])
      ann_seen login_runs (omega arith) (nothing_listed refresh 500000000000) user_reads ann_found
      refl

access_expiry : get_token_expiry plain_jwt 4000000 access ≡ some 1803
unfolding get_token_expiry decode
access_expiry = refl

logout_blocks_example :
    get_current_user plain_jwt server users_table read_scope access 1802999999 after_logout
      (ann_seen ∷ [])
    ≡ err credentials
logout_blocks_example =
    logout_blocks server reliable plain_jwt users_table access none 4000000 1803 empty after_logout
      read_scope 1802999999 (ann_seen ∷ []) refl access_expiry logout_runs (omega arith)
      (omega arith)

access_decodes :
    plain_jwt.decode 10 4000000 access
    ≡ some (
        payload_of (record {
          sub = codes "ann";
          id = 5;
          tier_limit = some 20;
          scopes = scopes user;
          expire = 1803000000;
          kind = codes "access";
        }))
unfolding decode
access_decodes = refl

logout_lapses_example :
    get_current_user plain_jwt server users_table read_scope access 1810000000 after_logout
      (ann_seen ∷ [])
    ≡ ok ann_seen
logout_lapses_example =
    logout_lapses server reliable plain_jwt users_table access none 4000000 1803 empty after_logout
      read_scope 1810000000 (ann_seen ∷ [])
      (payload_of (record {
        sub = codes "ann";
        id = 5;
        tier_limit = some 20;
        scopes = scopes user;
        expire = 1803000000;
        kind = codes "access";
      }))
      (codes "ann") ann_seen refl access_decodes refl (omega arith) logout_runs (omega arith)
      (omega arith) refl user_reads ann_found refl

abbrev renewed : Token
renewed = record {
  access_token = create_access_token plain_jwt settings 9000000 5 (codes "ann") 20 (scopes user);
  token_type = codes "bearer";
  scopes = scopes user;
}

refresh_runs :
    refresh_access_token plain_jwt settings server users_table
      (some refresh)
      9000000
      (some empty)
      (ann ∷ [])
    ≡ ok renewed
unfolding refresh_access_token issue_token is_token_blacklisted decode text_eq role_of tier_of
refresh_runs = refl

refresh_with_access :
    refresh_access_token plain_jwt settings server users_table
      (some access)
      9000000
      (some empty)
      (ann ∷ [])
    ≡ err credentials
unfolding refresh_access_token issue_token is_token_blacklisted decode text_eq role_of tier_of
refresh_with_access = refl

refresh-Refreshed_example :
    Refreshed plain_jwt settings server users_table
      (some refresh)
      9000000
      (some empty)
      (ann ∷ [])
      renewed
refresh-Refreshed_example =
    refresh-Refreshed plain_jwt settings server users_table (some refresh) 9000000 (some empty)
      (ann ∷ []) renewed refresh_runs
