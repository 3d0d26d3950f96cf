-- ===== src/Auth/Sessions/Login.antt =====
-- What a login has checked, and what its tokens are good for.
use urban_octo_tribble.Base.{
  ℕ, ◌+◌, ◌*◌, ◌/◌, ◌<◌, ◌≡◌, refl, sym, ap, ◌∙◌, Bool, true, false, not, List, [], ◌∷◌, map, ◌==◌,
  if◌then◌else◌, Text, text_eq, text_eq_sound,
}
use urban_octo_tribble.Base.Exec.{Result, ok, Exec, raise_if, ◌>>◌}
use urban_octo_tribble.Redis.{Redis}
use urban_octo_tribble.Database.Found.{select-holds}
use urban_octo_tribble.Database.{Lookup, absent, one, several, Table, update_matching}
use urban_octo_tribble.Auth.{
  User, same_user, second, Jwt, PasswordHash, Settings, RedisService, is_token_blacklisted,
}
use urban_octo_tribble.Auth.Access.{
  Failure, credentials, inactive_user, has_scopes, get_current_user,
}
use urban_octo_tribble.Auth.Access.Guards.{is_true}
use urban_octo_tribble.Auth.Issue.{LoginResponse}
use urban_octo_tribble.Auth.Issue.Claimed.{Issued, issue_tokens-Issued, claims_grant}
use urban_octo_tribble.Auth.Sessions.{set_last_login, login_found, login_for_access_token}

module _ {E S A : Type 0} where
  raise_if-eq-ok :
      (b : Bool) (e : E) (m : Exec E S A) (s : S) {a : A} {s' : S}
      → (raise_if b e >> m) s ≡ (ok a, s')
      → (b ≡ false) × (m s ≡ (ok a, s'))
  raise_if-eq-ok true e m s h = cc (ap (λ (x : Result E A × S). x.0) h)
  raise_if-eq-ok false e m s h = (refl, h)

module _ (J : Jwt) (P : PasswordHash) (settings : Settings) (T : Table User same_user) where
  -- The user's row with the two times, and another row as it is.
  abbrev pub seen : ℕ → User → User → User
  seen now u q = if q.id == u.id then record q { last_login = now; updated_at = now } else q

  seen-map :
      (now : ℕ) (u : User) (rows : List User)
      → update_matching
          (λ q. q.id == u.id)
          (λ q. record q { last_login = now; updated_at = now })
          rows
        ≡ map (seen now u) rows
  seen-map now u [] = refl
  seen-map now u (q ∷ rows) = ap (λ (l : List User). seen now u q ∷ l) (seen-map now u rows)

  set_last_login-rows :
      (now : ℕ) (u : User) (users : T.Store)
      → T.rows (set_last_login J P settings T now u users) ≡ map (seen now u) (T.rows users)
  unfolding set_last_login
  set_last_login-rows now u users = T.update-rows _ _ users ∙ seen-map now u (T.rows users)

  -- What a login that returns has found and done.
  pub record Opened (username password : Text) (now : ℕ) (users : T.Store)
      (response : LoginResponse) (users' : T.Store) : Type 0 where
    pub u : User
    pub selected : T.select (λ q. text_eq q.username username) users ≡ one u
    pub verified : P.verify password u.hashed_password ≡ true
    pub active : u.is_active ≡ true
    pub issued : Issued J settings now u response
    pub updates : T.rows users' ≡ map (seen now u) (T.rows users)

  login_found-Opened :
      (username password : Text) (now : ℕ) (users : T.Store) (response : LoginResponse)
      (users' : T.Store) (found : Lookup User)
      → T.select (λ q. text_eq q.username username) users ≡ found
      → login_found J P settings T password now found users ≡ (ok response, users')
      → Opened username password now users response users'
  unfolding login_found
  login_found-Opened username password now users response users' absent e h =
      cc (ap (λ (x : Result Failure LoginResponse × T.Store). x.0) h)
  login_found-Opened username password now users response users' several e h =
      cc (ap (λ (x : Result Failure LoginResponse × T.Store). x.0) h)
  login_found-Opened username password now users response users' (one u) e h =
      let (verified, h1) =
        raise_if-eq-ok (not (P.verify password u.hashed_password)) credentials _ users h in
      let (active, h2) = raise_if-eq-ok (not u.is_active) inactive_user _ users h1 in
      let issued =
        issue_tokens-Issued J settings now u
          (ap (λ (x : Result Failure LoginResponse × T.Store). x.0) h2) in
      record {
        u = u;
        selected = e;
        verified = is_true _ verified;
        active = is_true _ active;
        issued = issued;
        updates =
            ap T.rows (sym (ap (λ (x : Result Failure LoginResponse × T.Store). x.1) h2))
            ∙ set_last_login-rows now u users;
      }

  -- A login that returns has found one user of that name, who is active and whose hash the password
  -- verifies against; the tokens carry that user's id, name, tier and scopes. In the rows of the
  -- users nothing changes but `last_login` and `updated_at` of that user, which are the time of the login.
  pub login-Opened :
      (username password : Text) (now : ℕ) (users : T.Store) (response : LoginResponse)
      (users' : T.Store)
      → login_for_access_token J P settings T username password now users ≡ (ok response, users')
      → Opened username password now users response users'
  unfolding login_for_access_token
  login-Opened username password now users response users' h =
      login_found-Opened username password now users response users'
        (T.select (λ q. text_eq q.username username) users) refl h

  Opened-username :
      {username password : Text} {now : ℕ} {users : T.Store} {response : LoginResponse}
      {users' : T.Store} (o : Opened username password now users response users')
      → o.u.username ≡ username
  Opened-username {username = username} {users = users} o =
      text_eq_sound _ _ (select-holds T (λ q. text_eq q.username username) users o.selected)

  module _ (R : Redis Text Text) where
    -- The access token of a login lets its user pass, at any later state of the users in which one
    -- user has that name and is active: until it expires, with the leeway of 10 seconds, unless it
    -- is on the blacklist, and for any scopes among those of the login's response.
    pub login_grants :
        (username password : Text) (now : ℕ) (users : T.Store) (response : LoginResponse)
        (users' : T.Store) (required : List Text) (t : ℕ) (redis : RedisService R) (later : T.Store)
        (v : User)
        → login_for_access_token J P settings T username password now users ≡ (ok response, users')
        → t < ((now + settings.access_token_expire_minutes * 60 * second) / second + 10) * second
        → is_token_blacklisted R response.body.access_token t redis ≡ false
        → has_scopes required response.body.scopes ≡ true
        → T.select (λ q. text_eq q.username username) later ≡ one v
        → v.is_active ≡ true
        → get_current_user J R T required response.body.access_token t redis later ≡ ok v
    login_grants username password now users response users' required t redis later v h live kept
          scoped selected active =
        let o = login-Opened username password now users response users' h in
        let i = o.issued in
        ap (λ token. get_current_user J R T required token t redis later) i.access
        ∙ claims_grant J R T _ required t redis later v live
            (ap (λ token. is_token_blacklisted R token t redis) (sym i.access) ∙ kept)
            (ap (has_scopes required) (sym i.body-scopes) ∙ scoped)
            (ap (λ name. T.select (λ q. text_eq q.username name) later) (Opened-username o)
              ∙ selected)
            active

    -- The refresh token of a login lets its user pass too, as an access token does, at any
    -- later state of the users in which one user has that name and is active: until the refresh
    -- token expires, with the leeway of 10 seconds, unless it is on the blacklist, and for any
    -- scopes among those of the login's response.
    pub login_refresh_grants :
        (username password : Text) (now : ℕ) (users : T.Store) (response : LoginResponse)
        (users' : T.Store) (required : List Text) (t : ℕ) (redis : RedisService R) (later : T.Store)
        (v : User)
        → login_for_access_token J P settings T username password now users ≡ (ok response, users')
        → t
          < ((now + settings.refresh_token_expire_days * 24 * 60 * 60 * second) / second + 10)
            * second
        → is_token_blacklisted R response.refresh_token t redis ≡ false
        → has_scopes required response.body.scopes ≡ true
        → T.select (λ q. text_eq q.username username) later ≡ one v
        → v.is_active ≡ true
        → get_current_user J R T required response.refresh_token t redis later ≡ ok v
    login_refresh_grants username password now users response users' required t redis later v h live
          kept scoped selected active =
        let o = login-Opened username password now users response users' h in
        let i = o.issued in
        ap (λ token. get_current_user J R T required token t redis later) i.refresh
        ∙ claims_grant J R T _ required t redis later v live
            (ap (λ token. is_token_blacklisted R token t redis) (sym i.refresh) ∙ kept)
            (ap (has_scopes required) (sym i.body-scopes) ∙ scoped)
            (ap (λ name. T.select (λ q. text_eq q.username name) later) (Opened-username o)
              ∙ selected)
            active
