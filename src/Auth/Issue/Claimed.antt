-- ===== src/Auth/Issue/Claimed.antt =====
-- What the tokens that are given out claim, and that `get_current_user` takes them.
use urban_octo_tribble.Base.{
  ℕ, ◌+◌, ◌*◌, ◌/◌, ◌<◌, ◌≡◌, refl, sym, ap, ◌∙◌, true, false, List, some, Text, text_eq,
}
use urban_octo_tribble.Base.Exec.{ok}
use urban_octo_tribble.Base.Results.{some_or, >>=-eq-ok, some_or-eq-ok, ok-injective}
use urban_octo_tribble.Redis.{Redis}
use urban_octo_tribble.Database.{one, Table}
use urban_octo_tribble.Auth.{
  UserRole, UserTier, role_of, tier_of, scopes, limit, User, same_user, second, Claims, payload_of,
  Jwt, Settings, create_access_token, create_refresh_token, RedisService, is_token_blacklisted,
}
use urban_octo_tribble.Auth.Access.{value_error, has_scopes, get_current_user}
use urban_octo_tribble.Auth.Access.Guards.{get_current_user_iff}
use urban_octo_tribble.Auth.Issue.{Token, LoginResponse, issue_token, issue_tokens}

module _ (J : Jwt) (settings : Settings) (now : ℕ) (u : User) where
  -- The tokens carry the user's id, name, tier and scopes.
  pub record Issued (response : LoginResponse) : Type 0 where
    pub tier : UserTier
    pub role : UserRole
    pub has_tier : tier_of u.tier_name ≡ some tier
    pub has_role : role_of u.role_name ≡ some role
    pub access :
        response.body.access_token
        ≡ create_access_token J settings now u.id u.username (limit tier) (scopes role)
    pub refresh :
        response.refresh_token ≡ create_refresh_token J settings now u.id u.username (scopes role)
    pub body-scopes : response.body.scopes ≡ scopes role

  pub issue_tokens-Issued :
      {response : LoginResponse} → issue_tokens J settings now u ≡ ok response → Issued response
  unfolding issue_tokens issue_token
  issue_tokens-Issued {response = response} h =
      let (token, h0, h1) = >>=-eq-ok (issue_token J settings now u) _ h in
      let (tier, known, h2) = >>=-eq-ok (some_or value_error (tier_of u.tier_name)) _ h0 in
      let (role, named, h3) = >>=-eq-ok (some_or value_error (role_of u.role_name)) _ h2 in
      let body = ok-injective h3 in
      let whole = ok-injective h1 in
      record {
        tier = tier;
        role = role;
        has_tier = some_or-eq-ok value_error _ known;
        has_role = some_or-eq-ok value_error _ named;
        access =
            ap (λ (r : LoginResponse). r.body.access_token) (sym whole)
            ∙ ap (λ (t : Token). t.access_token) (sym body);
        refresh =
            ap (λ (r : LoginResponse). r.refresh_token) (sym whole)
            ∙ ap (λ (t : Token). create_refresh_token J settings now u.id u.username t.scopes)
                (sym body);
        body-scopes =
            ap (λ (r : LoginResponse). r.body.scopes) (sym whole)
            ∙ ap (λ (t : Token). t.scopes) (sym body);
      }

module _ (J : Jwt) (R : Redis Text Text) (T : Table User same_user) where
  -- A signed token is taken, whatever its kind is.
  pub claims_grant :
      (c : Claims) (required : List Text) (t : ℕ) (redis : RedisService R) (users : T.Store)
      (u : User)
      → t < (c.expire / second + 10) * second
      → is_token_blacklisted R (J.encode c) t redis ≡ false
      → has_scopes required c.scopes ≡ true
      → T.select (λ q. text_eq q.username c.sub) users ≡ one u
      → u.is_active ≡ true
      → get_current_user J R T required (J.encode c) t redis users ≡ ok u
  claims_grant c required t redis users u live kept scoped selected active =
      (get_current_user_iff J R T (J.encode c) t redis users required u).1 (
        payload_of c,
        record {
          username = c.sub;
          kept = kept;
          decoded = J.decode-encode 10 t c live;
          named = refl;
          selected = selected;
          active = active;
        },
        scoped,
      )
