-- ===== src/Auth/Issue/Refreshed.antt =====
-- What a refresh has checked.
use urban_octo_tribble.Base.{
  ◌⊎◌, inl, inr, Bool-cases, refl, ℕ, ◌≡◌, sym, ap, ◌∙◌, true, false, not, [], ◌∷◌, Option, none,
  some, Text, codes, text_eq, text_eq_sound,
}
use urban_octo_tribble.Base.Exec.{ok}
use urban_octo_tribble.Base.Results.{
  some_or, >>=-eq-ok, stop_if-eq-ok, some_or-eq-ok, if-eq-ok, ok-injective,
}
use urban_octo_tribble.Redis.{Redis}
use urban_octo_tribble.Database.{Lookup, absent, one, several, Table}
use urban_octo_tribble.Auth.{
  User, UserTier, UserRole, tier_of, role_of, limit, scopes, create_access_token, blacklist_key,
  is_token_blacklisted, same_user, Payload, Jwt, Settings, decode_token, RedisService,
}
use urban_octo_tribble.Auth.Access.{credentials, inactive_user, value_error}
use urban_octo_tribble.Auth.Access.Guards.{is_true}
use urban_octo_tribble.Auth.Issue.{
  Token, issue_token, nonempty, is_kind, refreshed_user, blacklisted_in, refresh_access_token,
}

nonempty-eq-some : (o : Option Text) {t : Text} → nonempty o ≡ some t → o ≡ some t
nonempty-eq-some none h = cc
nonempty-eq-some (some []) h = cc
nonempty-eq-some (some (c ∷ s)) h = h

is_kind-eq-some : (kind : Text) (o : Option Text) → is_kind kind o ≡ true → o ≡ some kind
is_kind-eq-some kind none h = cc
is_kind-eq-some kind (some k) h = ap (λ (t : Text). some t) (text_eq_sound k kind h)

refreshed_user-eq-ok :
    (found : Lookup User) {u : User}
    → refreshed_user found ≡ ok u
    → (found ≡ one u) × (u.is_active ≡ true)
refreshed_user-eq-ok absent h = cc
refreshed_user-eq-ok several h = cc
refreshed_user-eq-ok (one v) h =
    let (active, same) = if-eq-ok v.is_active v inactive_user h in
    (ap (λ x. one x) same, ap (λ (x : User). x.is_active) (sym same) ∙ active)

module _ (J : Jwt) (settings : Settings) (R : Redis Text Text) (T : Table User same_user) where
  -- There is no server, or it is not connected, or its client raises, or it holds nothing under the
  -- token's key.
  abbrev pub Unlisted : Text → ℕ → Option (RedisService R) → Type 0
  Unlisted token now none = Unit
  Unlisted token now (some redis) =
      (redis.is_available ≡ false)
      ⊎ (R.read (blacklist_key token) now redis.store ≡ none)
      ⊎ (R.look (blacklist_key token) now redis.store ≡ none)

  read-Unlisted :
      (token : Text) (now : ℕ) (redis : RedisService R) (o : Option (Option Text))
      → R.read (blacklist_key token) now redis.store ≡ o
      → elim o [ none ↦ false | some held ↦ elim held [ none ↦ false | some _ ↦ true ] ] ≡ false
      → (R.read (blacklist_key token) now redis.store ≡ none)
        ⊎ (R.look (blacklist_key token) now redis.store ≡ none)
  read-Unlisted token now redis none e h = inl e
  read-Unlisted token now redis (some none) e h =
      inr (sym (R.read-look (blacklist_key token) now redis.store none e))
  read-Unlisted token now redis (some (some t)) e h = cc h

  blacklisted_in-Unlisted :
      (token : Text) (now : ℕ) (redis : Option (RedisService R))
      → blacklisted_in J settings R T token now redis ≡ false
      → Unlisted token now redis
  unfolding is_token_blacklisted
  blacklisted_in-Unlisted token now none h = tt
  blacklisted_in-Unlisted token now (some redis) h = elim (Bool-cases redis.is_available) [
    | inl up ↦ inr (read-Unlisted token now redis _ refl (rw up at h))
    | inr down ↦ inl down
  ]

  -- What a refresh that returns a token has found.
  pub record Refreshed (cookie : Option Text) (now : ℕ) (redis : Option (RedisService R))
      (users : T.Store) (token : Token) : Type 0 where
    pub refresh_token : Text
    pub payload : Payload
    pub username : Text
    pub u : User
    pub has_cookie : cookie ≡ some refresh_token
    pub kept : Unlisted refresh_token now redis
    pub decoded : decode_token J now refresh_token ≡ some payload
    pub kind : payload.kind ≡ some (codes "refresh")
    pub named : payload.sub ≡ some username
    pub selected : T.select (λ q. text_eq q.username username) users ≡ one u
    pub active : u.is_active ≡ true
    pub tier : UserTier
    pub role : UserRole
    pub has_tier : tier_of u.tier_name ≡ some tier
    pub has_role : role_of u.role_name ≡ some role
    pub issued : token ≡ record {
      access_token = create_access_token J settings now u.id u.username (limit tier) (scopes role);
      token_type = codes "bearer";
      scopes = scopes role;
    }

  -- A refresh that returns a token was asked with a refresh token, not an access token, in the
  -- cookie, which decodes, and which the blacklist does not hold, unless Redis is missing, is not
  -- connected or raises; the new token carries the id, the name, the limit and the scopes of the
  -- one user of its name, who is active, by the tier and the role of now.
  pub refresh-Refreshed :
      (cookie : Option Text) (now : ℕ) (redis : Option (RedisService R)) (users : T.Store)
      (token : Token)
      → refresh_access_token J settings R T cookie now redis users ≡ ok token
      → Refreshed cookie now redis users token
  unfolding refresh_access_token issue_token
  refresh-Refreshed cookie now redis users token h =
      let (refresh_token, has_cookie, h1) = >>=-eq-ok (some_or credentials (nonempty cookie)) _ h in
      let (kept, h2) =
        stop_if-eq-ok (blacklisted_in J settings R T refresh_token now redis) credentials _ h1 in
      let (payload, decoded, h3) =
        >>=-eq-ok (some_or credentials (decode_token J now refresh_token)) _ h2 in
      let (kind, h4) =
        stop_if-eq-ok (not (is_kind (codes "refresh") payload.kind)) credentials _ h3 in
      let (username, named, h5) = >>=-eq-ok (some_or credentials (nonempty payload.sub)) _ h4 in
      let (u, found, issued) =
        >>=-eq-ok (refreshed_user (T.select (λ q. text_eq q.username username) users)) _ h5 in
      let (tier, known, h6) = >>=-eq-ok (some_or value_error (tier_of u.tier_name)) _ issued in
      let (role, named_role, h7) = >>=-eq-ok (some_or value_error (role_of u.role_name)) _ h6 in
      let (selected, active) = refreshed_user-eq-ok _ found in
      record {
        refresh_token = refresh_token;
        payload = payload;
        username = username;
        u = u;
        has_cookie = nonempty-eq-some cookie (some_or-eq-ok credentials _ has_cookie);
        kept = blacklisted_in-Unlisted refresh_token now redis kept;
        decoded = some_or-eq-ok credentials _ decoded;
        kind = is_kind-eq-some (codes "refresh") payload.kind (is_true _ kind);
        named = nonempty-eq-some payload.sub (some_or-eq-ok credentials _ named);
        selected = selected;
        active = active;
        tier = tier;
        role = role;
        has_tier = some_or-eq-ok value_error _ known;
        has_role = some_or-eq-ok value_error _ named_role;
        issued = sym (ok-injective h7);
      }
