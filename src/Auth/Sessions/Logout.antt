-- ===== src/Auth/Sessions/Logout.antt =====
-- What a logout does to the tokens it is given.
use urban_octo_tribble.Base.{
  ℕ, ◌+◌, ◌*◌, ◌<◌, ◌≤◌, ◌≡◌, ◌≢◌, refl, sym, ap, ◌∙◌, true, false, List, [], ◌∷◌, ◌++◌, drop,
  Option, none, some, Text, codes, text_eq, text_eq_sound, text_eq_refl, ◌==◌, ltb, ◌⊎◌, inl, inr,
  Bool-cases, Option-cases, some-injective, if◌then◌else◌, arith,
}
use mathlib.Core.Path.{subst, subst⁻¹}
use urban_octo_tribble.Base.Exec.{err, ok}
use urban_octo_tribble.Redis.{Redis, IsReliable}
use urban_octo_tribble.Database.{one, Table}
use urban_octo_tribble.Auth.{
  User, same_user, second, Payload, Jwt, decode_token, get_token_expiry, RedisService,
  blacklist_key, blacklist_token, is_token_blacklisted,
}
use urban_octo_tribble.Auth.Access.{credentials, has_scopes, token_scopes, get_current_user}
use urban_octo_tribble.Auth.Access.Guards.{get_current_user_iff, blacklisted_blocks}
use urban_octo_tribble.Auth.Sessions.{
  LogoutResponse, logged_out, seconds_left, blacklist_until_expiry, logout,
}

append-injective : (s t u : Text) → s ++ t ≡ s ++ u → t ≡ u
append-injective [] t u h = h
append-injective (c ∷ s) t u h = append-injective s t u (ap (drop 1) h)

differ : (s t : Text) → text_eq s t ≡ false → s ≢ t
differ s t h e = cc (h, sym (ap (text_eq s) (sym e)), text_eq_refl s)

module _ (R : Redis Text Text) (reliable : IsReliable R) where
  -- What a key holds decides whether the token is blacklisted.
  blacklisted_look :
      (token : Text) (t : ℕ) (s : RedisService R) (o : Option Text)
      → s.is_available ≡ true
      → R.look (blacklist_key token) t s.store ≡ o
      → is_token_blacklisted R token t s ≡ (elim o [ none ↦ false | some _ ↦ true ])
  unfolding is_token_blacklisted
  blacklisted_look token t s none up e =
      rw (up, reliable.reads (blacklist_key token) t s.store, e) refl
  blacklisted_look token t s (some v) up e =
      rw (up, reliable.reads (blacklist_key token) t s.store, e) refl

  -- The server is connected, and holds the token's key until a time and not from then on.
  Held : Text → ℕ → ℕ → RedisService R → Type 0
  Held token now until s =
      (s.is_available ≡ true)
      × ((t : ℕ)
          → now ≤ t
          → R.look (blacklist_key token) t s.store
            ≡ (if ltb t until then some (codes "1") else none))

  up_of :
      (token : Text) (now until : ℕ) (s : RedisService R)
      → Held token now until s
      → s.is_available ≡ true
  unfolding Held
  up_of token now until s h = h.0

  Held-blacklisted :
      (token : Text) (now until t : ℕ) (s : RedisService R)
      → Held token now until s
      → now ≤ t
      → is_token_blacklisted R token t s ≡ ltb t until
  unfolding Held
  Held-blacklisted token now until t s (up, held) h = elim (Bool-cases (ltb t until)) [
    | inl e ↦ blacklisted_look token t s (some (codes "1")) up (held t h ∙ rw e refl) ∙ sym e
    | inr e ↦ blacklisted_look token t s none up (held t h ∙ rw e refl) ∙ sym e
  ]

  blacklist_token-Held :
      (token : Text) (expires_in now : ℕ) (s : RedisService R)
      → s.is_available ≡ true
      → Held token now (now + expires_in * second) (blacklist_token R token expires_in now s).1
  unfolding Held blacklist_token
  blacklist_token-Held token expires_in now s up = rw up (
    refl,
    λ t h.
        R.look-save_self (blacklist_key token) (codes "1") (expires_in * second) now t s.store
          (reliable.saves _ _ _ now s.store) h,
  )

  -- Another token's entry is left alone.
  blacklist_token-Held_ne :
      (token other : Text) (expires_in now until : ℕ) (s : RedisService R)
      → token ≢ other
      → Held token now until s
      → Held token now until (blacklist_token R other expires_in now s).1
  unfolding Held blacklist_token
  blacklist_token-Held_ne token other expires_in now until s h (up, held) = rw up (
    refl,
    λ t i.
        R.look-save_ne (blacklist_key other) (blacklist_key token) (codes "1") (expires_in * second)
          now t s.store (reliable.saves _ _ _ now s.store)
          (λ e. h (append-injective (codes "blacklist:") token other e))
        ∙ held t i,
  )

  module _ (J : Jwt) where
    blacklist_until_expiry_left :
        (token : Text) (now e : ℕ) (s : RedisService R)
        → get_token_expiry J now token ≡ some e
        → 1 ≤ seconds_left e now
        → blacklist_until_expiry J R token now s
          ≡ (blacklist_token R token (seconds_left e now) now s).1
    unfolding blacklist_until_expiry
    blacklist_until_expiry_left token now e s expiry left =
        let test : ltb 0 (seconds_left e now) ≡ true = ground arith in rw (expiry, test) refl

    blacklist_until_expiry-Held :
        (token : Text) (now e : ℕ) (s : RedisService R)
        → s.is_available ≡ true
        → get_token_expiry J now token ≡ some e
        → 1 ≤ seconds_left e now
        → Held token now
            (now + seconds_left e now * second)
            (blacklist_until_expiry J R token now s)
    blacklist_until_expiry-Held token now e s up expiry left =
        subst⁻¹ (Held token now (now + seconds_left e now * second))
          (blacklist_until_expiry_left token now e s expiry left)
          (blacklist_token-Held token (seconds_left e now) now s up)

    -- A token that has expired, or does not decode, changes nothing.
    blacklist_until_expiry_cases :
        (token : Text) (now : ℕ) (s : RedisService R)
        → (blacklist_until_expiry J R token now s ≡ s)
          ⊎ ((e : ℕ) × (blacklist_until_expiry J R token now s
                ≡ (blacklist_token R token (seconds_left e now) now s).1))
    unfolding blacklist_until_expiry
    blacklist_until_expiry_cases token now s = elim (Option-cases (get_token_expiry J now token)) [
      | inl none_left ↦ inl (rw none_left refl)
      | inr (e, expiry) ↦ elim (Bool-cases (ltb 0 (seconds_left e now))) [
        | inl left ↦ inr (e, rw (expiry, left) refl)
        | inr gone ↦ inl (rw (expiry, gone) refl)
      ]
    ]

    blacklist_until_expiry-Held_ne :
        (token other : Text) (now until : ℕ) (s : RedisService R)
        → token ≢ other
        → Held token now until s
        → Held token now until (blacklist_until_expiry J R other now s)
    blacklist_until_expiry-Held_ne token other now until s h held =
        elim (blacklist_until_expiry_cases other now s) [
          | inl e ↦ subst⁻¹ (Held token now until) e held
          | inr (e, held_too) ↦
              subst⁻¹ (Held token now until) held_too
                (blacklist_token-Held_ne token other (seconds_left e now) now until s h held)
        ]

    logout-Held :
        (token : Text) (cookie : Option Text) (now e : ℕ) (s s' : RedisService R)
        → s.is_available ≡ true
        → get_token_expiry J now token ≡ some e
        → 1 ≤ seconds_left e now
        → logout J R token cookie now (some s) ≡ (logged_out, some s')
        → Held token now (now + seconds_left e now * second) s'
    unfolding logout
    logout-Held token none now e s s' up expiry left h =
        subst (Held token now (now + seconds_left e now * second))
          (some-injective _ _ (ap (λ (x : LogoutResponse × Option (RedisService R)). x.1) h))
          (blacklist_until_expiry-Held token now e s up expiry left)
    logout-Held token (some other) now e s s' up expiry left h =
        let first = blacklist_until_expiry-Held token now e s up expiry left in
        subst (Held token now (now + seconds_left e now * second))
          (some-injective _ _ (ap (λ (x : LogoutResponse × Option (RedisService R)). x.1) h))
          (elim (Bool-cases (text_eq token other)) [
            | inl same ↦
                subst
                  (λ x.
                    Held token now (now + seconds_left e now * second)
                      (blacklist_until_expiry J R x now (blacklist_until_expiry J R token now s)))
                  (text_eq_sound token other same)
                  (blacklist_until_expiry-Held token now e _
                    (up_of token now (now + seconds_left e now * second) _ first) expiry left)
            | inr differs ↦
                blacklist_until_expiry-Held_ne token other now (now + seconds_left e now * second) _
                  (λ same. differ token other differs same) first
          ])

    token_expiry :
        (token : Text) (now e : ℕ) (p : Payload)
        → decode_token J now token ≡ some p
        → p.exp ≡ some e
        → 1 ≤ seconds_left e now
        → get_token_expiry J now token ≡ some e
    unfolding get_token_expiry
    token_expiry token now e p decoded exp left =
        let test : (e == 0) ≡ false = ground arith in rw (decoded, exp, test) refl

    module _ (T : Table User same_user) where
      -- After a logout the access token is refused, for the whole seconds that it had left,
      -- whatever the cookie was. The server is connected and answers every command.
      pub logout_blocks :
          (token : Text) (cookie : Option Text) (now e : ℕ) (s s' : RedisService R)
          (required : List Text) (t : ℕ) (users : T.Store)
          → s.is_available ≡ true
          → get_token_expiry J now token ≡ some e
          → logout J R token cookie now (some s) ≡ (logged_out, some s')
          → now ≤ t
          → t < now + seconds_left e now * second
          → get_current_user J R T required token t s' users ≡ err credentials
      logout_blocks token cookie now e s s' required t users up expiry h i j =
          let held = logout-Held token cookie now e s s' up expiry (omega arith) h in
          let listed = Held-blacklisted token now (now + seconds_left e now * second) t s' held i in
          let before : ltb t (now + seconds_left e now * second) ≡ true = ground arith in
          blacklisted_blocks J R T token t s' users required (listed ∙ before)

      -- The blacklist entry of a logout lapses before the token does: from the end of the whole
      -- seconds that the token had left until 10 seconds after its expiry, the leeway of the
      -- decoder, a token that was logged out lets its user pass again. The server is connected
      -- and answers every command, at least one second was left, the token has the scopes that
      -- the route asks for, and its subject is the name of one user, who is active.
      pub logout_lapses :
          (token : Text) (cookie : Option Text) (now e : ℕ) (s s' : RedisService R)
          (required : List Text) (t : ℕ) (users : T.Store) (p : Payload) (username : Text)
          (u : User)
          → s.is_available ≡ true
          → decode_token J now token ≡ some p
          → p.exp ≡ some e
          → 1 ≤ seconds_left e now
          → logout J R token cookie now (some s) ≡ (logged_out, some s')
          → now + seconds_left e now * second ≤ t
          → t < (e + 10) * second
          → p.sub ≡ some username
          → has_scopes required (token_scopes p.scopes) ≡ true
          → T.select (λ q. text_eq q.username username) users ≡ one u
          → u.is_active ≡ true
          → get_current_user J R T required token t s' users ≡ ok u
      logout_lapses token cookie now e s s' required t users p username u up decoded exp left h i j
            named scoped selected active =
          let held =
            logout-Held token cookie now e s s' up (token_expiry token now e p decoded exp left)
              left h in
          let listed =
            Held-blacklisted token now (now + seconds_left e now * second) t s' held
              (omega arith) in
          let after : ltb t (now + seconds_left e now * second) ≡ false = ground arith in
          (get_current_user_iff J R T token t s' users required u).1 (
            p,
            record {
              username = username;
              kept = listed ∙ after;
              decoded = J.decode_later 10 now t token p e decoded exp (omega arith) j;
              named = named;
              selected = selected;
              active = active;
            },
            scoped,
          )
