-- ===== src/Auth/Access/Guards.antt =====
-- Exactly when the dependencies let a request pass.
use urban_octo_tribble.Base.{
  ℕ, ◌≡◌, refl, sym, ap, ◌∙◌, ◌↔◌, ◌⊎◌, inl, inr, Bool, true, false, not, List, [], ◌∷◌, some, Text,
  codes, text_eq, ◌==◌, ==_iff, if◌then◌else◌,
}
use urban_octo_tribble.Base.Exec.{ok, err}
use urban_octo_tribble.Base.Results.{
  some_or, ok-injective, if-eq-ok, >>=-eq-ok, stop_if-eq-ok, some_or-eq-ok,
}
use urban_octo_tribble.Redis.{Redis}
use urban_octo_tribble.Database.{Lookup, absent, one, several, Table}
use urban_octo_tribble.Auth.{
  UserRole, admin, moderator, user, role_of, User, same_user, Payload, Jwt, decode_token,
  RedisService, is_token_blacklisted,
}
use urban_octo_tribble.Auth.Access.{
  credentials, inactive_user, not_authorized, value_error, Document, same_document, has_scopes,
  token_scopes, active_user, role, is_admin, subject, get_current_user, owned, found_document,
  verify_document_ownership,
}

pub is_true : (b : Bool) → not b ≡ false → b ≡ true
is_true true h = refl
is_true false h = cc

by_role :
    (r : UserRole) (u : User) (d : Document) {c : Document}
    → (if is_admin r then ok d else (if d.owner_id == u.id then ok d else err not_authorized))
      ≡ ok c
    → ((r ≡ admin) ⊎ (c.owner_id ≡ u.id)) × (d ≡ c)
by_role admin u d h = (inl refl, ok-injective h)
by_role moderator u d h =
    let (owns, same) = if-eq-ok (d.owner_id == u.id) d not_authorized h in
    (inr (ap (λ (x : Document). x.owner_id) (sym same) ∙ (==_iff d.owner_id u.id).0 owns), same)
by_role user u d h =
    let (owns, same) = if-eq-ok (d.owner_id == u.id) d not_authorized h in
    (inr (ap (λ (x : Document). x.owner_id) (sym same) ∙ (==_iff d.owner_id u.id).0 owns), same)

by_role_ok :
    (r : UserRole) (u : User) (d : Document)
    → (r ≡ admin) ⊎ (d.owner_id ≡ u.id)
    → (if is_admin r then ok d else (if d.owner_id == u.id then ok d else err not_authorized))
      ≡ ok d
by_role_ok admin u d h = refl
by_role_ok moderator u d (inl e) = cc
by_role_ok user u d (inl e) = cc
by_role_ok moderator u d (inr e) = rw ((==_iff d.owner_id u.id).1 e) refl
by_role_ok user u d (inr e) = rw ((==_iff d.owner_id u.id).1 e) refl

module _ (J : Jwt) (R : Redis Text Text) (T : Table User same_user) (token : Text) (now : ℕ)
    (redis : RedisService R) (users : T.Store) where
  -- A token that speaks for a user: it is not on the blacklist, it decodes, and its subject is the
  -- name of one user, who is active.
  pub record SpeaksFor (payload : Payload) (u : User) : Type 0 where
    pub username : Text
    pub kept : is_token_blacklisted R token now redis ≡ false
    pub decoded : decode_token J now token ≡ some payload
    pub named : payload.sub ≡ some username
    pub selected : T.select (λ q. text_eq q.username username) users ≡ one u
    pub active : u.is_active ≡ true

  active_user-eq-ok :
      (found : Lookup User) {u : User}
      → active_user found ≡ ok u
      → (found ≡ one u) × (u.is_active ≡ true)
  active_user-eq-ok absent h = cc
  active_user-eq-ok several h = cc
  active_user-eq-ok (one v) h =
      let (active, same) = if-eq-ok v.is_active v inactive_user h in
      (ap (λ x. one x) same, ap (λ (x : User). x.is_active) (sym same) ∙ active)

  subject-eq-ok :
      (found : Payload × Text)
      → subject J R T token now redis ≡ ok found
      → (is_token_blacklisted R token now redis ≡ false)
        × (decode_token J now token ≡ some found.0)
        × (found.0.sub ≡ some found.1)
  unfolding subject
  subject-eq-ok found h =
      let (kept, h1) = stop_if-eq-ok (is_token_blacklisted R token now redis) credentials _ h in
      let (payload, got, h2) = >>=-eq-ok (some_or credentials (decode_token J now token)) _ h1 in
      let (username, named, h3) = >>=-eq-ok (some_or credentials payload.sub) _ h2 in
      let same : (payload, username) ≡ found = ok-injective h3 in
      (
        kept,
        some_or-eq-ok credentials _ got ∙ ap (λ (x : Payload × Text). some x.0) same,
        ap (λ (x : Payload × Text). x.0.sub) (sym same)
            ∙ some_or-eq-ok credentials _ named
            ∙ ap (λ (x : Payload × Text). some x.1) same,
      )

  subject_ok :
      (payload : Payload) (username : Text)
      → is_token_blacklisted R token now redis ≡ false
      → decode_token J now token ≡ some payload
      → payload.sub ≡ some username
      → subject J R T token now redis ≡ ok (payload, username)
  unfolding subject
  subject_ok payload username kept decoded named = rw (kept, decoded, named) refl

  module _ (D : Table Document same_document) where
    owned-eq-ok :
        (u : User) (d : Document) {c : Document}
        → owned J R T D u d ≡ ok c
        → (r : UserRole) × (role_of u.role_name ≡ some r)
          × ((r ≡ admin) ⊎ (c.owner_id ≡ u.id))
          × (d ≡ c)
    unfolding owned
    owned-eq-ok u d h =
        let (r, known, h1) = >>=-eq-ok (role u) _ h in
        let (allowed, same) = by_role r u d h1 in
        (r, some_or-eq-ok value_error _ known, allowed, same)

    owned_ok :
        (u : User) (d : Document) (r : UserRole)
        → role_of u.role_name ≡ some r
        → (r ≡ admin) ⊎ (d.owner_id ≡ u.id)
        → owned J R T D u d ≡ ok d
    unfolding owned
    owned_ok u d r known allowed = rw known (by_role_ok r u d allowed)

    found_document_ok :
        (found : Lookup Document) {d : Document}
        → found ≡ one d
        → found_document J R T D found ≡ ok d
    unfolding found_document
    found_document_ok found h = rw h refl

    found_document-eq-ok :
        (found : Lookup Document) {d : Document}
        → found_document J R T D found ≡ ok d
        → found ≡ one d
    unfolding found_document
    found_document-eq-ok absent h = cc
    found_document-eq-ok (one d) h = ap (λ x. one x) (ok-injective h)
    found_document-eq-ok several h = cc

  -- A request passes `get_current_user` as a user exactly if its token speaks for that user and has
  -- every scope that the route asks for.
  pub get_current_user_iff :
      (required : List Text) (u : User)
      → (get_current_user J R T required token now redis users ≡ ok u) ↔ (
          (payload : Payload) × SpeaksFor payload u
          × (has_scopes required (token_scopes payload.scopes) ≡ true))
  unfolding get_current_user
  get_current_user_iff required u = (
    λ h.
        let (found, h0, h1) = >>=-eq-ok (subject J R T token now redis) _ h in
        let (kept, decoded, named) = subject-eq-ok found h0 in
        let (scoped, h2) =
          stop_if-eq-ok (not (has_scopes required (token_scopes found.0.scopes))) _ _ h1 in
        let (selected, active) = active_user-eq-ok _ h2 in
        (
          found.0,
          record {
            username = found.1;
            kept = kept;
            decoded = decoded;
            named = named;
            selected = selected;
            active = active;
          },
          is_true _ scoped,
        ),
    λ (payload, speaks, scoped).
        rw
          (
            subject_ok payload speaks.username speaks.kept speaks.decoded speaks.named,
            scoped,
            speaks.selected,
            speaks.active,
          )
          refl,
  )

  -- A request passes `verify_document_ownership` with a document exactly if its token speaks, with
  -- the scope "read", for a user who is an admin, or has another role and owns the document, and the
  -- document is the one with that id.
  pub verify_document_ownership_iff :
      (D : Table Document same_document) (documents : D.Store) (document_id : ℕ)
      (document : Document)
      → (verify_document_ownership J R T D document_id token now redis users documents
          ≡ ok document)
        ↔ ((u : User) × (r : UserRole) × (get_current_user J R T
                (codes "read" ∷ [])
                token
                now
                redis
                users
              ≡ ok u)
            × (D.select (λ d. d.id == document_id) documents ≡ one document)
            × (role_of u.role_name ≡ some r)
            × ((r ≡ admin) ⊎ (document.owner_id ≡ u.id)))
  unfolding verify_document_ownership
  verify_document_ownership_iff D documents document_id document = (
    λ h.
        let (u, passed, h1) =
          >>=-eq-ok (get_current_user J R T (codes "read" ∷ []) token now redis users) _ h in
        let (d, found, h2) =
          >>=-eq-ok (found_document J R T D (D.select (λ d. d.id == document_id) documents)) _ h1 in
        let (r, known, allowed, same) = owned-eq-ok D u d h2 in
        (u, r, passed, found_document-eq-ok D _ found ∙ ap (λ x. one x) same, known, allowed),
    λ (u, r, passed, selected, known, allowed).
        rw (passed, found_document_ok D _ selected) (owned_ok D u document r known allowed),
  )

  pub blacklisted_blocks :
      (required : List Text)
      → is_token_blacklisted R token now redis ≡ true
      → get_current_user J R T required token now redis users ≡ err credentials
  unfolding get_current_user subject
  blacklisted_blocks required h = rw h refl
