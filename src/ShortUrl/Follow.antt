-- ===== src/ShortUrl/Follow.antt =====
-- Sharing twice, and following a short URL.
use urban_octo_tribble.Base.{
  ℕ, ◌+◌, ◌≡◌, refl, sym, ap, ◌∙◌, inl, inr, Bool, true, List, [], ◌∷◌, ◌++◌, Option, none, some,
  Text, text_eq, arith, ◌==◌, ==_iff, Bool-cases,
}
use urban_octo_tribble.Base.Int.{eqb_ℤ}
use urban_octo_tribble.Base.Exec.{Result, ok, lift, >>=-eq-ok, pure-eq-ok}
use urban_octo_tribble.Database.{
  Lookup, absent, one, several, Table, any_row, matching, one_or_none, update_matching,
}
use urban_octo_tribble.ShortUrl.{
  ShortUrl, same_key, Failure, document, ShortenResponse, shorten_response, State, StatsResponse,
  fits_columns, encode_id, next_id, find, insert_row, add_short_url, share_found, create_short_url,
  redirect_short_url, redirect_found, get_short_url_stats, stats_found,
}

-- Queries of a list of rows.
matching-append :
    (p : ShortUrl → Bool) (l k : List ShortUrl) → matching p (l ++ k) ≡ matching p l ++ matching p k
matching-append p [] k = refl
matching-append p (r ∷ l) k = ground (arith, matching-append p l k)

absent→nil : (l : List ShortUrl) → one_or_none l ≡ absent → l ≡ []
absent→nil [] h = refl
absent→nil (r ∷ []) h = cc
absent→nil (r ∷ q ∷ l) h = cc

one→singleton : (l : List ShortUrl) (r : ShortUrl) → one_or_none l ≡ one r → l ≡ r ∷ []
one→singleton [] r h = cc
one→singleton (q ∷ []) r h = cc
one→singleton (q ∷ p ∷ l) r h = cc

module _ (T : Table ShortUrl same_key) where
  select_appended :
      (p : ShortUrl → Bool) (t t' : T.Store) (r : ShortUrl)
      → T.select p t ≡ absent
      → T.rows t' ≡ T.rows t ++ r ∷ []
      → p r ≡ true
      → T.select p t' ≡ one r
  select_appended p t t' r h e hr =
      let nothing : matching p (T.rows t) ≡ [] = absent→nil _ (sym (T.select-rows p t) ∙ h) in
      rw (T.select-rows, e, matching-append, nothing, hr)

  insert-rows :
      (r : ShortUrl) (t t' : T.Store) → T.insert r t ≡ some t' → T.rows t' ≡ T.rows t ++ r ∷ []
  insert-rows r t t' h = elim (Bool-cases (any_row (same_key r) (T.rows t))) [
    | inl conflict ↦ cc (T.insert_conflict r t conflict)
    | inr fresh ↦
        let (u, e, rows) = T.insert_fresh r t fresh in let same : u ≡ t' = cc in rw same at rows
  ]

  rows-insert_row :
      (r : ShortUrl) (s : State T.Store) (o : Option T.Store)
      → T.insert r s.store ≡ o
      → (insert_row T r s).0 ≡ ok tt
      → T.rows (insert_row T r s).1.store ≡ T.rows s.store ++ r ∷ []
  unfolding insert_row
  rows-insert_row r s none e h = elim (Bool-cases (fits_columns r)) [
    | inl fits ↦ cc (rw (insert_row, fits, e) at h)
    | inr too_long ↦ cc (rw (insert_row, too_long) at h)
  ]
  rows-insert_row r s (some t) e h = elim (Bool-cases (fits_columns r)) [
    | inl fits ↦ rw (insert_row, fits, e) (insert-rows r s.store t e)
    | inr too_long ↦ cc (rw (insert_row, too_long) at h)
  ]

  store-next_id : (s : State T.Store) → (next_id s).1.store ≡ s.store
  unfolding next_id
  store-next_id s = refl

  -- What a successful `add_short_url` has done to the table.
  add_short_url-rows :
      (d : ℕ) (s s' : State T.Store) (a : ShortenResponse)
      → add_short_url T d s ≡ (ok a, s')
      → (r : ShortUrl) × (r.document_id ≡ d)
        × (a ≡ shorten_response r)
        × (T.rows s'.store ≡ T.rows s.store ++ r ∷ [])
  unfolding add_short_url
  add_short_url-rows d s s' a h =
      let (unique_id, _, h1) = >>=-eq-ok next_id _ s h in
      let (code, _, h2) = >>=-eq-ok (lift (encode_id unique_id)) _ (next_id s).1 h1 in
      let (id, _, h3) = >>=-eq-ok next_id _ (next_id s).1 h2 in
      let s2 = (next_id (next_id s).1).1 in
      let r : ShortUrl = record { id = id; short_code = code; document_id = d; clicks = 0 } in
      let (_, inserted, h4) = >>=-eq-ok (insert_row T r) _ s2 h3 in
      let (response, state) = pure-eq-ok h4 in
      let kept : s2.store ≡ s.store = store-next_id (next_id s).1 ∙ store-next_id s in
      let rows = rows-insert_row r s2 (T.insert r s2.store) refl inserted in
      (
        r,
        refl,
        sym response,
        ap (λ (x : State T.Store). T.rows x.store) (sym state)
            ∙ rows
            ∙ ap (λ (x : T.Store). T.rows x ++ r ∷ []) kept,
      )

  share_found_again :
      (d : ℕ) (s s' : State T.Store) (a : ShortenResponse) (found : Lookup ShortUrl)
      → T.select (λ r. r.document_id == d) s.store ≡ found
      → share_found T d found s ≡ (ok a, s')
      → create_short_url T d s' ≡ (ok a, s')
  unfolding share_found create_short_url find
  share_found_again d s s' a absent e h =
      let (r, doc, response, rows) = add_short_url-rows d s s' a h in
      let again : T.select (λ r. r.document_id == d) s'.store ≡ one r =
        select_appended (λ r. r.document_id == d) s.store s'.store r e rows ((==_iff _ d).1 doc) in
      rw (again, share_found, response)
  share_found_again d s s' a (one r) e h =
      let (response, state) = pure-eq-ok h in
      let again : T.select (λ r. r.document_id == d) s'.store ≡ one r = rw state at e in
      rw (again, share_found, response)
  share_found_again d s s' a several e h =
      cc (ap (λ (x : Result Failure ShortenResponse × State T.Store). x.0) h)

  -- Sharing a document a second time returns the same short URL and changes nothing.
  pub create_short_url_again :
      (d : ℕ) (s s' : State T.Store) (a : ShortenResponse)
      → create_short_url T d s ≡ (ok a, s')
      → create_short_url T d s' ≡ (ok a, s')
  create_short_url_again d s s' a h =
      share_found_again d s s' a (T.select (λ r. r.document_id == d) s.store) refl
        (unfold create_short_url find in h)

module _ (p q : ShortUrl → Bool) (f : ShortUrl → ShortUrl)
    (keeps : (r : ShortUrl) → q (f r) ≡ q r) where
  matching-update :
      (l : List ShortUrl) → matching q (update_matching p f l) ≡ update_matching p f (matching q l)
  matching-update [] = refl
  matching-update (r ∷ l) = elim (Bool-cases (p r)) [
    | inl yes_p ↦ elim (Bool-cases (q r)) [
      | inl yes_q ↦ rw (yes_p, keeps r, yes_q, yes_p, matching-update l)
      | inr no_q ↦ rw (yes_p, keeps r, no_q, matching-update l)
    ]
    | inr no_p ↦ elim (Bool-cases (q r)) [
      | inl yes_q ↦ rw (no_p, yes_q, no_p, matching-update l)
      | inr no_q ↦ rw (no_p, no_q, matching-update l)
    ]
  ]

module _ (T : Table ShortUrl same_key) where
  stats_of : ShortUrl → StatsResponse
  stats_of r = record { short_code = r.short_code; document_id = r.document_id; clicks = r.clicks }

  counted : ShortUrl → ShortUrl → ShortUrl
  counted r q = record q { clicks = r.clicks + 1 }

  select-counted :
      (code : Text) (t : T.Store) (r : ShortUrl)
      → T.select (λ q. text_eq q.short_code code) t ≡ one r
      → T.select (λ q. text_eq q.short_code code) (T.update (λ q. eqb_ℤ q.id r.id) (counted r) t)
        ≡ one (counted r r)
  unfolding counted
  select-counted code t r e =
      let found : matching (λ q. text_eq q.short_code code) (T.rows t) ≡ r ∷ [] =
        one→singleton _ r (sym (T.select-rows _ t) ∙ e) in
      let self : eqb_ℤ r.id r.id ≡ true = ground arith in
      rw (
        T.select-rows,
        T.update-rows,
        matching-update (λ q. eqb_ℤ q.id r.id) (λ q. text_eq q.short_code code) (counted r)
            (λ q. refl) (T.rows t),
        found,
        self,
      )

  module _ (code : Text) (s : State T.Store) (r : ShortUrl)
      (found : T.select (λ q. text_eq q.short_code code) s.store ≡ one r) where
    redirect-one : redirect_short_url T code s ≡ (
      ok (document r.document_id),
      record s { store = T.update (λ q. eqb_ℤ q.id r.id) (counted r) s.store },
    )
    unfolding redirect_short_url counted find
    redirect-one = rw (found, redirect_found)

    stats-one : get_short_url_stats T code s ≡ (ok (stats_of r), s)
    unfolding get_short_url_stats find stats_of
    stats-one = rw (found, stats_found)

  stats_found-one :
      (found : Lookup ShortUrl) (s s' : State T.Store) (st : StatsResponse)
      → stats_found T found s ≡ (ok st, s')
      → (r : ShortUrl) × (found ≡ one r) × (st ≡ stats_of r)
  unfolding stats_found stats_of
  stats_found-one absent s s' st h =
      cc (ap (λ (x : Result Failure StatsResponse × State T.Store). x.0) h)
  stats_found-one (one r) s s' st h = (r, refl, sym (pure-eq-ok h).0)
  stats_found-one several s s' st h =
      cc (ap (λ (x : Result Failure StatsResponse × State T.Store). x.0) h)

  -- A short URL that the statistics show is redirected to the path /documents/{id} with the id of
  -- its document, and the statistics then show one click more, of the same code and document.
  pub redirect_short_url_counts :
      (code : Text) (s s' : State T.Store) (st : StatsResponse)
      → get_short_url_stats T code s ≡ (ok st, s')
      → let (r, t) = redirect_short_url T code s in
        (r ≡ ok (document st.document_id))
        × (get_short_url_stats T code t ≡ (ok (record st { clicks = st.clicks + 1 }), t))
  redirect_short_url_counts code s s' st h =
      let by_code = T.select (λ q. text_eq q.short_code code) s.store in
      let (r, found, shown) =
        stats_found-one by_code s s' st (unfold get_short_url_stats find in h) in
      rw (redirect-one code s r found, shown)
        (
          unfold stats_of in refl,
          unfold stats_of counted in
              stats-one code _ (counted r r) (select-counted code s.store r found),
        )
