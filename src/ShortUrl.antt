-- ===== src/ShortUrl.antt =====
-- Short URLs: the model, app/models/shorturl.py, and the handlers that share a document, follow a
-- short URL and show its clicks, of app/routes/documents.py.
pub mod Share
pub mod Follow
mod Tests
use urban_octo_tribble.Base.{
  ℕ, ◌+◌, ◌^◌, Bool, ◌||◌, ◌&&◌, length, leb, if◌then◌else◌, List, Option, none, some, Text,
  text_eq, ◌==◌,
}
use urban_octo_tribble.Base.Int.{ℤ, pos, negsuc, eqb_ℤ, ltb_ℤ}
use urban_octo_tribble.Base.Exec.{
  Result, ok, err, Exec, pure, raise, lift, gets, continue, ◌>>=◌, ◌>>◌,
}
use urban_octo_tribble.Database.{Lookup, absent, one, several, Table}
use urban_octo_tribble.Snowflake.{
  Generator, Outcome, made, clock_moved_backwards, waiting, generate,
}
use urban_octo_tribble.Base62.{encode}

pub record ShortUrl : Type 0 where
  pub id : ℤ
  pub short_code : Text
  pub document_id : ℕ
  pub clicks : ℕ

-- The primary key and `short_code` are unique. The document is one that exists: the handlers get it
-- from `verify_document_ownership`.
abbrev pub same_key : ShortUrl → ShortUrl → Bool
same_key a b = eqb_ℤ a.id b.id || text_eq a.short_code b.short_code

-- The limits of the columns: `max_length=11` of the code, and the signed 64 bits of the key.
abbrev pub fits_columns : ShortUrl → Bool
fits_columns r = leb (length r.short_code) 11 && ltb_ℤ r.id (pos (2 ^ 63))

-- The exceptions that leave the handlers; `hangs` stands for a call that does not end.
pub data Failure : Type 0 where
  not_found multiple_results clock_exception index_error integrity_error data_error hangs : Failure

-- The paths that the handlers write: /api/v1/documents/{id}, /documents/{id} and /d/{code}.
pub data Url : Type 0 where
  api_document : ℕ → Url
  document : ℕ → Url
  short : Text → Url

pub record ShortenResponse : Type 0 where
  pub short_code : Text
  pub document_id : ℕ
  pub clicks : ℕ
  pub original_url : Url
  pub short_url : Url

pub record StatsResponse : Type 0 where
  pub short_code : Text
  pub document_id : ℕ
  pub clicks : ℕ

-- What a handler can change: the id generator, the clock, the table.
pub record State (Store : Type 0) : Type 0 where
  pub generator : Generator
  pub clock : List ℕ
  pub store : Store

abbrev pub shorten_response : ShortUrl → ShortenResponse
shorten_response r = record {
  short_code = r.short_code;
  document_id = r.document_id;
  clicks = r.clicks;
  original_url = api_document r.document_id;
  short_url = short r.short_code;
}

-- `base62_encoder.encode` of an id: below zero its loop does not end.
pub encode_id : ℤ → Result Failure Text
encode_id (negsuc _) = err hangs
encode_id (pos n) = elim (encode n) [ none ↦ err index_error | some s ↦ ok s ]

pub outcome_result : Outcome → Result Failure ℤ
outcome_result (made id) = ok id
outcome_result (clock_moved_backwards _) = err clock_exception
outcome_result waiting = err hangs

-- `id_generator.generate()`
pub next_id : {Store : Type 0} → Exec Failure (State Store) ℤ
unfolding outcome_result
next_id s =
    let (outcome, g, clock) = generate s.generator s.clock in
    (outcome_result outcome, record s { generator = g; clock = clock })

module _ (T : Table ShortUrl same_key) where
  abbrev Handler : Type 0 → Type 0
  Handler A = Exec Failure (State T.Store) A

  pub find : (ShortUrl → Bool) → Handler (Lookup ShortUrl)
  find p = gets (λ s. T.select p s.store)

  pub insert_row : ShortUrl → Handler (Unit {0})
  insert_row r s =
      if fits_columns r
      then (elim (T.insert r s.store) [
        | none ↦ (err integrity_error, s)
        | some t ↦ (ok tt, record s { store = t })
      ])
      else (err data_error, s)

  -- The part of `create_short_url` after the early return: the constructor of `ShortURL` draws an
  -- id of its own for the primary key.
  pub add_short_url : ℕ → Handler ShortenResponse
  unfolding insert_row
  add_short_url document_id = do
    unique_id ← next_id
    short_code ← lift (encode_id unique_id)
    id ← next_id
    let r : ShortUrl = record {
      id = id;
      short_code = short_code;
      document_id = document_id;
      clicks = 0;
    }
    insert_row r
    pure (shorten_response r)

  share_found : ℕ → Lookup ShortUrl → Handler ShortenResponse
  unfolding add_short_url
  share_found document_id absent = add_short_url document_id
  share_found document_id (one r) = pure (shorten_response r)
  share_found document_id several = raise multiple_results

  pub create_short_url : ℕ → Handler ShortenResponse
  unfolding find share_found
  create_short_url document_id = do
    existing ← find (λ r. r.document_id == document_id)
    share_found document_id existing

  -- The new count is computed from the row that was read, and written to that row.
  count_click : ShortUrl → Handler Url
  count_click r s = (
    ok (document r.document_id),
    record s {
      store = T.update (λ q. eqb_ℤ q.id r.id) (λ q. record q { clicks = r.clicks + 1 }) s.store;
    },
  )

  redirect_found : Lookup ShortUrl → Handler Url
  unfolding count_click
  redirect_found absent = raise not_found
  redirect_found (one r) = count_click r
  redirect_found several = raise multiple_results

  pub redirect_short_url : Text → Handler Url
  unfolding find redirect_found
  redirect_short_url short_code = do
    short_url ← find (λ r. text_eq r.short_code short_code)
    redirect_found short_url

  stats_found : Lookup ShortUrl → Handler StatsResponse
  stats_found absent = raise not_found
  stats_found (one r) =
      pure (record { short_code = r.short_code; document_id = r.document_id; clicks = r.clicks })
  stats_found several = raise multiple_results

  pub get_short_url_stats : Text → Handler StatsResponse
  unfolding find stats_found
  get_short_url_stats short_code = do
    short_url ← find (λ r. text_eq r.short_code short_code)
    stats_found short_url
