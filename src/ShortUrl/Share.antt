-- ===== src/ShortUrl/Share.antt =====
-- What sharing a document does to the table: the codes stay apart, and no insert is refused.
use mathlib.Core.Path.{subst}
use urban_octo_tribble.Base.{
  ◌+◌, ◌^◌, true, length, leb, ◌++◌, ap, ℕ, ◌≤◌, ◌<◌, ◌≡◌, refl, ◌∙◌, inl, inr, ◌⊎◌, false, List,
  [], ◌∷◌, All, All-map, All-append, Text, text_eq, text_eq_sound, arith, ◌==◌, Bool-cases, some,
}
use urban_octo_tribble.Base.Int.{ℤ, pos, ◌<ℤ◌, ltb_ℤ}
use urban_octo_tribble.Base.Exec.{Result, ok, err, continue}
use urban_octo_tribble.Database.{Lookup, absent, one, several, Table, any_row}
use urban_octo_tribble.Snowflake.{
  epoch, Generator, Outcome, made, clock_moved_backwards, waiting, generate, build_id,
}
use urban_octo_tribble.Snowflake.Order.{
  IsValid, SinceEpoch, Continues, generate-Continues, floor, floor-made,
}
use urban_octo_tribble.Snowflake.Value.{id_value}
use urban_octo_tribble.Snowflake.Progress.{generate_fits, Waits, generate-Waits, generate_later}
use urban_octo_tribble.Base62.{encode}
use urban_octo_tribble.Base62.RoundTrip.{encode-length, decode-encode, encode_injective}
use urban_octo_tribble.ShortUrl.{
  ShortUrl, same_key, Failure, not_found, multiple_results, clock_exception, index_error,
  integrity_error, data_error, fits_columns, hangs, ShortenResponse, shorten_response, State,
  encode_id, outcome_result, next_id, find, insert_row, add_short_url, share_found,
  create_short_url,
}

-- The code and the key of the row come from ids below `b`.
abbrev pub Issued : ℕ → ShortUrl → Type 0
Issued b r = (m : ℕ) × (k : ℕ) × (encode m ≡ some r.short_code) × (r.id ≡ pos k) × (m < b) × (k < b)

Issued-le : (a b : ℕ) → a ≤ b → (r : ShortUrl) → Issued a r → Issued b r
Issued-le a b h r (m, k, em, ek, hm, hk) = (m, k, em, ek, omega arith, omega arith)

fresh_row :
    (b n k : ℕ) (r q : ShortUrl)
    → encode n ≡ some r.short_code
    → r.id ≡ pos k
    → b ≤ n
    → b ≤ k
    → Issued b q
    → same_key r q ≡ false
fresh_row b n k r q en ek hn hk (m, j, em, ej, hm, hj) =
    elim (Bool-cases (text_eq r.short_code q.short_code)) [
      | inl same ↦ absurd (
          let e : r.short_code ≡ q.short_code = text_eq_sound _ _ same in
          let e' : n ≡ m = encode_injective n m (cc) in omega arith)
      | inr apart ↦ rw (ek, ej, apart) (ground arith)
    ]

fresh_rows :
    (b n k : ℕ) (r : ShortUrl) (rows : List ShortUrl)
    → encode n ≡ some r.short_code
    → r.id ≡ pos k
    → b ≤ n
    → b ≤ k
    → All (Issued b) rows
    → any_row (same_key r) rows ≡ false
fresh_rows b n k r [] en ek hn hk h = refl
fresh_rows b n k r (q ∷ rows) en ek hn hk (hq, h) =
    rw (fresh_row b n k r q en ek hn hk hq) (fresh_rows b n k r rows en ek hn hk h)

encode_id-some : (n : ℕ) (s : Text) → encode n ≡ some s → encode_id (pos n) ≡ ok s
unfolding encode_id
encode_id-some n s e = rw (e, encode_id)

fits_row :
    (code : Text) (id : ℤ) (d : ℕ)
    → length code ≤ 11
    → id <ℤ pos (2 ^ 63)
    → fits_columns (record { id = id; short_code = code; document_id = d; clicks = 0 }) ≡ true
fits_row code id d short_enough small =
    let a : leb (length code) 11 ≡ true = ground arith in
    let b : ltb_ℤ id (pos (2 ^ 63)) ≡ true = ground arith in rw (a, b) refl

since_head :
    (readings : List ℕ) (t : ℕ) (clock : List ℕ)
    → readings ≡ t ∷ clock
    → SinceEpoch readings
    → SinceEpoch (t ∷ clock)
since_head readings t clock e h = subst SinceEpoch e h

-- The id of a later millisecond, in the first 2^41 after the epoch.
id_below :
    (g : Generator) (t : ℕ)
    → IsValid g
    → epoch ≤ t
    → g.last_timestamp <ℤ pos t
    → t < epoch + 2 ^ 41
    → build_id (record g { sequence = 0 }) t <ℤ pos (2 ^ 63)
id_below g t v since later soon =
    (generate_fits g (t ∷ []) v (since, tt) (soon, tt) _
      (ap (λ (x : Outcome × Generator × List ℕ). x.0) (generate_later g t [] later))).1

module _ (T : Table ShortUrl same_key) where
  -- The rows were issued by the generator of the process, and no reading is before the epoch.
  pub record IsIssued (s : State T.Store) : Type 0 where
    pub generator : IsValid s.generator
    pub clock : SinceEpoch s.clock
    pub rows : All (Issued (floor s.generator)) (T.rows s.store)

  -- How `next_id` may end.
  NextId : State T.Store → Result Failure ℤ × State T.Store → Type 0
  NextId s (ok id, s') =
      IsIssued s'
      × (s'.store ≡ s.store)
      × (n : ℕ) × (id ≡ pos n)
      × (floor s.generator ≤ n)
      × (n < floor s'.generator)
  NextId s (err clock_exception, s') = IsIssued s' × (s'.store ≡ s.store)
  NextId s (err hangs, s') = (s'.clock ≡ []) × (s'.store ≡ s.store)
  NextId s (err _, s') = ⊥

  NextId-Continues :
      (s : State T.Store) (outcome : Outcome) (g : Generator) (clock : List ℕ)
      → IsIssued s
      → Continues s.generator (outcome, g, clock)
      → Waits (outcome, g, clock)
      → NextId s (outcome_result outcome, record s { generator = g; clock = clock })
  unfolding NextId outcome_result
  NextId-Continues s (made id) g clock h (v, c, _, _, (t, et, ei), above) w = (
    record {
      generator = v;
      clock = c;
      rows =
          All-map (Issued (floor s.generator)) (Issued (floor g)) (T.rows s.store)
            (Issued-le (floor s.generator) (floor g) (omega arith)) h.rows;
    },
    refl,
    id_value g t,
    ei,
    omega (arith, floor-made g t et),
    omega (arith, floor-made g t et),
  )
  NextId-Continues s (clock_moved_backwards d) g clock h (same, c) w =
      (record { generator = rw same h.generator; clock = c; rows = rw same h.rows }, refl)
  NextId-Continues s waiting g clock h c w = (w, refl)

  next_id-NextId : (s : State T.Store) → IsIssued s → NextId s (next_id s)
  unfolding next_id
  next_id-NextId s h =
      let (outcome, g, clock) = generate s.generator s.clock in
      NextId-Continues s outcome g clock h
        (generate-Continues s.generator s.clock h.generator h.clock)
        (generate-Waits s.generator s.clock)

  -- The answer shows the one row that the document had, or a new row of the document.
  abbrev pub Answered : ℕ → State T.Store → ShortenResponse → State T.Store → Type 0
  Answered d s0 a s =
      (r : ShortUrl) × (a ≡ shorten_response r)
      × (((T.select (λ q. q.document_id == d) s0.store ≡ one r) × (s.store ≡ s0.store))
          ⊎ ((T.select (λ q. q.document_id == d) s0.store ≡ absent)
              × (r.document_id ≡ d)
              × (r.clicks ≡ 0)
              × (T.rows s.store ≡ T.rows s0.store ++ r ∷ [])))

  -- How sharing may end: never by a refused insert, by a character outside the alphabet or by a
  -- missing short URL; the rows stay issued, an error leaves them as they are, and a call that
  -- hangs has used every reading of the clock.
  abbrev pub After : ℕ → State T.Store → Result Failure ShortenResponse × State T.Store → Type 0
  After d s0 (ok a, s) = IsIssued s × Answered d s0 a s
  After d s0 (err clock_exception, s) = IsIssued s × (s.store ≡ s0.store)
  After d s0 (err multiple_results, s) = IsIssued s × (s.store ≡ s0.store)
  After d s0 (err hangs, s) = (s.clock ≡ []) × (s.store ≡ s0.store)
  After d s0 (err data_error, s) = IsIssued s × (s.store ≡ s0.store)
  After d s0 (err integrity_error, s) = ⊥
  After d s0 (err index_error, s) = ⊥
  After d s0 (err not_found, s) = ⊥

  insert_row-After :
      (d : ℕ) (s0 s : State T.Store) (r : ShortUrl)
      → IsIssued s
      → any_row (same_key r) (T.rows s.store) ≡ false
      → Issued (floor s.generator) r
      → s.store ≡ s0.store
      → T.select (λ q. q.document_id == d) s0.store ≡ absent
      → r.document_id ≡ d
      → r.clicks ≡ 0
      → After d s0 (
          continue
            (insert_row T r s).0
            (λ _ s'. (ok (shorten_response r), s'))
            (insert_row T r s).1)
  unfolding insert_row
  insert_row-After d s0 s r h fresh issued same none_yet of_document unclicked =
      let (t, e, rows) = T.insert_fresh r s.store fresh in
      elim (Bool-cases (fits_columns r)) [
        | inr too_long ↦ rw (insert_row, too_long) (h, same)
        | inl fits ↦
            rw (insert_row, fits, e)
              (
                record {
                  generator = h.generator;
                  clock = h.clock;
                  rows = rw rows (
                      All-append (Issued (floor s.generator)) (T.rows s.store) (r ∷ []) h.rows
                        (issued, tt));
                },
                (
                  r,
                  refl,
                  inr (
                    none_yet,
                    of_document,
                    unclicked,
                    rows ∙ ap (λ (x : T.Store). T.rows x ++ r ∷ []) same,
                  ),
                ),
              )
      ]

  -- The second id, for the primary key, and the insert.
  keyed :
      (d : ℕ) (code : Text)
      → Result Failure ℤ × State T.Store
      → Result Failure ShortenResponse × State T.Store
  keyed d code (r, s) =
      continue r
        (λ id s'.
          let row : ShortUrl = record { id = id; short_code = code; document_id = d; clicks = 0 } in
          continue (insert_row T row s').0 (λ _ s''. (ok (shorten_response row), s''))
            (insert_row T row s').1)
        s

  keyed-After :
      (d n : ℕ) (code : Text) (s0 s : State T.Store) (r : Result Failure ℤ) (s' : State T.Store)
      → encode n ≡ some code
      → IsIssued s0
      → s.store ≡ s0.store
      → floor s0.generator ≤ n
      → n < floor s.generator
      → NextId s (r, s')
      → T.select (λ q. q.document_id == d) s0.store ≡ absent
      → After d s0 (keyed d code (r, s'))
  unfolding NextId keyed
  keyed-After d n code s0 s (ok id) s' en h same low high (h', same', k, ek, lowk, highk) none_yet =
      let row : ShortUrl = record { id = id; short_code = code; document_id = d; clicks = 0 } in
      insert_row-After d s0 s' row h'
        (rw (same' ∙ same) (
          fresh_rows (floor s0.generator) n k row (T.rows s0.store) en ek low (omega arith) h.rows))
        (n, k, en, ek, omega arith, highk) (same' ∙ same) none_yet refl refl
  keyed-After d n code s0 s (err clock_exception) s' en h same low high next none_yet =
      (next.0, next.1 ∙ same)
  keyed-After d n code s0 s (err hangs) s' en h same low high next none_yet =
      (next.0, next.1 ∙ same)
  keyed-After d n code s0 s (err not_found) s' en h same low high next none_yet = next
  keyed-After d n code s0 s (err multiple_results) s' en h same low high next none_yet = absurd next
  keyed-After d n code s0 s (err index_error) s' en h same low high next none_yet = next
  keyed-After d n code s0 s (err data_error) s' en h same low high next none_yet = absurd next
  keyed-After d n code s0 s (err integrity_error) s' en h same low high next none_yet = next

  add_short_url-After :
      (d : ℕ) (s : State T.Store) (r : Result Failure ℤ) (s' : State T.Store)
      → IsIssued s
      → NextId s (r, s')
      → T.select (λ q. q.document_id == d) s.store ≡ absent
      → After d s (
          continue r
            (λ id s'. continue (encode_id id) (λ code s'. keyed d code (next_id s')) s')
            s')
  unfolding NextId
  add_short_url-After d s (ok id) s' h (h', same, n, en, low, high) none_yet =
      let (code, ec, _) = decode-encode n in
      rw (en, encode_id-some n code ec)
        (keyed-After d n code s s' (next_id s').0 (next_id s').1 ec h same low high
          (next_id-NextId s' h') none_yet)
  add_short_url-After d s (err clock_exception) s' h next none_yet = next
  add_short_url-After d s (err hangs) s' h next none_yet = next
  add_short_url-After d s (err not_found) s' h next none_yet = next
  add_short_url-After d s (err multiple_results) s' h next none_yet = absurd next
  add_short_url-After d s (err index_error) s' h next none_yet = next
  add_short_url-After d s (err data_error) s' h next none_yet = absurd next
  add_short_url-After d s (err integrity_error) s' h next none_yet = next

  share_found-After :
      (d : ℕ) (s : State T.Store) (found : Lookup ShortUrl)
      → IsIssued s
      → T.select (λ q. q.document_id == d) s.store ≡ found
      → After d s (share_found T d found s)
  unfolding share_found add_short_url keyed
  share_found-After d s absent h e =
      add_short_url-After d s (next_id s).0 (next_id s).1 h (next_id-NextId s h) e
  share_found-After d s (one r) h e = (h, (r, refl, inl (e, refl)))
  share_found-After d s several h e = (h, refl)

  -- While the process alone issues short URLs and no reading of its clock is before the epoch,
  -- sharing a document never ends by a refused insert, as it would for a code or a key that
  -- another row has, nor by a character outside the alphabet. It ends with the short URL of the one
  -- row that the document had, the rows as they were; or, where it had none, with that of exactly
  -- one new row of the document; or, the rows as they were, with the exception of a clock that ran
  -- back, with that of a document that has several rows, with an error of the data where a code or
  -- a key does not fit in its column, or not yet: then it has used every reading of the clock.
  -- Where it has ended, every code and key is still one that the generator has issued.
  pub create_short_url-After :
      (d : ℕ) (s : State T.Store) → IsIssued s → After d s (create_short_url T d s)
  unfolding create_short_url find
  create_short_url-After d s h =
      share_found-After d s (T.select (λ r. r.document_id == d) s.store) h refl

  -- A new row of the document, with no clicks, and the answer that shows it.
  pub record IsShared (d : ℕ) (s : State T.Store)
      (r : Result Failure ShortenResponse × State T.Store) : Type 0 where
    row : ShortUrl
    returns : r.0 ≡ ok (shorten_response row)
    added : T.rows r.1.store ≡ T.rows s.store ++ row ∷ []
    of_document : row.document_id ≡ d
    unclicked : row.clicks ≡ 0
    fresh : any_row (same_key row) (T.rows s.store) ≡ false

  next_id_later :
      (s : State T.Store) (t : ℕ) (clock : List ℕ)
      → s.clock ≡ t ∷ clock
      → s.generator.last_timestamp <ℤ pos t
      → next_id s ≡ (
        ok (build_id (record s.generator { sequence = 0 }) t),
        record s {
          generator = record s.generator { sequence = 0; last_timestamp = pos t };
          clock = clock;
        },
      )
  unfolding next_id outcome_result
  next_id_later s t clock e later = rw (e, generate_later s.generator t clock later) refl

  shared_by :
      (d : ℕ) (s s1 s2 : State T.Store) (id1 id2 : ℤ) (code : Text) (t' : T.Store)
      → fits_columns (record { id = id2; short_code = code; document_id = d; clicks = 0 }) ≡ true
      → T.select (λ r. r.document_id == d) s.store ≡ absent
      → next_id s ≡ (ok id1, s1)
      → encode_id id1 ≡ ok code
      → next_id s1 ≡ (ok id2, s2)
      → T.insert (record { id = id2; short_code = code; document_id = d; clicks = 0 }) s2.store
        ≡ some t'
      → create_short_url T d s ≡ (
        ok (shorten_response (record { id = id2; short_code = code; document_id = d; clicks = 0 })),
        record s2 { store = t' },
      )
  unfolding create_short_url find share_found add_short_url insert_row
  shared_by d s s1 s2 id1 id2 code t' fits none_yet e1 coded e2 inserted =
      rw (none_yet, e1, coded, e2, insert_row, fits, inserted) refl

  -- While the process alone issues short URLs, and the clock's next two readings are each later
  -- than the time before and not before the epoch, sharing a document that has no row returns:
  -- exactly one row was added, of that document and with no clicks, which the answer shows, and
  -- whose code and key no other row has. The readings are in the first 2^41 milliseconds after the
  -- epoch, so that the code and the key fit in their columns.
  pub create_short_url-IsShared :
      (d t u : ℕ) (clock : List ℕ) (s : State T.Store)
      → IsIssued s
      → T.select (λ r. r.document_id == d) s.store ≡ absent
      → s.clock ≡ t ∷ u ∷ clock
      → s.generator.last_timestamp <ℤ pos t
      → t < u
      → u < epoch + 2 ^ 41
      → IsShared d s (create_short_url T d s)
  unfolding NextId
  create_short_url-IsShared d t u clock s h none_yet readings later above soon =
      let e1 = next_id_later s t (u ∷ clock) readings later in
      let g1 : Generator = record s.generator { sequence = 0; last_timestamp = pos t } in
      let s1 : State T.Store = record s { generator = g1; clock = u ∷ clock } in
      let id1 = build_id (record s.generator { sequence = 0 }) t in
      let (h1, same1, n, en, low, high) = subst (λ r. NextId s r) e1 (next_id-NextId s h) in
      let (code, ec, _) = decode-encode n in
      let small1 =
        id_below s.generator t h.generator (since_head s.clock t (u ∷ clock) readings h.clock).0
          later (omega arith) in
      let small2 =
        id_below g1 u h1.generator (since_head (u ∷ clock) u clock refl h1.clock).0 (omega arith)
          soon in
      let short_enough = encode-length n code (omega (arith, small1, en)) ec in
      let coded : encode_id id1 ≡ ok code = ap encode_id en ∙ encode_id-some n code ec in
      let e2 = next_id_later s1 u clock refl (omega arith) in
      let id2 = build_id (record g1 { sequence = 0 }) u in
      let (h2, same2, k, ek, lowk, highk) = subst (λ r. NextId s1 r) e2 (next_id-NextId s1 h1) in
      let row : ShortUrl = record { id = id2; short_code = code; document_id = d; clicks = 0 } in
      let fresh =
        fresh_rows (floor s.generator) n k row (T.rows s.store) ec ek low (omega arith) h.rows in
      let (t', inserted, rows) = T.insert_fresh row s.store fresh in
      let s2 : State T.Store = record s1 {
        generator = record g1 { sequence = 0; last_timestamp = pos u };
        clock = clock;
      } in
      let made_row =
        shared_by d s s1 s2 id1 id2 code t' (fits_row code id2 d short_enough small2) none_yet e1
          coded e2 inserted in
      record {
        row = row;
        returns = ap (λ (x : Result Failure ShortenResponse × State T.Store). x.0) made_row;
        added =
            ap (λ (x : Result Failure ShortenResponse × State T.Store). T.rows x.1.store) made_row
            ∙ rows;
        of_document = refl;
        unclicked = refl;
        fresh = fresh;
      }
