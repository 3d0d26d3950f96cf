-- ===== src/Query/Streaming/Ends.antt =====
-- How a stream ends.
use urban_octo_tribble.Base.{
  ℕ, ◌≡◌, refl, sym, ap, ◌∙◌, ◌⊎◌, inl, inr, Bool, true, false, Bool-cases, List, [], ◌∷◌, ◌++◌,
  All, Option, none, some, Text, ◌==◌, arith,
}
use mathlib.Core.Path.{subst⁻¹}
use mathlib.Core.List.{append-nil, append_assoc}
use urban_octo_tribble.Redis.{Redis}
use urban_octo_tribble.Cache.{Json, KeyTools}
use urban_octo_tribble.Database.{one, one_or_none, matching, any_row, Table}
use urban_octo_tribble.Llm.{from_provider, error_event, token, usage, error}
use urban_octo_tribble.Rag.{
  Numbers, RagError, Vector, Answer, RagService, Question, RagEvent, citations_event,
  no_context_token, llm_event,
}
use urban_octo_tribble.Rag.Asking.{RagStream, ask_stream}
use urban_octo_tribble.Query.{
  QueryRow, same_query, commit_error, refresh_error, Fault, raised, provider_fault, service_fault,
  Draws,
}
use urban_octo_tribble.Query.Streaming.{
  S, Sse, citations_sse, token_sse, usage_sse, error_sse, done_sse, Progress, no_progress, Ending,
  returned, ended, send, forward, streamed_row, refreshed, save_streamed, close, save_drawn,
  conclude, event_generator,
}

module _ (N : Numbers) (tools : KeyTools N.Score) (answers : Json (Answer N))
    (vectors : Json (Vector N)) (R : Redis Text Text) (T : Table QueryRow same_query) where
  abbrev Event : Type 0
  Event = Sse N tools answers vectors R T

  abbrev St : Type 0
  St = S N tools answers vectors R T

  abbrev pub is_final : Event → Bool
  is_final (citations_sse _) = false
  is_final (token_sse _ _ _) = false
  is_final (usage_sse _) = false
  is_final (error_sse _) = true
  is_final (done_sse _ _ _) = true

  abbrev pub text_of : Event → Text
  text_of (citations_sse _) = []
  text_of (token_sse text _ _) = text
  text_of (usage_sse _) = []
  text_of (error_sse _) = []
  text_of (done_sse _ _ _) = []

  -- The text of all tokens.
  abbrev pub sent_text : List Event → Text
  sent_text [] = []
  sent_text (e ∷ events) = text_of e ++ sent_text events

  abbrev pub NoneFinal : List Event → Type 0
  NoneFinal = All (λ e. is_final e ≡ false)

  -- What the loop sends: it returns with an error event, or goes through and has the text.
  abbrev Forwarded : Text → List Event × Ending N tools answers vectors R T → Type 0
  Forwarded answer r =
      ((front : List Event) × (fault : Fault) × (r ≡ (front ++ error_sse fault ∷ [], returned))
        × NoneFinal front)
      ⊎ ((front : List Event) × (p : Progress N tools answers vectors R T) × (r ≡ (front, ended p))
          × NoneFinal front
          × (p.full_answer ≡ answer ++ sent_text front))

  send-Forwarded :
      (answer : Text) (e : Event) (r : List Event × Ending N tools answers vectors R T)
      → is_final e ≡ false
      → Forwarded (answer ++ text_of e) r
      → Forwarded answer (send N tools answers vectors R T e r)
  send-Forwarded answer e r going (inl (front, fault, same, h)) =
      inl (e ∷ front, fault, ap (send N tools answers vectors R T e) same, (going, h))
  send-Forwarded answer e r going (inr (front, p, same, h, text)) = inr (
    e ∷ front,
    p,
    ap (send N tools answers vectors R T e) same,
    (going, h),
    text ∙ append_assoc answer (text_of e) (sent_text front),
  )

  silent-Forwarded :
      (answer : Text) (r : List Event × Ending N tools answers vectors R T)
      → Forwarded answer r
      → Forwarded (answer ++ []) r
  silent-Forwarded answer r h = subst⁻¹ (λ (t : Text). Forwarded t r) (append-nil answer) h

  forward-Forwarded :
      (events : List (RagEvent N)) (p : Progress N tools answers vectors R T)
      → Forwarded p.full_answer (forward N tools answers vectors R T p events)
  unfolding forward
  forward-Forwarded [] p = inr ([], p, refl, tt, sym (append-nil p.full_answer))
  forward-Forwarded (citations_event citations ∷ events) p =
      send-Forwarded p.full_answer _ _ refl
        (silent-Forwarded p.full_answer _ (forward-Forwarded events _))
  forward-Forwarded (no_context_token text ∷ events) p =
      send-Forwarded p.full_answer _ _ refl (forward-Forwarded events _)
  forward-Forwarded (llm_event (from_provider (token text) provider model) ∷ events) p =
      send-Forwarded p.full_answer _ _ refl (forward-Forwarded events _)
  forward-Forwarded (llm_event (from_provider (usage total) provider model) ∷ events) p =
      send-Forwarded p.full_answer _ _ refl
        (silent-Forwarded p.full_answer _ (forward-Forwarded events _))
  forward-Forwarded (llm_event (from_provider (error e) provider model) ∷ events) p =
      inl ([], provider_fault e, refl, tt)
  forward-Forwarded (llm_event (error_event e) ∷ events) p = inl ([], service_fault e, refl, tt)

  -- A row was added, with the text that was sent.
  pub record IsAdded (user_id : ℕ) (document_id : Option ℕ) (query : Text) (front : List Event)
      (row : QueryRow) (t t' : T.Store) : Type 0 where
    added : T.rows t' ≡ T.rows t ++ row ∷ []
    by_user : row.user_id ≡ user_id
    on_document : row.document_id ≡ document_id
    asked : row.query ≡ query
    as_sent : row.answer ≡ sent_text front

  -- The id of the new row is sent last.
  pub record IsSaved (user_id : ℕ) (document_id : Option ℕ) (query : Text) (front : List Event)
      (last : Event) (t t' : T.Store) : Type 0 where
    row : QueryRow
    is_done : last ≡ done_sse row.id row.answer row.response_time_ms
    is_added : IsAdded user_id document_id query front row t t'

  -- An error is sent last, and no row was added, or one was that could not be read again.
  pub record IsFailed (user_id : ℕ) (document_id : Option ℕ) (query : Text) (front : List Event)
      (last : Event) (t t' : T.Store) : Type 0 where
    fault : Fault
    is_error : last ≡ error_sse fault
    rows :
        (t' ≡ t)
        ⊎ ((row : QueryRow) × (fault ≡ raised refresh_error)
            × IsAdded user_id document_id query front row t t')

  fresh_matching :
      (row : QueryRow) (rows : List QueryRow)
      → any_row (same_query row) rows ≡ false
      → matching (λ r. r.id == row.id) (rows ++ row ∷ []) ≡ row ∷ []
  fresh_matching row [] h = let same : (row.id == row.id) ≡ true = ground arith in rw same refl
  fresh_matching row (r ∷ rows) h = elim (Bool-cases (row.id == r.id)) [
    | inl e ↦ absurd (ground arith)
    | inr e ↦
        let apart : (r.id == row.id) ≡ false = ground arith in
        rw apart (fresh_matching row rows (rw e at h))
  ]

  row_added :
      (row : QueryRow) (front : List Event) (t t' : T.Store)
      → T.rows t' ≡ T.rows t ++ row ∷ []
      → row.answer ≡ sent_text front
      → IsAdded row.user_id row.document_id row.query front row t t'
  row_added row front t t' rows text = record {
    added = rows;
    by_user = refl;
    on_document = refl;
    asked = refl;
    as_sent = text;
  }

  refreshed-cases :
      (refreshes : Bool) (row : QueryRow) (front : List Event) (t t' : T.Store)
      → IsAdded row.user_id row.document_id row.query front row t t'
      → let last = refreshed N tools answers vectors R T refreshes row (one row) in
        IsSaved row.user_id row.document_id row.query front last t t'
        ⊎ IsFailed row.user_id row.document_id row.query front last t t'
  refreshed-cases true row front t t' h = inl (record { row = row; is_done = refl; is_added = h })
  refreshed-cases false row front t t' h =
      inr (record { fault = raised refresh_error; is_error = refl; rows = inr (row, refl, h) })

  save_streamed-cases :
      (refreshes : Bool) (row : QueryRow) (front : List Event) (s : St)
      → row.answer ≡ sent_text front
      → let r = save_streamed N tools answers vectors R T refreshes row s in
        IsSaved row.user_id row.document_id row.query front r.0 s.store r.1.store
        ⊎ IsFailed row.user_id row.document_id row.query front r.0 s.store r.1.store
  unfolding save_streamed
  save_streamed-cases refreshes row front s text =
      elim (Bool-cases (any_row (same_query row) (T.rows s.store))) [
        | inl taken ↦
            rw (T.insert_conflict row s.store taken)
              (inr (record { fault = raised commit_error; is_error = refl; rows = inl refl }))
        | inr fresh ↦
            let (t, inserted, rows) = T.insert_fresh row s.store fresh in
            let read : T.select (λ r. r.id == row.id) t ≡ one row =
              T.select-rows (λ r. r.id == row.id) t
              ∙ ap (λ l. one_or_none (matching (λ r. r.id == row.id) l)) rows
              ∙ ap one_or_none (fresh_matching row (T.rows s.store) fresh) in
            rw (inserted, read)
              (refreshed-cases refreshes row front s.store t
                (row_added row front s.store t rows text))
      ]

  -- What the last event says of the state.
  abbrev pub Outcome : ℕ → Option ℕ → Text → List Event → Event → T.Store → T.Store → Type 0
  Outcome user_id document_id query front last t t' =
      IsSaved user_id document_id query front last t t'
      ⊎ IsFailed user_id document_id query front last t t'

  failed :
      (user_id : ℕ) (document_id : Option ℕ) (query : Text) (front : List Event) (fault : Fault)
      (t t' : T.Store)
      → t' ≡ t
      → Outcome user_id document_id query front (error_sse fault) t t'
  failed user_id document_id query front fault t t' e =
      inr (record { fault = fault; is_error = refl; rows = inl e })

  save_drawn-Outcome :
      (draws : Draws) (user_id : ℕ) (document_id : Option ℕ) (query : Text)
      (p : Progress N tools answers vectors R T) (front : List Event) (id : Option ℕ) (s : St)
      → p.full_answer ≡ sent_text front
      → let r = save_drawn N tools answers vectors R T draws user_id document_id query p id s in
        Outcome user_id document_id query front r.0 s.store r.1.store
  save_drawn-Outcome draws user_id document_id query p front none s e =
      failed user_id document_id query front _ s.store s.store refl
  save_drawn-Outcome draws user_id document_id query p front (some id) s e =
      save_streamed-cases draws.refreshes
        (streamed_row N tools answers vectors R T id draws user_id document_id query p) front s e

  close-Outcome :
      (draws : Draws) (user_id : ℕ) (document_id : Option ℕ) (query : Text)
      (p : Progress N tools answers vectors R T) (front : List Event) (raises : Option RagError)
      (s : St)
      → p.full_answer ≡ sent_text front
      → let r = close N tools answers vectors R T draws user_id document_id query p raises s in
        Outcome user_id document_id query front r.0 s.store r.1.store
  close-Outcome draws user_id document_id query p front (some x) s e =
      failed user_id document_id query front _ s.store s.store refl
  close-Outcome draws user_id document_id query p front none s e =
      save_drawn-Outcome draws user_id document_id query p front draws.new_id s e

  -- A list of events, and a store, after a stream.
  abbrev pub EndsWell : ℕ → Option ℕ → Text → T.Store → List Event × St → Type 0
  EndsWell user_id document_id query t (sent, s') =
      (front : List Event) × (last : Event) × (sent ≡ front ++ last ∷ [])
      × NoneFinal front
      × Outcome user_id document_id query front last t s'.store

  conclude-EndsWell :
      (draws : Draws) (user_id : ℕ) (document_id : Option ℕ) (query : Text)
      (stream : RagStream N tools answers vectors R)
      (r : List Event × Ending N tools answers vectors R T) (s : St)
      → Forwarded [] r
      → EndsWell user_id document_id query s.store
          (conclude N tools answers vectors R T draws user_id document_id query stream r s)
  conclude-EndsWell draws user_id document_id query stream r s (inl (front, fault, same, h)) =
      subst⁻¹
        (λ x.
          EndsWell user_id document_id query s.store
            (conclude N tools answers vectors R T draws user_id document_id query stream x s))
        same
        (
          front,
          error_sse fault,
          refl,
          h,
          failed user_id document_id query front fault s.store s.store refl,
        )
  conclude-EndsWell draws user_id document_id query stream r s (inr (front, p, same, h, text)) =
      let after : St = record s { rag = stream.exhausted } in
      subst⁻¹
        (λ x.
          EndsWell user_id document_id query s.store
            (conclude N tools answers vectors R T draws user_id document_id query stream x s))
        same
        (
          front,
          (close N tools answers vectors R T draws user_id document_id query p stream.raises
              after).0,
          refl,
          h,
          close-Outcome draws user_id document_id query p front stream.raises after text,
        )

  -- What a stream sends that answers a question, where the service's events are finitely many: some
  -- events of which none is an error or `done`, and then one that is. Either that is `done`, with
  -- the id of the one new row, which has the user, the document and the query that the generator
  -- was given, and for its answer the text of all tokens that were sent; or it is an error, and no
  -- row was added, unless the error is that of the refresh after the commit: then there can be such a row.
  pub event_generator-EndsWell :
      (service : RagService N) (draws : Draws) (user_id : ℕ) (document_id : Option ℕ)
      (q : Question N) (s : St)
      → EndsWell user_id document_id q.query s.store
          (event_generator N tools answers vectors R T service draws user_id document_id q s)
  unfolding event_generator
  event_generator-EndsWell service draws user_id document_id q s =
      let stream = ask_stream N tools answers vectors R service draws.times.embedded q s.rag in
      conclude-EndsWell draws user_id document_id q.query stream _ s
        (forward-Forwarded stream.events (no_progress N tools answers vectors R T))
