-- ===== src/Documents/Outcomes.antt =====
-- What an upload and a deletion leave, errors included.
use urban_octo_tribble.Base.{
  ℕ, ◌≡◌, refl, ◌⊎◌, inl, inr, Bool, true, false, Bool-cases, List, [], ◌∷◌, if◌then◌else◌,
}
use mathlib.Core.Path.{subst⁻¹}
use urban_octo_tribble.Base.Dict.{has}
use urban_octo_tribble.Base.Exec.{Result, ok, err, modify, ◌>>◌}
use urban_octo_tribble.Documents.{
  DocumentRow, DocumentEvent, commit_exception, clock_exception, DocumentError, database_error,
  uncaught, deleted, Clients, State, commit_next, commit, trying, publish, publish_next,
}
use urban_octo_tribble.Documents.Changes.{
  or_old, clean_up, without, without_chunks, remove_row, delete_document,
}

module _ (C : Clients) where
  -- The row is gone, and the chunks of the document with it; nothing more of the rows and chunks
  -- is, and no short URL referred to the document.
  pub record IsRemoved (d : DocumentRow) (s t : State C) : Type 0 where
    unshared : has d.id s.shared ≡ false
    documents : t.documents ≡ without C d.id s.documents
    chunks : t.chunks ≡ without_chunks C d.id s.chunks

  pub record IsKept (s t : State C) : Type 0 where
    documents : t.documents ≡ s.documents
    chunks : t.chunks ≡ s.chunks

  -- How a deletion ends: it returns, or no id could be drawn for the event, and the row is gone; or
  -- the database has raised, and all rows stay.
  abbrev pub Outcome : DocumentRow → State C → Result DocumentError (Unit {0}) × State C → Type 0
  Outcome d s r =
      (((r.0 ≡ ok tt) ⊎ (r.0 ≡ err (uncaught clock_exception))) × IsRemoved d s r.1)
      ⊎ ((r.0 ≡ err (database_error commit_exception)) × IsKept s r.1)

  pub record IsDeletion (d : DocumentRow) (s : State C)
      (r : Result DocumentError (Unit {0}) × State C) : Type 0 where
    vectors : r.1.vectors ≡ or_old C (C.delete_vectors d.id s.vectors) s.vectors
    objects : r.1.objects ≡ or_old C (C.delete_object d.storage_key s.objects) s.objects
    outcome : Outcome d s r

  abbrev Deleted : DocumentRow → State C → Result DocumentError (Unit {0}) × State C → Type 0
  Deleted d t r = (r.1.vectors ≡ t.vectors) × (r.1.objects ≡ t.objects) × Outcome d t r

  -- The clean-up touches no row.
  cleaned :
      (d : DocumentRow) (s : State C) (r : Result DocumentError (Unit {0}) × State C)
      → Outcome d (clean_up C d s) r
      → Outcome d s r
  unfolding clean_up
  cleaned d s r (inl (ends, h)) =
      inl (ends, record { unshared = h.unshared; documents = h.documents; chunks = h.chunks })
  cleaned d s r (inr (raises, h)) =
      inr (raises, record { documents = h.documents; chunks = h.chunks })

  publish_next-Deleted :
      (d : DocumentRow) (e : DocumentEvent) (ids : List ℕ) (t u : State C)
      → u.vectors ≡ t.vectors
      → u.objects ≡ t.objects
      → IsRemoved d t u
      → Deleted d t (trying C uncaught (publish_next C ids e) u)
  publish_next-Deleted d e [] t u v o h = (v, o, inl (inr refl, h))
  publish_next-Deleted d e (_ ∷ ids) t u v o h = (
    v,
    o,
    inl (inl refl, record { unshared = h.unshared; documents = h.documents; chunks = h.chunks }),
  )

  publish-Deleted :
      (d : DocumentRow) (e : DocumentEvent) (t u : State C)
      → u.vectors ≡ t.vectors
      → u.objects ≡ t.objects
      → IsRemoved d t u
      → Deleted d t (trying C uncaught (publish C e) u)
  publish-Deleted d e t u v o h = elim (Bool-cases C.has_events) [
    | inl on ↦ rw on (publish_next-Deleted d e u.ids t u v o h)
    | inr off ↦ rw off (v, o, inl (inl refl, h))
  ]

  removed :
      (d : DocumentRow) (e : DocumentEvent) (commits : List Bool) (t : State C)
      → has d.id t.shared ≡ false
      → Deleted d t (
          (trying C database_error (
                commit_next C commits (without C d.id)
                >> modify (λ u. record u { chunks = without_chunks C d.id u.chunks }))
              >> trying C uncaught (publish C e))
            t)
  removed d e [] t apart =
      publish-Deleted d e t
        (record t {
          documents = without C d.id t.documents;
          chunks = without_chunks C d.id t.chunks;
        })
        refl refl (record { unshared = apart; documents = refl; chunks = refl })
  removed d e (true ∷ commits) t apart =
      publish-Deleted d e t
        (record t {
          documents = without C d.id t.documents;
          chunks = without_chunks C d.id t.chunks;
          commits = commits;
        })
        refl refl (record { unshared = apart; documents = refl; chunks = refl })
  removed d e (false ∷ commits) t apart =
      (refl, refl, inr (refl, record { documents = refl; chunks = refl }))

  -- Deleting a document removes its vectors and its file first, each if its client does not raise,
  -- and whatever the database then does. Then either no short URL refers to the document, exactly
  -- its row and its chunks are removed, and the handler returns or raises because no id could be
  -- drawn for the event; or the database raises, and every row and chunk stays: so it is for each
  -- document that a short URL refers to.
  pub delete_document-IsDeletion :
      (user_id : ℕ) (d : DocumentRow) (s : State C) → IsDeletion d s (delete_document C user_id d s)
  unfolding delete_document clean_up remove_row commit
  delete_document-IsDeletion user_id d s =
      let e = deleted user_id d.id d.title in
      let c = clean_up C d s in
      elim (Bool-cases (has d.id s.shared)) [
        | inl shared ↦ record {
          vectors = rw shared refl;
          objects = rw shared refl;
          outcome = rw shared (inr (refl, record { documents = refl; chunks = refl }));
        }
        | inr apart ↦
            let (vectors, objects, outcome) =
              subst⁻¹
                (λ b. Deleted d c (
                  (trying C database_error (λ t.
                        if b
                        then (err commit_exception, t)
                        else (commit C (without C d.id)
                              >> modify (λ u. record u { chunks = without_chunks C d.id u.chunks }))
                            t)
                      >> trying C uncaught (publish C e))
                    c))
                apart (removed d e s.commits c apart) in
            record { vectors = vectors; objects = objects; outcome = cleaned d s _ outcome }
      ]
