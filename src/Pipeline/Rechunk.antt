-- ===== src/Pipeline/Rechunk.antt =====
-- What chunking a document leaves in the table of chunks.
mod Tests
use urban_octo_tribble.Base.{
  ℕ, zero, suc, ◌+◌, ◌≤◌, ◌≡◌, refl, sym, ap, ◌∙◌, ◌⊎◌, inl, inr, Bool, true, false, Bool-cases,
  List, [], ◌∷◌, ◌++◌, map, All, Option, none, some, some-injective, Text, length, ◌==◌, ==_iff,
  if◌then◌else◌, arith,
}
use mathlib.Core.Path.{subst, subst⁻¹}
use mathlib.Core.List.{append-nil}
use urban_octo_tribble.Base.Exec.{Result, ok, err, modify}
use urban_octo_tribble.Database.{matching}
use urban_octo_tribble.Chunking.{Chunk, Chunker, Encoder, Piece, chunk_row, content_or_empty, build}
use urban_octo_tribble.Chunking
use urban_octo_tribble.VectorStore.{Qdrant}
use urban_octo_tribble.Pipeline.Documents.{find_document-update}
use urban_octo_tribble.Pipeline.{
  mark_completed, DocumentRow, ChunkRow, Tables, TaskError, TaskEvent, document_chunked, chunking,
  failure, Task, embed_chunks, Tools, of_document, find_document, remove_matching, with_rest, Draw,
  number_chunks, State, commit, get_document, delete_by_document, create_chunks, build_chunks,
  drawn, chunk_and_store, chunk,
}

module _ (p : ChunkRow → Bool) where
  abbrev Satisfied : ChunkRow → Type 0
  Satisfied c = p c ≡ true

  matching-append : (l m : List ChunkRow) → matching p (l ++ m) ≡ matching p l ++ matching p m
  matching-append [] m = refl
  matching-append (c ∷ l) m = elim (Bool-cases (p c)) [
    | inl e ↦ rw e (ap (λ (t : List ChunkRow). c ∷ t) (matching-append l m))
    | inr e ↦ rw e (matching-append l m)
  ]

  remove_matching-append :
      (l m : List ChunkRow)
      → remove_matching p (l ++ m) ≡ remove_matching p l ++ remove_matching p m
  remove_matching-append [] m = refl
  remove_matching-append (c ∷ l) m = elim (Bool-cases (p c)) [
    | inl e ↦ rw e (remove_matching-append l m)
    | inr e ↦ rw e (ap (λ (t : List ChunkRow). c ∷ t) (remove_matching-append l m))
  ]

  matching-remove_matching : (l : List ChunkRow) → matching p (remove_matching p l) ≡ []
  matching-remove_matching [] = refl
  matching-remove_matching (c ∷ l) = elim (Bool-cases (p c)) [
    | inl e ↦ rw e (matching-remove_matching l)
    | inr e ↦ rw (e, e) (matching-remove_matching l)
  ]

  remove_matching_twice :
      (l : List ChunkRow) → remove_matching p (remove_matching p l) ≡ remove_matching p l
  remove_matching_twice [] = refl
  remove_matching_twice (c ∷ l) = elim (Bool-cases (p c)) [
    | inl e ↦ rw e (remove_matching_twice l)
    | inr e ↦ rw (e, e) (ap (λ (t : List ChunkRow). c ∷ t) (remove_matching_twice l))
  ]

  matching_all : (l : List ChunkRow) → All Satisfied l → matching p l ≡ l
  matching_all [] h = refl
  matching_all (c ∷ l) (e, h) = rw e (ap (λ (t : List ChunkRow). c ∷ t) (matching_all l h))

  remove_all_of : (l : List ChunkRow) → All Satisfied l → remove_matching p l ≡ []
  remove_all_of [] h = refl
  remove_all_of (c ∷ l) (e, h) = rw e (remove_all_of l h)

abbrev pub chunk_of : ChunkRow → Chunk
chunk_of c = c.chunk

number_chunks-length :
    (chunks : List Chunk) (ids : List Draw)
    → length chunks ≤ length ids
    → (rows : List ChunkRow) × (rest : List Draw) × (number_chunks chunks ids ≡ some (rows, rest))
      × (map chunk_of rows ≡ chunks)
number_chunks-length [] ids h = ([], ids, refl, refl)
number_chunks-length (c ∷ chunks) [] h = absurd (omega (arith, h))
number_chunks-length (c ∷ chunks) ((id, now) ∷ ids) h =
    let (rows, rest, made, same) = number_chunks-length chunks ids (omega (arith, h)) in
    (
      record { id = id; created_at = now; chunk = c } ∷ rows,
      rest,
      ap (with_rest (record { id = id; created_at = now; chunk = c })) made,
      ap (λ (l : List Chunk). c ∷ l) same,
    )

rows_of_document :
    (document_id : ℕ) (rows : List ChunkRow) (pieces : List Piece)
    → map chunk_of rows ≡ map (chunk_row document_id) pieces
    → All (λ c. of_document document_id c ≡ true) rows
rows_of_document document_id [] pieces e = tt
rows_of_document document_id (c ∷ rows) [] e = cc e
rows_of_document document_id (c ∷ rows) (q ∷ pieces) e =
    let head : c.chunk ≡ chunk_row document_id q = ap (first_or c.chunk) e in
    let same : c.chunk.document_id ≡ document_id = ap (λ (x : Chunk). x.document_id) head in
    (
      (==_iff c.chunk.document_id document_id).1 same,
      rows_of_document document_id rows pieces (ap rest_of e),
    )
  where
    first_or : Chunk → List Chunk → Chunk
    first_or d [] = d
    first_or d (x ∷ l) = x

    rest_of : List Chunk → List Chunk
    rest_of [] = []
    rest_of (x ∷ l) = l

find_document-id :
    (document_id : ℕ) (rows : List DocumentRow) {d : DocumentRow}
    → find_document document_id rows ≡ some d
    → d.id ≡ document_id
find_document-id document_id [] h = cc h
find_document-id document_id (r ∷ rows) {d = d} h = elim (Bool-cases (r.id == document_id)) [
  | inl e ↦
      ap (λ (x : DocumentRow). x.id) (sym (some-injective _ _ (rw e at h)))
      ∙ (==_iff r.id document_id).0 e
  | inr e ↦ find_document-id document_id rows (rw e at h)
]

module _ {Content Vector Score Token : Type 0} (encoder : Encoder Token) (is_space : ℕ → Bool)
    (chunker : Chunker) (Q : Qdrant Vector Score) (tools : Tools Content Vector) where
  -- The chunks that a document's content has.
  abbrev pub chunks_of : DocumentRow → List Chunk
  chunks_of d =
      map (chunk_row d.id) (Chunking.chunk encoder is_space chunker (content_or_empty d.content))

  -- The document is completed, it has the chunks of its content and no other, the other documents keep theirs, and the
  -- embedding is the next task.
  pub record IsRechunked (d : DocumentRow) (s : State encoder is_space chunker Q tools)
      (r : Result TaskError (Unit {0}) × State encoder is_space chunker Q tools) : Type 0 where
    pub returns : r.0 ≡ ok tt
    pub own : map chunk_of (matching (of_document d.id) r.1.tables.chunks) ≡ chunks_of d
    pub others :
        remove_matching (of_document d.id) r.1.tables.chunks
        ≡ remove_matching (of_document d.id) s.tables.chunks
    pub next : r.1.queue ≡ s.queue ++ embed_chunks d.id ∷ []
    pub status :
        find_document d.id r.1.tables.documents
        ≡ some (mark_completed encoder is_space chunker Q tools d)
    pub same_vectors : r.1.vectors ≡ s.vectors
    pub same_commits : r.1.commits ≡ []

  stored_own :
      (d : DocumentRow) (old rows : List ChunkRow)
      → map chunk_of rows ≡ chunks_of d
      → map chunk_of (matching (of_document d.id) (remove_matching (of_document d.id) old ++ rows))
        ≡ chunks_of d
  stored_own d old rows same =
      let p = of_document d.id in
      let all =
        rows_of_document d.id rows
          (Chunking.chunk encoder is_space chunker (content_or_empty d.content)) same in
      rw
        (
          matching-append p (remove_matching p old) rows,
          matching-remove_matching p old,
          matching_all p rows all,
        )
        same

  stored_others :
      (d : DocumentRow) (old rows : List ChunkRow)
      → map chunk_of rows ≡ chunks_of d
      → remove_matching (of_document d.id) (remove_matching (of_document d.id) old ++ rows)
        ≡ remove_matching (of_document d.id) old
  stored_others d old rows same =
      let p = of_document d.id in
      let all =
        rows_of_document d.id rows
          (Chunking.chunk encoder is_space chunker (content_or_empty d.content)) same in
      rw
        (
          remove_matching-append p (remove_matching p old) rows,
          remove_matching_twice p old,
          remove_all_of p rows all,
        )
        (append-nil (remove_matching p old))

  pub chunk-IsRechunked :
      (d : DocumentRow) (s : State encoder is_space chunker Q tools)
      → find_document d.id s.tables.documents ≡ some d
      → s.commits ≡ []
      → length (chunks_of d) ≤ length s.ids
      → IsRechunked d s (chunk encoder is_space chunker Q tools d.id s)
  unfolding chunk chunk_and_store get_document delete_by_document create_chunks build_chunks commit
      build
  chunk-IsRechunked d s found commits enough =
      let (rows, rest, made, same) = number_chunks-length (chunks_of d) s.ids enough in
      let now =
        find_document-update (mark_completed encoder is_space chunker Q tools) d.id
          s.tables.documents (λ r. refl) found in
      record {
        returns = rw (found, commits, made) refl;
        own = rw (found, commits, made) (stored_own d s.tables.chunks rows same);
        others = rw (found, commits, made) (stored_others d s.tables.chunks rows same);
        next = rw (found, commits, made) refl;
        status = rw (found, commits, made) now;
        same_vectors = rw (found, commits, made) refl;
        same_commits = rw (found, commits, made) refl;
      }
