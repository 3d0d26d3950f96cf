-- ===== src/Pipeline/Worker/Embedded.antt =====
-- What embedding a document adds to the vector store.
mod Tests
use urban_octo_tribble.Base.{
  ℕ, zero, suc, ◌+◌, ◌≤◌, ◌≡◌, ◌≢◌, refl, sym, ap, ◌∙◌, ◌⊎◌, inl, inr, Bool, true, false, not,
  Bool-cases, List, [], ◌∷◌, ◌++◌, map, Option, none, some, some-injective, Text, length, ◌==◌,
  ==_iff, if◌then◌else◌, arith,
}
use mathlib.Core.Path.{subst, subst⁻¹}
use mathlib.Core.List.{append-nil, append_assoc}
use urban_octo_tribble.Base.Exec.{Result, ok, err, continue, modify}
use urban_octo_tribble.Database.{matching, update_matching}
use urban_octo_tribble.Chunking.{Chunker, Encoder}
use urban_octo_tribble.VectorStore.{Point, Qdrant, add_document_chunk, chunk_payload}
use urban_octo_tribble.Pipeline.{
  completed, DocumentRow, ChunkRow, Tables, TaskError, Tools, of_id, of_document, by_position,
  find_document, State, commit, publish, get_document, get_by_document, mark_completed, lift_text,
}
use urban_octo_tribble.Pipeline.Documents.{find_document-update}
use urban_octo_tribble.Pipeline.Worker.{metadata, add_chunk, add_chunks, embed_found, embed}

module _ {Content Vector Score Token : Type 0} (encoder : Encoder Token) (is_space : ℕ → Bool)
    (chunker : Chunker) (Q : Qdrant Vector Score) (tools : Tools Content Vector) where
  abbrev S : Type 0
  S = State encoder is_space chunker Q tools

  -- The client of the vector store raises nothing.
  unfoldable pub IsReliable : Type 0
  IsReliable =
      (ps : List (Point Vector Score)) (s : Q.Store) → (s' : Q.Store) × (Q.upsert ps s ≡ some s')

  -- A point for each chunk, with its id, position and text, its document, and the title and the owner.
  abbrev pub point_of : DocumentRow → ChunkRow → Vector → Point Vector Score
  point_of d c embedding = record {
    vector = embedding;
    payload =
        chunk_payload (metadata encoder is_space chunker Q tools d) c.id d.id c.chunk.position
          c.chunk.text;
  }

  abbrev pub points_of : DocumentRow → List ChunkRow → List Vector → List (Point Vector Score)
  points_of d [] embeddings = []
  points_of d (c ∷ chunks) [] = []
  points_of d (c ∷ chunks) (e ∷ embeddings) = point_of d c e ∷ points_of d chunks embeddings

  add_chunk_lem :
      IsReliable
      → (d : DocumentRow) (c : ChunkRow) (e : Vector) (s : S)
      → (v : Q.Store) × (add_chunk encoder is_space chunker Q tools d d.id c e s
          ≡ (ok tt, record s { vectors = v }))
        × (Q.points v ≡ Q.points s.vectors ++ point_of d c e ∷ [])
  unfolding IsReliable add_chunk add_document_chunk
  add_chunk_lem reliable d c e s =
      let (v, added) = reliable (point_of d c e ∷ []) s.vectors in
      (v, rw added refl, Q.upsert-points (point_of d c e ∷ []) s.vectors v added)

  add_chunks_lem :
      IsReliable
      → (d : DocumentRow) (chunks : List ChunkRow) (embeddings : List Vector) (s : S)
      → length chunks ≡ length embeddings
      → (v : Q.Store) × (add_chunks encoder is_space chunker Q tools d d.id chunks embeddings s
          ≡ (ok tt, record s { vectors = v }))
        × (Q.points v ≡ Q.points s.vectors ++ points_of d chunks embeddings)
  unfolding add_chunks
  add_chunks_lem reliable d [] [] s h = (s.vectors, refl, sym (append-nil (Q.points s.vectors)))
  add_chunks_lem reliable d [] (e ∷ embeddings) s h = absurd (omega (arith, h))
  add_chunks_lem reliable d (c ∷ chunks) [] s h = absurd (omega (arith, h))
  add_chunks_lem reliable d (c ∷ chunks) (e ∷ embeddings) s h =
      let (v, ran, first) = add_chunk_lem reliable d c e s in
      let (w, rest, others) =
        add_chunks_lem reliable d chunks embeddings (record s { vectors = v }) (omega (arith, h)) in
      (
        w,
        ap
              (λ (x : Result TaskError (Unit {0}) × S).
                continue x.0
                  (λ _. add_chunks encoder is_space chunker Q tools d d.id chunks embeddings) x.1)
              ran
            ∙ rest,
        others
            ∙ ap (λ (l : List (Point Vector Score)). l ++ points_of d chunks embeddings) first
            ∙ append_assoc (Q.points s.vectors) (point_of d c e ∷ [])
                (points_of d chunks embeddings),
      )

  -- The document is completed, its chunks stay, and there is one more point for each of its chunks.
  pub record IsEmbedded (d : DocumentRow) (embeddings : List Vector) (s : S)
      (r : Result TaskError (Unit {0}) × S) : Type 0 where
    pub returns : r.0 ≡ ok tt
    pub added :
        Q.points r.1.vectors
        ≡ Q.points s.vectors
          ++ points_of d (by_position (matching (of_document d.id) s.tables.chunks)) embeddings
    pub status :
        find_document d.id r.1.tables.documents
        ≡ some (mark_completed encoder is_space chunker Q tools d)
    pub same_chunks : r.1.tables.chunks ≡ s.tables.chunks
    pub same_queue : r.1.queue ≡ s.queue

  embed_found_chunks :
      (d : DocumentRow) (c : ChunkRow) (chunks : List ChunkRow) (embeddings : List Vector) (s : S)
      (v : Q.Store)
      → add_chunks encoder is_space chunker Q tools d d.id (c ∷ chunks) embeddings s
        ≡ (ok tt, record s { vectors = v })
      → Q.points v
        ≡ Q.points s.vectors
          ++ points_of d (by_position (matching (of_document d.id) s.tables.chunks)) embeddings
      → find_document d.id s.tables.documents ≡ some d
      → s.commits ≡ []
      → tools.embed_batch (map (λ (c : ChunkRow). c.chunk.text) (c ∷ chunks)) ≡ ok embeddings
      → IsEmbedded d embeddings s
          (embed_found encoder is_space chunker Q tools d d.id (c ∷ chunks) s)
  unfolding embed_found commit
  embed_found_chunks d c chunks embeddings s v ran points found commits computed =
      let now =
        find_document-update (mark_completed encoder is_space chunker Q tools) d.id
          s.tables.documents (λ r. refl) found in
      record {
        returns = rw (computed, ran, commits) refl;
        added = rw (computed, ran, commits) points;
        status = rw (computed, ran, commits) now;
        same_chunks = rw (computed, ran, commits) refl;
        same_queue = rw (computed, ran, commits) refl;
      }

  embed_found_lem :
      IsReliable
      → (d : DocumentRow) (chunks : List ChunkRow) (embeddings : List Vector) (s : S)
      → chunks ≡ by_position (matching (of_document d.id) s.tables.chunks)
      → chunks ≢ []
      → find_document d.id s.tables.documents ≡ some d
      → s.commits ≡ []
      → tools.embed_batch (map (λ (c : ChunkRow). c.chunk.text) chunks) ≡ ok embeddings
      → length chunks ≡ length embeddings
      → IsEmbedded d embeddings s (embed_found encoder is_space chunker Q tools d d.id chunks s)
  embed_found_lem reliable d [] embeddings s whole some_chunk found commits computed h =
      absurd (some_chunk refl)
  embed_found_lem reliable d (c ∷ chunks) embeddings s whole some_chunk found commits computed h =
      let (v, ran, stored) = add_chunks_lem reliable d (c ∷ chunks) embeddings s h in
      embed_found_chunks d c chunks embeddings s v ran
        (subst (λ l. Q.points v ≡ Q.points s.vectors ++ points_of d l embeddings) whole stored)
        found commits computed

  -- Embedding a document that has chunks, where no service, commit or call raises and the model gives a vector
  -- for each chunk: the task returns, the document is completed, and to what the vector store held comes one point for
  -- each chunk, in the order of their positions. No point is replaced or removed, so that embedding again
  -- adds each chunk a second time.
  pub embed-IsEmbedded :
      IsReliable
      → (d : DocumentRow) (embeddings : List Vector) (s : S)
      → let chunks = by_position (matching (of_document d.id) s.tables.chunks) in
        tools.services_ready ≡ true
        → find_document d.id s.tables.documents ≡ some d
        → chunks ≢ []
        → s.commits ≡ []
        → tools.embed_batch (map (λ (c : ChunkRow). c.chunk.text) chunks) ≡ ok embeddings
        → length chunks ≡ length embeddings
        → IsEmbedded d embeddings s (embed encoder is_space chunker Q tools d.id s)
  unfolding embed get_document get_by_document
  embed-IsEmbedded reliable d embeddings s ready found some_chunk commits computed h =
      let chunks = by_position (matching (of_document d.id) s.tables.chunks) in
      rw (ready, found)
        (embed_found_lem reliable d chunks embeddings s refl some_chunk found commits computed h)
