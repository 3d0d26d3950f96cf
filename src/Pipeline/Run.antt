-- ===== src/Pipeline/Run.antt =====
-- A worker that takes an uploaded document through the three tasks.
mod Tests
use urban_octo_tribble.Base.{
  ℕ, zero, suc, ◌≤◌, ◌≡◌, ◌≢◌, refl, sym, ap, ◌∙◌, ◌⊎◌, inl, inr, Bool, true, false, Bool-cases,
  List, [], ◌∷◌, ◌++◌, map, Option, none, some, Text, length, ◌==◌, leb, if◌then◌else◌, arith,
}
use mathlib.Core.Path.{subst, subst⁻¹}
use urban_octo_tribble.Base.Exec.{Result, ok, err, continue, modify}
use urban_octo_tribble.Database.{matching, update_matching}
use urban_octo_tribble.Chunking.{Chunk, Chunker, Encoder}
use urban_octo_tribble.VectorStore.{Qdrant}
use urban_octo_tribble.Pipeline.Documents.{find_document-update}
use urban_octo_tribble.Pipeline.{
  Draw, completed, DocumentRow, ChunkRow, TaskError, Task, process_document, chunk_document,
  embed_chunks, Tools, of_id, of_document, insert_by_position, by_position, find_document, State,
  commit, get_document, mark_completed, process, chunk,
}
use urban_octo_tribble.Pipeline.Rechunk.{chunk_of, chunks_of, IsRechunked, chunk-IsRechunked}
use urban_octo_tribble.Pipeline.Worker.{embed, after_task, run_task, run_next, work}
use urban_octo_tribble.Pipeline.Worker.Embedded.{
  IsReliable, points_of, IsEmbedded, embed-IsEmbedded,
}

module _ {Content Vector Score Token : Type 0} (encoder : Encoder Token) (is_space : ℕ → Bool)
    (chunker : Chunker) (Q : Qdrant Vector Score) (tools : Tools Content Vector) where
  abbrev S : Type 0
  S = State encoder is_space chunker Q tools

  -- The document with its extracted text.
  abbrev pub extracted : DocumentRow → Text → DocumentRow
  extracted d text = record d { content = some text; processing_status = completed }

  record IsProcessed (d : DocumentRow) (text : Text) (s : S) (r : Result TaskError (Unit {0}) × S)
      : Type 0 where
    returns : r.0 ≡ ok tt
    status : find_document d.id r.1.tables.documents ≡ some (extracted d text)
    next : r.1.queue ≡ s.queue ++ chunk_document d.id ∷ []
    same_ids : r.1.ids ≡ s.ids
    same_vectors : r.1.vectors ≡ s.vectors
    same_commits : r.1.commits ≡ []

  process-IsProcessed :
      (d : DocumentRow) (content : Content) (text : Text) (s : S)
      → find_document d.id s.tables.documents ≡ some d
      → s.commits ≡ []
      → tools.download d.storage_key ≡ ok content
      → tools.extract d.content_type content ≡ ok text
      → IsProcessed d text s (process encoder is_space chunker Q tools d.id s)
  unfolding process get_document commit
  process-IsProcessed d content text s found commits downloaded read =
      let now =
        find_document-update (λ r. extracted r text) d.id s.tables.documents (λ r. refl) found in
      record {
        returns = rw (found, downloaded, read, commits) refl;
        status = rw (found, downloaded, read, commits) now;
        next = rw (found, downloaded, read, commits) refl;
        same_ids = rw (found, downloaded, read, commits) refl;
        same_vectors = rw (found, downloaded, read, commits) refl;
        same_commits = rw (found, downloaded, read, commits) refl;
      }

  after_ok :
      (document_id : ℕ) (r : Result TaskError (Unit {0}) × S)
      → r.0 ≡ ok tt
      → after_task encoder is_space chunker Q tools document_id r ≡ r.1
  after_ok document_id (ok u, s) h = refl
  after_ok document_id (err e, s) h = cc h

  insert_nonempty : (c : ChunkRow) (l : List ChunkRow) → insert_by_position c l ≢ []
  insert_nonempty c [] h = cc h
  insert_nonempty c (d ∷ l) h = elim (Bool-cases (leb c.chunk.position d.chunk.position)) [
    | inl e ↦ cc (rw e at h)
    | inr e ↦ cc (rw e at h)
  ]

  by_position_nonempty : (l : List ChunkRow) → map chunk_of l ≢ [] → by_position l ≢ []
  by_position_nonempty [] h = λ _. h refl
  by_position_nonempty (c ∷ l) h = insert_nonempty c (by_position l)

  -- A document that went through: its text is stored, it has the chunks of that text and no other,
  -- the vector store has one more point for each of them, and no task waits.
  pub record IsDone (d : DocumentRow) (text : Text) (s s' : S) : Type 0 where
    embeddings : List Vector
    status : find_document d.id s'.tables.documents ≡ some (extracted d text)
    own :
        map chunk_of (matching (of_document d.id) s'.tables.chunks)
        ≡ chunks_of encoder is_space chunker Q tools (extracted d text)
    added :
        Q.points s'.vectors
        ≡ Q.points s.vectors
          ++ points_of encoder is_space chunker Q tools
              (extracted d text)
              (by_position (matching (of_document d.id) s'.tables.chunks))
              embeddings
    one_each :
        length (by_position (matching (of_document d.id) s'.tables.chunks)) ≡ length embeddings
    idle : s'.queue ≡ []

  -- The embedding model gives a vector for each text.
  unfoldable pub IsModel : Type 0
  IsModel =
      (texts : List Text)
      → (embeddings : List Vector) × (tools.embed_batch texts ≡ ok embeddings)
        × (length embeddings ≡ length texts)

  texts_length :
      (rows : List ChunkRow) → length (map (λ (c : ChunkRow). c.chunk.text) rows) ≡ length rows
  texts_length [] = refl
  texts_length (c ∷ rows) = ap suc (texts_length rows)

  -- The last task.
  embed_step :
      IsReliable encoder is_space chunker Q tools
      → IsModel
      → (d : DocumentRow) (text : Text) (s : S) → tools.services_ready ≡ true
      → find_document d.id s.tables.documents ≡ some (extracted d text)
      → map chunk_of (matching (of_document d.id) s.tables.chunks)
        ≡ chunks_of encoder is_space chunker Q tools (extracted d text)
      → chunks_of encoder is_space chunker Q tools (extracted d text) ≢ []
      → s.commits ≡ []
      → s.queue ≡ []
      → IsDone d text s (run_task encoder is_space chunker Q tools (embed_chunks d.id) s)
  unfolding run_task IsModel
  embed_step reliable model d text s ready found own some_text commits idle =
      let rows = by_position (matching (of_document d.id) s.tables.chunks) in
      let (embeddings, computed, long) = model (map (λ (c : ChunkRow). c.chunk.text) rows) in
      let each : length rows ≡ length embeddings = sym (long ∙ texts_length rows) in
      let nonempty =
        by_position_nonempty (matching (of_document d.id) s.tables.chunks)
          (λ h. some_text (sym own ∙ h)) in
      let h =
        embed-IsEmbedded encoder is_space chunker Q tools reliable (extracted d text) embeddings s
          ready found nonempty commits computed each in
      let ran = embed encoder is_space chunker Q tools d.id s in
      let rows_same : matching (of_document d.id) ran.1.tables.chunks
          ≡ matching (of_document d.id) s.tables.chunks =
        ap (matching (of_document d.id)) h.same_chunks in
      subst⁻¹ (IsDone d text s) (after_ok d.id ran h.returns) (record {
        embeddings = embeddings;
        status = h.status;
        own = ap (map chunk_of) rows_same ∙ own;
        added =
            h.added
            ∙ ap
                (λ l.
                  Q.points s.vectors
                  ++ points_of encoder is_space chunker Q tools (extracted d text) (by_position l)
                      embeddings)
                (sym rows_same);
        one_each = ap (λ l. length (by_position l)) rows_same ∙ each;
        idle = h.same_queue ∙ idle;
      })

  abbrev idle_state : S → S
  idle_state s = record s { queue = [] }

  -- A worker that takes three tasks, starting with the processing of an uploaded document, where no
  -- client or commit raises, the extracted text has chunks, and there are ids for them: at the end the
  -- document is completed, with its text, it has the chunks of the text and no other, each of them has one new
  -- point in the vector store, in the order of their positions, and no task waits.
  pub work-IsDone :
      IsReliable encoder is_space chunker Q tools
      → IsModel
      → (d : DocumentRow) (content : Content) (text : Text) (s : S) → tools.services_ready ≡ true
      → find_document d.id s.tables.documents ≡ some d
      → tools.download d.storage_key ≡ ok content
      → tools.extract d.content_type content ≡ ok text
      → chunks_of encoder is_space chunker Q tools (extracted d text) ≢ []
      → length (chunks_of encoder is_space chunker Q tools (extracted d text)) ≤ length s.ids
      → s.commits ≡ []
      → s.queue ≡ process_document d.id ∷ []
      → IsDone d text s (work encoder is_space chunker Q tools 3 s)
  unfolding work run_task
  work-IsDone reliable model d content text s ready found downloaded read some_text enough commits
        queue =
      let d' = extracted d text in
      let p = process-IsProcessed d content text (idle_state s) found commits downloaded read in
      let s1 = (process encoder is_space chunker Q tools d.id (idle_state s)).1 in
      let step1 : run_next encoder is_space chunker Q tools s.queue s ≡ s1 =
        ap (λ q. run_next encoder is_space chunker Q tools q s) queue
        ∙ after_ok d.id (process encoder is_space chunker Q tools d.id (idle_state s)) p.returns in
      let ids : length (chunks_of encoder is_space chunker Q tools d') ≤ length s1.ids =
        subst⁻¹
          (λ (l : List Draw). length (chunks_of encoder is_space chunker Q tools d') ≤ length l)
          p.same_ids enough in
      let c =
        chunk-IsRechunked encoder is_space chunker Q tools d' (idle_state s1) p.status
          p.same_commits ids in
      let s2 = (chunk encoder is_space chunker Q tools d.id (idle_state s1)).1 in
      let step2 : run_next encoder is_space chunker Q tools s1.queue s1 ≡ s2 =
        ap (λ q. run_next encoder is_space chunker Q tools q s1) p.next
        ∙ after_ok d.id (chunk encoder is_space chunker Q tools d.id (idle_state s1)) c.returns in
      let last =
        embed_step reliable model d text (idle_state s2) ready c.status c.own some_text
          c.same_commits refl in
      let step3 : run_next encoder is_space chunker Q tools s2.queue s2
          ≡ run_task encoder is_space chunker Q tools (embed_chunks d.id) (idle_state s2) =
        ap (λ q. run_next encoder is_space chunker Q tools q s2) c.next in
      let next : S → S = λ t. run_next encoder is_space chunker Q tools t.queue t in
      let whole : next (next (next s))
          ≡ run_task encoder is_space chunker Q tools (embed_chunks d.id) (idle_state s2) =
        ap (λ t. next (next t)) step1 ∙ ap next step2 ∙ step3 in
      subst⁻¹ (IsDone d text s) whole (record {
        embeddings = last.embeddings;
        status = last.status;
        own = last.own;
        added =
            last.added
            ∙ ap
                (λ v.
                  Q.points v
                  ++ points_of encoder is_space chunker Q tools d'
                      (by_position (
                        matching (of_document d.id)
                          (run_task encoder is_space chunker Q tools (embed_chunks d.id)
                            (idle_state s2)).tables.chunks))
                      last.embeddings)
                (c.same_vectors ∙ p.same_vectors);
        one_each = last.one_each;
        idle = last.idle;
      })
