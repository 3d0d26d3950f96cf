-- ===== src/Pipeline/Worker.antt =====
-- The task that embeds, app/tasks/chunks_embedding.py, and a worker that runs the tasks, with
-- `ProcessingTask.on_failure` of app/tasks/base.py.
pub mod Embedded
use urban_octo_tribble.Base.{
  ℕ, zero, suc, ◌+◌, ◌≡◌, Bool, true, false, not, List, [], ◌∷◌, ◌++◌, map, Option, none, some,
  Text, codes, length, ◌==◌, if◌then◌else◌,
}
use urban_octo_tribble.Base.Exec.{
  Result, ok, err, Exec, raise, lift, gets, ◌>>=◌, ◌>>◌, continue, modify, raise_if, pure,
}
use urban_octo_tribble.Chunking.{Chunk, Chunker, Encoder}
use urban_octo_tribble.VectorStore.{
  Payload, Value, text, number, Qdrant, StoreError, add_document_chunk,
}
use urban_octo_tribble.Pipeline.{
  DocumentRow, ChunkRow, Tables, TaskError, services_unavailable, embedding_error, vector_error,
  length_error, TaskEvent, embedded, finished, Task, process_document, chunk_document, embed_chunks,
  Tools, find_document, State, Action, commit, update_document, publish, get_document, lift_text,
  mark_failed, mark_completed, process, get_by_document, chunk,
}

module _ {Content Vector Score Token : Type 0} (encoder : Encoder Token) (is_space : ℕ → Bool)
    (chunker : Chunker) (Q : Qdrant Vector Score) (tools : Tools Content Vector) where
  abbrev pub Run : Type 0 → Type 0
  Run A = Action encoder is_space chunker Q tools A

  abbrev pub metadata : DocumentRow → Payload
  metadata d = (codes "document_title", text d.title) ∷ (codes "user_id", number d.owner_id) ∷ []

  abbrev pub lift_store : Result StoreError (Unit {0}) → Result TaskError (Unit {0})
  lift_store (ok u) = ok u
  lift_store (err e) = err (vector_error e)

  unfoldable pub add_chunk : DocumentRow → ℕ → ChunkRow → Vector → Run (Unit {0})
  add_chunk d document_id c embedding s =
      let (r, vectors) =
        add_document_chunk Vector Score Q c.id document_id c.chunk.text c.chunk.position embedding
          (some (metadata d)) s.vectors in
      (lift_store r, record s { vectors = vectors })

  -- for chunk, embedding in zip(chunks, embeddings, strict=True): ...
  unfoldable pub add_chunks : DocumentRow → ℕ → List ChunkRow → List Vector → Run (Unit {0})
  unfolding add_chunk
  add_chunks d document_id [] [] = pure tt
  add_chunks d document_id [] (e ∷ embeddings) = raise length_error
  add_chunks d document_id (c ∷ chunks) [] = raise length_error
  add_chunks d document_id (c ∷ chunks) (e ∷ embeddings) =
      add_chunk d document_id c e >> add_chunks d document_id chunks embeddings

  -- embeddings_count, and the time that is left out
  unfoldable pub embed_found : DocumentRow → ℕ → List ChunkRow → Run (Unit {0})
  unfolding add_chunks
  embed_found d document_id [] = commit encoder is_space chunker Q tools (
      update_document encoder is_space chunker Q tools document_id
        (mark_completed encoder is_space chunker Q tools))
  embed_found d document_id (c ∷ chunks) = do
    embeddings ←
        lift_text encoder is_space chunker Q tools embedding_error
          (tools.embed_batch (map (λ (r : ChunkRow). r.chunk.text) (c ∷ chunks)))
    add_chunks d document_id (c ∷ chunks) embeddings
    commit encoder is_space chunker Q tools (
        update_document encoder is_space chunker Q tools document_id
          (mark_completed encoder is_space chunker Q tools))
    publish encoder is_space chunker Q tools (embedded document_id (length embeddings))
    publish encoder is_space chunker Q tools (finished document_id)

  unfoldable pub embed : ℕ → Run (Unit {0})
  unfolding embed_found
  embed document_id = do
    raise_if (not tools.services_ready) services_unavailable
    d ← get_document encoder is_space chunker Q tools document_id
    chunks ← get_by_document encoder is_space chunker Q tools document_id
    embed_found d document_id chunks

  -- The document is looked for again, and an exception is logged.
  abbrev pub fail_found :
      TaskError
      → ℕ
      → Option DocumentRow
      → State encoder is_space chunker Q tools
      → State encoder is_space chunker Q tools
  fail_found e document_id none s = s
  fail_found e document_id (some d) s =
      (commit encoder is_space chunker Q tools
        (update_document encoder is_space chunker Q tools document_id
          (mark_failed encoder is_space chunker Q tools e))
        s).1

  unfoldable pub on_failure :
      TaskError
      → ℕ
      → State encoder is_space chunker Q tools
      → State encoder is_space chunker Q tools
  on_failure e document_id s =
      fail_found e document_id (find_document document_id s.tables.documents) s

  abbrev pub after_task :
      ℕ
      → Result TaskError (Unit {0}) × State encoder is_space chunker Q tools
      → State encoder is_space chunker Q tools
  after_task document_id (ok _, s) = s
  after_task document_id (err e, s) = on_failure e document_id s

  unfoldable pub run_task :
      Task → State encoder is_space chunker Q tools → State encoder is_space chunker Q tools
  unfolding on_failure embed
  run_task (process_document document_id) s =
      after_task document_id (process encoder is_space chunker Q tools document_id s)
  run_task (chunk_document document_id) s =
      after_task document_id (chunk encoder is_space chunker Q tools document_id s)
  run_task (embed_chunks document_id) s = after_task document_id (embed document_id s)

  -- The worker takes the task that waits longest, `n` times.
  abbrev pub run_next :
      List Task → State encoder is_space chunker Q tools → State encoder is_space chunker Q tools
  run_next [] s = s
  run_next (t ∷ queue) s = run_task t (record s { queue = queue })

  unfoldable pub work :
      ℕ → State encoder is_space chunker Q tools → State encoder is_space chunker Q tools
  unfolding run_task
  work zero s = s
  work (suc n) s = work n (run_next s.queue s)
