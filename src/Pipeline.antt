-- ===== src/Pipeline.antt =====
-- The tasks that process an uploaded document: app/tasks/base.py, document_processing.py,
-- document_chunking.py and chunks_embedding.py, with ChunkRepository of app/services/ai/chunking.py.
-- The database is the committed documents and chunks; which of the coming commits succeed is a list,
-- and those after it do. A session that ends or rolls back loses what was not committed. Events
-- are published without an exception; the ids of events and the progress reports are left out.
pub mod Documents
pub mod Run
pub mod Samples
pub mod Worker
pub mod Rechunk
use urban_octo_tribble.Base.{
  ℕ, zero, suc, ◌+◌, ◌/◌, ◌≡◌, Bool, true, false, not, List, [], ◌∷◌, ◌++◌, map, Option, none, some,
  Text, codes, length, ◌==◌, leb, if◌then◌else◌,
}
use urban_octo_tribble.Base.Exec.{
  Result, ok, err, Exec, raise, lift, gets, ◌>>=◌, ◌>>◌, continue, modify, raise_if, pure,
}
use urban_octo_tribble.Database.{matching, update_matching, one, Lookup, absent, several}
use urban_octo_tribble.Chunking.{
  Chunk, Chunker, Encoder, BuildError, value_error, new_builder, from_document, with_chunker, build,
}
use urban_octo_tribble.VectorStore.{
  Payload, Value, text, number, Qdrant, StoreError, add_document_chunk,
}

pub data ProcessingStatus : Type 0 where
  pending processing chunked completed failed : ProcessingStatus

-- The columns of a document that the tasks use.
pub record DocumentRow : Type 0 where
  pub id : ℕ
  pub owner_id : ℕ
  pub title : Text
  pub storage_key : Text
  pub content_type : Text
  pub content : Option Text
  pub processing_status : ProcessingStatus
  pub processing_error : Option Text

-- A row of `chunks`, with its primary key and its time.
pub record ChunkRow : Type 0 where
  pub id : ℕ
  pub created_at : ℕ
  pub chunk : Chunk

pub record Tables : Type 0 where
  pub documents : List DocumentRow
  pub chunks : List ChunkRow

pub data TaskError : Type 0 where
  document_not_found : TaskError
  storage_error : Text → TaskError
  extraction_error : Text → TaskError
  commit_error : TaskError
  clock_exception : TaskError
  build_error : TaskError
  services_unavailable : TaskError
  embedding_error : Text → TaskError
  vector_error : StoreError → TaskError
  -- zip(strict=True) of lists of different lengths
  length_error : TaskError

pub data Stage : Type 0 where
  extraction chunking : Stage

pub data TaskEvent : Type 0 where
  processing_started : ℕ → TaskEvent
  processed : ℕ → ℕ → TaskEvent
  document_chunked : ℕ → ℕ → ℕ → TaskEvent
  embedded : ℕ → ℕ → TaskEvent
  finished : ℕ → TaskEvent
  failure : ℕ → Stage → TaskError → TaskEvent

-- The tasks, with the document's id.
pub data Task : Type 0 where
  process_document chunk_document embed_chunks : ℕ → Task

-- What the tasks call: the storage and the extractors, the embedding model, and `str` of an exception.
pub record Tools (Content Vector : Type 0) : Type 0 where
  pub download : Text → Result Text Content
  pub extract : Text → Content → Result Text Text
  pub services_ready : Bool
  pub embed_batch : List Text → Result Text (List Vector)
  pub show : TaskError → Text
  pub has_events : Bool

abbrev pub of_id : ℕ → DocumentRow → Bool
of_id document_id d = d.id == document_id

abbrev pub of_document : ℕ → ChunkRow → Bool
of_document document_id c = c.chunk.document_id == document_id

abbrev pub find_document : ℕ → List DocumentRow → Option DocumentRow
find_document document_id [] = none
find_document document_id (d ∷ rows) =
    if d.id == document_id then some d else find_document document_id rows

abbrev pub remove_matching : (ChunkRow → Bool) → List ChunkRow → List ChunkRow
remove_matching p [] = []
remove_matching p (c ∷ rows) = if p c then remove_matching p rows else c ∷ remove_matching p rows

-- order_by(Chunk.position)
abbrev pub insert_by_position : ChunkRow → List ChunkRow → List ChunkRow
insert_by_position c [] = c ∷ []
insert_by_position c (d ∷ rows) =
    if leb c.chunk.position d.chunk.position then c ∷ d ∷ rows else d ∷ insert_by_position c rows

abbrev pub by_position : List ChunkRow → List ChunkRow
by_position [] = []
by_position (c ∷ rows) = insert_by_position c (by_position rows)

abbrev pub total_size : List ChunkRow → ℕ
total_size [] = 0
total_size (c ∷ rows) = length c.chunk.text + total_size rows

-- sum(len(c.text) for c in chunks) // len(chunks) if chunks else 0
abbrev pub average_size : List ChunkRow → ℕ
average_size [] = 0
average_size (c ∷ rows) = total_size (c ∷ rows) / length (c ∷ rows)

-- A primary key from the id generator, and a reading of the clock.
abbrev pub Draw : Type 0
Draw = ℕ × ℕ

-- `Chunk(..., created_at=utc_now())`: each chunk draws its primary key and its time.
abbrev pub with_rest :
    ChunkRow → Option (List ChunkRow × List Draw) → Option (List ChunkRow × List Draw)
with_rest c none = none
with_rest c (some (rows, ids)) = some (c ∷ rows, ids)

abbrev pub number_chunks : List Chunk → List Draw → Option (List ChunkRow × List Draw)
number_chunks [] ids = some ([], ids)
number_chunks (c ∷ chunks) [] = none
number_chunks (c ∷ chunks) ((id, now) ∷ ids) =
    with_rest (record { id = id; created_at = now; chunk = c }) (number_chunks chunks ids)

module _ {Content Vector Score Token : Type 0} (encoder : Encoder Token) (is_space : ℕ → Bool)
    (chunker : Chunker) (Q : Qdrant Vector Score) (tools : Tools Content Vector) where
  pub record State : Type 0 where
    pub tables : Tables
    pub commits : List Bool
    -- what each call of the constructor of `Chunk` draws
    pub ids : List Draw
    pub vectors : Q.Store
    pub queue : List Task
    pub events : List TaskEvent

  abbrev pub Action : Type 0 → Type 0
  Action A = Exec TaskError State A

  -- A commit of some changes.
  abbrev pub commit_next : List Bool → (Tables → Tables) → Action (Unit {0})
  commit_next [] f s = (ok tt, record s { tables = f s.tables })
  commit_next (true ∷ commits) f s = (ok tt, record s { tables = f s.tables; commits = commits })
  commit_next (false ∷ commits) f s = (err commit_error, record s { commits = commits })

  unfoldable pub commit : (Tables → Tables) → Action (Unit {0})
  commit f s = commit_next s.commits f s

  abbrev pub update_document : ℕ → (DocumentRow → DocumentRow) → Tables → Tables
  update_document document_id f t = record t {
    documents = update_matching (of_id document_id) f t.documents;
  }

  abbrev pub publish : TaskEvent → Action (Unit {0})
  publish e =
      modify (λ s. record s { events = if tools.has_events then s.events ++ e ∷ [] else s.events })

  abbrev pub delay : Task → Action (Unit {0})
  delay t = modify (λ s. record s { queue = s.queue ++ t ∷ [] })

  -- session.get(Document, document_id)
  abbrev pub found_or_raise : Option DocumentRow → Action DocumentRow
  found_or_raise none = raise document_not_found
  found_or_raise (some d) = pure d

  unfoldable pub get_document : ℕ → Action DocumentRow
  get_document document_id s = found_or_raise (find_document document_id s.tables.documents) s

  abbrev pub lift_text : {A : Type 0} → (Text → TaskError) → Result Text A → Action A
  lift_text f (ok a) = pure a
  lift_text f (err e) = raise (f e)

  -- try ... except Exception as e: handler, raise
  abbrev pub recover :
      {A : Type 0} → (TaskError → Action (Unit {0})) → Result TaskError A → Action A
  recover handler (ok a) = pure a
  recover handler (err e) = handler e >> raise e

  abbrev pub attempt : {A : Type 0} → Action A → (TaskError → Action (Unit {0})) → Action A
  attempt m handler s = let (r, s') = m s in recover handler r s'

  -- Both places that mark a document as failed write its status and its error.
  abbrev pub mark_failed : TaskError → DocumentRow → DocumentRow
  mark_failed e d = record d { processing_status = failed; processing_error = some (tools.show e) }

  abbrev pub mark_completed : DocumentRow → DocumentRow
  mark_completed d = record d { processing_status = completed }

  unfoldable pub process : ℕ → Action (Unit {0})
  unfolding commit get_document
  process document_id = do
    d ← get_document document_id
    publish (processing_started document_id)
    attempt
        (do
          content ← lift_text storage_error (tools.download d.storage_key)
          extracted ← lift_text extraction_error (tools.extract d.content_type content)
          commit (
              update_document document_id
                (λ r. record r { content = some extracted; processing_status = completed }))
          publish (processed document_id (length extracted)))
        (λ e.
          commit (update_document document_id (mark_failed e))
          >> publish (failure document_id extraction e))
    delay (chunk_document document_id)

  -- ChunkRepository
  unfoldable pub delete_by_document : ℕ → Action (Unit {0})
  unfolding commit
  delete_by_document document_id =
      commit (λ t. record t { chunks = remove_matching (of_document document_id) t.chunks })

  unfoldable pub create_chunks : List ChunkRow → Action (Unit {0})
  unfolding commit
  create_chunks rows = commit (λ t. record t { chunks = t.chunks ++ rows })

  unfoldable pub get_by_document : ℕ → Action (List ChunkRow)
  get_by_document document_id =
      gets (λ s. by_position (matching (of_document document_id) s.tables.chunks))

  abbrev pub drawn : Option (List ChunkRow × List Draw) → Action (List ChunkRow)
  drawn none s = (err clock_exception, s)
  drawn (some (rows, ids)) s = (ok rows, record s { ids = ids })

  abbrev pub built : Result BuildError (List Chunk) → Action (List ChunkRow)
  built (err e) s = (err build_error, s)
  built (ok chunks) s = drawn (number_chunks chunks s.ids) s

  unfoldable pub build_chunks : DocumentRow → Action (List ChunkRow)
  build_chunks d = built (
      build encoder is_space (
        with_chunker chunker
          (from_document (record { id = d.id; content = d.content }) new_builder)))

  unfoldable pub chunk_and_store : ℕ → DocumentRow → Action (Unit {0})
  unfolding delete_by_document build_chunks create_chunks commit
  chunk_and_store document_id d = do
    delete_by_document document_id
    rows ← build_chunks d
    create_chunks rows
    commit (update_document document_id mark_completed)
    publish (document_chunked document_id (length rows) (average_size rows))

  unfoldable pub chunk : ℕ → Action (Unit {0})
  unfolding get_document chunk_and_store
  chunk document_id = do
    d ← get_document document_id
    attempt (chunk_and_store document_id d) (λ e. publish (failure document_id chunking e))
    delay (embed_chunks document_id)
