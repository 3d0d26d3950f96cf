-- ===== src/Documents.antt =====
-- The handlers of app/routes/documents.py that create, upload, update, delete and list documents,
-- with app/models/document.py, app/schemas/document.py and the keys of
-- app/services/storage/minio_adapter.py. The database is the committed rows; which of the coming
-- commits succeed is a list, and those after it do. S3, the broker of the tasks, the vector store and
-- ORDER BY are parameters. The handlers get documents that `verify_document_ownership` found.
pub mod Samples
pub mod Changes
pub mod Outcomes
pub mod Uploads
use urban_octo_tribble.Base.{
  ℕ, zero, suc, ◌+◌, ◌≡◌, Bool, true, false, ◌||◌, List, [], ◌∷◌, ◌++◌, Option, none, some, Text,
  codes, length, ◌==◌, if◌then◌else◌,
}
use urban_octo_tribble.Base.Dict.{has}
use urban_octo_tribble.Base.Exec.{
  Result, ok, err, Exec, raise, lift, gets, ◌>>=◌, ◌>>◌, continue, modify, raise_if, pure,
}
use urban_octo_tribble.Database.{matching, update_matching}
use urban_octo_tribble.Pagination.{PaginationParams, PaginatedResponse, create, page_of}
use urban_octo_tribble.Pipeline.{ProcessingStatus, pending, processing}
use urban_octo_tribble.Validation.{UploadFile, Message, validate, validator}

pub record DocumentRow : Type 0 where
  pub id : ℕ
  pub created_at : ℕ
  pub owner_id : ℕ
  pub title : Text
  pub description : Option Text
  pub filename : Text
  pub storage_key : Text
  pub file_size : ℕ
  pub content_type : Text
  pub processing_status : ProcessingStatus
  pub task_id : Option Text

pub record DocumentCreate : Type 0 where
  pub title : Text
  pub description : Option Text

-- The fields that a request sets; `none` inside is null.
pub record DocumentUpdate : Type 0 where
  pub title : Option (Option Text)
  pub description : Option (Option Text)

pub data SortOrder : Type 0 where
  asc desc : SortOrder

pub record FilterParams : Type 0 where
  pub search : Option Text
  pub sort_by : Option Text
  pub sort_order : SortOrder

pub record UploadResponse : Type 0 where
  pub id : ℕ
  pub title : Text
  pub filename : Text
  pub file_size : ℕ
  pub content_type : Text
  pub storage_key : Text
  pub processing_status : ProcessingStatus
  pub task_id : Option Text

-- What a failed handler was stopped by.
pub data Cause : Type 0 where
  storage_exception clock_exception commit_exception broker_exception : Cause

pub data DocumentError : Type 0 where
  no_file_uploaded : DocumentError
  invalid_file : Message → DocumentError
  -- AppException with status 500
  upload_failed : Cause → DocumentError
  database_error : Cause → DocumentError
  -- an exception that is not caught
  uncaught : Cause → DocumentError

pub data DocumentEvent : Type 0 where
  uploaded : ℕ → ℕ → Text → DocumentEvent
  deleted : ℕ → ℕ → Text → DocumentEvent

-- The clients, with what the program relies on of Python's text functions. An S3 call that raises
-- leaves the objects as they were.
pub record Clients : Type 1 where
  pub Objects : Type 0
  pub put_object : Text → Objects → Option Objects
  pub delete_object : Text → Objects → Option Objects
  pub Vectors : Type 0
  pub delete_vectors : ℕ → Vectors → Option Vectors
  -- process_document.apply_async(args=[document_id])
  pub apply_async : ℕ → Option Text
  -- f"{id}" and Path(filename).suffix
  pub show_id : ℕ → Text
  pub suffix : Text → Text
  -- ILIKE '%text%'
  pub contains : Text → Text → Bool
  -- ORDER BY a column of the table
  pub has_column : Text → Bool
  pub order_by : Text → SortOrder → List DocumentRow → List DocumentRow
  pub has_events : Bool

module _ (C : Clients) where
  pub record State : Type 0 where
    pub documents : List DocumentRow
    -- the keys and the documents of the chunks
    pub chunks : List (ℕ × ℕ)
    -- the documents that short URLs refer to
    pub shared : List ℕ
    pub commits : List Bool
    pub ids : List ℕ
    pub now : ℕ
    pub objects : C.Objects
    pub vectors : C.Vectors
    pub tasks : List ℕ
    pub events : List DocumentEvent

  -- A block under `try`, and a handler.
  abbrev pub Attempt : Type 0 → Type 0
  Attempt A = Exec Cause State A

  abbrev pub Handler : Type 0 → Type 0
  Handler A = Exec DocumentError State A

  abbrev pub commit_next : List Bool → (List DocumentRow → List DocumentRow) → Attempt (Unit {0})
  commit_next [] f s = (ok tt, record s { documents = f s.documents })
  commit_next (true ∷ commits) f s =
      (ok tt, record s { documents = f s.documents; commits = commits })
  commit_next (false ∷ commits) f s = (err commit_exception, record s { commits = commits })

  unfoldable pub commit : (List DocumentRow → List DocumentRow) → Attempt (Unit {0})
  commit f s = commit_next s.commits f s

  abbrev pub draw_next : List ℕ → Attempt ℕ
  draw_next [] s = (err clock_exception, s)
  draw_next (id ∷ ids) s = (ok id, record s { ids = ids })

  unfoldable pub draw_id : Attempt ℕ
  draw_id s = draw_next s.ids s

  -- except Exception as e: await session.rollback(), raise AppException(...)
  abbrev pub caught :
      {A : Type 0} → (Cause → DocumentError) → Result Cause A → Result DocumentError A
  caught f (ok a) = ok a
  caught f (err e) = err (f e)

  abbrev pub trying : {A : Type 0} → (Cause → DocumentError) → Attempt A → Handler A
  trying f m s = let (r, s') = m s in (caught f r, s')

  -- The event draws an id. `EventProducer.publish` raises nothing.
  abbrev pub publish_next : List ℕ → DocumentEvent → Attempt (Unit {0})
  publish_next [] e s = (err clock_exception, s)
  publish_next (_ ∷ ids) e s = (ok tt, record s { ids = ids; events = s.events ++ e ∷ [] })

  abbrev pub publish : DocumentEvent → Attempt (Unit {0})
  publish e s = if C.has_events then publish_next s.ids e s else (ok tt, s)

  abbrev pub append_row : DocumentRow → List DocumentRow → List DocumentRow
  append_row d rows = rows ++ d ∷ []

  abbrev pub empty_document : ℕ → ℕ → ℕ → DocumentCreate → DocumentRow
  empty_document id now user_id data_ = record {
    id = id;
    created_at = now;
    owner_id = user_id;
    title = data_.title;
    description = data_.description;
    filename = [];
    storage_key = [];
    file_size = 0;
    content_type = codes "application/octet-stream";
    processing_status = pending;
    task_id = none;
  }

  -- The id is drawn before the block under `try`.
  unfoldable pub create_document : ℕ → DocumentCreate → Handler DocumentRow
  unfolding commit draw_id
  create_document user_id data_ = do
    id ← trying uncaught draw_id
    now ← gets (λ s. s.now)
    let d = empty_document id now user_id data_
    trying database_error (commit (append_row d))
    pure d

  -- A user id of 0 is false.
  abbrev pub object_key : ℕ → ℕ → Text → Text
  object_key zero unique_id filename = codes "uploads/" ++ C.show_id unique_id ++ C.suffix filename
  object_key (suc n) unique_id filename =
      codes "users/" ++ C.show_id (suc n) ++ codes "/" ++ C.show_id unique_id ++ C.suffix filename

  abbrev pub put_at : Text → Option C.Objects → Attempt Text
  put_at key none s = (err storage_exception, s)
  put_at key (some objects) s = (ok key, record s { objects = objects })

  abbrev pub put_file : Text → Attempt Text
  put_file key s = put_at key (C.put_object key s.objects) s

  -- `MinIOAdapter.upload`, which draws two ids and uses the second.
  unfoldable pub upload : ℕ → Text → Attempt Text
  unfolding draw_id
  upload user_id filename = do
    _ ← draw_id
    unique_id ← draw_id
    put_file (object_key user_id unique_id filename)

  abbrev pub type_or_default : Option Text → Text
  type_or_default none = codes "application/octet-stream"
  type_or_default (some t) = t

  abbrev pub uploaded_row : ℕ → ℕ → ℕ → DocumentCreate → UploadFile → Text → Text → DocumentRow
  uploaded_row id now user_id data_ file filename key = record {
    id = id;
    created_at = now;
    owner_id = user_id;
    title = data_.title;
    description = data_.description;
    filename = filename;
    storage_key = key;
    file_size = file.size;
    content_type = type_or_default file.content_type;
    processing_status = pending;
    task_id = none;
  }

  abbrev pub queued : ℕ → Option Text → Attempt Text
  queued id none s = (err broker_exception, s)
  queued id (some task_id) s = (ok task_id, record s { tasks = s.tasks ++ id ∷ [] })

  abbrev pub set_task : ℕ → Text → List DocumentRow → List DocumentRow
  set_task id task_id rows =
      update_matching (λ r. r.id == id) (λ r. record r { task_id = some task_id }) rows

  abbrev pub upload_response : DocumentRow → Text → UploadResponse
  upload_response d task_id = record {
    id = d.id;
    title = d.title;
    filename = d.filename;
    file_size = d.file_size;
    content_type = d.content_type;
    storage_key = d.storage_key;
    processing_status = processing;
    task_id = some task_id;
  }

  -- The part of the block under `try` after the row is made.
  unfoldable pub add_uploaded : ℕ → DocumentRow → Attempt UploadResponse
  unfolding commit
  add_uploaded user_id d = do
    commit (append_row d)
    task_id ← queued d.id (C.apply_async d.id)
    commit (set_task d.id task_id)
    publish (uploaded user_id d.id d.title)
    pure (upload_response d task_id)

  unfoldable pub store_upload : ℕ → DocumentCreate → UploadFile → Text → Attempt UploadResponse
  unfolding upload draw_id add_uploaded
  store_upload user_id data_ file filename = do
    key ← upload user_id filename
    id ← draw_id
    now ← gets (λ s. s.now)
    add_uploaded user_id (uploaded_row id now user_id data_ file filename key)

  abbrev pub upload_valid :
      ℕ → DocumentCreate → UploadFile → Text → Bool × Message → Handler UploadResponse
  upload_valid user_id data_ file filename (false, message) = raise (invalid_file message)
  upload_valid user_id data_ file filename (true, message) =
      trying upload_failed (store_upload user_id data_ file filename)

  abbrev pub upload_named : ℕ → DocumentCreate → UploadFile → Option Text → Handler UploadResponse
  upload_named user_id data_ file none = raise no_file_uploaded
  upload_named user_id data_ file (some []) = raise no_file_uploaded
  upload_named user_id data_ file (some (c ∷ name)) =
      upload_valid user_id data_ file (c ∷ name) (validate validator file)

  -- There is always a file: FastAPI asks for it.
  unfoldable pub upload_document : ℕ → DocumentCreate → UploadFile → Handler UploadResponse
  unfolding store_upload
  upload_document user_id data_ file = upload_named user_id data_ file file.filename
