-- ===== src/Documents/Uploads.antt =====
-- What an upload leaves, errors included.
mod Tests
use urban_octo_tribble.Base.{
  ℕ, zero, suc, ◌≡◌, refl, sym, ap, ◌∙◌, ◌⊎◌, inl, inr, Bool, true, false, Bool-cases, List, [],
  ◌∷◌, ◌++◌, Option, none, some, Text, ◌==◌, if◌then◌else◌, All, arith,
}
use urban_octo_tribble.Base.Dict.{has}
use mathlib.Core.Path.{subst, subst⁻¹}
use urban_octo_tribble.Base.Exec.{Result, ok, err, continue, ◌>>=◌, ◌>>◌, modify, pure, gets}
use urban_octo_tribble.Validation.{UploadFile, Message, validate, validator}
use urban_octo_tribble.Pipeline.{pending}
use urban_octo_tribble.Documents.{
  DocumentEvent, DocumentRow, DocumentCreate, UploadResponse, Cause, storage_exception,
  clock_exception, commit_exception, broker_exception, DocumentError, no_file_uploaded,
  invalid_file, upload_failed, uploaded, Clients, State, Attempt, commit_next, commit, draw_next,
  draw_id, caught, trying, publish, publish_next, append_row, put_at, put_file, object_key, upload,
  uploaded_row, queued, set_task, upload_response, add_uploaded, store_upload, upload_valid,
  upload_named, upload_document,
}

module _ (C : Clients) where
  -- A row and its task, with the answer, or with the error that there is no id for the event; or an
  -- error before, of which a row without a task can be left.
  abbrev pub Added : DocumentRow → State C → Result Cause UploadResponse × State C → Type 0
  Added d s r =
      ((task_id : Text) × ((r.0 ≡ ok (upload_response C d task_id)) ⊎ (r.0 ≡ err clock_exception))
        × (r.1.documents ≡ set_task C d.id task_id (s.documents ++ d ∷ []))
        × (r.1.tasks ≡ s.tasks ++ d.id ∷ []))
      ⊎ ((e : Cause) × (r.0 ≡ err e)
          × ((r.1.documents ≡ s.documents) ⊎ (r.1.documents ≡ s.documents ++ d ∷ [])))

  abbrev last_step : ℕ → DocumentRow → Text → List Bool → Attempt C UploadResponse
  last_step user_id d task_id commits =
      commit_next C commits (set_task C d.id task_id)
      >> (publish C (uploaded user_id d.id d.title) >> pure (upload_response C d task_id))

  -- The answer is given, or there is no id for the event; the rows and the tasks stay.
  abbrev Published : DocumentRow → Text → State C → Result Cause UploadResponse × State C → Type 0
  Published d task_id t r =
      ((r.0 ≡ ok (upload_response C d task_id)) ⊎ (r.0 ≡ err clock_exception))
      × (r.1.documents ≡ t.documents)
      × (r.1.tasks ≡ t.tasks)

  publish_next-Published :
      (e : DocumentEvent) (d : DocumentRow) (task_id : Text) (ids : List ℕ) (t : State C)
      → Published d task_id t ((publish_next C ids e >> pure (upload_response C d task_id)) t)
  publish_next-Published e d task_id [] t = (inr refl, refl, refl)
  publish_next-Published e d task_id (_ ∷ ids) t = (inl refl, refl, refl)

  publish-Published :
      (user_id : ℕ) (d : DocumentRow) (task_id : Text) (t : State C)
      → Published d task_id t
          ((publish C (uploaded user_id d.id d.title) >> pure (upload_response C d task_id)) t)
  publish-Published user_id d task_id t = elim (Bool-cases C.has_events) [
    | inl e ↦ rw e (publish_next-Published (uploaded user_id d.id d.title) d task_id t.ids t)
    | inr e ↦ rw e (inl refl, refl, refl)
  ]

  last_step-Added :
      (user_id : ℕ) (d : DocumentRow) (task_id : Text) (commits : List Bool) (s t : State C)
      → t.documents ≡ s.documents ++ d ∷ []
      → t.tasks ≡ s.tasks ++ d.id ∷ []
      → Added d s (last_step user_id d task_id commits t)
  last_step-Added user_id d task_id [] s t rows tasks =
      let (e, docs, queue) =
        publish-Published user_id d task_id
          (record t { documents = set_task C d.id task_id t.documents }) in
      inl (task_id, e, docs ∙ ap (set_task C d.id task_id) rows, queue ∙ tasks)
  last_step-Added user_id d task_id (true ∷ commits) s t rows tasks =
      let (e, docs, queue) =
        publish-Published user_id d task_id
          (record t { documents = set_task C d.id task_id t.documents; commits = commits }) in
      inl (task_id, e, docs ∙ ap (set_task C d.id task_id) rows, queue ∙ tasks)
  last_step-Added user_id d task_id (false ∷ commits) s t rows tasks =
      inr (commit_exception, refl, inr rows)

  queue_step-Added :
      (user_id : ℕ) (d : DocumentRow) (o : Option Text) (s t : State C)
      → t.documents ≡ s.documents ++ d ∷ []
      → t.tasks ≡ s.tasks
      → Added d s ((queued C d.id o >>= λ task_id u. last_step user_id d task_id u.commits u) t)
  queue_step-Added user_id d none s t rows tasks = inr (broker_exception, refl, inr rows)
  queue_step-Added user_id d (some task_id) s t rows tasks =
      last_step-Added user_id d task_id t.commits s (record t { tasks = t.tasks ++ d.id ∷ [] }) rows
        (ap (λ (l : List ℕ). l ++ d.id ∷ []) tasks)

  first_step-Added :
      (user_id : ℕ) (d : DocumentRow) (commits : List Bool) (s : State C)
      → Added d s (
          (commit_next C commits (append_row C d) >>= λ _.
          queued C d.id (C.apply_async d.id) >>= λ task_id u.
          last_step user_id d task_id u.commits u)
            s)
  first_step-Added user_id d [] s =
      queue_step-Added user_id d (C.apply_async d.id) s
        (record s { documents = s.documents ++ d ∷ [] }) refl refl
  first_step-Added user_id d (true ∷ commits) s =
      queue_step-Added user_id d (C.apply_async d.id) s
        (record s { documents = s.documents ++ d ∷ []; commits = commits }) refl refl
  first_step-Added user_id d (false ∷ commits) s = inr (commit_exception, refl, inl refl)

  add_uploaded-Added :
      (user_id : ℕ) (d : DocumentRow) (s : State C) → Added d s (add_uploaded C user_id d s)
  unfolding add_uploaded commit
  add_uploaded-Added user_id d s = first_step-Added user_id d s.commits s

  -- The row of an upload.
  pub record IsNew (user_id : ℕ) (data_ : DocumentCreate) (file : UploadFile) (d : DocumentRow)
      : Type 0 where
    owner : d.owner_id ≡ user_id
    title : d.title ≡ data_.title
    size : d.file_size ≡ file.size
    status : d.processing_status ≡ pending
    no_task : d.task_id ≡ none

  -- The block under `try` has made a row, with one of some ids, or it has raised before.
  abbrev Stored :
      List ℕ
      → ℕ
      → DocumentCreate
      → UploadFile
      → State C
      → Result Cause UploadResponse × State C
      → Type 0
  Stored ids user_id data_ file s r =
      ((d : DocumentRow) × IsNew user_id data_ file d × (has d.id ids ≡ true) × Added d s r)
      ⊎ ((e : Cause) × (r.0 ≡ err e) × (r.1.documents ≡ s.documents))

  has_later : (i id : ℕ) (ids : List ℕ) → has id ids ≡ true → has id (i ∷ ids) ≡ true
  has_later i id ids h = ground (arith, h)

  later_Stored :
      (i : ℕ) (ids : List ℕ) (user_id : ℕ) (data_ : DocumentCreate) (file : UploadFile)
      (s : State C) (r : Result Cause UploadResponse × State C)
      → Stored ids user_id data_ file s r
      → Stored (i ∷ ids) user_id data_ file s r
  later_Stored i ids user_id data_ file s r (inl (d, new, drawn, h)) =
      inl (d, new, has_later i d.id ids drawn, h)
  later_Stored i ids user_id data_ file s r (inr h) = inr h

  abbrev with_key : ℕ → DocumentCreate → UploadFile → Text → Text → Attempt C UploadResponse
  with_key user_id data_ file filename key = draw_id C >>= λ id. gets (λ s. s.now) >>= λ now.
      add_uploaded C user_id (uploaded_row C id now user_id data_ file filename key)

  with_key-Stored :
      (user_id : ℕ) (data_ : DocumentCreate) (file : UploadFile) (filename key : Text)
      (ids : List ℕ) (s : State C)
      → Stored ids user_id data_ file s (
          (draw_next C ids >>= λ id. gets (λ s. s.now) >>= λ now.
          add_uploaded C user_id (uploaded_row C id now user_id data_ file filename key))
            s)
  with_key-Stored user_id data_ file filename key [] s = inr (clock_exception, refl, refl)
  with_key-Stored user_id data_ file filename key (id ∷ ids) s =
      let d = uploaded_row C id s.now user_id data_ file filename key in
      inl (
        d,
        record { owner = refl; title = refl; size = refl; status = refl; no_task = refl },
        let same : (id == id) ≡ true = ground arith in rw same refl,
        add_uploaded-Added user_id d (record s { ids = ids }),
      )

  put_at-Stored :
      (user_id : ℕ) (data_ : DocumentCreate) (file : UploadFile) (filename key : Text)
      (o : Option C.Objects) (s : State C)
      → Stored s.ids user_id data_ file s
          ((put_at C key o >>= with_key user_id data_ file filename) s)
  unfolding draw_id
  put_at-Stored user_id data_ file filename key none s = inr (storage_exception, refl, refl)
  put_at-Stored user_id data_ file filename key (some objects) s =
      with_key-Stored user_id data_ file filename key s.ids (record s { objects = objects })

  drawn-Stored :
      (user_id : ℕ) (data_ : DocumentCreate) (file : UploadFile) (filename : Text) (ids : List ℕ)
      (s : State C)
      → Stored ids user_id data_ file s (
          ((draw_next C ids >>= λ _.
          draw_id C >>= λ unique_id. put_file C (object_key C user_id unique_id filename))
              >>= with_key user_id data_ file filename)
            s)
  unfolding draw_id
  drawn-Stored user_id data_ file filename [] s = inr (clock_exception, refl, refl)
  drawn-Stored user_id data_ file filename (i ∷ []) s = inr (clock_exception, refl, refl)
  drawn-Stored user_id data_ file filename (i ∷ id ∷ ids) s =
      let key = object_key C user_id id filename in
      let r =
        (put_at C key (C.put_object key s.objects) >>= with_key user_id data_ file filename)
          (record s { ids = ids }) in
      later_Stored i (id ∷ ids) user_id data_ file s r (
        later_Stored id ids user_id data_ file s r (
          put_at-Stored user_id data_ file filename key (C.put_object key s.objects)
            (record s { ids = ids })))

  -- A file that passed the checks is a new row with its task, and the task is queued.
  pub record IsAccepted (user_id : ℕ) (data_ : DocumentCreate) (file : UploadFile) (s : State C)
      (r : Result DocumentError UploadResponse × State C) : Type 0 where
    row : DocumentRow
    task_id : Text
    is_new : IsNew user_id data_ file row
    checked : (validate validator file).0 ≡ true
    returns : r.0 ≡ ok (upload_response C row task_id)
    rows : r.1.documents ≡ s.documents ++ record row { task_id = some task_id } ∷ []
    queue : r.1.tasks ≡ s.tasks ++ row.id ∷ []

  -- An error, and at most one new row. It has no task, unless all that failed is the event.
  pub record IsRefused (user_id : ℕ) (data_ : DocumentCreate) (file : UploadFile) (s : State C)
      (r : Result DocumentError UploadResponse × State C) : Type 0 where
    error : DocumentError
    raises : r.0 ≡ err error
    rows :
        (r.1.documents ≡ s.documents)
        ⊎ ((d : DocumentRow) × IsNew user_id data_ file d × (r.1.documents ≡ s.documents ++ d ∷ []))
        ⊎ ((d : DocumentRow) × (task_id : Text) × IsNew user_id data_ file d
            × (error ≡ upload_failed clock_exception)
            × (r.1.documents ≡ s.documents ++ record d { task_id = some task_id } ∷ [])
            × (r.1.tasks ≡ s.tasks ++ d.id ∷ []))

  abbrev pub Outcome :
      ℕ
      → DocumentCreate
      → UploadFile
      → State C
      → Result DocumentError UploadResponse × State C
      → Type 0
  Outcome user_id data_ file s r =
      IsAccepted user_id data_ file s r ⊎ IsRefused user_id data_ file s r

  -- No row has one of the ids that are drawn next.
  abbrev pub AreFresh : State C → Type 0
  AreFresh s = (id : ℕ) → has id s.ids ≡ true → All (λ d. (d.id == id) ≡ false) s.documents

  set_task_fresh :
      (row : DocumentRow) (task_id : Text) (rows : List DocumentRow)
      → All (λ d. (d.id == row.id) ≡ false) rows
      → set_task C row.id task_id (rows ++ row ∷ [])
        ≡ rows ++ record row { task_id = some task_id } ∷ []
  set_task_fresh row task_id [] h =
      let same : (row.id == row.id) ≡ true = ground arith in rw same refl
  set_task_fresh row task_id (d ∷ rows) (e, h) =
      rw e (ap (λ (l : List DocumentRow). d ∷ l) (set_task_fresh row task_id rows h))

  stored_outcome :
      (user_id : ℕ) (data_ : DocumentCreate) (file : UploadFile) (s : State C)
      (r : Result Cause UploadResponse × State C)
      → (validate validator file).0 ≡ true
      → Stored s.ids user_id data_ file s r
      → AreFresh s
      → Outcome user_id data_ file s (caught C upload_failed r.0, r.1)
  stored_outcome user_id data_ file s r checked
        (inl (d, new, drawn, inl (task_id, inl returns, rows, queue))) fresh =
      inl (record {
        row = d;
        task_id = task_id;
        is_new = new;
        checked = checked;
        returns = ap (caught C upload_failed) returns;
        rows = rows ∙ set_task_fresh d task_id s.documents (fresh d.id drawn);
        queue = queue;
      })
  stored_outcome user_id data_ file s r checked
        (inl (d, new, drawn, inl (task_id, inr raises, rows, queue))) fresh =
      inr (record {
        error = upload_failed clock_exception;
        raises = ap (caught C upload_failed) raises;
        rows = inr (
            inr (
              d,
              task_id,
              new,
              refl,
              rows ∙ set_task_fresh d task_id s.documents (fresh d.id drawn),
              queue,
            ));
      })
  stored_outcome user_id data_ file s r checked (inl (d, new, drawn, inr (e, raises, inl rows)))
        fresh =
      inr (record {
        error = upload_failed e;
        raises = ap (caught C upload_failed) raises;
        rows = inl rows;
      })
  stored_outcome user_id data_ file s r checked (inl (d, new, drawn, inr (e, raises, inr rows)))
        fresh =
      inr (record {
        error = upload_failed e;
        raises = ap (caught C upload_failed) raises;
        rows = inr (inl (d, new, rows));
      })
  stored_outcome user_id data_ file s r checked (inr (e, raises, rows)) fresh = inr (record {
    error = upload_failed e;
    raises = ap (caught C upload_failed) raises;
    rows = inl rows;
  })

  valid_outcome :
      (user_id : ℕ) (data_ : DocumentCreate) (file : UploadFile) (filename : Text)
      (v : Bool × Message) (s : State C)
      → validate validator file ≡ v
      → AreFresh s
      → Outcome user_id data_ file s (upload_valid C user_id data_ file filename v s)
  unfolding store_upload upload
  valid_outcome user_id data_ file filename (false, message) s h fresh =
      inr (record { error = invalid_file message; raises = refl; rows = inl refl })
  valid_outcome user_id data_ file filename (true, message) s h fresh =
      stored_outcome user_id data_ file s _ (ap (λ (v : Bool × Message). v.0) h)
        (drawn-Stored user_id data_ file filename s.ids s) fresh

  named_outcome :
      (user_id : ℕ) (data_ : DocumentCreate) (file : UploadFile) (o : Option Text) (s : State C)
      → AreFresh s
      → Outcome user_id data_ file s (upload_named C user_id data_ file o s)
  named_outcome user_id data_ file none s fresh =
      inr (record { error = no_file_uploaded; raises = refl; rows = inl refl })
  named_outcome user_id data_ file (some []) s fresh =
      inr (record { error = no_file_uploaded; raises = refl; rows = inl refl })
  named_outcome user_id data_ file (some (c ∷ name)) s fresh =
      valid_outcome user_id data_ file (c ∷ name) (validate validator file) s refl fresh

  -- When no row has one of the ids that the generator gives next, an upload either returns, and
  -- then the file passed the checks, exactly one row was added, the user's, pending, with the
  -- title and the size that were given and with the id of its task, the other rows stayed as they
  -- were, and its processing is queued; or it raises, and the rows stay as they were, but that
  -- there can be one new row: one that has no task, since the broker or the last commit raised
  -- after the row was committed, or one that has its task, queued, since no id could be drawn for
  -- the event.
  pub upload_document-Outcome :
      (user_id : ℕ) (data_ : DocumentCreate) (file : UploadFile) (s : State C)
      → AreFresh s
      → Outcome user_id data_ file s (upload_document C user_id data_ file s)
  unfolding upload_document
  upload_document-Outcome user_id data_ file s fresh =
      named_outcome user_id data_ file file.filename s fresh
