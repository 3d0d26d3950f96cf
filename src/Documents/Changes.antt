-- ===== src/Documents/Changes.antt =====
-- The handlers of app/routes/documents.py that show, update, delete and list documents.
use urban_octo_tribble.Base.{
  ℕ, Bool, true, false, ◌||◌, List, [], ◌∷◌, Option, none, some, Text, length, ◌==◌, if◌then◌else◌,
}
use urban_octo_tribble.Base.Dict.{has}
use urban_octo_tribble.Base.Exec.{err, modify, ◌>>◌, pure}
use urban_octo_tribble.Database.{matching, update_matching}
use urban_octo_tribble.Pagination.{PaginationParams, PaginatedResponse, create, page_of}
use urban_octo_tribble.Documents.{
  DocumentRow, DocumentUpdate, SortOrder, FilterParams, commit_exception, database_error, uncaught,
  deleted, Clients, State, Attempt, Handler, commit, trying, publish,
}

module _ (C : Clients) where
  unfoldable pub get_document_metadata : DocumentRow → Handler C DocumentRow
  get_document_metadata d = pure d

  abbrev pub set_text : Option (Option Text) → Option Text → Option Text
  set_text none old = old
  set_text (some new) old = new

  abbrev pub set_title : Option (Option Text) → DocumentRow → Option DocumentRow
  set_title none d = some d
  set_title (some none) d = none
  set_title (some (some title)) d = some (record d { title = title })

  abbrev pub with_description : Option (Option Text) → DocumentRow → DocumentRow
  with_description new d = record d { description = set_text new d.description }

  -- setattr for the fields that are set. The column `title` is not nullable, so that the commit of a null title raises.
  abbrev pub updated : DocumentUpdate → DocumentRow → Option DocumentRow
  updated u d = set_title u.title (with_description u.description d)

  abbrev pub replace_row : DocumentRow → List DocumentRow → List DocumentRow
  replace_row d rows = update_matching (λ r. r.id == d.id) (λ r. d) rows

  abbrev pub commit_update : Option DocumentRow → Handler C DocumentRow
  commit_update none s = (err (uncaught commit_exception), s)
  commit_update (some d) s = (trying C uncaught (commit C (replace_row d)) >> pure d) s

  unfoldable pub update_document_metadata : DocumentUpdate → DocumentRow → Handler C DocumentRow
  update_document_metadata u d = commit_update (updated u d)

  abbrev pub or_old : {A : Type 0} → Option A → A → A
  or_old none a = a
  or_old (some b) a = b

  -- Both clean-ups pass over an exception: `VectorStoreService.delete_document` and the handler do.
  unfoldable pub clean_up : DocumentRow → State C → State C
  clean_up d s = record s {
    vectors = or_old (C.delete_vectors d.id s.vectors) s.vectors;
    objects = or_old (C.delete_object d.storage_key s.objects) s.objects;
  }

  abbrev pub without : ℕ → List DocumentRow → List DocumentRow
  without id [] = []
  without id (d ∷ rows) = if d.id == id then without id rows else d ∷ without id rows

  abbrev pub without_chunks : ℕ → List (ℕ × ℕ) → List (ℕ × ℕ)
  without_chunks id [] = []
  without_chunks id ((k, document_id) ∷ chunks) =
      if document_id == id
      then without_chunks id chunks
      else (k, document_id) ∷ without_chunks id chunks

  -- session.delete(document), session.commit(). SQLAlchemy sets the references of the document's short URLs to
  -- null, which their column does not take; it deletes the document's chunks.
  unfoldable pub remove_row : DocumentRow → Attempt C (Unit {0})
  remove_row d s =
      if has d.id s.shared
      then (err commit_exception, s)
      else (commit C (without d.id)
            >> modify (λ t. record t { chunks = without_chunks d.id t.chunks }))
          s

  unfoldable pub delete_document : ℕ → DocumentRow → Handler C (Unit {0})
  unfolding clean_up remove_row
  delete_document user_id d s =
      (trying C database_error (remove_row d)
          >> trying C uncaught (publish C (deleted user_id d.id d.title)))
        (clean_up d s)

  abbrev pub contains_in : Text → Option Text → Bool
  contains_in search none = false
  contains_in search (some text) = C.contains search text

  -- `if filters.search`: an empty text is false.
  abbrev pub is_match : Option Text → DocumentRow → Bool
  is_match none d = true
  is_match (some []) d = true
  is_match (some (c ∷ search)) d =
      C.contains (c ∷ search) d.title || contains_in (c ∷ search) d.description

  abbrev pub found_rows : ℕ → Option Text → List DocumentRow → List DocumentRow
  found_rows user_id search rows =
      matching (is_match search) (matching (λ d. d.owner_id == user_id) rows)

  -- getattr(Document, filters.sort_by, None)
  abbrev pub in_order : Option Text → SortOrder → List DocumentRow → List DocumentRow
  in_order none order rows = rows
  in_order (some []) order rows = rows
  in_order (some (c ∷ column)) order rows =
      if C.has_column (c ∷ column) then C.order_by (c ∷ column) order rows else rows

  unfoldable pub list_user_documents :
      ℕ → PaginationParams → FilterParams → State C → PaginatedResponse DocumentRow
  list_user_documents user_id pagination filters s =
      let rows = found_rows user_id filters.search s.documents in
      create (page_of pagination (in_order filters.sort_by filters.sort_order rows)) (length rows)
        pagination
