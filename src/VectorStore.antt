-- ===== src/VectorStore.antt =====
-- The vector store, app/services/ai/vector_store.py. Qdrant is a parameter: the points that a store
-- holds, and what the client's calls do; `none` is an exception of the client. The ids of points are
-- fresh UUIDs, so that no point replaces another; they are left out.
pub mod Samples
pub mod Batches
use urban_octo_tribble.Base.{
  ℕ, zero, suc, ◌+◌, ◌≡◌, Bool, true, false, ◌||◌, List, [], ◌∷◌, ◌++◌, map, Option, none, some,
  Text, codes, text_eq, length, take, drop, leb, ◌==◌, if◌then◌else◌,
}
use urban_octo_tribble.Base.Exec.{Result, ok, err}
use urban_octo_tribble.Database.{matching}

-- A value of a payload.
pub data Value : Type 0 where
  number : ℕ → Value
  text : Text → Value

abbrev pub Payload : Type 0
Payload = List (Text × Value)

abbrev pub field : Text → Payload → Option Value
field name [] = none
field name ((n, v) ∷ p) = if text_eq n name then some v else field name p

abbrev pub set_field : Text → Value → Payload → Payload
set_field name v [] = (name, v) ∷ []
set_field name v ((n, w) ∷ p) = if text_eq n name then (n, v) ∷ p else (n, w) ∷ set_field name v p

abbrev pub is_own_field : Text → Bool
is_own_field name =
    text_eq name (codes "chunk_id")
    || (text_eq name (codes "chunk_text")
        || (text_eq name (codes "document_id") || text_eq name (codes "chunk_index")))

-- The comprehension of `search` that takes the program's own fields out.
abbrev pub other_fields : Payload → Payload
other_fields [] = []
other_fields ((n, v) ∷ p) = if is_own_field n then other_fields p else (n, v) ∷ other_fields p

-- {**base_metadata, "chunk_id": ..., ...}
unfoldable pub chunk_payload : Payload → ℕ → ℕ → ℕ → Text → Payload
chunk_payload base_metadata chunk_id document_id chunk_index chunk_text =
    set_field (codes "chunk_text") (text chunk_text) (
      set_field (codes "chunk_index") (number chunk_index) (
        set_field (codes "document_id") (number document_id)
          (set_field (codes "chunk_id") (number chunk_id) base_metadata)))

unfoldable pub legacy_payload : Payload → ℕ → ℕ → Text → Payload
legacy_payload base_metadata document_id chunk_index chunk_text =
    set_field (codes "chunk_text") (text chunk_text) (
      set_field (codes "chunk_index") (number chunk_index)
        (set_field (codes "document_id") (number document_id) base_metadata))

abbrev pub metadata_or_empty : Option Payload → Payload
metadata_or_empty none = []
metadata_or_empty (some m) = m

abbrev pub text_or_empty : Option Value → Value
text_or_empty none = text []
text_or_empty (some v) = v

pub data StoreError : Type 0 where
  client_error : StoreError
  -- "Number of chunks and embeddings must match"
  value_error : StoreError

abbrev pub is_number : ℕ → Option Value → Bool
is_number n none = false
is_number n (some (number m)) = m == n
is_number n (some (text t)) = false

module _ (Vector Score : Type 0) where
  pub record Point : Type 0 where
    pub vector : Vector
    pub payload : Payload

  -- A scored point; a payload can be missing.
  pub record Hit : Type 0 where
    pub payload : Option Payload
    pub score : Score

  pub record SearchResult : Type 0 where
    pub chunk_id : Option Value
    pub chunk_text : Value
    pub document_id : Option Value
    pub chunk_index : Option Value
    pub score : Score
    pub metadata : Payload

  -- The condition document_id = n of the filters.
  abbrev pub of_document : ℕ → Point → Bool
  of_document document_id p = is_number document_id (field (codes "document_id") p.payload)

  pub record Qdrant : Type 1 where
    pub Store : Type 0
    pub points : Store → List Point
    pub upsert : List Point → Store → Option Store
    pub upsert-points :
        (ps : List Point) (s s' : Store) → upsert ps s ≡ some s' → points s' ≡ points s ++ ps
    -- by vector, a document to filter by, a limit and a threshold
    pub query_points : Vector → Option ℕ → ℕ → Score → Store → Option (List Hit)
    -- delete and count by the document of the points
    pub delete : ℕ → Store → Option Store
    pub count : ℕ → Store → Option ℕ
    pub count-points :
        (n : ℕ) (s : Store) (c : ℕ)
        → count n s ≡ some c
        → c ≡ length (matching (of_document n) (points s))

  abbrev pub payload_of : Hit → Payload
  payload_of h = metadata_or_empty h.payload

  unfoldable pub formatted : Hit → SearchResult
  formatted h = record {
    chunk_id = field (codes "chunk_id") (payload_of h);
    chunk_text = text_or_empty (field (codes "chunk_text") (payload_of h));
    document_id = field (codes "document_id") (payload_of h);
    chunk_index = field (codes "chunk_index") (payload_of h);
    score = h.score;
    metadata = other_fields (payload_of h);
  }

  -- The points of `add_documents`, from an index on; the lists are equally long there.
  unfoldable pub points_from : Payload → ℕ → ℕ → List Text → List Vector → List Point
  unfolding legacy_payload
  points_from base_metadata document_id idx [] embeddings = []
  points_from base_metadata document_id idx (c ∷ chunks) [] = []
  points_from base_metadata document_id idx (c ∷ chunks) (e ∷ embeddings) =
      record { vector = e; payload = legacy_payload base_metadata document_id idx c }
      ∷ points_from base_metadata document_id (idx + 1) chunks embeddings

  module _ (Q : Qdrant) where
    abbrev pub upserted : Option Q.Store → Q.Store → Result StoreError (Unit {0}) × Q.Store
    upserted none s = (err client_error, s)
    upserted (some s') s = (ok tt, s')

    unfoldable pub add_document_chunk :
        ℕ
        → ℕ
        → Text
        → ℕ
        → Vector
        → Option Payload
        → Q.Store
        → Result StoreError (Unit {0}) × Q.Store
    unfolding chunk_payload
    add_document_chunk chunk_id document_id chunk_text chunk_index embedding metadata s =
        let point : Point = record {
          vector = embedding;
          payload =
              chunk_payload (metadata_or_empty metadata) chunk_id document_id chunk_index
                chunk_text;
        } in
        upserted (Q.upsert (point ∷ []) s) s

    abbrev pub after_upsert :
        Q.Store
        → (Q.Store → Result StoreError ℕ × Q.Store)
        → Option Q.Store
        → Result StoreError ℕ × Q.Store
    after_upsert s rest none = (err client_error, s)
    after_upsert s rest (some s') = rest s'

    -- for i in range(0, len(points), batch_size): ... upsert(points[i : i + batch_size]). A unit of
    -- fuel for each point is enough; `count` is what `add_documents` returns.
    unfoldable pub upload_batches : ℕ → ℕ → ℕ → List Point → Q.Store → Result StoreError ℕ × Q.Store
    upload_batches count batch_size zero points s = (ok count, s)
    upload_batches count batch_size (suc fuel) [] s = (ok count, s)
    upload_batches count batch_size (suc fuel) (p ∷ points) s =
        after_upsert s (upload_batches count batch_size fuel (drop batch_size (p ∷ points)))
          (Q.upsert (take batch_size (p ∷ points)) s)

    unfoldable pub add_documents :
        ℕ → List Text → List Vector → Option Payload → Q.Store → Result StoreError ℕ × Q.Store
    unfolding upload_batches points_from
    add_documents document_id chunks embeddings metadata s =
        if length chunks == length embeddings
        then (let points =
              points_from (metadata_or_empty metadata) document_id 0 chunks embeddings in
            upload_batches (length chunks) 100 (length points) points s)
        else (err value_error, s)

    abbrev pub format_hits : Option (List Hit) → Result StoreError (List SearchResult)
    format_hits none = err client_error
    format_hits (some hits) = ok (map formatted hits)

    unfoldable pub search :
        Vector → Option ℕ → ℕ → Score → Q.Store → Result StoreError (List SearchResult)
    unfolding formatted
    search query_embedding document_id limit score_threshold s =
        format_hits (Q.query_points query_embedding document_id limit score_threshold s)

    abbrev pub deleted : Option Q.Store → Q.Store → Bool × Q.Store
    deleted none s = (false, s)
    deleted (some s') s = (true, s')

    unfoldable pub delete_document : ℕ → Q.Store → Bool × Q.Store
    delete_document document_id s = deleted (Q.delete document_id s) s

    abbrev pub counted : Option ℕ → Result StoreError ℕ
    counted none = err client_error
    counted (some n) = ok n

    unfoldable pub get_document_chunks_count : ℕ → Q.Store → Result StoreError ℕ
    get_document_chunks_count document_id s = counted (Q.count document_id s)
