-- ===== src/VectorStore/Batches.antt =====
-- What `add_documents` stores.
mod Tests
use urban_octo_tribble.Base.{
  ℕ, zero, suc, ◌+◌, ◌-◌, ◌≤◌, ◌≡◌, refl, sym, ap, ◌∙◌, ◌⊎◌, inl, inr, Bool, true, false,
  Bool-cases, List, [], ◌∷◌, ◌++◌, Option, none, some, Text, length, length-drop, take, drop,
  take-append-drop, map, All, codes, text_eq, text_eq_refl, text_eq_sound, ◌==◌, ==_iff,
  if◌then◌else◌, arith,
}
use mathlib.Core.Path.{subst, subst⁻¹}
use mathlib.Core.List.{append-nil, append_assoc}
use urban_octo_tribble.Base.Exec.{Result, ok, err}
use urban_octo_tribble.VectorStore.{
  Value, text, number, field, set_field, legacy_payload, Payload, Point, Qdrant, StoreError,
  client_error, value_error, metadata_or_empty, points_from, after_upsert, upload_batches,
  add_documents,
}

abbrev pub places_from : ℕ → List Text → List (Option Value)
places_from i [] = []
places_from i (c ∷ chunks) = some (number i) ∷ places_from (i + 1) chunks

field-set_field_self : (n : Text) (v : Value) (p : Payload) → field n (set_field n v p) ≡ some v
field-set_field_self n v [] = rw (text_eq_refl n) refl
field-set_field_self n v ((m, w) ∷ p) = elim (Bool-cases (text_eq m n)) [
  | inl e ↦ rw (e, e) refl
  | inr e ↦ rw (e, e) (field-set_field_self n v p)
]

field-set_field_ne :
    (n m : Text) (v : Value) (p : Payload)
    → text_eq m n ≡ false
    → field n (set_field m v p) ≡ field n p
field-set_field_ne n m v [] h = rw h refl
field-set_field_ne n m v ((k, w) ∷ p) h = elim (Bool-cases (text_eq k m)) [
  | inl e ↦
      let apart : text_eq k n ≡ false = ap (λ (t : Text). text_eq t n) (text_eq_sound k m e) ∙ h in
      rw (e, apart) refl
  | inr e ↦ elim (Bool-cases (text_eq k n)) [
    | inl same ↦ rw (e, same) refl
    | inr apart ↦ rw (e, apart) (field-set_field_ne n m v p h)
  ]
]

-- The program's own fields, whatever the metadata holds.
legacy_payload-fields :
    (base : Payload) (document_id i : ℕ) (c : Text)
    → let p = legacy_payload base document_id i c in
      (field (codes "chunk_text") p ≡ some (text c))
      × (field (codes "chunk_index") p ≡ some (number i))
      × (field (codes "document_id") p ≡ some (number document_id))
unfolding legacy_payload text_eq
legacy_payload-fields base document_id i c =
    let inner = set_field (codes "document_id") (number document_id) base in
    let outer = set_field (codes "chunk_index") (number i) inner in
    (
      field-set_field_self (codes "chunk_text") (text c) outer,
      field-set_field_ne (codes "chunk_index") (codes "chunk_text") (text c) outer refl
          ∙ field-set_field_self (codes "chunk_index") (number i) inner,
      field-set_field_ne (codes "document_id") (codes "chunk_text") (text c) outer refl
          ∙ field-set_field_ne (codes "document_id") (codes "chunk_index") (number i) inner refl
          ∙ field-set_field_self (codes "document_id") (number document_id) base,
    )

module _ (Vector Score : Type 0) (Q : Qdrant Vector Score) where
  -- What the store holds after an upload: all of the points, or, where the client raised, those of
  -- the batches before.
  pub record IsUpload (count : ℕ) (points : List (Point Vector Score)) (s : Q.Store)
      (r : Result StoreError ℕ × Q.Store) : Type 0 where
    pub uploaded : ℕ
    pub stored : Q.points r.1 ≡ Q.points s ++ take uploaded points
    pub answer : ((r.0 ≡ ok count) × (take uploaded points ≡ points)) ⊎ (r.0 ≡ err client_error)

  all_of : (n : ℕ) (l : List (Point Vector Score)) → length l ≤ n → take n l ≡ l
  all_of zero [] h = refl
  all_of zero (x ∷ l) h = absurd (omega (arith, h))
  all_of (suc n) [] h = refl
  all_of (suc n) (x ∷ l) h =
      ap (λ (t : List (Point Vector Score)). x ∷ t) (all_of n l (omega (arith, h)))

  take_empty : (n : ℕ) → take {A = Point Vector Score} n [] ≡ []
  take_empty zero = refl
  take_empty (suc n) = refl

  take_more :
      (b n : ℕ) (l : List (Point Vector Score)) → take b l ++ take n (drop b l) ≡ take (b + n) l
  take_more zero n l = ap (λ m. take m l) (omega arith)
  take_more (suc b) n [] = take_empty n ∙ sym (take_empty (suc b + n))
  take_more (suc b) n (x ∷ l) =
      let more : suc b + n ≡ suc (b + n) = omega arith in
      subst⁻¹ (λ m. x ∷ (take b l ++ take n (drop b l)) ≡ take m (x ∷ l)) more
        (ap (λ (t : List (Point Vector Score)). x ∷ t) (take_more b n l))

  all_uploaded : (count : ℕ) (s : Q.Store) → IsUpload count [] s (ok count, s)
  all_uploaded count s = record {
    uploaded = 0;
    stored = sym (append-nil (Q.points s));
    answer = inl (refl, refl);
  }

  more_uploaded :
      (count b : ℕ) (points : List (Point Vector Score)) (s : Q.Store)
      (rest : Q.Store → Result StoreError ℕ × Q.Store) (o : Option Q.Store)
      → Q.upsert (take b points) s ≡ o
      → ((s' : Q.Store) → IsUpload count (drop b points) s' (rest s'))
      → IsUpload count points s (after_upsert Vector Score Q s rest o)
  more_uploaded count b points s rest none e h = record {
    uploaded = 0;
    stored = sym (append-nil (Q.points s));
    answer = inr refl;
  }
  more_uploaded count b points s rest (some s') e h =
      let n = (h s').uploaded in
      record {
        uploaded = b + n;
        stored =
            (h s').stored
            ∙ ap (λ (l : List (Point Vector Score)). l ++ take n (drop b points))
                (Q.upsert-points (take b points) s s' e)
            ∙ append_assoc (Q.points s) (take b points) (take n (drop b points))
            ∙ ap (λ (l : List (Point Vector Score)). Q.points s ++ l) (take_more b n points);
        answer = elim (h s').answer [
          | inl (done, whole) ↦ inl (
            done,
            sym (take_more b n points)
                ∙ ap (λ (l : List (Point Vector Score)). take b points ++ l) whole
                ∙ take-append-drop b points,
          )
          | inr failed ↦ inr failed
        ];
      }

  upload_batches-IsUpload :
      (count b fuel : ℕ) (points : List (Point Vector Score)) (s : Q.Store)
      → 1 ≤ b
      → length points ≤ fuel
      → IsUpload count points s (upload_batches Vector Score Q count b fuel points s)
  unfolding upload_batches
  upload_batches-IsUpload count b zero [] s h h' = all_uploaded count s
  upload_batches-IsUpload count b zero (p ∷ points) s h h' = absurd (omega (arith, h'))
  upload_batches-IsUpload count b (suc fuel) [] s h h' = all_uploaded count s
  upload_batches-IsUpload count b (suc fuel) (p ∷ points) s h h' =
      more_uploaded count b (p ∷ points) s _ _ refl (λ s'.
        upload_batches-IsUpload count b fuel (drop b (p ∷ points)) s' h
          (omega (arith, h, h', length-drop b (p ∷ points))))

  -- The points of `add_documents`: the chunks with their embeddings, in order.
  abbrev pub points_of : ℕ → List Text → List Vector → Option Payload → List (Point Vector Score)
  points_of document_id chunks embeddings metadata =
      points_from Vector Score (metadata_or_empty metadata) document_id 0 chunks embeddings

  -- One point for each chunk: its embedding, and a payload with its text, its place and the
  -- document.
  pub record ArePoints (document_id : ℕ) (chunks : List Text) (embeddings : List Vector)
      (points : List (Point Vector Score)) : Type 0 where
    pub vectors : map (λ (p : Point Vector Score). p.vector) points ≡ embeddings
    pub texts :
        map (λ (p : Point Vector Score). field (codes "chunk_text") p.payload) points
        ≡ map (λ c. some (text c)) chunks
    pub places :
        map (λ (p : Point Vector Score). field (codes "chunk_index") p.payload) points
        ≡ places_from 0 chunks
    pub documents :
        All
          (λ (p : Point Vector Score).
            field (codes "document_id") p.payload ≡ some (number document_id))
          points

  points_from-vectors :
      (base : Payload) (document_id i : ℕ) (chunks : List Text) (embeddings : List Vector)
      → length chunks ≡ length embeddings
      → map
          (λ (p : Point Vector Score). p.vector)
          (points_from Vector Score base document_id i chunks embeddings)
        ≡ embeddings
  unfolding points_from
  points_from-vectors base document_id i [] [] h = refl
  points_from-vectors base document_id i [] (e ∷ embeddings) h = absurd (omega (arith, h))
  points_from-vectors base document_id i (c ∷ chunks) [] h = absurd (omega (arith, h))
  points_from-vectors base document_id i (c ∷ chunks) (e ∷ embeddings) h =
      ap (λ (l : List Vector). e ∷ l)
        (points_from-vectors base document_id (i + 1) chunks embeddings (omega (arith, h)))

  points_from-texts :
      (base : Payload) (document_id i : ℕ) (chunks : List Text) (embeddings : List Vector)
      → length chunks ≡ length embeddings
      → map
          (λ (p : Point Vector Score). field (codes "chunk_text") p.payload)
          (points_from Vector Score base document_id i chunks embeddings)
        ≡ map (λ c. some (text c)) chunks
  unfolding points_from
  points_from-texts base document_id i [] embeddings h = refl
  points_from-texts base document_id i (c ∷ chunks) [] h = absurd (omega (arith, h))
  points_from-texts base document_id i (c ∷ chunks) (e ∷ embeddings) h =
      rw
        (
          (legacy_payload-fields base document_id i c).0,
          points_from-texts base document_id (i + 1) chunks embeddings (omega (arith, h)),
        )
        refl

  points_from-places :
      (base : Payload) (document_id i : ℕ) (chunks : List Text) (embeddings : List Vector)
      → length chunks ≡ length embeddings
      → map
          (λ (p : Point Vector Score). field (codes "chunk_index") p.payload)
          (points_from Vector Score base document_id i chunks embeddings)
        ≡ places_from i chunks
  unfolding points_from
  points_from-places base document_id i [] embeddings h = refl
  points_from-places base document_id i (c ∷ chunks) [] h = absurd (omega (arith, h))
  points_from-places base document_id i (c ∷ chunks) (e ∷ embeddings) h =
      rw
        (
          (legacy_payload-fields base document_id i c).1,
          points_from-places base document_id (i + 1) chunks embeddings (omega (arith, h)),
        )
        refl

  points_from-documents :
      (base : Payload) (document_id i : ℕ) (chunks : List Text) (embeddings : List Vector)
      → All
          (λ (p : Point Vector Score).
            field (codes "document_id") p.payload ≡ some (number document_id))
          (points_from Vector Score base document_id i chunks embeddings)
  unfolding points_from
  points_from-documents base document_id i [] embeddings = tt
  points_from-documents base document_id i (c ∷ chunks) [] = tt
  points_from-documents base document_id i (c ∷ chunks) (e ∷ embeddings) = (
    (legacy_payload-fields base document_id i c).2,
    points_from-documents base document_id (i + 1) chunks embeddings,
  )

  -- Where there is an embedding for each chunk, `add_documents` ends: to what the store held it has
  -- added the first so many of the points of the chunks, in order, each once. It answers with the
  -- number of the chunks, and has added all of them, or the client raised. There is one point for
  -- each chunk, in their order, with its embedding, its text, its place and the document.
  pub add_documents-IsUpload :
      (document_id : ℕ) (chunks : List Text) (embeddings : List Vector) (metadata : Option Payload)
      (s : Q.Store)
      → length chunks ≡ length embeddings
      → IsUpload
          (length chunks)
          (points_of document_id chunks embeddings metadata)
          s
          (add_documents Vector Score Q document_id chunks embeddings metadata s)
        × ArePoints document_id chunks embeddings (points_of document_id chunks embeddings metadata)
  unfolding add_documents
  add_documents-IsUpload document_id chunks embeddings metadata s h =
      let same : (length chunks == length embeddings) ≡ true = ground arith in
      let points = points_of document_id chunks embeddings metadata in
      let base = metadata_or_empty metadata in
      (
        subst⁻¹
            (λ b. IsUpload (length chunks) points s (
              if b
              then upload_batches Vector Score Q (length chunks) 100 (length points) points s
              else (err value_error, s)))
            same
            (upload_batches-IsUpload (length chunks) 100 (length points) points s (omega arith)
              (omega arith)),
        record {
          vectors = points_from-vectors base document_id 0 chunks embeddings h;
          texts = points_from-texts base document_id 0 chunks embeddings h;
          places = points_from-places base document_id 0 chunks embeddings h;
          documents = points_from-documents base document_id 0 chunks embeddings;
        },
      )
