-- ===== src/HybridSearch/Fusion.antt =====
-- The fusion against the formula: the score of a chunk is the sum of 1 / (k + rank) over its hits.
pub mod Formula
use urban_octo_tribble.Base.{
  ℕ, suc, ◌+◌, ◌≡◌, refl, sym, ap, ◌∙◌, Bool, true, false, ◌⊎◌, inl, inr, Bool-cases, List, [], ◌∷◌,
  ◌++◌, map, All, Option, none, some, some-injective, ◌==◌, ==_iff, if◌then◌else◌, arith,
}
use mathlib.Core.Path.{subst, subst⁻¹}
use mathlib.Core.List.{Perm}
use mathlib.Core.List.Perm
use urban_octo_tribble.Base.Dict.{
  has, add_key, IsDistinct, get, put, keys, graph, set_at, has-add_key, add_key-IsDistinct,
  keys-put, graph-ext, put-graph, get-graph,
}
use urban_octo_tribble.HybridSearch.{
  Scores, Row, Ranked, ChunkData, Merged, Tables, score_or_zero, add_score, data_of,
  add_vector_data, add_keyword_data, vector_step, keyword_step, vector_loop, keyword_loop, prepend,
  combine, place, sort_descending, sorted, no_tables, reciprocal_rank_fusion,
}

-- `chunk_id` is a hit of a result.
abbrev pub is_hit : ℕ → Option ℕ → Bool
is_hit chunk_id none = false
is_hit chunk_id (some id) = id == chunk_id

module _ (F : Scores) where
  -- The formula: from a score on, with the hits in order.
  abbrev pub rrf_sum : ℕ → ℕ → F.Score → List (Ranked F) → F.Score
  rrf_sum k chunk_id s [] = s
  rrf_sum k chunk_id s (r ∷ rs) =
      rrf_sum k chunk_id
        (if is_hit chunk_id r.row.chunk_id then F.add s (F.inverse (k + r.rank)) else s) rs

  -- The chunks of some results, each once, in the order in which they come.
  abbrev pub with_id : Option ℕ → List ℕ → List ℕ
  with_id none ids = ids
  with_id (some id) ids = add_key id ids

  abbrev pub chunk_ids : List ℕ → List (Ranked F) → List ℕ
  chunk_ids ids [] = ids
  chunk_ids ids (r ∷ rs) = chunk_ids (with_id r.row.chunk_id ids) rs

  -- Every entry stands under its own chunk's id.
  abbrev Filed : List (ℕ × ChunkData F) → Type 0
  Filed chunks = All (λ e. e.1.chunk_id ≡ e.0) chunks

  -- The tables hold a score for each of some distinct chunks, and data for the same chunks.
  record Holds (f : ℕ → F.Score) (ids : List ℕ) (t : Tables F) : Type 0 where
    scored : t.rrf_scores ≡ graph f ids
    listed : keys t.chunk_data ≡ ids
    filed : Filed t.chunk_data
    distinct : IsDistinct ids
    fresh_zero : (j : ℕ) → has j ids ≡ false → f j ≡ F.zero_score

  put-Filed :
      (id : ℕ) (c : ChunkData F) (chunks : List (ℕ × ChunkData F))
      → c.chunk_id ≡ id
      → Filed chunks
      → Filed (put id c chunks)
  put-Filed id c [] e h = (e, tt)
  put-Filed id c ((j, d) ∷ chunks) e (h, hs) = elim (Bool-cases (j == id)) [
    | inl same ↦ rw same (e ∙ sym ((==_iff j id).0 same), hs)
    | inr apart ↦ rw apart (h, put-Filed id c chunks e hs)
  ]

  get-Filed :
      (id : ℕ) (chunks : List (ℕ × ChunkData F)) {c : ChunkData F}
      → Filed chunks
      → get id chunks ≡ some c
      → c.chunk_id ≡ id
  get-Filed id [] h e = cc
  get-Filed id ((j, d) ∷ chunks) {c = c} (h, hs) e = elim (Bool-cases (j == id)) [
    | inl same ↦
        ap (λ (x : ChunkData F). x.chunk_id) (sym (some-injective _ _ (rw same at e)))
        ∙ h
        ∙ (==_iff j id).0 same
    | inr apart ↦ get-Filed id chunks hs (rw apart at e)
  ]

  has-keys :
      (id : ℕ) (chunks : List (ℕ × ChunkData F)) {c : ChunkData F}
      → get id chunks ≡ some c
      → has id (keys chunks) ≡ true
  has-keys id [] e = cc
  has-keys id ((j, d) ∷ chunks) e = elim (Bool-cases (j == id)) [
    | inl same ↦ rw same refl
    | inr apart ↦ rw apart (has-keys id chunks (rw apart at e))
  ]

  add_key_old : (id : ℕ) (ids : List ℕ) → has id ids ≡ true → add_key id ids ≡ ids
  add_key_old id [] h = cc
  add_key_old id (j ∷ ids) h = elim (Bool-cases (j == id)) [
    | inl same ↦ rw same refl
    | inr apart ↦ rw apart (ap (λ (l : List ℕ). j ∷ l) (add_key_old id ids (rw apart at h)))
  ]

  -- What is to be shown of the data, for both loops.
  abbrev KeepsData : ℕ → List (ℕ × ChunkData F) → List (ℕ × ChunkData F) → Type 0
  KeepsData id chunks chunks' = (keys chunks' ≡ add_key id (keys chunks)) × Filed chunks'

  put-KeepsData :
      (id : ℕ) (c : ChunkData F) (chunks : List (ℕ × ChunkData F))
      → c.chunk_id ≡ id
      → Filed chunks
      → KeepsData id chunks (put id c chunks)
  put-KeepsData id c chunks e h = (keys-put id c chunks, put-Filed id c chunks e h)

  vector_data :
      (id : ℕ) (r : Row F) (chunks : List (ℕ × ChunkData F)) (o : Option (ChunkData F))
      → get id chunks ≡ o
      → Filed chunks
      → KeepsData id chunks (add_vector_data F id r o chunks)
  vector_data id r chunks none e h =
      put-KeepsData id (data_of F id r (some r.score) none) chunks refl h
  vector_data id r chunks (some c) e h =
      (sym (add_key_old id (keys chunks) (has-keys id chunks e)), h)

  keyword_data :
      (id : ℕ) (r : Row F) (chunks : List (ℕ × ChunkData F)) (o : Option (ChunkData F))
      → get id chunks ≡ o
      → Filed chunks
      → KeepsData id chunks (add_keyword_data F id r o chunks)
  keyword_data id r chunks none e h =
      put-KeepsData id (data_of F id r none (some r.score)) chunks refl h
  keyword_data id r chunks (some c) e h =
      put-KeepsData id (record c { keyword_score = some r.score }) chunks (get-Filed id chunks h e)
        h

  abbrev next_score : ℕ → Option ℕ → ℕ → (ℕ → F.Score) → ℕ → F.Score
  next_score k none rank f = f
  next_score k (some id) rank f = set_at f id (F.add (f id) (F.inverse (k + rank)))

  old_score :
      (f : ℕ → F.Score) (id : ℕ) (ids : List ℕ)
      → (has id ids ≡ false → f id ≡ F.zero_score)
      → score_or_zero F (get id (graph f ids)) ≡ f id
  old_score f id ids zero = elim (Bool-cases (has id ids)) [
    | inl old ↦ rw (get-graph f id ids, old) refl
    | inr new ↦ rw (get-graph f id ids, new) (sym (zero new))
  ]

  -- One hit, whichever the loop.
  hit-Holds :
      (k id rank : ℕ) (f : ℕ → F.Score) (ids : List ℕ) (t : Tables F)
      (chunks : List (ℕ × ChunkData F))
      → Holds f ids t
      → KeepsData id t.chunk_data chunks
      → Holds
          (next_score k (some id) rank f)
          (add_key id ids)
          (record { rrf_scores = add_score F k id rank t.rrf_scores; chunk_data = chunks })
  hit-Holds k id rank f ids t chunks h (ks, fl) = record {
    scored =
        rw (h.scored, old_score f id ids (h.fresh_zero id))
          (put-graph f id (F.add (f id) (F.inverse (k + rank))) ids h.distinct);
    listed = ks ∙ ap (add_key id) h.listed;
    filed = fl;
    distinct = add_key-IsDistinct id ids h.distinct;
    fresh_zero = λ j e. elim (Bool-cases (id == j)) [
      | inl same ↦ cc (rw same at (sym (has-add_key j id ids) ∙ e))
      | inr apart ↦ rw apart (h.fresh_zero j (rw apart at (sym (has-add_key j id ids) ∙ e)))
    ];
  }

  vector_step-Holds :
      (k : ℕ) (o : Option ℕ) (r : Ranked F) (f : ℕ → F.Score) (ids : List ℕ) (t : Tables F)
      → Holds f ids t
      → Holds (next_score k o r.rank f) (with_id o ids) (vector_step F k o r t)
  unfolding vector_step
  vector_step-Holds k none r f ids t h = h
  vector_step-Holds k (some id) r f ids t h =
      hit-Holds k id r.rank f ids t _ h
        (vector_data id r.row t.chunk_data (get id t.chunk_data) refl h.filed)

  keyword_step-Holds :
      (k : ℕ) (o : Option ℕ) (r : Ranked F) (f : ℕ → F.Score) (ids : List ℕ) (t : Tables F)
      → Holds f ids t
      → Holds (next_score k o r.rank f) (with_id o ids) (keyword_step F k o r t)
  unfolding keyword_step
  keyword_step-Holds k none r f ids t h = h
  keyword_step-Holds k (some id) r f ids t h =
      hit-Holds k id r.rank f ids t _ h
        (keyword_data id r.row t.chunk_data (get id t.chunk_data) refl h.filed)

  abbrev all_scores : ℕ → List (Ranked F) → (ℕ → F.Score) → ℕ → F.Score
  all_scores k [] f = f
  all_scores k (r ∷ rs) f = all_scores k rs (next_score k r.row.chunk_id r.rank f)

  vector_loop-Holds :
      (k : ℕ) (rs : List (Ranked F)) (f : ℕ → F.Score) (ids : List ℕ) (t : Tables F)
      → Holds f ids t
      → Holds (all_scores k rs f) (chunk_ids ids rs) (vector_loop F k rs t)
  unfolding vector_loop
  vector_loop-Holds k [] f ids t h = h
  vector_loop-Holds k (r ∷ rs) f ids t h =
      vector_loop-Holds k rs _ _ _ (vector_step-Holds k r.row.chunk_id r f ids t h)

  keyword_loop-Holds :
      (k : ℕ) (rs : List (Ranked F)) (f : ℕ → F.Score) (ids : List ℕ) (t : Tables F)
      → Holds f ids t
      → Holds (all_scores k rs f) (chunk_ids ids rs) (keyword_loop F k rs t)
  unfolding keyword_loop
  keyword_loop-Holds k [] f ids t h = h
  keyword_loop-Holds k (r ∷ rs) f ids t h =
      keyword_loop-Holds k rs _ _ _ (keyword_step-Holds k r.row.chunk_id r f ids t h)
