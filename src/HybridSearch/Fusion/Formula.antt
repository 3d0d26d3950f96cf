-- ===== src/HybridSearch/Fusion/Formula.antt =====
-- What the fusion returns.
mod Tests
use urban_octo_tribble.Base.{
  ℕ, suc, ◌+◌, ◌≡◌, refl, sym, ap, ◌∙◌, Bool, true, false, ◌||◌, ◌⊎◌, inl, inr, Bool-cases, List,
  [], ◌∷◌, ◌++◌, map, All, All-map, Option, none, some, some-injective, ◌==◌, ==_iff, if◌then◌else◌,
  arith,
}
use mathlib.Core.Path.{subst, subst⁻¹}
use mathlib.Core.List.{Perm}
use mathlib.Core.List.Perm
use urban_octo_tribble.Base.Dict.{
  has, add_key, IsDistinct, get, keys, graph, has-add_key, graph-ext,
}
use urban_octo_tribble.HybridSearch.{
  Scores, Ranked, ChunkData, Merged, Tables, prepend, combine, place, sort_descending, sorted,
  no_tables, vector_loop, keyword_loop, reciprocal_rank_fusion,
}
use urban_octo_tribble.HybridSearch.Fusion.{
  is_hit, rrf_sum, with_id, chunk_ids, Filed, Holds, next_score, all_scores, get-Filed,
  vector_loop-Holds, keyword_loop-Holds,
}

module _ (F : Scores) where
  next_score_at :
      (k rank j : ℕ) (o : Option ℕ) (f : ℕ → F.Score)
      → next_score F k o rank f j ≡ (if is_hit j o then F.add (f j) (F.inverse (k + rank)) else f j)
  next_score_at k rank j none f = refl
  next_score_at k rank j (some id) f = elim (Bool-cases (id == j)) [
    | inl same ↦ rw same (ap (λ i. F.add (f i) (F.inverse (k + rank))) ((==_iff id j).0 same))
    | inr apart ↦ rw apart refl
  ]

  all_scores-eq-rrf_sum :
      (k j : ℕ) (rs : List (Ranked F)) (f : ℕ → F.Score)
      → all_scores F k rs f j ≡ rrf_sum F k j (f j) rs
  all_scores-eq-rrf_sum k j [] f = refl
  all_scores-eq-rrf_sum k j (r ∷ rs) f =
      all_scores-eq-rrf_sum k j rs (next_score F k r.row.chunk_id r.rank f)
      ∙ ap (λ s. rrf_sum F k j s rs) (next_score_at k r.rank j r.row.chunk_id f)

  all_scores-append :
      (k : ℕ) (v w : List (Ranked F)) (f : ℕ → F.Score)
      → all_scores F k w (all_scores F k v f) ≡ all_scores F k (v ++ w) f
  all_scores-append k [] w f = refl
  all_scores-append k (r ∷ v) w f = all_scores-append k v w (next_score F k r.row.chunk_id r.rank f)

  chunk_ids-append :
      (v w : List (Ranked F)) (ids : List ℕ)
      → chunk_ids F (chunk_ids F ids v) w ≡ chunk_ids F ids (v ++ w)
  chunk_ids-append [] w ids = refl
  chunk_ids-append (r ∷ v) w ids = chunk_ids-append v w (with_id F r.row.chunk_id ids)

  get_of_has :
      (id : ℕ) (chunks : List (ℕ × ChunkData F))
      → has id (keys chunks) ≡ true
      → (c : ChunkData F) × (get id chunks ≡ some c)
  get_of_has id [] h = cc
  get_of_has id ((j, d) ∷ chunks) h = elim (Bool-cases (j == id)) [
    | inl same ↦ (d, rw same refl)
    | inr apart ↦ rw apart (get_of_has id chunks (rw apart at h))
  ]

  -- An entry of the result: the chunk and its score.
  abbrev pub scored : Merged F → ℕ × F.Score
  scored m = (m.chunk.chunk_id, m.rrf_score)

  combine_lem :
      (chunks : List (ℕ × ChunkData F)) (f : ℕ → F.Score) (ids : List ℕ)
      → Filed F chunks
      → All (λ id. has id (keys chunks) ≡ true) ids
      → (l : List (Merged F)) × (combine F chunks (graph f ids) ≡ some l)
        × (map scored l ≡ graph f ids)
  combine_lem chunks f [] filed h = ([], refl, refl)
  combine_lem chunks f (id ∷ ids) filed (h, hs) =
      let (c, found) = get_of_has id chunks h in
      let (rest, combined, same) = combine_lem chunks f ids filed hs in
      (
        record { chunk = c; rrf_score = f id } ∷ rest,
        rw (found, combined) refl,
        rw (get-Filed F id chunks filed found, same) refl,
      )

  has_all : (l : List ℕ) → All (λ id. has id l ≡ true) l
  has_all [] = tt
  has_all (k ∷ l) =
      let same : (k == k) ≡ true = ground arith in
      (
        rw same refl,
        All-map (λ id. has id l ≡ true) (λ id. has id (k ∷ l) ≡ true) l (λ id h. ground (arith, h))
            (has_all l),
      )

  abbrev pub IsDescending : List (Merged F) → Type 0
  IsDescending [] = Unit
  IsDescending (m ∷ l) = All (λ n. F.leb n.rrf_score m.rrf_score ≡ true) l × IsDescending l

  place-All :
      (P : Merged F → Type 0) (m : Merged F) (l : List (Merged F))
      → P m
      → All P l
      → All P (place F m l)
  unfolding place
  place-All P m [] p h = (p, tt)
  place-All P m (n ∷ l) p (q, h) = elim (Bool-cases (F.leb n.rrf_score m.rrf_score)) [
    | inl e ↦ rw e (p, (q, h))
    | inr e ↦ rw e (q, place-All P m l p h)
  ]

  place-IsDescending :
      (m : Merged F) (l : List (Merged F)) → IsDescending l → IsDescending (place F m l)
  unfolding place
  place-IsDescending m [] d = (tt, tt)
  place-IsDescending m (n ∷ l) (below, d) = elim (Bool-cases (F.leb n.rrf_score m.rrf_score)) [
    | inl e ↦ rw e (
      (
        e,
        All-map (λ x. F.leb x.rrf_score n.rrf_score ≡ true)
            (λ x. F.leb x.rrf_score m.rrf_score ≡ true) l
            (λ x h. F.leb_trans x.rrf_score n.rrf_score m.rrf_score h e) below,
      ),
      (below, d),
    )
    | inr e ↦ rw e (
      place-All (λ x. F.leb x.rrf_score n.rrf_score ≡ true) m l
          (F.leb_total n.rrf_score m.rrf_score e) below,
      place-IsDescending m l d,
    )
  ]

  sort_descending-IsDescending : (l : List (Merged F)) → IsDescending (sort_descending F l)
  unfolding sort_descending
  sort_descending-IsDescending [] = tt
  sort_descending-IsDescending (m ∷ l) =
      place-IsDescending m (sort_descending F l) (sort_descending-IsDescending l)

  place-perm : (m : Merged F) (l : List (Merged F)) → Perm (place F m l) (m ∷ l)
  unfolding place
  place-perm m [] = Perm.rfl
  place-perm m (n ∷ l) = elim (Bool-cases (F.leb n.rrf_score m.rrf_score)) [
    | inl e ↦ rw e (Perm.rfl)
    | inr e ↦ rw e (Perm.trans (Perm.cons n (place-perm m l)) (Perm.swap m n l))
  ]

  sort_descending-perm : (l : List (Merged F)) → Perm (sort_descending F l) l
  unfolding sort_descending
  sort_descending-perm [] = Perm.rfl
  sort_descending-perm (m ∷ l) =
      Perm.trans (place-perm m (sort_descending F l)) (Perm.cons m (sort_descending-perm l))

  -- Some result has a hit of the chunk.
  abbrev pub any_hit : ℕ → List (Ranked F) → Bool
  any_hit id [] = false
  any_hit id (r ∷ rs) = if is_hit id r.row.chunk_id then true else any_hit id rs

  has-with_id :
      (j : ℕ) (o : Option ℕ) (ids : List ℕ)
      → has j (with_id F o ids) ≡ (if is_hit j o then true else has j ids)
  has-with_id j none ids = refl
  has-with_id j (some id) ids = has-add_key j id ids

  has-chunk_ids :
      (j : ℕ) (rs : List (Ranked F)) (ids : List ℕ)
      → has j (chunk_ids F ids rs) ≡ (if has j ids then true else any_hit j rs)
  has-chunk_ids j [] ids = ground arith
  has-chunk_ids j (r ∷ rs) ids =
      ground
        (arith, has-chunk_ids j rs (with_id F r.row.chunk_id ids), has-with_id j r.row.chunk_id ids)

  -- What the fusion of some results returns.
  pub record IsFusion (k : ℕ) (hits : List (Ranked F)) (result : List (Merged F)) : Type 0 where
    permutes :
        Perm
          (map scored result)
          (graph (λ id. rrf_sum F k id F.zero_score hits) (chunk_ids F [] hits))
    descends : IsDescending result
    once : IsDistinct (chunk_ids F [] hits)
    covers : (id : ℕ) → has id (chunk_ids F [] hits) ≡ any_hit id hits

  -- Reciprocal rank fusion of two lists of results never raises, and what it returns is, up to its
  -- order, the list of the chunks that one of them found, each once, with the score of the formula:
  -- the sum of 1 / (k + rank) over its hits. The scores descend.
  pub reciprocal_rank_fusion-IsFusion :
      (v w : List (Ranked F)) (k : ℕ)
      → (result : List (Merged F)) × (reciprocal_rank_fusion F v w k ≡ some result)
        × IsFusion k (v ++ w) result
  unfolding reciprocal_rank_fusion
  reciprocal_rank_fusion-IsFusion v w k =
      let zero : ℕ → F.Score = λ _. F.zero_score in
      let start : Holds F zero [] (no_tables F) = record {
        scored = refl;
        listed = refl;
        filed = tt;
        distinct = tt;
        fresh_zero = λ j e. refl;
      } in
      let h =
        keyword_loop-Holds F k w _ _ _ (vector_loop-Holds F k v zero [] (no_tables F) start) in
      let t = keyword_loop F k w (vector_loop F k v (no_tables F)) in
      let ids = chunk_ids F (chunk_ids F [] v) w in
      let f = all_scores F k w (all_scores F k v zero) in
      let known : All (λ id. has id (keys t.chunk_data) ≡ true) ids =
        subst⁻¹ (λ l. All (λ id. has id l ≡ true) ids) h.listed (has_all ids) in
      let (l, combined, same) = combine_lem t.chunk_data f ids h.filed known in
      let same_ids = chunk_ids-append v w [] in
      let same_scores : graph f ids
          ≡ graph (λ id. rrf_sum F k id F.zero_score (v ++ w)) (chunk_ids F [] (v ++ w)) =
        graph-ext ids (λ j.
          ap (λ (g : ℕ → F.Score). g j) (all_scores-append k v w zero)
          ∙ all_scores-eq-rrf_sum k j (v ++ w) zero)
        ∙ ap (graph (λ id. rrf_sum F k id F.zero_score (v ++ w))) same_ids in
      (
        sort_descending F l,
        ap (sorted F) (ap (combine F t.chunk_data) h.scored ∙ combined),
        record {
          permutes =
              subst (Perm (map scored (sort_descending F l))) (same ∙ same_scores)
                (Perm.map scored (sort_descending-perm l));
          descends = sort_descending-IsDescending l;
          once = subst IsDistinct same_ids h.distinct;
          covers = λ id. has-chunk_ids id (v ++ w) [];
        },
      )
