-- ===== src/Pipeline/Documents.antt =====
-- Documents that are found after an update.
use urban_octo_tribble.Base.{
  ℕ, ◌≡◌, ap, ◌∙◌, inl, inr, true, Bool-cases, List, [], ◌∷◌, some, some-injective, ◌==◌,
}
use urban_octo_tribble.Database.{update_matching}
use urban_octo_tribble.Pipeline.{DocumentRow, of_id, find_document}

pub find_document-update :
    (f : DocumentRow → DocumentRow) (document_id : ℕ) (rows : List DocumentRow) {d : DocumentRow}
    → ((r : DocumentRow) → (f r).id ≡ r.id)
    → find_document document_id rows ≡ some d
    → find_document document_id (update_matching (of_id document_id) f rows) ≡ some (f d)
find_document-update f document_id [] keeps h = cc h
find_document-update f document_id (r ∷ rows) keeps h = elim (Bool-cases (r.id == document_id)) [
  | inl e ↦
      let same : ((f r).id == document_id) ≡ true = ap (λ i. i == document_id) (keeps r) ∙ e in
      rw (e, same) (ap (λ x. some (f x)) (some-injective _ _ (rw e at h)))
  | inr e ↦ rw (e, e) (find_document-update f document_id rows keeps (rw e at h))
]
