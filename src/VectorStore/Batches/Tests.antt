-- ===== src/VectorStore/Batches/Tests.antt =====
-- An upload to a list, of more chunks than a batch takes.
use urban_octo_tribble.Base.{ℕ, zero, suc, refl, List, [], ◌∷◌, none, Text, codes}
use urban_octo_tribble.VectorStore.{add_documents}
use urban_octo_tribble.VectorStore.Samples.{list_store}
use urban_octo_tribble.VectorStore.Batches.{IsUpload, ArePoints, points_of, add_documents-IsUpload}

abbrev copies : {A : Type 0} → ℕ → A → List A
copies zero a = []
copies (suc n) a = a ∷ copies n a

abbrev chunks : List Text
chunks = copies 101 (codes "a")

abbrev embeddings : List ℕ
embeddings = copies 101 1

add_documents-IsUpload_example :
    IsUpload ℕ ℕ list_store 101
      (points_of ℕ ℕ list_store 7 chunks embeddings none)
      []
      (add_documents ℕ ℕ list_store 7 chunks embeddings none [])
    × ArePoints ℕ ℕ list_store 7 chunks embeddings
        (points_of ℕ ℕ list_store 7 chunks embeddings none)
add_documents-IsUpload_example =
    add_documents-IsUpload ℕ ℕ list_store 7 chunks embeddings none [] refl
