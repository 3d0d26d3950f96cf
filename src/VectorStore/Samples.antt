-- ===== src/VectorStore/Samples.antt =====
-- A vector store that is a list.
use urban_octo_tribble.Base.{ℕ, List, [], ◌++◌, some, some-injective, sym, length}
use urban_octo_tribble.Database.{matching}
use urban_octo_tribble.VectorStore.{Point, Qdrant, of_document}

abbrev pub Points : Type 0
Points = List (Point ℕ ℕ)

abbrev pub list_store : Qdrant ℕ ℕ
list_store = record {
  Store = Points;
  points = λ s. s;
  upsert = λ ps s. some (s ++ ps);
  upsert-points = λ ps s s' h. sym (some-injective _ _ h);
  query_points = λ v d limit threshold s. some [];
  delete = λ d s. some [];
  count = λ n s. some (length (matching (of_document ℕ ℕ n) s));
  count-points = λ n s c h. sym (some-injective _ _ h);
}
