-- ===== src/Pipeline/Worker/Embedded/Tests.antt =====
-- A document with one chunk that is embedded.
use urban_octo_tribble.Base.{refl, [], ◌∷◌, ◌++◌}
use urban_octo_tribble.VectorStore.Samples.{list_store}
use urban_octo_tribble.Pipeline.Samples.{letters, is_blank, chunker, tools, document, state}
use urban_octo_tribble.Pipeline.Worker.{embed}
use urban_octo_tribble.Pipeline.Worker.Embedded.{IsReliable, IsEmbedded, embed-IsEmbedded}

list_store-IsReliable : IsReliable letters is_blank chunker list_store tools
unfolding IsReliable
list_store-IsReliable ps s = (s ++ ps, refl)

embed-IsEmbedded_example :
    IsEmbedded letters is_blank chunker list_store tools document
      (3 ∷ [])
      state
      (embed letters is_blank chunker list_store tools 7 state)
embed-IsEmbedded_example =
    embed-IsEmbedded letters is_blank chunker list_store tools list_store-IsReliable document
      (3 ∷ []) state refl refl (λ h. cc h) refl refl refl
