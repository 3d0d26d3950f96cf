-- ===== src/Pipeline/Run/Tests.antt =====
-- A worker and an uploaded document.
use urban_octo_tribble.Base.{
  ℕ, suc, ◌≤◌, ◌≡◌, ◌≢◌, refl, ap, List, [], ◌∷◌, ◌++◌, map, Text, codes, length, arith,
}
use urban_octo_tribble.Chunking
use urban_octo_tribble.Chunking.{chunk_loop}
use urban_octo_tribble.VectorStore.Samples.{list_store}
use urban_octo_tribble.Pipeline.{State, process_document}
use urban_octo_tribble.Pipeline.Rechunk.{chunks_of}
use urban_octo_tribble.Pipeline.Samples.{letters, is_blank, chunker, tools, document, state}
use urban_octo_tribble.Pipeline.Worker.{work}
use urban_octo_tribble.Pipeline.Worker.Embedded.{IsReliable}
use urban_octo_tribble.Pipeline.Run.{extracted, IsDone, IsModel, work-IsDone}

abbrev fees : Text
fees = codes "fee, form"

abbrev waiting : State letters is_blank chunker list_store tools
waiting = record state { queue = process_document 7 ∷ [] }

list_store-IsReliable : IsReliable letters is_blank chunker list_store tools
unfolding IsReliable
list_store-IsReliable ps s = (s ++ ps, refl)

lengths_length : (texts : List Text) → length (map {B = ℕ} length texts) ≡ length texts
lengths_length [] = refl
lengths_length (t ∷ texts) = ap suc (lengths_length texts)

tools-IsModel : IsModel letters is_blank chunker list_store tools
unfolding IsModel
tools-IsModel texts = (map length texts, refl, lengths_length texts)

chunks_number :
    length (
      chunks_of letters is_blank chunker list_store tools
        (extracted letters is_blank chunker list_store tools document fees))
    ≡ 4
unfolding Chunking.chunk chunk_loop
chunks_number = refl

abbrev fee_chunks : List Chunking.Chunk
fee_chunks =
    chunks_of letters is_blank chunker list_store tools
      (extracted letters is_blank chunker list_store tools document fees)

some_chunk : fee_chunks ≢ []
some_chunk h =
    let none_left : length fee_chunks ≡ 0 = ap length h in
    absurd (omega (arith, none_left, chunks_number))

enough_ids : length fee_chunks ≤ length waiting.ids
enough_ids = omega (arith, chunks_number)

work-IsDone_example :
    IsDone letters is_blank chunker list_store tools document fees waiting
      (work letters is_blank chunker list_store tools 3 waiting)
work-IsDone_example =
    work-IsDone letters is_blank chunker list_store tools list_store-IsReliable tools-IsModel
      document fees fees waiting refl refl refl refl some_chunk enough_ids refl refl
