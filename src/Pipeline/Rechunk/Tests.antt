-- ===== src/Pipeline/Rechunk/Tests.antt =====
-- A document that is chunked again.
use urban_octo_tribble.Chunking
use urban_octo_tribble.Chunking.{Chunk, Chunker, Encoder}
