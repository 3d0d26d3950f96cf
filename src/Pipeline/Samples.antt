-- ===== src/Pipeline/Samples.antt =====
-- A document with chunks of old, an encoder that takes every character for a token, and tools.
use urban_octo_tribble.Base.{ℕ, Bool, true, [], ◌∷◌, map, none, some, Text, codes, length, ◌==◌}
use urban_octo_tribble.Base.Exec.{ok}
use urban_octo_tribble.Chunking.{Chunk, Chunker, Encoder}
use urban_octo_tribble.VectorStore.Samples.{list_store}
use urban_octo_tribble.Pipeline.{pending, DocumentRow, Tools, State}

abbrev pub letters : Encoder ℕ
letters = record { encode = λ t. t; decode = λ t. t }

abbrev pub is_blank : ℕ → Bool
is_blank c = c == 32

abbrev pub chunker : Chunker
chunker = record { chunk_size = 3; overlap = 1 }

abbrev pub tools : Tools Text ℕ
tools = record {
  download = λ key. ok (codes "fee, form");
  extract = λ kind content. ok content;
  services_ready = true;
  embed_batch = λ texts. ok (map length texts);
  show = λ e. codes "error";
  has_events = true;
}

abbrev pub document : DocumentRow
document = record {
  id = 7;
  owner_id = 2;
  title = codes "Terms";
  storage_key = codes "key";
  content_type = codes "text/plain";
  content = some (codes "fee, form");
  processing_status = pending;
  processing_error = none;
}

abbrev pub old : Chunk
old = record { document_id = 7; text = codes "old"; position = 0; tokens = 3 }

abbrev pub state : State letters is_blank chunker list_store tools
state = record {
  tables = record {
    documents = document ∷ [];
    chunks =
        record { id = 1; created_at = 1; chunk = old }
        ∷ record { id = 2; created_at = 2; chunk = record old { document_id = 8 } }
        ∷ [];
  };
  commits = [];
  ids = (11, 5) ∷ (12, 6) ∷ (13, 7) ∷ (14, 8) ∷ (15, 9) ∷ [];
  vectors = [];
  queue = [];
  events = [];
}
