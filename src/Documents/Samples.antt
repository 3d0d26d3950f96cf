-- ===== src/Documents/Samples.antt =====
-- Clients that keep the keys of objects in a list, with a broker that is down.
use urban_octo_tribble.Base.{ℕ, true, false, List, [], ◌∷◌, none, some, Text, codes}
use urban_octo_tribble.Pipeline.{pending}
use urban_octo_tribble.Documents.{DocumentRow, DocumentCreate, Clients, State}

abbrev pub clients : Clients
clients = record {
  Objects = List Text;
  put_object = λ key objects. some (key ∷ objects);
  delete_object = λ key objects. some [];
  Vectors = List ℕ;
  delete_vectors = λ id vectors. none;
  apply_async = λ id. none;
  show_id = λ n. n ∷ [];
  suffix = λ name. codes ".pdf";
  contains = λ search text. false;
  has_column = λ column. false;
  order_by = λ column order rows. rows;
  has_events = true;
}

abbrev pub document : DocumentRow
document = record {
  id = 7;
  created_at = 1;
  owner_id = 2;
  title = codes "Terms";
  description = none;
  filename = codes "terms.pdf";
  storage_key = codes "users/2/5.pdf";
  file_size = 3;
  content_type = codes "application/pdf";
  processing_status = pending;
  task_id = none;
}

-- A short URL refers to the document.
abbrev pub state : State clients
state = record {
  documents = document ∷ [];
  chunks = (20, 7) ∷ (21, 8) ∷ [];
  shared = 7 ∷ [];
  commits = [];
  ids = 11 ∷ 12 ∷ 13 ∷ [];
  now = 5;
  objects = codes "users/2/5.pdf" ∷ [];
  vectors = 7 ∷ [];
  tasks = [];
  events = [];
}

abbrev pub fields : DocumentCreate
fields = record { title = codes "Fees"; description = none }
