-- ===== src/Rag/Samples.antt =====
-- A server that is a list, numbers for scores, and a service that finds a chunk and answers.
use urban_octo_tribble.Base.{
  ℕ, ◌≡◌, ◌↔◌, refl, true, false, List, [], ◌∷◌, Option, none, some, Text, codes, text_eq,
  text_eq_refl, text_eq_sound, leb,
}
use mathlib.Core.Path.{subst}
use urban_octo_tribble.Base.Codec.{
  Codec, number_codec, pair_codec, iso_codec, list_codec, option_codec, dumps, loads, loads-dumps,
  dumps_nonempty,
}
use urban_octo_tribble.Base.Exec.{ok}
use urban_octo_tribble.Redis.{Redis, list_redis}
use urban_octo_tribble.Cache.{Json, KeyArgs, rag_args, embedding_args, KeyTools}
use urban_octo_tribble.Llm.{LlmProvider}
use urban_octo_tribble.Rag.{Numbers, Citation, Answer, Vector, RagService, Question}
use urban_octo_tribble.Rag.Asking.{Times, State}

abbrev pub scores : Numbers
scores = record {
  Score = ℕ;
  leb = leb;
  show_score = λ s. s ∷ [];
  show_number = λ n. n ∷ [];
  Component = ℕ;
}

pub text_eq_iff : (a b : Text) → (text_eq a b ≡ true) ↔ (a ≡ b)
text_eq_iff a b =
    (λ h. text_eq_sound a b h, λ h. subst (λ x. text_eq a x ≡ true) h (text_eq_refl a))

abbrev pub server : Redis Text Text
server = list_redis text_eq text_eq_iff

abbrev pub text_codec : Codec Text
text_codec = list_codec number_codec

abbrev pub CitationRow : Type 0
CitationRow = Option ℕ × (ℕ × (Text × (ℕ × (ℕ × Text))))

abbrev pub citation_of : CitationRow → Citation scores
citation_of (i, (d, (t, (p, (s, x))))) = record {
  chunk_id = i;
  document_id = d;
  document_title = t;
  chunk_position = p;
  similarity_score = s;
  text_preview = x;
}

abbrev pub row_of : Citation scores → CitationRow
row_of c = (
  c.chunk_id,
  (c.document_id, (c.document_title, (c.chunk_position, (c.similarity_score, c.text_preview)))),
)

abbrev pub citation_codec : Codec (Citation scores)
citation_codec =
    iso_codec
      (pair_codec (option_codec number_codec) (
        pair_codec number_codec
          (pair_codec text_codec (pair_codec number_codec (pair_codec number_codec text_codec)))))
      citation_of row_of (λ c. refl)

abbrev pub AnswerRow : Type 0
AnswerRow = Text × (List (Citation scores) × (Text × (Text × Option ℕ)))

abbrev pub answer_of : AnswerRow → Answer scores
answer_of (a, (c, (p, (m, t)))) = record {
  answer = a;
  citations = c;
  provider = p;
  model = m;
  tokens_used = t;
}

abbrev pub answer_row : Answer scores → AnswerRow
answer_row a = (a.answer, (a.citations, (a.provider, (a.model, a.tokens_used))))

abbrev pub answer_codec : Codec (Answer scores)
answer_codec =
    iso_codec
      (pair_codec text_codec (
        pair_codec (list_codec citation_codec)
          (pair_codec text_codec (pair_codec text_codec (option_codec number_codec)))))
      answer_of answer_row (λ a. refl)

abbrev pub answers : Json (Answer scores)
answers = record {
  dumps = dumps answer_codec;
  loads = loads answer_codec;
  loads-dumps = loads-dumps answer_codec;
  dumps_nonempty = dumps_nonempty answer_codec;
}

abbrev pub vectors : Json (Vector scores)
vectors = record {
  dumps = dumps text_codec;
  loads = loads text_codec;
  loads-dumps = loads-dumps text_codec;
  dumps_nonempty = dumps_nonempty text_codec;
}

abbrev pub dumped : KeyArgs ℕ → Text
dumped (rag_args query d n s) = query
dumped (embedding_args query) = query

abbrev pub tools : KeyTools ℕ
tools = record { normalize = λ t. t; dumps_args = dumped; sha256 = λ t. t }

abbrev pub local : LlmProvider
local = record {
  provider_name = codes "ollama";
  model_name = codes "llama3.2";
  generate = λ s u t. ok (codes "A fee.", none);
  generate_stream = λ s u t. ([], none);
}

abbrev pub service : RagService scores
service = record {
  session_set = true;
  ensure_model_loaded = ok tt;
  embed_text = λ t. ok (1 ∷ []);
  search = λ v d n s. ok (
      record {
        chunk_id = some 4;
        chunk_text = codes "fee";
        chunk_index = 0;
        document_id = 7;
        document_title = some (codes "Terms");
        score = 80;
      }
      ∷ []);
  llm_service = record {
    primary_provider = local;
    fallback_enabled = false;
    fallback_provider = none;
  };
  temperature = 70;
  rag_system_prompt = codes "s";
  has_metrics = false;
  classifier = none;
}

abbrev pub times : Times
times = record { asked = 10; embedded = 20; answered = 30 }

abbrev pub later : Times
later = record { asked = 40; embedded = 50; answered = 60 }

abbrev pub question : Question scores
question = record { query = codes "fee?"; document_id = none; max_chunks = 5; min_score = 60 }

abbrev pub start : State scores tools answers vectors server
start = record { redis = record { is_available = true; store = [] }; metrics = [] }

abbrev pub answer : Answer scores
answer = record {
  answer = codes "A fee.";
  citations =
      record {
        chunk_id = some 4;
        document_id = 7;
        document_title = codes "Terms";
        chunk_position = 0;
        similarity_score = 80;
        text_preview = codes "fee";
      }
      ∷ [];
  provider = codes "ollama";
  model = codes "llama3.2";
  tokens_used = none;
}
