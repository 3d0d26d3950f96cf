-- ===== src/Chunking.antt =====
-- Splitting a document into chunks, app/services/ai/chunking.py: `DocumentChunker.chunk` and
-- `ChunkBuilder`. The encoder of tiktoken is a parameter, and so is which characters Python's
-- `strip` takes for white space. The loop runs on fuel, one unit a chunk.
pub mod Cover
mod Tests
use urban_octo_tribble.Base.{
  ℕ, zero, suc, ◌+◌, ◌-◌, ◌*◌, min, max, Bool, true, false, List, [], ◌∷◌, Option, none, some, Text,
  length, take, drop, leb, ltb, ◌==◌, map, if◌then◌else◌,
}
use urban_octo_tribble.Base.Exec.{Result, ok, err}

-- A tuple of `chunk`.
pub record Piece : Type 0 where
  pub text : Text
  pub position : ℕ
  pub tokens : ℕ

-- `DocumentChunker`, whose encoder is the section's parameter.
pub record Chunker : Type 0 where
  pub chunk_size : ℕ
  pub overlap : ℕ

-- What the program uses of a tiktoken encoder.
pub record Encoder (Token : Type 0) : Type 0 where
  pub encode : Text → List Token
  pub decode : List Token → Text

abbrev pub all_space : (ℕ → Bool) → Text → Bool
all_space is_space [] = true
all_space is_space (c ∷ t) = if is_space c then all_space is_space t else false

-- tokens[start:end]
abbrev pub slice : {Token : Type 0} → List Token → ℕ → ℕ → List Token
slice tokens start end = take (end - start) (drop start tokens)

abbrev pub stride : Chunker → ℕ
stride c = max (c.chunk_size - c.overlap) 1

module _ {Token : Type 0} (encoder : Encoder Token) (is_space : ℕ → Bool) where
  -- The while loop from `start` and `position` on.
  unfoldable pub chunk_loop : Chunker → List Token → ℕ → ℕ → ℕ → List Piece
  chunk_loop c tokens zero start position = []
  chunk_loop c tokens (suc fuel) start position =
      let total_tokens = length tokens in
      let rest = chunk_loop c tokens fuel (start + stride c) (position + 1) in
      if ltb start total_tokens
      then (let end = min (start + c.chunk_size) total_tokens in
          let chunk_tokens = slice tokens start end in
          record {
            text = encoder.decode chunk_tokens;
            position = position;
            tokens = length chunk_tokens;
          }
          ∷ (if end == total_tokens then [] else rest))
      else []

  -- `not text or not text.strip()` is that all of the text is white space.
  unfoldable pub chunk : Chunker → Text → List Piece
  unfolding chunk_loop
  chunk c text =
      if all_space is_space text
      then []
      else (let tokens = encoder.encode text in
          let total_tokens = length tokens in
          if leb total_tokens c.chunk_size
          then record { text = text; position = 0; tokens = total_tokens } ∷ []
          else chunk_loop c tokens total_tokens 0 0)

-- The columns of `Chunk` that `build` fills in, apart from the time, which each call of the
-- constructor reads: a row has it, with its key (Pipeline).
pub record Chunk : Type 0 where
  pub document_id : ℕ
  pub text : Text
  pub position : ℕ
  pub tokens : ℕ

pub record Document : Type 0 where
  pub id : ℕ
  pub content : Option Text

pub record ChunkBuilder : Type 0 where
  pub document : Option Document
  pub chunker : Option Chunker

pub data BuildError : Type 0 where
  -- ValueError
  value_error : BuildError

abbrev pub new_builder : ChunkBuilder
new_builder = record { document = none; chunker = none }

abbrev pub from_document : Document → ChunkBuilder → ChunkBuilder
from_document d b = record b { document = some d }

abbrev pub with_chunker : Chunker → ChunkBuilder → ChunkBuilder
with_chunker c b = record b { chunker = some c }

-- `self._document.content or ""`
abbrev pub content_or_empty : Option Text → Text
content_or_empty none = []
content_or_empty (some text) = text

abbrev pub chunk_row : ℕ → Piece → Chunk
chunk_row id p = record {
  document_id = id;
  text = p.text;
  position = p.position;
  tokens = p.tokens;
}

module _ {Token : Type 0} (encoder : Encoder Token) (is_space : ℕ → Bool) where
  abbrev pub build_with : Option Document → Option Chunker → Result BuildError (List Chunk)
  build_with none c = err value_error
  build_with (some d) none = err value_error
  build_with (some d) (some c) =
      ok (map (chunk_row d.id) (chunk encoder is_space c (content_or_empty d.content)))

  unfoldable pub build : ChunkBuilder → Result BuildError (List Chunk)
  build b = build_with b.document b.chunker
