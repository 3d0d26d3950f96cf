-- ===== src/Chunking/Tests.antt =====
-- Chunks with an encoder that takes every character for a token.
use urban_octo_tribble.Base.{ℕ, ◌+◌, ◌≡◌, refl, Bool, [], ◌∷◌, none, codes, ◌==◌, arith}
use urban_octo_tribble.Base.Exec.{ok, err}
use urban_octo_tribble.Chunking.{
  Chunker, Encoder, chunk_loop, chunk, build, new_builder, from_document, with_chunker, value_error,
}
use urban_octo_tribble.Chunking.Cover.{Covers, chunk-Covers, chunk_loop_enough}

abbrev plain : Encoder ℕ
plain = record { encode = λ t. t; decode = λ t. t }

abbrev is_blank : ℕ → Bool
is_blank c = c == 32

abbrev small : Chunker
small = record { chunk_size = 4; overlap = 1 }

-- An overlap that the loop would never end with, but for the stride of at least 1.
abbrev stuck : Chunker
stuck = record { chunk_size = 3; overlap = 3 }

chunk_runs :
    chunk plain is_blank small (codes "abcdefghi")
    ≡ record { text = codes "abcd"; position = 0; tokens = 4 }
      ∷ record { text = codes "defg"; position = 1; tokens = 4 }
      ∷ record { text = codes "ghi"; position = 2; tokens = 3 }
      ∷ []
unfolding chunk chunk_loop
chunk_runs = refl

chunk_blank : chunk plain is_blank small (codes "   ") ≡ []
unfolding chunk
chunk_blank = refl

chunk_overlapping :
    chunk plain is_blank stuck (codes "abcd")
    ≡ record { text = codes "abc"; position = 0; tokens = 3 }
      ∷ record { text = codes "bcd"; position = 1; tokens = 3 }
      ∷ []
unfolding chunk chunk_loop
chunk_overlapping = refl

build_without_chunker :
    build plain is_blank (from_document (record { id = 5; content = none }) new_builder)
    ≡ err value_error
unfolding build
build_without_chunker = refl

build_empty :
    build plain is_blank
      (with_chunker small (from_document (record { id = 5; content = none }) new_builder))
    ≡ ok []
unfolding build chunk
build_empty = refl

chunk-Covers_example :
    Covers plain small 0 (codes "abcdefghi") (chunk plain is_blank small (codes "abcdefghi"))
chunk-Covers_example = chunk-Covers plain is_blank small (codes "abcdefghi") (omega arith) refl refl

chunk_loop_enough_example :
    chunk_loop plain is_blank stuck (codes "abcd") (4 + 9) 0 0
    ≡ chunk_loop plain is_blank stuck (codes "abcd") 4 0 0
chunk_loop_enough_example =
    chunk_loop_enough plain is_blank stuck (codes "abcd") 4 9 0 0 (omega arith)
