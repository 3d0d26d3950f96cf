-- ===== src/Chunking/Cover.antt =====
-- The chunks of a document cover it.
use urban_octo_tribble.Base.{
  ℕ, zero, suc, ◌+◌, ◌-◌, ◌≤◌, ◌<◌, min, ◌≡◌, refl, sym, ap, ◌∙◌, Bool, true, false, List, [], ◌∷◌,
  ◌++◌, Text, length, take, drop, length-take, length-drop, take-append-drop, All, leb, ltb, ◌==◌,
  inl, inr, Bool-cases, arith,
}
use urban_octo_tribble.Chunking.{Piece, Chunker, Encoder, stride, all_space, chunk_loop, chunk}

-- The document again: of every chunk but the first, the overlap is left away.
abbrev pub restore : {Token : Type 0} → ℕ → List (List Token) → List Token
restore overlap [] = []
restore overlap (p ∷ ps) = p ++ drop overlap (restore overlap ps)

-- Pieces of tokens as the function returns them, numbered from a position on.
abbrev pub numbered : {Token : Type 0} → Encoder Token → ℕ → List (List Token) → List Piece
numbered encoder position [] = []
numbered encoder position (p ∷ ps) =
    record { text = encoder.decode p; position = position; tokens = length p }
    ∷ numbered encoder (position + 1) ps

module _ {Token : Type 0} where
  drop_nil : (n : ℕ) → ◌≡◌ {A = List Token} (drop n []) []
  drop_nil zero = refl
  drop_nil (suc n) = refl

  append_nil : (l : List Token) → l ++ [] ≡ l
  append_nil [] = refl
  append_nil (x ∷ l) = ap (λ (t : List Token). x ∷ t) (append_nil l)

  drop-drop : (m n : ℕ) (l : List Token) → drop m (drop n l) ≡ drop (n + m) l
  drop-drop m zero l = let e : 0 + m ≡ m = omega arith in rw e refl
  drop-drop m (suc n) [] = let e : suc n + m ≡ suc (n + m) = omega arith in rw e (drop_nil m)
  drop-drop m (suc n) (x ∷ l) =
      let e : suc n + m ≡ suc (n + m) = omega arith in rw e (drop-drop m n l)

  take_all : (n : ℕ) (l : List Token) → length l ≤ n → take n l ≡ l
  take_all zero [] h = refl
  take_all zero (x ∷ l) h = absurd (ground arith)
  take_all (suc n) [] h = refl
  take_all (suc n) (x ∷ l) h = ap (λ (t : List Token). x ∷ t) (take_all n l (omega arith))

-- The pieces of token lists that make up the result of a run.
pub record Covers {Token : Type 0} (encoder : Encoder Token) (c : Chunker) (position : ℕ)
    (tokens : List Token) (result : List Piece) : Type 0 where
  pub pieces : List (List Token)
  pub result-numbered : result ≡ numbered encoder position pieces
  pub pieces-fit : All (λ p. length p ≤ c.chunk_size) pieces
  pub pieces-restore : restore c.overlap pieces ≡ tokens

module _ {Token : Type 0} (encoder : Encoder Token) (is_space : ℕ → Bool) (c : Chunker) where
  -- Nothing is left from `start` on.
  chunk_loop_last :
      (tokens : List Token) (fuel start position : ℕ)
      → start < length tokens
      → length tokens ≤ start + c.chunk_size
      → chunk_loop encoder is_space c tokens (suc fuel) start position
        ≡ numbered encoder position (drop start tokens ∷ [])
  unfolding chunk_loop
  chunk_loop_last tokens fuel start position h i =
      let inside : ltb start (length tokens) ≡ true = ground arith in
      let at_end : min (start + c.chunk_size) (length tokens) ≡ length tokens = omega arith in
      let test : (length tokens == length tokens) ≡ true = ground arith in
      let all =
        take_all (length tokens - start) (drop start tokens)
          (rw (length-drop start tokens) (omega arith)) in
      rw (inside, at_end, test, all) refl

  chunk_loop_more :
      (tokens : List Token) (fuel start position : ℕ)
      → start + c.chunk_size < length tokens
      → chunk_loop encoder is_space c tokens (suc fuel) start position
        ≡ record {
          text = encoder.decode (take c.chunk_size (drop start tokens));
          position = position;
          tokens = length (take c.chunk_size (drop start tokens));
        }
          ∷ chunk_loop encoder is_space c tokens fuel (start + stride c) (position + 1)
  unfolding chunk_loop
  chunk_loop_more tokens fuel start position h =
      let inside : ltb start (length tokens) ≡ true = ground arith in
      let before : min (start + c.chunk_size) (length tokens) ≡ start + c.chunk_size =
        omega arith in
      let size : start + c.chunk_size - start ≡ c.chunk_size = omega arith in
      let test : (start + c.chunk_size == length tokens) ≡ false = ground arith in
      rw (inside, before, test, size) refl

  chunk_loop-Covers :
      (tokens : List Token) (fuel start position : ℕ)
      → c.overlap < c.chunk_size
      → start < length tokens
      → length tokens ≤ start + fuel
      → Covers encoder c position
          (drop start tokens)
          (chunk_loop encoder is_space c tokens fuel start position)
  chunk_loop-Covers tokens zero start position o h f = absurd (omega arith)
  chunk_loop-Covers tokens (suc fuel) start position o h f =
      elim (Bool-cases (leb (length tokens) (start + c.chunk_size))) [
        | inl last ↦ record {
          pieces = drop start tokens ∷ [];
          result-numbered = chunk_loop_last tokens fuel start position h (ground arith);
          pieces-fit = (rw (length-drop start tokens) (ground arith), tt);
          pieces-restore = rw (drop_nil c.overlap) (append_nil (drop start tokens));
        }
        | inr more ↦
            let step : stride c ≡ c.chunk_size - c.overlap = omega arith in
            let along : start + stride c + c.overlap ≡ start + c.chunk_size = omega arith in
            let rest =
              chunk_loop-Covers tokens fuel (start + stride c) (position + 1) o (ground arith)
                (ground arith) in
            record {
              pieces = take c.chunk_size (drop start tokens) ∷ rest.pieces;
              result-numbered =
                  chunk_loop_more tokens fuel start position (ground arith)
                  ∙ rw rest.result-numbered refl;
              pieces-fit = (
                rw (length-take c.chunk_size (drop start tokens)) (omega arith),
                rest.pieces-fit,
              );
              pieces-restore =
                  ap (λ (t : List Token). take c.chunk_size (drop start tokens) ++ t)
                    (ap (drop c.overlap) rest.pieces-restore
                      ∙ drop-drop c.overlap (start + stride c) tokens
                      ∙ rw along (sym (drop-drop c.chunk_size start tokens)))
                  ∙ take-append-drop c.chunk_size (drop start tokens);
            }
      ]

  chunk_short :
      (text : Text)
      → all_space is_space text ≡ false
      → length (encoder.encode text) ≤ c.chunk_size
      → chunk encoder is_space c text
        ≡ record { text = text; position = 0; tokens = length (encoder.encode text) } ∷ []
  unfolding chunk
  chunk_short text h i =
      let test : leb (length (encoder.encode text)) c.chunk_size ≡ true = ground arith in
      rw (h, test) refl

  chunk_long :
      (text : Text)
      → all_space is_space text ≡ false
      → c.chunk_size < length (encoder.encode text)
      → chunk encoder is_space c text
        ≡ chunk_loop encoder is_space c (encoder.encode text) (length (encoder.encode text)) 0 0
  unfolding chunk
  chunk_long text h i =
      let test : leb (length (encoder.encode text)) c.chunk_size ≡ false = ground arith in
      rw (h, test) refl

  -- The chunks of a text that is not blank: their positions count up from 0, each has at most
  -- `chunk_size` tokens and says how many, and with the overlaps left away they make up the tokens of
  -- the text, none missing. It takes an overlap below the chunk size, and an encoder whose `decode`
  -- gives back the text that was encoded.
  pub chunk-Covers :
      (text : Text)
      → c.overlap < c.chunk_size
      → encoder.decode (encoder.encode text) ≡ text
      → all_space is_space text ≡ false
      → Covers encoder c 0 (encoder.encode text) (chunk encoder is_space c text)
  chunk-Covers text o back h = elim (Bool-cases (leb (length (encoder.encode text)) c.chunk_size)) [
    | inl short ↦ record {
      pieces = encoder.encode text ∷ [];
      result-numbered = chunk_short text h (ground arith) ∙ rw back refl;
      pieces-fit = (ground arith, tt);
      pieces-restore = rw (drop_nil c.overlap) (append_nil (encoder.encode text));
    }
    | inr long ↦ rw (chunk_long text h (ground arith)) (
        chunk_loop-Covers (encoder.encode text) (length (encoder.encode text)) 0 0 o (ground arith)
          (ground arith))
  ]

  -- The fuel is enough, whatever the overlap is: more of it changes nothing, so the loop ends. The
  -- stride of at least 1 makes it so.
  pub chunk_loop_enough :
      (tokens : List Token) (fuel more start position : ℕ)
      → length tokens ≤ start + fuel
      → chunk_loop encoder is_space c tokens (fuel + more) start position
        ≡ chunk_loop encoder is_space c tokens fuel start position
  unfolding chunk_loop
  chunk_loop_enough tokens zero zero start position h = refl
  chunk_loop_enough tokens zero (suc more) start position h =
      let out : ltb start (length tokens) ≡ false = ground arith in
      let e : 0 + suc more ≡ suc more = omega arith in rw (e, out) refl
  chunk_loop_enough tokens (suc fuel) more start position h =
      let e : suc fuel + more ≡ suc (fuel + more) = omega arith in
      rw (e, chunk_loop_enough tokens fuel more (start + stride c) (position + 1) (omega arith))
        refl
