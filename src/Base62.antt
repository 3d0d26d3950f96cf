-- ===== src/Base62.antt =====
-- The base-62 encoder, app/utility/base62_encoder.py. A text is the list of its code points.
pub mod RoundTrip
mod Tests
use mathlib.Core.Logic.{dite}
use mathlib.Core.List.{reverse}
use mathlib.Core.WellFounded.{Acc}
use native.Mathlib.Decide.{dec_lt}
use urban_octo_tribble.Base.{
  ℕ, suc, ◌+◌, ◌*◌, ◌/◌, ◌%◌, ◌<◌, List, [], ◌∷◌, ◌++◌, Option, none, some, arith, ◌==◌,
  if◌then◌else◌, get_elem?, codes,
}
use urban_octo_tribble.Base.Options.{◌>>=◌}
use urban_octo_tribble.Base.Order.{lt_wf}

abbrev pub alphabet : List ℕ
alphabet = codes "0123456789abcdefghijklmnopqrstuvwxyzABCDEFGHIJKLMNOPQRSTUVWXYZ"

abbrev pub base : ℕ
base = 62

-- `ALPHABET.index(char)`; `none` is the `ValueError`.
pub index_of : ℕ → List ℕ → Option ℕ
index_of c [] = none
index_of c (a ∷ rest) =
    if a == c then some 0 else (elim (index_of c rest) [ none ↦ none | some i ↦ some (suc i) ])

-- The loop of `encode` over `num` and `result`; `none` is the `IndexError` of `ALPHABET[i]`.
pub encode_loop : (num : ℕ) → Acc ◌<◌ num → List ℕ → Option (List ℕ)
encode_loop num (Acc.intro _ smaller) result =
    dite (dec_lt 0 num)
      (λ h. elim (get_elem? alphabet (num % base)) [
        | none ↦ none
        | some c ↦ encode_loop (num / base) (smaller (num / base) (omega arith)) (result ++ c ∷ [])
      ])
      (λ _. some result)

abbrev joined : Option (List ℕ) → Option (List ℕ)
joined none = none
joined (some result) = some (reverse result)

unfoldable pub encode : ℕ → Option (List ℕ)
unfolding encode_loop lt_wf dec_lt
encode num =
    if num == 0
    then get_elem? alphabet 0 >>= (λ c. some (c ∷ []))
    else joined (encode_loop num (lt_wf.apply num) [])

-- `none` is the `ValueError` of a character outside the alphabet.
pub decode_from : ℕ → List ℕ → Option ℕ
decode_from num [] = some num
decode_from num (char ∷ s) = do i ← index_of char alphabet; decode_from (num * base + i) s

unfoldable pub decode : List ℕ → Option ℕ
unfolding decode_from
decode s = decode_from 0 s
