-- ===== src/Base62/Tests.antt =====
-- The encoder at concrete numbers, and its theorems there.
use urban_octo_tribble.Base.{ℕ, ◌≡◌, refl, some, none, codes, Text}
use urban_octo_tribble.Base62.{encode, decode, index_of}
use urban_octo_tribble.Base62.RoundTrip.{decode-encode, encode_injective}

encode_runs : encode 1724551110464770048 ≡ some (codes "23osFoBboCQ")
unfolding encode
encode_runs = refl

decode_runs : decode (codes "1c") ≡ some 74
unfolding decode index_of
decode_runs = refl

decode_fails : decode (codes "a-b") ≡ none
unfolding decode index_of
decode_fails = refl

decode-encode_example : (s : Text) × (encode 74 ≡ some s) × (decode s ≡ some 74)
decode-encode_example = decode-encode 74

encode_injective_example : ◌≡◌ {A = ℕ} 74 74
encode_injective_example = encode_injective 74 74 refl
