-- ===== src/Base62/RoundTrip.antt =====
-- What `encode` writes, `decode` reads; how long a code is; no two numbers share a code.
use mathlib.Core.Logic.{dif_pos, dif_neg}
use mathlib.Core.List.{reverse, reverse-cons, append-nil, append_assoc}
use mathlib.Core.WellFounded.{Acc}
use native.Mathlib.Decide.{dec_lt}
use native.Mathlib.Nat.{pow-suc}
use native.Mathlib.Bridge.{le_prop}
use urban_octo_tribble.Base.{
  ℕ, zero, suc, ◌+◌, ◌*◌, ◌/◌, ◌%◌, ◌^◌, ◌≤◌, ◌<◌, ◌≡◌, refl, sym, ap, ◌∙◌, inl, inr, List, [], ◌∷◌,
  ◌++◌, Option, none, some, arith, ◌==◌, ==_iff, Bool, true, false, ◌&&◌, get_elem?, length,
  length-append, Bool-cases, Option-cases,
}
use urban_octo_tribble.Base.Options.{◌>>=◌}
use urban_octo_tribble.Base.Order.{lt_wf}
use urban_octo_tribble.Base62.{alphabet, base, index_of, encode_loop, encode, decode_from, decode}

-- Every digit below `n` passes.
every_digit : (ℕ → Bool) → ℕ → Bool
every_digit test zero = true
every_digit test (suc n) = test n && every_digit test n

every_digit-passes : (test : ℕ → Bool) (n i : ℕ) → i < n → every_digit test n ≡ true → test i ≡ true
unfolding every_digit
every_digit-passes test zero i lt h = elim lt [ ]
every_digit-passes test (suc n) i lt h = ground (arith, every_digit-passes test n i)

same_index : Option ℕ → ℕ → Bool
same_index none i = false
same_index (some j) i = j == i

same_index_sound : (o : Option ℕ) (i : ℕ) → same_index o i ≡ true → o ≡ some i
unfolding same_index
same_index_sound none i h = cc
same_index_sound (some j) i h = ap some ((==_iff j i).0 h)

-- `c` is the character for the digit `i`, and is read back as `i`.
DigitChar : ℕ → ℕ → Type 0
DigitChar i c = (get_elem? alphabet i ≡ some c) × (index_of c alphabet ≡ some i)

digit_reads_back :
    (o : Option ℕ) (i : ℕ)
    → same_index (o >>= λ c. index_of c alphabet) i ≡ true
    → (c : ℕ) × (o ≡ some c) × (index_of c alphabet ≡ some i)
unfolding same_index
digit_reads_back none i h = cc
digit_reads_back (some c) i h = (c, refl, same_index_sound (index_of c alphabet) i h)

alphabet_table :
    every_digit (λ i. same_index (get_elem? alphabet i >>= λ c. index_of c alphabet) i) 62 ≡ true
unfolding every_digit same_index index_of
alphabet_table = refl

digit_read :
    (i : ℕ) → i < 62 → (c : ℕ) × (get_elem? alphabet i ≡ some c) × (index_of c alphabet ≡ some i)
digit_read i h =
    digit_reads_back (get_elem? alphabet i) i (every_digit-passes _ 62 i h alphabet_table)

decode_from-append :
    (n : ℕ) (s t : List ℕ) → decode_from n (s ++ t) ≡ (decode_from n s >>= λ m. decode_from m t)
unfolding decode_from
decode_from-append n [] t = refl
decode_from-append n (c ∷ s) t = elim (Option-cases (index_of c alphabet)) [
  | inl bad ↦ rw bad
  | inr (i, good) ↦ rw good (decode_from-append (n * base + i) s t)
]

-- Digits from the lowest up, and the number that they stand for.
record Digits (num : ℕ) (ds : List ℕ) : Type 0 where
  read : decode (reverse ds) ≡ some num
  bound : (k : ℕ) → num < 62 ^ k → length ds ≤ k

decode-snoc :
    (s : List ℕ) (n i c : ℕ)
    → decode s ≡ some n
    → index_of c alphabet ≡ some i
    → decode (s ++ c ∷ []) ≡ some (n * base + i)
unfolding decode decode_from
decode-snoc s n i c h e = rw (decode_from-append 0 s (c ∷ []), h, e)

length-digits :
    (num k n : ℕ) → 0 < num → num < 62 ^ k → ((j : ℕ) → num / base < 62 ^ j → n ≤ j) → suc n ≤ k
length-digits num zero n h small rest = absurd (omega arith)
length-digits num (suc k) n h small rest =
    let below : num / base < 62 ^ k = omega (arith, pow-suc 62 k) in omega (arith, rest k below)

Digits-cons :
    (num c : ℕ) (ds : List ℕ)
    → 0 < num
    → index_of c alphabet ≡ some (num % base)
    → Digits (num / base) ds
    → Digits num (c ∷ ds)
Digits-cons num c ds h e d = record {
  read =
      rw reverse-cons
        (decode-snoc (reverse ds) (num / base) (num % base) c d.read e ∙ ap some (omega arith));
  bound = λ k small. length-digits num k (length ds) h small d.bound;
}

encode_loop-Digits :
    (num : ℕ) (w : Acc ◌<◌ num) (result : List ℕ)
    → (ds : List ℕ) × (encode_loop num w result ≡ some (result ++ ds)) × Digits num ds
unfolding encode_loop
encode_loop-Digits num (Acc.intro _ smaller) result = elim (dec_lt 0 num) [
  | no h ↦ (
    [],
    rw (dif_neg (dec_lt 0 num) h) (ap some (sym (append-nil result))),
    record {
      read = unfold decode decode_from in ap some (omega arith);
      bound = λ k small. omega arith;
    },
  )
  | yes h ↦
      let (c, at, back) = digit_read (num % base) (omega arith) in
      let (ds, e, d) =
        encode_loop-Digits (num / base) (smaller (num / base) (omega arith)) (result ++ c ∷ []) in
      (
        c ∷ ds,
        rw (dif_pos (dec_lt 0 num) le_prop h)
            (rw at (e ∙ ap some (append_assoc result (c ∷ []) ds))),
        Digits-cons num c ds h back d,
      )
]

length-reverse : (s : List ℕ) → length (reverse s) ≡ length s
length-reverse [] = refl
length-reverse (c ∷ s) =
    ap length (reverse-cons c s)
    ∙ omega (arith, length-append (reverse s) (c ∷ []), length-reverse s)

-- A code of the number, which is read back, and is no longer than it has to be.
abbrev Encoded : ℕ → Type 0
Encoded num =
    (s : List ℕ) × (encode num ≡ some s)
    × (decode s ≡ some num)
    × ((k : ℕ) → 0 < k → num < 62 ^ k → length s ≤ k)

encode-zero : (num : ℕ) → num ≡ 0 → Encoded num
unfolding encode decode decode_from index_of
encode-zero num z = rw z (b'0' ∷ [], refl, refl, λ k h _. omega arith)

encode-positive :
    (num : ℕ) (ds : List ℕ)
    → (num == 0) ≡ false
    → encode_loop num (lt_wf.apply num) [] ≡ some ds
    → Digits num ds
    → Encoded num
unfolding encode
encode-positive num ds nz e d =
    (reverse ds, rw (nz, e), d.read, λ k _ small. rw length-reverse (d.bound k small))

encode-Encoded : (num : ℕ) → Encoded num
encode-Encoded num = elim (Bool-cases (num == 0)) [
  | inl z ↦ encode-zero num ((==_iff num 0).0 z)
  | inr nz ↦
      let (ds, e, d) = encode_loop-Digits num (lt_wf.apply num) [] in encode-positive num ds nz e d
]

-- Every number has a code, and decoding the code gives the number back: no character that `encode`
-- looks up is missing from the alphabet, and the loop ends.
pub decode-encode : (num : ℕ) → (s : List ℕ) × (encode num ≡ some s) × (decode s ≡ some num)
decode-encode num = let (s, e, d, _) = encode-Encoded num in (s, e, d)

-- Two numbers with one code are equal.
pub encode_injective : (m n : ℕ) → encode m ≡ encode n → m ≡ n
encode_injective m n e =
    let (s, es, ds) = decode-encode m in let (t, et, dt) = decode-encode n in cc

-- A number below 2^63, such as an id, has a code of at most 11 characters, which is the length of
-- the column for short codes.
pub encode-length : (num : ℕ) (s : List ℕ) → num < 2 ^ 63 → encode num ≡ some s → length s ≤ 11
encode-length num s small e =
    let (t, et, _, bound) = encode-Encoded num in
    let same : t ≡ s = cc in rw same at (bound 11 (omega arith) (omega arith))
