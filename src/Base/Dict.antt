-- ===== src/Base/Dict.antt =====
-- Dictionaries with numbers for keys, in the order of insertion, as Python's are.
use Prim.Native.Nat.{ℕ}
use mathlib.Core.Path.{◌≡◌, refl, sym, ap, ◌∙◌}
use mathlib.Core.Logic.{inl, inr}
use mathlib.Core.Bool.{Bool, true, false}
use mathlib.Core.Option.{Option, none, some}
use mathlib.Core.List.{List, [], ◌∷◌}
use native.Mathlib.Omega.{arith}
use urban_octo_tribble.Base.Tests.{◌==◌, ==_iff, if◌then◌else◌, Bool-cases}

abbrev pub has : ℕ → List ℕ → Bool
has k [] = false
has k (j ∷ l) = if j == k then true else has k l

-- A key goes to the end if it is new.
abbrev pub add_key : ℕ → List ℕ → List ℕ
add_key k [] = k ∷ []
add_key k (j ∷ l) = if j == k then j ∷ l else j ∷ add_key k l

abbrev pub IsDistinct : List ℕ → Type 0
IsDistinct [] = Unit
IsDistinct (k ∷ l) = (has k l ≡ false) × IsDistinct l

pub has-add_key : (j k : ℕ) (l : List ℕ) → has j (add_key k l) ≡ (if k == j then true else has j l)
has-add_key j k [] = refl
has-add_key j k (i ∷ l) = ground (arith, has-add_key j k l)

pub add_key-IsDistinct : (k : ℕ) (l : List ℕ) → IsDistinct l → IsDistinct (add_key k l)
add_key-IsDistinct k [] d = (refl, tt)
add_key-IsDistinct k (i ∷ l) (fresh, d) = elim (Bool-cases (i == k)) [
  | inl e ↦ rw e (fresh, d)
  | inr e ↦
      let apart : (k == i) ≡ false = ground arith in
      rw e (has-add_key i k l ∙ rw apart fresh, add_key-IsDistinct k l d)
]

module _ {V : Type 0} where
  abbrev pub get : ℕ → List (ℕ × V) → Option V
  get k [] = none
  get k ((j, v) ∷ d) = if j == k then some v else get k d

  abbrev pub put : ℕ → V → List (ℕ × V) → List (ℕ × V)
  put k v [] = (k, v) ∷ []
  put k v ((j, w) ∷ d) = if j == k then (j, v) ∷ d else (j, w) ∷ put k v d

  abbrev pub keys : List (ℕ × V) → List ℕ
  keys [] = []
  keys ((j, v) ∷ d) = j ∷ keys d

  pub keys-put : (k : ℕ) (v : V) (d : List (ℕ × V)) → keys (put k v d) ≡ add_key k (keys d)
  keys-put k v [] = refl
  keys-put k v ((j, w) ∷ d) = elim (Bool-cases (j == k)) [
    | inl e ↦ rw e refl
    | inr e ↦ rw (e, keys-put k v d) refl
  ]

  -- The dictionary of a function at some keys.
  abbrev pub graph : (ℕ → V) → List ℕ → List (ℕ × V)
  graph f [] = []
  graph f (k ∷ l) = (k, f k) ∷ graph f l

  abbrev pub set_at : (ℕ → V) → ℕ → V → ℕ → V
  set_at f k v j = if k == j then v else f j

  pub graph-ext : {f g : ℕ → V} (l : List ℕ) → ((j : ℕ) → f j ≡ g j) → graph f l ≡ graph g l
  graph-ext [] h = refl
  graph-ext (k ∷ l) h = rw (h k, graph-ext l h) refl

  graph-set_ne :
      (f : ℕ → V) (k : ℕ) (v : V) (l : List ℕ)
      → has k l ≡ false
      → graph (set_at f k v) l ≡ graph f l
  graph-set_ne f k v [] h = refl
  graph-set_ne f k v (j ∷ l) h = elim (Bool-cases (j == k)) [
    | inl e ↦ absurd (ground arith)
    | inr e ↦
        let apart : (k == j) ≡ false = ground arith in
        rw (apart, graph-set_ne f k v l (ground arith)) refl
  ]

  pub put-graph :
      (f : ℕ → V) (k : ℕ) (v : V) (l : List ℕ)
      → IsDistinct l
      → put k v (graph f l) ≡ graph (set_at f k v) (add_key k l)
  put-graph f k v [] d = let same : (k == k) ≡ true = ground arith in rw same refl
  put-graph f k v (j ∷ l) (fresh, d) = elim (Bool-cases (j == k)) [
    | inl e ↦
        let back : (k == j) ≡ true = ground arith in
        let keeps = graph-set_ne f k v l (ap (λ i. has i l) (sym ((==_iff j k).0 e)) ∙ fresh) in
        rw (e, back, keeps) refl
    | inr e ↦ let apart : (k == j) ≡ false = ground arith in rw (e, apart, put-graph f k v l d) refl
  ]

  pub get-graph :
      (f : ℕ → V) (k : ℕ) (l : List ℕ) → get k (graph f l) ≡ (if has k l then some (f k) else none)
  get-graph f k [] = refl
  get-graph f k (j ∷ l) = elim (Bool-cases (j == k)) [
    | inl e ↦ rw e (ap (λ i. some (f i)) ((==_iff j k).0 e))
    | inr e ↦ rw (e, get-graph f k l) refl
  ]
