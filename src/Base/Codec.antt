-- ===== src/Base/Codec.antt =====
-- Codecs into lists of numbers, which meet the laws that tests ask of JSON.
use Prim.Native.Nat.{ℕ, zero, suc}
use mathlib.Core.Path.{◌≡◌, refl, ap}
use mathlib.Core.Logic.{◌≢◌}
use mathlib.Core.List.{List, [], ◌∷◌}
use mathlib.Core.Option.{Option, none, some}
use urban_octo_tribble.Base.Lists.{length}

pub record Codec (A : Type 0) : Type 0 where
  pub write : A → List ℕ → List ℕ
  pub read : List ℕ → Option (A × List ℕ)
  pub read-write : (a : A) (t : List ℕ) → read (write a t) ≡ some (a, t)

abbrev read_number : List ℕ → Option (ℕ × List ℕ)
read_number [] = none
read_number (n ∷ t) = some (n, t)

abbrev pub number_codec : Codec ℕ
number_codec = record { write = λ n t. n ∷ t; read = read_number; read-write = λ n t. refl }

module _ {A B : Type 0} (a : Codec A) (b : Codec B) where
  abbrev with_second : A → Option (B × List ℕ) → Option ((A × B) × List ℕ)
  with_second x none = none
  with_second x (some (y, t)) = some ((x, y), t)

  abbrev after_first : Option (A × List ℕ) → Option ((A × B) × List ℕ)
  after_first none = none
  after_first (some (x, t)) = with_second x (b.read t)

  pub read_pair :
      (p : A × B) (t : List ℕ) → after_first (a.read (a.write p.0 (b.write p.1 t))) ≡ some (p, t)
  read_pair (x, y) t = rw (a.read-write x (b.write y t), b.read-write y t) refl

  abbrev pub pair_codec : Codec (A × B)
  pair_codec = record {
    write = λ p t. a.write p.0 (b.write p.1 t);
    read = λ t. after_first (a.read t);
    read-write = read_pair;
  }

module _ {A B : Type 0} (a : Codec A) (to : A → B) (from : B → A)
    (to-from : (y : B) → to (from y) ≡ y) where
  abbrev mapped : Option (A × List ℕ) → Option (B × List ℕ)
  mapped none = none
  mapped (some (x, t)) = some (to x, t)

  pub read_iso : (y : B) (t : List ℕ) → mapped (a.read (a.write (from y) t)) ≡ some (y, t)
  read_iso y t = rw (a.read-write (from y) t) (ap (λ z. some (z, t)) (to-from y))

  abbrev pub iso_codec : Codec B
  iso_codec = record {
    write = λ y t. a.write (from y) t;
    read = λ t. mapped (a.read t);
    read-write = read_iso;
  }

module _ {A : Type 0} (a : Codec A) where
  abbrev with_head : A → Option (List A × List ℕ) → Option (List A × List ℕ)
  with_head x none = none
  with_head x (some (xs, t)) = some (x ∷ xs, t)

  abbrev write_all : List A → List ℕ → List ℕ
  write_all [] t = t
  write_all (x ∷ xs) t = a.write x (write_all xs t)

  abbrev read_all : ℕ → List ℕ → Option (List A × List ℕ)
  read_all zero t = some ([], t)
  read_all (suc n) t =
      let rest = read_all n in
      elim (a.read t) [ none ↦ none | some (x, t') ↦ with_head x (rest t') ]

  pub read-write_all :
      (xs : List A) (t : List ℕ) → read_all (length xs) (write_all xs t) ≡ some (xs, t)
  read-write_all [] t = refl
  read-write_all (x ∷ xs) t = rw (a.read-write x (write_all xs t), read-write_all xs t) refl

  abbrev read_list : List ℕ → Option (List A × List ℕ)
  read_list [] = none
  read_list (n ∷ t) = read_all n t

  abbrev pub list_codec : Codec (List A)
  list_codec = record {
    write = λ xs t. length xs ∷ write_all xs t;
    read = read_list;
    read-write = read-write_all;
  }

  abbrev option_of : List A → Option A
  option_of [] = none
  option_of (x ∷ xs) = some x

  abbrev list_of : Option A → List A
  list_of none = []
  list_of (some x) = x ∷ []

  pub option_of-list_of : (o : Option A) → option_of (list_of o) ≡ o
  option_of-list_of none = refl
  option_of-list_of (some x) = refl

  abbrev pub option_codec : Codec (Option A)
  option_codec = iso_codec list_codec option_of list_of option_of-list_of

  abbrev first : Option (A × List ℕ) → Option A
  first none = none
  first (some (x, t)) = some x

  -- A text that is never empty.
  abbrev pub dumps : A → List ℕ
  dumps x = 0 ∷ a.write x []

  abbrev pub loads : List ℕ → Option A
  loads [] = none
  loads (n ∷ t) = first (a.read t)

  pub loads-dumps : (x : A) → loads (dumps x) ≡ some x
  loads-dumps x = rw (a.read-write x []) refl

  pub dumps_nonempty : (x : A) → dumps x ≢ []
  dumps_nonempty x h = cc (h)
