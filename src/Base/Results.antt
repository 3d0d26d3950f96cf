-- ===== src/Base/Results.antt =====
-- The chain of checks that return or raise and change nothing, for `do` blocks.
use mathlib.Core.Path.{◌≡◌, refl, ap}
use mathlib.Core.Bool.{Bool, true, false}
use mathlib.Core.Option.{Option, none, some}
use urban_octo_tribble.Base.Tests.{if◌then◌else◌}
use urban_octo_tribble.Base.Exec.{Result, ok, err}

module _ {E A B : Type 0} where
  infixl 5 ◌>>=◌ ◌>>◌
  abbrev pub ◌>>=◌ : Result E A → (A → Result E B) → Result E B
  ok a >>= f = f a
  err e >>= f = err e

  abbrev pub ◌>>◌ : Result E A → Result E B → Result E B
  ok a >> r = r
  err e >> r = err e

  pub >>=-eq-ok :
      (r : Result E A) (f : A → Result E B) {b : B}
      → (r >>= f) ≡ ok b
      → (a : A) × (r ≡ ok a) × (f a ≡ ok b)
  >>=-eq-ok (ok a) f h = (a, refl, h)
  >>=-eq-ok (err e) f h = cc

module _ {E : Type 0} where
  abbrev pub stop_if : Bool → E → Result E (Unit {0})
  stop_if true e = err e
  stop_if false e = ok tt

  pub stop_if-eq-ok :
      {B : Type 0} (b : Bool) (e : E) (r : Result E B) {x : B}
      → (stop_if b e >> r) ≡ ok x
      → (b ≡ false) × (r ≡ ok x)
  stop_if-eq-ok true e r h = cc
  stop_if-eq-ok false e r h = (refl, h)

module _ {E A : Type 0} where
  value_or : A → Result E A → A
  value_or b (ok a) = a
  value_or b (err e) = b

  pub ok-injective : {a b : A} → ◌≡◌ {A = Result E A} (ok a) (ok b) → a ≡ b
  unfolding value_or
  ok-injective {a = a} h = ap (value_or a) h

  pub if-eq-ok :
      (b : Bool) (a : A) (e : E) {c : A} → (if b then ok a else err e) ≡ ok c → (b ≡ true) × (a ≡ c)
  if-eq-ok true a e h = (refl, ok-injective h)
  if-eq-ok false a e h = cc

  abbrev pub some_or : E → Option A → Result E A
  some_or e none = err e
  some_or e (some a) = ok a

  pub some_or-eq-ok : (e : E) (o : Option A) {a : A} → some_or e o ≡ ok a → o ≡ some a
  some_or-eq-ok e none h = cc
  some_or-eq-ok e (some a) h = cc
