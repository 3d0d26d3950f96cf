-- ===== src/Database/Found.antt =====
-- A row that a query finds has what the query asks for.
use urban_octo_tribble.Base.{
  ◌≡◌, sym, ap, ◌∙◌, inl, inr, Bool-cases, Bool, true, List, [], ◌∷◌, All,
}
use mathlib.Core.Path.{subst}
use urban_octo_tribble.Database.{Lookup, absent, one, several, Table, one_or_none, matching}

module _ {A : Type 0} where
  pub matching-All : (p : A → Bool) (l : List A) → All (λ r. p r ≡ true) (matching p l)
  matching-All p [] = tt
  matching-All p (r ∷ l) = elim (Bool-cases (p r)) [
    | inl e ↦ rw e (e, matching-All p l)
    | inr e ↦ rw e (matching-All p l)
  ]

  one_or_none-holds : (P : A → Type 0) (l : List A) {r : A} → All P l → one_or_none l ≡ one r → P r
  one_or_none-holds P [] h e = cc
  one_or_none-holds P (q ∷ []) h e = subst P (ap (value_or_first q) e) h.0
    where
      value_or_first : A → Lookup A → A
      value_or_first d absent = d
      value_or_first d (one x) = x
      value_or_first d several = d
  one_or_none-holds P (q ∷ s ∷ l) h e = cc

pub select-holds :
    {Row : Type 0} {conflicts : Row → Row → Bool} (T : Table Row conflicts) (p : Row → Bool)
    (t : T.Store) {r : Row}
    → T.select p t ≡ one r
    → p r ≡ true
select-holds T p t e =
    one_or_none-holds (λ r. p r ≡ true) (matching p (T.rows t)) (matching-All p (T.rows t))
      (sym (T.select-rows p t) ∙ e)
