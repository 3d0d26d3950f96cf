-- ===== src/Database.antt =====
-- What the program relies on of SQLAlchemy and PostgreSQL, as an interface: a table holds a list of
-- rows, and the queries and changes that the handlers make are told by what they do to that list.
-- The handlers take a table as a parameter; `list_table` shows that the laws can be met.
pub mod Found
use urban_octo_tribble.Base.{
  ◌≡◌, refl, Bool, true, false, Option, none, some, List, [], ◌∷◌, ◌++◌, if◌then◌else◌,
}

-- `result.scalar_one_or_none()`: no row, one row, or the exception `MultipleResultsFound`.
pub data Lookup (A : Type 0) : Type 0 where
  absent : Lookup A
  one : A → Lookup A
  several : Lookup A

module _ {A : Type 0} where
  abbrev pub one_or_none : List A → Lookup A
  one_or_none [] = absent
  one_or_none (r ∷ []) = one r
  one_or_none (r ∷ q ∷ rest) = several

  abbrev pub matching : (A → Bool) → List A → List A
  matching p [] = []
  matching p (r ∷ rest) = if p r then r ∷ matching p rest else matching p rest

  abbrev pub any_row : (A → Bool) → List A → Bool
  any_row p [] = false
  any_row p (r ∷ rest) = if p r then true else any_row p rest

  abbrev pub update_matching : (A → Bool) → (A → A) → List A → List A
  update_matching p f [] = []
  update_matching p f (r ∷ rest) = (if p r then f r else r) ∷ update_matching p f rest

-- `conflicts` are the unique columns of the model.
pub record Table (Row : Type 0) (conflicts : Row → Row → Bool) : Type 1 where
  pub Store : Type 0
  pub rows : Store → List Row
  -- select(Row).where(p), by `scalar_one_or_none`
  pub select : (Row → Bool) → Store → Lookup Row
  pub select-rows : (p : Row → Bool) (t : Store) → select p t ≡ one_or_none (matching p (rows t))
  -- session.add(row), session.commit(); `none` is the `IntegrityError`
  pub insert : Row → Store → Option Store
  pub insert_conflict :
      (r : Row) (t : Store) → any_row (conflicts r) (rows t) ≡ true → insert r t ≡ none
  pub insert_fresh :
      (r : Row) (t : Store)
      → any_row (conflicts r) (rows t) ≡ false
      → (t' : Store) × (insert r t ≡ some t') × (rows t' ≡ rows t ++ r ∷ [])
  -- an assignment to fields of mapped objects, session.commit()
  pub update : (Row → Bool) → (Row → Row) → Store → Store
  pub update-rows :
      (p : Row → Bool) (f : Row → Row) (t : Store)
      → rows (update p f t) ≡ update_matching p f (rows t)

module _ {Row : Type 0} (conflicts : Row → Row → Bool) where
  abbrev list_insert : Row → List Row → Option (List Row)
  list_insert r t = if any_row (conflicts r) t then none else some (t ++ r ∷ [])

  pub list_insert_conflict :
      (r : Row) (t : List Row) → any_row (conflicts r) t ≡ true → list_insert r t ≡ none
  list_insert_conflict r t h = rw h

  pub list_insert_fresh :
      (r : Row) (t : List Row)
      → any_row (conflicts r) t ≡ false
      → (t' : List Row) × (list_insert r t ≡ some t') × (t' ≡ t ++ r ∷ [])
  list_insert_fresh r t h = (t ++ r ∷ [], rw h, refl)

  abbrev pub list_table : Table Row conflicts
  list_table = record {
    Store = List Row;
    rows = λ t. t;
    select = λ p t. one_or_none (matching p t);
    select-rows = λ p t. refl;
    insert = list_insert;
    insert_conflict = list_insert_conflict;
    insert_fresh = list_insert_fresh;
    update = update_matching;
    update-rows = λ p f t. refl;
  }
