-- ===== src/Database.antt =====
-- A table of the database, as the program uses it through SQLAlchemy: rows are read, added, and
-- changed where a test holds. The database is not part of the program, so a table is a parameter
-- with the documented effect of each statement.
pub mod Queries
use multi_agent_ai_analyst.Prelude.{ℕ, ◌≡◌, refl, Bool, List, [], ◌∷◌, ◌++◌, map, if◌then◌else◌}

-- The rows after `UPDATE … SET … WHERE …`.
abbrev pub change_where {ℓ} : {A : Type ℓ} → (A → Bool) → (A → A) → List A → List A
change_where p f rows = map (λ r. if p r then f r else r) rows

pub record Table (Row : Type 0) : Type 1 where
  pub State : Type 0
  -- every row, in the order in which the rows were added
  pub rows : State → List Row
  pub insert : Row → State → State
  pub update : (Row → Bool) → (Row → Row) → State → State
  pub rows-insert : (r : Row) (s : State) → rows (insert r s) ≡ rows s ++ r ∷ []
  pub rows-update :
      (p : Row → Bool) (f : Row → Row) (s : State) → rows (update p f s) ≡ change_where p f (rows s)

-- A table that is its rows.
abbrev pub plain_table : (Row : Type 0) → Table Row
plain_table Row = record {
  State = List Row;
  rows = λ s. s;
  insert = λ r s. s ++ r ∷ [];
  update = change_where;
  rows-insert = λ r s. refl;
  rows-update = λ p f s. refl;
}
