-- ===== src/Sql.antt =====
-- The statements that the stores issue, over a table as the list of its rows in insertion order.
-- A `WHERE` clause is a test on a row and a `SET` list is a function on a row. The database engine
-- itself (SQLite) is not code of the repository: these are its documented meanings.
pub mod Rows
pub mod Keys
pub mod Members
pub mod Ordered
use th_layer_agent.Common.{ℕ, suc, Bool, List, [], ◌∷◌, ◌++◌, Option, none, some, if◌then◌else◌}

module _ {A : Type 0} where
  -- SELECT * ... WHERE
  unfoldable pub select : (A → Bool) → List A → List A
  select p [] = []
  select p (r ∷ rows) = if p r then r ∷ select p rows else select p rows

  -- SELECT ... WHERE, then fetchone()
  unfoldable pub fetchone : (A → Bool) → List A → Option A
  fetchone p [] = none
  fetchone p (r ∷ rows) = if p r then some r else fetchone p rows

  -- the cursor's rowcount after UPDATE or DELETE ... WHERE
  unfoldable pub rowcount : (A → Bool) → List A → ℕ
  rowcount p [] = 0
  rowcount p (r ∷ rows) = if p r then suc (rowcount p rows) else rowcount p rows

  -- UPDATE ... SET ... WHERE
  unfoldable pub update : (A → Bool) → (A → A) → List A → List A
  update p f [] = []
  update p f (r ∷ rows) = (if p r then f r else r) ∷ update p f rows

  -- DELETE ... WHERE
  unfoldable pub delete : (A → Bool) → List A → List A
  delete p [] = []
  delete p (r ∷ rows) = if p r then delete p rows else r ∷ delete p rows

  -- INSERT of one row
  abbrev pub insert : A → List A → List A
  insert r rows = rows ++ r ∷ []

  unfoldable pub insert_ordered : (A → A → Bool) → A → List A → List A
  insert_ordered before a [] = a ∷ []
  insert_ordered before a (r ∷ rows) =
      if before a r then a ∷ r ∷ rows else r ∷ insert_ordered before a rows

  -- ORDER BY, where `before a b` says that `a` sorts no later than `b`
  unfoldable pub order_by : (A → A → Bool) → List A → List A
  unfolding insert_ordered
  order_by before [] = []
  order_by before (r ∷ rows) = insert_ordered before r (order_by before rows)
