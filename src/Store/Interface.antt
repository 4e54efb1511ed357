-- ===== src/Store/Interface.antt =====
-- `ctx.db`: tables of documents, each document with an id that the database gives it. The laws are
-- the documented behaviour: a transaction reads its own writes, ids are unique, a full scan lists
-- the documents in the order of their creation.
use bling.Prelude.{ℕ, ◌≡◌, none, List, [], ◌∷◌, ◌++◌}
use bling.Store.Rows.{Row, lookup, replace_row, remove_row, IsKeyed}

pub record Convex : Type 1 where
  pub Table : Type 0 → Type 0
  -- `ctx.db.query(table).collect()`
  pub rows : {D : Type 0} → Table D → List (Row D)
  -- The id that the next `ctx.db.insert` into this table returns.
  pub next_id : {D : Type 0} → Table D → ℕ
  pub insert : {D : Type 0} → D → Table D → Table D
  -- `ctx.db.replace`, or `ctx.db.patch` with the fields already merged.
  pub replace : {D : Type 0} → ℕ → D → Table D → Table D
  pub delete : {D : Type 0} → ℕ → Table D → Table D
  pub keyed : {D : Type 0} (t : Table D) → IsKeyed (rows t)
  pub next_id_free : {D : Type 0} (t : Table D) → lookup (next_id t) (rows t) ≡ none
  pub rows-insert :
      {D : Type 0} (d : D) (t : Table D) → rows (insert d t) ≡ rows t ++ (next_id t, d) ∷ []
  pub rows-replace :
      {D : Type 0} (i : ℕ) (d : D) (t : Table D) → rows (replace i d t) ≡ replace_row i d (rows t)
  pub rows-delete : {D : Type 0} (i : ℕ) (t : Table D) → rows (delete i t) ≡ remove_row i (rows t)
