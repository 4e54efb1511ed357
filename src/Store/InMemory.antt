-- ===== src/Store/InMemory.antt =====
-- A database in memory, which meets the interface: a table is its rows, and a new id is one more
-- than every id in the table.
use bling.Prelude.{ℕ, suc, ◌≤◌, ◌≡◌, refl, none, List, [], ◌∷◌, ◌++◌, arith, if◌then◌else◌, leb}
use bling.Store.Rows.{
  Row, lookup, replace_row, remove_row, IsKeyed, lookup-append_row, lookup-remove_row,
}
use bling.Store.Interface.{Convex}

unfoldable pub above : {D : Type 0} → List (Row D) → ℕ
above [] = 1
above ((i, d) ∷ rs) = let m = above rs in if leb m i then suc i else m

module _ {D : Type 0} where
  pub lookup-above : (rs : List (Row D)) (i : ℕ) → above rs ≤ i → lookup i rs ≡ none
  unfolding above lookup
  lookup-above [] i h = refl
  lookup-above ((j, d) ∷ rs) i h = ground (arith, lookup-above rs i)

  pub append_row-IsKeyed :
      (i : ℕ) (d : D) (rs : List (Row D))
      → lookup i rs ≡ none
      → IsKeyed rs
      → IsKeyed (rs ++ (i, d) ∷ [])
  unfolding lookup
  append_row-IsKeyed i d [] h k = (refl, tt)
  append_row-IsKeyed i d ((j, e) ∷ rs) h k =
      ground (arith, append_row-IsKeyed i d rs, lookup-append_row i j d rs)

  lookup-replace_row_other :
      (i j : ℕ) (d : D) (rs : List (Row D))
      → lookup j rs ≡ none
      → lookup j (replace_row i d rs) ≡ none
  unfolding lookup replace_row
  lookup-replace_row_other i j d [] h = refl
  lookup-replace_row_other i j d ((k, e) ∷ rs) h = ground (arith, lookup-replace_row_other i j d rs)

  pub replace_row-IsKeyed :
      (i : ℕ) (d : D) (rs : List (Row D)) → IsKeyed rs → IsKeyed (replace_row i d rs)
  unfolding replace_row
  replace_row-IsKeyed i d [] k = tt
  replace_row-IsKeyed i d ((j, e) ∷ rs) k =
      ground (arith, replace_row-IsKeyed i d rs k.1, lookup-replace_row_other i j d rs)

  pub remove_row-IsKeyed : (i : ℕ) (rs : List (Row D)) → IsKeyed rs → IsKeyed (remove_row i rs)
  unfolding remove_row
  remove_row-IsKeyed i [] k = tt
  remove_row-IsKeyed i ((j, e) ∷ rs) k =
      ground (arith, remove_row-IsKeyed i rs k.1, lookup-remove_row i j rs k.1)

instance abbrev pub in_memory : Convex
in_memory = record {
  Table = λ D. (rs : List (Row D)) × IsKeyed rs;
  rows = λ t. t.0;
  next_id = λ t. above t.0;
  insert = λ d t. (
    t.0 ++ (above t.0, d) ∷ [],
    append_row-IsKeyed (above t.0) d t.0 (lookup-above t.0 (above t.0) (omega arith)) t.1,
  );
  replace = λ i d t. (replace_row i d t.0, replace_row-IsKeyed i d t.0 t.1);
  delete = λ i t. (remove_row i t.0, remove_row-IsKeyed i t.0 t.1);
  keyed = λ t. t.1;
  next_id_free = λ t. lookup-above t.0 (above t.0) (omega arith);
  rows-insert = λ d t. refl;
  rows-replace = λ i d t. refl;
  rows-delete = λ i t. refl;
}

-- The empty table.
abbrev pub empty : {D : Type 0} → Convex.Table in_memory D
empty = ([], tt)
