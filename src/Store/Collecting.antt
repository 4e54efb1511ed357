-- ===== src/Store/Collecting.antt =====
-- Reads of every document of an index, after the writes of a table.
use bling.Prelude.{
  ℕ, ◌≡◌, refl, Bool, true, some, List, [], ◌∷◌, ◌++◌, arith, if◌then◌else◌, keep, is_some, ap, ◌∙◌,
}
use bling.Store.Interface.{Convex}
use bling.Store.Rows.{Row, lookup, remove_row, IsKeyed}
use bling.Store.Queries.{Table, get, insert, delete, delete_all, collect, next_id, get-delete}

module _ {D : Type 0} where
  keep-append :
      (p : Row D → Bool) (rs : List (Row D)) (r : Row D)
      → keep p (rs ++ r ∷ []) ≡ keep p rs ++ (if p r then r ∷ [] else [])
  keep-append p [] r = ground arith
  keep-append p (x ∷ rs) r = ground (arith, keep-append p rs r)

  lookup-keep :
      (p : Row D → Bool) (rs : List (Row D)) (r : Row D) (more : List (Row D))
      → keep p rs ≡ r ∷ more
      → is_some (lookup r.0 rs) ≡ true
  unfolding lookup
  lookup-keep p [] r more h = ground arith
  lookup-keep p (x ∷ rs) r more h = ground (arith, lookup-keep p rs r more)

  -- The first row that passes a test, removed.
  keep-remove_row :
      (p : Row D → Bool) (rs : List (Row D)) (r : Row D) (more : List (Row D))
      → IsKeyed rs
      → keep p rs ≡ r ∷ more
      → keep p (remove_row r.0 rs) ≡ more
  unfolding remove_row lookup
  keep-remove_row p [] r more k h = ground arith
  keep-remove_row p (x ∷ rs) r more k h =
      ground (arith, keep-remove_row p rs r more k.1, lookup-keep p rs r more)

module _ ⦃c : Convex⦄ {D : Type 0} where
  pub collect-insert :
      (p : D → Bool) (d : D) (t : Table D)
      → collect p (insert d t) ≡ collect p t ++ (if p d then (next_id t, d) ∷ [] else [])
  unfolding collect insert next_id
  collect-insert p d t =
      rw (c.rows-insert d t) (keep-append (λ r. p r.1) (c.rows t) (c.next_id t, d))

  collect-delete_each :
      (p : D → Bool) (rs : List (Row D)) (t : Table D)
      → collect p t ≡ rs
      → collect p (delete_all rs t) ≡ []
  unfolding collect delete_all delete
  collect-delete_each p [] t h = h
  collect-delete_each p (r ∷ rs) t h = collect-delete_each p rs (delete r.0 t) (
      ap (keep (λ r. p r.1)) (c.rows-delete r.0 t)
      ∙ keep-remove_row (λ r. p r.1) (c.rows t) r rs (c.keyed t) h)

  -- Deleting every document of an index leaves none.
  pub collect-delete_all :
      (p : D → Bool) (t : Table D) → collect p (delete_all (collect p t) t) ≡ []
  collect-delete_all p t = collect-delete_each p (collect p t) t refl

  -- A document that is there after deletions was there.
  pub get-delete_all :
      (rs : List (Row D)) (t : Table D) (i : ℕ) (d : D)
      → get (delete_all rs t) i ≡ some d
      → get t i ≡ some d
  unfolding delete_all
  get-delete_all [] t i d h = h
  get-delete_all (r ∷ rs) t i d h =
      ground (arith, get-delete_all rs (delete r.0 t) i d h, get-delete r.0 t i)
