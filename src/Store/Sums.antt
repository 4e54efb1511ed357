-- ===== src/Store/Sums.antt =====
-- Searches and sums over a table, under an insert and a replace.
use bling.Prelude.{
  ℕ, ◌≡◌, refl, Bool, true, false, none, some, List, [], ◌∷◌, ◌++◌, arith, if◌then◌else◌, find, not,
  ◌&&◌,
}
use bling.Prelude.Int.{ℤ, pos, ◌+ℤ◌, int_laws}
use bling.Store.Rows.{Row, lookup, replace_row}
use bling.Store.Interface.{Convex}
use bling.Store.Queries.{Table, get, first, insert, next_id, replace}

module _ {D : Type 0} where
  find-append :
      (p : Row D → Bool) (rs : List (Row D)) (r : Row D)
      → find p (rs ++ r ∷ [])
        ≡ elim (find p rs) [ some x ↦ some x | none ↦ if p r then some r else none ]
  find-append p [] r = refl
  find-append p (x ∷ rs) r = ground (arith, find-append p rs r)

  find-replace_hit :
      (p : D → Bool) (i : ℕ) (d e : D) (rs : List (Row D))
      → find (λ r. p r.1) rs ≡ some (i, d)
      → lookup i rs ≡ some d
      → p e ≡ true
      → find (λ r. p r.1) (replace_row i e rs) ≡ some (i, e)
  unfolding lookup replace_row
  find-replace_hit p i d e [] h l k = cc
  find-replace_hit p i d e ((j, x) ∷ rs) h l k = ground (arith, find-replace_hit p i d e rs)

  find-replace_miss :
      (q : D → Bool) (i : ℕ) (d e : D) (rs : List (Row D))
      → lookup i rs ≡ some d
      → q d ≡ false
      → q e ≡ false
      → find (λ r. q r.1) (replace_row i e rs) ≡ find (λ r. q r.1) rs
  unfolding lookup replace_row
  find-replace_miss q i d e [] l h k = refl
  find-replace_miss q i d e ((j, x) ∷ rs) l h k = ground (arith, find-replace_miss q i d e rs)

-- The sum of a value over the rows that pass a test.
unfoldable pub sum_rows : {D : Type 0} → (D → Bool) → (D → ℤ) → List (Row D) → ℤ
sum_rows p f [] = pos 0
sum_rows p f (r ∷ rs) = let rest = sum_rows p f rs in if p r.1 then f r.1 +ℤ rest else rest

sum_rows-append :
    {D : Type 0} (p : D → Bool) (f : D → ℤ) (rs : List (Row D)) (i : ℕ) (d : D)
    → sum_rows p f (rs ++ (i, d) ∷ []) ≡ (if p d then sum_rows p f rs +ℤ f d else sum_rows p f rs)
unfolding sum_rows
sum_rows-append p f [] i d = grind int_laws
sum_rows-append p f (r ∷ rs) i d = grind (int_laws, sum_rows-append p f rs i d)

sum_rows_free :
    {D : Type 0} (p q : D → Bool) (f : D → ℤ) (rs : List (Row D))
    → find (λ r. q r.1) rs ≡ none
    → sum_rows (λ d. p d && not (q d)) f rs ≡ sum_rows p f rs
unfolding sum_rows
sum_rows_free p q f [] h = refl
sum_rows_free p q f (r ∷ rs) h = ground (arith, sum_rows_free p q f rs)

module _ ⦃c : Convex⦄ {D : Type 0} where
  -- The sum over the documents of a table that pass a test.
  unfoldable pub sum_of : (D → Bool) → (D → ℤ) → Table D → ℤ
  sum_of p f t = sum_rows p f (c.rows t)

  pub sum_of-insert :
      (p : D → Bool) (f : D → ℤ) (d : D) (t : Table D)
      → sum_of p f (insert d t) ≡ (if p d then sum_of p f t +ℤ f d else sum_of p f t)
  unfolding sum_of insert
  sum_of-insert p f d t = rw (c.rows-insert d t) (sum_rows-append p f (c.rows t) (c.next_id t) d)

  pub first-insert :
      (p : D → Bool) (d : D) (t : Table D)
      → first p (insert d t)
        ≡ elim (first p t) [ some x ↦ some x | none ↦ if p d then some (next_id t, d) else none ]
  unfolding first insert next_id
  first-insert p d t = rw (c.rows-insert d t) (find-append (λ r. p r.1) (c.rows t) (c.next_id t, d))

  pub first-replace_hit :
      (p : D → Bool) (i : ℕ) (d e : D) (t : Table D)
      → first p t ≡ some (i, d)
      → get t i ≡ some d
      → p e ≡ true
      → first p (replace i e t) ≡ some (i, e)
  unfolding first replace get
  first-replace_hit p i d e t h l k =
      rw (c.rows-replace i e t) (find-replace_hit p i d e (c.rows t) h l k)

  pub first-replace_miss :
      (q : D → Bool) (i : ℕ) (d e : D) (t : Table D)
      → get t i ≡ some d
      → q d ≡ false
      → q e ≡ false
      → first q (replace i e t) ≡ first q t
  unfolding first replace get
  first-replace_miss q i d e t l h k =
      rw (c.rows-replace i e t) (find-replace_miss q i d e (c.rows t) l h k)

  -- Leaving out the documents that pass a test changes nothing where there are none.
  pub sum_of_free :
      (p q : D → Bool) (f : D → ℤ) (t : Table D)
      → first q t ≡ none
      → sum_of (λ d. p d && not (q d)) f t ≡ sum_of p f t
  unfolding sum_of first
  sum_of_free p q f t h = sum_rows_free p q f (c.rows t) h
