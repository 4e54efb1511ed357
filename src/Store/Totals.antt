-- ===== src/Store/Totals.antt =====
-- Totals of a number over the documents of an index, and how each write moves them.
use bling.Prelude.{ℕ, ◌+◌, ◌≤◌, ◌≡◌, refl, Bool, some, List, [], ◌∷◌, ◌++◌, arith, if◌then◌else◌}
use bling.Store.Interface.{Convex}
use bling.Store.Rows.{Row, lookup, replace_row, remove_row, IsKeyed}
use bling.Store.Queries.{Table, get, insert, replace, delete}

module _ {D : Type 0} (p : D → Bool) (f : D → ℕ) where
  -- What a document adds to the total.
  abbrev pub part : D → ℕ
  part d = if p d then f d else 0

  unfoldable pub total_rows : List (Row D) → ℕ
  total_rows [] = 0
  total_rows (r ∷ rs) = part r.1 + total_rows rs

  total_rows-append :
      (rs : List (Row D)) (r : Row D) → total_rows (rs ++ r ∷ []) ≡ total_rows rs + part r.1
  unfolding total_rows
  total_rows-append [] r = ground arith
  total_rows-append (x ∷ rs) r = ground (arith, total_rows-append rs r)

  total_rows-replace :
      (i : ℕ) (d e : D) (rs : List (Row D))
      → lookup i rs ≡ some e
      → total_rows (replace_row i d rs) + part e ≡ total_rows rs + part d
  unfolding total_rows lookup replace_row
  total_rows-replace i d e [] h = ground arith
  total_rows-replace i d e ((j, x) ∷ rs) h = ground (arith, total_rows-replace i d e rs)

  total_rows-remove :
      (i : ℕ) (e : D) (rs : List (Row D))
      → lookup i rs ≡ some e
      → total_rows (remove_row i rs) + part e ≡ total_rows rs
  unfolding total_rows lookup remove_row
  total_rows-remove i e [] h = ground arith
  total_rows-remove i e ((j, x) ∷ rs) h = ground (arith, total_rows-remove i e rs)

  total_rows-positive :
      (rs : List (Row D)) (i : ℕ) (d : D) → lookup i rs ≡ some d → part d ≤ total_rows rs
  unfolding total_rows lookup
  total_rows-positive [] i d h = ground arith
  total_rows-positive ((j, x) ∷ rs) i d h = ground (arith, total_rows-positive rs i d)

  total_rows-zero :
      (rs : List (Row D))
      → IsKeyed rs
      → ((i : ℕ) (d : D) → lookup i rs ≡ some d → part d ≡ 0)
      → total_rows rs ≡ 0
  unfolding total_rows lookup
  total_rows-zero [] k h = refl
  total_rows-zero ((j, x) ∷ rs) k h =
      ground (arith, h j x, total_rows-zero rs k.1 (λ i d at_i. h i d (ground (arith, at_i, k.0))))

module _ ⦃c : Convex⦄ {D : Type 0} (p : D → Bool) (f : D → ℕ) where
  unfoldable pub total : Table D → ℕ
  total t = total_rows p f (c.rows t)

  pub total-insert : (d : D) (t : Table D) → total (insert d t) ≡ total t + part p f d
  unfolding total insert
  total-insert d t = rw (c.rows-insert d t) (total_rows-append p f (c.rows t) (c.next_id t, d))

  pub total-replace :
      (i : ℕ) (d e : D) (t : Table D)
      → get t i ≡ some e
      → total (replace i d t) + part p f e ≡ total t + part p f d
  unfolding total replace get
  total-replace i d e t h = rw (c.rows-replace i d t) (total_rows-replace p f i d e (c.rows t) h)

  pub total-delete :
      (i : ℕ) (e : D) (t : Table D) → get t i ≡ some e → total (delete i t) + part p f e ≡ total t
  unfolding total delete get
  total-delete i e t h = rw (c.rows-delete i t) (total_rows-remove p f i e (c.rows t) h)

  pub total_zero :
      (t : Table D) → ((i : ℕ) (d : D) → get t i ≡ some d → part p f d ≡ 0) → total t ≡ 0
  unfolding total get
  total_zero t h = total_rows-zero p f (c.rows t) (c.keyed t) h

  pub total_positive : (t : Table D) (i : ℕ) (d : D) → get t i ≡ some d → part p f d ≤ total t
  unfolding total get
  total_positive t i d h = total_rows-positive p f (c.rows t) i d h
