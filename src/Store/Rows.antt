-- ===== src/Store/Rows.antt =====
-- The documents of a table in the order of their creation, each behind its id.
use bling.Prelude.{
  ℕ, ◌≡◌, refl, Bool, true, false, Option, none, some, List, [], ◌∷◌, ◌++◌, arith, ◌==◌,
  if◌then◌else◌, find,
}

-- A document with its `_id`.
abbrev pub Row : Type 0 → Type 0
Row D = ℕ × D

module _ {D : Type 0} where
  unfoldable pub lookup : ℕ → List (Row D) → Option D
  lookup i [] = none
  lookup i ((j, d) ∷ rs) = if j == i then some d else lookup i rs

  unfoldable pub replace_row : ℕ → D → List (Row D) → List (Row D)
  replace_row i d [] = []
  replace_row i d ((j, e) ∷ rs) = if j == i then (j, d) ∷ rs else (j, e) ∷ replace_row i d rs

  unfoldable pub remove_row : ℕ → List (Row D) → List (Row D)
  remove_row i [] = []
  remove_row i ((j, e) ∷ rs) = if j == i then rs else (j, e) ∷ remove_row i rs

  pub lookup-replace_row :
      (i j : ℕ) (d e : D) (rs : List (Row D))
      → lookup i rs ≡ some e
      → lookup j (replace_row i d rs) ≡ (if i == j then some d else lookup j rs)
  unfolding lookup replace_row
  lookup-replace_row i j d e [] h = cc
  lookup-replace_row i j d e ((k, f) ∷ rs) h = ground (arith, lookup-replace_row i j d e rs)

  pub lookup-append_row :
      (i j : ℕ) (d : D) (rs : List (Row D))
      → lookup i rs ≡ none
      → lookup j (rs ++ (i, d) ∷ []) ≡ (if i == j then some d else lookup j rs)
  unfolding lookup
  lookup-append_row i j d [] h = refl
  lookup-append_row i j d ((k, f) ∷ rs) h = ground (arith, lookup-append_row i j d rs)

  -- No two documents have the same id.
  abbrev pub IsKeyed : List (Row D) → Type 0
  IsKeyed [] = Unit
  IsKeyed (r ∷ rs) = (lookup r.0 rs ≡ none) × IsKeyed rs

  pub lookup-remove_row :
      (i j : ℕ) (rs : List (Row D))
      → IsKeyed rs
      → lookup j (remove_row i rs) ≡ (if i == j then none else lookup j rs)
  unfolding lookup remove_row
  lookup-remove_row i j [] h = ground arith
  lookup-remove_row i j ((k, f) ∷ rs) h = ground (arith, lookup-remove_row i j rs h.1)

  -- A row that a search finds is the document behind its id.
  pub lookup-find :
      (p : Row D → Bool) (rs : List (Row D)) (r : Row D)
      → IsKeyed rs
      → find p rs ≡ some r
      → (lookup r.0 rs ≡ some r.1) × (p r ≡ true)
  unfolding lookup
  lookup-find p [] r k h = cc
  lookup-find p (x ∷ rs) r k h = ground (arith, lookup-find p rs r k.1)

  -- When a search finds nothing, no document passes the test.
  pub find-none :
      (p : Row D → Bool) (rs : List (Row D)) (i : ℕ) (d : D)
      → find p rs ≡ none
      → lookup i rs ≡ some d
      → p (i, d) ≡ false
  unfolding lookup
  find-none p [] i d h l = cc
  find-none p (x ∷ rs) i d h l = ground (arith, find-none p rs i d)
