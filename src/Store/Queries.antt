-- ===== src/Store/Queries.antt =====
-- The queries that the functions make, over any database, and the laws that proofs use.
use bling.Prelude.{
  ℕ, ◌≡◌, Bool, true, false, Option, none, some, List, [], ◌∷◌, arith, ◌==◌, leb, if◌then◌else◌,
  find, keep, get_last?,
}
use bling.Store.Rows.{
  Row, lookup, lookup-replace_row, lookup-append_row, lookup-remove_row, lookup-find, find-none,
}
use bling.Prelude.Result.{Result, ok, err, document_missing}
use bling.Store.Interface.{Convex}

abbrev pub Table : ⦃c : Convex⦄ → Type 0 → Type 0
Table ⦃c⦄ = c.Table

-- Rows in index order: by the key, and in the order of creation where the keys are equal.
unfoldable pub insert_by : {D : Type 0} → (D → ℕ) → Row D → List (Row D) → List (Row D)
insert_by key r [] = r ∷ []
insert_by key r (x ∷ xs) = if leb (key r.1) (key x.1) then r ∷ x ∷ xs else x ∷ insert_by key r xs

unfoldable pub sort_by : {D : Type 0} → (D → ℕ) → List (Row D) → List (Row D)
unfolding insert_by
sort_by key [] = []
sort_by key (r ∷ rs) = insert_by key r (sort_by key rs)

module _ ⦃c : Convex⦄ {D : Type 0} where
  -- `ctx.db.get(id)`
  unfoldable pub get : Table D → ℕ → Option D
  unfolding lookup
  get t i = lookup i (c.rows t)

  unfoldable pub insert : D → Table D → Table D
  insert d t = c.insert d t

  unfoldable pub next_id : Table D → ℕ
  next_id t = c.next_id t

  unfoldable pub replace : ℕ → D → Table D → Table D
  replace i d t = c.replace i d t

  unfoldable pub delete : ℕ → Table D → Table D
  delete i t = c.delete i t

  -- `ctx.db.patch(id, …)` of a document that was not read before: Convex throws where there is none.
  unfoldable pub patch : ℕ → (D → D) → Table D → Result (Table D)
  unfolding get replace
  patch i f t = elim (get t i) [ none ↦ err document_missing | some d ↦ ok (replace i (f d) t) ]

  unfoldable pub delete_all : List (Row D) → Table D → Table D
  delete_all [] t = t
  delete_all (r ∷ rs) t = delete_all rs (delete r.0 t)

  -- `.withIndex(…).collect()` on an index whose every field is fixed: in the order of creation.
  unfoldable pub collect : (D → Bool) → Table D → List (Row D)
  collect p t = keep (λ r. p r.1) (c.rows t)

  -- `.withIndex(…).first()` on such an index.
  unfoldable pub first : (D → Bool) → Table D → Option (Row D)
  first p t = find (λ r. p r.1) (c.rows t)

  -- `.withIndex(…).order("desc").first()` on such an index: the newest.
  unfoldable pub newest : (D → Bool) → Table D → Option (Row D)
  newest p t = get_last? (keep (λ r. p r.1) (c.rows t))

  pub get-insert :
      (d : D) (t : Table D) (j : ℕ)
      → get (insert d t) j ≡ (if next_id t == j then some d else get t j)
  unfolding get insert next_id
  get-insert d t j =
      rw (c.rows-insert d t) (lookup-append_row (c.next_id t) j d (c.rows t) (c.next_id_free t))

  pub get-next_id : (t : Table D) → get t (next_id t) ≡ none
  unfolding get next_id
  get-next_id t = c.next_id_free t

  pub get-replace :
      (i : ℕ) (d e : D) (t : Table D) (j : ℕ)
      → get t i ≡ some e
      → get (replace i d t) j ≡ (if i == j then some d else get t j)
  unfolding get replace
  get-replace i d e t j h = rw (c.rows-replace i d t) (lookup-replace_row i j d e (c.rows t) h)

  pub get-delete :
      (i : ℕ) (t : Table D) (j : ℕ) → get (delete i t) j ≡ (if i == j then none else get t j)
  unfolding get delete
  get-delete i t j = rw (c.rows-delete i t) (lookup-remove_row i j (c.rows t) (c.keyed t))

  -- Every document of the table has a property.
  abbrev pub Every {κ} : (D → Type κ) → Table D → Type κ
  Every P t = (i : ℕ) (d : D) → get t i ≡ some d → P d

  pub Every-replace {κ} :
      (P : D → Type κ) (i : ℕ) (d e : D) (t : Table D)
      → get t i ≡ some e
      → P d
      → Every P t
      → Every P (replace i d t)
  Every-replace P i d e t at_i new old j x h =
      ground (arith, new, old j x, get-replace i d e t j at_i)

  pub Every-insert {κ} :
      (P : D → Type κ) (d : D) (t : Table D) → P d → Every P t → Every P (insert d t)
  Every-insert P d t new old j x h = ground (arith, new, old j x, get-insert d t j)

  pub get-first :
      (p : D → Bool) (t : Table D) (r : Row D)
      → first p t ≡ some r
      → (get t r.0 ≡ some r.1) × (p r.1 ≡ true)
  unfolding get first
  get-first p t r h = lookup-find (λ r. p r.1) (c.rows t) r (c.keyed t) h

  pub first-none :
      (p : D → Bool) (t : Table D) (i : ℕ) (d : D)
      → first p t ≡ none
      → get t i ≡ some d
      → p d ≡ false
  unfolding get first
  first-none p t i d h g = find-none (λ r. p r.1) (c.rows t) i d h g
