-- ===== src/Store/Sorting.antt =====
-- What sorting rows and taking some of them keeps.
use bling.Prelude.{
  ℕ, zero, suc, ◌+◌, ◌≤◌, ◌<◌, ◌≡◌, refl, Bool, true, none, some, List, [], ◌∷◌, arith, ◌==◌, leb,
  if◌then◌else◌, keep, take, length, inl, inr, Bool-cases, subst, ap, ◌∙◌,
}
use bling.Store.Rows.{Row, lookup, IsKeyed}
use bling.Store.Queries.{insert_by, sort_by}
use bling.Store.Totals.{part, total_rows}

module _ {D : Type 0} where
  lookup-insert_by :
      (key : D → ℕ) (r : Row D) (rs : List (Row D)) (i : ℕ)
      → lookup r.0 rs ≡ none
      → lookup i (insert_by key r rs) ≡ (if r.0 == i then some r.1 else lookup i rs)
  unfolding insert_by lookup
  lookup-insert_by key r [] i free = ground arith
  lookup-insert_by key r (x ∷ rs) i free = ground (arith, lookup-insert_by key r rs i)

  insert_by-IsKeyed :
      (key : D → ℕ) (r : Row D) (rs : List (Row D))
      → lookup r.0 rs ≡ none
      → IsKeyed rs
      → IsKeyed (insert_by key r rs)
  unfolding insert_by lookup
  insert_by-IsKeyed key r [] free keyed = (refl, tt)
  insert_by-IsKeyed key r (x ∷ rs) free keyed = elim (Bool-cases (leb (key r.1) (key x.1))) [
    | inl before ↦
        subst IsKeyed {x = r ∷ x ∷ rs}
          {y = if leb (key r.1) (key x.1) then r ∷ x ∷ rs else x ∷ insert_by key r rs}
          (ground arith) (free, keyed)
    | inr later ↦
        subst IsKeyed {x = x ∷ insert_by key r rs}
          {y = if leb (key r.1) (key x.1) then r ∷ x ∷ rs else x ∷ insert_by key r rs}
          (ground arith)
          (
            ground (arith, free, keyed.0, lookup-insert_by key r rs x.0),
            insert_by-IsKeyed key r rs (ground (arith, free)) keyed.1,
          )
  ]

  pub lookup-sort_by :
      (key : D → ℕ) (rs : List (Row D)) (i : ℕ)
      → IsKeyed rs
      → lookup i (sort_by key rs) ≡ lookup i rs
  unfolding sort_by lookup
  lookup-sort_by key [] i keyed = refl
  lookup-sort_by key (r ∷ rs) i keyed = ground (
    arith,
    lookup-sort_by key rs i keyed.1,
    lookup-sort_by key rs r.0 keyed.1,
    keyed.0,
    lookup-insert_by key r (sort_by key rs) i,
  )

  pub sort_by-IsKeyed : (key : D → ℕ) (rs : List (Row D)) → IsKeyed rs → IsKeyed (sort_by key rs)
  unfolding sort_by
  sort_by-IsKeyed key [] keyed = keyed
  sort_by-IsKeyed key (r ∷ rs) keyed =
      insert_by-IsKeyed key r (sort_by key rs) (lookup-sort_by key rs r.0 keyed.1 ∙ keyed.0)
        (sort_by-IsKeyed key rs keyed.1)

  total_rows-insert_by :
      (p : D → Bool) (f : D → ℕ) (key : D → ℕ) (r : Row D) (rs : List (Row D))
      → total_rows p f (insert_by key r rs) ≡ part p f r.1 + total_rows p f rs
  unfolding insert_by total_rows
  total_rows-insert_by p f key r [] = refl
  total_rows-insert_by p f key r (x ∷ rs) = ground (arith, total_rows-insert_by p f key r rs)

  pub total_rows-sort_by :
      (p : D → Bool) (f : D → ℕ) (key : D → ℕ) (rs : List (Row D))
      → total_rows p f (sort_by key rs) ≡ total_rows p f rs
  unfolding sort_by total_rows
  total_rows-sort_by p f key [] = refl
  total_rows-sort_by p f key (r ∷ rs) =
      ground (arith, total_rows-insert_by p f key r (sort_by key rs), total_rows-sort_by p f key rs)

  pub lookup-keep :
      (p : D → Bool) (rs : List (Row D)) (i : ℕ) (d : D)
      → IsKeyed rs
      → lookup i (keep (λ r. p r.1) rs) ≡ some d
      → (lookup i rs ≡ some d) × (p d ≡ true)
  unfolding lookup
  lookup-keep p [] i d keyed h = ground arith
  lookup-keep p (r ∷ rs) i d keyed h = (
    ground (arith, keyed.0, lookup-keep p rs i d keyed.1),
    ground (arith, keyed.0, lookup-keep p rs i d keyed.1),
  )

  lookup-keep-none :
      (p : D → Bool) (rs : List (Row D)) (i : ℕ)
      → lookup i rs ≡ none
      → lookup i (keep (λ r. p r.1) rs) ≡ none
  unfolding lookup
  lookup-keep-none p [] i h = refl
  lookup-keep-none p (r ∷ rs) i h = ground (arith, lookup-keep-none p rs i)

  pub keep-IsKeyed :
      (p : D → Bool) (rs : List (Row D)) → IsKeyed rs → IsKeyed (keep (λ r. p r.1) rs)
  keep-IsKeyed p [] keyed = keyed
  keep-IsKeyed p (r ∷ rs) keyed = elim (Bool-cases (p r.1)) [
    | inl kept ↦
        subst IsKeyed {x = r ∷ keep (λ r. p r.1) rs} {y = keep (λ r. p r.1) (r ∷ rs)} (ground arith)
          (lookup-keep-none p rs r.0 keyed.0, keep-IsKeyed p rs keyed.1)
    | inr dropped ↦
        subst IsKeyed {x = keep (λ r. p r.1) rs} {y = keep (λ r. p r.1) (r ∷ rs)} (ground arith)
          (keep-IsKeyed p rs keyed.1)
  ]

  pub lookup-take :
      (n : ℕ) (rs : List (Row D)) (i : ℕ) (d : D)
      → lookup i (take n rs) ≡ some d
      → lookup i rs ≡ some d
  unfolding lookup
  lookup-take zero rs i d h = ground arith
  lookup-take (suc n) [] i d h = h
  lookup-take (suc n) (r ∷ rs) i d h = ground (arith, lookup-take n rs i d)

  lookup-take-none :
      (n : ℕ) (rs : List (Row D)) (i : ℕ) → lookup i rs ≡ none → lookup i (take n rs) ≡ none
  unfolding lookup
  lookup-take-none zero rs i h = refl
  lookup-take-none (suc n) [] i h = refl
  lookup-take-none (suc n) (r ∷ rs) i h = ground (arith, lookup-take-none n rs i)

  pub take-IsKeyed : (n : ℕ) (rs : List (Row D)) → IsKeyed rs → IsKeyed (take n rs)
  take-IsKeyed zero rs keyed = tt
  take-IsKeyed (suc n) [] keyed = keyed
  take-IsKeyed (suc n) (r ∷ rs) keyed =
      (lookup-take-none n rs r.0 keyed.0, take-IsKeyed n rs keyed.1)

  -- Fewer rows taken than asked for are all of them.
  pub take-all : (n : ℕ) (rs : List (Row D)) → length (take n rs) < n → take n rs ≡ rs
  take-all zero rs few = ground arith
  take-all (suc n) [] few = refl
  take-all (suc n) (r ∷ rs) few = ap (λ l. r ∷ l) (take-all n rs (ground arith))

  pub length-take : (n : ℕ) (rs : List (Row D)) → length (take n rs) ≤ n
  length-take zero rs = ground arith
  length-take (suc n) [] = ground arith
  length-take (suc n) (r ∷ rs) = ground (arith, length-take n rs)

  -- A total over the rows that pass a test is a total with that test.
  pub total_rows-keep :
      (p q : D → Bool) (f : D → ℕ) (rs : List (Row D))
      → ((d : D) → p d ≡ true → q d ≡ true)
      → total_rows p f (keep (λ r. q r.1) rs) ≡ total_rows p f rs
  unfolding total_rows
  total_rows-keep p q f [] h = refl
  total_rows-keep p q f (r ∷ rs) h = ground (arith, h r.1, total_rows-keep p q f rs h)

  pub total_rows-length :
      (p : D → Bool) (rs : List (Row D))
      → IsKeyed rs
      → ((i : ℕ) (d : D) → lookup i rs ≡ some d → p d ≡ true)
      → total_rows p (λ d. 1) rs ≡ length rs
  unfolding total_rows lookup
  total_rows-length p [] keyed all = refl
  total_rows-length p (r ∷ rs) keyed all = ground (
    arith,
    all r.0 r.1,
    total_rows-length p rs keyed.1 (λ i d h. all i d (ground (arith, h, keyed.0))),
  )

  -- No more rows than asked for are all taken.
  pub take_enough : (n : ℕ) (rs : List (Row D)) → length rs ≤ n → take n rs ≡ rs
  take_enough zero [] few = refl
  take_enough zero (r ∷ rs) few = ground arith
  take_enough (suc n) [] few = refl
  take_enough (suc n) (r ∷ rs) few = ap (λ l. r ∷ l) (take_enough n rs (ground arith))

  -- The row of a document among those that pass a test.
  pub lookup-keep_test :
      (p : D → Bool) (rs : List (Row D)) (i : ℕ) (d : D)
      → IsKeyed rs
      → lookup i rs ≡ some d
      → lookup i (keep (λ r. p r.1) rs) ≡ (if p d then some d else none)
  unfolding lookup
  lookup-keep_test p [] i d keyed h = ground arith
  lookup-keep_test p (r ∷ rs) i d keyed h =
      ground (arith, keyed.0, lookup-keep-none p rs i, lookup-keep_test p rs i d keyed.1)
