-- ===== src/Ledger/Posting.antt =====
-- What posting an entry does to the entries of frontend/convex/lib/ledger.ts.
use bling.Prelude.{ℕ, ◌≡◌, ◌⊎◌, inl, inr, true, false, none, some, arith, Option-cases, is_some}
use bling.Store.Interface.{Convex}
use bling.Store.Queries.{get, first, insert, get-insert, first-none}
use bling.Store.Sums.{first-insert}
use bling.Schema.Docs.{LedgerEntry}
use bling.Schema.Keys.{key_eq, key_eq_refl}
use bling.Schema.State.{Ledger}
use bling.Ledger.{post_entry, add_to_balance, is_zero}

module _ ⦃c : Convex⦄ where
  -- No two entries are posted under one key.
  abbrev pub HasUniqueKeys : Ledger → Type 0
  HasUniqueKeys l =
      (i j : ℕ) (a b : LedgerEntry)
      → get l.entries i ≡ some a
      → get l.entries j ≡ some b
      → a.idempotency_key ≡ b.idempotency_key
      → i ≡ j

  abbrev pub posted : LedgerEntry → Ledger → Ledger
  posted e l = record { entries = insert e l.entries; balances = add_to_balance e l.balances }

  -- Posting leaves the ledger alone, or it adds the entry under a key that no entry had.
  pub post_entry-cases :
      (e : LedgerEntry) (l : Ledger)
      → (post_entry e l ≡ (l, false))
        ⊎ ((post_entry e l ≡ (posted e l, true))
            × (first (λ x. key_eq x.idempotency_key e.idempotency_key) l.entries ≡ none))
  unfolding post_entry
  post_entry-cases e l =
      elim (Option-cases (first (λ x. key_eq x.idempotency_key e.idempotency_key) l.entries)) [
        | inl none_yet ↦ ground arith
        | inr (r, found) ↦ ground arith
      ]

  -- An amount other than 0 under a key that is free is added.
  pub post_entry-added :
      (e : LedgerEntry) (l : Ledger)
      → is_zero e.amount_cents ≡ false
      → first (λ x. key_eq x.idempotency_key e.idempotency_key) l.entries ≡ none
      → post_entry e l ≡ (posted e l, true)
  unfolding post_entry
  post_entry-added e l some_amount free = ground arith

  -- An entry under a key that is taken changes nothing.
  pub post_entry-kept :
      (e : LedgerEntry) (l : Ledger)
      → is_some (first (λ x. key_eq x.idempotency_key e.idempotency_key) l.entries) ≡ true
      → post_entry e l ≡ (l, false)
  unfolding post_entry
  post_entry-kept e l taken = ground arith

  -- Posting keeps the keys of the entries distinct.
  pub post_entry-HasUniqueKeys :
      (e : LedgerEntry) (l : Ledger) → HasUniqueKeys l → HasUniqueKeys (post_entry e l).0
  post_entry-HasUniqueKeys e l u i j a b p q k = elim (post_entry-cases e l) [
    | inl same ↦ ground (arith, u i j a b)
    | inr (added, free) ↦ ground (
      arith,
      u i j a b,
      get-insert e l.entries i,
      get-insert e l.entries j,
      first-none (λ x. key_eq x.idempotency_key e.idempotency_key) l.entries i a free,
      first-none (λ x. key_eq x.idempotency_key e.idempotency_key) l.entries j b free,
      key_eq_refl e.idempotency_key,
    )
  ]

  -- Posting the same entry again changes nothing: an event is applied at most once.
  pub post_entry_twice :
      (e : LedgerEntry) (l : Ledger) → post_entry e (post_entry e l).0 ≡ ((post_entry e l).0, false)
  unfolding post_entry
  post_entry_twice e l = ground (
    arith,
    first-insert (λ x. key_eq x.idempotency_key e.idempotency_key) e l.entries,
    key_eq_refl e.idempotency_key,
  )

  -- After a posting there is an entry under the key, unless the amount was 0.
  pub post_entry-present :
      (e : LedgerEntry) (l : Ledger)
      → is_zero e.amount_cents ≡ false
      → is_some (first (λ x. key_eq x.idempotency_key e.idempotency_key) (post_entry e l).0.entries)
        ≡ true
  unfolding post_entry
  post_entry-present e l nonzero = ground (
    arith,
    first-insert (λ x. key_eq x.idempotency_key e.idempotency_key) e l.entries,
    key_eq_refl e.idempotency_key,
  )
