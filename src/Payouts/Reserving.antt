-- ===== src/Payouts/Reserving.antt =====
-- What a reservation does to a creator's balance (frontend/convex/payouts.ts, `reserveBatch`).
use bling.Prelude.{
  List, [], ◌∷◌, Option, none, some, ℕ, ◌<◌, ◌≡◌, ◌⊎◌, inl, inr, refl, true, false, not, ◌&&◌, ◌||◌,
  arith, ltb, is_some, Bool-cases, Option-cases, subst, sym, ◌∙◌, String, str_eq, str_eq_iff, ap,
}
use bling.Prelude.Int.{negsuc, ℤ, pos, neg, ◌+ℤ◌, ltb_ℤ, int_laws}
use bling.Store.Interface.{Convex}
use bling.Store.Queries.{get-insert, get, first, get-first, insert, next_id, get-next_id}
use bling.Store.Sums.{sum_of-insert}
use bling.Schema.Docs.{LedgerEntry, PayoutRun, PayoutAccount, payout_reservation_key}
use bling.Schema.Keys.{key_eq, key_eq→eq}
use bling.Schema.State.{Ledger, Db}
use bling.Ledger.{post_entry, balance_at, is_entry_of, is_zero}
use bling.Ledger.Posting.{posted, post_entry-added}
use bling.Ledger.Balances.{IsBalanced, post_entry-IsBalanced, balance_at-available, effective_total}
use bling.Store.Rows.{Row}
use bling.Payouts.{minimum_cents}
use bling.Ledger.Posting.{post_entry-cases}
use bling.Payouts.Runs.{
  reserve_each, reserve, reserve_for, reserved_item, reservation_entry, available_to, may_reserve,
}

module _ ⦃c : Convex⦄ where
  -- The key of a reservation is that of an item that is there.
  abbrev pub ItemsKnown : Db → Type 0
  ItemsKnown db =
      (i item_id : ℕ) (e : LedgerEntry)
      → get db.ledger.entries i ≡ some e
      → e.idempotency_key ≡ payout_reservation_key item_id
      → is_some (get db.payouts.items item_id) ≡ true

  -- A new item's key is free.
  reservation-free :
      (db : Db)
      → ItemsKnown db
      → first
          (λ x. key_eq x.idempotency_key (payout_reservation_key (next_id db.payouts.items)))
          db.ledger.entries
        ≡ none
  reservation-free db known =
      elim (Option-cases (
        first (λ x. key_eq x.idempotency_key (payout_reservation_key (next_id db.payouts.items)))
          db.ledger.entries)) [
            | inl free ↦ free
            | inr ((i, e), found) ↦
                let (at_i, hit) =
                  get-first
                    (λ x.
                      key_eq x.idempotency_key (payout_reservation_key (next_id db.payouts.items)))
                    db.ledger.entries (i, e) found in
                ground (
                  arith,
                  known i (next_id db.payouts.items) e at_i,
                  key_eq→eq e.idempotency_key (payout_reservation_key (next_id db.payouts.items))
                      hit,
                  get-next_id db.payouts.items,
                )
          ]

  -- Posting an entry that counts at once moves the sum of what counts by its amount.
  effective_total-posted :
      (creator now : ℕ) (currency : String) (e : LedgerEntry) (l : Ledger)
      → is_entry_of creator currency e ≡ true
      → e.effective_at ≡ now
      → effective_total creator currency now (posted e l)
        ≡ effective_total creator currency now l +ℤ e.amount_cents
  unfolding effective_total
  effective_total-posted creator now currency e l own at_once = ground (
    arith,
    sum_of-insert (λ x. is_entry_of creator currency x && not (ltb now x.effective_at))
        (λ x. x.amount_cents) e l.entries,
  )

  -- So it moves the available amount by it.
  available-posted :
      (creator now : ℕ) (currency : String) (e : LedgerEntry) (l : Ledger)
      → IsBalanced l
      → post_entry e l ≡ (posted e l, true)
      → is_entry_of creator currency e ≡ true
      → e.effective_at ≡ now
      → (balance_at creator currency now (posted e l)).available_cents
        ≡ (balance_at creator currency now l).available_cents +ℤ e.amount_cents
  available-posted creator now currency e l balanced added own at_once =
      let after =
        balance_at-available creator currency now (posted e l)
          (subst (λ r. IsBalanced r.0) added (post_entry-IsBalanced e l balanced)) in
      let before = balance_at-available creator currency now l balanced in
      after.0
      ∙ effective_total-posted creator now currency e l own at_once
      ∙ ap (λ t. t +ℤ e.amount_cents) (sym before.0)

  own_entry :
      (creator : ℕ) (currency : String) (e : LedgerEntry)
      → e.creator_id ≡ creator
      → e.currency ≡ currency
      → is_entry_of creator currency e ≡ true
  own_entry creator currency e p q = ground (arith, str_eq_iff e.currency currency)

  minus_self : (a : ℤ) → a +ℤ neg a ≡ pos 0
  minus_self a = omega int_laws

  positive : (a : ℤ) (m : ℕ) → 0 < m → ltb_ℤ a (pos m) ≡ false → is_zero (neg a) ≡ false
  unfolding neg
  positive a m h k = ground arith

  pub reserve_for-ItemsKnown :
      (now minimum run_id : ℕ) (run : PayoutRun) (account : PayoutAccount) (db : Db)
      → ItemsKnown db
      → ItemsKnown (reserve_for now minimum run_id run account db)
  unfolding reserve_for reserve
  reserve_for-ItemsKnown now minimum run_id run account db known i item_id e at_i key =
      let item = reserved_item now run_id run account (available_to now run.currency account db) in
      let entry = reservation_entry now (next_id db.payouts.items) item in
      let stays = get-insert item db.payouts.items item_id in
      elim (post_entry-cases entry db.ledger) [
        | inl same ↦ ground (arith, ap (λ r. r.0) same, known i item_id e, stays, at_i, key)
        | inr (added, free) ↦ ground (
          arith,
          ap (λ r. r.0) added,
          known i item_id e,
          stays,
          at_i,
          key,
          get-insert entry db.ledger.entries i,
        )
      ]

  pub reserve_each-ItemsKnown :
      (now minimum run_id : ℕ) (run : PayoutRun) (page : List (Row PayoutAccount)) (db : Db)
      → ItemsKnown db
      → ItemsKnown (reserve_each now minimum run_id run page db)
  unfolding reserve_each
  reserve_each-ItemsKnown now minimum run_id run [] db known = known
  reserve_each-ItemsKnown now minimum run_id run ((_, account) ∷ rest) db known =
      reserve_each-ItemsKnown now minimum run_id run rest
        (reserve_for now minimum run_id run account db)
        (reserve_for-ItemsKnown now minimum run_id run account db known)

  minimum-positive : (set : Option ℤ) → 0 < minimum_cents set
  unfolding minimum_cents
  minimum-positive none = ground arith
  minimum-positive (some (pos n)) = ground arith
  minimum-positive (some (negsuc n)) = ground arith

  -- In a ledger whose running totals are the sums of their entries, and in which the key of every
  -- reservation is that of a payout that is there, a reservation for a creator takes at least the
  -- minimum that the environment sets and exactly what is available, and leaves 0 available at that
  -- moment; where it takes nothing it changes nothing.
  pub reserve_for_takes_all :
      (now run_id : ℕ) (set : Option ℤ) (run : PayoutRun) (account : PayoutAccount) (db : Db)
      → IsBalanced db.ledger
      → ItemsKnown db
      → let db' = reserve_for now (minimum_cents set) run_id run account db in
        let taken = available_to now run.currency account db in
        (db' ≡ db)
        ⊎ ((ltb_ℤ taken (pos (minimum_cents set)) ≡ false)
            × (db'.payouts.items
                ≡ insert (reserved_item now run_id run account taken) db.payouts.items)
            × (available_to now run.currency account db' ≡ pos 0))
  unfolding reserve_for reserve
  reserve_for_takes_all now run_id set run account db balanced known =
      elim (Bool-cases (
        not (str_eq account.transfers_status "active")
        || not (may_reserve run_id account.creator_id db.payouts.items)
        || ltb_ℤ (available_to now run.currency account db) (pos (minimum_cents set)))) [
          | inl passed_over ↦ inl (ground arith)
          | inr reserved ↦
              let taken = available_to now run.currency account db in
              let e =
                reservation_entry now (next_id db.payouts.items)
                  (reserved_item now run_id run account taken) in
              let added =
                post_entry-added e db.ledger
                  (positive taken (minimum_cents set) (minimum-positive set) (ground arith))
                  (reservation-free db known) in
              let left =
                available-posted account.creator_id now run.currency e db.ledger balanced added
                  (own_entry account.creator_id run.currency e refl refl) refl in
              inr (
                ground arith,
                ground (arith, reserved),
                ground (arith, reserved, ap (λ r. r.0) added, left, minus_self taken),
              )
        ]
