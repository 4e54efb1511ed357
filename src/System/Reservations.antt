-- ===== src/System/Reservations.antt =====
-- The keys of the reservations of payouts (frontend/convex/payouts.ts) in the ledger, under the
-- mutations of `Op`.
use bling.Prelude.{
  ℕ, ◌≡◌, inl, inr, true, false, arith, some, is_some, List, subst, ap, Option-cases,
}
use bling.Prelude.Result.{ok}
use bling.Store.Interface.{Convex}
use bling.Store.Queries.{get, insert, get-insert}
use bling.Schema.Docs.{LedgerEntry}
use bling.Schema.State.{Env, Db, Ledger}
use bling.Ledger.Posting.{post_entry-cases, posted}
use bling.Ledger.Operations.{Posts, Postings, done, more, is_reservation}
use bling.Payouts.Settled.{ItemsKept}
use bling.Payouts.Reserving.{ItemsKnown}
use bling.System.{Op, run, serve, serve_induction}
use bling.System.Kept.{run-Keeps}
use bling.System.Money.{run-MoneyStep}

module _ ⦃c : Convex⦄ where
  Posts-reservation :
      (l l' : Ledger) (i : ℕ) (e : LedgerEntry)
      → Posts false l l'
      → is_reservation e.idempotency_key ≡ true
      → get l'.entries i ≡ some e
      → get l.entries i ≡ some e
  Posts-reservation l l' i e (inl same) kind at_i = ground (arith, at_i, ap (λ m. m.entries) same)
  Posts-reservation l l' i e (inr (d, eq, other)) kind at_i = elim (post_entry-cases d l) [
    | inl kept ↦
        subst (λ (m : Ledger). get m.entries i ≡ some e) {x = l'} {y = l} (ground arith) at_i
    | inr (added, free) ↦
        let there : get (insert d l.entries) i ≡ some e =
          subst (λ (m : Ledger). get m.entries i ≡ some e) {x = l'} {y = posted d l} (ground arith)
            at_i in
        ground (arith, get-insert d l.entries i, there, kind, other)
  ]

  -- Only the mutation that reserves payouts adds an entry under the key of a reservation.
  Postings-reservation :
      (l l' : Ledger) (i : ℕ) (e : LedgerEntry)
      → Postings false l l'
      → is_reservation e.idempotency_key ≡ true
      → get l'.entries i ≡ some e
      → get l.entries i ≡ some e
  Postings-reservation l l' i e (done same) kind at_i =
      subst (λ (m : Ledger). get m.entries i ≡ some e) same at_i
  Postings-reservation l l' i e (more m p rest) kind at_i =
      Posts-reservation l m i e p kind (Postings-reservation m l' i e rest kind at_i)

  run-ItemsKnown :
      (env : Env) (op : Op) (db db' : Db) → run env op db ≡ ok db' → ItemsKnown db → ItemsKnown db'
  unfolding ItemsKept
  run-ItemsKnown env op db db' h known =
      let step = run-MoneyStep env op db db' h in
      elim step.known [
        | inr keeps ↦ keeps known
        | inl quiet ↦ λ i item_id e at_i key.
            let before =
              Postings-reservation db.ledger db'.ledger i e
                (subst (λ b. Postings b db.ledger db'.ledger) quiet step.posts)
                (ap is_reservation key) at_i in
            elim (Option-cases (get db.payouts.items item_id)) [
              | inl gone ↦ ground (arith, known i item_id e before key)
              | inr (item, there) ↦
                  let (b, at_id, same) = (run-Keeps env op db db' h).kept item_id item there in
                  ap is_some at_id
            ]
      ]

  -- Whatever mutations of `Op` run, with any arguments, by any users and in any order, errors included:
  -- from a state in which every entry under the key of a payout's reservation belongs to a payout that
  -- exists, the state after them is again such a state.
  pub serve-ItemsKnown :
      (db : Db) (history : List (Env × Op)) → ItemsKnown db → ItemsKnown (serve db history)
  serve-ItemsKnown db history known = serve_induction ItemsKnown run-ItemsKnown db history known
