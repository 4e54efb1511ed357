-- ===== src/Ledger/Disputes.antt =====
-- Disputes in the ledger (frontend/convex/lib/ledger.ts, `adjustForDispute`).
use bling.Prelude.{ℕ, ◌≡◌, true, false, none, some, arith, String, if◌then◌else◌, ap, ◌∙◌}
use bling.Prelude.Int.{ℤ, neg, ◌+ℤ◌, int_laws}
use bling.Store.Interface.{Convex}
use bling.Store.Queries.{first, next_id}
use bling.Store.Sums.{first-insert}
use bling.Schema.Status.{LedgerKind}
use bling.Schema.Docs.{LedgerEntry, PaymentDispute, dispute_debit_key, dispute_release_key}
use bling.Schema.Keys.{key_eq, key_eq_refl}
use bling.Schema.State.{Ledger}
use bling.Ledger.{
  post_entry, adjust_for_dispute, dispute_open, dispute_resolved, dispute_entry, earning_for,
  is_zero, is_entry_of, is_for_attempt,
}
use bling.Ledger.Posting.{posted, post_entry-added}
use bling.Ledger.Balances.{total_of, total_of-posted}

module _ ⦃c : Convex⦄ where
  abbrev debit_of : (now : ℕ) → PaymentDispute → (attempt_id : ℕ) → LedgerEntry → LedgerEntry
  debit_of now d attempt_id earning =
      dispute_entry now d attempt_id earning LedgerKind.dispute_debit (neg earning.amount_cents)
        (dispute_debit_key d.stripe_dispute_id)

  abbrev release_of :
      (now : ℕ) → PaymentDispute → (attempt_id : ℕ) → LedgerEntry → (amount : ℤ) → LedgerEntry
  release_of now d attempt_id earning amount =
      dispute_entry now d attempt_id earning LedgerKind.dispute_release amount
        (dispute_release_key d.stripe_dispute_id)

  -- A dispute that opens takes the earning back.
  opened :
      (now : ℕ) (d : PaymentDispute) (attempt_id i : ℕ) (earning : LedgerEntry) (l : Ledger)
      → d.payment_attempt_id ≡ some attempt_id
      → earning_for attempt_id l ≡ some (i, earning)
      → dispute_open d.status ≡ true
      → adjust_for_dispute now d l ≡ (post_entry (debit_of now d attempt_id earning) l).0
  unfolding adjust_for_dispute
  opened now d attempt_id i earning l attempt found is_open = ground arith

  resolved :
      (now : ℕ) (d : PaymentDispute) (attempt_id i j : ℕ) (earning debit : LedgerEntry) (l : Ledger)
      → d.payment_attempt_id ≡ some attempt_id
      → earning_for attempt_id l ≡ some (i, earning)
      → dispute_open d.status ≡ false
      → dispute_resolved d.status ≡ true
      → first (λ e. key_eq e.idempotency_key (dispute_debit_key d.stripe_dispute_id)) l.entries
        ≡ some (j, debit)
      → adjust_for_dispute now d l
        ≡ (post_entry (release_of now d attempt_id earning (neg debit.amount_cents)) l).0
  unfolding adjust_for_dispute
  resolved now d attempt_id i j earning debit l attempt found closed done there = ground arith

  earning_for-posted :
      (attempt_id i : ℕ) (earning e : LedgerEntry) (l : Ledger)
      → earning_for attempt_id l ≡ some (i, earning)
      → earning_for attempt_id (posted e l) ≡ some (i, earning)
  unfolding earning_for
  earning_for-posted attempt_id i earning e l found =
      ground (arith, first-insert (is_for_attempt attempt_id LedgerKind.earning) e l.entries)

  back_again : (t a : ℤ) → (t +ℤ neg a) +ℤ neg (neg a) ≡ t
  back_again t a = omega int_laws

  neg-nonzero : (a : ℤ) → is_zero a ≡ false → is_zero (neg a) ≡ false
  unfolding neg
  neg-nonzero a h = ground arith

  -- Where a payment has earned something, and a dispute about it was not posted before: the dispute, once
  -- it is open, takes the earning from its creator's total in its currency, and, once it is then
  -- resolved in Bling's favour, brings every total back to what it was.
  pub adjust_for_dispute-restores :
      (now later : ℕ) (d d' : PaymentDispute) (attempt_id i : ℕ) (earning : LedgerEntry)
      (l : Ledger)
      → d.payment_attempt_id ≡ some attempt_id
      → d'.payment_attempt_id ≡ some attempt_id
      → d'.stripe_dispute_id ≡ d.stripe_dispute_id
      → dispute_open d.status ≡ true
      → dispute_open d'.status ≡ false
      → dispute_resolved d'.status ≡ true
      → earning_for attempt_id l ≡ some (i, earning)
      → is_zero earning.amount_cents ≡ false
      → first (λ e. key_eq e.idempotency_key (dispute_debit_key d.stripe_dispute_id)) l.entries
        ≡ none
      → first (λ e. key_eq e.idempotency_key (dispute_release_key d.stripe_dispute_id)) l.entries
        ≡ none
      → (creator : ℕ) (currency : String)
      → let held = adjust_for_dispute now d l in
        (total_of creator currency held ≡ (
          if is_entry_of creator currency earning
          then total_of creator currency l +ℤ neg earning.amount_cents
          else total_of creator currency l))
        × (total_of creator currency (adjust_for_dispute later d' held)
            ≡ total_of creator currency l)
  adjust_for_dispute-restores now later d d' attempt_id i earning l own own' same is_open closed
        done found some_amount no_debit no_release creator currency =
      let debit = debit_of now d attempt_id earning in
      let release = release_of later d' attempt_id earning (neg (neg earning.amount_cents)) in
      let held : adjust_for_dispute now d l ≡ posted debit l =
        opened now d attempt_id i earning l own found is_open
        ∙ ap (λ r. r.0)
            (post_entry-added debit l (neg-nonzero earning.amount_cents some_amount) no_debit) in
      let there : first (λ e. key_eq e.idempotency_key (dispute_debit_key d'.stripe_dispute_id))
            (posted debit l).entries
          ≡ some (next_id l.entries, debit) =
        ground (
          arith,
          same,
          no_debit,
          key_eq_refl (dispute_debit_key d.stripe_dispute_id),
          first-insert (λ e. key_eq e.idempotency_key (dispute_debit_key d.stripe_dispute_id)) debit
              l.entries,
        ) in
      let free : first (λ e. key_eq e.idempotency_key release.idempotency_key)
            (posted debit l).entries
          ≡ none =
        ground (
          arith,
          same,
          no_release,
          first-insert (λ e. key_eq e.idempotency_key (dispute_release_key d.stripe_dispute_id))
              debit l.entries,
        ) in
      let released : adjust_for_dispute later d' (posted debit l)
          ≡ posted release (posted debit l) =
        resolved later d' attempt_id i (next_id l.entries) earning debit (posted debit l) own'
          (earning_for-posted attempt_id i earning debit l found) closed done there
        ∙ ap (λ r. r.0)
            (post_entry-added release (posted debit l)
              (neg-nonzero (neg earning.amount_cents)
                (neg-nonzero earning.amount_cents some_amount))
              free) in
      let first_total = total_of-posted creator currency debit l in
      let second_total = total_of-posted creator currency release (posted debit l) in
      (
        ap (total_of creator currency) held ∙ first_total,
        ap (λ h. total_of creator currency (adjust_for_dispute later d' h)) held
            ∙ ap (total_of creator currency) released
            ∙ ground (
              arith,
              first_total,
              second_total,
              back_again (total_of creator currency l) earning.amount_cents,
            ),
      )
