-- ===== src/Examples/Money.antt =====
-- Examples of the ledger, refunds and fees.
use bling.Prelude.{
  ◌⊎◌, ◌≡◌, ◌≤◌, ◌<◌, ◌*◌, ◌+◌, ◌/◌, refl, none, some, false, List, [], ◌∷◌, arith, String,
  if◌then◌else◌, true,
}
use bling.System.Outcomes.{serve-final}
use bling.Prelude.Int.{pos, neg, ◌≤ℤ◌, ◌+ℤ◌}
use bling.Store.Rows.{lookup}
use bling.Store.Queries.{get, first, insert}
use bling.Store.InMemory.{in_memory, empty, above}
use bling.Store.Sums.{sum_of, sum_rows}
use bling.Schema.Status.{CallStatus, PaymentStatus, RefundStatus}
use bling.Schema.Docs.{PaymentRefund, PaymentDispute, dispute_debit_key, dispute_release_key}
use bling.Schema.State.{Env, Db, Ledger}
use bling.Fees.{payment_fees, creator_share}
use bling.Fees.Bounds.{payment_fees_bounds}
use bling.Ledger.{
  post_entry, reverse_for_refund, balance_at, adjust_for_dispute, is_entry_of, earning_for,
  add_to_balance,
}
use bling.Ledger.Repeats.{reverse_for_refund_twice}
use bling.Ledger.Disputes.{adjust_for_dispute-restores}
use bling.Schema.Keys.{key_eq}
use bling.Ledger.Posting.{post_entry_twice}
use bling.Ledger.Balances.{
  IsBalanced, post_entry-IsBalanced, balance_at-available, effective_total, total_of, balance_of,
}
use bling.Ledger.Reversals.{IsCovered, earned, reversals, reverse_for_refund-IsCovered}
use bling.Ledger.Operations.{IsSound}
use bling.Refunds.{Outcome, claim, is_final}
use bling.Refunds.Progress.{claim_excludes_claim}
use bling.System.{Op, serve}
use bling.System.Effects.{AreRefunds}
use bling.System.Money.{serve-ledger, serve-AreRefunds}
use bling.Examples.{creator_at, caller_at, empty_db, queued, in_call, earning, refund}

-- A ledger with one earning.
unfoldable pub earned_ledger : Ledger ⦃c = in_memory⦄
unfolding post_entry
earned_ledger = (post_entry earning (record { entries = empty; balances = empty })).0

-- The call goes live, and a refund that Stripe has made is recorded.
abbrev money_history : List (Env × Op)
money_history =
    (creator_at 40, Op.move_call 1 CallStatus.connecting)
    ∷ (caller_at 41, Op.move_call 1 CallStatus.live)
    ∷ (creator_at 70, Op.claim_refund 1)
    ∷ (creator_at 71, Op.record_refund 1 "re" Outcome.succeeded none)
    ∷ []

no_money-IsSound : IsSound ⦃c = in_memory⦄ (in_call CallStatus.created).ledger
unfolding balance_of total_of sum_of sum_rows first get lookup in_call queued
no_money-IsSound = (λ creator currency. refl, λ i j a b p q k. ground arith)

serve-ledger_example :
    IsSound ⦃c = in_memory⦄ (serve (in_call CallStatus.created) money_history).ledger
serve-ledger_example =
    serve-ledger ⦃c = in_memory⦄ (in_call CallStatus.created) money_history no_money-IsSound

unfoldable refunding : RefundStatus → Db ⦃c = in_memory⦄
unfolding insert
refunding status = record empty_db { refunds = insert (refund status) empty }

one_refund-AreRefunds : AreRefunds ⦃c = in_memory⦄ (refunding RefundStatus.retry).refunds
unfolding get lookup insert refunding above
one_refund-AreRefunds = (λ i j k l a b s. ground arith, λ i k a. ground arith)

serve-AreRefunds_example :
    AreRefunds ⦃c = in_memory⦄ (serve (refunding RefundStatus.retry) money_history).refunds
serve-AreRefunds_example =
    serve-AreRefunds ⦃c = in_memory⦄ (refunding RefundStatus.retry) money_history
      one_refund-AreRefunds

earned_ledger-IsCovered : IsCovered ⦃c = in_memory⦄ earned_ledger
unfolding reversals earned sum_of sum_rows first insert earned_ledger above post_entry earning_for
    add_to_balance ◌+ℤ◌
earned_ledger-IsCovered a = (ground arith, ground arith)

reverse_for_refund-IsCovered_example : IsCovered ⦃c = in_memory⦄ (
    reverse_for_refund 80
      (1, refund RefundStatus.succeeded)
      (queued PaymentStatus.captured).attempts
      earned_ledger)
reverse_for_refund-IsCovered_example =
    reverse_for_refund-IsCovered ⦃c = in_memory⦄ 80 (1, refund RefundStatus.succeeded)
      (queued PaymentStatus.captured).attempts earned_ledger earned_ledger-IsCovered

nothing-IsBalanced : IsBalanced ⦃c = in_memory⦄ (record { entries = empty; balances = empty })
unfolding balance_of total_of sum_of sum_rows first
nothing-IsBalanced creator currency = refl

pub earned_ledger-IsBalanced : IsBalanced ⦃c = in_memory⦄ earned_ledger
unfolding earned_ledger
earned_ledger-IsBalanced =
    post_entry-IsBalanced ⦃c = in_memory⦄ earning (record { entries = empty; balances = empty })
      nothing-IsBalanced

balance_at-available_example :
    ((balance_at ⦃c = in_memory⦄ 1 "usd" 90 earned_ledger).available_cents
      ≡ effective_total 1 "usd" 90 earned_ledger)
    × ((balance_at ⦃c = in_memory⦄ 1 "usd" 90 earned_ledger).total_cents
        ≡ total_of 1 "usd" earned_ledger)
balance_at-available_example =
    balance_at-available ⦃c = in_memory⦄ 1 "usd" 90 earned_ledger earned_ledger-IsBalanced

post_entry-IsBalanced_example :
    IsBalanced ⦃c = in_memory⦄ (post_entry ⦃c = in_memory⦄ earning earned_ledger).0
post_entry-IsBalanced_example =
    post_entry-IsBalanced ⦃c = in_memory⦄ earning earned_ledger earned_ledger-IsBalanced

post_entry_twice_example :
    post_entry ⦃c = in_memory⦄ earning (post_entry earning earned_ledger).0
    ≡ ((post_entry earning earned_ledger).0, false)
post_entry_twice_example = post_entry_twice ⦃c = in_memory⦄ earning earned_ledger

payment_fees_bounds_example :
    let fees = payment_fees 500 1000 in
    (fees.platform_fee_cents < 500)
    × (pos (500 * 48 / 100) ≤ℤ creator_share 500 fees)
    × (creator_share 500 fees ≤ℤ pos 500)
    × (fees.creator_processing_fee_cents * 2 ≤ fees.basic_card_fee_cents)
    × (fees.basic_card_fee_cents ≤ fees.creator_processing_fee_cents * 2 + 1)
payment_fees_bounds_example = payment_fees_bounds 500 1000 (omega arith) (omega arith)

-- The refund, claimed under a lease up to 300070.
unfoldable claimed_refund : PaymentRefund
claimed_refund = record (refund RefundStatus.retry) {
  status = RefundStatus.processing;
  attempts = 2;
  next_attempt_at = 300070;
}

claims :
    (claim ⦃c = in_memory⦄ (creator_at 70) 1 (refunding RefundStatus.retry)).0 ≡ some claimed_refund
unfolding claim get lookup insert refunding above claimed_refund
claims = refl

claim_excludes_claim_example :
    (claim ⦃c = in_memory⦄
      (creator_at 90)
      1
      (claim (creator_at 70) 1 (refunding RefundStatus.retry)).1).0
    ≡ none
claim_excludes_claim_example =
    claim_excludes_claim ⦃c = in_memory⦄ (creator_at 70) (creator_at 90) 1
      (refunding RefundStatus.retry) claimed_refund claims (omega arith)

refund_there :
    get ⦃c = in_memory⦄ (refunding RefundStatus.succeeded).refunds 1
    ≡ some (refund RefundStatus.succeeded)
unfolding get lookup insert refunding above
refund_there = refl

-- A claim and a report that come after the refund succeeded.
serve-final_example :
    let later = serve ⦃c = in_memory⦄ (refunding RefundStatus.succeeded) money_history in
    ((r' : PaymentRefund) × (get ⦃c = in_memory⦄ later.refunds 1 ≡ some r')
      × (r'.payment_attempt_id ≡ 1)
      × (is_final r'.status ≡ true))
    × (claim ⦃c = in_memory⦄ (creator_at 99) 1 later ≡ (none, later))
serve-final_example =
    serve-final ⦃c = in_memory⦄ (refunding RefundStatus.succeeded) money_history 1
      (refund RefundStatus.succeeded) (creator_at 99) refund_there refl

abbrev dispute : (status : String) → PaymentDispute
dispute status = record {
  stripe_dispute_id = "dp";
  payment_attempt_id = some 1;
  stripe_payment_intent_id = some "pi";
  amount_cents = 500;
  currency = "usd";
  reason = "fraudulent";
  status = status;
  evidence_due_at = none;
}

earning_there : earning_for ⦃c = in_memory⦄ 1 earned_ledger ≡ some (1, earning)
unfolding earning_for first earned_ledger post_entry add_to_balance insert above
earning_there = refl

no_debit :
    first ⦃c = in_memory⦄
      (λ e. key_eq e.idempotency_key (dispute_debit_key "dp"))
      earned_ledger.entries
    ≡ none
unfolding first earned_ledger post_entry add_to_balance insert above
no_debit = refl

no_release :
    first ⦃c = in_memory⦄
      (λ e. key_eq e.idempotency_key (dispute_release_key "dp"))
      earned_ledger.entries
    ≡ none
unfolding first earned_ledger post_entry add_to_balance insert above
no_release = refl

adjust_for_dispute-restores_example :
    let held = adjust_for_dispute ⦃c = in_memory⦄ 90 (dispute "needs_response") earned_ledger in
    (total_of 1 "usd" held ≡ (
      if is_entry_of 1 "usd" earning
      then total_of 1 "usd" earned_ledger +ℤ neg earning.amount_cents
      else total_of 1 "usd" earned_ledger))
    × (total_of 1 "usd" (adjust_for_dispute 95 (dispute "won") held)
        ≡ total_of 1 "usd" earned_ledger)
adjust_for_dispute-restores_example =
    adjust_for_dispute-restores ⦃c = in_memory⦄ 90 95 (dispute "needs_response") (dispute "won") 1 1
      earning earned_ledger refl refl refl refl refl refl earning_there refl no_debit no_release 1
      "usd"

reverse_for_refund_twice_example :
    let attempts = (queued PaymentStatus.captured).attempts in
    let once =
      reverse_for_refund ⦃c = in_memory⦄ 80
        (1, refund RefundStatus.succeeded)
        attempts
        earned_ledger in
    (once ≡ earned_ledger)
    ⊎ (reverse_for_refund ⦃c = in_memory⦄ 85 (1, refund RefundStatus.succeeded) attempts once
        ≡ once)
reverse_for_refund_twice_example =
    reverse_for_refund_twice ⦃c = in_memory⦄ 80 85 1 (refund RefundStatus.succeeded)
      (refund RefundStatus.succeeded) (queued PaymentStatus.captured).attempts
      (queued PaymentStatus.captured).attempts earned_ledger
