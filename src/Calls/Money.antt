-- ===== src/Calls/Money.antt =====
-- When a call that changes state earns money for its creator, and when it is refunded
-- (frontend/convex/lib/calls.ts, with frontend/convex/lib/ledger.ts and frontend/convex/lib/payments.ts).
use bling.Prelude.{
  ℕ, ◌≡◌, ◌⊎◌, ◌+◌, inl, inr, refl, true, false, none, some, arith, ◌==◌, is_some, Option-cases, ap,
}
use bling.Prelude.Int.{sub_ℕ}
use bling.Prelude.Result.{ok}
use bling.Accounts.{truthy}
use bling.Store.Interface.{Convex}
use bling.Store.Queries.{get, first, next_id}
use bling.Store.Sums.{first-insert}
use bling.Schema.Status.{CallStatus, PaymentStatus, RefundStatus, LedgerKind, call_eq}
use bling.Schema.Docs.{Call, PaymentAttempt, PaymentRefund, LedgerEntry, earning_key}
use bling.Schema.Keys.{key_eq, key_eq_refl}
use bling.Schema.State.{Env, Db}
use bling.Ledger.{credit_earning, earning_entry, earnings_hold_ms, is_zero}
use bling.Ledger.Posting.{post_entry-added, post_entry-kept}
use bling.Payments.{request_refund, new_refund}
use bling.Calls.{apply_transition, is_finished, credited, refunded, refund_reason}
use bling.Calls.Transitions.{apply_transition-cases}

module _ ⦃c : Convex⦄ where
  -- No single transition both earns and refunds.
  pub apply_transition_earns_or_refunds :
      (env : Env) (id : ℕ) (call : Call) (target : CallStatus) (db : Db) {db' : Db}
      → apply_transition env (id, call) target db ≡ ok db'
      → (db'.ledger ≡ db.ledger) ⊎ (db'.refunds ≡ db.refunds)
  unfolding credited refunded
  apply_transition_earns_or_refunds env id call target db h =
      ground (arith, apply_transition-cases env id call target db h)

  -- A transition that finishes a call which was never live, paid by a captured attempt that Stripe
  -- knows, leaves a refund for that attempt: the one that was there before, or else a requested one of
  -- the attempt's whole amount, in its currency, for this call and without an attempt yet.
  pub apply_transition_refunds :
      (env : Env) (id : ℕ) (call : Call) (target : CallStatus) (db : Db) {db' : Db} (attempt_id : ℕ)
      (attempt : PaymentAttempt)
      → apply_transition env (id, call) target db ≡ ok db'
      → call_eq call.status target ≡ false
      → is_finished target ≡ true
      → call.started_at ≡ none
      → call.payment_attempt_id ≡ some attempt_id
      → get db.attempts attempt_id ≡ some attempt
      → attempt.status ≡ PaymentStatus.captured
      → truthy attempt.stripe_payment_intent_id ≡ true
      → (i : ℕ) × (r : PaymentRefund) × (first (λ r. r.payment_attempt_id == attempt_id) db'.refunds
          ≡ some (i, r))
        × ((first (λ r. r.payment_attempt_id == attempt_id) db.refunds ≡ some (i, r))
            ⊎ ((r.amount_cents ≡ attempt.amount_cents)
                × (r.currency ≡ attempt.currency)
                × (r.call_id ≡ id)
                × (r.status ≡ RefundStatus.requested)
                × (r.attempts ≡ 0)))
  unfolding refunded request_refund
  apply_transition_refunds env id call target db attempt_id attempt h moved fin unstarted paid at_a
        st intent =
      let steps = apply_transition-cases env id call target db h in
      let wanted = new_refund env.now (attempt_id, attempt) id (refund_reason target) in
      elim (Option-cases (first (λ r. r.payment_attempt_id == attempt_id) db.refunds)) [
        | inl fresh ↦ (
          next_id db.refunds,
          wanted,
          ground (
            arith,
            steps,
            first-insert (λ r. r.payment_attempt_id == attempt_id) wanted db.refunds,
          ),
          inr (refl, refl, refl, refl, refl),
        )
        | inr ((i, r), found) ↦ (i, r, ground (arith, steps), inl found)
      ]

  -- A call that goes live for the first time on a captured payment, of which something is left after
  -- the fee, leaves an entry under that payment's earning key: the one that was there before, or else
  -- an earning of the payment's creator, of its amount less the platform's fee, in its currency, which
  -- counts as available when the hold on earnings has passed.
  pub apply_transition_earns :
      (env : Env) (id : ℕ) (call : Call) (db : Db) {db' : Db} (attempt_id : ℕ)
      (attempt : PaymentAttempt)
      → apply_transition env (id, call) CallStatus.live db ≡ ok db'
      → call_eq call.status CallStatus.live ≡ false
      → call.started_at ≡ none
      → call.payment_attempt_id ≡ some attempt_id
      → get db.attempts attempt_id ≡ some attempt
      → attempt.status ≡ PaymentStatus.captured
      → is_zero (sub_ℕ attempt.amount_cents attempt.platform_fee_cents) ≡ false
      → (i : ℕ) × (e : LedgerEntry) × (first
            (λ e. key_eq e.idempotency_key (earning_key attempt_id))
            db'.ledger.entries
          ≡ some (i, e))
        × ((first (λ e. key_eq e.idempotency_key (earning_key attempt_id)) db.ledger.entries
              ≡ some (i, e))
            ⊎ ((e.kind ≡ LedgerKind.earning)
                × (e.creator_id ≡ attempt.creator_id)
                × (e.amount_cents ≡ sub_ℕ attempt.amount_cents attempt.platform_fee_cents)
                × (e.currency ≡ attempt.currency)
                × (e.effective_at ≡ env.now + earnings_hold_ms env.hold_ms)))
  unfolding credited credit_earning
  apply_transition_earns env id call db attempt_id attempt h moved unstarted paid at_a st worth =
      let steps = apply_transition-cases env id call CallStatus.live db h in
      let entry = earning_entry env.hold_ms (attempt_id, attempt) id env.now in
      let is_its = (λ (e : LedgerEntry). key_eq e.idempotency_key (earning_key attempt_id)) in
      elim (Option-cases (first is_its db.ledger.entries)) [
        | inl fresh ↦ (
          next_id db.ledger.entries,
          entry,
          ground (
            arith,
            steps,
            post_entry-added entry db.ledger worth fresh,
            first-insert is_its entry db.ledger.entries,
            key_eq_refl (earning_key attempt_id),
          ),
          inr (refl, refl, refl, refl, refl),
        )
        | inr ((i, e), found) ↦ (
          i,
          e,
          ground (arith, steps, found, post_entry-kept entry db.ledger (ap is_some found)),
          inl found,
        )
      ]
