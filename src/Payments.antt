-- ===== src/Payments.antt =====
-- Payment state changes shared by calls, the queue, the scheduled Stripe actions and the webhook
-- (frontend/convex/lib/payments.ts).
pub mod Refunding
pub mod Attempts
use bling.Prelude.{
  ℕ, ◌+◌, ◌≡◌, Bool, true, false, not, ◌&&◌, ◌||◌, Option, none, some, List, [], ◌∷◌, ◌++◌, ◌==◌,
  if◌then◌else◌, is_some, or_else, opt_eq, String,
}
use bling.Prelude.Result.{Result, ok, err, ◌>>=◌, ◌>>◌}
use bling.Accounts.{truthy}
use bling.Store.Interface.{Convex}
use bling.Store.Rows.{Row}
use bling.Store.Queries.{Table, get, first, insert, next_id, replace, patch}
use bling.Schema.Status.{
  ShowStatus, QueueStatus, CallStatus, PaymentStatus, RefundStatus, show_eq, queue_eq, call_eq,
  payment_eq,
}
use bling.Schema.Docs.{Call, QueueEntry, PaymentAttempt, PaymentRefund}
use bling.Schema.State.{Db, Scheduled, run_at, cancel_intent, run_refund}

module _ ⦃c : Convex⦄ where
  -- Asks Stripe to release a hold.
  unfoldable pub schedule_cancel :
      (now : ℕ) → Row PaymentAttempt → (reason : String) → List Scheduled
  schedule_cancel now (id, attempt) reason =
      if truthy attempt.stripe_payment_intent_id
        && (payment_eq attempt.status PaymentStatus.created
            || payment_eq attempt.status PaymentStatus.authorized)
      then run_at now (cancel_intent id reason)
      else []

  abbrev pub new_refund :
      (now : ℕ) → Row PaymentAttempt → (call_id : ℕ) → (reason : String) → PaymentRefund
  new_refund now (id, attempt) call_id reason = record {
    payment_attempt_id = id;
    call_id = call_id;
    stripe_payment_intent_id = or_else attempt.stripe_payment_intent_id "";
    stripe_refund_id = none;
    amount_cents = attempt.amount_cents;
    currency = attempt.currency;
    reason = reason;
    status = RefundStatus.requested;
    attempts = 0;
    failure_code = none;
    next_attempt_at = now;
    processed_at = none;
  }

  -- The test for which `requestRefund` writes: a captured payment with no refund yet.
  abbrev pub needs_refund : Row PaymentAttempt → Table PaymentRefund → Bool
  needs_refund (id, attempt) refunds =
      payment_eq attempt.status PaymentStatus.captured
      && truthy attempt.stripe_payment_intent_id
      && not (is_some (first (λ r. r.payment_attempt_id == id) refunds))

  -- Records one refund per captured attempt and starts processing it: the refunds, and what is
  -- scheduled.
  unfoldable pub request_refund :
      (now : ℕ)
      → Row PaymentAttempt
      → (call_id : ℕ) → (reason : String) → Table PaymentRefund
      → Table PaymentRefund × List Scheduled
  request_refund now a call_id reason refunds =
      if needs_refund a refunds
      then (
        insert (new_refund now a call_id reason) refunds,
        run_at now (run_refund (next_id refunds)),
      )
      else (refunds, [])

  unfoldable pub call_for_attempt : ℕ → Db → Option (Row Call)
  call_for_attempt attempt_id db = first (λ k. opt_eq k.payment_attempt_id attempt_id) db.calls

  abbrev pub show_is_live : ℕ → Db → Bool
  show_is_live show_id db = elim (get db.shows show_id) [
    | none ↦ false
    | some s ↦ show_eq s.status ShowStatus.live
  ]

  -- The first write of `recordCaptured`, and the attempt as it stands after it.
  abbrev pub captured_attempt : (now : ℕ) → PaymentAttempt → PaymentAttempt
  captured_attempt now attempt =
      if payment_eq attempt.status PaymentStatus.captured then attempt else record attempt {
        status = PaymentStatus.captured;
        captured_at = some (or_else attempt.captured_at now);
      }

  -- A call that was still waiting for the capture when its show ended: it fails, with its entry.
  unfoldable pub fail_pending_call : (now : ℕ) → Row Call → Db → Result Db
  unfolding patch
  fail_pending_call now (id, call) db =
      if call_eq call.status CallStatus.payment_pending
      then (do
        entries ←
            patch call.queue_entry_id (λ e. record e { status = QueueStatus.ended }) db.entries
        ok (record db {
          calls =
              replace id (record call { status = CallStatus.failed; ended_at = some now }) db.calls;
          entries = entries;
        }))
      else ok db

  -- What `recordCaptured` does with the call that waits for the capture.
  unfoldable pub settle_captured_call : (now : ℕ) → Row PaymentAttempt → Row Call → Db → Result Db
  unfolding request_refund fail_pending_call
  settle_captured_call now attempt (id, call) db =
      let show_live = show_is_live call.show_id db in
      if call_eq call.status CallStatus.payment_pending && show_live
      then ok
          (record db { calls = replace id (record call { status = CallStatus.created }) db.calls })
      else if not (is_some call.started_at) && not show_live
      then (do
        failed ← fail_pending_call now (id, call) db
        let refund = request_refund now attempt id "show_ended_before_call_started" failed.refunds
        ok (record failed { refunds = refund.0; jobs = failed.jobs ++ refund.1 }))
      else ok db

  unfoldable pub record_captured : (now : ℕ) → Row PaymentAttempt → Db → Result Db
  unfolding settle_captured_call call_for_attempt
  record_captured now (id, attempt) db =
      let captured = captured_attempt now attempt in
      let db' = record db {
        attempts =
            if payment_eq attempt.status PaymentStatus.captured
            then db.attempts
            else replace id captured db.attempts;
      } in
      elim (call_for_attempt id db') [
        | none ↦ ok db'
        | some call ↦ settle_captured_call now (id, captured) call db'
      ]

  abbrev pub not_captured_attempt :
      (now : ℕ) → PaymentAttempt → PaymentStatus → Option String → PaymentAttempt
  not_captured_attempt now attempt status failure_code = record attempt {
    status = status;
    failure_code = failure_code;
    canceled_at =
        if payment_eq status PaymentStatus.canceled
        then some (or_else attempt.canceled_at now)
        else attempt.canceled_at;
  }

  -- The caller is released from the queue where their entry waits on the payment.
  unfoldable pub release_entry :
      (now : ℕ)
      → (entry_id : Option ℕ) → (call_pending : Bool) → Table QueueEntry
      → Table QueueEntry
  release_entry now none call_pending t = t
  release_entry now (some entry_id) call_pending t = elim (get t entry_id) [
    | none ↦ t
    | some entry ↦
        if queue_eq entry.status QueueStatus.waiting
          || (queue_eq entry.status QueueStatus.selected && call_pending)
        then replace entry_id (record entry { status = QueueStatus.left; left_at = some now }) t
        else t
  ]

  -- The call that waits on the payment fails. `call` was read before, so `call_pending` below is
  -- its status at that time.
  unfoldable pub fail_waiting_call : (now : ℕ) → Option (Row Call) → Table Call → Table Call
  fail_waiting_call now none t = t
  fail_waiting_call now (some (id, call)) t =
      if call_eq call.status CallStatus.payment_pending
      then replace id (record call { status = CallStatus.failed; ended_at = some now }) t
      else t

  abbrev pub is_pending : Option (Row Call) → Bool
  is_pending none = false
  is_pending (some (_, call)) = call_eq call.status CallStatus.payment_pending

  unfoldable pub record_not_captured :
      (now : ℕ) → Row PaymentAttempt → PaymentStatus → Option String → Db → Db
  unfolding call_for_attempt
  record_not_captured now (id, attempt) status failure_code db =
      if payment_eq attempt.status PaymentStatus.captured
      then db
      else let call = call_for_attempt id db in
        record db {
          attempts = replace id (not_captured_attempt now attempt status failure_code) db.attempts;
          calls = fail_waiting_call now call db.calls;
          entries = release_entry now attempt.queue_entry_id (is_pending call) db.entries;
        }
