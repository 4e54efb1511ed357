-- ===== src/Webhooks.antt =====
-- Stripe's events (frontend/convex/webhooks.ts, `apply`): each is recorded with its id and applied in
-- one transaction. The HTTP action, which verifies the signature and makes the arguments, is not
-- modelled.
use bling.Prelude.{
  ℕ, Bool, not, ◌&&◌, ◌||◌, Option, none, some, ◌++◌, if◌then◌else◌, String, str_eq, is_some,
  or_else,
}
use bling.Prelude.Result.{Result, ok, ◌>>=◌}
use bling.Accounts.{truthy}
use bling.Store.Interface.{Convex}
use bling.Store.Rows.{Row}
use bling.Store.Queries.{Table, get, first, insert, next_id, replace}
use bling.Schema.Status.{PaymentStatus, RefundStatus, refund_eq}
use bling.Schema.Docs.{PaymentAttempt, PaymentRefund, PaymentDispute, PayoutEvent}
use bling.Schema.State.{Env, Db, run_at, reconcile_account}
use bling.Ledger.{reverse_for_refund, adjust_for_dispute}
use bling.Payments.{call_for_attempt, record_captured, record_not_captured}
use bling.Payments.Attempts.{opt_str_eq}

pub record IntentArgs : Type 0 where
  pub id : String
  pub failure_code : Option String
  pub customer_id : Option String
  pub payment_method_id : Option String
  pub saved_for_future : Bool

pub record RefundArgs : Type 0 where
  pub id : String
  pub intent_id : Option String
  pub status : String
  pub failure_reason : Option String
  pub amount_cents : Option ℕ
  pub currency : Option String

pub record DisputeArgs : Type 0 where
  pub id : String
  pub intent_id : Option String
  pub amount_cents : ℕ
  pub currency : String
  pub reason : String
  pub status : String
  pub evidence_due_at : Option ℕ

pub record PayoutArgs : Type 0 where
  pub id : String
  pub amount_cents : ℕ
  pub currency : String
  pub status : String
  pub failure_code : Option String
  pub failure_message : Option String
  pub arrival_at : Option ℕ

-- The arguments of `apply`.
pub record EventArgs : Type 0 where
  pub event_id : String
  pub event_type : String
  pub connected_account_id : Option String
  pub intent : Option IntentArgs
  pub refund : Option RefundArgs
  pub dispute : Option DisputeArgs
  pub payout : Option PayoutArgs
  pub account_id : Option String

abbrev pub refund_status : String → RefundStatus
refund_status s =
    if str_eq s "succeeded"
    then RefundStatus.succeeded
    else if str_eq s "failed" || str_eq s "canceled"
    then RefundStatus.failed
    else RefundStatus.pending

-- A final outcome is never reopened by an older event.
abbrev pub is_older : RefundStatus → RefundStatus → Bool
is_older known next =
    (refund_eq known RefundStatus.succeeded || refund_eq known RefundStatus.failed)
    && refund_eq next RefundStatus.pending

-- `existing ?? new`
abbrev pub first_of {ℓ} : {A : Type ℓ} → Option A → Option A → Option A
first_of none b = b
first_of (some a) b = some a

module _ ⦃c : Convex⦄ where
  unfoldable pub attempt_for_intent : Option String → Db → Option (Row PaymentAttempt)
  attempt_for_intent intent_id db =
      if truthy intent_id
      then first (λ a. opt_str_eq a.stripe_payment_intent_id intent_id) db.attempts
      else none

  -- The card is kept where the payment asked for it.
  unfoldable pub save_method : IntentArgs → Row PaymentAttempt → Db → Db
  save_method intent (id, attempt) db =
      if intent.saved_for_future
        && truthy intent.payment_method_id
        && opt_str_eq intent.customer_id attempt.stripe_customer_id
      then elim (get db.attempts id) [
        | none ↦ db
        | some a ↦ record db {
          attempts =
              replace id (record a { saved_payment_method_id = intent.payment_method_id })
                db.attempts;
        }
      ]
      else db

  unfoldable pub apply_intent : Env → (event_type : String) → IntentArgs → Db → Result Db
  unfolding attempt_for_intent save_method
  apply_intent env event_type intent db = elim (attempt_for_intent (some intent.id) db) [
    | none ↦ ok db
    | some attempt ↦
        if str_eq event_type "payment_intent.succeeded"
        then (do
          recorded ← record_captured env.now attempt db
          ok (save_method intent attempt recorded))
        else ok (
            record_not_captured env.now attempt
              (if str_eq event_type "payment_intent.canceled"
                then PaymentStatus.canceled
                else PaymentStatus.failed)
              intent.failure_code db)
  ]

  -- The refund of that Stripe id, or one that Bling requested and whose Stripe id is not recorded
  -- yet.
  unfoldable pub known_refund : RefundArgs → Table PaymentRefund → Option (Row PaymentRefund)
  known_refund args t = elim (first (λ r. opt_str_eq r.stripe_refund_id (some args.id)) t) [
    | some r ↦ some r
    | none ↦
        if truthy args.intent_id
        then first
            (λ r.
              str_eq r.stripe_payment_intent_id (or_else args.intent_id "")
              && not (is_some r.stripe_refund_id))
            t
        else none
  ]

  abbrev pub outside_reason : String
  outside_reason = "OUTSIDE_BLING"

  abbrev pub outside_refund :
      (now : ℕ) → RefundArgs → Row PaymentAttempt → (call_id amount_cents : ℕ) → PaymentRefund
  outside_refund now args (id, attempt) call_id amount_cents = record {
    payment_attempt_id = id;
    call_id = call_id;
    stripe_payment_intent_id = or_else args.intent_id "";
    stripe_refund_id = some args.id;
    amount_cents = amount_cents;
    currency = or_else args.currency attempt.currency;
    reason = outside_reason;
    status = RefundStatus.pending;
    attempts = 0;
    failure_code = none;
    next_attempt_at = now;
    processed_at = none;
  }

  -- Refunded outside Bling: the refund is recorded, so that the creator's share is reversed too.
  unfoldable pub record_outside :
      Env → RefundArgs → Db → Option (Row PaymentRefund × Table PaymentRefund)
  unfolding attempt_for_intent
  record_outside env args db = elim (attempt_for_intent args.intent_id db) [
    | none ↦ none
    | some attempt ↦ elim (call_for_attempt attempt.0 db) [
      | none ↦ none
      | some call ↦ elim args.amount_cents [
        | none ↦ none
        | some amount ↦
            let r = outside_refund env.now args attempt call.0 amount in
            some ((next_id db.refunds, r), insert r db.refunds)
      ]
    ]
  ]

  -- The refund that the event is about, and the refunds with it.
  unfoldable pub refund_for :
      Env → RefundArgs → Db → Option (Row PaymentRefund × Table PaymentRefund)
  unfolding known_refund record_outside
  refund_for env args db = elim (known_refund args db.refunds) [
    | some r ↦ some (r, db.refunds)
    | none ↦ record_outside env args db
  ]

  abbrev pub reported : (now : ℕ) → RefundArgs → PaymentRefund → PaymentRefund
  reported now args r = record r {
    stripe_refund_id = first_of r.stripe_refund_id (some args.id);
    status = refund_status args.status;
    failure_code = args.failure_reason;
    processed_at =
        if refund_eq (refund_status args.status) RefundStatus.pending
        then r.processed_at
        else some now;
  }

  unfoldable pub apply_refund : Env → RefundArgs → Db → Db
  unfolding refund_for
  apply_refund env args db = elim (refund_for env args db) [
    | none ↦ db
    | some ((id, r), refunds) ↦
        if is_older r.status (refund_status args.status)
        then record db { refunds = refunds }
        else record db {
          refunds = replace id (reported env.now args r) refunds;
          ledger =
              if refund_eq (refund_status args.status) RefundStatus.succeeded
              then reverse_for_refund env.now (id, reported env.now args r) db.attempts db.ledger
              else db.ledger;
        }
  ]

  abbrev pub disputed :
      DisputeArgs
      → (attempt_id : Option ℕ) → (intent_id : Option String) → (due_at : Option ℕ) → PaymentDispute
  disputed args attempt_id intent_id due_at = record {
    stripe_dispute_id = args.id;
    payment_attempt_id = attempt_id;
    stripe_payment_intent_id = intent_id;
    amount_cents = args.amount_cents;
    currency = args.currency;
    reason = args.reason;
    status = args.status;
    evidence_due_at = due_at;
  }

  abbrev pub id_of {ℓ} : {D : Type ℓ} → Option (ℕ × D) → Option ℕ
  id_of none = none
  id_of (some (id, _)) = some id

  -- The dispute as it is written, and the disputes. A patch keeps what the event leaves out.
  unfoldable pub write_dispute : DisputeArgs → Db → PaymentDispute × Table PaymentDispute
  unfolding attempt_for_intent
  write_dispute args db =
      let attempt = id_of (attempt_for_intent args.intent_id db) in
      elim (first (λ d. str_eq d.stripe_dispute_id args.id) db.disputes) [
        | some (id, d) ↦
            let written =
              disputed args (first_of d.payment_attempt_id attempt)
                (first_of d.stripe_payment_intent_id args.intent_id)
                (first_of args.evidence_due_at d.evidence_due_at) in
            (written, replace id written db.disputes)
        | none ↦
            let written = disputed args attempt args.intent_id args.evidence_due_at in
            (written, insert written db.disputes)
      ]

  unfoldable pub apply_dispute : Env → DisputeArgs → Db → Db
  unfolding write_dispute
  apply_dispute env args db =
      let written = write_dispute args db in
      record db { disputes = written.1; ledger = adjust_for_dispute env.now written.0 db.ledger }

  abbrev pub payout_event : PayoutArgs → (creator_id : ℕ) → PayoutEvent
  payout_event args creator_id = record {
    stripe_payout_id = args.id;
    creator_id = creator_id;
    amount_cents = args.amount_cents;
    currency = args.currency;
    status = args.status;
    failure_code = args.failure_code;
    failure_message = args.failure_message;
    arrival_at = args.arrival_at;
  }

  -- A later event of the same payout: what it leaves out stays.
  abbrev pub patched_event : PayoutArgs → PayoutEvent → PayoutEvent
  patched_event args e = record e {
    amount_cents = args.amount_cents;
    currency = args.currency;
    status = args.status;
    failure_code = first_of args.failure_code e.failure_code;
    failure_message = first_of args.failure_message e.failure_message;
    arrival_at = first_of args.arrival_at e.arrival_at;
  }

  unfoldable pub apply_payout : (connected : String) → PayoutArgs → Db → Db
  apply_payout connected args db =
      elim (first (λ a. str_eq a.stripe_account_id connected) db.payouts.accounts) [
        | none ↦ db
        | some (_, account) ↦ record db {
          payouts = record db.payouts {
            events = elim (first (λ e. str_eq e.stripe_payout_id args.id) db.payouts.events) [
              | some (id, e) ↦ replace id (patched_event args e) db.payouts.events
              | none ↦ insert (payout_event args account.creator_id) db.payouts.events
            ];
          };
        }
      ]

  -- What the event changes besides its own record: the first of the parts that it has.
  unfoldable pub apply_parts : Env → EventArgs → Db → Result Db
  unfolding apply_intent apply_refund apply_dispute apply_payout
  apply_parts env args db = elim args.intent [
    | some intent ↦ apply_intent env args.event_type intent db
    | none ↦ elim args.refund [
      | some refund ↦ ok (apply_refund env refund db)
      | none ↦ elim args.dispute [
        | some dispute ↦ ok (apply_dispute env dispute db)
        | none ↦
            let noted =
              if truthy args.account_id
              then record db {
                jobs = db.jobs ++ run_at env.now (reconcile_account (or_else args.account_id ""));
              }
              else db in
            elim args.payout [
              | none ↦ ok noted
              | some payout ↦
                  if truthy args.connected_account_id
                  then ok (apply_payout (or_else args.connected_account_id "") payout db)
                  else ok noted
            ]
      ]
    ]
  ]

  abbrev pub is_seen : (event_id : String) → Db → Bool
  is_seen event_id db = is_some (first (λ e. str_eq e.stripe_event_id event_id) db.stripe_events)

  unfoldable pub apply : Env → EventArgs → Db → Result Db
  unfolding apply_parts
  apply env args db =
      if is_seen args.event_id db
      then ok db
      else apply_parts env args (record db {
        stripe_events =
            insert
              (record {
                stripe_event_id = args.event_id;
                event_type = args.event_type;
                connected_account_id = args.connected_account_id;
              })
              db.stripe_events;
      })
