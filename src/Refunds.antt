-- ===== src/Refunds.antt =====
-- Automatic refunds (frontend/convex/refunds.ts): a refund is claimed under a lease, sent to
-- Stripe, and its outcome recorded; errors are tried again with exponential backoff.
pub mod Progress
use bling.Prelude.{
  ℕ, ◌+◌, ◌*◌, ◌^◌, ◌≡◌, Bool, true, false, not, ◌&&◌, ◌||◌, Option, none, some, List, [], ◌∷◌,
  ◌++◌, leb, if◌then◌else◌, min, String, str_eq, map, keep, take,
}
use bling.Store.Interface.{Convex}
use bling.Store.Rows.{Row}
use bling.Store.Queries.{Table, get, collect, replace, sort_by}
use bling.Schema.Status.{RefundStatus, refund_eq}
use bling.Schema.Docs.{PaymentRefund}
use bling.Schema.State.{Env, Db, run_at, run_refund}
use bling.Ledger.{reverse_for_refund}

abbrev pub max_attempts : ℕ
max_attempts = 10

abbrev pub lease_ms : ℕ
lease_ms = 300000

abbrev pub pending_recheck_ms : ℕ
pending_recheck_ms = 300000

abbrev pub sweep_batch : ℕ
sweep_batch = 50

-- The outcomes that Stripe reports.
pub data Outcome : Type 0 where
  succeeded failed pending : Outcome

unfoldable pub status_from_stripe : Option String → Outcome
status_from_stripe none = pending
status_from_stripe (some s) =
    if str_eq s "succeeded"
    then succeeded
    else if str_eq s "failed" || str_eq s "canceled"
    then failed
    else pending

abbrev pub outcome_status : Outcome → RefundStatus
outcome_status succeeded = RefundStatus.succeeded
outcome_status failed = RefundStatus.failed
outcome_status pending = RefundStatus.pending

abbrev pub is_pending : Outcome → Bool
is_pending pending = true
is_pending _ = false

abbrev pub is_final : RefundStatus → Bool
is_final s = refund_eq s RefundStatus.succeeded || refund_eq s RefundStatus.failed

-- A refund that `claim` takes: new, or waiting with its time come (a lease that ran out included).
abbrev pub is_due : (now : ℕ) → PaymentRefund → Bool
is_due now r =
    refund_eq r.status RefundStatus.requested
    || ((refund_eq r.status RefundStatus.retry
          || refund_eq r.status RefundStatus.pending
          || refund_eq r.status RefundStatus.processing)
        && leb r.next_attempt_at now)

-- `1000 * 2 ** Math.min(attempts, 8)`
unfoldable pub backoff_ms : ℕ → ℕ
backoff_ms attempts = 1000 * 2 ^ min attempts 8

module _ ⦃c : Convex⦄ where
  -- The refund as claimed, and the state.
  unfoldable pub claim : Env → (refund_id : ℕ) → Db → Option PaymentRefund × Db
  claim env refund_id db = elim (get db.refunds refund_id) [
    | none ↦ (none, db)
    | some r ↦
        let claimed : PaymentRefund = record r {
          status = RefundStatus.processing;
          attempts = r.attempts + 1;
          next_attempt_at = env.now + lease_ms;
        } in
        if leb max_attempts r.attempts || not (is_due env.now r)
        then (none, db)
        else (some claimed, record db { refunds = replace refund_id claimed db.refunds })
  ]

  abbrev pub recorded :
      (now : ℕ)
      → (stripe_refund_id : String) → Outcome
      → (failure_code : Option String) → PaymentRefund
      → PaymentRefund
  recorded now stripe_refund_id outcome failure_code r = record r {
    stripe_refund_id = some stripe_refund_id;
    status = outcome_status outcome;
    failure_code = failure_code;
    next_attempt_at = now + pending_recheck_ms;
    processed_at = if is_pending outcome then none else some now;
  }

  -- `record`: a final outcome that a webhook has reported stays.
  unfoldable pub record_outcome :
      Env
      → (refund_id : ℕ) → (stripe_refund_id : String) → Outcome
      → (failure_code : Option String) → Db
      → Db
  record_outcome env refund_id stripe_refund_id outcome failure_code db =
      elim (get db.refunds refund_id) [
        | none ↦ db
        | some r ↦
            let r' : PaymentRefund = recorded env.now stripe_refund_id outcome failure_code r in
            if is_final r.status then db else record db {
              refunds = replace refund_id r' db.refunds;
              ledger = elim outcome [
                | succeeded ↦ reverse_for_refund env.now (refund_id, r') db.attempts db.ledger
                | _ ↦ db.ledger
              ];
              jobs =
                  if is_pending outcome
                  then db.jobs ++ run_at (env.now + pending_recheck_ms) (run_refund refund_id)
                  else db.jobs;
            }
      ]

  unfoldable pub retry : Env → (refund_id : ℕ) → (failure_code : String) → Db → Db
  unfolding backoff_ms
  retry env refund_id failure_code db = elim (get db.refunds refund_id) [
    | none ↦ db
    | some r ↦
        if not (refund_eq r.status RefundStatus.processing)
        then db
        else if leb max_attempts r.attempts
        then record db {
          refunds =
              replace refund_id
                (record r {
                  status = RefundStatus.failed;
                  failure_code = some failure_code;
                  processed_at = some env.now;
                })
                db.refunds;
        }
        else record db {
          refunds =
              replace refund_id
                (record r {
                  status = RefundStatus.retry;
                  failure_code = some failure_code;
                  next_attempt_at = env.now + backoff_ms r.attempts;
                })
                db.refunds;
          jobs = db.jobs ++ run_at (env.now + backoff_ms r.attempts) (run_refund refund_id);
        }
  ]

  -- The refunds in one state whose time has come, from the index `by_status_next`.
  unfoldable pub due_at : (now : ℕ) → RefundStatus → Table PaymentRefund → List ℕ
  due_at now status t =
      map (λ r. r.0)
        (keep (λ r. not (leb max_attempts r.1.attempts))
          (take sweep_batch (
            sort_by (λ r. r.next_attempt_at)
              (collect (λ r. refund_eq r.status status && leb r.next_attempt_at now) t))))

  -- `due`, for the sweep.
  unfoldable pub due : (now : ℕ) → Db → List ℕ
  unfolding due_at
  due now db =
      due_at now RefundStatus.requested db.refunds
      ++ due_at now RefundStatus.retry db.refunds
      ++ due_at now RefundStatus.pending db.refunds
      ++ due_at now RefundStatus.processing db.refunds
