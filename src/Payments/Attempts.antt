-- ===== src/Payments/Attempts.antt =====
-- Card holds (frontend/convex/payments.ts): preparing an attempt, attaching Stripe's intent to it,
-- marking it authorized, and settling its capture.
use bling.Prelude.{
  ℕ, Bool, true, false, not, ◌&&◌, ◌||◌, Option, none, some, ◌==◌, if◌then◌else◌, or_else, String,
  str_eq,
}
use bling.Prelude.Result.{
  Result, ok, err, tier_not_payable, show_not_live, payment_not_authorized, ◌>>=◌,
}
use bling.Accounts.{require_user_id, truthy}
use bling.Store.Interface.{Convex}
use bling.Store.Queries.{get, first, insert, next_id, replace}
use bling.Schema.Status.{ShowStatus, CallStatus, PaymentStatus, show_eq, call_eq, payment_eq}
use bling.Schema.Docs.{Show, ShowTier, PaymentAttempt}
use bling.Schema.State.{Env, Db}
use bling.Fees.{PaymentFees, payment_fees, creator_fee_bps}
use bling.Payments.{record_captured, record_not_captured}

-- `a === b` on optional texts.
abbrev pub opt_str_eq : Option String → Option String → Bool
opt_str_eq none none = true
opt_str_eq none (some b) = false
opt_str_eq (some a) none = false
opt_str_eq (some a) (some b) = str_eq a b

-- The arguments of `prepare`.
pub record PrepareArgs : Type 0 where
  pub show_id : ℕ
  pub tier_id : ℕ
  pub idempotency_key : String
  pub stripe_customer_id : Option String

abbrev pub new_attempt :
    (payer_id : ℕ) → PrepareArgs → Show → ShowTier → PaymentFees → PaymentAttempt
new_attempt payer_id args show tier fees = record {
  show_id = args.show_id;
  creator_id = show.creator_id;
  tier_id = args.tier_id;
  payer_id = payer_id;
  idempotency_key = args.idempotency_key;
  queue_entry_id = none;
  stripe_payment_intent_id = none;
  stripe_customer_id = args.stripe_customer_id;
  amount_cents = tier.price_cents;
  currency = "usd";
  platform_fee_bps = fees.platform_fee_bps;
  platform_fee_cents = fees.platform_fee_cents;
  basic_card_fee_cents = fees.basic_card_fee_cents;
  creator_processing_fee_cents = fees.creator_processing_fee_cents;
  status = PaymentStatus.created;
  failure_code = none;
  authorized_at = none;
  captured_at = none;
  canceled_at = none;
  saved_payment_method_id = none;
}

module _ ⦃c : Convex⦄ where
  -- An enabled tier of the show, or TIER_NOT_PAYABLE.
  unfoldable pub payable : PrepareArgs → Db → Result (Show × ShowTier)
  payable args db = elim (get db.shows args.show_id) [
    | none ↦ err tier_not_payable
    | some show ↦ elim (get db.tiers args.tier_id) [
      | none ↦ err tier_not_payable
      | some tier ↦
          if not (tier.show_id == args.show_id) || not tier.enabled
          then err tier_not_payable
          else if not (show_eq show.status ShowStatus.live)
          then err show_not_live
          else if tier.price_cents == 0
          then err tier_not_payable
          else ok (show, tier)
    ]
  ]

  -- Whether a former attempt under the same key may be resumed.
  abbrev pub may_resume : (payer_id : ℕ) → PrepareArgs → PaymentAttempt → Bool
  may_resume payer_id args a =
      a.payer_id == payer_id
      && a.tier_id == args.tier_id
      && opt_str_eq a.stripe_customer_id args.stripe_customer_id

  -- The id of the attempt, and the state.
  unfoldable pub prepare : Env → PrepareArgs → Db → Result (ℕ × Db)
  unfolding require_user_id payable
  prepare env args db = do
    payer_id ← require_user_id env
    found ← payable args db
    elim (first (λ a. a.show_id == args.show_id && str_eq a.idempotency_key args.idempotency_key)
        db.attempts) [
          | some (id, a) ↦
              if may_resume payer_id args a then ok (id, db) else err payment_not_authorized
          | none ↦ ok (
            next_id db.attempts,
            record db {
              attempts =
                  insert
                    (new_attempt payer_id args found.0 found.1 (
                      payment_fees found.1.price_cents
                        (creator_fee_bps (get db.users found.0.creator_id))))
                    db.attempts;
            },
          )
        ]

  unfoldable pub attach_intent : (attempt_id : ℕ) → (intent_id : String) → Db → Result Db
  attach_intent attempt_id intent_id db = elim (get db.attempts attempt_id) [
    | none ↦ err payment_not_authorized
    | some a ↦
        if opt_str_eq a.stripe_payment_intent_id (some intent_id)
        then ok db
        else if truthy a.stripe_payment_intent_id
        then err payment_not_authorized
        else ok (record db {
          attempts =
              replace attempt_id (record a { stripe_payment_intent_id = some intent_id })
                db.attempts;
        })
  ]

  unfoldable pub attempt_for_payer : Env → (show_id attempt_id : ℕ) → Db → Result PaymentAttempt
  unfolding require_user_id
  attempt_for_payer env show_id attempt_id db = do
    payer_id ← require_user_id env
    elim (get db.attempts attempt_id) [
      | none ↦ err payment_not_authorized
      | some a ↦
          if not (a.show_id == show_id) || not (a.payer_id == payer_id)
          then err payment_not_authorized
          else ok a
    ]

  unfoldable pub mark_authorized : Env → (attempt_id : ℕ) → Db → Db
  mark_authorized env attempt_id db = elim (get db.attempts attempt_id) [
    | none ↦ db
    | some a ↦ record db {
      attempts =
          if payment_eq a.status PaymentStatus.created
          then replace attempt_id
              (record a { status = PaymentStatus.authorized; authorized_at = some env.now })
              db.attempts
          else db.attempts;
    }
  ]

  -- The attempt and the intent of a call that waits for its capture.
  unfoldable pub pending_capture : (call_id : ℕ) → Db → Option (ℕ × String)
  pending_capture call_id db = elim (get db.calls call_id) [
    | none ↦ none
    | some call ↦
        if not (call_eq call.status CallStatus.payment_pending)
        then none
        else elim call.payment_attempt_id [
          | none ↦ none
          | some id ↦ elim (get db.attempts id) [
            | none ↦ none
            | some a ↦
                if not (payment_eq a.status PaymentStatus.capturing)
                  || not (truthy a.stripe_payment_intent_id)
                then none
                else some (id, or_else a.stripe_payment_intent_id "")
          ]
        ]
  ]

  unfoldable pub captured : Env → (attempt_id : ℕ) → Db → Result Db
  unfolding record_captured
  captured env attempt_id db = elim (get db.attempts attempt_id) [
    | none ↦ ok db
    | some a ↦ record_captured env.now (attempt_id, a) db
  ]

  -- The status is CANCELED or FAILED.
  unfoldable pub not_captured :
      Env → (attempt_id : ℕ) → (canceled : Bool) → (failure_code : Option String) → Db → Db
  unfolding record_not_captured
  not_captured env attempt_id canceled failure_code db = elim (get db.attempts attempt_id) [
    | none ↦ db
    | some a ↦
        record_not_captured env.now (attempt_id, a)
          (if canceled then PaymentStatus.canceled else PaymentStatus.failed) failure_code db
  ]
