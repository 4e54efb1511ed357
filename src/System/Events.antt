-- ===== src/System/Events.antt =====
-- What Stripe's events do to the calls and the shows (frontend/convex/webhooks.ts, `apply`).
use bling.Prelude.{
  ℕ, ◌≡◌, inl, inr, refl, true, Option, some, arith, String, str_eq, if◌then◌else◌, Bool-cases,
  Option-cases, subst, List, [], ◌∷◌, take,
}
use bling.Prelude.Result.{ok, Result-cases}
use bling.Store.Interface.{Convex}
use bling.Store.Rows.{Row}
use bling.Store.Queries.{get, insert, patch, collect}
use bling.Schema.Status.{PaymentStatus}
use bling.Schema.Docs.{PaymentAttempt, PayoutRun, PayoutAccount}
use bling.Schema.State.{Env, Db}
use bling.Payments.{record_captured, record_not_captured, settle_captured_call, fail_pending_call}
use bling.Webhooks.{
  IntentArgs, EventArgs, apply_intent, apply_parts, apply, attempt_for_intent, save_method,
  apply_refund, apply_dispute, apply_payout, is_seen,
}
use bling.System.Steps.{CallsStep, same}
use bling.System.Settlement.{record_captured-CallsStep, record_not_captured-CallsStep}
use bling.Payouts.Runs.{reserve_each, reserve_for, reserve, reserve_page, after_cursor}
use bling.Payouts.{PayoutVars, minimum_cents, reserve_batch_size}

module _ ⦃c : Convex⦄ where
  apply_intent-CallsStep :
      (env : Env) (type : String) (intent : IntentArgs) (db db' : Db)
      → apply_intent env type intent db ≡ ok db'
      → CallsStep db.calls db'.calls
  unfolding apply_intent save_method
  apply_intent-CallsStep env type intent db db' h =
      elim (Option-cases (attempt_for_intent (some intent.id) db)) [
        | inl free ↦ same (ground arith)
        | inr ((id, a), found) ↦ elim (Bool-cases (str_eq type "payment_intent.succeeded")) [
          | inr other ↦ subst (CallsStep db.calls) (ground arith) (
              record_not_captured-CallsStep env.now id a
                (if str_eq type "payment_intent.canceled"
                  then PaymentStatus.canceled
                  else PaymentStatus.failed)
                intent.failure_code db)
          | inl succeeded ↦ elim (Result-cases (record_captured env.now (id, a) db)) [
            | inl (x, failing) ↦ ground arith
            | inr (d, recorded) ↦
                subst (CallsStep db.calls) (ground arith)
                  (record_captured-CallsStep env.now id a db d recorded)
          ]
        ]
      ]

  pub apply-CallsStep :
      (env : Env) (args : EventArgs) (db db' : Db)
      → apply env args db ≡ ok db'
      → CallsStep db.calls db'.calls
  unfolding apply apply_parts apply_refund apply_dispute apply_payout
  apply-CallsStep env args db db' h = elim (Bool-cases (is_seen args.event_id db)) [
    | inl again ↦ same (ground arith)
    | inr new ↦ elim (Option-cases args.intent) [
      | inl other ↦ same (ground arith)
      | inr (intent, e) ↦
          apply_intent-CallsStep env args.event_type intent
            (record db {
              stripe_events =
                  insert
                    (record {
                      stripe_event_id = args.event_id;
                      event_type = args.event_type;
                      connected_account_id = args.connected_account_id;
                    })
                    db.stripe_events;
            })
            db' (ground arith)
    ]
  ]

  record_captured-shows :
      (now : ℕ) (attempt : Row PaymentAttempt) (db db' : Db)
      → record_captured now attempt db ≡ ok db'
      → db'.shows ≡ db.shows
  unfolding record_captured settle_captured_call fail_pending_call patch
  record_captured-shows now (id, a) db db' h = ground arith

  apply_intent-shows :
      (env : Env) (type : String) (intent : IntentArgs) (db db' : Db)
      → apply_intent env type intent db ≡ ok db'
      → db'.shows ≡ db.shows
  unfolding apply_intent save_method record_not_captured
  apply_intent-shows env type intent db db' h =
      elim (Option-cases (attempt_for_intent (some intent.id) db)) [
        | inl free ↦ ground arith
        | inr (a, found) ↦ elim (Result-cases (record_captured env.now a db)) [
          | inl (x, failing) ↦ ground arith
          | inr (d, recorded) ↦ ground (arith, record_captured-shows env.now a db d recorded)
        ]
      ]

  pub apply-shows :
      (env : Env) (args : EventArgs) (db db' : Db)
      → apply env args db ≡ ok db'
      → db'.shows ≡ db.shows
  unfolding apply apply_parts apply_refund apply_dispute apply_payout
  apply-shows env args db db' h = elim (Bool-cases (is_seen args.event_id db)) [
    | inl again ↦ ground arith
    | inr new ↦ elim (Option-cases args.intent) [
      | inl other ↦ ground arith
      | inr (intent, e) ↦
          apply_intent-shows env args.event_type intent
            (record db {
              stripe_events =
                  insert
                    (record {
                      stripe_event_id = args.event_id;
                      event_type = args.event_type;
                      connected_account_id = args.connected_account_id;
                    })
                    db.stripe_events;
            })
            db' (ground arith)
    ]
  ]

  -- The reservation of payouts writes items, runs and the ledger only.
  reserve_each-outside :
      (now minimum run_id : ℕ) (run : PayoutRun) (page : List (Row PayoutAccount)) (db : Db)
      → let db' = reserve_each now minimum run_id run page db in
        (db'.calls ≡ db.calls)
        × (db'.shows ≡ db.shows)
        × (db'.entries ≡ db.entries)
        × (db'.tiers ≡ db.tiers)
        × (db'.follows ≡ db.follows)
        × (db'.stripe_events ≡ db.stripe_events)
  unfolding reserve_each reserve_for reserve
  reserve_each-outside now minimum run_id run [] db = (refl, refl, refl, refl, refl, refl)
  reserve_each-outside now minimum run_id run ((_, account) ∷ rest) db =
      let others =
        reserve_each-outside now minimum run_id run rest
          (reserve_for now minimum run_id run account db) in
      (
        ground (arith, others.0),
        ground (arith, others.1),
        ground (arith, others.2),
        ground (arith, others.3),
        ground (arith, others.4),
        ground (arith, others.5),
      )

  pub reserve_page-outside :
      (env : Env) (vars : PayoutVars) (run_id : ℕ) (cursor : Option ℕ) (db : Db)
      → let db' = reserve_page env vars run_id cursor db in
        (db'.calls ≡ db.calls)
        × (db'.shows ≡ db.shows)
        × (db'.entries ≡ db.entries)
        × (db'.tiers ≡ db.tiers)
        × (db'.follows ≡ db.follows)
        × (db'.stripe_events ≡ db.stripe_events)
  unfolding reserve_page
  reserve_page-outside env vars run_id cursor db =
      elim (Option-cases (get db.payouts.runs run_id)) [
        | inl gone ↦
            (ground arith, ground arith, ground arith, ground arith, ground arith, ground arith)
        | inr (run, there) ↦
            let page =
              take reserve_batch_size
                (after_cursor cursor (collect (λ a. true) db.payouts.accounts)) in
            let all =
              reserve_each-outside env.now (minimum_cents vars.minimum) run_id run page db in
            (
              ground (arith, all.0),
              ground (arith, all.1),
              ground (arith, all.2),
              ground (arith, all.3),
              ground (arith, all.4),
              ground (arith, all.5),
            )
      ]
