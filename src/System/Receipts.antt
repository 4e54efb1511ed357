-- ===== src/System/Receipts.antt =====
-- What settled payments, Stripe's events and payouts do to the ledger and to the refunds.
use bling.Prelude.{
  ℕ, ◌≡◌, inl, inr, not, ◌&&◌, Option, some, arith, List, if◌then◌else◌, is_some, opt_eq,
  Bool-cases, Option-cases, subst, String, str_eq, or_else, refl, take, true, false, ◌∷◌, ◌∙◌, ◌||◌,
  [],
}
use bling.Prelude.Result.{ok, Result-cases}
use bling.Store.Interface.{Convex}
use bling.Store.Rows.{Row}
use bling.Store.Queries.{
  get, first, replace, patch, insert, get-insert, next_id, Table, get-first, collect,
}
use bling.Schema.Status.{CallStatus, PaymentStatus, call_eq, payment_eq, refund_eq, RefundStatus}
use bling.Schema.Docs.{Call, PaymentAttempt, PaymentRefund, PayoutRun, PayoutAccount}
use bling.Schema.State.{Env, Db}
use bling.Ledger.Operations.{
  Posts, done, one_posting, reverse_for_refund-Posts, Postings, adjust_for_dispute-Posts,
  append_postings,
}
use bling.Payments.{
  fail_pending_call, settle_captured_call, record_captured, record_not_captured, captured_attempt,
  call_for_attempt, show_is_live,
}
use bling.Payments.Attempts.{opt_str_eq}
use bling.Refunds.Progress.{rewrite}
use bling.System.{run}
use bling.System.Effects.{writes, asks, kept, MoneyStep, still, RefundsStep, adds, both}
use bling.Webhooks.{
  IntentArgs, RefundArgs, EventArgs, apply_intent, save_method, attempt_for_intent, record_outside,
  outside_refund, apply_refund, refund_for, known_refund, reported, is_older, refund_status,
  apply_dispute, write_dispute, apply_payout, apply_parts, apply, DisputeArgs, is_seen,
}
use bling.Payouts.{PayoutVars, minimum_cents, reserve_batch_size}
use bling.Payouts.Reserving.{ItemsKnown, reserve_each-ItemsKnown}
use bling.Payouts.Runs.{
  reserve_for, reserve, reserve_each, reserve_page, after_cursor, may_reserve, available_to,
  reservation_entry, reserved_item,
}
use bling.Prelude.Int.{pos, ltb_ℤ}

module _ ⦃c : Convex⦄ where
  fail_pending_call-MoneyStep :
      (now : ℕ) (call : Row Call) (db db' : Db)
      → fail_pending_call now call db ≡ ok db'
      → MoneyStep false db db'
  unfolding fail_pending_call patch
  fail_pending_call-MoneyStep now (id, k) db db' h = still db db' (ground arith) (ground arith)

  settle_captured_call-MoneyStep :
      (now : ℕ) (a : Row PaymentAttempt) (call : Row Call) (db db' : Db)
      → settle_captured_call now a call db ≡ ok db'
      → MoneyStep false db db'
  unfolding settle_captured_call fail_pending_call patch
  settle_captured_call-MoneyStep now a (id, k) db db' h = record {
    known = inl refl;
    posts = done (ground arith);
    refunds =
        elim (Bool-cases (
          not (call_eq k.status CallStatus.payment_pending && show_is_live k.show_id db)
          && not (is_some k.started_at)
          && not (show_is_live k.show_id db))) [
            | inl late ↦ asks now a id "show_ended_before_call_started" (ground arith)
            | inr live ↦ kept _ _ (ground arith)
          ];
  }

  pub record_captured-MoneyStep :
      (now id : ℕ) (a : PaymentAttempt) (db db' : Db)
      → record_captured now (id, a) db ≡ ok db'
      → MoneyStep false db db'
  unfolding record_captured call_for_attempt
  record_captured-MoneyStep now id a db db' h =
      elim (Option-cases (first (λ k. opt_eq k.payment_attempt_id id) db.calls)) [
        | inl free ↦ still db db' (ground arith) (ground arith)
        | inr (call, paid) ↦
            let before : Db = record db {
              attempts =
                  if payment_eq a.status PaymentStatus.captured
                  then db.attempts
                  else replace id (captured_attempt now a) db.attempts;
            } in
            let step =
              settle_captured_call-MoneyStep now (id, captured_attempt now a) call before db'
                (ground arith) in
            record { posts = step.posts; refunds = step.refunds; known = inl refl }
      ]

  apply_intent-MoneyStep :
      (env : Env) (type : String) (intent : IntentArgs) (db db' : Db)
      → apply_intent env type intent db ≡ ok db'
      → MoneyStep false db db'
  unfolding apply_intent save_method record_not_captured
  apply_intent-MoneyStep env type intent db db' h =
      elim (Option-cases (attempt_for_intent (some intent.id) db)) [
        | inl free ↦ still db db' (ground arith) (ground arith)
        | inr ((id, a), found) ↦ elim (Bool-cases (str_eq type "payment_intent.succeeded")) [
          | inr other ↦ still db db' (ground arith) (ground arith)
          | inl succeeded ↦ elim (Result-cases (record_captured env.now (id, a) db)) [
            | inl (x, failing) ↦ ground arith
            | inr (d, done_now) ↦
                let step = record_captured-MoneyStep env.now id a db d done_now in
                record {
                  known = inl refl;
                  posts = subst (Postings false db.ledger) (ground arith) step.posts;
                  refunds = subst (RefundsStep db.refunds) (ground arith) step.refunds;
                }
          ]
        ]
      ]

  record_outside-RefundsStep :
      (env : Env) (args : RefundArgs) (db : Db) (r : Row PaymentRefund) (t : Table PaymentRefund)
      → record_outside env args db ≡ some (r, t)
      → RefundsStep db.refunds t × (get t r.0 ≡ some r.1)
  unfolding record_outside
  record_outside-RefundsStep env args db r t h =
      elim (Option-cases (attempt_for_intent args.intent_id db)) [
        | inl free ↦ ground arith
        | inr (a, paid) ↦ elim (Option-cases (call_for_attempt a.0 db)) [
          | inl gone ↦ ground arith
          | inr (k, there) ↦ elim (Option-cases args.amount_cents) [
            | inl unknown ↦ ground arith
            | inr (amount, known) ↦
                let new = outside_refund env.now args a k.0 amount in
                (
                  adds new refl refl (ground arith),
                  ground (arith, get-insert new db.refunds (next_id db.refunds)),
                )
          ]
        ]
      ]

  get-known_refund :
      (args : RefundArgs) (t : Table PaymentRefund) (r : Row PaymentRefund)
      → known_refund args t ≡ some r
      → get t r.0 ≡ some r.1
  unfolding known_refund
  get-known_refund args t r h =
      elim (Option-cases (first (λ r. opt_str_eq r.stripe_refund_id (some args.id)) t)) [
        | inr (found, here) ↦
            (get-first (λ r. opt_str_eq r.stripe_refund_id (some args.id)) t r (ground arith)).0
        | inl none_here ↦
            (get-first
              (λ r.
                str_eq r.stripe_payment_intent_id (or_else args.intent_id "")
                && not (is_some r.stripe_refund_id))
              t r (ground arith)).0
      ]

  refund_for-RefundsStep :
      (env : Env) (args : RefundArgs) (db : Db) (r : Row PaymentRefund) (t : Table PaymentRefund)
      → refund_for env args db ≡ some (r, t)
      → RefundsStep db.refunds t × (get t r.0 ≡ some r.1)
  unfolding refund_for
  refund_for-RefundsStep env args db r t h = elim (Option-cases (known_refund args db.refunds)) [
    | inl outside ↦ record_outside-RefundsStep env args db r t (ground arith)
    | inr (known, found) ↦
        (kept _ _ (ground arith), ground (arith, get-known_refund args db.refunds known found))
  ]

  apply_refund-MoneyStep :
      (env : Env) (args : RefundArgs) (db : Db) → MoneyStep false db (apply_refund env args db)
  unfolding apply_refund
  apply_refund-MoneyStep env args db = elim (Option-cases (refund_for env args db)) [
    | inl unknown ↦ still db _ (ground arith) (ground arith)
    | inr (((id, r), t), found) ↦
        let (step, there) = refund_for-RefundsStep env args db (id, r) t found in
        elim (Bool-cases (is_older r.status (refund_status args.status))) [
          | inl older ↦ record {
            known = inl refl;
            posts = done (ground arith);
            refunds = subst (RefundsStep db.refunds) (ground arith) step;
          }
          | inr newer ↦ record {
            known = inl refl;
            posts =
                elim (Bool-cases (refund_eq (refund_status args.status) RefundStatus.succeeded)) [
                  | inl succeeded ↦ one_posting false _ _ (
                      subst (Posts false db.ledger) (ground arith) (
                        reverse_for_refund-Posts env.now (id, reported env.now args r) db.attempts
                          db.ledger))
                  | inr other ↦ done (ground arith)
                ];
            refunds = both t step (
                writes (
                  rewrite id r (reported env.now args r) there (refl, refl, λ final. ground arith)
                    (λ b. b) (ground arith)));
          }
        ]
  ]

  apply_dispute-MoneyStep :
      (env : Env) (args : DisputeArgs) (db : Db) → MoneyStep false db (apply_dispute env args db)
  unfolding apply_dispute
  apply_dispute-MoneyStep env args db = record {
    known = inl refl;
    posts =
        one_posting false _ _
          (adjust_for_dispute-Posts env.now (write_dispute args db).0 db.ledger);
    refunds = kept _ _ refl;
  }

  apply_parts-MoneyStep :
      (env : Env) (args : EventArgs) (db db' : Db)
      → apply_parts env args db ≡ ok db'
      → MoneyStep false db db'
  unfolding apply_parts apply_payout
  apply_parts-MoneyStep env args db db' h = elim (Option-cases args.intent) [
    | inr (intent, e) ↦ apply_intent-MoneyStep env args.event_type intent db db' (ground arith)
    | inl no_intent ↦ elim (Option-cases args.refund) [
      | inr (refund, e) ↦
          subst (MoneyStep false db) {y = db'} (ground arith) (apply_refund-MoneyStep env refund db)
      | inl no_refund ↦ elim (Option-cases args.dispute) [
        | inr (dispute, e) ↦
            subst (MoneyStep false db) {y = db'} (ground arith)
              (apply_dispute-MoneyStep env dispute db)
        | inl no_dispute ↦ still db db' (ground arith) (ground arith)
      ]
    ]
  ]

  pub apply-MoneyStep :
      (env : Env) (args : EventArgs) (db db' : Db)
      → apply env args db ≡ ok db'
      → MoneyStep false db db'
  unfolding apply
  apply-MoneyStep env args db db' h = elim (Bool-cases (is_seen args.event_id db)) [
    | inl again ↦ still db db' (ground arith) (ground arith)
    | inr new ↦
        let step =
          apply_parts-MoneyStep env args
            (record db {
              stripe_events =
                  insert
                    (record {
                      stripe_event_id = args.event_id;
                      event_type = args.event_type;
                      connected_account_id = args.connected_account_id;
                    })
                    db.stripe_events;
            })
            db' (ground arith) in
        record { posts = step.posts; refunds = step.refunds; known = inl refl }
  ]

  same_known :
      (db db' : Db)
      → db'.ledger ≡ db.ledger
      → db'.payouts.items ≡ db.payouts.items
      → ItemsKnown db
      → ItemsKnown db'
  same_known db db' l i h = λ j item_id e at_j key. ground (arith, l, i, h j item_id e, at_j, key)

  -- A reservation posts one entry.
  reserve_for-Postings :
      (now minimum run_id : ℕ) (run : PayoutRun) (account : PayoutAccount) (db : Db)
      → Postings true db.ledger (reserve_for now minimum run_id run account db).ledger
        × ((reserve_for now minimum run_id run account db).refunds ≡ db.refunds)
  unfolding reserve_for reserve
  reserve_for-Postings now minimum run_id run account db =
      elim (Bool-cases (
        not (str_eq account.transfers_status "active")
        || not (may_reserve run_id account.creator_id db.payouts.items)
        || ltb_ℤ (available_to now run.currency account db) (pos minimum))) [
          | inl passed_over ↦ (done (ground arith), ground arith)
          | inr reserved ↦ (
            one_posting true _ _ (
                inr (
                  reservation_entry now (next_id db.payouts.items) (
                      reserved_item now run_id run account
                        (available_to now run.currency account db)),
                  ground arith,
                  refl,
                )),
            ground arith,
          )
        ]

  reserve_each-Postings :
      (now minimum run_id : ℕ) (run : PayoutRun) (page : List (Row PayoutAccount)) (db : Db)
      → Postings true db.ledger (reserve_each now minimum run_id run page db).ledger
        × ((reserve_each now minimum run_id run page db).refunds ≡ db.refunds)
  unfolding reserve_each
  reserve_each-Postings now minimum run_id run [] db = (done refl, refl)
  reserve_each-Postings now minimum run_id run ((_, account) ∷ rest) db =
      let one = reserve_for-Postings now minimum run_id run account db in
      let others =
        reserve_each-Postings now minimum run_id run rest
          (reserve_for now minimum run_id run account db) in
      (append_postings true _ _ _ one.0 others.0, others.1 ∙ one.1)

  pub reserve_page-MoneyStep :
      (env : Env) (vars : PayoutVars) (run_id : ℕ) (cursor : Option ℕ) (db : Db)
      → MoneyStep true db (reserve_page env vars run_id cursor db)
  unfolding reserve_page
  reserve_page-MoneyStep env vars run_id cursor db =
      elim (Option-cases (get db.payouts.runs run_id)) [
        | inl gone ↦ record {
          posts = done (ground arith);
          refunds = kept _ _ (ground arith);
          known = inr (λ h.
              same_known db (reserve_page env vars run_id cursor db) (ground arith) (ground arith)
                h);
        }
        | inr (run, there) ↦
            let page =
              take reserve_batch_size
                (after_cursor cursor (collect (λ a. true) db.payouts.accounts)) in
            let all =
              reserve_each-Postings env.now (minimum_cents vars.minimum) run_id run page db in
            record {
              posts = subst (Postings true db.ledger) (ground arith) all.0;
              refunds = kept _ _ (ground (arith, all.1));
              known = inr (λ h.
                  same_known (reserve_each env.now (minimum_cents vars.minimum) run_id run page db)
                    (reserve_page env vars run_id cursor db) (ground arith) (ground arith)
                    (reserve_each-ItemsKnown env.now (minimum_cents vars.minimum) run_id run page db
                      h));
            }
      ]
