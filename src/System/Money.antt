-- ===== src/System/Money.antt =====
-- The ledger and the refunds under every mutation of `Op`.
use bling.Prelude.{
  ℕ, ◌≡◌, Bool, true, refl, inl, inr, false, Option, some, arith, List, Bool-cases, Option-cases,
  subst, String,
}
use bling.Prelude.Result.{ok}
use bling.Store.Interface.{Convex}
use bling.Store.Queries.{get}
use bling.Schema.Docs.{PaymentRefund}
use bling.Schema.State.{Env, Db}
use bling.Ledger.Operations.{
  Posts, IsSound, Postings-IsSound, one_posting, reverse_for_refund-Posts,
}
use bling.Calls.Selection.{create_call, select, select_random}
use bling.Payments.{record_not_captured}
use bling.Payments.Attempts.{prepare, attach_intent, mark_authorized, captured, not_captured}
use bling.Shows
use bling.Shows.Closing.{close_queue_batch}
use bling.Queue
use bling.Tiers
use bling.Signals
use bling.Payouts.Accounts
use bling.Payouts.Runs
use bling.Follows
use bling.Queue.{JoinArgs}
use bling.Presence
use bling.Refunds.{Outcome, claim, record_outcome, retry, recorded, is_final}
use bling.Refunds.Progress.{Rewrites, claim-Rewrites, record_outcome-Rewrites, retry-Rewrites}
use bling.System.{Op, run, serve, serve_induction}
use bling.System.Transits.{transition-Transits, expire-Transits, check_grace-Transits, end-Ends}
use bling.System.Effects.{
  writes, AreRefunds, RefundsStep-AreRefunds, MoneyStep, still, Transits-MoneyStep, Ends-MoneyStep,
}
use bling.System.Receipts.{record_captured-MoneyStep, apply-MoneyStep, reserve_page-MoneyStep}
use bling.Payouts.{claim_transfer, mark_paid, retry_transfer}

module _ ⦃c : Convex⦄ where
  captured-MoneyStep :
      (env : Env) (id : ℕ) (db db' : Db) → captured env id db ≡ ok db' → MoneyStep false db db'
  unfolding captured
  captured-MoneyStep env id db db' h = elim (Option-cases (get db.attempts id)) [
    | inl gone ↦ still db db' (ground arith) (ground arith)
    | inr (a, there) ↦ record_captured-MoneyStep env.now id a db db' (ground arith)
  ]

  record_outcome-Posts :
      (env : Env) (id : ℕ) (stripe : String) (outcome : Outcome) (code : Option String) (db : Db)
      → Posts false db.ledger (record_outcome env id stripe outcome code db).ledger
  unfolding record_outcome
  record_outcome-Posts env id stripe outcome code db = elim (Option-cases (get db.refunds id)) [
    | inl gone ↦ inl (ground arith)
    | inr (r, there) ↦ elim (Bool-cases (is_final r.status)) [
      | inl final ↦ inl (ground arith)
      | inr open_now ↦ by_outcome outcome r there open_now
    ]
  ]
    where
      by_outcome :
          (o : Outcome) (r : PaymentRefund)
          → get db.refunds id ≡ some r
          → is_final r.status ≡ false
          → Posts false db.ledger (record_outcome env id stripe o code db).ledger
      by_outcome Outcome.succeeded r there open_now = subst (Posts false db.ledger) (ground arith) (
          reverse_for_refund-Posts env.now (id, recorded env.now stripe Outcome.succeeded code r)
            db.attempts db.ledger)
      by_outcome Outcome.failed r there open_now = inl (ground arith)
      by_outcome Outcome.pending r there open_now = inl (ground arith)

  claim-Posts : (env : Env) (id : ℕ) (db : Db) → Posts false db.ledger (claim env id db).1.ledger
  unfolding claim
  claim-Posts env id db = inl (ground arith)

  retry-Posts :
      (env : Env) (id : ℕ) (code : String) (db : Db)
      → Posts false db.ledger (retry env id code db).ledger
  unfolding retry
  retry-Posts env id code db = inl (ground arith)

  follow_money :
      (db d d' : Db)
      → d ≡ d'
      → Posts false db.ledger d.ledger
      → Rewrites db.refunds d.refunds
      → MoneyStep false db d'
  follow_money db d d' e l r =
      subst (MoneyStep false db) e
        (record { posts = one_posting false _ _ l; refunds = writes r; known = inl refl })

  -- The mutation that posts reservations of payouts.
  abbrev pub is_reserving : Op → Bool
  is_reserving (Op.reserve_payouts _ _ _) = true
  is_reserving _ = false

  pub run-MoneyStep :
      (env : Env) (op : Op) (db db' : Db)
      → run env op db ≡ ok db'
      → MoneyStep (is_reserving op) db db'
  unfolding run Shows.create Shows.schedule Shows.start Shows.go_live close_queue_batch Queue.join
      Queue.join_queue Queue.admit Queue.write_entry Queue.leave prepare attach_intent
      mark_authorized not_captured record_not_captured select select_random create_call
      Presence.heartbeat Presence.leave Presence.check_seen_at Presence.mark_disconnected
      Tiers.replace_tiers Signals.send Signals.ack Signals.purge Accounts.save_account Runs.run_due
      Runs.finish claim_transfer mark_paid retry_transfer Follows.set_follow Follows.write_follow
      Follows.adjust_shard Follows.project
  run-MoneyStep env (Op.end_show s) db db' h = Ends-MoneyStep env db db' (end-Ends env s db db' h)
  run-MoneyStep env (Op.capture_payment a) db db' h = captured-MoneyStep env a db db' h
  run-MoneyStep env (Op.move_call k status) db db' h =
      Transits-MoneyStep env db db' (transition-Transits env k status db db' h)
  run-MoneyStep env (Op.expire_call k) db db' h =
      Transits-MoneyStep env db db' (expire-Transits env k db db' h)
  run-MoneyStep env (Op.check_grace k role at) db db' h =
      Transits-MoneyStep env db db' (check_grace-Transits env k role at db db' h)
  run-MoneyStep env (Op.claim_refund r) db db' h =
      follow_money db (claim env r db).1 db' (ground arith) (claim-Posts env r db)
        (claim-Rewrites env r db)
  run-MoneyStep env (Op.record_refund r stripe outcome code) db db' h =
      follow_money db (record_outcome env r stripe outcome code db) db' (ground arith)
        (record_outcome-Posts env r stripe outcome code db)
        (record_outcome-Rewrites env r stripe outcome code db)
  run-MoneyStep env (Op.retry_refund r code) db db' h =
      follow_money db (retry env r code db) db' (ground arith) (retry-Posts env r code db)
        (retry-Rewrites env r code db)
  run-MoneyStep env Op.create_show db db' h = still db db' (ground arith) (ground arith)
  run-MoneyStep env (Op.schedule_show s at) db db' h = still db db' (ground arith) (ground arith)
  run-MoneyStep env (Op.start_show s) db db' h = still db db' (ground arith) (ground arith)
  run-MoneyStep env (Op.close_queue s) db db' h = still db db' (ground arith) (ground arith)
  run-MoneyStep env (Op.join_queue args payment) db db' h =
      still db db' (ground arith) (ground arith)
  run-MoneyStep env (Op.leave_queue s) db db' h = still db db' (ground arith) (ground arith)
  run-MoneyStep env (Op.prepare_payment args) db db' h = still db db' (ground arith) (ground arith)
  run-MoneyStep env (Op.attach_payment a intent) db db' h =
      still db db' (ground arith) (ground arith)
  run-MoneyStep env (Op.authorize_payment a) db db' h = still db db' (ground arith) (ground arith)
  run-MoneyStep env (Op.drop_payment a canceled code) db db' h =
      still db db' (ground arith) (ground arith)
  run-MoneyStep env (Op.select_caller s e) db db' h = still db db' (ground arith) (ground arith)
  run-MoneyStep env (Op.select_any draw s) db db' h = still db db' (ground arith) (ground arith)
  run-MoneyStep env (Op.send_heartbeat k) db db' h = still db db' (ground arith) (ground arith)
  run-MoneyStep env (Op.leave_call k) db db' h = still db db' (ground arith) (ground arith)
  run-MoneyStep env (Op.check_seen k role at) db db' h = still db db' (ground arith) (ground arith)
  run-MoneyStep env (Op.replace_tiers lower s tiers) db db' h =
      still db db' (ground arith) (ground arith)
  run-MoneyStep env (Op.send_signals runtime k signals) db db' h =
      still db db' (ground arith) (ground arith)
  run-MoneyStep env (Op.ack_signals k ids) db db' h = still db db' (ground arith) (ground arith)
  run-MoneyStep env (Op.purge_signals k) db db' h = still db db' (ground arith) (ground arith)
  run-MoneyStep env (Op.save_account account) db db' h = still db db' (ground arith) (ground arith)
  run-MoneyStep env (Op.open_payouts vars) db db' h = still db db' (ground arith) (ground arith)
  run-MoneyStep env (Op.claim_payout i) db db' h = still db db' (ground arith) (ground arith)
  run-MoneyStep env (Op.pay_payout i transfer) db db' h = still db db' (ground arith) (ground arith)
  run-MoneyStep env (Op.retry_payout i code) db db' h = still db db' (ground arith) (ground arith)
  run-MoneyStep env Op.finish_payouts db db' h = still db db' (ground arith) (ground arith)
  run-MoneyStep env (Op.set_follow normal start name follow) db db' h =
      still db db' (ground arith) (ground arith)
  run-MoneyStep env (Op.project_follows creator) db db' h =
      still db db' (ground arith) (ground arith)
  run-MoneyStep env (Op.stripe_event args) db db' h = apply-MoneyStep env args db db' h
  run-MoneyStep env (Op.reserve_payouts vars r cursor) db db' h =
      subst (MoneyStep true db) {y = db'} (ground arith)
        (reserve_page-MoneyStep env vars r cursor db)

  -- Whatever mutations of `Op` run, with any arguments, by any users and in any order, errors included:
  -- from a ledger whose running totals stand for its entries under distinct keys, the ledger after them is
  -- again such a ledger.
  pub serve-ledger :
      (db : Db) (history : List (Env × Op)) → IsSound db.ledger → IsSound (serve db history).ledger
  serve-ledger db history h =
      serve_induction (λ (d : Db). IsSound d.ledger)
        (λ env op d d' e.
          Postings-IsSound (is_reserving op) d.ledger d'.ledger (run-MoneyStep env op d d' e).posts)
        db history h

  -- Whatever mutations of `Op` run, with any arguments, by any users and in any order, errors included:
  -- from a state in which Bling asked for two refunds of no payment and attempted none more often than the
  -- maximum, the state after them is again such a state.
  pub serve-AreRefunds :
      (db : Db) (history : List (Env × Op))
      → AreRefunds db.refunds
      → AreRefunds (serve db history).refunds
  serve-AreRefunds db history h =
      serve_induction (λ (d : Db). AreRefunds d.refunds)
        (λ env op d d' e.
          RefundsStep-AreRefunds d.refunds d'.refunds (run-MoneyStep env op d d' e).refunds)
        db history h
