-- ===== src/System/Calls.antt =====
-- The calls under every mutation of `Op`.
use bling.Prelude.{ℕ, ◌≡◌, inl, inr, Option, arith, List, subst}
use bling.Prelude.Result.{ok, Result-cases}
use bling.Store.Interface.{Convex}
use bling.Store.Queries.{Table}
use bling.Schema.Docs.{Call, Show}
use bling.Schema.State.{Env, Db}
use bling.Shows
use bling.Shows.Closing.{close_queue_batch}
use bling.Accounts.{require_creator_id, show_for_creator}
use bling.Calls.Selection.{select, select_random}
use bling.Queue
use bling.Tiers
use bling.Signals
use bling.Payouts.Accounts
use bling.Payouts.Runs
use bling.Follows
use bling.Queue.{JoinArgs}
use bling.Payments.Attempts.{not_captured, prepare, attach_intent, mark_authorized}
use bling.Presence
use bling.Refunds.{claim, record_outcome, retry}
use bling.System.{Op, run, serve, serve_induction}
use bling.System.Steps.{
  CallsStep, same, IsSound, CallsStep-IsSound, select-CallsStep, select_random-CallsStep,
}
use bling.System.Transits.{
  Transits-CallsStep, transition-Transits, expire-Transits, check_grace-Transits, end-Ends,
  Ends-CallsStep,
}
use bling.System.Settlement.{captured-CallsStep, not_captured-CallsStep}
use bling.System.Events.{apply-CallsStep, reserve_page-outside}
use bling.Payouts.{PayoutVars, claim_transfer, mark_paid, retry_transfer}

module _ ⦃c : Convex⦄ where
  -- The mutations that leave the calls alone.
  go_live-calls :
      (env : Env) (sid creator_id : ℕ) (s : Show) (db db' : Db)
      → Shows.go_live env sid creator_id s db ≡ ok db'
      → db'.calls ≡ db.calls
  unfolding Shows.go_live
  go_live-calls env sid creator_id s db db' h = ground arith

  start-calls :
      (env : Env) (sid : ℕ) (db db' : Db) → Shows.start env sid db ≡ ok db' → db'.calls ≡ db.calls
  unfolding Shows.start
  start-calls env sid db db' h = elim (Result-cases (require_creator_id env db)) [
    | inl (x, failing) ↦ ground arith
    | inr (creator_id, signed_in) ↦ elim (Result-cases (show_for_creator sid creator_id db)) [
      | inl (x, failing) ↦ ground arith
      | inr (s, owned) ↦ ground (arith, go_live-calls env sid creator_id s db db')
    ]
  ]

  join-calls :
      (env : Env) (args : JoinArgs) (payment : Option ℕ) (db : Db) (r : ℕ × Db)
      → Queue.join env args payment db ≡ ok r
      → r.1.calls ≡ db.calls
  unfolding Queue.join Queue.join_queue Queue.admit Queue.write_entry
  join-calls env args payment db r h = ground arith

  follow_calls : (t : Table Call) (d d' : Db) → CallsStep t d.calls → d ≡ d' → CallsStep t d'.calls
  follow_calls t d d' s e = subst (λ (x : Db). CallsStep t x.calls) e s

  reserved :
      (env : Env) (vars : PayoutVars) (run_id : ℕ) (cursor : Option ℕ) (db db' : Db)
      → run env (Op.reserve_payouts vars run_id cursor) db ≡ ok db'
      → db'.calls ≡ db.calls
  unfolding run
  reserved env vars run_id cursor db db' h =
      ground (arith, (reserve_page-outside env vars run_id cursor db).0)

  run-CallsStep :
      (env : Env) (op : Op) (db db' : Db) → run env op db ≡ ok db' → CallsStep db.calls db'.calls
  unfolding run Shows.create Shows.schedule close_queue_batch Queue.leave prepare attach_intent
      mark_authorized Presence.heartbeat Presence.leave Presence.check_seen_at
      Presence.mark_disconnected claim record_outcome retry Tiers.replace_tiers Signals.send
      Signals.ack Signals.purge Accounts.save_account Runs.run_due Runs.finish claim_transfer
      mark_paid retry_transfer Follows.set_follow Follows.write_follow Follows.adjust_shard
      Follows.project
  run-CallsStep env Op.create_show db db' h = same (ground arith)
  run-CallsStep env (Op.schedule_show s at) db db' h = same (ground arith)
  run-CallsStep env (Op.start_show s) db db' h = same (start-calls env s db db' h)
  run-CallsStep env (Op.end_show s) db db' h = Ends-CallsStep env db db' (end-Ends env s db db' h)
  run-CallsStep env (Op.close_queue s) db db' h = same (ground arith)
  run-CallsStep env (Op.join_queue args payment) db db' h =
      elim (Result-cases (Queue.join env args payment db)) [
        | inl (x, failing) ↦ ground arith
        | inr (r, joined) ↦ same (ground (arith, join-calls env args payment db r joined))
      ]
  run-CallsStep env (Op.leave_queue s) db db' h = same (ground arith)
  run-CallsStep env (Op.prepare_payment args) db db' h = same (ground arith)
  run-CallsStep env (Op.attach_payment a intent) db db' h = same (ground arith)
  run-CallsStep env (Op.authorize_payment a) db db' h = same (ground arith)
  run-CallsStep env (Op.capture_payment a) db db' h = captured-CallsStep env a db db' h
  run-CallsStep env (Op.drop_payment a canceled code) db db' h =
      follow_calls db.calls (not_captured env a canceled code db) db'
        (not_captured-CallsStep env a canceled code db) (ground arith)
  run-CallsStep env (Op.select_caller s e) db db' h = elim (Result-cases (select env s e db)) [
    | inl (x, failing) ↦ ground arith
    | inr (r, selected) ↦
        follow_calls db.calls r.1 db' (select-CallsStep env s e db r selected) (ground arith)
  ]
  run-CallsStep env (Op.select_any draw s) db db' h =
      elim (Result-cases (select_random env draw s db)) [
        | inl (x, failing) ↦ ground arith
        | inr (r, selected) ↦
            follow_calls db.calls r.1 db' (select_random-CallsStep env draw s db r selected)
              (ground arith)
      ]
  run-CallsStep env (Op.move_call k status) db db' h =
      Transits-CallsStep env db db' (transition-Transits env k status db db' h)
  run-CallsStep env (Op.expire_call k) db db' h =
      Transits-CallsStep env db db' (expire-Transits env k db db' h)
  run-CallsStep env (Op.send_heartbeat k) db db' h = same (ground arith)
  run-CallsStep env (Op.leave_call k) db db' h = same (ground arith)
  run-CallsStep env (Op.check_seen k role at) db db' h = same (ground arith)
  run-CallsStep env (Op.check_grace k role at) db db' h =
      Transits-CallsStep env db db' (check_grace-Transits env k role at db db' h)
  run-CallsStep env (Op.claim_refund r) db db' h = same (ground arith)
  run-CallsStep env (Op.record_refund r stripe outcome code) db db' h = same (ground arith)
  run-CallsStep env (Op.retry_refund r code) db db' h = same (ground arith)
  run-CallsStep env (Op.replace_tiers lower s tiers) db db' h = same (ground arith)
  run-CallsStep env (Op.send_signals runtime k signals) db db' h = same (ground arith)
  run-CallsStep env (Op.ack_signals k ids) db db' h = same (ground arith)
  run-CallsStep env (Op.purge_signals k) db db' h = same (ground arith)
  run-CallsStep env (Op.save_account account) db db' h = same (ground arith)
  run-CallsStep env (Op.open_payouts vars) db db' h = same (ground arith)
  run-CallsStep env (Op.claim_payout i) db db' h = same (ground arith)
  run-CallsStep env (Op.pay_payout i transfer) db db' h = same (ground arith)
  run-CallsStep env (Op.retry_payout i code) db db' h = same (ground arith)
  run-CallsStep env Op.finish_payouts db db' h = same (ground arith)
  run-CallsStep env (Op.set_follow normal start name follow) db db' h = same (ground arith)
  run-CallsStep env (Op.project_follows creator) db db' h = same (ground arith)
  run-CallsStep env (Op.stripe_event args) db db' h = apply-CallsStep env args db db' h
  run-CallsStep env (Op.reserve_payouts vars r cursor) db db' h =
      same (reserved env vars r cursor db db' h)

  -- Whatever mutations of `Op` run, with any arguments, by any users and in any order, errors included:
  -- from a state in which no show has two active calls and the times of every call agree with its state,
  -- the state after them is again such a state.
  pub serve-IsSound :
      (db : Db) (history : List (Env × Op)) → IsSound db.calls → IsSound (serve db history).calls
  serve-IsSound db history h =
      serve_induction (λ d. IsSound d.calls)
        (λ env op d d' e. CallsStep-IsSound d.calls d'.calls (run-CallsStep env op d d' e)) db
        history h
