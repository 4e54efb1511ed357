-- ===== src/System/Hotlines.antt =====
-- The shows under every mutation of `Op`.
use bling.Prelude.{
  ℕ, ◌≡◌, inl, inr, refl, Option, none, some, arith, List, Bool-cases, Option-cases, subst, sym, ap,
}
use bling.Prelude.Result.{ok, Result-cases}
use bling.Accounts.{require_creator_id, show_for_creator}
use bling.Store.Interface.{Convex}
use bling.Store.Queries.{get, replace, patch}
use bling.Schema.Status.{ShowStatus, show_eq}
use bling.Schema.Docs.{Show}
use bling.Schema.State.{Env, Db}
use bling.Calls.Transitions.{apply_transition-cases}
use bling.Calls.Selection.{create_call, select, select_random}
use bling.Payments.{fail_pending_call, settle_captured_call, record_captured, record_not_captured}
use bling.Payments.Attempts.{prepare, attach_intent, mark_authorized, captured, not_captured}
use bling.Shows
use bling.Shows.Closing.{close_queue_batch}
use bling.Shows.Lifecycle.{
  OneLive, OneLive-quiet, OneLive-insert, start-OneLive, show_for_creator-get,
}
use bling.Social.{on_show_ended}
use bling.Queue
use bling.Tiers
use bling.Signals
use bling.Payouts.Accounts
use bling.Payouts.Runs
use bling.Follows
use bling.Presence
use bling.Refunds.{claim, record_outcome, retry}
use bling.System.{Op, run, serve, serve_induction}
use bling.System.Transits.{
  Transits, stay, move, transition-Transits, expire-Transits, check_grace-Transits,
  end_open_call-Transits,
}
use bling.System.Events.{apply-shows, reserve_page-outside}
use bling.Payouts.{claim_transfer, mark_paid, retry_transfer}

module _ ⦃c : Convex⦄ where
  Transits-shows : (env : Env) (db db' : Db) → Transits env db db' → db'.shows ≡ db.shows
  Transits-shows env db db' (stay e) = ap (λ (d : Db). d.shows) e
  Transits-shows env db db' (move id call target at_id h) =
      elim (apply_transition-cases env id call target db h) [
        | inl (_, e) ↦ ap (λ (d : Db). d.shows) e
        | inr (_, _, _, _, shows, _) ↦ shows
      ]

  close_show-OneLive :
      (env : Env) (sid : ℕ) (s : Show) (db db' : Db)
      → get db.shows sid ≡ some s
      → Shows.close_show env sid s db ≡ ok db'
      → OneLive db.shows
      → OneLive db'.shows
  unfolding Shows.close_show
  close_show-OneLive env sid s db db' at_id h one =
      let ended : Show = record s { status = ShowStatus.ended; ended_at = some env.now } in
      let before : Db = record db {
        shows = replace sid ended db.shows;
        social = on_show_ended (sid, s) db.social;
      } in
      elim (Result-cases (Shows.end_open_call env sid before)) [
        | inl (x, failing) ↦ ground arith
        | inr (d, closed) ↦
            let kept =
              Transits-shows env before d (end_open_call-Transits env sid before d closed) in
            subst OneLive (ground (arith, kept)) (OneLive-quiet sid ended s db.shows at_id refl one)
      ]

  end-OneLive :
      (env : Env) (sid : ℕ) (db db' : Db)
      → Shows.end env sid db ≡ ok db'
      → OneLive db.shows
      → OneLive db'.shows
  unfolding Shows.end
  end-OneLive env sid db db' h one = elim (Result-cases (require_creator_id env db)) [
    | inl (x, failing) ↦ ground arith
    | inr (creator_id, signed_in) ↦ elim (Result-cases (show_for_creator sid creator_id db)) [
      | inl (x, failing) ↦ ground arith
      | inr (s, owned) ↦ elim (Bool-cases (show_eq s.status ShowStatus.ended)) [
        | inl again ↦ subst (λ (d : Db). OneLive d.shows) {x = db} {y = db'} (ground arith) one
        | inr open_now ↦
            close_show-OneLive env sid s db db' (show_for_creator-get sid creator_id db s owned).0
              (ground arith) one
      ]
    ]
  ]

  schedule-OneLive :
      (env : Env) (sid : ℕ) (at : Option ℕ) (db db' : Db)
      → Shows.schedule env sid at db ≡ ok db'
      → OneLive db.shows
      → OneLive db'.shows
  unfolding Shows.schedule
  schedule-OneLive env sid at db db' h one = elim (Result-cases (require_creator_id env db)) [
    | inl (x, failing) ↦ ground arith
    | inr (creator_id, signed_in) ↦ elim (Result-cases (show_for_creator sid creator_id db)) [
      | inl (x, failing) ↦ ground arith
      | inr (s, owned) ↦ subst OneLive (ground arith) (
          OneLive-quiet sid (record s { scheduled_for = at }) s db.shows
            (show_for_creator-get sid creator_id db s owned).0 (ground arith) one)
    ]
  ]

  create-OneLive :
      (env : Env) (db : Db) (r : ℕ × Db)
      → Shows.create env db ≡ ok r
      → OneLive db.shows
      → OneLive r.1.shows
  unfolding Shows.create
  create-OneLive env db r h one = elim (Result-cases (require_creator_id env db)) [
    | inl (x, failing) ↦ ground arith
    | inr (creator_id, signed_in) ↦
        let fresh : Show = record {
          creator_id = creator_id;
          status = ShowStatus.created;
          started_at = none;
          ended_at = none;
          scheduled_for = none;
        } in
        subst OneLive (ground arith) (OneLive-insert fresh db.shows refl one)
  ]

  captured-shows :
      (env : Env) (id : ℕ) (db db' : Db) → captured env id db ≡ ok db' → db'.shows ≡ db.shows
  unfolding captured record_captured settle_captured_call fail_pending_call patch
  captured-shows env id db db' h = elim (Option-cases (get db.attempts id)) [
    | inl gone ↦ ground arith
    | inr (a, there) ↦ ground arith
  ]

  still : (db db' : Db) → db'.shows ≡ db.shows → OneLive db.shows → OneLive db'.shows
  still db db' e one = subst OneLive (sym e) one

  run-OneLive :
      (env : Env) (op : Op) (db db' : Db)
      → run env op db ≡ ok db'
      → OneLive db.shows
      → OneLive db'.shows
  unfolding run close_queue_batch Queue.join Queue.join_queue Queue.admit Queue.write_entry
      Queue.leave prepare attach_intent mark_authorized not_captured record_not_captured select
      select_random create_call Presence.heartbeat Presence.leave Presence.check_seen_at
      Presence.mark_disconnected claim record_outcome retry Tiers.replace_tiers Signals.send
      Signals.ack Signals.purge Accounts.save_account Runs.run_due Runs.finish claim_transfer
      mark_paid retry_transfer Follows.set_follow Follows.write_follow Follows.adjust_shard
      Follows.project
  run-OneLive env Op.create_show db db' h one = elim (Result-cases (Shows.create env db)) [
    | inl (x, failing) ↦ ground arith
    | inr (r, made) ↦
        subst (λ (d : Db). OneLive d.shows) {x = r.1} {y = db'} (ground arith)
          (create-OneLive env db r made one)
  ]
  run-OneLive env (Op.schedule_show s at) db db' h one = schedule-OneLive env s at db db' h one
  run-OneLive env (Op.start_show s) db db' h one = start-OneLive env s db db' h one
  run-OneLive env (Op.end_show s) db db' h one = end-OneLive env s db db' h one
  run-OneLive env (Op.move_call k status) db db' h one =
      still db db' (Transits-shows env db db' (transition-Transits env k status db db' h)) one
  run-OneLive env (Op.expire_call k) db db' h one =
      still db db' (Transits-shows env db db' (expire-Transits env k db db' h)) one
  run-OneLive env (Op.check_grace k role at) db db' h one =
      still db db' (Transits-shows env db db' (check_grace-Transits env k role at db db' h)) one
  run-OneLive env (Op.capture_payment a) db db' h one =
      still db db' (captured-shows env a db db' h) one
  run-OneLive env (Op.close_queue s) db db' h one = still db db' (ground arith) one
  run-OneLive env (Op.join_queue args payment) db db' h one = still db db' (ground arith) one
  run-OneLive env (Op.leave_queue s) db db' h one = still db db' (ground arith) one
  run-OneLive env (Op.prepare_payment args) db db' h one = still db db' (ground arith) one
  run-OneLive env (Op.attach_payment a intent) db db' h one = still db db' (ground arith) one
  run-OneLive env (Op.authorize_payment a) db db' h one = still db db' (ground arith) one
  run-OneLive env (Op.drop_payment a canceled code) db db' h one = still db db' (ground arith) one
  run-OneLive env (Op.select_caller s e) db db' h one = still db db' (ground arith) one
  run-OneLive env (Op.select_any draw s) db db' h one = still db db' (ground arith) one
  run-OneLive env (Op.send_heartbeat k) db db' h one = still db db' (ground arith) one
  run-OneLive env (Op.leave_call k) db db' h one = still db db' (ground arith) one
  run-OneLive env (Op.check_seen k role at) db db' h one = still db db' (ground arith) one
  run-OneLive env (Op.claim_refund r) db db' h one = still db db' (ground arith) one
  run-OneLive env (Op.record_refund r stripe outcome code) db db' h one =
      still db db' (ground arith) one
  run-OneLive env (Op.retry_refund r code) db db' h one = still db db' (ground arith) one
  run-OneLive env (Op.replace_tiers lower s tiers) db db' h one = still db db' (ground arith) one
  run-OneLive env (Op.send_signals runtime k signals) db db' h one = still db db' (ground arith) one
  run-OneLive env (Op.ack_signals k ids) db db' h one = still db db' (ground arith) one
  run-OneLive env (Op.purge_signals k) db db' h one = still db db' (ground arith) one
  run-OneLive env (Op.save_account account) db db' h one = still db db' (ground arith) one
  run-OneLive env (Op.open_payouts vars) db db' h one = still db db' (ground arith) one
  run-OneLive env (Op.claim_payout i) db db' h one = still db db' (ground arith) one
  run-OneLive env (Op.pay_payout i transfer) db db' h one = still db db' (ground arith) one
  run-OneLive env (Op.retry_payout i code) db db' h one = still db db' (ground arith) one
  run-OneLive env Op.finish_payouts db db' h one = still db db' (ground arith) one
  run-OneLive env (Op.set_follow normal start name follow) db db' h one =
      still db db' (ground arith) one
  run-OneLive env (Op.project_follows creator) db db' h one = still db db' (ground arith) one
  run-OneLive env (Op.stripe_event args) db db' h one =
      still db db' (apply-shows env args db db' h) one
  run-OneLive env (Op.reserve_payouts vars r cursor) db db' h one =
      still db db' (ground (arith, (reserve_page-outside env vars r cursor db).1)) one

  -- Whatever mutations of `Op` run, with any arguments, by any users and in any order, errors included:
  -- from a state in which no creator has two live shows, the state after them is again such a state.
  pub serve-OneLive :
      (db : Db) (history : List (Env × Op)) → OneLive db.shows → OneLive (serve db history).shows
  serve-OneLive db history h =
      serve_induction (λ (d : Db). OneLive d.shows) (λ env op d d' e. run-OneLive env op d d' e) db
        history h
