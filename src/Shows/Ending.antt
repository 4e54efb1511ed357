-- ===== src/Shows/Ending.antt =====
-- The end of a show (frontend/convex/shows.ts, `end`), and the batches of `closeQueue` after it.
use bling.Prelude.{
  ℕ, ◌+◌, ◌*◌, ◌<◌, ◌≡◌, ◌++◌, inl, inr, false, some, List, [], arith, length, if◌then◌else◌,
  Bool-cases, Option-cases,
}
use bling.Prelude.Result.{ok, Result-cases}
use bling.Accounts.{require_creator_id, show_for_creator}
use bling.Store.Interface.{Convex}
use bling.Store.Rows.{Row}
use bling.Store.Queries.{get, replace, patch}
use bling.Schema.Status.{ShowStatus, CallStatus, show_eq}
use bling.Schema.Docs.{Show, Call}
use bling.Schema.State.{Env, Db, run_at, close_queue, purge_signals}
use bling.Payments.{request_refund}
use bling.Calls.{
  apply_transition, move_call, refunded, is_finished, expiry_job, connectable_statuses, includes,
  active_call_for_show,
}
use bling.Shows
use bling.Shows.Emptying.{open_total}
use bling.Shows.Batches.{batches_due, batches_due-++, run_batches, run_batches-empty}
use bling.Social.{on_show_ended}

module _ ⦃c : Convex⦄ where
  refunded-due :
      (show_id : ℕ) (env : Env) (k : Row Call) (target : CallStatus) (db : Db)
      → batches_due show_id (refunded env k target db).1 ≡ 0
  unfolding refunded request_refund batches_due
  refunded-due show_id env (id, call) target db = ground arith

  expiry_job-due :
      (show_id : ℕ) (env : Env) (k : Row Call) (target : CallStatus)
      → batches_due show_id (expiry_job env k target) ≡ 0
  unfolding batches_due
  expiry_job-due show_id env (id, call) target = ground arith

  purge-due :
      (show_id id now : ℕ) (target : CallStatus)
      → batches_due show_id (if is_finished target then run_at now (purge_signals id) else []) ≡ 0
  unfolding batches_due
  purge-due show_id id now target = ground arith

  one-due : (id now : ℕ) → batches_due id (run_at now (close_queue id)) ≡ 1
  unfolding batches_due
  one-due id now = ground arith

  -- A transition of a call schedules no batch.
  apply_transition-due :
      (show_id : ℕ) (env : Env) (id : ℕ) (call : Call) (target : CallStatus) (db db' : Db)
      → apply_transition env (id, call) target db ≡ ok db'
      → batches_due show_id db'.jobs ≡ batches_due show_id db.jobs
  unfolding apply_transition move_call patch
  apply_transition-due show_id env id call target db db' h =
      let expiry = expiry_job env (id, call) target in
      let refund = (refunded env (id, call) target db).1 in
      let purge = if is_finished target then run_at env.now (purge_signals id) else [] in
      ground (
        arith,
        batches_due-++ show_id (db.jobs ++ expiry ++ refund) purge,
        batches_due-++ show_id (db.jobs ++ expiry) refund,
        batches_due-++ show_id db.jobs expiry,
        refunded-due show_id env (id, call) target db,
        expiry_job-due show_id env (id, call) target,
        purge-due show_id id env.now target,
      )

  end_open_call-due :
      (show_id : ℕ) (env : Env) (sid : ℕ) (db db' : Db)
      → Shows.end_open_call env sid db ≡ ok db'
      → batches_due show_id db'.jobs ≡ batches_due show_id db.jobs
  unfolding Shows.end_open_call
  end_open_call-due show_id env sid db db' h =
      elim (Option-cases (active_call_for_show sid db.calls)) [
        | inl none_open ↦ ground arith
        | inr ((id, call), open_call) ↦
            elim (Bool-cases (includes connectable_statuses call.status)) [
              | inl connectable ↦
                  apply_transition-due show_id env id call CallStatus.ended db db' (ground arith)
              | inr waiting ↦ ground arith
            ]
      ]

  -- Ending a show that has not ended yet schedules one batch.
  end-due :
      (env : Env) (show_id : ℕ) (show : Show) (db db' : Db)
      → Shows.end env show_id db ≡ ok db'
      → get db.shows show_id ≡ some show
      → show_eq show.status ShowStatus.ended ≡ false
      → batches_due show_id db'.jobs ≡ batches_due show_id db.jobs + 1
  unfolding Shows.end Shows.close_show show_for_creator
  end-due env show_id show db db' h at_id not_ended =
      let before : Db = record db {
        shows =
            replace show_id (record show { status = ShowStatus.ended; ended_at = some env.now })
              db.shows;
        social = on_show_ended (show_id, show) db.social;
      } in
      elim (Result-cases (require_creator_id env db)) [
        | inl (x, failing) ↦ ground arith
        | inr (creator_id, signed_in) ↦
            elim (Result-cases (Shows.end_open_call env show_id before)) [
              | inl (x, failing) ↦ ground arith
              | inr (d, closed) ↦ ground (
                arith,
                end_open_call-due show_id env show_id before d closed,
                batches_due-++ show_id d.jobs (run_at env.now (close_queue show_id)),
                one-due show_id env.now,
              )
            ]
      ]

  -- Where a show that has not ended, and of which no batch of `closeQueue` is scheduled, is ended, and
  -- the scheduler, which runs a batch only where one is scheduled, then runs at so many times that 200
  -- times their number is more than the entries of the show that are open then, no entry of the show is
  -- open afterwards, and no batch is scheduled any more.
  pub end-empties :
      (env : Env) (times : List Env) (show_id : ℕ) (show : Show) (db db' : Db)
      → Shows.end env show_id db ≡ ok db'
      → get db.shows show_id ≡ some show
      → show_eq show.status ShowStatus.ended ≡ false
      → batches_due show_id db.jobs ≡ 0
      → open_total show_id db'.entries < length times * 200
      → (open_total show_id (run_batches times show_id db').entries ≡ 0)
        × (batches_due show_id (run_batches times show_id db').jobs ≡ 0)
  end-empties env times show_id show db db' h at_id not_ended idle few =
      run_batches-empty times show_id db'
        (ground (arith, end-due env show_id show db db' h at_id not_ended, idle)) few
