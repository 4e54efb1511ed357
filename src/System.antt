-- ===== src/System.antt =====
-- Mutations of frontend/convex as one system: any user calls any of those in `Op` at any time, and the
-- scheduler and the Stripe actions call the internal ones, each in a transaction of its own.
pub mod Steps
pub mod Transits
pub mod Settlement
pub mod Events
pub mod Calls
pub mod Effects
pub mod Receipts
pub mod Money
pub mod Hotlines
pub mod Aside
pub mod Kept
pub mod Histories
pub mod Reservations
pub mod Outcomes
use bling.Prelude.{ℕ, ◌%◌, ◌≡◌, refl, Bool, Option, none, some, List, [], ◌∷◌, String}
use bling.Prelude.Result.{Result, ok, err, ◌>>=◌}
use bling.Store.Interface.{Convex}
use bling.Schema.Status.{CallStatus, Role, SignalType}
use bling.Schema.State.{Env, Db}
use bling.Shows
use bling.Shows.Closing.{close_queue_batch}
use bling.Queue
use bling.Queue.{JoinArgs}
use bling.Payments.Attempts.{
  PrepareArgs, prepare, attach_intent, mark_authorized, captured, not_captured,
}
use bling.Calls.Selection.{select, select_random}
use bling.Calls.Lifecycle.{transition, expire}
use bling.Presence
use bling.Tiers
use bling.Tiers.{TierInput}
use bling.Signals
use bling.Signals.{Runtime}
use bling.Webhooks
use bling.Webhooks.{EventArgs}
use bling.Payouts.{PayoutVars, claim_transfer, mark_paid, retry_transfer}
use bling.Payouts.Accounts
use bling.Payouts.Runs
use bling.Follows
use bling.Follows.{shard_count}
use bling.Schema.Docs.{PayoutAccount, Text}
use bling.Refunds.{Outcome, claim, record_outcome, retry}

-- A call of a mutation, with its arguments. `draw` and `start` are what `Math.random` gives
-- `selectRandom` and, reduced to a shard, `adjustShard`, and `lower`, `normal` and `runtime` are functions of the runtime on texts.
pub data Op : Type 0 where
  create_show : Op
  schedule_show : (show_id : ℕ) (scheduled_for : Option ℕ) → Op
  start_show : (show_id : ℕ) → Op
  end_show : (show_id : ℕ) → Op
  close_queue : (show_id : ℕ) → Op
  join_queue : (args : JoinArgs) (payment_attempt_id : Option ℕ) → Op
  leave_queue : (show_id : ℕ) → Op
  prepare_payment : (args : PrepareArgs) → Op
  attach_payment : (attempt_id : ℕ) (intent_id : String) → Op
  authorize_payment : (attempt_id : ℕ) → Op
  capture_payment : (attempt_id : ℕ) → Op
  drop_payment : (attempt_id : ℕ) (canceled : Bool) (failure_code : Option String) → Op
  select_caller : (show_id entry_id : ℕ) → Op
  select_any : (draw : ℕ → ℕ) (show_id : ℕ) → Op
  move_call : (call_id : ℕ) (status : CallStatus) → Op
  expire_call : (call_id : ℕ) → Op
  send_heartbeat : (call_id : ℕ) → Op
  leave_call : (call_id : ℕ) → Op
  check_seen : (call_id : ℕ) (role : Role) (seen_at : ℕ) → Op
  check_grace : (call_id : ℕ) (role : Role) (disconnected_at : ℕ) → Op
  claim_refund : (refund_id : ℕ) → Op
  record_refund :
      (refund_id : ℕ) (stripe_refund_id : String) (outcome : Outcome) (failure_code : Option String)
      → Op
  retry_refund : (refund_id : ℕ) (failure_code : String) → Op
  replace_tiers : (lower : Text → Text) (show_id : ℕ) (tiers : List TierInput) → Op
  send_signals : (runtime : Runtime) (call_id : ℕ) (signals : List (SignalType × String)) → Op
  ack_signals : (call_id : ℕ) (ids : List ℕ) → Op
  purge_signals : (call_id : ℕ) → Op
  stripe_event : (args : EventArgs) → Op
  save_account : (account : PayoutAccount) → Op
  open_payouts : (vars : PayoutVars) → Op
  reserve_payouts : (vars : PayoutVars) (run_id : ℕ) (cursor : Option ℕ) → Op
  claim_payout : (item_id : ℕ) → Op
  pay_payout : (item_id : ℕ) (transfer_id : String) → Op
  retry_payout : (item_id : ℕ) (failure_code : String) → Op
  finish_payouts : Op
  set_follow : (normal : String → String) (start : ℕ) (username : String) (follow : Bool) → Op
  project_follows : (creator_id : ℕ) → Op

module _ ⦃c : Convex⦄ where
  abbrev pub state_of : Result (ℕ × Db) → Result Db
  state_of r = r >>= λ x. ok x.1

  -- The state after a call, or the error that it throws.
  unfoldable pub run : Env → Op → Db → Result Db
  run env create_show db = state_of (Shows.create env db)
  run env (schedule_show s at) db = Shows.schedule env s at db
  run env (start_show s) db = Shows.start env s db
  run env (end_show s) db = Shows.end env s db
  run env (close_queue s) db = ok (close_queue_batch env s db)
  run env (join_queue args payment) db = state_of (Queue.join env args payment db)
  run env (leave_queue s) db = Queue.leave env s db
  run env (prepare_payment args) db = state_of (prepare env args db)
  run env (attach_payment a intent) db = attach_intent a intent db
  run env (authorize_payment a) db = ok (mark_authorized env a db)
  run env (capture_payment a) db = captured env a db
  run env (drop_payment a canceled code) db = ok (not_captured env a canceled code db)
  run env (select_caller s e) db = state_of (select env s e db)
  run env (select_any draw s) db = state_of (select_random env draw s db)
  run env (move_call k status) db = transition env k status db
  run env (expire_call k) db = expire env k db
  run env (send_heartbeat k) db = Presence.heartbeat env k db
  run env (leave_call k) db = Presence.leave env k db
  run env (check_seen k role at) db = ok (Presence.check_seen_at env k role at db)
  run env (check_grace k role at) db = Presence.check_grace_at env k role at db
  run env (claim_refund r) db = ok (claim env r db).1
  run env (record_refund r stripe outcome code) db =
      ok (record_outcome env r stripe outcome code db)
  run env (retry_refund r code) db = ok (retry env r code db)
  run env (replace_tiers lower s tiers) db = Tiers.replace_tiers lower env s tiers db
  run env (send_signals runtime k signals) db = Signals.send env runtime k signals db
  run env (ack_signals k ids) db = Signals.ack env k ids db
  run env (purge_signals k) db = ok (Signals.purge env k db)
  run env (stripe_event args) db = Webhooks.apply env args db
  run env (save_account account) db = ok (Accounts.save_account account db)
  run env (open_payouts vars) db = ok (Runs.run_due env vars db)
  run env (reserve_payouts vars r cursor) db = ok (Runs.reserve_page env vars r cursor db)
  run env (claim_payout i) db = ok (claim_transfer env i db).1
  run env (pay_payout i transfer) db = ok (mark_paid env i transfer db)
  run env (retry_payout i code) db = ok (retry_transfer env i code db)
  run env finish_payouts db = ok (Runs.finish env db)
  run env (set_follow normal start name follow) db =
      Follows.set_follow env normal (start % shard_count) name follow db
  run env (project_follows creator) db = ok (Follows.project creator db)

  -- A mutation that throws writes nothing.
  abbrev pub committed : Result Db → Db → Db
  committed (ok db') db = db'
  committed (err e) db = db

  unfoldable pub serve : Db → List (Env × Op) → Db
  unfolding run
  serve db [] = db
  serve db ((env, op) ∷ rest) = serve (committed (run env op db) db) rest

  -- A property that every call keeps holds after any history.
  pub serve_induction {ℓ} :
      (P : Db → Type ℓ)
      → ((env : Env) (op : Op) (db db' : Db) → run env op db ≡ ok db' → P db → P db')
      → (db : Db) (history : List (Env × Op)) → P db
      → P (serve db history)
  unfolding serve
  serve_induction P step db [] h = h
  serve_induction P step db ((env, op) ∷ rest) h =
      serve_induction P step (committed (run env op db) db) rest (keeps (run env op db) refl)
    where
      keeps : (r : Result Db) → run env op db ≡ r → P (committed r db)
      keeps (ok db') e = step env op db db' e h
      keeps (err x) e = h
