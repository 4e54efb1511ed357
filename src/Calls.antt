-- ===== src/Calls.antt =====
-- The state of a call and its queue entry (frontend/convex/lib/calls.ts).
pub mod Transitions
pub mod Money
pub mod Selection
pub mod Lifecycle
use bling.Prelude.{
  ℕ, ◌+◌, ◌*◌, ◌≡◌, Bool, true, false, not, ◌&&◌, ◌||◌, Option, none, some, List, [], ◌∷◌, ◌++◌,
  ◌==◌, if◌then◌else◌, is_some, or_else, any, String,
}
use bling.Prelude.Result.{Result, ok, err, call_not_found, invalid_call_state, ◌>>=◌, ◌>>◌}
use bling.Accounts.{require_user_id}
use bling.Store.Interface.{Convex}
use bling.Store.Rows.{Row}
use bling.Store.Queries.{Table, get, first, collect, replace, patch, delete_all}
use bling.Schema.Status.{QueueStatus, CallStatus, Role, call_eq}
use bling.Schema.Docs.{Call, PaymentRefund}
use bling.Schema.State.{Env, Db, Ledger, Scheduled, run_at, expire_call, purge_signals}
use bling.Ledger.{credit_earning}
use bling.Payments.{request_refund}

-- A call in one of these states blocks selecting another caller.
abbrev pub active_call_statuses : List CallStatus
active_call_statuses =
    CallStatus.payment_pending ∷ CallStatus.created ∷ CallStatus.connecting ∷ CallStatus.live ∷ []

-- The states in which participants connect, signal and send heartbeats.
abbrev pub connectable_statuses : List CallStatus
connectable_statuses = CallStatus.created ∷ CallStatus.connecting ∷ CallStatus.live ∷ []

-- `list.includes(status)`
abbrev pub includes : List CallStatus → CallStatus → Bool
includes statuses status = any (call_eq status) statuses

abbrev pub heartbeat_ms : ℕ
heartbeat_ms = 10000

abbrev pub presence_ttl_ms : ℕ
presence_ttl_ms = 30000

abbrev pub disconnect_grace_ms : ℕ
disconnect_grace_ms = 20000

abbrev pub transitions : CallStatus → List CallStatus
transitions CallStatus.payment_pending = []
transitions CallStatus.created = CallStatus.connecting ∷ CallStatus.ended ∷ CallStatus.failed ∷ []
transitions CallStatus.connecting = CallStatus.live ∷ CallStatus.ended ∷ CallStatus.failed ∷ []
transitions CallStatus.live = CallStatus.ended ∷ CallStatus.failed ∷ []
transitions CallStatus.ended = []
transitions CallStatus.failed = []

abbrev pub can_transition : CallStatus → CallStatus → Bool
can_transition from to = includes (transitions from) to

abbrev pub is_finished : CallStatus → Bool
is_finished status = call_eq status CallStatus.ended || call_eq status CallStatus.failed

-- `applyTransition` sets `startedAt` and `expiresAt` when it takes a call live for the first time.
abbrev pub goes_live : Call → CallStatus → Bool
goes_live call target = call_eq target CallStatus.live && not (is_some call.started_at)

-- The caller's entry follows the call; a failed call simply ends it.
abbrev pub entry_status : CallStatus → QueueStatus
entry_status CallStatus.connecting = QueueStatus.connecting
entry_status CallStatus.live = QueueStatus.live
entry_status _ = QueueStatus.ended

abbrev pub patched_call : (now : ℕ) → Call → CallStatus → Call
patched_call now call target =
    let live = goes_live call target in
    record call {
      status = target;
      started_at = if live then some now else call.started_at;
      expires_at = if live then some (now + call.call_duration_seconds * 1000) else call.expires_at;
      ended_at = if is_finished target then some now else call.ended_at;
    }

abbrev pub refund_reason : CallStatus → String
refund_reason target =
    if call_eq target CallStatus.failed then "call_failed_before_live" else "call_ended_before_live"

module _ ⦃c : Convex⦄ where
  -- The first of the statuses at which the show has a call, as the loop tries them in turn.
  unfoldable pub first_at : ℕ → List CallStatus → Table Call → Option (Row Call)
  first_at show_id [] t = none
  first_at show_id (s ∷ rest) t =
      let later = first_at show_id rest t in
      elim (first (λ k. k.show_id == show_id && call_eq k.status s) t) [
        | some call ↦ some call
        | none ↦ later
      ]

  -- The show's call that blocks a new selection, if any.
  unfoldable pub active_call_for_show : ℕ → Table Call → Option (Row Call)
  unfolding first_at
  active_call_for_show show_id t = first_at show_id active_call_statuses t

  -- The signed-in user's call and their role in it.
  unfoldable pub call_for_participant : Env → ℕ → Db → Result (Call × Role)
  unfolding require_user_id
  call_for_participant env call_id db = do
    user_id ← require_user_id env
    elim (get db.calls call_id) [
      | none ↦ err call_not_found
      | some call ↦
          if call.creator_id == user_id
          then ok (call, Role.creator)
          else if call.viewer_id == user_id
          then ok (call, Role.viewer)
          else err call_not_found
    ]

  -- A paid call going live earns the creator their share.
  unfoldable pub credited : Env → Row Call → CallStatus → Db → Ledger
  credited env (id, call) target db =
      if goes_live call target
      then elim call.payment_attempt_id [
        | none ↦ db.ledger
        | some attempt_id ↦ elim (get db.attempts attempt_id) [
          | none ↦ db.ledger
          | some attempt ↦ credit_earning env.hold_ms (attempt_id, attempt) id env.now db.ledger
        ]
      ]
      else db.ledger

  -- A paid call that finishes without having been live is refunded in full.
  unfoldable pub refunded : Env → Row Call → CallStatus → Db → Table PaymentRefund × List Scheduled
  refunded env (id, call) target db =
      if not (is_finished target) || is_some call.started_at
      then (db.refunds, [])
      else elim call.payment_attempt_id [
        | none ↦ (db.refunds, [])
        | some attempt_id ↦ elim (get db.attempts attempt_id) [
          | none ↦ (db.refunds, [])
          | some attempt ↦
              request_refund env.now (attempt_id, attempt) id (refund_reason target) db.refunds
        ]
      ]

  abbrev pub expiry_job : Env → Row Call → CallStatus → List Scheduled
  expiry_job env (id, call) target =
      if goes_live call target
      then run_at (env.now + call.call_duration_seconds * 1000) (expire_call id)
      else []

  -- A change of state that the table allows, the caller's entry with it. Signals and presence only
  -- matter while a call is open.
  unfoldable pub move_call : Env → Row Call → CallStatus → Db → Result Db
  move_call env (id, call) target db = do
    entries ← patch call.queue_entry_id (λ e. record e { status = entry_status target }) db.entries
    let refund = refunded env (id, call) target db
    ok (record db {
      calls = replace id (patched_call env.now call target) db.calls;
      entries = entries;
      ledger = credited env (id, call) target db;
      refunds = refund.0;
      presence =
          if is_finished target
          then delete_all (collect (λ p. p.call_id == id) db.presence) db.presence
          else db.presence;
      jobs =
          db.jobs
          ++ expiry_job env (id, call) target
          ++ refund.1
          ++ (if is_finished target then run_at env.now (purge_signals id) else []);
    })

  -- Moves a call to a new state and keeps its queue entry in step.
  unfoldable pub apply_transition : Env → Row Call → CallStatus → Db → Result Db
  unfolding move_call
  apply_transition env (id, call) target db =
      if call_eq call.status target
      then ok db
      else if not (can_transition call.status target)
      then err invalid_call_state
      else move_call env (id, call) target db
