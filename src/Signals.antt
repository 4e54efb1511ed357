-- ===== src/Signals.antt =====
-- WebRTC signals between the participants of a call (frontend/convex/signals.ts): sending, and
-- deleting those that were handled or are left over.
pub mod Ready
use bling.Prelude.{
  ℕ, ◌*◌, ◌≡◌, Bool, true, false, not, ◌&&◌, ◌||◌, Option, none, some, List, [], ◌∷◌, ◌++◌, ◌==◌,
  ltb, if◌then◌else◌, is_some, or_else, any, length, take, String,
}
use bling.Prelude.Result.{Result, ok, err, call_not_found, invalid_signal, ◌>>=◌, ◌>>◌, fail_if}
use bling.Store.Interface.{Convex}
use bling.Store.Rows.{Row}
use bling.Store.Queries.{Table, get, first, collect, insert, delete, delete_all, sort_by}
use bling.Schema.Status.{Role, SignalType, role_eq, signal_eq}
use bling.Schema.Docs.{CallSignal}
use bling.Schema.State.{Env, Db, run_at, purge_signals}
use bling.Calls.{includes, connectable_statuses, call_for_participant}

abbrev pub allowed_signals : Role → List SignalType
allowed_signals Role.creator = SignalType.offer ∷ SignalType.ice ∷ []
allowed_signals Role.viewer = SignalType.ready ∷ SignalType.answer ∷ SignalType.ice ∷ []

abbrev pub max_payload_bytes : ℕ
max_payload_bytes = 65536

abbrev pub max_batch : ℕ
max_batch = 20

abbrev pub purge_batch : ℕ
purge_batch = 500

abbrev pub other : Role → Role
other Role.creator = Role.viewer
other Role.viewer = Role.creator

-- What the runtime says of a payload: its length in UTF-8 (`TextEncoder`), and whether `JSON.parse`
-- takes it.
pub record Runtime : Type 0 where
  pub byte_length : String → ℕ
  pub parses : String → Bool

-- The places of the texts in the order of strings.
abbrev pub role_rank : Role → ℕ
role_rank Role.creator = 0
role_rank Role.viewer = 1

abbrev pub type_rank : SignalType → ℕ
type_rank SignalType.answer = 0
type_rank SignalType.ice = 1
type_rank SignalType.offer = 2
type_rank SignalType.ready = 3

-- A "ready" of the call that waits for `to`.
abbrev pub is_ready_for : (call_id : ℕ) → (to : Role) → CallSignal → Bool
is_ready_for call_id to s =
    s.call_id == call_id && role_eq s.to to && signal_eq s.signal_type SignalType.ready

module _ ⦃c : Convex⦄ where
  -- The loop of `send`. `pending` is `readyPending`: none until it is read.
  unfoldable pub send_each :
      Runtime
      → (call_id : ℕ) → (role : Role) → List (SignalType × String)
      → (pending : Option Bool) → Table CallSignal
      → Result (Table CallSignal)
  send_each env call_id role [] pending t = ok t
  send_each env call_id role ((type, payload) ∷ rest) pending t = do
    fail_if (not (any (signal_eq type) (allowed_signals role))) invalid_signal
    fail_if (ltb max_payload_bytes (env.byte_length payload)) invalid_signal
    fail_if (not (env.parses payload)) invalid_signal
    let ready = signal_eq type SignalType.ready
    let waits = or_else pending (is_some (first (is_ready_for call_id (other role)) t))
    send_each env call_id role rest (if ready then some true else pending) (
        if ready && waits
        then t
        else insert
            (record { call_id = call_id; to = other role; signal_type = type; payload = payload })
            t)

  unfoldable pub send : Env → Runtime → (call_id : ℕ) → List (SignalType × String) → Db → Result Db
  unfolding call_for_participant send_each
  send env runtime call_id signals db = do
    found ← call_for_participant env call_id db
    fail_if (not (includes connectable_statuses found.0.status)) call_not_found
    fail_if (length signals == 0 || ltb max_batch (length signals)) invalid_signal
    sent ← send_each runtime call_id found.1 signals none db.signals
    ok (record db { signals = sent })

  -- Only signals of the call that are addressed to the role are deleted.
  unfoldable pub ack_each : (call_id : ℕ) → Role → List ℕ → Table CallSignal → Table CallSignal
  ack_each call_id role [] t = t
  ack_each call_id role (id ∷ ids) t = ack_each call_id role ids (elim (get t id) [
    | none ↦ t
    | some s ↦ if s.call_id == call_id && role_eq s.to role then delete id t else t
  ])

  unfoldable pub ack : Env → (call_id : ℕ) → List ℕ → Db → Result Db
  unfolding call_for_participant ack_each
  ack env call_id ids db = do
    found ← call_for_participant env call_id db
    ok (record db { signals = ack_each call_id found.1 ids db.signals })

  -- The leftovers of a call from the index `by_call_to_type`.
  unfoldable pub leftovers_of : (call_id : ℕ) → Table CallSignal → List (Row CallSignal)
  leftovers_of call_id t = take purge_batch (
      sort_by (λ s. role_rank s.to)
        (sort_by (λ s. type_rank s.signal_type) (collect (λ s. s.call_id == call_id) t)))

  -- `purge`: a full batch schedules the next one.
  unfoldable pub purge : Env → (call_id : ℕ) → Db → Db
  unfolding leftovers_of
  purge env call_id db =
      let leftovers = leftovers_of call_id db.signals in
      record db {
        signals = delete_all leftovers db.signals;
        jobs =
            if length leftovers == purge_batch
            then db.jobs ++ run_at env.now (purge_signals call_id)
            else db.jobs;
      }
