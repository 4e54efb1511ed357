-- ===== src/Presence/Silence.antt =====
-- A participant who falls silent (frontend/convex/presence.ts): `heartbeat`, then the checks that it
-- and `checkSeen` schedule.
use bling.Prelude.{◌++◌, ◌+◌, ℕ, ◌≡◌, refl, true, ◌&&◌, none, some, arith, ◌==◌, inl, inr}
use bling.Prelude.Result.{ok, Result-cases}
use bling.Store.Interface.{Convex}
use bling.Store.Queries.{get, get-first, get-replace, patch}
use bling.Store.Sums.{first-replace_hit}
use bling.Schema.Status.{Role, role_eq, CallStatus}
use bling.Schema.Docs.{Call, CallPresence, QueueEntry}
use bling.Schema.State.{Env, Db, run_at, check_grace, check_seen}
use bling.Calls.{
  call_for_participant, includes, connectable_statuses, apply_transition, move_call, patched_call,
}
use bling.Presence.{presence_row, heartbeat, mark_disconnected, check_seen_at, check_grace_at}
use bling.Presence.Grace.{heartbeat-presence_row}

module _ ⦃c : Convex⦄ where
  -- A call that participants may be connected to can fail at any time.
  connectable-fails :
      (env : Env) (id : ℕ) (call : Call) (entry : QueueEntry) (db : Db)
      → get db.calls id ≡ some call
      → get db.entries call.queue_entry_id ≡ some entry
      → includes connectable_statuses call.status ≡ true
      → (ended : Db) × (apply_transition env (id, call) CallStatus.failed db ≡ ok ended)
        × (get ended.calls id ≡ some (patched_call env.now call CallStatus.failed))
  unfolding apply_transition move_call patch
  connectable-fails env id call entry db at_id queued connectable =
      elim (Result-cases (apply_transition env (id, call) CallStatus.failed db)) [
        | inl (x, failing) ↦ ground arith
        | inr (ended, moved) ↦ (
          ended,
          moved,
          ground (
            arith,
            get-replace id (patched_call env.now call CallStatus.failed) call db.calls id at_id,
          ),
        )
      ]

  -- What a heartbeat leaves as it was, and what it schedules.
  heartbeat-keeps :
      (env : Env) (call_id : ℕ) (db db' : Db) (call : Call) (role : Role)
      → heartbeat env call_id db ≡ ok db'
      → call_for_participant env call_id db ≡ ok (call, role)
      → (includes connectable_statuses call.status ≡ true)
        × (get db'.calls call_id ≡ some call)
        × (db'.entries ≡ db.entries)
        × (db'.jobs ≡ db.jobs ++ run_at (env.now + 30000) (check_seen call_id role env.now))
  unfolding heartbeat call_for_participant
  heartbeat-keeps env call_id db db' call role h who =
      (ground arith, ground arith, ground arith, ground arith)

  -- The check of the sign of life that is in a row marks the row.
  check_seen_at-marks :
      (env : Env) (call_id i seen_at : ℕ) (role : Role) (p : CallPresence) (db : Db)
      → presence_row call_id role db.presence ≡ some (i, p)
      → p.last_seen_at ≡ seen_at
      → p.disconnected_at ≡ none
      → let marked = check_seen_at env call_id role seen_at db in
        (presence_row call_id role marked.presence
          ≡ some (i, record p { disconnected_at = some env.now }))
        × (marked.jobs ≡ db.jobs ++ run_at (env.now + 20000) (check_grace call_id role env.now))
        × (marked.calls ≡ db.calls)
        × (marked.entries ≡ db.entries)
  unfolding check_seen_at presence_row mark_disconnected
  check_seen_at-marks env call_id i seen_at role p db there seen connected =
      let at_i =
        get-first (λ x. x.call_id == call_id && role_eq x.role role) db.presence (i, p) there in
      (
        ground (
          arith,
          first-replace_hit (λ x. x.call_id == call_id && role_eq x.role role) i p
              (record p { disconnected_at = some env.now }) db.presence there at_i.0 at_i.1,
        ),
        ground arith,
        ground arith,
        ground arith,
      )

  -- A participant sends a heartbeat in a call whose queue entry exists, and no other after it. The
  -- check of this sign of life is then scheduled for 30 seconds later. Made right after the heartbeat,
  -- at any time, it schedules just one further job, the check of the disconnection, for 20 seconds
  -- after its own time; and this check, at any time, does not throw and leaves the call failed.
  pub silence_fails_call :
      (env check last : Env) (call_id : ℕ) (call : Call) (role : Role) (entry : QueueEntry)
      (db beaten : Db)
      → heartbeat env call_id db ≡ ok beaten
      → call_for_participant env call_id db ≡ ok (call, role)
      → get db.entries call.queue_entry_id ≡ some entry
      → let marked = check_seen_at check call_id role env.now beaten in
        (beaten.jobs ≡ db.jobs ++ run_at (env.now + 30000) (check_seen call_id role env.now))
        × (marked.jobs
            ≡ beaten.jobs ++ run_at (check.now + 20000) (check_grace call_id role check.now))
        × ((ended : Db) × (failed : Call) × (check_grace_at last call_id role check.now marked
              ≡ ok ended)
            × (get ended.calls call_id ≡ some failed)
            × (failed.status ≡ CallStatus.failed))
  unfolding check_grace_at
  silence_fails_call env check last call_id call role entry db beaten h who queued =
      let (connectable, at_id, entries, scheduled) =
        heartbeat-keeps env call_id db beaten call role h who in
      let (i, p, there, seen_now, connected) =
        heartbeat-presence_row env call_id db beaten (call, role) h who in
      let (marked_row, jobs, calls, also) =
        check_seen_at-marks check call_id i env.now role p beaten there seen_now connected in
      let marked = check_seen_at check call_id role env.now beaten in
      let (ended, moved, failed) =
        connectable-fails last call_id call entry marked (ground (arith, calls, at_id))
          (ground (arith, also, entries, queued)) connectable in
      (
        scheduled,
        jobs,
        (
          ended,
          patched_call last.now call CallStatus.failed,
          ground (arith, marked_row, calls, at_id, connectable, moved),
          failed,
          refl,
        ),
      )
