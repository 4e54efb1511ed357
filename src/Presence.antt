-- ===== src/Presence.antt =====
-- Call presence (frontend/convex/presence.ts): heartbeats, the check that a participant has gone
-- quiet, and the check that ends the call after the grace.
pub mod Grace
pub mod Silence
use bling.Prelude.{
  ℕ, ◌+◌, ◌≡◌, Bool, true, false, not, ◌&&◌, ◌||◌, Option, none, some, List, [], ◌∷◌, ◌++◌, ◌==◌,
  if◌then◌else◌, is_some, opt_eq,
}
use bling.Prelude.Result.{Result, ok, err, call_not_found, ◌>>=◌, ◌>>◌, fail_if}
use bling.Store.Interface.{Convex}
use bling.Store.Rows.{Row}
use bling.Store.Queries.{Table, get, first, insert, replace}
use bling.Schema.Status.{CallStatus, Role, role_eq}
use bling.Schema.Docs.{CallPresence}
use bling.Schema.State.{Env, Db, run_at, check_seen, check_grace}
use bling.Calls.{
  includes, connectable_statuses, call_for_participant, apply_transition, presence_ttl_ms,
  disconnect_grace_ms,
}

module _ ⦃c : Convex⦄ where
  unfoldable pub presence_row :
      (call_id : ℕ) → Role → Table CallPresence → Option (Row CallPresence)
  presence_row call_id role t = first (λ p. p.call_id == call_id && role_eq p.role role) t

  unfoldable pub heartbeat : Env → (call_id : ℕ) → Db → Result Db
  unfolding call_for_participant presence_row
  heartbeat env call_id db = do
    found ← call_for_participant env call_id db
    fail_if (not (includes connectable_statuses found.0.status)) call_not_found
    ok (record db {
      presence = elim (presence_row call_id found.1 db.presence) [
        | some (id, p) ↦
            replace id (record p { last_seen_at = env.now; disconnected_at = none }) db.presence
        | none ↦
            insert
              (record {
                call_id = call_id;
                role = found.1;
                last_seen_at = env.now;
                disconnected_at = none;
              })
              db.presence
      ];
      jobs = db.jobs ++ run_at (env.now + presence_ttl_ms) (check_seen call_id found.1 env.now);
    })

  unfoldable pub mark_disconnected : Env → Row CallPresence → (call_id : ℕ) → Role → Db → Db
  mark_disconnected env (id, p) call_id role db = record db {
    presence = replace id (record p { disconnected_at = some env.now }) db.presence;
    jobs = db.jobs ++ run_at (env.now + disconnect_grace_ms) (check_grace call_id role env.now);
  }

  -- Sent when a participant leaves the call page.
  unfoldable pub leave : Env → (call_id : ℕ) → Db → Result Db
  unfolding call_for_participant presence_row mark_disconnected
  leave env call_id db = do
    found ← call_for_participant env call_id db
    ok (
        if not (includes connectable_statuses found.0.status)
        then db
        else elim (presence_row call_id found.1 db.presence) [
          | none ↦ db
          | some (id, p) ↦
              if is_some p.disconnected_at
              then db
              else mark_disconnected env (id, p) call_id found.1 db
        ])

  -- A newer heartbeat, or a finished call, which deletes presence, wins.
  unfoldable pub check_seen_at : Env → (call_id : ℕ) → Role → (seen_at : ℕ) → Db → Db
  unfolding presence_row mark_disconnected
  check_seen_at env call_id role seen_at db = elim (presence_row call_id role db.presence) [
    | none ↦ db
    | some (id, p) ↦
        if not (p.last_seen_at == seen_at) || is_some p.disconnected_at
        then db
        else mark_disconnected env (id, p) call_id role db
  ]

  unfoldable pub check_grace_at :
      Env → (call_id : ℕ) → Role → (disconnected_at : ℕ) → Db → Result Db
  unfolding presence_row
  check_grace_at env call_id role disconnected_at db =
      elim (presence_row call_id role db.presence) [
        | none ↦ ok db
        | some (_, p) ↦
            if not (opt_eq p.disconnected_at disconnected_at)
            then ok db
            else elim (get db.calls call_id) [
              | none ↦ ok db
              | some call ↦
                  if includes connectable_statuses call.status
                  then apply_transition env (call_id, call) CallStatus.failed db
                  else ok db
            ]
      ]
