-- ===== src/Presence/Grace.antt =====
-- Heartbeats and the grace period (frontend/convex/presence.ts).
use bling.Prelude.{ℕ, ◌<◌, ◌≡◌, refl, true, ◌&&◌, none, some, arith, ◌==◌, Option-cases, inl, inr}
use bling.Prelude.Result.{ok}
use bling.Store.Interface.{Convex}
use bling.Store.Queries.{first, get-first, next_id}
use bling.Store.Sums.{first-insert, first-replace_hit}
use bling.Schema.Status.{Role, role_eq}
use bling.Schema.Docs.{Call, CallPresence}
use bling.Schema.State.{Env, Db}
use bling.Calls.{call_for_participant}
use bling.Presence.{presence_row, heartbeat, check_seen_at, check_grace_at}

module _ ⦃c : Convex⦄ where
  pub role_eq_refl : (role : Role) → role_eq role role ≡ true
  role_eq_refl Role.creator = refl
  role_eq_refl Role.viewer = refl

  abbrev seen : Env → ℕ → Role → CallPresence
  seen env call_id role = record {
    call_id = call_id;
    role = role;
    last_seen_at = env.now;
    disconnected_at = none;
  }

  -- What a heartbeat leaves in the participant's row.
  pub heartbeat-presence_row :
      (env : Env) (call_id : ℕ) (db db' : Db) (found : Call × Role)
      → heartbeat env call_id db ≡ ok db'
      → call_for_participant env call_id db ≡ ok found
      → (i : ℕ) × (p : CallPresence) × (presence_row call_id found.1 db'.presence ≡ some (i, p))
        × (p.last_seen_at ≡ env.now)
        × (p.disconnected_at ≡ none)
  unfolding heartbeat presence_row
  heartbeat-presence_row env call_id db db' (call, role) h who =
      elim (Option-cases (first (λ p. p.call_id == call_id && role_eq p.role role) db.presence)) [
        | inl fresh ↦ (
          next_id db.presence,
          seen env call_id role,
          ground (
            arith,
            role_eq_refl role,
            first-insert (λ p. p.call_id == call_id && role_eq p.role role) (seen env call_id role)
                db.presence,
          ),
          refl,
          refl,
        )
        | inr ((i, p), there) ↦
            let at_i =
              get-first (λ p. p.call_id == call_id && role_eq p.role role) db.presence (i, p)
                there in
            (
              i,
              record p { last_seen_at = env.now; disconnected_at = none },
              ground (
                arith,
                first-replace_hit (λ p. p.call_id == call_id && role_eq p.role role) i p
                    (record p { last_seen_at = env.now; disconnected_at = none }) db.presence there
                    at_i.0 at_i.1,
              ),
              refl,
              refl,
            )
      ]

  -- After a heartbeat, no check of an earlier disconnection ends the call, and no check for an earlier
  -- sign of life marks the participant as disconnected: both change nothing.
  pub heartbeat_keeps_call :
      (env later : Env) (call_id at : ℕ) (db db' : Db) (found : Call × Role)
      → heartbeat env call_id db ≡ ok db'
      → call_for_participant env call_id db ≡ ok found
      → at < env.now
      → (check_grace_at later call_id found.1 at db' ≡ ok db')
        × (check_seen_at later call_id found.1 at db' ≡ db')
  unfolding check_grace_at check_seen_at
  heartbeat_keeps_call env later call_id at db db' (call, role) h who before =
      let (i, p, there, seen_now, connected) =
        heartbeat-presence_row env call_id db db' (call, role) h who in
      (ground arith, ground arith)
