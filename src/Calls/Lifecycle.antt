-- ===== src/Calls/Lifecycle.antt =====
-- The mutations that move a call (frontend/convex/calls.ts, `transition` and `expire`).
use bling.Prelude.{ℕ, not, ◌||◌, none, some, List, [], ◌∷◌, ltb, if◌then◌else◌, or_else}
use bling.Prelude.Result.{Result, ok, invalid_call_state, ◌>>=◌, ◌>>◌, fail_if}
use bling.Store.Interface.{Convex}
use bling.Store.Queries.{get}
use bling.Schema.Status.{CallStatus, Role, call_eq}
use bling.Schema.State.{Env, Db}
use bling.Calls.{includes, call_for_participant, apply_transition}

-- The states that each participant may set.
abbrev pub allowed_for : Role → List CallStatus
allowed_for Role.creator =
    CallStatus.connecting ∷ CallStatus.live ∷ CallStatus.ended ∷ CallStatus.failed ∷ []
allowed_for Role.viewer = CallStatus.live ∷ CallStatus.ended ∷ CallStatus.failed ∷ []

module _ ⦃c : Convex⦄ where
  unfoldable pub transition : Env → (call_id : ℕ) → CallStatus → Db → Result Db
  unfolding call_for_participant
  transition env call_id status db = do
    found ← call_for_participant env call_id db
    fail_if (not (includes (allowed_for found.1) status)) invalid_call_state
    apply_transition env (call_id, found.0) status db

  -- Scheduled for a call's `expiresAt` when it goes live.
  unfoldable pub expire : Env → (call_id : ℕ) → Db → Result Db
  expire env call_id db = elim (get db.calls call_id) [
    | none ↦ ok db
    | some call ↦
        if not (call_eq call.status CallStatus.live) || ltb env.now (or_else call.expires_at 0)
        then ok db
        else apply_transition env (call_id, call) CallStatus.ended db
  ]
