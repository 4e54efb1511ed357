-- ===== src/Calls/Transitions.antt =====
-- What `applyTransition` (frontend/convex/lib/calls.ts) does to the calls of a table.
use bling.Prelude.{
  ℕ, ◌+◌, ◌*◌, ◌≡◌, ◌⊎◌, inl, inr, refl, Bool, true, false, Option, none, some, arith, ◌==◌, ◌&&◌,
  List, [], ◌∷◌, is_some, subst, sym,
}
use bling.Prelude.Result.{ok}
use bling.Store.Interface.{Convex}
use bling.Store.Queries.{
  Table, get, first-none, replace, insert, get-replace, get-insert, Every, Every-replace, patch,
}
use bling.Schema.Status.{CallStatus, call_eq}
use bling.Schema.Docs.{Call}
use bling.Schema.State.{Env, Db}
use bling.Calls.{
  includes, can_transition, is_finished, patched_call, apply_transition, move_call, first_at,
  active_call_for_show, active_call_statuses, credited, refunded,
}

module _ ⦃c : Convex⦄ where
  -- A transition that succeeds was asked for the state that the call has, and changes nothing, or
  -- the table of transitions allows it.
  pub apply_transition-cases :
      (env : Env) (id : ℕ) (call : Call) (target : CallStatus) (db : Db) {db' : Db}
      → apply_transition env (id, call) target db ≡ ok db'
      → ((call.status ≡ target) × (db' ≡ db))
        ⊎ ((can_transition call.status target ≡ true)
            × (db'.calls ≡ replace id (patched_call env.now call target) db.calls)
            × (db'.ledger ≡ credited env (id, call) target db)
            × (db'.refunds ≡ (refunded env (id, call) target db).0)
            × (db'.shows ≡ db.shows)
            × (db'.attempts ≡ db.attempts))
  unfolding apply_transition move_call patch
  apply_transition-cases env id call target db h = ground arith

  -- Every call of a show that `activeCallForShow` reports as absent is inactive.
  first_at-none :
      (show_id : ℕ) (statuses : List CallStatus) (t : Table Call) (i : ℕ) (k : Call)
      → first_at show_id statuses t ≡ none
      → get t i ≡ some k
      → k.show_id ≡ show_id
      → includes statuses k.status ≡ false
  unfolding first_at
  first_at-none show_id [] t i k h at_i same = refl
  first_at-none show_id (s ∷ rest) t i k h at_i same = ground (
    arith,
    first-none (λ x. x.show_id == show_id && call_eq x.status s) t i k,
    first_at-none show_id rest t i k,
  )

  abbrev pub is_active : Call → Bool
  is_active k = includes active_call_statuses k.status

  -- No show has two active calls.
  abbrev pub OneActive : Table Call → Type 0
  OneActive t =
      (i j : ℕ) (k l : Call)
      → get t i ≡ some k
      → get t j ≡ some l
      → is_active k ≡ true
      → is_active l ≡ true
      → k.show_id ≡ l.show_id
      → i ≡ j

  -- A call that stays in its show, and is active only if it was, leaves that so.
  pub OneActive-replace :
      (i : ℕ) (d e : Call) (t : Table Call)
      → get t i ≡ some e
      → d.show_id ≡ e.show_id
      → (is_active d ≡ true → is_active e ≡ true)
      → OneActive t
      → OneActive (replace i d t)
  OneActive-replace i d e t at_i show active h j k x y = ground (
    arith,
    get-replace i d e t j at_i,
    get-replace i d e t k at_i,
    h j k x y,
    h i k e y,
    h j i x e,
  )

  -- A new call in a show without an active one leaves that so.
  pub OneActive-insert :
      (d : Call) (t : Table Call)
      → active_call_for_show d.show_id t ≡ none
      → OneActive t
      → OneActive (insert d t)
  unfolding active_call_for_show
  OneActive-insert d t free h j k x y = ground (
    arith,
    get-insert d t j,
    get-insert d t k,
    h j k x y,
    first_at-none d.show_id active_call_statuses t j x free,
    first_at-none d.show_id active_call_statuses t k y free,
  )

  patched_call-active :
      (now : ℕ) (k : Call) (target : CallStatus)
      → can_transition k.status target ≡ true
      → is_active (patched_call now k target) ≡ true
      → is_active k ≡ true
  patched_call-active now k target h a = ground arith

  -- A transition never gives a show a second active call.
  pub apply_transition-OneActive :
      (env : Env) (id : ℕ) (call : Call) (target : CallStatus) (db : Db) {db' : Db}
      → get db.calls id ≡ some call
      → apply_transition env (id, call) target db ≡ ok db'
      → OneActive db.calls
      → OneActive db'.calls
  apply_transition-OneActive env id call target db at_id h one =
      elim (apply_transition-cases env id call target db h) [
        | inl (_, same) ↦ subst (λ d. OneActive d.calls) (sym same) one
        | inr (allowed, calls, _, _, _, _) ↦ subst OneActive (sym calls) (
            OneActive-replace id (patched_call env.now call target) call db.calls at_id refl
              (patched_call-active env.now call target allowed) one)
      ]

abbrev pub expiry : Option ℕ → ℕ → Option ℕ
expiry none seconds = none
expiry (some started) seconds = some (started + seconds * 1000)

abbrev pub is_before_live : CallStatus → Bool
is_before_live CallStatus.payment_pending = true
is_before_live CallStatus.created = true
is_before_live CallStatus.connecting = true
is_before_live _ = false

-- The times of a call agree with its state: it has a start exactly from when it went live, it
-- expires its duration after that, and it has an end exactly when it is finished.
pub record IsTimed (k : Call) : Type 0 where
  pub not_started : is_before_live k.status ≡ true → k.started_at ≡ none
  pub started : k.status ≡ CallStatus.live → is_some k.started_at ≡ true
  pub expires : k.expires_at ≡ expiry k.started_at k.call_duration_seconds
  pub finished : is_some k.ended_at ≡ is_finished k.status

pub patched_call-IsTimed :
    (now : ℕ) (k : Call) (target : CallStatus)
    → can_transition k.status target ≡ true
    → IsTimed k
    → IsTimed (patched_call now k target)
patched_call-IsTimed now k target h t = ground arith

module _ ⦃c : Convex⦄ where
  -- A transition keeps the times of every call in agreement with its state.
  pub apply_transition-IsTimed :
      (env : Env) (id : ℕ) (call : Call) (target : CallStatus) (db : Db) {db' : Db}
      → get db.calls id ≡ some call
      → apply_transition env (id, call) target db ≡ ok db'
      → Every IsTimed db.calls
      → Every IsTimed db'.calls
  apply_transition-IsTimed env id call target db at_id h timed =
      elim (apply_transition-cases env id call target db h) [
        | inl (_, same) ↦ subst (λ d. Every IsTimed d.calls) (sym same) timed
        | inr (allowed, calls, _, _, _, _) ↦ subst (Every IsTimed) (sym calls) (
            Every-replace IsTimed id (patched_call env.now call target) call db.calls at_id
              (patched_call-IsTimed env.now call target allowed (timed id call at_id)) timed)
      ]
