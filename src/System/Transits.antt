-- ===== src/System/Transits.antt =====
-- The mutations that move a call, as runs of `applyTransition` (frontend/convex/calls.ts, presence.ts
-- and shows.ts).
use bling.Prelude.{
  ℕ, ◌≡◌, inl, inr, refl, not, ◌&&◌, ◌||◌, some, arith, ◌==◌, ltb, List, [], ◌∷◌, Bool-cases,
  Option-cases, opt_eq, or_else, subst, ap,
}
use bling.Prelude.Result.{ok, Result-cases}
use bling.Store.Interface.{Convex}
use bling.Store.Rows.{Row}
use bling.Store.Queries.{Table, get, first, get-first, replace}
use bling.Schema.Status.{CallStatus, ShowStatus, Role, call_eq, show_eq}
use bling.Schema.Docs.{Call, Show}
use bling.Schema.State.{Env, Db}
use bling.Calls.{
  first_at, active_call_for_show, active_call_statuses, apply_transition, includes,
  connectable_statuses,
}
use bling.Calls.Lifecycle.{transition, expire}
use bling.Presence
use bling.Accounts.{require_creator_id, show_for_creator}
use bling.Social.{on_show_ended}
use bling.Shows
use bling.System.Steps.{CallsStep, same, apply_transition-CallsStep}

module _ ⦃c : Convex⦄ where
  pub data Transits (env : Env) (db db' : Db) : Type 0 where
    stay : db' ≡ db → Transits env db db'
    move :
        (id : ℕ) (call : Call) (target : CallStatus)
        → get db.calls id ≡ some call
        → apply_transition env (id, call) target db ≡ ok db'
        → Transits env db db'

  pub Transits-CallsStep :
      (env : Env) (db db' : Db) → Transits env db db' → CallsStep db.calls db'.calls
  Transits-CallsStep env db db' (stay e) = same (ap (λ (d : Db). d.calls) e)
  Transits-CallsStep env db db' (move id call target at_id h) =
      apply_transition-CallsStep env id call target db db' at_id h

  pub transition-Transits :
      (env : Env) (id : ℕ) (target : CallStatus) (db db' : Db)
      → transition env id target db ≡ ok db'
      → Transits env db db'
  unfolding transition
  transition-Transits env id target db db' h = elim (Option-cases (get db.calls id)) [
    | inl e ↦ ground arith
    | inr (call, e) ↦ move id call target e (ground arith)
  ]

  pub expire-Transits :
      (env : Env) (id : ℕ) (db db' : Db) → expire env id db ≡ ok db' → Transits env db db'
  unfolding expire
  expire-Transits env id db db' h = elim (Option-cases (get db.calls id)) [
    | inl e ↦ stay (ground arith)
    | inr (call, e) ↦
        elim (Bool-cases
          (not (call_eq call.status CallStatus.live) || ltb env.now (or_else call.expires_at 0))) [
            | inl early ↦ stay (ground arith)
            | inr late ↦ move id call CallStatus.ended e (ground arith)
          ]
  ]

  pub check_grace-Transits :
      (env : Env) (id : ℕ) (role : Role) (at : ℕ) (db db' : Db)
      → Presence.check_grace_at env id role at db ≡ ok db'
      → Transits env db db'
  unfolding Presence.check_grace_at
  check_grace-Transits env id role at db db' h =
      elim (Option-cases (Presence.presence_row id role db.presence)) [
        | inl gone ↦ stay (ground arith)
        | inr ((i, p), there) ↦ elim (Option-cases (get db.calls id)) [
          | inl e ↦ stay (ground arith)
          | inr (call, e) ↦
              elim (Bool-cases
                (opt_eq p.disconnected_at at && includes connectable_statuses call.status)) [
                  | inl late ↦ move id call CallStatus.failed e (ground arith)
                  | inr back ↦ stay (ground arith)
                ]
        ]
      ]

  get-first_at :
      (sid : ℕ) (statuses : List CallStatus) (t : Table Call) (r : Row Call)
      → first_at sid statuses t ≡ some r
      → get t r.0 ≡ some r.1
  unfolding first_at
  get-first_at sid [] t r h = ground arith
  get-first_at sid (s ∷ rest) t r h =
      elim (Option-cases (first (λ k. k.show_id == sid && call_eq k.status s) t)) [
        | inl none_here ↦ get-first_at sid rest t r (ground arith)
        | inr (found, here) ↦
            (get-first (λ k. k.show_id == sid && call_eq k.status s) t r (ground arith)).0
      ]

  pub end_open_call-Transits :
      (env : Env) (sid : ℕ) (db db' : Db)
      → Shows.end_open_call env sid db ≡ ok db'
      → Transits env db db'
  unfolding Shows.end_open_call active_call_for_show
  end_open_call-Transits env sid db db' h =
      elim (Option-cases (first_at sid active_call_statuses db.calls)) [
        | inl none_open ↦ stay (ground arith)
        | inr ((id, call), open_call) ↦
            elim (Bool-cases (includes connectable_statuses call.status)) [
              | inl connectable ↦
                  move id call CallStatus.ended
                    (get-first_at sid active_call_statuses db.calls (id, call) open_call)
                    (ground arith)
              | inr waiting ↦ stay (ground arith)
            ]
      ]

  -- Ending a show, as what `end` writes around the transition: the show and its public projections
  -- before it, and what is scheduled after it.
  pub data Ends (env : Env) (db db' : Db) : Type 0 where
    ends :
        (before after : Db)
        → before.calls ≡ db.calls
        → before.ledger ≡ db.ledger
        → before.refunds ≡ db.refunds
        → before.entries ≡ db.entries
        → Transits env before after
        → after.calls ≡ db'.calls
        → after.ledger ≡ db'.ledger
        → after.refunds ≡ db'.refunds
        → after.entries ≡ db'.entries
        → Ends env db db'

  close_show-Ends :
      (env : Env) (sid : ℕ) (s : Show) (db db' : Db)
      → Shows.close_show env sid s db ≡ ok db'
      → Ends env db db'
  unfolding Shows.close_show
  close_show-Ends env sid s db db' h =
      let before : Db = record db {
        shows =
            replace sid (record s { status = ShowStatus.ended; ended_at = some env.now }) db.shows;
        social = on_show_ended (sid, s) db.social;
      } in
      elim (Result-cases (Shows.end_open_call env sid before)) [
        | inl (x, failing) ↦ ground arith
        | inr (d, closed) ↦
            ends before d refl refl refl refl (end_open_call-Transits env sid before d closed)
              (ground arith) (ground arith) (ground arith) (ground arith)
      ]

  pub end-Ends :
      (env : Env) (sid : ℕ) (db db' : Db) → Shows.end env sid db ≡ ok db' → Ends env db db'
  unfolding Shows.end
  end-Ends env sid db db' h = elim (Result-cases (require_creator_id env db)) [
    | inl (x, failing) ↦ ground arith
    | inr (creator_id, signed_in) ↦ elim (Result-cases (show_for_creator sid creator_id db)) [
      | inl (x, failing) ↦ ground arith
      | inr (s, owned) ↦ elim (Bool-cases (show_eq s.status ShowStatus.ended)) [
        | inl again ↦
            ends db db refl refl refl refl (stay refl) (ground arith) (ground arith) (ground arith)
              (ground arith)
        | inr open_now ↦ close_show-Ends env sid s db db' (ground arith)
      ]
    ]
  ]

  pub Ends-CallsStep : (env : Env) (db db' : Db) → Ends env db db' → CallsStep db.calls db'.calls
  Ends-CallsStep env db db' (ends before after b _ _ _ t a _ _ _) =
      subst (CallsStep db.calls) a
        (subst (λ x. CallsStep x after.calls) b (Transits-CallsStep env before after t))
