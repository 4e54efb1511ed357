-- ===== src/System/Steps.antt =====
-- What one mutation does to the table of calls.
use bling.Prelude.{
  ℕ, ◌≡◌, inl, inr, refl, true, none, some, arith, [], map, Option-cases, subst, sym, ap,
}
use bling.Prelude.Result.{ok, Result-cases}
use bling.Store.Interface.{Convex}
use bling.Store.Rows.{Row}
use bling.Store.Queries.{Table, get, replace, insert, Every, Every-replace, Every-insert}
use bling.Schema.Status.{CallStatus, SelectionMode}
use bling.Schema.Docs.{Call, Show, QueueEntry}
use bling.Schema.State.{Env, Db}
use bling.Calls.{active_call_for_show, patched_call, apply_transition, can_transition}
use bling.Calls.Transitions.{
  is_active, OneActive, OneActive-replace, OneActive-insert, IsTimed, apply_transition-cases,
  patched_call-IsTimed,
}
use bling.Calls.Selection.{
  create_call, new_call, attempt_of, prepare_selection, select, select_random, pick_from, distinct,
  tiers_desc,
}

module _ ⦃c : Convex⦄ where
  -- A call stays in its show, is active only if it was, and keeps its times in agreement.
  pub record Change (k k' : Call) : Type 0 where
    pub same_show : k'.show_id ≡ k.show_id
    pub no_reopening : is_active k' ≡ true → is_active k ≡ true
    pub keeps_times : IsTimed k → IsTimed k'

  -- What one mutation does to the calls.
  pub data CallsStep (t t' : Table Call) : Type 0 where
    same : t' ≡ t → CallsStep t t'
    change :
        (i : ℕ) (k k' : Call)
        → get t i ≡ some k
        → Change k k'
        → t' ≡ replace i k' t
        → CallsStep t t'
    open_call :
        (k : Call)
        → active_call_for_show k.show_id t ≡ none
        → IsTimed k
        → t' ≡ insert k t
        → CallsStep t t'

  abbrev pub IsSound : Table Call → Type 0
  IsSound t = OneActive t × Every IsTimed t

  pub CallsStep-IsSound : (t t' : Table Call) → CallsStep t t' → IsSound t → IsSound t'
  CallsStep-IsSound t t' (same e) h = subst IsSound (sym e) h
  CallsStep-IsSound t t' (change i k k' at_i ch e) h = subst IsSound (sym e) (
    OneActive-replace i k' k t at_i ch.same_show ch.no_reopening h.0,
    Every-replace IsTimed i k' k t at_i (ch.keeps_times (h.1 i k at_i)) h.1,
  )
  CallsStep-IsSound t t' (open_call k free timed e) h =
      subst IsSound (sym e) (OneActive-insert k t free h.0, Every-insert IsTimed k t timed h.1)

  pub patched_call-Change :
      (now : ℕ) (k : Call) (target : CallStatus)
      → can_transition k.status target ≡ true
      → Change k (patched_call now k target)
  patched_call-Change now k target h = record {
    same_show = refl;
    no_reopening = λ a. ground arith;
    keeps_times = λ t. patched_call-IsTimed now k target h t;
  }

  pub apply_transition-CallsStep :
      (env : Env) (id : ℕ) (call : Call) (target : CallStatus) (db db' : Db)
      → get db.calls id ≡ some call
      → apply_transition env (id, call) target db ≡ ok db'
      → CallsStep db.calls db'.calls
  apply_transition-CallsStep env id call target db db' at_id h =
      elim (apply_transition-cases env id call target db h) [
        | inl (_, e) ↦ same (ap (λ d. d.calls) e)
        | inr (allowed, e, _, _, _, _) ↦
            change id call (patched_call env.now call target) at_id
              (patched_call-Change env.now call target allowed) e
      ]

  create_call-CallsStep :
      (env : Env) (s : Row Show) (e : Row QueueEntry) (mode : SelectionMode) (db : Db) (r : ℕ × Db)
      → active_call_for_show s.0 db.calls ≡ none
      → create_call env s e mode db ≡ ok r
      → CallsStep db.calls r.1.calls
  unfolding create_call
  create_call-CallsStep env (sid, s) (eid, e) mode db r free h =
      open_call (new_call sid s (eid, e) (attempt_of e db) mode) free (ground arith) (ground arith)

  prepare_selection-free :
      (env : Env) (sid : ℕ) (db : Db) (s : Show)
      → prepare_selection env sid db ≡ ok s
      → active_call_for_show sid db.calls ≡ none
  unfolding prepare_selection
  prepare_selection-free env sid db s h = ground arith

  pub select-CallsStep :
      (env : Env) (sid eid : ℕ) (db : Db) (r : ℕ × Db)
      → select env sid eid db ≡ ok r
      → CallsStep db.calls r.1.calls
  unfolding select
  select-CallsStep env sid eid db r h = elim (Result-cases (prepare_selection env sid db)) [
    | inl (x, failing) ↦ ground arith
    | inr (s, prepared) ↦ elim (Option-cases (get db.entries eid)) [
      | inl gone ↦ ground arith
      | inr (e, there) ↦
          create_call-CallsStep env (sid, s) (eid, e) SelectionMode.manual db r
            (prepare_selection-free env sid db s prepared) (ground arith)
    ]
  ]

  pub select_random-CallsStep :
      (env : Env) (draw : ℕ → ℕ) (sid : ℕ) (db : Db) (r : ℕ × Db)
      → select_random env draw sid db ≡ ok r
      → CallsStep db.calls r.1.calls
  unfolding select_random
  select_random-CallsStep env draw sid db r h = elim (Result-cases (prepare_selection env sid db)) [
    | inl (x, failing) ↦ ground arith
    | inr (s, prepared) ↦
        elim (Option-cases (
          pick_from draw sid (distinct [] (map (λ t. t.1.priority_rank) (tiers_desc sid db)))
            db.entries)) [
              | inl gone ↦ ground arith
              | inr (e, there) ↦
                  create_call-CallsStep env (sid, s) e SelectionMode.random db r
                    (prepare_selection-free env sid db s prepared) (ground arith)
            ]
  ]
