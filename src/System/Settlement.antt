-- ===== src/System/Settlement.antt =====
-- What settling a payment does to the table of calls.
use bling.Prelude.{
  ℕ, ◌≡◌, inl, inr, refl, Bool, true, not, Option, some, arith, ◌&&◌, if◌then◌else◌, is_some,
  Bool-cases, Option-cases, subst, opt_eq, String,
}
use bling.Prelude.Result.{ok, Result-cases}
use bling.Store.Interface.{Convex}
use bling.Store.Rows.{Row}
use bling.Store.Queries.{Table, get, first, get-first, replace, patch}
use bling.Schema.Status.{CallStatus, PaymentStatus, call_eq, payment_eq}
use bling.Schema.Docs.{Call, PaymentAttempt}
use bling.Schema.State.{Env, Db}
use bling.Payments.{
  call_for_attempt, fail_pending_call, settle_captured_call, record_captured, captured_attempt,
  show_is_live, fail_waiting_call, record_not_captured,
}
use bling.Payments.Attempts.{captured, not_captured}
use bling.System.Steps.{Change, CallsStep, same, change}

module _ ⦃c : Convex⦄ where
  -- A call that waits for its payment has neither a start nor an end.
  opened-Change :
      (k : Call)
      → call_eq k.status CallStatus.payment_pending ≡ true
      → Change k (record k { status = CallStatus.created })
  opened-Change k h = record {
    same_show = refl;
    no_reopening = λ a. ground arith;
    keeps_times = λ t. ground arith;
  }

  failed-Change :
      (now : ℕ) (k : Call)
      → call_eq k.status CallStatus.payment_pending ≡ true
      → Change k (record k { status = CallStatus.failed; ended_at = some now })
  failed-Change now k h = record {
    same_show = refl;
    no_reopening = λ a. ground arith;
    keeps_times = λ t. ground arith;
  }

  fail_pending_call-CallsStep :
      (now id : ℕ) (k : Call) (db db' : Db)
      → get db.calls id ≡ some k
      → fail_pending_call now (id, k) db ≡ ok db'
      → CallsStep db.calls db'.calls
  unfolding fail_pending_call patch
  fail_pending_call-CallsStep now id k db db' at_id h =
      elim (Bool-cases (call_eq k.status CallStatus.payment_pending)) [
        | inl waits ↦
            change id k (record k { status = CallStatus.failed; ended_at = some now }) at_id
              (failed-Change now k waits) (ground arith)
        | inr open_call ↦ same (ground arith)
      ]

  settle_captured_call-CallsStep :
      (now : ℕ) (a : Row PaymentAttempt) (id : ℕ) (k : Call) (db db' : Db)
      → get db.calls id ≡ some k
      → settle_captured_call now a (id, k) db ≡ ok db'
      → CallsStep db.calls db'.calls
  unfolding settle_captured_call
  settle_captured_call-CallsStep now a id k db db' at_id h =
      elim (Bool-cases (call_eq k.status CallStatus.payment_pending && show_is_live k.show_id db)) [
        | inl waits ↦
            change id k (record k { status = CallStatus.created }) at_id
              (opened-Change k (ground arith)) (ground arith)
        | inr other ↦ elim (Result-cases (fail_pending_call now (id, k) db)) [
          | inl (x, failing) ↦ same (ground arith)
          | inr (d, failed) ↦
              elim (Bool-cases (not (is_some k.started_at) && not (show_is_live k.show_id db))) [
                | inl late ↦
                    subst (CallsStep db.calls) (ground arith)
                      (fail_pending_call-CallsStep now id k db d at_id failed)
                | inr live ↦ same (ground arith)
              ]
        ]
      ]

  pub record_captured-CallsStep :
      (now id : ℕ) (a : PaymentAttempt) (db db' : Db)
      → record_captured now (id, a) db ≡ ok db'
      → CallsStep db.calls db'.calls
  unfolding record_captured call_for_attempt
  record_captured-CallsStep now id a db db' h =
      elim (Option-cases (first (λ k. opt_eq k.payment_attempt_id id) db.calls)) [
        | inl gone ↦ same (ground arith)
        | inr ((call_id, k), there) ↦
            settle_captured_call-CallsStep now (id, captured_attempt now a) call_id k
              (record db {
                attempts =
                    if payment_eq a.status PaymentStatus.captured
                    then db.attempts
                    else replace id (captured_attempt now a) db.attempts;
              })
              db' (get-first (λ k. opt_eq k.payment_attempt_id id) db.calls (call_id, k) there).0
              (ground arith)
      ]

  pub captured-CallsStep :
      (env : Env) (id : ℕ) (db db' : Db)
      → captured env id db ≡ ok db'
      → CallsStep db.calls db'.calls
  unfolding captured
  captured-CallsStep env id db db' h = elim (Option-cases (get db.attempts id)) [
    | inl gone ↦ same (ground arith)
    | inr (a, there) ↦ record_captured-CallsStep env.now id a db db' (ground arith)
  ]

  fail_waiting_call-CallsStep :
      (now id : ℕ) (k : Call) (t : Table Call)
      → get t id ≡ some k
      → CallsStep t (fail_waiting_call now (some (id, k)) t)
  unfolding fail_waiting_call
  fail_waiting_call-CallsStep now id k t at_id =
      elim (Bool-cases (call_eq k.status CallStatus.payment_pending)) [
        | inl waits ↦
            change id k (record k { status = CallStatus.failed; ended_at = some now }) at_id
              (failed-Change now k waits) (ground arith)
        | inr open_call ↦ same (ground arith)
      ]

  pub record_not_captured-CallsStep :
      (now id : ℕ) (a : PaymentAttempt) (status : PaymentStatus) (code : Option String) (db : Db)
      → CallsStep db.calls (record_not_captured now (id, a) status code db).calls
  unfolding record_not_captured call_for_attempt fail_waiting_call
  record_not_captured-CallsStep now id a status code db =
      elim (Option-cases (first (λ k. opt_eq k.payment_attempt_id id) db.calls)) [
        | inl gone ↦ same (ground arith)
        | inr ((call_id, k), there) ↦
            elim (Bool-cases (payment_eq a.status PaymentStatus.captured)) [
              | inl done ↦ same (ground arith)
              | inr open_now ↦ subst (CallsStep db.calls) (ground arith) (
                  fail_waiting_call-CallsStep now call_id k db.calls
                    (get-first (λ k. opt_eq k.payment_attempt_id id) db.calls (call_id, k) there).0)
            ]
      ]

  pub not_captured-CallsStep :
      (env : Env) (id : ℕ) (canceled : Bool) (code : Option String) (db : Db)
      → CallsStep db.calls (not_captured env id canceled code db).calls
  unfolding not_captured
  not_captured-CallsStep env id canceled code db = elim (Option-cases (get db.attempts id)) [
    | inl gone ↦ same (ground arith)
    | inr (a, there) ↦ subst (CallsStep db.calls) (ground arith) (
        record_not_captured-CallsStep env.now id a
          (if canceled then PaymentStatus.canceled else PaymentStatus.failed) code db)
  ]
