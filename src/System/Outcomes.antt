-- ===== src/System/Outcomes.antt =====
-- The refunds whose outcome is final (frontend/convex/refunds.ts, webhooks.ts) under the mutations
-- of `Op`.
use bling.Prelude.{
  ℕ, ◌≡◌, String, refl, true, inl, inr, arith, ◌==◌, none, some, List, subst, sym, Bool-cases,
}
use bling.Store.Interface.{Convex}
use bling.Store.Rows.{Row}
use bling.Store.Queries.{Table, get, insert, get-insert, get-replace, get-next_id}
use bling.Schema.Docs.{PaymentRefund, PaymentAttempt}
use bling.Schema.State.{Env, Db}
use bling.Payments.{request_refund, needs_refund}
use bling.Refunds.{claim, is_final}
use bling.Refunds.Progress.{same, rewrite}
use bling.System.{Op, serve, serve_induction}
use bling.System.Effects.{RefundsStep, writes, asks, adds, both}
use bling.System.Money.{run-MoneyStep}

module _ ⦃c : Convex⦄ where
  -- The table holds a refund of the payment attempt, with a final outcome, under the id.
  abbrev IsOver : (id attempt_id : ℕ) → Table PaymentRefund → Type 0
  IsOver id attempt_id t =
      (r : PaymentRefund) × (get t id ≡ some r)
      × (r.payment_attempt_id ≡ attempt_id)
      × (is_final r.status ≡ true)

  get-insert_known :
      (d r : PaymentRefund) (t : Table PaymentRefund) (id : ℕ)
      → get t id ≡ some r
      → get (insert d t) id ≡ some r
  get-insert_known d r t id at_id = ground (arith, at_id, get-insert d t id, get-next_id t)

  request_refund-keeps :
      (now : ℕ) (a : Row PaymentAttempt) (call_id : ℕ) (reason : String) (t : Table PaymentRefund)
      (id : ℕ) (r : PaymentRefund)
      → get t id ≡ some r
      → get (request_refund now a call_id reason t).0 id ≡ some r
  unfolding request_refund
  request_refund-keeps now a call_id reason t id r at_id = elim (Bool-cases (needs_refund a t)) [
    | inl needed ↦ rw needed (get-insert_known _ r t id at_id)
    | inr settled ↦ rw settled at_id
  ]

  RefundsStep-IsOver :
      (id attempt_id : ℕ) (t t' : Table PaymentRefund)
      → RefundsStep t t'
      → IsOver id attempt_id t
      → IsOver id attempt_id t'
  RefundsStep-IsOver id attempt_id t t' (writes (same e)) h = subst (IsOver id attempt_id) (sym e) h
  RefundsStep-IsOver id attempt_id t t' (writes (rewrite i d d' at_i own keeps e))
        (r, at_id, of, final) =
      elim (Bool-cases (id == i)) [
        | inl here ↦ (
          d',
          ground (arith, e, get-replace i d' d t id at_i, here),
          ground (arith, own.0, of, at_i, at_id, here),
          own.2 (ground (arith, final, at_i, at_id, here)),
        )
        | inr elsewhere ↦
            (r, ground (arith, e, get-replace i d' d t id at_i, elsewhere, at_id), of, final)
      ]
  RefundsStep-IsOver id attempt_id t t' (asks now a call_id reason e) (r, at_id, of, final) =
      subst (IsOver id attempt_id) (sym e)
        (r, request_refund-keeps now a call_id reason t id r at_id, of, final)
  RefundsStep-IsOver id attempt_id t t' (adds d outside new e) (r, at_id, of, final) =
      subst (IsOver id attempt_id) (sym e) (r, get-insert_known d r t id at_id, of, final)
  RefundsStep-IsOver id attempt_id t t' (both u first_step next) h =
      RefundsStep-IsOver id attempt_id u t' next (RefundsStep-IsOver id attempt_id t u first_step h)

  -- Whatever mutations of `Op` run, with any arguments, by any users and in any order, errors included:
  -- a refund that succeeded or failed is after them still a refund of the same payment attempt that
  -- succeeded or failed, though it may be the other of the two, and a claim of it, at any time, gets
  -- nothing and leaves the state as it is.
  pub serve-final :
      (db : Db) (history : List (Env × Op)) (id : ℕ) (r : PaymentRefund) (later : Env)
      → get db.refunds id ≡ some r
      → is_final r.status ≡ true
      → ((r' : PaymentRefund) × (get (serve db history).refunds id ≡ some r')
          × (r'.payment_attempt_id ≡ r.payment_attempt_id)
          × (is_final r'.status ≡ true))
        × (claim later id (serve db history) ≡ (none, serve db history))
  unfolding claim
  serve-final db history id r later at_id final =
      let (r', there, of, over) =
        serve_induction (λ (d : Db). IsOver id r.payment_attempt_id d.refunds)
          (λ env op d d' e h.
            RefundsStep-IsOver id r.payment_attempt_id d.refunds d'.refunds
              (run-MoneyStep env op d d' e).refunds h)
          db history (r, at_id, refl, final) in
      ((r', there, of, over), ground arith)
