-- ===== src/System/Effects.antt =====
-- What a mutation does to the ledger and to the refunds.
use bling.Prelude.{
  ℕ, ◌≡◌, ◌⊎◌, Bool, refl, inl, inr, not, ◌||◌, arith, is_some, Bool-cases, Option-cases, subst,
  sym, ap, String, false,
}
use bling.Store.Interface.{Convex}
use bling.Store.Rows.{Row}
use bling.Store.Queries.{Table, get, Every, Every-insert, insert}
use bling.Schema.Status.{CallStatus}
use bling.Schema.Docs.{Call, PaymentAttempt, PaymentRefund}
use bling.Schema.State.{Env, Db}
use bling.Ledger.Operations.{Posts, Postings, done, one_posting, credit_earning-Posts}
use bling.Calls.{credited, refunded, goes_live, is_finished, refund_reason}
use bling.Calls.Transitions.{apply_transition-cases}
use bling.Payments.{request_refund, needs_refund, new_refund}
use bling.Payments.Refunding.{
  OneRefund, OneRefund-replace, OneRefund-insert_outside, is_own, request_refund-OneRefund,
}
use bling.Refunds.Progress.{Rewrites, same, rewrite, Rewrites-IsBounded, IsBounded}
use bling.Payouts.Reserving.{ItemsKnown}
use bling.System.Transits.{Transits, stay, move, Ends, ends}

module _ ⦃c : Convex⦄ where
  -- What one mutation does to the refunds.
  pub data RefundsStep : Table PaymentRefund → Table PaymentRefund → Type 0 where
    writes : {t t' : Table PaymentRefund} → Rewrites t t' → RefundsStep t t'
    asks :
        {t t' : Table PaymentRefund} (now : ℕ) (a : Row PaymentAttempt) (call_id : ℕ)
        (reason : String)
        → t' ≡ (request_refund now a call_id reason t).0
        → RefundsStep t t'
    adds :
        {t t' : Table PaymentRefund} (r : PaymentRefund)
        → is_own r ≡ false
        → r.attempts ≡ 0
        → t' ≡ insert r t
        → RefundsStep t t'
    both :
        {t t' : Table PaymentRefund} (u : Table PaymentRefund)
        → RefundsStep t u
        → RefundsStep u t'
        → RefundsStep t t'

  abbrev pub kept : (t t' : Table PaymentRefund) → t' ≡ t → RefundsStep t t'
  kept t t' e = writes (same e)

  -- Bling asked for one refund at most of each payment attempt, and attempted none too often.
  abbrev pub AreRefunds : Table PaymentRefund → Type 0
  AreRefunds t = OneRefund t × Every IsBounded t

  request_refund-IsBounded :
      (now : ℕ) (a : Row PaymentAttempt) (call_id : ℕ) (reason : String) (t : Table PaymentRefund)
      → Every IsBounded t
      → Every IsBounded (request_refund now a call_id reason t).0
  unfolding request_refund
  request_refund-IsBounded now (id, a) call_id reason t h =
      elim (Bool-cases (needs_refund (id, a) t)) [
        | inl needed ↦
            rw needed
              (Every-insert IsBounded (new_refund now (id, a) call_id reason) t (omega arith) h)
        | inr settled ↦ rw settled h
      ]

  pub RefundsStep-AreRefunds :
      (t t' : Table PaymentRefund) → RefundsStep t t' → AreRefunds t → AreRefunds t'
  RefundsStep-AreRefunds t t' (writes (same e)) h = subst AreRefunds (sym e) h
  RefundsStep-AreRefunds t t' (writes (rewrite i r r' at_i own keeps e)) h = (
    subst OneRefund (sym e) (OneRefund-replace i r' r t at_i own.0 own.1 h.0),
    Rewrites-IsBounded t t' (rewrite i r r' at_i own keeps e) h.1,
  )
  RefundsStep-AreRefunds t t' (asks now (id, a) call_id reason e) h = subst AreRefunds (sym e) (
    request_refund-OneRefund now id a call_id reason t h.0,
    request_refund-IsBounded now (id, a) call_id reason t h.1,
  )
  RefundsStep-AreRefunds t t' (adds r outside new e) h =
      subst AreRefunds (sym e)
        (OneRefund-insert_outside r t outside h.0, Every-insert IsBounded r t (ground arith) h.1)
  RefundsStep-AreRefunds t t' (both u first_step next) h =
      RefundsStep-AreRefunds u t' next (RefundsStep-AreRefunds t u first_step h)

  -- What one mutation does to the ledger and the refunds.
  pub record MoneyStep (reserving : Bool) (db db' : Db) : Type 0 where
    pub posts : Postings reserving db.ledger db'.ledger
    pub refunds : RefundsStep db.refunds db'.refunds
    pub known : (reserving ≡ false) ⊎ (ItemsKnown db → ItemsKnown db')

  pub still :
      (db db' : Db) → db'.ledger ≡ db.ledger → db'.refunds ≡ db.refunds → MoneyStep false db db'
  still db db' l r = record {
    posts = done l;
    refunds = kept db.refunds db'.refunds r;
    known = inl refl;
  }

  credited-Posts :
      (env : Env) (id : ℕ) (call : Call) (target : CallStatus) (db : Db)
      → Posts false db.ledger (credited env (id, call) target db)
  unfolding credited
  credited-Posts env id call target db = elim (Bool-cases (goes_live call target)) [
    | inr other ↦ inl (ground arith)
    | inl live ↦ elim (Option-cases call.payment_attempt_id) [
      | inl free ↦ inl (ground arith)
      | inr (a, paid) ↦ elim (Option-cases (get db.attempts a)) [
        | inl gone ↦ inl (ground arith)
        | inr (attempt, there) ↦
            subst (Posts false db.ledger) (ground arith)
              (credit_earning-Posts env.hold_ms (a, attempt) id env.now db.ledger)
      ]
    ]
  ]

  refunded-RefundsStep :
      (env : Env) (id : ℕ) (call : Call) (target : CallStatus) (db : Db)
      → RefundsStep db.refunds (refunded env (id, call) target db).0
  unfolding refunded
  refunded-RefundsStep env id call target db =
      elim (Bool-cases (not (is_finished target) || is_some call.started_at)) [
        | inl other ↦ kept _ _ (ground arith)
        | inr unstarted ↦ elim (Option-cases call.payment_attempt_id) [
          | inl free ↦ kept _ _ (ground arith)
          | inr (a, paid) ↦ elim (Option-cases (get db.attempts a)) [
            | inl gone ↦ kept _ _ (ground arith)
            | inr (attempt, there) ↦
                asks env.now (a, attempt) id (refund_reason target) (ground arith)
          ]
        ]
      ]

  pub Transits-MoneyStep : (env : Env) (db db' : Db) → Transits env db db' → MoneyStep false db db'
  Transits-MoneyStep env db db' (stay e) =
      still db db' (ap (λ (d : Db). d.ledger) e) (ap (λ (d : Db). d.refunds) e)
  Transits-MoneyStep env db db' (move id call target at_id h) =
      elim (apply_transition-cases env id call target db h) [
        | inl (_, e) ↦ still db db' (ap (λ (d : Db). d.ledger) e) (ap (λ (d : Db). d.refunds) e)
        | inr (allowed, _, l, r, _, _) ↦ record {
          posts =
              one_posting false _ _
                (subst (Posts false db.ledger) (sym l) (credited-Posts env id call target db));
          known = inl refl;
          refunds =
              subst (RefundsStep db.refunds) (sym r) (refunded-RefundsStep env id call target db);
        }
      ]

  pub Ends-MoneyStep : (env : Env) (db db' : Db) → Ends env db db' → MoneyStep false db db'
  Ends-MoneyStep env db db' (ends before after _ bl br _ t _ al ar _) =
      let step = Transits-MoneyStep env before after t in
      record {
        posts =
            subst (Postings false db.ledger) al
              (subst (λ l. Postings false l after.ledger) bl step.posts);
        known = inl refl;
        refunds =
            subst (RefundsStep db.refunds) ar
              (subst (λ r. RefundsStep r after.refunds) br step.refunds);
      }
