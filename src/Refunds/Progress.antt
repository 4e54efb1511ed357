-- ===== src/Refunds/Progress.antt =====
-- How a refund moves on (frontend/convex/refunds.ts): leases and the bound on the attempts.
use bling.Prelude.{
  ℕ, ◌+◌, ◌≤◌, ◌<◌, ◌≡◌, refl, true, not, ◌||◌, Option, none, some, arith, leb, String,
  Option-cases, Bool-cases, inl, inr, subst, sym,
}
use bling.Store.Interface.{Convex}
use bling.Store.Queries.{Table, get, replace, get-replace, Every, Every-replace}
use bling.Schema.Status.{RefundStatus, refund_eq}
use bling.Schema.Docs.{PaymentRefund}
use bling.Schema.State.{Env, Db}
use bling.Refunds.{
  recorded, Outcome, claim, record_outcome, retry, is_final, is_due, max_attempts, lease_ms,
  backoff_ms,
}

abbrev pub IsBounded : PaymentRefund → Type 0
IsBounded r = r.attempts ≤ max_attempts

module _ ⦃c : Convex⦄ where
  -- While the lease of a claim runs, no second claim of the same refund succeeds, so that two runs
  -- of the action never send it to Stripe at the same time.
  pub claim_excludes_claim :
      (env later : Env) (id : ℕ) (db : Db) (r : PaymentRefund)
      → (claim env id db).0 ≡ some r
      → later.now < env.now + lease_ms
      → (claim later id (claim env id db).1).0 ≡ none
  unfolding claim
  claim_excludes_claim env later id db r h early = elim (Option-cases (get db.refunds id)) [
    | inl gone ↦ ground arith
    | inr (d, there) ↦ ground (arith, get-replace id r d db.refunds id there)
  ]

  -- The table as it was, or with one refund rewritten within the bound.
  pub data Rewrites (t t' : Table PaymentRefund) : Type 0 where
    same : t' ≡ t → Rewrites t t'
    rewrite :
        (i : ℕ) (r r' : PaymentRefund)
        → get t i ≡ some r
        → (r'.payment_attempt_id ≡ r.payment_attempt_id)
          × (r'.reason ≡ r.reason)
          × (is_final r.status ≡ true → is_final r'.status ≡ true)
        → (IsBounded r → IsBounded r')
        → t' ≡ replace i r' t
        → Rewrites t t'

  pub Rewrites-IsBounded :
      (t t' : Table PaymentRefund) → Rewrites t t' → Every IsBounded t → Every IsBounded t'
  Rewrites-IsBounded t t' (same e) h = subst (Every IsBounded) (sym e) h
  Rewrites-IsBounded t t' (rewrite i r r' at_i own keeps e) h =
      subst (Every IsBounded) (sym e) (Every-replace IsBounded i r' r t at_i (keeps (h i r at_i)) h)

  pub claim-Rewrites :
      (env : Env) (id : ℕ) (db : Db) → Rewrites db.refunds (claim env id db).1.refunds
  unfolding claim
  claim-Rewrites env id db = elim (Option-cases (get db.refunds id)) [
    | inl gone ↦ same (ground arith)
    | inr (r, there) ↦ elim (Bool-cases (leb max_attempts r.attempts || not (is_due env.now r))) [
      | inl refused ↦ same (ground arith)
      | inr due ↦
          rewrite id r
            (record r {
              status = RefundStatus.processing;
              attempts = r.attempts + 1;
              next_attempt_at = env.now + lease_ms;
            })
            there (refl, refl, λ final. ground arith) (ground arith) (ground arith)
    ]
  ]

  pub record_outcome-Rewrites :
      (env : Env) (id : ℕ) (stripe : String) (outcome : Outcome) (code : Option String) (db : Db)
      → Rewrites db.refunds (record_outcome env id stripe outcome code db).refunds
  unfolding record_outcome
  record_outcome-Rewrites env id stripe outcome code db = elim (Option-cases (get db.refunds id)) [
    | inl gone ↦ same (ground arith)
    | inr (r, there) ↦ elim (Bool-cases (is_final r.status)) [
      | inl final ↦ same (ground arith)
      | inr open_now ↦
          rewrite id r (recorded env.now stripe outcome code r) there
            (refl, refl, λ final. ground arith) (λ b. b) (ground arith)
    ]
  ]

  pub retry-Rewrites :
      (env : Env) (id : ℕ) (failure : String) (db : Db)
      → Rewrites db.refunds (retry env id failure db).refunds
  unfolding retry
  retry-Rewrites env id failure db = elim (Option-cases (get db.refunds id)) [
    | inl gone ↦ same (ground arith)
    | inr (r, there) ↦ elim (Bool-cases (refund_eq r.status RefundStatus.processing)) [
      | inr other ↦ same (ground arith)
      | inl claimed ↦ elim (Bool-cases (leb max_attempts r.attempts)) [
        | inl spent ↦
            rewrite id r
              (record r {
                status = RefundStatus.failed;
                failure_code = some failure;
                processed_at = some env.now;
              })
              there (refl, refl, λ final. ground arith) (λ b. b) (ground arith)
        | inr more ↦
            rewrite id r
              (record r {
                status = RefundStatus.retry;
                failure_code = some failure;
                next_attempt_at = env.now + backoff_ms r.attempts;
              })
              there (refl, refl, λ final. ground arith) (λ b. b) (ground arith)
      ]
    ]
  ]

  -- No refund is ever attempted more often than the maximum: the three functions that write refunds
  -- keep every count of attempts within it.
  pub refunds-IsBounded :
      (env : Env) (id : ℕ) (stripe : String) (outcome : Outcome) (code : Option String)
      (failure : String) (db : Db)
      → Every IsBounded db.refunds
      → Every IsBounded (claim env id db).1.refunds
        × Every IsBounded (record_outcome env id stripe outcome code db).refunds
        × Every IsBounded (retry env id failure db).refunds
  refunds-IsBounded env id stripe outcome code failure db h = (
    Rewrites-IsBounded db.refunds _ (claim-Rewrites env id db) h,
    Rewrites-IsBounded db.refunds _ (record_outcome-Rewrites env id stripe outcome code db) h,
    Rewrites-IsBounded db.refunds _ (retry-Rewrites env id failure db) h,
  )
