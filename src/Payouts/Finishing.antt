-- ===== src/Payouts/Finishing.antt =====
-- When a run of payouts is finished (frontend/convex/payouts.ts, `finishRuns`).
use bling.Prelude.{
  ℕ, ◌≤◌, ◌≡◌, inl, inr, refl, true, false, not, ◌&&◌, none, some, List, [], ◌∷◌, arith, ◌==◌,
  if◌then◌else◌, length, keep, Bool-cases, ◌∙◌, ap, subst,
}
use bling.Store.Interface.{Convex}
use bling.Store.Rows.{Row, lookup, IsKeyed}
use bling.Store.Queries.{Table, get, replace, get-replace, collect}
use bling.Store.Sorting.{take_enough, lookup-keep, lookup-keep_test, keep-IsKeyed}
use bling.Schema.Status.{RunStatus, PayoutItemStatus}
use bling.Schema.Docs.{PayoutRun, PayoutItem}
use bling.Schema.State.{Env, Db}
use bling.Payouts.Runs.{run_eq, has_item, is_in_flight, finish_each, finish}

module _ ⦃c : Convex⦄ where
  abbrev pub finished : (now id : ℕ) → Table PayoutItem → PayoutRun → PayoutRun
  finished now id items run = record run {
    status =
        if has_item id PayoutItemStatus.failed items
        then RunStatus.partial_failed
        else RunStatus.completed;
    completed_at = some now;
  }

  finish_each-get :
      (now : ℕ) (rs : List (Row PayoutRun)) (items : Table PayoutItem) (t : Table PayoutRun)
      (id : ℕ)
      → IsKeyed rs
      → ((i : ℕ) (d : PayoutRun) → lookup i rs ≡ some d → get t i ≡ some d)
      → get (finish_each now rs items t) id ≡ elim (lookup id rs) [
        | none ↦ get t id
        | some run ↦ if is_in_flight id items then get t id else some (finished now id items run)
      ]
  unfolding finish_each lookup
  finish_each-get now [] items t id keyed there = refl
  finish_each-get now ((j, run) ∷ rest) items t id keyed there =
      let at_j : get t j ≡ some run = there j run (ground arith) in
      elim (Bool-cases (is_in_flight j items)) [
        | inl in_flight ↦
            let same_j =
              finish_each-get now rest items t id keyed.1
                (λ i d h. there i d (ground (arith, h, keyed.0))) in
            elim (Bool-cases (j == id)) [
              | inl here ↦
                  let j_is : j ≡ id = ground arith in
                  ground (
                    arith,
                    same_j,
                    subst (λ k. is_in_flight k items ≡ true) j_is in_flight,
                    subst (λ k. lookup k rest ≡ none) j_is keyed.0,
                  )
              | inr other ↦ ground (arith, same_j)
            ]
        | inr settled ↦
            let later =
              finish_each-get now rest items (replace j (finished now j items run) t) id keyed.1
                (λ i d h. ground (
                  arith,
                  h,
                  keyed.0,
                  there i d,
                  get-replace j (finished now j items run) run t i at_j,
                )) in
            let written = get-replace j (finished now j items run) run t id at_j in
            elim (Bool-cases (j == id)) [
              | inl here ↦
                  let j_is : j ≡ id = ground arith in
                  ground (
                    arith,
                    later,
                    written,
                    subst (λ k. is_in_flight k items ≡ false) j_is settled,
                    subst (λ k. lookup k rest ≡ none) j_is keyed.0,
                    ap (λ k. finished now k items run) j_is,
                  )
              | inr other ↦ ground (arith, later, written)
            ]
      ]

  -- Where no more than twelve runs are being processed, finishing them completes each that has no payout
  -- in flight, as failed in part where one of its payouts failed, and leaves every other run as it was.
  pub finish-completes :
      (env : Env) (db : Db) (id : ℕ) (run : PayoutRun)
      → length (collect (λ r. run_eq r.status RunStatus.processing) db.payouts.runs) ≤ 12
      → get db.payouts.runs id ≡ some run
      → get (finish env db).payouts.runs id
        ≡ some (
            if run_eq run.status RunStatus.processing && not (is_in_flight id db.payouts.items)
            then finished env.now id db.payouts.items run
            else run)
  unfolding finish collect get
  finish-completes env db id run few there =
      let processing = λ (r : PayoutRun). run_eq r.status RunStatus.processing in
      let t = db.payouts.runs in
      let rs = keep (λ r. processing r.1) (c.rows t) in
      let all = take_enough 12 rs few in
      let after =
        finish_each-get env.now rs db.payouts.items t id
          (keep-IsKeyed processing (c.rows t) (c.keyed t))
          (λ i d h. (lookup-keep processing (c.rows t) i d (c.keyed t) h).0) in
      let own = lookup-keep_test processing (c.rows t) id run (c.keyed t) there in
      ap (λ l. get (finish_each env.now l db.payouts.items t) id) all
      ∙ after
      ∙ ground (arith, own, there)
