-- ===== src/Payouts/Settled.antt =====
-- What the operations of frontend/convex/payouts.ts leave of the payouts that there were.
use bling.Prelude.{
  ℕ, ◌+◌, ◌≡◌, ◌∙◌, sym, inl, inr, refl, true, false, not, ◌||◌, Option, none, some, arith, ◌==◌,
  leb, List, [], ◌∷◌, String, str_eq, Bool, Bool-cases, Option-cases, subst, take,
}
use bling.Prelude.Int.{pos, ltb_ℤ}
use bling.Store.Interface.{Convex}
use bling.Store.Rows.{Row}
use bling.Store.Queries.{Table, get, collect, insert, replace, get-insert, get-replace, get-next_id}
use bling.Schema.Status.{PayoutItemStatus, item_eq}
use bling.Schema.Docs.{PayoutItem, PayoutRun, PayoutAccount}
use bling.Schema.State.{Env, Db}
use bling.Payouts.{
  PayoutVars, max_transfer_attempts, minimum_cents, reserve_batch_size, is_due, claimed_item,
  transfer_delay, claim_transfer, mark_paid, retry_transfer,
}
use bling.Payouts.Runs.{
  may_reserve, reserved_item, available_to, reserve, reserve_for, reserve_each, reserve_page,
  after_cursor,
}

module _ ⦃c : Convex⦄ where
  abbrev pub is_settled : PayoutItem → Bool
  is_settled a = item_eq a.status PayoutItemStatus.paid || item_eq a.status PayoutItemStatus.failed

  -- Every payout is there still, and as it was if it was paid or had failed.
  unfoldable pub ItemsKept : Table PayoutItem → Table PayoutItem → Type 0
  ItemsKept t t' =
      (i : ℕ) (a : PayoutItem)
      → get t i ≡ some a
      → (b : PayoutItem) × (get t' i ≡ some b) × (is_settled a ≡ true → b ≡ a)

  pub ItemsKept-same : (t t' : Table PayoutItem) → t' ≡ t → ItemsKept t t'
  unfolding ItemsKept
  ItemsKept-same t t' same i a at_i = (a, ground (arith, same, at_i), λ settled. refl)

  pub ItemsKept-trans : (t u v : Table PayoutItem) → ItemsKept t u → ItemsKept u v → ItemsKept t v
  unfolding ItemsKept
  ItemsKept-trans t u v h k i a at_i =
      let (b, at_u, same) = h i a at_i in
      let (d, at_v, also) = k i b at_u in
      (
        d,
        at_v,
        λ settled.
            also (subst (λ x. is_settled x ≡ true) (sym (same settled)) settled) ∙ same settled,
      )

  ItemsKept-insert : (d : PayoutItem) (t : Table PayoutItem) → ItemsKept t (insert d t)
  unfolding ItemsKept
  ItemsKept-insert d t i a at_i =
      (a, ground (arith, at_i, get-insert d t i, get-next_id t), λ settled. refl)

  -- A payout that is not settled, in a new state.
  ItemsKept-replace :
      (id : ℕ) (d e : PayoutItem) (t : Table PayoutItem)
      → get t id ≡ some e
      → is_settled e ≡ false
      → ItemsKept t (replace id d t)
  unfolding ItemsKept
  ItemsKept-replace id d e t at_id moving i a at_i = elim (Bool-cases (id == i)) [
    | inl here ↦
        let id_is : id ≡ i = ground arith in
        let own : get t i ≡ some e = subst (λ k. get t k ≡ some e) id_is at_id in
        (
          d,
          ground (arith, get-replace id d e t i at_id),
          λ settled. ground (arith, own, at_i, settled, moving),
        )
    | inr other ↦ (a, ground (arith, at_i, get-replace id d e t i at_id), λ settled. refl)
  ]

  pub claim_transfer-ItemsKept :
      (env : Env) (id : ℕ) (db : Db)
      → ItemsKept db.payouts.items (claim_transfer env id db).1.payouts.items
  unfolding claim_transfer
  claim_transfer-ItemsKept env id db = elim (Option-cases (get db.payouts.items id)) [
    | inl gone ↦ ItemsKept-same _ _ (ground arith)
    | inr (item, there) ↦
        elim (Bool-cases (leb max_transfer_attempts item.attempts || not (is_due env.now item))) [
          | inl refused ↦ ItemsKept-same _ _ (ground arith)
          | inr due ↦ subst (ItemsKept db.payouts.items) (ground arith) (
              ItemsKept-replace id (claimed_item env.now item) item db.payouts.items there
                (ground arith))
        ]
  ]

  pub mark_paid-ItemsKept :
      (env : Env) (id : ℕ) (transfer : String) (db : Db)
      → ItemsKept db.payouts.items (mark_paid env id transfer db).payouts.items
  unfolding mark_paid
  mark_paid-ItemsKept env id transfer db = elim (Option-cases (get db.payouts.items id)) [
    | inl gone ↦ ItemsKept-same _ _ (ground arith)
    | inr (item, there) ↦ elim (Bool-cases (item_eq item.status PayoutItemStatus.sending)) [
      | inr other ↦ ItemsKept-same _ _ (ground arith)
      | inl sending ↦ subst (ItemsKept db.payouts.items) (ground arith) (
          ItemsKept-replace id
            (record item {
              status = PayoutItemStatus.paid;
              stripe_transfer_id = some transfer;
              failure_code = none;
              processed_at = some env.now;
            })
            item db.payouts.items there (ground arith))
    ]
  ]

  pub retry_transfer-ItemsKept :
      (env : Env) (id : ℕ) (code : String) (db : Db)
      → ItemsKept db.payouts.items (retry_transfer env id code db).payouts.items
  unfolding retry_transfer
  retry_transfer-ItemsKept env id code db = elim (Option-cases (get db.payouts.items id)) [
    | inl gone ↦ ItemsKept-same _ _ (ground arith)
    | inr (item, there) ↦ elim (Bool-cases (item_eq item.status PayoutItemStatus.sending)) [
      | inr other ↦ ItemsKept-same _ _ (ground arith)
      | inl sending ↦ elim (Bool-cases (leb max_transfer_attempts item.attempts)) [
        | inl last ↦ subst (ItemsKept db.payouts.items) (ground arith) (
            ItemsKept-replace id
              (record item {
                status = PayoutItemStatus.failed;
                failure_code = some code;
                processed_at = some env.now;
              })
              item db.payouts.items there (ground arith))
        | inr again ↦ subst (ItemsKept db.payouts.items) (ground arith) (
            ItemsKept-replace id
              (record item {
                status = PayoutItemStatus.retry;
                failure_code = some code;
                next_attempt_at = env.now + transfer_delay item.attempts;
              })
              item db.payouts.items there (ground arith))
      ]
    ]
  ]

  reserve_for-ItemsKept :
      (now minimum run_id : ℕ) (run : PayoutRun) (account : PayoutAccount) (db : Db)
      → ItemsKept db.payouts.items (reserve_for now minimum run_id run account db).payouts.items
  unfolding reserve_for reserve
  reserve_for-ItemsKept now minimum run_id run account db =
      elim (Bool-cases (
        not (str_eq account.transfers_status "active")
        || not (may_reserve run_id account.creator_id db.payouts.items)
        || ltb_ℤ (available_to now run.currency account db) (pos minimum))) [
          | inl passed_over ↦ ItemsKept-same _ _ (ground arith)
          | inr reserved ↦ subst (ItemsKept db.payouts.items) (ground arith) (
              ItemsKept-insert
                (reserved_item now run_id run account (available_to now run.currency account db))
                db.payouts.items)
        ]

  reserve_each-ItemsKept :
      (now minimum run_id : ℕ) (run : PayoutRun) (page : List (Row PayoutAccount)) (db : Db)
      → ItemsKept db.payouts.items (reserve_each now minimum run_id run page db).payouts.items
  unfolding reserve_each
  reserve_each-ItemsKept now minimum run_id run [] db = ItemsKept-same _ _ refl
  reserve_each-ItemsKept now minimum run_id run ((_, account) ∷ rest) db =
      let next = reserve_for now minimum run_id run account db in
      ItemsKept-trans db.payouts.items next.payouts.items _
        (reserve_for-ItemsKept now minimum run_id run account db)
        (reserve_each-ItemsKept now minimum run_id run rest next)

  pub reserve_page-ItemsKept :
      (env : Env) (vars : PayoutVars) (run_id : ℕ) (cursor : Option ℕ) (db : Db)
      → ItemsKept db.payouts.items (reserve_page env vars run_id cursor db).payouts.items
  unfolding reserve_page
  reserve_page-ItemsKept env vars run_id cursor db =
      elim (Option-cases (get db.payouts.runs run_id)) [
        | inl gone ↦ ItemsKept-same _ _ (ground arith)
        | inr (run, there) ↦
            let page =
              take reserve_batch_size
                (after_cursor cursor (collect (λ a. true) db.payouts.accounts)) in
            subst (ItemsKept db.payouts.items) (ground arith)
              (reserve_each-ItemsKept env.now (minimum_cents vars.minimum) run_id run page db)
      ]
