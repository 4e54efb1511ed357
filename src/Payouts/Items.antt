-- ===== src/Payouts/Items.antt =====
-- The items of payouts under the operations of frontend/convex/payouts.ts that write them.
use bling.Prelude.{
  ℕ, ◌+◌, ◌≤◌, ◌≡◌, inl, inr, refl, true, false, not, ◌&&◌, ◌||◌, Option, none, some, arith, ◌==◌,
  leb, List, [], ◌∷◌, String, str_eq, Bool-cases, Option-cases, subst, take,
}
use bling.Prelude.Int.{pos, ltb_ℤ}
use bling.Store.Interface.{Convex}
use bling.Store.Rows.{Row}
use bling.Store.Queries.{Table, get, first-none, collect, insert, replace, get-insert, get-replace}
use bling.Schema.Status.{PayoutItemStatus, item_eq}
use bling.Schema.Docs.{PayoutItem, PayoutRun, PayoutAccount}
use bling.Schema.State.{Env, Db}
use bling.Payouts.{
  PayoutVars, max_transfer_attempts, minimum_cents, reserve_batch_size, is_due, claimed_item,
  transfer_delay, claim_transfer, mark_paid, retry_transfer,
}
use bling.Payouts.Runs.{
  is_unsettled, may_reserve, reserved_item, available_to, reserve, reserve_for, reserve_each,
  reserve_page, after_cursor,
}

module _ ⦃c : Convex⦄ where
  -- No creator has two payouts that are not settled, and none was sent more often than allowed.
  pub record AreItems (t : Table PayoutItem) : Type 0 where
    pub one_unsettled :
        (i j : ℕ) (a b : PayoutItem)
        → get t i ≡ some a
        → get t j ≡ some b
        → is_unsettled a ≡ true
        → is_unsettled b ≡ true
        → a.creator_id ≡ b.creator_id
        → i ≡ j
    pub few_attempts :
        (i : ℕ) (a : PayoutItem) → get t i ≡ some a → a.attempts ≤ max_transfer_attempts

  -- A new state of an item: of the same creator, and not settled only if it was not before.
  pub AreItems-replace :
      (id : ℕ) (d e : PayoutItem) (t : Table PayoutItem)
      → get t id ≡ some e
      → d.creator_id ≡ e.creator_id
      → (is_unsettled d ≡ true → is_unsettled e ≡ true)
      → d.attempts ≤ max_transfer_attempts
      → AreItems t
      → AreItems (replace id d t)
  AreItems-replace id d e t at_id same open_before few h = record {
    one_unsettled = λ i j a b x y u v s. ground (
      arith,
      get-replace id d e t i at_id,
      get-replace id d e t j at_id,
      h.one_unsettled i j a b,
      h.one_unsettled i id a e,
      h.one_unsettled id j e b,
      open_before,
    );
    few_attempts = λ i a x. ground (arith, get-replace id d e t i at_id, h.few_attempts i a);
  }

  may_reserve-free :
      (run_id creator_id : ℕ) (t : Table PayoutItem) (i : ℕ) (a : PayoutItem)
      → may_reserve run_id creator_id t ≡ true
      → get t i ≡ some a
      → a.creator_id ≡ creator_id
      → is_unsettled a ≡ false
  may_reserve-free run_id creator_id t i a may x same = ground (
    arith,
    first-none (λ i. i.creator_id == creator_id && item_eq i.status PayoutItemStatus.reserved) t i
        a,
    first-none (λ i. i.creator_id == creator_id && item_eq i.status PayoutItemStatus.sending) t i a,
    first-none (λ i. i.creator_id == creator_id && item_eq i.status PayoutItemStatus.retry) t i a,
    first-none (λ i. i.creator_id == creator_id && item_eq i.status PayoutItemStatus.failed) t i a,
  )

  AreItems-insert :
      (run_id : ℕ) (d : PayoutItem) (t : Table PayoutItem)
      → may_reserve run_id d.creator_id t ≡ true
      → d.attempts ≤ max_transfer_attempts
      → AreItems t
      → AreItems (insert d t)
  AreItems-insert run_id d t may few h = record {
    one_unsettled = λ i j a b x y u v s. ground (
      arith,
      get-insert d t i,
      get-insert d t j,
      h.one_unsettled i j a b,
      may_reserve-free run_id d.creator_id t i a may,
      may_reserve-free run_id d.creator_id t j b may,
    );
    few_attempts = λ i a x. ground (arith, get-insert d t i, h.few_attempts i a);
  }

  pub claim_transfer-AreItems :
      (env : Env) (id : ℕ) (db : Db)
      → AreItems db.payouts.items
      → AreItems (claim_transfer env id db).1.payouts.items
  unfolding claim_transfer
  claim_transfer-AreItems env id db h = elim (Option-cases (get db.payouts.items id)) [
    | inl gone ↦ subst AreItems (ground arith) h
    | inr (item, there) ↦
        elim (Bool-cases (leb max_transfer_attempts item.attempts || not (is_due env.now item))) [
          | inl refused ↦ subst AreItems (ground arith) h
          | inr due ↦ subst AreItems (ground arith) (
              AreItems-replace id (claimed_item env.now item) item db.payouts.items there refl
                (ground arith) (ground arith) h)
        ]
  ]

  pub mark_paid-AreItems :
      (env : Env) (id : ℕ) (transfer : String) (db : Db)
      → AreItems db.payouts.items
      → AreItems (mark_paid env id transfer db).payouts.items
  unfolding mark_paid
  mark_paid-AreItems env id transfer db h = elim (Option-cases (get db.payouts.items id)) [
    | inl gone ↦ subst AreItems (ground arith) h
    | inr (item, there) ↦ elim (Bool-cases (item_eq item.status PayoutItemStatus.sending)) [
      | inr other ↦ subst AreItems (ground arith) h
      | inl sending ↦ subst AreItems (ground arith) (
          AreItems-replace id
            (record item {
              status = PayoutItemStatus.paid;
              stripe_transfer_id = some transfer;
              failure_code = none;
              processed_at = some env.now;
            })
            item db.payouts.items there refl (ground arith) (h.few_attempts id item there) h)
    ]
  ]

  pub retry_transfer-AreItems :
      (env : Env) (id : ℕ) (code : String) (db : Db)
      → AreItems db.payouts.items
      → AreItems (retry_transfer env id code db).payouts.items
  unfolding retry_transfer
  retry_transfer-AreItems env id code db h = elim (Option-cases (get db.payouts.items id)) [
    | inl gone ↦ subst AreItems (ground arith) h
    | inr (item, there) ↦ elim (Bool-cases (item_eq item.status PayoutItemStatus.sending)) [
      | inr other ↦ subst AreItems (ground arith) h
      | inl sending ↦ elim (Bool-cases (leb max_transfer_attempts item.attempts)) [
        | inl last ↦ subst AreItems (ground arith) (
            AreItems-replace id
              (record item {
                status = PayoutItemStatus.failed;
                failure_code = some code;
                processed_at = some env.now;
              })
              item db.payouts.items there refl (ground arith) (h.few_attempts id item there) h)
        | inr again ↦ subst AreItems (ground arith) (
            AreItems-replace id
              (record item {
                status = PayoutItemStatus.retry;
                failure_code = some code;
                next_attempt_at = env.now + transfer_delay item.attempts;
              })
              item db.payouts.items there refl (ground arith) (h.few_attempts id item there) h)
      ]
    ]
  ]

  reserve_for-AreItems :
      (now minimum run_id : ℕ) (run : PayoutRun) (account : PayoutAccount) (db : Db)
      → AreItems db.payouts.items
      → AreItems (reserve_for now minimum run_id run account db).payouts.items
  unfolding reserve_for reserve
  reserve_for-AreItems now minimum run_id run account db h =
      elim (Bool-cases (
        not (str_eq account.transfers_status "active")
        || not (may_reserve run_id account.creator_id db.payouts.items)
        || ltb_ℤ (available_to now run.currency account db) (pos minimum))) [
          | inl passed_over ↦ subst AreItems (ground arith) h
          | inr reserved ↦ subst AreItems (ground arith) (
              AreItems-insert run_id
                (reserved_item now run_id run account (available_to now run.currency account db))
                db.payouts.items (ground arith) (ground arith) h)
        ]

  reserve_each-AreItems :
      (now minimum run_id : ℕ) (run : PayoutRun) (page : List (Row PayoutAccount)) (db : Db)
      → AreItems db.payouts.items
      → AreItems (reserve_each now minimum run_id run page db).payouts.items
  unfolding reserve_each
  reserve_each-AreItems now minimum run_id run [] db h = h
  reserve_each-AreItems now minimum run_id run ((_, account) ∷ rest) db h =
      reserve_each-AreItems now minimum run_id run rest
        (reserve_for now minimum run_id run account db)
        (reserve_for-AreItems now minimum run_id run account db h)

  pub reserve_page-AreItems :
      (env : Env) (vars : PayoutVars) (run_id : ℕ) (cursor : Option ℕ) (db : Db)
      → AreItems db.payouts.items
      → AreItems (reserve_page env vars run_id cursor db).payouts.items
  unfolding reserve_page
  reserve_page-AreItems env vars run_id cursor db h =
      elim (Option-cases (get db.payouts.runs run_id)) [
        | inl gone ↦ subst AreItems (ground arith) h
        | inr (run, there) ↦
            let page =
              take reserve_batch_size
                (after_cursor cursor (collect (λ a. true) db.payouts.accounts)) in
            subst AreItems (ground arith)
              (reserve_each-AreItems env.now (minimum_cents vars.minimum) run_id run page db h)
      ]
