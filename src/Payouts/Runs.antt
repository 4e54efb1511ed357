-- ===== src/Payouts/Runs.antt =====
-- The runs of payouts (frontend/convex/payouts.ts, `runDue`, `reserveBatch` and `finishRuns`).
use bling.Prelude.{
  ℕ, Bool, true, false, not, ◌&&◌, ◌||◌, Option, none, some, List, [], ◌∷◌, ◌++◌, ◌==◌, leb,
  if◌then◌else◌, String, str_eq, is_some, take, any, length,
}
use bling.Prelude.Int.{ℤ, pos, neg, ltb_ℤ}
use bling.Store.Interface.{Convex}
use bling.Store.Rows.{Row}
use bling.Store.Queries.{Table, get, first, collect, insert, next_id, replace}
use bling.Schema.Status.{LedgerKind, PayoutItemStatus, RunStatus, item_eq}
use bling.Schema.Docs.{
  Date, PayoutRun, PayoutItem, PayoutAccount, LedgerEntry, payout_reservation_key, no_metadata,
}
use bling.Schema.State.{Env, Db, run_at, transfer_payout, finish_runs, reserve_batch}
use bling.Ledger.{post_entry, balance_at}
use bling.Payouts.{PayoutVars, payout_day, minimum_cents, payout_period, reserve_batch_size}

abbrev pub run_eq : RunStatus → RunStatus → Bool
run_eq RunStatus.processing RunStatus.processing = true
run_eq RunStatus.completed RunStatus.completed = true
run_eq RunStatus.partial_failed RunStatus.partial_failed = true
run_eq _ _ = false

abbrev pub date_eq : Date → Date → Bool
date_eq a b = a.year == b.year && a.month == b.month && a.day == b.day

-- A payout in one of these states keeps its creator from getting another.
abbrev pub unsettled_statuses : List PayoutItemStatus
unsettled_statuses =
    PayoutItemStatus.reserved ∷ PayoutItemStatus.sending ∷ PayoutItemStatus.retry
    ∷ PayoutItemStatus.failed ∷ []

abbrev pub is_unsettled : PayoutItem → Bool
is_unsettled item = any (item_eq item.status) unsettled_statuses

module _ ⦃c : Convex⦄ where
  -- The run of the period, opened if it is not there: its id, and the runs.
  unfoldable pub run_for : Date → Date → String → Table PayoutRun → ℕ × Table PayoutRun
  run_for period_start period_end currency t =
      elim (first (λ r. date_eq r.period_start period_start && str_eq r.currency currency) t) [
        | some (id, _) ↦ (id, t)
        | none ↦ (
          next_id t,
          insert
              (record {
                period_start = period_start;
                period_end = period_end;
                currency = currency;
                status = RunStatus.processing;
                completed_at = none;
              })
              t,
        )
      ]

  -- `runDue`, hourly.
  unfoldable pub run_due : Env → PayoutVars → Db → Db
  unfolding run_for payout_period
  run_due env vars db =
      let period = payout_period env.today (payout_day vars.day) in
      let found = run_for period.period_start period.period_end vars.currency db.payouts.runs in
      if not vars.enabled then db else record db {
        payouts = record db.payouts { runs = found.1 };
        jobs = db.jobs ++ run_at env.now (reserve_batch found.0 none) ++ run_at env.now finish_runs;
      }

  -- The creator has no item in the run, and none that is not settled.
  abbrev pub may_reserve : (run_id creator_id : ℕ) → Table PayoutItem → Bool
  may_reserve run_id creator_id t =
      not (is_some (first (λ i. i.run_id == run_id && i.creator_id == creator_id) t))
      && not (
          any (λ s. is_some (first (λ i. i.creator_id == creator_id && item_eq i.status s) t))
            unsettled_statuses)

  abbrev pub reserved_item : (now run_id : ℕ) → PayoutRun → PayoutAccount → ℤ → PayoutItem
  reserved_item now run_id run account amount = record {
    run_id = run_id;
    creator_id = account.creator_id;
    amount_cents = amount;
    currency = run.currency;
    destination_account_id = account.stripe_account_id;
    idempotency_key = record {
      creator_id = account.creator_id;
      year = run.period_start.year;
      month = run.period_start.month;
    };
    stripe_transfer_id = none;
    status = PayoutItemStatus.reserved;
    attempts = 0;
    next_attempt_at = now;
    failure_code = none;
    processed_at = none;
  }

  abbrev pub reservation_entry : (now item_id : ℕ) → PayoutItem → LedgerEntry
  reservation_entry now item_id item = record {
    creator_id = item.creator_id;
    kind = LedgerKind.payout_reservation;
    amount_cents = neg item.amount_cents;
    currency = item.currency;
    effective_at = now;
    idempotency_key = payout_reservation_key item_id;
    payment_attempt_id = none;
    call_id = none;
    payout_item_id = some item_id;
    metadata = no_metadata;
  }

  abbrev pub available_to : (now : ℕ) → (currency : String) → PayoutAccount → Db → ℤ
  available_to now currency account db =
      (balance_at account.creator_id currency now db.ledger).available_cents

  -- The writes of one reservation. `run` was read when the batch began.
  unfoldable pub reserve : (now run_id : ℕ) → PayoutRun → PayoutAccount → Db → Db
  reserve now run_id run account db =
      let item = reserved_item now run_id run account (available_to now run.currency account db) in
      let item_id = next_id db.payouts.items in
      record db {
        payouts = record db.payouts {
          items = insert item db.payouts.items;
          runs =
              if run_eq run.status RunStatus.processing
              then db.payouts.runs
              else elim (get db.payouts.runs run_id) [
                | none ↦ db.payouts.runs
                | some r ↦
                    replace run_id (record r { status = RunStatus.processing; completed_at = none })
                      db.payouts.runs
              ];
        };
        ledger = (post_entry (reservation_entry now item_id item) db.ledger).0;
        jobs = db.jobs ++ run_at now (transfer_payout item_id);
      }

  -- One account of the page.
  unfoldable pub reserve_for : (now minimum run_id : ℕ) → PayoutRun → PayoutAccount → Db → Db
  unfolding reserve
  reserve_for now minimum run_id run account db =
      if not (str_eq account.transfers_status "active")
        || not (may_reserve run_id account.creator_id db.payouts.items)
        || ltb_ℤ (available_to now run.currency account db) (pos minimum)
      then db
      else reserve now run_id run account db

  unfoldable pub reserve_each :
      (now minimum run_id : ℕ) → PayoutRun → List (Row PayoutAccount) → Db → Db
  unfolding reserve_for
  reserve_each now minimum run_id run [] db = db
  reserve_each now minimum run_id run ((_, account) ∷ rest) db =
      reserve_each now minimum run_id run rest (reserve_for now minimum run_id run account db)

  -- The rows after the one that the cursor stands for.
  unfoldable pub after_cursor : {D : Type 0} → Option ℕ → List (Row D) → List (Row D)
  after_cursor none rs = rs
  after_cursor (some id) [] = []
  after_cursor (some id) ((i, d) ∷ rs) =
      let later = after_cursor (some id) rs in if i == id then rs else later

  abbrev pub last_id : {D : Type 0} → List (Row D) → Option ℕ
  last_id [] = none
  last_id ((i, _) ∷ []) = some i
  last_id (_ ∷ r ∷ rs) = last_id (r ∷ rs)

  -- `paginate`: in the order of creation, a page at a time.
  unfoldable pub reserve_page : Env → PayoutVars → (run_id : ℕ) → (cursor : Option ℕ) → Db → Db
  unfolding reserve_each after_cursor
  reserve_page env vars run_id cursor db = elim (get db.payouts.runs run_id) [
    | none ↦ db
    | some run ↦
        let left = after_cursor cursor (collect (λ a. true) db.payouts.accounts) in
        let page = take reserve_batch_size left in
        let done = reserve_each env.now (minimum_cents vars.minimum) run_id run page db in
        if leb (length left) reserve_batch_size then done else record done {
          jobs = done.jobs ++ run_at env.now (reserve_batch run_id (last_id page));
        }
  ]

  abbrev pub has_item : (run_id : ℕ) → PayoutItemStatus → Table PayoutItem → Bool
  has_item run_id status t = is_some (first (λ i. i.run_id == run_id && item_eq i.status status) t)

  abbrev pub is_in_flight : (run_id : ℕ) → Table PayoutItem → Bool
  is_in_flight run_id t =
      has_item run_id PayoutItemStatus.reserved t
      || has_item run_id PayoutItemStatus.sending t
      || has_item run_id PayoutItemStatus.retry t

  unfoldable pub finish_each :
      (now : ℕ) → List (Row PayoutRun) → Table PayoutItem → Table PayoutRun → Table PayoutRun
  finish_each now [] items t = t
  finish_each now ((id, run) ∷ rest) items t = finish_each now rest items (
      if is_in_flight id items
      then t
      else replace id
          (record run {
            status =
                if has_item id PayoutItemStatus.failed items
                then RunStatus.partial_failed
                else RunStatus.completed;
            completed_at = some now;
          })
          t)

  -- `finishRuns`: at most twelve runs at a time.
  unfoldable pub finish : Env → Db → Db
  unfolding finish_each
  finish env db = record db {
    payouts = record db.payouts {
      runs =
          finish_each env.now
            (take 12 (collect (λ r. run_eq r.status RunStatus.processing) db.payouts.runs))
            db.payouts.items db.payouts.runs;
    };
  }
