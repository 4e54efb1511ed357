-- ===== src/Payouts.antt =====
-- Monthly creator payouts (frontend/convex/payouts.ts): runs, reservations, and transfers, each of
-- them claimed under a lease and tried again with backoff. Stripe's answers reach the state through
-- `mark_paid` and `retry_transfer`.
pub mod Accounts
pub mod Runs
pub mod Reserving
pub mod Items
pub mod Settled
pub mod Transfers
pub mod Finishing
use bling.Prelude.{
  ℕ, ◌+◌, ◌-◌, ◌*◌, ◌/◌, ◌%◌, ◌^◌, ◌≡◌, Bool, true, false, not, ◌&&◌, ◌||◌, Option, none, some,
  List, [], ◌∷◌, ◌++◌, ◌==◌, leb, ltb, if◌then◌else◌, min, String, map, keep, take, is_some, any,
}
use bling.Prelude.Int.{ℤ, pos, negsuc, leb_ℤ}
use bling.Store.Interface.{Convex}
use bling.Store.Rows.{Row}
use bling.Store.Queries.{Table, get, first, collect, replace, sort_by}
use bling.Schema.Status.{PayoutItemStatus, item_eq}
use bling.Schema.Docs.{PayoutItem, Date}
use bling.Schema.State.{Env, Db, Payouts, run_at, transfer_payout, finish_runs}

abbrev pub max_transfer_attempts : ℕ
max_transfer_attempts = 10

abbrev pub transfer_lease_ms : ℕ
transfer_lease_ms = 300000

abbrev pub reserve_batch_size : ℕ
reserve_batch_size = 100

-- The environment variables of payouts: whether CREATOR_PAYOUTS_ENABLED is "true" in lower case, the
-- whole numbers of CREATOR_PAYOUT_DAY and CREATOR_PAYOUT_MINIMUM_CENTS, none where one is not set or is
-- no whole number, and CREATOR_PAYOUT_CURRENCY in lower case, "usd" where it is not set.
pub record PayoutVars : Type 0 where
  pub enabled : Bool
  pub day : Option ℤ
  pub minimum : Option ℤ
  pub currency : String

-- What `config` makes of them.
unfoldable pub payout_day : Option ℤ → ℕ
payout_day none = 1
payout_day (some (negsuc n)) = 1
payout_day (some (pos n)) = if leb 1 n && leb n 28 then n else 1

unfoldable pub minimum_cents : Option ℤ → ℕ
minimum_cents none = 2500
minimum_cents (some (negsuc n)) = 2500
minimum_cents (some (pos n)) = if ltb 0 n then n else 2500

pub record Period : Type 0 where
  pub period_start : Date
  pub period_end : Date

-- The first of the month that comes after `count` months, counted from January of the year 0:
-- `Date.UTC` carries a month that is out of range into the year.
abbrev pub first_of_month : (count : ℕ) → Date
first_of_month count = record { year = count / 12; month = count % 12 + 1; day = 1 }

-- The month a run on a date pays out: the month before this payout day.
unfoldable pub payout_period : Date → (payout_day : ℕ) → Period
payout_period date payout_day =
    let this = date.year * 12 + (date.month - 1) in
    let month = if ltb date.day payout_day then this - 1 else this in
    record { period_start = first_of_month (month - 1); period_end = first_of_month month }

-- An item that `claimTransfer` takes: new, or waiting with its time come (a lease that ran out
-- included).
abbrev pub is_due : (now : ℕ) → PayoutItem → Bool
is_due now item =
    item_eq item.status PayoutItemStatus.reserved
    || ((item_eq item.status PayoutItemStatus.retry || item_eq item.status PayoutItemStatus.sending)
        && leb item.next_attempt_at now)

module _ ⦃c : Convex⦄ where
  abbrev pub with_items : Table PayoutItem → Db → Db
  with_items items db = record db { payouts = record db.payouts { items = items } }

  abbrev pub claimed_item : (now : ℕ) → PayoutItem → PayoutItem
  claimed_item now item = record item {
    status = PayoutItemStatus.sending;
    attempts = item.attempts + 1;
    next_attempt_at = now + transfer_lease_ms;
  }

  -- The item as claimed, and the state.
  unfoldable pub claim_transfer : Env → (item_id : ℕ) → Db → Option PayoutItem × Db
  claim_transfer env item_id db = elim (get db.payouts.items item_id) [
    | none ↦ (none, db)
    | some item ↦
        if leb max_transfer_attempts item.attempts || not (is_due env.now item)
        then (none, db)
        else (
          some (claimed_item env.now item),
          with_items (replace item_id (claimed_item env.now item) db.payouts.items) db,
        )
  ]

  unfoldable pub mark_paid : Env → (item_id : ℕ) → (transfer_id : String) → Db → Db
  mark_paid env item_id transfer_id db = elim (get db.payouts.items item_id) [
    | none ↦ db
    | some item ↦
        if not (item_eq item.status PayoutItemStatus.sending)
        then db
        else record (with_items
            (replace item_id
              (record item {
                status = PayoutItemStatus.paid;
                stripe_transfer_id = some transfer_id;
                failure_code = none;
                processed_at = some env.now;
              })
              db.payouts.items)
            db) { jobs = db.jobs ++ run_at env.now finish_runs }
  ]

  abbrev pub transfer_delay : ℕ → ℕ
  transfer_delay attempts = 1000 * 2 ^ min attempts 8

  unfoldable pub retry_transfer : Env → (item_id : ℕ) → (failure_code : String) → Db → Db
  retry_transfer env item_id failure_code db = elim (get db.payouts.items item_id) [
    | none ↦ db
    | some item ↦
        if not (item_eq item.status PayoutItemStatus.sending)
        then db
        else if leb max_transfer_attempts item.attempts
        then record (with_items
            (replace item_id
              (record item {
                status = PayoutItemStatus.failed;
                failure_code = some failure_code;
                processed_at = some env.now;
              })
              db.payouts.items)
            db) { jobs = db.jobs ++ run_at env.now finish_runs }
        else record (with_items
            (replace item_id
              (record item {
                status = PayoutItemStatus.retry;
                failure_code = some failure_code;
                next_attempt_at = env.now + transfer_delay item.attempts;
              })
              db.payouts.items)
            db) {
              jobs =
                  db.jobs
                  ++ run_at (env.now + transfer_delay item.attempts) (transfer_payout item_id);
            }
  ]

  -- The items in one state whose time has come, from the index `by_status_next`.
  unfoldable pub due_items : (now : ℕ) → PayoutItemStatus → Table PayoutItem → List ℕ
  due_items now status t =
      map (λ r. r.0)
        (keep (λ r. not (leb max_transfer_attempts r.1.attempts))
          (take 50 (
            sort_by (λ r. r.next_attempt_at)
              (collect (λ r. item_eq r.status status && leb r.next_attempt_at now) t))))

  -- `dueTransfers`, for the sweep.
  unfoldable pub due_transfers : (now : ℕ) → Db → List ℕ
  unfolding due_items
  due_transfers now db =
      due_items now PayoutItemStatus.reserved db.payouts.items
      ++ due_items now PayoutItemStatus.retry db.payouts.items
      ++ due_items now PayoutItemStatus.sending db.payouts.items
