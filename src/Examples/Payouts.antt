-- ===== src/Examples/Payouts.antt =====
-- Examples of payouts.
use bling.Prelude.{
  not, length, ℕ, ◌≡◌, ◌⊎◌, ◌≤◌, ◌+◌, ◌-◌, refl, none, some, true, false, List, [], ◌∷◌, arith,
  if◌then◌else◌, ltb,
}
use bling.System.Reservations.{serve-ItemsKnown}
use bling.Prelude.Int.{pos, ltb_ℤ}
use bling.Store.Rows.{lookup}
use bling.Store.Queries.{collect, get, first, insert}
use bling.Store.InMemory.{in_memory, empty, above}
use bling.Schema.Status.{PayoutItemStatus, RunStatus}
use bling.Schema.Docs.{PayoutAccount, PayoutRun, PayoutItem, Date}
use bling.Schema.State.{Env, Db}
use bling.Payouts.{
  minimum_cents, claim_transfer, payout_period, payout_day, claimed_item, PayoutVars,
}
use bling.Payouts.Runs.{run_eq, is_in_flight, finish, reserve_for, available_to, reserved_item}
use bling.Payouts.Reserving.{ItemsKnown, reserve_for_takes_all}
use bling.Payouts.Finishing.{finished, finish-completes}
use bling.Payouts.Items.{AreItems}
use bling.Payouts.Transfers.{months, claim_transfer_excludes, payout_period-is_over}
use bling.Ledger.{post_entry, add_to_balance}
use bling.System.{Op, serve}
use bling.System.Histories.{serve-AreItems, serve-settled}
use bling.Examples.{creator_at, empty_db}
use bling.Examples.Money.{earned_ledger, earned_ledger-IsBalanced}

abbrev account : PayoutAccount
account = record {
  creator_id = 1;
  stripe_account_id = "acct";
  transfers_status = "active";
  bank_payouts_status = "active";
  external_account_present = true;
  external_account_bank_name = none;
  external_account_last4 = none;
  external_account_currency = some "usd";
  details_submitted = true;
  requirements_due = [];
}

abbrev first_of : (month : ℕ) → Date
first_of month = record { year = 2025; month = month; day = 1 }

abbrev march : PayoutRun
march = record {
  period_start = first_of 3;
  period_end = first_of 4;
  currency = "usd";
  status = RunStatus.processing;
  completed_at = none;
}

unfoldable earned : Db ⦃c = in_memory⦄
unfolding insert
earned = record empty_db {
  ledger = earned_ledger;
  payouts = record {
    accounts = insert account empty;
    runs = insert march empty;
    items = empty;
    events = empty;
  };
}

no_reservations : ItemsKnown ⦃c = in_memory⦄ earned
unfolding earned earned_ledger post_entry add_to_balance get lookup insert first above
no_reservations i item_id e at_i key = ground arith

reserve_for_takes_all_example :
    let db' =
      reserve_for ⦃c = in_memory⦄ 800 (minimum_cents (some (pos 100))) 1 march account earned in
    let taken = available_to ⦃c = in_memory⦄ 800 "usd" account earned in
    (db' ≡ earned)
    ⊎ ((ltb_ℤ taken (pos (minimum_cents (some (pos 100)))) ≡ false)
        × (db'.payouts.items
            ≡ insert (reserved_item 800 1 march account taken) earned.payouts.items)
        × (available_to ⦃c = in_memory⦄ 800 "usd" account db' ≡ pos 0))
unfolding earned
reserve_for_takes_all_example =
    reserve_for_takes_all ⦃c = in_memory⦄ 800 1 (some (pos 100)) march account earned
      earned_ledger-IsBalanced no_reservations

-- A payout, in a state given.
abbrev item : PayoutItemStatus → PayoutItem
item status = record (reserved_item 800 1 march account (pos 428)) { status = status; attempts = 1 }

unfoldable with_item : PayoutItemStatus → Db ⦃c = in_memory⦄
unfolding insert
with_item status = record empty_db {
  payouts = record {
    accounts = insert account empty;
    runs = insert march empty;
    items = insert (item status) empty;
    events = empty;
  };
}

one_item-AreItems : AreItems ⦃c = in_memory⦄ (with_item PayoutItemStatus.retry).payouts.items
unfolding get lookup insert with_item above
one_item-AreItems = record {
  one_unsettled = λ i j a b x y u v s. ground arith;
  few_attempts = λ i a x. ground arith;
}

abbrev payout_history : List (Env × Op)
payout_history =
    (creator_at 900, Op.claim_payout 1)
    ∷ (creator_at 901, Op.claim_payout 1)
    ∷ (creator_at 910, Op.retry_payout 1 "declined")
    ∷ []

serve-AreItems_example :
    AreItems ⦃c = in_memory⦄ (serve (with_item PayoutItemStatus.retry) payout_history).payouts.items
serve-AreItems_example =
    serve-AreItems ⦃c = in_memory⦄ (with_item PayoutItemStatus.retry) payout_history
      one_item-AreItems

unfoldable claimed : PayoutItem
claimed = claimed_item 900 (item PayoutItemStatus.retry)

transfer_claimed :
    (claim_transfer ⦃c = in_memory⦄ (creator_at 900) 1 (with_item PayoutItemStatus.retry)).0
    ≡ some claimed
unfolding claim_transfer get lookup insert with_item above claimed
transfer_claimed = refl

claim_transfer_excludes_example :
    let db' =
      (claim_transfer ⦃c = in_memory⦄ (creator_at 900) 1 (with_item PayoutItemStatus.retry)).1 in
    claim_transfer ⦃c = in_memory⦄ (creator_at 901) 1 db' ≡ (none, db')
claim_transfer_excludes_example =
    claim_transfer_excludes ⦃c = in_memory⦄ (creator_at 900) (creator_at 901) 1
      (with_item PayoutItemStatus.retry) claimed transfer_claimed (omega arith)

paid_there :
    get ⦃c = in_memory⦄ (with_item PayoutItemStatus.paid).payouts.items 1
    ≡ some (item PayoutItemStatus.paid)
unfolding get lookup insert with_item above
paid_there = refl

serve-settled_example :
    get ⦃c = in_memory⦄ (serve (with_item PayoutItemStatus.paid) payout_history).payouts.items 1
    ≡ some (item PayoutItemStatus.paid)
serve-settled_example =
    serve-settled ⦃c = in_memory⦄ (with_item PayoutItemStatus.paid) payout_history 1
      (item PayoutItemStatus.paid) paid_there refl

abbrev monthly : PayoutVars
monthly = record { enabled = true; day = none; minimum = some (pos 100); currency = "usd" }

serve-ItemsKnown_example :
    ItemsKnown ⦃c = in_memory⦄
      (serve earned ((creator_at 800, Op.reserve_payouts monthly 1 none) ∷ []))
serve-ItemsKnown_example =
    serve-ItemsKnown ⦃c = in_memory⦄ earned
      ((creator_at 800, Op.reserve_payouts monthly 1 none) ∷ []) no_reservations

-- January, before a payout day of the 5th: December is over, but not paid yet, so November is.
abbrev early_january : Date
early_january = record { year = 2026; month = 1; day = 3 }

payout_period-is_over_example :
    let period = payout_period early_january (payout_day (some (pos 5))) in
    (period.period_start.day ≡ 1)
    × (period.period_end.day ≡ 1)
    × (period.period_end.month ≤ 12)
    × (months period.period_start + 1 ≡ months period.period_end)
    × (months period.period_end ≡ (
        if ltb 3 (payout_day (some (pos 5)))
        then months early_january - 1
        else months early_january))
payout_period-is_over_example =
    payout_period-is_over early_january (some (pos 5)) (omega arith) (omega arith, omega arith)

march_there : get ⦃c = in_memory⦄ (with_item PayoutItemStatus.paid).payouts.runs 1 ≡ some march
unfolding get lookup insert with_item above
march_there = refl

few_runs :
    length (
      collect ⦃c = in_memory⦄
        (λ r. run_eq r.status RunStatus.processing)
        (with_item PayoutItemStatus.paid).payouts.runs)
    ≤ 12
unfolding collect insert with_item above
few_runs = omega arith

finish-completes_example :
    let db = with_item PayoutItemStatus.paid in
    get ⦃c = in_memory⦄ (finish (creator_at 990) db).payouts.runs 1
    ≡ some (
        if not (is_in_flight ⦃c = in_memory⦄ 1 db.payouts.items)
        then finished 990 1 db.payouts.items march
        else march)
finish-completes_example =
    finish-completes ⦃c = in_memory⦄ (creator_at 990) (with_item PayoutItemStatus.paid) 1 march
      few_runs march_there
