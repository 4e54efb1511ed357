-- ===== src/Payouts/Transfers.antt =====
-- The transfer of one payout, step by step (frontend/convex/payouts.ts, `claimTransfer`, `markPaid`
-- and `retryTransfer`), and the month that it is for.
use bling.Prelude.{
  ℕ, ◌+◌, ◌*◌, ◌-◌, ◌<◌, ◌≤◌, ◌≡◌, inl, inr, refl, Option, none, some, arith, ltb, Option-cases,
  if◌then◌else◌,
}
use bling.Store.Interface.{Convex}
use bling.Store.Queries.{get, get-replace}
use bling.Schema.Docs.{PayoutItem, Date}
use bling.Schema.State.{Env, Db}
use bling.Prelude.Int.{ℤ}
use bling.Payouts.{transfer_lease_ms, claimed_item, claim_transfer, payout_period, payout_day}

module _ ⦃c : Convex⦄ where
  -- After a claim of a transfer, a second claim of it gets nothing as long as the lease of the first,
  -- five minutes, runs.
  pub claim_transfer_excludes :
      (env env' : Env) (id : ℕ) (db : Db) (item : PayoutItem)
      → (claim_transfer env id db).0 ≡ some item
      → env'.now < env.now + transfer_lease_ms
      → claim_transfer env' id (claim_transfer env id db).1 ≡ (none, (claim_transfer env id db).1)
  unfolding claim_transfer
  claim_transfer_excludes env env' id db item claimed early =
      elim (Option-cases (get db.payouts.items id)) [
        | inl gone ↦ ground arith
        | inr (old, there) ↦
            ground (arith, get-replace id (claimed_item env.now old) old db.payouts.items id there)
      ]

-- The months of a date, counted from January of the year 0.
abbrev pub months : Date → ℕ
months date = date.year * 12 + (date.month - 1)

-- A run on a date pays out one whole month that is over: from the first of a month to the first of the
-- next, which is the first of this month from the payout day on, of the last month before it.
pub payout_period-is_over :
    (date : Date) (payout_on : Option ℤ)
    → 0 < date.year
    → (1 ≤ date.month) × (date.month ≤ 12)
    → let period = payout_period date (payout_day payout_on) in
      (period.period_start.day ≡ 1)
      × (period.period_end.day ≡ 1)
      × (period.period_end.month ≤ 12)
      × (months period.period_start + 1 ≡ months period.period_end)
      × (months period.period_end
          ≡ (if ltb date.day (payout_day payout_on) then months date - 1 else months date))
unfolding payout_period
payout_period-is_over date payout_on some_year real =
    (refl, refl, ground arith, ground arith, ground arith)
