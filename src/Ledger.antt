-- ===== src/Ledger.antt =====
-- The creator ledger (frontend/convex/lib/ledger.ts): signed entries that are only added, each
-- under an idempotency key, and a running total for each creator and currency. `ctx` is the
-- `Ledger` part of the state; the payments and disputes that these functions read are arguments.
pub mod Posting
pub mod Balances
pub mod Reversals
pub mod Operations
pub mod Disputes
pub mod Repeats
use bling.Prelude.{
  ℕ, ◌+◌, ◌-◌, ◌*◌, ◌/◌, Bool, true, false, not, ◌&&◌, ◌||◌, Option, none, some, ◌==◌, ltb, leb,
  if◌then◌else◌, is_some, or_else, opt_eq, String, str_eq,
}
use bling.Prelude.Int.{ℤ, pos, negsuc, ◌+ℤ◌, ◌-ℤ◌, neg, sub_ℕ, leb_ℤ}
use bling.Store.Interface.{Convex}
use bling.Store.Rows.{Row}
use bling.Store.Queries.{Table, get, first, insert, replace}
use bling.Store.Sums.{sum_of}
use bling.Schema.Status.{LedgerKind, PaymentStatus, payment_eq, kind_eq}
use bling.Schema.Docs.{
  EntryKey, LedgerEntry, CreatorBalance, PaymentAttempt, PaymentRefund, PaymentDispute, earning_key,
  refund_key, dispute_debit_key, dispute_release_key, earning_fees, refund_of, dispute_of,
}
use bling.Schema.Keys.{key_eq}
use bling.Schema.State.{Ledger}

abbrev pub hour_ms : ℕ
hour_ms = 3600000

-- The hold in milliseconds: the hours that the environment sets, if it does, times HOUR_MS.
unfoldable pub earnings_hold_ms : Option ℕ → ℕ
earnings_hold_ms set_ms = or_else set_ms (168 * hour_ms)

abbrev pub is_zero : ℤ → Bool
is_zero (pos n) = n == 0
is_zero (negsuc n) = false

-- The row of `creatorBalances` for a creator and a currency.
abbrev pub is_balance_of : ℕ → String → CreatorBalance → Bool
is_balance_of creator_id currency b = b.creator_id == creator_id && str_eq b.currency currency

-- The entries of `ledgerEntries` for a creator and a currency.
abbrev pub is_entry_of : ℕ → String → LedgerEntry → Bool
is_entry_of creator_id currency e = e.creator_id == creator_id && str_eq e.currency currency

-- The index `by_attempt_kind`.
abbrev pub is_for_attempt : ℕ → LedgerKind → LedgerEntry → Bool
is_for_attempt attempt_id kind e = opt_eq e.payment_attempt_id attempt_id && kind_eq e.kind kind

-- `Math.round(a / b)` for 0 ≤ a and 0 < b: halves go up.
abbrev pub round_div : ℤ → ℕ → ℤ
round_div (pos a) b = pos ((a * 2 + b) / (b * 2))
round_div (negsuc a) b = neg (pos (((a + 1) * 2 + b - 1) / (b * 2)))

-- `earning * refunded / paid` in whole cents.
abbrev pub scaled : ℤ → ℕ → ℤ
scaled (pos a) n = pos (a * n)
scaled (negsuc a) n = neg (pos ((a + 1) * n))

-- The part of the earning that a refund takes back, before what earlier refunds took.
unfoldable pub refund_share : LedgerEntry → Option PaymentAttempt → PaymentRefund → ℤ
refund_share earning none refund = earning.amount_cents
refund_share earning (some attempt) refund =
    if ltb refund.amount_cents attempt.amount_cents
    then round_div (scaled earning.amount_cents refund.amount_cents) attempt.amount_cents
    else earning.amount_cents

abbrev pub min_ℤ : ℤ → ℤ → ℤ
min_ℤ a b = if leb_ℤ a b then a else b

abbrev pub reversal_entry : (now : ℕ) → LedgerEntry → Row PaymentRefund → ℤ → LedgerEntry
reversal_entry now earning (id, refund) amount = record {
  creator_id = earning.creator_id;
  kind = LedgerKind.refund_reversal;
  amount_cents = neg amount;
  currency = earning.currency;
  effective_at = now;
  idempotency_key = refund_key id;
  payment_attempt_id = some refund.payment_attempt_id;
  call_id = some refund.call_id;
  payout_item_id = none;
  metadata = refund_of (or_else refund.stripe_refund_id "");
}

abbrev pub dispute_open : String → Bool
dispute_open s =
    str_eq s "needs_response"
    || str_eq s "under_review"
    || str_eq s "lost"
    || str_eq s "warning_needs_response"
    || str_eq s "warning_under_review"

abbrev pub dispute_resolved : String → Bool
dispute_resolved s = str_eq s "won" || str_eq s "warning_closed" || str_eq s "prevented"

-- The fields that the two entries of a dispute share (`base`), with those that they set.
abbrev pub dispute_entry :
    (now : ℕ) → PaymentDispute → ℕ → LedgerEntry → LedgerKind → ℤ → EntryKey → LedgerEntry
dispute_entry now dispute attempt_id earning kind amount key = record {
  creator_id = earning.creator_id;
  kind = kind;
  amount_cents = amount;
  currency = earning.currency;
  effective_at = now;
  idempotency_key = key;
  payment_attempt_id = some attempt_id;
  call_id = none;
  payout_item_id = none;
  metadata = dispute_of dispute.stripe_dispute_id dispute.status;
}

-- What a captured payment earns its creator, held for a week unless the environment says otherwise.
abbrev pub earning_entry :
    (hold_ms : Option ℕ) → Row PaymentAttempt → (call_id live_at : ℕ) → LedgerEntry
earning_entry hold_ms (id, attempt) call_id live_at = record {
  creator_id = attempt.creator_id;
  kind = LedgerKind.earning;
  amount_cents = sub_ℕ attempt.amount_cents attempt.platform_fee_cents;
  currency = attempt.currency;
  effective_at = live_at + earnings_hold_ms hold_ms;
  idempotency_key = earning_key id;
  payment_attempt_id = some id;
  call_id = some call_id;
  payout_item_id = none;
  metadata =
      earning_fees attempt.amount_cents attempt.platform_fee_cents attempt.basic_card_fee_cents
        attempt.creator_processing_fee_cents;
}

module _ ⦃c : Convex⦄ where
  unfoldable pub add_to_balance : LedgerEntry → Table CreatorBalance → Table CreatorBalance
  add_to_balance entry t = elim (first (is_balance_of entry.creator_id entry.currency) t) [
    | some (i, balance) ↦
        replace i (record balance { total_cents = balance.total_cents +ℤ entry.amount_cents }) t
    | none ↦
        insert
          (record {
            creator_id = entry.creator_id;
            currency = entry.currency;
            total_cents = entry.amount_cents;
          })
          t
  ]

  unfoldable pub post_entry : LedgerEntry → Ledger → Ledger × Bool
  post_entry entry l =
      if is_zero entry.amount_cents
      then (l, false)
      else elim (first (λ e. key_eq e.idempotency_key entry.idempotency_key) l.entries) [
        | some existing ↦ (l, false)
        | none ↦ (
          record { entries = insert entry l.entries; balances = add_to_balance entry l.balances },
          true,
        )
      ]

  pub record BalanceSummary : Type 0 where
    pub total_cents : ℤ
    pub pending_cents : ℤ
    pub available_cents : ℤ

  unfoldable pub balance_at : ℕ → String → ℕ → Ledger → BalanceSummary
  balance_at creator_id currency now l =
      let total : ℤ = elim (first (is_balance_of creator_id currency) l.balances) [
        | some (_, balance) ↦ balance.total_cents
        | none ↦ pos 0
      ] in
      let pending =
        sum_of (λ e. is_entry_of creator_id currency e && ltb now e.effective_at)
          (λ e. e.amount_cents) l.entries in
      record { total_cents = total; pending_cents = pending; available_cents = total -ℤ pending }

  unfoldable pub earning_for : ℕ → Ledger → Option (Row LedgerEntry)
  earning_for attempt_id l = first (is_for_attempt attempt_id LedgerKind.earning) l.entries

  unfoldable pub credit_earning :
      (hold_ms : Option ℕ) → Row PaymentAttempt → (call_id live_at : ℕ) → Ledger → Ledger
  credit_earning hold_ms (id, attempt) call_id live_at l =
      if not (payment_eq attempt.status PaymentStatus.captured)
      then l
      else (post_entry (earning_entry hold_ms (id, attempt) call_id live_at) l).0

  -- What reversals for other refunds of the same payment already took back.
  unfoldable pub reversed_before : (attempt_id refund_id : ℕ) → Ledger → ℤ
  reversed_before attempt_id refund_id l = neg (
      sum_of
        (λ e.
          is_for_attempt attempt_id LedgerKind.refund_reversal e
          && not (key_eq e.idempotency_key (refund_key refund_id)))
        (λ e. e.amount_cents) l.entries)

  unfoldable pub reversal_amount :
      LedgerEntry → Row PaymentRefund → Table PaymentAttempt → Ledger → ℤ
  reversal_amount earning (id, refund) attempts l =
      min_ℤ (refund_share earning (get attempts refund.payment_attempt_id) refund)
        (earning.amount_cents -ℤ reversed_before refund.payment_attempt_id id l)

  unfoldable pub reverse_for_refund :
      (now : ℕ) → Row PaymentRefund → Table PaymentAttempt → Ledger → Ledger
  unfolding reversal_amount
  reverse_for_refund now (id, refund) attempts l = elim (earning_for refund.payment_attempt_id l) [
    | none ↦ l
    | some (_, earning) ↦
        let amount = reversal_amount earning (id, refund) attempts l in
        if leb_ℤ amount (pos 0)
        then l
        else (post_entry (reversal_entry now earning (id, refund) amount) l).0
  ]

  unfoldable pub adjust_for_dispute : (now : ℕ) → PaymentDispute → Ledger → Ledger
  adjust_for_dispute now dispute l = elim dispute.payment_attempt_id [
    | none ↦ l
    | some attempt_id ↦ elim (earning_for attempt_id l) [
      | none ↦ l
      | some (_, earning) ↦
          let debit_key = dispute_debit_key dispute.stripe_dispute_id in
          if dispute_open dispute.status
          then (post_entry
              (dispute_entry now dispute attempt_id earning LedgerKind.dispute_debit
                (neg earning.amount_cents) debit_key)
              l).0
          else if dispute_resolved dispute.status
          then elim (first (λ e. key_eq e.idempotency_key debit_key) l.entries) [
            | none ↦ l
            | some (_, debit) ↦
                (post_entry
                  (dispute_entry now dispute attempt_id earning LedgerKind.dispute_release
                    (neg debit.amount_cents) (dispute_release_key dispute.stripe_dispute_id))
                  l).0
          ]
          else l
    ]
  ]
