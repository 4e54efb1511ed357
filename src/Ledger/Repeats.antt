-- ===== src/Ledger/Repeats.antt =====
-- Refunds that are reported more than once, in the ledger (frontend/convex/lib/ledger.ts,
-- `reverseForRefund`).
use bling.Prelude.{ℕ, ◌≡◌, ◌⊎◌, is_some, inl, inr, true, false, arith, Bool-cases, Option-cases}
use bling.Prelude.Int.{ℤ, pos, neg, leb_ℤ}
use bling.Store.Interface.{Convex}
use bling.Store.Queries.{Table, first}
use bling.Schema.Docs.{PaymentAttempt, PaymentRefund, refund_key}
use bling.Schema.Keys.{key_eq}
use bling.Schema.State.{Ledger}
use bling.Ledger.{reverse_for_refund, reversal_entry, reversal_amount, earning_for, is_zero}
use bling.Ledger.Posting.{post_entry-present, post_entry-kept}

neg-nonzero : (a : ℤ) → leb_ℤ a (pos 0) ≡ false → is_zero (neg a) ≡ false
unfolding neg
neg-nonzero a h = ground arith

module _ ⦃c : Convex⦄ where
  -- Where the key of a refund is taken, reversing it changes nothing.
  reverse_for_refund-kept :
      (now id : ℕ) (r : PaymentRefund) (attempts : Table PaymentAttempt) (l : Ledger)
      → is_some (first (λ x. key_eq x.idempotency_key (refund_key id)) l.entries) ≡ true
      → reverse_for_refund now (id, r) attempts l ≡ l
  unfolding reverse_for_refund
  reverse_for_refund-kept now id r attempts l taken =
      elim (Option-cases (earning_for r.payment_attempt_id l)) [
        | inl nothing ↦ ground arith
        | inr ((i, earning), found) ↦ ground (
          arith,
          post_entry-kept
              (reversal_entry now earning (id, r) (reversal_amount earning (id, r) attempts l)) l
              taken,
        )
      ]

  -- Reversing a refund changes nothing, or takes its key.
  reverse_for_refund-cases :
      (now id : ℕ) (r : PaymentRefund) (attempts : Table PaymentAttempt) (l : Ledger)
      → let once = reverse_for_refund now (id, r) attempts l in
        (once ≡ l)
        ⊎ (is_some (first (λ x. key_eq x.idempotency_key (refund_key id)) once.entries) ≡ true)
  unfolding reverse_for_refund
  reverse_for_refund-cases now id r attempts l =
      elim (Option-cases (earning_for r.payment_attempt_id l)) [
        | inl nothing ↦ inl (ground arith)
        | inr ((i, earning), found) ↦
            let amount = reversal_amount earning (id, r) attempts l in
            elim (Bool-cases (leb_ℤ amount (pos 0))) [
              | inl too_little ↦ inl (ground arith)
              | inr some_amount ↦ inr (
                  ground (
                    arith,
                    post_entry-present (reversal_entry now earning (id, r) amount) l
                        (neg-nonzero amount some_amount),
                  ))
            ]
      ]

  -- A refund that was reversed in a ledger, if something was taken back, is not reversed again, at any
  -- time and whatever was changed in the refund and in the payment attempts since.
  pub reverse_for_refund_twice :
      (now later id : ℕ) (r r' : PaymentRefund) (attempts attempts' : Table PaymentAttempt)
      (l : Ledger)
      → let once = reverse_for_refund now (id, r) attempts l in
        (once ≡ l) ⊎ (reverse_for_refund later (id, r') attempts' once ≡ once)
  reverse_for_refund_twice now later id r r' attempts attempts' l =
      elim (reverse_for_refund-cases now id r attempts l) [
        | inl unchanged ↦ inl unchanged
        | inr taken ↦ inr (
            reverse_for_refund-kept later id r' attempts'
              (reverse_for_refund now (id, r) attempts l) taken)
      ]
