-- ===== src/Payments/Refunding.antt =====
-- What asking for a refund writes (frontend/convex/lib/payments.ts, `requestRefund`).
use bling.Prelude.{
  Bool, true, false, str_eq, not, ℕ, ◌≡◌, none, some, arith, ◌==◌, String, Bool-cases, inl, inr,
}
use bling.Store.Interface.{Convex}
use bling.Store.Queries.{Table, get, first, first-none, insert, get-insert, get-replace, replace}
use bling.Schema.Docs.{PaymentAttempt, PaymentRefund}
use bling.Payments.{request_refund, new_refund, needs_refund}

module _ ⦃c : Convex⦄ where
  -- A refund that Bling asked for, and not one that was made outside it.
  abbrev pub is_own : PaymentRefund → Bool
  is_own r = not (str_eq r.reason "OUTSIDE_BLING")

  -- No payment attempt has two refunds that Bling asked for.
  abbrev pub OneRefund : Table PaymentRefund → Type 0
  OneRefund t =
      (i j : ℕ) (r s : PaymentRefund)
      → get t i ≡ some r
      → get t j ≡ some s
      → is_own r ≡ true
      → is_own s ≡ true
      → r.payment_attempt_id ≡ s.payment_attempt_id
      → i ≡ j

  pub OneRefund-replace :
      (i : ℕ) (d e : PaymentRefund) (t : Table PaymentRefund)
      → get t i ≡ some e
      → d.payment_attempt_id ≡ e.payment_attempt_id
      → d.reason ≡ e.reason
      → OneRefund t
      → OneRefund (replace i d t)
  OneRefund-replace i d e t at_i same reason h j k x y own own' = ground (
    arith,
    get-replace i d e t j at_i,
    get-replace i d e t k at_i,
    h j k x y,
    h i k e y,
    h j i x e,
  )

  OneRefund-insert :
      (d : PaymentRefund) (t : Table PaymentRefund)
      → first (λ r. r.payment_attempt_id == d.payment_attempt_id) t ≡ none
      → OneRefund t
      → OneRefund (insert d t)
  OneRefund-insert d t free h j k x y own own' = ground (
    arith,
    get-insert d t j,
    get-insert d t k,
    h j k x y,
    first-none (λ r. r.payment_attempt_id == d.payment_attempt_id) t j x free,
    first-none (λ r. r.payment_attempt_id == d.payment_attempt_id) t k y free,
  )

  -- A refund that was made outside Bling does not count.
  pub OneRefund-insert_outside :
      (d : PaymentRefund) (t : Table PaymentRefund)
      → is_own d ≡ false
      → OneRefund t
      → OneRefund (insert d t)
  OneRefund-insert_outside d t outside h j k x y own own' =
      ground (arith, get-insert d t j, get-insert d t k, h j k x y)

  -- However often refunds are asked for, a payment attempt never gets a second one from Bling.
  pub request_refund-OneRefund :
      (now id : ℕ) (a : PaymentAttempt) (call_id : ℕ) (reason : String) (t : Table PaymentRefund)
      → OneRefund t
      → OneRefund (request_refund now (id, a) call_id reason t).0
  unfolding request_refund
  request_refund-OneRefund now id a call_id reason t h =
      elim (Bool-cases (needs_refund (id, a) t)) [
        | inl needed ↦
            rw needed (OneRefund-insert (new_refund now (id, a) call_id reason) t (ground arith) h)
        | inr settled ↦ rw settled h
      ]
