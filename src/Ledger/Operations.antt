-- ===== src/Ledger/Operations.antt =====
-- The operations of frontend/convex/lib/ledger.ts as postings of entries.
use bling.Prelude.{
  ℕ, ◌≡◌, ◌⊎◌, inl, inr, refl, Option, none, some, subst, sym, Bool, true, false, not, ◌&&◌,
  if◌then◌else◌,
}
use bling.Store.Interface.{Convex}
use bling.Store.Rows.{Row}
use bling.Store.Queries.{Table, first}
use bling.Schema.Docs.{
  LedgerEntry, PaymentAttempt, PaymentRefund, PaymentDispute, dispute_debit_key, EntryKey,
  payout_reservation_key,
}
use bling.Schema.Keys.{key_eq}
use bling.Schema.State.{Ledger}
use bling.Ledger.{post_entry, credit_earning, reverse_for_refund, adjust_for_dispute, earning_for}
use bling.Ledger.Posting.{HasUniqueKeys, post_entry-HasUniqueKeys}
use bling.Ledger.Balances.{IsBalanced, post_entry-IsBalanced}

-- The key of the reservation of a payout.
abbrev pub is_reservation : EntryKey → Bool
is_reservation (payout_reservation_key _) = true
is_reservation _ = false

module _ ⦃c : Convex⦄ where
  -- The second ledger is the first one, or the first one with an entry posted.
  -- Only where `reserving` says so it may be the reservation of a payout.
  abbrev pub Posts : (reserving : Bool) → Ledger → Ledger → Type 0
  Posts reserving l l' =
      (l' ≡ l)
      ⊎ ((e : LedgerEntry) × (l' ≡ (post_entry e l).0)
          × ((is_reservation e.idempotency_key && not reserving) ≡ false))

  -- The running totals stand for their entries, under distinct keys.
  abbrev pub IsSound : Ledger → Type 0
  IsSound l = IsBalanced l × HasUniqueKeys l

  pub Posts-IsSound : (b : Bool) (l l' : Ledger) → Posts b l l' → IsSound l → IsSound l'
  Posts-IsSound b l l' (inl same) h = subst IsSound (sym same) h
  Posts-IsSound b l l' (inr (e, eq, kind)) h =
      subst IsSound (sym eq) (post_entry-IsBalanced e l h.0, post_entry-HasUniqueKeys e l h.1)

  -- The second ledger is the first one with entries posted one after the other.
  pub data Postings (b : Bool) : Ledger → Ledger → Type 0 where
    done : {l l' : Ledger} → l' ≡ l → Postings b l l'
    more : {l l' : Ledger} (m : Ledger) → Posts b l m → Postings b m l' → Postings b l l'

  pub Postings-IsSound : (b : Bool) (l l' : Ledger) → Postings b l l' → IsSound l → IsSound l'
  Postings-IsSound b l l' (done e) h = subst IsSound (sym e) h
  Postings-IsSound b l l' (more m p rest) h = Postings-IsSound b m l' rest (Posts-IsSound b l m p h)

  abbrev pub one_posting : (b : Bool) (l l' : Ledger) → Posts b l l' → Postings b l l'
  one_posting b l l' p = more l' p (done refl)

  pub append_postings :
      (b : Bool) (l m n : Ledger) → Postings b l m → Postings b m n → Postings b l n
  append_postings b l m n (done e) q = subst (λ x. Postings b x n) e q
  append_postings b l m n (more k p rest) q = more k p (append_postings b k m n rest q)

  Posts-if :
      (l : Ledger) (b : Bool) (x y : Ledger)
      → Posts false l x
      → Posts false l y
      → Posts false l (if b then x else y)
  Posts-if l true x y p q = p
  Posts-if l false x y p q = q

  Posts-option :
      {A : Type 0} (l : Ledger) (o : Option A) (f : A → Ledger)
      → ((a : A) → Posts false l (f a))
      → Posts false l (elim o [ none ↦ l | some a ↦ f a ])
  Posts-option l none f h = inl refl
  Posts-option l (some a) f h = h a

  pub credit_earning-Posts :
      (hold : Option ℕ) (a : Row PaymentAttempt) (call_id at : ℕ) (l : Ledger)
      → Posts false l (credit_earning hold a call_id at l)
  unfolding credit_earning
  credit_earning-Posts hold (id, a) call_id at l = Posts-if l _ _ _ (inl refl) (inr (_, refl, refl))

  pub reverse_for_refund-Posts :
      (now : ℕ) (r : Row PaymentRefund) (attempts : Table PaymentAttempt) (l : Ledger)
      → Posts false l (reverse_for_refund now r attempts l)
  unfolding reverse_for_refund
  reverse_for_refund-Posts now (id, r) attempts l =
      Posts-option l (earning_for r.payment_attempt_id l) _
        (λ x. Posts-if l _ _ _ (inl refl) (inr (_, refl, refl)))

  pub adjust_for_dispute-Posts :
      (now : ℕ) (d : PaymentDispute) (l : Ledger) → Posts false l (adjust_for_dispute now d l)
  unfolding adjust_for_dispute
  adjust_for_dispute-Posts now d l =
      let debit_key = dispute_debit_key d.stripe_dispute_id in
      Posts-option l d.payment_attempt_id _ (λ a. Posts-option l (earning_for a l) _ (λ x.
        Posts-if l _ _ _ (inr (_, refl, refl)) (
          Posts-if l _ _ _
            (Posts-option l (first (λ e. key_eq e.idempotency_key debit_key) l.entries) _
              (λ y. inr (_, refl, refl)))
            (inl refl))))
