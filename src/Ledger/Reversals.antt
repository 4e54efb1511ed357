-- ===== src/Ledger/Reversals.antt =====
-- What refunds take back (frontend/convex/lib/ledger.ts, `reverseForRefund`).
use bling.Prelude.{
  ℕ, ◌≡◌, ◌⊎◌, inl, inr, refl, false, none, some, arith, ◌==◌, if◌then◌else◌, Option-cases,
  Bool-cases, subst, sym, ◌∙◌, ==_iff,
}
use bling.Prelude.Int.{ℤ, pos, neg, ◌+ℤ◌, ◌-ℤ◌, ◌≤ℤ◌, leb_ℤ, int_laws}
use bling.Store.Interface.{Convex}
use bling.Store.Rows.{Row}
use bling.Store.Queries.{Table, get, first}
use bling.Store.Sums.{sum_of, sum_of-insert, sum_of_free, first-insert}
use bling.Schema.Status.{LedgerKind, kind_eq}
use bling.Schema.Docs.{LedgerEntry, PaymentRefund, PaymentAttempt, refund_key}
use bling.Schema.Keys.{key_eq}
use bling.Schema.State.{Ledger}
use bling.Ledger.Posting.{posted, post_entry-cases}
use bling.Ledger.{
  reverse_for_refund, refund_share, earning_for, is_for_attempt, min_ℤ, reversal_entry,
  reversal_amount, reversed_before,
}

min_bound : (s e v r : ℤ) → v ≡ r → min_ℤ s (e -ℤ neg v) ≤ℤ e +ℤ r
min_bound s e v r h = grind int_laws

module _ ⦃c : Convex⦄ where
  -- What a payment attempt earned its creator, 0 where nothing was credited.
  unfoldable pub earned : ℕ → Ledger → ℤ
  earned attempt l = elim (earning_for attempt l) [
    | some (_, earning) ↦ earning.amount_cents
    | none ↦ pos 0
  ]

  -- The (negative) sum of the refund reversals of a payment attempt.
  unfoldable pub reversals : ℕ → Ledger → ℤ
  reversals attempt l =
      sum_of (is_for_attempt attempt LedgerKind.refund_reversal) (λ e. e.amount_cents) l.entries

  -- For every payment attempt the refund reversals are negative or zero in sum, and together take
  -- back no more than was earned.
  abbrev pub IsCovered : Ledger → Type 0
  IsCovered l =
      (attempt : ℕ)
      → (reversals attempt l ≤ℤ pos 0) × (pos 0 ≤ℤ earned attempt l +ℤ reversals attempt l)

  earned-posted :
      (attempt : ℕ) (e : LedgerEntry) (l : Ledger)
      → kind_eq e.kind LedgerKind.earning ≡ false
      → earned attempt (posted e l) ≡ earned attempt l
  unfolding earned earning_for
  earned-posted attempt e l k =
      ground (arith, first-insert (is_for_attempt attempt LedgerKind.earning) e l.entries)

  reversals-posted :
      (attempt : ℕ) (e : LedgerEntry) (l : Ledger)
      → reversals attempt (posted e l) ≡ (
          if is_for_attempt attempt LedgerKind.refund_reversal e
          then reversals attempt l +ℤ e.amount_cents
          else reversals attempt l)
  unfolding reversals
  reversals-posted attempt e l =
      sum_of-insert (is_for_attempt attempt LedgerKind.refund_reversal) (λ x. x.amount_cents) e
        l.entries

  abbrev IsCoveredAt : ℕ → Ledger → Type 0
  IsCoveredAt attempt l =
      (reversals attempt l ≤ℤ pos 0) × (pos 0 ≤ℤ earned attempt l +ℤ reversals attempt l)

  module _ (l : Ledger) (r : Row PaymentRefund) (earning : Row LedgerEntry) (now : ℕ) (amount : ℤ)
      (h : IsCovered l) (found : earning_for r.1.payment_attempt_id l ≡ some earning)
      (up : ¬ (amount ≤ℤ pos 0))
      (low : amount ≤ℤ earning.1.amount_cents +ℤ reversals r.1.payment_attempt_id l) where
    reversal : LedgerEntry
    reversal = reversal_entry now earning.1 r amount

    earned_found : earned r.1.payment_attempt_id l ≡ earning.1.amount_cents
    unfolding earned
    earned_found = rw (found, earned)

    own_earned : earned r.1.payment_attempt_id (posted reversal l) ≡ earning.1.amount_cents
    unfolding reversal
    own_earned = earned-posted r.1.payment_attempt_id reversal l refl ∙ earned_found

    own_reversals :
        reversals r.1.payment_attempt_id (posted reversal l)
        ≡ reversals r.1.payment_attempt_id l +ℤ neg amount
    unfolding reversal
    own_reversals = ground (arith, reversals-posted r.1.payment_attempt_id reversal l)

    own_covered : IsCoveredAt r.1.payment_attempt_id (posted reversal l)
    own_covered = rw (own_earned, own_reversals) (omega (int_laws, h r.1.payment_attempt_id))

    -- A reversal within what is left of the earning keeps the ledger covered.
    reversal-IsCovered : IsCovered (posted reversal l)
    unfolding reversal
    reversal-IsCovered attempt = elim (Bool-cases (r.1.payment_attempt_id == attempt)) [
      | inl own ↦ subst (λ a. IsCoveredAt a (posted reversal l)) ((==_iff _ _).0 own) own_covered
      | inr other ↦ ground (
        arith,
        earned-posted attempt reversal l refl,
        reversals-posted attempt reversal l,
        h attempt,
      )
    ]

  -- The amount that a refund takes back is at most what the other reversals leave of the earning,
  -- where no entry has the refund's key yet.
  reversal_amount_bound :
      (earning : LedgerEntry) (id : ℕ) (r : PaymentRefund) (attempts : Table PaymentAttempt)
      (l : Ledger)
      → first (λ e. key_eq e.idempotency_key (refund_key id)) l.entries ≡ none
      → reversal_amount earning (id, r) attempts l
        ≤ℤ earning.amount_cents +ℤ reversals r.payment_attempt_id l
  unfolding reversal_amount reversed_before reversals
  reversal_amount_bound earning id r attempts l free =
      let others =
        sum_of_free (is_for_attempt r.payment_attempt_id LedgerKind.refund_reversal)
          (λ e. key_eq e.idempotency_key (refund_key id)) (λ e. e.amount_cents) l.entries free in
      min_bound (refund_share earning (get attempts r.payment_attempt_id) r) _ _ _ others

  -- Either nothing is posted, or a reversal of a positive amount under a key that was free.
  reverse_for_refund-cases :
      (now id : ℕ) (r : PaymentRefund) (attempts : Table PaymentAttempt) (l : Ledger)
      → (reverse_for_refund now (id, r) attempts l ≡ l)
        ⊎ ((earning : Row LedgerEntry) × (amount : ℤ) × (earning_for r.payment_attempt_id l
              ≡ some earning)
            × (amount ≡ reversal_amount earning.1 (id, r) attempts l)
            × (¬ (amount ≤ℤ pos 0))
            × (first (λ e. key_eq e.idempotency_key (refund_key id)) l.entries ≡ none)
            × (reverse_for_refund now (id, r) attempts l
                ≡ posted (reversal_entry now earning.1 (id, r) amount) l))
  unfolding reverse_for_refund
  reverse_for_refund-cases now id r attempts l =
      elim (Option-cases (earning_for r.payment_attempt_id l)) [
        | inl unearned ↦ inl (rw (unearned, reverse_for_refund))
        | inr (earning, found) ↦
            let amount = reversal_amount earning.1 (id, r) attempts l in
            elim (Bool-cases (leb_ℤ amount (pos 0))) [
              | inl nothing ↦ inl (ground arith)
              | inr some_left ↦
                  elim (post_entry-cases (reversal_entry now earning.1 (id, r) amount) l) [
                    | inl same ↦ inl (ground arith)
                    | inr (added, free) ↦
                        inr (earning, amount, found, refl, ground arith, free, ground arith)
                  ]
            ]
      ]

  -- A refund takes back no more than its creator earned, whatever was refunded before.
  pub reverse_for_refund-IsCovered :
      (now : ℕ) (r : Row PaymentRefund) (attempts : Table PaymentAttempt) (l : Ledger)
      → IsCovered l
      → IsCovered (reverse_for_refund now r attempts l)
  unfolding reversal
  reverse_for_refund-IsCovered now (id, r) attempts l h =
      elim (reverse_for_refund-cases now id r attempts l) [
        | inl same ↦ subst IsCovered (sym same) h
        | inr (earning, amount, found, what, up, free, eq) ↦ subst IsCovered (sym eq) (
            reversal-IsCovered l (id, r) earning now amount h found up
              (rw what (reversal_amount_bound earning.1 id r attempts l free)))
      ]
