-- ===== src/Ledger/Balances.antt =====
-- The running totals of frontend/convex/lib/ledger.ts against the entries they stand for.
use bling.Prelude.{
  ℕ, ◌≡◌, inl, inr, Bool, false, none, some, arith, if◌then◌else◌, Option-cases, Bool-cases, subst,
  sym, ◌∙◌, List, [], ◌∷◌, ◌&&◌, not, ltb, String, str_eq_iff,
}
use bling.Prelude.Int.{ℤ, pos, ◌+ℤ◌, ◌-ℤ◌, int_laws}
use bling.Store.Interface.{Convex}
use bling.Store.Rows.{Row}
use bling.Store.Queries.{first, get-first}
use bling.Store.Sums.{
  sum_of, sum_rows, sum_of-insert, first-insert, first-replace_hit, first-replace_miss,
}
use bling.Schema.Docs.{LedgerEntry, CreatorBalance}
use bling.Schema.State.{Ledger}
use bling.Ledger.Posting.{posted, post_entry-cases}
use bling.Ledger.{post_entry, add_to_balance, balance_at, is_balance_of, is_entry_of}

module _ ⦃c : Convex⦄ where
  -- What the balance row of a creator and a currency says, 0 where there is none.
  unfoldable pub balance_of : ℕ → String → Ledger → ℤ
  balance_of creator currency l = elim (first (is_balance_of creator currency) l.balances) [
    | some (_, balance) ↦ balance.total_cents
    | none ↦ pos 0
  ]

  -- The sum of all entries of a creator in a currency.
  unfoldable pub total_of : ℕ → String → Ledger → ℤ
  total_of creator currency l =
      sum_of (is_entry_of creator currency) (λ e. e.amount_cents) l.entries

  -- Every running total is the sum of its entries.
  abbrev pub IsBalanced : Ledger → Type 0
  IsBalanced l =
      (creator : ℕ) (currency : String)
      → balance_of creator currency l ≡ total_of creator currency l

  -- The row of an entry's own creator and currency moves by its amount.
  balance_of-add_self :
      (e : LedgerEntry) (l : Ledger)
      → balance_of e.creator_id e.currency (posted e l)
        ≡ balance_of e.creator_id e.currency l +ℤ e.amount_cents
  unfolding balance_of add_to_balance ◌+ℤ◌
  balance_of-add_self e l =
      let p : CreatorBalance → Bool = is_balance_of e.creator_id e.currency in
      elim (Option-cases (first p l.balances)) [
        | inl none_yet ↦ ground (
          arith,
          first-insert p
              (record {
                creator_id = e.creator_id;
                currency = e.currency;
                total_cents = e.amount_cents;
              })
              l.balances,
          str_eq_iff e.currency e.currency,
        )
        | inr ((i, b), found) ↦
            let (at_i, hit) = get-first p l.balances (i, b) found in
            ground (
              arith,
              found,
              first-replace_hit p i b (record b { total_cents = b.total_cents +ℤ e.amount_cents })
                  l.balances found at_i hit,
            )
      ]

  -- Every other row stays.
  balance_of-add_other :
      (creator : ℕ) (currency : String) (e : LedgerEntry) (l : Ledger)
      → is_entry_of creator currency e ≡ false
      → balance_of creator currency (posted e l) ≡ balance_of creator currency l
  unfolding balance_of add_to_balance
  balance_of-add_other creator currency e l other =
      let p : CreatorBalance → Bool = is_balance_of e.creator_id e.currency in
      let q : CreatorBalance → Bool = is_balance_of creator currency in
      elim (Option-cases (first p l.balances)) [
        | inl none_yet ↦ ground (
          arith,
          first-insert q
              (record {
                creator_id = e.creator_id;
                currency = e.currency;
                total_cents = e.amount_cents;
              })
              l.balances,
        )
        | inr ((i, b), found) ↦
            let (at_i, hit) = get-first p l.balances (i, b) found in
            let miss : q b ≡ false = ground (
              arith,
              str_eq_iff b.currency e.currency,
              str_eq_iff b.currency currency,
              str_eq_iff e.currency currency,
            ) in
            ground (
              arith,
              found,
              first-replace_miss q i b (record b { total_cents = b.total_cents +ℤ e.amount_cents })
                  l.balances at_i miss miss,
            )
      ]

  pub total_of-posted :
      (creator : ℕ) (currency : String) (e : LedgerEntry) (l : Ledger)
      → total_of creator currency (posted e l) ≡ (
          if is_entry_of creator currency e
          then total_of creator currency l +ℤ e.amount_cents
          else total_of creator currency l)
  unfolding total_of
  total_of-posted creator currency e l =
      sum_of-insert (is_entry_of creator currency) (λ x. x.amount_cents) e l.entries

  posted-IsBalanced : (e : LedgerEntry) (l : Ledger) → IsBalanced l → IsBalanced (posted e l)
  posted-IsBalanced e l h creator currency = elim (Bool-cases (is_entry_of creator currency e)) [
    | inl own ↦
        let same : (e.creator_id ≡ creator) × (e.currency ≡ currency) =
          ground (arith, str_eq_iff e.currency currency) in
        ground (
          arith,
          same,
          total_of-posted creator currency e l,
          balance_of-add_self e l,
          h creator currency,
        )
    | inr other ↦ ground (
      arith,
      total_of-posted creator currency e l,
      balance_of-add_other creator currency e l other,
      h creator currency,
    )
  ]

  -- Posting an entry keeps every running total equal to the sum of its entries.
  pub post_entry-IsBalanced :
      (e : LedgerEntry) (l : Ledger) → IsBalanced l → IsBalanced (post_entry e l).0
  post_entry-IsBalanced e l h = elim (post_entry-cases e l) [
    | inl same ↦ subst (λ x. IsBalanced x.0) (sym same) h
    | inr (added, _) ↦ subst (λ x. IsBalanced x.0) (sym added) (posted-IsBalanced e l h)
  ]

sub_of_add : (t a b : ℤ) → t ≡ a +ℤ b → t -ℤ a ≡ b
sub_of_add t a b h = rw h (omega int_laws)

sum_rows-split :
    {D : Type 0} (p q : D → Bool) (f : D → ℤ) (rs : List (Row D))
    → sum_rows p f rs ≡ sum_rows (λ d. p d && q d) f rs +ℤ sum_rows (λ d. p d && not (q d)) f rs
unfolding sum_rows
sum_rows-split p q f [] = omega int_laws
sum_rows-split p q f (r ∷ rs) = grind (int_laws, sum_rows-split p q f rs)

module _ ⦃c : Convex⦄ where
  -- The sum of the entries of a creator in a currency that count at a moment.
  unfoldable pub effective_total : ℕ → String → ℕ → Ledger → ℤ
  effective_total creator currency now l =
      sum_of (λ e. is_entry_of creator currency e && not (ltb now e.effective_at))
        (λ e. e.amount_cents) l.entries

  -- In a balanced ledger the available amount, worked out from the running total and the held
  -- entries alone, is the sum of the entries whose time has come.
  pub balance_at-available :
      (creator : ℕ) (currency : String) (now : ℕ) (l : Ledger)
      → IsBalanced l
      → ((balance_at creator currency now l).available_cents
          ≡ effective_total creator currency now l)
        × ((balance_at creator currency now l).total_cents ≡ total_of creator currency l)
  unfolding balance_at effective_total total_of balance_of sum_of
  balance_at-available creator currency now l h =
      let split =
        sum_rows-split (is_entry_of creator currency) (λ e. ltb now e.effective_at)
          (λ e. e.amount_cents) (c.rows l.entries) in
      (sub_of_add _ _ _ (h creator currency ∙ split), h creator currency)
