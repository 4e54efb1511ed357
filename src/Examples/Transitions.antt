-- ===== src/Examples/Transitions.antt =====
-- Examples of what a transition earns and refunds.
use bling.Prelude.{◌≡◌, refl, some, ◌==◌, ◌⊎◌, ℕ, none, ◌+◌}
use bling.Ledger.{earnings_hold_ms}
use bling.Prelude.Int.{sub_ℕ}
use bling.Prelude.Result.{ok}
use bling.Store.Rows.{lookup}
use bling.Store.Queries.{get, first, insert, patch}
use bling.Store.InMemory.{in_memory, above}
use bling.Schema.Status.{CallStatus, PaymentStatus, RefundStatus, LedgerKind}
use bling.Schema.Docs.{Call, earning_key, PaymentRefund, LedgerEntry}
use bling.Schema.Keys.{key_eq}
use bling.Schema.State.{Db}
use bling.Calls.{apply_transition}
use bling.Calls.Money.{
  apply_transition_refunds, apply_transition_earns, apply_transition_earns_or_refunds,
}
use bling.System.{committed}
use bling.Examples.{creator_at, call, attempt, queued, in_call}

unfoldable moved_to : Call → CallStatus → Db ⦃c = in_memory⦄ → Db ⦃c = in_memory⦄
moved_to k target db = committed (apply_transition (creator_at 40) (1, k) target db) db

ends_unstarted :
    apply_transition ⦃c = in_memory⦄
      (creator_at 40)
      (1, call CallStatus.created)
      CallStatus.ended
      (in_call CallStatus.created)
    ≡ ok (moved_to (call CallStatus.created) CallStatus.ended (in_call CallStatus.created))
unfolding apply_transition moved_to get lookup insert patch in_call queued above
ends_unstarted = refl

captured_there :
    get ⦃c = in_memory⦄ (in_call CallStatus.created).attempts 1
    ≡ some (attempt PaymentStatus.captured)
unfolding get lookup insert in_call queued above
captured_there = refl

apply_transition_refunds_example :
    let db = in_call CallStatus.created in
    let db' = moved_to (call CallStatus.created) CallStatus.ended db in
    (i : ℕ) × (r : PaymentRefund) × (first ⦃c = in_memory⦄
        (λ r. r.payment_attempt_id == 1)
        db'.refunds
      ≡ some (i, r))
    × ((first ⦃c = in_memory⦄ (λ r. r.payment_attempt_id == 1) db.refunds ≡ some (i, r))
        ⊎ ((r.amount_cents ≡ 500)
            × (r.currency ≡ "usd")
            × (r.call_id ≡ 1)
            × (r.status ≡ RefundStatus.requested)
            × (r.attempts ≡ 0)))
apply_transition_refunds_example =
    apply_transition_refunds ⦃c = in_memory⦄ (creator_at 40) 1 (call CallStatus.created)
      CallStatus.ended (in_call CallStatus.created) 1 (attempt PaymentStatus.captured)
      ends_unstarted refl refl refl refl captured_there refl refl

apply_transition_earns_or_refunds_example :
    ((moved_to (call CallStatus.created) CallStatus.ended (in_call CallStatus.created)).ledger
      ≡ (in_call CallStatus.created).ledger)
    ⊎ ((moved_to (call CallStatus.created) CallStatus.ended (in_call CallStatus.created)).refunds
        ≡ (in_call CallStatus.created).refunds)
apply_transition_earns_or_refunds_example =
    apply_transition_earns_or_refunds ⦃c = in_memory⦄ (creator_at 40) 1 (call CallStatus.created)
      CallStatus.ended (in_call CallStatus.created) ends_unstarted

goes_live :
    apply_transition ⦃c = in_memory⦄
      (creator_at 40)
      (1, call CallStatus.connecting)
      CallStatus.live
      (in_call CallStatus.connecting)
    ≡ ok (moved_to (call CallStatus.connecting) CallStatus.live (in_call CallStatus.connecting))
unfolding apply_transition moved_to get lookup insert patch in_call queued above
goes_live = refl

captured_here :
    get ⦃c = in_memory⦄ (in_call CallStatus.connecting).attempts 1
    ≡ some (attempt PaymentStatus.captured)
unfolding get lookup insert in_call queued above
captured_here = refl

apply_transition_earns_example :
    let db = in_call CallStatus.connecting in
    let db' = moved_to (call CallStatus.connecting) CallStatus.live db in
    let is_its = (λ (e : LedgerEntry). key_eq e.idempotency_key (earning_key 1)) in
    (i : ℕ) × (e : LedgerEntry) × (first ⦃c = in_memory⦄ is_its db'.ledger.entries ≡ some (i, e))
    × ((first ⦃c = in_memory⦄ is_its db.ledger.entries ≡ some (i, e))
        ⊎ ((e.kind ≡ LedgerKind.earning)
            × (e.creator_id ≡ 1)
            × (e.amount_cents ≡ sub_ℕ 500 72)
            × (e.currency ≡ "usd")
            × (e.effective_at ≡ 40 + earnings_hold_ms none)))
apply_transition_earns_example =
    apply_transition_earns ⦃c = in_memory⦄ (creator_at 40) 1 (call CallStatus.connecting)
      (in_call CallStatus.connecting) 1 (attempt PaymentStatus.captured) goes_live refl refl refl
      captured_here refl refl
