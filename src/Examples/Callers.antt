-- ===== src/Examples/Callers.antt =====
-- Examples of joining and leaving the queue.
use bling.Prelude.{ℕ, ◌≡◌, refl, some, true, false, [], ◌∷◌, arith}
use bling.Prelude.Result.{ok}
use bling.Accounts.{require_user_id}
use bling.Store.Rows.{lookup}
use bling.Store.Queries.{get, first, insert, next_id, replace}
use bling.Store.InMemory.{in_memory, empty, above}
use bling.Schema.Status.{PaymentStatus, QueueStatus, queue_eq}
use bling.Schema.Docs.{QueueEntry, PaymentAttempt}
use bling.Schema.Text.{trim, trim_start, is_space}
use bling.Schema.State.{Db, run_at, cancel_intent}
use bling.Payments.{show_is_live, schedule_cancel}
use bling.Queue.{
  JoinArgs, join_queue, admit, payment_for, write_entry, entry_of, require_tier, tier_for,
  is_unused, leave,
}
use bling.Queue.Rules.{OneEntry, join_queue-OneEntry, join_queue-entry}
use bling.Queue.Payment.{is_queued, join_queue-paid}
use bling.Examples.{caller_at, paid_tier, attempt, waiting_entry, queued}

abbrev args : JoinArgs
args = record { show_id = 1; tier_id = some 1; display_name = 66 ∷ []; topic = 32 ∷ 66 ∷ [] }

-- The show, its tier and the caller's hold, with nobody in the queue.
unfoldable before_joining : Db ⦃c = in_memory⦄
unfolding insert
before_joining = record (queued PaymentStatus.authorized) { entries = empty }

unfoldable after_joining : Db ⦃c = in_memory⦄
unfolding insert replace before_joining queued
after_joining = record before_joining {
  entries = insert waiting_entry empty;
  attempts =
      replace 1 (record (attempt PaymentStatus.authorized) { queue_entry_id = some 1 })
        before_joining.attempts;
}

joins :
    join_queue ⦃c = in_memory⦄ (caller_at 30) 2 args (some 1) before_joining ≡ ok (1, after_joining)
unfolding join_queue admit payment_for write_entry entry_of require_tier tier_for get lookup insert
    next_id first replace queued before_joining after_joining trim trim_start is_space above
joins = refl

nobody-OneEntry : OneEntry ⦃c = in_memory⦄ before_joining.entries
unfolding get lookup before_joining
nobody-OneEntry = λ i j e f x y s v. ground arith

join_queue-OneEntry_example : OneEntry ⦃c = in_memory⦄ after_joining.entries
join_queue-OneEntry_example =
    join_queue-OneEntry ⦃c = in_memory⦄ (caller_at 30) 2 args (some 1) before_joining
      (1, after_joining) joins nobody-OneEntry

join_queue-entry_example :
    (show_is_live ⦃c = in_memory⦄ 1 before_joining ≡ true)
    × ((e : QueueEntry) × (get ⦃c = in_memory⦄ after_joining.entries 1 ≡ some e)
        × (e.viewer_id ≡ 2)
        × (e.show_id ≡ 1)
        × (queue_eq e.status QueueStatus.left ≡ false))
join_queue-entry_example =
    join_queue-entry ⦃c = in_memory⦄ (caller_at 30) 2 args (some 1) before_joining
      (1, after_joining) joins

nobody_queued : is_queued (entry_of ⦃c = in_memory⦄ args.show_id 2 before_joining.entries) ≡ false
unfolding entry_of first before_joining
nobody_queued = refl

tier_known : require_tier ⦃c = in_memory⦄ args before_joining.tiers ≡ ok (1, paid_tier)
unfolding require_tier tier_for get lookup insert queued before_joining above
tier_known = refl

join_queue-paid_example :
    (id : ℕ) × (a : PaymentAttempt) × (get ⦃c = in_memory⦄ before_joining.attempts id ≡ some a)
    × (a.payer_id ≡ 2)
    × (a.show_id ≡ 1)
    × (a.tier_id ≡ 1)
    × (a.amount_cents ≡ 500)
    × (a.status ≡ PaymentStatus.authorized)
    × (is_unused a.queue_entry_id (entry_of ⦃c = in_memory⦄ 1 2 before_joining.entries) ≡ true)
    × (get ⦃c = in_memory⦄ after_joining.attempts id ≡ some (record a { queue_entry_id = some 1 }))
join_queue-paid_example =
    join_queue-paid ⦃c = in_memory⦄ (caller_at 30) 2 args (some 1) before_joining (1, after_joining)
      1 paid_tier joins nobody_queued tier_known refl

-- The caller's entry once they have left.
unfoldable after_leaving : Db ⦃c = in_memory⦄
unfolding insert replace queued
after_leaving = record (queued PaymentStatus.authorized) {
  entries =
      replace 1 (record waiting_entry { status = QueueStatus.left; left_at = some 50 })
        (queued PaymentStatus.authorized).entries;
  jobs = run_at 50 (cancel_intent 1 "caller_left");
}

leaves : leave ⦃c = in_memory⦄ (caller_at 50) 1 (queued PaymentStatus.authorized) ≡ ok after_leaving
unfolding leave entry_of get lookup insert first replace queued after_leaving above require_user_id
    schedule_cancel
leaves = refl

caller_waits :
    entry_of ⦃c = in_memory⦄ 1 2 (queued PaymentStatus.authorized).entries ≡ some (1, waiting_entry)
unfolding entry_of first insert queued above
caller_waits = refl

hold_there :
    get ⦃c = in_memory⦄ (queued PaymentStatus.authorized).attempts 1
    ≡ some (attempt PaymentStatus.authorized)
unfolding get lookup insert queued above
hold_there = refl
