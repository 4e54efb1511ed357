-- ===== src/Queue/Payment.antt =====
-- What a paid place in the queue costs (frontend/convex/queue.ts with payments.ts).
use bling.Prelude.{ℕ, ◌≡◌, inl, inr, Bool, true, false, not, Option, none, some, arith, ltb}
use bling.Prelude.Result.{ok}
use bling.Store.Interface.{Convex}
use bling.Store.Rows.{Row}
use bling.Store.Queries.{get, get-replace}
use bling.Schema.Status.{QueueStatus, PaymentStatus, queue_eq}
use bling.Schema.Docs.{QueueEntry, ShowTier, PaymentAttempt, Text}
use bling.Schema.Text.{trim}
use bling.Schema.State.{Env, Db}
use bling.Queue.{JoinArgs, require_tier, entry_of, is_unused, write_entry, join_queue}
use bling.Queue.Rules.{join_queue-cases, admit-cases, payment_for-paid}

-- A caller whose entry has not left.
abbrev pub is_queued : Option (Row QueueEntry) → Bool
is_queued none = false
is_queued (some (_, e)) = not (queue_eq e.status QueueStatus.left)

module _ ⦃c : Convex⦄ where
  write_entry-attempts :
      (env : Env) (viewer_id : ℕ) (args : JoinArgs) (name topic : Text) (tier : Row ShowTier)
      (id : ℕ) (a : PaymentAttempt) (existing : Option (Row QueueEntry)) (db : Db) (r : ℕ × Db)
      → write_entry env viewer_id args name topic tier (some (id, a)) existing db ≡ r
      → get db.attempts id ≡ some a
      → get r.1.attempts id ≡ some (record a { queue_entry_id = some r.0 })
  unfolding write_entry
  write_entry-attempts env viewer_id args name topic tier id a none db r h at_id =
      ground (arith, get-replace id (record a { queue_entry_id = some r.0 }) a db.attempts id at_id)
  write_entry-attempts env viewer_id args name topic tier id a (some (i, old)) db r h at_id =
      ground (arith, get-replace id (record a { queue_entry_id = some r.0 }) a db.attempts id at_id)

  -- A caller who is not in the queue gets a place in a tier with a price only with a payment attempt of
  -- their own for that show and tier, authorized, at exactly the tier's price and used by no other
  -- entry; the attempt then names the caller's entry.
  pub join_queue-paid :
      (env : Env) (viewer_id : ℕ) (args : JoinArgs) (payment : Option ℕ) (db : Db) (r : ℕ × Db)
      (tier_id : ℕ) (tier : ShowTier)
      → join_queue env viewer_id args payment db ≡ ok r
      → is_queued (entry_of args.show_id viewer_id db.entries) ≡ false
      → require_tier args db.tiers ≡ ok (tier_id, tier)
      → ltb 0 tier.price_cents ≡ true
      → (id : ℕ) × (a : PaymentAttempt) × (get db.attempts id ≡ some a)
        × (a.payer_id ≡ viewer_id)
        × (a.show_id ≡ args.show_id)
        × (a.tier_id ≡ tier_id)
        × (a.amount_cents ≡ tier.price_cents)
        × (a.status ≡ PaymentStatus.authorized)
        × (is_unused a.queue_entry_id (entry_of args.show_id viewer_id db.entries) ≡ true)
        × (get r.1.attempts id ≡ some (record a { queue_entry_id = some r.0 }))
  join_queue-paid env viewer_id args payment db r tier_id tier h out known priced =
      elim (join_queue-cases env viewer_id args payment db r h).1 [
        | inl (e, own, here, same) ↦ ground arith
        | inr ((tid, t), known', admitted) ↦
            let (attempt, paid, written) =
              admit-cases env viewer_id args (trim args.display_name) (trim args.topic) (tid, t)
                payment db r admitted in
            let (id, a, taken, there, usable) =
              payment_for-paid viewer_id args tid t (entry_of args.show_id viewer_id db.entries)
                payment db attempt paid (ground arith) in
            (
              id,
              a,
              there,
              ground arith,
              ground arith,
              ground arith,
              ground arith,
              ground arith,
              ground arith,
              write_entry-attempts env viewer_id args (trim args.display_name) (trim args.topic)
                  (tid, t) id a (entry_of args.show_id viewer_id db.entries) db r (ground arith)
                  there,
            )
      ]
