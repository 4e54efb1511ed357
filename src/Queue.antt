-- ===== src/Queue.antt =====
-- The caller queue (frontend/convex/queue.ts).
pub mod Rules
pub mod Payment
use bling.Prelude.{
  ℕ, ◌+◌, ◌≡◌, Bool, true, false, not, ◌&&◌, ◌||◌, Option, none, some, List, [], ◌∷◌, ◌++◌, ◌==◌,
  ltb, leb, if◌then◌else◌, is_some, opt_eq, reverse, find,
}
use bling.Prelude.Result.{
  Result, ok, err, validation_failed, show_not_live, tier_not_found, payment_required, not_in_queue,
  invalid_queue_state, ◌>>=◌, ◌>>◌, fail_if,
}
use bling.Accounts.{require_user_id}
use bling.Store.Interface.{Convex}
use bling.Store.Rows.{Row}
use bling.Store.Queries.{Table, get, first, collect, insert, next_id, replace, sort_by}
use bling.Schema.Status.{ShowStatus, QueueStatus, PaymentStatus, show_eq, queue_eq, payment_eq}
use bling.Schema.Docs.{Show, ShowTier, QueueEntry, PaymentAttempt, Text}
use bling.Schema.Text.{trim, has_length}
use bling.Schema.State.{Env, Db, Scheduled}
use bling.Payments.{schedule_cancel, show_is_live}

-- The arguments of `join`, and of `joinWithPayment` besides the payment.
pub record JoinArgs : Type 0 where
  pub show_id : ℕ
  pub tier_id : Option ℕ
  pub display_name : Text
  pub topic : Text

module _ ⦃c : Convex⦄ where
  -- The enabled tier of the highest rank.
  unfoldable pub default_tier : (show_id : ℕ) → Table ShowTier → Option (Row ShowTier)
  default_tier show_id t =
      find (λ r. r.1.enabled)
        (reverse (sort_by (λ x. x.priority_rank) (collect (λ x. x.show_id == show_id) t)))

  unfoldable pub tier_for : JoinArgs → Table ShowTier → Option (Row ShowTier)
  unfolding default_tier
  tier_for args t = elim args.tier_id [
    | none ↦ default_tier args.show_id t
    | some id ↦ elim (get t id) [ none ↦ none | some tier ↦ some (id, tier) ]
  ]

  -- The tier, or TIER_NOT_FOUND.
  unfoldable pub require_tier : JoinArgs → Table ShowTier → Result (Row ShowTier)
  unfolding tier_for
  require_tier args t = elim (tier_for args t) [
    | none ↦ err tier_not_found
    | some (id, tier) ↦
        if not (tier.show_id == args.show_id) || not tier.enabled
        then err tier_not_found
        else ok (id, tier)
  ]

  -- The index `by_show_viewer`.
  unfoldable pub entry_of : (show_id viewer_id : ℕ) → Table QueueEntry → Option (Row QueueEntry)
  entry_of show_id viewer_id t = first (λ e. e.show_id == show_id && e.viewer_id == viewer_id) t

  -- An attempt that no other entry uses: it has none yet, or the caller's own.
  abbrev pub is_unused : Option ℕ → Option (Row QueueEntry) → Bool
  is_unused none existing = true
  is_unused (some id) none = false
  is_unused (some id) (some (own, _)) = id == own

  -- The caller's own authorized hold for exactly this tier's price.
  abbrev pub is_usable :
      (viewer_id show_id : ℕ) → Row ShowTier → Option (Row QueueEntry) → PaymentAttempt → Bool
  is_usable viewer_id show_id (tier_id, tier) existing a =
      a.payer_id == viewer_id
      && a.show_id == show_id
      && a.tier_id == tier_id
      && a.amount_cents == tier.price_cents
      && payment_eq a.status PaymentStatus.authorized
      && is_unused a.queue_entry_id existing

  unfoldable pub payment_for :
      (viewer_id : ℕ)
      → JoinArgs
      → Row ShowTier
      → Option (Row QueueEntry)
      → Option ℕ
      → Db
      → Result (Option (Row PaymentAttempt))
  payment_for viewer_id args tier existing payment_attempt_id db =
      if ltb 0 tier.1.price_cents
      then elim payment_attempt_id [
        | none ↦ err payment_required
        | some id ↦ elim (get db.attempts id) [
          | none ↦ err payment_required
          | some a ↦
              if is_usable viewer_id args.show_id tier existing a
              then ok (some (id, a))
              else err payment_required
        ]
      ]
      else ok none

  abbrev pub joined_entry :
      Env
      → (viewer_id : ℕ) → JoinArgs
      → (display_name topic : Text) → Row ShowTier
      → Option (Row PaymentAttempt)
      → (selected_at : Option ℕ) → QueueEntry
  joined_entry env viewer_id args display_name topic (tier_id, tier) attempt selected_at = record {
    show_id = args.show_id;
    viewer_id = viewer_id;
    display_name = display_name;
    topic = topic;
    status = QueueStatus.waiting;
    tier_id = tier_id;
    tier_name = tier.name;
    priority_rank = tier.priority_rank;
    call_duration_seconds = tier.call_duration_seconds;
    tier_price_cents = tier.price_cents;
    joined_at = env.now;
    selected_at = selected_at;
    left_at = none;
    payment_attempt_id = elim attempt [ none ↦ none | some (id, _) ↦ some id ];
  }

  -- The entry is written over the caller's former one, if there is one.
  unfoldable pub write_entry :
      Env
      → (viewer_id : ℕ) → JoinArgs
      → (display_name topic : Text) → Row ShowTier
      → Option (Row PaymentAttempt)
      → Option (Row QueueEntry)
      → Db
      → ℕ × Db
  write_entry env viewer_id args display_name topic tier attempt existing db =
      let written : ℕ × Table QueueEntry = elim existing [
        | none ↦ (
          next_id db.entries,
          insert (joined_entry env viewer_id args display_name topic tier attempt none) db.entries,
        )
        | some (id, old) ↦ (
          id,
          replace id
              (joined_entry env viewer_id args display_name topic tier attempt old.selected_at)
              db.entries,
        )
      ] in
      (
        written.0,
        record db {
          entries = written.1;
          attempts = elim attempt [
            | none ↦ db.attempts
            | some (id, a) ↦ replace id (record a { queue_entry_id = some written.0 }) db.attempts
          ];
        },
      )

  -- A caller who is in the queue already keeps their entry.
  unfoldable pub admit :
      Env
      → (viewer_id : ℕ) → JoinArgs
      → (display_name topic : Text) → Row ShowTier
      → Option ℕ
      → Db
      → Result (ℕ × Db)
  unfolding payment_for write_entry
  admit env viewer_id args display_name topic tier payment_attempt_id db = do
    let existing = entry_of args.show_id viewer_id db.entries
    attempt ← payment_for viewer_id args tier existing payment_attempt_id db
    ok (write_entry env viewer_id args display_name topic tier attempt existing db)

  -- The id of the caller's entry, and the state.
  unfoldable pub join_queue :
      Env → (viewer_id : ℕ) → JoinArgs → (payment_attempt_id : Option ℕ) → Db → Result (ℕ × Db)
  unfolding require_tier entry_of admit
  join_queue env viewer_id args payment_attempt_id db = do
    let display_name = trim args.display_name
    let topic = trim args.topic
    fail_if (not (has_length 1 60 display_name)) validation_failed
    fail_if (not (has_length 1 280 topic)) validation_failed
    fail_if (not (show_is_live args.show_id db)) show_not_live
    tier ← require_tier args db.tiers
    elim (entry_of args.show_id viewer_id db.entries) [
      | none ↦ admit env viewer_id args display_name topic tier payment_attempt_id db
      | some (id, e) ↦
          if queue_eq e.status QueueStatus.left
          then admit env viewer_id args display_name topic tier payment_attempt_id db
          else ok (id, db)
    ]

  -- `join` and `joinWithPayment`.
  unfoldable pub join : Env → JoinArgs → (payment_attempt_id : Option ℕ) → Db → Result (ℕ × Db)
  unfolding require_user_id join_queue
  join env args payment_attempt_id db = do
    viewer_id ← require_user_id env
    join_queue env viewer_id args payment_attempt_id db

  -- Leaving releases the caller's card hold.
  unfoldable pub leave : Env → (show_id : ℕ) → Db → Result Db
  unfolding require_user_id entry_of schedule_cancel
  leave env show_id db = do
    viewer_id ← require_user_id env
    elim (entry_of show_id viewer_id db.entries) [
      | none ↦ err not_in_queue
      | some (id, e) ↦
          if queue_eq e.status QueueStatus.left
          then ok db
          else if not (queue_eq e.status QueueStatus.waiting)
          then err invalid_queue_state
          else ok (record db {
            entries =
                replace id (record e { status = QueueStatus.left; left_at = some env.now })
                  db.entries;
            jobs = db.jobs ++ elim e.payment_attempt_id [
              | none ↦ []
              | some a ↦ elim (get db.attempts a) [
                | none ↦ []
                | some attempt ↦ schedule_cancel env.now (a, attempt) "caller_left"
              ]
            ];
          })
    ]
