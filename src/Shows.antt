-- ===== src/Shows.antt =====
-- The lifecycle of a show (frontend/convex/shows.ts): created, live, ended.
pub mod Lifecycle
pub mod Closing
pub mod Emptying
pub mod Batches
pub mod Ending
use bling.Prelude.{
  ℕ, ◌+◌, ◌-◌, ◌<◌, ◌≡◌, Bool, true, false, not, ◌&&◌, ◌||◌, Option, none, some, List, [], ◌∷◌,
  ◌++◌, ◌==◌, ltb, leb, if◌then◌else◌, is_some, any, length, take, keep, String, str_eq,
}
use bling.Prelude.Result.{
  Result, ok, err, invalid_show_state, validation_failed, invalid_tier_configuration,
  payout_setup_required, active_show_exists, ◌>>=◌, ◌>>◌, fail_if,
}
use bling.Accounts.{require_creator_id, show_for_creator}
use bling.Store.Interface.{Convex}
use bling.Store.Rows.{Row}
use bling.Store.Queries.{Table, get, first, newest, collect, insert, next_id, replace, sort_by}
use bling.Schema.Status.{ShowStatus, QueueStatus, CallStatus, show_eq, queue_eq}
use bling.Schema.Docs.{Show, ShowTier, QueueEntry, PayoutAccount, Text}
use bling.Schema.State.{Env, Db, Scheduled, run_at, close_queue}
use bling.Payments.{schedule_cancel}
use bling.Calls.{active_call_for_show, apply_transition, includes, connectable_statuses}
use bling.Social.{on_show_created, on_show_scheduled, on_show_live, on_show_ended}

-- `accountReady` of frontend/convex/payouts.ts.
unfoldable pub account_ready : Option PayoutAccount → Bool
account_ready none = false
account_ready (some a) =
    not (str_eq a.stripe_account_id "")
    && str_eq a.transfers_status "active"
    && str_eq a.bank_payouts_status "active"
    && a.external_account_present
    && a.details_submitted

abbrev pub close_batch : ℕ
close_batch = 200

abbrev pub schedule_min_lead_ms : ℕ
schedule_min_lead_ms = 300000

abbrev pub schedule_max_lead_ms : ℕ
schedule_max_lead_ms = 5184000000

-- "Standard", as the code units of its text.
abbrev pub standard_name : Text
standard_name = 83 ∷ 116 ∷ 97 ∷ 110 ∷ 100 ∷ 97 ∷ 114 ∷ 100 ∷ []

abbrev pub standard_tier : (show_id : ℕ) → ShowTier
standard_tier show_id = record {
  show_id = show_id;
  name = standard_name;
  priority_rank = 0;
  call_duration_seconds = 300;
  price_cents = 0;
  enabled = true;
}

abbrev pub is_live_of : (creator_id : ℕ) → Show → Bool
is_live_of creator_id s = s.creator_id == creator_id && show_eq s.status ShowStatus.live

-- The time that is announced is at least the minimum and at most the maximum ahead of now.
abbrev pub lead_is_valid : (now : ℕ) → Option ℕ → Bool
lead_is_valid now none = true
lead_is_valid now (some at) =
    leb (now + schedule_min_lead_ms) at && leb at (now + schedule_max_lead_ms)

module _ ⦃c : Convex⦄ where
  -- The creator's live show, or else their newest unstarted one.
  unfoldable pub current : Env → Db → Result (Option (Row Show))
  unfolding require_creator_id
  current env db = do
    creator_id ← require_creator_id env db
    ok (elim (first (is_live_of creator_id) db.shows) [
      | some live ↦ some live
      | none ↦
          newest (λ s. s.creator_id == creator_id && show_eq s.status ShowStatus.created) db.shows
    ])

  -- A new show starts with one free Standard tier.
  unfoldable pub create : Env → Db → Result (ℕ × Db)
  unfolding require_creator_id on_show_created
  create env db = do
    creator_id ← require_creator_id env db
    let show_id = next_id db.shows
    ok (
      show_id,
      record db {
        shows =
            insert
              (record {
                creator_id = creator_id;
                status = ShowStatus.created;
                started_at = none;
                ended_at = none;
                scheduled_for = none;
              })
              db.shows;
        tiers = insert (standard_tier show_id) db.tiers;
        social = on_show_created creator_id db.social;
      },
    )

  unfoldable pub schedule : Env → (show_id : ℕ) → Option ℕ → Db → Result Db
  unfolding require_creator_id show_for_creator on_show_scheduled
  schedule env show_id scheduled_for db = do
    creator_id ← require_creator_id env db
    show ← show_for_creator show_id creator_id db
    fail_if (not (show_eq show.status ShowStatus.created)) invalid_show_state
    fail_if (not (lead_is_valid env.now scheduled_for)) validation_failed
    ok (record db {
      shows = replace show_id (record show { scheduled_for = scheduled_for }) db.shows;
      social = on_show_scheduled creator_id scheduled_for db.social;
    })

  unfoldable pub account_of : (creator_id : ℕ) → Db → Option PayoutAccount
  account_of creator_id db = elim (first (λ a. a.creator_id == creator_id) db.payouts.accounts) [
    | none ↦ none
    | some (_, a) ↦ some a
  ]

  -- What `start` asks of the tiers: one is enabled, and an enabled one with a price needs a creator
  -- who can be paid.
  unfoldable pub check_tiers : (show_id creator_id : ℕ) → Db → Result (Unit {0})
  unfolding account_ready account_of
  check_tiers show_id creator_id db = do
    let enabled = collect (λ t. t.show_id == show_id && t.enabled) db.tiers
    let account = account_of creator_id db
    fail_if (length enabled == 0) invalid_tier_configuration
    fail_if (any (λ t. ltb 0 t.1.price_cents) enabled && not (account_ready account))
        payout_setup_required

  unfoldable pub go_live : Env → (show_id creator_id : ℕ) → Show → Db → Result Db
  unfolding check_tiers on_show_live
  go_live env show_id creator_id show db = do
    fail_if (not (show_eq show.status ShowStatus.created)) invalid_show_state
    check_tiers show_id creator_id db
    fail_if (is_some (first (is_live_of creator_id) db.shows)) active_show_exists
    let live = record show { status = ShowStatus.live; started_at = some env.now }
    let announced = on_show_live env.now (show_id, live) db.social
    ok (record db {
      shows = replace show_id live db.shows;
      social = announced.0;
      jobs = db.jobs ++ announced.1;
    })

  unfoldable pub start : Env → (show_id : ℕ) → Db → Result Db
  unfolding require_creator_id show_for_creator go_live
  start env show_id db = do
    creator_id ← require_creator_id env db
    show ← show_for_creator show_id creator_id db
    if show_eq show.status ShowStatus.live then ok db else go_live env show_id creator_id show db

  -- An open call ends with its show. A call still capturing its payment is settled when the capture
  -- finishes.
  unfoldable pub end_open_call : Env → (show_id : ℕ) → Db → Result Db
  end_open_call env show_id db = elim (active_call_for_show show_id db.calls) [
    | none ↦ ok db
    | some (id, call) ↦
        if includes connectable_statuses call.status
        then apply_transition env (id, call) CallStatus.ended db
        else ok db
  ]

  unfoldable pub close_show : Env → (show_id : ℕ) → Show → Db → Result Db
  unfolding end_open_call on_show_ended
  close_show env show_id show db = do
    fail_if (not (show_eq show.status ShowStatus.live)) invalid_show_state
    closed ← end_open_call env show_id (record db {
      shows =
          replace show_id (record show { status = ShowStatus.ended; ended_at = some env.now })
            db.shows;
      social = on_show_ended (show_id, show) db.social;
    })
    ok (record closed { jobs = closed.jobs ++ run_at env.now (close_queue show_id) })

  unfoldable pub end : Env → (show_id : ℕ) → Db → Result Db
  unfolding require_creator_id show_for_creator close_show
  end env show_id db = do
    creator_id ← require_creator_id env db
    show ← show_for_creator show_id creator_id db
    if show_eq show.status ShowStatus.ended then ok db else close_show env show_id show db
