-- ===== src/Schema/State.antt =====
-- The state that a mutation reads and writes: the tables of frontend/convex/schema.ts that are
-- modelled, grouped by the module that writes them, and the functions that are scheduled
-- (`ctx.scheduler`), which commit together with the writes.
use bling.Prelude.{ℕ, String, Option, List, [], ◌∷◌}
use bling.Store.Interface.{Convex}
use bling.Store.Queries.{Table}
use bling.Schema.Status.{Role}
use bling.Schema.Docs.{
  Date, User, Show, ShowTier, QueueEntry, Call, CallSignal, CallPresence, PaymentAttempt,
  PaymentRefund, PaymentDispute, LedgerEntry, CreatorBalance, PayoutAccount, PayoutRun, PayoutItem,
  Profile, LiveEvent, StripeEvent, PayoutEvent, Follow, FollowingCount, FollowerShard,
  FollowerProjection, RateLimit,
}

-- The internal functions that are scheduled, with their arguments.
pub data Job : Type 0 where
  expire_call : (call_id : ℕ) → Job
  capture_payment : (call_id : ℕ) → Job
  cancel_intent : (attempt_id : ℕ) (reason : String) → Job
  run_refund : (refund_id : ℕ) → Job
  purge_signals : (call_id : ℕ) → Job
  close_queue : (show_id : ℕ) → Job
  check_seen : (call_id : ℕ) (role : Role) (seen_at : ℕ) → Job
  check_grace : (call_id : ℕ) (role : Role) (disconnected_at : ℕ) → Job
  collect_alerts : (show_id : ℕ) → Job
  transfer_payout : (item_id : ℕ) → Job
  finish_runs : Job
  reserve_batch : (run_id : ℕ) (cursor : Option ℕ) → Job
  project_followers : (creator_id : ℕ) → Job
  reconcile_account : (stripe_account_id : String) → Job

-- A scheduled function and the time from which it runs.
pub record Scheduled : Type 0 where
  pub run_at : ℕ
  pub job : Job

-- `ctx.scheduler.runAt(time, job)`, `ctx.scheduler.runAfter(delay, job)`
abbrev pub run_at : ℕ → Job → List Scheduled
run_at time job = record { run_at = time; job = job } ∷ []

-- What a function call takes from outside: `Date.now()`, the user that Convex Auth
-- (`getAuthUserId`) reads from the session, and the deployment's environment variable
-- CREATOR_EARNINGS_HOLD_HOURS as milliseconds (hours and fractions of them, up to whole milliseconds),
-- none where it is not set or is no finite number of at least 0. `today` is the UTC date that
-- JavaScript's `Date` gives for the time.
pub record Env : Type 0 where
  pub now : ℕ
  pub user : Option ℕ
  pub hold_ms : Option ℕ
  pub today : Date

module _ ⦃c : Convex⦄ where
  -- Written by frontend/convex/lib/ledger.ts alone.
  pub record Ledger : Type 0 where
    pub entries : Table LedgerEntry
    pub balances : Table CreatorBalance

  -- The public projections of shows, written by frontend/convex/lib/social.ts and frontend/convex/liveAlerts.ts.
  pub record Social : Type 0 where
    pub profiles : Table Profile
    pub live_events : Table LiveEvent

  pub record Payouts : Type 0 where
    pub accounts : Table PayoutAccount
    pub runs : Table PayoutRun
    pub items : Table PayoutItem
    pub events : Table PayoutEvent

  -- Written by frontend/convex/follows.ts, with the limits of frontend/convex/lib/social.ts.
  pub record Follows : Type 0 where
    pub follows : Table Follow
    pub counts : Table FollowingCount
    pub shards : Table FollowerShard
    pub projections : Table FollowerProjection
    pub limits : Table RateLimit

  pub record Db : Type 0 where
    pub users : Table User
    pub shows : Table Show
    pub tiers : Table ShowTier
    pub entries : Table QueueEntry
    pub calls : Table Call
    pub signals : Table CallSignal
    pub presence : Table CallPresence
    pub attempts : Table PaymentAttempt
    pub refunds : Table PaymentRefund
    pub disputes : Table PaymentDispute
    pub ledger : Ledger
    pub payouts : Payouts
    pub social : Social
    pub follows : Follows
    pub stripe_events : Table StripeEvent
    pub jobs : List Scheduled
