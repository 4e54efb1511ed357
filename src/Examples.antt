-- ===== src/Examples.antt =====
-- The data of the examples: a live show of user 1 with user 2 in a call.
pub mod Sessions
pub mod Money
pub mod Callers
pub mod Transitions
pub mod Signalling
pub mod Payouts
pub mod Events
pub mod Followers
use bling.Prelude.{ℕ, Option, none, some, true, false, List, [], ◌∷◌}
use bling.Prelude.Int.{pos}
use bling.Store.Queries.{Table, insert}
use bling.Store.InMemory.{in_memory, empty}
use bling.Schema.Status.{
  ShowStatus, QueueStatus, CallStatus, PaymentStatus, RefundStatus, LedgerKind, SelectionMode,
}
use bling.Schema.Docs.{
  Date, User, Show, ShowTier, QueueEntry, Call, PaymentAttempt, PaymentRefund, LedgerEntry, Profile,
  earning_key, no_metadata,
}
use bling.Schema.State.{Env, Db}

abbrev third_of_january : Date
third_of_january = record { year = 2026; month = 1; day = 3 }

abbrev pub creator_at : (now : ℕ) → Env
creator_at now = record { now = now; user = some 1; hold_ms = none; today = third_of_january }

abbrev pub caller_at : (now : ℕ) → Env
caller_at now = record { now = now; user = some 2; hold_ms = none; today = third_of_january }

abbrev pub empty_db : Db ⦃c = in_memory⦄
empty_db = record {
  users = empty;
  shows = empty;
  tiers = empty;
  entries = empty;
  calls = empty;
  signals = empty;
  presence = empty;
  attempts = empty;
  refunds = empty;
  disputes = empty;
  ledger = record { entries = empty; balances = empty };
  payouts = record { accounts = empty; runs = empty; items = empty; events = empty };
  social = record { profiles = empty; live_events = empty };
  follows = record {
    follows = empty;
    counts = empty;
    shards = empty;
    projections = empty;
    limits = empty;
  };
  stripe_events = empty;
  jobs = [];
}

abbrev pub creator : User
creator = record {
  email = none;
  is_anonymous = false;
  username = some "ada";
  platform_fee_bps = some 1000;
}

abbrev pub live_show : Show
live_show = record {
  creator_id = 1;
  status = ShowStatus.live;
  started_at = some 10;
  ended_at = none;
  scheduled_for = none;
}

abbrev pub paid_tier : ShowTier
paid_tier = record {
  show_id = 1;
  name = 86 ∷ [];
  priority_rank = 3;
  call_duration_seconds = 60;
  price_cents = 500;
  enabled = true;
}

abbrev pub attempt : PaymentStatus → PaymentAttempt
attempt status = record {
  show_id = 1;
  creator_id = 1;
  tier_id = 1;
  payer_id = 2;
  idempotency_key = "k";
  queue_entry_id = none;
  stripe_payment_intent_id = some "pi";
  stripe_customer_id = none;
  amount_cents = 500;
  currency = "usd";
  platform_fee_bps = 1000;
  platform_fee_cents = 72;
  basic_card_fee_cents = 45;
  creator_processing_fee_cents = 22;
  status = status;
  failure_code = none;
  authorized_at = some 20;
  captured_at = none;
  canceled_at = none;
  saved_payment_method_id = none;
}

abbrev pub waiting_entry : QueueEntry
waiting_entry = record {
  show_id = 1;
  viewer_id = 2;
  display_name = 66 ∷ [];
  topic = 66 ∷ [];
  status = QueueStatus.waiting;
  tier_id = 1;
  tier_name = 86 ∷ [];
  priority_rank = 3;
  call_duration_seconds = 60;
  tier_price_cents = 500;
  joined_at = 30;
  selected_at = none;
  left_at = none;
  payment_attempt_id = some 1;
}

abbrev pub call : CallStatus → Call
call status = record {
  show_id = 1;
  queue_entry_id = 1;
  creator_id = 1;
  viewer_id = 2;
  status = status;
  selection_mode = SelectionMode.manual;
  call_duration_seconds = 60;
  started_at = none;
  ended_at = none;
  expires_at = none;
  payment_attempt_id = some 1;
}

-- The live show with the caller in the queue, on an attempt in the state given.
unfoldable pub queued : PaymentStatus → Db ⦃c = in_memory⦄
unfolding insert
queued status = record empty_db {
  users = insert creator empty;
  shows = insert live_show empty;
  tiers = insert paid_tier empty;
  entries = insert waiting_entry empty;
  attempts = insert (attempt status) empty;
}

-- The same with the caller's call open.
unfoldable pub in_call : CallStatus → Db ⦃c = in_memory⦄
unfolding queued insert
in_call status = record (queued PaymentStatus.captured) { calls = insert (call status) empty }

abbrev pub earning : LedgerEntry
earning = record {
  creator_id = 1;
  kind = LedgerKind.earning;
  amount_cents = pos 428;
  currency = "usd";
  effective_at = 700;
  idempotency_key = earning_key 1;
  payment_attempt_id = some 1;
  call_id = some 1;
  payout_item_id = none;
  metadata = no_metadata;
}

abbrev pub refund : RefundStatus → PaymentRefund
refund status = record {
  payment_attempt_id = 1;
  call_id = 1;
  stripe_payment_intent_id = "pi";
  stripe_refund_id = none;
  amount_cents = 500;
  currency = "usd";
  reason = "call_ended_before_live";
  status = status;
  attempts = 1;
  failure_code = none;
  next_attempt_at = 60;
  processed_at = none;
}

-- The profile of user 1.
abbrev pub profile : Profile
profile = record {
  user_id = 1;
  username = "ada";
  display_name = "Ada";
  bio = "";
  avatar_url = "";
  cover_url = "";
  published = true;
  follower_count = 0;
  is_live = false;
  live_show_id = none;
  live_started_at = none;
  next_hotline_at = none;
  last_live_alert_at = none;
  topics = [];
  search_text = "ada";
}

abbrev pub viewer : User
viewer = record {
  email = none;
  is_anonymous = false;
  username = some "bob";
  platform_fee_bps = none;
}
