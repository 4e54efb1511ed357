-- ===== src/Schema/Docs.antt =====
-- The documents of the tables in frontend/convex/schema.ts. An id is a number, a time counts
-- milliseconds, a text that is only compared is a `String`, and a text that is trimmed or measured
-- is its list of UTF-16 code units. Left out are `avatarStorageId` and the fields of `users` that only
-- the auth library reads. An absent list is the empty one.
use bling.Prelude.{ℕ, String, Bool, Option, List}
use bling.Prelude.Int.{ℤ}
use bling.Schema.Status.{
  ShowStatus, QueueStatus, CallStatus, Role, SignalType, PaymentStatus, RefundStatus, LedgerKind,
  PayoutItemStatus, RunStatus, SelectionMode,
}

abbrev pub Text : Type 0
Text = List ℕ

pub record User : Type 0 where
  pub email : Option String
  pub is_anonymous : Bool
  pub username : Option String
  pub platform_fee_bps : Option ℕ

pub record Show : Type 0 where
  pub creator_id : ℕ
  pub status : ShowStatus
  pub started_at : Option ℕ
  pub ended_at : Option ℕ
  pub scheduled_for : Option ℕ

pub record ShowTier : Type 0 where
  pub show_id : ℕ
  pub name : Text
  pub priority_rank : ℕ
  pub call_duration_seconds : ℕ
  pub price_cents : ℕ
  pub enabled : Bool

pub record QueueEntry : Type 0 where
  pub show_id : ℕ
  pub viewer_id : ℕ
  pub display_name : Text
  pub topic : Text
  pub status : QueueStatus
  pub tier_id : ℕ
  pub tier_name : Text
  pub priority_rank : ℕ
  pub call_duration_seconds : ℕ
  pub tier_price_cents : ℕ
  pub joined_at : ℕ
  pub selected_at : Option ℕ
  pub left_at : Option ℕ
  pub payment_attempt_id : Option ℕ

pub record Call : Type 0 where
  pub show_id : ℕ
  pub queue_entry_id : ℕ
  pub creator_id : ℕ
  pub viewer_id : ℕ
  pub status : CallStatus
  pub selection_mode : SelectionMode
  pub call_duration_seconds : ℕ
  pub started_at : Option ℕ
  pub ended_at : Option ℕ
  pub expires_at : Option ℕ
  pub payment_attempt_id : Option ℕ

pub record CallSignal : Type 0 where
  pub call_id : ℕ
  pub to : Role
  pub signal_type : SignalType
  pub payload : String

pub record CallPresence : Type 0 where
  pub call_id : ℕ
  pub role : Role
  pub last_seen_at : ℕ
  pub disconnected_at : Option ℕ

pub record PaymentAttempt : Type 0 where
  pub show_id : ℕ
  pub creator_id : ℕ
  pub tier_id : ℕ
  pub payer_id : ℕ
  pub idempotency_key : String
  pub queue_entry_id : Option ℕ
  pub stripe_payment_intent_id : Option String
  pub stripe_customer_id : Option String
  pub amount_cents : ℕ
  pub currency : String
  pub platform_fee_bps : ℕ
  pub platform_fee_cents : ℕ
  pub basic_card_fee_cents : ℕ
  pub creator_processing_fee_cents : ℕ
  pub status : PaymentStatus
  pub failure_code : Option String
  pub authorized_at : Option ℕ
  pub captured_at : Option ℕ
  pub canceled_at : Option ℕ
  pub saved_payment_method_id : Option String

pub record PaymentRefund : Type 0 where
  pub payment_attempt_id : ℕ
  pub call_id : ℕ
  pub stripe_payment_intent_id : String
  pub stripe_refund_id : Option String
  pub amount_cents : ℕ
  pub currency : String
  pub reason : String
  pub status : RefundStatus
  pub attempts : ℕ
  pub failure_code : Option String
  pub next_attempt_at : ℕ
  pub processed_at : Option ℕ

pub record PaymentDispute : Type 0 where
  pub stripe_dispute_id : String
  pub payment_attempt_id : Option ℕ
  pub stripe_payment_intent_id : Option String
  pub amount_cents : ℕ
  pub currency : String
  pub reason : String
  pub status : String
  pub evidence_due_at : Option ℕ

-- The texts of the idempotency keys: a fixed prefix, and the id of what the entry is posted for.
pub data EntryKey : Type 0 where
  earning_key : ℕ → EntryKey
  refund_key : ℕ → EntryKey
  dispute_debit_key : String → EntryKey
  dispute_release_key : String → EntryKey
  payout_reservation_key : ℕ → EntryKey

pub data Metadata : Type 0 where
  earning_fees : (gross platform basic processing : ℕ) → Metadata
  refund_of : String → Metadata
  dispute_of : (dispute status : String) → Metadata
  no_metadata : Metadata

pub record LedgerEntry : Type 0 where
  pub creator_id : ℕ
  pub kind : LedgerKind
  pub amount_cents : ℤ
  pub currency : String
  pub effective_at : ℕ
  pub idempotency_key : EntryKey
  pub payment_attempt_id : Option ℕ
  pub call_id : Option ℕ
  pub payout_item_id : Option ℕ
  pub metadata : Metadata

pub record CreatorBalance : Type 0 where
  pub creator_id : ℕ
  pub currency : String
  pub total_cents : ℤ

pub record PayoutAccount : Type 0 where
  pub creator_id : ℕ
  pub stripe_account_id : String
  pub transfers_status : String
  pub bank_payouts_status : String
  pub external_account_present : Bool
  pub external_account_bank_name : Option String
  pub external_account_last4 : Option String
  pub external_account_currency : Option String
  pub details_submitted : Bool
  pub requirements_due : List String

-- A UTC date, for a text such as "2025-03-01".
pub record Date : Type 0 where
  pub year : ℕ
  pub month : ℕ
  pub day : ℕ

pub record PayoutRun : Type 0 where
  pub period_start : Date
  pub period_end : Date
  pub currency : String
  pub status : RunStatus
  pub completed_at : Option ℕ

-- The text `bling-payout-<creator>-<year>-<month>`.
pub record TransferKey : Type 0 where
  pub creator_id : ℕ
  pub year : ℕ
  pub month : ℕ

pub record PayoutItem : Type 0 where
  pub run_id : ℕ
  pub creator_id : ℕ
  pub amount_cents : ℤ
  pub currency : String
  pub destination_account_id : String
  pub idempotency_key : TransferKey
  pub stripe_transfer_id : Option String
  pub status : PayoutItemStatus
  pub attempts : ℕ
  pub next_attempt_at : ℕ
  pub failure_code : Option String
  pub processed_at : Option ℕ

pub record Profile : Type 0 where
  pub user_id : ℕ
  pub username : String
  pub display_name : String
  pub bio : String
  pub avatar_url : String
  pub cover_url : String
  pub published : Bool
  pub follower_count : ℕ
  pub is_live : Bool
  pub live_show_id : Option ℕ
  pub live_started_at : Option ℕ
  pub next_hotline_at : Option ℕ
  pub last_live_alert_at : Option ℕ
  pub topics : List String
  pub search_text : String

pub record LiveEvent : Type 0 where
  pub creator_id : ℕ
  pub show_id : ℕ

pub record StripeEvent : Type 0 where
  pub stripe_event_id : String
  pub event_type : String
  pub connected_account_id : Option String

pub record PayoutEvent : Type 0 where
  pub stripe_payout_id : String
  pub creator_id : ℕ
  pub amount_cents : ℕ
  pub currency : String
  pub status : String
  pub failure_code : Option String
  pub failure_message : Option String
  pub arrival_at : Option ℕ

pub record Follow : Type 0 where
  pub follower_id : ℕ
  pub creator_id : ℕ

pub record FollowingCount : Type 0 where
  pub user_id : ℕ
  pub count : ℤ

pub record FollowerShard : Type 0 where
  pub creator_id : ℕ
  pub shard : ℕ
  pub count : ℕ

pub record FollowerProjection : Type 0 where
  pub creator_id : ℕ

-- The key is a text such as "follow:<user>".
pub data LimitKey : Type 0 where
  follow_key : ℕ → LimitKey

pub record RateLimit : Type 0 where
  pub key : LimitKey
  pub window_start : ℕ
  pub count : ℕ
