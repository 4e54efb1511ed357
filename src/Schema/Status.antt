-- ===== src/Schema/Status.antt =====
-- The status unions of frontend/convex/schema.ts, with the tests `a === b` on them.
use bling.Prelude.{Bool, true, false}

pub data ShowStatus : Type 0 where
  created live ended : ShowStatus

pub data QueueStatus : Type 0 where
  waiting left selected connecting live ended : QueueStatus

pub data CallStatus : Type 0 where
  payment_pending created connecting live ended failed : CallStatus

pub data Role : Type 0 where
  creator viewer : Role

pub data SignalType : Type 0 where
  ready offer answer ice : SignalType

pub data PaymentStatus : Type 0 where
  created authorized capturing captured canceled failed : PaymentStatus

pub data RefundStatus : Type 0 where
  requested processing retry pending succeeded failed : RefundStatus

pub data LedgerKind : Type 0 where
  earning refund_reversal dispute_debit dispute_release : LedgerKind
  payout_reservation payout_release adjustment : LedgerKind

pub data PayoutItemStatus : Type 0 where
  reserved sending paid retry failed canceled : PayoutItemStatus

pub data RunStatus : Type 0 where
  processing completed partial_failed : RunStatus

pub data SelectionMode : Type 0 where
  manual random : SelectionMode

abbrev pub show_eq : ShowStatus → ShowStatus → Bool
show_eq ShowStatus.created ShowStatus.created = true
show_eq ShowStatus.live ShowStatus.live = true
show_eq ShowStatus.ended ShowStatus.ended = true
show_eq _ _ = false

abbrev pub queue_eq : QueueStatus → QueueStatus → Bool
queue_eq QueueStatus.waiting QueueStatus.waiting = true
queue_eq QueueStatus.left QueueStatus.left = true
queue_eq QueueStatus.selected QueueStatus.selected = true
queue_eq QueueStatus.connecting QueueStatus.connecting = true
queue_eq QueueStatus.live QueueStatus.live = true
queue_eq QueueStatus.ended QueueStatus.ended = true
queue_eq _ _ = false

abbrev pub call_eq : CallStatus → CallStatus → Bool
call_eq CallStatus.payment_pending CallStatus.payment_pending = true
call_eq CallStatus.created CallStatus.created = true
call_eq CallStatus.connecting CallStatus.connecting = true
call_eq CallStatus.live CallStatus.live = true
call_eq CallStatus.ended CallStatus.ended = true
call_eq CallStatus.failed CallStatus.failed = true
call_eq _ _ = false

abbrev pub role_eq : Role → Role → Bool
role_eq Role.creator Role.creator = true
role_eq Role.viewer Role.viewer = true
role_eq _ _ = false

abbrev pub signal_eq : SignalType → SignalType → Bool
signal_eq SignalType.ready SignalType.ready = true
signal_eq SignalType.offer SignalType.offer = true
signal_eq SignalType.answer SignalType.answer = true
signal_eq SignalType.ice SignalType.ice = true
signal_eq _ _ = false

abbrev pub payment_eq : PaymentStatus → PaymentStatus → Bool
payment_eq PaymentStatus.created PaymentStatus.created = true
payment_eq PaymentStatus.authorized PaymentStatus.authorized = true
payment_eq PaymentStatus.capturing PaymentStatus.capturing = true
payment_eq PaymentStatus.captured PaymentStatus.captured = true
payment_eq PaymentStatus.canceled PaymentStatus.canceled = true
payment_eq PaymentStatus.failed PaymentStatus.failed = true
payment_eq _ _ = false

abbrev pub refund_eq : RefundStatus → RefundStatus → Bool
refund_eq RefundStatus.requested RefundStatus.requested = true
refund_eq RefundStatus.processing RefundStatus.processing = true
refund_eq RefundStatus.retry RefundStatus.retry = true
refund_eq RefundStatus.pending RefundStatus.pending = true
refund_eq RefundStatus.succeeded RefundStatus.succeeded = true
refund_eq RefundStatus.failed RefundStatus.failed = true
refund_eq _ _ = false

abbrev pub kind_eq : LedgerKind → LedgerKind → Bool
kind_eq LedgerKind.earning LedgerKind.earning = true
kind_eq LedgerKind.refund_reversal LedgerKind.refund_reversal = true
kind_eq LedgerKind.dispute_debit LedgerKind.dispute_debit = true
kind_eq LedgerKind.dispute_release LedgerKind.dispute_release = true
kind_eq LedgerKind.payout_reservation LedgerKind.payout_reservation = true
kind_eq LedgerKind.payout_release LedgerKind.payout_release = true
kind_eq LedgerKind.adjustment LedgerKind.adjustment = true
kind_eq _ _ = false

abbrev pub item_eq : PayoutItemStatus → PayoutItemStatus → Bool
item_eq PayoutItemStatus.reserved PayoutItemStatus.reserved = true
item_eq PayoutItemStatus.sending PayoutItemStatus.sending = true
item_eq PayoutItemStatus.paid PayoutItemStatus.paid = true
item_eq PayoutItemStatus.retry PayoutItemStatus.retry = true
item_eq PayoutItemStatus.failed PayoutItemStatus.failed = true
item_eq PayoutItemStatus.canceled PayoutItemStatus.canceled = true
item_eq _ _ = false
