-- ===== src/Schema/Keys.antt =====
-- Tests between the idempotency keys of ledger entries.
use bling.Prelude.{◌≡◌, refl, ap, Bool, true, false, ◌==◌, ==_iff, str_eq, str_eq_iff}
use bling.Schema.Docs.{
  EntryKey, earning_key, refund_key, dispute_debit_key, dispute_release_key, payout_reservation_key,
}

abbrev pub key_eq : EntryKey → EntryKey → Bool
key_eq (earning_key a) (earning_key b) = a == b
key_eq (refund_key a) (refund_key b) = a == b
key_eq (dispute_debit_key s) (dispute_debit_key t) = str_eq s t
key_eq (dispute_release_key s) (dispute_release_key t) = str_eq s t
key_eq (payout_reservation_key a) (payout_reservation_key b) = a == b
key_eq _ _ = false

pub key_eq→eq : (a b : EntryKey) → key_eq a b ≡ true → a ≡ b
key_eq→eq (earning_key a) (earning_key b) h = ap earning_key ((==_iff a b).0 h)
key_eq→eq (refund_key a) (refund_key b) h = ap refund_key ((==_iff a b).0 h)
key_eq→eq (dispute_debit_key s) (dispute_debit_key t) h =
    ap dispute_debit_key ((str_eq_iff s t).0 h)
key_eq→eq (dispute_release_key s) (dispute_release_key t) h =
    ap dispute_release_key ((str_eq_iff s t).0 h)
key_eq→eq (payout_reservation_key a) (payout_reservation_key b) h =
    ap payout_reservation_key ((==_iff a b).0 h)
key_eq→eq _ _ h = cc

pub key_eq_refl : (a : EntryKey) → key_eq a a ≡ true
key_eq_refl (earning_key a) = (==_iff a a).1 refl
key_eq_refl (refund_key a) = (==_iff a a).1 refl
key_eq_refl (dispute_debit_key s) = (str_eq_iff s s).1 refl
key_eq_refl (dispute_release_key s) = (str_eq_iff s s).1 refl
key_eq_refl (payout_reservation_key a) = (==_iff a a).1 refl
