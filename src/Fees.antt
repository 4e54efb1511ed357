-- ===== src/Fees.antt =====
-- Card fees and the creator's share (frontend/convex/lib/stripe.ts). Amounts are whole cents, so
-- `Math.floor` of a quotient is division of natural numbers.
pub mod Bounds
use bling.Prelude.{ℕ, ◌+◌, ◌-◌, ◌*◌, ◌/◌, Option, none, some, or_else, leb, if◌then◌else◌}
use bling.Prelude.Int.{ℤ, sub_ℕ}
use bling.Schema.Docs.{User}

abbrev pub standard_platform_fee_bps : ℕ
standard_platform_fee_bps = 2000

abbrev pub beta_platform_fee_bps : ℕ
beta_platform_fee_bps = 1000

abbrev pub signup_platform_fee_bps : ℕ
signup_platform_fee_bps = beta_platform_fee_bps

-- `creator?.platformFeeBps ?? BETA_PLATFORM_FEE_BPS`
unfoldable pub creator_fee_bps : Option User → ℕ
creator_fee_bps none = beta_platform_fee_bps
creator_fee_bps (some creator) = or_else creator.platform_fee_bps beta_platform_fee_bps

abbrev pub basic_card_fee_bps : ℕ
basic_card_fee_bps = 290

abbrev pub basic_card_fixed_fee_cents : ℕ
basic_card_fixed_fee_cents = 30

abbrev pub creator_processing_fee_share_bps : ℕ
creator_processing_fee_share_bps = 5000

pub record PaymentFees : Type 0 where
  pub platform_fee_bps : ℕ
  pub platform_fee_cents : ℕ
  pub basic_card_fee_cents : ℕ
  pub creator_processing_fee_cents : ℕ

-- A rate above 10000 makes the creator's share negative, and its `Math.floor` goes away from 0.
unfoldable pub payment_fees : ℕ → ℕ → PaymentFees
payment_fees amount_cents platform_fee_bps =
    let basic = (amount_cents * basic_card_fee_bps + 5000) / 10000 + basic_card_fixed_fee_cents in
    let processing = basic * creator_processing_fee_share_bps / 10000 in
    record {
      platform_fee_bps = platform_fee_bps;
      platform_fee_cents =
          if leb platform_fee_bps 10000
          then amount_cents - amount_cents * (10000 - platform_fee_bps) / 10000 + processing
          else amount_cents
            + (amount_cents * (platform_fee_bps - 10000) + 9999) / 10000
            + processing;
      basic_card_fee_cents = basic;
      creator_processing_fee_cents = processing;
    }

-- What a captured payment earns its creator, `amountCents - platformFeeCents`.
unfoldable pub creator_share : ℕ → PaymentFees → ℤ
creator_share amount_cents fees = sub_ℕ amount_cents fees.platform_fee_cents
