-- ===== src/Fees/Bounds.antt =====
-- Bounds of the fees of frontend/convex/lib/stripe.ts, at every price that tiers.ts accepts.
use bling.Prelude.{ℕ, ◌+◌, ◌-◌, ◌*◌, ◌/◌, ◌≤◌, ◌<◌, arith}
use bling.Prelude.Int.{pos, ◌≤ℤ◌}
use bling.Fees.{payment_fees, creator_share, standard_platform_fee_bps}

mul-le : (a s t : ℕ) → s ≤ t → a * s ≤ a * t
mul-le a s t h = grind arith

-- At a price of 50 cents or more and any platform rate up to the standard one, the platform's fee
-- is less than the price, the creator earns at least 48 percent of the price and at most the
-- price, and the creator's part of the card fee is half of it, less the odd half cent.
pub payment_fees_bounds :
    (amount bps : ℕ)
    → 50 ≤ amount
    → bps ≤ standard_platform_fee_bps
    → let fees = payment_fees amount bps in
      (fees.platform_fee_cents < amount)
      × (pos (amount * 48 / 100) ≤ℤ creator_share amount fees)
      × (creator_share amount fees ≤ℤ pos amount)
      × (fees.creator_processing_fee_cents * 2 ≤ fees.basic_card_fee_cents)
      × (fees.basic_card_fee_cents ≤ fees.creator_processing_fee_cents * 2 + 1)
unfolding payment_fees creator_share
payment_fees_bounds amount bps h k =
    let low : amount * 8000 ≤ amount * (10000 - bps) =
      mul-le amount 8000 (10000 - bps) (omega arith) in
    let high : amount * (10000 - bps) ≤ amount * 10000 =
      mul-le amount (10000 - bps) 10000 (omega arith) in
    (ground arith, ground arith, ground arith, omega arith, omega arith)
