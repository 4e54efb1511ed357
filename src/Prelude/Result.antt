-- ===== src/Prelude/Result.antt =====
-- Error codes of frontend/convex/lib/errors.ts, and the result of a Convex function. A mutation that throws
-- writes nothing, so a failure carries no state.
use mathlib.Core.Path.{◌≡◌, refl}
use mathlib.Core.Bool.{Bool, true, false}
use mathlib.Core.Logic.{◌⊎◌, inl, inr}

-- `document_missing` stands for Convex's own error when a patched document does not exist.
pub data ErrorCode : Type 0 where
  unauthenticated validation_failed show_not_found show_not_live active_show_exists : ErrorCode
  invalid_show_state show_not_configurable invalid_tier_configuration : ErrorCode
  payout_setup_required tier_not_found payment_required not_in_queue : ErrorCode
  invalid_queue_state call_not_found caller_not_waiting queue_empty : ErrorCode
  active_call_exists invalid_call_state payment_capture_failed invalid_signal : ErrorCode
  tier_not_payable payment_not_authorized creator_not_found self_follow : ErrorCode
  follow_limit rate_limited document_missing : ErrorCode

pub data Result {ℓ} (A : Type ℓ) : Type ℓ where
  ok : A → Result A
  err : ErrorCode → Result A

-- The outcome of a test that throws, `if (c) fail(code)`.
abbrev pub fail_if : (c : Bool) → (code : ErrorCode) → Result (Unit {0})
fail_if false code = ok tt
fail_if true code = err code

-- What follows runs on the value, and an error ends the function.
infixl 5 ◌>>=◌
abbrev pub ◌>>=◌ {ℓ κ} :
    {Given : Type ℓ} {Next : Type κ} → Result Given → (Given → Result Next) → Result Next
err code >>= next = err code
ok given >>= next = next given

infixl 5 ◌>>◌
abbrev pub ◌>>◌ {κ} : {Next : Type κ} → Result (Unit {0}) → Result Next → Result Next
test >> next = test >>= (λ passed. next)

pub Result-cases {ℓ} :
    {A : Type ℓ} (r : Result A) → ((e : ErrorCode) × (r ≡ err e)) ⊎ ((a : A) × (r ≡ ok a))
Result-cases (ok a) = inr (a, refl)
Result-cases (err e) = inl (e, refl)
