-- ===== src/Examples/Events.antt =====
-- Examples of Stripe's events.
use bling.Prelude.{◌≡◌, refl, none, some, [], ◌∷◌}
use bling.Prelude.Result.{ok}
use bling.Store.Queries.{first, insert}
use bling.Store.InMemory.{in_memory, empty, above}
use bling.Schema.State.{Db, run_at, reconcile_account}
use bling.Webhooks.{EventArgs, apply, apply_parts}
use bling.System.{Op, serve}
use bling.System.Histories.{apply_again}
use bling.Examples.{creator_at, empty_db}

-- Stripe reports an account, twice.
abbrev account_event : EventArgs
account_event = record {
  event_id = "evt";
  event_type = "account.updated";
  connected_account_id = none;
  intent = none;
  refund = none;
  dispute = none;
  payout = none;
  account_id = some "acct";
}

unfoldable reported : Db ⦃c = in_memory⦄
unfolding insert
reported = record empty_db {
  stripe_events =
      insert
        (record {
          stripe_event_id = "evt";
          event_type = "account.updated";
          connected_account_id = none;
        })
        empty;
  jobs = run_at 40 (reconcile_account "acct");
}

event_applied : apply ⦃c = in_memory⦄ (creator_at 40) account_event empty_db ≡ ok reported
unfolding apply apply_parts first insert reported above
event_applied = refl

apply_again_example :
    let db = serve ⦃c = in_memory⦄ reported ((creator_at 41, Op.stripe_event account_event) ∷ []) in
    apply ⦃c = in_memory⦄ (creator_at 50) account_event db ≡ ok db
apply_again_example =
    apply_again ⦃c = in_memory⦄ (creator_at 40) (creator_at 50) account_event account_event empty_db
      reported ((creator_at 41, Op.stripe_event account_event) ∷ []) event_applied refl
