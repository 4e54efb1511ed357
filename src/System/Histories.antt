-- ===== src/System/Histories.antt =====
-- The payouts, the tiers and the follows after any history of the mutations of `Op`.
use bling.Prelude.{ℕ, ◌∙◌, some, ◌≡◌, arith, List, ap, true}
use bling.Prelude.Result.{ok}
use bling.Store.Interface.{Convex}
use bling.Store.Queries.{Every, get}
use bling.Schema.State.{Env, Db}
use bling.Schema.Docs.{PayoutItem}
use bling.Tiers.Valid.{IsTier}
use bling.Payouts.Items.{AreItems}
use bling.Payouts.Settled.{ItemsKept, is_settled}
use bling.Follows.Counts.{AreCounted}
use bling.System.{Op, serve, serve_induction}
use bling.System.Kept.{run-Keeps}
use bling.System.Aside.{apply-is_seen}
use bling.Webhooks.{EventArgs, apply, is_seen}

module _ ⦃c : Convex⦄ where
  -- Whatever mutations of `Op` run, with any arguments, by any users and in any order, errors included:
  -- from a state in which no creator has two payouts that are not settled, and no payout was sent to
  -- Stripe more than ten times, the state after them is again such a state.
  pub serve-AreItems :
      (db : Db) (history : List (Env × Op))
      → AreItems db.payouts.items
      → AreItems (serve db history).payouts.items
  serve-AreItems db history h =
      serve_induction (λ (d : Db). AreItems d.payouts.items)
        (λ env op d d' e. (run-Keeps env op d d' e).items) db history h

  -- Whatever mutations of `Op` run, with any arguments, by any users and in any order, errors included:
  -- from a state in which every tier has a name of 1 to 40 code units, a duration of 30 seconds to an
  -- hour, a price of 0 or of 50 to 1000000 cents and a rank of at most 500, the state after them is again
  -- such a state.
  pub serve-IsTier :
      (db : Db) (history : List (Env × Op))
      → Every IsTier db.tiers
      → Every IsTier (serve db history).tiers
  serve-IsTier db history h =
      serve_induction (λ (d : Db). Every IsTier d.tiers)
        (λ env op d d' e. (run-Keeps env op d d' e).tiers) db history h

  -- Whatever mutations of `Op` run, with any arguments, by any users and in any order, errors included:
  -- from a state in which every shard has a number below 64 and is its creator's only one of that number,
  -- the shards of every creator add up to the number of their followers, the count of every user is the number of creators that they follow, at most 1000, and nobody follows a creator
  -- twice, the state after them is again such a state.
  pub serve-AreCounted :
      (db : Db) (history : List (Env × Op))
      → AreCounted db.follows
      → AreCounted (serve db history).follows
  serve-AreCounted db history h =
      serve_induction (λ (d : Db). AreCounted d.follows)
        (λ env op d d' e. (run-Keeps env op d d' e).follows) db history h

  -- Where an event of Stripe was applied, whatever mutations of `Op` ran since, with any arguments, by any
  -- users and in any order, errors included, an event with the same id, at any time and with any
  -- contents, leaves the state as it is.
  pub apply_again :
      (env env' : Env) (args again : EventArgs) (db db' : Db) (history : List (Env × Op))
      → apply env args db ≡ ok db'
      → again.event_id ≡ args.event_id
      → apply env' again (serve db' history) ≡ ok (serve db' history)
  unfolding apply
  apply_again env env' args again db db' history h same =
      let seen =
        serve_induction (λ (d : Db). is_seen args.event_id d ≡ true)
          (λ env op d d' e. (run-Keeps env op d d' e).seen args.event_id) db' history
          (apply-is_seen env args db db' h) in
      ground (arith, same, seen)

  -- Whatever mutations of `Op` run, with any arguments, by any users and in any order, errors included:
  -- a payout that was paid, or that failed for good, is there after them exactly as it was.
  pub serve-settled :
      (db : Db) (history : List (Env × Op)) (id : ℕ) (item : PayoutItem)
      → get db.payouts.items id ≡ some item
      → is_settled item ≡ true
      → get (serve db history).payouts.items id ≡ some item
  unfolding ItemsKept
  serve-settled db history id item there settled =
      serve_induction (λ (d : Db). get d.payouts.items id ≡ some item)
        (λ env op d d' e h.
          let (b, at_id, same) = (run-Keeps env op d d' e).kept id item h in
          at_id ∙ ap some (same settled))
        db history there
