-- ===== src/Lib.antt =====
-- Bling: the backend of a live call-in service. Creators open shows (Hotlines), viewers queue for them,
-- some with a card hold, the creator picks callers one after the other, and what paid calls earn goes
-- into a ledger. The functions are those of frontend/convex, which run as serializable transactions
-- on the Convex database: each mutation is one function from a state to a result, and a thrown error
-- is an `err` without a state, since a mutation that throws writes nothing.
--
-- Files, and what each one models:
--   Store       `ctx.db`: an interface of tables with the documented laws (Store/Interface), the
--               queries on it (Store/Queries, Store/Sums) and a database in memory that meets it
--   Schema      frontend/convex/schema.ts: statuses, documents, the state, scheduled functions
--   Accounts    frontend/convex/lib/auth.ts, and showForCreator of shows.ts
--   Fees        frontend/convex/lib/stripe.ts (the fees)
--   Ledger      frontend/convex/lib/ledger.ts
--   Payments    frontend/convex/lib/payments.ts; Payments/Attempts: frontend/convex/payments.ts
--   Calls       frontend/convex/lib/calls.ts; Calls/Selection, Calls/Lifecycle: frontend/convex/calls.ts
--   Queue       frontend/convex/queue.ts
--   Shows       frontend/convex/shows.ts; Shows/Closing: closeQueue; Shows/Batches and Shows/Ending:
--               its batches, and those after the end of a show
--   Social      the show hooks of frontend/convex/lib/social.ts, and queueLiveAlert of liveAlerts.ts
--   Refunds     frontend/convex/refunds.ts
--   Presence    frontend/convex/presence.ts
--   Signals     frontend/convex/signals.ts
--   Tiers       frontend/convex/tiers.ts
--   Follows     frontend/convex/follows.ts, and rateLimit of lib/social.ts
--   Payouts     frontend/convex/payouts.ts: transfers and the periods; Payouts/Runs: runDue,
--               reserveBatch and finishRuns; Payouts/Accounts: Stripe accounts as they are kept
--   Webhooks    frontend/convex/webhooks.ts (`apply`)
--   System      the mutations as one system: `run` makes one call, `serve` a history of calls
--   Examples    concrete states on which the results are applied
--
-- How they interact: a transition of a call (Calls) moves its queue entry, earns through Ledger and
-- refunds through Payments; ending a show ends its open call and closes its queue in batches; the
-- capture of a payment opens or fails the call that waits for it; a refund that succeeded reverses the
-- earning. Stripe's events reach the same functions of payments and refunds as the answers to Bling's own
-- requests; a payout reserves what the ledger has available. What a mutation schedules is a list of
-- jobs with their times in the state, and the scheduler may run them at any time in any order, so a
-- history of calls covers it. Shows/Batches goes further for `closeQueue`: there the scheduler runs a
-- batch only where the state has one scheduled, and takes it off the list.
--
-- Conventions: names are those of the source in snake case. An id is a number, a time counts
-- milliseconds, `Date.now()` and the signed-in user come with `Env`, and an amount in the ledger is an
-- integer. Every loop runs over a list that the database returns, over a fixed list of states or over
-- the 64 shards, so nothing needs fuel. A function in several guarded steps is cut into helpers, each
-- named for its part. Parameters of the model are the database, the clock and the UTC date that
-- JavaScript's `Date` reads from it, the session, the environment variables (the hold on earnings in
-- whole milliseconds), the random draws of selectRandom and adjustShard, the text functions of the
-- JavaScript runtime that signals.ts, tiers.ts and lib/social.ts call, and what Stripe answers.
--
-- Not modelled: the actions that call Stripe (they reach the state only through the mutations here),
-- the HTTP action that verifies Stripe's signatures, profiles, notifications, caller notes, the
-- queries that only present rows, sign-in, and the web client.
pub mod Prelude
pub mod Store
pub mod Schema
pub mod Fees
pub mod Ledger
pub mod Accounts
pub mod Payments
pub mod Calls
pub mod Social
pub mod Shows
pub mod Queue
pub mod Refunds
pub mod Presence
pub mod Tiers
pub mod Follows
pub mod Payouts
pub mod Webhooks
pub mod Signals
pub mod System
pub mod Examples
