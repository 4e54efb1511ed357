-- ===== src/System/Kept.antt =====
-- What each mutation of `Op` keeps of the payouts, the tiers, the follows and the events.
use bling.Prelude.{ℕ, ◌%◌, ◌≡◌, inl, inr, refl, arith, Bool, subst, sym, ap, String}
use bling.Prelude.Result.{ok, Result-cases}
use bling.Store.Interface.{Convex}
use bling.Store.Queries.{Every, Every-insert, next_id}
use bling.Schema.State.{Env, Db}
use bling.Calls.Selection.{create_call, select, select_random}
use bling.Payments.{record_not_captured}
use bling.Payments.Attempts.{prepare, attach_intent, mark_authorized, not_captured}
use bling.Shows
use bling.Shows.{standard_tier}
use bling.Accounts.{require_creator_id}
use bling.Shows.Closing.{close_queue_batch}
use bling.Queue
use bling.Tiers
use bling.Tiers.Valid.{IsTier, replace_tiers-Every}
use bling.Signals
use bling.Payouts.Accounts
use bling.Payouts.Runs
use bling.Payouts.{claim_transfer, mark_paid, retry_transfer}
use bling.Payouts.Items.{
  AreItems, claim_transfer-AreItems, mark_paid-AreItems, retry_transfer-AreItems,
  reserve_page-AreItems,
}
use bling.Payouts.Settled.{
  ItemsKept, ItemsKept-same, claim_transfer-ItemsKept, mark_paid-ItemsKept,
  retry_transfer-ItemsKept, reserve_page-ItemsKept,
}
use bling.Follows
use bling.Follows.{shard_count}
use bling.Follows.Counts.{AreCounted, set_follow-AreCounted}
use bling.Follows.Projection.{project-AreCounted}
use bling.Presence
use bling.Refunds.{claim, record_outcome, retry}
use bling.System.{Op, run, state_of}
use bling.System.Transits.{transition-Transits, expire-Transits, check_grace-Transits}
use bling.System.Events.{reserve_page-outside}
use bling.System.Aside.{Keeps, aside, Transits-Keeps, captured-Keeps, end-Keeps, apply-Keeps}

module _ ⦃c : Convex⦄ where
  set_follow-aside :
      (env : Env) (normal : String → String) (start : ℕ) (name : String) (follow : Bool)
      (db db' : Db)
      → Follows.set_follow env normal start name follow db ≡ ok db'
      → (db'.payouts ≡ db.payouts) × (db'.tiers ≡ db.tiers) × (db'.stripe_events ≡ db.stripe_events)
  unfolding Follows.set_follow Follows.write_follow Follows.adjust_shard
  set_follow-aside env normal start name follow db db' h =
      (ground arith, ground arith, ground arith)

  standard_tier-IsTier : (show_id : ℕ) → IsTier (standard_tier show_id)
  standard_tier-IsTier show_id = record {
    named = refl;
    long = refl;
    priced = refl;
    ranked = ground arith;
  }

  create-Keeps : (env : Env) (db db' : Db) → state_of (Shows.create env db) ≡ ok db' → Keeps db db'
  unfolding Shows.create
  create-Keeps env db db' h = elim (Result-cases (require_creator_id env db)) [
    | inl (x, failing) ↦ ground arith
    | inr (creator_id, signed_in) ↦
        let tier = standard_tier (next_id db.shows) in
        record {
          items = λ i. subst AreItems (ground arith) i;
          kept = ItemsKept-same _ _ (ground arith);
          tiers = λ t.
              subst (Every IsTier) (ground arith)
                (Every-insert IsTier tier db.tiers (standard_tier-IsTier (next_id db.shows)) t);
          follows = λ f. subst AreCounted (ground arith) f;
          seen = λ id x. ground (arith, x);
        }
  ]

  pub run-Keeps : (env : Env) (op : Op) (db db' : Db) → run env op db ≡ ok db' → Keeps db db'
  unfolding run close_queue_batch Queue.join Queue.join_queue Queue.admit Queue.write_entry
      Queue.leave prepare attach_intent mark_authorized not_captured record_not_captured select
      select_random create_call Presence.heartbeat Presence.leave Presence.check_seen_at
      Presence.mark_disconnected claim record_outcome retry Shows.create Shows.schedule Shows.start
      Shows.go_live Signals.send Signals.ack Signals.purge Accounts.save_account Runs.run_due
      Runs.finish Follows.project Tiers.replace_tiers claim_transfer mark_paid retry_transfer
  run-Keeps env Op.create_show db db' h = create-Keeps env db db' h
  run-Keeps env (Op.schedule_show s at) db db' h =
      aside db db' (ground arith) (ground arith) (ground arith) (ground arith)
  run-Keeps env (Op.start_show s) db db' h =
      aside db db' (ground arith) (ground arith) (ground arith) (ground arith)
  run-Keeps env (Op.end_show s) db db' h = end-Keeps env s db db' h
  run-Keeps env (Op.move_call k status) db db' h =
      Transits-Keeps env db db' (transition-Transits env k status db db' h)
  run-Keeps env (Op.expire_call k) db db' h =
      Transits-Keeps env db db' (expire-Transits env k db db' h)
  run-Keeps env (Op.check_grace k role at) db db' h =
      Transits-Keeps env db db' (check_grace-Transits env k role at db db' h)
  run-Keeps env (Op.capture_payment a) db db' h = captured-Keeps env a db db' h
  run-Keeps env (Op.close_queue s) db db' h =
      aside db db' (ground arith) (ground arith) (ground arith) (ground arith)
  run-Keeps env (Op.join_queue args payment) db db' h =
      aside db db' (ground arith) (ground arith) (ground arith) (ground arith)
  run-Keeps env (Op.leave_queue s) db db' h =
      aside db db' (ground arith) (ground arith) (ground arith) (ground arith)
  run-Keeps env (Op.prepare_payment args) db db' h =
      aside db db' (ground arith) (ground arith) (ground arith) (ground arith)
  run-Keeps env (Op.attach_payment a intent) db db' h =
      aside db db' (ground arith) (ground arith) (ground arith) (ground arith)
  run-Keeps env (Op.authorize_payment a) db db' h =
      aside db db' (ground arith) (ground arith) (ground arith) (ground arith)
  run-Keeps env (Op.drop_payment a canceled code) db db' h =
      aside db db' (ground arith) (ground arith) (ground arith) (ground arith)
  run-Keeps env (Op.select_caller s e) db db' h =
      aside db db' (ground arith) (ground arith) (ground arith) (ground arith)
  run-Keeps env (Op.select_any draw s) db db' h =
      aside db db' (ground arith) (ground arith) (ground arith) (ground arith)
  run-Keeps env (Op.send_heartbeat k) db db' h =
      aside db db' (ground arith) (ground arith) (ground arith) (ground arith)
  run-Keeps env (Op.leave_call k) db db' h =
      aside db db' (ground arith) (ground arith) (ground arith) (ground arith)
  run-Keeps env (Op.check_seen k role at) db db' h =
      aside db db' (ground arith) (ground arith) (ground arith) (ground arith)
  run-Keeps env (Op.claim_refund r) db db' h =
      aside db db' (ground arith) (ground arith) (ground arith) (ground arith)
  run-Keeps env (Op.record_refund r stripe outcome code) db db' h =
      aside db db' (ground arith) (ground arith) (ground arith) (ground arith)
  run-Keeps env (Op.retry_refund r code) db db' h =
      aside db db' (ground arith) (ground arith) (ground arith) (ground arith)
  run-Keeps env (Op.replace_tiers lower s tiers) db db' h = record {
    items = λ i. subst AreItems (ground arith) i;
    kept = ItemsKept-same _ _ (ground arith);
    tiers = λ t. replace_tiers-Every lower env s tiers db db' h t;
    follows = λ f. subst AreCounted (ground arith) f;
    seen = λ id x. ground (arith, x);
  }
  run-Keeps env (Op.send_signals runtime k signals) db db' h =
      aside db db' (ground arith) (ground arith) (ground arith) (ground arith)
  run-Keeps env (Op.ack_signals k ids) db db' h =
      aside db db' (ground arith) (ground arith) (ground arith) (ground arith)
  run-Keeps env (Op.purge_signals k) db db' h =
      aside db db' (ground arith) (ground arith) (ground arith) (ground arith)
  run-Keeps env (Op.save_account account) db db' h =
      aside db db' (ground arith) (ground arith) (ground arith) (ground arith)
  run-Keeps env (Op.open_payouts vars) db db' h =
      aside db db' (ground arith) (ground arith) (ground arith) (ground arith)
  run-Keeps env (Op.claim_payout i) db db' h = record {
    items = λ x.
        subst (λ (d : Db). AreItems d.payouts.items) {x = (claim_transfer env i db).1} {y = db'}
          (ground arith) (claim_transfer-AreItems env i db x);
    kept =
        subst (λ (d : Db). ItemsKept db.payouts.items d.payouts.items)
          {x = (claim_transfer env i db).1} {y = db'} (ground arith)
          (claim_transfer-ItemsKept env i db);
    tiers = λ t. subst (Every IsTier) (ground arith) t;
    follows = λ f. subst AreCounted (ground arith) f;
    seen = λ id x. ground (arith, x);
  }
  run-Keeps env (Op.pay_payout i transfer) db db' h = record {
    items = λ x.
        subst (λ (d : Db). AreItems d.payouts.items) {x = mark_paid env i transfer db} {y = db'}
          (ground arith) (mark_paid-AreItems env i transfer db x);
    kept =
        subst (λ (d : Db). ItemsKept db.payouts.items d.payouts.items)
          {x = mark_paid env i transfer db} {y = db'} (ground arith)
          (mark_paid-ItemsKept env i transfer db);
    tiers = λ t. subst (Every IsTier) (ground arith) t;
    follows = λ f. subst AreCounted (ground arith) f;
    seen = λ id x. ground (arith, x);
  }
  run-Keeps env (Op.retry_payout i code) db db' h = record {
    items = λ x.
        subst (λ (d : Db). AreItems d.payouts.items) {x = retry_transfer env i code db} {y = db'}
          (ground arith) (retry_transfer-AreItems env i code db x);
    kept =
        subst (λ (d : Db). ItemsKept db.payouts.items d.payouts.items)
          {x = retry_transfer env i code db} {y = db'} (ground arith)
          (retry_transfer-ItemsKept env i code db);
    tiers = λ t. subst (Every IsTier) (ground arith) t;
    follows = λ f. subst AreCounted (ground arith) f;
    seen = λ id x. ground (arith, x);
  }
  run-Keeps env Op.finish_payouts db db' h =
      aside db db' (ground arith) (ground arith) (ground arith) (ground arith)
  run-Keeps env (Op.set_follow normal start name follow) db db' h =
      let (payouts, tiers, events) =
        set_follow-aside env normal (start % shard_count) name follow db db' h in
      record {
        items = λ i. subst AreItems (ap (λ p. p.items) (sym payouts)) i;
        kept = ItemsKept-same _ _ (ap (λ p. p.items) payouts);
        tiers = λ t. subst (Every IsTier) (sym tiers) t;
        follows = λ f.
            set_follow-AreCounted env normal (start % shard_count) name follow db db' (ground arith)
              h f;
        seen = λ id x. ground (arith, x, events);
      }
  run-Keeps env (Op.project_follows creator) db db' h = record {
    items = λ i. subst AreItems (ground arith) i;
    kept = ItemsKept-same _ _ (ground arith);
    tiers = λ t. subst (Every IsTier) (ground arith) t;
    follows = λ f.
        subst (λ (d : Db). AreCounted d.follows) {x = Follows.project creator db} {y = db'}
          (ground arith) (project-AreCounted creator db f);
    seen = λ id x. ground (arith, x);
  }
  run-Keeps env (Op.stripe_event args) db db' h = apply-Keeps env args db db' h
  run-Keeps env (Op.reserve_payouts vars r cursor) db db' h =
      let others = reserve_page-outside env vars r cursor db in
      record {
        items = λ x.
            subst (λ (d : Db). AreItems d.payouts.items)
              {x = Runs.reserve_page env vars r cursor db} {y = db'} (ground arith)
              (reserve_page-AreItems env vars r cursor db x);
        kept =
            subst (λ (d : Db). ItemsKept db.payouts.items d.payouts.items)
              {x = Runs.reserve_page env vars r cursor db} {y = db'} (ground arith)
              (reserve_page-ItemsKept env vars r cursor db);
        tiers = λ t. subst (Every IsTier) (ground (arith, others.3)) t;
        follows = λ f. subst AreCounted (ground (arith, others.4)) f;
        seen = λ id x. ground (arith, x, others.5);
      }
