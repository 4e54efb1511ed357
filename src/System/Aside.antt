-- ===== src/System/Aside.antt =====
-- The payouts, the tiers and the follows under the mutations of `Op`.
use bling.Prelude.{
  ℕ, ◌≡◌, inl, inr, refl, some, arith, Bool-cases, Option-cases, subst, sym, ap, String, str_eq,
  str_eq_iff, is_some, true,
}
use bling.Prelude.Result.{ok, Result-cases}
use bling.Accounts.{require_creator_id, show_for_creator}
use bling.Store.Interface.{Convex}
use bling.Store.Rows.{Row}
use bling.Store.Queries.{get, first, insert, replace, patch, Every}
use bling.Store.Sums.{first-insert}
use bling.Schema.Status.{ShowStatus, CallStatus, show_eq}
use bling.Schema.Docs.{Show, Call, PaymentAttempt}
use bling.Schema.State.{Env, Db}
use bling.Calls.{apply_transition, move_call}
use bling.Payments.{record_captured, record_not_captured, settle_captured_call, fail_pending_call}
use bling.Payments.Attempts.{captured}
use bling.Payouts.Items.{AreItems}
use bling.Payouts.Settled.{ItemsKept, ItemsKept-same, ItemsKept-trans}
use bling.Tiers.Valid.{IsTier}
use bling.Follows.Counts.{AreCounted}
use bling.Shows
use bling.Social.{on_show_ended}
use bling.System.Transits.{Transits, stay, move, end_open_call-Transits}
use bling.Webhooks.{
  IntentArgs, EventArgs, apply_intent, apply_parts, apply, attempt_for_intent, save_method,
  apply_refund, apply_dispute, apply_payout, is_seen,
}

module _ ⦃c : Convex⦄ where
  -- What a step keeps of the three.
  pub record Keeps (db db' : Db) : Type 0 where
    pub items : AreItems db.payouts.items → AreItems db'.payouts.items
    pub kept : ItemsKept db.payouts.items db'.payouts.items
    pub tiers : Every IsTier db.tiers → Every IsTier db'.tiers
    pub follows : AreCounted db.follows → AreCounted db'.follows
    pub seen : (event_id : String) → is_seen event_id db ≡ true → is_seen event_id db' ≡ true

  seen_in :
      (id : String) (db db' : Db)
      → db'.stripe_events ≡ db.stripe_events
      → is_seen id db ≡ true
      → is_seen id db' ≡ true
  seen_in id db db' events h =
      subst (λ t. is_some (first (λ e. str_eq e.stripe_event_id id) t) ≡ true) (sym events) h

  -- A step that writes none of them.
  pub aside :
      (db db' : Db)
      → db'.payouts.items ≡ db.payouts.items
      → db'.tiers ≡ db.tiers
      → db'.follows ≡ db.follows
      → db'.stripe_events ≡ db.stripe_events
      → Keeps db db'
  aside db db' items tiers follows events = record {
    items = λ h. subst AreItems (sym items) h;
    kept = ItemsKept-same db.payouts.items db'.payouts.items items;
    tiers = λ h. subst (Every IsTier) (sym tiers) h;
    follows = λ h. subst AreCounted (sym follows) h;
    seen = λ id h. seen_in id db db' events h;
  }

  apply_transition-Keeps :
      (env : Env) (id : ℕ) (call : Call) (target : CallStatus) (db db' : Db)
      → apply_transition env (id, call) target db ≡ ok db'
      → Keeps db db'
  unfolding apply_transition move_call patch
  apply_transition-Keeps env id call target db db' h =
      aside db db' (ground arith) (ground arith) (ground arith) (ground arith)

  pub Transits-Keeps : (env : Env) (db db' : Db) → Transits env db db' → Keeps db db'
  Transits-Keeps env db db' (stay e) =
      aside db db' (ap (λ (d : Db). d.payouts.items) e) (ap (λ (d : Db). d.tiers) e)
        (ap (λ (d : Db). d.follows) e) (ap (λ (d : Db). d.stripe_events) e)
  Transits-Keeps env db db' (move id call target at_id h) =
      apply_transition-Keeps env id call target db db' h

  pub record_captured-Keeps :
      (now : ℕ) (attempt : Row PaymentAttempt) (db db' : Db)
      → record_captured now attempt db ≡ ok db'
      → Keeps db db'
  unfolding record_captured settle_captured_call fail_pending_call patch
  record_captured-Keeps now (id, a) db db' h =
      aside db db' (ground arith) (ground arith) (ground arith) (ground arith)

  pub captured-Keeps :
      (env : Env) (id : ℕ) (db db' : Db) → captured env id db ≡ ok db' → Keeps db db'
  unfolding captured
  captured-Keeps env id db db' h = elim (Option-cases (get db.attempts id)) [
    | inl gone ↦ aside db db' (ground arith) (ground arith) (ground arith) (ground arith)
    | inr (a, there) ↦ record_captured-Keeps env.now (id, a) db db' (ground arith)
  ]

  -- Around a step that keeps them.
  around :
      (db before after db' : Db)
      → before.payouts.items ≡ db.payouts.items
      → before.tiers ≡ db.tiers
      → before.follows ≡ db.follows
      → before.stripe_events ≡ db.stripe_events
      → Keeps before after
      → db'.payouts.items ≡ after.payouts.items
      → db'.tiers ≡ after.tiers
      → db'.follows ≡ after.follows
      → db'.stripe_events ≡ after.stripe_events
      → Keeps db db'
  around db before after db' i t f e k i' t' f' e' = record {
    items = λ h. subst AreItems (sym i') (k.items (subst AreItems (sym i) h));
    kept =
        subst (λ t. ItemsKept t db'.payouts.items) i
          (subst (ItemsKept before.payouts.items) (sym i') k.kept);
    tiers = λ h. subst (Every IsTier) (sym t') (k.tiers (subst (Every IsTier) (sym t) h));
    follows = λ h. subst AreCounted (sym f') (k.follows (subst AreCounted (sym f) h));
    seen = λ id h. seen_in id after db' e' (k.seen id (seen_in id db before e h));
  }

  close_show-Keeps :
      (env : Env) (sid : ℕ) (s : Show) (db db' : Db)
      → Shows.close_show env sid s db ≡ ok db'
      → Keeps db db'
  unfolding Shows.close_show
  close_show-Keeps env sid s db db' h =
      let ended : Show = record s { status = ShowStatus.ended; ended_at = some env.now } in
      let before : Db = record db {
        shows = replace sid ended db.shows;
        social = on_show_ended (sid, s) db.social;
      } in
      elim (Result-cases (Shows.end_open_call env sid before)) [
        | inl (x, failing) ↦ ground arith
        | inr (d, closed) ↦
            around db before d db' refl refl refl refl
              (Transits-Keeps env before d (end_open_call-Transits env sid before d closed))
              (ground arith) (ground arith) (ground arith) (ground arith)
      ]

  pub end-Keeps : (env : Env) (sid : ℕ) (db db' : Db) → Shows.end env sid db ≡ ok db' → Keeps db db'
  unfolding Shows.end
  end-Keeps env sid db db' h = elim (Result-cases (require_creator_id env db)) [
    | inl (x, failing) ↦ ground arith
    | inr (creator_id, signed_in) ↦ elim (Result-cases (show_for_creator sid creator_id db)) [
      | inl (x, failing) ↦ ground arith
      | inr (s, owned) ↦ elim (Bool-cases (show_eq s.status ShowStatus.ended)) [
        | inl again ↦ aside db db' (ground arith) (ground arith) (ground arith) (ground arith)
        | inr open_now ↦ close_show-Keeps env sid s db db' (ground arith)
      ]
    ]
  ]

  apply_intent-Keeps :
      (env : Env) (type : String) (intent : IntentArgs) (db db' : Db)
      → apply_intent env type intent db ≡ ok db'
      → Keeps db db'
  unfolding apply_intent save_method record_not_captured
  apply_intent-Keeps env type intent db db' h =
      elim (Option-cases (attempt_for_intent (some intent.id) db)) [
        | inl free ↦ aside db db' (ground arith) (ground arith) (ground arith) (ground arith)
        | inr (a, found) ↦ elim (Bool-cases (str_eq type "payment_intent.succeeded")) [
          | inr other ↦ aside db db' (ground arith) (ground arith) (ground arith) (ground arith)
          | inl succeeded ↦ elim (Result-cases (record_captured env.now a db)) [
            | inl (x, failing) ↦ ground arith
            | inr (d, recorded) ↦
                around db db d db' refl refl refl refl
                  (record_captured-Keeps env.now a db d recorded) (ground arith) (ground arith)
                  (ground arith) (ground arith)
          ]
        ]
      ]

  apply_parts-Keeps :
      (env : Env) (args : EventArgs) (db db' : Db) → apply_parts env args db ≡ ok db' → Keeps db db'
  unfolding apply_parts apply_refund apply_dispute apply_payout
  apply_parts-Keeps env args db db' h = elim (Option-cases args.intent) [
    | inl other ↦ aside db db' (ground arith) (ground arith) (ground arith) (ground arith)
    | inr (intent, e) ↦ apply_intent-Keeps env args.event_type intent db db' (ground arith)
  ]

  -- The state with the event recorded.
  abbrev pub with_event : EventArgs → Db → Db
  with_event args db = record db {
    stripe_events =
        insert
          (record {
            stripe_event_id = args.event_id;
            event_type = args.event_type;
            connected_account_id = args.connected_account_id;
          })
          db.stripe_events;
  }

  with_event-seen :
      (args : EventArgs) (db : Db) (id : String)
      → is_seen id db ≡ true
      → is_seen id (with_event args db) ≡ true
  with_event-seen args db id h = ground (
    arith,
    first-insert (λ e. str_eq e.stripe_event_id id)
        (record {
          stripe_event_id = args.event_id;
          event_type = args.event_type;
          connected_account_id = args.connected_account_id;
        })
        db.stripe_events,
  )

  with_event-Keeps : (args : EventArgs) (db : Db) → Keeps db (with_event args db)
  with_event-Keeps args db = record {
    items = λ h. h;
    kept = ItemsKept-same _ _ refl;
    tiers = λ h. h;
    follows = λ h. h;
    seen = λ id h. with_event-seen args db id h;
  }

  pub Keeps-trans : (a b d : Db) → Keeps a b → Keeps b d → Keeps a d
  Keeps-trans a b d k l = record {
    items = λ h. l.items (k.items h);
    kept = ItemsKept-trans a.payouts.items b.payouts.items d.payouts.items k.kept l.kept;
    tiers = λ h. l.tiers (k.tiers h);
    follows = λ h. l.follows (k.follows h);
    seen = λ id h. l.seen id (k.seen id h);
  }

  pub apply-Keeps :
      (env : Env) (args : EventArgs) (db db' : Db) → apply env args db ≡ ok db' → Keeps db db'
  unfolding apply
  apply-Keeps env args db db' h = elim (Bool-cases (is_seen args.event_id db)) [
    | inl again ↦ aside db db' (ground arith) (ground arith) (ground arith) (ground arith)
    | inr new ↦
        Keeps-trans db (with_event args db) db' (with_event-Keeps args db)
          (apply_parts-Keeps env args (with_event args db) db' (ground arith))
  ]

  -- An event that was applied is seen.
  pub apply-is_seen :
      (env : Env) (args : EventArgs) (db db' : Db)
      → apply env args db ≡ ok db'
      → is_seen args.event_id db' ≡ true
  unfolding apply
  apply-is_seen env args db db' h = elim (Bool-cases (is_seen args.event_id db)) [
    | inl again ↦
        subst (λ (d : Db). is_seen args.event_id d ≡ true) {x = db} {y = db'} (ground arith) again
    | inr new ↦
        (apply_parts-Keeps env args (with_event args db) db' (ground arith)).seen args.event_id (
          ground (
            arith,
            str_eq_iff args.event_id args.event_id,
            first-insert (λ e. str_eq e.stripe_event_id args.event_id)
                (record {
                  stripe_event_id = args.event_id;
                  event_type = args.event_type;
                  connected_account_id = args.connected_account_id;
                })
                db.stripe_events,
          ))
  ]
