-- ===== src/Queue/Rules.antt =====
-- What joining and leaving the queue give (frontend/convex/queue.ts).
use bling.Prelude.{
  ℕ, ◌≡◌, ◌⊎◌, inl, inr, refl, true, false, ◌&&◌, Option, none, some, arith, ◌==◌, ltb, Bool-cases,
  Option-cases, subst, sym,
}
use bling.Prelude.Result.{ok, Result-cases}
use bling.Store.Interface.{Convex}
use bling.Store.Rows.{Row}
use bling.Store.Queries.{
  Table, get, get-first, first-none, insert, replace, next_id, get-insert, get-replace,
}
use bling.Schema.Status.{QueueStatus, queue_eq}
use bling.Schema.Docs.{QueueEntry, ShowTier, PaymentAttempt, Text}
use bling.Schema.Text.{trim}
use bling.Schema.State.{Env, Db}
use bling.Payments.{show_is_live}
use bling.Queue.{
  JoinArgs, require_tier, entry_of, is_usable, payment_for, joined_entry, write_entry, admit,
  join_queue,
}

module _ ⦃c : Convex⦄ where
  -- No viewer has two entries in the queue of a show.
  abbrev pub OneEntry : Table QueueEntry → Type 0
  OneEntry t =
      (i j : ℕ) (e f : QueueEntry)
      → get t i ≡ some e
      → get t j ≡ some f
      → e.show_id ≡ f.show_id
      → e.viewer_id ≡ f.viewer_id
      → i ≡ j

  OneEntry-replace :
      (i : ℕ) (d e : QueueEntry) (t : Table QueueEntry)
      → get t i ≡ some e
      → d.show_id ≡ e.show_id
      → d.viewer_id ≡ e.viewer_id
      → OneEntry t
      → OneEntry (replace i d t)
  OneEntry-replace i d e t at_i show viewer h j k x y = ground (
    arith,
    get-replace i d e t j at_i,
    get-replace i d e t k at_i,
    h j k x y,
    h i k e y,
    h j i x e,
  )

  OneEntry-insert :
      (d : QueueEntry) (t : Table QueueEntry)
      → entry_of d.show_id d.viewer_id t ≡ none
      → OneEntry t
      → OneEntry (insert d t)
  unfolding entry_of
  OneEntry-insert d t free h j k x y = ground (
    arith,
    get-insert d t j,
    get-insert d t k,
    h j k x y,
    first-none (λ e. e.show_id == d.show_id && e.viewer_id == d.viewer_id) t j x free,
    first-none (λ e. e.show_id == d.show_id && e.viewer_id == d.viewer_id) t k y free,
  )

  pub get-entry_of :
      (show_id viewer_id : ℕ) (t : Table QueueEntry) (r : Row QueueEntry)
      → entry_of show_id viewer_id t ≡ some r
      → (get t r.0 ≡ some r.1) × (r.1.show_id ≡ show_id) × (r.1.viewer_id ≡ viewer_id)
  unfolding entry_of
  get-entry_of show_id viewer_id t r h =
      ground (arith, get-first (λ e. e.show_id == show_id && e.viewer_id == viewer_id) t r h)

  write_entry-OneEntry :
      (env : Env) (viewer_id : ℕ) (args : JoinArgs) (name topic : Text) (tier : Row ShowTier)
      (attempt : Option (Row PaymentAttempt)) (db : Db)
      → OneEntry db.entries
      → OneEntry
          (write_entry env viewer_id args name topic tier attempt
            (entry_of args.show_id viewer_id db.entries)
            db).1.entries
  unfolding write_entry
  write_entry-OneEntry env viewer_id args name topic (tier_id, tier) attempt db h =
      elim (Option-cases (entry_of args.show_id viewer_id db.entries)) [
        | inl free ↦ rw free (
            OneEntry-insert
              (joined_entry env viewer_id args name topic (tier_id, tier) attempt none) db.entries
              free h)
        | inr ((id, old), own) ↦
            let at_id = get-entry_of args.show_id viewer_id db.entries (id, old) own in
            rw own (
              OneEntry-replace id
                (joined_entry env viewer_id args name topic (tier_id, tier) attempt old.selected_at)
                old db.entries at_id.0 (ground arith) (ground arith) h)
      ]

  pub admit-cases :
      (env : Env) (viewer_id : ℕ) (args : JoinArgs) (name topic : Text) (tier : Row ShowTier)
      (payment : Option ℕ) (db : Db) (r : ℕ × Db)
      → admit env viewer_id args name topic tier payment db ≡ ok r
      → (attempt : Option (Row PaymentAttempt)) × (payment_for viewer_id args tier
            (entry_of args.show_id viewer_id db.entries)
            payment
            db
          ≡ ok attempt)
        × (write_entry env viewer_id args name topic tier attempt
              (entry_of args.show_id viewer_id db.entries)
              db
            ≡ r)
  unfolding admit
  admit-cases env viewer_id args name topic tier payment db r h =
      elim (Result-cases
        (payment_for viewer_id args tier (entry_of args.show_id viewer_id db.entries) payment db)) [
          | inl (x, failing) ↦ ground arith
          | inr (attempt, found) ↦ (attempt, found, ground arith)
        ]

  -- A join that succeeds finds the show live, and keeps the caller's active entry or writes one.
  pub join_queue-cases :
      (env : Env) (viewer_id : ℕ) (args : JoinArgs) (payment : Option ℕ) (db : Db) (r : ℕ × Db)
      → join_queue env viewer_id args payment db ≡ ok r
      → (show_is_live args.show_id db ≡ true)
        × (((e : QueueEntry) × (entry_of args.show_id viewer_id db.entries ≡ some (r.0, e))
              × (queue_eq e.status QueueStatus.left ≡ false)
              × (r.1 ≡ db))
            ⊎ ((tier : Row ShowTier) × (require_tier args db.tiers ≡ ok tier)
                × (admit env viewer_id args
                      (trim args.display_name)
                      (trim args.topic)
                      tier
                      payment
                      db
                    ≡ ok r)))
  unfolding join_queue
  join_queue-cases env viewer_id args payment db r h =
      elim (Result-cases (require_tier args db.tiers)) [
        | inl (x, failing) ↦ ground arith
        | inr (tier, known) ↦ elim (Option-cases (entry_of args.show_id viewer_id db.entries)) [
          | inl free ↦ (ground arith, inr (tier, known, ground arith))
          | inr ((id, e), own) ↦ elim (Bool-cases (queue_eq e.status QueueStatus.left)) [
            | inl gone ↦ (ground arith, inr (tier, known, ground arith))
            | inr here ↦ (ground arith, inl (e, ground arith, here, ground arith))
          ]
        ]
      ]

  -- A viewer who joins the queue of a show, for the first time or again, never has two entries in
  -- it, where no viewer had two before.
  pub join_queue-OneEntry :
      (env : Env) (viewer_id : ℕ) (args : JoinArgs) (payment : Option ℕ) (db : Db) (r : ℕ × Db)
      → join_queue env viewer_id args payment db ≡ ok r
      → OneEntry db.entries
      → OneEntry r.1.entries
  join_queue-OneEntry env viewer_id args payment db r h one =
      elim (join_queue-cases env viewer_id args payment db r h).1 [
        | inl (e, own, here, same) ↦ subst (λ (d : Db). OneEntry d.entries) (sym same) one
        | inr (tier, known, admitted) ↦
            let found =
              admit-cases env viewer_id args (trim args.display_name) (trim args.topic) tier payment
                db r admitted in
            subst (λ (w : ℕ × Db). OneEntry w.1.entries) found.2
              (write_entry-OneEntry env viewer_id args (trim args.display_name) (trim args.topic)
                tier found.0 db one)
      ]

  -- A paid join needs the caller's own hold.
  pub payment_for-paid :
      (viewer_id : ℕ) (args : JoinArgs) (tier_id : ℕ) (tier : ShowTier)
      (existing : Option (Row QueueEntry)) (payment : Option ℕ) (db : Db)
      (attempt : Option (Row PaymentAttempt))
      → payment_for viewer_id args (tier_id, tier) existing payment db ≡ ok attempt
      → ltb 0 tier.price_cents ≡ true
      → (id : ℕ) × (a : PaymentAttempt) × (attempt ≡ some (id, a))
        × (get db.attempts id ≡ some a)
        × (is_usable viewer_id args.show_id (tier_id, tier) existing a ≡ true)
  unfolding payment_for
  payment_for-paid viewer_id args tier_id tier existing none db attempt h priced = ground arith
  payment_for-paid viewer_id args tier_id tier existing (some id) db attempt h priced =
      elim (Option-cases (get db.attempts id)) [
        | inl gone ↦ ground arith
        | inr (a, there) ↦ (id, a, ground arith, there, ground arith)
      ]

  -- The entry that a join writes, and the attempt that it takes.
  write_entry-entry :
      (env : Env) (viewer_id : ℕ) (args : JoinArgs) (name topic : Text) (tier : Row ShowTier)
      (attempt : Option (Row PaymentAttempt)) (db : Db) (r : ℕ × Db)
      → write_entry env viewer_id args name topic tier attempt
          (entry_of args.show_id viewer_id db.entries)
          db
        ≡ r
      → (at : Option ℕ) × (get r.1.entries r.0
          ≡ some (joined_entry env viewer_id args name topic tier attempt at))
  unfolding write_entry
  write_entry-entry env viewer_id args name topic (tier_id, tier) attempt db r h =
      elim (Option-cases (entry_of args.show_id viewer_id db.entries)) [
        | inl free ↦ (
          none,
          ground (
            arith,
            get-insert (joined_entry env viewer_id args name topic (tier_id, tier) attempt none)
                db.entries (next_id db.entries),
          ),
        )
        | inr ((id, old), own) ↦
            let at_id = get-entry_of args.show_id viewer_id db.entries (id, old) own in
            (
              old.selected_at,
              ground (
                arith,
                get-replace id
                    (joined_entry env viewer_id args name topic (tier_id, tier) attempt
                      old.selected_at)
                    old db.entries id at_id.0,
              ),
            )
      ]

  -- Joining succeeds only in a live show, and what it returns is the caller's own entry in that show,
  -- which is in the queue: it has not left.
  pub join_queue-entry :
      (env : Env) (viewer_id : ℕ) (args : JoinArgs) (payment : Option ℕ) (db : Db) (r : ℕ × Db)
      → join_queue env viewer_id args payment db ≡ ok r
      → (show_is_live args.show_id db ≡ true)
        × ((e : QueueEntry) × (get r.1.entries r.0 ≡ some e)
            × (e.viewer_id ≡ viewer_id)
            × (e.show_id ≡ args.show_id)
            × (queue_eq e.status QueueStatus.left ≡ false))
  join_queue-entry env viewer_id args payment db r h =
      let all = join_queue-cases env viewer_id args payment db r h in
      (
        all.0,
        elim all.1 [
          | inl (e, own, here, same) ↦
              let kept = get-entry_of args.show_id viewer_id db.entries (r.0, e) own in
              (e, ground arith, kept.2, kept.1, here)
          | inr ((tier_id, tier), known, admitted) ↦
              let found =
                admit-cases env viewer_id args (trim args.display_name) (trim args.topic)
                  (tier_id, tier) payment db r admitted in
              let there =
                write_entry-entry env viewer_id args (trim args.display_name) (trim args.topic)
                  (tier_id, tier) found.0 db r found.2 in
              (_, there.1, refl, refl, refl)
        ],
      )
