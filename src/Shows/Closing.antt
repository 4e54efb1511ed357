-- ===== src/Shows/Closing.antt =====
-- Closing the queue of a show that ended, in batches (frontend/convex/shows.ts, `closeQueue` and
-- `closeEntries`).
use bling.Prelude.{
  ℕ, ◌+◌, ◌-◌, ◌&&◌, none, some, List, [], ◌∷◌, ◌++◌, ◌==◌, leb, if◌then◌else◌, length, take,
}
use bling.Store.Interface.{Convex}
use bling.Store.Rows.{Row}
use bling.Store.Queries.{Table, get, collect, replace, sort_by}
use bling.Schema.Status.{QueueStatus, queue_eq}
use bling.Schema.Docs.{QueueEntry, PaymentAttempt}
use bling.Schema.State.{Env, Db, Scheduled, run_at, close_queue}
use bling.Payments.{schedule_cancel}
use bling.Shows.{close_batch}

abbrev pub active_entry_statuses : List QueueStatus
active_entry_statuses =
    QueueStatus.waiting ∷ QueueStatus.selected ∷ QueueStatus.connecting ∷ QueueStatus.live ∷ []

module _ ⦃c : Convex⦄ where
  -- The entries of a show in one state, from the index `by_show_status_rank_joined`.
  unfoldable pub entries_at : (show_id : ℕ) → QueueStatus → Table QueueEntry → List (Row QueueEntry)
  entries_at show_id status t =
      sort_by (λ e. e.priority_rank)
        (sort_by (λ e. e.joined_at)
          (collect (λ e. e.show_id == show_id && queue_eq e.status status) t))

  -- A caller who still waits gets the card hold back.
  unfoldable pub release_hold : (now : ℕ) → QueueEntry → Table PaymentAttempt → List Scheduled
  unfolding schedule_cancel
  release_hold now entry attempts =
      if queue_eq entry.status QueueStatus.waiting
      then elim entry.payment_attempt_id [
        | none ↦ []
        | some id ↦ elim (get attempts id) [
          | none ↦ []
          | some a ↦ schedule_cancel now (id, a) "show_ended"
        ]
      ]
      else []

  unfoldable pub close_rows :
      (now : ℕ)
      → List (Row QueueEntry)
      → Table PaymentAttempt
      → Table QueueEntry
      → Table QueueEntry × List Scheduled
  unfolding release_hold
  close_rows now [] attempts t = (t, [])
  close_rows now ((id, e) ∷ rs) attempts t =
      let rest =
        close_rows now rs attempts
          (replace id (record e { status = QueueStatus.ended; left_at = some now }) t) in
      (rest.0, release_hold now e attempts ++ rest.1)

  pub record Closed : Type 0 where
    pub count : ℕ
    pub entries : Table QueueEntry
    pub jobs : List Scheduled

  -- The loop over the states, with the number closed so far.
  unfoldable pub close_statuses :
      (now show_id limit : ℕ) → List QueueStatus → Table PaymentAttempt → Closed → Closed
  unfolding close_rows entries_at
  close_statuses now show_id limit [] attempts s = s
  close_statuses now show_id limit (status ∷ rest) attempts s =
      let rows = take (limit - s.count) (entries_at show_id status s.entries) in
      let step = close_rows now rows attempts s.entries in
      let later =
        close_statuses now show_id limit rest attempts
          (record { count = s.count + length rows; entries = step.0; jobs = s.jobs ++ step.1 }) in
      if leb limit s.count then s else later

  unfoldable pub close_entries : (now show_id limit : ℕ) → Db → Closed
  unfolding close_statuses
  close_entries now show_id limit db =
      close_statuses now show_id limit active_entry_statuses db.attempts
        (record { count = 0; entries = db.entries; jobs = [] })

  -- `closeQueue`: a full batch schedules the next one.
  unfoldable pub close_queue_batch : Env → (show_id : ℕ) → Db → Db
  unfolding close_entries
  close_queue_batch env show_id db =
      let closed = close_entries env.now show_id close_batch db in
      record db {
        entries = closed.entries;
        jobs =
            db.jobs
            ++ closed.jobs
            ++ (if closed.count == close_batch then run_at env.now (close_queue show_id) else []);
      }
