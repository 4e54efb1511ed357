-- ===== src/Shows/Batches.antt =====
-- The batches of `closeQueue`, one after the other (frontend/convex/shows.ts).
use bling.Prelude.{
  ℕ, ◌+◌, ◌-◌, ◌*◌, ◌<◌, ◌≡◌, ◌⊎◌, ◌==◌, inl, inr, refl, Bool, true, false, some, List, [], ◌∷◌,
  ◌++◌, arith, length, take, if◌then◌else◌, Bool-cases, ◌∙◌, ap,
}
use bling.Store.Interface.{Convex}
use bling.Store.Rows.{Row}
use bling.Store.Queries.{Table, replace}
use bling.Store.Totals.{total_zero, total_positive}
use bling.Schema.Status.{QueueStatus}
use bling.Schema.Docs.{QueueEntry, PaymentAttempt}
use bling.Schema.State.{Env, Db, Scheduled, run_at, close_queue}
use bling.Payments.{schedule_cancel}
use bling.Shows.{close_batch}
use bling.Shows.Closing.{
  active_entry_statuses, entries_at, release_hold, close_rows, Closed, close_statuses,
  close_entries, close_queue_batch,
}
use bling.Shows.Emptying.{
  is_at, is_open, open_total, at_total, is_active_status, close_statuses-Pass, queue_eq_refl,
}

abbrev is_batch : (show_id : ℕ) → Scheduled → Bool
is_batch show_id s = elim s.job [ close_queue id ↦ id == show_id | _ ↦ false ]

-- The batches of a show that are scheduled.
unfoldable pub batches_due : (show_id : ℕ) → List Scheduled → ℕ
batches_due show_id [] = 0
batches_due show_id (s ∷ rest) = (if is_batch show_id s then 1 else 0) + batches_due show_id rest

-- Without the first of them.
unfoldable drop_batch : (show_id : ℕ) → List Scheduled → List Scheduled
drop_batch show_id [] = []
drop_batch show_id (s ∷ rest) =
    let others = drop_batch show_id rest in if is_batch show_id s then rest else s ∷ others

drop_batch-due :
    (show_id : ℕ) (jobs : List Scheduled)
    → batches_due show_id (drop_batch show_id jobs) ≡ batches_due show_id jobs - 1
unfolding drop_batch batches_due
drop_batch-due show_id [] = refl
drop_batch-due show_id (s ∷ rest) = elim (Bool-cases (is_batch show_id s)) [
  | inl one ↦ ground (arith, one)
  | inr other ↦ ground (arith, other, drop_batch-due show_id rest)
]

pub batches_due-++ :
    (show_id : ℕ) (jobs more : List Scheduled)
    → batches_due show_id (jobs ++ more) ≡ batches_due show_id jobs + batches_due show_id more
unfolding batches_due
batches_due-++ show_id [] more = ground arith
batches_due-++ show_id (s ∷ rest) more = ground (arith, batches_due-++ show_id rest more)

batches_due-around :
    (show_id : ℕ) (jobs quiet more : List Scheduled)
    → batches_due show_id quiet ≡ 0
    → batches_due show_id (jobs ++ quiet ++ more)
      ≡ batches_due show_id jobs + batches_due show_id more
batches_due-around show_id jobs quiet more none_due =
    ground (arith, batches_due-++ show_id (jobs ++ quiet) more, batches_due-++ show_id jobs quiet)

batches_due-if :
    (show_id now : ℕ) (again : Bool)
    → batches_due show_id (if again then run_at now (close_queue show_id) else [])
      ≡ (if again then 1 else 0)
unfolding batches_due
batches_due-if show_id now true = ground arith
batches_due-if show_id now false = refl

module _ ⦃c : Convex⦄ where
  open-at :
      (show_id : ℕ) (e : QueueEntry)
      → is_open show_id e ≡ true
      → (is_active_status e.status ≡ true) × (is_at show_id e.status e ≡ true)
  open-at show_id e is_open = (ground arith, ground (arith, queue_eq_refl e.status))

  none_open :
      (show_id : ℕ) (t : Table QueueEntry)
      → ((status : QueueStatus) → is_active_status status ≡ true → at_total show_id status t ≡ 0)
      → open_total show_id t ≡ 0
  none_open show_id t none_at =
      total_zero (is_open show_id) (λ e. 1) t
        (λ i e at_i. elim (Bool-cases (is_open show_id e)) [
          | inr closed ↦ ground arith
          | inl still_open ↦
              let (active, at) = open-at show_id e still_open in
              ground (
                arith,
                at,
                none_at e.status active,
                total_positive (is_at show_id e.status) (λ e. 1) t i e at_i,
              )
        ])

  -- A batch closes as many entries as it may, or every open one.
  close_queue_batch-progress :
      (env : Env) (show_id : ℕ) (db : Db)
      → let closed = close_entries env.now show_id close_batch db in
        (open_total show_id closed.entries + closed.count ≡ open_total show_id db.entries)
        × ((closed.count ≡ close_batch) ⊎ (open_total show_id closed.entries ≡ 0))
  unfolding close_entries
  close_queue_batch-progress env show_id db =
      let pass =
        close_statuses-Pass env.now show_id close_batch active_entry_statuses db.attempts
          (record { count = 0; entries = db.entries; jobs = [] }) (λ status listed. listed)
          (ground arith) in
      (
        ground (arith, pass.counted),
        elim pass.done [
          | inl full ↦ inl full
          | inr empty ↦
              inr (none_open show_id (close_entries env.now show_id close_batch db).entries empty)
        ],
      )

  release_hold-due :
      (show_id now : ℕ) (e : QueueEntry) (attempts : Table PaymentAttempt)
      → batches_due show_id (release_hold now e attempts) ≡ 0
  unfolding release_hold schedule_cancel batches_due
  release_hold-due show_id now e attempts = ground arith

  close_rows-due :
      (show_id now : ℕ) (rs : List (Row QueueEntry)) (attempts : Table PaymentAttempt)
      (t : Table QueueEntry)
      → batches_due show_id (close_rows now rs attempts t).1 ≡ 0
  unfolding close_rows batches_due
  close_rows-due show_id now [] attempts t = refl
  close_rows-due show_id now ((id, e) ∷ rs) attempts t =
      let t' = replace id (record e { status = QueueStatus.ended; left_at = some now }) t in
      ground (
        arith,
        batches_due-++ show_id (release_hold now e attempts) (close_rows now rs attempts t').1,
        release_hold-due show_id now e attempts,
        close_rows-due show_id now rs attempts t',
      )

  -- Closing entries schedules no batch by itself.
  close_statuses-due :
      (now show_id limit : ℕ) (statuses : List QueueStatus) (attempts : Table PaymentAttempt)
      (s : Closed)
      → batches_due show_id (close_statuses now show_id limit statuses attempts s).jobs
        ≡ batches_due show_id s.jobs
  unfolding close_statuses
  close_statuses-due now show_id limit [] attempts s = refl
  close_statuses-due now show_id limit (status ∷ rest) attempts s =
      let rows = take (limit - s.count) (entries_at show_id status s.entries) in
      let step = close_rows now rows attempts s.entries in
      let later =
        close_statuses-due now show_id limit rest attempts
          (record { count = s.count + length rows; entries = step.0; jobs = s.jobs ++ step.1 }) in
      ground (
        arith,
        later,
        batches_due-++ show_id s.jobs step.1,
        close_rows-due show_id now rows attempts s.entries,
      )

  close_entries-due :
      (now show_id : ℕ) (db : Db)
      → batches_due show_id (close_entries now show_id close_batch db).jobs ≡ 0
  unfolding close_entries batches_due
  close_entries-due now show_id db =
      close_statuses-due now show_id close_batch active_entry_statuses db.attempts
        (record { count = 0; entries = db.entries; jobs = [] })

  entries_after :
      (env : Env) (show_id : ℕ) (db : Db)
      → (close_queue_batch env show_id db).entries
        ≡ (close_entries env.now show_id close_batch db).entries
  unfolding close_queue_batch
  entries_after env show_id db = refl

  -- A batch schedules another one just where it was full.
  close_queue_batch-due :
      (env : Env) (show_id : ℕ) (db : Db)
      → batches_due show_id (close_queue_batch env show_id db).jobs
        ≡ batches_due show_id db.jobs
          + (if (close_entries env.now show_id close_batch db).count == close_batch then 1 else 0)
  unfolding close_queue_batch
  close_queue_batch-due env show_id db =
      let closed = close_entries env.now show_id close_batch db in
      let again = closed.count == close_batch in
      batches_due-around show_id db.jobs closed.jobs
        (if again then run_at env.now (close_queue show_id) else [])
        (close_entries-due env.now show_id db)
      ∙ ap (λ n. batches_due show_id db.jobs + n) (batches_due-if show_id env.now again)

  -- The scheduler, at the times given: a batch of the show that is scheduled runs, and is then no
  -- longer scheduled, and where none is scheduled nothing runs.
  unfoldable pub run_batches : List Env → (show_id : ℕ) → Db → Db
  unfolding close_queue_batch batches_due drop_batch
  run_batches [] show_id db = db
  run_batches (env ∷ rest) show_id db =
      let after = close_queue_batch env show_id (record db { jobs = drop_batch show_id db.jobs }) in
      run_batches rest show_id (if batches_due show_id db.jobs == 0 then db else after)

  run_batches-idle :
      (times : List Env) (show_id : ℕ) (db : Db)
      → batches_due show_id db.jobs ≡ 0
      → run_batches times show_id db ≡ db
  unfolding run_batches
  run_batches-idle [] show_id db idle = refl
  run_batches-idle (env ∷ rest) show_id db idle =
      ground (arith, idle, run_batches-idle rest show_id db idle)

  -- Where one batch of `closeQueue` is scheduled for a show with fewer open entries in its queue than
  -- 200 times the number of times at which the scheduler runs, then after those times no entry of the
  -- show is open, and no batch is scheduled any more.
  pub run_batches-empty :
      (times : List Env) (show_id : ℕ) (db : Db)
      → batches_due show_id db.jobs ≡ 1
      → open_total show_id db.entries < length times * 200
      → (open_total show_id (run_batches times show_id db).entries ≡ 0)
        × (batches_due show_id (run_batches times show_id db).jobs ≡ 0)
  unfolding run_batches
  run_batches-empty [] show_id db one few = ground arith
  run_batches-empty (env ∷ rest) show_id db one few =
      let before : Db = record db { jobs = drop_batch show_id db.jobs } in
      let after = close_queue_batch env show_id before in
      let closed = close_entries env.now show_id close_batch before in
      let scheduled = close_queue_batch-due env show_id before in
      let dropped = drop_batch-due show_id db.jobs in
      let (counted, done) = close_queue_batch-progress env show_id before in
      let next : run_batches (env ∷ rest) show_id db ≡ run_batches rest show_id after =
        ground (arith, one) in
      elim (Bool-cases (closed.count == close_batch)) [
        | inl full ↦
            let later =
              run_batches-empty rest show_id after (ground (arith, scheduled, dropped, one, full))
                (ground (arith, counted, few, full, entries_after env show_id before)) in
            (ground (arith, next, later.0), ground (arith, next, later.1))
        | inr short ↦
            let idle =
              run_batches-idle rest show_id after
                (ground (arith, scheduled, dropped, one, short)) in
            (
              ground (arith, next, idle, done, short, entries_after env show_id before),
              ground (arith, next, idle, scheduled, dropped, one, short),
            )
      ]
