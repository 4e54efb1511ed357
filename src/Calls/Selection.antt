-- ===== src/Calls/Selection.antt =====
-- Choosing a caller (frontend/convex/calls.ts, `select` and `selectRandom`).
use bling.Prelude.{
  ℕ, ◌+◌, ◌-◌, Bool, false, not, ◌&&◌, ◌||◌, Option, none, some, List, [], ◌∷◌, ◌++◌, ◌==◌, leb,
  ltb, if◌then◌else◌, is_some, find, any, map, reverse,
}
use bling.Prelude.Result.{
  Result, ok, err, show_not_live, active_call_exists, caller_not_waiting, payment_capture_failed,
  queue_empty, ◌>>=◌, ◌>>◌, fail_if,
}
use bling.Accounts.{require_creator_id, show_for_creator}
use bling.Store.Interface.{Convex}
use bling.Store.Rows.{Row}
use bling.Store.Queries.{Table, get, collect, insert, next_id, replace, sort_by}
use bling.Schema.Status.{
  ShowStatus, QueueStatus, CallStatus, PaymentStatus, SelectionMode, show_eq, queue_eq, payment_eq,
}
use bling.Schema.Docs.{Show, ShowTier, QueueEntry, Call, PaymentAttempt}
use bling.Schema.State.{Env, Db, run_at, capture_payment}
use bling.Calls.{active_call_for_show}

module _ ⦃c : Convex⦄ where
  unfoldable pub prepare_selection : Env → (show_id : ℕ) → Db → Result Show
  unfolding require_creator_id show_for_creator
  prepare_selection env show_id db = do
    creator_id ← require_creator_id env db
    show ← show_for_creator show_id creator_id db
    fail_if (not (show_eq show.status ShowStatus.live)) show_not_live
    fail_if (is_some (active_call_for_show show_id db.calls)) active_call_exists
    ok show

  abbrev pub is_paid : QueueEntry → Bool
  is_paid entry = ltb 0 entry.tier_price_cents

  -- The payment behind a paid entry.
  unfoldable pub attempt_of : QueueEntry → Db → Option (Row PaymentAttempt)
  attempt_of entry db =
      if is_paid entry
      then elim entry.payment_attempt_id [
        | none ↦ none
        | some id ↦ elim (get db.attempts id) [ none ↦ none | some a ↦ some (id, a) ]
      ]
      else none

  abbrev pub is_authorized : Option (Row PaymentAttempt) → Bool
  is_authorized none = false
  is_authorized (some (_, a)) = payment_eq a.status PaymentStatus.authorized

  abbrev pub new_call :
      (show_id : ℕ) → Show → Row QueueEntry → Option (Row PaymentAttempt) → SelectionMode → Call
  new_call show_id show (entry_id, entry) attempt mode = record {
    show_id = show_id;
    queue_entry_id = entry_id;
    creator_id = show.creator_id;
    viewer_id = entry.viewer_id;
    status = if is_paid entry then CallStatus.payment_pending else CallStatus.created;
    selection_mode = mode;
    call_duration_seconds = entry.call_duration_seconds;
    started_at = none;
    ended_at = none;
    expires_at = none;
    payment_attempt_id = elim attempt [ none ↦ none | some (id, _) ↦ some id ];
  }

  -- A paid caller's hold is captured before the call opens. The id of the new call comes with the
  -- state.
  unfoldable pub create_call :
      Env → Row Show → Row QueueEntry → SelectionMode → Db → Result (ℕ × Db)
  unfolding attempt_of
  create_call env (show_id, show) (entry_id, entry) mode db = do
    let attempt = attempt_of entry db
    fail_if (is_paid entry && not (is_authorized attempt)) payment_capture_failed
    let call_id = next_id db.calls
    ok (
      call_id,
      record db {
        entries =
            replace entry_id
              (record entry { status = QueueStatus.selected; selected_at = some env.now })
              db.entries;
        calls = insert (new_call show_id show (entry_id, entry) attempt mode) db.calls;
        attempts = elim attempt [
          | none ↦ db.attempts
          | some (id, a) ↦ replace id (record a { status = PaymentStatus.capturing }) db.attempts
        ];
        jobs = elim attempt [
          | none ↦ db.jobs
          | some _ ↦ db.jobs ++ run_at env.now (capture_payment call_id)
        ];
      },
    )

  -- `select`: the creator connects to a caller they chose.
  unfoldable pub select : Env → (show_id entry_id : ℕ) → Db → Result (ℕ × Db)
  unfolding prepare_selection create_call
  select env show_id entry_id db = do
    show ← prepare_selection env show_id db
    elim (get db.entries entry_id) [
      | none ↦ err caller_not_waiting
      | some entry ↦
          if not (entry.show_id == show_id) || not (queue_eq entry.status QueueStatus.waiting)
          then err caller_not_waiting
          else create_call env (show_id, show) (entry_id, entry) SelectionMode.manual db
    ]

  -- The tiers of a show from the index `by_show_rank`, in descending order.
  unfoldable pub tiers_desc : (show_id : ℕ) → Db → List (Row ShowTier)
  tiers_desc show_id db =
      reverse (sort_by (λ t. t.priority_rank) (collect (λ t. t.show_id == show_id) db.tiers))

  -- `new Set(ranks)`: in the order of the first occurrences.
  unfoldable pub distinct : List ℕ → List ℕ → List ℕ
  distinct seen [] = []
  distinct seen (r ∷ rs) =
      let again = distinct seen rs in
      let fresh = r ∷ distinct (r ∷ seen) rs in if any (λ s. s == r) seen then again else fresh

  abbrev pub is_waiting_at : (show_id rank : ℕ) → QueueEntry → Bool
  is_waiting_at show_id rank e =
      e.show_id == show_id && queue_eq e.status QueueStatus.waiting && e.priority_rank == rank

  -- The waiting entries of a tier from the index `by_show_status_rank_joined`.
  unfoldable pub waiting_at : (show_id rank : ℕ) → Table QueueEntry → List (Row QueueEntry)
  waiting_at show_id rank t = sort_by (λ e. e.joined_at) (collect (is_waiting_at show_id rank) t)

  abbrev pub last_or : Row QueueEntry → List (Row QueueEntry) → Row QueueEntry
  last_or r [] = r
  last_or r (x ∷ xs) = last_or x xs

  -- The first entry that joined at the pivot or later, else the last one. `draw n` is the least
  -- whole number that is not below `Math.random() * n`: join times are whole milliseconds.
  unfoldable pub pick : (draw : ℕ → ℕ) → Row QueueEntry → List (Row QueueEntry) → Row QueueEntry
  pick draw first_row rest =
      let last = last_or first_row rest in
      let pivot = first_row.1.joined_at + draw (last.1.joined_at - first_row.1.joined_at) in
      elim (find (λ r. leb pivot r.1.joined_at) (first_row ∷ rest)) [
        | some chosen ↦ chosen
        | none ↦ last
      ]

  -- The loop over the ranks: the first one at which anyone waits.
  unfoldable pub pick_from :
      (draw : ℕ → ℕ) → (show_id : ℕ) → List ℕ → Table QueueEntry → Option (Row QueueEntry)
  unfolding pick
  pick_from draw show_id [] t = none
  pick_from draw show_id (rank ∷ ranks) t =
      let later = pick_from draw show_id ranks t in
      elim (waiting_at show_id rank t) [
        | [] ↦ later
        | first_row ∷ rest ↦ some (pick draw first_row rest)
      ]

  -- `selectRandom`: a random caller from the highest tier with anyone waiting.
  unfoldable pub select_random : Env → (draw : ℕ → ℕ) → (show_id : ℕ) → Db → Result (ℕ × Db)
  unfolding prepare_selection create_call pick_from tiers_desc distinct
  select_random env draw show_id db = do
    show ← prepare_selection env show_id db
    let ranks = distinct [] (map (λ t. t.1.priority_rank) (tiers_desc show_id db))
    elim (pick_from draw show_id ranks db.entries) [
      | none ↦ err queue_empty
      | some entry ↦ create_call env (show_id, show) entry SelectionMode.random db
    ]
