-- ===== src/Shows/Emptying.antt =====
-- How the batches of `closeQueue` empty the queue of a show (frontend/convex/shows.ts).
use bling.Prelude.{
  ℕ, ◌+◌, ◌-◌, ◌≤◌, ◌≡◌, ◌⊎◌, inl, inr, refl, Bool, true, false, ◌&&◌, some, List, [], ◌∷◌, ◌++◌,
  arith, ◌==◌, leb, any, length, take, keep, Bool-cases, subst, sym, ◌∙◌, ap,
}
use bling.Store.Interface.{Convex}
use bling.Store.Rows.{Row, lookup, IsKeyed}
use bling.Store.Queries.{Table, get, replace, get-replace, collect, sort_by}
use bling.Store.Totals.{total, total_rows, total-replace}
use bling.Store.Sorting.{
  lookup-sort_by, sort_by-IsKeyed, total_rows-sort_by, lookup-keep, keep-IsKeyed, lookup-take,
  take-IsKeyed, take-all, length-take, total_rows-keep, total_rows-length,
}
use bling.Schema.Status.{QueueStatus, queue_eq}
use bling.Schema.Docs.{QueueEntry, PaymentAttempt}
use bling.Shows.Closing.{active_entry_statuses, entries_at, close_rows, Closed, close_statuses}

abbrev pub is_at : (show_id : ℕ) → QueueStatus → QueueEntry → Bool
is_at show_id status e = e.show_id == show_id && queue_eq e.status status

-- An entry that the end of its show has to close.
abbrev pub is_open : (show_id : ℕ) → QueueEntry → Bool
is_open show_id e = e.show_id == show_id && any (queue_eq e.status) active_entry_statuses

abbrev ended_entry : (now : ℕ) → QueueEntry → QueueEntry
ended_entry now e = record e { status = QueueStatus.ended; left_at = some now }

module _ ⦃c : Convex⦄ where
  -- The entries that are open.
  abbrev pub open_total : (show_id : ℕ) → Table QueueEntry → ℕ
  open_total show_id t = total (is_open show_id) (λ e. 1) t

  -- Rows that are documents of the table.
  abbrev AreRows : List (Row QueueEntry) → Table QueueEntry → Type 0
  AreRows rs t = IsKeyed rs × ((i : ℕ) (e : QueueEntry) → lookup i rs ≡ some e → get t i ≡ some e)

  close_rows-total :
      (p : QueueEntry → Bool) (now : ℕ) (rs : List (Row QueueEntry))
      (attempts : Table PaymentAttempt) (t : Table QueueEntry)
      → ((e : QueueEntry) → p (ended_entry now e) ≡ false)
      → AreRows rs t
      → total p (λ e. 1) (close_rows now rs attempts t).0 + total_rows p (λ e. 1) rs
        ≡ total p (λ e. 1) t
  unfolding close_rows total_rows lookup
  close_rows-total p now [] attempts t ended (keyed, there) = ground arith
  close_rows-total p now ((id, e) ∷ rs) attempts t ended (keyed, there) =
      let at_id : get t id ≡ some e = there id e (ground arith) in
      let later = close_rows-total p now rs attempts (replace id (ended_entry now e) t) ended (
        keyed.1,
        λ i d h.
            ground (arith, h, keyed.0, there i d, get-replace id (ended_entry now e) e t i at_id),
      ) in
      ground (arith, later, ended e, total-replace p (λ e. 1) id (ended_entry now e) e t at_id)

  found-is_at :
      (show_id : ℕ) (status : QueueStatus) (n : ℕ) (t : Table QueueEntry) (i : ℕ) (e : QueueEntry)
      → lookup i (take n (entries_at show_id status t)) ≡ some e
      → (get t i ≡ some e) × (is_at show_id status e ≡ true)
  unfolding entries_at collect get
  found-is_at show_id status n t i e h =
      let found = keep (λ r. is_at show_id status r.1) (c.rows t) in
      let by_joined = sort_by (λ e. e.joined_at) found in
      let keyed = keep-IsKeyed (is_at show_id status) (c.rows t) (c.keyed t) in
      let joined_keyed = sort_by-IsKeyed (λ e. e.joined_at) found keyed in
      let ranked = lookup-take n (sort_by (λ e. e.priority_rank) by_joined) i e h in
      lookup-keep (is_at show_id status) (c.rows t) i e (c.keyed t) (
        sym (lookup-sort_by (λ e. e.joined_at) found i keyed)
        ∙ sym (lookup-sort_by (λ e. e.priority_rank) by_joined i joined_keyed)
        ∙ ranked)

  entries_at-AreRows :
      (show_id : ℕ) (status : QueueStatus) (n : ℕ) (t : Table QueueEntry)
      → AreRows (take n (entries_at show_id status t)) t
  unfolding entries_at collect
  entries_at-AreRows show_id status n t =
      let found = keep (λ r. is_at show_id status r.1) (c.rows t) in
      let by_joined = sort_by (λ e. e.joined_at) found in
      let keyed = keep-IsKeyed (is_at show_id status) (c.rows t) (c.keyed t) in
      (
        take-IsKeyed n (sort_by (λ e. e.priority_rank) by_joined) (
            sort_by-IsKeyed (λ e. e.priority_rank) by_joined
              (sort_by-IsKeyed (λ e. e.joined_at) found keyed)),
        λ i e h. (found-is_at show_id status n t i e h).0,
      )

  -- All entries of one state.
  entries_at-total :
      (show_id : ℕ) (status : QueueStatus) (t : Table QueueEntry)
      → total_rows (is_at show_id status) (λ e. 1) (entries_at show_id status t)
        ≡ total (is_at show_id status) (λ e. 1) t
  unfolding entries_at collect total
  entries_at-total show_id status t =
      let p = is_at show_id status in
      let found = keep (λ r. p r.1) (c.rows t) in
      total_rows-sort_by p (λ e. 1) (λ e. e.priority_rank) (sort_by (λ e. e.joined_at) found)
      ∙ total_rows-sort_by p (λ e. 1) (λ e. e.joined_at) found
      ∙ total_rows-keep p p (λ e. 1) (c.rows t) (λ d h. h)

  abbrev pub at_total : (show_id : ℕ) → QueueStatus → Table QueueEntry → ℕ
  at_total show_id status t = total (is_at show_id status) (λ e. 1) t

  abbrev pub is_active_status : QueueStatus → Bool
  is_active_status status = any (queue_eq status) active_entry_statuses

  -- What a pass over some states has done, from one state of the loop to another.
  pub record Pass (show_id limit : ℕ) (statuses : List QueueStatus) (s s' : Closed) : Type 0 where
    pub counted : open_total show_id s'.entries + s'.count ≡ open_total show_id s.entries + s.count
    pub within : s'.count ≤ limit
    pub onward : s.count ≤ s'.count
    pub no_more :
        (status : QueueStatus)
        → is_active_status status ≡ true
        → at_total show_id status s'.entries ≤ at_total show_id status s.entries
    pub done :
        (s'.count ≡ limit)
        ⊎ ((status : QueueStatus)
            → any (queue_eq status) statuses ≡ true
            → at_total show_id status s'.entries ≡ 0)

  pub queue_eq_refl : (s : QueueStatus) → queue_eq s s ≡ true
  queue_eq_refl s = ground arith

  queue_eq→eq : (s u : QueueStatus) → queue_eq s u ≡ true → s ≡ u
  queue_eq→eq s u h = ground arith

  at-open :
      (show_id : ℕ) (status : QueueStatus) (e : QueueEntry)
      → is_active_status status ≡ true
      → is_at show_id status e ≡ true
      → is_open show_id e ≡ true
  at-open show_id status e active at = ground arith

  ended-at :
      (show_id now : ℕ) (status : QueueStatus) (e : QueueEntry)
      → is_active_status status ≡ true
      → is_at show_id status (ended_entry now e) ≡ false
  ended-at show_id now status e active = ground arith

  -- The batch of one state.
  close_status-counts :
      (now show_id n : ℕ) (status : QueueStatus) (attempts : Table PaymentAttempt)
      (t : Table QueueEntry)
      → is_active_status status ≡ true
      → let rows = take n (entries_at show_id status t) in
        let t' = (close_rows now rows attempts t).0 in
        (open_total show_id t' + length rows ≡ open_total show_id t)
        × ((other : QueueStatus)
            → is_active_status other ≡ true
            → at_total show_id other t' ≤ at_total show_id other t)
        × ((length rows ≡ n) ⊎ (at_total show_id status t' ≡ 0))
  close_status-counts now show_id n status attempts t active =
      let rows = take n (entries_at show_id status t) in
      let are = entries_at-AreRows show_id status n t in
      let all_open =
        total_rows-length (is_open show_id) rows are.0
          (λ i e h. at-open show_id status e active (found-is_at show_id status n t i e h).1) in
      (
        ground (
          arith,
          all_open,
          close_rows-total (is_open show_id) now rows attempts t (λ e. ground arith) are,
        ),
        λ other active_too. ground (
          arith,
          close_rows-total (is_at show_id other) now rows attempts t
              (λ e. ended-at show_id now other e active_too) are,
        ),
        elim (Bool-cases (leb n (length rows))) [
          | inl full ↦ inl (ground (arith, length-take n (entries_at show_id status t)))
          | inr few ↦
              let all = take-all n (entries_at show_id status t) (ground arith) in
              inr (
                ground (
                  arith,
                  close_rows-total (is_at show_id status) now rows attempts t
                      (λ e. ended-at show_id now status e active) are,
                  ap (total_rows (is_at show_id status) (λ e. 1)) all,
                  entries_at-total show_id status t,
                ))
        ],
      )

  Pass-next :
      (show_id limit : ℕ) (status : QueueStatus) (rest : List QueueStatus) (s mid s' : Closed)
      → is_active_status status ≡ true
      → (open_total show_id mid.entries + mid.count ≡ open_total show_id s.entries + s.count)
      → s.count ≤ mid.count
      → ((other : QueueStatus)
          → is_active_status other ≡ true
          → at_total show_id other mid.entries ≤ at_total show_id other s.entries)
      → ((mid.count ≡ limit) ⊎ (at_total show_id status mid.entries ≡ 0))
      → Pass show_id limit rest mid s'
      → Pass show_id limit (status ∷ rest) s s'
  Pass-next show_id limit status rest s mid s' active counted onward less here later = record {
    counted = ground (arith, counted, later.counted);
    within = later.within;
    onward = ground (arith, onward, later.onward);
    no_more = λ other also. ground (arith, less other also, later.no_more other also);
    done = elim here [
      | inl full ↦ inl (ground (arith, full, later.within, later.onward))
      | inr none_here ↦ elim later.done [
        | inl full ↦ inl full
        | inr none_later ↦ inr (λ other listed. elim (Bool-cases (queue_eq other status)) [
          | inl same ↦
              let other_is : other ≡ status = queue_eq→eq other status same in
              subst (λ o. at_total show_id o s'.entries ≡ 0) (sym other_is)
                (ground (arith, none_here, later.no_more status active))
          | inr different ↦ none_later other (ground (arith, listed, different))
        ])
      ]
    ];
  }

  pub close_statuses-Pass :
      (now show_id limit : ℕ) (statuses : List QueueStatus) (attempts : Table PaymentAttempt)
      (s : Closed)
      → ((status : QueueStatus)
          → any (queue_eq status) statuses ≡ true
          → is_active_status status ≡ true)
      → s.count ≤ limit
      → Pass show_id limit statuses s (close_statuses now show_id limit statuses attempts s)
  unfolding close_statuses
  close_statuses-Pass now show_id limit [] attempts s active within = record {
    counted = refl;
    within = within;
    onward = ground arith;
    no_more = λ other also. ground arith;
    done = inr (λ other listed. ground arith);
  }
  close_statuses-Pass now show_id limit (status ∷ rest) attempts s active within =
      elim (Bool-cases (leb limit s.count)) [
        | inl full ↦
            subst (Pass show_id limit (status ∷ rest) s) {x = s}
              {y = close_statuses now show_id limit (status ∷ rest) attempts s} (ground arith)
              (record {
                counted = refl;
                within = within;
                onward = ground arith;
                no_more = λ other also. ground arith;
                done = inl (ground arith);
              })
        | inr room ↦
            let rows = take (limit - s.count) (entries_at show_id status s.entries) in
            let step = close_rows now rows attempts s.entries in
            let mid : Closed = record {
              count = s.count + length rows;
              entries = step.0;
              jobs = s.jobs ++ step.1;
            } in
            let status_active = active status (ground (arith, queue_eq_refl status)) in
            let (opened, less, here) =
              close_status-counts now show_id (limit - s.count) status attempts s.entries
                status_active in
            let short = length-take (limit - s.count) (entries_at show_id status s.entries) in
            subst (Pass show_id limit (status ∷ rest) s)
              {x = close_statuses now show_id limit rest attempts mid}
              {y = close_statuses now show_id limit (status ∷ rest) attempts s} (ground arith)
              (Pass-next show_id limit status rest s mid
                (close_statuses now show_id limit rest attempts mid) status_active
                (ground (arith, opened)) (ground arith) less
                (elim here [
                  | inl all_room ↦ inl (ground (arith, all_room))
                  | inr nothing ↦ inr nothing
                ])
                (close_statuses-Pass now show_id limit rest attempts mid
                  (λ other listed. active other (ground (arith, listed))) (ground (arith, short))))
      ]
