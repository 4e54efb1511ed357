-- ===== src/Examples/Sessions.antt =====
-- Examples of calls, shows and presence.
use bling.Prelude.{◌*◌, ◌≡◌, refl, none, some, List, [], ◌∷◌, arith, ◌<◌, ◌++◌, ◌+◌}
use bling.Shows.Ending.{end-empties}
use bling.Shows.Batches.{batches_due, run_batches}
use bling.Presence.Silence.{silence_fails_call}
use bling.Prelude.Result.{ok}
use bling.Accounts.{require_user_id, require_creator_id}
use bling.Store.Rows.{lookup, replace_row}
use bling.Store.Queries.{get, first, insert, patch}
use bling.Store.InMemory.{in_memory, empty, above}
use bling.Schema.Status.{CallStatus, Role}
use bling.Schema.Docs.{CallPresence, Call}
use bling.Schema.State.{Env, Db, run_at, check_seen, check_grace}
use bling.Calls.{call_for_participant, apply_transition, active_call_for_show}
use bling.Presence.{heartbeat, presence_row, check_seen_at, check_grace_at}
use bling.Presence.Grace.{heartbeat_keeps_call}
use bling.Shows
use bling.Shows.Emptying.{open_total}
use bling.Store.Totals.{total, total_rows}
use bling.Shows.Lifecycle.{OneLive}
use bling.System.{Op, serve, committed}
use bling.System.Calls.{serve-IsSound}
use bling.System.Hotlines.{serve-OneLive}
use bling.System.Steps.{IsSound}
use bling.Examples.{creator_at, caller_at, call, in_call, queued, waiting_entry, live_show}

one_call-IsSound : IsSound ⦃c = in_memory⦄ (in_call CallStatus.created).calls
unfolding get lookup insert in_call above
one_call-IsSound = (λ i j k l a b x y s. ground arith, λ i k a. ground arith)

-- The call connects, goes live and ends.
abbrev history : List (Env × Op)
history =
    (creator_at 40, Op.move_call 1 CallStatus.connecting)
    ∷ (caller_at 41, Op.move_call 1 CallStatus.live)
    ∷ (creator_at 50, Op.end_show 1)
    ∷ []

serve-IsSound_example : IsSound ⦃c = in_memory⦄ (serve (in_call CallStatus.created) history).calls
serve-IsSound_example =
    serve-IsSound ⦃c = in_memory⦄ (in_call CallStatus.created) history one_call-IsSound

one_show-OneLive : OneLive ⦃c = in_memory⦄ (in_call CallStatus.created).shows
unfolding get lookup insert in_call queued above
one_show-OneLive = λ i j k l a b x y s. ground arith

serve-OneLive_example : OneLive ⦃c = in_memory⦄ (serve (in_call CallStatus.created) history).shows
serve-OneLive_example =
    serve-OneLive ⦃c = in_memory⦄ (in_call CallStatus.created) history one_show-OneLive

-- The caller's heartbeat at 60 makes the checks of 45 idle.
unfoldable seen_caller : Db ⦃c = in_memory⦄
unfolding in_call insert above
seen_caller = record (in_call CallStatus.live) {
  presence =
      insert (record { call_id = 1; role = Role.viewer; last_seen_at = 60; disconnected_at = none })
        empty;
  jobs = run_at 30060 (check_seen 1 Role.viewer 60);
}

caller_beats : heartbeat ⦃c = in_memory⦄ (caller_at 60) 1 (in_call CallStatus.live) ≡ ok seen_caller
unfolding heartbeat get lookup insert in_call queued above seen_caller presence_row first
    call_for_participant require_user_id
caller_beats = refl

caller_takes_part :
    call_for_participant ⦃c = in_memory⦄ (caller_at 60) 1 (in_call CallStatus.live)
    ≡ ok (call CallStatus.live, Role.viewer)
unfolding get lookup insert in_call queued above call_for_participant require_user_id
caller_takes_part = refl

heartbeat_keeps_call_example :
    (check_grace_at ⦃c = in_memory⦄ (creator_at 65) 1 Role.viewer 45 seen_caller ≡ ok seen_caller)
    × (check_seen_at ⦃c = in_memory⦄ (creator_at 65) 1 Role.viewer 45 seen_caller ≡ seen_caller)
heartbeat_keeps_call_example =
    heartbeat_keeps_call ⦃c = in_memory⦄ (caller_at 60) (creator_at 65) 1 45
      (in_call CallStatus.live) seen_caller (call CallStatus.live, Role.viewer) caller_beats
      caller_takes_part (omega arith)

abbrev caller_seen : CallPresence
caller_seen = record { call_id = 1; role = Role.viewer; last_seen_at = 60; disconnected_at = none }

caller_has_row :
    presence_row ⦃c = in_memory⦄ 1 Role.viewer seen_caller.presence ≡ some (1, caller_seen)
unfolding presence_row first insert in_call seen_caller above
caller_has_row = refl

entry_there :
    get ⦃c = in_memory⦄ (in_call CallStatus.live).entries (call CallStatus.live).queue_entry_id
    ≡ some waiting_entry
unfolding get lookup insert in_call queued above
entry_there = refl

-- The caller is heard of at 60 for the last time; the checks are late.
silence_fails_call_example :
    let marked = check_seen_at ⦃c = in_memory⦄ (creator_at 30065) 1 Role.viewer 60 seen_caller in
    (seen_caller.jobs
      ≡ (in_call CallStatus.live).jobs ++ run_at (60 + 30000) (check_seen 1 Role.viewer 60))
    × (marked.jobs ≡ seen_caller.jobs ++ run_at (30065 + 20000) (check_grace 1 Role.viewer 30065))
    × ((ended : Db ⦃c = in_memory⦄) × (failed : Call) × (check_grace_at ⦃c = in_memory⦄
            (creator_at 50070)
            1
            Role.viewer
            30065
            marked
          ≡ ok ended)
        × (get ended.calls 1 ≡ some failed)
        × (failed.status ≡ CallStatus.failed))
silence_fails_call_example =
    silence_fails_call ⦃c = in_memory⦄ (caller_at 60) (creator_at 30065) (creator_at 50070) 1
      (call CallStatus.live) Role.viewer waiting_entry (in_call CallStatus.live) seen_caller
      caller_beats caller_takes_part entry_there

-- The show is ended while its call is open, before it connects.
unfoldable after_end : Db ⦃c = in_memory⦄
after_end =
    committed (Shows.end (creator_at 80) 1 (in_call CallStatus.created))
      (in_call CallStatus.created)

ends : Shows.end ⦃c = in_memory⦄ (creator_at 80) 1 (in_call CallStatus.created) ≡ ok after_end
unfolding Shows.end Shows.close_show Shows.end_open_call apply_transition get lookup insert patch
    in_call queued above after_end require_creator_id active_call_for_show first
ends = refl

live_there : get ⦃c = in_memory⦄ (in_call CallStatus.created).shows 1 ≡ some live_show
unfolding get lookup insert in_call queued above
live_there = refl

idle : batches_due 1 (in_call CallStatus.created).jobs ≡ 0
unfolding batches_due in_call queued
idle = refl

one_open : open_total ⦃c = in_memory⦄ 1 after_end.entries < 2 * 200
unfolding Shows.end Shows.close_show Shows.end_open_call apply_transition get lookup insert patch
    in_call queued above after_end require_creator_id total total_rows active_call_for_show first
    replace_row
one_open = omega arith

end-empties_example :
    let after = run_batches ⦃c = in_memory⦄ (creator_at 81 ∷ creator_at 95 ∷ []) 1 after_end in
    (open_total 1 after.entries ≡ 0) × (batches_due 1 after.jobs ≡ 0)
end-empties_example =
    end-empties ⦃c = in_memory⦄ (creator_at 80) (creator_at 81 ∷ creator_at 95 ∷ []) 1 live_show
      (in_call CallStatus.created) after_end ends live_there refl idle one_open
