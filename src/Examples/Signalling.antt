-- ===== src/Examples/Signalling.antt =====
-- An example of sending signals: the caller repeats "ready".
use bling.Prelude.{◌≡◌, refl, true, List, [], ◌∷◌, String, arith}
use bling.Prelude.Result.{ok}
use bling.Accounts.{require_user_id}
use bling.Store.Rows.{lookup}
use bling.Store.Queries.{get, first, insert}
use bling.Store.InMemory.{in_memory, empty, above}
use bling.Schema.Status.{CallStatus, Role, SignalType}
use bling.Schema.State.{Db}
use bling.Calls.{call_for_participant}
use bling.Signals.{Runtime, send, send_each}
use bling.Signals.Ready.{OneReady, send-OneReady}
use bling.Examples.{caller_at, in_call, queued}

abbrev any_payload : Runtime
any_payload = record { byte_length = λ s. 2; parses = λ s. true }

abbrev ready_twice : List (SignalType × String)
ready_twice = (SignalType.ready, "{}") ∷ (SignalType.ready, "{}") ∷ []

unfoldable one_ready : Db ⦃c = in_memory⦄
unfolding insert in_call
one_ready = record (in_call CallStatus.created) {
  signals =
      insert
        (record { call_id = 1; to = Role.creator; signal_type = SignalType.ready; payload = "{}" })
        empty;
}

ready_sends :
    send ⦃c = in_memory⦄ (caller_at 40) any_payload 1 ready_twice (in_call CallStatus.created)
    ≡ ok one_ready
unfolding send send_each call_for_participant require_user_id get lookup first insert in_call queued
    one_ready above
ready_sends = refl

nothing_sent : OneReady ⦃c = in_memory⦄ (in_call CallStatus.created).signals
unfolding get lookup in_call queued
nothing_sent = λ k to i j s u x y p q. ground arith

send-OneReady_example : OneReady ⦃c = in_memory⦄ one_ready.signals
send-OneReady_example =
    send-OneReady ⦃c = in_memory⦄ (caller_at 40) any_payload 1 ready_twice
      (in_call CallStatus.created) one_ready ready_sends nothing_sent
