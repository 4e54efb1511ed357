-- ===== src/Signals/Ready.antt =====
-- The "ready" signals that wait (frontend/convex/signals.ts, `send`).
use bling.Prelude.{
  ℕ, ◌≡◌, ◌≢◌, inl, inr, Bool, true, false, ◌&&◌, Option, none, some, arith, List, [], ◌∷◌,
  if◌then◌else◌, is_some, or_else, String, Bool-cases, subst,
}
use bling.Prelude.Result.{ok, Result-cases}
use bling.Store.Interface.{Convex}
use bling.Store.Queries.{Table, get, first, first-none, insert, get-insert}
use bling.Schema.Status.{Role, SignalType, role_eq, signal_eq}
use bling.Schema.Docs.{CallSignal}
use bling.Schema.State.{Env, Db}
use bling.Calls.{call_for_participant}
use bling.Signals.{Runtime, send, send_each, is_ready_for, other}

role_eq→eq : (a b : Role) → role_eq a b ≡ true → a ≡ b
role_eq→eq a b h = ground arith

-- Where the flag was never false and nothing is known to wait, nothing waits.
none_waits :
    {A : Type 0} (pending : Option Bool) (o : Option A)
    → pending ≢ some false
    → or_else pending (is_some o) ≡ false
    → o ≡ none
none_waits pending o read h = ground arith

module _ ⦃c : Convex⦄ where
  -- No two "ready" signals of a call wait for the same participant.
  abbrev pub OneReady : Table CallSignal → Type 0
  OneReady t =
      (call_id : ℕ) (to : Role) (i j : ℕ) (s u : CallSignal)
      → get t i ≡ some s
      → get t j ≡ some u
      → is_ready_for call_id to s ≡ true
      → is_ready_for call_id to u ≡ true
      → i ≡ j

  OneReady-insert :
      (d : CallSignal) (t : Table CallSignal)
      → (signal_eq d.signal_type SignalType.ready ≡ true
          → first (is_ready_for d.call_id d.to) t ≡ none)
      → OneReady t
      → OneReady (insert d t)
  OneReady-insert d t free h call_id to i j s u x y p q = ground (
    arith,
    get-insert d t i,
    get-insert d t j,
    h call_id to i j s u,
    role_eq→eq d.to to,
    first-none (is_ready_for d.call_id d.to) t i s,
    first-none (is_ready_for d.call_id d.to) t j u,
  )

  send_each-OneReady :
      (env : Runtime) (call_id : ℕ) (role : Role) (signals : List (SignalType × String))
      (pending : Option Bool) (t t' : Table CallSignal)
      → send_each env call_id role signals pending t ≡ ok t'
      → pending ≢ some false
      → OneReady t
      → OneReady t'
  unfolding send_each
  send_each-OneReady env call_id role [] pending t t' h read one = subst OneReady (ground arith) one
  send_each-OneReady env call_id role ((type, payload) ∷ rest) pending t t' h read one =
      let signal : CallSignal = record {
        call_id = call_id;
        to = other role;
        signal_type = type;
        payload = payload;
      } in
      let ready = signal_eq type SignalType.ready in
      let waits = or_else pending (is_some (first (is_ready_for call_id (other role)) t)) in
      let next = if ready && waits then t else insert signal t in
      send_each-OneReady env call_id role rest (if ready then some true else pending) next t'
        (ground arith) (ground arith)
        (elim (Bool-cases (ready && waits)) [
          | inl repeated ↦ rw repeated one
          | inr fresh ↦ rw fresh (
              OneReady-insert signal t
                (λ r.
                  ground (arith, none_waits pending (first (is_ready_for call_id (other role)) t)))
                one)
        ])

  -- A send that succeeds keeps the "ready" signals to one for each participant of a call, however often
  -- the caller repeats it.
  pub send-OneReady :
      (env : Env) (runtime : Runtime) (call_id : ℕ) (signals : List (SignalType × String))
      (db db' : Db)
      → send env runtime call_id signals db ≡ ok db'
      → OneReady db.signals
      → OneReady db'.signals
  unfolding send
  send-OneReady env runtime call_id signals db db' h one =
      elim (Result-cases (call_for_participant env call_id db)) [
        | inl (x, failing) ↦ ground arith
        | inr ((call, role), found) ↦
            elim (Result-cases (send_each runtime call_id role signals none db.signals)) [
              | inl (x, failing) ↦ ground arith
              | inr (sent, done) ↦ subst OneReady (ground arith) (
                  send_each-OneReady runtime call_id role signals none db.signals sent done
                    (λ e. ground arith) one)
            ]
      ]
