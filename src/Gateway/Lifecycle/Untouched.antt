-- ===== src/Gateway/Lifecycle/Untouched.antt =====
-- What the handlers on runtimes never touch.
use aimeshchat.Base.{
  ◌≡◌, refl, false, some, ◌==◌, eq_of_test, arith, Bool-cases, Option-cases, inl, inr, Result, ok,
  err,
}
use aimeshchat.Base.Table.{lookup}
use aimeshchat.Gateway.Runtimes.{RuntimeRecord}
use aimeshchat.Gateway.Control.{upsert_generation}
use aimeshchat.Gateway.Events.{
  Draft, Event, EventStore, StoreError, validate, known_kind, append_local,
}
use aimeshchat.Gateway.State.{Gateway, persist_control_state}
use aimeshchat.Gateway.Register.{Clock}
use aimeshchat.Gateway.Sweep.{put_record}
use aimeshchat.Gateway.Lifecycle.{Payload, event_trigger, event_stored, runtime_event}

-- TURN_TRIGGERED is no kind of event that the store takes.
triggered_unknown : (d : Draft) → d.kind ≡ "TURN_TRIGGERED" → validate d ≡ false
unfolding validate known_kind
triggered_unknown d h = rw h (ground arith)

taken_kind :
    (s : EventStore) (d : Draft) (x : EventStore × Event)
    → append_local s d ≡ ok x
    → (d.kind == "TURN_TRIGGERED") ≡ false
unfolding append_local
taken_kind s d x h = elim (Bool-cases (d.kind == "TURN_TRIGGERED")) [
  | inl e ↦ absurd (ground (arith, triggered_unknown d (eq_of_test d.kind "TURN_TRIGGERED" e)))
  | inr e ↦ e
]

stored_keeps :
    (clock : Clock) (d : Draft) (payload : Payload) (r : RuntimeRecord) (g : Gateway)
    (x : EventStore × Event)
    → (d.kind == "TURN_TRIGGERED") ≡ false
    → (event_stored clock d payload r g x).0.control.commands ≡ g.control.commands
unfolding event_stored event_trigger put_record persist_control_state upsert_generation
stored_keeps clock d payload r g (events, e) h = ground arith

event_cases :
    (clock : Clock) (g : Gateway) (d : Draft) (payload : Payload) (r : RuntimeRecord)
    (o : Result StoreError (EventStore × Event))
    → lookup d.runtime_id g.runtimes ≡ some r
    → append_local g.events d ≡ o
    → (runtime_event clock g d payload).0.control.commands ≡ g.control.commands
unfolding runtime_event
event_cases clock g d payload r (err x) l e = ground arith
event_cases clock g d payload r (ok x) l e =
    ground (arith, stored_keeps clock d payload r g x (taken_kind g.events d x e))

-- No event of a producer changes a command: the store refuses TURN_TRIGGERED, the one kind for which the
-- handler would advance one.
pub runtime_event-keeps_commands :
    (clock : Clock) (g : Gateway) (d : Draft) (payload : Payload)
    → (runtime_event clock g d payload).0.control.commands ≡ g.control.commands
unfolding runtime_event
runtime_event-keeps_commands clock g d payload =
    elim (Option-cases (lookup d.runtime_id g.runtimes)) [
      | inl e ↦ ground arith
      | inr (r, e) ↦ event_cases clock g d payload r _ e refl
    ]
