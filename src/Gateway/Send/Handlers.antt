-- ===== src/Gateway/Send/Handlers.antt =====
-- The gateway's handlers, as what may happen while a send waits. `message_send`, which hands a request id
-- of its caller's choice to the mailbox service and enters no command, is not among them.
use mathlib.Core.Option
use aimeshchat.Base.{
  ℕ, Option, String, ◌≡◌, refl, sym, ap, ◌∙◌, List, [], ◌∷◌, eq_iff, count, arith, ok, err,
}
use aimeshchat.Base.Table.{lookup}
use aimeshchat.Gateway.Model.{Answer}
use aimeshchat.Gateway.Runtimes.{ModelContext, LifecycleEvent}
use aimeshchat.Gateway.Control.{Control, get_command, upsert_generation}
use aimeshchat.Gateway.Events.{Draft}
use aimeshchat.Gateway.State.{Gateway, persist_control_state, try_append}
use aimeshchat.Gateway.Acks.{Ack, Reply, runtime_command_ack}
use aimeshchat.Gateway.Acks.Accepted.{AckHolds, runtime_command_ack-AckHolds}
use aimeshchat.Gateway.Register.{Clock, Desk, Registration, Welcome, runtime_register}
use aimeshchat.Gateway.Register.Admission.{RegisterHolds, runtime_register-RegisterHolds}
use aimeshchat.Gateway.Sweep.{Limits, put_record, sweep_once}
use aimeshchat.Gateway.Send.Quiet.{context_keeps, stop_keeps, sweep_keeps}
use aimeshchat.Gateway.Claims.{session_claim, session_release}
use aimeshchat.Gateway.Lifecycle.{
  Payload, runtime_lifecycle, runtime_event, runtime_heartbeat, beat, renew_park, event_stored,
  event_trigger, runtime_context_set, runtime_stop,
}
use aimeshchat.Gateway.Lifecycle.Untouched.{runtime_event-keeps_commands}
use aimeshchat.Gateway.Send.Steps.{hash_at, is_for, IsOnce, Grows, IsSafe}
use aimeshchat.Gateway.Send.Once.{runtime_send-IsSafe}
use aimeshchat.Gateway.Send.Steps.{IsFair}
use aimeshchat.Gateway.Send.{Send, Around, runtime_send}

-- A call of another thread.
pub data Activity : Type 0 where
  acks : String → Ack → Activity
  registers : Clock → Desk → Registration → Activity
  lifecycles : Clock → String → String → LifecycleEvent → Activity
  events : Clock → Draft → Payload → Activity
  beats : Clock → String → String → Activity
  contexts : Clock → String → ModelContext → Option ℕ → Activity
  stops : Clock → String → String → Activity
  claims : (now : ℕ) → String → String → String → (ttl : ℕ) → Activity
  releases : String → String → String → Activity
  sweeps : Limits → Clock → Activity
  sends : (around : Around) → Send → IsFair around → Activity

unfoldable pub perform : Activity → Gateway → Gateway
perform (acks now a) g = record g { control = (runtime_command_ack now (λ d. d) g.control a).0 }
perform (registers clock desk p) g = (runtime_register clock desk g p).0
perform (lifecycles clock payload id event) g = (runtime_lifecycle clock payload g id event).0
perform (events clock d payload) g = (runtime_event clock g d payload).0
perform (beats clock payload id) g = (runtime_heartbeat clock payload g id).0
perform (contexts clock id context generation) g =
    (runtime_context_set clock g id context generation).0
perform (stops clock payload id) g = (runtime_stop clock payload g id).0
perform (claims now session_id agent_id owner ttl) g = record g {
  claims = (session_claim now g.claims session_id agent_id owner ttl).0;
}
perform (releases session_id agent_id owner) g = record g {
  claims = (session_release g.claims session_id agent_id owner).0;
}
perform (sweeps limits clock) g = (sweep_once limits clock g).0
perform (sends around p fair) g = (runtime_send around g p).0

unfoldable pub perform_all : List Activity → Gateway → Gateway
perform_all [] g = g
perform_all (a ∷ rest) g = perform_all rest (perform a g)

-- Hashes and messages that stay make a safe step.
same-Grows :
    (g g' : Gateway)
    → ((id : String) → hash_at g' id ≡ hash_at g id)
    → g'.sent ≡ g.sent
    → Grows g g'
same-Grows g g' h s once = (
  λ id. (
    ground (arith, (once id).0, ap (count (is_for id)) s),
    λ e. ap (count (is_for id)) s ∙ (once id).1 (sym (h id) ∙ e),
  ),
  λ id hash e. (h id ∙ e, ap (count (is_for id)) s),
)

commands-hash_at :
    (g g' : Gateway) (id : String)
    → g'.control.commands ≡ g.control.commands
    → hash_at g' id ≡ hash_at g id
unfolding hash_at get_command
commands-hash_at g g' id e = ap (λ t. Option.map (λ row. row.payload_hash) (lookup id t)) e

commands-Grows :
    (g g' : Gateway) → (g'.control.commands ≡ g.control.commands) × (g'.sent ≡ g.sent) → Grows g g'
commands-Grows g g' (c, s) = same-Grows g g' (λ id. commands-hash_at g g' id c) s

ack_hash :
    (g : Gateway) (a : Ack) (o : Control × Answer Reply) (id : String)
    → AckHolds g.control a o
    → hash_at (record g { control = o.0 }) id ≡ hash_at g id
unfolding hash_at
ack_hash g a (c', err e) id h = ap (λ c. Option.map (λ row. row.payload_hash) (get_command c id)) h
ack_hash g a (c', ok reply) id h =
    ground (arith, h.is_there id, eq_iff a.request_id id, h.was_there, h.keeps)

register_keeps :
    (desk : Desk) (g : Gateway) (p : Registration) (o : Gateway × Answer Welcome)
    → RegisterHolds desk g p o
    → (o.0.control.commands ≡ g.control.commands) × (o.0.sent ≡ g.sent)
register_keeps desk g p (g', err e) h = (ap (λ x. x.control.commands) h, ap (λ x. x.sent) h)
register_keeps desk g p (g', ok w) h = (h.keeps_commands, h.keeps_sent)

lifecycle_keeps :
    (clock : Clock) (payload : String) (g : Gateway) (id : String) (event : LifecycleEvent)
    → ((runtime_lifecycle clock payload g id event).0.control.commands ≡ g.control.commands)
      × ((runtime_lifecycle clock payload g id event).0.sent ≡ g.sent)
unfolding runtime_lifecycle try_append put_record persist_control_state upsert_generation
lifecycle_keeps clock payload g id event = (ground arith, ground arith)

beat_keeps :
    (clock : Clock) (payload : String) (g : Gateway) (id : String)
    → ((runtime_heartbeat clock payload g id).0.control.commands ≡ g.control.commands)
      × ((runtime_heartbeat clock payload g id).0.sent ≡ g.sent)
unfolding runtime_heartbeat beat renew_park try_append put_record persist_control_state
    upsert_generation
beat_keeps clock payload g id = (ground arith, ground arith)

event_sent :
    (clock : Clock) (g : Gateway) (d : Draft) (payload : Payload)
    → (runtime_event clock g d payload).0.sent ≡ g.sent
unfolding runtime_event event_stored event_trigger put_record persist_control_state
event_sent clock g d payload = ground arith

-- Each of these handlers is a safe activity, and so is a send whose own waits are fair.
pub perform-IsSafe : (a : Activity) → IsSafe (perform a)
unfolding perform
perform-IsSafe (acks now a) g =
    same-Grows g _ (λ id. ack_hash g a _ id (runtime_command_ack-AckHolds now g.control a)) refl
perform-IsSafe (registers clock desk p) g =
    commands-Grows g _ (register_keeps desk g p _ (runtime_register-RegisterHolds clock desk g p))
perform-IsSafe (lifecycles clock payload id event) g =
    commands-Grows g _ (lifecycle_keeps clock payload g id event)
perform-IsSafe (events clock d payload) g =
    commands-Grows g _
      (runtime_event-keeps_commands clock g d payload, event_sent clock g d payload)
perform-IsSafe (beats clock payload id) g = commands-Grows g _ (beat_keeps clock payload g id)
perform-IsSafe (contexts clock id context generation) g =
    commands-Grows g _ (context_keeps clock g id context generation)
perform-IsSafe (stops clock payload id) g = commands-Grows g _ (stop_keeps clock payload g id)
perform-IsSafe (claims now session_id agent_id owner ttl) g = commands-Grows g _ (refl, refl)
perform-IsSafe (releases session_id agent_id owner) g = commands-Grows g _ (refl, refl)
perform-IsSafe (sweeps limits clock) g = commands-Grows g _ (sweep_keeps limits clock g)
perform-IsSafe (sends around p fair) g = runtime_send-IsSafe around p fair g

-- Whatever acks, registrations, lifecycle and producer events, heartbeats, contexts, stops, claims,
-- releases, sweeps and runtime sends run, in whatever order and also while sends wait, no request id ever
-- has more than one mailbox message, or one without a command, if that is so at the start.
pub perform_all-IsOnce :
    (list : List Activity) (g : Gateway) → IsOnce g → IsOnce (perform_all list g)
unfolding perform_all
perform_all-IsOnce [] g once = once
perform_all-IsOnce (a ∷ rest) g once =
    perform_all-IsOnce rest (perform a g) (perform-IsSafe a g once).0
