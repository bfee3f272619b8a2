-- ===== src/Gateway/Lifecycle.antt =====
-- The handlers that change a runtime, of src/codeagent/gateway/service.py: `runtime_lifecycle`,
-- `runtime_event`, `runtime_heartbeat`, `runtime_context_set`, `runtime_stop` and
-- `_purge_stopped_for_key`. Each runs under the lock of the runtimes. `payload` is the JSON text of an
-- event's payload. The process that `runtime_stop` has stopped elsewhere is left out.
pub mod Untouched
use mathlib.Core.Option
use aimeshchat.Base.{
  ℕ, String, Bool, true, false, not, ◌&&◌, ◌||◌, Option, none, some, List, [], ◌∷◌, ◌==◌, eqb,
  or_else, if◌then◌else◌, Result, ok, err,
}
use aimeshchat.Base.Table.{Table, lookup}
use aimeshchat.Park.Registry
use aimeshchat.Gateway.Model.{ErrorCode, Answer, generation_stale, protocol, not_found}
use aimeshchat.Gateway.Commands.{CmdState, turn_triggered, is_state, advance_ack_chain}
use aimeshchat.Gateway.Runtimes.{
  RuntimeRecord, Presence, alive, dead, Binding, AgentState, agent_running, idle, ended, pending,
  bound, lost, RuntimeStatus, active, stopped, ModelContext, LifecycleEvent, heartbeat,
  reduce_lifecycle,
}
use aimeshchat.Gateway.Control.{
  Control, Command, Detail, text, a_state, states, Update, get_command, update_command,
}
use aimeshchat.Gateway.Events.{Draft, Event, EventStore, append_local}
use aimeshchat.Gateway.State.{Gateway, Peer, online, persist_control_state, try_append}
use aimeshchat.Gateway.Acks.{ack_update}
use aimeshchat.Gateway.Register.{Clock}
use aimeshchat.Gateway.Sweep.{put_record, drop_runtime, is_offline, is_stopped}

abbrev pub draft_of : Clock → RuntimeRecord → String → String → Draft
draft_of clock r kind payload = record {
  runtime_id = r.runtime_id;
  generation = r.generation;
  session_id = r.session_id;
  agent_id = r.agent_id;
  request_id = "";
  run_id = "";
  kind = kind;
  created_at = clock.iso;
  payload = payload;
}

abbrev is_heartbeat : LifecycleEvent → Bool
is_heartbeat heartbeat = true
is_heartbeat _ = false

-- The record after a lifecycle event.
unfoldable pub lifecycle_record : Clock → LifecycleEvent → RuntimeRecord → RuntimeRecord
lifecycle_record clock event r =
    reduce_lifecycle (if is_heartbeat event then record r { last_activity = clock.seconds } else r)
      event

-- `runtime_lifecycle`, for an event of `LIFECYCLE_EVENTS`: the record is returned.
unfoldable pub runtime_lifecycle :
    Clock → String → Gateway → String → LifecycleEvent → Gateway × Answer RuntimeRecord
runtime_lifecycle clock payload g id event = elim (lookup id g.runtimes) [
  | none ↦ (g, if id == "" then err protocol else err not_found)
  | some r ↦
      let r' = lifecycle_record clock event r in
      let saved = persist_control_state clock.utc (put_record id g r') r' in
      if id == ""
      then (g, err protocol)
      else (try_append saved (draft_of clock r' "AGENT_STATUS" payload), ok r')
]

-- What `runtime_event` reads in a payload.
pub record Payload : Type 0 where
  pub agent_state : Option AgentState
  pub binding : Option Binding
  pub command_id : String
  pub turn_id : String

abbrev or_now {ℓ} : {A : Type ℓ} → Option A → A → A
or_now none a = a
or_now (some b) a = b

unfoldable pub event_record : Clock → Draft → Payload → RuntimeRecord → RuntimeRecord
event_record clock d payload r =
    let moved = if d.kind == "TURN_STARTED" then agent_running else r.agent_state in
    record r {
      last_activity = clock.seconds;
      agent_state = or_now payload.agent_state moved;
      binding = or_now payload.binding r.binding;
    }

-- The advance of a command to TURN_TRIGGERED. A command that is unknown, or cannot get there, is left.
unfoldable pub trigger_command : String → Control → String → String → Control
trigger_command now c key turn_id = elim (get_command c key) [
  | none ↦ c
  | some row ↦ elim (advance_ack_chain row.state turn_triggered) [
    | none ↦ c
    | some (final_state, mids) ↦ update_command now c key (
        ack_update turn_id final_state row (
          ("ack", a_state turn_triggered)
          ∷ ("ack_at", text now)
          ∷ ("via", text "runtime_event")
          ∷ ("advanced_from", a_state row.state)
          ∷ ("advanced_through", states mids)
          ∷ []))
  ]
]

unfoldable pub event_trigger : String → Draft → Payload → Gateway → Gateway
event_trigger now d payload g =
    let key = or_else payload.command_id d.request_id in
    if d.kind == "TURN_TRIGGERED" && not (key == "")
    then record g { control = trigger_command now g.control key payload.turn_id }
    else g

abbrev agent_rank : AgentState → ℕ
agent_rank agent_running = 0
agent_rank idle = 1
agent_rank ended = 2

abbrev binding_rank : Binding → ℕ
binding_rank pending = 0
binding_rank bound = 1
binding_rank lost = 2

-- `(record.presence, record.binding, record.agent_state) == before`; the presence is not changed here.
abbrev pub unmoved : RuntimeRecord → RuntimeRecord → Bool
unmoved r r' =
    eqb (binding_rank r.binding) (binding_rank r'.binding)
    && eqb (agent_rank r.agent_state) (agent_rank r'.agent_state)

-- The rest of `runtime_event`, once its event is stored. A state that is not changed is not written
-- again.
unfoldable pub event_stored :
    Clock → Draft → Payload → RuntimeRecord → Gateway → EventStore × Event → Gateway × Answer Event
event_stored clock d payload r g (events, e) =
    let r' = event_record clock d payload r in
    let put = put_record d.runtime_id (record g { events = events }) r' in
    (
      event_trigger clock.utc d payload
          (if unmoved r r' then put else persist_control_state clock.utc put r'),
      ok e,
    )

-- `runtime_event`
unfoldable pub runtime_event : Clock → Gateway → Draft → Payload → Gateway × Answer Event
runtime_event clock g d payload = elim (lookup d.runtime_id g.runtimes) [
  | none ↦ (g, err not_found)
  | some r ↦ elim (append_local g.events d) [
    | err _ ↦ (g, if eqb d.generation r.generation then err protocol else err generation_stale)
    | ok stored ↦
        let done = event_stored clock d payload r g stored in
        if eqb d.generation r.generation then done else (g, err generation_stale)
  ]
]

unfoldable pub wake_peers : RuntimeRecord → Table Peer → Table Peer
wake_peers r [] = []
wake_peers r ((k, peer) ∷ peers) =
    let rest = wake_peers r peers in
    if peer.agent_id == r.agent_id && peer.session_id == r.session_id
    then (k, record peer { status = online }) ∷ rest
    else (k, peer) ∷ rest

-- The heartbeat's record, and what an offline runtime's return has written.
unfoldable pub beat : Clock → String → Gateway → String → RuntimeRecord → Gateway × RuntimeRecord
beat clock payload g id r =
    let awake = record r { last_activity = clock.seconds; presence = alive } in
    let back = record awake { status = active } in
    let told =
      try_append (persist_control_state clock.utc (put_record id g back) back)
        (draft_of clock back "AGENT_STATUS" payload) in
    if is_offline r.status
    then (record told { peers = wake_peers back told.peers }, back)
    else (put_record id g awake, awake)

unfoldable pub renew_park : ℕ → Gateway → RuntimeRecord → Gateway
renew_park now g r =
    if r.review_key == "" then g else record g { park = Registry.renew now g.park r.review_key }

-- `runtime_heartbeat`: the status is returned.
unfoldable pub runtime_heartbeat :
    Clock → String → Gateway → String → Gateway × Answer RuntimeStatus
runtime_heartbeat clock payload g id = elim (lookup id g.runtimes) [
  | none ↦ (g, err not_found)
  | some r ↦
      let (g', r') = beat clock payload g id r in (renew_park clock.seconds g' r', ok r'.status)
]

abbrev pub fits : Option ℕ → RuntimeRecord → Bool
fits none r = true
fits (some n) r = eqb n r.generation

-- `runtime_context_set`. A generation that is given must be the runtime's.
unfoldable pub runtime_context_set :
    Clock → Gateway → String → ModelContext → Option ℕ → Gateway × Answer ModelContext
runtime_context_set clock g id context generation = elim (lookup id g.runtimes) [
  | none ↦ (g, if id == "" then err protocol else err not_found)
  | some r ↦
      let r' = record r { model_context = some context } in
      if id == ""
      then (g, err protocol)
      else if fits generation r
      then (persist_control_state clock.utc (put_record id g r') r', ok context)
      else (g, err generation_stale)
]

-- `_purge_stopped_for_key`, over the runtimes that are there.
unfoldable pub purge_stopped : String → String → Table RuntimeRecord → Gateway → Gateway
purge_stopped review_key kept [] g = g
purge_stopped review_key kept ((rid, r) ∷ rows) g =
    let gone = purge_stopped review_key kept rows (drop_runtime rid g) in
    let stayed = purge_stopped review_key kept rows g in
    if r.review_key == review_key && (is_stopped r.status && not (rid == kept))
    then gone
    else stayed

abbrev pub stopped_record : RuntimeRecord → RuntimeRecord
stopped_record r = record r { status = stopped; agent_state = ended; presence = dead }

-- `runtime_stop`. The event's exception is not caught.
unfoldable pub runtime_stop : Clock → String → Gateway → String → Gateway × Answer (Unit {0})
runtime_stop clock payload g id = elim (lookup id g.runtimes) [
  | none ↦ (g, err not_found)
  | some r ↦
      let r' = stopped_record r in
      let saved = persist_control_state clock.utc (put_record id g r') r' in
      elim (append_local saved.events (draft_of clock r' "RUNTIME_STATE" payload)) [
        | err _ ↦ (saved, err protocol)
        | ok (events, e) ↦
            let told = record saved { events = events } in
            let purged = purge_stopped r.review_key id told.runtimes told in
            (if r.review_key == "" then told else purged, ok tt)
      ]
]
