-- ===== src/Gateway/Send.antt =====
-- `runtime_send` of src/codeagent/gateway/service.py. What other threads do to the gateway while a send
-- waits is given with the send, as functions on the gateway: between its first reading and its
-- insert, while the mailbox writes, at each poll for the binding, while the park revives. The outcomes
-- of the mailbox service and of the park are given too; what they were asked is recorded in `sent`.
use mathlib.Core.Option
pub mod Steps
pub mod Once
pub mod Replay
pub mod Quiet
pub mod Handlers
use aimeshchat.Base.{
  ℕ, String, Bool, true, false, not, ◌&&◌, ◌||◌, Option, none, some, List, [], ◌∷◌, ◌++◌, ◌==◌, eqb,
  or_else, if◌then◌else◌, Result, ok, err,
}
use aimeshchat.Base.Table.{lookup}
use aimeshchat.Gateway.Model.{
  ErrorCode, Answer, unsupported_runtime, protocol, not_found, idempotency_conflict,
}
use aimeshchat.Gateway.Commands.{CmdState, queued, reviving, failed_safe}
use aimeshchat.Gateway.Runtimes.{
  RuntimeRecord, Presence, alive, stale, dead, Binding, pending, is_bound, AgentState,
  agent_running, idle, ended, is_hot, has_consumer, is_alive,
}
use aimeshchat.Gateway.Control.{
  Control, Command, Detail, DetailValue, text, a_presence, a_binding, an_agent_state, Update,
  no_update, get_command, enqueue_command, update_command,
}
use aimeshchat.Gateway.State.{Gateway, Envelope}
use aimeshchat.Gateway.Acks.{Reply, command_result, result_for}

pub record Send : Type 0 where
  pub runtime_id : String
  pub request_id : String
  pub payload_hash : String
  pub sender : String
  pub subject : String
  pub body : String
  pub kind : String
  pub reply_to : String
  pub run_id : String
  pub require_ack : Bool
  pub wait_binding : Bool

pub data Method : Type 0 where
  hot warm cold : Method
  other : String → Method

pub record Revival : Type 0 where
  pub success : Bool
  pub method : Method

-- What a send meets. `polls` has one entry for each poll before the deadline.
pub record Around : Type 0 where
  pub now : String
  pub sha256 : String → String
  pub command_id : String
  pub racing : Gateway → Gateway
  pub delivered : Result String String
  pub delivering : Gateway → Gateway
  pub polls : List (Gateway → Gateway)
  pub revived : Result String Revival
  pub reviving_park : Gateway → Gateway

abbrev pub method_text : Method → String
method_text hot = "hot"
method_text warm = "warm"
method_text cold = "cold"
method_text (other m) = m

unfoldable pub note : String → Gateway → String → Update → Gateway
note now g id u = record g { control = update_command now g.control id u }

abbrev pub set_state : CmdState → Detail → Update
set_state s d = record no_update { state = some s; detail = some d }

abbrev pub three : RuntimeRecord → Detail
three r =
    ("presence", a_presence r.presence)
    ∷ ("binding", a_binding r.binding)
    ∷ ("agent_state", an_agent_state r.agent_state)
    ∷ []

-- `update_command(…)` and then `return self._command_result(self._control.get_command(request_id))`.
unfoldable pub settle : String → Gateway → String → Update → Gateway × Answer Reply
settle now g id u = let g' = note now g id u in (g', result_for g'.control id)

-- `self._runtimes.get(runtime_id)`, or the record that is at hand.
abbrev pub reread : Gateway → String → RuntimeRecord → RuntimeRecord
reread g id r = elim (lookup id g.runtimes) [ some cur ↦ cur | none ↦ r ]

-- The loop under `wait_binding`.
unfoldable pub wait_bound :
    List (Gateway → Gateway) → String → Gateway → RuntimeRecord → Gateway × RuntimeRecord
wait_bound [] id g r = (g, r)
wait_bound (poll ∷ polls) id g r =
    let g' = poll g in
    let rest = wait_bound polls id g' (reread g' id r) in
    if is_bound r.binding then (g, r) else rest

abbrev pub is_pending : Binding → Bool
is_pending pending = true
is_pending _ = false

abbrev pub waits : Send → RuntimeRecord → Bool
waits p r = p.wait_binding && (is_pending r.binding && is_alive r.presence)

unfoldable pub maybe_wait : Around → Send → Gateway → RuntimeRecord → Gateway × RuntimeRecord
maybe_wait around p g r =
    let waited = wait_bound around.polls p.runtime_id g r in if waits p r then waited else (g, r)

-- What is noted after the park was asked.
unfoldable pub revival_update : Result String Revival → Update
revival_update (err e) = set_state failed_safe (("revive_error", text e) ∷ [])
revival_update (ok rv) =
    if rv.success
    then (elim rv.method [
      | hot ↦ set_state reviving (("revive", text "hot") ∷ [])
      | warm ↦ set_state reviving (("revive", text "warm") ∷ [])
      | cold ↦ set_state queued (("gate", text "binding_pending") ∷ ("revive", text "cold") ∷ [])
      | other m ↦ set_state failed_safe (("revive_failed", text m) ∷ [])
    ])
    else set_state failed_safe (("revive_failed", text (method_text rv.method)) ∷ [])

unfoldable pub send_revive : Around → Send → Gateway → RuntimeRecord → Gateway × Answer Reply
send_revive around p g r =
    let started = note around.now g p.request_id (record no_update {
      state = some reviving;
      binding_epoch = some r.binding_epoch;
      backend_session_id = some r.backend_session_id;
      detail =
          some (("revive", text "starting") ∷ ("agent_state", an_agent_state r.agent_state) ∷ []);
    }) in
    settle around.now (around.reviving_park started) p.request_id (revival_update around.revived)

abbrev pub is_ended : AgentState → Bool
is_ended ended = true
is_ended _ = false

-- From the gate on, for the record that was read last.
unfoldable pub send_gate : Around → Send → Gateway × RuntimeRecord → Gateway × Answer Reply
send_gate around p (g, r) =
    let revived = send_revive around p g r in
    if not (is_hot r)
    then (if not (is_bound r.binding)
        then settle around.now g p.request_id
            (set_state queued (("gate", text "binding_pending") ∷ three r))
        else settle around.now g p.request_id
            (set_state queued (("gate", text "not_hot") ∷ three r)))
    else if is_ended r.agent_state
    then revived
    else (g, result_for g.control p.request_id)

abbrev pub envelope : Send → RuntimeRecord → Envelope
envelope p r = record {
  session_id = r.session_id;
  from_id = p.sender;
  to_id = r.agent_id;
  subject = p.subject;
  body = p.body;
  kind = p.kind;
  reply_to = p.reply_to;
  run_id = p.run_id;
  request_id = p.request_id;
  command_id = p.request_id;
  require_ack = p.require_ack;
}

-- The note that the mailbox has the message.
unfoldable pub mark_mailed : Around → Send → String → Gateway → Gateway
mark_mailed around p msg_id g = note around.now g p.request_id (record no_update {
  state = some queued;
  msg_id = some msg_id;
  detail = some (("mailbox", text "persisted") ∷ ("msg_id", text msg_id) ∷ []);
})

-- The mailbox write and what follows it. An error is an exception or a receipt that says failed.
unfoldable pub send_mail :
    Around → Send → Gateway → RuntimeRecord → Result String String → Gateway × Answer Reply
send_mail around p g r (err reason) =
    settle around.now (around.delivering g) p.request_id
      (set_state failed_safe (("reason", text reason) ∷ []))
send_mail around p g r (ok msg_id) =
    let mailed = around.delivering (record g { sent = g.sent ++ envelope p r ∷ [] }) in
    let marked = mark_mailed around p msg_id mailed in
    send_gate around p (maybe_wait around p marked (reread marked p.runtime_id r))

-- After the insert.
unfoldable pub send_queued : Around → Send → Gateway → RuntimeRecord → Gateway × Answer Reply
send_queued around p g r =
    let mailed = send_mail around p g r around.delivered in
    let refused = note around.now g p.request_id (
      set_state failed_safe
        (("gate", text "no_plugin_consumer") ∷ ("backend", text r.runtime) ∷ three r)) in
    if has_consumer r then mailed else (refused, err unsupported_runtime)

abbrev pub new_row : Around → Send → String → RuntimeRecord → Command
new_row around p hash r = record {
  request_id = p.request_id;
  command_id = around.command_id;
  msg_id = "";
  turn_id = "";
  runtime_id = p.runtime_id;
  generation = r.generation;
  payload_hash = hash;
  state = queued;
  binding_epoch = r.binding_epoch;
  backend_session_id = r.backend_session_id;
  created_at = around.now;
  updated_at = around.now;
  detail = [];
}

unfoldable pub send_new : Around → Send → String → Gateway → RuntimeRecord → Gateway × Answer Reply
send_new around p hash g r =
    let (c, created) = enqueue_command g.control (new_row around p hash r) in
    let queued_send = send_queued around p (record g { control = c }) r in
    if created then queued_send else (g, result_for g.control p.request_id)

abbrev pub replay : String → Command → Answer Reply
replay hash row =
    if row.payload_hash == hash then ok (command_result row) else err idempotency_conflict

unfoldable pub send_checked :
    Around → Send → String → Gateway → RuntimeRecord → Gateway × Answer Reply
send_checked around p hash g r = elim (get_command g.control p.request_id) [
  | some row ↦ (g, replay hash row)
  | none ↦ send_new around p hash (around.racing g) r
]

abbrev pub hash_of : Around → Send → String
hash_of around p = or_else p.payload_hash (around.sha256 p.body)

-- `runtime_send`
unfoldable pub runtime_send : Around → Gateway → Send → Gateway × Answer Reply
runtime_send around g p = elim (lookup p.runtime_id g.runtimes) [
  | none ↦ (g, if p.runtime_id == "" || p.request_id == "" then err protocol else err not_found)
  | some r ↦
      let sent = send_checked around p (hash_of around p) g r in
      if (p.runtime_id == "" || p.request_id == "") || hash_of around p == ""
      then (g, err protocol)
      else sent
]
