-- ===== src/Gateway/Acks.antt =====
-- The acks of the plugin, `runtime_command_ack` of src/codeagent/gateway/service.py, and what is told
-- of a command, `_command_result` and `runtime_command_status`. The read of the row and its write are
-- two transactions: `meanwhile` is what other threads do to the tables between them.
pub mod Accepted
pub mod Chains
pub mod Welcome
pub mod Races
use aimeshchat.Base.{
  ℕ, String, Bool, true, false, not, ◌&&◌, ◌||◌, Option, none, some, List, [], ◌∷◌, ◌==◌, ltb, eqb,
  or_else, if◌then◌else◌, Result, ok, err,
}
use aimeshchat.Base.Table.{lookup}
use aimeshchat.Gateway.Model.{
  ErrorCode, Answer, not_authorized, generation_stale, protocol, not_found, protocol_conflict,
  uncaught,
}
use aimeshchat.Gateway.Commands.{
  CmdState, queued, is_state, Status, binding_pending, contains, cmd_transitions,
  cmd_status_by_state, advance_ack_chain,
}
use aimeshchat.Gateway.Control.{
  Control, Command, Detail, DetailValue, text, a_state, states, Update, no_update, get_command,
  update_command,
}

-- What `_command_result` returns.
pub record Reply : Type 0 where
  pub request_id : String
  pub command_id : String
  pub msg_id : String
  pub turn_id : String
  pub runtime_id : String
  pub generation : ℕ
  pub state : CmdState
  pub status : Status
  pub detail : Detail

abbrev is_pending_gate : Option DetailValue → Bool
is_pending_gate (some (text t)) = t == "binding_pending"
is_pending_gate _ = false

abbrev pub status_of : Command → Status
status_of row =
    if is_state row.state queued && is_pending_gate (lookup "gate" row.detail)
    then binding_pending
    else cmd_status_by_state row.state

-- `_command_result`
unfoldable pub command_result : Command → Reply
command_result row = record {
  request_id = row.request_id;
  command_id = row.command_id;
  msg_id = row.msg_id;
  turn_id = row.turn_id;
  runtime_id = row.runtime_id;
  generation = row.generation;
  state = row.state;
  status = status_of row;
  detail = row.detail;
}

-- `self._command_result(self._control.get_command(request_id))`, which raises TypeError on no row.
unfoldable pub result_for : Control → String → Answer Reply
result_for c request_id = elim (get_command c request_id) [
  | some row ↦ ok (command_result row)
  | none ↦ err uncaught
]

-- `runtime_command_status`
unfoldable pub runtime_command_status : Control → String → Answer Reply
runtime_command_status c request_id =
    let found = get_command c request_id in
    if request_id == ""
    then err protocol
    else elim found [ some row ↦ ok (command_result row) | none ↦ err not_found ]

pub data GenerationParam : Type 0 where
  absent malformed : GenerationParam
  given : ℕ → GenerationParam

-- The parameters. `none` is a state that is not in `CMD_STATES`.
pub record Ack : Type 0 where
  pub request_id : String
  pub state : Option CmdState
  pub runtime_id : String
  pub turn_id : String
  pub generation : GenerationParam

unfoldable pub check_generation : GenerationParam → Command → Answer (Unit {0})
check_generation absent row = ok tt
check_generation malformed row = err protocol
check_generation (given n) row = if ltb n row.generation then err generation_stale else ok tt

abbrev pub ack_update : String → CmdState → Command → Detail → Update
ack_update turn_id state row detail = record no_update {
  state = some state;
  turn_id = some (or_else turn_id row.turn_id);
  detail = some detail;
}

-- The write that a valid ack makes: the state that it names, which the table allows at once or the
-- chain reaches.
unfoldable pub ack_write : String → String → CmdState → Command → Answer Update
ack_write now turn_id state row =
    let direct =
      ack_update turn_id state row (("ack", a_state state) ∷ ("ack_at", text now) ∷ []) in
    if contains (cmd_transitions row.state) state
    then ok direct
    else elim (advance_ack_chain row.state state) [
      | none ↦ err protocol_conflict
      | some (final_state, mids) ↦ ok (
          ack_update turn_id final_state row (
            ("ack", a_state state)
            ∷ ("ack_at", text now)
            ∷ ("advanced_from", a_state row.state)
            ∷ ("advanced_through", states mids)
            ∷ []))
    ]

unfoldable pub ack_row : String → Ack → CmdState → Command → Answer Update
ack_row now a state row =
    if not (a.runtime_id == "") && not (a.runtime_id == row.runtime_id)
    then err not_authorized
    else elim (check_generation a.generation row) [
      | err e ↦ err e
      | ok _ ↦ ack_write now a.turn_id state row
    ]

abbrev with_state : Ack → Option CmdState → (CmdState → Answer Update) → Answer Update
with_state a none k = err protocol
with_state a (some state) k = if a.request_id == "" then err protocol else k state

-- What an ack wants written, from one reading of the row.
unfoldable pub plan_ack : String → Control → Ack → Answer Update
plan_ack now c a = with_state a a.state (λ state. elim (get_command c a.request_id) [
  | none ↦ err not_found
  | some row ↦ ack_row now a state row
])

unfoldable pub finish_ack :
    String → Control → Control → String → Answer Update → Control × Answer Reply
finish_ack now before later request_id (err e) = (before, err e)
finish_ack now before later request_id (ok u) =
    let after = update_command now later request_id u in (after, result_for after request_id)

-- `runtime_command_ack`
unfoldable pub runtime_command_ack :
    String → (Control → Control) → Control → Ack → Control × Answer Reply
runtime_command_ack now meanwhile c a =
    finish_ack now c (meanwhile c) a.request_id (plan_ack now c a)
