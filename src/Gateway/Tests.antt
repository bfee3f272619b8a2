-- ===== src/Gateway/Tests.antt =====
-- A small gateway: one runtime, its session and one queued command.
mod Commands
mod Sends
mod Runtimes
mod Tables
mod Events
use aimeshchat.Base.{
  ℕ, String, Bool, true, false, Option, none, some, List, [], ◌∷◌, Result, ok, err, ◌≡◌, refl,
}
use aimeshchat.Base.Table.{Table}
use aimeshchat.Gateway.Commands.{CmdState, queued, claimed, turn_triggered}
use aimeshchat.Gateway.Runtimes.{RuntimeRecord, alive, bound, idle, active, RuntimeStatus, stopped}
use aimeshchat.Gateway.Control.{Control, Command, empty}
use aimeshchat.Gateway.Events.{EventStore}
use aimeshchat.Gateway.State.{Gateway}
use aimeshchat.Gateway.Acks.{Ack, GenerationParam, given}
use aimeshchat.Gateway.Register.{Clock, Desk, Registration, Session}

abbrev pub runtime : RuntimeStatus → ℕ → RuntimeRecord
runtime status last = record {
  runtime_id = "rt1";
  session_id = "s1";
  agent_id = "w1";
  generation = 1;
  review_key = "rk";
  backend_session_id = "b1";
  runtime = "omp";
  owner_pid = 7;
  nonce = "n";
  status = status;
  created_at = "";
  last_activity = last;
  initial_task = "";
  presence = alive;
  binding = bound;
  agent_state = idle;
  binding_epoch = 1;
  capabilities = [];
  model_context = none;
}

abbrev pub command : CmdState → Command
command state = record {
  request_id = "q1";
  command_id = "c1";
  msg_id = "";
  turn_id = "";
  runtime_id = "rt1";
  generation = 1;
  payload_hash = "h";
  state = state;
  binding_epoch = 1;
  backend_session_id = "b1";
  created_at = "t0";
  updated_at = "t0";
  detail = [];
}

abbrev pub holding : CmdState → Control
holding state = record empty { commands = ("q1", command state) ∷ [] }

abbrev pub no_events : EventStore
no_events = record { rows = []; next_id = 1; local_host = "a" }

abbrev pub gateway : Control → Gateway
gateway control = record {
  runtimes = ("rt1", runtime active 10) ∷ [];
  control = control;
  claims = [];
  events = no_events;
  sent = [];
  peers = [];
  park = record { leases = []; snapshots = [] };
}

abbrev pub ack : CmdState → Ack
ack state = record {
  request_id = "q1";
  state = some state;
  runtime_id = "rt1";
  turn_id = "turn";
  generation = given 1;
}

abbrev pub clock : Clock
clock = record { seconds = 1000; iso = "2026-01-02"; utc = "2026-01-02" }

abbrev pub desk : Desk
desk = record {
  sessions = ("s1", record { manager = "mgr"; agents = "w1" ∷ [] }) ∷ [];
  inbox = λ s a. [];
  payload_text = λ r b. "{}";
}

abbrev pub registration : Registration
registration = record {
  session_id = "s1";
  agent_id = "w1";
  runtime_id = "rt1";
  generation = 2;
  review_key = "rk";
  backend_session_id = "b2";
  runtime = "omp";
  owner_pid = 8;
  nonce = "m";
  capabilities = [];
}
