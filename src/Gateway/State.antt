-- ===== src/Gateway/State.antt =====
-- The state of an `AgentGateway` of src/codeagent/gateway/service.py: the runtimes in memory, the
-- durable tables, the claims on agent roles, the event store, the mailbox messages it had written, the
-- hub peers and the park registry. A peer keeps what the handlers here read or write.
use aimeshchat.Base.{ℕ, String, Bool, List, ok, err}
use aimeshchat.Base.Table.{Table}
use aimeshchat.Gateway.Runtimes.{RuntimeRecord}
use aimeshchat.Gateway.Control.{Control, Generation, upsert_generation}
use aimeshchat.Park.Registry.{Park}
use aimeshchat.Gateway.Events.{Draft, EventStore, append_local}

-- What is handed to the `send` of the mailbox service.
pub record Envelope : Type 0 where
  pub session_id : String
  pub from_id : String
  pub to_id : String
  pub subject : String
  pub body : String
  pub kind : String
  pub reply_to : String
  pub run_id : String
  pub request_id : String
  pub command_id : String
  pub require_ack : Bool

-- A value of `_claims`.
pub record Claim : Type 0 where
  pub owner : String
  pub claimed_at : ℕ
  pub expires_at : ℕ

pub data PeerStatus : Type 0 where
  online peer_offline peer_unknown : PeerStatus

-- A value of `_peers`.
pub record Peer : Type 0 where
  pub session_id : String
  pub agent_id : String
  pub status : PeerStatus

pub record Gateway : Type 0 where
  pub runtimes : Table RuntimeRecord
  pub control : Control
  pub claims : Table Claim
  pub events : EventStore
  pub sent : List Envelope
  pub peers : Table Peer
  pub park : Park

-- The row that mirrors a runtime. The two times of `upsert_generation` are its own.
abbrev pub mirror : RuntimeRecord → Generation
mirror r = record {
  current_generation = r.generation;
  owner_nonce = r.nonce;
  presence = r.presence;
  binding = r.binding;
  backend_session_id = r.backend_session_id;
  binding_epoch = r.binding_epoch;
  agent_state = r.agent_state;
  last_state_seq = 0;
  updated_at = "";
  model_context = r.model_context;
}

-- `_persist_control_state`
unfoldable pub persist_control_state : String → Gateway → RuntimeRecord → Gateway
persist_control_state now g r = record g {
  control = upsert_generation now g.control r.runtime_id (mirror r);
}

-- `append_local` where its exception is only logged.
unfoldable pub try_append : Gateway → Draft → Gateway
try_append g d = elim (append_local g.events d) [
  | ok (events, e) ↦ record g { events = events }
  | err _ ↦ g
]
