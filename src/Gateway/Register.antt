-- ===== src/Gateway/Register.antt =====
-- `runtime_register` of src/codeagent/gateway/service.py: the handshake of a plugin. The mailbox store
-- is read only: the session files, and the messages in an agent's inbox, oldest first.
pub mod Admission
use aimeshchat.Base.{
  ℕ, suc, String, Bool, true, false, not, ◌&&◌, ◌||◌, Option, none, some, List, [], ◌∷◌, ◌==◌, any,
  ltb, eqb, if◌then◌else◌, Result, ok, err,
}
use aimeshchat.Base.Table.{Table, lookup, insert}
use aimeshchat.Park.Registry
use aimeshchat.Park.Registry.{Lease, ParkManifest, hot_parked}
use aimeshchat.Gateway.Model.{
  ErrorCode, Answer, not_authorized, owner_mismatch, generation_stale, protocol,
}
use aimeshchat.Gateway.Runtimes.{
  RuntimeRecord, Presence, alive, Binding, pending, bound, AgentState, idle, RuntimeStatus, active,
}
use aimeshchat.Gateway.Control.{Control, upsert_review}
use aimeshchat.Gateway.Events.{Draft, Event, EventStore, append_local}
use aimeshchat.Gateway.State.{Gateway, persist_control_state}

pub record Session : Type 0 where
  pub manager : String
  pub agents : List String

pub record InboxMessage : Type 0 where
  pub kind : String
  pub body : String
  pub msg_id : String
  pub command_id : String

-- `payload_text` is the JSON text of an event's payload, from the runtime and the backend session.
pub record Desk : Type 0 where
  pub sessions : Table Session
  pub inbox : String → String → List InboxMessage
  pub payload_text : String → String → String

pub record Registration : Type 0 where
  pub session_id : String
  pub agent_id : String
  pub runtime_id : String
  pub generation : ℕ
  pub review_key : String
  pub backend_session_id : String
  pub runtime : String
  pub owner_pid : ℕ
  pub nonce : String
  pub capabilities : List String

pub record Welcome : Type 0 where
  pub runtime_id : String
  pub session_id : String
  pub agent_id : String
  pub generation : ℕ
  pub initial_task : String
  pub initial_task_msg_id : String
  pub initial_task_command_id : String

-- The clock: seconds, the event's text of the time, and the control store's.
pub record Clock : Type 0 where
  pub seconds : ℕ
  pub iso : String
  pub utc : String

unfoldable pub same_owner : RuntimeRecord → Registration → Bool
same_owner r p =
    (eqb r.owner_pid 0 && r.nonce == "") || (eqb r.owner_pid p.owner_pid && r.nonce == p.nonce)

unfoldable pub check_owner : Option RuntimeRecord → Registration → Answer (Unit {0})
check_owner none p = ok tt
check_owner (some r) p =
    if ltb p.generation r.generation
    then err generation_stale
    else if eqb p.generation r.generation && not (same_owner r p)
    then err owner_mismatch
    else ok tt

unfoldable pub check_roster : Option Session → String → Answer (Unit {0})
check_roster none agent_id = err not_authorized
check_roster (some s) agent_id =
    if s.manager == agent_id || any (λ a. a == agent_id) s.agents then ok tt else err not_authorized

-- All that may refuse a registration, in the order of the source.
unfoldable pub admission : Gateway → Desk → Registration → Answer (Unit {0})
admission g desk p =
    if p.session_id == "" || (p.agent_id == "" || p.runtime_id == "")
    then err not_authorized
    else elim (check_owner (lookup p.runtime_id g.runtimes) p) [
      | err e ↦ err e
      | ok _ ↦ check_roster (lookup p.session_id desk.sessions) p.agent_id
    ]

unfoldable pub next_epoch : Option RuntimeRecord → String → ℕ
next_epoch none backend = if backend == "" then 0 else 1
next_epoch (some r) backend =
    if not (backend == "") && not (backend == r.backend_session_id)
    then suc r.binding_epoch
    else r.binding_epoch

unfoldable pub first_task : List InboxMessage → Option InboxMessage
first_task [] = none
first_task (m ∷ ms) = if m.kind == "TASK" then some m else first_task ms

abbrev pub task_text : (InboxMessage → String) → Option InboxMessage → String
task_text f none = ""
task_text f (some m) = f m

-- The record that the handshake leaves.
unfoldable pub registered :
    Clock → Option RuntimeRecord → Registration → Option InboxMessage → RuntimeRecord
registered clock existing p task = record {
  runtime_id = p.runtime_id;
  session_id = p.session_id;
  agent_id = p.agent_id;
  generation = p.generation;
  review_key = p.review_key;
  backend_session_id = p.backend_session_id;
  runtime = p.runtime;
  owner_pid = p.owner_pid;
  nonce = p.nonce;
  status = active;
  created_at = clock.iso;
  last_activity = clock.seconds;
  initial_task = task_text (λ m. m.body) task;
  presence = alive;
  binding = if p.backend_session_id == "" then pending else bound;
  agent_state = idle;
  binding_epoch = next_epoch existing p.backend_session_id;
  capabilities = p.capabilities;
  model_context = none;
}

-- The review's mirror, if the runtime has a review key.
unfoldable pub mirror_review : String → Gateway → Registration → Gateway
mirror_review now g p = if p.review_key == "" then g else record g {
  control =
      upsert_review now g.control p.review_key p.session_id p.runtime_id p.agent_id p.agent_id;
}

-- The backend session is told to the park, for a lease whose manifest says HOT_PARKED.
unfoldable pub sync_park : ℕ → Gateway → Registration → Gateway
sync_park now g p = elim (Registry.lookup_manifest g.park p.review_key) [
  | none ↦ g
  | some m ↦
      let synced = record g {
        park =
            Registry.update now g.park p.review_key
              (record m { backend_session_id = p.backend_session_id; lifecycle = hot_parked });
      } in
      if not (p.review_key == "" || p.backend_session_id == "") && Registry.is_hot m.lifecycle
      then synced
      else g
]

abbrev pub register_draft : Clock → Desk → Registration → Draft
register_draft clock desk p = record {
  runtime_id = p.runtime_id;
  generation = p.generation;
  session_id = p.session_id;
  agent_id = p.agent_id;
  request_id = "";
  run_id = "";
  kind = "RUNTIME_STATE";
  created_at = clock.iso;
  payload = desk.payload_text p.runtime p.backend_session_id;
}

abbrev pub welcome : Registration → Option InboxMessage → Welcome
welcome p task = record {
  runtime_id = p.runtime_id;
  session_id = p.session_id;
  agent_id = p.agent_id;
  generation = p.generation;
  initial_task = task_text (λ m. m.body) task;
  initial_task_msg_id = task_text (λ m. m.msg_id) task;
  initial_task_command_id = task_text (λ m. m.command_id) task;
}

-- The event of the handshake. Its exception is not caught.
unfoldable pub tell_registered :
    Clock → Desk → Gateway → Registration → Option InboxMessage → Gateway × Answer Welcome
tell_registered clock desk g p task = elim (append_local g.events (register_draft clock desk p)) [
  | ok (events, e) ↦ (record g { events = events }, ok (welcome p task))
  | err _ ↦ (g, err protocol)
]

-- The changes that an admitted registration makes, up to its event.
unfoldable pub enrol : Clock → Gateway → Registration → Option InboxMessage → Gateway
enrol clock g p task =
    let r = registered clock (lookup p.runtime_id g.runtimes) p task in
    let listed = record g { runtimes = insert p.runtime_id r g.runtimes } in
    sync_park clock.seconds (mirror_review clock.utc (persist_control_state clock.utc listed r) p) p

-- `runtime_register`
unfoldable pub runtime_register : Clock → Desk → Gateway → Registration → Gateway × Answer Welcome
runtime_register clock desk g p =
    let task = first_task (desk.inbox p.session_id p.agent_id) in
    elim (admission g desk p) [
      | err e ↦ (g, err e)
      | ok _ ↦ tell_registered clock desk (enrol clock g p task) p task
    ]
