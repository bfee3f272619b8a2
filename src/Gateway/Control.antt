-- ===== src/Gateway/Control.antt =====
-- `ControlStore` of src/codeagent/gateway/control_store.py: three SQL tables by primary key. A call
-- is one transaction; `now` is the text that `_utcnow_iso` returns. The columns hold what
-- the gateway writes: command states as `CmdState`, and the JSON of `detail` as a dict.
pub mod Reviews
pub mod Rows
use mathlib.Core.Option
use aimeshchat.Base.{
  ℕ, suc, String, Bool, true, false, not, ◌&&◌, ◌||◌, Option, none, some, List, [], ◌∷◌, ◌==◌, any,
  if◌then◌else◌, or_else,
}
use aimeshchat.Base.Table.{Table, lookup, insert, modify, remove}
use aimeshchat.Gateway.Commands.{CmdState}
use aimeshchat.Gateway.Runtimes.{Presence, Binding, AgentState, ModelContext}

-- A row of `reviews`.
pub record Review : Type 0 where
  pub swarm_session_id : String
  pub runtime_id : String
  pub profile_id : String
  pub mailbox_agent_id : String
  pub created_at : String
  pub updated_at : String

-- A row of `runtime_generations`. An empty `model_context` column is `none`.
pub record Generation : Type 0 where
  pub current_generation : ℕ
  pub owner_nonce : String
  pub presence : Presence
  pub binding : Binding
  pub backend_session_id : String
  pub binding_epoch : ℕ
  pub agent_state : AgentState
  pub last_state_seq : ℕ
  pub updated_at : String
  pub model_context : Option ModelContext

pub data DetailValue : Type 0 where
  text : String → DetailValue
  a_state : CmdState → DetailValue
  states : List CmdState → DetailValue
  a_presence : Presence → DetailValue
  a_binding : Binding → DetailValue
  an_agent_state : AgentState → DetailValue

abbrev pub Detail : Type 0
Detail = Table DetailValue

-- A row of `commands`.
pub record Command : Type 0 where
  pub request_id : String
  pub command_id : String
  pub msg_id : String
  pub turn_id : String
  pub runtime_id : String
  pub generation : ℕ
  pub payload_hash : String
  pub state : CmdState
  pub binding_epoch : ℕ
  pub backend_session_id : String
  pub created_at : String
  pub updated_at : String
  pub detail : Detail

pub record Control : Type 0 where
  pub reviews : Table Review
  pub generations : Table Generation
  pub commands : Table Command

abbrev pub empty : Control
empty = record { reviews = []; generations = []; commands = [] }

-- Another row than that of `key` has the session: the UNIQUE column refuses the write.
unfoldable pub session_taken : String → String → Table Review → Bool
session_taken key session [] = false
session_taken key session ((k, r) ∷ t) =
    let rest = session_taken key session t in
    if not (k == key) && (r.swarm_session_id == session) then true else rest

abbrev created_or : Option Review → String → String
created_or none now = now
created_or (some r) now = r.created_at

unfoldable pub upsert_review :
    String → Control → String → String → String → String → String → Control
upsert_review now c review_key session runtime_id profile_id agent_id =
    if session_taken review_key session c.reviews
    then c
    else record c { reviews = insert review_key row c.reviews }
  where
    row : Review
    row = record {
      swarm_session_id = session;
      runtime_id = runtime_id;
      profile_id = profile_id;
      mailbox_agent_id = agent_id;
      created_at = created_or (lookup review_key c.reviews) now;
      updated_at = now;
    }

unfoldable pub get_review : Control → String → Option Review
get_review c review_key = lookup review_key c.reviews

unfoldable pub first_of_session : String → Table Review → Option (String × Review)
first_of_session session [] = none
first_of_session session ((k, r) ∷ t) =
    if r.swarm_session_id == session then some (k, r) else first_of_session session t

unfoldable pub get_review_by_session : Control → String → Option (String × Review)
get_review_by_session c session = first_of_session session c.reviews

abbrev pub seq_of : Option Generation → ℕ
seq_of none = 0
seq_of (some g) = g.last_state_seq

abbrev pub context_of : Option Generation → Option ModelContext
context_of none = none
context_of (some g) = g.model_context

abbrev keep_context : Option ModelContext → Option ModelContext → Option ModelContext
keep_context none old = old
keep_context (some m) old = some m

-- `last_state_seq` is counted up; a call with no context keeps the one that is there.
unfoldable pub upsert_generation : String → Control → String → Generation → Control
upsert_generation now c runtime_id g = record c {
  generations = insert runtime_id row c.generations;
}
  where
    old : Option Generation
    old = lookup runtime_id c.generations

    row : Generation
    row = record g {
      last_state_seq = suc (seq_of old);
      updated_at = now;
      model_context = keep_context g.model_context (context_of old);
    }

abbrev is_there {ℓ} : {A : Type ℓ} → Option A → Bool
is_there none = false
is_there (some a) = true

unfoldable pub delete_generation : Control → String → Control × Bool
delete_generation c runtime_id = (
  record c { generations = remove runtime_id c.generations },
  is_there (lookup runtime_id c.generations),
)

unfoldable pub get_generation : Control → String → Option Generation
get_generation c runtime_id = lookup runtime_id c.generations

unfoldable pub get_command : Control → String → Option Command
get_command c request_id = lookup request_id c.commands

-- `INSERT OR IGNORE`: true if the row is new. The row's two times are the same.
unfoldable pub enqueue_command : Control → Command → Control × Bool
enqueue_command c row = elim (lookup row.request_id c.commands) [
  | none ↦ (
    record c {
      commands =
          insert row.request_id (record row { turn_id = ""; updated_at = row.created_at })
            c.commands;
    },
    true,
  )
  | some _ ↦ (c, false)
]

-- The keyword arguments of `update_command`; `none` leaves a column as it is.
pub record Update : Type 0 where
  pub state : Option CmdState
  pub msg_id : Option String
  pub turn_id : Option String
  pub binding_epoch : Option ℕ
  pub backend_session_id : Option String
  pub detail : Option Detail

abbrev pub no_update : Update
no_update = record {
  state = none;
  msg_id = none;
  turn_id = none;
  binding_epoch = none;
  backend_session_id = none;
  detail = none;
}

abbrev pub or_old {ℓ} : {A : Type ℓ} → Option A → A → A
or_old none a = a
or_old (some b) a = b

unfoldable pub set_columns : String → Update → Command → Command
set_columns now u row = record row {
  state = or_old u.state row.state;
  msg_id = or_old u.msg_id row.msg_id;
  turn_id = or_old u.turn_id row.turn_id;
  binding_epoch = or_old u.binding_epoch row.binding_epoch;
  backend_session_id = or_old u.backend_session_id row.backend_session_id;
  detail = or_old u.detail row.detail;
  updated_at = now;
}

unfoldable pub has_sets : Update → Bool
has_sets u =
    is_there u.state
    || (is_there u.msg_id
        || (is_there u.turn_id
            || (is_there u.binding_epoch || (is_there u.backend_session_id || is_there u.detail))))

unfoldable pub update_command : String → Control → String → Update → Control
update_command now c request_id u =
    if has_sets u
    then record c { commands = modify request_id (set_columns now u) c.commands }
    else c
