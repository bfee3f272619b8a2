-- ===== src/Gateway/Runtimes.antt =====
-- `RuntimeRecord` of src/codeagent/gateway/service.py: the three-dimensional state of a runtime, its
-- reduction by lifecycle events, and the gate for hot delivery. Times are whole seconds. `host_alias`,
-- `spec` and `started_at`, which nothing here reads, are left out.
pub mod Gate
use aimeshchat.Base.{
  ℕ, zero, suc, String, Bool, true, false, ◌&&◌, ◌||◌, Option, none, some, List, [], ◌∷◌, map, ◌==◌,
  leb, eqb, all, any, if◌then◌else◌,
}
use aimeshchat.Mailbox.Protocol.{codes}

pub data Presence : Type 0 where
  alive stale dead : Presence

pub data Binding : Type 0 where
  pending bound lost : Binding

pub data AgentState : Type 0 where
  agent_running idle ended : AgentState

pub data RuntimeStatus : Type 0 where
  starting active offline stopped unknown : RuntimeStatus

pub record ModelContext : Type 0 where
  pub provider : String
  pub model : String
  pub variant : String
  pub epoch : ℕ

pub record RuntimeRecord : Type 0 where
  pub runtime_id : String
  pub session_id : String
  pub agent_id : String
  pub generation : ℕ
  pub review_key : String
  pub backend_session_id : String
  pub runtime : String
  pub owner_pid : ℕ
  pub nonce : String
  pub status : RuntimeStatus
  pub created_at : String
  pub last_activity : ℕ
  pub initial_task : String
  pub presence : Presence
  pub binding : Binding
  pub agent_state : AgentState
  pub binding_epoch : ℕ
  pub capabilities : List String
  pub model_context : Option ModelContext

-- `LIFECYCLE_EVENTS`
pub data LifecycleEvent : Type 0 where
  session_ready agent_start turn_start turn_end agent_end session_shutdown : LifecycleEvent
  registry_parked registry_removed process_exit heartbeat : LifecycleEvent

-- `_reduce_lifecycle`
unfoldable pub reduce_lifecycle : RuntimeRecord → LifecycleEvent → RuntimeRecord
reduce_lifecycle r heartbeat = record r { presence = alive }
reduce_lifecycle r session_ready = record r { presence = alive; agent_state = idle }
reduce_lifecycle r agent_start = record r { agent_state = agent_running }
reduce_lifecycle r turn_start = record r { agent_state = agent_running }
reduce_lifecycle r turn_end = record r { agent_state = idle }
reduce_lifecycle r agent_end = record r { agent_state = idle }
reduce_lifecycle r session_shutdown = record r { agent_state = ended }
reduce_lifecycle r registry_parked = record r { agent_state = ended }
reduce_lifecycle r registry_removed = record r { agent_state = ended }
reduce_lifecycle r process_exit = record r { agent_state = ended }

-- `str.rpartition("_")`: the parts before and after the last underscore.
unfoldable pub rpartition : List ℕ → Option (List ℕ × List ℕ)
rpartition [] = none
rpartition (c ∷ cs) = elim (rpartition cs) [
  | some (before, after) ↦ some (c ∷ before, after)
  | none ↦ if eqb c b'_' then some ([], cs) else none
]

abbrev pub is_digit : ℕ → Bool
is_digit c = leb b'0' c && leb c b'9'

-- `ver[:1] == "v" and ver[1:].isdigit()`, over ASCII.
unfoldable pub is_version : List ℕ → Bool
is_version [] = false
is_version (v ∷ []) = false
is_version (v ∷ (d ∷ ds)) = eqb v b'v' && all is_digit (d ∷ ds)

-- `_normalize_capability`
unfoldable pub normalize_capability : List ℕ → List ℕ
normalize_capability name = elim (rpartition name) [
  | none ↦ name
  | some (base, ver) ↦ if is_version ver then base else name
]

unfoldable pub same_text : List ℕ → List ℕ → Bool
same_text [] [] = true
same_text [] (d ∷ ds) = false
same_text (c ∷ cs) [] = false
same_text (c ∷ cs) (d ∷ ds) = eqb c d && same_text cs ds

unfoldable pub has_capability : List String → String → Bool
has_capability caps name = any (λ c. same_text (normalize_capability (codes c)) (codes name)) caps

abbrev pub is_alive : Presence → Bool
is_alive alive = true
is_alive stale = false
is_alive dead = false

abbrev pub is_bound : Binding → Bool
is_bound bound = true
is_bound pending = false
is_bound lost = false

-- A backend with a plugin that consumes the mailbox.
abbrev pub has_consumer : RuntimeRecord → Bool
has_consumer r = r.runtime == "" || r.runtime == "omp"

unfoldable pub capable : List String → Bool
capable [] = true
capable (c ∷ cs) =
    has_capability (c ∷ cs) "park_revive" && has_capability (c ∷ cs) "correlated_turn_ack"

-- `_is_hot`. Each of the three agent states passes the first test.
unfoldable pub is_hot : RuntimeRecord → Bool
is_hot r =
    if is_alive r.presence && is_bound r.binding
    then (if has_consumer r then capable r.capabilities else false)
    else false
