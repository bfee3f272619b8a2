-- ===== src/Mailbox/Sessions.antt =====
-- `session_init` and `advance_cursor` of src/codeagent/mailbox/store.py. Each call is one step. In the
-- source `advance_cursor` reads the clock before it takes the lock, on a file that it then replaces, so
-- calls need not come in the order of their readings, nor one after the other. An access list is kept as a text, the modes as tables.
pub mod Roster
use Prim.Native.Nat.{Ordering}
use Prim.Native.String.{compare}
use aimeshchat.Base.{
  ℕ, ◌+◌, String, Bool, true, false, not, ◌&&◌, ◌||◌, Option, none, some, List, [], ◌∷◌, ◌++◌, ◌==◌,
  leb, eqb, length, all, any, select, if◌then◌else◌, Result, ok, err,
}
use aimeshchat.Base.Table.{Table, insert}
use aimeshchat.Mailbox.Protocol.{codes, before_end, is_path_safe}
use aimeshchat.Mailbox.Store.Finish.{is_alphanumeric}
use aimeshchat.Mailbox.Store.Read.{one_of}

-- `session.json`
pub record SessionInfo : Type 0 where
  pub manager : String
  pub agents : List String
  pub manifest_revision : ℕ
  pub acl : Option String
  pub execution_modes : Table String
  pub return_modes : Table String

-- A session: its file, if there is one, and the agents that have folders.
pub record Session : Type 0 where
  pub info : Option SessionInfo
  pub folders : List String

pub data InitError : Type 0 where
  invalid_agent_id other_manager : InitError

-- `validate_agent_id`: `^[a-zA-Z0-9][a-zA-Z0-9_.-]{0,31}$`.
unfoldable pub agent_id_ok : String → Bool
agent_id_ok s = elim (before_end (codes s)) [
  | [] ↦ false
  | c ∷ cs ↦ is_alphanumeric c && (leb (length cs) 31 && all is_path_safe cs)
]

abbrev pub text_before : String → String → Bool
text_before s t = elim (compare s t) [ Ordering.lt ↦ true | _ ↦ false ]

-- `sorted(set(…))`
unfoldable pub insert_sorted : String → List String → List String
insert_sorted n [] = n ∷ []
insert_sorted n (m ∷ ms) =
    let rest = insert_sorted n ms in
    if n == m then m ∷ ms else if text_before n m then n ∷ (m ∷ ms) else m ∷ rest

unfoldable pub sorted_set : List String → List String
sorted_set [] = []
sorted_set (n ∷ ns) = insert_sorted n (sorted_set ns)

-- The optional arguments of a call.
pub record Extras : Type 0 where
  pub acl : Option String
  pub execution_modes : Option (Table String)
  pub return_modes : Option (Table String)

abbrev pub is_absent {ℓ} : {A : Type ℓ} → Option A → Bool
is_absent none = true
is_absent (some a) = false

abbrev pub no_extras : Extras → Bool
no_extras x = is_absent x.acl && (is_absent x.execution_modes && is_absent x.return_modes)

-- `dict.update`
unfoldable pub updated : Table String → Table String → Table String
updated t [] = t
updated t ((k, v) ∷ new) = updated (insert k v t) new

abbrev pub table_or : Table String → Option (Table String) → Table String
table_or t none = t
table_or t (some new) = updated t new

abbrev pub or_option : Option String → Option String → Option String
or_option old none = old
or_option old (some new) = some new

abbrev pub added_agents : SessionInfo → List String → List String
added_agents i agents = select (λ n. not (one_of i.agents n)) (sorted_set agents)

unfoldable pub merged_info : SessionInfo → List String → Extras → SessionInfo
merged_info i agents x = record {
  manager = i.manager;
  agents = sorted_set (i.agents ++ agents);
  manifest_revision = i.manifest_revision + 1;
  acl = or_option i.acl x.acl;
  execution_modes = table_or i.execution_modes x.execution_modes;
  return_modes = table_or i.return_modes x.return_modes;
}

-- A session that is there.
unfoldable pub merge_session :
    Session → SessionInfo → String → List String → Extras → Result InitError Session
merge_session s i manager agents x =
    if not (i.manager == "") && not (i.manager == manager)
    then err other_manager
    else if eqb (length (added_agents i agents)) 0 && no_extras x
    then ok s
    else ok (record {
      info = some (merged_info i agents x);
      folders = s.folders ++ added_agents i agents;
    })

unfoldable pub new_session : Session → String → List String → Extras → Session
new_session s manager agents x = record {
  info = some (record {
    manager = manager;
    agents = sorted_set agents;
    manifest_revision = 1;
    acl = x.acl;
    execution_modes = table_or [] x.execution_modes;
    return_modes = table_or [] x.return_modes;
  });
  folders = s.folders ++ (sorted_set agents ++ manager ∷ []);
}

-- `session_init`
unfoldable pub session_init :
    Session → String → String → List String → Extras → Result InitError Session
session_init s session_id manager agents x =
    if agent_id_ok session_id && (agent_id_ok manager && all agent_id_ok agents)
    then elim s.info [
      | none ↦ ok (new_session s manager agents x)
      | some i ↦ merge_session s i manager agents x
    ]
    else err invalid_agent_id

-- The stream's place: milliseconds, and a number within them.
pub record Place : Type 0 where
  pub epoch_ms : ℕ
  pub seq : ℕ

abbrev pub place_or_zero : Option Place → Place
place_or_zero none = record { epoch_ms = 0; seq = 0 }
place_or_zero (some p) = p

-- `advance_cursor`, with the clock's reading.
unfoldable pub advance_cursor : ℕ → Option Place → Place
advance_cursor now_ms prev =
    if eqb now_ms (place_or_zero prev).epoch_ms
    then record { epoch_ms = now_ms; seq = (place_or_zero prev).seq + 1 }
    else record { epoch_ms = now_ms; seq = 0 }
