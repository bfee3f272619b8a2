-- ===== src/Gateway/Events.antt =====
-- `EventStore` of src/codeagent/gateway/events.py: the table `runtime_events`, oldest first, and the
-- AUTOINCREMENT counter, which is above every id that was ever given. Texts of times are compared as
-- texts, as in SQL; a payload is its JSON text. A call is one transaction.
pub mod Sequences
pub mod Invariant
pub mod Ingest
pub mod Pages
pub mod Retention
use aimeshchat.Base.{
  ℕ, zero, suc, ◌+◌, ◌-◌, String, Bool, true, false, not, ◌&&◌, ◌||◌, Option, none, some, List, [],
  ◌∷◌, ◌++◌, ◌==◌, ltb, leb, eqb, any, all, select, count, length, take, drop, if◌then◌else◌,
  Result, ok, err,
}
use Prim.Native.Nat.{min, max}
use Prim.Native.String.{compare}
use text.Mathlib.Text.{is_lt}

pub record Draft : Type 0 where
  pub runtime_id : String
  pub generation : ℕ
  pub session_id : String
  pub agent_id : String
  pub request_id : String
  pub run_id : String
  pub kind : String
  pub created_at : String
  pub payload : String

pub record Event : Type 0 where
  pub event_id : ℕ
  pub source_host : String
  pub source_sequence : ℕ
  pub draft : Draft
  pub open draft use *

pub record EventStore : Type 0 where
  pub rows : List Event
  pub next_id : ℕ
  pub local_host : String

pub data StoreError : Type 0 where
  protocol value_error : StoreError

-- Membership in `EVENT_KINDS`.
unfoldable pub known_kind : String → Bool
known_kind k =
    k == "RUNTIME_STATE"
    || (k == "MESSAGE_DELIVERED"
        || (k == "MESSAGE_READ"
            || (k == "TURN_STARTED"
                || (k == "ASSISTANT_PROGRESS"
                    || (k == "TOOL_STARTED"
                        || (k == "TOOL_UPDATED"
                            || (k == "TOOL_FINISHED"
                                || (k == "USAGE"
                                    || (k == "TASK_STATE"
                                        || (k == "ERROR" || k == "AGENT_STATUS"))))))))))

-- `EVENT_KIND_TERMINAL`
unfoldable pub terminal_kind : String → Bool
terminal_kind k = k == "TASK_STATE" || (k == "MESSAGE_READ" || k == "ERROR")

-- `RuntimeEventDraft.validate`. The payload is a JSON object by its type.
unfoldable pub validate : Draft → Bool
validate d = not (d.runtime_id == "" || d.session_id == "") && known_kind d.kind

unfoldable pub from_source : String → String → ℕ → Event → Bool
from_source host runtime_id generation e =
    e.source_host == host && (e.runtime_id == runtime_id && eqb e.generation generation)

-- `SELECT COALESCE(MAX(source_sequence), 0) … WHERE` the source is this one.
unfoldable pub max_sequence : String → String → ℕ → List Event → ℕ
max_sequence host runtime_id generation [] = 0
max_sequence host runtime_id generation (e ∷ es) =
    let rest = max_sequence host runtime_id generation es in
    if from_source host runtime_id generation e then max e.source_sequence rest else rest

unfoldable pub add_row : EventStore → String → ℕ → Draft → EventStore × Event
add_row s host seq d = (record s { rows = s.rows ++ row ∷ []; next_id = s.next_id + 1 }, row)
  where
    row : Event
    row = record { event_id = s.next_id; source_host = host; source_sequence = seq; draft = d }

unfoldable pub append_local : EventStore → Draft → Result StoreError (EventStore × Event)
append_local s d =
    if validate d
    then ok
        (add_row s s.local_host (max_sequence s.local_host d.runtime_id d.generation s.rows + 1) d)
    else err protocol

unfoldable pub is_tuple : String → ℕ → Draft → Event → Bool
is_tuple host seq d e = from_source host d.runtime_id d.generation e && eqb e.source_sequence seq

unfoldable pub find_tuple : String → ℕ → Draft → List Event → Option ℕ
find_tuple host seq d [] = none
find_tuple host seq d (e ∷ es) =
    if is_tuple host seq d e then some e.event_id else find_tuple host seq d es

-- The insert, unless the four columns are there already. What is returned carries the data that
-- came in, beside the id of the row.
unfoldable pub ingest_row : EventStore → String → ℕ → Draft → Option ℕ → EventStore × Event
ingest_row s host seq d none = add_row s host seq d
ingest_row s host seq d (some id) =
    (s, record { event_id = id; source_host = host; source_sequence = seq; draft = d })

abbrev pub stored : EventStore × Event → Result StoreError (EventStore × Option Event)
stored (s', e) = ok (s', some e)

-- `ingest_remote`: an unknown kind is skipped, and returns `none`.
unfoldable pub ingest_remote :
    EventStore → String → ℕ → Draft → Result StoreError (EventStore × Option Event)
ingest_remote s host seq d =
    if host == "" || d.runtime_id == ""
    then err value_error
    else if eqb seq 0
    then err value_error
    else if not (known_kind d.kind)
    then ok (s, none)
    else stored (ingest_row s host seq d (find_tuple host seq d s.rows))

pub record Query : Type 0 where
  pub cursor : ℕ
  pub filters : Option (List String)
  pub limit : ℕ
  pub session_id : String
  pub runtime_id : String

abbrev pub kinds_ok : Option (List String) → Bool
kinds_ok none = true
kinds_ok (some ks) = all known_kind ks

abbrev kind_in : Option (List String) → String → Bool
kind_in none k = true
kind_in (some []) k = true
kind_in (some (f ∷ fs)) k = any (λ x. x == k) (f ∷ fs)

-- The WHERE clause of `list_after`, but for its test of the cursor.
unfoldable pub matches : Query → Event → Bool
matches q e =
    kind_in q.filters e.kind
    && ((q.session_id == "" || e.session_id == q.session_id)
        && (q.runtime_id == "" || e.runtime_id == q.runtime_id))

unfoldable pub wanted : ℕ → Query → Event → Bool
wanted cursor q e = ltb cursor e.event_id && matches q e

unfoldable pub last_id : ℕ → List Event → ℕ
last_id cursor [] = cursor
last_id cursor (e ∷ es) = last_id e.event_id es

unfoldable pub list_after : EventStore → Query → Result StoreError (List Event × ℕ)
list_after s q =
    if kinds_ok q.filters
    then (let page = take (max 1 (min q.limit 1000)) (select (wanted q.cursor q) s.rows) in
        ok (page, last_id q.cursor page))
    else err value_error

abbrev before : String → String → Bool
before a b = is_lt (compare a b)

abbrev pub max_total_events : ℕ
max_total_events = 100000

unfoldable pub expired_tool : String → Event → Bool
expired_tool cutoff e = e.kind == "TOOL_UPDATED" && before e.created_at cutoff

unfoldable pub expired_terminal : String → Event → Bool
expired_terminal cutoff e = terminal_kind e.kind && before e.created_at cutoff

-- The rows that are left by the two retention rules.
unfoldable pub retained : String → String → List Event → List Event
retained cutoff_tool cutoff_terminal es =
    select (λ e. not (expired_terminal cutoff_terminal e))
      (select (λ e. not (expired_tool cutoff_tool e)) es)

-- `sweep`, for the two cutoffs that the clock gives. The rowcounts of its three DELETEs are added up.
unfoldable pub sweep : String → String → EventStore → EventStore × ℕ
sweep cutoff_tool cutoff_terminal s = (
  record s { rows = drop excess kept },
  count (expired_tool cutoff_tool) s.rows
      + count (expired_terminal cutoff_terminal)
          (select (λ e. not (expired_tool cutoff_tool e)) s.rows)
      + excess,
)
  where
    kept : List Event
    kept = retained cutoff_tool cutoff_terminal s.rows

    excess : ℕ
    excess = if ltb max_total_events (length kept) then length kept - max_total_events else 0
