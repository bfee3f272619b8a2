-- ===== src/Mailbox/Ledger.antt =====
-- `RequestLedger` of src/codeagent/mailbox/store.py: the append-only event log of each request.
-- The ledger of one agent is the table of its `events.jsonl` files by request id. Directories,
-- permissions, `fsync` and the file lock are not modelled: a call is one atomic step. Times are
-- whole seconds, and `now` is an argument.
pub mod Terminal
pub mod History
pub mod Verdicts
pub mod Stale
use aimeshchat.Base.{
  ℕ, ◌+◌, String, Bool, true, false, ◌||◌, Option, none, some, List, [], ◌∷◌, ◌++◌, ◌==◌, ltb, any,
  select, if◌then◌else◌, or_else, Result, ok, err, ◌>>=◌,
}
use aimeshchat.Base.Table.{Table, lookup, insert}
use aimeshchat.Mailbox.Protocol.{Message, path_component_ok}

-- One line of `events.jsonl`. The keyword argument `meta` is a flat dict of texts.
pub record Entry : Type 0 where
  pub request_id : String
  pub run_id : String
  pub event : String
  pub ts : ℕ
  pub meta : Table String

-- What `_read_all` finds on a line: an entry, nothing, or text that `json.loads` rejects.
pub data Line : Type 0 where
  entry : Entry → Line
  blank garbled : Line

pub data LedgerError : Type 0 where
  value_error : LedgerError

abbrev pub Ledger : Type 0
Ledger = Table (List Line)

-- Membership in `TERMINAL_STATES`.
unfoldable pub is_terminal : String → Bool
is_terminal e =
    e == "DONE"
    || (e == "BLOCKED" || (e == "CANCELLED" || (e == "EXPIRED" || e == "UNKNOWN_STALE")))

-- The lines of a file that does not exist are none.
abbrev pub lines_of : Option (List Line) → List Line
lines_of none = []
lines_of (some ls) = ls

unfoldable pub parse_lines : List Line → List Entry
parse_lines [] = []
parse_lines (entry e ∷ ls) = e ∷ parse_lines ls
parse_lines (blank ∷ ls) = parse_lines ls
parse_lines (garbled ∷ ls) = parse_lines ls

unfoldable pub read_all : Ledger → String → List Entry
read_all l request_id = parse_lines (lines_of (lookup request_id l))

abbrev pub of_run : String → Entry → Bool
of_run run_id e = e.run_id == run_id

unfoldable pub read_entries : Ledger → String → String → List Entry
read_entries l request_id run_id = select (of_run run_id) (read_all l request_id)

unfoldable pub first_terminal : List Entry → Option String
first_terminal [] = none
first_terminal (e ∷ es) = if is_terminal e.event then some e.event else first_terminal es

unfoldable pub get_terminal : Ledger → String → String → Option String
get_terminal l request_id run_id = first_terminal (read_entries l request_id run_id)

-- `_append`, with the clock's reading.
unfoldable pub append_entry : ℕ → Ledger → String → String → String → Table String → Ledger
append_entry now l request_id run_id event meta =
    insert request_id (lines_of (lookup request_id l) ++ entry new ∷ []) l
  where
    new : Entry
    new = record { request_id = request_id; run_id = run_id; event = event; ts = now; meta = meta }

-- The part of `record_event` that runs under the file lock.
unfoldable pub record_locked :
    ℕ → Ledger → String → String → String → Table String → Option String → Ledger × Bool
record_locked now l request_id run_id event meta none =
    (append_entry now l request_id run_id event meta, true)
record_locked now l request_id run_id event meta (some existing) =
    if is_terminal event
    then (
      append_entry now l request_id run_id "PROTOCOL_CONFLICT"
          (("frozen_event", event) ∷ ("existing_terminal", existing) ∷ []),
      false,
    )
    else (append_entry now l request_id run_id event meta, true)

unfoldable pub record_event :
    ℕ → Ledger → String → String → String → Table String → Result LedgerError (Ledger × Bool)
record_event now l request_id run_id event meta =
    if path_component_ok request_id
    then ok (record_locked now l request_id run_id event meta (get_terminal l request_id run_id))
    else err value_error

-- `record_event` called for its effect, before `return name`.
unfoldable pub noting :
    String → Result LedgerError (Ledger × Bool) → Result LedgerError (Ledger × String)
noting name r = do (l', _) ← r; ok (l', name)

unfoldable pub has_running : Ledger → String → String → Bool
has_running l request_id run_id = any (λ e. e.event == "RUNNING") (read_entries l request_id run_id)

-- The PROGRESS branch; a terminal request takes no RUNNING.
unfoldable pub apply_progress :
    ℕ → Ledger → Message → Option String → Result LedgerError (Ledger × String)
apply_progress now l m none =
    if has_running l m.request_id m.run_id
    then ok (l, "")
    else noting "RUNNING"
        (record_event now l m.request_id m.run_id "RUNNING" (("msg_id", m.msg_id) ∷ []))
apply_progress now l m (some _) = ok (l, "")

-- `get_terminal` and `_read_entries` raise on an unsafe request id too.
unfoldable pub guarded {ℓ} : {A : Type ℓ} → String → Result LedgerError A → Result LedgerError A
guarded request_id r = if path_component_ok request_id then r else err value_error

unfoldable pub apply_kind : ℕ → Ledger → Message → Result LedgerError (Ledger × String)
apply_kind now l m =
    if m.kind == "RECEIPT"
    then (if m.receipt_type == "READ"
        then noting "ACKED" (
            record_event now l m.request_id m.run_id "ACKED"
              (("msg_id", m.msg_id) ∷ ("reply_to", m.reply_to) ∷ []))
        else ok (l, ""))
    else if m.kind == "TASK" || m.kind == "INIT"
    then noting "DISPATCHED" (
        record_event now l m.request_id m.run_id "DISPATCHED"
          (("msg_id", m.msg_id) ∷ ("from", m.from_id) ∷ []))
    else if m.kind == "PROGRESS"
    then guarded m.request_id (apply_progress now l m (get_terminal l m.request_id m.run_id))
    else if m.kind == "REPORT"
    then noting "DONE" (
        record_event now l m.request_id m.run_id "DONE"
          (("msg_id", m.msg_id) ∷ ("from", m.from_id) ∷ ("source", "report") ∷ []))
    else if m.kind == "NOTICE"
    then noting "NOTICE" (
        record_event now l m.request_id m.run_id "NOTICE"
          (("msg_id", m.msg_id) ∷ ("from", m.from_id) ∷ []))
    else ok (l, "")

unfoldable pub apply_message : ℕ → Ledger → Message → Result LedgerError (Ledger × String)
apply_message now l m =
    if m.request_id == "" || m.run_id == "" then ok (l, "") else apply_kind now l m

pub record Verdict : Type 0 where
  pub terminal : String
  pub cas : Bool

abbrev pub or_state : Option String → String → String
or_state none state = state
or_state (some e) state = or_else e state

-- The answer of `record_artifact_verdict`, from that of `record_event`.
unfoldable pub verdict_of : String → String → String → Ledger × Bool → Ledger × Verdict
verdict_of request_id run_id state (l, accepted) =
    if accepted
    then (l, record { terminal = state; cas = true })
    else (l, record { terminal = or_state (get_terminal l request_id run_id) state; cas = false })

unfoldable pub record_artifact_verdict :
    ℕ → Ledger → String → String → Bool → Result LedgerError (Ledger × Verdict)
record_artifact_verdict now l request_id run_id verified = do
  let state = if verified then "DONE" else "BLOCKED"
  let meta =
      if verified
      then ("source", "artifact_verify") ∷ []
      else ("source", "artifact_verify") ∷ ("reason", "sha256_mismatch") ∷ []
  r ← record_event now l request_id run_id state meta
  ok (verdict_of request_id run_id state r)

-- `find_stale` over one run's events: the time of the first ACKED entry older than the limit.
unfoldable pub first_overdue : ℕ → ℕ → List Entry → Option ℕ
first_overdue now sla [] = none
first_overdue now sla (e ∷ es) =
    let rest = first_overdue now sla es in
    if e.event == "ACKED" then (if ltb (e.ts + sla) now then some e.ts else rest) else rest

unfoldable pub stale_since : ℕ → ℕ → List Entry → Option ℕ
stale_since now sla es =
    if any (λ e. is_terminal e.event) es then none else first_overdue now sla es

abbrev pub entries_of : Option (List Entry) → List Entry
entries_of none = []
entries_of (some es) = es

-- `by_run.setdefault(run_id, []).append(e)`
unfoldable pub add_to_run : Table (List Entry) → Entry → Table (List Entry)
add_to_run t e = insert e.run_id (entries_of (lookup e.run_id t) ++ e ∷ []) t

-- `_read_entries_all_runs`
unfoldable pub group_runs : Table (List Entry) → List Entry → Table (List Entry)
unfolding add_to_run
group_runs t [] = t
group_runs t (e ∷ es) = group_runs (add_to_run t e) es

pub record Overdue : Type 0 where
  pub request_id : String
  pub run_id : String
  pub acked_ts : ℕ

unfoldable pub stale_runs : ℕ → ℕ → String → Table (List Entry) → List Overdue
stale_runs now sla request_id [] = []
stale_runs now sla request_id ((run_id, es) ∷ t) =
    let rest = stale_runs now sla request_id t in
    elim (stale_since now sla es) [
      | none ↦ rest
      | some ts ↦ record { request_id = request_id; run_id = run_id; acked_ts = ts } ∷ rest
    ]

-- `find_stale`, over the request directories in the order given. `iterdir` sorts them by name.
unfoldable pub find_stale : ℕ → ℕ → Ledger → List String → List Overdue
find_stale now sla l [] = []
find_stale now sla l (q ∷ qs) =
    stale_runs now sla q (group_runs [] (read_all l q)) ++ find_stale now sla l qs
