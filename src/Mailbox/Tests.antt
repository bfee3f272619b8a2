-- ===== src/Mailbox/Tests.antt =====
-- The request ledger and the path test at concrete inputs.
use mathlib.Core.List.{Mem}
use aimeshchat.Base.{ℕ, String, ◌≡◌, refl, true, false, some, List, [], ◌∷◌, any, all, select, All}
use aimeshchat.Mailbox.Ledger.Terminal.{terminals}
use aimeshchat.Base.Table.{lookup, insert}
use aimeshchat.Mailbox.Protocol.{
  Message, path_component_ok, path_safe_match, is_path_safe, before_end,
}
use aimeshchat.Mailbox.Ledger.{
  Ledger, is_terminal, parse_lines, read_all, read_entries, first_terminal, get_terminal,
  append_entry, record_locked, record_event, noting, has_running, apply_progress, guarded,
  apply_kind, apply_message, verdict_of, record_artifact_verdict, find_stale, first_overdue,
}
use aimeshchat.Mailbox.Ledger.History.{
  Call, records, applies, verifies, step, run, run-get_terminal,
}
use aimeshchat.Mailbox.Ledger.Verdicts.{IsTruthful, record_artifact_verdict-IsTruthful}
use aimeshchat.Mailbox.Ledger.Stale.{IsDue, report, mem-find_stale}

-- What a run of the ledger computes through.
ledger_code : Unit {0}
unfolding run step record_event path_component_ok path_safe_match is_path_safe before_end
    record_locked append_entry get_terminal first_terminal read_entries read_all parse_lines
    is_terminal noting has_running apply_progress guarded apply_kind apply_message verdict_of
    record_artifact_verdict first_overdue any all select lookup insert
ledger_code = tt

abbrev message : String → String → Message
message kind receipt_type = record {
  session_id = "s1";
  from_id = "w1";
  to_id = "mgr";
  subject = "hi";
  body = "text";
  kind = kind;
  msg_id = "m1";
  created_at = "";
  reply_to = "m0";
  run_id = "r1";
  request_id = "q1";
  command_id = "";
  trace_id = "";
  causation_id = "";
  attachments = [];
  protocol_version = 2;
  require_ack = false;
  receipt_type = receipt_type;
}

abbrev reported_twice : List Call
reported_twice =
    applies 10 (message "TASK" "")
    ∷ applies 20 (message "RECEIPT" "READ")
    ∷ applies 30 (message "REPORT" "")
    ∷ verifies 40 "q1" "r1" false
    ∷ []

abbrev acked : List Call
acked = applies 10 (message "TASK" "") ∷ applies 20 (message "RECEIPT" "READ") ∷ []

abbrev finished : Ledger
finished = run [] reported_twice

finished_terminal : get_terminal finished "q1" "r1" ≡ some "DONE"
unfolding ledger_code
finished_terminal = refl

run-get_terminal_example :
    (get_terminal (run finished (records 50 "q1" "r1" "EXPIRED" [] ∷ [])) "q1" "r1" ≡ some "DONE")
    × (terminals (run finished (records 50 "q1" "r1" "EXPIRED" [] ∷ [])) "q1" "r1"
        ≡ terminals finished "q1" "r1")
run-get_terminal_example =
    run-get_terminal finished (records 50 "q1" "r1" "EXPIRED" [] ∷ []) "q1" "r1" "DONE"
      finished_terminal

record_artifact_verdict-IsTruthful_example :
    IsTruthful finished "q1" "r1" (record_artifact_verdict 60 finished "q1" "r1" true)
record_artifact_verdict-IsTruthful_example =
    record_artifact_verdict-IsTruthful 60 finished "q1" "r1" true

mem-find_stale_example :
    All (IsDue 400 300 (run [] acked)) (find_stale 400 300 (run [] acked) ("q1" ∷ []))
    × ((q r : String) (ts : ℕ)
        → Mem q ("q1" ∷ [])
        → IsDue 400 300 (run [] acked) (report q r ts)
        → Mem (report q r ts) (find_stale 400 300 (run [] acked) ("q1" ∷ [])))
mem-find_stale_example = mem-find_stale 400 300 (run [] acked) ("q1" ∷ [])
