-- ===== src/Gateway/Tests/Events.antt =====
-- The event store.
use aimeshchat.Base.{String, ◌≡◌, refl, true, none, some, List, [], ◌∷◌, All, ok, arith}
use aimeshchat.Gateway.Events.{
  Draft, Event, EventStore, Query, validate, known_kind, from_source, add_row, append_local,
  is_tuple, find_tuple, ingest_remote, list_after, expired_tool, sweep,
}
use aimeshchat.Gateway.Events.Invariant.{
  IsStore, after, Call, appends, ingests, sweeps, run, run-IsStore,
}
use aimeshchat.Gateway.Events.Ingest.{SameAgain, ingest_remote-SameAgain}
use aimeshchat.Gateway.Events.Pages.{PageHolds, list_after-PageHolds}
use aimeshchat.Gateway.Events.Retention.{IsPruned, sweep_bounds, OnlyExpired, sequence_reused}
use aimeshchat.Gateway.Tests.{no_events}

abbrev draft : String → String → Draft
draft kind created_at = record {
  runtime_id = "rt1";
  generation = 1;
  session_id = "s1";
  agent_id = "w1";
  request_id = "";
  run_id = "";
  kind = kind;
  created_at = created_at;
  payload = "{}";
}

empty_IsStore : IsStore no_events
unfolding find_tuple
empty_IsStore = record { rising = omega arith; no_twins = tt }

abbrev calls : List Call
calls =
    appends (draft "TURN_STARTED" "2026-01-01")
    ∷ ingests "b" 1 (draft "TOOL_UPDATED" "2020-01-01")
    ∷ ingests "b" 1 (draft "TOOL_UPDATED" "2020-01-01")
    ∷ sweeps "2025-01-01" "2025-01-01"
    ∷ []

run-IsStore_example : IsStore (run no_events calls)
run-IsStore_example = run-IsStore no_events calls empty_IsStore

abbrev update : Event
update = record {
  event_id = 1;
  source_host = "a";
  source_sequence = 1;
  draft = draft "TOOL_UPDATED" "2020-01-01";
}

abbrev one_update : EventStore
one_update = record { rows = update ∷ []; next_id = 2; local_host = "a" }

one_IsStore : IsStore one_update
unfolding find_tuple
one_IsStore = record { rising = (omega arith, omega arith); no_twins = (refl, tt) }

ingest_remote-SameAgain_example :
    SameAgain "b" 1
      (draft "USAGE" "2026-01-01")
      (ingest_remote one_update "b" 1 (draft "USAGE" "2026-01-01"))
ingest_remote-SameAgain_example =
    ingest_remote-SameAgain one_update "b" 1 (draft "USAGE" "2026-01-01")

abbrev from_start : Query
from_start = record { cursor = 0; filters = none; limit = 10; session_id = "s1"; runtime_id = "" }

list_after-PageHolds_example : PageHolds one_update from_start (list_after one_update from_start)
list_after-PageHolds_example = list_after-PageHolds one_update from_start one_IsStore

sweep_bounds_example :
    IsPruned "2025-01-01" "2025-01-01" one_update
      (sweep "2025-01-01" "2025-01-01" one_update).0
      (sweep "2025-01-01" "2025-01-01" one_update).1
sweep_bounds_example = sweep_bounds "2025-01-01" "2025-01-01" one_update

new_valid : validate (draft "USAGE" "2026-01-01") ≡ true
unfolding validate known_kind
new_valid = refl

All-expired : All (OnlyExpired "2025-01-01" "a" "rt1" 1) one_update.rows
unfolding expired_tool
All-expired = ((λ e. refl), tt)

hub_has : find_tuple "a" 1 (draft "USAGE" "2026-01-01") one_update.rows ≡ some 1
unfolding find_tuple is_tuple from_source
hub_has = refl

sequence_reused_example :
    (append_local (sweep "2025-01-01" "2025-01-01" one_update).0 (draft "USAGE" "2026-01-01")
      ≡ ok (
          add_row
            (sweep "2025-01-01" "2025-01-01" one_update).0
            "a"
            1
            (draft "USAGE" "2026-01-01")))
    × (after one_update (ingest_remote one_update "a" 1 (draft "USAGE" "2026-01-01")) ≡ one_update)
sequence_reused_example =
    sequence_reused "2025-01-01" "2025-01-01" one_update one_update (draft "USAGE" "2026-01-01") 1
      new_valid All-expired hub_has
