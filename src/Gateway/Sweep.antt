-- ===== src/Gateway/Sweep.antt =====
-- `_sweep_once` of src/codeagent/gateway/service.py, under the lock of the runtimes: silent runtimes go
-- offline, offline ones dead, stopped ones away. Times are whole seconds. `parse_time` is
-- `datetime.fromisoformat` and `timestamp`, where `none` is its ValueError.
pub mod Loops
pub mod Ages
use aimeshchat.Base.{
  ℕ, ◌+◌, String, Bool, true, false, not, ◌&&◌, ◌||◌, Option, none, some, List, [], ◌∷◌, ◌==◌, any,
  ltb, leb, eqb, ◌*◌, if◌then◌else◌,
}
use aimeshchat.Base.Table.{Table, lookup, modify, remove}
use aimeshchat.Gateway.Runtimes.{
  RuntimeRecord, Presence, alive, stale, dead, RuntimeStatus, active, offline, stopped,
}
use aimeshchat.Gateway.Control.{Control, delete_generation}
use aimeshchat.Gateway.Events.{Draft}
use aimeshchat.Gateway.State.{Gateway, Peer, peer_offline, persist_control_state, try_append}
use aimeshchat.Gateway.Register.{Clock}
use aimeshchat.Gateway.Claims.{prune_claims}

-- The time limits, and the JSON text of the event's payload.
pub record Limits : Type 0 where
  pub offline_timeout : ℕ
  pub dead_timeout : ℕ
  pub parse_time : String → Option ℕ
  pub payload_text : RuntimeRecord → String

abbrev pub is_active : RuntimeStatus → Bool
is_active active = true
is_active _ = false

abbrev pub is_offline : RuntimeStatus → Bool
is_offline offline = true
is_offline _ = false

abbrev pub is_stopped : RuntimeStatus → Bool
is_stopped stopped = true
is_stopped _ = false

abbrev pub is_stale : Presence → Bool
is_stale stale = true
is_stale _ = false

abbrev young : ℕ → Option ℕ → Bool
young now none = false
young now (some created) = ltb now (created + 180)

-- The time that a runtime may be silent: twice as long in its first three minutes.
unfoldable pub patience : Limits → ℕ → RuntimeRecord → ℕ
patience limits now r =
    if not (r.created_at == "") && young now (limits.parse_time r.created_at)
    then limits.offline_timeout * 2
    else limits.offline_timeout

unfoldable pub goes_offline : Limits → ℕ → RuntimeRecord → Bool
goes_offline limits now r = is_active r.status && ltb (r.last_activity + patience limits now r) now

unfoldable pub goes_dead : Limits → ℕ → RuntimeRecord → Bool
goes_dead limits now r =
    is_offline r.status
    && (is_stale r.presence
        && (ltb 0 r.last_activity && ltb (r.last_activity + limits.dead_timeout) now))

abbrev pub taken_offline : RuntimeRecord → RuntimeRecord
taken_offline r = record r { status = offline; presence = stale }

abbrev pub taken_dead : RuntimeRecord → RuntimeRecord
taken_dead r = record r { presence = dead }

abbrev pub offline_draft : Limits → Clock → String → RuntimeRecord → Draft
offline_draft limits clock rid r = record {
  runtime_id = rid;
  generation = r.generation;
  session_id = r.session_id;
  agent_id = r.agent_id;
  request_id = "";
  run_id = "";
  kind = "AGENT_STATUS";
  created_at = clock.iso;
  payload = limits.payload_text r;
}

-- A record of the dictionary, changed in place.
unfoldable pub put_record : String → Gateway → RuntimeRecord → Gateway
put_record rid g r = record g { runtimes = modify rid (λ _. r) g.runtimes }

unfoldable pub turn_offline : Limits → Clock → Gateway → String → RuntimeRecord → Gateway
turn_offline limits clock g rid r =
    let r' = taken_offline r in
    persist_control_state clock.utc
      (try_append (put_record rid g r') (offline_draft limits clock rid r')) r'

-- The first loop, with the ids that went offline.
unfoldable pub sweep_silent : Limits → Clock → Table RuntimeRecord → Gateway → Gateway × List String
sweep_silent limits clock [] g = (g, [])
sweep_silent limits clock ((rid, r) ∷ rows) g =
    let went = sweep_silent limits clock rows (turn_offline limits clock g rid r) in
    let stayed = sweep_silent limits clock rows g in
    if goes_offline limits clock.seconds r then (went.0, rid ∷ went.1) else stayed

unfoldable pub sweep_stale : Limits → Clock → Table RuntimeRecord → Gateway → Gateway
sweep_stale limits clock [] g = g
sweep_stale limits clock ((rid, r) ∷ rows) g =
    let died =
      sweep_stale limits clock rows
        (persist_control_state clock.utc (put_record rid g (taken_dead r)) (taken_dead r)) in
    let stayed = sweep_stale limits clock rows g in
    if goes_dead limits clock.seconds r then died else stayed

unfoldable pub drop_runtime : String → Gateway → Gateway
drop_runtime rid g = record g {
  runtimes = remove rid g.runtimes;
  control = (delete_generation g.control rid).0;
}

unfoldable pub sweep_stopped : Table RuntimeRecord → Gateway → Gateway
sweep_stopped [] g = g
sweep_stopped ((rid, r) ∷ rows) g =
    let gone = sweep_stopped rows (drop_runtime rid g) in
    let stayed = sweep_stopped rows g in if is_stopped r.status then gone else stayed

-- The peers of the runtimes that went offline.
unfoldable pub peer_of : Table RuntimeRecord → List String → Peer → Bool
peer_of runtimes ids peer =
    any
      (λ rid. elim (lookup rid runtimes) [
        | none ↦ false
        | some r ↦ peer.agent_id == r.agent_id && peer.session_id == r.session_id
      ])
      ids

unfoldable pub silence_peers : List String → Gateway → Table Peer → Table Peer
silence_peers ids g [] = []
silence_peers ids g ((k, peer) ∷ peers) =
    let rest = silence_peers ids g peers in
    if peer_of g.runtimes ids peer
    then (k, record peer { status = peer_offline }) ∷ rest
    else (k, peer) ∷ rest

-- `_sweep_once`. Each loop reads the dictionary as the one before has left it.
unfoldable pub sweep_once : Limits → Clock → Gateway → Gateway × List String
sweep_once limits clock g =
    let (g1, silent) = sweep_silent limits clock g.runtimes g in
    let g2 = sweep_stale limits clock g1.runtimes g1 in
    let g3 = sweep_stopped g2.runtimes g2 in
    let g4 = record g3 { claims = prune_claims clock.seconds g3.claims } in
    (record g4 { peers = silence_peers silent g4 g4.peers }, silent)
