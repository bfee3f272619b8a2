-- ===== src/Gateway/Send/Quiet.antt =====
-- Handlers that leave the commands and the messages alone: `runtime_context_set`, `runtime_stop` and
-- `_sweep_once`.
use aimeshchat.Base.{
  ℕ, String, ◌≡◌, ◌∙◌, refl, not, ◌&&◌, ◌==◌, Option, some, [], ◌∷◌, arith, Bool-cases,
  Option-cases, inl, inr, Result, ok, err,
}
use aimeshchat.Base.Table.{Table, lookup}
use aimeshchat.Gateway.Runtimes.{RuntimeRecord, ModelContext}
use aimeshchat.Gateway.Control.{upsert_generation, delete_generation}
use aimeshchat.Gateway.Events.{Event, EventStore, StoreError, append_local}
use aimeshchat.Gateway.State.{Gateway, persist_control_state, try_append}
use aimeshchat.Gateway.Register.{Clock}
use aimeshchat.Gateway.Sweep.{
  Limits, put_record, goes_offline, goes_dead, is_stopped, taken_dead, turn_offline, sweep_silent,
  sweep_stale, sweep_stopped, drop_runtime, sweep_once,
}
use aimeshchat.Gateway.Lifecycle.{
  draft_of, stopped_record, runtime_context_set, purge_stopped, runtime_stop,
}

-- The commands and the messages are the same.
abbrev pub Untouched : Gateway → Gateway → Type 0
Untouched g g' = (g'.control.commands ≡ g.control.commands) × (g'.sent ≡ g.sent)

Untouched-trans : (a b c : Gateway) → Untouched a b → Untouched b c → Untouched a c
Untouched-trans a b c (p, q) (s, t) = (s ∙ p, t ∙ q)

died_keeps :
    (clock : Clock) (g : Gateway) (rid : String) (r : RuntimeRecord)
    → Untouched g (persist_control_state clock.utc (put_record rid g r) r)
unfolding put_record persist_control_state upsert_generation
died_keeps clock g rid r = (ground arith, ground arith)

pub context_keeps :
    (clock : Clock) (g : Gateway) (id : String) (context : ModelContext) (generation : Option ℕ)
    → Untouched g (runtime_context_set clock g id context generation).0
unfolding runtime_context_set put_record persist_control_state upsert_generation
context_keeps clock g id context generation = (ground arith, ground arith)

drop_keeps : (g : Gateway) (id : String) → Untouched g (drop_runtime id g)
unfolding drop_runtime delete_generation
drop_keeps g id = (ground arith, ground arith)

purge_keeps :
    (review_key kept : String) (rows : Table RuntimeRecord) (g : Gateway)
    → Untouched g (purge_stopped review_key kept rows g)
unfolding purge_stopped
purge_keeps review_key kept [] g = (refl, refl)
purge_keeps review_key kept ((rid, r) ∷ rows) g =
    elim (Bool-cases (r.review_key == review_key && (is_stopped r.status && not (rid == kept)))) [
      | inl e ↦
          let g' = drop_runtime rid g in
          rw (purge_stopped, e)
            (Untouched-trans g g' (purge_stopped review_key kept rows g') (drop_keeps g rid)
              (purge_keeps review_key kept rows g'))
      | inr e ↦ rw (purge_stopped, e) (purge_keeps review_key kept rows g)
    ]

abbrev saved : Clock → Gateway → String → RuntimeRecord → Gateway
saved clock g id r =
    persist_control_state clock.utc (put_record id g (stopped_record r)) (stopped_record r)

stop_told :
    (clock : Clock) (payload : String) (g : Gateway) (id : String) (r : RuntimeRecord)
    (x : Result StoreError (EventStore × Event))
    → lookup id g.runtimes ≡ some r
    → append_local
        (saved clock g id r).events
        (draft_of clock (stopped_record r) "RUNTIME_STATE" payload)
      ≡ x
    → Untouched g (runtime_stop clock payload g id).0
unfolding runtime_stop
stop_told clock payload g id r (err _) e p =
    rw (runtime_stop, e, p) (died_keeps clock g id (stopped_record r))
stop_told clock payload g id r (ok (events, event)) e p =
    let told = record (saved clock g id r) { events = events } in
    let kept = died_keeps clock g id (stopped_record r) in
    elim (Bool-cases (r.review_key == "")) [
      | inl f ↦ rw (runtime_stop, e, p, f) kept
      | inr f ↦
          rw (runtime_stop, e, p, f)
            (Untouched-trans g told (purge_stopped r.review_key id told.runtimes told) kept
              (purge_keeps r.review_key id told.runtimes told))
    ]

pub stop_keeps :
    (clock : Clock) (payload : String) (g : Gateway) (id : String)
    → Untouched g (runtime_stop clock payload g id).0
unfolding runtime_stop
stop_keeps clock payload g id = elim (Option-cases (lookup id g.runtimes)) [
  | inl e ↦ rw (runtime_stop, e) (refl, refl)
  | inr (r, e) ↦ stop_told clock payload g id r _ e refl
]

turn_keeps :
    (limits : Limits) (clock : Clock) (g : Gateway) (rid : String) (r : RuntimeRecord)
    → Untouched g (turn_offline limits clock g rid r)
unfolding turn_offline try_append put_record persist_control_state upsert_generation
turn_keeps limits clock g rid r = (ground arith, ground arith)

silent_keeps :
    (limits : Limits) (clock : Clock) (rows : Table RuntimeRecord) (g : Gateway)
    → Untouched g (sweep_silent limits clock rows g).0
unfolding sweep_silent
silent_keeps limits clock [] g = (refl, refl)
silent_keeps limits clock ((rid, r) ∷ rows) g =
    elim (Bool-cases (goes_offline limits clock.seconds r)) [
      | inl e ↦
          let g' = turn_offline limits clock g rid r in
          rw (sweep_silent, e)
            (Untouched-trans g g' (sweep_silent limits clock rows g').0
              (turn_keeps limits clock g rid r) (silent_keeps limits clock rows g'))
      | inr e ↦ rw (sweep_silent, e) (silent_keeps limits clock rows g)
    ]

stale_keeps :
    (limits : Limits) (clock : Clock) (rows : Table RuntimeRecord) (g : Gateway)
    → Untouched g (sweep_stale limits clock rows g)
unfolding sweep_stale
stale_keeps limits clock [] g = (refl, refl)
stale_keeps limits clock ((rid, r) ∷ rows) g =
    elim (Bool-cases (goes_dead limits clock.seconds r)) [
      | inl e ↦
          let g' =
            persist_control_state clock.utc (put_record rid g (taken_dead r)) (taken_dead r) in
          rw (sweep_stale, e)
            (Untouched-trans g g' (sweep_stale limits clock rows g')
              (died_keeps clock g rid (taken_dead r)) (stale_keeps limits clock rows g'))
      | inr e ↦ rw (sweep_stale, e) (stale_keeps limits clock rows g)
    ]

stopped_keeps : (rows : Table RuntimeRecord) (g : Gateway) → Untouched g (sweep_stopped rows g)
unfolding sweep_stopped
stopped_keeps [] g = (refl, refl)
stopped_keeps ((rid, r) ∷ rows) g = elim (Bool-cases (is_stopped r.status)) [
  | inl e ↦
      rw (sweep_stopped, e)
        (Untouched-trans g (drop_runtime rid g) (sweep_stopped rows (drop_runtime rid g))
          (drop_keeps g rid) (stopped_keeps rows (drop_runtime rid g)))
  | inr e ↦ rw (sweep_stopped, e) (stopped_keeps rows g)
]

pub sweep_keeps :
    (limits : Limits) (clock : Clock) (g : Gateway) → Untouched g (sweep_once limits clock g).0
unfolding sweep_once
sweep_keeps limits clock g =
    let g1 = (sweep_silent limits clock g.runtimes g).0 in
    let g2 = sweep_stale limits clock g1.runtimes g1 in
    let g3 = sweep_stopped g2.runtimes g2 in
    Untouched-trans g g1 g3 (silent_keeps limits clock g.runtimes g) (
      Untouched-trans g1 g2 g3 (stale_keeps limits clock g1.runtimes g1)
        (stopped_keeps g2.runtimes g2))
