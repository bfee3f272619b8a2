-- ===== src/Gateway/Events/Retention.antt =====
-- What a sweep deletes, and what that does to the numbers of later events.

use aimeshchat.Base.{
  ℕ, zero, suc, ◌+◌, ◌-◌, ◌≤◌, String, ◌≡◌, ◌<◌, ◌++◌, ◌∙◌, refl, ap, Bool, true, false, not, ◌&&◌,
  ◌||◌, ltb, count, if◌then◌else◌, some, List, [], ◌∷◌, ◌==◌, eq_iff, arith, Bool-cases, inl, inr,
  select, drop, length, length-drop, All, ok,
}
use aimeshchat.Gateway.Events.Invariant.{after}
use aimeshchat.Gateway.Events.{
  Draft, Event, EventStore, validate, from_source, max_sequence, add_row, append_local, find_tuple,
  ingest_row, ingest_remote, sweep, retained, terminal_kind, expired_terminal, expired_tool,
  max_total_events, before,
}

All-drop : (P : Event → Type 0) (n : ℕ) (es : List Event) → All P es → All P (drop n es)
All-drop P zero es h = h
All-drop P (suc n) [] h = h
All-drop P (suc n) (e ∷ es) h = All-drop P n es h.1

-- Neither retention rule wants the event gone.
abbrev pub IsFresh : String → String → Event → Type 0
IsFresh cutoff_tool cutoff_terminal e =
    (e.kind ≡ "TOOL_UPDATED" → before e.created_at cutoff_tool ≡ false)
    × (terminal_kind e.kind ≡ true → before e.created_at cutoff_terminal ≡ false)

-- The same as a test.
abbrev pub fresh : String → String → Event → Bool
fresh cutoff_tool cutoff_terminal e =
    (not (e.kind == "TOOL_UPDATED") || not (before e.created_at cutoff_tool))
    && (not (terminal_kind e.kind) || not (before e.created_at cutoff_terminal))

retained-IsFresh : (a b : String) (es : List Event) → All (IsFresh a b) (retained a b es)
unfolding retained select expired_tool expired_terminal
retained-IsFresh a b [] = tt
retained-IsFresh a b (e ∷ es) = elim (Bool-cases (fresh a b e)) [
  | inl h ↦
      let own : IsFresh a b e =
        (λ k. ground (arith, h, eq_iff e.kind "TOOL_UPDATED"), λ k. ground (arith, h)) in
      ground (arith, h, own, retained-IsFresh a b es)
  | inr h ↦ ground (arith, h, retained-IsFresh a b es)
]

retained-fresh : (a b : String) (es : List Event) → retained a b es ≡ select (fresh a b) es
unfolding retained select expired_tool expired_terminal
retained-fresh a b [] = refl
retained-fresh a b (e ∷ es) = ground (arith, retained-fresh a b es)

length-select :
    (p : Event → Bool) (es : List Event)
    → length (select (λ e. not (p e)) es) + count p es ≡ length es
unfolding select count
length-select p [] = refl
length-select p (e ∷ es) = ground (arith, length-select p es)

take-drop :
    (n : ℕ) (es : List Event) → (old : List Event) × (old ++ drop n es ≡ es) × (n ≡ 0 → old ≡ [])
take-drop zero es = ([], refl, λ e. refl)
take-drop (suc n) [] = ([], refl, λ e. refl)
take-drop (suc n) (e ∷ es) =
    let (old, split, _) = take-drop n es in
    (e ∷ old, ap (λ t. e ∷ t) split, λ h. absurd (omega arith))

-- What a sweep leaves and answers.
pub record IsPruned (a b : String) (s s' : EventStore) (removed : ℕ) : Type 0 where
  pub fresh_only : All (IsFresh a b) s'.rows
  pub bounded : length s'.rows ≤ max_total_events
  pub counted : length s'.rows + removed ≡ length s.rows
  pub evicted : List Event
  pub newest : evicted ++ s'.rows ≡ select (fresh a b) s.rows
  pub needed : length s'.rows < max_total_events → evicted ≡ []

-- After a sweep no event is left that a retention rule wants gone, and at most `max_total_events` events
-- are left: the newest of those that no rule wants gone, and all of them if they are fewer. The number
-- that is returned, the sum of three rowcounts, is that of the events that are gone.
pub sweep_bounds : (a b : String) (s : EventStore) → IsPruned a b s (sweep a b s).0 (sweep a b s).1
unfolding sweep retained
sweep_bounds a b s =
    let kept = retained a b s.rows in
    let young = select (λ e. not (expired_tool a e)) s.rows in
    let excess = if ltb max_total_events (length kept) then length kept - max_total_events else 0 in
    let first = length-select (expired_tool a) s.rows in
    let second = length-select (expired_terminal b) young in
    let (old, split, none_old) = take-drop excess kept in
    record {
      fresh_only = All-drop (IsFresh a b) excess kept (retained-IsFresh a b s.rows);
      bounded = ground (arith, length-drop excess kept);
      counted = ground (arith, length-drop excess kept, first, second);
      evicted = old;
      newest = split ∙ retained-fresh a b s.rows;
      needed = λ h. none_old (ground (arith, length-drop excess kept, h));
    }

-- Every event of a source is an update that the sweep's first rule wants gone.
abbrev pub OnlyExpired : String → String → String → ℕ → Event → Type 0
OnlyExpired a host runtime_id generation e =
    from_source host runtime_id generation e ≡ true → expired_tool a e ≡ true

max_sequence-retained :
    (a b host runtime_id : String) (generation : ℕ) (es : List Event)
    → All (OnlyExpired a host runtime_id generation) es
    → max_sequence host runtime_id generation (retained a b es) ≡ 0
unfolding retained select max_sequence
max_sequence-retained a b host runtime_id generation [] h = refl
max_sequence-retained a b host runtime_id generation (e ∷ es) h =
    ground (arith, h.0, max_sequence-retained a b host runtime_id generation es h.1)

max_sequence-drop :
    (host runtime_id : String) (generation n : ℕ) (es : List Event)
    → max_sequence host runtime_id generation es ≡ 0
    → max_sequence host runtime_id generation (drop n es) ≡ 0
unfolding max_sequence
max_sequence-drop host runtime_id generation zero es h = h
max_sequence-drop host runtime_id generation (suc n) [] h = h
max_sequence-drop host runtime_id generation (suc n) (e ∷ es) h =
    max_sequence-drop host runtime_id generation n es (ground arith)

ingest_known :
    (hub : EventStore) (host : String) (seq : ℕ) (d : Draft) (id : ℕ)
    → find_tuple host seq d hub.rows ≡ some id
    → after hub (ingest_remote hub host seq d) ≡ hub
unfolding ingest_remote ingest_row
ingest_known hub host seq d id h = rw h (ground arith)

-- A source whose events are all expired updates is numbered from 1 again after a sweep. A hub that has
-- an earlier event 1 of it takes the new one for a replay: it stores nothing.
pub sequence_reused :
    (a b : String) (s hub : EventStore) (d : Draft) (id : ℕ)
    → validate d ≡ true
    → All (OnlyExpired a s.local_host d.runtime_id d.generation) s.rows
    → find_tuple s.local_host 1 d hub.rows ≡ some id
    → (append_local (sweep a b s).0 d ≡ ok (add_row (sweep a b s).0 s.local_host 1 d))
      × (after hub (ingest_remote hub s.local_host 1 d) ≡ hub)
unfolding append_local sweep
sequence_reused a b s hub d id v h k = (
  rw (
    v,
    max_sequence-drop s.local_host d.runtime_id d.generation _ (retained a b s.rows)
        (max_sequence-retained a b s.local_host d.runtime_id d.generation s.rows h),
  ),
  ingest_known hub s.local_host 1 d id k,
)
