-- ===== src/Gateway/Events/Invariant.antt =====
-- What every call keeps: ids rise and lie below the counter, and the UNIQUE columns are unique.
use aimeshchat.Base.{
  ℕ, String, ◌≡◌, refl, Bool, true, false, not, Option, none, some, List, [], ◌∷◌, arith,
  Bool-cases, inl, inr, eqb, Result, ok, err, if◌then◌else◌, ◌==◌, ◌||◌,
}
use aimeshchat.Gateway.Events.{
  Draft, EventStore, StoreError, validate, add_row, append_local, find_tuple, ingest_row,
  ingest_remote, known_kind, sweep, retained,
}
use aimeshchat.Gateway.Events.Sequences.{
  Rising, NoTwins, Rising-snoc, Rising-select, Rising-drop, NoTwins-snoc, NoTwins-select,
  NoTwins-drop, max_sequence_fresh,
}

pub record IsStore (s : EventStore) : Type 0 where
  pub rising : Rising 0 s.next_id s.rows
  pub no_twins : NoTwins s.rows

add_row-IsStore :
    (s : EventStore) (host : String) (seq : ℕ) (d : Draft)
    → find_tuple host seq d s.rows ≡ none
    → IsStore s
    → IsStore (add_row s host seq d).0
unfolding add_row
add_row-IsStore s host seq d free v = record {
  rising = Rising-snoc 0 s.next_id s.rows _ refl v.rising;
  no_twins = NoTwins-snoc s.rows _ free v.no_twins;
}

-- The store after a call: as it was, if the call raised.
abbrev pub after : {A : Type 0} → EventStore → Result StoreError (EventStore × A) → EventStore
after s (ok (s', a)) = s'
after s (err e) = s

append_local-IsStore :
    (s : EventStore) (d : Draft) → IsStore s → IsStore (after s (append_local s d))
unfolding append_local
append_local-IsStore s d v = elim (Bool-cases (validate d)) [
  | inl e ↦ rw e (
      add_row-IsStore s s.local_host _ d (max_sequence_fresh s.local_host d _ s.rows (omega arith))
        v)
  | inr e ↦ rw e v
]

ingest_row-IsStore :
    (s : EventStore) (host : String) (seq : ℕ) (d : Draft) (o : Option ℕ)
    → find_tuple host seq d s.rows ≡ o
    → IsStore s
    → IsStore (ingest_row s host seq d o).0
unfolding ingest_row
ingest_row-IsStore s host seq d none h v = add_row-IsStore s host seq d h v
ingest_row-IsStore s host seq d (some id) h v = v

if-IsStore :
    {A : Type 0} (s : EventStore) (b : Bool) (x y : Result StoreError (EventStore × A))
    → IsStore (after s x)
    → IsStore (after s y)
    → IsStore (after s (if b then x else y))
if-IsStore s true x y h k = h
if-IsStore s false x y h k = k

ingest_remote-IsStore :
    (s : EventStore) (host : String) (seq : ℕ) (d : Draft)
    → IsStore s
    → IsStore (after s (ingest_remote s host seq d))
unfolding ingest_remote
ingest_remote-IsStore s host seq d v = if-IsStore s (host == "" || d.runtime_id == "") _ _ v (
    if-IsStore s (eqb seq 0) _ _ v (
      if-IsStore s (not (known_kind d.kind)) _ _ v
        (ingest_row-IsStore s host seq d (find_tuple host seq d s.rows) refl v)))

sweep-IsStore :
    (cutoff_tool cutoff_terminal : String) (s : EventStore)
    → IsStore s
    → IsStore (sweep cutoff_tool cutoff_terminal s).0
unfolding sweep retained
sweep-IsStore cutoff_tool cutoff_terminal s v = record {
  rising = Rising-drop _ _ _ _ (Rising-select _ _ _ _ (Rising-select _ _ _ _ v.rising));
  no_twins = NoTwins-drop _ _ (NoTwins-select _ _ (NoTwins-select _ _ v.no_twins));
}

-- The calls that write.
pub data Call : Type 0 where
  appends : Draft → Call
  ingests : (host : String) (seq : ℕ) → Draft → Call
  sweeps : (cutoff_tool cutoff_terminal : String) → Call

unfoldable pub step : EventStore → Call → EventStore
step s (appends d) = after s (append_local s d)
step s (ingests host seq d) = after s (ingest_remote s host seq d)
step s (sweeps cutoff_tool cutoff_terminal) = (sweep cutoff_tool cutoff_terminal s).0

unfoldable pub run : EventStore → List Call → EventStore
run s [] = s
run s (c ∷ cs) = run (step s c) cs

step-IsStore : (s : EventStore) (c : Call) → IsStore s → IsStore (step s c)
unfolding step
step-IsStore s (appends d) v = append_local-IsStore s d v
step-IsStore s (ingests host seq d) v = ingest_remote-IsStore s host seq d v
step-IsStore s (sweeps a b) v = sweep-IsStore a b s v

-- Any calls keep the event ids rising and below the id that is given next, and keep at most one event
-- for each host, runtime, generation and sequence.
pub run-IsStore : (s : EventStore) (cs : List Call) → IsStore s → IsStore (run s cs)
unfolding run
run-IsStore s [] v = v
run-IsStore s (c ∷ cs) v = run-IsStore (step s c) cs (step-IsStore s c v)
