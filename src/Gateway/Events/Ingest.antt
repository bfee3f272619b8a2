-- ===== src/Gateway/Events/Ingest.antt =====
-- Replayed remote events, and the numbers of local ones.
use aimeshchat.Base.{
  ℕ, String, ◌≡◌, refl, ap, true, false, not, Option, none, some, arith, Bool-cases, inl, inr, eqb,
  Result, ok, err, eq_refl, ◌==◌, ◌||◌,
}
use aimeshchat.Gateway.Events.{
  Draft, Event, EventStore, StoreError, from_source, add_row, is_tuple, find_tuple, ingest_row,
  ingest_remote, stored, known_kind,
}
use aimeshchat.Gateway.Events.Sequences.{find_tuple-snoc}

is_tuple_self :
    (host : String) (seq : ℕ) (d : Draft) (id : ℕ)
    → is_tuple host seq d
        (record { event_id = id; source_host = host; source_sequence = seq; draft = d })
      ≡ true
unfolding is_tuple from_source
is_tuple_self host seq d id = ground (arith, eq_refl host, eq_refl d.runtime_id)

ingest_row_again :
    (s : EventStore) (host : String) (seq : ℕ) (d : Draft) (o : Option ℕ)
    → find_tuple host seq d s.rows ≡ o
    → let (s', e) = ingest_row s host seq d o in
      ingest_row s' host seq d (find_tuple host seq d s'.rows) ≡ (s', e)
unfolding ingest_row add_row
ingest_row_again s host seq d none h = ground (
  arith,
  find_tuple-snoc host seq d s.rows
      (record { event_id = s.next_id; source_host = host; source_sequence = seq; draft = d }),
  is_tuple_self host seq d s.next_id,
)
ingest_row_again s host seq d (some id) h = rw h

-- The same event once more, after an answer: the same answer, and nothing changes.
abbrev pub SameAgain : String → ℕ → Draft → Result StoreError (EventStore × Option Event) → Type 0
SameAgain host seq d (ok (s', o)) = ingest_remote s' host seq d ≡ ok (s', o)
SameAgain host seq d (err e) = ((host == "" || d.runtime_id == "") || eqb seq 0) ≡ true

SameAgain-when :
    (s : EventStore) (host : String) (seq : ℕ) (d : Draft)
    → (host == "" || d.runtime_id == "") ≡ false
    → eqb seq 0 ≡ false
    → not (known_kind d.kind) ≡ false
    → SameAgain host seq d (stored (ingest_row s host seq d (find_tuple host seq d s.rows)))
unfolding ingest_remote
SameAgain-when s host seq d a b c =
    rw (a, b, c) (ap stored (ingest_row_again s host seq d (find_tuple host seq d s.rows) refl))

-- Ingesting a remote event is idempotent: if the store accepts or skips it, ingesting it again gives
-- the same answer and leaves the store as it is. It raises only without a host, a runtime or a sequence.
pub ingest_remote-SameAgain :
    (s : EventStore) (host : String) (seq : ℕ) (d : Draft)
    → SameAgain host seq d (ingest_remote s host seq d)
unfolding ingest_remote
ingest_remote-SameAgain s host seq d = elim (Bool-cases (host == "" || d.runtime_id == "")) [
  | inl a ↦ rw a (ground arith)
  | inr a ↦ elim (Bool-cases (eqb seq 0)) [
    | inl b ↦ rw (a, b) (ground arith)
    | inr b ↦ elim (Bool-cases (not (known_kind d.kind))) [
      | inl c ↦ rw (a, b, c) (rw (a, b, c))
      | inr c ↦ rw (a, b, c) (SameAgain-when s host seq d a b c)
    ]
  ]
]
