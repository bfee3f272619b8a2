-- ===== src/Gateway/Events/Sequences.antt =====
-- The order of the rows, and the columns that no two rows share.

use aimeshchat.Base.{
  ℕ, zero, suc, ◌+◌, ◌≤◌, ◌<◌, String, ◌≡◌, refl, Bool, none, some, List, [], ◌∷◌, ◌++◌, eq_iff,
  arith, Bool-cases, inl, inr, select, drop, if◌then◌else◌,
}
use aimeshchat.Gateway.Events.{Draft, Event, from_source, max_sequence, is_tuple, find_tuple}

-- Ids rise from `lo` on and stay below `hi`.
abbrev pub Rising : ℕ → ℕ → List Event → Type 0
Rising lo hi [] = lo ≤ hi
Rising lo hi (e ∷ es) = (lo ≤ e.event_id) × Rising (suc e.event_id) hi es

-- No later row has the same host, runtime, generation and sequence.
abbrev pub NoTwins : List Event → Type 0
NoTwins [] = Unit
NoTwins (e ∷ es) = (find_tuple e.source_host e.source_sequence e.draft es ≡ none) × NoTwins es

pub Rising-weaken :
    (lo lo' hi : ℕ) (es : List Event) → lo' ≤ lo → Rising lo hi es → Rising lo' hi es
Rising-weaken lo lo' hi [] h r = omega arith
Rising-weaken lo lo' hi (e ∷ es) h r = (omega arith, r.1)

pub Rising-snoc :
    (lo hi : ℕ) (es : List Event) (e : Event)
    → e.event_id ≡ hi
    → Rising lo hi es
    → Rising lo (hi + 1) (es ++ e ∷ [])
Rising-snoc lo hi [] e h r = (omega arith, omega arith)
Rising-snoc lo hi (d ∷ es) e h r = (r.0, Rising-snoc (suc d.event_id) hi es e h r.1)

pub Rising-select :
    (p : Event → Bool) (lo hi : ℕ) (es : List Event) → Rising lo hi es → Rising lo hi (select p es)
unfolding select
Rising-select p lo hi [] r = r
Rising-select p lo hi (e ∷ es) r = elim (Bool-cases (p e)) [
  | inl h ↦ rw h (r.0, Rising-select p (suc e.event_id) hi es r.1)
  | inr h ↦ rw h (
      Rising-weaken (suc e.event_id) lo hi (select p es) (omega arith)
        (Rising-select p (suc e.event_id) hi es r.1))
]

pub Rising-drop : (n lo hi : ℕ) (es : List Event) → Rising lo hi es → Rising lo hi (drop n es)
Rising-drop zero lo hi es r = r
Rising-drop (suc n) lo hi [] r = r
Rising-drop (suc n) lo hi (e ∷ es) r =
    Rising-weaken (suc e.event_id) lo hi (drop n es) (omega arith)
      (Rising-drop n (suc e.event_id) hi es r.1)

-- Rows that a deletion leaves have no twins either.
find_tuple-select :
    (p : Event → Bool) (host : String) (seq : ℕ) (d : Draft) (es : List Event)
    → find_tuple host seq d es ≡ none
    → find_tuple host seq d (select p es) ≡ none
unfolding find_tuple select
find_tuple-select p host seq d [] h = refl
find_tuple-select p host seq d (e ∷ es) h = ground (arith, find_tuple-select p host seq d es)

pub NoTwins-select : (p : Event → Bool) (es : List Event) → NoTwins es → NoTwins (select p es)
unfolding select
NoTwins-select p [] h = tt
NoTwins-select p (e ∷ es) h = elim (Bool-cases (p e)) [
  | inl t ↦
      rw t (
        find_tuple-select p e.source_host e.source_sequence e.draft es h.0,
        NoTwins-select p es h.1,
      )
  | inr t ↦ rw t (NoTwins-select p es h.1)
]

pub NoTwins-drop : (n : ℕ) (es : List Event) → NoTwins es → NoTwins (drop n es)
NoTwins-drop zero es h = h
NoTwins-drop (suc n) [] h = h
NoTwins-drop (suc n) (e ∷ es) h = NoTwins-drop n es h.1

is_tuple_sym :
    (a b : Event)
    → is_tuple a.source_host a.source_sequence a.draft b
      ≡ is_tuple b.source_host b.source_sequence b.draft a
unfolding is_tuple from_source
is_tuple_sym a b = ground (
  arith,
  eq_iff a.source_host b.source_host,
  eq_iff b.source_host a.source_host,
  eq_iff a.runtime_id b.runtime_id,
  eq_iff b.runtime_id a.runtime_id,
)

pub find_tuple-snoc :
    (host : String) (seq : ℕ) (d : Draft) (es : List Event) (e : Event)
    → find_tuple host seq d es ≡ none
    → find_tuple host seq d (es ++ e ∷ [])
      ≡ (if is_tuple host seq d e then some e.event_id else none)
unfolding find_tuple
find_tuple-snoc host seq d [] e h = refl
find_tuple-snoc host seq d (x ∷ es) e h = ground (arith, find_tuple-snoc host seq d es e)

pub NoTwins-snoc :
    (es : List Event) (e : Event)
    → find_tuple e.source_host e.source_sequence e.draft es ≡ none
    → NoTwins es
    → NoTwins (es ++ e ∷ [])
unfolding find_tuple
NoTwins-snoc [] e f h = (refl, tt)
NoTwins-snoc (x ∷ es) e f h = (
  ground (arith, is_tuple_sym x e, find_tuple-snoc x.source_host x.source_sequence x.draft es e),
  NoTwins-snoc es e (ground arith) h.1,
)

pub max_sequence_fresh :
    (host : String) (d : Draft) (n : ℕ) (es : List Event)
    → max_sequence host d.runtime_id d.generation es < n
    → find_tuple host n d es ≡ none
unfolding max_sequence find_tuple is_tuple
max_sequence_fresh host d n [] h = refl
max_sequence_fresh host d n (e ∷ es) h = ground (arith, max_sequence_fresh host d n es)
