-- ===== src/Gateway/Control/Reviews.antt =====
-- The UNIQUE column of `reviews`: a session belongs to one review key.
use aimeshchat.Base.{
  String, ◌≡◌, refl, ◌≢◌, false, Option, none, some, [], ◌∷◌, eq_iff, arith, Bool-cases, inl, inr,
}
use aimeshchat.Base.Table.{Table, lookup, insert, IsKeyed, lookup-insert, IsKeyed-insert}
use aimeshchat.Gateway.Control.{
  Control, Review, session_taken, upsert_review, get_review, get_review_by_session,
  first_of_session,
}

-- The table is keyed by review key and by session.
pub record IsMirror (t : Table Review) : Type 0 where
  pub keyed : IsKeyed t
  pub one_key :
      (j k : String) (q r : Review)
      → lookup j t ≡ some q
      → lookup k t ≡ some r
      → q.swarm_session_id ≡ r.swarm_session_id
      → j ≡ k

-- A session that no other row has.
session_free :
    (key session : String) (t : Table Review) (k : String) (r : Review)
    → session_taken key session t ≡ false
    → lookup k t ≡ some r
    → r.swarm_session_id ≡ session
    → k ≡ key
unfolding session_taken lookup
session_free key session [] k r free h e = cc
session_free key session ((j, q) ∷ t) k r free h e = ground (
  arith,
  eq_iff j k,
  eq_iff j key,
  eq_iff q.swarm_session_id session,
  session_free key session t k r,
)

insert-IsMirror :
    (key : String) (row : Review) (t : Table Review)
    → session_taken key row.swarm_session_id t ≡ false
    → IsMirror t
    → IsMirror (insert key row t)
insert-IsMirror key row t free m = record {
  keyed = IsKeyed-insert key row t m.keyed;
  one_key = λ j k q r hj hk e. ground (
    arith,
    eq_iff key j,
    eq_iff key k,
    lookup-insert key j row t,
    lookup-insert key k row t,
    session_free key row.swarm_session_id t j q free,
    session_free key row.swarm_session_id t k r free,
    m.one_key j k q r,
  );
}

-- The mirror of a review keeps every session with one review key, also where the write is refused.
pub upsert_review-IsMirror :
    (now : String) (c : Control) (key session runtime_id profile_id agent_id : String)
    → IsMirror c.reviews
    → IsMirror (upsert_review now c key session runtime_id profile_id agent_id).reviews
unfolding upsert_review
upsert_review-IsMirror now c key session runtime_id profile_id agent_id m =
    elim (Bool-cases (session_taken key session c.reviews)) [
      | inl e ↦ rw e m
      | inr e ↦ rw e (insert-IsMirror key _ c.reviews e m)
    ]

first_of_session_sound :
    (session : String) (t : Table Review) (k : String) (r : Review)
    → IsKeyed t
    → first_of_session session t ≡ some (k, r)
    → (lookup k t ≡ some r) × (r.swarm_session_id ≡ session)
unfolding first_of_session lookup
first_of_session_sound session [] k r u h = cc
first_of_session_sound session ((j, q) ∷ t) k r u h =
    ground (
      arith,
      eq_iff j k,
      eq_iff q.swarm_session_id session,
      first_of_session_sound session t k r u.1,
    )

first_of_session_total :
    (session : String) (t : Table Review) (k : String) (r : Review)
    → lookup k t ≡ some r
    → r.swarm_session_id ≡ session
    → first_of_session session t ≢ none
unfolding first_of_session lookup
first_of_session_total session [] k r h e = cc
first_of_session_total session ((j, q) ∷ t) k r h e =
    ground
      (arith, eq_iff j k, eq_iff q.swarm_session_id session, first_of_session_total session t k r)

find_by_session :
    (t : Table Review) (k : String) (r : Review) (o : Option (String × Review))
    → IsMirror t
    → lookup k t ≡ some r
    → first_of_session r.swarm_session_id t ≡ o
    → o ≡ some (k, r)
find_by_session t k r none m h e = absurd (first_of_session_total r.swarm_session_id t k r h refl e)
find_by_session t k r (some (j, q)) m h e =
    let (hq, s) = first_of_session_sound r.swarm_session_id t j q m.keyed e in
    let same = m.one_key j k q r hq h s in cc

-- While each session has one review key, the two ways to read a review agree: a review that is found
-- by its key is the one that its session finds, with that key.
pub get_review_by_session-get_review :
    (c : Control) (k : String) (r : Review)
    → IsMirror c.reviews
    → get_review c k ≡ some r
    → get_review_by_session c r.swarm_session_id ≡ some (k, r)
unfolding get_review get_review_by_session
get_review_by_session-get_review c k r m h = find_by_session c.reviews k r _ m h refl

pub IsMirror-empty : IsMirror []
unfolding lookup
IsMirror-empty = record { keyed = tt; one_key = λ j k q r h _ _. cc }
