-- ===== src/Gateway/Tests/Tables.antt =====
-- The durable tables.
use aimeshchat.Base.{String, ◌≡◌, refl, some, List, [], ◌∷◌}
use aimeshchat.Base.Table.{lookup, insert}
use aimeshchat.Gateway.Runtimes.{active}
use aimeshchat.Gateway.Control.{
  Control, Review, Generation, empty, upsert_review, get_review, session_taken,
}
use aimeshchat.Gateway.Control.Reviews.{IsMirror, IsMirror-empty, upsert_review-IsMirror}
use aimeshchat.Gateway.State.{mirror}
use aimeshchat.Gateway.Tests.{runtime}

abbrev reviewed : Control
reviewed = upsert_review "t1" empty "k1" "s1" "rt1" "p" "w1"

abbrev writes : List (String × String × Generation)
writes =
    ("t1", "rt1", mirror (runtime active 1))
    ∷ ("t2", "rt2", mirror (runtime active 2))
    ∷ ("t3", "rt1", mirror (runtime active 3))
    ∷ []

reviewed_IsMirror : IsMirror reviewed.reviews
reviewed_IsMirror = upsert_review-IsMirror "t1" empty "k1" "s1" "rt1" "p" "w1" IsMirror-empty

abbrev review : Review
review = record {
  swarm_session_id = "s1";
  runtime_id = "rt1";
  profile_id = "p";
  mailbox_agent_id = "w1";
  created_at = "t1";
  updated_at = "t1";
}

review_stored : get_review reviewed "k1" ≡ some review
unfolding get_review upsert_review session_taken lookup insert
review_stored = refl
