-- ===== src/Mailbox/Store/Steps.antt =====
-- The protocol of claims as a step relation: what a call by one owner at one time may do to the
-- folders, with the condition on each step.
use aimeshchat.Base.{ℕ, String, true, false, none, some, [], ◌∷◌, ◌≡◌, any}
use aimeshchat.Base.Table.{Table, lookup, insert}
use aimeshchat.Mailbox.Store.{
  Claim, Box, Place, in_inbox, in_processing, in_archive, in_corrupt, move, drop_claim, is_fresh,
  claims_of, claim_name, claim_id,
}
use aimeshchat.Mailbox.Store.Read.{publish}
use aimeshchat.Mailbox.Store.Finish.{is_there, is_owner, is_foreign, settle, renewed}

-- A message that its owner is done with, or gives back.
pub data IsExit : Place → Type 0 where
  to_archive : IsExit in_archive
  to_inbox : IsExit in_inbox

pub data Step (now : ℕ) (owner : String) : Box → Box → Type 0 where
  quarantined : (name : String) (b : Box) → Step now owner b (move name in_inbox in_corrupt b)
  -- A claim under a name that no claim has, and its message.
  taken :
      (name : String) (b : Box)
      → is_there name b.inbox ≡ true
      → lookup (claim_name name owner) b.claims ≡ none
      → Step now owner b (move name in_inbox in_processing (publish now owner name b))
  -- A claim whose lease is over goes, and its message comes back.
  expired :
      (name : String) (c : Claim) (claimed_at : ℕ) (b : Box)
      → lookup name b.claims ≡ some (some c)
      → c.claimed_at ≡ some claimed_at
      → is_fresh now claimed_at ≡ false
      → Step now owner b (drop_claim name (move (claim_id name c) in_processing in_inbox b))
  -- A claim without a message in processing goes.
  orphaned :
      (name : String) (c : Claim) (b : Box)
      → lookup name b.claims ≡ some (some c)
      → is_there (claim_id name c) b.processing ≡ false
      → Step now owner b (drop_claim name b)
  -- The owner of the only claim found for a message ends it.
  settled :
      (msg_id name : String) (c : Claim) (dest : Place) (b : Box)
      → claims_of msg_id b.claims ≡ (name, some c) ∷ []
      → is_owner owner c.owner ≡ true
      → IsExit dest
      → Step now owner b (settle msg_id dest name b)
  archived_unread :
      (msg_id : String) (b : Box) → Step now owner b (move msg_id in_inbox in_archive b)
  -- No claim found for the message is another's.
  archived_own :
      (msg_id : String) (b : Box)
      → any (λ (name, c). is_foreign owner c) (claims_of msg_id b.claims) ≡ false
      → Step now owner b (move msg_id in_processing in_archive b)
  given_back_unclaimed :
      (msg_id : String) (b : Box)
      → claims_of msg_id b.claims ≡ []
      → Step now owner b (move msg_id in_processing in_inbox b)
  renewed_own :
      (msg_id name : String) (c : Claim) (b : Box)
      → claims_of msg_id b.claims ≡ (name, some c) ∷ []
      → is_owner owner c.owner ≡ true
      → Step now owner b (record b { claims = insert name (some (renewed now c)) b.claims })
  tidied : (t : Table ℕ) (b : Box) → Step now owner b (record b { tmp_claims = t })

pub data Steps (now : ℕ) (owner : String) : Box → Box → Type 0 where
  done : (b : Box) → Steps now owner b b
  next : (a b c : Box) → Step now owner a b → Steps now owner b c → Steps now owner a c

pub Steps-one : (now : ℕ) (owner : String) (a b : Box) → Step now owner a b → Steps now owner a b
Steps-one now owner a b s = next a b b s (done b)

pub Steps-append :
    (now : ℕ) (owner : String) (a b c : Box)
    → Steps now owner a b
    → Steps now owner b c
    → Steps now owner a c
Steps-append now owner a b c (done _) t = t
Steps-append now owner a b c (next _ d _ s r) t = next a d c s (Steps-append now owner d b c r t)

-- What every step keeps, many keep.
pub Steps-keep {κ} :
    (P : Box → Type κ) (now : ℕ) (owner : String)
    → ((a b : Box) → Step now owner a b → P a → P b)
    → (a b : Box) → Steps now owner a b
    → P a
    → P b
Steps-keep P now owner keep a b (done _) p = p
Steps-keep P now owner keep a b (next _ d _ s r) p =
    Steps-keep P now owner keep d b r (keep a d s p)
