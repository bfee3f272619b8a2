-- ===== src/Mailbox/Store/Places.antt =====
-- Sequences of calls of the claim protocol on the folders of an agent, as steps of the protocol.
use aimeshchat.Base.{ℕ, String, Option, List, [], ◌∷◌}
use aimeshchat.Mailbox.Store.{Box, Place, in_inbox, in_processing, in_archive, in_corrupt, claim_id}
use aimeshchat.Mailbox.Store.Read.{SessionMeta, read, publish}
use aimeshchat.Mailbox.Store.Finish.{
  finalize, finalize_from_inbox, release, renew_claim, recover_stale,
}
use aimeshchat.Mailbox.Store.Moves.{
  Kept, Kept-refl, Kept-trans, IsRoute, claimed, rejected, skipped, finished, put_back, move-Kept,
}
use aimeshchat.Mailbox.Store.Steps.{
  Step, Steps, done, next, quarantined, taken, expired, orphaned, settled, archived_unread,
  archived_own, given_back_unclaimed, renewed_own, tidied, IsExit, to_archive, to_inbox,
}
use aimeshchat.Mailbox.Store.Calls.{
  after, after_renewal, finalize-Steps, finalize_from_inbox-Steps, release-Steps, renew_claim-Steps,
  recover_stale-Steps,
}
use aimeshchat.Mailbox.Store.Turns.{after_read, read-Steps}

-- A call, by its owner; a call that does not look at the clock has any time, and a read has the same
-- reading on all its turns.
pub data Call : Type 0 where
  reads : ℕ → String → List String → String → Call
  renews : ℕ → String → String → Call
  -- A recovery has no owner in the source: here it has the name of who asks for it.
  recovers : ℕ → String → Call
  finalizes finalizes_from_inbox releases : ℕ → String → String → Call

abbrev pub time_of : Call → ℕ
time_of (reads now owner skip target) = now
time_of (renews now owner msg_id) = now
time_of (recovers now owner) = now
time_of (finalizes now owner msg_id) = now
time_of (finalizes_from_inbox now owner msg_id) = now
time_of (releases now owner msg_id) = now

abbrev pub owner_of : Call → String
owner_of (reads now owner skip target) = owner
owner_of (renews now owner msg_id) = owner
owner_of (recovers now owner) = owner
owner_of (finalizes now owner msg_id) = owner
owner_of (finalizes_from_inbox now owner msg_id) = owner
owner_of (releases now owner msg_id) = owner

module _ (session agent : String) (meta : Option SessionMeta) where
  -- The folders after a call.
  unfoldable pub call : Box → Call → Box
  call b (reads now owner skip target) =
      after_read now session agent owner meta b
        (read (λ _. now) session agent owner meta skip target b)
  call b (renews now owner msg_id) = after_renewal b (renew_claim now b msg_id owner)
  call b (recovers now owner) = (recover_stale now b).1
  call b (finalizes now owner msg_id) = after b (finalize b msg_id owner)
  call b (finalizes_from_inbox now owner msg_id) = after b (finalize_from_inbox b msg_id owner)
  call b (releases now owner msg_id) = after b (release b msg_id owner)

  unfoldable pub run : Box → List Call → Box
  run b [] = b
  run b (c ∷ cs) = run (call b c) cs

-- Every call is a sequence of steps of the protocol of claims, made by its owner at its time.
pub call-Steps :
    (session agent : String) (meta : Option SessionMeta) (b : Box) (c : Call)
    → Steps (time_of c) (owner_of c) b (call session agent meta b c)
unfolding call
call-Steps session agent meta b (reads now owner skip target) =
    read-Steps now session agent owner meta skip target b
call-Steps session agent meta b (renews now owner msg_id) = renew_claim-Steps now owner b msg_id
call-Steps session agent meta b (recovers now owner) = recover_stale-Steps now owner b
call-Steps session agent meta b (finalizes now owner msg_id) = finalize-Steps now owner b msg_id
call-Steps session agent meta b (finalizes_from_inbox now owner msg_id) =
    finalize_from_inbox-Steps now owner b msg_id
call-Steps session agent meta b (releases now owner msg_id) = release-Steps now owner b msg_id

pub route_of : (dest : Place) → IsExit dest → IsRoute in_processing dest
route_of dest to_archive = finished
route_of dest to_inbox = put_back

Step-Kept : (now : ℕ) (owner : String) (a b : Box) → Step now owner a b → Kept a b
Step-Kept now owner a b (quarantined name _) = move-Kept in_inbox in_corrupt name a rejected
Step-Kept now owner a b (taken name _ h e) =
    move-Kept in_inbox in_processing name (publish now owner name a) claimed
Step-Kept now owner a b (expired name c t _ h e f) =
    move-Kept in_processing in_inbox (claim_id name c) a put_back
Step-Kept now owner a b (orphaned name c _ h e) = Kept-refl a
Step-Kept now owner a b (settled msg_id name c dest _ h e x) =
    move-Kept in_processing dest msg_id a (route_of dest x)
Step-Kept now owner a b (archived_unread msg_id _) = move-Kept in_inbox in_archive msg_id a skipped
Step-Kept now owner a b (archived_own msg_id _ h) =
    move-Kept in_processing in_archive msg_id a finished
Step-Kept now owner a b (given_back_unclaimed msg_id _ h) =
    move-Kept in_processing in_inbox msg_id a put_back
Step-Kept now owner a b (renewed_own msg_id name c _ h e) = Kept-refl a
Step-Kept now owner a b (tidied t _) = Kept-refl a

pub Steps-Kept : (now : ℕ) (owner : String) (a b : Box) → Steps now owner a b → Kept a b
Steps-Kept now owner a b (done _) = Kept-refl a
Steps-Kept now owner a b (next _ d _ s r) =
    Kept-trans a d b (Step-Kept now owner a d s) (Steps-Kept now owner d b r)
