-- ===== src/Mailbox/Store/Cleanup.antt =====
-- `clear` and `purge` of src/codeagent/mailbox/store.py, and sequences of all the calls on the folders of
-- an agent. Whether a parked runtime holds a lease on the agent is the answer of the park registry. Each
-- is one step.
use aimeshchat.Base.{
  ℕ, ◌≤◌, String, Bool, true, false, ◌≡◌, refl, Option, none, some, List, [], ◌∷◌, length, arith,
  if◌then◌else◌,
}
use aimeshchat.Base.Table.{lookup}
use aimeshchat.Mailbox.Store.{Box}
use aimeshchat.Mailbox.Store.Read.{SessionMeta}
use aimeshchat.Mailbox.Store.Finish.{is_there, recover_stale}
use aimeshchat.Mailbox.Store.Moves.{places, Kept}
use aimeshchat.Mailbox.Store.Calls.{recover_stale-Steps}
use aimeshchat.Mailbox.Store.Places.{Call, call, time_of, owner_of, call-Steps, Steps-Kept}

-- `clear`: how many files of the archive went. Nothing where it raises `ParkLeaseActiveError`.
unfoldable pub clear : ℕ → Bool → Bool → Box → Option (ℕ × Box)
clear now parked prune_stale b =
    let cleared = record b { archive = [] } in
    if parked
    then none
    else some (length b.archive, if prune_stale then (recover_stale now cleared).1 else cleared)

unfoldable pub purge : Box → ℕ × Box
purge b = (length b.corrupt, record b { corrupt = [] })

pub data Activity : Type 0 where
  calls : Call → Activity
  clears : (now : ℕ) (parked prune_stale : Bool) → Activity
  purges : Activity

abbrev pub after_clear : Box → Option (ℕ × Box) → Box
after_clear b none = b
after_clear b (some (n, b')) = b'

module _ (session agent : String) (meta : Option SessionMeta) where
  unfoldable pub act : Box → Activity → Box
  act b (calls c) = call session agent meta b c
  act b (clears now parked prune_stale) = after_clear b (clear now parked prune_stale b)
  act b purges = (purge b).1

  unfoldable pub act_all : Box → List Activity → Box
  act_all b [] = b
  act_all b (a ∷ rest) = act_all (act b a) rest

  -- The message is not in a folder that is emptied.
  abbrev pub Spares : String → Box → Activity → Type 0
  Spares k b (calls c) = Unit
  Spares k b (clears now parked prune_stale) = is_there k b.archive ≡ false
  Spares k b purges = is_there k b.corrupt ≡ false

  abbrev pub AllSpare : String → Box → List Activity → Type 0
  AllSpare k b [] = Unit
  AllSpare k b (a ∷ rest) = Spares k b a × AllSpare k (act b a) rest

-- What an activity does to the places of one name.
abbrev Thins : String → Box → Type 0 → Box → Type 0
Thins k b Spared b' =
    places k b ≤ 1 → (places k b' ≤ places k b) × (Spared → places k b' ≡ places k b)

Kept-Thins : (k : String) (b b' : Box) (Spared : Type 0) → Kept b b' → Thins k b Spared b'
Kept-Thins k b b' Spared h one = (omega (arith, h k one), λ _. h k one)

-- An emptied folder.
cleared-Thins :
    (k : String) (b : Box) → Thins k b (is_there k b.archive ≡ false) (record b { archive = [] })
unfolding lookup
cleared-Thins k b one = (ground arith, λ e. ground (arith, e))

purged-Thins :
    (k : String) (b : Box) → Thins k b (is_there k b.corrupt ≡ false) (record b { corrupt = [] })
unfolding lookup
purged-Thins k b one = (ground arith, λ e. ground (arith, e))

clear-Thins :
    (k : String) (now : ℕ) (parked prune_stale : Bool) (b : Box)
    → Thins k b (is_there k b.archive ≡ false) (after_clear b (clear now parked prune_stale b))
unfolding clear
clear-Thins k now true prune_stale b one = (omega arith, λ _. refl)
clear-Thins k now false false b one = cleared-Thins k b one
clear-Thins k now false true b one =
    let cleared = record b { archive = [] } in
    let (fewer, same) = cleared-Thins k b one in
    let kept =
      Steps-Kept now "" cleared (recover_stale now cleared).1 (recover_stale-Steps now "" cleared) k
        (omega (arith, fewer, one)) in
    (omega (arith, kept, fewer), λ e. omega (arith, kept, same e))

act-Thins :
    (session agent : String) (meta : Option SessionMeta) (k : String) (b : Box) (a : Activity)
    → Thins k b (Spares session agent meta k b a) (act session agent meta b a)
unfolding act purge
act-Thins session agent meta k b (calls c) = Kept-Thins k b (call session agent meta b c) Unit (
    Steps-Kept (time_of c) (owner_of c) b (call session agent meta b c)
      (call-Steps session agent meta b c))
act-Thins session agent meta k b (clears now parked prune_stale) =
    clear-Thins k now parked prune_stale b
act-Thins session agent meta k b purges = purged-Thins k b

-- Through reads, renewals, recoveries, finalizes, releases, clears and purges, in any order and at any
-- times, by any owners: a message that was in one of the four folders of an agent is never in two, a
-- name that was in none is in none, and the message is still in exactly one unless it was in the archive
-- at a clear or in `_corrupt` at a purge.
pub act_all-places :
    (session agent : String) (meta : Option SessionMeta) (b : Box) (list : List Activity)
    (k : String)
    → places k b ≤ 1
    → (places k (act_all session agent meta b list) ≤ places k b)
      × (AllSpare session agent meta k b list
          → places k (act_all session agent meta b list) ≡ places k b)
unfolding act_all
act_all-places session agent meta b [] k one = (omega arith, λ _. refl)
act_all-places session agent meta b (a ∷ rest) k one =
    let (fewer, same) = act-Thins session agent meta k b a one in
    let (fewer', same') =
      act_all-places session agent meta (act session agent meta b a) rest k
        (omega (arith, fewer, one)) in
    (omega (arith, fewer, fewer'), λ h. omega (arith, same h.0, same' h.1))
