-- ===== src/Mailbox/Store/Handover.antt =====
-- What a read hands over, and a read for one message that goes on while its own claim is fresh.
use aimeshchat.Base.{
  ℕ, ◌≤◌, String, true, false, Option, some, List, [], ◌∷◌, ◌==◌, ◌≡◌, ok, refl, All, ◌≢◌, arith,
  eq_iff, subst, Bool-cases, Option-cases, inl, inr,
}
use aimeshchat.Base.Table.{
  lookup, insert, lookup-remove, lookup-insert, IsKeyed, IsKeyed-insert, IsKeyed-remove,
}
use aimeshchat.Mailbox.Store.{
  File, Claim, Box, in_inbox, in_processing, in_corrupt, move, drop_claim, claim_name, claim_id,
  reap_expired_claim, is_fresh,
}
use aimeshchat.Mailbox.Store.Read.{
  SessionMeta, Answer, Turn, returned, again, turn, read, may_take, enough, publish, new_claim,
  message,
}
use aimeshchat.Mailbox.Store.Finish.{is_there}
use aimeshchat.Mailbox.Store.Turns.{turn-cases}
use aimeshchat.Mailbox.Store.{json}
use aimeshchat.Mailbox.Dicts.{Dict}
use aimeshchat.Mailbox.Validate.{validate_message, text_at}
use aimeshchat.Mailbox.Store.Read.{
  first_where, list_messages, in_roster, take_file, judge, claim_message,
}
use aimeshchat.Mailbox.Store.Calls.{reap_expired_claim-cases}
use aimeshchat.Mailbox.Store.Loop.{Holds, read_loop-holds}
use aimeshchat.Mailbox.Store.Lease.{IsHeld}

-- No claim file is about the message.
pub record IsFree (m : String) (b : Box) : Type 0 where
  pub keyed : IsKeyed b.claims
  pub free :
      (name : String) (c : Claim) → lookup name b.claims ≡ some (some c) → claim_id name c ≢ m

module _ (m : String) (b : Box) (h : IsFree m b) where
  IsFree-quarantined : (name : String) → IsFree m (move name in_inbox in_corrupt b)
  unfolding move
  IsFree-quarantined name = elim (Option-cases (lookup name b.inbox)) [
    | inl e ↦ rw (move, e) h
    | inr (f, e) ↦ rw (move, e) record { keyed = h.keyed; free = h.free }
  ]

  IsFree-dropped :
      (id name : String) → IsFree m (drop_claim name (move id in_processing in_inbox b))
  unfolding move
  IsFree-dropped id name = elim (Option-cases (lookup id b.processing)) [
    | inl e ↦ rw (move, e) fewer
    | inr (f, e) ↦ rw (move, e) record { keyed = fewer.keyed; free = fewer.free }
  ]
    where
      fewer : IsFree m (drop_claim name b)
      fewer = record {
        keyed = IsKeyed-remove name b.claims h.keyed;
        free = λ n c e. h.free n c (ground (arith, lookup-remove name n b.claims, e));
      }

  -- The claim that is published, and the message that moves.
  IsHeld-claimed :
      (since now : ℕ) (owner : String)
      → since ≤ now
      → m ≢ ""
      → is_there m b.inbox ≡ true
      → IsHeld m owner since (move m in_inbox in_processing (publish now owner m b))
  unfolding move
  IsHeld-claimed since now owner late valid there = elim (Option-cases (lookup m b.inbox)) [
    | inl e ↦ absurd (ground (arith, there, e))
    | inr (f, e) ↦
        rw (move, e)
          record {
            keyed =
                IsKeyed-insert (claim_name m owner) (some (new_claim now owner m)) b.claims h.keyed;
            there = ground (arith, lookup-insert m m f b.processing, eq_iff m m);
            away = ground (arith, lookup-remove m m b.inbox, eq_iff m m);
            claim = new_claim now owner m;
            own = ground (
              arith,
              lookup-insert (claim_name m owner) (claim_name m owner) (some (new_claim now owner m))
                  b.claims,
              eq_iff (claim_name m owner) (claim_name m owner),
            );
            owned = refl;
            named = ground (arith, valid, eq_iff m "");
            young = young;
          }
  ]
    where
      young :
          (n : String) (c : Claim) (t : ℕ)
          → lookup n (insert (claim_name m owner) (some (new_claim now owner m)) b.claims)
            ≡ some (some c)
          → claim_id n c ≡ m
          → c.claimed_at ≡ some t
          → since ≤ t
      young n c t p q r = elim (Bool-cases (claim_name m owner == n)) [
        | inl k ↦ ground (
          arith,
          lookup-insert (claim_name m owner) n (some (new_claim now owner m)) b.claims,
          k,
          p,
          r,
          late,
        )
        | inr k ↦ absurd (
            h.free n c
              (ground (
                arith,
                lookup-insert (claim_name m owner) n (some (new_claim now owner m)) b.claims,
                k,
                p,
              ))
              q)
      ]

abbrev Handed : String → String → ℕ → Answer → Box → Type 0
Handed m owner since a b = (e : Dict) → a ≡ message m e → IsHeld m owner since b

-- When `read` returns a message, no claim file having been about it, the message is held by the owner that
-- read it, from any time on that no reading of the clock in that read is before.
pub read-IsHeld :
    (clock : ℕ → ℕ) (since : ℕ) (session agent owner : String) (meta : Option SessionMeta)
    (skip : List String) (target m : String) (d : Dict) (b b' : Box)
    → ((n : ℕ) → since ≤ clock n)
    → m ≢ ""
    → IsFree m b
    → read clock session agent owner meta skip target b ≡ some (message m d, b')
    → IsHeld m owner since b'
unfolding read
read-IsHeld clock since session agent owner meta skip target m d b b' late valid free h =
    read_loop-holds clock session agent owner meta skip target (IsFree m) (Handed m owner since)
      step (enough b) b [] (message m d, b') free h d refl
  where
    step :
        (n : ℕ) (a : Box) (contested : List String)
        → IsFree m a
        → Holds clock session agent owner meta skip target
            (IsFree m)
            (Handed m owner since)
            (turn (clock n) session agent owner meta skip target a contested)
    step n a contested p =
        turn-cases (clock n) session agent owner meta
          (Holds clock session agent owner meta skip target (IsFree m) (Handed m owner since)) skip
          target a contested (λ e q. absurd (ground arith))
          λ name there may. record {
            refused = IsFree-quarantined m a p name;
            raised = λ e q. absurd (ground arith);
            claims = λ e k f q.
                let same : m ≡ name = cc in
                subst
                  (λ k.
                    IsHeld m owner since
                      (move k in_inbox in_processing (publish (clock n) owner k a)))
                  same (IsHeld-claimed m a p since (clock n) owner (late n) valid (rw same there));
            reaps = λ e.
                reap_expired_claim-cases (λ r. IsFree m r.1) (clock n) (claim_name name owner) a p
                  (λ c t f g k.
                    IsFree-dropped m a p (claim_id (claim_name name owner) c)
                      (claim_name name owner));
            contests = λ c e. p;
          }

-- Turns of the loop of `read` at these readings of the clock, until one returns.
unfoldable pub turns :
    String
    → String
    → String
    → Option SessionMeta
    → List String
    → String
    → List ℕ
    → Box
    → List String
    → Turn
turns session agent owner meta skip target [] b contested = again b contested
turns session agent owner meta skip target (now ∷ times) b contested =
    elim (turn now session agent owner meta skip target b contested) [
      | returned a b' ↦ returned a b'
      | again b' contested' ↦ turns session agent owner meta skip target times b' contested'
    ]

module _ (session agent owner : String) (meta : Option SessionMeta) (skip : List String)
    (target : String) (b : Box) (f : File) (d : Dict) (c : Claim) (claimed_at : ℕ)
    (found : first_where (may_take skip target []) (list_messages b.inbox) ≡ some (target, f))
    (content : f.content ≡ json (some d))
    (valid : validate_message (some d) (some session) (some agent) (some target) ≡ ok tt)
    (member : in_roster meta (text_at "from" d) ≡ true)
    (old : lookup (claim_name target owner) b.claims ≡ some (some c))
    (dated : c.claimed_at ≡ some claimed_at) where
  not_reaped :
      (now : ℕ)
      → is_fresh now claimed_at ≡ true
      → reap_expired_claim now (claim_name target owner) b ≡ (false, b)
  unfolding reap_expired_claim
  not_reaped now fresh = rw (reap_expired_claim, old, dated, fresh) refl

  turn-contested :
      (now : ℕ) (contested : List String)
      → is_fresh now claimed_at ≡ true
      → first_where (may_take skip target contested) (list_messages b.inbox) ≡ some (target, f)
      → turn now session agent owner meta skip target b contested ≡ again b (target ∷ contested)
  unfolding turn take_file judge claim_message
  turn-contested now contested fresh e =
      rw (turn, e, content, valid, member, claim_message, old, not_reaped now fresh) refl

  -- For a target, ids that are contested do not count.
  module _ (named : target ≢ "") where
    same-may_take :
        (contested : List String) → may_take skip target [] ≡ may_take skip target contested
    same-may_take contested = λ i n. at n i
      where
        at : (n : String) → may_take skip target [] n ≡ may_take skip target contested n
        at n = ground (arith, named, eq_iff target "")

    turns_go_on :
        (times : List ℕ) (contested : List String)
        → All (λ now. is_fresh now claimed_at ≡ true) times
        → (contested' : List String) × (turns session agent owner meta skip target times b contested
            ≡ again b contested')
    unfolding turns
    turns_go_on [] contested fresh = (contested, refl)
    turns_go_on (now ∷ times) contested fresh =
        let e =
          subst (λ p. first_where p (list_messages b.inbox) ≡ some (target, f))
            (same-may_take contested) found in
        rw (turns, turn-contested now contested fresh.0 e)
          (turns_go_on times (target ∷ contested) fresh.1)

-- A read for one message that is valid and in the inbox, for which the reader's own claim file is
-- there, goes on turning without any change to the folders as long as that claim is fresh: after any
-- number of turns, each with its own reading of the clock, it has not returned and has claimed nothing.
pub turns-again :
    (session agent owner : String) (meta : Option SessionMeta) (skip : List String)
    (target : String) (b : Box) (f : File) (d : Dict) (c : Claim) (claimed_at : ℕ) (times : List ℕ)
    → target ≢ ""
    → first_where (may_take skip target []) (list_messages b.inbox) ≡ some (target, f)
    → f.content ≡ json (some d)
    → validate_message (some d) (some session) (some agent) (some target) ≡ ok tt
    → in_roster meta (text_at "from" d) ≡ true
    → lookup (claim_name target owner) b.claims ≡ some (some c)
    → c.claimed_at ≡ some claimed_at
    → All (λ now. is_fresh now claimed_at ≡ true) times
    → (contested : List String) × (turns session agent owner meta skip target times b []
        ≡ again b contested)
turns-again session agent owner meta skip target b f d c claimed_at times n p q r s t u v =
    turns_go_on session agent owner meta skip target b f d c claimed_at p q r s t u n times [] v
