-- ===== src/Mailbox/Store/Exclusive.antt =====
-- No call by another owner takes a message away whose lease is not over.
use text.Mathlib.Text.{starts_with}
use aimeshchat.Base.{
  ℕ, ◌+◌, ◌≤◌, String, true, false, Option, some, List, [], ◌∷◌, ◌==◌, ◌≡◌, refl, ◌≢◌, any, arith,
  eq_iff, All, Bool-cases, inl, inr,
}
use aimeshchat.Base.Table.{insert, lookup-insert, IsKeyed-insert}
use aimeshchat.Mailbox.Store.{
  Claim, Box, in_inbox, in_processing, in_archive, in_corrupt, move, claim_prefix, claim_name,
  claims_of, claim_id,
}
use aimeshchat.Mailbox.Store.Read.{SessionMeta, publish, new_claim}
use aimeshchat.Mailbox.Store.Finish.{is_foreign, renewed}
use aimeshchat.Mailbox.Store.Moves.{claimed, rejected, skipped, finished, put_back}
use aimeshchat.Mailbox.Store.Steps.{
  Step, quarantined, taken, expired, orphaned, settled, archived_unread, archived_own,
  given_back_unclaimed, renewed_own, tidied, Steps-keep,
}
use aimeshchat.Mailbox.Store.Places.{Call, call, run, time_of, owner_of, call-Steps, route_of}
use aimeshchat.Mailbox.Store.Lease.{
  IsHeld, any-select, starts, not_own, not_held, IsHeld-moved, IsHeld-dropped, IsHeld-unread,
  not_expired,
}

module _ (m owner other : String) (since now : ℕ) (apart : owner ≢ other) (from_ : since ≤ now)
    (until : now + 30 ≤ since + 3600) where
  -- A claim file that is written under another name, and is not too old for `m`.
  IsHeld-written :
      (name : String) (c : Claim) (a : Box)
      → (name == claim_name m owner) ≡ false
      → c.claimed_at ≡ some now
      → IsHeld m owner since a
      → IsHeld m owner since (record a { claims = insert name (some c) a.claims })
  IsHeld-written name c a e f h = record {
    keyed = IsKeyed-insert name (some c) a.claims h.keyed;
    there = h.there;
    away = h.away;
    claim = h.claim;
    own = ground (arith, lookup-insert name (claim_name m owner) (some c) a.claims, h.own, e);
    owned = h.owned;
    named = h.named;
    young = λ n d t p q r. elim (Bool-cases (name == n)) [
      | inl k ↦ ground (arith, lookup-insert name n (some c) a.claims, k, p, r, f, from_)
      | inr k ↦ h.young n d t (ground (arith, lookup-insert name n (some c) a.claims, k, p)) q r
    ];
  }

  -- The claim of `m` is another's.
  foreign_own :
      (o : Option String)
      → o ≡ some owner
      → (c : Claim) → c.owner ≡ o
      → is_foreign other (some c) ≡ true
  foreign_own o e c f = ground (arith, e, f, apart, eq_iff owner other)

  not_unclaimed :
      (msg_id : String) (a : Box)
      → any (λ (name, c). is_foreign other c) (claims_of msg_id a.claims) ≡ false
      → IsHeld m owner since a
      → (msg_id == m) ≡ false
  unfolding claims_of
  not_unclaimed msg_id a e h = elim (Bool-cases (msg_id == m)) [
    | inr g ↦ g
    | inl g ↦
        let same : msg_id ≡ m = (eq_iff msg_id m).0 g in
        let found =
          any-select (λ n. starts_with n (claim_prefix m)) a.claims (claim_name m owner)
            (some h.claim) (λ (name, c). is_foreign other c) h.own
            (starts m owner other since now a apart from_ until h)
            (foreign_own (some owner) refl h.claim h.owned) in
        absurd (ground (arith, found, e, same))
  ]

  Step-IsHeld : (a b : Box) → Step now other a b → IsHeld m owner since a → IsHeld m owner since b
  unfolding any
  Step-IsHeld a b (quarantined name _) h =
      IsHeld-unread m owner other since now a apart from_ until h name in_corrupt rejected
  Step-IsHeld a b (taken name _ there fresh) h =
      let new : (claim_name name other == claim_name m owner) ≡ false =
        ground (arith, fresh, h.own, eq_iff (claim_name name other) (claim_name m owner)) in
      let p = IsHeld-written (claim_name name other) (new_claim now other name) a new refl h in
      IsHeld-moved m owner other since now (publish now other name a) apart from_ until p name
        in_inbox in_processing claimed (ground (arith, there, h.away, eq_iff name m))
  Step-IsHeld a b (expired name c t _ e f g) h =
      let k = not_expired m owner other since now a apart from_ until h name c t e f g in
      IsHeld-dropped m owner other since now (move (claim_id name c) in_processing in_inbox a) apart
        from_ until
        (IsHeld-moved m owner other since now a apart from_ until h (claim_id name c) in_processing
          in_inbox put_back k.0)
        name k.1
  Step-IsHeld a b (orphaned name c _ e f) h =
      IsHeld-dropped m owner other since now a apart from_ until h name
        (elim (Bool-cases (name == claim_name m owner)) [
          | inr k ↦ k
          | inl k ↦
              let same : name ≡ claim_name m owner = (eq_iff name (claim_name m owner)).0 k in
              let one : c ≡ h.claim = ground (arith, e, h.own, same) in
              let id : claim_id name c ≡ m = rw (same, one) h.named in
              absurd (ground (arith, f, h.there, id))
        ])
  Step-IsHeld a b (settled msg_id name c dest _ e f x) h =
      IsHeld-dropped m owner other since now (move msg_id in_processing dest a) apart from_ until
        (IsHeld-moved m owner other since now a apart from_ until h msg_id in_processing dest
          (route_of dest x)
          (not_held m owner other since now a apart from_ until h msg_id name c e f))
        name (not_own m owner other since now a apart from_ until h msg_id name c e f)
  Step-IsHeld a b (archived_unread msg_id _) h =
      IsHeld-unread m owner other since now a apart from_ until h msg_id in_archive skipped
  Step-IsHeld a b (archived_own msg_id _ e) h =
      IsHeld-moved m owner other since now a apart from_ until h msg_id in_processing in_archive
        finished (not_unclaimed msg_id a e h)
  Step-IsHeld a b (given_back_unclaimed msg_id _ e) h =
      IsHeld-moved m owner other since now a apart from_ until h msg_id in_processing in_inbox
        put_back (not_unclaimed msg_id a (rw e refl) h)
  Step-IsHeld a b (renewed_own msg_id name c _ e f) h =
      IsHeld-written name (renewed now c) a
        (not_own m owner other since now a apart from_ until h msg_id name c e f) refl h
  Step-IsHeld a b (tidied t _) h = record {
    keyed = h.keyed;
    there = h.there;
    away = h.away;
    claim = h.claim;
    own = h.own;
    owned = h.owned;
    named = h.named;
    young = h.young;
  }

-- A call that another makes within the lease.
abbrev pub Others : String → ℕ → Call → Type 0
Others owner since c = (owner ≢ owner_of c) × (since ≤ time_of c) × (time_of c + 30 ≤ since + 3600)

-- While a message is in processing under an owner's claim, and no claim for it is older than `since`,
-- it stays there, with that claim, whatever others call in whatever order from `since` until 3570
-- seconds later: reads, renewals, recoveries, finalizes and releases.
pub run-IsHeld :
    (session agent : String) (meta : Option SessionMeta) (m owner : String) (since : ℕ) (b : Box)
    (cs : List Call)
    → All (Others owner since) cs
    → IsHeld m owner since b
    → IsHeld m owner since (run session agent meta b cs)
unfolding run
run-IsHeld session agent meta m owner since b [] o h = h
run-IsHeld session agent meta m owner since b (c ∷ cs) o h =
    let b' = call session agent meta b c in
    run-IsHeld session agent meta m owner since b' cs o.1 (
      Steps-keep (IsHeld m owner since) (time_of c) (owner_of c)
        (Step-IsHeld m owner (owner_of c) since (time_of c) o.0.0 o.0.1 o.0.2) b b'
        (call-Steps session agent meta b c) h)
