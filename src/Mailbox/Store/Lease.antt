-- ===== src/Mailbox/Store/Lease.antt =====
-- A message whose claim is fresh stays with its owner.
use text.Mathlib.Text.{starts_with}
use text.Mathlib.TextPositions.{starts_with-append}
use aimeshchat.Base.{
  ℕ, ◌+◌, ◌≤◌, String, Bool, true, false, Option, none, some, [], ◌∷◌, ◌==◌, ◌≡◌, ◌∙◌, ◌≢◌, any,
  select, arith, eq_iff, subst, Bool-cases, inl, inr, ap,
}
use aimeshchat.Base.Table.{Table, lookup, lookup-remove, IsKeyed, IsKeyed-remove}
use aimeshchat.Mailbox.Store.{
  Claim, Box, Place, in_inbox, move, drop_claim, claim_prefix, claim_name, claims_of, claim_id,
  is_fresh,
}
use aimeshchat.Mailbox.Store.Finish.{is_there, is_owner}
use aimeshchat.Mailbox.Store.Moves.{IsRoute, move-claims, move_other, move_absent}

-- Rows chosen by a test on the key.
module _ {V : Type 0} (p : String → Bool) where
  lookup-select :
      (t : Table V) (k : String) (v : V) (rest : Table V)
      → IsKeyed t
      → select (λ (n, w). p n) t ≡ (k, v) ∷ rest
      → lookup k t ≡ some v
  unfolding select lookup
  lookup-select [] k v rest u h = absurd (ground arith)
  lookup-select ((n, w) ∷ t) k v rest u h = elim (Bool-cases (p n)) [
    | inl e ↦ ground (arith, e, h, eq_iff n k)
    | inr e ↦ ground (arith, e, h, eq_iff n k, u.0, lookup-select t k v rest u.1)
  ]

  pub any-select :
      (t : Table V) (k : String) (v : V) (q : String × V → Bool)
      → lookup k t ≡ some v
      → p k ≡ true
      → q (k, v) ≡ true
      → any q (select (λ (n, w). p n) t) ≡ true
  unfolding select lookup any
  any-select [] k v q h e f = absurd (ground arith)
  any-select ((n, w) ∷ t) k v q h e f = elim (Bool-cases (n == k)) [
    | inl g ↦
        let i : n ≡ k = ground (arith, g, eq_iff n k) in
        let j : w ≡ v = ground (arith, g, h) in
        let m : p n ≡ true = rw i e in
        let r : q (n, w) ≡ true = rw (i, j) f in rw m ground (arith, r)
    | inr g ↦ ground (arith, g, h, any-select t k v q)
  ]

pub owner_is :
    (owner other : String) (o : Option String)
    → o ≡ some owner
    → is_owner other o ≡ true
    → owner ≡ other
owner_is owner other o e f = ground (arith, eq_iff owner other)

abbrev pub is_named : String → String × Option Claim → Bool
is_named name (n, c) = n == name

-- The message `m` is in processing under a claim of `owner`, and no claim for it is older than
-- `since`.
pub record IsHeld (m owner : String) (since : ℕ) (b : Box) : Type 0 where
  pub keyed : IsKeyed b.claims
  pub there : is_there m b.processing ≡ true
  pub away : is_there m b.inbox ≡ false
  pub claim : Claim
  pub own : lookup (claim_name m owner) b.claims ≡ some (some claim)
  pub owned : claim.owner ≡ some owner
  pub named : claim_id (claim_name m owner) claim ≡ m
  pub young :
      (name : String) (c : Claim) (t : ℕ)
      → lookup name b.claims ≡ some (some c)
      → claim_id name c ≡ m
      → c.claimed_at ≡ some t
      → since ≤ t

module _ (m owner other : String) (since now : ℕ) (a : Box) (apart : owner ≢ other)
    (from_ : since ≤ now) (until : now + 30 ≤ since + 3600) (h : IsHeld m owner since a) where
  pub starts : starts_with (claim_name m owner) (claim_prefix m) ≡ true
  unfolding claim_name
  starts = starts_with-append (claim_prefix m) owner

  -- The only claim that another's call goes by is not the one of `m`.
  pub not_own :
      (msg_id name : String) (c : Claim)
      → claims_of msg_id a.claims ≡ (name, some c) ∷ []
      → is_owner other c.owner ≡ true
      → (name == claim_name m owner) ≡ false
  unfolding claims_of
  not_own msg_id name c e f =
      let found : lookup name a.claims ≡ some (some c) =
        lookup-select (λ n. starts_with n (claim_prefix msg_id)) a.claims name (some c) [] h.keyed
          e in
      elim (Bool-cases (name == claim_name m owner)) [
        | inr g ↦ g
        | inl g ↦
            let same : name ≡ claim_name m owner = (eq_iff name (claim_name m owner)).0 g in
            let mine : lookup name a.claims ≡ some (some h.claim) = rw same h.own in
            let one : c ≡ h.claim = cc in
            absurd (apart (owner_is owner other c.owner (ap (λ x. x.owner) one ∙ h.owned) f))
      ]

  -- So it is found for another message.
  pub not_held :
      (msg_id name : String) (c : Claim)
      → claims_of msg_id a.claims ≡ (name, some c) ∷ []
      → is_owner other c.owner ≡ true
      → (msg_id == m) ≡ false
  unfolding claims_of any
  not_held msg_id name c e f = elim (Bool-cases (msg_id == m)) [
    | inr g ↦ g
    | inl g ↦
        let same : msg_id ≡ m = (eq_iff msg_id m).0 g in
        let e' : claims_of m a.claims ≡ (name, some c) ∷ [] = rw (← same) e in
        let found : any (is_named (claim_name m owner)) (claims_of m a.claims) ≡ true =
          any-select (λ n. starts_with n (claim_prefix m)) a.claims (claim_name m owner)
            (some h.claim) (is_named (claim_name m owner)) h.own starts
            (ground (arith, eq_iff (claim_name m owner) (claim_name m owner))) in
        let hit : any (is_named (claim_name m owner)) ((name, some c) ∷ []) ≡ true =
          subst (λ l. any (is_named (claim_name m owner)) l ≡ true) e' found in
        absurd (ground (arith, hit, not_own msg_id name c e f))
  ]

  pub IsHeld-moved :
      (name : String) (src dest : Place)
      → IsRoute src dest
      → (name == m) ≡ false
      → IsHeld m owner since (move name src dest a)
  IsHeld-moved name src dest r e =
      let s = move_other name a src dest m r e in
      let k = move-claims name a src dest r in
      record {
        keyed = rw k h.keyed;
        there = rw (is_there, s.1) h.there;
        away = rw (is_there, s.0) h.away;
        claim = h.claim;
        own = rw k h.own;
        owned = h.owned;
        named = h.named;
        young = λ n c t. rw k (h.young n c t);
      }

  pub IsHeld-dropped :
      (name : String)
      → (name == claim_name m owner) ≡ false
      → IsHeld m owner since (drop_claim name a)
  IsHeld-dropped name e = record {
    keyed = IsKeyed-remove name a.claims h.keyed;
    there = h.there;
    away = h.away;
    claim = h.claim;
    own = ground (arith, lookup-remove name (claim_name m owner) a.claims, h.own, e);
    owned = h.owned;
    named = h.named;
    young = λ n c t p q r. h.young n c t (ground (arith, lookup-remove name n a.claims, p)) q r;
  }

  -- A message that is not in the inbox is not moved from there.
  pub IsHeld-unread :
      (name : String) (dest : Place)
      → IsRoute in_inbox dest
      → IsHeld m owner since (move name in_inbox dest a)
  IsHeld-unread name dest r = elim (Bool-cases (name == m)) [
    | inr e ↦ IsHeld-moved name in_inbox dest r e
    | inl e ↦
        let gone : lookup name a.inbox ≡ none = ground (arith, h.away, eq_iff name m, e) in
        rw (move_absent name in_inbox dest a gone) h
  ]

  -- The lease of the claim is not over.
  pub not_expired :
      (name : String) (c : Claim) (t : ℕ)
      → lookup name a.claims ≡ some (some c)
      → c.claimed_at ≡ some t
      → is_fresh now t ≡ false
      → ((claim_id name c == m) ≡ false) × ((name == claim_name m owner) ≡ false)
  not_expired name c t e f g = (not_m, not_mine)
    where
      not_m : (claim_id name c == m) ≡ false
      not_m = elim (Bool-cases (claim_id name c == m)) [
        | inr k ↦ k
        | inl k ↦
            let y : since ≤ t = h.young name c t e ((eq_iff (claim_id name c) m).0 k) f in
            absurd (ground (arith, y, until, g))
      ]

      not_mine : (name == claim_name m owner) ≡ false
      not_mine = elim (Bool-cases (name == claim_name m owner)) [
        | inr k ↦ k
        | inl k ↦
            let same : name ≡ claim_name m owner = (eq_iff name (claim_name m owner)).0 k in
            let one : c ≡ h.claim = ground (arith, e, h.own, same) in
            let id : claim_id name c ≡ m = rw (same, one) h.named in
            absurd (ground (arith, not_m, id, eq_iff (claim_id name c) m))
      ]
