-- ===== src/Mailbox/Store/Calls.antt =====
-- Every call on the folders is a sequence of steps of the protocol.
use aimeshchat.Base.{
  ℕ, ◌+◌, String, Bool, true, false, Option, none, some, List, [], ◌∷◌, ◌≡◌, refl, any, leb, Result,
  ok, err, Bool-cases, inl, inr, if◌then◌else◌,
}
use aimeshchat.Base.Table.{Table, lookup}
use aimeshchat.Mailbox.Store.{
  Claim, Box, in_inbox, in_processing, in_archive, move, drop_claim, is_fresh, claims_of, claim_id,
  reap_expired_claim, orphan_gate,
}
use aimeshchat.Mailbox.Store.Finish.{
  StoreError, foreign_claim, is_there, is_owner, is_foreign, sole_claim, check_owner_of,
  finalize_claimed, finalize, finalize_from_inbox, release, release_claimed, renew_sole,
  renew_claim, recover_timed, recover_claim, recover_each, recover_stale, sorted_names, msg_id_ok,
}
use aimeshchat.Mailbox.Store.Steps.{
  Steps, done, Steps-one, Steps-append, expired, orphaned, settled, archived_unread, archived_own,
  given_back_unclaimed, renewed_own, tidied, to_archive, to_inbox,
}

-- The folders after a call: a call that raises has changed nothing.
abbrev pub after : Box → Result StoreError Box → Box
after b (ok b') = b'
after b (err e) = b

module _ (now : ℕ) (owner : String) (b : Box) where
  finalize_claimed-Steps :
      (msg_id name : String) (c : Option Claim)
      → claims_of msg_id b.claims ≡ (name, c) ∷ []
      → Steps now owner b (after b (finalize_claimed b msg_id owner (name, c)))
  unfolding finalize_claimed check_owner_of
  finalize_claimed-Steps msg_id name none h = elim (Bool-cases (is_there msg_id b.processing)) [
    | inl e ↦ rw e (done b)
    | inr e ↦ rw e (done b)
  ]
  finalize_claimed-Steps msg_id name (some c) h = elim (Bool-cases (is_there msg_id b.processing)) [
    | inr e ↦ rw e (done b)
    | inl e ↦ rw e elim (Bool-cases (is_owner owner c.owner)) [
      | inr f ↦ rw f (done b)
      | inl f ↦ rw f (Steps-one now owner b _ (settled msg_id name c in_archive b h f to_archive))
    ]
  ]

  finalize_found :
      (msg_id : String) (cs : Table (Option Claim))
      → claims_of msg_id b.claims ≡ cs
      → Steps now owner b (
          after b
            (elim (sole_claim cs) [ ok c ↦ finalize_claimed b msg_id owner c | err e ↦ err e ]))
  unfolding sole_claim
  finalize_found msg_id [] h = done b
  finalize_found msg_id ((name, c) ∷ []) h = finalize_claimed-Steps msg_id name c h
  finalize_found msg_id (_ ∷ (_ ∷ _)) h = done b

  pub finalize-Steps : (msg_id : String) → Steps now owner b (after b (finalize b msg_id owner))
  unfolding finalize
  finalize-Steps msg_id = elim (Bool-cases (msg_id_ok msg_id)) [
    | inr e ↦ rw e (done b)
    | inl e ↦ rw e (finalize_found msg_id (claims_of msg_id b.claims) refl)
  ]

  pub finalize_from_inbox-Steps :
      (msg_id : String) → Steps now owner b (after b (finalize_from_inbox b msg_id owner))
  unfolding finalize_from_inbox
  finalize_from_inbox-Steps msg_id = elim (Bool-cases (msg_id_ok msg_id)) [
    | inr e ↦ rw e (done b)
    | inl e ↦ rw e elim (Bool-cases (is_there msg_id b.inbox)) [
      | inl f ↦ rw f (Steps-one now owner b _ (archived_unread msg_id b))
      | inr f ↦ rw f elim (Bool-cases (is_there msg_id b.processing)) [
        | inr g ↦ rw g (done b)
        | inl g ↦ rw g (in_processing-Steps msg_id)
      ]
    ]
  ]
    where
      in_processing-Steps :
          (msg_id : String)
          → Steps now owner b (
              after b (
                if any (λ (name, c). is_foreign owner c) (claims_of msg_id b.claims)
                then err foreign_claim
                else ok (move msg_id in_processing in_archive b)))
      in_processing-Steps msg_id =
          elim (Bool-cases (any (λ (name, c). is_foreign owner c) (claims_of msg_id b.claims))) [
            | inl k ↦ rw k (done b)
            | inr k ↦ rw k (Steps-one now owner b _ (archived_own msg_id b k))
          ]

  release_claimed-Steps :
      (msg_id : String) (cs : Table (Option Claim))
      → claims_of msg_id b.claims ≡ cs
      → Steps now owner b (after b (release_claimed b msg_id owner cs))
  unfolding release_claimed check_owner_of
  release_claimed-Steps msg_id [] h = Steps-one now owner b _ (given_back_unclaimed msg_id b h)
  release_claimed-Steps msg_id ((name, none) ∷ []) h = done b
  release_claimed-Steps msg_id ((name, some c) ∷ []) h =
      elim (Bool-cases (is_owner owner c.owner)) [
        | inr f ↦ rw (release_claimed, f) (done b)
        | inl f ↦
            rw (release_claimed, f)
              (Steps-one now owner b _ (settled msg_id name c in_inbox b h f to_inbox))
      ]
  release_claimed-Steps msg_id (_ ∷ (_ ∷ _)) h = done b

  pub release-Steps : (msg_id : String) → Steps now owner b (after b (release b msg_id owner))
  unfolding release
  release-Steps msg_id = elim (Bool-cases (msg_id_ok msg_id)) [
    | inr e ↦ rw e (done b)
    | inl e ↦ rw e elim (Bool-cases (is_there msg_id b.processing)) [
      | inr g ↦ rw g (done b)
      | inl g ↦ rw g (release_claimed-Steps msg_id (claims_of msg_id b.claims) refl)
    ]
  ]

  renew_sole-Steps :
      (msg_id : String) (cs : Table (Option Claim))
      → claims_of msg_id b.claims ≡ cs
      → Steps now owner b (renew_sole now b owner cs).1
  unfolding renew_sole
  renew_sole-Steps msg_id [] h = done b
  renew_sole-Steps msg_id ((name, none) ∷ []) h = done b
  renew_sole-Steps msg_id ((name, some c) ∷ []) h = elim (Bool-cases (is_owner owner c.owner)) [
    | inr f ↦ rw f (done b)
    | inl f ↦ rw f (Steps-one now owner b _ (renewed_own msg_id name c b h f))
  ]
  renew_sole-Steps msg_id ((_, none) ∷ (_ ∷ _)) h = done b
  renew_sole-Steps msg_id ((_, some _) ∷ (_ ∷ _)) h = done b

-- The folders after a renewal.
abbrev pub after_renewal : Box → Result StoreError (Bool × Box) → Box
after_renewal b (ok r) = r.1
after_renewal b (err e) = b

module _ (now : ℕ) (owner : String) (b : Box) where
  pub renew_claim-Steps :
      (msg_id : String) → Steps now owner b (after_renewal b (renew_claim now b msg_id owner))
  unfolding renew_claim
  renew_claim-Steps msg_id = elim (Bool-cases (msg_id_ok msg_id)) [
    | inr e ↦ rw e (done b)
    | inl e ↦ rw e elim (Bool-cases (is_there msg_id b.processing)) [
      | inr g ↦ rw g (done b)
      | inl g ↦ rw g (renew_sole-Steps now owner b msg_id (claims_of msg_id b.claims) refl)
    ]
  ]

  recover_timed-Steps :
      (name : String) (c : Claim) (claimed_at : ℕ)
      → lookup name b.claims ≡ some (some c)
      → c.claimed_at ≡ some claimed_at
      → Steps now owner b (recover_timed now name (claim_id name c) claimed_at b).1
  unfolding recover_timed
  recover_timed-Steps name c claimed_at h t =
      elim (Bool-cases (is_there (claim_id name c) b.processing)) [
        | inl e ↦ rw e elim (Bool-cases (is_fresh now claimed_at)) [
          | inl f ↦ rw f (done b)
          | inr f ↦ rw f (Steps-one now owner b _ (expired name c claimed_at b h t f))
        ]
        | inr e ↦ rw e elim (Bool-cases (leb now (claimed_at + orphan_gate))) [
          | inl f ↦ rw f (done b)
          | inr f ↦ rw f (Steps-one now owner b _ (orphaned name c b h e))
        ]
      ]

  recover_found :
      (name : String) (o : Option (Option Claim))
      → lookup name b.claims ≡ o
      → Steps now owner b (recover_claim now name b).1
  unfolding recover_claim
  recover_found name none h = rw (recover_claim, h) (done b)
  recover_found name (some none) h = rw (recover_claim, h) (done b)
  recover_found name (some (some c)) h = rw (recover_claim, h) (timed c.claimed_at refl)
    where
      timed :
          (t : Option ℕ)
          → c.claimed_at ≡ t
          → Steps now owner b
              (elim t as (λ x. Bool × Box) [
                | some claimed_at ↦ recover_timed now name (claim_id name c) claimed_at b
                | none ↦ (false, b)
              ]).1
      timed none t = done b
      timed (some claimed_at) t = recover_timed-Steps name c claimed_at h t

-- The outcomes of a reap.
module _ {κ} (M : Bool × Box → Type κ) (now : ℕ) (name : String) (b : Box) (kept : M (false, b))
    (gone : (c : Claim) (claimed_at : ℕ)
      → lookup name b.claims ≡ some (some c)
      → c.claimed_at ≡ some claimed_at
      → is_fresh now claimed_at ≡ false
      → M (true, drop_claim name (move (claim_id name c) in_processing in_inbox b))) where
  reap_found :
      (o : Option (Option Claim)) → lookup name b.claims ≡ o → M (reap_expired_claim now name b)
  unfolding reap_expired_claim
  reap_found none h = rw (reap_expired_claim, h) kept
  reap_found (some none) h = rw (reap_expired_claim, h) kept
  reap_found (some (some c)) h = rw (reap_expired_claim, h) (timed c.claimed_at refl)
    where
      timed :
          (t : Option ℕ)
          → c.claimed_at ≡ t
          → M (elim t as (λ x. Bool × Box) [
            | none ↦ (false, b)
            | some claimed_at ↦
                if is_fresh now claimed_at
                then (false, b)
                else (true, drop_claim name (move (claim_id name c) in_processing in_inbox b))
          ])
      timed none t = kept
      timed (some claimed_at) t = elim (Bool-cases (is_fresh now claimed_at)) [
        | inl f ↦ rw f kept
        | inr f ↦ rw f (gone c claimed_at h t f)
      ]

  pub reap_expired_claim-cases : M (reap_expired_claim now name b)
  reap_expired_claim-cases = reap_found (lookup name b.claims) refl

recover_each-Steps :
    (now : ℕ) (owner : String) (names : List String) (b : Box)
    → Steps now owner b (recover_each now names b).1
unfolding recover_each
recover_each-Steps now owner [] b = done b
recover_each-Steps now owner (n ∷ ns) b =
    Steps-append now owner b (recover_claim now n b).1 _
      (recover_found now owner b n (lookup n b.claims) refl)
      (recover_each-Steps now owner ns (recover_claim now n b).1)

pub recover_stale-Steps :
    (now : ℕ) (owner : String) (b : Box) → Steps now owner b (recover_stale now b).1
unfolding recover_stale
recover_stale-Steps now owner b =
    let r = recover_each now (sorted_names b.claims) b in
    Steps-append now owner b r.1 _ (recover_each-Steps now owner (sorted_names b.claims) b)
      (Steps-one now owner r.1 _ (tidied _ r.1))
