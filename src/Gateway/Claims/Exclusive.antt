-- ===== src/Gateway/Claims/Exclusive.antt =====
-- A role has one owner at a time.
use aimeshchat.Base.{
  ℕ, ◌+◌, ◌≤◌, ◌<◌, String, ◌≡◌, ◌≢◌, ◌⊎◌, refl, ap, ◌∙◌, subst, eq_of_test, true, false, not, ◌&&◌,
  ◌||◌, Option, none, some, List, [], ◌∷◌, ◌==◌, eq_iff, test_of_ne, arith, ltb, leb, eqb, All,
  if◌then◌else◌, Bool-cases, Option-cases, inl, inr, ok, err,
}
use aimeshchat.Base.Table.{
  Table, lookup, IsKeyed, lookup-insert, lookup-remove, lookup-keep, IsKeyed-insert, IsKeyed-remove,
  IsKeyed-keep,
}
use aimeshchat.Gateway.Model.{Answer, protocol_conflict}
use aimeshchat.Gateway.State.{Claim}
use aimeshchat.Gateway.Claims.{
  claim_key, claim_ttl_max, new_claim, is_held, session_claim, session_release, prune_claims,
}

-- The role is free for an owner: no claim, the owner's own, or one whose time is over.
abbrev pub IsFree : ℕ → String → Option Claim → Type 0
IsFree now owner none = Unit
IsFree now owner (some c) = (c.owner ≡ owner) ⊎ (c.expires_at ≤ now)

-- What a claim did.
abbrev pub ClaimHolds : ℕ → Table Claim → String → String → ℕ → Table Claim × Answer ℕ → Type 0
ClaimHolds now claims key owner ttl (claims', err e) =
    (claims' ≡ claims)
    × (e ≡ protocol_conflict
        → (c : Claim) × (lookup key claims ≡ some c) × (c.owner ≢ owner) × (now < c.expires_at))
ClaimHolds now claims key owner ttl (claims', ok until) =
    IsFree now owner (lookup key claims)
    × (0 < ttl)
    × (ttl ≤ claim_ttl_max)
    × (until ≡ now + ttl)
    × ((j : String)
        → lookup j claims' ≡ (if key == j then some (new_claim now owner ttl) else lookup j claims))

IsFree-of_test :
    (now : ℕ) (owner : String) (o : Option Claim) → is_held now owner o ≡ false → IsFree now owner o
unfolding is_held
IsFree-of_test now owner none h = tt
IsFree-of_test now owner (some c) h = elim (Bool-cases (c.owner == owner)) [
  | inl e ↦ inl (ground (arith, eq_iff c.owner owner))
  | inr e ↦ inr (ground arith)
]

held_of_test :
    (now : ℕ) (owner : String) (o : Option Claim)
    → is_held now owner o ≡ true
    → (c : Claim) × (o ≡ some c) × (c.owner ≢ owner) × (now < c.expires_at)
unfolding is_held
held_of_test now owner none h = absurd (ground arith)
held_of_test now owner (some c) h =
    (c, refl, (λ e. ground (arith, eq_iff c.owner owner)), ground arith)

-- A claim is granted only if the role is free and the time is in bounds; then it is the owner's for that
-- time, and no other role is touched. Any refusal changes nothing, and a conflict is told only if another
-- owner's claim is not over.
pub session_claim-ClaimHolds :
    (now : ℕ) (claims : Table Claim) (session_id agent_id owner : String) (ttl : ℕ)
    → ClaimHolds now claims
        (claim_key session_id agent_id)
        owner
        ttl
        (session_claim now claims session_id agent_id owner ttl)
unfolding session_claim
session_claim-ClaimHolds now claims session_id agent_id owner ttl =
    elim (Bool-cases (session_id == "" || (agent_id == "" || owner == ""))) [
      | inl a ↦ rw a (refl, λ e. absurd (ground arith))
      | inr a ↦ elim (Bool-cases (eqb ttl 0 || ltb claim_ttl_max ttl)) [
        | inl b ↦ rw (a, b) (refl, λ e. absurd (ground arith))
        | inr b ↦
            elim (Bool-cases (is_held now owner (lookup (claim_key session_id agent_id) claims))) [
              | inl c ↦ rw (a, b, c) (refl, λ e. held_of_test now owner _ c)
              | inr c ↦
                  rw (a, b, c)
                    (
                      IsFree-of_test now owner _ c,
                      ground arith,
                      ground arith,
                      refl,
                      λ j.
                          lookup-insert (claim_key session_id agent_id) j (new_claim now owner ttl)
                            claims,
                    )
            ]
      ]
    ]

-- Calls on the claims, each with the time that it reads.
pub data Call : Type 0 where
  claims : ℕ → String → String → String → ℕ → Call
  releases : String → String → String → Call
  prunes : ℕ → Call

unfoldable pub step : Table Claim → Call → Table Claim
step t (claims now session_id agent_id owner ttl) =
    (session_claim now t session_id agent_id owner ttl).0
step t (releases session_id agent_id owner) = (session_release t session_id agent_id owner).0
step t (prunes now) = prune_claims now t

unfoldable pub run : Table Claim → List Call → Table Claim
run t [] = t
run t (c ∷ cs) = run (step t c) cs

-- Made by others, while the claim's time is not over. A release names its owner.
abbrev pub ByOthers : Claim → Call → Type 0
ByOthers mine (claims now session_id agent_id owner ttl) =
    (mine.owner ≢ owner) × (now < mine.expires_at)
ByOthers mine (releases session_id agent_id owner) = (owner ≢ "") × (mine.owner ≢ owner)
ByOthers mine (prunes now) = now < mine.expires_at

claim_kept :
    (t : Table Claim) (k : String) (mine : Claim) (now : ℕ) (key owner : String) (ttl : ℕ)
    (o : Table Claim × Answer ℕ)
    → ClaimHolds now t key owner ttl o
    → lookup k t ≡ some mine
    → (mine.owner ≢ owner) × (now < mine.expires_at)
    → lookup k o.0 ≡ some mine
claim_kept t k mine now key owner ttl (t', err e) h l b = ground arith
claim_kept t k mine now key owner ttl (t', ok until) (free, _, _, _, reads) l b =
    elim (Bool-cases (key == k)) [
      | inl e ↦
          let mine_free =
            subst (λ o. IsFree now owner o) (ap (λ j. lookup j t) (eq_of_test key k e) ∙ l) free in
          absurd (ground (arith, mine_free))
      | inr e ↦ ground (arith, reads k)
    ]

release_kept :
    (t : Table Claim) (k : String) (mine : Claim) (session_id agent_id owner : String)
    → lookup k t ≡ some mine
    → (owner ≢ "") × (mine.owner ≢ owner)
    → lookup k (session_release t session_id agent_id owner).0 ≡ some mine
unfolding session_release
release_kept t k mine session_id agent_id owner l b = ground (
  arith,
  lookup-remove (claim_key session_id agent_id) k t,
  eq_iff (claim_key session_id agent_id) k,
  test_of_ne owner "" b.0,
  test_of_ne mine.owner owner b.1,
)

claim_IsKeyed :
    (now : ℕ) (t : Table Claim) (session_id agent_id owner : String) (ttl : ℕ)
    → IsKeyed t
    → IsKeyed (session_claim now t session_id agent_id owner ttl).0
unfolding session_claim
claim_IsKeyed now t session_id agent_id owner ttl u =
    let granted = IsKeyed-insert (claim_key session_id agent_id) (new_claim now owner ttl) t u in
    elim (Bool-cases (session_id == "" || (agent_id == "" || owner == ""))) [
      | inl a ↦ rw a u
      | inr a ↦ elim (Bool-cases (eqb ttl 0 || ltb claim_ttl_max ttl)) [
        | inl b ↦ rw (a, b) u
        | inr b ↦ elim (Bool-cases (is_held now owner (lookup (claim_key session_id agent_id) t))) [
          | inl c ↦ rw (a, b, c) u
          | inr c ↦ rw (a, b, c) granted
        ]
      ]
    ]

release_IsKeyed :
    (t : Table Claim) (session_id agent_id owner : String)
    → IsKeyed t
    → IsKeyed (session_release t session_id agent_id owner).0
unfolding session_release
release_IsKeyed t session_id agent_id owner u =
    elim (Option-cases (lookup (claim_key session_id agent_id) t)) [
      | inl e ↦ rw (e, session_release) u
      | inr (c, e) ↦ elim (Bool-cases (not (owner == "") && not (c.owner == owner))) [
        | inl b ↦ rw (e, b, session_release) u
        | inr b ↦ rw (e, b, session_release) (IsKeyed-remove (claim_key session_id agent_id) t u)
      ]
    ]

step_kept :
    (t : Table Claim) (k : String) (mine : Claim) (c : Call)
    → IsKeyed t
    → lookup k t ≡ some mine
    → ByOthers mine c
    → IsKeyed (step t c) × (lookup k (step t c) ≡ some mine)
unfolding step prune_claims
step_kept t k mine (claims now session_id agent_id owner ttl) u l b = (
  claim_IsKeyed now t session_id agent_id owner ttl u,
  claim_kept t k mine now _ owner ttl _
      (session_claim-ClaimHolds now t session_id agent_id owner ttl) l b,
)
step_kept t k mine (releases session_id agent_id owner) u l b = (
  release_IsKeyed t session_id agent_id owner u,
  release_kept t k mine session_id agent_id owner l b,
)
step_kept t k mine (prunes now) u l b =
    (IsKeyed-keep _ t u, ground (arith, lookup-keep k (λ c. not (leb c.expires_at now)) t u))

-- While a claim's time is not over, it stays as it is through any claims of other owners, any releases
-- that name another owner and any prunings, of this role and others. A release that names no owner is
-- not among them: it takes away anyone's claim.
pub run-keeps_claim :
    (calls : List Call) (t : Table Claim) (k : String) (mine : Claim)
    → IsKeyed t
    → lookup k t ≡ some mine
    → All (ByOthers mine) calls
    → lookup k (run t calls) ≡ some mine
unfolding run
run-keeps_claim [] t k mine u l b = l
run-keeps_claim (c ∷ calls) t k mine u l b =
    let (u', l') = step_kept t k mine c u l b.0 in run-keeps_claim calls (step t c) k mine u' l' b.1
