-- ===== src/Gateway/Claims.antt =====
-- The claims on agent roles of src/codeagent/gateway/service.py: `session_claim`, `session_release`, and
-- the pruning in `_sweep_once`. Each runs under the lock of the runtimes. Times are whole seconds.
pub mod Exclusive
use Prim.Native.String.{◌++◌}
use aimeshchat.Base.{
  ℕ, ◌+◌, String, Bool, true, false, not, ◌&&◌, ◌||◌, Option, none, some, List, [], ◌∷◌, ◌==◌, ltb,
  leb, eqb, if◌then◌else◌, Result, ok, err,
}
use aimeshchat.Base.Table.{Table, lookup, insert, remove, keep}
use aimeshchat.Gateway.Model.{ErrorCode, Answer, not_authorized, protocol, protocol_conflict}
use aimeshchat.Gateway.State.{Claim}

abbrev pub claim_ttl_max : ℕ
claim_ttl_max = 86400

unfoldable pub claim_key : String → String → String
claim_key session_id agent_id = session_id ++ (":" ++ agent_id)

abbrev pub new_claim : ℕ → String → ℕ → Claim
new_claim now owner ttl = record { owner = owner; claimed_at = now; expires_at = now + ttl }

-- Another owner has the role, and its time is not over.
unfoldable pub is_held : ℕ → String → Option Claim → Bool
is_held now owner none = false
is_held now owner (some c) = not (c.owner == owner) && ltb now c.expires_at

-- `session_claim`: the time at which the claim ends is returned.
unfoldable pub session_claim :
    ℕ → Table Claim → String → String → String → ℕ → Table Claim × Answer ℕ
session_claim now claims session_id agent_id owner ttl =
    let key = claim_key session_id agent_id in
    if session_id == "" || (agent_id == "" || owner == "")
    then (claims, err protocol)
    else if eqb ttl 0 || ltb claim_ttl_max ttl
    then (claims, err protocol)
    else if is_held now owner (lookup key claims)
    then (claims, err protocol_conflict)
    else (insert key (new_claim now owner ttl) claims, ok (now + ttl))

-- `session_release`: whether there was a claim. An empty owner is not compared.
unfoldable pub session_release : Table Claim → String → String → String → Table Claim × Answer Bool
session_release claims session_id agent_id owner =
    elim (lookup (claim_key session_id agent_id) claims) [
      | none ↦ (claims, ok false)
      | some c ↦
          if not (owner == "") && not (c.owner == owner)
          then (claims, err not_authorized)
          else (remove (claim_key session_id agent_id) claims, ok true)
    ]

-- The last step of `_sweep_once` on the claims.
unfoldable pub prune_claims : ℕ → Table Claim → Table Claim
prune_claims now claims = keep (λ c. not (leb c.expires_at now)) claims
