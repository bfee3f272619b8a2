-- ===== src/Mailbox/Store/Finish.antt =====
-- `finalize`, `finalize_from_inbox`, `release`, `renew_claim` and `recover_stale` of
-- src/codeagent/mailbox/store.py. Each is one step here. In the source only `renew_claim` and
-- `recover_stale` hold the lock of the claim, under which they read again what they have read; the other
-- three take no lock, and what others do between their reading and their writing is not modelled.
use Prim.Native.Nat.{Ordering}
use Prim.Native.String
use Prim.Native.String.{compare}
use aimeshchat.Base.{
  ℕ, ◌+◌, String, Bool, true, false, not, ◌&&◌, ◌||◌, Option, none, some, List, [], ◌∷◌, ◌==◌, leb,
  eqb, all, any, length, if◌then◌else◌, Result, ok, err,
}
use aimeshchat.Base.Table.{Table, lookup, insert, keep}
use aimeshchat.Mailbox.Protocol.{codes, is_path_safe}
use aimeshchat.Mailbox.Store.{
  File, Claim, Box, Place, in_inbox, in_processing, in_archive, move, drop_claim, is_fresh,
  claims_of, claim_id, orphan_gate,
}

pub data StoreError : Type 0 where
  invalid_msg_id no_claim multiple_claims not_found owner_mismatch unreadable_claim : StoreError
  foreign_claim : StoreError

-- `[a-zA-Z0-9]`
unfoldable pub is_alphanumeric : ℕ → Bool
is_alphanumeric c = is_path_safe c && not (eqb c b'_' || (eqb c b'.' || eqb c b'-'))

-- `_validate_msg_id`: `[a-zA-Z0-9][a-zA-Z0-9_.-]{0,63}` and nothing after it.
unfoldable pub msg_id_ok : String → Bool
msg_id_ok s = elim (codes s) [
  | [] ↦ false
  | c ∷ cs ↦ is_alphanumeric c && (leb (length cs) 63 && all is_path_safe cs)
]

abbrev pub is_there : String → Table File → Bool
is_there name t = elim (lookup name t) [ none ↦ false | some _ ↦ true ]

abbrev pub is_owner : String → Option String → Bool
is_owner owner none = false
is_owner owner (some o) = o == owner

-- Which claim file a finalize works on.
unfoldable pub sole_claim : Table (Option Claim) → Result StoreError (String × Option Claim)
sole_claim [] = err no_claim
sole_claim (c ∷ []) = ok c
sole_claim (_ ∷ (_ ∷ _)) = err multiple_claims

unfoldable pub check_owner_of : String → Option Claim → Result StoreError (Unit {0})
check_owner_of owner none = err unreadable_claim
check_owner_of owner (some c) = if is_owner owner c.owner then ok tt else err owner_mismatch

-- The move, and the claim file that goes.
abbrev pub settle : String → Place → String → Box → Box
settle msg_id dest name b = drop_claim name (move msg_id in_processing dest b)

unfoldable pub finalize_claimed :
    Box → String → String → String × Option Claim → Result StoreError Box
finalize_claimed b msg_id owner (name, c) =
    if is_there msg_id b.processing
    then elim (check_owner_of owner c) [
      | ok _ ↦ ok (settle msg_id in_archive name b)
      | err e ↦ err e
    ]
    else err not_found

unfoldable pub finalize : Box → String → String → Result StoreError Box
finalize b msg_id owner =
    if msg_id_ok msg_id
    then elim (sole_claim (claims_of msg_id b.claims)) [
      | ok c ↦ finalize_claimed b msg_id owner c
      | err e ↦ err e
    ]
    else err invalid_msg_id

-- `cowner != owner`, for a claim that may be unreadable.
abbrev pub is_foreign : String → Option Claim → Bool
is_foreign owner none = not (owner == "")
is_foreign owner (some c) = not (elim c.owner [ none ↦ owner == "" | some o ↦ o == owner ])

unfoldable pub finalize_from_inbox : Box → String → String → Result StoreError Box
finalize_from_inbox b msg_id owner =
    if msg_id_ok msg_id
    then if is_there msg_id b.inbox
      then ok (move msg_id in_inbox in_archive b)
      else if is_there msg_id b.processing
      then if any (λ (name, c). is_foreign owner c) (claims_of msg_id b.claims)
        then err foreign_claim
        else ok (move msg_id in_processing in_archive b)
      else err not_found
    else err invalid_msg_id

-- A release needs no claim, but heeds one.
unfoldable pub release_claimed :
    Box → String → String → Table (Option Claim) → Result StoreError Box
release_claimed b msg_id owner [] = ok (move msg_id in_processing in_inbox b)
release_claimed b msg_id owner ((name, c) ∷ []) = elim (check_owner_of owner c) [
  | ok _ ↦ ok (settle msg_id in_inbox name b)
  | err e ↦ err e
]
release_claimed b msg_id owner (_ ∷ (_ ∷ _)) = err multiple_claims

unfoldable pub release : Box → String → String → Result StoreError Box
release b msg_id owner =
    if msg_id_ok msg_id
    then if is_there msg_id b.processing
      then release_claimed b msg_id owner (claims_of msg_id b.claims)
      else err not_found
    else err invalid_msg_id

-- The claim with the new time; `renewed_at` is never read.
abbrev pub renewed : ℕ → Claim → Claim
renewed now c = record c { claimed_at = some now }

unfoldable pub renew_sole : ℕ → Box → String → Table (Option Claim) → Bool × Box
renew_sole now b owner ((name, some c) ∷ []) =
    if is_owner owner c.owner
    then (true, record b { claims = insert name (some (renewed now c)) b.claims })
    else (false, b)
renew_sole now b owner _ = (false, b)

unfoldable pub renew_claim : ℕ → Box → String → String → Result StoreError (Bool × Box)
renew_claim now b msg_id owner =
    if msg_id_ok msg_id
    then if is_there msg_id b.processing
      then ok (renew_sole now b owner (claims_of msg_id b.claims))
      else ok (false, b)
    else err invalid_msg_id

-- `sorted` on the file names.
abbrev pub comes_first : String → String → Bool
comes_first m n = elim (compare (String.◌++◌ m ".json") (String.◌++◌ n ".json")) [
  | Ordering.gt ↦ false
  | _ ↦ true
]

unfoldable pub insert_name : String → List String → List String
insert_name n [] = n ∷ []
insert_name n (m ∷ ms) =
    let rest = insert_name n ms in if comes_first n m then n ∷ (m ∷ ms) else m ∷ rest

unfoldable pub sorted_names : Table (Option Claim) → List String
sorted_names [] = []
sorted_names ((n, c) ∷ t) = insert_name n (sorted_names t)

-- What `recover_stale` does with a claim that has a time: whether a message came back.
unfoldable pub recover_timed : ℕ → String → String → ℕ → Box → Bool × Box
recover_timed now name msg_id claimed_at b =
    if is_there msg_id b.processing
    then if is_fresh now claimed_at then (false, b) else (true, settle msg_id in_inbox name b)
    else if leb now (claimed_at + orphan_gate)
    then (false, b)
    else (false, drop_claim name b)

unfoldable pub recover_claim : ℕ → String → Box → Bool × Box
recover_claim now name b = elim (lookup name b.claims) [
  | some (some c) ↦ elim c.claimed_at [
    | some claimed_at ↦ recover_timed now name (claim_id name c) claimed_at b
    | none ↦ (false, b)
  ]
  | _ ↦ (false, b)
]

unfoldable pub recover_each : ℕ → List String → Box → ℕ × Box
recover_each now [] b = (0, b)
recover_each now (n ∷ ns) b =
    let r = recover_claim now n b in
    let rest = recover_each now ns r.1 in (if r.0 then rest.0 + 1 else rest.0, rest.1)

-- `recover_stale`: how many messages came back. Temporary claims older than the gate go.
unfoldable pub recover_stale : ℕ → Box → ℕ × Box
recover_stale now b =
    let r = recover_each now (sorted_names b.claims) b in
    (r.0, record r.1 { tmp_claims = keep (λ t. leb now (t + orphan_gate)) r.1.tmp_claims })
