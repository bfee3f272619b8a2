-- ===== src/Mailbox/Store/Read.antt =====
-- `list_messages` and `read` of src/codeagent/mailbox/store.py: the oldest message that may be
-- claimed goes from the inbox to processing. The source loops until there is one; here the loop has
-- fuel. The clock is read on every turn: `clock n` is its reading when `n` turns are left after this one.
use text.Mathlib.Text.{starts_with}
use aimeshchat.Base.{
  ℕ, zero, suc, ◌+◌, ◌*◌, String, Bool, false, not, ◌&&◌, ◌||◌, Option, none, some, List, [], ◌∷◌,
  ◌==◌, leb, any, length, if◌then◌else◌, Result, ok, err,
}
use aimeshchat.Base.Table.{Table, lookup, insert}
use aimeshchat.Mailbox.Dicts.{Dict}
use aimeshchat.Mailbox.Validate.{Refusal, unhashable_kind, validate_message, text_at}
use aimeshchat.Mailbox.Store.{
  File, Content, Claim, Box, garbled, json, in_inbox, in_processing, in_corrupt, move, claim_name,
  reap_expired_claim,
}

-- `session.json`, as far as the roster goes.
pub record SessionMeta : Type 0 where
  pub manager : String
  pub agents : List String

abbrev pub one_of : List String → String → Bool
one_of names s = any (λ n. n == s) names

unfoldable pub in_roster : Option SessionMeta → String → Bool
in_roster none s = false
in_roster (some meta) s = meta.manager == s || one_of meta.agents s

unfoldable pub is_hidden : String → Bool
is_hidden name = starts_with name ".sync-conflict-" || starts_with name ".tmp-"

unfoldable pub insert_by_age : String × File → Table File → Table File
insert_by_age e [] = e ∷ []
insert_by_age (n, f) ((m, g) ∷ t) =
    let rest = insert_by_age (n, f) t in
    if leb f.mtime g.mtime then (n, f) ∷ ((m, g) ∷ t) else (m, g) ∷ rest

-- `list_messages`: the oldest first.
unfoldable pub list_messages : Table File → Table File
list_messages [] = []
list_messages ((n, f) ∷ t) =
    let rest = list_messages t in if is_hidden n then rest else insert_by_age (n, f) rest

unfoldable pub first_where : (String → Bool) → Table File → Option (String × File)
first_where p [] = none
first_where p ((n, f) ∷ t) = let rest = first_where p t in if p n then some (n, f) else rest

-- The file that `read` turns to; no target is the empty text.
abbrev pub may_take : List String → String → List String → String → Bool
may_take skip target contested n =
    if target == "" then not (one_of skip n) && not (one_of contested n) else n == target

pub data Answer : Type 0 where
  nothing : Answer
  message : String → Dict → Answer
  type_error : Answer

-- One turn of the loop: it returns, or goes on with the files and the contested ids.
pub data Turn : Type 0 where
  returned : Answer → Box → Turn
  again : Box → List String → Turn

abbrev pub quarantine : String → Box → List String → Turn
quarantine name b contested = again (move name in_inbox in_corrupt b) contested

abbrev pub new_claim : ℕ → String → String → Claim
new_claim now owner name = record { owner = some owner; claimed_at = some now; msg_id = some name }

-- The claim file of a message, written without replacing one.
abbrev pub publish : ℕ → String → String → Box → Box
publish now owner name b = record b {
  claims = insert (claim_name name owner) (some (new_claim now owner name)) b.claims;
}

-- A turn that goes on takes a claim away, or a file of the inbox from those to try.
abbrev pub enough : Box → ℕ
enough b = suc (2 * length b.claims + length b.inbox)

module _ (now : ℕ) (session agent owner : String) (meta : Option SessionMeta) where
  -- The claim is linked without replacing one that is there.
  unfoldable pub claim_message : String → Dict → Box → List String → Turn
  claim_message name d b contested = elim (lookup (claim_name name owner) b.claims) [
    | none ↦ returned (message name d) (move name in_inbox in_processing (publish now owner name b))
    | some _ ↦
        let r = reap_expired_claim now (claim_name name owner) b in
        if r.0 then again r.1 contested else again b (name ∷ contested)
  ]

  unfoldable pub judge : String → Dict → Box → List String → Result Refusal (Unit {0}) → Turn
  judge name d b contested (ok _) =
      if in_roster meta (text_at "from" d)
      then claim_message name d b contested
      else quarantine name b contested
  judge name d b contested (err unhashable_kind) = returned type_error b
  judge name d b contested (err _) = quarantine name b contested

  unfoldable pub take_file : String → Content → Box → List String → Turn
  take_file name garbled b contested = quarantine name b contested
  take_file name (json none) b contested = quarantine name b contested
  take_file name (json (some d)) b contested =
      judge name d b contested (validate_message (some d) (some session) (some agent) (some name))

  unfoldable pub turn : List String → String → Box → List String → Turn
  turn skip target b contested =
      elim (first_where (may_take skip target contested) (list_messages b.inbox)) [
        | none ↦ returned nothing b
        | some (name, f) ↦ take_file name f.content b contested
      ]

module _ (clock : ℕ → ℕ) (session agent owner : String) (meta : Option SessionMeta) where
  unfoldable pub read_loop : ℕ → List String → String → Box → List String → Option (Answer × Box)
  read_loop zero skip target b contested = none
  read_loop (suc fuel) skip target b contested =
      elim (turn (clock fuel) session agent owner meta skip target b contested) [
        | returned a b' ↦ some (a, b')
        | again b' contested' ↦ read_loop fuel skip target b' contested'
      ]

  unfoldable pub read : List String → String → Box → Option (Answer × Box)
  read skip target b = read_loop (enough b) skip target b []
