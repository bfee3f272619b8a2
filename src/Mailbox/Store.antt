-- ===== src/Mailbox/Store.antt =====
-- `MailboxStore` of src/codeagent/mailbox/store.py, the folders of one agent of one session: which
-- files they hold, by their names without the extension, and the claim files. A call is one atomic
-- step, a folder that does not exist is empty, and `os.replace` puts a file over one of the same
-- name. Times are whole seconds.
pub mod Read
pub mod Finish
pub mod Moves
pub mod Steps
pub mod Calls
pub mod Turns
pub mod Loop
pub mod Ends
pub mod Handover
pub mod Places
pub mod Cleanup
pub mod Lease
pub mod Exclusive
use Prim.Native.String
use Prim.Native.String.{len, slice}
use text.Mathlib.Text.{starts_with}
use aimeshchat.Base.{
  ℕ, ◌+◌, ◌-◌, String, Bool, true, false, not, ◌&&◌, ◌||◌, Option, none, some, List, [], ◌∷◌, ◌==◌,
  leb, select, if◌then◌else◌,
}
use aimeshchat.Base.Table.{Table, lookup, insert, remove}
use aimeshchat.Mailbox.Dicts.{Dict}

-- What a message file holds: bytes that `json.loads` rejects, or a value, no dict for one that is no
-- object.
pub data Content : Type 0 where
  garbled : Content
  json : Option Dict → Content

pub record File : Type 0 where
  pub mtime : ℕ
  pub content : Content

-- The fields of a claim file; no time where the text is missing or no ISO time.
pub record Claim : Type 0 where
  pub owner : Option String
  pub claimed_at : Option ℕ
  pub msg_id : Option String

-- The folders. A claim file that is no JSON has no claim; of a temporary claim only its time counts.
pub record Box : Type 0 where
  pub inbox : Table File
  pub processing : Table File
  pub archive : Table File
  pub corrupt : Table File
  pub claims : Table (Option Claim)
  pub tmp_claims : Table ℕ

pub data Place : Type 0 where
  in_inbox in_processing in_archive in_corrupt : Place

abbrev pub folder : Place → Box → Table File
folder in_inbox b = b.inbox
folder in_processing b = b.processing
folder in_archive b = b.archive
folder in_corrupt b = b.corrupt

abbrev pub with_folder : Place → Table File → Box → Box
with_folder in_inbox t b = record b { inbox = t }
with_folder in_processing t b = record b { processing = t }
with_folder in_archive t b = record b { archive = t }
with_folder in_corrupt t b = record b { corrupt = t }

-- `os.replace(src / name, dest / name)` where the source exists.
unfoldable pub move : String → Place → Place → Box → Box
move name src dest b = elim (lookup name (folder src b)) [
  | none ↦ b
  | some f ↦
      let b' = with_folder src (remove name (folder src b)) b in
      with_folder dest (insert name f (folder dest b')) b'
]

abbrev pub drop_claim : String → Box → Box
drop_claim name b = record b { claims = remove name b.claims }

abbrev pub lease_timeout : ℕ
lease_timeout = 3600

abbrev pub lease_clock_tolerance : ℕ
lease_clock_tolerance = 30

abbrev pub orphan_gate : ℕ
orphan_gate = 30

-- `claimed_ts >= now - LEASE_TIMEOUT_S + LEASE_CLOCK_TOLERANCE_S`
abbrev pub is_fresh : ℕ → ℕ → Bool
is_fresh now claimed_at = leb (now + lease_clock_tolerance) (claimed_at + lease_timeout)

-- The names of claim files, without `.json`, and the start that `glob` asks for.
unfoldable pub claim_prefix : String → String
claim_prefix msg_id = String.◌++◌ ".claim-" (String.◌++◌ msg_id "-")

unfoldable pub claim_name : String → String → String
claim_name msg_id owner = String.◌++◌ (claim_prefix msg_id) owner

-- `glob(f".claim-{msg_id}-*.json")`
unfoldable pub claims_of : String → Table (Option Claim) → Table (Option Claim)
claims_of msg_id t = select (λ (name, c). starts_with name (claim_prefix msg_id)) t

unfoldable pub ends_with : String → String → Bool
ends_with s t = leb (len t) (len s) && slice s (len s - len t) (len s) == t

-- The message id that the name of a claim file says, for a claim that has none.
unfoldable pub id_of_name : String → String → String
id_of_name name owner =
    let suffix = String.◌++◌ "-" owner in
    if starts_with name ".claim-" && (not (owner == "") && ends_with name suffix)
    then slice name 7 (len name - len suffix)
    else name

abbrev pub text_or_empty : Option String → String
text_or_empty none = ""
text_or_empty (some s) = s

-- `claim.get("msg_id")`, or what the name says.
abbrev pub claim_id : String → Claim → String
claim_id name c =
    if text_or_empty c.msg_id == ""
    then id_of_name name (text_or_empty c.owner)
    else text_or_empty c.msg_id

-- `_reap_expired_claim`: whether the claim file was removed.
unfoldable pub reap_expired_claim : ℕ → String → Box → Bool × Box
reap_expired_claim now name b = elim (lookup name b.claims) [
  | some (some c) ↦ reap c c.claimed_at
  | _ ↦ (false, b)
]
  where
    reap : Claim → Option ℕ → Bool × Box
    reap c none = (false, b)
    reap c (some claimed_at) =
        if is_fresh now claimed_at
        then (false, b)
        else (true, drop_claim name (move (claim_id name c) in_processing in_inbox b))
