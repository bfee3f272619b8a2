-- ===== src/Mailbox/StoreTests.antt =====
-- Messages, their validation and the claims at concrete inputs.
use aimeshchat.Base.{select}
use aimeshchat.Mailbox.Store.Finish.{is_alphanumeric}
use aimeshchat.Mailbox.Sessions.{
  Session, Extras, Place, session_init, merge_session, merged_info, new_session, insert_sorted,
  sorted_set, agent_id_ok, updated, advance_cursor,
}
use aimeshchat.Mailbox.Sessions.Roster.{InitHolds, session_init-InitHolds}
use aimeshchat.Base.{
  ◌≤◌, String, ◌≡◌, refl, ◌≢◌, true, false, Option, none, some, List, [], ◌∷◌, All, any, all, ok,
  err, select, arith, eq_iff,
}
use aimeshchat.Base.Table.{lookup, insert, remove}
use aimeshchat.Mailbox.Protocol.{
  Message, path_component_ok, path_safe_match, is_path_safe, before_end,
}
use aimeshchat.Mailbox.Dicts.{to_dict, optional, attached, from_dict, truth, items}
use aimeshchat.Mailbox.Validate
use aimeshchat.Mailbox.Ledger.{apply_message}
use aimeshchat.Mailbox.Validate.{
  validate_message, text_at, demands_ack, is_blank, is_component, unhashable_kind,
}
use aimeshchat.Mailbox.Validate.Readable.{AreTexts, Returns}
use aimeshchat.Mailbox.Validate.Safety.{validate_message-receipt, validate_message-apply_message}
use aimeshchat.Mailbox.Store.Handover.{IsFree, read-IsHeld, turns, turns-again}
use aimeshchat.Mailbox.Store.Cleanup.{Activity, calls, purges, act_all, AllSpare, act_all-places}
use aimeshchat.Mailbox.Store.Ends.{read-returns}
use aimeshchat.Mailbox.Store.Lease.{IsHeld}
use aimeshchat.Mailbox.Store.Exclusive.{Others, run-IsHeld}
use aimeshchat.Mailbox.Store.Moves.{places}
use aimeshchat.Mailbox.Store.Places.{
  Call, reads, recovers, finalizes, releases, finalizes_from_inbox, renews, run,
}
use aimeshchat.Mailbox.Dicts.RoundTrip.{from_dict-to_dict}
use aimeshchat.Mailbox.Store.{
  Box, File, Claim, json, garbled, claim_name, claim_prefix, move, claims_of, reap_expired_claim,
}
use aimeshchat.Mailbox.Store.Read.{
  SessionMeta, read, read_loop, turn, take_file, judge, claim_message, first_where, list_messages,
  insert_by_age, is_hidden, in_roster, may_take, Answer, again, message,
}

-- What validation computes through.
validation_code : Unit {0}
unfolding validate_message Validate.then_attachments Validate.first_failure Validate.type_checks
    Validate.version_checks Validate.kind_checks Validate.receipt_checks Validate.address_checks
    Validate.component_checks Validate.attachments_check Validate.attachments_error
    Validate.attachment_error Validate.attachment_checks Validate.kind_extras Validate.is_kind
    Validate.is_blank Validate.is_space to_dict optional attached lookup all any path_component_ok
    path_safe_match is_path_safe before_end
validation_code = tt

abbrev receipt : Message
receipt = record {
  session_id = "s1";
  from_id = "w1";
  to_id = "mgr";
  subject = "read";
  body = "done";
  kind = "RECEIPT";
  msg_id = "m1";
  created_at = "";
  reply_to = "m0";
  run_id = "r1";
  request_id = "q1";
  command_id = "";
  trace_id = "";
  causation_id = "";
  attachments = [];
  protocol_version = 2;
  require_ack = false;
  receipt_type = "READ";
}

receipt-accepted :
    validate_message (some (to_dict receipt)) (some "s1") (some "mgr") (some "m1") ≡ ok tt
unfolding validation_code truth
receipt-accepted = refl

-- What the folders' calls compute through.
store_code : Unit {0}
unfolding read read_loop turn take_file judge claim_message first_where list_messages insert_by_age
    is_hidden in_roster reap_expired_claim claim_name claim_prefix claims_of move insert remove
    select lookup any
store_code = tt

from_dict-to_dict_example : from_dict (to_dict receipt) ≡ ok receipt
from_dict-to_dict_example = from_dict-to_dict receipt

receipt_texts : AreTexts (to_dict receipt)
unfolding validation_code
receipt_texts = (refl, (refl, (refl, (refl, (refl, (refl, tt))))))

validate_message-apply_message_example :
    (m : Message) × (from_dict (to_dict receipt) ≡ ok m) × Returns (apply_message 5 [] m)
validate_message-apply_message_example =
    validate_message-apply_message 5 [] (to_dict receipt) (some "s1") (some "mgr") (some "m1")
      receipt-accepted receipt_texts

kind_is_receipt : text_at "kind" (to_dict receipt) ≡ "RECEIPT"
unfolding validation_code
kind_is_receipt = refl

validate_message-receipt_example :
    (demands_ack (lookup "require_ack" (to_dict receipt)) ≡ false)
    × (text_at "receipt_type" (to_dict receipt) ≡ "READ")
    × (is_blank (text_at "reply_to" (to_dict receipt)) ≡ false)
    × (is_component (lookup "reply_to" (to_dict receipt)) ≡ true)
validate_message-receipt_example =
    validate_message-receipt (to_dict receipt) (some "s1") (some "mgr") (some "m1") receipt-accepted
      kind_is_receipt

-- A kind that is a list raises.
list_kind_raises :
    validate_message (some (insert "kind" (items []) (to_dict receipt))) none none none
    ≡ err unhashable_kind
unfolding validation_code truth insert
list_kind_raises = refl

abbrev roster : Option SessionMeta
roster = some (record { manager = "mgr"; agents = "w1" ∷ [] })

abbrev letter : File
letter = record { mtime = 7; content = json (some (to_dict receipt)) }

-- A letter, and a file that is no JSON.
abbrev posted : Box
posted = record {
  inbox = ("junk", record { mtime = 3; content = garbled }) ∷ ("m1", letter) ∷ [];
  processing = [];
  archive = [];
  corrupt = [];
  claims = [];
  tmp_claims = [];
}

abbrev claim_by_a : Claim
claim_by_a = record { owner = some "a"; claimed_at = some 100; msg_id = some "m1" }

abbrev claimed_box : Box
claimed_box = record {
  inbox = [];
  processing = ("m1", letter) ∷ [];
  archive = [];
  corrupt = ("junk", record { mtime = 3; content = garbled }) ∷ [];
  claims = (".claim-m1-a", some claim_by_a) ∷ [];
  tmp_claims = [];
}

read_claims :
    read (λ _. 100) "s1" "mgr" "a" roster [] "" posted
    ≡ some (message "m1" (to_dict receipt), claimed_box)
unfolding validation_code truth store_code
read_claims = refl

read-returns_example :
    (r : Answer × Box) × (read (λ _. 100) "s1" "mgr" "a" roster [] "" posted ≡ some r)
read-returns_example = read-returns (λ _. 100) "s1" "mgr" "a" roster [] posted

posted-IsFree : IsFree "m1" posted
unfolding lookup
posted-IsFree = record { keyed = tt; free = λ n c e. absurd (ground arith) }

read-IsHeld_example : IsHeld "m1" "a" 100 claimed_box
read-IsHeld_example =
    read-IsHeld (λ _. 100) 100 "s1" "mgr" "a" roster [] "" "m1" (to_dict receipt) posted claimed_box
      (λ n. omega arith) (λ e. ground (arith, eq_iff "m1" "")) posted-IsFree read_claims

abbrev others : List Call
others =
    reads 200 "b" [] ""
    ∷ recovers 3000 "b"
    ∷ finalizes 3000 "b" "m1"
    ∷ releases 3600 "b" "m1"
    ∷ finalizes_from_inbox 3600 "b" "m1"
    ∷ renews 3670 "b" "m1"
    ∷ []

distinct : ◌≢◌ {A = String} "a" "b"
distinct = λ e. ground (arith, eq_iff "a" "b")

claimed-IsHeld : IsHeld "m1" "a" 100 claimed_box
claimed-IsHeld =
    read-IsHeld (λ _. 100) 100 "s1" "mgr" "a" roster [] "" "m1" (to_dict receipt) posted claimed_box
      (λ n. omega arith) (λ e. ground (arith, eq_iff "m1" "")) posted-IsFree read_claims

others_within : All (Others "a" 100) others
others_within = (
  (distinct, omega arith, omega arith),
  (
    (distinct, omega arith, omega arith),
    (
      (distinct, omega arith, omega arith),
      (
        (distinct, omega arith, omega arith),
        ((distinct, omega arith, omega arith), ((distinct, omega arith, omega arith), tt)),
      ),
    ),
  ),
)

run-IsHeld_example : IsHeld "m1" "a" 100 (run "s1" "mgr" roster claimed_box others)
run-IsHeld_example =
    run-IsHeld "s1" "mgr" roster "m1" "a" 100 claimed_box others others_within claimed-IsHeld

once : places "m1" claimed_box ≤ 1
unfolding lookup
once = omega arith

abbrev activities : List Activity
activities = purges ∷ calls (finalizes 200 "a" "m1") ∷ purges ∷ []

act_all-places_example :
    (places "m1" (act_all "s1" "mgr" roster claimed_box activities) ≤ places "m1" claimed_box)
    × (AllSpare "s1" "mgr" roster "m1" claimed_box activities
        → places "m1" (act_all "s1" "mgr" roster claimed_box activities) ≡ places "m1" claimed_box)
act_all-places_example = act_all-places "s1" "mgr" roster claimed_box activities "m1" once

-- A claim whose message has not moved, as a crash between the two leaves it.
abbrev crashed : Box
crashed = record {
  inbox = ("m1", letter) ∷ [];
  processing = [];
  archive = [];
  corrupt = [];
  claims = (".claim-m1-a", some claim_by_a) ∷ [];
  tmp_claims = [];
}

crashed-found :
    first_where (may_take [] "m1" []) (list_messages crashed.inbox) ≡ some ("m1", letter)
unfolding store_code
crashed-found = refl

crashed-claim : lookup (claim_name "m1" "a") crashed.claims ≡ some (some claim_by_a)
unfolding store_code
crashed-claim = refl

sender-member : in_roster roster (text_at "from" (to_dict receipt)) ≡ true
unfolding store_code validation_code
sender-member = refl

turns-again_example :
    (contested : List String) × (turns "s1" "mgr" "a" roster [] "m1"
        (200 ∷ 201 ∷ 3000 ∷ [])
        crashed
        []
      ≡ again crashed contested)
turns-again_example =
    turns-again "s1" "mgr" "a" roster [] "m1" crashed letter (to_dict receipt) claim_by_a 100
      (200 ∷ 201 ∷ 3000 ∷ []) (λ e. ground (arith, eq_iff "m1" "")) crashed-found refl
      receipt-accepted sender-member crashed-claim refl (refl, (refl, (refl, tt)))

-- What the calls on a session compute through.
session_code : Unit {0}
unfolding session_init merge_session merged_info new_session insert_sorted sorted_set agent_id_ok
    updated is_alphanumeric is_path_safe before_end all any select
session_code = tt

abbrev no_session : Session
no_session = record { info = none; folders = [] }

abbrev plain_call : Extras
plain_call = record { acl = none; execution_modes = none; return_modes = none }

abbrev founded : Session
founded = record {
  info = some (record {
    manager = "mgr";
    agents = "a1" ∷ "w1" ∷ [];
    manifest_revision = 1;
    acl = none;
    execution_modes = [];
    return_modes = [];
  });
  folders = "a1" ∷ "w1" ∷ "mgr" ∷ [];
}

abbrev joined : Session
joined = record {
  info = some (record {
    manager = "mgr";
    agents = "a1" ∷ "b2" ∷ "w1" ∷ [];
    manifest_revision = 2;
    acl = none;
    execution_modes = [];
    return_modes = [];
  });
  folders = "a1" ∷ "w1" ∷ "mgr" ∷ "b2" ∷ [];
}

founds : session_init no_session "s1" "mgr" ("w1" ∷ "a1" ∷ "w1" ∷ []) plain_call ≡ ok founded
unfolding session_code
founds = refl

joins : session_init founded "s1" "mgr" ("b2" ∷ "a1" ∷ []) plain_call ≡ ok joined
unfolding session_code
joins = refl

joins_again : session_init joined "s1" "mgr" ("b2" ∷ []) plain_call ≡ ok joined
unfolding session_code
joins_again = refl

session_init-InitHolds_example : InitHolds founded joined "mgr" ("b2" ∷ "a1" ∷ [])
session_init-InitHolds_example =
    session_init-InitHolds founded joined "s1" "mgr" ("b2" ∷ "a1" ∷ []) plain_call joins

abbrev start : Place
start = record { epoch_ms = 1000; seq = 4 }

-- A call that read its clock before the one that is done puts the place of messages back.
cursor_goes_back :
    advance_cursor 999 (some (advance_cursor 1000 (some start)))
    ≡ record { epoch_ms = 999; seq = 0 }
unfolding advance_cursor
cursor_goes_back = refl
