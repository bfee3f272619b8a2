-- ===== src/Mailbox/Dicts.antt =====
-- src/codeagent/mailbox/protocol.py: messages as the dicts that JSON files hold, and the way back.
-- `json` itself is not modelled. Of a value nobody looks into, only its type and its truth are kept.
pub mod RoundTrip
use aimeshchat.Base.{
  ℕ, String, Bool, true, false, not, ◌&&◌, Option, none, some, List, [], ◌∷◌, map, ◌==◌, all, eqb,
  if◌then◌else◌, Result, ok, err, ◌>>=◌,
}
use aimeshchat.Base.Table.{Table, lookup}
use aimeshchat.Mailbox.Protocol.{Message, AttachmentRef}

-- A JSON value that is not a list: a float and an object are known by their truth only. `negative n`
-- is `-(n + 1)`.
pub data Plain : Type 0 where
  null : Plain
  flag : Bool → Plain
  number : ℕ → Plain
  negative : ℕ → Plain
  real : Bool → Plain
  text : String → Plain
  compound : Bool → Plain

-- An item of a list.
pub data Item : Type 0 where
  object : Table Plain → Item
  not_object : Item

pub data Value : Type 0 where
  plain : Plain → Value
  items : List Item → Value

abbrev pub Dict : Type 0
Dict = Table Value

abbrev pub default_media_type : String
default_media_type = "application/octet-stream"

pub data DictError : Type 0 where
  key_error type_error : DictError
  -- The source returns an object with a value of another type in a field.
  foreign : DictError

abbrev pub has_key {ℓ} : {V : Type ℓ} → Table V → String → Bool
has_key d k = elim (lookup k d) [ none ↦ false | some _ ↦ true ]

-- `AttachmentRef.to_dict`
unfoldable pub ref_to_dict : AttachmentRef → Table Plain
ref_to_dict a =
    ("artifact_id", text a.artifact_id)
    ∷ ("source_host", text a.source_host)
    ∷ ("remote_root", text a.remote_root)
    ∷ ("relative_path", text a.relative_path)
    ∷ ("size", number a.size)
    ∷ ("sha256", text a.sha256)
    ∷ ("media_type", text a.media_type)
    ∷ []

abbrev pub text_of : Option Plain → Result DictError String
text_of (some (text s)) = ok s
text_of _ = err foreign

abbrev pub size_of : Option Plain → Result DictError ℕ
size_of (some (number n)) = ok n
size_of _ = err foreign

-- `d.get(key, default)` for a text.
abbrev pub text_or : String → Option Plain → Result DictError String
text_or default none = ok default
text_or default (some v) = text_of (some v)

abbrev pub ref_keys : List String
ref_keys = "artifact_id" ∷ "source_host" ∷ "remote_root" ∷ "relative_path" ∷ "size" ∷ "sha256" ∷ []

-- What `AttachmentRef.from_dict` makes of a dict that has every key.
unfoldable pub ref_of : Table Plain → Result DictError AttachmentRef
ref_of d = do
  artifact_id ← text_of (lookup "artifact_id" d)
  source_host ← text_of (lookup "source_host" d)
  remote_root ← text_of (lookup "remote_root" d)
  relative_path ← text_of (lookup "relative_path" d)
  size ← size_of (lookup "size" d)
  sha256 ← text_of (lookup "sha256" d)
  media_type ← text_or default_media_type (lookup "media_type" d)
  ok (record {
    artifact_id = artifact_id;
    source_host = source_host;
    remote_root = remote_root;
    relative_path = relative_path;
    size = size;
    sha256 = sha256;
    media_type = media_type;
  })

-- `AttachmentRef.from_dict`
unfoldable pub ref_from_dict : Table Plain → Result DictError AttachmentRef
ref_from_dict d = if all (has_key d) ref_keys then ref_of d else err key_error

-- An optional key is there when its text is not empty.
unfoldable pub optional : String → String → Dict → Dict
optional key value rest = if value == "" then rest else (key, plain (text value)) ∷ rest

unfoldable pub attached : List AttachmentRef → Dict
attached [] = []
attached (a ∷ as_) = ("attachments", items (map (λ r. object (ref_to_dict r)) (a ∷ as_))) ∷ []

-- `Message.to_dict`, in the order of the dict.
unfoldable pub to_dict : Message → Dict
to_dict m =
    ("session_id", plain (text m.session_id))
    ∷ ("from", plain (text m.from_id))
    ∷ ("to", plain (text m.to_id))
    ∷ ("subject", plain (text m.subject))
    ∷ ("body", plain (text m.body))
    ∷ ("kind", plain (text m.kind))
    ∷ ("msg_id", plain (text m.msg_id))
    ∷ ("created_at", plain (text m.created_at))
    ∷ ("protocol_version", plain (number m.protocol_version))
    ∷ ("require_ack", plain (flag m.require_ack))
    ∷ optional "receipt_type" m.receipt_type (
        optional "reply_to" m.reply_to (
          optional "run_id" m.run_id (
            optional "request_id" m.request_id (
              optional "command_id" m.command_id (
                optional "trace_id" m.trace_id
                  (optional "causation_id" m.causation_id (attached m.attachments)))))))

-- `bool(v)`
unfoldable pub truth : Value → Bool
truth (plain null) = false
truth (plain (flag b)) = b
truth (plain (number n)) = not (eqb n 0)
truth (plain (negative n)) = true
truth (plain (real b)) = b
truth (plain (text s)) = not (s == "")
truth (plain (compound b)) = b
truth (items []) = false
truth (items (_ ∷ _)) = true

abbrev pub plain_of : Option Value → Option Plain
plain_of (some (plain p)) = some p
plain_of (some (items _)) = some (compound true)
plain_of none = none

abbrev pub required_fields : List String
required_fields =
    "session_id" ∷ "from" ∷ "to" ∷ "subject" ∷ "body" ∷ "kind" ∷ "msg_id" ∷ "created_at" ∷ []

abbrev pub item_keys_ok : Item → Bool
item_keys_ok (object d) = all (has_key d) ref_keys
item_keys_ok not_object = true

-- The attachments of a list whose objects have their keys; other items are passed over.
unfoldable pub refs_of : List Item → Result DictError (List AttachmentRef)
refs_of [] = ok []
refs_of (not_object ∷ is) = refs_of is
refs_of (object d ∷ is) = do a ← ref_from_dict d; rest ← refs_of is; ok (a ∷ rest)

-- What iterating over `d.get("attachments", [])` gives: a text and an object have items too, and
-- none of them is a dict.
unfoldable pub attachment_items : Option Value → Result DictError (List Item)
attachment_items none = ok []
attachment_items (some (items is)) = if all item_keys_ok is then ok is else err key_error
attachment_items (some (plain (text s))) = ok []
attachment_items (some (plain (compound b))) = ok []
attachment_items (some (plain _)) = err type_error

abbrev pub version_of : Option Value → Result DictError ℕ
version_of none = ok 1
version_of (some (plain (number n))) = ok n
version_of (some _) = err foreign

abbrev pub ack_of : Option Value → Bool
ack_of none = false
ack_of (some v) = truth v

-- The fields, when no key is missing.
unfoldable pub message_of : Dict → List Item → Result DictError Message
message_of d is = do
  session_id ← text_of (plain_of (lookup "session_id" d))
  from_id ← text_of (plain_of (lookup "from" d))
  to_id ← text_of (plain_of (lookup "to" d))
  subject ← text_of (plain_of (lookup "subject" d))
  body ← text_of (plain_of (lookup "body" d))
  kind ← text_of (plain_of (lookup "kind" d))
  msg_id ← text_of (plain_of (lookup "msg_id" d))
  created_at ← text_of (plain_of (lookup "created_at" d))
  reply_to ← text_or "" (plain_of (lookup "reply_to" d))
  run_id ← text_or "" (plain_of (lookup "run_id" d))
  request_id ← text_or "" (plain_of (lookup "request_id" d))
  command_id ← text_or "" (plain_of (lookup "command_id" d))
  trace_id ← text_or "" (plain_of (lookup "trace_id" d))
  causation_id ← text_or "" (plain_of (lookup "causation_id" d))
  attachments ← refs_of is
  protocol_version ← version_of (lookup "protocol_version" d)
  receipt_type ← text_or "" (plain_of (lookup "receipt_type" d))
  ok (record {
    session_id = session_id;
    from_id = from_id;
    to_id = to_id;
    subject = subject;
    body = body;
    kind = kind;
    msg_id = msg_id;
    created_at = created_at;
    reply_to = reply_to;
    run_id = run_id;
    request_id = request_id;
    command_id = command_id;
    trace_id = trace_id;
    causation_id = causation_id;
    attachments = attachments;
    protocol_version = protocol_version;
    require_ack = ack_of (lookup "require_ack" d);
    receipt_type = receipt_type;
  })

-- `Message.from_dict`
unfoldable pub from_dict : Dict → Result DictError Message
from_dict d =
    if all (has_key d) required_fields
    then (do is ← attachment_items (lookup "attachments" d); message_of d is)
    else err key_error
