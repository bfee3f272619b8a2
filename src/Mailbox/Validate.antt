-- ===== src/Mailbox/Validate.antt =====
-- `validate_message` and `attachment_error` of src/codeagent/mailbox/protocol.py. A reason keeps
-- the name of the field it is about and no more of its text.
pub mod Accepted
pub mod Readable
pub mod Safety
use Prim.Native.String
use aimeshchat.Base.{
  ℕ, String, Bool, true, false, not, ◌&&◌, ◌||◌, Option, none, some, List, [], ◌∷◌, ◌++◌, map, ◌==◌,
  all, any, eqb, leb, length, if◌then◌else◌, Result, ok, err,
}
use aimeshchat.Base.Table.{Table, lookup}
use aimeshchat.Mailbox.Protocol.{codes, before_end, path_component_ok}
use aimeshchat.Mailbox.Dicts.{
  Plain, Value, Item, Dict, null, flag, number, text, object, not_object, plain, items, compound,
  has_key, truth, default_media_type, required_fields,
}

pub data AttachmentFault : Type 0 where
  must_be_object bad_size bad_sha256 unsafe_path bad_media_type : AttachmentFault
  not_filled : String → AttachmentFault

pub data Refusal : Type 0 where
  not_json_object missing_fields invalid_kind bad_protocol_version bad_require_ack : Refusal
  invalid_receipt_type missing_for_kind receipt_demands_ack receipt_not_read : Refusal
  receipt_without_reply session_mismatch recipient_mismatch file_mismatch : Refusal
  msg_id_separator attachments_not_list : Refusal
  -- A list or an object is not hashable: `in VALID_KINDS` raises `TypeError`.
  unhashable_kind : Refusal
  must_be_string is_empty kind_requires unsafe_component : String → Refusal
  invalid_attachment : AttachmentFault → Refusal

-- A test with what is answered where it fails, and the first failure of several.
abbrev pub Checks : Type 0 → Type 0
Checks E = List (Bool × E)

unfoldable pub first_failure : {E : Type 0} → Checks E → Result E (Unit {0})
first_failure [] = ok tt
first_failure ((passes, e) ∷ cs) = let rest = first_failure cs in if passes then rest else err e

-- White space, as `str.strip` takes it.
unfoldable pub is_space : ℕ → Bool
is_space c =
    (leb 9 c && leb c 13)
    || ((leb 28 c && leb c 32)
        || (any (λ d. eqb c d) (133 ∷ 160 ∷ 5760 ∷ 8232 ∷ 8233 ∷ 8239 ∷ 8287 ∷ 12_288 ∷ [])
            || (leb 8192 c && leb c 8202)))

-- `not s.strip()`
unfoldable pub is_blank : String → Bool
is_blank s = all is_space (codes s)

unfoldable pub is_hex : ℕ → Bool
is_hex c = (leb b'0' c && leb c b'9') || ((leb b'a' c && leb c b'f') || (leb b'A' c && leb c b'F'))

-- `SHA256_RE.match(s)`, for `^[0-9a-fA-F]{64}$`.
unfoldable pub sha256_match : String → Bool
sha256_match s = let body = before_end (codes s) in eqb (length body) 64 && all is_hex body

-- `".." in s`
unfoldable pub has_dots : List ℕ → Bool
has_dots [] = false
has_dots (c ∷ []) = false
has_dots (c ∷ (d ∷ cs)) = (eqb c b'.' && eqb d b'.') || has_dots (d ∷ cs)

unfoldable pub starts_with_slash : List ℕ → Bool
starts_with_slash [] = false
starts_with_slash (c ∷ cs) = eqb c b'/'

unfoldable pub path_is_safe : String → Bool
path_is_safe s =
    let cs = codes s in
    not (starts_with_slash cs) && (not (any (λ c. eqb c b'\\') cs) && not (has_dots cs))

abbrev pub is_filled : Option Plain → Bool
is_filled (some (text s)) = not (is_blank s)
is_filled _ = false

abbrev pub is_size : Option Plain → Bool
is_size (some (number n)) = true
is_size _ = false

abbrev pub is_sha256 : Option Plain → Bool
is_sha256 (some (text s)) = sha256_match s
is_sha256 _ = false

abbrev pub is_safe_path : Option Plain → Bool
is_safe_path (some (text s)) = path_is_safe s
is_safe_path _ = false

abbrev pub is_media_type : Option Plain → Bool
is_media_type none = true
is_media_type (some v) = is_filled (some v)

unfoldable pub attachment_checks : Table Plain → Checks AttachmentFault
attachment_checks d =
    (is_filled (lookup "artifact_id" d), not_filled "artifact_id")
    ∷ (is_filled (lookup "source_host" d), not_filled "source_host")
    ∷ (is_filled (lookup "remote_root" d), not_filled "remote_root")
    ∷ (is_filled (lookup "relative_path" d), not_filled "relative_path")
    ∷ (is_size (lookup "size" d), bad_size)
    ∷ (is_sha256 (lookup "sha256" d), bad_sha256)
    ∷ (is_safe_path (lookup "relative_path" d), unsafe_path)
    ∷ (is_media_type (lookup "media_type" d), bad_media_type)
    ∷ []

unfoldable pub attachment_error : Item → Result AttachmentFault (Unit {0})
attachment_error not_object = err must_be_object
attachment_error (object d) = first_failure (attachment_checks d)

unfoldable pub attachments_error : List Item → Result Refusal (Unit {0})
attachments_error [] = ok tt
attachments_error (i ∷ is) =
    let rest = attachments_error is in
    elim (attachment_error i) [ ok _ ↦ rest | err e ↦ err (invalid_attachment e) ]

unfoldable pub is_kind : String → Bool
is_kind k =
    any (λ j. j == k)
      ("TASK" ∷ "REPORT" ∷ "PROGRESS" ∷ "EVIDENCE" ∷ "QUESTION" ∷ "RESPONSE" ∷ "NOTICE" ∷ "RECEIPT"
        ∷ [])

abbrev pub is_hashable : Option Value → Bool
is_hashable (some (items _)) = false
is_hashable (some (plain (compound _))) = false
is_hashable _ = true

abbrev pub is_text : Option Value → Bool
is_text (some (plain (text s))) = true
is_text _ = false

-- The text under a key that has one, else the empty text: `msg.get(key, "")` after the type check.
abbrev pub text_at : String → Dict → String
text_at k d = elim (lookup k d) [ some (plain (text s)) ↦ s | _ ↦ "" ]

abbrev pub is_version : Option Value → Bool
is_version none = true
is_version (some (plain (number n))) = leb 1 n
is_version _ = false

abbrev pub is_flag : Option Value → Bool
is_flag none = true
is_flag (some (plain (flag b))) = true
is_flag _ = false

abbrev pub is_text_or_absent : Option Value → Bool
is_text_or_absent none = true
is_text_or_absent v = is_text v

-- `KIND_CONDITIONAL_REQUIRED.get(kind)`, sorted.
unfoldable pub kind_extras : String → List String
kind_extras kind =
    if kind == "TASK"
    then "request_id" ∷ "run_id" ∷ []
    else if kind == "REPORT"
    then "reply_to" ∷ "request_id" ∷ "run_id" ∷ []
    else if kind == "RECEIPT"
    then "receipt_type" ∷ "reply_to" ∷ "request_id" ∷ "run_id" ∷ []
    else []

abbrev pub demands_ack : Option Value → Bool
demands_ack none = false
demands_ack (some v) = truth v

-- Absent, or false as a Boolean, or a text that is a safe path component.
abbrev pub is_component : Option Value → Bool
is_component none = true
is_component (some (plain (text s))) = s == "" || path_component_ok s
is_component (some v) = not (truth v)

abbrev pub is_string_if_true : Option Value → Bool
is_string_if_true none = true
is_string_if_true (some (plain (text s))) = true
is_string_if_true (some v) = not (truth v)

unfoldable pub attachments_check : Option Value → Result Refusal (Unit {0})
attachments_check none = ok tt
attachments_check (some (items is)) = attachments_error is
attachments_check (some (plain _)) = err attachments_not_list

abbrev pub agrees : Option String → String → Bool
agrees none s = true
agrees (some expected) s = s == expected

abbrev pub is_receipt : Dict → Bool
is_receipt d = text_at "kind" d == "RECEIPT"

unfoldable pub type_checks : Dict → Checks Refusal
type_checks d =
    (all (has_key d) required_fields, missing_fields)
    ∷ (is_hashable (lookup "kind" d), unhashable_kind)
    ∷ (is_text (lookup "kind" d) && is_kind (text_at "kind" d), invalid_kind)
    ∷ map (λ f. (is_text (lookup f d), must_be_string f))
        ("subject" ∷ "body" ∷ "session_id" ∷ "from" ∷ "to" ∷ "msg_id" ∷ "created_at" ∷ [])

unfoldable pub version_checks : Dict → Checks Refusal
version_checks d =
    (is_version (lookup "protocol_version" d), bad_protocol_version)
    ∷ (is_flag (lookup "require_ack" d), bad_require_ack)
    ∷ (is_text_or_absent (lookup "receipt_type" d), must_be_string "receipt_type")
    ∷ (text_at "receipt_type" d == "" || text_at "receipt_type" d == "READ", invalid_receipt_type)
    ∷ (not (is_blank (text_at "subject" d)), is_empty "subject")
    ∷ (not (is_blank (text_at "body" d)), is_empty "body")
    ∷ []

unfoldable pub kind_checks : Dict → Checks Refusal
kind_checks d =
    let extras = kind_extras (text_at "kind" d) in
    (all (has_key d) extras, missing_for_kind)
    ∷ map (λ f. (not (is_blank (text_at f d)), kind_requires f)) extras

unfoldable pub receipt_checks : Dict → Checks Refusal
receipt_checks d =
    (not (is_receipt d && demands_ack (lookup "require_ack" d)), receipt_demands_ack)
    ∷ (not (is_receipt d) || text_at "receipt_type" d == "READ", receipt_not_read)
    ∷ (not (is_receipt d) || not (is_blank (text_at "reply_to" d)), receipt_without_reply)
    ∷ []

-- `msg_id + ".json" != filename`, for the file's name without its extension.
unfoldable pub address_checks :
    Dict → Option String → Option String → Option String → Checks Refusal
address_checks d session agent stem =
    (agrees session (text_at "session_id" d), session_mismatch)
    ∷ (agrees agent (text_at "to" d) || text_at "to" d == "*", recipient_mismatch)
    ∷ (agrees stem (text_at "msg_id" d), file_mismatch)
    ∷ (not (any (λ c. eqb c b'/' || eqb c b'\\') (codes (text_at "msg_id" d))), msg_id_separator)
    ∷ []

unfoldable pub component_checks : Dict → Checks Refusal
component_checks d =
    (is_string_if_true (lookup "request_id" d), must_be_string "request_id")
    ∷ (is_component (lookup "request_id" d), unsafe_component "request_id")
    ∷ (is_string_if_true (lookup "run_id" d), must_be_string "run_id")
    ∷ (is_component (lookup "run_id" d), unsafe_component "run_id")
    ∷ (is_string_if_true (lookup "reply_to" d), must_be_string "reply_to")
    ∷ (is_component (lookup "reply_to" d), unsafe_component "reply_to")
    ∷ []

abbrev pub checks : Dict → Option String → Option String → Option String → Checks Refusal
checks d session agent stem =
    type_checks d
    ++ (version_checks d
        ++ (kind_checks d
            ++ (receipt_checks d ++ (address_checks d session agent stem ++ component_checks d))))

unfoldable pub then_attachments : Dict → Result Refusal (Unit {0}) → Result Refusal (Unit {0})
then_attachments d (err e) = err e
then_attachments d (ok _) = attachments_check (lookup "attachments" d)

-- `validate_message`; no dict where the JSON value is not an object.
unfoldable pub validate_message :
    Option Dict → Option String → Option String → Option String → Result Refusal (Unit {0})
validate_message none session agent stem = err not_json_object
validate_message (some d) session agent stem =
    then_attachments d (first_failure (checks d session agent stem))
