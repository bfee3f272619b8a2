-- ===== src/Mailbox/Validate/Readable.antt =====
-- An accepted message can be read back by `from_dict`.
use aimeshchat.Base.{
  ℕ, String, true, ◌&&◌, ◌||◌, ◌>>=◌, Option, none, some, List, [], ◌∷◌, ◌==◌, ◌≡◌, refl, all, All,
  Result, ok, err, arith,
}
use aimeshchat.Base.Table.{Table, lookup}
use aimeshchat.Mailbox.Protocol.{Message, AttachmentRef, path_component_ok}
use aimeshchat.Mailbox.Dicts.{
  Plain, Value, Item, Dict, null, flag, number, text, object, not_object, plain, items, compound,
  negative, real, default_media_type, has_key, required_fields, from_dict, message_of, ref_of,
  ref_from_dict, refs_of, item_keys_ok, ref_keys, attachment_items, plain_of, text_or, text_of,
  version_of,
}
use aimeshchat.Mailbox.Validate.{
  AttachmentFault, invalid_attachment, validate_message, type_checks, version_checks,
  component_checks, attachments_check, attachment_error, attachments_error, attachment_checks,
  text_at, is_component, is_media_type, is_kind, is_version, is_text, is_text_or_absent, is_filled,
  is_size, is_sha256,
}
use aimeshchat.Mailbox.Validate.Accepted.{Accepted, first_failure-Passed, validate_message-Accepted}

filled_text : (o : Option Plain) → is_filled o ≡ true → (s : String) × (o ≡ some (text s))
filled_text (some (text s)) h = (s, refl)
filled_text _ h = cc

size_number : (o : Option Plain) → is_size o ≡ true → (n : ℕ) × (o ≡ some (number n))
size_number (some (number n)) h = (n, refl)
size_number _ h = cc

sha256_text : (o : Option Plain) → is_sha256 o ≡ true → (s : String) × (o ≡ some (text s))
sha256_text (some (text s)) h = (s, refl)
sha256_text _ h = cc

media_type_text :
    (o : Option Plain)
    → is_media_type o ≡ true
    → (s : String) × (text_or default_media_type o ≡ ok s)
media_type_text none h = (default_media_type, refl)
media_type_text (some (text s)) h = (s, refl)
media_type_text _ h = cc

ref_from_dict-read :
    (t : Table Plain) (a : AttachmentRef)
    → lookup "artifact_id" t ≡ some (text a.artifact_id)
    → lookup "source_host" t ≡ some (text a.source_host)
    → lookup "remote_root" t ≡ some (text a.remote_root)
    → lookup "relative_path" t ≡ some (text a.relative_path)
    → lookup "size" t ≡ some (number a.size)
    → lookup "sha256" t ≡ some (text a.sha256)
    → text_or default_media_type (lookup "media_type" t) ≡ ok a.media_type
    → (item_keys_ok (object t) ≡ true) × (ref_from_dict t ≡ ok a)
unfolding ref_from_dict ref_of all
ref_from_dict-read t a e1 e2 e3 e4 e5 e6 e7 =
    let keys : all (has_key t) ref_keys ≡ true = ground arith in
    (keys, rw keys (simp (e1, e2, e3, e4, e5, e6, e7)))

ref_from_dict-accepted :
    (t : Table Plain)
    → attachment_error (object t) ≡ ok tt
    → (a : AttachmentRef) × (item_keys_ok (object t) ≡ true) × (ref_from_dict t ≡ ok a)
unfolding attachment_error attachment_checks
ref_from_dict-accepted t h =
    let p = first_failure-Passed (attachment_checks t) h in
    let artifact_id = filled_text (lookup "artifact_id" t) p.0 in
    let source_host = filled_text (lookup "source_host" t) p.1.0 in
    let remote_root = filled_text (lookup "remote_root" t) p.1.1.0 in
    let relative_path = filled_text (lookup "relative_path" t) p.1.1.1.0 in
    let size = size_number (lookup "size" t) p.1.1.1.1.0 in
    let sha256 = sha256_text (lookup "sha256" t) p.1.1.1.1.1.0 in
    let media_type = media_type_text (lookup "media_type" t) p.1.1.1.1.1.1.1.0 in
    let a : AttachmentRef = record {
      artifact_id = artifact_id.0;
      source_host = source_host.0;
      remote_root = remote_root.0;
      relative_path = relative_path.0;
      size = size.0;
      sha256 = sha256.0;
      media_type = media_type.0;
    } in
    let r : (item_keys_ok (object t) ≡ true) × (ref_from_dict t ≡ ok a) =
      ref_from_dict-read t a artifact_id.1 source_host.1 remote_root.1 relative_path.1 size.1
        sha256.1 media_type.1 in
    (a, r.0, r.1)

attachment_error_of :
    (t : Table Plain) (is : List Item)
    → attachments_error (object t ∷ is) ≡ ok tt
    → (attachment_error (object t) ≡ ok tt) × (attachments_error is ≡ ok tt)
unfolding attachments_error
attachment_error_of t is h = passes (attachment_error (object t)) h
  where
    passes :
        (r : Result AttachmentFault (Unit {0}))
        → (elim r [ ok _ ↦ attachments_error is | err e ↦ err (invalid_attachment e) ]) ≡ ok tt
        → (r ≡ ok tt) × (attachments_error is ≡ ok tt)
    passes (ok tt) h = (refl, h)
    passes (err e) h = cc

-- The references of an accepted list are read back.
refs_of-accepted :
    (is : List Item)
    → attachments_error is ≡ ok tt
    → (as_ : List AttachmentRef) × (all item_keys_ok is ≡ true) × (refs_of is ≡ ok as_)
unfolding attachments_error attachment_error refs_of all
refs_of-accepted [] h = ([], refl, refl)
refs_of-accepted (not_object ∷ is) h = absurd (ground arith)
refs_of-accepted (object t ∷ is) h =
    let first = attachment_error_of t is h in
    let a = ref_from_dict-accepted t first.0 in
    let as_ = refs_of-accepted is first.1 in
    (a.0 ∷ as_.0, ground (arith, a, as_), simp (a.2, as_.2))

-- The call returns.
abbrev pub Returns {ℓ} : {E : Type 0} {A : Type ℓ} → Result E A → Type ℓ
Returns {A = A} r = (a : A) × (r ≡ ok a)

-- What follows a call that returns, with what it ends in.
bind-Returns {κ ℓ} :
    {E : Type 0} {B : Type κ} {P : B → Type 0} {A : Type ℓ} {r : Result E A} {next : A → Result E B}
    → Returns r
    → ((a : A) → r ≡ ok a → (b : B) × (next a ≡ ok b) × P b)
    → (b : B) × ((r >>= next) ≡ ok b) × P b
bind-Returns {r = ok a} h k = k a refl
bind-Returns {r = err e} h k = absurd (ground arith)

required_text : (o : Option Value) → is_text o ≡ true → Returns (text_of (plain_of o))
required_text (some (plain (text s))) h = (s, refl)
required_text _ h = absurd (ground arith)

optional_text : (o : Option Value) → is_text_or_absent o ≡ true → Returns (text_or "" (plain_of o))
optional_text none h = ("", refl)
optional_text (some (plain (text s))) h = (s, refl)
optional_text _ h = absurd (ground arith)

version_number : (o : Option Value) → is_version o ≡ true → Returns (version_of o)
version_number none h = (1, refl)
version_number (some (plain (number n))) h = (n, refl)
version_number _ h = absurd (ground arith)

items_accepted :
    (o : Option Value)
    → attachments_check o ≡ ok tt
    → (is : List Item) × (attachment_items o ≡ ok is) × Returns (refs_of is)
unfolding attachments_check attachment_items refs_of
items_accepted none h = ([], refl, ([], refl))
items_accepted (some (items is)) h = let r = refs_of-accepted is h in (is, rw r.1 refl, (r.0, r.2))
items_accepted (some (plain _)) h = absurd (ground arith)

-- The optional ids are texts where they are there.
abbrev pub AreTexts : Dict → Type 0
AreTexts d =
    All (λ k. is_text_or_absent (lookup k d) ≡ true)
      ("reply_to" ∷ "run_id" ∷ "request_id" ∷ "command_id" ∷ "trace_id" ∷ "causation_id" ∷ [])

abbrev pub IsComponent : String → Type 0
IsComponent s = (s == "" || path_component_ok s) ≡ true

IsComponent-text :
    (o : Option Value) (s : String)
    → is_component o ≡ true
    → text_or "" (plain_of o) ≡ ok s
    → IsComponent s
IsComponent-text none s c h = let e : "" ≡ s = cc in rw (← e) refl
IsComponent-text (some (plain (text r))) s c h = let e : r ≡ s = cc in rw (← e) c
IsComponent-text (some (plain null)) s c h = absurd (ground arith)
IsComponent-text (some (plain (flag b))) s c h = absurd (ground arith)
IsComponent-text (some (plain (number n))) s c h = absurd (ground arith)
IsComponent-text (some (plain (negative n))) s c h = absurd (ground arith)
IsComponent-text (some (plain (real b))) s c h = absurd (ground arith)
IsComponent-text (some (plain (compound b))) s c h = absurd (ground arith)
IsComponent-text (some (items is)) s c h = absurd (ground arith)

message_of-Accepted :
    (d : Dict) (session agent stem : Option String) (is : List Item)
    → Accepted d session agent stem
    → AreTexts d
    → Returns (refs_of is)
    → (m : Message) × (message_of d is ≡ ok m) × IsComponent m.request_id
unfolding message_of type_checks version_checks component_checks
message_of-Accepted d session agent stem is a t refs =
    let kind : (is_text (lookup "kind" d) && is_kind (text_at "kind" d)) ≡ true = a.types.1.1.0 in
    let typed = a.types.1.1.1 in
    let v = a.versions in
    bind-Returns (required_text (lookup "session_id" d) typed.1.1.0) λ session_id _.
      bind-Returns (required_text (lookup "from" d) typed.1.1.1.0) λ from_id _.
        bind-Returns (required_text (lookup "to" d) typed.1.1.1.1.0) λ to_id _.
          bind-Returns (required_text (lookup "subject" d) typed.0) λ subject _.
            bind-Returns (required_text (lookup "body" d) typed.1.0) λ body _.
              bind-Returns (required_text (lookup "kind" d) (ground (arith, kind))) λ kind _.
                bind-Returns (required_text (lookup "msg_id" d) typed.1.1.1.1.1.0) λ msg_id _.
                  bind-Returns (required_text (lookup "created_at" d) typed.1.1.1.1.1.1.0)
                    λ created_at _.
                      bind-Returns (optional_text (lookup "reply_to" d) t.0) λ reply_to _.
                        bind-Returns (optional_text (lookup "run_id" d) t.1.0) λ run_id _.
                          bind-Returns (optional_text (lookup "request_id" d) t.1.1.0)
                            λ request_id e.
                              bind-Returns (optional_text (lookup "command_id" d) t.1.1.1.0)
                                λ command_id _.
                                  bind-Returns (optional_text (lookup "trace_id" d) t.1.1.1.1.0)
                                    λ trace_id _.
                                      bind-Returns
                                        (optional_text (lookup "causation_id" d) t.1.1.1.1.1.0)
                                        λ causation_id _. bind-Returns refs λ attachments _.
                                          bind-Returns
                                            (version_number (lookup "protocol_version" d) v.0)
                                            λ protocol_version _.
                                              bind-Returns
                                                (optional_text (lookup "receipt_type" d) v.1.1.0)
                                                λ receipt_type _. (
                                                  _,
                                                  refl,
                                                  IsComponent-text (lookup "request_id" d)
                                                      request_id a.components.1.0 e,
                                                )

-- A dict that `validate_message` accepts is read back by `from_dict`, if its optional ids, which it
-- does not all check, are texts where they are there: no key is missing and no field has another
-- type; and the request id of the message is empty or a safe name for a directory.
pub validate_message-from_dict :
    (d : Dict) (session agent stem : Option String)
    → validate_message (some d) session agent stem ≡ ok tt
    → AreTexts d
    → (m : Message) × (from_dict d ≡ ok m) × IsComponent m.request_id
unfolding from_dict type_checks
validate_message-from_dict d session agent stem h t =
    let a = validate_message-Accepted d session agent stem h in
    let is = items_accepted (lookup "attachments" d) a.attachments in
    let m = message_of-Accepted d session agent stem is.0 a t is.2 in
    let keys : all (has_key d) required_fields ≡ true = a.types.0 in (m.0, rw (keys, is.1) m.1, m.2)
