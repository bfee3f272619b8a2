-- ===== src/Mailbox/Protocol.antt =====
-- src/codeagent/mailbox/protocol.py: the message types, and the test that a request id is safe to
-- use as a directory name. `re` is read as Python documents it: `$` also matches before a final
-- newline.
pub mod PathSafety
use Prim.Native.Char.{code}
use aimeshchat.Base.{
  ℕ, String, Bool, true, false, ◌&&◌, ◌||◌, not, List, [], ◌∷◌, ◌==◌, leb, eqb, length, all,
  if◌then◌else◌,
}

pub record AttachmentRef : Type 0 where
  pub artifact_id : String
  pub source_host : String
  pub remote_root : String
  pub relative_path : String
  pub size : ℕ
  pub sha256 : String
  pub media_type : String

pub record Message : Type 0 where
  pub session_id : String
  pub from_id : String
  pub to_id : String
  pub subject : String
  pub body : String
  pub kind : String
  pub msg_id : String
  pub created_at : String
  pub reply_to : String
  pub run_id : String
  pub request_id : String
  pub command_id : String
  pub trace_id : String
  pub causation_id : String
  pub attachments : List AttachmentRef
  pub protocol_version : ℕ
  pub require_ack : Bool
  pub receipt_type : String

-- The code points of a text.
abbrev pub codes : String → List ℕ
codes String.[] = []
codes (String.◌∷◌ c s) = code c ∷ codes s

-- `[A-Za-z0-9_.-]`
unfoldable pub is_path_safe : ℕ → Bool
is_path_safe c =
    (leb b'A' c && leb c b'Z')
    || ((leb b'a' c && leb c b'z')
        || ((leb b'0' c && leb c b'9') || (eqb c b'_' || (eqb c b'.' || eqb c b'-'))))

-- The text that `$` leaves to the pattern: without one final newline.
unfoldable pub before_end : List ℕ → List ℕ
before_end [] = []
before_end (c ∷ []) = if eqb c 10 then [] else c ∷ []
before_end (c ∷ (d ∷ cs)) = c ∷ before_end (d ∷ cs)

-- `PATH_SAFE_RE.match(value)`, for `^[A-Za-z0-9_.-]{1,64}$`.
unfoldable pub path_safe_match : String → Bool
unfolding before_end
path_safe_match value =
    let body = before_end (codes value) in
    leb 1 (length body) && (leb (length body) 64 && all is_path_safe body)

-- `validate_path_component`: true where the source returns, false where it raises `ValueError`.
unfoldable pub path_component_ok : String → Bool
path_component_ok value = not (value == "." || value == "..") && path_safe_match value
