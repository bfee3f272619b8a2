-- ===== src/Swarm/Outbox.antt =====
-- `DeliveryEngine` of src/codeagent/swarm/delivery.py: the outbox of one session, with its delivered
-- markers, status directories and dead letters. What the transport answers is given to a call: the
-- text of the error it raised, if any. Times are whole seconds, files do not fail to be written but
-- where said, and an envelope's values have the types of a message's fields.
use aimeshchat.Base.{
  ℕ, ◌+◌, ◌*◌, zero, suc, String, Bool, true, false, not, ◌&&◌, ◌||◌, Option, none, some, List, [],
  ◌∷◌, ◌==◌, leb, eqb, any, if◌then◌else◌, ok, err,
}
use aimeshchat.Base.Table.{Table, lookup, insert, remove}
use aimeshchat.Mailbox.Protocol.{codes}
use aimeshchat.Mailbox.Dicts.{Dict, plain, text, number, has_key, from_dict, to_dict}
use aimeshchat.Mailbox.Validate.{validate_message}
use aimeshchat.Mailbox.Store.Finish.{msg_id_ok}

-- `meta.json`, without the fields that nothing reads.
pub record Meta : Type 0 where
  pub attempt_count : ℕ
  pub terminal : Bool
  pub next_attempt_at : Option ℕ
  pub paused_for_upgrade : Bool
  pub next_reprobe_at : Option ℕ

-- A status directory: its phase, empty where there is no such file, and when it was last written.
pub record Status : Type 0 where
  pub phase : String
  pub meta : Option Meta
  pub touched : ℕ

pub data Receipt : Type 0 where
  accepted delivered : Receipt
  failed : Receipt

-- An entry that is no JSON has no envelope. `history` is the session's, in the mailbox store.
pub record Outbox : Type 0 where
  pub entries : Table (Option Dict)
  pub markers : Table ℕ
  pub statuses : Table Status
  pub dead : Table (Option Dict)
  pub dead_statuses : Table Status
  pub cache : Table Receipt
  pub history : Table Dict

abbrev pub max_attempts : ℕ
max_attempts = 5

abbrev pub backoff_base : ℕ
backoff_base = 5

abbrev pub reprobe_interval : ℕ
reprobe_interval = 600

abbrev pub new_meta : Meta
new_meta = record {
  attempt_count = 0;
  terminal = false;
  next_attempt_at = none;
  paused_for_upgrade = false;
  next_reprobe_at = none;
}

abbrev pub meta_at : String → Outbox → Option Meta
meta_at mid s = elim (lookup mid s.statuses) [ none ↦ none | some st ↦ st.meta ]

abbrev pub meta_or_new : Option Meta → Meta
meta_or_new none = new_meta
meta_or_new (some m) = m

abbrev pub phase_at : String → Outbox → String
phase_at mid s = elim (lookup mid s.statuses) [ none ↦ "" | some st ↦ st.phase ]

abbrev pub is_marked : String → Outbox → Bool
is_marked mid s = has_key s.markers mid

abbrev pub in_outbox : String → Outbox → Bool
in_outbox mid s = has_key s.entries mid

-- `_mark_delivered`
abbrev pub mark_delivered : ℕ → String → Outbox → Outbox
mark_delivered now mid s = record s { markers = insert mid now s.markers }

-- The time of a status directory changes when a file comes into it, not when one is written again.
abbrev pub touched_at : ℕ → String → Outbox → ℕ
touched_at now mid s = elim (lookup mid s.statuses) [
  | none ↦ now
  | some st ↦ if st.phase == "" then now else st.touched
]

-- `_write_status`
abbrev pub write_status : ℕ → String → String → Outbox → Outbox
write_status now mid detail s = record s {
  statuses =
      insert mid (record { phase = detail; meta = meta_at mid s; touched = touched_at now mid s })
        s.statuses;
}

abbrev pub write_meta : ℕ → String → Meta → Outbox → Outbox
write_meta now mid m s = record s {
  statuses =
      insert mid (record { phase = phase_at mid s; meta = some m; touched = now }) s.statuses;
}

abbrev pub cached : String → Receipt → Outbox → Outbox
cached mid r s = record s { cache = insert mid r s.cache }

-- `needle in text`, on code points.
unfoldable pub begins_with : List ℕ → List ℕ → Bool
begins_with [] ds = true
begins_with (c ∷ cs) [] = false
begins_with (c ∷ cs) (d ∷ ds) = let rest = begins_with cs ds in eqb c d && rest

unfoldable pub found_in : List ℕ → List ℕ → Bool
found_in needle [] = begins_with needle []
found_in needle (d ∷ ds) = let rest = found_in needle ds in begins_with needle (d ∷ ds) || rest

abbrev pub mentions : String → String → Bool
mentions error needle = found_in (codes needle) (codes error)

-- `_is_terminal_error`
unfoldable pub is_terminal_error : String → Bool
is_terminal_error error =
    mentions error "mailbox send failed (exit 2)"
    || any (mentions error) (
        "not in roster" ∷ "not in channel" ∷ "lacks 'mailbox' capability" ∷ "different payload"
        ∷ "invalid kind" ∷ "body exceeds" ∷ "invalid attachment" ∷ "sender not in allowed_senders"
        ∷ "wire version mismatch" ∷ [])

unfoldable pub power : ℕ → ℕ → ℕ
power b zero = 1
power b (suc n) = b * power b n

-- The new meta of `_record_attempt`.
unfoldable pub attempted : ℕ → Bool → Meta → Meta
attempted now terminal m =
    if terminal
    then record m { attempt_count = m.attempt_count + 1; terminal = true }
    else record m {
      attempt_count = m.attempt_count + 1;
      terminal = false;
      next_attempt_at = some (now + backoff_base * power 2 m.attempt_count);
    }

-- `_dead_letter`
unfoldable pub dead_letter : String → Outbox → Outbox
dead_letter mid s = elim (lookup mid s.entries) [
  | none ↦ s
  | some e ↦ record s {
    entries = remove mid s.entries;
    dead = insert mid e s.dead;
    statuses = remove mid s.statuses;
    dead_statuses = elim (lookup mid s.statuses) [
      | none ↦ s.dead_statuses
      | some st ↦ insert mid st s.dead_statuses
    ];
  }
]

-- `_attempt_due`
unfoldable pub attempt_due : ℕ → Option Meta → Bool
attempt_due now none = true
attempt_due now (some m) =
    if m.terminal then false else elim m.next_attempt_at [ none ↦ true | some t ↦ leb t now ]

abbrev pub is_paused : Option Meta → Bool
is_paused none = false
is_paused (some m) = m.paused_for_upgrade

-- The meta of `_pause_for_upgrade`.
abbrev pub paused : ℕ → Meta → Meta
paused now m = record m {
  paused_for_upgrade = true;
  next_reprobe_at = some (now + reprobe_interval);
  terminal = false;
}

-- `_reprobe_paused` of an entry that is paused.
unfoldable pub reprobe_due : ℕ → Meta → Bool
reprobe_due now m = elim m.next_reprobe_at [ none ↦ true | some t ↦ leb t now ]

unfoldable pub reprobe_paused : ℕ → String → Outbox → Outbox
reprobe_paused now mid s = elim (meta_at mid s) [
  | none ↦ s
  | some m ↦
      if m.paused_for_upgrade && reprobe_due now m
      then write_meta now mid (record m { paused_for_upgrade = false; next_reprobe_at = none }) s
      else s
]

-- `_handle_flush_failure`
unfoldable pub handle_flush_failure : ℕ → String → String → Outbox → Outbox
handle_flush_failure now mid error s =
    let terminal = is_terminal_error error in
    let m = meta_or_new (meta_at mid s) in
    let s' = write_meta now mid (attempted now terminal m) s in
    if terminal && mentions error "wire version mismatch"
    then write_meta now mid (paused now m) s
    else if terminal || leb max_attempts (m.attempt_count + 1)
    then dead_letter mid s'
    else s'

-- `{**envelope, "msg_id": …, "protocol_version": …}`, read and written as a message.
unfoldable pub version_default : Dict → Dict
version_default d =
    if has_key d "protocol_version" then d else insert "protocol_version" (plain (number 2)) d

-- `append_history` of `_history_entry`, an error of which is only logged.
unfoldable pub append_history : String → String → Dict → Table Dict → Table Dict
append_history session mid envelope h =
    elim (from_dict (version_default (insert "msg_id" (plain (text mid)) envelope))) [
      | err e ↦ h
      | ok m ↦ elim (validate_message (some (to_dict m)) (some session) none none) [
        | err e ↦ h
        | ok _ ↦ if msg_id_ok mid && not (has_key h mid) then insert mid (to_dict m) h else h
      ]
    ]

abbrev pub with_history : String → String → Dict → Outbox → Outbox
with_history session mid envelope s = record s {
  history = append_history session mid envelope s.history;
}
