-- ===== src/Swarm/Flush.antt =====
-- The calls of `DeliveryEngine` on the outbox: `deliver`, `flush`, `ack`, `dead_letter_requeue`,
-- `dead_letter_purge` and `sweep` of src/codeagent/swarm/delivery.py.
pub mod Backoff
pub mod Frame
pub mod Schedule
pub mod Stored
pub mod Calls
use aimeshchat.Base.{
  ℕ, ◌+◌, ◌-◌, ◌*◌, String, Bool, true, false, not, ◌&&◌, ◌||◌, Option, none, some, List, [], ◌∷◌,
  ◌==◌, leb, ltb, eqb, any, if◌then◌else◌, Result, ok, err,
}
use aimeshchat.Base.Table.{Table, lookup, insert, remove, keep}
use aimeshchat.Mailbox.Protocol.{codes}
use aimeshchat.Mailbox.Dicts.{Dict, plain, text, has_key}
use aimeshchat.Mailbox.Validate.{text_at, has_dots}
use aimeshchat.Mailbox.Store.Finish.{insert_name}
use aimeshchat.Swarm.Outbox.{
  Meta, Status, Outbox, Receipt, accepted, delivered, failed, new_meta, meta_at, meta_or_new,
  phase_at, is_marked, in_outbox, mark_delivered, write_status, write_meta, cached, attempt_due,
  is_paused, reprobe_paused, handle_flush_failure, with_history, found_in,
}

-- `_stamp_outbox_target_host`
unfoldable pub stamp_target_host : String → Outbox → Outbox
stamp_target_host mid s = elim (lookup mid s.entries) [
  | some (some d) ↦
      if text_at "_target_host" d == ""
      then record s {
        entries = insert mid (some (insert "_target_host" (plain (text "__local__")) d)) s.entries;
      }
      else s
  | _ ↦ s
]

-- `_check_idempotency`: the receipt, which is remembered.
unfoldable pub check_idempotency : String → Outbox → Option Receipt
check_idempotency mid s = elim (lookup mid s.cache) [
  | some r ↦ some r
  | none ↦
      if in_outbox mid s then (if is_marked mid s then some delivered else some accepted) else none
]

-- `_write_outbox` keeps an entry that is there.
unfoldable pub write_outbox : String → Dict → Outbox → Outbox
write_outbox mid d s =
    if in_outbox mid s then s else record s { entries = insert mid (some d) s.entries }

-- A message for this machine is marked so, for a later flush.
unfoldable pub addressed : Bool → Dict → Dict
addressed local d =
    if local && not (has_key d "_target_host")
    then insert "_target_host" (plain (text "__local__")) d
    else d

-- What the file system and the transport answer: an error text, if any.
pub record Answers : Type 0 where
  pub write_error : Option String
  pub send_error : Option String

unfoldable pub sent_or_queued :
    ℕ → String → Bool → String → Dict → Option String → Outbox → Outbox × Receipt
sent_or_queued now session local mid d none s =
    let s' = mark_delivered now mid s in
    (cached mid delivered (if local then s' else with_history session mid d s'), delivered)
sent_or_queued now session local mid d (some error) s =
    let s' = write_status now mid error s in
    (if local then stamp_target_host mid s' else s', accepted)

-- After the idempotency check has found nothing.
unfoldable pub deliver_new : ℕ → String → Bool → String → Dict → Answers → Outbox → Outbox × Receipt
deliver_new now session local mid d a s = elim a.write_error [
  | some error ↦ (cached mid failed s, failed)
  | none ↦
      sent_or_queued now session local mid d a.send_error
        (cached mid accepted (write_outbox mid d s))
]

unfoldable pub deliver_known : String → Dict → Receipt → Outbox → Outbox × Receipt
deliver_known mid d r s =
    let s' = cached mid r s in
    (if text_at "_target_host" d == "__local__" then stamp_target_host mid s' else s', r)

-- `deliver`, to this machine or to another.
unfoldable pub deliver : ℕ → String → Bool → Dict → Answers → Outbox → Outbox × Receipt
deliver now session local envelope a s =
    let mid = text_at "msg_id" envelope in
    let d = addressed local envelope in
    if mid == "" then (s, failed) else elim (check_idempotency mid s) [
      | some r ↦ deliver_known mid d r s
      | none ↦ deliver_new now session local mid d a s
    ]

-- Whether `flush` tries an entry, after a re-probe has had its say.
unfoldable pub wants_attempt : ℕ → String → Outbox → Bool
wants_attempt now mid s = not (is_paused (meta_at mid s)) && attempt_due now (meta_at mid s)

-- An attempt at an entry: what is left, and whether it was delivered. A send to this machine has
-- written the history already, which adding to it leaves as it is, so both branches come to this.
unfoldable pub attempt : ℕ → String → Dict → String → Option String → Outbox → Outbox × Bool
attempt now session d mid none s =
    (cached mid delivered (with_history session mid d (mark_delivered now mid s)), true)
attempt now session d mid (some error) s = (handle_flush_failure now mid error s, false)

unfoldable pub flush_due : ℕ → String → (String → Option String) → String → Outbox → Outbox × Bool
flush_due now session send mid s = elim (lookup mid s.entries) [
  | some (some d) ↦
      if text_at "_target_host" d == "" then (s, false) else attempt now session d mid (send mid) s
  | _ ↦ (s, false)
]

-- The body of the loop of `flush`. `send` answers for each message.
unfoldable pub flush_entry : ℕ → String → (String → Option String) → String → Outbox → Outbox × Bool
flush_entry now session send mid s =
    if is_marked mid s || phase_at mid s == "consumed"
    then (s, false)
    else let s' = reprobe_paused now mid s in
      if wants_attempt now mid s' then flush_due now session send mid s' else (s', false)

unfoldable pub flush_each :
    ℕ → String → (String → Option String) → List String → Outbox → Outbox × ℕ
flush_each now session send [] s = (s, 0)
flush_each now session send (mid ∷ mids) s =
    let r = flush_entry now session send mid s in
    let rest = flush_each now session send mids r.0 in (rest.0, if r.1 then rest.1 + 1 else rest.1)

-- The names of the entries, sorted.
unfoldable pub entry_names : Table (Option Dict) → List String
entry_names [] = []
entry_names ((n, e) ∷ t) = insert_name n (entry_names t)

-- `sweep` for a retention in seconds: the entries and markers that were delivered before, then the
-- status directories that were last written before.
unfoldable pub swept_entries : Table (Option Dict) → (String → Bool) → Table (Option Dict)
swept_entries [] old = []
swept_entries ((n, e) ∷ t) old =
    let rest = swept_entries t old in if old n then rest else (n, e) ∷ rest

unfoldable pub is_old_marker : ℕ → ℕ → Outbox → String → Bool
is_old_marker now retention s mid = elim (lookup mid s.markers) [
  | none ↦ false
  | some t ↦ ltb (t + retention) now
]

unfoldable pub sweep : ℕ → ℕ → Outbox → Outbox
sweep now retention s = record s {
  entries = swept_entries s.entries (is_old_marker now retention s);
  markers = keep (λ t. leb now (t + retention)) s.markers;
  statuses = keep (λ st. leb now (st.touched + retention)) s.statuses;
}

-- `flush` of one session. The sweep that it starts with once an hour is a call of its own here.
unfoldable pub flush : ℕ → String → (String → Option String) → Outbox → Outbox × ℕ
flush now session send s = flush_each now session send (entry_names s.entries) s

-- `_validate_msg_id` of the engine: not empty, no separator and no two dots.
unfoldable pub msg_id_plain : String → Bool
msg_id_plain mid =
    not (mid == "")
    && (not (any (λ c. eqb c b'/' || eqb c b'\\') (codes mid)) && not (has_dots (codes mid)))

unfoldable pub acked : ℕ → String → String → Outbox → Outbox
acked now mid phase s =
    let s' = write_status now mid phase s in
    if phase == "consumed" then cached mid delivered s' else s'

-- `ack`; no outbox where it raises `ValueError`.
unfoldable pub ack : ℕ → String → String → Outbox → Option Outbox
ack now mid phase s =
    if msg_id_plain mid && in_outbox mid s then some (acked now mid phase s) else none

-- The meta of an entry that comes back from the dead letters.
abbrev pub requeued_meta : Meta → Meta
requeued_meta m = record m { attempt_count = 0; terminal = false; next_attempt_at = none }

unfoldable pub dead_letter_requeue : ℕ → String → Outbox → Outbox × Bool
dead_letter_requeue now mid s = elim (lookup mid s.dead) [
  | none ↦ (s, false)
  | some e ↦
      let s' = record s {
        entries = insert mid e s.entries;
        dead = remove mid s.dead;
        dead_statuses = remove mid s.dead_statuses;
      } in
      (write_meta now mid (requeued_meta (meta_or_new (meta_at mid s))) s', true)
]

-- `dead_letter_purge` of the session.
unfoldable pub dead_letter_purge : Outbox → Outbox
dead_letter_purge s = record s { dead = []; dead_statuses = [] }
