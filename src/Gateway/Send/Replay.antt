-- ===== src/Gateway/Send/Replay.antt =====
-- A request id that is used again, and what a send can lose to other threads.
use aimeshchat.Base.{
  String, ◌≡◌, ◌≢◌, refl, sym, ap, ◌∙◌, subst, true, false, none, some, eq_iff, eq_refl, test_of_ne,
  arith, count, Option-cases, inl, inr, ok, err,
}
use aimeshchat.Base.Table.{lookup}
use aimeshchat.Gateway.Model.{Answer, idempotency_conflict}
use aimeshchat.Gateway.Commands.{CmdState, queued, turn_triggered}
use aimeshchat.Gateway.Runtimes.{RuntimeRecord, is_hot, has_consumer}
use aimeshchat.Gateway.Control.{
  Command, Update, get_command, enqueue_command, has_sets, set_columns,
}
use aimeshchat.Gateway.Control.Rows.{get_command-update_command}
use aimeshchat.Gateway.State.{Gateway}
use aimeshchat.Gateway.Acks.{Reply, command_result}
use aimeshchat.Gateway.Acks.Races.{HasState}
use aimeshchat.Gateway.Send.Steps.{hash_at, is_for, IsOnce, IsSafe, mailed}
use aimeshchat.Gateway.Send.Once.{enqueued}
use aimeshchat.Gateway.Send.{
  Send, Around, hash_of, runtime_send, send_checked, send_new, send_queued, send_mail, send_gate,
  maybe_wait, mark_mailed, note, reread, is_ended,
}

-- The parameters are there, and the runtime is registered.
abbrev pub IsPosed : Around → Gateway → Send → RuntimeRecord → Type 0
IsPosed around g p r =
    (p.runtime_id ≢ "")
    × (p.request_id ≢ "")
    × (hash_of around p ≢ "")
    × (lookup p.runtime_id g.runtimes ≡ some r)

pub send_posed :
    (around : Around) (g : Gateway) (p : Send) (r : RuntimeRecord)
    → IsPosed around g p r
    → runtime_send around g p ≡ send_checked around p (hash_of around p) g r
unfolding runtime_send
send_posed around g p r (a, b, c, e) = ground (
  arith,
  test_of_ne p.runtime_id "" a,
  test_of_ne p.request_id "" b,
  test_of_ne (hash_of around p) "" c,
)

-- What a send answers for a request id that has a command with payload hash `hash`.
abbrev pub IsReplay : Around → Send → String → Gateway → Gateway × Answer Reply → Type 0
IsReplay around p hash g (g', ans) =
    (g' ≡ g)
    × (hash_of around p ≡ hash
        → (row : Command) × (get_command g.control p.request_id ≡ some row)
          × (ans ≡ ok (command_result row)))
    × (hash_of around p ≢ hash → ans ≡ err idempotency_conflict)

checked-IsReplay :
    (around : Around) (p : Send) (hash : String) (g : Gateway) (r : RuntimeRecord)
    → hash_at g p.request_id ≡ some hash
    → IsReplay around p hash g (send_checked around p (hash_of around p) g r)
unfolding hash_at send_checked
checked-IsReplay around p hash g r h = elim (Option-cases (get_command g.control p.request_id)) [
  | inl e ↦ absurd (ground arith)
  | inr (row, e) ↦ (
    ground arith,
    λ same. (row, e, ground (arith, eq_iff row.payload_hash (hash_of around p))),
    λ other. ground (arith, eq_iff row.payload_hash (hash_of around p)),
  )
]

-- Once a request id has a command, while no id has two messages: after any safe activity of other threads,
-- a further send with that id to a registered runtime changes nothing and hands out no further
-- message. With the same payload hash it answers the command as it is, with another one
-- IDEMPOTENCY_CONFLICT.
pub runtime_send-IsReplay :
    (around : Around) (p : Send) (f : Gateway → Gateway) (g : Gateway) (hash : String)
    (r : RuntimeRecord)
    → IsSafe f
    → IsOnce g
    → hash_at g p.request_id ≡ some hash
    → IsPosed around (f g) p r
    → IsReplay around p hash (f g) (runtime_send around (f g) p)
      × (count (is_for p.request_id) (runtime_send around (f g) p).0.sent
          ≡ count (is_for p.request_id) g.sent)
runtime_send-IsReplay around p f g hash r safe once h posed =
    let (there, same) = (safe g once).1 p.request_id hash h in
    let again =
      subst (λ o. IsReplay around p hash (f g) o) (sym (send_posed around (f g) p r posed))
        (checked-IsReplay around p hash (f g) r there) in
    (again, ap (λ x. count (is_for p.request_id) x.sent) again.0 ∙ same)

-- The gateway as the plugin sees it while the mailbox writes the message of a new command.
abbrev pub at_delivery : Around → Gateway → Send → RuntimeRecord → Gateway
at_delivery around g p r =
    around.delivering (mailed p (enqueued around p (hash_of around p) (around.racing g) r) r)

note-HasState :
    (now : String) (g : Gateway) (id : String) (u : Update) (s : CmdState) (row : Command)
    → get_command g.control id ≡ some row
    → u.state ≡ some s
    → HasState (note now g id u).control id s
unfolding note set_columns has_sets
note-HasState now g id u s row h e = (
  set_columns now u row,
  ground (arith, get_command-update_command now g.control id u id, eq_refl id),
  ground arith,
)

marked-HasState :
    (around : Around) (p : Send) (msg_id : String) (g : Gateway) (row : Command)
    → get_command g.control p.request_id ≡ some row
    → HasState (mark_mailed around p msg_id g).control p.request_id queued
unfolding mark_mailed
marked-HasState around p msg_id g row h =
    note-HasState around.now g p.request_id _ queued row h refl

-- A record that passes the gate, of a runtime that is awake.
abbrev pub IsAwake : RuntimeRecord → Type 0
IsAwake r = (is_hot r ≡ true) × (is_ended r.agent_state ≡ false)

gate_awake :
    (around : Around) (p : Send) (g : Gateway) (r : RuntimeRecord)
    → IsAwake r
    → (send_gate around p (g, r)).0 ≡ g
unfolding send_gate
gate_awake around p g r (h, e) = ground arith

no_wait :
    (around : Around) (p : Send) (g : Gateway) (r : RuntimeRecord)
    → p.wait_binding ≡ false
    → maybe_wait around p g r ≡ (g, r)
unfolding maybe_wait
no_wait around p g r w = ground arith

reread_marked :
    (around : Around) (p : Send) (msg_id : String) (g : Gateway) (r cur : RuntimeRecord)
    → lookup p.runtime_id g.runtimes ≡ some cur
    → reread (mark_mailed around p msg_id g) p.runtime_id r ≡ cur
unfolding mark_mailed note
reread_marked around p msg_id g r cur l = ground arith

mail_awake :
    (around : Around) (p : Send) (g : Gateway) (r cur : RuntimeRecord) (msg_id : String)
    → lookup p.runtime_id (around.delivering (mailed p g r)).runtimes ≡ some cur
    → IsAwake cur
    → p.wait_binding ≡ false
    → (send_mail around p g r (ok msg_id)).0
      ≡ mark_mailed around p msg_id (around.delivering (mailed p g r))
unfolding send_mail
mail_awake around p g r cur msg_id l awake w =
    let later = around.delivering (mailed p g r) in
    let marked = mark_mailed around p msg_id later in
    ap (λ x. (send_gate around p (maybe_wait around p marked x)).0)
      (reread_marked around p msg_id later r cur l)
    ∙ ap (λ x. (send_gate around p x).0) (no_wait around p marked cur w)
    ∙ gate_awake around p marked cur awake

send_inserts :
    (around : Around) (p : Send) (hash : String) (g : Gateway) (r : RuntimeRecord)
    → get_command g.control p.request_id ≡ none
    → send_new around p hash g r ≡ send_queued around p (enqueued around p hash g r) r
unfolding send_new enqueue_command get_command
send_inserts around p hash g r e = ground arith

-- A send of a new request id, which is not to wait for a binding, has its message written, for a runtime
-- with a mailbox consumer that is hot and awake by then. The plugin has acked the command up to
-- TURN_TRIGGERED, which is final: the send puts it back to QUEUED all the same.
pub send_overwrites :
    (around : Around) (g : Gateway) (p : Send) (r cur : RuntimeRecord) (msg_id : String)
    → IsPosed around g p r
    → get_command g.control p.request_id ≡ none
    → get_command (around.racing g).control p.request_id ≡ none
    → has_consumer r ≡ true
    → around.delivered ≡ ok msg_id
    → HasState (at_delivery around g p r).control p.request_id turn_triggered
    → lookup p.runtime_id (at_delivery around g p r).runtimes ≡ some cur
    → IsAwake cur
    → p.wait_binding ≡ false
    → HasState (runtime_send around g p).0.control p.request_id queued
unfolding send_checked send_queued
send_overwrites around g p r cur msg_id posed e f consumer d (row, h, _) l awake w =
    let there = enqueued around p (hash_of around p) (around.racing g) r in
    let mail = mail_awake around p there r cur msg_id l awake w in
    let inserts = send_inserts around p (hash_of around p) (around.racing g) r f in
    let done : (runtime_send around g p).0
        ≡ mark_mailed around p msg_id (at_delivery around g p r) =
      ap (λ o. o.0) (send_posed around g p r posed) ∙ ground (arith, mail, inserts) in
    subst (λ x. HasState x.control p.request_id queued) (sym done)
      (marked-HasState around p msg_id (at_delivery around g p r) row h)
