-- ===== src/Gateway/Send/Steps.antt =====
-- What may happen to a gateway while commands are sent: each request id keeps its command, and has at
-- most one message. The steps of a send after its message keep this up.
use mathlib.Core.Option
use aimeshchat.Base.{
  ◌≤◌, String, ◌≡◌, refl, sym, ◌∙◌, Bool, Option, none, some, List, [], ◌∷◌, ◌++◌, ◌==◌, arith,
  count, All, Bool-cases, inl, inr, ok,
}
use aimeshchat.Gateway.Runtimes.{RuntimeRecord, is_hot, is_bound}
use aimeshchat.Gateway.Control.{Update, get_command, set_columns}
use aimeshchat.Gateway.Control.Rows.{get_command-update_command}
use aimeshchat.Gateway.State.{Gateway, Envelope}
use aimeshchat.Gateway.Send.{
  Send, Around, note, settle, wait_bound, waits, maybe_wait, mark_mailed, revival_update,
  send_revive, send_gate, envelope, send_mail, reread, is_ended,
}

-- The payload hash under a request id.
unfoldable pub hash_at : Gateway → String → Option String
hash_at g id = Option.map (λ row. row.payload_hash) (get_command g.control id)

abbrev pub is_for : String → Envelope → Bool
is_for id e = e.request_id == id

-- Each request id has one message at most, and none without a command.
abbrev pub IsOnce : Gateway → Type 0
IsOnce g =
    (id : String)
    → (count (is_for id) g.sent ≤ 1) × (hash_at g id ≡ none → count (is_for id) g.sent ≡ 0)

-- A command that is there stays, with its payload hash, and gets no further message.
abbrev pub Later : Gateway → Gateway → Type 0
Later g g' =
    (id hash : String)
    → hash_at g id ≡ some hash
    → (hash_at g' id ≡ some hash) × (count (is_for id) g'.sent ≡ count (is_for id) g.sent)

abbrev pub Grows : Gateway → Gateway → Type 0
Grows g g' = IsOnce g → IsOnce g' × Later g g'

-- An activity of the gateway that keeps this up.
abbrev pub IsSafe : (Gateway → Gateway) → Type 0
IsSafe f = (g : Gateway) → Grows g (f g)

pub Grows-trans : (g h k : Gateway) → Grows g h → Grows h k → Grows g k
Grows-trans g h k a b once =
    let (once_h, g_h) = a once in
    let (once_k, h_k) = b once_h in
    (
      once_k,
      λ id hash e.
          let (e', same) = g_h id hash e in
          let (e'', same') = h_k id hash e' in (e'', same' ∙ same),
    )

pub Grows-refl : (g : Gateway) → Grows g g
Grows-refl g once = (once, λ id hash e. (e, refl))

hash_at-note :
    (now : String) (g : Gateway) (k : String) (u : Update) (id : String)
    → hash_at (note now g k u) id ≡ hash_at g id
unfolding hash_at note set_columns
hash_at-note now g k u id = ground (arith, get_command-update_command now g.control k u id)

pub note-Grows : (now : String) (g : Gateway) (k : String) (u : Update) → Grows g (note now g k u)
unfolding note
note-Grows now g k u once = (
  λ id. ((once id).0, λ e. (once id).1 (sym (hash_at-note now g k u id) ∙ e)),
  λ id hash e. (hash_at-note now g k u id ∙ e, refl),
)

-- The waits of a send are for activities that are safe.
pub record IsFair (around : Around) : Type 0 where
  pub racing_safe : IsSafe around.racing
  pub delivering_safe : IsSafe around.delivering
  pub polls_safe : All IsSafe around.polls
  pub reviving_safe : IsSafe around.reviving_park

wait-Grows :
    (polls : List (Gateway → Gateway)) (id : String) (g : Gateway) (r : RuntimeRecord)
    → All IsSafe polls
    → Grows g (wait_bound polls id g r).0
unfolding wait_bound
wait-Grows [] id g r safe = Grows-refl g
wait-Grows (poll ∷ polls) id g r safe = elim (Bool-cases (is_bound r.binding)) [
  | inl e ↦ rw e (Grows-refl g)
  | inr e ↦ rw e (
      Grows-trans g (poll g) _ (safe.0 g)
        (wait-Grows polls id (poll g) (reread (poll g) id r) safe.1))
]

pub settle-Grows :
    (now : String) (g : Gateway) (k : String) (u : Update) → Grows g (settle now g k u).0
unfolding settle
settle-Grows now g k u = note-Grows now g k u

revive-Grows :
    (around : Around) (p : Send) (g : Gateway) (r : RuntimeRecord)
    → IsFair around
    → Grows g (send_revive around p g r).0
unfolding send_revive
revive-Grows around p g r fair = Grows-trans g _ _ (note-Grows around.now g p.request_id _) (
    Grows-trans _ (around.reviving_park _) _ (fair.reviving_safe _)
      (settle-Grows around.now _ p.request_id (revival_update around.revived)))

gate-Grows :
    (around : Around) (p : Send) (x : Gateway × RuntimeRecord)
    → IsFair around
    → Grows x.0 (send_gate around p x).0
unfolding send_gate
gate-Grows around p (g, r) fair = elim (Bool-cases (is_hot r)) [
  | inr e ↦ elim (Bool-cases (is_bound r.binding)) [
    | inl b ↦ rw (e, b) (settle-Grows around.now g p.request_id _)
    | inr b ↦ rw (e, b) (settle-Grows around.now g p.request_id _)
  ]
  | inl e ↦ elim (Bool-cases (is_ended r.agent_state)) [
    | inl d ↦ rw (e, d) (revive-Grows around p g r fair)
    | inr d ↦ rw (e, d) (Grows-refl g)
  ]
]

maybe_wait-Grows :
    (around : Around) (p : Send) (g : Gateway) (r : RuntimeRecord)
    → IsFair around
    → Grows g (maybe_wait around p g r).0
unfolding maybe_wait
maybe_wait-Grows around p g r fair = elim (Bool-cases (waits p r)) [
  | inl e ↦ rw e (wait-Grows around.polls p.runtime_id g r fair.polls_safe)
  | inr e ↦ rw e (Grows-refl g)
]

-- The mailbox has the message, and the command is still under way.
abbrev pub mailed : Send → Gateway → RuntimeRecord → Gateway
mailed p g r = record g { sent = g.sent ++ envelope p r ∷ [] }

pub mail-Grows :
    (around : Around) (p : Send) (g : Gateway) (r : RuntimeRecord) (msg_id : String)
    → IsFair around
    → Grows (mailed p g r) (send_mail around p g r (ok msg_id)).0
unfolding send_mail mark_mailed
mail-Grows around p g r msg_id fair =
    let later = around.delivering (mailed p g r) in
    let marked = mark_mailed around p msg_id later in
    let cur = reread marked p.runtime_id r in
    Grows-trans (mailed p g r) later _ (fair.delivering_safe (mailed p g r)) (
      Grows-trans later marked _ (note-Grows around.now later p.request_id _) (
        Grows-trans marked (maybe_wait around p marked cur).0 _
          (maybe_wait-Grows around p marked cur fair)
          (gate-Grows around p (maybe_wait around p marked cur) fair)))
