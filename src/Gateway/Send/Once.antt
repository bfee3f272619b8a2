-- ===== src/Gateway/Send/Once.antt =====
-- At most one mailbox message for a request id, whatever other threads do meanwhile.
use aimeshchat.Base.{
  ◌+◌, String, ◌≡◌, ◌⊎◌, refl, true, false, ◌||◌, none, some, [], ◌∷◌, ◌==◌, eq_iff, arith, count,
  count-append, if◌then◌else◌, Bool-cases, Option-cases, inl, inr, Result, ok, err,
}
use aimeshchat.Base.Table.{lookup, lookup-insert}
use aimeshchat.Gateway.Runtimes.{RuntimeRecord, has_consumer}
use aimeshchat.Gateway.Control.{get_command, enqueue_command}
use aimeshchat.Gateway.State.{Gateway}
use aimeshchat.Gateway.Send.Steps.{
  hash_at, is_for, Grows, IsSafe, Grows-trans, Grows-refl, note-Grows, IsFair, settle-Grows, mailed,
  mail-Grows,
}
use aimeshchat.Gateway.Send.{
  Send, Around, envelope, send_mail, send_queued, new_row, send_new, send_checked, runtime_send,
  hash_of,
}

-- The gateway after the insert of a new command.
abbrev pub enqueued : Around → Send → String → Gateway → RuntimeRecord → Gateway
enqueued around p hash g r = record g {
  control = (enqueue_command g.control (new_row around p hash r)).0;
}

hash_at-enqueued :
    (around : Around) (p : Send) (hash : String) (g : Gateway) (r : RuntimeRecord) (id : String)
    → hash_at g p.request_id ≡ none
    → hash_at (enqueued around p hash g r) id
      ≡ (if p.request_id == id then some hash else hash_at g id)
unfolding hash_at get_command enqueue_command
hash_at-enqueued around p hash g r id h =
    ground (arith, lookup-insert p.request_id id (new_row around p hash r) g.control.commands)

enqueue-Grows :
    (around : Around) (p : Send) (hash : String) (g : Gateway) (r : RuntimeRecord)
    → hash_at g p.request_id ≡ none
    → Grows g (enqueued around p hash g r)
enqueue-Grows around p hash g r new once = (
  λ id. ((once id).0, λ e. ground (arith, hash_at-enqueued around p hash g r id new, (once id).1)),
  λ id h e.
      (ground (arith, hash_at-enqueued around p hash g r id new, eq_iff p.request_id id), refl),
)

count-mailed :
    (p : Send) (g : Gateway) (r : RuntimeRecord) (id : String)
    → count (is_for id) (mailed p g r).sent
      ≡ count (is_for id) g.sent + (if p.request_id == id then 1 else 0)
unfolding count
count-mailed p g r id = ground (arith, count-append (is_for id) g.sent (envelope p r ∷ []))

read_mailed :
    (around : Around) (p : Send) (hash : String) (g : Gateway) (r : RuntimeRecord) (id : String)
    → hash_at g p.request_id ≡ none
    → hash_at (mailed p (enqueued around p hash g r) r) id
      ≡ (if p.request_id == id then some hash else hash_at g id)
unfolding hash_at
read_mailed around p hash g r id new = hash_at-enqueued around p hash g r id new

enqueue_mail-Grows :
    (around : Around) (p : Send) (hash : String) (g : Gateway) (r : RuntimeRecord)
    → hash_at g p.request_id ≡ none
    → Grows g (mailed p (enqueued around p hash g r) r)
enqueue_mail-Grows around p hash g r new once = (
  λ id. (
    ground (
      arith,
      count-mailed p g r id,
      eq_iff p.request_id id,
      (once id).0,
      (once p.request_id).1 new,
    ),
    λ e. ground (arith, read_mailed around p hash g r id new, count-mailed p g r id, (once id).1),
  ),
  λ id h e. (
    ground (arith, read_mailed around p hash g r id new, eq_iff p.request_id id),
    ground (arith, count-mailed p g r id, eq_iff p.request_id id),
  ),
)

queued-Grows :
    (around : Around) (p : Send) (hash : String) (g : Gateway) (r : RuntimeRecord)
    → IsFair around
    → hash_at g p.request_id ≡ none
    → (delivered : Result String String)
    → Grows g (send_mail around p (enqueued around p hash g r) r delivered).0
unfolding send_mail
queued-Grows around p hash g r fair new (ok msg_id) =
    Grows-trans g (mailed p (enqueued around p hash g r) r) _
      (enqueue_mail-Grows around p hash g r new)
      (mail-Grows around p (enqueued around p hash g r) r msg_id fair)
queued-Grows around p hash g r fair new (err reason) =
    let there = enqueued around p hash g r in
    Grows-trans g there _ (enqueue-Grows around p hash g r new) (
      Grows-trans there (around.delivering there) _ (fair.delivering_safe there)
        (settle-Grows around.now (around.delivering there) p.request_id _))

after_insert :
    (around : Around) (p : Send) (hash : String) (g : Gateway) (r : RuntimeRecord)
    → IsFair around
    → hash_at g p.request_id ≡ none
    → Grows g (send_queued around p (enqueued around p hash g r) r).0
unfolding send_queued
after_insert around p hash g r fair new = elim (Bool-cases (has_consumer r)) [
  | inl e ↦ rw e (queued-Grows around p hash g r fair new around.delivered)
  | inr e ↦ rw e (
      Grows-trans g (enqueued around p hash g r) _ (enqueue-Grows around p hash g r new)
        (note-Grows around.now (enqueued around p hash g r) p.request_id _))
]

-- The insert answers true exactly if the request id is new.
created_iff :
    (around : Around) (p : Send) (hash : String) (g : Gateway) (r : RuntimeRecord)
    → (hash_at g p.request_id ≡ none)
        × ((enqueue_command g.control (new_row around p hash r)).1 ≡ true)
      ⊎ ((enqueue_command g.control (new_row around p hash r)).1 ≡ false)
unfolding hash_at get_command enqueue_command
created_iff around p hash g r = elim (Option-cases (lookup p.request_id g.control.commands)) [
  | inl e ↦ inl (ground arith, ground arith)
  | inr (row, e) ↦ inr (ground arith)
]

new-Grows :
    (around : Around) (p : Send) (hash : String) (g : Gateway) (r : RuntimeRecord)
    → IsFair around
    → Grows g (send_new around p hash g r).0
unfolding send_new
new-Grows around p hash g r fair = elim (created_iff around p hash g r) [
  | inl (new, e) ↦ rw e (after_insert around p hash g r fair new)
  | inr e ↦ rw e (Grows-refl g)
]

-- A send, with any such activities of other threads at its waits, leaves each request id with one
-- mailbox message at most, and none without a command; a command that was there stays with
-- its payload hash and gets no further message.
pub runtime_send-IsSafe :
    (around : Around) (p : Send) → IsFair around → IsSafe (λ g. (runtime_send around g p).0)
unfolding runtime_send send_checked
runtime_send-IsSafe around p fair g = elim (Option-cases (lookup p.runtime_id g.runtimes)) [
  | inl e ↦ rw (e, runtime_send) (Grows-refl g)
  | inr (r, e) ↦
      elim (Bool-cases ((p.runtime_id == "" || p.request_id == "") || hash_of around p == "")) [
        | inl b ↦ rw (e, b, runtime_send) (Grows-refl g)
        | inr b ↦ elim (Option-cases (get_command g.control p.request_id)) [
          | inr (row, h) ↦ rw (e, b, h, runtime_send, send_checked) (Grows-refl g)
          | inl h ↦
              rw (e, b, h, runtime_send, send_checked)
                (Grows-trans g (around.racing g) _ (fair.racing_safe g)
                  (new-Grows around p (hash_of around p) (around.racing g) r fair))
        ]
      ]
]
