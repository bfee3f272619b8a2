-- ===== src/Swarm/Flush/Backoff.antt =====
-- Failing attempts at one message: back-off, their number, and the dead letters.
use aimeshchat.Base.{
  ℕ, ◌+◌, ◌≤◌, ◌<◌, String, true, false, Option, none, some, ◌==◌, ◌≡◌, refl, leb, arith, eq_iff,
}
use aimeshchat.Base.Table.{lookup, lookup-insert}
use aimeshchat.Mailbox.Dicts.{Dict}
use aimeshchat.Mailbox.Validate.{text_at}
use aimeshchat.Swarm.Outbox.{
  Meta, Outbox, meta_at, meta_or_new, phase_at, is_marked, write_meta, attempted, attempt_due,
  dead_letter, handle_flush_failure, is_terminal_error, max_attempts, reprobe_paused, is_paused,
}
use aimeshchat.Swarm.Flush.{flush_entry, flush_due, attempt, wants_attempt}

-- A message that waits: in the outbox, addressed, not delivered, not consumed, not paused, and so many
-- attempts made.
pub record IsWaiting (mid : String) (n : ℕ) (s : Outbox) : Type 0 where
  pub envelope : Dict
  pub entry : lookup mid s.entries ≡ some (some envelope)
  pub addressed : (text_at "_target_host" envelope == "") ≡ false
  pub unmarked : is_marked mid s ≡ false
  pub unread : (phase_at mid s == "consumed") ≡ false
  pub running : is_paused (meta_at mid s) ≡ false
  pub count : (meta_or_new (meta_at mid s)).attempt_count ≡ n
  pub retryable : (meta_or_new (meta_at mid s)).terminal ≡ false

-- A flush tries a waiting message that is due.
module _ (now : ℕ) (session : String) (send : String → Option String) (mid : String) (s : Outbox)
    (n : ℕ) (w : IsWaiting mid n s) where
  reprobe-running :
      (o : Option Meta) → meta_at mid s ≡ o → is_paused o ≡ false → reprobe_paused now mid s ≡ s
  unfolding reprobe_paused
  reprobe-running none e r = rw (reprobe_paused, e) refl
  reprobe-running (some m) e r = rw (reprobe_paused, e, r) refl

  reprobe-waiting : reprobe_paused now mid s ≡ s
  reprobe-waiting = reprobe-running (meta_at mid s) refl w.running

  pub flush_entry-due :
      attempt_due now (meta_at mid s) ≡ true
      → flush_entry now session send mid s ≡ attempt now session w.envelope mid (send mid) s
  unfolding flush_entry flush_due wants_attempt
  flush_entry-due d =
      rw
        (
          flush_entry, w.unmarked, w.unread, reprobe-waiting, wants_attempt, w.running, d,
          flush_due, w.entry, w.addressed, reprobe-waiting,
        )
        refl

  pub flush_entry-early :
      attempt_due now (meta_at mid s) ≡ false → flush_entry now session send mid s ≡ (s, false)
  unfolding flush_entry wants_attempt
  flush_entry-early d =
      rw (flush_entry, w.unmarked, w.unread, reprobe-waiting, wants_attempt, w.running, d) refl

  -- What a failed attempt that may be tried again leaves.
  module _ (error : String) (retry : is_terminal_error error ≡ false) where
    pub failure-again :
        n + 1 < max_attempts
        → handle_flush_failure now mid error s
          ≡ write_meta now mid (attempted now false (meta_or_new (meta_at mid s))) s
    unfolding handle_flush_failure
    failure-again h =
        let few : leb max_attempts ((meta_or_new (meta_at mid s)).attempt_count + 1) ≡ false =
          ground (arith, w.count) in
        rw (handle_flush_failure, retry, few) refl

    pub failure-last :
        max_attempts ≤ n + 1
        → handle_flush_failure now mid error s
          ≡ dead_letter mid
              (write_meta now mid (attempted now false (meta_or_new (meta_at mid s))) s)
    unfolding handle_flush_failure
    failure-last h =
        let many : leb max_attempts ((meta_or_new (meta_at mid s)).attempt_count + 1) ≡ true =
          ground (arith, w.count) in
        rw (handle_flush_failure, retry, many) refl

-- The meta of a message after it is written.
pub meta_at-write_meta :
    (now : ℕ) (mid : String) (m : Meta) (s : Outbox) → meta_at mid (write_meta now mid m s) ≡ some m
meta_at-write_meta now mid m s = ground (
  arith,
  lookup-insert mid mid (record { phase = phase_at mid s; meta = some m; touched = now })
      s.statuses,
  eq_iff mid mid,
)

phase_at-write_meta :
    (now : ℕ) (mid : String) (m : Meta) (s : Outbox)
    → phase_at mid (write_meta now mid m s) ≡ phase_at mid s
phase_at-write_meta now mid m s = ground (
  arith,
  lookup-insert mid mid (record { phase = phase_at mid s; meta = some m; touched = now })
      s.statuses,
  eq_iff mid mid,
)

pub IsWaiting-attempted :
    (now : ℕ) (mid : String) (s : Outbox) (n : ℕ) (w : IsWaiting mid n s)
    → IsWaiting mid
        (n + 1)
        (write_meta now mid (attempted now false (meta_or_new (meta_at mid s))) s)
unfolding attempted
IsWaiting-attempted now mid s n w =
    let m = attempted now false (meta_or_new (meta_at mid s)) in
    let e = meta_at-write_meta now mid m s in
    record {
      envelope = w.envelope;
      entry = w.entry;
      addressed = w.addressed;
      unmarked = w.unmarked;
      unread = rw (phase_at-write_meta now mid m s) w.unread;
      running = rw (is_paused, e) (still (meta_at mid s) w.running);
      count = rw e ground (arith, w.count);
      retryable = rw e refl;
    }
  where
    still : (o : Option Meta) → is_paused o ≡ false → (meta_or_new o).paused_for_upgrade ≡ false
    still none h = refl
    still (some m) h = h
