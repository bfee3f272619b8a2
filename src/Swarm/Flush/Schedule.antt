-- ===== src/Swarm/Flush/Schedule.antt =====
-- The attempts at a message that keeps failing, against a plan that counts them.
use aimeshchat.Base.{
  ℕ, ◌+◌, ◌*◌, ◌≤◌, ◌<◌, String, true, false, ◌&&◌, ◌||◌, Option, none, some, List, [], ◌∷◌, ◌==◌,
  ◌≡◌, refl, ◌∙◌, ap, leb, ltb, arith, eq_iff, ◌⊎◌, Bool-cases, Option-cases, inl, inr,
  if◌then◌else◌,
}
use aimeshchat.Base.Table.{lookup, lookup-insert, lookup-remove}
use aimeshchat.Mailbox.Dicts.{Dict, has_key}
use aimeshchat.Swarm.Outbox.{
  Outbox, meta_at, meta_or_new, phase_at, is_marked, write_meta, attempted, attempt_due,
  dead_letter, handle_flush_failure, is_terminal_error, max_attempts, backoff_base, power,
  reprobe_paused, reprobe_due,
}
use aimeshchat.Swarm.Flush.{flush_entry, flush_due, attempt, wants_attempt}
use aimeshchat.Swarm.Flush.Frame.{SameRow, SameRow-flush_entry}
use aimeshchat.Swarm.Flush.Backoff.{
  IsWaiting, IsWaiting-attempted, flush_entry-due, flush_entry-early, failure-again, failure-last,
  meta_at-write_meta,
}

-- The entries that flushes come to, each with the time.
unfoldable pub run_flushes : String → (String → Option String) → List (ℕ × String) → Outbox → Outbox
run_flushes session send [] s = s
run_flushes session send ((now, mid) ∷ rest) s =
    run_flushes session send rest (flush_entry now session send mid s).0

-- How often a message has been tried, and from when on it may be tried again.
unfoldable pub planned : ℕ → ℕ × ℕ → ℕ × ℕ
planned t (n, e) =
    if leb e t && ltb n max_attempts then (n + 1, t + backoff_base * power 2 n) else (n, e)

unfoldable pub plan : String → List (ℕ × String) → ℕ × ℕ → ℕ × ℕ
plan mid [] p = p
plan mid ((t, m) ∷ rest) p = plan mid rest (if m == mid then planned t p else p)

pub record IsDueFrom (mid : String) (n e : ℕ) (s : Outbox) : Type 0 where
  pub waiting : IsWaiting mid n s
  pub due : (t : ℕ) → attempt_due t (meta_at mid s) ≡ leb e t

abbrev pub IsBuried : String → Outbox → Type 0
IsBuried mid s = (lookup mid s.entries ≡ none) × (has_key s.dead mid ≡ true)

-- After so many attempts: in the outbox, or among the dead letters after the last.
abbrev pub Stage : String → ℕ × ℕ → Outbox → Type 0
Stage mid (n, e) s =
    ((n < max_attempts) × IsDueFrom mid n e s) ⊎ ((max_attempts ≤ n) × IsBuried mid s)

module _ (mid : String) (s s' : Outbox) (same : SameRow mid s s') where
  IsDueFrom-same : (n e : ℕ) → IsDueFrom mid n e s → IsDueFrom mid n e s'
  IsDueFrom-same n e h =
      let w = h.waiting in
      record {
        waiting = record {
          envelope = w.envelope;
          entry = same.0 ∙ w.entry;
          addressed = w.addressed;
          unmarked = rw (is_marked, has_key, same.1) w.unmarked;
          unread = rw (phase_at, same.2) w.unread;
          running = rw (meta_at, same.2) w.running;
          count = rw (meta_at, same.2) w.count;
          retryable = rw (meta_at, same.2) w.retryable;
        };
        due = λ t. rw (meta_at, same.2) (h.due t);
      }

  IsBuried-same : IsBuried mid s → IsBuried mid s'
  IsBuried-same h = (same.0 ∙ h.0, rw (has_key, same.3) h.1)

  Stage-same : (p : ℕ × ℕ) → Stage mid p s → Stage mid p s'
  Stage-same (n, e) (inl h) = inl (h.0, IsDueFrom-same n e h.1)
  Stage-same (n, e) (inr h) = inr (h.0, IsBuried-same h.1)

-- A re-probe writes no entry and no dead letter.
reprobe-stored :
    (now : ℕ) (mid : String) (s : Outbox)
    → ((reprobe_paused now mid s).entries ≡ s.entries) × ((reprobe_paused now mid s).dead ≡ s.dead)
unfolding reprobe_paused
reprobe-stored now mid s = elim (Option-cases (meta_at mid s)) [
  | inl e ↦ rw (reprobe_paused, e) (refl, refl)
  | inr (m, e) ↦ elim (Bool-cases (m.paused_for_upgrade && reprobe_due now m)) [
    | inl f ↦ rw (reprobe_paused, e, f) (refl, refl)
    | inr f ↦ rw (reprobe_paused, e, f) (refl, refl)
  ]
]

IsBuried-dead_letter :
    (mid : String) (d : Dict) (s : Outbox)
    → lookup mid s.entries ≡ some (some d)
    → IsBuried mid (dead_letter mid s)
unfolding dead_letter
IsBuried-dead_letter mid d s e =
    rw (dead_letter, e)
      (
        ground (arith, lookup-remove mid mid s.entries, eq_iff mid mid),
        ground (arith, lookup-insert mid mid (some d) s.dead, eq_iff mid mid),
      )

module _ (now : ℕ) (session : String) (send : String → Option String) (mid error : String)
    (fails : send mid ≡ some error) (retry : is_terminal_error error ≡ false) where
  -- A message that is in no entry is not tried.
  flush_entry-IsBuried :
      (s : Outbox) → IsBuried mid s → IsBuried mid (flush_entry now session send mid s).0
  unfolding flush_entry flush_due
  flush_entry-IsBuried s h =
      let r = reprobe-stored now mid s in
      let s' = reprobe_paused now mid s in
      let gone : lookup mid s'.entries ≡ none = rw r.0 h.0 in
      let there : IsBuried mid s' = (gone, rw (has_key, r.1) h.1) in
      elim (Bool-cases (is_marked mid s || phase_at mid s == "consumed")) [
        | inl e ↦ rw (flush_entry, e) h
        | inr e ↦ elim (Bool-cases (wants_attempt now mid s')) [
          | inl f ↦ rw (flush_entry, e, f, flush_due, gone) there
          | inr f ↦ rw (flush_entry, e, f) there
        ]
      ]

  IsDueFrom-attempted :
      (n : ℕ) (s : Outbox) (w : IsWaiting mid n s)
      → IsDueFrom mid
          (n + 1)
          (now + backoff_base * power 2 n)
          (write_meta now mid (attempted now false (meta_or_new (meta_at mid s))) s)
  unfolding attempt_due attempted
  IsDueFrom-attempted n s w =
      let m = attempted now false (meta_or_new (meta_at mid s)) in
      record {
        waiting = IsWaiting-attempted now mid s n w;
        due = λ t. rw (meta_at-write_meta now mid m s, w.count) refl;
      }

  module _ (n e : ℕ) (s : Outbox) (h : IsDueFrom mid n e s) where
    -- Not due: nothing changes.
    flush_entry-waits : leb e now ≡ false → (flush_entry now session send mid s).0 ≡ s
    flush_entry-waits f =
        ap (λ r. r.0) (flush_entry-early now session send mid s n h.waiting (h.due now ∙ f))

    flush_entry-tries :
        leb e now ≡ true
        → (flush_entry now session send mid s).0 ≡ handle_flush_failure now mid error s
    unfolding attempt
    flush_entry-tries f =
        ap (λ r. r.0) (flush_entry-due now session send mid s n h.waiting (h.due now ∙ f))
        ∙ rw (attempt, fails) refl

    failure-Stage :
        n < max_attempts
        → Stage mid (n + 1, now + backoff_base * power 2 n) (handle_flush_failure now mid error s)
    failure-Stage k = elim (Bool-cases (ltb (n + 1) max_attempts)) [
      | inl f ↦
          let few : n + 1 < max_attempts = ground (arith, f) in
          inl (
            few,
            rw (failure-again now session send mid s n h.waiting error retry few)
                (IsDueFrom-attempted n s h.waiting),
          )
      | inr f ↦
          let last : max_attempts ≤ n + 1 = ground (arith, f) in
          inr (
            last,
            rw (failure-last now session send mid s n h.waiting error retry last) (
                IsBuried-dead_letter mid h.waiting.envelope
                  (write_meta now mid (attempted now false (meta_or_new (meta_at mid s))) s)
                  h.waiting.entry),
          )
    ]

    entry-waiting :
        n < max_attempts → Stage mid (planned now (n, e)) (flush_entry now session send mid s).0
    unfolding planned
    entry-waiting k =
        let left : ltb n max_attempts ≡ true = ground (arith, k) in
        elim (Bool-cases (leb e now)) [
          | inl f ↦ rw (planned, f, left, flush_entry-tries f) (failure-Stage k)
          | inr f ↦ rw (planned, f, flush_entry-waits f) (inl (k, h))
        ]

  entry-Stage :
      (p : ℕ × ℕ) (s : Outbox)
      → Stage mid p s
      → Stage mid (planned now p) (flush_entry now session send mid s).0
  unfolding planned
  entry-Stage (n, e) s (inl h) = entry-waiting n e s h.1 h.0
  entry-Stage (n, e) s (inr h) =
      let over : ltb n max_attempts ≡ false = ground (arith, h.0) in
      let stays : planned now (n, e) ≡ (n, e) = ground (arith, over) in
      rw stays (inr (h.0, flush_entry-IsBuried s h.1))

-- However often the outbox is flushed, when and between whichever other messages: a message whose
-- sends all fail with an error that may be tried again is where the plan says. It is tried when it
-- is due, five times at most, 5, 10, 20 and 40 seconds at least after the attempt before; until then
-- it waits in the outbox with its attempts counted, and after the fifth attempt it is among the dead
-- letters.
pub run_flushes-Stage :
    (session : String) (send : String → Option String) (mid error : String)
    → send mid ≡ some error
    → is_terminal_error error ≡ false
    → (calls : List (ℕ × String)) (p : ℕ × ℕ) (s : Outbox) → Stage mid p s
    → Stage mid (plan mid calls p) (run_flushes session send calls s)
unfolding plan run_flushes
run_flushes-Stage session send mid error fails retry [] p s h = h
run_flushes-Stage session send mid error fails retry ((now, m) ∷ calls) p s h =
    elim (Bool-cases (m == mid)) [
      | inl f ↦
          let same : m ≡ mid = (eq_iff m mid).0 f in
          let s' = (flush_entry now session send m s).0 in
          let h' : Stage mid (planned now p) s' =
            rw same (entry-Stage now session send mid error fails retry p s h) in
          rw (plan, f)
            (run_flushes-Stage session send mid error fails retry calls (planned now p) s' h')
      | inr f ↦
          let s' = (flush_entry now session send m s).0 in
          rw (plan, f)
            (run_flushes-Stage session send mid error fails retry calls p s'
              (Stage-same mid s s' (SameRow-flush_entry mid m f now session send s) p h))
    ]
