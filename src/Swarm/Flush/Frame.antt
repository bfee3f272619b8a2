-- ===== src/Swarm/Flush/Frame.antt =====
-- What a flush of one message leaves of another.
use aimeshchat.Base.{
  ℕ, String, Bool, true, false, ◌&&◌, ◌||◌, Option, none, some, ◌==◌, ◌≡◌, refl, ◌∙◌, arith,
  Bool-cases, Option-cases, inl, inr, if◌then◌else◌,
}
use aimeshchat.Base.Table.{lookup, lookup-insert, lookup-remove}
use aimeshchat.Mailbox.Dicts.{Dict}
use aimeshchat.Mailbox.Validate.{text_at}
use aimeshchat.Swarm.Outbox.{
  Meta, Outbox, meta_at, meta_or_new, phase_at, is_marked, write_meta, attempted, dead_letter,
  handle_flush_failure, is_terminal_error, paused, reprobe_paused, reprobe_due,
}
use aimeshchat.Swarm.Flush.{flush_entry, flush_due, attempt, wants_attempt}

-- The same entry, marker, status and dead letter under a name.
abbrev pub SameRow : String → Outbox → Outbox → Type 0
SameRow k s s' =
    (lookup k s'.entries ≡ lookup k s.entries)
    × (lookup k s'.markers ≡ lookup k s.markers)
    × (lookup k s'.statuses ≡ lookup k s.statuses)
    × (lookup k s'.dead ≡ lookup k s.dead)

SameRow-refl : (k : String) (s : Outbox) → SameRow k s s
SameRow-refl k s = (refl, refl, refl, refl)

SameRow-trans : (k : String) (a b c : Outbox) → SameRow k a b → SameRow k b c → SameRow k a c
SameRow-trans k a b c p q = (q.0 ∙ p.0, q.1 ∙ p.1, q.2 ∙ p.2, q.3 ∙ p.3)

module _ (k mid : String) (other : (mid == k) ≡ false) where
  SameRow-write_meta : (now : ℕ) (m : Meta) (s : Outbox) → SameRow k s (write_meta now mid m s)
  SameRow-write_meta now m s = (
    refl,
    refl,
    ground (
      arith,
      other,
      lookup-insert mid k (record { phase = phase_at mid s; meta = some m; touched = now })
          s.statuses,
    ),
    refl,
  )

  SameRow-dead_letter : (s : Outbox) → SameRow k s (dead_letter mid s)
  unfolding dead_letter
  SameRow-dead_letter s = elim (Option-cases (lookup mid s.entries)) [
    | inl e ↦ rw (dead_letter, e) (SameRow-refl k s)
    | inr (d, e) ↦
        rw (dead_letter, e)
          (
            ground (arith, other, lookup-remove mid k s.entries),
            refl,
            ground (arith, other, lookup-remove mid k s.statuses),
            ground (arith, other, lookup-insert mid k d s.dead),
          )
  ]

  SameRow-if :
      (t : Bool) (a b s : Outbox) → SameRow k s a → SameRow k s b → SameRow k s (if t then a else b)
  SameRow-if true a b s h g = h
  SameRow-if false a b s h g = g

  SameRow-handle_flush_failure :
      (now : ℕ) (error : String) (s : Outbox) → SameRow k s (handle_flush_failure now mid error s)
  unfolding handle_flush_failure
  SameRow-handle_flush_failure now error s =
      let m = meta_or_new (meta_at mid s) in
      let s' = write_meta now mid (attempted now (is_terminal_error error) m) s in
      let h = SameRow-write_meta now (attempted now (is_terminal_error error) m) s in
      SameRow-if _ _ _ s (SameRow-write_meta now (paused now m) s) (
        SameRow-if _ _ _ s (SameRow-trans k s s' (dead_letter mid s') h (SameRow-dead_letter s')) h)

  SameRow-reprobe_paused : (now : ℕ) (s : Outbox) → SameRow k s (reprobe_paused now mid s)
  unfolding reprobe_paused
  SameRow-reprobe_paused now s = elim (Option-cases (meta_at mid s)) [
    | inl e ↦ rw (reprobe_paused, e) (SameRow-refl k s)
    | inr (m, e) ↦
        rw (reprobe_paused, e)
          (SameRow-if (m.paused_for_upgrade && reprobe_due now m) _ s s
            (SameRow-write_meta now
              (record m { paused_for_upgrade = false; next_reprobe_at = none }) s)
            (SameRow-refl k s))
  ]

  SameRow-attempt :
      (now : ℕ) (session : String) (d : Dict) (o : Option String) (s : Outbox)
      → SameRow k s (attempt now session d mid o s).0
  unfolding attempt
  SameRow-attempt now session d none s =
      (refl, ground (arith, other, lookup-insert mid k now s.markers), refl, refl)
  SameRow-attempt now session d (some error) s = SameRow-handle_flush_failure now error s

  SameRow-flush_due :
      (now : ℕ) (session : String) (send : String → Option String) (s : Outbox)
      (o : Option (Option Dict))
      → lookup mid s.entries ≡ o
      → SameRow k s (flush_due now session send mid s).0
  unfolding flush_due
  SameRow-flush_due now session send s none e = rw (flush_due, e) (SameRow-refl k s)
  SameRow-flush_due now session send s (some none) e = rw (flush_due, e) (SameRow-refl k s)
  SameRow-flush_due now session send s (some (some d)) e =
      elim (Bool-cases (text_at "_target_host" d == "")) [
        | inl f ↦ rw (flush_due, e, f) (SameRow-refl k s)
        | inr f ↦ rw (flush_due, e, f) (SameRow-attempt now session d (send mid) s)
      ]

  pub SameRow-flush_entry :
      (now : ℕ) (session : String) (send : String → Option String) (s : Outbox)
      → SameRow k s (flush_entry now session send mid s).0
  unfolding flush_entry
  SameRow-flush_entry now session send s =
      let s' = reprobe_paused now mid s in
      let p = SameRow-reprobe_paused now s in
      elim (Bool-cases (is_marked mid s || phase_at mid s == "consumed")) [
        | inl e ↦ rw (flush_entry, e) (SameRow-refl k s)
        | inr e ↦
            rw (flush_entry, e)
              elim (Bool-cases (wants_attempt now mid s')) [
                | inl f ↦ rw f (
                    SameRow-trans k s s' (flush_due now session send mid s').0 p
                      (SameRow-flush_due now session send s' (lookup mid s'.entries) refl))
                | inr f ↦ rw f p
              ]
      ]
