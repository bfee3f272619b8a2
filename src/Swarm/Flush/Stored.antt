-- ===== src/Swarm/Flush/Stored.antt =====
-- A message that no send took stays stored, whatever is called.
use aimeshchat.Base.{
  ℕ, String, Bool, true, false, ◌||◌, Option, none, some, List, [], ◌∷◌, ◌==◌, ◌≡◌, refl, ◌∙◌,
  arith, eq_iff, Bool-cases, Option-cases, inl, inr, if◌then◌else◌,
}
use aimeshchat.Base.Table.{lookup, lookup-insert, lookup-remove}
use aimeshchat.Mailbox.Dicts.{Dict, has_key}
use aimeshchat.Mailbox.Validate.{text_at}
use aimeshchat.Swarm.Outbox.{
  Outbox, meta_at, phase_at, is_marked, dead_letter, handle_flush_failure, reprobe_paused,
}
use aimeshchat.Swarm.Flush.{flush_entry, flush_due, attempt, wants_attempt, flush_each}
use aimeshchat.Swarm.Flush.Frame.{SameRow-flush_entry}

-- In the outbox or among the dead letters, and not marked as delivered.
abbrev pub IsStored : String → Outbox → Type 0
IsStored mid s =
    (lookup mid s.markers ≡ none) × ((has_key s.entries mid || has_key s.dead mid) ≡ true)

module _ (k : String) where
  IsStored-dead_letter : (mid : String) (s : Outbox) → IsStored k s → IsStored k (dead_letter mid s)
  unfolding dead_letter
  IsStored-dead_letter mid s h = elim (Option-cases (lookup mid s.entries)) [
    | inl e ↦ rw (dead_letter, e) h
    | inr (d, e) ↦
        rw (dead_letter, e)
          (
            h.0,
            ground (
              arith,
              h.1,
              e,
              eq_iff mid k,
              lookup-remove mid k s.entries,
              lookup-insert mid k d s.dead,
            ),
          )
  ]

  pub IsStored-if :
      (t : Bool) (a b : Outbox) → IsStored k a → IsStored k b → IsStored k (if t then a else b)
  IsStored-if true a b h g = h
  IsStored-if false a b h g = g

  IsStored-handle_flush_failure :
      (now : ℕ) (mid error : String) (s : Outbox)
      → IsStored k s
      → IsStored k (handle_flush_failure now mid error s)
  unfolding handle_flush_failure
  IsStored-handle_flush_failure now mid error s h =
      IsStored-if _ _ _ h (IsStored-if _ _ _ (IsStored-dead_letter mid _ h) h)

  -- A flush in which the message is not sent.
  IsStored-flush_due :
      (now : ℕ) (session error : String) (send : String → Option String) (s : Outbox)
      → send k ≡ some error
      → IsStored k s
      → IsStored k (flush_due now session send k s).0
  unfolding flush_due attempt
  IsStored-flush_due now session error send s f h = due (lookup k s.entries) refl
    where
      due :
          (o : Option (Option Dict))
          → lookup k s.entries ≡ o
          → IsStored k (flush_due now session send k s).0
      due none e = rw (flush_due, e) h
      due (some none) e = rw (flush_due, e) h
      due (some (some d)) e = elim (Bool-cases (text_at "_target_host" d == "")) [
        | inl g ↦ rw (flush_due, e, g) h
        | inr g ↦ rw (flush_due, e, g, attempt, f) (IsStored-handle_flush_failure now k error s h)
      ]

  IsStored-reprobe_paused :
      (now : ℕ) (mid : String) (s : Outbox) → IsStored k s → IsStored k (reprobe_paused now mid s)
  unfolding reprobe_paused
  IsStored-reprobe_paused now mid s h = elim (Option-cases (meta_at mid s)) [
    | inl e ↦ rw (reprobe_paused, e) h
    | inr (m, e) ↦ rw (reprobe_paused, e) (IsStored-if _ _ _ h h)
  ]

  IsStored-flush_entry :
      (now : ℕ) (session mid error : String) (send : String → Option String) (s : Outbox)
      → send k ≡ some error
      → IsStored k s
      → IsStored k (flush_entry now session send mid s).0
  unfolding flush_entry
  IsStored-flush_entry now session mid error send s f h = elim (Bool-cases (mid == k)) [
    | inr e ↦
        let r = SameRow-flush_entry k mid e now session send s in
        (r.1 ∙ h.0, rw (has_key, r.0, r.3) h.1)
    | inl e ↦
        let same : mid ≡ k = (eq_iff mid k).0 e in
        let p = IsStored-reprobe_paused now k s h in
        let q = IsStored-flush_due now session error send (reprobe_paused now k s) f p in
        rw (flush_entry, same)
          (own (is_marked k s || phase_at k s == "consumed")
            (wants_attempt now k (reprobe_paused now k s)) p q)
  ]
    where
      own :
          (t u : Bool)
          → IsStored k (reprobe_paused now k s)
          → IsStored k (flush_due now session send k (reprobe_paused now k s)).0
          → IsStored k
              (if t
                then (s, false)
                else if u
                then flush_due now session send k (reprobe_paused now k s)
                else (reprobe_paused now k s, false)).0
      own true u p q = h
      own false true p q = q
      own false false p q = p

  pub IsStored-flush_each :
      (now : ℕ) (session error : String) (send : String → Option String) (mids : List String)
      (s : Outbox)
      → send k ≡ some error
      → IsStored k s
      → IsStored k (flush_each now session send mids s).0
  unfolding flush_each
  IsStored-flush_each now session error send [] s f h = h
  IsStored-flush_each now session error send (mid ∷ mids) s f h =
      IsStored-flush_each now session error send mids (flush_entry now session send mid s).0 f
        (IsStored-flush_entry now session mid error send s f h)
