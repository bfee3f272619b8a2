-- ===== src/Swarm/Flush/Calls.antt =====
-- The calls of the engine, and that they keep a message that no send took.
use aimeshchat.Base.{
  ℕ, String, Bool, true, false, ◌&&◌, Option, none, some, List, [], ◌∷◌, ◌==◌, ◌≡◌, refl, arith,
  eq_iff, Bool-cases, Option-cases, inl, inr, if◌then◌else◌, ◌≢◌, ◌⊎◌, test_of_ne,
}
use aimeshchat.Base.Table.{Table, lookup, insert, lookup-insert, lookup-remove, lookup-keep_of_none}
use aimeshchat.Mailbox.Dicts.{Dict, has_key, plain, text}
use aimeshchat.Mailbox.Validate.{text_at}
use aimeshchat.Swarm.Outbox.{Outbox, Receipt, in_outbox, write_status, cached, accepted}
use aimeshchat.Swarm.Flush.{
  flush, entry_names, deliver, deliver_new, deliver_known, sent_or_queued, check_idempotency,
  write_outbox, addressed, stamp_target_host, Answers, ack, acked, msg_id_plain,
  dead_letter_requeue, dead_letter_purge, sweep, swept_entries, is_old_marker,
}
use aimeshchat.Swarm.Flush.Stored.{IsStored, IsStored-if, IsStored-flush_each}

module _ (k : String) where
  -- The calls that write no entry away.
  IsStored-stamp : (mid : String) (s : Outbox) → IsStored k s → IsStored k (stamp_target_host mid s)
  unfolding stamp_target_host
  IsStored-stamp mid s h = stamp (lookup mid s.entries) refl
    where
      stamp :
          (o : Option (Option Dict))
          → lookup mid s.entries ≡ o
          → IsStored k (stamp_target_host mid s)
      stamp none e = rw (stamp_target_host, e) h
      stamp (some none) e = rw (stamp_target_host, e) h
      stamp (some (some d)) e =
          let d' = some (insert "_target_host" (plain (text "__local__")) d) in
          rw (stamp_target_host, e)
            (IsStored-if k (text_at "_target_host" d == "") _ s
              (h.0, ground (arith, h.1, lookup-insert mid k d' s.entries)) h)

  IsStored-ack :
      (now : ℕ) (mid phase : String) (s : Outbox)
      → IsStored k s
      → IsStored k (acked now mid phase s)
  unfolding acked
  IsStored-ack now mid phase s h = IsStored-if k (phase == "consumed") _ _ h h

  IsStored-requeue :
      (now : ℕ) (mid : String) (s : Outbox)
      → IsStored k s
      → IsStored k (dead_letter_requeue now mid s).0
  unfolding dead_letter_requeue
  IsStored-requeue now mid s h = elim (Option-cases (lookup mid s.dead)) [
    | inl e ↦ rw (dead_letter_requeue, e) h
    | inr (d, e) ↦
        rw (dead_letter_requeue, e)
          (
            h.0,
            ground (
              arith,
              h.1,
              e,
              eq_iff mid k,
              lookup-insert mid k d s.entries,
              lookup-remove mid k s.dead,
            ),
          )
  ]

  lookup-swept :
      (t : Table (Option Dict)) (old : String → Bool)
      → old k ≡ false
      → lookup k (swept_entries t old) ≡ lookup k t
  unfolding lookup swept_entries
  lookup-swept [] old h = refl
  lookup-swept ((n, e) ∷ t) old h = elim (Bool-cases (n == k)) [
    | inl f ↦
        let same : n ≡ k = (eq_iff n k).0 f in
        let young : old n ≡ false = rw same h in ground (arith, f, young)
    | inr f ↦ ground (arith, f, lookup-swept t old h)
  ]

  IsStored-sweep :
      (now retention : ℕ) (s : Outbox) → IsStored k s → IsStored k (sweep now retention s)
  unfolding sweep is_old_marker
  IsStored-sweep now retention s h =
      let young : is_old_marker now retention s k ≡ false = rw (is_old_marker, h.0) refl in
      (
        lookup-keep_of_none k _ s.markers h.0,
        rw (has_key, lookup-swept s.entries (is_old_marker now retention s) young) h.1,
      )

  -- A message that is new to the outbox, or another, which is sent or not.
  IsStored-written :
      (mid : String) (d : Dict) (s : Outbox) → IsStored k s → IsStored k (write_outbox mid d s)
  unfolding write_outbox
  IsStored-written mid d s h =
      IsStored-if k (in_outbox mid s) s _ h
        (h.0, ground (arith, h.1, lookup-insert mid k (some d) s.entries))

  IsStored-sent :
      (now : ℕ) (session : String) (local : Bool) (mid : String) (d : Dict) (o : Option String)
      (s : Outbox)
      → (mid == k) ≡ false ⊎ ((e : String) × (o ≡ some e))
      → IsStored k s
      → IsStored k (sent_or_queued now session local mid d o s).0
  unfolding sent_or_queued
  IsStored-sent now session local mid d none s (inl f) h =
      let marked : lookup k (insert mid now s.markers) ≡ none =
        ground (arith, h.0, f, lookup-insert mid k now s.markers) in
      IsStored-if k local _ _ (marked, h.1) (marked, h.1)
  IsStored-sent now session local mid d none s (inr f) h = absurd (ground (arith, f.1))
  IsStored-sent now session local mid d (some error) s f h =
      IsStored-if k local _ _ (IsStored-stamp mid (write_status now mid error s) h) h

  IsStored-new :
      (now : ℕ) (session : String) (local : Bool) (mid : String) (d : Dict) (a : Answers)
      (s : Outbox)
      → (mid == k) ≡ false ⊎ ((e : String) × (a.send_error ≡ some e))
      → IsStored k s
      → IsStored k (deliver_new now session local mid d a s).0
  unfolding deliver_new
  IsStored-new now session local mid d a s f h = elim (Option-cases a.write_error) [
    | inr (error, e) ↦ rw (deliver_new, e) h
    | inl e ↦
        rw (deliver_new, e)
          (IsStored-sent now session local mid d a.send_error
            (cached mid accepted (write_outbox mid d s)) f (IsStored-written mid d s h))
  ]

  IsStored-known :
      (mid : String) (d : Dict) (r : Receipt) (s : Outbox)
      → IsStored k s
      → IsStored k (deliver_known mid d r s).0
  unfolding deliver_known
  IsStored-known mid d r s h =
      IsStored-if k (text_at "_target_host" d == "__local__") _ _
        (IsStored-stamp mid (cached mid r s) h) h

  IsStored-deliver :
      (now : ℕ) (session : String) (local : Bool) (envelope : Dict) (a : Answers) (s : Outbox)
      → (text_at "msg_id" envelope == k) ≡ false ⊎ ((e : String) × (a.send_error ≡ some e))
      → IsStored k s
      → IsStored k (deliver now session local envelope a s).0
  unfolding deliver
  IsStored-deliver now session local envelope a s f h =
      let mid = text_at "msg_id" envelope in
      let d = addressed local envelope in
      elim (Bool-cases (mid == "")) [
        | inl e ↦ rw (deliver, e) h
        | inr e ↦ elim (Option-cases (check_idempotency mid s)) [
          | inl g ↦ rw (deliver, e, g) (IsStored-new now session local mid d a s f h)
          | inr (r, g) ↦ rw (deliver, e, g) (IsStored-known mid d r s h)
        ]
      ]

-- A call of the engine.
pub data Call : Type 0 where
  delivers : ℕ → Bool → Dict → Answers → Call
  flushes : ℕ → (String → Option String) → Call
  acks : ℕ → String → String → Call
  requeues : ℕ → String → Call
  sweeps : ℕ → ℕ → Call
  purges : Call

abbrev pub or_same : Outbox → Option Outbox → Outbox
or_same s none = s
or_same s (some s') = s'

unfoldable pub step : String → Outbox → Call → Outbox
step session s (delivers now local envelope a) = (deliver now session local envelope a s).0
step session s (flushes now send) = (flush now session send s).0
step session s (acks now mid phase) = or_same s (ack now mid phase s)
step session s (requeues now mid) = (dead_letter_requeue now mid s).0
step session s (sweeps now retention) = sweep now retention s
step session s purges = dead_letter_purge s

unfoldable pub run : String → Outbox → List Call → Outbox
run session s [] = s
run session s (c ∷ cs) = run session (step session s c) cs

-- No send takes the message, and no purge finds it among the dead letters.
abbrev pub FailsFor : String → Outbox → Call → Type 0
FailsFor k s (delivers now local envelope a) =
    (text_at "msg_id" envelope == k) ≡ false ⊎ ((e : String) × (a.send_error ≡ some e))
FailsFor k s (flushes now send) = (e : String) × (send k ≡ some e)
FailsFor k s (acks now mid phase) = Unit
FailsFor k s (requeues now mid) = Unit
FailsFor k s (sweeps now retention) = Unit
FailsFor k s purges = has_key s.dead k ≡ false

abbrev pub AllFail : String → String → Outbox → List Call → Type 0
AllFail session k s [] = Unit
AllFail session k s (c ∷ cs) = FailsFor k s c × AllFail session k (step session s c) cs

IsStored-purge :
    (k : String) (s : Outbox)
    → has_key s.dead k ≡ false
    → IsStored k s
    → IsStored k (dead_letter_purge s)
unfolding dead_letter_purge
IsStored-purge k s e h = (h.0, ground (arith, e, h.1))

IsStored-step :
    (session k : String) (s : Outbox) (c : Call)
    → FailsFor k s c
    → IsStored k s
    → IsStored k (step session s c)
unfolding step flush ack
IsStored-step session k s (delivers now local envelope a) f h =
    IsStored-deliver k now session local envelope a s f h
IsStored-step session k s (flushes now send) f h =
    IsStored-flush_each k now session f.0 send (entry_names s.entries) s f.1 h
IsStored-step session k s (acks now mid phase) f h =
    elim (Bool-cases (msg_id_plain mid && in_outbox mid s)) [
      | inl e ↦ rw (ack, e) (IsStored-ack k now mid phase s h)
      | inr e ↦ rw (ack, e) h
    ]
IsStored-step session k s (requeues now mid) f h = IsStored-requeue k now mid s h
IsStored-step session k s (sweeps now retention) f h = IsStored-sweep k now retention s h
IsStored-step session k s purges f h = IsStored-purge k s f h

-- A message that is stored, in the outbox or among the dead letters and not marked as delivered,
-- stays stored through any calls of deliver, flush, ack, requeue, sweep and purge, at any times and for
-- any messages, as long as no send of it succeeds and no purge comes while it is a dead letter.
pub run-IsStored :
    (session k : String) (cs : List Call) (s : Outbox)
    → AllFail session k s cs
    → IsStored k s
    → IsStored k (run session s cs)
unfolding run
run-IsStored session k [] s f h = h
run-IsStored session k (c ∷ cs) s f h =
    run-IsStored session k cs (step session s c) f.1 (IsStored-step session k s c f.0 h)

-- What a delivery puts into the outbox before it sends.
module _ (mid : String) where
  kept-if :
      (t : Bool) (a b : Outbox)
      → in_outbox mid a ≡ true
      → in_outbox mid b ≡ true
      → in_outbox mid (if t then a else b) ≡ true
  kept-if true a b h g = h
  kept-if false a b h g = g

  kept-stamp :
      (s : Outbox) → in_outbox mid s ≡ true → in_outbox mid (stamp_target_host mid s) ≡ true
  unfolding stamp_target_host
  kept-stamp s h = stamp (lookup mid s.entries) refl
    where
      stamp :
          (o : Option (Option Dict))
          → lookup mid s.entries ≡ o
          → in_outbox mid (stamp_target_host mid s) ≡ true
      stamp none e = rw (stamp_target_host, e) h
      stamp (some none) e = rw (stamp_target_host, e) h
      stamp (some (some d)) e =
          let d' = some (insert "_target_host" (plain (text "__local__")) d) in
          rw (stamp_target_host, e)
            (kept-if (text_at "_target_host" d == "") _ s
              (ground (arith, lookup-insert mid mid d' s.entries, eq_iff mid mid)) h)

  kept-sent :
      (now : ℕ) (session : String) (local : Bool) (d : Dict) (o : Option String) (s : Outbox)
      → in_outbox mid s ≡ true
      → in_outbox mid (sent_or_queued now session local mid d o s).0 ≡ true
  unfolding sent_or_queued
  kept-sent now session local d none s h = kept-if local _ _ h h
  kept-sent now session local d (some error) s h =
      kept-if local _ _ (kept-stamp (write_status now mid error s) h) h

  kept-written : (d : Dict) (s : Outbox) → in_outbox mid (write_outbox mid d s) ≡ true
  unfolding write_outbox
  kept-written d s = elim (Bool-cases (in_outbox mid s)) [
    | inl e ↦ rw (write_outbox, e) e
    | inr e ↦
        rw (write_outbox, e) ground
          (arith, lookup-insert mid mid (some d) s.entries, eq_iff mid mid)
  ]

-- A message that is new to the engine is in the outbox after its delivery, whatever the transport
-- answers, unless the outbox could not be written.
pub deliver-stores :
    (now : ℕ) (session : String) (local : Bool) (envelope : Dict) (a : Answers) (s : Outbox)
    → text_at "msg_id" envelope ≢ ""
    → check_idempotency (text_at "msg_id" envelope) s ≡ none
    → a.write_error ≡ none
    → in_outbox (text_at "msg_id" envelope) (deliver now session local envelope a s).0 ≡ true
unfolding deliver deliver_new
deliver-stores now session local envelope a s n f g =
    let mid = text_at "msg_id" envelope in
    let d = addressed local envelope in
    rw (deliver, test_of_ne mid "" n, f, deliver_new, g)
      (kept-sent mid now session local d a.send_error (cached mid accepted (write_outbox mid d s))
        (kept-written mid d s))
