-- ===== src/Gateway/Sweep/Ages.antt =====
-- What a sweep of the gateway makes of each runtime.
use aimeshchat.Base.{
  ℕ, ◌+◌, ◌*◌, ◌<◌, String, ◌≡◌, ◌≢◌, ◌⊎◌, refl, Option, none, some, arith, test_of_ne, ne_of_test,
  true, false, ltb, ◌==◌, Bool-cases, Option-cases, inl, inr, subst, sym,
}
use aimeshchat.Base.Table.{Table, lookup, IsKeyed, IsKeyed-lookup}
use aimeshchat.Gateway.Runtimes.{
  RuntimeRecord, RuntimeStatus, Presence, starting, active, offline, stopped, unknown, alive, stale,
  dead,
}
use aimeshchat.Gateway.State.{Gateway}
use aimeshchat.Gateway.Register.{Clock}
use aimeshchat.Gateway.Sweep.Loops.{
  silenced, decayed, unless_stopped, over, AreIn, silent-Loops, stale-Loops, stopped-Loops,
}
use aimeshchat.Gateway.Sweep.{
  Limits, patience, goes_offline, goes_dead, sweep_silent, sweep_stale, sweep_once, taken_offline,
  is_stale, is_active, is_offline,
}

-- The loops, for one runtime.
abbrev aged : Limits → ℕ → Option RuntimeRecord → Option RuntimeRecord
aged limits now none = none
aged limits now (some r) = unless_stopped (decayed limits now (silenced limits now r))

aged_reads :
    (limits : Limits) (now : ℕ) (o1 o2 o3 o4 : Option RuntimeRecord)
    → o2 ≡ over (λ r. some (silenced limits now r)) o1 o1
    → o3 ≡ over (λ r. some (decayed limits now r)) o2 o2
    → o4 ≡ over unless_stopped o3 o3
    → o4 ≡ aged limits now o1
aged_reads limits now none o2 o3 o4 a b c = cc
aged_reads limits now (some r) none o3 o4 a b c = cc
aged_reads limits now (some r) (some r2) none o4 a b c = cc
aged_reads limits now (some r) (some r2) (some r3) o4 a b c = cc

-- Made less than three minutes ago, by a time that can be read.
abbrev pub IsYoung : Limits → ℕ → RuntimeRecord → Type 0
IsYoung limits now r =
    (r.created_at ≢ "") × (t : ℕ) × (limits.parse_time r.created_at ≡ some t) × (now < t + 180)

-- Nothing was heard of it for longer than `offline_timeout`, or twice that while it is young.
abbrev pub IsSilent : Limits → ℕ → RuntimeRecord → Type 0
IsSilent limits now r =
    (r.last_activity + limits.offline_timeout < now)
    × (IsYoung limits now r → r.last_activity + limits.offline_timeout * 2 < now)

-- Something was heard of it once, longer ago than `dead_timeout`.
abbrev pub IsLost : Limits → ℕ → RuntimeRecord → Type 0
IsLost limits now r = (0 < r.last_activity) × (r.last_activity + limits.dead_timeout < now)

-- What a sweep makes of a runtime, by its status.
pub record Ages (limits : Limits) (now : ℕ) (r : RuntimeRecord) (o : Option RuntimeRecord)
    : Type 0 where
  pub lively : r.status ≡ active → ¬ IsSilent limits now r → o ≡ some r
  pub silent :
      r.status ≡ active
      → IsSilent limits now r
      → ¬ IsLost limits now r
      → o ≡ some (record r { status = offline; presence = stale })
  pub lost :
      r.status ≡ active
      → IsSilent limits now r
      → IsLost limits now r
      → o ≡ some (record r { status = offline; presence = dead })
  pub dies :
      r.status ≡ offline
      → r.presence ≡ stale
      → IsLost limits now r
      → o ≡ some (record r { presence = dead })
  pub waits : r.status ≡ offline → (r.presence ≢ stale) ⊎ (¬ IsLost limits now r) → o ≡ some r
  pub goes : r.status ≡ stopped → o ≡ none
  pub others : (r.status ≡ starting) ⊎ (r.status ≡ unknown) → o ≡ some r

patience_young :
    (limits : Limits) (now : ℕ) (r : RuntimeRecord)
    → IsYoung limits now r
    → patience limits now r ≡ limits.offline_timeout * 2
unfolding patience
patience_young limits now r (named, t, e, h) =
    ground (arith, test_of_ne r.created_at "" named, e, h)

patience_old :
    (limits : Limits) (now : ℕ) (r : RuntimeRecord)
    → IsYoung limits now r ⊎ (patience limits now r ≡ limits.offline_timeout)
unfolding patience
patience_old limits now r = elim (Bool-cases (r.created_at == "")) [
  | inl e ↦ inr (ground (arith, e))
  | inr e ↦ elim (Option-cases (limits.parse_time r.created_at)) [
    | inl f ↦ inr (rw (patience, e, f) refl)
    | inr (t, f) ↦ elim (Bool-cases (ltb now (t + 180))) [
      | inl h ↦ inl (ne_of_test r.created_at "" e, t, f, ground arith)
      | inr h ↦ inr (rw (patience, e, f) ground (arith, h))
    ]
  ]
]

stale_of_test : (p : Presence) → is_stale p ≡ true → p ≡ stale
stale_of_test alive h = absurd (ground (arith, h))
stale_of_test stale h = refl
stale_of_test dead h = absurd (ground (arith, h))

module _ (limits : Limits) (now : ℕ) (r : RuntimeRecord) where
  goes_offline_of : r.status ≡ active → IsSilent limits now r → goes_offline limits now r ≡ true
  unfolding goes_offline
  goes_offline_of s (long, longer) = elim (patience_old limits now r) [
    | inl y ↦ rw s ground (arith, patience_young limits now r y, longer y)
    | inr e ↦ rw s ground (arith, e, long)
  ]

  goes_offline_unless :
      r.status ≡ active → ¬ IsSilent limits now r → goes_offline limits now r ≡ false
  unfolding goes_offline
  goes_offline_unless s n = elim (Bool-cases (goes_offline limits now r)) [
    | inr e ↦ e
    | inl e ↦
        let past : r.last_activity + patience limits now r < now = ground (arith, rw s at e) in
        absurd (
          n (
            elim (patience_old limits now r) [
              | inl y ↦ omega (arith, patience_young limits now r y)
              | inr p ↦ omega (arith, p)
            ],
            λ y. omega (arith, patience_young limits now r y),
          ))
  ]

  goes_dead_of :
      r.status ≡ offline → r.presence ≡ stale → IsLost limits now r → goes_dead limits now r ≡ true
  unfolding goes_dead
  goes_dead_of s p h = rw (s, p) ground (arith, h.0, h.1)

  goes_dead_unless :
      r.status ≡ offline
      → (r.presence ≢ stale) ⊎ (¬ IsLost limits now r)
      → goes_dead limits now r ≡ false
  unfolding goes_dead
  goes_dead_unless s n = elim (Bool-cases (goes_dead limits now r)) [
    | inr e ↦ e
    | inl e ↦
        let past : (is_stale r.presence ≡ true) × IsLost limits now r =
          (ground (arith, rw s at e), (ground (arith, rw s at e), ground (arith, rw s at e))) in
        absurd (elim n [ inl p ↦ p (stale_of_test r.presence past.0) | inr l ↦ l past.1 ])
  ]

  not_active :
      (x : RuntimeStatus) → r.status ≡ x → is_active x ≡ false → goes_offline limits now r ≡ false
  unfolding goes_offline
  not_active x s e = rw (s, e) refl

  not_offline :
      (x : RuntimeStatus) → r.status ≡ x → is_offline x ≡ false → goes_dead limits now r ≡ false
  unfolding goes_dead
  not_offline x s e = rw (s, e) refl

Ages-aged :
    (limits : Limits) (now : ℕ) (r : RuntimeRecord) → Ages limits now r (aged limits now (some r))
Ages-aged limits now r = record {
  lively = λ s n.
      rw (goes_offline_unless limits now r s n, not_offline limits now r active s refl, s) refl;
  silent = λ s h n.
      rw
        (
          goes_offline_of limits now r s h,
          goes_dead_unless limits now (taken_offline r) refl (inr n),
        )
        refl;
  lost = λ s h l.
      rw (goes_offline_of limits now r s h, goes_dead_of limits now (taken_offline r) refl refl l)
        refl;
  dies =
      λ s p l. rw (not_active limits now r offline s refl, goes_dead_of limits now r s p l, s) refl;
  waits =
      λ s n. rw (not_active limits now r offline s refl, goes_dead_unless limits now r s n, s) refl;
  goes = λ s.
      rw (not_active limits now r stopped s refl, not_offline limits now r stopped s refl, s) refl;
  others = λ h. elim h [
    | inl s ↦
        rw (not_active limits now r starting s refl, not_offline limits now r starting s refl, s)
          refl
    | inr s ↦
        rw (not_active limits now r unknown s refl, not_offline limits now r unknown s refl, s) refl
  ];
}

-- The loops of a sweep come to one function of each runtime.
sweep_once-reads :
    (limits : Limits) (clock : Clock) (g : Gateway)
    → IsKeyed g.runtimes
    → IsKeyed (sweep_once limits clock g).0.runtimes
      × ((j : String)
          → lookup j (sweep_once limits clock g).0.runtimes
            ≡ aged limits clock.seconds (lookup j g.runtimes))
unfolding sweep_once
sweep_once-reads limits clock g u =
    let own : (t : Table RuntimeRecord) → IsKeyed t → AreIn t t = λ t. IsKeyed-lookup t in
    let g1 = (sweep_silent limits clock g.runtimes g).0 in
    let (u1, r1) = silent-Loops limits clock g.runtimes g u u (own g.runtimes u) in
    let g2 = sweep_stale limits clock g1.runtimes g1 in
    let (u2, r2) = stale-Loops limits clock g1.runtimes g1 u1 u1 (own g1.runtimes u1) in
    let (u3, r3) = stopped-Loops g2.runtimes g2 u2 u2 (own g2.runtimes u2) in
    (u3, λ j. aged_reads limits clock.seconds _ _ _ _ (r1 j) (r2 j) (r3 j))

-- The reading of a table, for one runtime.
abbrev pub AgesAt : Limits → ℕ → Option RuntimeRecord → Option RuntimeRecord → Type 0
AgesAt limits now none o = o ≡ none
AgesAt limits now (some r) o = Ages limits now r o

aged-AgesAt :
    (limits : Limits) (now : ℕ) (o : Option RuntimeRecord) → AgesAt limits now o (aged limits now o)
aged-AgesAt limits now none = refl
aged-AgesAt limits now (some r) = Ages-aged limits now r

-- What a sweep makes of every runtime, whatever the others are. An active one that was silent for longer
-- than `offline_timeout`, twice that in its first three minutes, goes offline and is stale; it is dead at
-- once if it was heard of before and that is longer ago than `dead_timeout`, and so is one that was
-- offline and stale. A stopped one is gone. Any other stays as it is. None is added, and each
-- id has one record still.
pub sweep_once-aged :
    (limits : Limits) (clock : Clock) (g : Gateway)
    → IsKeyed g.runtimes
    → IsKeyed (sweep_once limits clock g).0.runtimes
      × ((j : String)
          → AgesAt limits clock.seconds
              (lookup j g.runtimes)
              (lookup j (sweep_once limits clock g).0.runtimes))
sweep_once-aged limits clock g u =
    let (keyed, reads) = sweep_once-reads limits clock g u in
    (
      keyed,
      λ j.
          subst (λ o. AgesAt limits clock.seconds (lookup j g.runtimes) o) (sym (reads j))
            (aged-AgesAt limits clock.seconds (lookup j g.runtimes)),
    )
