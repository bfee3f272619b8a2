-- ===== src/Gateway/Sweep/Loops.antt =====
-- The loops of a sweep, over the runtimes that the dictionary had when each began.
use aimeshchat.Base.{
  ℕ, String, ◌≡◌, refl, sym, ap, subst, ◌∙◌, Option, none, some, [], ◌∷◌, eq_iff, arith, All,
  if◌then◌else◌, Bool-cases, inl, inr,
}
use aimeshchat.Base.Table.{
  Table, lookup, modify, remove, IsKeyed, lookup-modify, lookup-remove, IsKeyed-modify,
  IsKeyed-remove,
}
use aimeshchat.Gateway.Runtimes.{RuntimeRecord}
use aimeshchat.Gateway.Events.{Draft}
use aimeshchat.Gateway.State.{Gateway, persist_control_state, try_append}
use aimeshchat.Gateway.Register.{Clock}
use aimeshchat.Gateway.Sweep.{
  Limits, is_stopped, goes_offline, goes_dead, taken_offline, taken_dead, put_record, turn_offline,
  sweep_silent, sweep_stale, drop_runtime, sweep_stopped,
}

-- One loop's effect on a record.
abbrev pub silenced : Limits → ℕ → RuntimeRecord → RuntimeRecord
silenced limits now r = if goes_offline limits now r then taken_offline r else r

abbrev pub decayed : Limits → ℕ → RuntimeRecord → RuntimeRecord
decayed limits now r = if goes_dead limits now r then taken_dead r else r

abbrev pub unless_stopped : RuntimeRecord → Option RuntimeRecord
unless_stopped r = if is_stopped r.status then none else some r

-- The rows that a loop goes over are the runtimes' own.
abbrev pub AreIn : Table RuntimeRecord → Table RuntimeRecord → Type 0
AreIn t rows = All (λ (k, r). lookup k t ≡ some r) rows

abbrev pub over :
    (RuntimeRecord → Option RuntimeRecord)
    → Option RuntimeRecord
    → Option RuntimeRecord
    → Option RuntimeRecord
over f none old = old
over f (some r) old = f r

try_append-runtimes : (g : Gateway) (d : Draft) → (try_append g d).runtimes ≡ g.runtimes
unfolding try_append
try_append-runtimes g d = ground arith

turn_offline-runtimes :
    (limits : Limits) (clock : Clock) (g : Gateway) (rid : String) (r : RuntimeRecord)
    → (turn_offline limits clock g rid r).runtimes ≡ modify rid (λ _. taken_offline r) g.runtimes
unfolding turn_offline put_record persist_control_state
turn_offline-runtimes limits clock g rid r =
    try_append-runtimes (put_record rid g (taken_offline r)) _

AreIn-modify :
    (t : Table RuntimeRecord) (rid : String) (r' : RuntimeRecord) (rows : Table RuntimeRecord)
    → lookup rid rows ≡ none
    → AreIn t rows
    → AreIn (modify rid (λ _. r') t) rows
unfolding lookup
AreIn-modify t rid r' [] h a = tt
AreIn-modify t rid r' ((k, r) ∷ rows) h a = (
  ground (arith, eq_iff rid k, eq_iff k rid, lookup-modify rid k (λ _. r') t),
  AreIn-modify t rid r' rows (ground arith) a.1,
)

-- What a loop's writes to one runtime leave, if it goes over the rows after it likewise.
head_reads :
    (f : RuntimeRecord → Option RuntimeRecord) (t : Table RuntimeRecord) (rid : String)
    (r r' : RuntimeRecord) (rows : Table RuntimeRecord) (j : String)
    → lookup rid t ≡ some r
    → lookup rid rows ≡ none
    → f r ≡ some r'
    → over f (lookup j rows) (lookup j (modify rid (λ _. r') t))
      ≡ over f (lookup j ((rid, r) ∷ rows)) (lookup j t)
unfolding lookup
head_reads f t rid r r' rows j there fresh e =
    ground (arith, eq_iff rid j, lookup-modify rid j (λ _. r') t)

skip_reads :
    (f : RuntimeRecord → Option RuntimeRecord) (t : Table RuntimeRecord) (rid : String)
    (r : RuntimeRecord) (rows : Table RuntimeRecord) (j : String)
    → lookup rid t ≡ some r
    → lookup rid rows ≡ none
    → f r ≡ some r
    → over f (lookup j rows) (lookup j t) ≡ over f (lookup j ((rid, r) ∷ rows)) (lookup j t)
unfolding lookup
skip_reads f t rid r rows j there fresh e = ground (arith, eq_iff rid j)

-- A loop keeps the keys, and has this effect on each runtime that it goes over.
abbrev pub Loops :
    (RuntimeRecord → Option RuntimeRecord)
    → Table RuntimeRecord
    → Table RuntimeRecord
    → Table RuntimeRecord
    → Type 0
Loops f rows t t' = IsKeyed t' × ((j : String) → lookup j t' ≡ over f (lookup j rows) (lookup j t))

pub silent-Loops :
    (limits : Limits) (clock : Clock) (rows : Table RuntimeRecord) (g : Gateway)
    → IsKeyed g.runtimes
    → IsKeyed rows
    → AreIn g.runtimes rows
    → Loops
        (λ r. some (silenced limits clock.seconds r))
        rows
        g.runtimes
        (sweep_silent limits clock rows g).0.runtimes
unfolding sweep_silent lookup
silent-Loops limits clock [] g u v a = (u, λ j. refl)
silent-Loops limits clock ((rid, r) ∷ rows) g u v a =
    let f : RuntimeRecord → Option RuntimeRecord = λ x. some (silenced limits clock.seconds x) in
    elim (Bool-cases (goes_offline limits clock.seconds r)) [
      | inl e ↦
          let g' = turn_offline limits clock g rid r in
          let table = turn_offline-runtimes limits clock g rid r in
          let keyed = subst (λ t. IsKeyed t) (sym table) (IsKeyed-modify rid _ g.runtimes u) in
          let within =
            subst (λ t. AreIn t rows) (sym table) (AreIn-modify g.runtimes rid _ rows v.0 a.1) in
          let rest = silent-Loops limits clock rows g' keyed v.1 within in
          rw e (
            rest.0,
            λ j.
                rest.1 j
                ∙ ap (λ t. over f (lookup j rows) (lookup j t)) table
                ∙ head_reads f g.runtimes rid r (taken_offline r) rows j a.0 v.0 (ground arith),
          )
      | inr e ↦
          let rest = silent-Loops limits clock rows g u v.1 a.1 in
          rw e (rest.0, λ j. rest.1 j ∙ skip_reads f g.runtimes rid r rows j a.0 v.0 (ground arith))
    ]

put_runtimes :
    (clock : Clock) (g : Gateway) (rid : String) (r : RuntimeRecord)
    → (persist_control_state clock.utc (put_record rid g r) r).runtimes
      ≡ modify rid (λ _. r) g.runtimes
unfolding put_record persist_control_state
put_runtimes clock g rid r = refl

pub stale-Loops :
    (limits : Limits) (clock : Clock) (rows : Table RuntimeRecord) (g : Gateway)
    → IsKeyed g.runtimes
    → IsKeyed rows
    → AreIn g.runtimes rows
    → Loops
        (λ r. some (decayed limits clock.seconds r))
        rows
        g.runtimes
        (sweep_stale limits clock rows g).runtimes
unfolding sweep_stale lookup
stale-Loops limits clock [] g u v a = (u, λ j. refl)
stale-Loops limits clock ((rid, r) ∷ rows) g u v a =
    let f : RuntimeRecord → Option RuntimeRecord = λ x. some (decayed limits clock.seconds x) in
    elim (Bool-cases (goes_dead limits clock.seconds r)) [
      | inl e ↦
          let g' =
            persist_control_state clock.utc (put_record rid g (taken_dead r)) (taken_dead r) in
          let table = put_runtimes clock g rid (taken_dead r) in
          let keyed = subst (λ t. IsKeyed t) (sym table) (IsKeyed-modify rid _ g.runtimes u) in
          let within =
            subst (λ t. AreIn t rows) (sym table) (AreIn-modify g.runtimes rid _ rows v.0 a.1) in
          let rest = stale-Loops limits clock rows g' keyed v.1 within in
          rw e (
            rest.0,
            λ j.
                rest.1 j
                ∙ ap (λ t. over f (lookup j rows) (lookup j t)) table
                ∙ head_reads f g.runtimes rid r (taken_dead r) rows j a.0 v.0 (ground arith),
          )
      | inr e ↦
          let rest = stale-Loops limits clock rows g u v.1 a.1 in
          rw e (rest.0, λ j. rest.1 j ∙ skip_reads f g.runtimes rid r rows j a.0 v.0 (ground arith))
    ]

AreIn-remove :
    (t : Table RuntimeRecord) (rid : String) (rows : Table RuntimeRecord)
    → lookup rid rows ≡ none
    → AreIn t rows
    → AreIn (remove rid t) rows
unfolding lookup
AreIn-remove t rid [] h a = tt
AreIn-remove t rid ((k, r) ∷ rows) h a = (
  ground (arith, eq_iff rid k, eq_iff k rid, lookup-remove rid k t),
  AreIn-remove t rid rows (ground arith) a.1,
)

drop_reads :
    (t : Table RuntimeRecord) (rid : String) (r : RuntimeRecord) (rows : Table RuntimeRecord)
    (j : String)
    → lookup rid rows ≡ none
    → unless_stopped r ≡ none
    → over unless_stopped (lookup j rows) (lookup j (remove rid t))
      ≡ over unless_stopped (lookup j ((rid, r) ∷ rows)) (lookup j t)
unfolding lookup
drop_reads t rid r rows j fresh e = ground (arith, eq_iff rid j, lookup-remove rid j t)

drop_runtimes : (rid : String) (g : Gateway) → (drop_runtime rid g).runtimes ≡ remove rid g.runtimes
unfolding drop_runtime
drop_runtimes rid g = refl

pub stopped-Loops :
    (rows : Table RuntimeRecord) (g : Gateway)
    → IsKeyed g.runtimes
    → IsKeyed rows
    → AreIn g.runtimes rows
    → Loops unless_stopped rows g.runtimes (sweep_stopped rows g).runtimes
unfolding sweep_stopped lookup
stopped-Loops [] g u v a = (u, λ j. refl)
stopped-Loops ((rid, r) ∷ rows) g u v a = elim (Bool-cases (is_stopped r.status)) [
  | inl e ↦
      let table = drop_runtimes rid g in
      let keyed = subst (λ t. IsKeyed t) (sym table) (IsKeyed-remove rid g.runtimes u) in
      let within =
        subst (λ t. AreIn t rows) (sym table) (AreIn-remove g.runtimes rid rows v.0 a.1) in
      let rest = stopped-Loops rows (drop_runtime rid g) keyed v.1 within in
      rw e (
        rest.0,
        λ j.
            rest.1 j
            ∙ ap (λ t. over unless_stopped (lookup j rows) (lookup j t)) table
            ∙ drop_reads g.runtimes rid r rows j v.0 (ground arith),
      )
  | inr e ↦
      let rest = stopped-Loops rows g u v.1 a.1 in
      rw e (
        rest.0,
        λ j. rest.1 j ∙ skip_reads unless_stopped g.runtimes rid r rows j a.0 v.0 (ground arith),
      )
]
