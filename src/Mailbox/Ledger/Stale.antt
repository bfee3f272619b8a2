-- ===== src/Mailbox/Ledger/Stale.antt =====
-- The watchdog: which requests `find_stale` reports.
use mathlib.Core.List.{
  append-nil, append_assoc, Mem, mem-cons, mem-cons_self, mem-cons_of_mem, mem-append, not-mem-nil,
}
use mathlib.Core.Logic.Or
use mathlib.Core.Logic.{∨₁_prop}
use aimeshchat.Base.{
  ℕ, String, ◌≡◌, refl, ap, Bool, true, false, ◌∙◌, Bool, true, false, Option, none, some, List, [],
  ◌∷◌, ◌++◌, ◌==◌, ◌+◌, ◌<◌, ◌⊎◌, ◌&&◌, ltb, eq_iff, eq_of_test, arith, Bool-cases, Option-cases,
  inl, inr, if◌then◌else◌, any, select, All,
}
use aimeshchat.Base.Table.{Table, lookup, IsKeyed, IsKeyed-insert, IsKeyed-lookup, lookup-insert}
use aimeshchat.Mailbox.Ledger.{
  Ledger, Entry, is_terminal, of_run, entries_of, read_all, read_entries, get_terminal,
  first_terminal, is_terminal, first_overdue, stale_since, add_to_run, group_runs, Overdue,
  stale_runs, find_stale,
}

-- What `setdefault(…).append(…)` leaves under a key, from what was there and what is appended.
abbrev extend : Option (List Entry) → List Entry → Option (List Entry)
extend none [] = none
extend none (e ∷ es) = some (e ∷ es)
extend (some es) new = some (es ++ new)

extend-extend :
    (o : Option (List Entry)) (e : Entry) (es : List Entry)
    → extend (some (entries_of o ++ e ∷ [])) es ≡ extend o (e ∷ es)
extend-extend none e es = refl
extend-extend (some ds) e es = ap some (append_assoc ds (e ∷ []) es)

extend-nil : (o : Option (List Entry)) → extend o [] ≡ o
extend-nil none = refl
extend-nil (some es) = ap some (append-nil es)

lookup-add_to_run :
    (r : String) (t : Table (List Entry)) (e : Entry)
    → lookup r (add_to_run t e)
      ≡ (if e.run_id == r then some (entries_of (lookup r t) ++ e ∷ []) else lookup r t)
unfolding add_to_run
lookup-add_to_run r t e = ground (
  arith,
  eq_iff e.run_id r,
  lookup-insert e.run_id r (entries_of (lookup e.run_id t) ++ e ∷ []) t,
)

lookup-group_runs :
    (r : String) (t : Table (List Entry)) (es : List Entry)
    → lookup r (group_runs t es) ≡ extend (lookup r t) (select (of_run r) es)
unfolding group_runs select
lookup-group_runs r t [] = rw extend-nil
lookup-group_runs r t (e ∷ es) = elim (Bool-cases (e.run_id == r)) [
  | inl p ↦
      rw (lookup-group_runs r (add_to_run t e) es, lookup-add_to_run r t e, p)
        (extend-extend (lookup r t) e (select (of_run r) es))
  | inr p ↦ rw (lookup-group_runs r (add_to_run t e) es, lookup-add_to_run r t e, p)
]

IsKeyed-group_runs :
    (t : Table (List Entry)) (es : List Entry) → IsKeyed t → IsKeyed (group_runs t es)
unfolding group_runs
IsKeyed-group_runs t [] u = u
IsKeyed-group_runs t (e ∷ es) u = IsKeyed-group_runs (add_to_run t e) es (IsKeyed-insert _ _ t u)

extend-some : (es : List Entry) (ds : List Entry) → extend none es ≡ some ds → es ≡ ds
extend-some [] ds h = cc
extend-some (e ∷ es) ds h = cc

lookup-groups :
    (l : Ledger) (q r : String) (es : List Entry)
    → lookup r (group_runs [] (read_all l q)) ≡ some es
    → read_entries l q r ≡ es
unfolding read_entries lookup
lookup-groups l q r es h =
    extend-some (select (of_run r) (read_all l q)) es
      (rw (lookup-group_runs r [] (read_all l q)) at h)

-- An ACKED entry that is older than the limit.
abbrev pub IsLate : ℕ → ℕ → Entry → Type 0
IsLate now sla e = (e.event ≡ "ACKED") × (e.ts + sla < now)

-- The first of these entries that is late has this time.
abbrev pub FirstLate : ℕ → ℕ → ℕ → List Entry → Type 0
FirstLate now sla ts [] = ⊥
FirstLate now sla ts (e ∷ es) =
    (IsLate now sla e × (e.ts ≡ ts)) ⊎ (¬ IsLate now sla e × FirstLate now sla ts es)

-- The run that a report names has no terminal state, and the report gives the time of its first late
-- entry.
abbrev pub IsDue : ℕ → ℕ → Ledger → Overdue → Type 0
IsDue now sla l o =
    (get_terminal l o.request_id o.run_id ≡ none)
    × FirstLate now sla o.acked_ts (read_entries l o.request_id o.run_id)

first_overdue-FirstLate :
    (now sla ts : ℕ) (es : List Entry)
    → first_overdue now sla es ≡ some ts
    → FirstLate now sla ts es
unfolding first_overdue
first_overdue-FirstLate now sla ts [] h = absurd (ground arith)
first_overdue-FirstLate now sla ts (e ∷ es) h =
    elim (Bool-cases ((e.event == "ACKED") && ltb (e.ts + sla) now)) [
      | inl p ↦ inl ((ground (arith, eq_iff e.event "ACKED"), ground arith), ground arith)
      | inr p ↦ inr (
        λ late. ground (arith, eq_iff e.event "ACKED", late.0, late.1),
        first_overdue-FirstLate now sla ts es (ground arith),
      )
    ]

FirstLate-first_overdue :
    (now sla ts : ℕ) (es : List Entry)
    → FirstLate now sla ts es
    → first_overdue now sla es ≡ some ts
unfolding first_overdue
FirstLate-first_overdue now sla ts [] h = absurd h
FirstLate-first_overdue now sla ts (e ∷ es) (inl h) =
    ground (arith, eq_iff e.event "ACKED", h.0.0, h.0.1, h.1)
FirstLate-first_overdue now sla ts (e ∷ es) (inr h) =
    elim (Bool-cases ((e.event == "ACKED") && ltb (e.ts + sla) now)) [
      | inl p ↦ absurd (h.0 (ground (arith, eq_iff e.event "ACKED"), ground arith))
      | inr p ↦ ground (arith, FirstLate-first_overdue now sla ts es h.1)
    ]

open_iff :
    (es : List Entry)
    → any (λ e. is_terminal e.event) es
      ≡ (elim (first_terminal es) as (λ _. Bool) [ none ↦ false | some _ ↦ true ])
unfolding any first_terminal
open_iff [] = refl
open_iff (e ∷ es) = ground (arith, open_iff es)

IsDue-of_stale :
    (now sla : ℕ) (l : Ledger) (q r : String) (ts : ℕ)
    → stale_since now sla (read_entries l q r) ≡ some ts
    → IsDue now sla l (record { request_id = q; run_id = r; acked_ts = ts })
unfolding stale_since get_terminal
IsDue-of_stale now sla l q r ts h =
    let es = read_entries l q r in
    (
      ground (arith, open_iff es),
      first_overdue-FirstLate now sla ts es (ground (arith, open_iff es)),
    )

stale_of_due :
    (now sla : ℕ) (l : Ledger) (q r : String) (ts : ℕ)
    → IsDue now sla l (record { request_id = q; run_id = r; acked_ts = ts })
    → stale_since now sla (read_entries l q r) ≡ some ts
unfolding stale_since get_terminal
stale_of_due now sla l q r ts h =
    let es = read_entries l q r in
    let unfinished = h.0 in
    let late = FirstLate-first_overdue now sla ts es h.1 in ground (arith, open_iff es)

module _ (now sla : ℕ) (l : Ledger) (q : String) where
  abbrev FromLog : String × List Entry → Type 0
  FromLog (r, es) = read_entries l q r ≡ es

  stale_runs-IsDue :
      (t : Table (List Entry)) → All FromLog t → All (IsDue now sla l) (stale_runs now sla q t)
  unfolding stale_runs
  stale_runs-IsDue [] h = tt
  stale_runs-IsDue ((r, es) ∷ t) h = elim (Option-cases (stale_since now sla es)) [
    | inl e ↦ rw (e, stale_runs) (stale_runs-IsDue t h.1)
    | inr (ts, e) ↦
        rw (e, stale_runs) (IsDue-of_stale now sla l q r ts (rw h.0 e), stale_runs-IsDue t h.1)
  ]

  FromLog-groups :
      (t : Table (List Entry))
      → All (λ (r, es). lookup r (group_runs [] (read_all l q)) ≡ some es) t
      → All FromLog t
  FromLog-groups [] h = tt
  FromLog-groups ((r, es) ∷ t) h = (lookup-groups l q r es h.0, FromLog-groups t h.1)

  group_runs-FromLog : All FromLog (group_runs [] (read_all l q))
  group_runs-FromLog = FromLog-groups _ (IsKeyed-lookup _ (IsKeyed-group_runs [] (read_all l q) tt))

All-append {ℓ} :
    {A : Type ℓ} (P : A → Type 0) (xs ys : List A) → All P xs → All P ys → All P (xs ++ ys)
All-append P [] ys h k = k
All-append P (x ∷ xs) ys h k = (h.0, All-append P xs ys h.1 k)

-- Every report of `find_stale` is due: the run that it names has no terminal entry, and its first
-- ACKED entry older than the limit was written at the time that it gives.
find_stale-IsDue :
    (now sla : ℕ) (l : Ledger) (qs : List String) → All (IsDue now sla l) (find_stale now sla l qs)
unfolding find_stale
find_stale-IsDue now sla l [] = tt
find_stale-IsDue now sla l (q ∷ qs) =
    All-append (IsDue now sla l) (stale_runs now sla q (group_runs [] (read_all l q))) _
      (stale_runs-IsDue now sla l q _ (group_runs-FromLog now sla l q))
      (find_stale-IsDue now sla l qs)

abbrev pub report : String → String → ℕ → Overdue
report q r ts = record { request_id = q; run_id = r; acked_ts = ts }

stale_runs-mem :
    (now sla : ℕ) (q r : String) (es : List Entry) (ts : ℕ) (t : Table (List Entry))
    → lookup r t ≡ some es
    → stale_since now sla es ≡ some ts
    → Mem (report q r ts) (stale_runs now sla q t)
unfolding stale_runs lookup
stale_runs-mem now sla q r es ts [] h d = cc
stale_runs-mem now sla q r es ts ((j, fs) ∷ t) h d = elim (Bool-cases (j == r)) [
  | inl p ↦
      let e : stale_since now sla fs ≡ some ts = ground (arith, rw p at h) in
      rw (e, stale_runs) (rw (eq_of_test j r p) mem-cons_self)
  | inr p ↦
      let later = stale_runs-mem now sla q r es ts t (rw p at h) d in
      elim (Option-cases (stale_since now sla fs)) [
        | inl e ↦ rw (e, stale_runs) later
        | inr (_, e) ↦ rw (e, stale_runs) (mem-cons_of_mem _ later)
      ]
]

extend_of_some :
    (es : List Entry) (now sla ts : ℕ) → stale_since now sla es ≡ some ts → extend none es ≡ some es
unfolding stale_since any first_overdue
extend_of_some [] now sla ts h = cc
extend_of_some (e ∷ es) now sla ts h = refl

reported_here :
    (now sla : ℕ) (l : Ledger) (p q r : String) (ts : ℕ)
    → q ≡ p
    → stale_since now sla (read_entries l q r) ≡ some ts
    → Mem (report q r ts) (stale_runs now sla p (group_runs [] (read_all l p)))
unfolding read_entries lookup
reported_here now sla l p q r ts e d = rw (← e) (
    stale_runs-mem now sla q r (read_entries l q r) ts _
      (lookup-group_runs r [] (read_all l q) ∙ extend_of_some _ now sla ts d) d)

find_stale-reports :
    (now sla : ℕ) (l : Ledger) (qs : List String) (q r : String) (ts : ℕ)
    → Mem q qs
    → IsDue now sla l (report q r ts)
    → Mem (report q r ts) (find_stale now sla l qs)
unfolding find_stale
find_stale-reports now sla l [] q r ts m d = absurd (not-mem-nil m)
find_stale-reports now sla l (p ∷ qs) q r ts m d = mem-append.1 (
    Or.elim ∨₁_prop (mem-cons.0 m)
      (λ e. Or.inl (reported_here now sla l p q r ts e (stale_of_due now sla l q r ts d)))
      (λ n. Or.inr (find_stale-reports now sla l qs q r ts n d)))

-- `find_stale` reports exactly what is due: every report names a run without terminal entry and gives the
-- time of its first ACKED entry that is older than the limit, and every such run of a request directory
-- that it visits is reported.
pub mem-find_stale :
    (now sla : ℕ) (l : Ledger) (qs : List String)
    → All (IsDue now sla l) (find_stale now sla l qs)
      × ((q r : String) (ts : ℕ)
          → Mem q qs
          → IsDue now sla l (report q r ts)
          → Mem (report q r ts) (find_stale now sla l qs))
mem-find_stale now sla l qs =
    (find_stale-IsDue now sla l qs, λ q r ts. find_stale-reports now sla l qs q r ts)
