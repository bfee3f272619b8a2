-- ===== src/Mailbox/Ledger/History.antt =====
-- The ledger after any history of calls.
use aimeshchat.Base.{
  ℕ, ◌≤◌, String, ◌≡◌, refl, ◌∙◌, Bool, true, false, Option, none, some, List, [], ◌∷◌, arith,
  Bool-cases, inl, inr, if◌then◌else◌, Result, ok, err, ◌>>=◌, count, select,
}
use aimeshchat.Base.Table.{Table, lookup}
use aimeshchat.Mailbox.Protocol.{Message, path_component_ok}
use aimeshchat.Mailbox.Ledger.{
  Ledger, LedgerError, get_terminal, record_event, noting, apply_progress, guarded, apply_kind,
  apply_message, verdict_of, record_artifact_verdict, parse_lines, read_all, read_entries,
}
use aimeshchat.Mailbox.Ledger.Terminal.{
  terminals, Appends, same, Appends-get_terminal, Appends-terminals, Appends-keeps_terminals,
  record_locked-Appends,
}

-- The calls of the public interface that write.
pub data Call : Type 0 where
  records : (now : ℕ) (request_id run_id event : String) → Table String → Call
  applies : (now : ℕ) → Message → Call
  verifies : (now : ℕ) (request_id run_id : String) → Bool → Call

-- The ledger after a call: unchanged if the call raised.
abbrev pub after {ℓ} : {A : Type ℓ} → Ledger → Result LedgerError (Ledger × A) → Ledger
after l (ok (l', a)) = l'
after l (err e) = l

unfoldable pub step : Ledger → Call → Ledger
step l (records now q r event meta) = after l (record_event now l q r event meta)
step l (applies now m) = after l (apply_message now l m)
step l (verifies now q r verified) = after l (record_artifact_verdict now l q r verified)

unfoldable pub run : Ledger → List Call → Ledger
run l [] = l
run l (c ∷ cs) = run (step l c) cs

-- Whatever the call returns or raises, it appended at most one entry, and a terminal one only to a
-- run without any.
record Leads {A : Type 0} (l : Ledger) (x : Result LedgerError (Ledger × A)) : Type 0 where
  appends : Appends l (after l x)

Leads-record_event :
    (now : ℕ) (l : Ledger) (q r event : String) (meta : Table String)
    → Leads l (record_event now l q r event meta)
unfolding record_event
Leads-record_event now l q r event meta = elim (Bool-cases (path_component_ok q)) [
  | inl e ↦
      rw e
        (record { appends = record_locked-Appends now l q r event meta (get_terminal l q r) refl })
  | inr e ↦ rw e (record { appends = same })
]

Leads-noting :
    (l : Ledger) (name : String) (x : Result LedgerError (Ledger × Bool))
    → Leads l x
    → Leads l (noting name x)
unfolding noting
Leads-noting l name (ok (l', b)) h = record { appends = h.appends }
Leads-noting l name (err e) h = record { appends = h.appends }

module _ {A : Type 0} (l : Ledger) where
  Leads-if :
      (b : Bool) (x y : Result LedgerError (Ledger × A))
      → Leads l x
      → Leads l y
      → Leads l (if b then x else y)
  Leads-if true x y h k = h
  Leads-if false x y h k = k

  Leads-ok : (a : A) → Leads l (ok (l, a))
  Leads-ok a = record { appends = same }

  Leads-guarded :
      (q : String) (x : Result LedgerError (Ledger × A)) → Leads l x → Leads l (guarded q x)
  unfolding guarded
  Leads-guarded q x h = Leads-if (path_component_ok q) x _ h (record { appends = same })

ruleset leads = (Leads-record_event, Leads-noting, Leads-if, Leads-ok, Leads-guarded)

Leads-apply_progress :
    (now : ℕ) (l : Ledger) (m : Message) (o : Option String) → Leads l (apply_progress now l m o)
unfolding apply_progress
Leads-apply_progress now l m none = search leads
Leads-apply_progress now l m (some t) = search leads

Leads-apply_kind : (now : ℕ) (l : Ledger) (m : Message) → Leads l (apply_kind now l m)
unfolding apply_kind
Leads-apply_kind now l m = search (leads, Leads-apply_progress) depth 9

Leads-apply_message : (now : ℕ) (l : Ledger) (m : Message) → Leads l (apply_message now l m)
unfolding apply_message
Leads-apply_message now l m = search (leads, Leads-apply_kind)

Leads-verdict :
    (l : Ledger) (q r state : String) (x : Result LedgerError (Ledger × Bool))
    → Leads l x
    → Leads l (x >>= λ p. ok (verdict_of q r state p))
unfolding verdict_of
Leads-verdict l q r state (ok (l', true)) h = record { appends = h.appends }
Leads-verdict l q r state (ok (l', false)) h = record { appends = h.appends }
Leads-verdict l q r state (err e) h = record { appends = h.appends }

-- Every call appends at most one entry, and a terminal one only to a run without any.
pub step-Appends : (l : Ledger) (c : Call) → Appends l (step l c)
unfolding step record_artifact_verdict
step-Appends l (records now q r event meta) = (Leads-record_event now l q r event meta).appends
step-Appends l (applies now m) = (Leads-apply_message now l m).appends
step-Appends l (verifies now q r verified) =
    (Leads-verdict l q r _ _ (Leads-record_event now l q r _ _)).appends

-- Once a run has a terminal state, no later calls change that state, and none adds a terminal entry to
-- the log of the run.
pub run-get_terminal :
    (l : Ledger) (cs : List Call) (q r t : String)
    → get_terminal l q r ≡ some t
    → (get_terminal (run l cs) q r ≡ some t) × (terminals (run l cs) q r ≡ terminals l q r)
unfolding run
run-get_terminal l [] q r t h = (h, refl)
run-get_terminal l (c ∷ cs) q r t h =
    let appends = step-Appends l c in
    let (state, added) =
      run-get_terminal (step l c) cs q r t (Appends-get_terminal q r t appends h) in
    (state, added ∙ Appends-keeps_terminals q r t appends h)

run-terminals :
    (l : Ledger) (cs : List Call) (q r : String)
    → terminals l q r ≤ 1
    → terminals (run l cs) q r ≤ 1
unfolding run
run-terminals l [] q r h = h
run-terminals l (c ∷ cs) q r h =
    run-terminals (step l c) cs q r (Appends-terminals q r (step-Appends l c) h)

-- After any calls on an empty ledger, the log of a run holds at most one terminal entry.
pub terminals-run-empty : (cs : List Call) (q r : String) → terminals (run [] cs) q r ≤ 1
unfolding terminals read_entries read_all lookup parse_lines select count
terminals-run-empty cs q r = run-terminals [] cs q r (omega arith)
