-- ===== src/Mailbox/Ledger/Verdicts.antt =====
-- The answer of `record_artifact_verdict`.
use aimeshchat.Base.{
  ℕ, String, ◌≡◌, refl, Bool, true, false, Option, none, some, List, [], ◌∷◌, ◌==◌, eq_refl, arith,
  test_of_ne, Bool-cases, inl, inr, if◌then◌else◌, Result, ok, err, ◌>>=◌,
}
use aimeshchat.Base.Table.{Table}
use aimeshchat.Mailbox.Protocol.{path_component_ok}
use aimeshchat.Mailbox.Ledger.{
  Ledger, Entry, LedgerError, is_terminal, get_terminal, first_terminal, read_entries,
  record_locked, record_event, Verdict, verdict_of, record_artifact_verdict,
}
use aimeshchat.Mailbox.Ledger.Terminal.{
  Appends-get_terminal, record_locked-Appends, read_entries-append_entry, entry_of,
  first_terminal-snoc_of_none,
}

abbrev is_none {ℓ} : {A : Type ℓ} → Option A → Bool
is_none none = true
is_none (some a) = false

-- What an answer for a run of `l` promises; an error is raised for an unsafe request id alone.
abbrev pub IsTruthful : Ledger → String → String → Result LedgerError (Ledger × Verdict) → Type 0
IsTruthful l q r (ok (l', d)) =
    (get_terminal l' q r ≡ some d.terminal) × (d.cas ≡ is_none (get_terminal l q r))
IsTruthful l q r (err e) = path_component_ok q ≡ false

first_terminal-is_terminal :
    (es : List Entry) (t : String) → first_terminal es ≡ some t → is_terminal t ≡ true
unfolding first_terminal
first_terminal-is_terminal [] t h = cc
first_terminal-is_terminal (e ∷ es) t h = ground (arith, first_terminal-is_terminal es t)

empty_not_terminal : is_terminal "" ≡ false
unfolding is_terminal
empty_not_terminal = refl

terminal_not_empty : (t : String) → is_terminal t ≡ true → (t == "") ≡ false
terminal_not_empty t h = test_of_ne t "" (λ e. cc empty_not_terminal)

-- A refused append: the existing state is reported.
refused :
    (l l' : Ledger) (q r state t : String)
    → get_terminal l q r ≡ some t
    → get_terminal l' q r ≡ some t
    → (t == "") ≡ false
    → IsTruthful l q r (ok (verdict_of q r state (l', false)))
unfolding verdict_of
refused l l' q r state t h k e = rw (h, k) (ground arith)

module _ (now : ℕ) (l : Ledger) (q r state : String) (meta : Table String)
    (final : is_terminal state ≡ true) where
  verdict_of-IsTruthful :
      (o : Option String)
      → get_terminal l q r ≡ o
      → IsTruthful l q r (ok (verdict_of q r state (record_locked now l q r state meta o)))
  unfolding verdict_of record_locked
  verdict_of-IsTruthful none h = rw h (
      unfold get_terminal in
      ground (
        arith,
        read_entries-append_entry now l q r state meta q r,
        eq_refl q,
        eq_refl r,
        first_terminal-snoc_of_none (read_entries l q r) (entry_of q r state now meta) h,
      ))
  verdict_of-IsTruthful (some t) h =
      let kept =
        Appends-get_terminal q r t (record_locked-Appends now l q r state meta (some t) h) h in
      rw final (refused l _ q r state t h (rw final at kept) (terminal_not_empty t (still h)))
    where
      still : get_terminal l q r ≡ some t → is_terminal t ≡ true
      still e = unfold get_terminal in first_terminal-is_terminal (read_entries l q r) t e

  record_event-IsTruthful :
      IsTruthful l q r (record_event now l q r state meta >>= λ x. ok (verdict_of q r state x))
  unfolding record_event
  record_event-IsTruthful = elim (Bool-cases (path_component_ok q)) [
    | inl e ↦ rw e (verdict_of-IsTruthful (get_terminal l q r) refl)
    | inr e ↦ rw e e
  ]

verified_state : (b : Bool) → is_terminal (if b then "DONE" else "BLOCKED") ≡ true
unfolding is_terminal
verified_state true = refl
verified_state false = refl

-- An artifact verdict raises for an unsafe request id alone. Otherwise the state that it reports is
-- the terminal state of the run afterwards, and `cas` says whether the run had none before.
pub record_artifact_verdict-IsTruthful :
    (now : ℕ) (l : Ledger) (q r : String) (verified : Bool)
    → IsTruthful l q r (record_artifact_verdict now l q r verified)
unfolding record_artifact_verdict
record_artifact_verdict-IsTruthful now l q r verified =
    record_event-IsTruthful now l q r _ _ (verified_state verified)
