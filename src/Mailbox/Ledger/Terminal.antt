-- ===== src/Mailbox/Ledger/Terminal.antt =====
-- What one call does to the entries of a run, and to its terminal state.
use mathlib.Core.List.{append-nil}
use aimeshchat.Base.{
  ℕ, ◌≤◌, String, ◌≡◌, refl, true, false, ◌&&◌, Option, none, some, List, [], ◌∷◌, ◌++◌, ◌==◌,
  Bool-cases, inl, inr, eq_iff, arith, count, select, select-append, count-append, if◌then◌else◌,
}
use aimeshchat.Base.Table.{Table, lookup, lookup-insert}
use aimeshchat.Mailbox.Ledger.{
  Ledger, Entry, Line, entry, blank, garbled, is_terminal, lines_of, parse_lines, read_all, of_run,
  read_entries, first_terminal, get_terminal, append_entry, record_locked,
}

abbrev pub entry_of : String → String → String → ℕ → Table String → Entry
entry_of q r event now meta = record {
  request_id = q;
  run_id = r;
  event = event;
  ts = now;
  meta = meta;
}

parse_lines-append :
    (ls : List Line) (e : Entry) → parse_lines (ls ++ entry e ∷ []) ≡ parse_lines ls ++ e ∷ []
unfolding parse_lines
parse_lines-append [] e = refl
parse_lines-append (entry d ∷ ls) e = rw (parse_lines-append ls e)
parse_lines-append (blank ∷ ls) e = parse_lines-append ls e
parse_lines-append (garbled ∷ ls) e = parse_lines-append ls e

-- An append adds one entry to its own run, and to no other.
pub read_entries-append_entry :
    (now : ℕ) (l : Ledger) (q r event : String) (meta : Table String) (q' r' : String)
    → read_entries (append_entry now l q r event meta) q' r' ≡ (
        if (q == q') && (r == r')
        then read_entries l q' r' ++ entry_of q r event now meta ∷ []
        else read_entries l q' r')
unfolding read_entries read_all append_entry select parse_lines
read_entries-append_entry now l q r event meta q' r' =
    let old = lines_of (lookup q l) in
    let new = entry_of q r event now meta in
    ground (
      arith,
      lookup-insert q q' (old ++ entry new ∷ []) l,
      eq_iff q q',
      parse_lines-append old new,
      select-append (of_run r') (parse_lines old) (new ∷ []),
      append-nil (select (of_run r') (parse_lines old)),
    )

-- How many terminal entries a run has.
unfoldable pub terminals : Ledger → String → String → ℕ
terminals l q r = count (λ e. is_terminal e.event) (read_entries l q r)

first_terminal-append :
    (es : List Entry) (e : Entry) (t : String)
    → first_terminal es ≡ some t
    → first_terminal (es ++ e ∷ []) ≡ some t
unfolding first_terminal
first_terminal-append [] e t h = cc
first_terminal-append (d ∷ es) e t h = ground (arith, first_terminal-append es e t)

pub first_terminal-snoc_of_none :
    (es : List Entry) (e : Entry)
    → first_terminal es ≡ none
    → first_terminal (es ++ e ∷ []) ≡ (if is_terminal e.event then some e.event else none)
unfolding first_terminal
first_terminal-snoc_of_none [] e h = refl
first_terminal-snoc_of_none (d ∷ es) e h = ground (arith, first_terminal-snoc_of_none es e)

no_terminals :
    (es : List Entry) → first_terminal es ≡ none → count (λ e. is_terminal e.event) es ≡ 0
unfolding first_terminal count
no_terminals [] h = refl
no_terminals (e ∷ es) h = ground (arith, no_terminals es)

-- One call leaves the log as it is, or appends an entry that is terminal only in a run that has no
-- terminal state yet.
pub data Appends (l : Ledger) : Ledger → Type 0 where
  same : Appends l l
  adds :
      (now : ℕ) (q r event : String) (meta : Table String)
      → (is_terminal event ≡ true → get_terminal l q r ≡ none)
      → Appends l (append_entry now l q r event meta)

-- The state of a finished run is never taken back.
pub Appends-get_terminal :
    {l l' : Ledger} (q r t : String)
    → Appends l l'
    → get_terminal l q r ≡ some t
    → get_terminal l' q r ≡ some t
unfolding get_terminal
Appends-get_terminal q r t same h = h
Appends-get_terminal {l} q r t (adds now q' r' event meta only) h = ground (
  arith,
  read_entries-append_entry now l q' r' event meta q r,
  first_terminal-append (read_entries l q r) (entry_of q' r' event now meta) t,
)

pub Appends-terminals :
    {l l' : Ledger} (q r : String) → Appends l l' → terminals l q r ≤ 1 → terminals l' q r ≤ 1
unfolding get_terminal terminals count
Appends-terminals q r same h = h
Appends-terminals {l} q r (adds now q' r' event meta only) h = ground (
  arith,
  eq_iff q' q,
  eq_iff r' r,
  read_entries-append_entry now l q' r' event meta q r,
  no_terminals (read_entries l q r),
  count-append (λ e. is_terminal e.event) (read_entries l q r) (entry_of q' r' event now meta ∷ []),
)

-- A finished run takes no further terminal entry.
pub Appends-keeps_terminals :
    {l l' : Ledger} (q r t : String)
    → Appends l l'
    → get_terminal l q r ≡ some t
    → terminals l' q r ≡ terminals l q r
unfolding terminals count
Appends-keeps_terminals q r t same h = refl
Appends-keeps_terminals {l} q r t (adds now q' r' event meta only) h = ground (
  arith,
  eq_iff q' q,
  eq_iff r' r,
  read_entries-append_entry now l q' r' event meta q r,
  count-append (λ e. is_terminal e.event) (read_entries l q r) (entry_of q' r' event now meta ∷ []),
)

conflict_not_terminal : is_terminal "PROTOCOL_CONFLICT" ≡ false
unfolding is_terminal
conflict_not_terminal = refl

pub record_locked-Appends :
    (now : ℕ) (l : Ledger) (q r event : String) (meta : Table String) (o : Option String)
    → get_terminal l q r ≡ o
    → Appends l (record_locked now l q r event meta o).0
unfolding record_locked
record_locked-Appends now l q r event meta none h = adds now q r event meta (λ _. h)
record_locked-Appends now l q r event meta (some t) h = elim (Bool-cases (is_terminal event)) [
  | inl e ↦ rw e (adds now q r "PROTOCOL_CONFLICT" _ (λ f. cc conflict_not_terminal))
  | inr e ↦ rw e (adds now q r event meta (λ f. cc))
]
