-- ===== src/Gateway/Acks/Accepted.antt =====
-- What `runtime_command_ack` accepts, and what it then writes.
use aimeshchat.Base.{
  ℕ, ◌≤◌, String, ◌≡◌, refl, subst, true, false, Option, none, some, List, [], ◌==◌, ◌⊎◌, ◌≢◌,
  eq_iff, eq_of_test, eq_refl, arith, if◌then◌else◌, Bool-cases, Option-cases, or_else, inl, inr,
  ok, err,
}
use aimeshchat.Gateway.Model.{Answer}
use aimeshchat.Gateway.Commands.{CmdState, contains, cmd_transitions, advance_ack_chain}
use aimeshchat.Gateway.Commands.Chain.{Linked, AdvanceHolds, advance_ack_chain-AdvanceHolds}
use aimeshchat.Gateway.Control.{
  Control, Command, Update, get_command, update_command, set_columns, has_sets,
}
use aimeshchat.Gateway.Control.Rows.{get_command-update_command}
use aimeshchat.Gateway.Acks.{
  Ack, Reply, malformed, given, command_result, result_for, check_generation, ack_write, ack_row,
  plan_ack, finish_ack, runtime_command_ack,
}

-- A path of allowed transitions from `s` to `t`: its states, but for the first and the last.
abbrev pub PathTo : CmdState → CmdState → Type 0
PathTo s t = (mids : List CmdState) × Linked s mids t

-- The write that an accepted ack plans for a row, for its state `t`.
pub record IsPlanned (a : Ack) (row : Command) (t : CmdState) (u : Update) : Type 0 where
  pub names_state : u.state ≡ some t
  pub keeps_msg_id : u.msg_id ≡ none
  pub keeps_epoch : u.binding_epoch ≡ none
  pub keeps_backend : u.backend_session_id ≡ none
  pub has_turn : u.turn_id ≡ some (or_else a.turn_id row.turn_id)
  pub linked : PathTo row.state t

chain-IsPlanned :
    (now : String) (a : Ack) (t : CmdState) (row : Command) (o : Option (CmdState × List CmdState))
    (u : Update)
    → contains (cmd_transitions row.state) t ≡ false
    → advance_ack_chain row.state t ≡ o
    → AdvanceHolds row.state t o
    → ack_write now a.turn_id t row ≡ ok u
    → IsPlanned a row t u
unfolding ack_write
chain-IsPlanned now a t row none u e ho h w = ground arith
chain-IsPlanned now a t row (some (f, mids)) u e ho (ahead, same, link) w = record {
  names_state = ground arith;
  keeps_msg_id = ground arith;
  keeps_epoch = ground arith;
  keeps_backend = ground arith;
  has_turn = ground arith;
  linked = (mids, link);
}

write-IsPlanned :
    (now : String) (a : Ack) (t : CmdState) (row : Command) (u : Update)
    → ack_write now a.turn_id t row ≡ ok u
    → IsPlanned a row t u
unfolding ack_write
write-IsPlanned now a t row u w = elim (Bool-cases (contains (cmd_transitions row.state) t)) [
  | inl e ↦ record {
    names_state = ground arith;
    keeps_msg_id = ground arith;
    keeps_epoch = ground arith;
    keeps_backend = ground arith;
    has_turn = ground arith;
    linked = ([], e);
  }
  | inr e ↦ chain-IsPlanned now a t row _ u e refl (advance_ack_chain-AdvanceHolds row.state t) w
]

-- The plugin may speak for the row's runtime, and is of its generation or a later one.
abbrev pub MayAck : Ack → Command → Type 0
MayAck a row =
    ((a.runtime_id ≡ "") ⊎ (a.runtime_id ≡ row.runtime_id))
    × (a.generation ≢ malformed)
    × ((n : ℕ) → a.generation ≡ given n → row.generation ≤ n)

pub row-IsPlanned :
    (now : String) (a : Ack) (t : CmdState) (row : Command) (u : Update)
    → ack_row now a t row ≡ ok u
    → MayAck a row × IsPlanned a row t u
unfolding ack_row check_generation
row-IsPlanned now a t row u h = elim (Bool-cases (a.runtime_id == "")) [
  | inl e ↦ (
    (inl (eq_of_test a.runtime_id "" e), ground arith, λ n g. ground arith),
    write-IsPlanned now a t row u (ground arith),
  )
  | inr e ↦ (
    (inr (ground (arith, eq_iff a.runtime_id row.runtime_id)), ground arith, λ n g. ground arith),
    write-IsPlanned now a t row u (ground arith),
  )
]

-- What an accepted ack did: from the row that was there to the row that is there.
pub record IsAccepted (c : Control) (a : Ack) (c' : Control) (reply : Reply) : Type 0 where
  pub before : Command
  pub later : Command
  pub target : CmdState
  pub was_there : get_command c a.request_id ≡ some before
  pub may : MayAck a before
  pub named : a.state ≡ some target
  pub linked : PathTo before.state target
  pub is_there :
      (j : String) → get_command c' j ≡ (if a.request_id == j then some later else get_command c j)
  pub has_state : later.state ≡ target
  pub has_turn : later.turn_id ≡ or_else a.turn_id before.turn_id
  pub keeps : (later.command_id ≡ before.command_id) × (later.payload_hash ≡ before.payload_hash)
  pub keeps_address :
      (later.runtime_id ≡ before.runtime_id) × (later.generation ≡ before.generation)
  pub keeps_message : later.msg_id ≡ before.msg_id
  pub answers : reply ≡ command_result later

abbrev pub AckHolds : Control → Ack → Control × Answer Reply → Type 0
AckHolds c a (c', err e) = c' ≡ c
AckHolds c a (c', ok reply) = IsAccepted c a c' reply

update_read :
    (now : String) (c : Control) (k : String) (u : Update) (row : Command)
    → get_command c k ≡ some row
    → has_sets u ≡ true
    → (j : String)
    → get_command (update_command now c k u) j
      ≡ (if k == j then some (set_columns now u row) else get_command c j)
update_read now c k u row h s j = ground (arith, get_command-update_command now c k u j, eq_iff k j)

AckHolds-ok :
    (c : Control) (a : Ack) (c' : Control) (reply : Reply) (ans : Answer Reply)
    → ok reply ≡ ans
    → IsAccepted c a c' reply
    → AckHolds c a (c', ans)
AckHolds-ok c a c' reply ans e h = subst (λ x. AckHolds c a (c', x)) e h

finish_accepted :
    (now : String) (c : Control) (a : Ack) (t : CmdState) (row : Command) (u : Update)
    → a.state ≡ some t
    → get_command c a.request_id ≡ some row
    → MayAck a row
    → IsPlanned a row t u
    → AckHolds c a (finish_ack now c c a.request_id (ok u))
unfolding finish_ack result_for set_columns has_sets
finish_accepted now c a t row u hs hr may p =
    let read = update_read now c a.request_id u row hr (ground (arith, p.names_state)) in
    AckHolds-ok c a (update_command now c a.request_id u) (command_result (set_columns now u row)) _
      (ground (arith, read a.request_id, eq_refl a.request_id))
      (record {
        before = row;
        later = set_columns now u row;
        target = t;
        was_there = hr;
        may = may;
        named = hs;
        linked = p.linked;
        is_there = read;
        has_state = ground (arith, p.names_state);
        has_turn = ground (arith, p.has_turn);
        keeps = (refl, refl);
        keeps_address = (refl, refl);
        keeps_message = ground (arith, p.keeps_msg_id);
        answers = refl;
      })

plan_found :
    (now : String) (c : Control) (a : Ack) (u : Update)
    → plan_ack now c a ≡ ok u
    → (t : CmdState) × (row : Command) × (a.state ≡ some t)
      × (get_command c a.request_id ≡ some row)
      × (ack_row now a t row ≡ ok u)
unfolding plan_ack
plan_found now c a u h = elim (Option-cases a.state) [
  | inl e ↦ absurd (ground arith)
  | inr (t, e) ↦ elim (Option-cases (get_command c a.request_id)) [
    | inl f ↦ absurd (ground arith)
    | inr (row, f) ↦ (t, row, e, f, ground arith)
  ]
]

ack_cases :
    (now : String) (c : Control) (a : Ack) (plan : Answer Update)
    → plan_ack now c a ≡ plan
    → AckHolds c a (finish_ack now c c a.request_id plan)
unfolding finish_ack
ack_cases now c a (err e) h = refl
ack_cases now c a (ok u) h =
    let (t, row, hs, hr, w) = plan_found now c a u h in
    let (may, p) = row-IsPlanned now a t row u w in finish_accepted now c a t row u hs hr may p

-- An ack that no other call interrupts either raises and changes nothing, or its command was there, it
-- may speak for the command's runtime and generation, and the state that it names is
-- reached from the old one by transitions that the table allows. Then the command has that state and
-- the ack's turn, its other identifiers are as before, no other command is changed, and the
-- answer tells what is stored.
pub runtime_command_ack-AckHolds :
    (now : String) (c : Control) (a : Ack) → AckHolds c a (runtime_command_ack now (λ d. d) c a)
unfolding runtime_command_ack
runtime_command_ack-AckHolds now c a = ack_cases now c a _ refl
