-- ===== src/Gateway/Acks/Welcome.antt =====
-- Which acks get through.
use aimeshchat.Base.{
  ℕ, ◌≤◌, String, ◌≡◌, ◌≢◌, ◌⊎◌, refl, true, Option, none, some, List, eq_iff, eq_refl, test_of_ne,
  arith, Bool-cases, inl, inr, ok,
}
use aimeshchat.Gateway.Model.{Answer}
use aimeshchat.Gateway.Commands.{CmdState, contains, cmd_transitions, advance_ack_chain}
use aimeshchat.Gateway.Commands.Chain.{Allowed, Ahead, AdvanceHolds, advance_ack_chain-AdvanceHolds}
use aimeshchat.Gateway.Control.{Control, Command, Update, get_command, has_sets, set_columns}
use aimeshchat.Gateway.Control.Rows.{get_command-update_command}
use aimeshchat.Gateway.Acks.Accepted.{MayAck}
use aimeshchat.Gateway.Acks.{
  Ack, Reply, GenerationParam, absent, malformed, given, check_generation, ack_write, ack_row,
  plan_ack, finish_ack, command_result, result_for, runtime_command_ack,
}

abbrev pub Planned : Answer Update → Type 0
Planned plan = (u : Update) × (plan ≡ ok u) × (has_sets u ≡ true)

pub write_accepts :
    (now turn_id : String) (t : CmdState) (row : Command) (o : Option (CmdState × List CmdState))
    → advance_ack_chain row.state t ≡ o
    → AdvanceHolds row.state t o
    → Allowed row.state t ⊎ Ahead row.state t
    → Planned (ack_write now turn_id t row)
unfolding ack_write has_sets
write_accepts now turn_id t row none e h (inl d) = rw d (_, refl, refl)
write_accepts now turn_id t row none e h (inr w) = absurd (h w)
write_accepts now turn_id t row (some (f, mids)) e h w =
    elim (Bool-cases (contains (cmd_transitions row.state) t)) [
      | inl d ↦ rw d (_, refl, refl)
      | inr d ↦ rw (d, e) (_, refl, refl)
    ]

check_passes :
    (g : GenerationParam) (row : Command)
    → g ≢ malformed
    → ((n : ℕ) → g ≡ given n → row.generation ≤ n)
    → check_generation g row ≡ ok tt
unfolding check_generation
check_passes absent row m h = refl
check_passes malformed row m h = absurd (m refl)
check_passes (given n) row m h = ground (arith, h n refl)

pub row_accepts :
    (now : String) (a : Ack) (t : CmdState) (row : Command)
    → MayAck a row
    → Planned (ack_write now a.turn_id t row)
    → Planned (ack_row now a t row)
unfolding ack_row
row_accepts now a t row (owner, m, h) (u, p, s) = (
  u,
  ground (
    arith,
    check_passes a.generation row m h,
    eq_iff a.runtime_id "",
    eq_iff a.runtime_id row.runtime_id,
    owner,
  ),
  s,
)

-- An ack with a request id, for a command that is there and that it may speak for, gets through if the
-- table allows its state after the command's, or the chain of acks has it further on.
pub runtime_command_ack-accepts :
    (now : String) (c : Control) (a : Ack) (t : CmdState) (row : Command)
    → a.request_id ≢ ""
    → a.state ≡ some t
    → get_command c a.request_id ≡ some row
    → MayAck a row
    → Allowed row.state t ⊎ Ahead row.state t
    → (reply : Reply) × ((runtime_command_ack now (λ d. d) c a).1 ≡ ok reply)
unfolding runtime_command_ack finish_ack plan_ack result_for
runtime_command_ack-accepts now c a t row ne hs hr may w =
    let (u, p, s) =
      row_accepts now a t row may
        (write_accepts now a.turn_id t row _ refl (advance_ack_chain-AdvanceHolds row.state t) w) in
    (
      command_result (set_columns now u row),
      ground (
        arith,
        test_of_ne a.request_id "" ne,
        get_command-update_command now c a.request_id u a.request_id,
        eq_refl a.request_id,
      ),
    )
