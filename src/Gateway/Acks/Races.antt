-- ===== src/Gateway/Acks/Races.antt =====
-- Two acks of one command at the same time: each reads the row before the other has written.
use aimeshchat.Base.{
  String, ◌≡◌, ◌≢◌, ◌⊎◌, refl, subst, sym, some, eq_refl, test_of_ne, ◌∙◌, arith, inr,
}
use aimeshchat.Gateway.Commands.{CmdState, queued, claimed, turn_triggered}
use aimeshchat.Gateway.Commands.Chain.{Allowed, Ahead, advance_ack_chain-AdvanceHolds}
use aimeshchat.Gateway.Control.{Control, Command, get_command, set_columns}
use aimeshchat.Gateway.Control.Rows.{get_command-update_command}
use aimeshchat.Gateway.Acks.Accepted.{MayAck, row-IsPlanned}
use aimeshchat.Gateway.Acks.Welcome.{write_accepts, row_accepts}
use aimeshchat.Gateway.Acks.{Ack, plan_ack, finish_ack, runtime_command_ack}

-- The state that a request id has.
abbrev pub HasState : Control → String → CmdState → Type 0
HasState c id s = (row : Command) × (get_command c id ≡ some row) × (row.state ≡ s)

-- The write goes to what the table holds by then, whatever was read before.
interrupted_ack :
    (now : String) (meanwhile : Control → Control) (c : Control) (a : Ack) (t : CmdState)
    (row other : Command)
    → a.request_id ≢ ""
    → a.state ≡ some t
    → get_command c a.request_id ≡ some row
    → get_command (meanwhile c) a.request_id ≡ some other
    → MayAck a row
    → Allowed row.state t ⊎ Ahead row.state t
    → HasState (runtime_command_ack now meanwhile c a).0 a.request_id t
unfolding runtime_command_ack finish_ack plan_ack set_columns
interrupted_ack now meanwhile c a t row other ne hs hr ho may w =
    let (u, p, s) =
      row_accepts now a t row may
        (write_accepts now a.turn_id t row _ refl (advance_ack_chain-AdvanceHolds row.state t) w) in
    let (_, planned) = row-IsPlanned now a t row u p in
    (
      set_columns now u other,
      ground (
        arith,
        test_of_ne a.request_id "" ne,
        get_command-update_command now (meanwhile c) a.request_id u a.request_id,
        eq_refl a.request_id,
      ),
      ground (arith, planned.names_state),
    )

-- The tables after an ack of another thread.
abbrev pub after_ack : String → Ack → Control → Control
after_ack now b c = (runtime_command_ack now (λ d. d) c b).0

-- A plugin reports TURN_TRIGGERED for a queued command while its CLAIMED for it is between its read and
-- its write. Each may ack the command. The first leaves TURN_TRIGGERED, which is final; then the
-- second puts the command back to CLAIMED.
pub acks_race :
    (now : String) (c : Control) (a b : Ack) (row : Command)
    → a.request_id ≢ ""
    → b.request_id ≡ a.request_id
    → a.state ≡ some claimed
    → b.state ≡ some turn_triggered
    → get_command c a.request_id ≡ some row
    → row.state ≡ queued
    → MayAck a row
    → MayAck b row
    → HasState (after_ack now b c) a.request_id turn_triggered
      × HasState (runtime_command_ack now (after_ack now b) c a).0 a.request_id claimed
acks_race now c a b row ne same hs ht hr hq may_a may_b =
    let turned =
      subst (λ k. HasState (after_ack now b c) k turn_triggered) same
        (interrupted_ack now (λ d. d) c b turn_triggered row row (λ e. ne (sym same ∙ e)) ht
          (subst (λ k. get_command c k ≡ some row) (sym same) hr)
          (subst (λ k. get_command c k ≡ some row) (sym same) hr) may_b
          (inr (ground arith, ground arith))) in
    (
      turned,
      interrupted_ack now (after_ack now b) c a claimed row turned.0 ne hs hr turned.1 may_a
          (inr (ground arith, ground arith)),
    )
