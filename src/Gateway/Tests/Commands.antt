-- ===== src/Gateway/Tests/Commands.antt =====
-- Acks of one command.
use aimeshchat.Base.{String, ◌≡◌, refl, some, List, [], ◌∷◌, inr, ok, ne_of_test, arith}
use aimeshchat.Base.Table.{lookup}
use aimeshchat.Gateway.Commands.{
  CmdState, queued, claimed, turn_triggered, advance_ack_chain, cmd_transitions,
}
use aimeshchat.Gateway.Commands.Chain.{AdvanceHolds, advance_ack_chain-AdvanceHolds}
use aimeshchat.Gateway.Control.{get_command}
use aimeshchat.Gateway.Acks.{Ack, Reply, runtime_command_ack}
use aimeshchat.Gateway.Acks.Accepted.{AckHolds, MayAck, runtime_command_ack-AckHolds}
use aimeshchat.Gateway.Acks.Chains.{here, run_acks, IsOnward, run_acks-IsOnward}
use aimeshchat.Gateway.Acks.Welcome.{runtime_command_ack-accepts}
use aimeshchat.Gateway.Acks.Races.{HasState, after_ack, acks_race}
use aimeshchat.Gateway.Tests.{command, holding, ack}

abbrev acks : List (String × Ack)
acks = ("t1", ack claimed) ∷ ("t2", ack turn_triggered) ∷ []

stored : (s : CmdState) → get_command (holding s) "q1" ≡ some (command s)
unfolding get_command lookup
stored s = refl

may_ack : (s t : CmdState) → MayAck (ack s) (command t)
may_ack s t = (inr refl, (λ e. ground arith), λ n e. ground arith)

turned_final : cmd_transitions turn_triggered ≡ []
unfolding cmd_transitions
turned_final = refl

advance_ack_chain-AdvanceHolds_example :
    AdvanceHolds queued turn_triggered (advance_ack_chain queued turn_triggered)
advance_ack_chain-AdvanceHolds_example = advance_ack_chain-AdvanceHolds queued turn_triggered

runtime_command_ack-AckHolds_example :
    AckHolds
      (holding queued)
      (ack turn_triggered)
      (runtime_command_ack "t1" (λ d. d) (holding queued) (ack turn_triggered))
runtime_command_ack-AckHolds_example =
    runtime_command_ack-AckHolds "t1" (holding queued) (ack turn_triggered)

run_acks-IsOnward_example : IsOnward queued (run_acks (holding queued) acks) "q1"
run_acks-IsOnward_example =
    run_acks-IsOnward queued acks (holding queued) "q1" (command queued, stored queued, here)

runtime_command_ack-accepts_example :
    (reply : Reply) × ((runtime_command_ack "t1" (λ d. d) (holding queued) (ack turn_triggered)).1
      ≡ ok reply)
runtime_command_ack-accepts_example =
    runtime_command_ack-accepts "t1" (holding queued) (ack turn_triggered) turn_triggered
      (command queued) (ne_of_test "q1" "" refl) refl (stored queued)
      (may_ack turn_triggered queued) (inr (omega arith, omega arith))

acks_race_example :
    HasState (after_ack "t1" (ack turn_triggered) (holding queued)) "q1" turn_triggered
    × HasState
        (runtime_command_ack "t1"
          (after_ack "t1" (ack turn_triggered))
          (holding queued)
          (ack claimed)).0
        "q1"
        claimed
acks_race_example =
    acks_race "t1" (holding queued) (ack claimed) (ack turn_triggered) (command queued)
      (ne_of_test "q1" "" refl) refl refl refl (stored queued) refl (may_ack claimed queued)
      (may_ack turn_triggered queued)
