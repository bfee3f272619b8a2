-- ===== src/Gateway/Commands/Chain.antt =====
-- How an ack may move a command.
use aimeshchat.Base.{◌<◌, ◌≤◌, ◌≡◌, refl, true, Option, none, some, List, [], ◌∷◌, arith}
use aimeshchat.Gateway.Commands.{
  CmdState, rank, queued, claimed, reviving, triggering, turn_triggered, failed_safe, ambiguous,
  trigger_unknown, contains, cmd_transitions, cmd_ack_chain, index_of, walk_hops, hops_between,
  advance_from, advance_ack_chain,
}

-- One transition that the table allows, and sequences of them.
abbrev pub Allowed : CmdState → CmdState → Type 0
Allowed s t = contains (cmd_transitions s) t ≡ true

abbrev pub Linked : CmdState → List CmdState → CmdState → Type 0
Linked s [] t = Allowed s t
Linked s (m ∷ ms) t = Allowed s m × Linked m ms t

-- `t` comes after `s` among QUEUED, CLAIMED, REVIVING, TRIGGERING and TURN_TRIGGERED.
abbrev pub Ahead : CmdState → CmdState → Type 0
Ahead s t = (rank s < rank t) × (rank t ≤ 4)

abbrev pub AdvanceHolds : CmdState → CmdState → Option (CmdState × List CmdState) → Type 0
AdvanceHolds s t none = ¬ (Ahead s t)
AdvanceHolds s t (some (u, mids)) = Ahead s t × (u ≡ t) × Linked s mids t

-- The chain of acks advances a command from `s` to `t` exactly if `t` comes after `s` on it, and then
-- each state that is passed through is allowed by the table after the one before it.
pub advance_ack_chain-AdvanceHolds : (s t : CmdState) → AdvanceHolds s t (advance_ack_chain s t)
unfolding contains cmd_transitions cmd_ack_chain index_of walk_hops hops_between advance_from
    advance_ack_chain
advance_ack_chain-AdvanceHolds queued claimed = (omega arith, refl, refl)
advance_ack_chain-AdvanceHolds queued reviving = (omega arith, refl, (refl, refl))
advance_ack_chain-AdvanceHolds queued triggering = (omega arith, refl, (refl, (refl, refl)))
advance_ack_chain-AdvanceHolds queued turn_triggered =
    (omega arith, refl, (refl, (refl, (refl, refl))))
advance_ack_chain-AdvanceHolds queued _ = λ h. omega arith
advance_ack_chain-AdvanceHolds claimed reviving = (omega arith, refl, refl)
advance_ack_chain-AdvanceHolds claimed triggering = (omega arith, refl, (refl, refl))
advance_ack_chain-AdvanceHolds claimed turn_triggered = (omega arith, refl, (refl, (refl, refl)))
advance_ack_chain-AdvanceHolds claimed _ = λ h. omega arith
advance_ack_chain-AdvanceHolds reviving triggering = (omega arith, refl, refl)
advance_ack_chain-AdvanceHolds reviving turn_triggered = (omega arith, refl, (refl, refl))
advance_ack_chain-AdvanceHolds reviving _ = λ h. omega arith
advance_ack_chain-AdvanceHolds triggering turn_triggered = (omega arith, refl, refl)
advance_ack_chain-AdvanceHolds triggering _ = λ h. omega arith
advance_ack_chain-AdvanceHolds turn_triggered queued = λ h. omega arith
advance_ack_chain-AdvanceHolds turn_triggered _ = λ h. omega arith
advance_ack_chain-AdvanceHolds failed_safe t = λ h. omega arith
advance_ack_chain-AdvanceHolds ambiguous t = λ h. omega arith
advance_ack_chain-AdvanceHolds trigger_unknown t = λ h. omega arith
