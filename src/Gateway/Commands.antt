-- ===== src/Gateway/Commands.antt =====
-- The command state machine of src/codeagent/gateway/service.py: its states, the table of allowed
-- transitions, and the chain along which an ack may skip states.
pub mod Chain
use mathlib.Core.Option
use aimeshchat.Base.{
  ℕ, zero, suc, ◌+◌, ◌-◌, String, Bool, true, false, not, Option, none, some, List, [], ◌∷◌, leb,
  eqb, take, drop, if◌then◌else◌,
}

pub data CmdState : Type 0 where
  queued claimed reviving triggering turn_triggered failed_safe ambiguous trigger_unknown : CmdState

abbrev pub rank : CmdState → ℕ
rank queued = 0
rank claimed = 1
rank reviving = 2
rank triggering = 3
rank turn_triggered = 4
rank failed_safe = 5
rank ambiguous = 6
rank trigger_unknown = 7

-- `a == b` on states.
abbrev pub is_state : CmdState → CmdState → Bool
is_state a b = eqb (rank a) (rank b)

unfoldable pub contains : List CmdState → CmdState → Bool
contains [] s = false
contains (t ∷ ts) s = let rest = contains ts s in if is_state t s then true else rest

-- `CMD_TRANSITIONS`
unfoldable pub cmd_transitions : CmdState → List CmdState
cmd_transitions queued = claimed ∷ failed_safe ∷ ambiguous ∷ []
cmd_transitions claimed = reviving ∷ triggering ∷ failed_safe ∷ ambiguous ∷ []
cmd_transitions reviving = triggering ∷ failed_safe ∷ ambiguous ∷ []
cmd_transitions triggering = turn_triggered ∷ ambiguous ∷ trigger_unknown ∷ []
cmd_transitions turn_triggered = []
cmd_transitions failed_safe = []
cmd_transitions ambiguous = []
cmd_transitions trigger_unknown = []

-- `CMD_ACK_CHAIN`
unfoldable pub cmd_ack_chain : List CmdState
cmd_ack_chain = queued ∷ claimed ∷ reviving ∷ triggering ∷ turn_triggered ∷ []

-- The values of `CMD_STATUS_BY_STATE`, and `binding_pending` of `_command_result`.
pub data Status : Type 0 where
  mailbox_persisted claimed_status session_live ambiguous_status turn_triggered_status : Status
  failed_safe_status binding_pending : Status

unfoldable pub cmd_status_by_state : CmdState → Status
cmd_status_by_state queued = mailbox_persisted
cmd_status_by_state claimed = claimed_status
cmd_status_by_state reviving = session_live
cmd_status_by_state triggering = ambiguous_status
cmd_status_by_state turn_triggered = turn_triggered_status
cmd_status_by_state failed_safe = failed_safe_status
cmd_status_by_state ambiguous = ambiguous_status
cmd_status_by_state trigger_unknown = ambiguous_status

-- `tuple.index`; `none` stands for a state that is not there.
unfoldable pub index_of : List CmdState → CmdState → Option ℕ
index_of [] s = none
index_of (t ∷ ts) s =
    let rest = Option.map suc (index_of ts s) in if is_state t s then some 0 else rest

-- The loop of `_advance_ack_chain` over the hops: the states that are passed through.
unfoldable pub walk_hops : CmdState → CmdState → List CmdState → Option (List CmdState)
walk_hops target src [] = some []
walk_hops target src (hop ∷ hops) =
    let rest = walk_hops target hop hops in
    let passed = Option.map (λ mids. hop ∷ mids) rest in
    if not (contains (cmd_transitions src) hop)
    then none
    else if is_state hop target
    then rest
    else passed

unfoldable pub hops_between : ℕ → ℕ → List CmdState
hops_between i j = take (j - i) (drop (i + 1) cmd_ack_chain)

unfoldable pub advance_from :
    CmdState → CmdState → Option ℕ → Option ℕ → Option (CmdState × List CmdState)
advance_from current target none j = none
advance_from current target (some i) none = none
advance_from current target (some i) (some j) =
    let walked = walk_hops target current (hops_between i j) in
    if leb j i then none else Option.map (λ mids. (target, mids)) walked

-- `_advance_ack_chain`
unfoldable pub advance_ack_chain : CmdState → CmdState → Option (CmdState × List CmdState)
advance_ack_chain current target =
    advance_from current target (index_of cmd_ack_chain current) (index_of cmd_ack_chain target)
