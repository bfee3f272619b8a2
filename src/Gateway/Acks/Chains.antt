-- ===== src/Gateway/Acks/Chains.antt =====
-- The way of a command under acks: which acks get through, and where a sequence of them can lead.
use aimeshchat.Base.{
  String, ◌≡◌, sym, subst, some, List, [], ◌∷◌, ◌==◌, eq_refl, eq_of_test, arith, Bool-cases, inl,
  inr, ok, err,
}
use aimeshchat.Gateway.Model.{Answer}
use aimeshchat.Gateway.Commands.{CmdState, contains, cmd_transitions}
use aimeshchat.Gateway.Commands.Chain.{Allowed, Linked}
use aimeshchat.Gateway.Control.{Control, Command, get_command}
use aimeshchat.Gateway.Acks.Accepted.{AckHolds, IsAccepted, runtime_command_ack-AckHolds}
use aimeshchat.Gateway.Acks.{Ack, Reply, runtime_command_ack}

-- The states that the table's transitions lead to.
pub data Reaches : CmdState → CmdState → Type 0 where
  here : {s : CmdState} → Reaches s s
  onward : {s t u : CmdState} → Allowed s t → Reaches t u → Reaches s u

Reaches-trans : {s t u : CmdState} → Reaches s t → Reaches t u → Reaches s u
Reaches-trans here q = q
Reaches-trans (onward a p) q = onward a (Reaches-trans p q)

Linked-Reaches :
    (s : CmdState) (mids : List CmdState) (t : CmdState) → Linked s mids t → Reaches s t
Linked-Reaches s [] t a = onward a here
Linked-Reaches s (m ∷ ms) t (a, l) = onward a (Linked-Reaches m ms t l)

-- Acks one after the other, each with its time.
unfoldable pub run_acks : Control → List (String × Ack) → Control
run_acks c [] = c
run_acks c ((now, a) ∷ acks) = run_acks (runtime_command_ack now (λ d. d) c a).0 acks

-- The command is there, in a state that is reached from `s`.
abbrev pub IsOnward : CmdState → Control → String → Type 0
IsOnward s c id = (row : Command) × (get_command c id ≡ some row) × Reaches s row.state

accepted-IsOnward :
    (s : CmdState) (c : Control) (a : Ack) (c' : Control) (reply : Reply) (row : Command)
    → IsAccepted c a c' reply
    → get_command c a.request_id ≡ some row
    → Reaches s row.state
    → IsOnward s c' a.request_id
accepted-IsOnward s c a c' reply row h r q =
    let same : h.before ≡ row = ground (arith, h.was_there) in
    let from : Reaches s h.before.state = subst (λ x. Reaches s x.state) (sym same) q in
    let way = Linked-Reaches h.before.state h.linked.0 h.target h.linked.1 in
    (
      h.later,
      ground (arith, h.is_there a.request_id, eq_refl a.request_id),
      subst (λ x. Reaches s x) (sym h.has_state) (Reaches-trans from way),
    )

IsOnward-ack :
    (s : CmdState) (c : Control) (a : Ack) (id : String) (o : Control × Answer Reply)
    → AckHolds c a o
    → IsOnward s c id
    → IsOnward s o.0 id
IsOnward-ack s c a id (c', err e) h w = subst (λ d. IsOnward s d id) (sym h) w
IsOnward-ack s c a id (c', ok reply) h (row, r, q) = elim (Bool-cases (a.request_id == id)) [
  | inl e ↦
      let same = eq_of_test a.request_id id e in
      subst (λ k. IsOnward s c' k) same
        (accepted-IsOnward s c a c' reply row h
          (subst (λ k. get_command c k ≡ some row) (sym same) r) q)
  | inr e ↦ (row, ground (arith, h.is_there id), q)
]

-- Whatever acks come in one after the other, for this command and for others: the command stays, and
-- its state is reached from the first by transitions of the table.
pub run_acks-IsOnward :
    (s : CmdState) (acks : List (String × Ack)) (c : Control) (id : String)
    → IsOnward s c id
    → IsOnward s (run_acks c acks) id
unfolding run_acks
run_acks-IsOnward s [] c id w = w
run_acks-IsOnward s ((now, a) ∷ acks) c id w =
    run_acks-IsOnward s acks _ id (IsOnward-ack s c a id _ (runtime_command_ack-AckHolds now c a) w)

-- A state with no transition: TURN_TRIGGERED, FAILED_SAFE, AMBIGUOUS and TRIGGER_UNKNOWN.
abbrev pub IsFinal : CmdState → Type 0
IsFinal s = cmd_transitions s ≡ []

final_Linked :
    (s : CmdState) (mids : List CmdState) (t : CmdState) → IsFinal s → ¬ (Linked s mids t)
unfolding contains
final_Linked s [] t f a = ground arith
final_Linked s (m ∷ ms) t f (a, l) = ground arith

final_ack :
    (c : Control) (a : Ack) (id : String) (row : Command) (o : Control × Answer Reply)
    → AckHolds c a o
    → get_command c id ≡ some row
    → IsFinal row.state
    → get_command o.0 id ≡ some row
final_ack c a id row (c', err e) h r f = ground arith
final_ack c a id row (c', ok reply) h r f = elim (Bool-cases (a.request_id == id)) [
  | inl e ↦
      let same = eq_of_test a.request_id id e in
      let was : h.before ≡ row = ground (arith, h.was_there) in
      absurd (final_Linked h.before.state h.linked.0 h.target (ground arith) h.linked.1)
  | inr e ↦ ground (arith, h.is_there id)
]

-- A command in a final state is never changed by an ack again, whatever acks come in.
pub run_acks-final :
    (acks : List (String × Ack)) (c : Control) (id : String) (row : Command)
    → get_command c id ≡ some row
    → IsFinal row.state
    → get_command (run_acks c acks) id ≡ some row
unfolding run_acks
run_acks-final [] c id row r f = r
run_acks-final ((now, a) ∷ acks) c id row r f =
    run_acks-final acks _ id row (final_ack c a id row _ (runtime_command_ack-AckHolds now c a) r f)
      f
