-- ===== src/Gateway/Tests/Runtimes.antt =====
-- Handlers on runtimes and roles.
use aimeshchat.Base.{String, ◌≡◌, refl, true, none, some, List, [], ◌∷◌, all, ne_of_test, arith}
use aimeshchat.Base.Table.{Table, lookup, IsKeyed}
use aimeshchat.Gateway.Commands.{queued}
use aimeshchat.Gateway.Runtimes.{is_digit}
use aimeshchat.Gateway.Control.{empty}
use aimeshchat.Gateway.Events.{Draft}
use aimeshchat.Gateway.State.{Claim}
use aimeshchat.Gateway.Register.{runtime_register}
use aimeshchat.Gateway.Register.Admission.{RegisterHolds, runtime_register-RegisterHolds}
use aimeshchat.Gateway.Claims.{session_claim, claim_key}
use aimeshchat.Gateway.Claims.Exclusive.{
  ClaimHolds, session_claim-ClaimHolds, Call, claims, releases, prunes, run, run-keeps_claim,
}
use aimeshchat.Gateway.Sweep.{Limits, sweep_once}
use aimeshchat.Gateway.Sweep.Ages.{AgesAt, sweep_once-aged}
use aimeshchat.Gateway.Lifecycle.{Payload, runtime_event}
use aimeshchat.Gateway.Lifecycle.Untouched.{runtime_event-keeps_commands}
use aimeshchat.Gateway.Tests.{holding, gateway, clock, desk, registration}

runtime_register-RegisterHolds_example :
    RegisterHolds desk
      (gateway empty)
      registration
      (runtime_register clock desk (gateway empty) registration)
runtime_register-RegisterHolds_example =
    runtime_register-RegisterHolds clock desk (gateway empty) registration

abbrev mine : Claim
mine = record { owner = "rt1"; claimed_at = 10; expires_at = 3610 }

abbrev held : Table Claim
held = ("s1:w1", mine) ∷ []

abbrev attempts : List Call
attempts = claims 50 "s1" "w1" "rt2" 100 ∷ releases "s1" "w1" "rt2" ∷ prunes 3000 ∷ []

held-IsKeyed : IsKeyed held
unfolding lookup
held-IsKeyed = (refl, tt)

held-lookup : lookup "s1:w1" held ≡ some mine
unfolding lookup
held-lookup = refl

run-keeps_claim_example : lookup "s1:w1" (run held attempts) ≡ some mine
run-keeps_claim_example = run-keeps_claim attempts held "s1:w1" mine held-IsKeyed held-lookup (
  (ne_of_test "rt1" "rt2" refl, omega arith),
  ((ne_of_test "rt2" "" refl, ne_of_test "rt1" "rt2" refl), (omega arith, tt)),
)

session_claim-ClaimHolds_example :
    ClaimHolds 50 held (claim_key "s1" "w1") "rt2" 100 (session_claim 50 held "s1" "w1" "rt2" 100)
session_claim-ClaimHolds_example = session_claim-ClaimHolds 50 held "s1" "w1" "rt2" 100

abbrev limits : Limits
limits = record {
  offline_timeout = 120;
  dead_timeout = 600;
  parse_time = λ s. none;
  payload_text = λ r. "{}";
}

runtimes_IsKeyed : IsKeyed (gateway empty).runtimes
unfolding lookup
runtimes_IsKeyed = (refl, tt)

sweep_once-aged_example :
    IsKeyed (sweep_once limits clock (gateway empty)).0.runtimes
    × ((j : String)
        → AgesAt limits 1000
            (lookup j (gateway empty).runtimes)
            (lookup j (sweep_once limits clock (gateway empty)).0.runtimes))
sweep_once-aged_example = sweep_once-aged limits clock (gateway empty) runtimes_IsKeyed

abbrev triggered : Draft
triggered = record {
  runtime_id = "rt1";
  generation = 1;
  session_id = "s1";
  agent_id = "w1";
  request_id = "q1";
  run_id = "";
  kind = "TURN_TRIGGERED";
  created_at = "2026-01-02";
  payload = "{}";
}

abbrev payload : Payload
payload = record { agent_state = none; binding = none; command_id = "q1"; turn_id = "turn" }

runtime_event-keeps_commands_example :
    (runtime_event clock (gateway (holding queued)) triggered payload).0.control.commands
    ≡ (gateway (holding queued)).control.commands
runtime_event-keeps_commands_example =
    runtime_event-keeps_commands clock (gateway (holding queued)) triggered payload

one_digit : all is_digit (b'1' ∷ []) ≡ true
unfolding all
one_digit = refl
