-- ===== src/Gateway/Tests/Sends.antt =====
-- Sends of one command.
use aimeshchat.Base.{◌≡◌, refl, true, false, none, some, [], ◌∷◌, ok, count, ne_of_test, arith}
use aimeshchat.Base.Table.{lookup}
use aimeshchat.Gateway.Commands.{queued, claimed, turn_triggered}
use aimeshchat.Gateway.Runtimes.{active, is_hot, capable, turn_start}
use aimeshchat.Gateway.Control.{Control, empty, get_command}
use aimeshchat.Gateway.State.{Gateway}
use aimeshchat.Gateway.Acks.Races.{HasState}
use aimeshchat.Gateway.Send.{Send, Around, hot, runtime_send}
use aimeshchat.Gateway.Send.Steps.{hash_at, is_for, IsOnce, IsSafe, IsFair, Grows-refl}
use aimeshchat.Gateway.Send.Once.{runtime_send-IsSafe}
use aimeshchat.Gateway.Send.Replay.{
  IsPosed, IsReplay, runtime_send-IsReplay, IsAwake, at_delivery, send_overwrites,
}
use aimeshchat.Gateway.Send.Handlers.{
  acks, registers, lifecycles, sends, perform_all, perform_all-IsOnce,
}
use aimeshchat.Gateway.Tests.{runtime, command, holding, gateway, ack, clock, desk, registration}

abbrev same : Gateway → Gateway
same g = g

-- A send with nothing done by others, but for what is given.
abbrev around : (Gateway → Gateway) → (Gateway → Gateway) → Around
around racing delivering = record {
  now = "t1";
  sha256 = λ s. "h";
  command_id = "c1";
  racing = racing;
  delivered = ok "m1";
  delivering = delivering;
  polls = [];
  revived = ok (record { success = true; method = hot });
  reviving_park = same;
}

abbrev steer : Send
steer = record {
  runtime_id = "rt1";
  request_id = "q1";
  payload_hash = "h";
  sender = "manager";
  subject = "steer";
  body = "go on";
  kind = "TASK";
  reply_to = "";
  run_id = "";
  require_ack = false;
  wait_binding = false;
}

fair : IsFair (around same same)
fair = record {
  racing_safe = Grows-refl;
  delivering_safe = Grows-refl;
  polls_safe = tt;
  reviving_safe = Grows-refl;
}

unsent : (c : Control) → IsOnce (gateway c)
unfolding count
unsent c = λ id. (omega arith, λ e. refl)

stored_hash : hash_at (gateway (holding queued)) "q1" ≡ some "h"
unfolding hash_at get_command lookup
stored_hash = refl

posed :
    (c : Control) (f h : Gateway → Gateway)
    → IsPosed (around f h) (gateway c) steer (runtime active 10)
unfolding lookup
posed c f h = (ne_of_test "rt1" "" refl, ne_of_test "q1" "" refl, ne_of_test "h" "" refl, refl)

perform_all-IsOnce_example : IsOnce (
    perform_all
      (registers clock desk registration
        ∷ sends (around same same) steer fair
        ∷ acks "t2" (ack claimed)
        ∷ lifecycles clock "{}" "rt1" turn_start
        ∷ sends (around same same) steer fair
        ∷ [])
      (gateway empty))
perform_all-IsOnce_example =
    perform_all-IsOnce
      (registers clock desk registration
        ∷ sends (around same same) steer fair
        ∷ acks "t2" (ack claimed)
        ∷ lifecycles clock "{}" "rt1" turn_start
        ∷ sends (around same same) steer fair
        ∷ [])
      (gateway empty) (unsent empty)

runtime_send-IsSafe_example : IsSafe (λ g. (runtime_send (around same same) g steer).0)
runtime_send-IsSafe_example = runtime_send-IsSafe (around same same) steer fair

runtime_send-IsReplay_example :
    IsReplay
      (around same same)
      steer
      "h"
      (gateway (holding queued))
      (runtime_send (around same same) (gateway (holding queued)) steer)
    × (count (is_for "q1") (runtime_send (around same same) (gateway (holding queued)) steer).0.sent
        ≡ count (is_for "q1") (gateway (holding queued)).sent)
runtime_send-IsReplay_example =
    runtime_send-IsReplay (around same same) steer same (gateway (holding queued)) "h"
      (runtime active 10) Grows-refl (unsent (holding queued)) stored_hash
      (posed (holding queued) same same)

-- Another thread's command for the same request id.
abbrev other : Gateway → Gateway
other g = record g {
  control = record empty {
    commands = ("q1", record (command claimed) { payload_hash = "x" }) ∷ [];
  };
}

not_there : get_command empty "q1" ≡ none
unfolding get_command lookup
not_there = refl

-- The plugin's acks up to the last state.
abbrev turned : Gateway → Gateway
turned g = record g { control = holding turn_triggered }

turned-at_delivery :
    HasState
      (at_delivery (around same turned) (gateway empty) steer (runtime active 10)).control
      "q1"
      turn_triggered
unfolding get_command lookup
turned-at_delivery = (command turn_triggered, refl, refl)

still_there :
    lookup "rt1"
      (at_delivery (around same turned) (gateway empty) steer (runtime active 10)).runtimes
    ≡ some (runtime active 10)
unfolding lookup
still_there = refl

awake : IsAwake (runtime active 10)
unfolding is_hot capable
awake = (refl, refl)

send_overwrites_example :
    HasState (runtime_send (around same turned) (gateway empty) steer).0.control "q1" queued
send_overwrites_example =
    send_overwrites (around same turned) (gateway empty) steer (runtime active 10)
      (runtime active 10) "m1" (posed empty same turned) not_there not_there refl refl
      turned-at_delivery still_there awake refl
