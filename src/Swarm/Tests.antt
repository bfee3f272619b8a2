-- ===== src/Swarm/Tests.antt =====
-- The outbox at concrete inputs.
use aimeshchat.Base.{
  ℕ, String, ◌≡◌, refl, ◌≢◌, true, false, Option, none, some, List, [], ◌∷◌, any, inl, inr, arith,
  eq_iff,
}
use aimeshchat.Base.Table.{lookup, insert, remove, keep}
use aimeshchat.Mailbox.Dicts.{Dict, plain, text}
use aimeshchat.Mailbox.Validate.{text_at}
use aimeshchat.Mailbox.Store.Finish.{insert_name}
use aimeshchat.Swarm.Outbox.{
  Outbox, is_terminal_error, begins_with, found_in, in_outbox, power, attempted, attempt_due,
  reprobe_paused, reprobe_due, handle_flush_failure, dead_letter,
}
use aimeshchat.Swarm.Flush.{
  deliver, deliver_new, sent_or_queued, write_outbox, addressed, check_idempotency,
  stamp_target_host, flush, flush_each, flush_entry, flush_due, attempt, wants_attempt, entry_names,
  Answers,
}
use aimeshchat.Swarm.Flush.Schedule.{run_flushes, plan, planned, Stage, run_flushes-Stage}
use aimeshchat.Swarm.Flush.Stored.{IsStored}
use aimeshchat.Swarm.Flush.Calls.{
  Call, delivers, flushes, acks, requeues, sweeps, purges, AllFail, run, run-IsStored,
  deliver-stores,
}

-- What the calls compute through.
outbox_code : Unit {0}
unfolding deliver deliver_new sent_or_queued write_outbox addressed check_idempotency
    stamp_target_host flush flush_each flush_entry flush_due attempt wants_attempt entry_names
    run_flushes plan planned is_terminal_error begins_with found_in power attempted attempt_due
    reprobe_paused reprobe_due handle_flush_failure dead_letter insert_name lookup insert remove
    keep any
outbox_code = tt

abbrev letter : Dict
letter =
    ("msg_id", plain (text "m1"))
    ∷ ("to", plain (text "w1"))
    ∷ ("_target_host", plain (text "mac"))
    ∷ []

abbrev empty : Outbox
empty = record {
  entries = [];
  markers = [];
  statuses = [];
  dead = [];
  dead_statuses = [];
  cache = [];
  history = [];
}

abbrev waiting : Outbox
waiting = record empty { entries = ("m1", some letter) ∷ [] }

abbrev unreachable : Answers
unreachable = record { write_error = none; send_error = some "timed out" }

abbrev no_host : String → Option String
no_host mid = some "timed out"

named : ◌≢◌ {A = String} "m1" ""
named = λ e. ground (arith, eq_iff "m1" "")

nothing_known : check_idempotency (text_at "msg_id" letter) empty ≡ none
unfolding outbox_code
nothing_known = refl

msg_id-named : text_at "msg_id" letter ≢ ""
unfolding lookup
msg_id-named = named

deliver-stores_example :
    in_outbox (text_at "msg_id" letter) (deliver 10 "s1" false letter unreachable empty).0 ≡ true
deliver-stores_example =
    deliver-stores 10 "s1" false letter unreachable empty msg_id-named nothing_known refl

waiting-IsStored : IsStored "m1" waiting
unfolding lookup
waiting-IsStored = (refl, refl)

abbrev calls : List Call
calls =
    purges
    ∷ flushes 10 no_host
    ∷ acks 11 "m1" "delivered"
    ∷ sweeps 900_000 604_800
    ∷ requeues 900_000 "m1"
    ∷ delivers 900_001 false letter unreachable
    ∷ flushes 900_002 no_host
    ∷ []

calls-fail : AllFail "s1" "m1" waiting calls
unfolding lookup
calls-fail = (
  refl,
  (("timed out", refl), (tt, (tt, (tt, (inr ("timed out", refl), (("timed out", refl), tt)))))),
)

run-IsStored_example : IsStored "m1" (run "s1" waiting calls)
run-IsStored_example = run-IsStored "s1" "m1" calls waiting calls-fail waiting-IsStored

-- Tries at 0, 5, 15, 35 and 75 seconds, others that come too early, and another message.
abbrev flush_times : List (ℕ × String)
flush_times =
    (0, "m1")
    ∷ (3, "m1")
    ∷ (5, "m2")
    ∷ (5, "m1")
    ∷ (15, "m1")
    ∷ (34, "m1")
    ∷ (35, "m1")
    ∷ (75, "m1")
    ∷ (200, "m1")
    ∷ []

planned_five : plan "m1" flush_times (0, 0) ≡ (5, 155)
unfolding outbox_code
planned_five = refl

retryable : is_terminal_error "timed out" ≡ false
unfolding outbox_code
retryable = refl

mismatch_is_terminal : is_terminal_error "remote: wire version mismatch (1)" ≡ true
unfolding outbox_code
mismatch_is_terminal = refl

waiting-Stage : Stage "m1" (0, 0) waiting
unfolding lookup attempt_due
waiting-Stage = inl (
  omega arith,
  record {
    waiting = record {
      envelope = letter;
      entry = refl;
      addressed = refl;
      unmarked = refl;
      unread = refl;
      running = refl;
      count = refl;
      retryable = refl;
    };
    due = λ t. ground arith;
  },
)

run_flushes-Stage_example :
    Stage "m1" (plan "m1" flush_times (0, 0)) (run_flushes "s1" no_host flush_times waiting)
run_flushes-Stage_example =
    run_flushes-Stage "s1" no_host "m1" "timed out" refl retryable flush_times (0, 0) waiting
      waiting-Stage
