-- ===== src/Gateway/Control/Rows.antt =====
-- What the writes to `commands` and `runtime_generations` leave to be read.
use mathlib.Core.Option
use aimeshchat.Base.{
  suc, ◌+◌, List, [], ◌∷◌, count, String, ◌≡◌, refl, Bool, true, false, ◌&&◌, Option, none, some,
  ◌==◌, eq_iff, arith, if◌then◌else◌,
}
use aimeshchat.Base.Table.{lookup, lookup-insert, lookup-modify}
use aimeshchat.Gateway.Control.{
  Control, Generation, Command, Update, get_command, enqueue_command, update_command, has_sets,
  set_columns, get_generation, upsert_generation, seq_of, context_of, keep_context,
}

-- What is stored for a new command.
abbrev pub stored : Command → Command
stored row = record row { turn_id = ""; updated_at = row.created_at }

-- What an enqueue promises, from what the key held before: the row is written exactly if the request
-- id is new, and then under that id alone.
abbrev pub EnqueueHolds : Control → Command → Option Command → Control × Bool → Type 0
EnqueueHolds c row none (c', created) =
    (created ≡ true)
    × ((j : String)
        → get_command c' j ≡ (if row.request_id == j then some (stored row) else get_command c j))
EnqueueHolds c row (some old) (c', created) = (created ≡ false) × (c' ≡ c)

enqueue_cases :
    (c : Control) (row : Command) (o : Option Command)
    → lookup row.request_id c.commands ≡ o
    → EnqueueHolds c row o (enqueue_command c row)
unfolding enqueue_command get_command
enqueue_cases c row none h =
    rw (h, enqueue_command) (refl, λ j. lookup-insert row.request_id j (stored row) c.commands)
enqueue_cases c row (some old) h = rw (h, enqueue_command) (refl, refl)

-- `enqueue_command` writes the row and answers true if its request id is new; otherwise it answers
-- false and changes nothing. No other request id is touched.
pub enqueue_command-EnqueueHolds :
    (c : Control) (row : Command)
    → EnqueueHolds c row (get_command c row.request_id) (enqueue_command c row)
unfolding get_command
enqueue_command-EnqueueHolds c row = enqueue_cases c row _ refl

-- An update is read back under its own request id, and under no other.
pub get_command-update_command :
    (now : String) (c : Control) (k : String) (u : Update) (j : String)
    → get_command (update_command now c k u) j ≡ (
        if has_sets u && (k == j)
        then Option.map (set_columns now u) (get_command c j)
        else get_command c j)
unfolding get_command update_command
get_command-update_command now c k u j =
    ground (arith, lookup-modify k j (set_columns now u) c.commands)

get_generation-upsert_generation :
    (now : String) (c : Control) (k : String) (g : Generation) (j : String)
    → seq_of (get_generation (upsert_generation now c k g) j)
      ≡ (if k == j then suc (seq_of (get_generation c j)) else seq_of (get_generation c j))
unfolding get_generation upsert_generation
get_generation-upsert_generation now c k g j = ground (
  arith,
  eq_iff k j,
  lookup-insert k j
      (record g {
        last_state_seq = suc (seq_of (lookup k c.generations));
        updated_at = now;
        model_context = keep_context g.model_context (context_of (lookup k c.generations));
      })
      c.generations,
)

-- Writes of runtime states, each with its time and its runtime.
unfoldable pub write_generations : Control → List (String × String × Generation) → Control
write_generations c [] = c
write_generations c ((now, k, g) ∷ ws) = write_generations (upsert_generation now c k g) ws

abbrev pub writes_to : String → String × String × Generation → Bool
writes_to j (now, k, g) = k == j

-- After any writes, the state sequence of a runtime has grown by the number of writes for it: it
-- counts them all and those of other runtimes never.
pub seq_of-write_generations :
    (c : Control) (ws : List (String × String × Generation)) (j : String)
    → seq_of (get_generation (write_generations c ws) j)
      ≡ seq_of (get_generation c j) + count (writes_to j) ws
unfolding write_generations count
seq_of-write_generations c [] j = omega arith
seq_of-write_generations c ((now, k, g) ∷ ws) j = ground (
  arith,
  seq_of-write_generations (upsert_generation now c k g) ws j,
  get_generation-upsert_generation now c k g j,
)
