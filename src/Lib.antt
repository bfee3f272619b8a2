-- ===== src/Lib.antt =====
-- aimeshchat connects coding agents on several devices. A mailbox carries messages between the agents of
-- a session; a gateway on each device knows the agents' runtimes, delivers commands to them and
-- collects their events; a park registry keeps idle agents for later use; a delivery engine
-- stores messages for other devices until a transport has taken them.
--
-- Mailbox (src/codeagent/mailbox)
--   Mailbox/Protocol.antt   protocol.py: messages, and `validate_path_component`
--   Mailbox/Dicts.antt      protocol.py: `to_dict` and `from_dict`, on dicts as JSON files hold them
--   Mailbox/Validate.antt   protocol.py: `validate_message`, `attachment_error`
--   Mailbox/Store.antt      store.py, `MailboxStore`: the folders of an agent; Store/Read.antt has
--                           `read`, and Store/Finish.antt `finalize`, `finalize_from_inbox`,
--                           `release`, `renew_claim` and `recover_stale`,
--                           Store/Cleanup.antt `clear` and `purge`
--   Mailbox/Sessions.antt   store.py: `session_init` and `advance_cursor`
--   Mailbox/Ledger.antt     store.py, `RequestLedger`: the log of each request's runs
-- Gateway (src/codeagent/gateway)
--   Gateway/Model.antt      model.py: error codes
--   Gateway/Commands.antt   service.py: command states, `CMD_TRANSITIONS`, `_advance_ack_chain`
--   Gateway/Runtimes.antt   service.py: `RuntimeRecord`, `_reduce_lifecycle`, `_is_hot`
--   Gateway/Control.antt    control_store.py: reviews, runtime generations, commands
--   Gateway/Events.antt     events.py and model.py: the event store
--   Gateway/Acks.antt       service.py: `runtime_command_ack`, `runtime_command_status`
--   Gateway/Send.antt       service.py: `runtime_send`
--   Gateway/State.antt      service.py: the state of `AgentGateway`, `_persist_control_state`
--   Gateway/Register.antt   service.py: `runtime_register`
--   Gateway/Lifecycle.antt  service.py: `runtime_lifecycle`, `runtime_event`, `runtime_heartbeat`,
--                           `runtime_context_set`, `runtime_stop`
--   Gateway/Sweep.antt      service.py: `_sweep_once`
--   Gateway/Claims.antt     service.py: `session_claim`, `session_release`
-- Park (src/codeagent/park, src/codeagent/domain/park.py)
--   Park/Registry.antt      registry.py, constants.py: leases and their sweep
-- Swarm (src/codeagent/swarm)
--   Swarm/Outbox.antt       delivery.py: the outbox of a session, back-off, pausing, dead letters
--   Swarm/Flush.antt        delivery.py: `deliver`, `flush`, `ack`, `sweep`, `dead_letter_requeue`,
--                           `dead_letter_purge`
-- Base has what these share: tests on numbers and texts, lists, results, and tables with a text key.
--
-- A call on a ledger, a table, the event store, the park or the folders of an agent is one step. For the
-- ledger, the tables and the event store their locks and transactions make it one; a sweep of the park and
-- the calls of the mailbox that take no lock are taken as one here. A handler of the gateway takes the gateway and gives the next one and an answer, which may be an
-- error after a change. Where a handler lets go between its reading and its writing, what other threads do
-- there is a function on the state that is given to it. Python's dictionaries and the SQL tables are
-- association lists in the order of insertion; times are whole seconds, and a clock's value is given.
-- A message that the gateway has the mailbox service write is kept in its list `sent`, and whether the
-- service and the park's revival succeed is given. Loops are over finite lists, without fuel, but for
-- the one of `read`, whose fuel is one more than twice the claim files and the files of the inbox: a turn that
-- goes on takes one of them away. Each turn has its own reading of the clock. The polls of a waiting send are the list of what happens until its
-- deadline.
--
-- Not modelled: sockets, processes, SSH, files and their formats, the command line, logging, and the
-- schemas' set-up; of the gateway, `runtime_declare`, `runtime_spawn`, the hub's peers beyond their status
-- and queries that only read; the swarm kernel, the delivery
-- engine's caches of rosters and capabilities, sending into the mailbox, which `message_send` does without a
-- command, and the sessions of a device. An error's
-- message and context are left out. Regular expressions, hashes, JSON texts and the parsing of times are
-- as documented for the standard library, or are parameters.
pub mod Base
pub mod Mailbox
pub mod Gateway
pub mod Park
pub mod Swarm
