-- ===== src/Gateway.antt =====
-- src/codeagent/gateway: the control plane of one device. `Model` has the errors, `Commands` the
-- command states, `Control` and `Events` the durable tables, `Acks` and `Send` the command's
-- handlers, `State` what a gateway holds, `Lifecycle` and `Claims` the handlers on runtimes.
pub mod Model
pub mod Commands
pub mod Runtimes
pub mod Control
pub mod Events
pub mod Acks
pub mod State
pub mod Send
pub mod Claims
pub mod Register
pub mod Sweep
pub mod Lifecycle
mod Tests
