-- ===== src/Aggregator.antt =====
-- internal/aggregator: the protocol core of a client session.
pub mod Naming
pub mod Event
pub mod Helpers
pub mod Core
pub mod Handlers
pub mod Setup
pub mod Dispatch
pub mod Draining
pub mod Calls
pub mod Answers
pub mod Auditing
pub mod Greeting
pub mod Ownership
pub mod Notify
pub mod Profile
pub mod Capabilities
