-- ===== src/Upstream.antt =====
-- internal/upstream: the transports of the registered servers.
pub mod Transport
pub mod Pending
pub mod Manager
pub mod Stdio
