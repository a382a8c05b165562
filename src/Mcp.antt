-- ===== src/Mcp.antt =====
-- pkg/mcp: JSON-RPC messages, method names, versions and capabilities.
pub mod Message
pub mod Methods
pub mod Versions
pub mod Capabilities
pub mod Handshake
pub mod Frame
