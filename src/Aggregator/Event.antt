-- ===== src/Aggregator/Event.antt =====
-- internal/aggregator/session.go and audit.go: the session and the audited transactions.
use garmx.Prelude.{ℤ, ℕ, Bool, false, Option, []}
use garmx.Prelude.Bytes.{Bytes}
use garmx.Prelude.Json.{Raw, absent}
use garmx.Mcp.Methods.{Implementation}
use garmx.Mcp.Handshake.{no_implementation}

pub record Session : Type 0 where
  pub protocol_version : Bytes
  pub client_info : Implementation
  pub client_capabilities : Raw
  pub initialized : Bool

abbrev pub no_session : Session
no_session = record {
  protocol_version = [];
  client_info = no_implementation;
  client_capabilities = absent;
  initialized = false;
}

pub record Event : Type 0 where
  pub session_id : Bytes
  pub client_name : Bytes
  pub client_version : Bytes
  pub method : Bytes
  pub server : Bytes
  pub tool_exposed : Bytes
  pub tool_original : Bytes
  pub rpc_id : Raw
  pub request_params : Raw
  pub response_result : Raw
  pub error_code : Option ℤ
  pub error_message : Bytes
  pub latency_ms : ℕ
