-- ===== src/Tests/Greetings.antt =====
-- The first `initialize` of a client.
use garmx.Prelude.Bytes.{text}
use garmx.Prelude.Json.{str, field, end, Fields, absent}
use garmx.Mcp.Message.{Envelope}
use garmx.Mcp.Methods.{method_initialize}
use garmx.Mcp.Handshake.{InitializeParams, no_implementation}
use garmx.Aggregator.Core.{Aggregator}
use garmx.Tests.Bench.{request}

abbrev hello : Fields
hello = field (text "protocolVersion") (str (text "2025-06-18")) end

abbrev hello_params : InitializeParams
hello_params = record {
  protocol_version = text "2025-06-18";
  capabilities = absent;
  client_info = no_implementation;
}

abbrev first_request : Envelope
first_request = request method_initialize hello
