-- ===== src/Audit/Entry.antt =====
-- The row that internal/audit/audit.go makes of an event (`toEntry`, `capString`). Writing a document
-- as text and writing a number in decimal are parameters.
pub mod Stored
use garmx.Prelude.{
  ℕ, ◌+◌, Bool, true, false, ◌&&◌, ◌||◌, Option, none, some, List, [], ◌∷◌, ◌++◌, length, take,
  if◌then◌else◌, ltb, ℤ,
}
use garmx.Prelude.Bytes.{Bytes, text, equal}
use garmx.Prelude.Json.{Value, Raw, absent, malformed, json}
use garmx.Aggregator.Event.{Event}
use garmx.Audit.Redact.{Redactor, Floats, redact}

abbrev pub payload_request_response : Bytes
payload_request_response = text "request-response"

abbrev pub payload_request : Bytes
payload_request = text "request"

-- The columns that the writer fills.
pub record LogEntry : Type 0 where
  pub session_id : Bytes
  pub client_name : Bytes
  pub client_version : Bytes
  pub server_name : Bytes
  pub method : Bytes
  pub tool_exposed : Bytes
  pub tool_original : Bytes
  pub rpc_id : Raw
  pub request_payload : Bytes
  pub response_payload : Bytes
  pub payload_bytes : ℕ
  pub truncated : Bool
  pub latency_ms : ℕ
  pub error_code : Option ℤ
  pub error_message : Bytes

-- The settings of a `Writer`; a `max_bytes` of 0 or less means no limit, and is 0 here.
pub record Writer : Type 0 where
  pub floats : Floats
  pub marshal : Value → Bytes
  pub decimal : ℕ → Bytes
  pub redactor : Redactor
  pub payload : Bytes
  pub max_bytes : ℕ

unfoldable pub cap_string : Bytes → ℕ → Bytes
cap_string s max = if ltb 0 max && ltb max (length s) then take max s else s

abbrev pub raw_text : Writer → Raw → Bytes
raw_text w absent = []
raw_text w (malformed b) = b
raw_text w (json v) = w.marshal v

-- What stands for a payload of `n` bytes that is over the limit.
abbrev pub truncation : Writer → ℕ → Bytes
truncation w n = text "{\"_truncated\":true,\"_origBytes\":" ++ (w.decimal n ++ text "}")

-- The text, the bytes counted, and whether it was truncated.
unfoldable pub cap_field : Writer → Raw → Bytes × ℕ × Bool
cap_field w raw =
    let red = raw_text w (redact w.floats w.redactor raw) in
    if ltb 0 w.max_bytes && ltb w.max_bytes (length red)
    then (truncation w (length red), length red, true)
    else (red, length red, false)

-- `if len(raw) > 0`
unfoldable pub cap_given : Writer → Raw → Bytes × ℕ × Bool
unfolding cap_field
cap_given w absent = ([], 0, false)
cap_given w (malformed b) = cap_field w (malformed b)
cap_given w (json v) = cap_field w (json v)

-- The switch over the modes: both texts, the bytes and the flag.
unfoldable pub payloads : Writer → Event → Bytes × Bytes × ℕ × Bool
unfolding cap_given
payloads w e =
    let (request, n, cut) = cap_given w e.request_params in
    let (response, k, cut2) = cap_given w e.response_result in
    if equal w.payload payload_request_response
    then (request, response, n + k, cut || cut2)
    else if equal w.payload payload_request
    then (request, [], n, cut)
    else ([], [], 0, false)

unfoldable pub to_entry : Writer → Event → LogEntry
unfolding payloads cap_string
to_entry w e =
    let (request, response, bytes, cut) = payloads w e in
    record {
      session_id = e.session_id;
      client_name = e.client_name;
      client_version = e.client_version;
      server_name = e.server;
      method = e.method;
      tool_exposed = e.tool_exposed;
      tool_original = e.tool_original;
      rpc_id = e.rpc_id;
      request_payload = request;
      response_payload = response;
      payload_bytes = bytes;
      truncated = cut;
      latency_ms = e.latency_ms;
      error_code = e.error_code;
      error_message = cap_string e.error_message w.max_bytes;
    }
