-- ===== src/Tests/Records.antt =====
-- What is stored of a call, and what is passed on to the client.
use garmx.Prelude.{◌≡◌, refl, true, none, some, List, [], ◌∷◌, ◌++◌, map, In, Unique, ◌↔◌, pos}
use garmx.Prelude.Bytes.{Bytes, text}
use garmx.Prelude.Json.{Value, int, str, obj, Fields, field, end, absent, json}
use garmx.Mcp.Message.{Notification, new_notification}
use garmx.Aggregator.Event.{Event}
use garmx.Aggregator.Notify.{Outbox, new_outbox, connects, fires, run}
use garmx.Aggregator.Notify.Coalescing.{IsCoalescing, run-IsCoalescing}
use garmx.Aggregator.Notify.Window.{Announced, forwarded, sending, window_lem}
use garmx.Audit.Redact.{Redactor, Floats, whole, other, redact}
use garmx.Audit.Redact.Clean.{CleanRaw, redact-Clean}
use garmx.Audit.Entry.{Writer, to_entry, payload_request}
use garmx.Audit.Entry.Stored.{Safe, Fits, to_entry-Safe}
use garmx.Tests.Bench.{everything}

abbrev floats : Floats
floats = record { of_int = λ z. whole z; of_num = λ b. some (other b) }

abbrev arguments : Fields
arguments = field (text "Token") (str (text "sk-1")) (field (text "path") (str (text "a")) end)

abbrev payload : Value
payload = obj (field (text "arguments") (obj arguments) end)

abbrev redactor : Redactor
redactor = record { keys = text "token" ∷ [] }

redact-Clean_example : CleanRaw redactor (redact floats redactor (json payload))
redact-Clean_example = redact-Clean floats redactor (json payload)

abbrev pub writer : Writer
writer = record {
  floats = floats;
  marshal = λ v. text "document";
  decimal = λ n. text "8";
  redactor = redactor;
  payload = payload_request;
  max_bytes = 4;
}

abbrev pub call_event : Event
call_event = record {
  session_id = text "s";
  client_name = [];
  client_version = [];
  method = text "tools/call";
  server = text "files";
  tool_exposed = [];
  tool_original = [];
  rpc_id = json (int (pos 1));
  request_params = json payload;
  response_result = absent;
  error_code = none;
  error_message = [];
  latency_ms = 1;
}

to_entry-Safe_example :
    Safe writer (to_entry writer call_event).request_payload
    × Safe writer (to_entry writer call_event).response_payload
    × Fits writer (to_entry writer call_event).error_message
to_entry-Safe_example = to_entry-Safe writer call_event

abbrev changed : Bytes × Notification
changed = (text "files", new_notification (text "notifications/tools/list_changed") absent)

abbrev burst : List (Bytes × Notification)
burst =
    changed ∷ changed ∷ (text "files", new_notification (text "notifications/progress") absent) ∷ []

run-IsCoalescing_example :
    IsCoalescing (run everything new_outbox (connects ∷ fires ∷ sending burst))
run-IsCoalescing_example = run-IsCoalescing everything (connects ∷ fires ∷ sending burst)

abbrev connected : Outbox
connected = record new_outbox { client_notify = true }

window_lem_example :
    (ms : List Bytes) × Unique ms
    × ((m : Bytes) → In m ms ↔ Announced everything m burst)
    × ((run everything connected (sending burst ++ (fires ∷ []))).emitted
        ≡ ([] ++ forwarded everything burst) ++ map (λ m. new_notification m absent) ms)
window_lem_example = window_lem everything connected burst refl refl refl
