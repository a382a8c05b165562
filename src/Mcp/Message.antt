-- ===== src/Mcp/Message.antt =====
-- pkg/mcp/message.go and parse.go: JSON-RPC messages, their decoding and their kinds.
use garmx.Prelude.{
  ℤ, pos, negsuc, Bool, true, false, not, ◌&&◌, Option, none, some, ◌>>=◌, is_nil, if◌then◌else◌,
  [],
}
use garmx.Prelude.Bytes.{Bytes, text, equal, lower}
use garmx.Prelude.Json.{
  Value, null, int, obj, Fields, end, field, Raw, absent, malformed, json, assign_string,
}

abbrev pub jsonrpc_version : Bytes
jsonrpc_version = text "2.0"

abbrev pub code_parse_error : ℤ
code_parse_error = negsuc 32699

abbrev pub code_invalid_request : ℤ
code_invalid_request = negsuc 32599

abbrev pub code_method_not_found : ℤ
code_method_not_found = negsuc 32600

abbrev pub code_invalid_params : ℤ
code_invalid_params = negsuc 32601

abbrev pub code_internal_error : ℤ
code_internal_error = negsuc 32602

pub record Error : Type 0 where
  pub code : ℤ
  pub message : Bytes
  pub extra : Raw

abbrev pub new_error : ℤ → Bytes → Error
new_error code message = record { code = code; message = message; extra = absent }

pub record Response : Type 0 where
  pub jsonrpc : Bytes
  pub id : Raw
  pub result : Raw
  pub error : Option Error

abbrev pub new_response : Raw → Raw → Response
new_response id result = record {
  jsonrpc = jsonrpc_version;
  id = id;
  result = result;
  error = none;
}

abbrev pub new_error_response : Raw → ℤ → Bytes → Response
new_error_response id code message = record {
  jsonrpc = jsonrpc_version;
  id = id;
  result = absent;
  error = some (new_error code message);
}

pub record Notification : Type 0 where
  pub jsonrpc : Bytes
  pub method : Bytes
  pub params : Raw

abbrev pub new_notification : Bytes → Raw → Notification
new_notification method params = record {
  jsonrpc = jsonrpc_version;
  method = method;
  params = params;
}

pub record Envelope : Type 0 where
  pub jsonrpc : Bytes
  pub id : Raw
  pub method : Bytes
  pub params : Raw
  pub result : Raw
  pub error : Option Error

abbrev pub empty_envelope : Envelope
empty_envelope = record {
  jsonrpc = [];
  id = absent;
  method = [];
  params = absent;
  result = absent;
  error = none;
}

-- The key of a JSON object names the field `tag` of a struct, whatever its case.
abbrev pub fits : Bytes → Bytes → Bool
fits key tag = equal (lower key) (lower tag)

assign_int : ℤ → Value → Option ℤ
assign_int n (int m) = some m
assign_int n null = some n
assign_int n v = none

error_field : Error → Bytes → Value → Option Error
unfolding assign_int
error_field e k v =
    if fits k (text "code")
    then (do n ← assign_int e.code v; some (record e { code = n }))
    else if fits k (text "message")
    then (do s ← assign_string e.message v; some (record e { message = s }))
    else if fits k (text "data")
    then some (record e { extra = json v })
    else some e

unfoldable pub error_fields : Error → Fields → Option Error
unfolding error_field
error_fields e end = some e
error_fields e (field k v fs) = do f ← error_field e k v; error_fields f fs

-- Decoding into the pointer `Error`: `null` clears it, an object goes into the value it points to.
assign_error : Option Error → Value → Option (Option Error)
unfolding error_fields
assign_error old null = some none
assign_error none (obj fs) = do e ← error_fields (new_error (pos 0) (text "")) fs; some (some e)
assign_error (some old) (obj fs) = do e ← error_fields old fs; some (some e)
assign_error old v = none

envelope_field : Envelope → Bytes → Value → Option Envelope
unfolding assign_error
envelope_field e k v =
    if fits k (text "jsonrpc")
    then (do s ← assign_string e.jsonrpc v; some (record e { jsonrpc = s }))
    else if fits k (text "id")
    then some (record e { id = json v })
    else if fits k (text "method")
    then (do s ← assign_string e.method v; some (record e { method = s }))
    else if fits k (text "params")
    then some (record e { params = json v })
    else if fits k (text "result")
    then some (record e { result = json v })
    else if fits k (text "error")
    then (do x ← assign_error e.error v; some (record e { error = x }))
    else some e

unfoldable pub envelope_fields : Envelope → Fields → Option Envelope
unfolding envelope_field
envelope_fields e end = some e
envelope_fields e (field k v fs) = do f ← envelope_field e k v; envelope_fields f fs

-- `Parse`; `none` is its error.
unfoldable pub parse : Raw → Option Envelope
unfolding envelope_fields
parse (json null) = some empty_envelope
parse (json (obj fs)) = envelope_fields empty_envelope fs
parse r = none

-- `len(e.ID) > 0 && !bytes.Equal(e.ID, []byte("null"))`
unfoldable pub has_id : Raw → Bool
has_id absent = false
has_id (malformed b) = true
has_id (json null) = false
has_id (json v) = true

unfoldable pub is_request : Envelope → Bool
unfolding has_id
is_request e = not (is_nil e.method) && has_id e.id

unfoldable pub is_notification : Envelope → Bool
unfolding has_id
is_notification e = not (is_nil e.method) && not (has_id e.id)

unfoldable pub is_response : Envelope → Bool
unfolding has_id
is_response e = is_nil e.method && has_id e.id
