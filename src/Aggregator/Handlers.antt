-- ===== src/Aggregator/Handlers.antt =====
-- The request handlers of internal/aggregator/aggregator.go, and `forward` of helpers.go.
use garmx.Prelude.{
  ℕ, ◌-◌, Bool, true, false, not, ◌&&◌, ◌||◌, Option, none, some, List, [], ◌∷◌, ◌++◌, ◌>>=◌,
  is_nil, is_some, if◌then◌else◌,
}
use garmx.Prelude.Bytes.{Bytes, text, equal, has_prefix, has_suffix}
use garmx.Prelude.Assoc.{lookup, bytes_eq}
use garmx.Prelude.Json.{
  Value, str, obj, Fields, Raw, absent, malformed, json, insert, to_map, string_at,
}
use garmx.Mcp.Message.{
  Response, Envelope, new_response, new_error_response, jsonrpc_version, code_invalid_params,
  code_internal_error,
}
use garmx.Mcp.Methods.{method_tools_call, method_prompts_get, method_resources_read}
use garmx.Mcp.Handshake.{InitializeResult, decode_params, encode_result}
use garmx.Upstream.Transport.{Reply, result, rpc_error, failure}
use garmx.Upstream.Manager.{get}
use garmx.Aggregator.Naming.{split}
use garmx.Aggregator.Profile.{allows_server, allows_tool}
use garmx.Aggregator.Capabilities.{negotiate_client_version}
use garmx.Aggregator.Event.{Session, Event}
use garmx.Aggregator.Helpers.{has_cursor, list_response, decode_string_struct}
use garmx.Aggregator.Core.{
  Environment, Aggregator, servers, prefixed_from, resources_from, ensure_upstreams,
}

unfoldable pub response_to : Raw → Bytes → Reply → Response
response_to id method (result r) = new_response id r
response_to id method (rpc_error e) = record {
  jsonrpc = jsonrpc_version;
  id = id;
  result = absent;
  error = some e;
}
response_to id method failure =
    new_error_response id code_internal_error (text "upstream " ++ (method ++ text " failed"))

-- `isCallMethod`
unfoldable pub is_call_method : Bytes → Bool
is_call_method method =
    equal method method_tools_call
    || equal method method_prompts_get
    || equal method method_resources_read

-- `isListChanged`
unfoldable pub is_list_changed : Bytes → Bool
is_list_changed method =
    has_prefix method (text "notifications/") && has_suffix method (text "/list_changed")

-- `len(data) > 0`
abbrev pub is_absent : Raw → Bool
is_absent absent = true
is_absent (malformed b) = false
is_absent (json v) = false

-- `fillResponse`, for a response that is not nil.
unfoldable pub fill_response : Event → Response → Event
fill_response e resp = elim resp.error [
  | none ↦ record e { response_result = resp.result }
  | some x ↦ record e {
    response_result = if is_absent x.extra then resp.result else x.extra;
    error_code = some x.code;
    error_message = x.message;
  }
]

abbrev pub bad_params : Raw → Bytes → Response
bad_params id message = new_error_response id code_invalid_params message

module _ (N : Environment) where
  open N use {World, Transport, send, clock, path_match}

  unfoldable pub forward : Transport → Raw → Bytes → Raw → World → Response × World
  unfolding response_to
  forward t id method params w =
      let (reply, w') = send t method params w in (response_to id method reply, w')

  -- The event of both `recordCall` and `recordGeneric`, before the response is filled in.
  abbrev pub event_of : Aggregator N → Envelope → Bytes → Bytes → Bytes → Bytes → ℕ → Event
  event_of a env method server exposed original latency = record {
    session_id = a.session_id;
    client_name = a.session.client_info.name;
    client_version = a.session.client_info.version;
    method = method;
    server = server;
    tool_exposed = exposed;
    tool_original = original;
    rpc_id = env.id;
    request_params = env.params;
    response_result = absent;
    error_code = none;
    error_message = [];
    latency_ms = latency;
  }

  -- `a.sink.Record(e)`
  abbrev pub emit : Event → Aggregator N → Aggregator N
  emit e a = record a {
    sink = elim a.sink [ none ↦ none | some events ↦ some (events ++ (e ∷ [])) ];
  }

  unfoldable pub record_call :
      Envelope → Bytes → Bytes → Bytes → Bytes → Response → ℕ → Aggregator N → Aggregator N
  record_call env method server exposed original resp start a =
      let latency = N.clock a.world - start in
      emit (fill_response (event_of a env method server exposed original latency) resp) a

  unfoldable pub record_generic : Envelope → Response → ℕ → Aggregator N → Aggregator N
  record_generic env resp start a =
      let latency = N.clock a.world - start in
      emit (fill_response (event_of a env env.method [] [] [] latency) resp) a

  unfoldable pub handle_initialize : Aggregator N → Envelope → Response × Aggregator N
  handle_initialize a env = elim (decode_params env.params) [
    | none ↦ (bad_params env.id (text "invalid initialize params"), a)
    | some params ↦
        let ready = ensure_upstreams N a in
        let version = negotiate_client_version params.protocol_version in
        let session : Session = record {
          protocol_version = version;
          client_info = params.client_info;
          client_capabilities = params.capabilities;
          initialized = false;
        } in
        let answer : InitializeResult = record {
          protocol_version = version;
          capabilities = ready.caps;
          server_info = record {
            name = text "garmx";
            title = text "GarmX";
            version = a.version;
            description = [];
            website_url = [];
          };
          instructions = text "GarmX aggregating MCP gateway.";
        } in
        (new_response env.id (json (encode_result answer)), record ready { session = session })
  ]

  abbrev pub cursor_refused : Raw → Response
  cursor_refused id =
      bad_params id (text "cursor pagination is not supported; GarmX returns the full list")

  abbrev pub listed : Raw → Bytes → List Value × Aggregator N → Response × Aggregator N
  listed id key (items, a) = (list_response id key items, a)

  -- On fuel for each upstream's pages.
  unfoldable pub handle_prefixed_list :
      ℕ → Aggregator N → Envelope → Bytes → Bytes → Bool → Option (Response × Aggregator N)
  handle_prefixed_list fuel a env method key tool_filter =
      if has_cursor env.params
      then some (cursor_refused env.id, a)
      else prefixed_from N fuel method key tool_filter (servers N a) [] a >>= λ r.
          some (listed env.id key r)

  unfoldable pub handle_resources_list :
      ℕ → Aggregator N → Envelope → Bytes → Bytes → Bool → Option (Response × Aggregator N)
  handle_resources_list fuel a env method key recording =
      if has_cursor env.params
      then some (cursor_refused env.id, a)
      else resources_from N fuel method key recording (servers N a) [] a >>= λ r.
          some (listed env.id key r)

  -- A routed call that was let through: forwarded, and recorded if there is a sink.
  unfoldable pub routed :
      Aggregator N
      → Envelope
      → Transport
      → Bytes
      → Raw
      → Bytes
      → Bytes
      → Bytes
      → Response × Aggregator N
  unfolding forward record_call
  routed a env t method params server exposed original =
      let start = N.clock a.world in
      let (resp, w) = forward t env.id method params a.world in
      let sent = record a { world = w } in
      if is_some a.sink
      then (resp, record_call env method server exposed original resp start sent)
      else (resp, sent)

  -- Behind the decoding of the parameters.
  unfoldable pub call_named :
      Aggregator N → Envelope → Bytes → Bool → Fields → Bytes → Response × Aggregator N
  unfolding routed
  call_named a env method tool_filter fields exposed = elim (split exposed) [
    | none ↦ (bad_params env.id (text "unknown or filtered name: " ++ exposed), a)
    | some (server, original) ↦
        if not (allows_server a.profile server)
          || (tool_filter && not (allows_tool path_match a.profile exposed))
        then (bad_params env.id (text "unknown or filtered name: " ++ exposed), a)
        else elim (get a.mgr server) [
          | none ↦ (bad_params env.id (text "unknown server: " ++ server), a)
          | some t ↦
              routed a env t method (json (obj (insert (text "name") (str original) fields))) server
                exposed original
        ]
  ]

  unfoldable pub handle_named_call :
      Aggregator N → Envelope → Bytes → Bool → Response × Aggregator N
  unfolding call_named
  handle_named_call a env method tool_filter = elim (to_map env.params) [
    | none ↦ (bad_params env.id (text "invalid params for " ++ method), a)
    | some fields ↦ elim (string_at (text "name") fields) [
      | none ↦ (bad_params env.id (text "missing or invalid name for " ++ method), a)
      | some exposed ↦ call_named a env method tool_filter fields exposed
    ]
  ]

  -- Behind the decoding of the parameters, at a uri that is not empty.
  unfoldable pub read_resource : Aggregator N → Envelope → Bytes → Response × Aggregator N
  unfolding routed
  read_resource a env uri = elim (lookup uri a.uri_owners) [
    | none ↦ (bad_params env.id (text "unknown resource uri (list resources first): " ++ uri), a)
    | some server ↦ elim (get a.mgr server) [
      | none ↦
          (new_error_response env.id code_internal_error (text "owning server gone: " ++ server), a)
      | some t ↦ routed a env t method_resources_read env.params server [] []
    ]
  ]

  abbrev uri_missing : Raw → Response
  uri_missing id = bad_params id (text "missing uri for resources/read")

  unfoldable pub handle_resources_read : Aggregator N → Envelope → Response × Aggregator N
  unfolding read_resource
  handle_resources_read a env = elim (decode_string_struct (text "uri") env.params) [
    | none ↦ (uri_missing env.id, a)
    | some uri ↦ if is_nil uri then (uri_missing env.id, a) else read_resource a env uri
  ]
