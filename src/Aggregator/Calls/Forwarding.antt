-- ===== src/Aggregator/Calls/Forwarding.antt =====
-- What a call that is let through does.
use garmx.Prelude.{
  ℕ, ◌-◌, ◌≡◌, ◌≢◌, refl, sym, ap, subst, Option, Option-cases, inl, inr, if◌then◌else◌, ◌∙◌, Bool,
  true, none, some, List, [], ◌∷◌, ◌++◌, arith, ok,
}
use garmx.Prelude.Bytes.{Bytes, text, equal}
use garmx.Prelude.Json.{str, obj, Fields, Raw, absent, malformed, json, insert, to_map, string_at}
use garmx.Mcp.Message.{Error, Response, Envelope, code_internal_error}
use garmx.Upstream.Transport.{Reply, result, rpc_error, failure}
use garmx.Mcp.Methods.{Implementation, method_tools_call}
use garmx.Upstream.Manager.{get}
use garmx.Aggregator.Naming.{prefix, validate_server_name}
use garmx.Aggregator.Naming.Split.{split-prefix}
use garmx.Aggregator.Profile.{allows_server, allows_tool}
use garmx.Aggregator.Core.{Environment, Aggregator}
use garmx.Aggregator.Event.{Event}
use garmx.Aggregator.Handlers.{
  handle_named_call, call_named, routed, response_to, fill_response, event_of, is_call_method,
  is_absent,
}
use garmx.Aggregator.Dispatch.{dispatch, handle}

abbrev data_of : Raw → Raw → Raw
data_of absent r = r
data_of (malformed b) r = malformed b
data_of (json v) r = json v

-- The audited outcome of a response: its result; or its error's code and message, and in place of a
-- result the error's data, if it has any.
abbrev Outcome : Event → Raw → Option Error → Type 0
Outcome e r none = (e.response_result ≡ r) × (e.error_code ≡ none) × (e.error_message ≡ [])
Outcome e r (some x) =
    (e.response_result ≡ data_of x.extra r)
    × (e.error_code ≡ some x.code)
    × (e.error_message ≡ x.message)

abbrev pub Tells : Event → Response → Type 0
Tells e resp = Outcome e resp.result resp.error

-- The response that carries an upstream's reply to the client.
abbrev pub carried : Raw → Bytes → Reply → Response
carried id method (result r) = record { jsonrpc = text "2.0"; id = id; result = r; error = none }
carried id method (rpc_error e) = record {
  jsonrpc = text "2.0";
  id = id;
  result = absent;
  error = some e;
}
carried id method failure = record {
  jsonrpc = text "2.0";
  id = id;
  result = absent;
  error = some (record {
    code = code_internal_error;
    message = text "upstream " ++ (method ++ text " failed");
    extra = absent;
  });
}

response_to-carried :
    (id : Raw) (method : Bytes) (r : Reply) → response_to id method r ≡ carried id method r
unfolding response_to
response_to-carried id method (result r) = refl
response_to-carried id method (rpc_error e) = refl
response_to-carried id method failure = refl

-- The part of `fill_response` that looks at the response's error.
abbrev filled : Event → Raw → Option Error → Event
filled e r none = record e { response_result = r }
filled e r (some y) = record e {
  response_result = if is_absent y.extra then r else y.extra;
  error_code = some y.code;
  error_message = y.message;
}

data_or : (d r : Raw) → (if is_absent d then r else d) ≡ data_of d r
data_or absent r = refl
data_or (malformed b) r = refl
data_or (json v) r = refl

filled-Outcome :
    (e : Event) (r : Raw) (x : Option Error)
    → e.error_code ≡ none
    → e.error_message ≡ []
    → Outcome (filled e r x) r x
filled-Outcome e r none c m = (refl, c, m)
filled-Outcome e r (some y) c m = (data_or y.extra r, refl, refl)

-- Nothing else of the event changes.
record Keeps (e f : Event) : Type 0 where
  session_id : f.session_id ≡ e.session_id
  client_name : f.client_name ≡ e.client_name
  client_version : f.client_version ≡ e.client_version
  method : f.method ≡ e.method
  server : f.server ≡ e.server
  tool_exposed : f.tool_exposed ≡ e.tool_exposed
  tool_original : f.tool_original ≡ e.tool_original
  rpc_id : f.rpc_id ≡ e.rpc_id
  request_params : f.request_params ≡ e.request_params
  latency_ms : f.latency_ms ≡ e.latency_ms

filled-Keeps : (e : Event) (r : Raw) (x : Option Error) → Keeps e (filled e r x)
filled-Keeps e r none = record {
  session_id = refl;
  client_name = refl;
  client_version = refl;
  method = refl;
  server = refl;
  tool_exposed = refl;
  tool_original = refl;
  rpc_id = refl;
  request_params = refl;
  latency_ms = refl;
}
filled-Keeps e r (some y) = record {
  session_id = refl;
  client_name = refl;
  client_version = refl;
  method = refl;
  server = refl;
  tool_exposed = refl;
  tool_original = refl;
  rpc_id = refl;
  request_params = refl;
  latency_ms = refl;
}

fill_response-filled :
    (e : Event) (resp : Response) → fill_response e resp ≡ filled e resp.result resp.error
unfolding fill_response
fill_response-filled e resp = elim (Option-cases resp.error) [
  | inl n ↦ ground (arith, n)
  | inr (y, s) ↦ ground (arith, s)
]

pub fill_response-Tells :
    (e : Event) (resp : Response)
    → e.error_code ≡ none
    → e.error_message ≡ []
    → Tells (fill_response e resp) resp
fill_response-Tells e resp c m =
    subst (λ f. Tells f resp) (sym (fill_response-filled e resp))
      (filled-Outcome e resp.result resp.error c m)

fill_response-Keeps : (e : Event) (resp : Response) → Keeps e (fill_response e resp)
fill_response-Keeps e resp =
    subst (Keeps e) (sym (fill_response-filled e resp)) (filled-Keeps e resp.result resp.error)

-- The event of a routed call says whose it is, where the call went, what the client sent, how it
-- ended, and how long it took.
pub record Describes (e : Event) (session_id : Bytes) (client : Implementation) (env : Envelope)
    (method server exposed original : Bytes) (resp : Response) (latency : ℕ) : Type 0 where
  pub of_session : e.session_id ≡ session_id
  pub of_client : (e.client_name ≡ client.name) × (e.client_version ≡ client.version)
  pub of_method : e.method ≡ method
  pub of_server : e.server ≡ server
  pub of_exposed : e.tool_exposed ≡ exposed
  pub of_original : e.tool_original ≡ original
  pub of_request : e.rpc_id ≡ env.id
  pub of_params : e.request_params ≡ env.params
  pub of_response : Tells e resp
  pub of_latency : e.latency_ms ≡ latency

module _ (N : Environment) where
  open N use {World, Transport, send, path_match}

  fill_response-Describes :
      (a : Aggregator N) (env : Envelope) (method server exposed original : Bytes) (latency : ℕ)
      (resp : Response)
      → Describes
          (fill_response (event_of N a env method server exposed original latency) resp)
          a.session_id
          a.session.client_info
          env
          method
          server
          exposed
          original
          resp
          latency
  fill_response-Describes a env method server exposed original latency resp =
      let e = event_of N a env method server exposed original latency in
      let k = fill_response-Keeps e resp in
      record {
        of_session = k.session_id;
        of_client = (k.client_name, k.client_version);
        of_method = k.method;
        of_server = k.server;
        of_exposed = k.tool_exposed;
        of_original = k.tool_original;
        of_request = k.rpc_id;
        of_params = k.request_params;
        of_response = fill_response-Tells e resp refl refl;
        of_latency = k.latency_ms;
      }

  -- A routed call is one request to the transport. The client gets its reply under the request's
  -- id, and with a sink exactly one event is recorded, which describes the call.
  pub routed-Describes :
      (a : Aggregator N) (env : Envelope) (t : Transport) (method : Bytes) (params : Raw)
      (server exposed original : Bytes) (events : List Event)
      → a.sink ≡ some events
      → let reply = send t method params a.world in
        (e : Event) × (routed N a env t method params server exposed original ≡ (
          carried env.id method reply.0,
          record a { world = reply.1; sink = some (events ++ (e ∷ [])) },
        ))
        × Describes e a.session_id a.session.client_info env method server exposed original
            (carried env.id method reply.0)
            (N.clock reply.1 - N.clock a.world)
  unfolding routed
  routed-Describes a env t method params server exposed original events h =
      let reply = send t method params a.world in
      let latency : ℕ = N.clock reply.1 - N.clock a.world in
      let resp = carried env.id method reply.0 in
      let same = response_to-carried env.id method reply.0 in
      (
        fill_response (event_of N a env method server exposed original latency) resp,
        ground (arith, same, h),
        fill_response-Describes a env method server exposed original latency resp,
      )

  -- The dispatcher sends `tools/call` to its handler, whatever the audit scope.
  pub handle_tools_call :
      (fuel : ℕ) (a : Aggregator N) (env : Envelope)
      → env.method ≡ method_tools_call
      → handle N fuel a env ≡ some (handle_named_call N a env method_tools_call true)
  unfolding handle dispatch is_call_method equal
  handle_tools_call fuel a env m = ground (arith, m)

  pub handle_named_call-routed :
      (a : Aggregator N) (env : Envelope) (method : Bytes) (tool_filter : Bool) (fields : Fields)
      (server original : Bytes) (t : Transport)
      → to_map env.params ≡ some fields
      → string_at (text "name") fields ≡ some (prefix server original)
      → validate_server_name server ≡ ok tt
      → original ≢ []
      → allows_server a.profile server ≡ true
      → (tool_filter ≡ true → allows_tool path_match a.profile (prefix server original) ≡ true)
      → get a.mgr server ≡ some t
      → handle_named_call N a env method tool_filter
        ≡ routed N a env t method
            (json (obj (insert (text "name") (str original) fields)))
            server
            (prefix server original)
            original
  unfolding handle_named_call call_named
  handle_named_call-routed a env method tool_filter fields server original t d n v ne scope vis g =
      ground (arith, split-prefix server original v ne, vis)

  -- With a sink, a `tools/call` of `<server>___<original>`, with a valid name of a registered server
  -- in scope and an original name that is not empty, visible under the profile, sends exactly one
  -- request: the client's parameters with the name replaced, to that server. The response carries the
  -- reply under the client's id: the upstream's result, or its error, or an internal error if the
  -- transport failed. One event is recorded, which holds the session, the client, the server, both
  -- names, the client's id and parameters, the result or error of the response, and the latency.
  pub tools_call-forwards :
      (fuel : ℕ) (a : Aggregator N) (env : Envelope) (fields : Fields) (server original : Bytes)
      (t : Transport) (events : List Event)
      → env.method ≡ method_tools_call
      → to_map env.params ≡ some fields
      → string_at (text "name") fields ≡ some (prefix server original)
      → validate_server_name server ≡ ok tt
      → original ≢ []
      → allows_server a.profile server ≡ true
      → allows_tool path_match a.profile (prefix server original) ≡ true
      → get a.mgr server ≡ some t
      → a.sink ≡ some events
      → let reply =
          send t method_tools_call
            (json (obj (insert (text "name") (str original) fields)))
            a.world in
        let resp = carried env.id method_tools_call reply.0 in
        (e : Event) × (handle N fuel a env
          ≡ some (resp, record a { world = reply.1; sink = some (events ++ (e ∷ [])) }))
        × Describes e a.session_id a.session.client_info env method_tools_call server
            (prefix server original)
            original
            resp
            (N.clock reply.1 - N.clock a.world)
  tools_call-forwards fuel a env fields server original t events m d n v ne scope vis g s =
      let (e, eq, ds) =
        routed-Describes a env t method_tools_call
          (json (obj (insert (text "name") (str original) fields))) server (prefix server original)
          original events s in
      (
        e,
        handle_tools_call fuel a env m
            ∙ ap some (
                handle_named_call-routed a env method_tools_call true fields server original t d n v
                  ne scope (λ _. vis) g
                ∙ eq),
        ds,
      )
