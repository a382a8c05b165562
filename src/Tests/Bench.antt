-- ===== src/Tests/Bench.antt =====
-- A small world: one upstream, `files`, with the tool `read` and a resource; the world counts the
-- requests sent.
use garmx.Prelude.{ℕ, ◌+◌, true, false, none, some, [], ◌∷◌, if◌then◌else◌}
use garmx.Prelude.Bytes.{Bytes, text, equal}
use garmx.Prelude.Json.{Value, int, str, arr, obj, nil, cons, end, field, Fields, Raw, absent, json}
use garmx.Prelude.{pos}
use garmx.Mcp.Message.{Envelope}
use garmx.Mcp.Methods.{method_tools_list, method_resources_list}
use garmx.Upstream.Transport.{Transports, result}
use garmx.Upstream.Manager.{Manager}
use garmx.Aggregator.Capabilities.{no_capabilities}
use garmx.Aggregator.Profile.{Profile}
use garmx.Aggregator.Event.{no_session}
use garmx.Aggregator.Core.{Environment, Aggregator}

abbrev pub read_tool : Value
read_tool = obj (field (text "name") (str (text "read")) end)

abbrev pub readme : Value
readme = obj (field (text "uri") (str (text "file:a")) end)

-- What the upstream answers to a method.
abbrev pub answer : Bytes → Raw
answer method =
    if equal method method_tools_list
    then json (obj (field (text "tools") (arr (cons read_tool nil)) end))
    else if equal method method_resources_list
    then json (obj (field (text "resources") (arr (cons readme nil)) end))
    else json (obj end)

abbrev pub wires : Transports
wires = record {
  World = ℕ;
  Transport = Bytes;
  start = λ t w. (true, w + 1);
  send = λ t method params w. (result (answer method), w + 1);
  notify = λ t method params w. (true, w);
  set_handlers = λ t server w. w;
  stop = λ t w. w;
  clock = λ w. w;
}

abbrev pub bench : Environment
bench = record {
  transports = wires;
  path_match = λ pattern_text name. some (equal pattern_text name);
}

abbrev pub everything : Profile
everything = record { servers = []; tool_allow = []; tool_deny = [] }

abbrev pub manager : Manager Bytes
manager = record {
  transports = (text "files", text "wire") ∷ [];
  order = text "files" ∷ [];
  handled = false;
}

abbrev pub gateway : Aggregator bench
gateway = record {
  mgr = manager;
  profile = everything;
  version = text "dev";
  session = no_session;
  init_done = false;
  caps = no_capabilities;
  uri_owners = [];
  sink = some [];
  session_id = text "s";
  audit_all = true;
  world = 0;
}

abbrev pub request : Bytes → Fields → Envelope
request method fields = record {
  jsonrpc = text "2.0";
  id = json (int (pos 1));
  method = method;
  params = json (obj fields);
  result = absent;
  error = none;
}

abbrev pub named : Bytes → Fields
named name = field (text "name") (str name) end
