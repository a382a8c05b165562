-- ===== src/Aggregator/Greeting.antt =====
-- The handshake with the upstreams, and the answer to `initialize`.
use garmx.Prelude.{◌≡◌, true, false, none, some, List, [], ◌∷◌, ◌⊎◌}
use garmx.Prelude.Bytes.{Bytes, text}
use garmx.Prelude.Json.{Raw, absent}
use garmx.Mcp.Methods.{method_initialize, method_initialized}
use garmx.Mcp.Capabilities.{ServerCapabilities}
use garmx.Mcp.Handshake.{InitializeParams, InitializeResult}
use garmx.Upstream.Manager.{Manager, get}
use garmx.Aggregator.Capabilities.{negotiate_client_version}
use garmx.Aggregator.Event.{Session}
use garmx.Aggregator.Core.{Environment, Aggregator, initialized_with, own_params, servers}

module _ (N : Environment) where
  open N use {World, Transport, send, notify}

  -- Each server in turn is sent one `initialize`, and, if its answer can be used, one `initialized`.
  -- Then its capabilities count; one that fails is passed over.
  pub data Greets (m : Manager Transport) (params : Raw)
      : List Bytes → World → List ServerCapabilities → World → Type 0 where
    greeted_all : {w : World} → Greets m params [] w [] w
    missing :
        {server : Bytes} {rest : List Bytes} {w u : World} {cs : List ServerCapabilities}
        → get m server ≡ none
        → Greets m params rest w cs u
        → Greets m params (server ∷ rest) w cs u
    fails :
        {server : Bytes} {rest : List Bytes} {w u : World} {cs : List ServerCapabilities}
        {t : Transport}
        → get m server ≡ some t
        → initialized_with (send t method_initialize params w).0 ≡ none
        → Greets m params rest (send t method_initialize params w).1 cs u
        → Greets m params (server ∷ rest) w cs u
    greets :
        {server : Bytes} {rest : List Bytes} {w u : World} {cs : List ServerCapabilities}
        {t : Transport} {res : InitializeResult}
        → get m server ≡ some t
        → initialized_with (send t method_initialize params w).0 ≡ some res
        → Greets m params rest
            (notify t method_initialized absent (send t method_initialize params w).1).1
            cs
            u
        → Greets m params (server ∷ rest) w (res.capabilities ∷ cs) u

  -- What `initialize` does at first, and what it does later.
  abbrev pub Greeted : Aggregator N → List ServerCapabilities → World → Type 0
  Greeted a cs u =
      ((a.init_done ≡ false) × Greets a.mgr (own_params N a) (servers N a) a.world cs u)
      ⊎ ((a.init_done ≡ true) × (cs ≡ []) × (u ≡ a.world))

  -- The session that an `initialize` begins, and what it is told of GarmX.
  abbrev pub begun : InitializeParams → Session
  begun params = record {
    protocol_version = negotiate_client_version params.protocol_version;
    client_info = params.client_info;
    client_capabilities = params.capabilities;
    initialized = false;
  }

  abbrev pub welcome : Aggregator N → InitializeParams → ServerCapabilities → InitializeResult
  welcome a params caps = record {
    protocol_version = negotiate_client_version params.protocol_version;
    capabilities = caps;
    server_info = record {
      name = text "garmx";
      title = text "GarmX";
      version = a.version;
      description = [];
      website_url = [];
    };
    instructions = text "GarmX aggregating MCP gateway.";
  }
