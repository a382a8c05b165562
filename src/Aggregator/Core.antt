-- ===== src/Aggregator/Core.antt =====
-- internal/aggregator/aggregator.go: the protocol core of one client session. The transports are a
-- parameter, and so is `filepath.Match`; logging is left out.
use garmx.Prelude.{
  ℕ, zero, suc, Bool, true, not, ◌&&◌, Option, none, some, List, [], ◌∷◌, ◌++◌, is_nil, keep,
  if◌then◌else◌,
}
use garmx.Prelude.Bytes.{Bytes, text}
use garmx.Prelude.Assoc.{insert, bytes_eq}
use garmx.Prelude.Json.{Value, obj, end, Raw, absent, json}
use garmx.Mcp.Methods.{method_initialize, method_initialized}
use garmx.Mcp.Versions.{preferred_protocol_version}
use garmx.Mcp.Capabilities.{ServerCapabilities}
use garmx.Mcp.Handshake.{InitializeResult, encode_params, decode_result}
use garmx.Upstream.Transport.{Transports, Reply, result, rpc_error, failure}
use garmx.Upstream.Manager.{Manager, get, names}
use garmx.Aggregator.Profile.{Profile, allows_server, allows_tool}
use garmx.Aggregator.Capabilities.{merge_server_capabilities}
use garmx.Aggregator.Event.{Session, Event}
use garmx.Aggregator.Helpers.{prefix_item_name, item_uri, decode_list, list_params}

-- What the program does not implement itself.
pub record Environment : Type 1 where
  pub transports : Transports
  pub open transports use *
  pub path_match : Bytes → Bytes → Option Bool

-- The aggregator's fields, and the state of the world. `sink` is `none` for the nil sink, and
-- otherwise lists the events recorded so far; `init_done` is the state of `initOnce`.
pub record Aggregator (N : Environment) : Type 0 where
  pub mgr : Manager N.Transport
  pub profile : Profile
  pub version : Bytes
  pub session : Session
  pub init_done : Bool
  pub caps : ServerCapabilities
  pub uri_owners : List (Bytes × Bytes)
  pub sink : Option (List Event)
  pub session_id : Bytes
  pub audit_all : Bool
  pub world : N.World

-- One page: `none` for any of the three errors.
unfoldable pub page_of : Bytes → Reply → Option (List Value × Bytes)
page_of key (result r) = decode_list r key
page_of key (rpc_error e) = none
page_of key failure = none

-- What an upstream's answer to `initialize` is worth: its result, if it has one that decodes.
unfoldable pub initialized_with : Reply → Option InitializeResult
initialized_with (result r) = decode_result r
initialized_with (rpc_error e) = none
initialized_with failure = none

-- Records the owner of each item with a uri.
unfoldable pub record_owners : Bytes → List Value → List (Bytes × Bytes) → List (Bytes × Bytes)
record_owners server [] owners = owners
record_owners server (item ∷ items) owners =
    let uri = item_uri item in
    record_owners server items (if is_nil uri then owners else insert uri server owners)

module _ (N : Environment) where
  open N use {World, Transport, send, notify, path_match}

  -- `servers()`
  unfoldable pub servers : Aggregator N → List Bytes
  servers a = keep (allows_server a.profile) (names a.mgr)

  -- Behind a page: `continue` is the next round.
  unfoldable pub after_page :
      (Bytes → List Value → World → Option (Option (List Value) × World))
      → List Value
      → Option (List Value × Bytes)
      → World
      → Option (Option (List Value) × World)
  after_page continue items none w = some (none, w)
  after_page continue items (some (page, next)) w =
      if is_nil next then some (some (items ++ page), w) else continue next (items ++ page) w

  -- `drain`, on fuel: an upstream may hand out cursors forever. `none` means that the fuel ran out,
  -- and `some (none, _)` that a page was an error.
  unfoldable pub drain :
      ℕ
      → Transport
      → Bytes
      → Bytes
      → Bytes
      → List Value
      → World
      → Option (Option (List Value) × World)
  unfolding after_page page_of
  drain zero t method key cursor items w = none
  drain (suc fuel) t method key cursor items w =
      let (reply, w') = send t method (list_params cursor) w in
      after_page (drain fuel t method key) items (page_of key reply) w'

  -- The items of one upstream under their exposed names, through the tool filter if there is one.
  unfoldable pub expose : Aggregator N → Bool → Bytes → List Value → List Value
  expose a tool_filter server [] = []
  expose a tool_filter server (item ∷ items) =
      let rest = expose a tool_filter server items in
      elim (prefix_item_name server item) [
        | none ↦ rest
        | some (exposed, rewritten) ↦
            if tool_filter && not (allows_tool path_match a.profile exposed)
            then rest
            else rewritten ∷ rest
      ]

  -- Behind the drain of one upstream: an error skips it.
  unfoldable pub add_prefixed :
      (List Value → Aggregator N → Option (List Value × Aggregator N))
      → Bool
      → Bytes
      → List Value
      → Aggregator N
      → Option (Option (List Value) × World)
      → Option (List Value × Aggregator N)
  unfolding expose
  add_prefixed continue tool_filter server items a none = none
  add_prefixed continue tool_filter server items a (some (none, w)) =
      continue items (record a { world = w })
  add_prefixed continue tool_filter server items a (some (some raw, w)) =
      continue (items ++ expose a tool_filter server raw) (record a { world = w })

  -- The loop of `handlePrefixedList` over the servers in scope.
  unfoldable pub prefixed_from :
      ℕ
      → Bytes
      → Bytes
      → Bool
      → List Bytes
      → List Value
      → Aggregator N
      → Option (List Value × Aggregator N)
  unfolding add_prefixed
  prefixed_from fuel method key tool_filter [] items a = some (items, a)
  prefixed_from fuel method key tool_filter (server ∷ rest) items a = elim (get a.mgr server) [
    | none ↦ prefixed_from fuel method key tool_filter rest items a
    | some t ↦
        add_prefixed (prefixed_from fuel method key tool_filter rest) tool_filter server items a
          (drain fuel t method key [] [] a.world)
  ]

  unfoldable pub add_resources :
      (List Value → Aggregator N → Option (List Value × Aggregator N))
      → Bool
      → Bytes
      → List Value
      → Aggregator N
      → Option (Option (List Value) × World)
      → Option (List Value × Aggregator N)
  unfolding record_owners
  add_resources continue recording server items a none = none
  add_resources continue recording server items a (some (none, w)) =
      continue items (record a { world = w })
  add_resources continue recording server items a (some (some raw, w)) =
      continue (items ++ raw) (record a {
        world = w;
        uri_owners = if recording then record_owners server raw a.uri_owners else a.uri_owners;
      })

  -- The loop of `handleResourcesList`.
  unfoldable pub resources_from :
      ℕ
      → Bytes
      → Bytes
      → Bool
      → List Bytes
      → List Value
      → Aggregator N
      → Option (List Value × Aggregator N)
  unfolding add_resources
  resources_from fuel method key recording [] items a = some (items, a)
  resources_from fuel method key recording (server ∷ rest) items a = elim (get a.mgr server) [
    | none ↦ resources_from fuel method key recording rest items a
    | some t ↦
        add_resources (resources_from fuel method key recording rest) recording server items a
          (drain fuel t method key [] [] a.world)
  ]

  -- The parameters of GarmX's own `initialize`.
  abbrev pub own_params : Aggregator N → Raw
  own_params a =
      elim (encode_params (record {
        protocol_version = preferred_protocol_version;
        capabilities = json (obj end);
        client_info = record {
          name = text "garmx";
          title = [];
          version = a.version;
          description = [];
          website_url = [];
        };
      })) [ none ↦ absent | some v ↦ json v ]

  -- One round of `ensureUpstreams`.
  unfoldable pub handshake : Raw → Bytes → Aggregator N → Aggregator N
  unfolding initialized_with
  handshake params server a = elim (get a.mgr server) [
    | none ↦ a
    | some t ↦
        let (reply, w) = send t method_initialize params a.world in
        elim (initialized_with reply) [
          | none ↦ record a { world = w }
          | some res ↦
              let (delivered, w') = notify t method_initialized absent w in
              record a {
                world = w';
                caps = merge_server_capabilities (a.caps ∷ res.capabilities ∷ []);
              }
        ]
  ]

  unfoldable pub handshake_from : Raw → List Bytes → Aggregator N → Aggregator N
  unfolding handshake
  handshake_from params [] a = a
  handshake_from params (server ∷ rest) a = handshake_from params rest (handshake params server a)

  unfoldable pub ensure_upstreams : Aggregator N → Aggregator N
  unfolding handshake_from
  ensure_upstreams a =
      if a.init_done
      then a
      else handshake_from (own_params a) (servers a) (record a { init_done = true })
