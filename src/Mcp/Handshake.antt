-- ===== src/Mcp/Handshake.antt =====
-- The payloads of `initialize` in pkg/mcp/methods.go and capabilities.go, as JSON documents: what
-- `json.Marshal` writes for them and what `json.Unmarshal` reads into them.
use garmx.Prelude.{Bool, true, false, Option, none, some, [], ◌>>=◌, is_nil, if◌then◌else◌}
use garmx.Prelude.Bytes.{Bytes, text}
use garmx.Prelude.Utf8.{coerce}
use garmx.Prelude.Json.{
  Value, null, bool, str, obj, Fields, end, field, Raw, absent, malformed, json, assign_string,
}
use garmx.Mcp.Message.{fits}
use garmx.Mcp.Methods.{Implementation}
use garmx.Mcp.Capabilities.{
  ToolsCapability, PromptsCapability, ResourcesCapability, ServerCapabilities, logging, completions,
}

pub record InitializeParams : Type 0 where
  pub protocol_version : Bytes
  pub capabilities : Raw
  pub client_info : Implementation

pub record InitializeResult : Type 0 where
  pub protocol_version : Bytes
  pub capabilities : ServerCapabilities
  pub server_info : Implementation
  pub instructions : Bytes

abbrev pub no_implementation : Implementation
no_implementation = record {
  name = [];
  title = [];
  version = [];
  description = [];
  website_url = [];
}

-- A Go string as JSON, where each invalid byte is replaced.
abbrev pub string_value : Bytes → Value
string_value s = str (coerce s)

-- A field written only if it is not empty.
abbrev pub omit_empty : Bytes → Bytes → Fields → Fields
omit_empty key s rest = if is_nil s then rest else field key (string_value s) rest

abbrev pub omit_false : Bytes → Bool → Fields → Fields
omit_false key b rest = if b then field key (bool b) rest else rest

encode_implementation : Implementation → Value
encode_implementation i = obj (
    field (text "name") (string_value i.name) (
      omit_empty (text "title") i.title (
        field (text "version") (string_value i.version) (
          omit_empty (text "description") i.description
            (omit_empty (text "websiteUrl") i.website_url end)))))

implementation_field : Implementation → Bytes → Value → Option Implementation
implementation_field i k v =
    if fits k (text "name")
    then (do s ← assign_string i.name v; some (record i { name = s }))
    else if fits k (text "title")
    then (do s ← assign_string i.title v; some (record i { title = s }))
    else if fits k (text "version")
    then (do s ← assign_string i.version v; some (record i { version = s }))
    else if fits k (text "description")
    then (do s ← assign_string i.description v; some (record i { description = s }))
    else if fits k (text "websiteUrl")
    then (do s ← assign_string i.website_url v; some (record i { website_url = s }))
    else some i

implementation_fields : Implementation → Fields → Option Implementation
unfolding implementation_field
implementation_fields i end = some i
implementation_fields i (field k v fs) = do
  j ← implementation_field i k v
  implementation_fields j fs

assign_implementation : Implementation → Value → Option Implementation
unfolding implementation_fields
assign_implementation i (obj fs) = implementation_fields i fs
assign_implementation i null = some i
assign_implementation i v = none

-- The flags of a capability object, as one record for the three kinds.
abbrev Flags : Type 0
Flags = Bool × Bool

assign_bool : Bool → Value → Option Bool
assign_bool b (bool c) = some c
assign_bool b null = some b
assign_bool b v = none

-- `subscribes` says whether the struct has the field `subscribe`.
flag_field : Bool → Flags → Bytes → Value → Option Flags
unfolding assign_bool
flag_field subscribes (s, l) k v =
    if fits k (text "listChanged")
    then (do b ← assign_bool l v; some (s, b))
    else if subscribes
    then (if fits k (text "subscribe") then (do b ← assign_bool s v; some (b, l)) else some (s, l))
    else some (s, l)

flag_fields : Bool → Flags → Fields → Option Flags
unfolding flag_field
flag_fields subscribes f end = some f
flag_fields subscribes f (field k v fs) = do
  g ← flag_field subscribes f k v
  flag_fields subscribes g fs

-- Decoding into a pointer: `null` clears it, an object goes into what it points to.
assign_flags : Bool → Option Flags → Value → Option (Option Flags)
unfolding flag_fields
assign_flags subscribes old null = some none
assign_flags subscribes none (obj fs) = do
  g ← flag_fields subscribes (false, false) fs
  some (some g)
assign_flags subscribes (some f) (obj fs) = do g ← flag_fields subscribes f fs; some (some g)
assign_flags subscribes old v = none

-- The presence of an empty struct.
assign_presence : Value → Option Bool
assign_presence null = some false
assign_presence (obj fs) = some true
assign_presence v = none

abbrev tools_flags : Option ToolsCapability → Option Flags
tools_flags none = none
tools_flags (some c) = some (false, c.list_changed)

abbrev prompts_flags : Option PromptsCapability → Option Flags
prompts_flags none = none
prompts_flags (some c) = some (false, c.list_changed)

abbrev resources_flags : Option ResourcesCapability → Option Flags
resources_flags none = none
resources_flags (some c) = some (c.subscribe, c.list_changed)

abbrev to_tools : Option Flags → Option ToolsCapability
to_tools none = none
to_tools (some (s, l)) = some (record { list_changed = l })

abbrev to_prompts : Option Flags → Option PromptsCapability
to_prompts none = none
to_prompts (some (s, l)) = some (record { list_changed = l })

abbrev to_resources : Option Flags → Option ResourcesCapability
to_resources none = none
to_resources (some (s, l)) = some (record { subscribe = s; list_changed = l })

capability_field : ServerCapabilities → Bytes → Value → Option ServerCapabilities
unfolding assign_flags assign_presence
capability_field c k v =
    if fits k (text "tools")
    then (do f ← assign_flags false (tools_flags c.tools) v; some (record c { tools = to_tools f }))
    else if fits k (text "prompts")
    then (do
      f ← assign_flags false (prompts_flags c.prompts) v
      some (record c { prompts = to_prompts f }))
    else if fits k (text "resources")
    then (do
      f ← assign_flags true (resources_flags c.resources) v
      some (record c { resources = to_resources f }))
    else if fits k (text "logging")
    then (do b ← assign_presence v; some (record c { logging = if b then some logging else none }))
    else if fits k (text "completions")
    then (do
      b ← assign_presence v
      some (record c { completions = if b then some completions else none }))
    else some c

capability_fields : ServerCapabilities → Fields → Option ServerCapabilities
unfolding capability_field
capability_fields c end = some c
capability_fields c (field k v fs) = do d ← capability_field c k v; capability_fields d fs

assign_capabilities : ServerCapabilities → Value → Option ServerCapabilities
unfolding capability_fields
assign_capabilities c (obj fs) = capability_fields c fs
assign_capabilities c null = some c
assign_capabilities c v = none

encode_flags : Flags → Value
encode_flags (s, l) = obj (omit_false (text "subscribe") s (omit_false (text "listChanged") l end))

abbrev omit_none : Bytes → Option Flags → Fields → Fields
omit_none key none rest = rest
omit_none key (some f) rest = field key (encode_flags f) rest

encode_capabilities : ServerCapabilities → Value
unfolding encode_flags
encode_capabilities c = obj (
    omit_none (text "tools") (tools_flags c.tools) (
      omit_none (text "prompts") (prompts_flags c.prompts) (
        omit_none (text "resources") (resources_flags c.resources) (
          omit_none (text "logging") (elim c.logging [ none ↦ none | some l ↦ some (false, false) ])
            (omit_none (text "completions")
              (elim c.completions [ none ↦ none | some l ↦ some (false, false) ]) end)))))

-- `json.Marshal` of an `InitializeParams` whose capabilities are a document.
unfoldable pub encode_params : InitializeParams → Option Value
unfolding encode_implementation
encode_params p = elim p.capabilities [
  | absent ↦ some (
      obj (
        field (text "protocolVersion") (string_value p.protocol_version)
          (field (text "clientInfo") (encode_implementation p.client_info) end)))
  | malformed b ↦ none
  | json v ↦ some (
      obj (
        field (text "protocolVersion") (string_value p.protocol_version) (
          field (text "capabilities") v
            (field (text "clientInfo") (encode_implementation p.client_info) end))))
]

params_field : InitializeParams → Bytes → Value → Option InitializeParams
unfolding assign_implementation
params_field p k v =
    if fits k (text "protocolVersion")
    then (do s ← assign_string p.protocol_version v; some (record p { protocol_version = s }))
    else if fits k (text "capabilities")
    then some (record p { capabilities = json v })
    else if fits k (text "clientInfo")
    then (do i ← assign_implementation p.client_info v; some (record p { client_info = i }))
    else some p

params_fields : InitializeParams → Fields → Option InitializeParams
unfolding params_field
params_fields p end = some p
params_fields p (field k v fs) = do q ← params_field p k v; params_fields q fs

abbrev no_params : InitializeParams
no_params = record { protocol_version = []; capabilities = absent; client_info = no_implementation }

-- `json.Unmarshal` into an `InitializeParams`.
unfoldable pub decode_params : Raw → Option InitializeParams
unfolding params_fields
decode_params (json (obj fs)) = params_fields no_params fs
decode_params (json null) = some no_params
decode_params r = none

unfoldable pub encode_result : InitializeResult → Value
unfolding encode_capabilities encode_implementation
encode_result r = obj (
    field (text "protocolVersion") (string_value r.protocol_version) (
      field (text "capabilities") (encode_capabilities r.capabilities) (
        field (text "serverInfo") (encode_implementation r.server_info)
          (omit_empty (text "instructions") r.instructions end))))

result_field : InitializeResult → Bytes → Value → Option InitializeResult
unfolding assign_capabilities assign_implementation
result_field r k v =
    if fits k (text "protocolVersion")
    then (do s ← assign_string r.protocol_version v; some (record r { protocol_version = s }))
    else if fits k (text "capabilities")
    then (do c ← assign_capabilities r.capabilities v; some (record r { capabilities = c }))
    else if fits k (text "serverInfo")
    then (do i ← assign_implementation r.server_info v; some (record r { server_info = i }))
    else if fits k (text "instructions")
    then (do s ← assign_string r.instructions v; some (record r { instructions = s }))
    else some r

result_fields : InitializeResult → Fields → Option InitializeResult
unfolding result_field
result_fields r end = some r
result_fields r (field k v fs) = do q ← result_field r k v; result_fields q fs

abbrev no_result : InitializeResult
no_result = record {
  protocol_version = [];
  capabilities = record {
    tools = none;
    prompts = none;
    resources = none;
    logging = none;
    completions = none;
  };
  server_info = no_implementation;
  instructions = [];
}

-- `json.Unmarshal` into an `InitializeResult`.
unfoldable pub decode_result : Raw → Option InitializeResult
unfolding result_fields
decode_result (json (obj fs)) = result_fields no_result fs
decode_result (json null) = some no_result
decode_result r = none
