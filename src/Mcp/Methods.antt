-- ===== src/Mcp/Methods.antt =====
-- pkg/mcp/methods.go: method names, and the parties' identities.
use garmx.Prelude.Bytes.{Bytes, text}

abbrev pub method_initialize : Bytes
method_initialize = text "initialize"

abbrev pub method_initialized : Bytes
method_initialized = text "notifications/initialized"

abbrev pub method_ping : Bytes
method_ping = text "ping"

abbrev pub method_tools_list : Bytes
method_tools_list = text "tools/list"

abbrev pub method_tools_call : Bytes
method_tools_call = text "tools/call"

abbrev pub method_prompts_list : Bytes
method_prompts_list = text "prompts/list"

abbrev pub method_prompts_get : Bytes
method_prompts_get = text "prompts/get"

abbrev pub method_resources_list : Bytes
method_resources_list = text "resources/list"

abbrev pub method_resources_read : Bytes
method_resources_read = text "resources/read"

abbrev pub method_resources_template_list : Bytes
method_resources_template_list = text "resources/templates/list"

pub record Implementation : Type 0 where
  pub name : Bytes
  pub title : Bytes
  pub version : Bytes
  pub description : Bytes
  pub website_url : Bytes
