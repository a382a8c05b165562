-- ===== src/Aggregator/Dispatch.antt =====
-- `Handle`, `dispatch` and `HandleNotification` of internal/aggregator/aggregator.go.
pub mod Cases
use garmx.Prelude.{
  ℕ, Bool, true, false, not, ◌&&◌, Option, none, some, List, [], ◌∷◌, ◌++◌, ◌>>=◌, is_some,
  if◌then◌else◌,
}
use garmx.Prelude.Bytes.{Bytes, text, equal}
use garmx.Prelude.Json.{obj, end, json}
use garmx.Mcp.Message.{Response, Envelope, new_response, new_error_response, code_method_not_found}
use garmx.Mcp.Methods.{
  method_initialize, method_initialized, method_ping, method_tools_list, method_tools_call,
  method_prompts_list, method_prompts_get, method_resources_list, method_resources_read,
  method_resources_template_list,
}
use garmx.Aggregator.Core.{Environment, Aggregator}
use garmx.Aggregator.Handlers.{
  handle_initialize, handle_prefixed_list, handle_resources_list, handle_named_call,
  handle_resources_read, is_call_method, record_generic,
}

module _ (N : Environment) where
  unfoldable pub dispatch : ℕ → Aggregator N → Envelope → Option (Response × Aggregator N)
  dispatch fuel a env =
      let m = env.method in
      if equal m method_initialize
      then some (handle_initialize N a env)
      else if equal m method_ping
      then some (new_response env.id (json (obj end)), a)
      else if equal m method_tools_list
      then handle_prefixed_list N fuel a env method_tools_list (text "tools") true
      else if equal m method_prompts_list
      then handle_prefixed_list N fuel a env method_prompts_list (text "prompts") false
      else if equal m method_resources_list
      then handle_resources_list N fuel a env method_resources_list (text "resources") true
      else if equal m method_resources_template_list
      then handle_resources_list N fuel a env method_resources_template_list
          (text "resourceTemplates") false
      else if equal m method_tools_call
      then some (handle_named_call N a env method_tools_call true)
      else if equal m method_prompts_get
      then some (handle_named_call N a env method_prompts_get false)
      else if equal m method_resources_read
      then some (handle_resources_read N a env)
      else some
          (new_error_response env.id code_method_not_found (text "method not found: " ++ m), a)

  unfoldable pub recorded : Envelope → ℕ → Response × Aggregator N → Response × Aggregator N
  unfolding record_generic
  recorded env start (resp, a) = (resp, record_generic N env resp start a)

  unfoldable pub handle : ℕ → Aggregator N → Envelope → Option (Response × Aggregator N)
  unfolding recorded
  handle fuel a env =
      if is_some a.sink && (a.audit_all && not (is_call_method env.method))
      then (dispatch fuel a env >>= λ r. some (recorded env (N.clock a.world) r))
      else dispatch fuel a env

  unfoldable pub handle_notification : Aggregator N → Envelope → Aggregator N
  handle_notification a env =
      if equal env.method method_initialized
      then record a { session = record (a.session) { initialized = true } }
      else a
