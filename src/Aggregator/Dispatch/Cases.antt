-- ===== src/Aggregator/Dispatch/Cases.antt =====
-- One rule for the dispatcher: what holds of each handler's outcome holds of the request's.
use garmx.Prelude.{
  ℕ, ◌≡◌, Bool, true, false, Option, some, ◌++◌, arith, if_both, if_cases, ◌⊎◌, inl, inr,
}
use garmx.Prelude.Bytes.{Bytes, text, equal}
use garmx.Prelude.Json.{obj, end, json}
use garmx.Mcp.Message.{Response, Envelope, new_response, new_error_response, code_method_not_found}
use garmx.Mcp.Methods.{
  method_tools_list, method_tools_call, method_prompts_list, method_prompts_get,
  method_resources_list, method_resources_read, method_resources_template_list,
}
use garmx.Aggregator.Core.{Environment, Aggregator}
use garmx.Aggregator.Handlers.{
  handle_initialize, handle_prefixed_list, handle_resources_list, handle_named_call,
  handle_resources_read, is_call_method,
}
use garmx.Aggregator.Dispatch.{dispatch}

module _ (N : Environment) where
  pub record Handled (P : Option (Response × Aggregator N) → Type 0) (fuel : ℕ) (a : Aggregator N)
      (env : Envelope) : Type 0 where
    pub initialize : P (some (handle_initialize N a env))
    pub ping : P (some (new_response env.id (json (obj end)), a))
    pub prefixed :
        (method key : Bytes) (flag : Bool) → P (handle_prefixed_list N fuel a env method key flag)
    pub resources :
        (method key : Bytes) (flag : Bool) → P (handle_resources_list N fuel a env method key flag)
    pub named :
        is_call_method env.method ≡ true
        → (method : Bytes) (flag : Bool) → P (some (handle_named_call N a env method flag))
    pub read : is_call_method env.method ≡ true → P (some (handle_resources_read N a env))
    pub unknown : P (
        some (
          new_error_response env.id code_method_not_found (text "method not found: " ++ env.method),
          a,
        ))

  is_call :
      (m : Bytes)
      → ((equal m method_tools_call ≡ true) ⊎ (equal m method_prompts_get ≡ true))
        ⊎ (equal m method_resources_read ≡ true)
      → is_call_method m ≡ true
  unfolding is_call_method
  is_call m h = ground arith

  pub dispatch_cases :
      (P : Option (Response × Aggregator N) → Type 0) (fuel : ℕ) (a : Aggregator N) (env : Envelope)
      → Handled P fuel a env
      → P (dispatch N fuel a env)
  unfolding dispatch
  dispatch_cases P fuel a env h = if_both P _ h.initialize (
      if_both P _ h.ping (
        if_both P _ (h.prefixed method_tools_list (text "tools") true) (
          if_both P _ (h.prefixed method_prompts_list (text "prompts") false) (
            if_both P _ (h.resources method_resources_list (text "resources") true) (
              if_both P _
                (h.resources method_resources_template_list (text "resourceTemplates") false)
                (if_cases P _
                  (λ c. h.named (is_call env.method (inl (inl c))) method_tools_call true)
                  (λ _.
                    if_cases P _
                      (λ c. h.named (is_call env.method (inl (inr c))) method_prompts_get false)
                      (λ _.
                        if_cases P _ (λ c. h.read (is_call env.method (inr c)))
                          (λ _. h.unknown)))))))))
