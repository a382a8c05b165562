-- ===== src/Aggregator/Calls/Requests.antt =====
-- The requests `tools/call` and `prompts/get`, as the dispatcher runs them.
use garmx.Prelude.{ℕ, ◌≡◌, true, false, some, arith, ◌⊎◌, inl, inr}
use garmx.Prelude.Bytes.{equal}
use garmx.Mcp.Message.{Response, Envelope}
use garmx.Mcp.Methods.{method_tools_call, method_prompts_get}
use garmx.Aggregator.Core.{Environment, Aggregator}
use garmx.Aggregator.Handlers.{handle_named_call, is_call_method}
use garmx.Aggregator.Dispatch.{dispatch, handle}
use garmx.Aggregator.Calls.{Refused, Routed, handle_named_call-cases}
use garmx.Aggregator.Calls.Forwarding.{handle_tools_call}

module _ (N : Environment) where
  -- The dispatcher sends `prompts/get` to its handler, whatever the audit scope.
  handle_prompts_get :
      (fuel : ℕ) (a : Aggregator N) (env : Envelope)
      → env.method ≡ method_prompts_get
      → handle N fuel a env ≡ some (handle_named_call N a env method_prompts_get false)
  unfolding handle dispatch is_call_method equal
  handle_prompts_get fuel a env m = ground (arith, m)

  -- Every `tools/call` is answered, and refused or routed. A refused one gets an invalid-params
  -- error under its id, and nothing is sent, recorded or changed. A routed one goes to the transport
  -- of a registered server in scope whose name and an original name make up the requested one, and
  -- the profile's tool filter lets that name through. The same holds of every `prompts/get`, less
  -- the tool filter.
  pub call_cases :
      (fuel : ℕ) (a : Aggregator N) (env : Envelope)
      → (env.method ≡ method_tools_call) ⊎ (env.method ≡ method_prompts_get)
      → (r : Response × Aggregator N) × (handle N fuel a env ≡ some r)
        × (Refused N a env r
            ⊎ (((env.method ≡ method_tools_call) × Routed N a env method_tools_call true r)
                ⊎ ((env.method ≡ method_prompts_get) × Routed N a env method_prompts_get false r)))
  call_cases fuel a env (inl m) = (
    handle_named_call N a env method_tools_call true,
    handle_tools_call N fuel a env m,
    elim (handle_named_call-cases N a env method_tools_call true) [
      | inl refused ↦ inl refused
      | inr sent ↦ inr (inl (m, sent))
    ],
  )
  call_cases fuel a env (inr m) = (
    handle_named_call N a env method_prompts_get false,
    handle_prompts_get fuel a env m,
    elim (handle_named_call-cases N a env method_prompts_get false) [
      | inl refused ↦ inl refused
      | inr sent ↦ inr (inr (m, sent))
    ],
  )
