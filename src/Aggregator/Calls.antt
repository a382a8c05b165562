-- ===== src/Aggregator/Calls.antt =====
-- Routed calls: `tools/call` and `prompts/get`.
pub mod Forwarding
pub mod Exposure
pub mod Requests
pub mod Listed
use garmx.Prelude.{
  ℕ, zero, suc, ◌+◌, ◌-◌, ◌≤◌, ◌≡◌, ◌≢◌, refl, sym, ap, ◌∙◌, subst, Bool, true, false, not, ◌&&◌,
  ◌||◌, Option, none, some, List, [], ◌∷◌, ◌++◌, is_nil, is_some, if◌then◌else◌, arith, ◌⊎◌, ◌↔◌,
  inl, inr, Bool-cases, Option-cases, ok,
}
use garmx.Prelude.Bytes.{Bytes, text}
use garmx.Prelude.Json.{Value, str, obj, Fields, Raw, json, insert, to_map, string_at}
use garmx.Mcp.Message.{Response, Envelope, code_invalid_params, new_error}
use garmx.Upstream.Manager.{get}
use garmx.Aggregator.Naming.{prefix, split, validate_server_name}
use garmx.Aggregator.Naming.Split.{split-prefix, split_sound}
use garmx.Aggregator.Profile.{allows_server, allows_tool}
use garmx.Aggregator.Core.{Environment, Aggregator}
use garmx.Aggregator.Event.{Event}
use garmx.Aggregator.Handlers.{
  bad_params, handle_named_call, call_named, routed, forward, response_to, fill_response, event_of,
  record_call,
}

module _ (N : Environment) where
  open N use {World, Transport, send, path_match}

  -- The call is refused: the client gets an error, and nothing else happens.
  pub record Refused (a : Aggregator N) (env : Envelope) (r : Response × Aggregator N)
      : Type 0 where
    pub message : Bytes
    pub answer : r.0 ≡ bad_params env.id message
    pub unchanged : r.1 ≡ a

  -- The call names an original name of a registered server in scope, and no filter hides it. It goes
  -- to that server's transport with the name replaced by the original one.
  pub record Routed (a : Aggregator N) (env : Envelope) (method : Bytes) (tool_filter : Bool)
      (r : Response × Aggregator N) : Type 0 where
    pub fields : Fields
    pub server : Bytes
    pub original : Bytes
    pub transport : Transport
    pub decoded : to_map env.params ≡ some fields
    pub named : string_at (text "name") fields ≡ some (prefix server original)
    pub valid : validate_server_name server ≡ ok tt
    pub original_ne_nil : original ≢ []
    pub in_scope : allows_server a.profile server ≡ true
    pub visible :
        tool_filter ≡ true → allows_tool path_match a.profile (prefix server original) ≡ true
    pub found : get a.mgr server ≡ some transport
    pub sent :
        r
        ≡ routed N a env transport method
            (json (obj (insert (text "name") (str original) fields)))
            server
            (prefix server original)
            original

  refuse :
      (a : Aggregator N) (env : Envelope) {r : Response × Aggregator N} (message : Bytes)
      → r ≡ (bad_params env.id message, a)
      → Refused a env r
  refuse a env message e = record {
    message = message;
    answer = ap (λ r. r.0) e;
    unchanged = ap (λ r. r.1) e;
  }

  call_named-cases :
      (a : Aggregator N) (env : Envelope) (method : Bytes) (tool_filter : Bool) (fields : Fields)
      (exposed : Bytes)
      → to_map env.params ≡ some fields
      → string_at (text "name") fields ≡ some exposed
      → Refused a env (call_named N a env method tool_filter fields exposed)
        ⊎ Routed a env method tool_filter (call_named N a env method tool_filter fields exposed)
  unfolding call_named
  call_named-cases a env method tool_filter fields exposed d n =
      elim (Option-cases (split exposed)) [
        | inl e ↦ inl (refuse a env (text "unknown or filtered name: " ++ exposed) (ground arith))
        | inr ((server, original), e) ↦
            elim (Bool-cases (
              not (allows_server a.profile server)
              || (tool_filter && not (allows_tool path_match a.profile exposed)))) [
                | inl hidden ↦
                    inl (refuse a env (text "unknown or filtered name: " ++ exposed) (ground arith))
                | inr shown ↦ elim (Option-cases (get a.mgr server)) [
                  | inl missing ↦
                      inl (refuse a env (text "unknown server: " ++ server) (ground arith))
                  | inr (t, g) ↦
                      let (whole, valid, ne) = split_sound exposed server original e in
                      inr (record {
                        fields = fields;
                        server = server;
                        original = original;
                        transport = t;
                        decoded = d;
                        named = n ∙ ap some whole;
                        valid = valid;
                        original_ne_nil = ne;
                        in_scope = ground arith;
                        visible = λ on.
                            subst (λ x. allows_tool path_match a.profile x ≡ true) whole
                              (ground arith);
                        found = g;
                        sent =
                            subst
                              (λ x.
                                call_named N a env method tool_filter fields exposed
                                ≡ routed N a env t method
                                    (json (obj (insert (text "name") (str original) fields))) server
                                    x original)
                              whole (ground arith);
                      })
                ]
              ]
      ]

  -- Every `tools/call` and `prompts/get` is one or the other: refused with an invalid-params error
  -- under the request's id, nothing sent, recorded or changed; or routed, to the transport of a
  -- registered server in scope whose name and an original name make up the requested one, and for
  -- tools only if the profile lets the name through.
  pub handle_named_call-cases :
      (a : Aggregator N) (env : Envelope) (method : Bytes) (tool_filter : Bool)
      → Refused a env (handle_named_call N a env method tool_filter)
        ⊎ Routed a env method tool_filter (handle_named_call N a env method tool_filter)
  unfolding handle_named_call
  handle_named_call-cases a env method tool_filter = elim (Option-cases (to_map env.params)) [
    | inl e ↦ inl (refuse a env (text "invalid params for " ++ method) (ground arith))
    | inr (fields, d) ↦ elim (Option-cases (string_at (text "name") fields)) [
      | inl e ↦ inl (refuse a env (text "missing or invalid name for " ++ method) (ground arith))
      | inr (exposed, n) ↦
          let same : handle_named_call N a env method tool_filter
              ≡ call_named N a env method tool_filter fields exposed =
            ground arith in
          subst (λ r. Refused a env r ⊎ Routed a env method tool_filter r) (sym same)
            (call_named-cases a env method tool_filter fields exposed d n)
    ]
  ]
