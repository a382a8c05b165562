-- ===== src/Aggregator/Answers.antt =====
-- Every request is answered, under its own id.
use garmx.Prelude.{
  ℕ, ◌≡◌, refl, sym, subst, Bool, false, not, ◌&&◌, Option, none, some, List, [], ◌∷◌, ◌++◌, is_nil,
  is_some, if◌then◌else◌, arith, ◌⊎◌, inl, inr, Bool-cases, Option-cases, if_both, ◌>>=◌,
}
use garmx.Prelude.Bytes.{Bytes, text}
use garmx.Prelude.Json.{Value, Raw, absent}
use garmx.Prelude.Assoc.{bytes_eq}
use garmx.Mcp.Message.{Response, Envelope, jsonrpc_version}
use garmx.Upstream.Manager.{get}
use garmx.Aggregator.Core.{
  Environment, Aggregator, servers, drain, prefixed_from, resources_from, expose, record_owners,
}
use garmx.Aggregator.Helpers.{decode_string_struct, has_cursor, list_response}
use garmx.Aggregator.Handlers.{
  handle_initialize, handle_prefixed_list, handle_resources_list, handle_named_call,
  handle_resources_read, read_resource, routed, bad_params, cursor_refused, is_call_method,
}
use garmx.Aggregator.Calls.{handle_named_call-cases}
use garmx.Aggregator.Dispatch.Cases.{dispatch_cases}
use garmx.Aggregator.Dispatch.{dispatch, recorded, handle}

module _ (N : Environment) where
  open N use {World, Transport, send}

  -- Every upstream's pages end after `fuel` requests at the latest.
  abbrev pub EndsWithin : ℕ → Type 0
  EndsWithin fuel =
      (t : Transport) (method key : Bytes) (w : World)
      → (r : Option (List Value) × World) × (drain N fuel t method key [] [] w ≡ some r)

  -- A JSON-RPC response to the request: under its id, and not both a result and an error.
  pub record Answers (env : Envelope) (resp : Response) : Type 0 where
    pub id_echoed : resp.id ≡ env.id
    pub version_set : resp.jsonrpc ≡ jsonrpc_version
    pub not_both : (resp.result ≡ absent) ⊎ (resp.error ≡ none)

  -- There is a response, and it answers the request.
  abbrev pub Replies : Envelope → Option (Response × Aggregator N) → Type 0
  Replies env r = (resp : Response) × (a : Aggregator N) × (r ≡ some (resp, a)) × Answers env resp

  drained_cases :
      {o : Option (Option (List Value) × World)} (r : Option (List Value) × World)
      → o ≡ some r
      → ((w : World) × (o ≡ some (none, w)))
        ⊎ ((raw : List Value) × (w : World) × (o ≡ some (some raw, w)))
  drained_cases (none, w) e = inl (w, e)
  drained_cases (some raw, w) e = inr (raw, w, e)

  drained :
      (fuel : ℕ) (t : Transport) (method key : Bytes) (w : World)
      → (r : Option (List Value) × World) × (drain N fuel t method key [] [] w ≡ some r)
      → ((u : World) × (drain N fuel t method key [] [] w ≡ some (none, u)))
        ⊎ ((raw : List Value) × (u : World) × (drain N fuel t method key [] [] w
              ≡ some (some raw, u)))
  drained fuel t method key w (r, e) = drained_cases r e

  pub prefixed_from-total :
      (fuel : ℕ)
      → EndsWithin fuel
      → (method key : Bytes) (tool_filter : Bool) (names : List Bytes) (items : List Value)
        (a : Aggregator N)
      → (out : List Value) × (w : World) × (prefixed_from N fuel method key tool_filter names items
            a
          ≡ some (out, record a { world = w }))
  unfolding prefixed_from
  prefixed_from-total fuel ends method key tool_filter [] items a = (items, a.world, refl)
  prefixed_from-total fuel ends method key tool_filter (n ∷ ns) items a =
      elim (Option-cases (get a.mgr n)) [
        | inl e ↦
            let (o, v, q) = prefixed_from-total fuel ends method key tool_filter ns items a in
            (o, v, ground arith)
        | inr (t, e) ↦ elim (drained fuel t method key a.world (ends t method key a.world)) [
          | inl (w, d) ↦
              let (o, v, q) =
                prefixed_from-total fuel ends method key tool_filter ns items
                  (record a { world = w }) in
              (o, v, ground arith)
          | inr (raw, w, d) ↦
              let (o, v, q) =
                prefixed_from-total fuel ends method key tool_filter ns
                  (items ++ expose N a tool_filter n raw) (record a { world = w }) in
              (o, v, ground arith)
        ]
      ]

  pub resources_from-total :
      (fuel : ℕ)
      → EndsWithin fuel
      → (method key : Bytes) (recording : Bool) (names : List Bytes) (items : List Value)
        (a : Aggregator N)
      → (out : List Value) × (w : World) × (owners : List (Bytes × Bytes)) × (resources_from N fuel
            method key recording names items a
          ≡ some (out, record a { world = w; uri_owners = owners }))
  unfolding resources_from
  resources_from-total fuel ends method key recording [] items a =
      (items, a.world, a.uri_owners, refl)
  resources_from-total fuel ends method key recording (n ∷ ns) items a =
      elim (Option-cases (get a.mgr n)) [
        | inl e ↦
            let (o, v, u, q) = resources_from-total fuel ends method key recording ns items a in
            (o, v, u, ground arith)
        | inr (t, e) ↦ elim (drained fuel t method key a.world (ends t method key a.world)) [
          | inl (w, d) ↦
              let (o, v, u, q) =
                resources_from-total fuel ends method key recording ns items
                  (record a { world = w }) in
              (o, v, u, ground arith)
          | inr (raw, w, d) ↦
              let (o, v, u, q) =
                resources_from-total fuel ends method key recording ns (items ++ raw) (record a {
                  world = w;
                  uri_owners = if recording then record_owners n raw a.uri_owners else a.uri_owners;
                }) in
              (o, v, u, ground arith)
        ]
      ]

  routed-Answers :
      (a : Aggregator N) (env : Envelope) (t : Transport) (method : Bytes) (params : Raw)
      (server exposed original : Bytes)
      → Answers env (routed N a env t method params server exposed original).0
  unfolding routed
  routed-Answers a env t method params server exposed original = ground arith

  refusal-Answers : (env : Envelope) (message : Bytes) → Answers env (bad_params env.id message)
  refusal-Answers env message = record { id_echoed = refl; version_set = refl; not_both = inl refl }

  handle_initialize-Answers :
      (a : Aggregator N) (env : Envelope) → Answers env (handle_initialize N a env).0
  unfolding handle_initialize
  handle_initialize-Answers a env = ground arith

  handle_named_call-Answers :
      (a : Aggregator N) (env : Envelope) (method : Bytes) (tool_filter : Bool)
      → Answers env (handle_named_call N a env method tool_filter).0
  unfolding handle_named_call
  handle_named_call-Answers a env method tool_filter =
      elim (handle_named_call-cases N a env method tool_filter) [
        | inl refused ↦
            subst (Answers env) (sym refused.answer) (refusal-Answers env refused.message)
        | inr through ↦
            subst (λ r. Answers env r.0) (sym through.sent)
              (routed-Answers a env through.transport method _ through.server _ through.original)
      ]

  read_resource-Answers :
      (a : Aggregator N) (env : Envelope) (uri : Bytes) → Answers env (read_resource N a env uri).0
  unfolding read_resource routed
  read_resource-Answers a env uri = ground arith

  handle_resources_read-Answers :
      (a : Aggregator N) (env : Envelope) → Answers env (handle_resources_read N a env).0
  unfolding handle_resources_read read_resource
  handle_resources_read-Answers a env =
      elim (Option-cases (decode_string_struct (text "uri") env.params)) [
        | inl e ↦ ground (arith, refusal-Answers env (text "missing uri for resources/read"))
        | inr (uri, e) ↦ elim (Bool-cases (is_nil uri)) [
          | inl b ↦ ground (arith, refusal-Answers env (text "missing uri for resources/read"))
          | inr b ↦
              subst (λ r. Answers env r.0) (sym (read-eq uri e b)) (read_resource-Answers a env uri)
        ]
      ]
    where
      read-eq :
          (uri : Bytes)
          → decode_string_struct (text "uri") env.params ≡ some uri
          → is_nil uri ≡ false
          → handle_resources_read N a env ≡ read_resource N a env uri
      read-eq uri e b = ground arith

  module _ (fuel : ℕ) (ends : EndsWithin fuel) (a : Aggregator N) (env : Envelope)
      (method key : Bytes) (flag : Bool) where
    handle_prefixed_list-Replies : Replies env (handle_prefixed_list N fuel a env method key flag)
    unfolding handle_prefixed_list list_response
    handle_prefixed_list-Replies =
        let (o, v, q) = prefixed_from-total fuel ends method key flag (servers N a) [] a in
        elim (Bool-cases (has_cursor env.params)) [
          | inl c ↦ (
            cursor_refused N env.id,
            a,
            ground arith,
            record { id_echoed = refl; version_set = refl; not_both = inl refl },
          )
          | inr c ↦ (
            list_response env.id key o,
            record a { world = v },
            ground arith,
            record { id_echoed = refl; version_set = refl; not_both = inr refl },
          )
        ]

    handle_resources_list-Replies : Replies env (handle_resources_list N fuel a env method key flag)
    unfolding handle_resources_list list_response
    handle_resources_list-Replies =
        let (o, v, u, q) = resources_from-total fuel ends method key flag (servers N a) [] a in
        elim (Bool-cases (has_cursor env.params)) [
          | inl c ↦ (
            cursor_refused N env.id,
            a,
            ground arith,
            record { id_echoed = refl; version_set = refl; not_both = inl refl },
          )
          | inr c ↦ (
            list_response env.id key o,
            record a { world = v; uri_owners = u },
            ground arith,
            record { id_echoed = refl; version_set = refl; not_both = inr refl },
          )
        ]

  given : (env : Envelope) (r : Response × Aggregator N) → Answers env r.0 → Replies env (some r)
  given env r h = (r.0, r.1, refl, h)

  dispatch-Replies :
      (fuel : ℕ)
      → EndsWithin fuel
      → (a : Aggregator N) (env : Envelope) → Replies env (dispatch N fuel a env)
  dispatch-Replies fuel ends a env = dispatch_cases N (Replies env) fuel a env (record {
    initialize = given env _ (handle_initialize-Answers a env);
    ping = given env _ (record { id_echoed = refl; version_set = refl; not_both = inr refl });
    prefixed = handle_prefixed_list-Replies fuel ends a env;
    resources = handle_resources_list-Replies fuel ends a env;
    named = λ _ method flag. given env _ (handle_named_call-Answers a env method flag);
    read = λ _. given env _ (handle_resources_read-Answers a env);
    unknown = given env _ (record { id_echoed = refl; version_set = refl; not_both = inl refl });
  })

  -- If the upstreams' pages end, every request gets a response: under the request's id, and never
  -- with both a result and an error, whatever the method and however the upstreams answer.
  pub handle-Replies :
      (fuel : ℕ)
      → EndsWithin fuel
      → (a : Aggregator N) (env : Envelope) → Replies env (handle N fuel a env)
  unfolding handle recorded
  handle-Replies fuel ends a env =
      let (resp, a', e, h) = dispatch-Replies fuel ends a env in
      if_both (Replies env) (is_some a.sink && (a.audit_all && not (is_call_method env.method)))
        (subst (λ d. Replies env (d >>= λ r. some (recorded N env (N.clock a.world) r))) (sym e)
          (given env (recorded N env (N.clock a.world) (resp, a')) h))
        (resp, a', e, h)
