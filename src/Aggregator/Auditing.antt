-- ===== src/Aggregator/Auditing.antt =====
-- Which requests are recorded.
use mathlib.Core.Bool.{false≢true}
use garmx.Prelude.{
  ℕ, ◌-◌, ◌≡◌, refl, sym, ◌∙◌, Bool, true, false, Option, some, List, [], ◌∷◌, ◌++◌, if◌then◌else◌,
  arith, inl, inr, Bool-cases,
}
use garmx.Prelude.Bytes.{Bytes}
use garmx.Prelude.Json.{Raw}
use garmx.Mcp.Message.{Response, Envelope}
use garmx.Aggregator.Event.{Event}
use garmx.Aggregator.Core.{
  Environment, Aggregator, servers, handshake, handshake_from, own_params, ensure_upstreams,
}
use garmx.Aggregator.Helpers.{has_cursor, list_response}
use garmx.Aggregator.Handlers.{
  handle_initialize, handle_prefixed_list, handle_resources_list, is_call_method, fill_response,
  event_of, record_generic, cursor_refused,
}
use garmx.Aggregator.Calls.Forwarding.{Tells, fill_response-Tells}
use garmx.Aggregator.Answers.{EndsWithin, prefixed_from-total, resources_from-total}
use garmx.Aggregator.Dispatch.Cases.{dispatch_cases}
use garmx.Aggregator.Dispatch.{dispatch, recorded, handle}

module _ (N : Environment) where
  -- The request is answered and nothing is recorded for it.
  abbrev Unrecorded : Aggregator N → Option (Response × Aggregator N) → Type 0
  Unrecorded a r = (resp : Response) × (b : Aggregator N) × (r ≡ some (resp, b)) × (b.sink ≡ a.sink)

  handshake-sink :
      (params : Raw) (server : Bytes) (a : Aggregator N)
      → (handshake N params server a).sink ≡ a.sink
  unfolding handshake
  handshake-sink params server a = ground arith

  handshake_from-sink :
      (params : Raw) (names : List Bytes) (a : Aggregator N)
      → (handshake_from N params names a).sink ≡ a.sink
  unfolding handshake_from
  handshake_from-sink params [] a = refl
  handshake_from-sink params (n ∷ ns) a =
      handshake_from-sink params ns (handshake N params n a) ∙ handshake-sink params n a

  ensure_upstreams-sink : (a : Aggregator N) → (ensure_upstreams N a).sink ≡ a.sink
  unfolding ensure_upstreams
  ensure_upstreams-sink a =
      ground
        (arith, handshake_from-sink (own_params N a) (servers N a) (record a { init_done = true }))

  handle_initialize-sink :
      (a : Aggregator N) (env : Envelope) → (handle_initialize N a env).1.sink ≡ a.sink
  unfolding handle_initialize
  handle_initialize-sink a env = ground (arith, ensure_upstreams-sink a)

  module _ (fuel : ℕ) (ends : EndsWithin N fuel) (a : Aggregator N) (env : Envelope)
      (method key : Bytes) (flag : Bool) where
    handle_prefixed_list-Unrecorded :
        Unrecorded a (handle_prefixed_list N fuel a env method key flag)
    unfolding handle_prefixed_list
    handle_prefixed_list-Unrecorded =
        let (o, v, q) = prefixed_from-total N fuel ends method key flag (servers N a) [] a in
        elim (Bool-cases (has_cursor env.params)) [
          | inl c ↦ (cursor_refused N env.id, a, ground arith, refl)
          | inr c ↦ (list_response env.id key o, record a { world = v }, ground arith, refl)
        ]

    handle_resources_list-Unrecorded :
        Unrecorded a (handle_resources_list N fuel a env method key flag)
    unfolding handle_resources_list
    handle_resources_list-Unrecorded =
        let (o, v, u, q) = resources_from-total N fuel ends method key flag (servers N a) [] a in
        elim (Bool-cases (has_cursor env.params)) [
          | inl c ↦ (cursor_refused N env.id, a, ground arith, refl)
          | inr c ↦ (
            list_response env.id key o,
            record a { world = v; uri_owners = u },
            ground arith,
            refl,
          )
        ]

  dispatch-Unrecorded :
      (fuel : ℕ)
      → EndsWithin N fuel
      → (a : Aggregator N) (env : Envelope) → is_call_method env.method ≡ false
      → Unrecorded a (dispatch N fuel a env)
  dispatch-Unrecorded fuel ends a env h = dispatch_cases N (Unrecorded a) fuel a env (record {
    initialize = (
      (handle_initialize N a env).0,
      (handle_initialize N a env).1,
      refl,
      handle_initialize-sink a env,
    );
    ping = (_, a, refl, refl);
    prefixed = handle_prefixed_list-Unrecorded fuel ends a env;
    resources = handle_resources_list-Unrecorded fuel ends a env;
    named = λ c. absurd (false≢true (sym h ∙ c));
    read = λ c. absurd (false≢true (sym h ∙ c));
    unknown = (_, a, refl, refl);
  })

  -- With a sink, and upstreams whose pages end, a request that is no routed call is answered, and it
  -- is recorded exactly if the scope is `all`, and then once: under its method and id, with its
  -- parameters and with the outcome that the client got: the result of the response, or its error's
  -- code, message and data.
  pub handle-audit :
      (fuel : ℕ) (a : Aggregator N) (env : Envelope) (events : List Event)
      → EndsWithin N fuel
      → is_call_method env.method ≡ false
      → a.sink ≡ some events
      → (resp : Response) × (b : Aggregator N) × (e : Event) × (handle N fuel a env
          ≡ some (resp, b))
        × (b.sink ≡ some (if a.audit_all then events ++ (e ∷ []) else events))
        × (e.method ≡ env.method)
        × (e.rpc_id ≡ env.id)
        × (e.request_params ≡ env.params)
        × Tells e resp
  unfolding handle recorded record_generic fill_response
  handle-audit fuel a env events ends h s =
      let (resp, b, d, k) = dispatch-Unrecorded fuel ends a env h in
      let base = event_of N b env env.method [] [] [] (N.clock b.world - N.clock a.world) in
      let e = fill_response base resp in
      elim (Bool-cases a.audit_all) [
        | inl on ↦ (
          resp,
          record b { sink = some (events ++ (e ∷ [])) },
          e,
          ground arith,
          ground arith,
          ground arith,
          ground arith,
          ground arith,
          fill_response-Tells base resp refl refl,
        )
        | inr off ↦ (
          resp,
          b,
          e,
          ground arith,
          ground arith,
          ground arith,
          ground arith,
          ground arith,
          fill_response-Tells base resp refl refl,
        )
      ]
