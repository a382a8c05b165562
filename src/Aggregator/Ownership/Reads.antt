-- ===== src/Aggregator/Ownership/Reads.antt =====
-- A session reads resources only from servers in its scope, whatever came before.
use garmx.Prelude.{
  ℕ, ◌≡◌, refl, sym, ap, ◌∙◌, subst, Bool, true, not, ◌&&◌, Option, none, some, List, [], ◌∷◌,
  is_nil, is_some, arith, ◌⊎◌, inl, inr, Bool-cases, Option-cases, if_both, option_both, ◌>>=◌, In,
  In-keep,
}
use garmx.Prelude.Bytes.{Bytes, text, equal}
use garmx.Prelude.Json.{Value, Raw}
use garmx.Prelude.Assoc.{lookup, lookup-In, bytes_eq}
use garmx.Mcp.Message.{Response, Envelope}
use garmx.Mcp.Methods.{method_resources_read, method_initialized}
use garmx.Upstream.Manager.{get, names}
use garmx.Aggregator.Profile.{Profile, allows_server}
use garmx.Aggregator.Helpers.{decode_string_struct, has_cursor}
use garmx.Aggregator.Core.{
  Environment, Aggregator, servers, handshake, handshake_from, ensure_upstreams, own_params,
}
use garmx.Aggregator.Handlers.{
  handle_initialize, handle_prefixed_list, handle_resources_list, handle_named_call,
  handle_resources_read, read_resource, routed, record_generic, is_call_method, listed,
}
use garmx.Aggregator.Calls.{handle_named_call-cases}
use garmx.Aggregator.Dispatch.{dispatch, recorded, handle, handle_notification}
use garmx.Aggregator.Dispatch.Cases.{dispatch_cases}
use garmx.Aggregator.Ownership.{IsScoped, Keeps, prefixed_from-Keeps, resources_from-Keeps}

module _ (N : Environment) where
  open N use {Transport}

  module _ (p : Profile) where
    handshake-IsScoped :
        (params : Raw) (server : Bytes) (a : Aggregator N)
        → IsScoped N p a
        → IsScoped N p (handshake N params server a)
    unfolding handshake
    handshake-IsScoped params server a h = ground arith

    handshake_from-IsScoped :
        (params : Raw) (ns : List Bytes) (a : Aggregator N)
        → IsScoped N p a
        → IsScoped N p (handshake_from N params ns a)
    unfolding handshake_from
    handshake_from-IsScoped params [] a h = h
    handshake_from-IsScoped params (n ∷ ns) a h =
        handshake_from-IsScoped params ns _ (handshake-IsScoped params n a h)

    ensure_upstreams-IsScoped :
        (a : Aggregator N) → IsScoped N p a → IsScoped N p (ensure_upstreams N a)
    unfolding ensure_upstreams
    ensure_upstreams-IsScoped a h = if_both (IsScoped N p) a.init_done h (
        handshake_from-IsScoped (own_params N a) (servers N a) (record a { init_done = true })
          (record { same_profile = h.same_profile; owners = h.owners }))

    handle_initialize-IsScoped :
        (a : Aggregator N) (env : Envelope)
        → IsScoped N p a
        → IsScoped N p (handle_initialize N a env).1
    unfolding handle_initialize
    handle_initialize-IsScoped a env h = ground (arith, ensure_upstreams-IsScoped a h)

    listed-Keeps :
        (id : Raw) (key : Bytes) (o : Option (List Value × Aggregator N))
        → Keeps N p o
        → Keeps N p (o >>= λ r. some (listed N id key r))
    listed-Keeps id key none h = tt
    listed-Keeps id key (some (items, a)) h = h

    handle_prefixed_list-Keeps :
        (fuel : ℕ) (a : Aggregator N) (env : Envelope) (method key : Bytes) (flag : Bool)
        → IsScoped N p a
        → Keeps N p (handle_prefixed_list N fuel a env method key flag)
    unfolding handle_prefixed_list
    handle_prefixed_list-Keeps fuel a env method key flag h =
        if_both (Keeps N p) (has_cursor env.params) h (
          listed-Keeps env.id key _
            (prefixed_from-Keeps N p fuel method key flag (servers N a) [] a h))

    servers-allowed :
        (a : Aggregator N)
        → IsScoped N p a
        → (n : Bytes) → In n (servers N a)
        → allows_server p n ≡ true
    unfolding servers
    servers-allowed a h n i =
        ap (λ q. allows_server q n) (sym h.same_profile)
        ∙ (In-keep (allows_server a.profile) n (names a.mgr) i).1

    handle_resources_list-Keeps :
        (fuel : ℕ) (a : Aggregator N) (env : Envelope) (method key : Bytes) (flag : Bool)
        → IsScoped N p a
        → Keeps N p (handle_resources_list N fuel a env method key flag)
    unfolding handle_resources_list
    handle_resources_list-Keeps fuel a env method key flag h =
        if_both (Keeps N p) (has_cursor env.params) h (
          listed-Keeps env.id key _ (
            resources_from-Keeps N p fuel method key flag (servers N a) [] a (servers-allowed a h)
              h))

    routed-IsScoped :
        (a : Aggregator N) (env : Envelope) (t : Transport) (method : Bytes) (params : Raw)
        (server exposed original : Bytes)
        → IsScoped N p a
        → IsScoped N p (routed N a env t method params server exposed original).1
    unfolding routed
    routed-IsScoped a env t method params server exposed original h = ground arith

    handle_named_call-IsScoped :
        (a : Aggregator N) (env : Envelope) (method : Bytes) (flag : Bool)
        → IsScoped N p a
        → IsScoped N p (handle_named_call N a env method flag).1
    handle_named_call-IsScoped a env method flag h =
        elim (handle_named_call-cases N a env method flag) [
          | inl refused ↦ subst (IsScoped N p) (sym refused.unchanged) h
          | inr through ↦
              subst (λ r. IsScoped N p r.1) (sym through.sent)
                (routed-IsScoped a env through.transport method _ through.server _ through.original
                  h)
        ]

    handle_resources_read-IsScoped :
        (a : Aggregator N) (env : Envelope)
        → IsScoped N p a
        → IsScoped N p (handle_resources_read N a env).1
    unfolding handle_resources_read read_resource
    handle_resources_read-IsScoped a env h =
        option_both P (decode_string_struct (text "uri") env.params) h (λ uri.
          if_both P (is_nil uri) h (
            option_both P (lookup uri a.uri_owners) h (λ server.
              option_both P (get a.mgr server) h
                (λ t. routed-IsScoped a env t method_resources_read env.params server [] [] h))))
      where
        P : Response × Aggregator N → Type 0
        P r = IsScoped N p r.1

    dispatch-Keeps :
        (fuel : ℕ) (a : Aggregator N) (env : Envelope)
        → IsScoped N p a
        → Keeps N p (dispatch N fuel a env)
    dispatch-Keeps fuel a env h = dispatch_cases N (Keeps N p) fuel a env (record {
      initialize = handle_initialize-IsScoped a env h;
      ping = h;
      prefixed = λ method key flag. handle_prefixed_list-Keeps fuel a env method key flag h;
      resources = λ method key flag. handle_resources_list-Keeps fuel a env method key flag h;
      named = λ _ method flag. handle_named_call-IsScoped a env method flag h;
      read = λ _. handle_resources_read-IsScoped a env h;
      unknown = h;
    })

    recorded-Keeps :
        (env : Envelope) (start : ℕ) (o : Option (Response × Aggregator N))
        → Keeps N p o
        → Keeps N p (o >>= λ r. some (recorded N env start r))
    unfolding recorded record_generic
    recorded-Keeps env start none h = tt
    recorded-Keeps env start (some (resp, a)) h = record {
      same_profile = h.same_profile;
      owners = h.owners;
    }

    handle-Keeps :
        (fuel : ℕ) (a : Aggregator N) (env : Envelope)
        → IsScoped N p a
        → Keeps N p (handle N fuel a env)
    unfolding handle
    handle-Keeps fuel a env h =
        if_both (Keeps N p) (is_some a.sink && (a.audit_all && not (is_call_method env.method)))
          (recorded-Keeps env (N.clock a.world) _ (dispatch-Keeps fuel a env h))
          (dispatch-Keeps fuel a env h)

  -- A session's states: each follows from the one before by a request that was answered, or by a
  -- notification.
  pub data History (fuel : ℕ) (a : Aggregator N) : Aggregator N → Type 0 where
    begins : History fuel a a
    answers :
        {b c : Aggregator N} (env : Envelope) (resp : Response)
        → History fuel a b
        → handle N fuel b env ≡ some (resp, c)
        → History fuel a c
    notifies :
        {b : Aggregator N} (env : Envelope)
        → History fuel a b
        → History fuel a (handle_notification N b env)

  History-IsScoped :
      {fuel : ℕ} {a b : Aggregator N}
      → IsScoped N a.profile a
      → History fuel a b
      → IsScoped N a.profile b
  unfolding handle_notification
  History-IsScoped h begins = h
  History-IsScoped {fuel} {a} h (answers {b} {c} env resp s e) =
      subst (Keeps N a.profile) e (handle-Keeps a.profile fuel b env (History-IsScoped h s))
  History-IsScoped {fuel} {a} h (notifies {b} env s) =
      let k = History-IsScoped h s in
      if_both (IsScoped N a.profile) (equal env.method method_initialized)
        (record { same_profile = k.same_profile; owners = k.owners }) k

  -- `resources/read`, at any moment of a session that began with no owners recorded: either nothing
  -- is sent and nothing changes, or the request goes on as it is to the registered server that owns
  -- its uri, and the session's profile allows that server.
  pub reads_in_scope :
      (fuel : ℕ) (a b : Aggregator N) (env : Envelope)
      → a.uri_owners ≡ []
      → History fuel a b
      → ((handle_resources_read N b env).1 ≡ b)
        ⊎ ((uri : Bytes) × (server : Bytes) × (t : Transport) × (decode_string_struct
                (text "uri")
                env.params
              ≡ some uri)
            × In (uri, server) b.uri_owners
            × (allows_server a.profile server ≡ true)
            × (get b.mgr server ≡ some t)
            × (handle_resources_read N b env
                ≡ routed N b env t method_resources_read env.params server [] []))
  unfolding handle_resources_read read_resource
  reads_in_scope fuel a b env fresh s =
      let sc : IsScoped N a.profile b =
        History-IsScoped
          (record { same_profile = refl; owners = λ u v i. absurd (subst (In (u, v)) fresh i) })
          s in
      elim (Option-cases (decode_string_struct (text "uri") env.params)) [
        | inl e ↦ inl (ground arith)
        | inr (uri, e) ↦ elim (Bool-cases (is_nil uri)) [
          | inl blank ↦ inl (ground arith)
          | inr some_uri ↦ elim (Option-cases (lookup uri b.uri_owners)) [
            | inl f ↦ inl (ground arith)
            | inr (server, f) ↦ elim (Option-cases (get b.mgr server)) [
              | inl g ↦ inl (ground arith)
              | inr (t, g) ↦
                  let i = lookup-In uri b.uri_owners server f in
                  inr (uri, server, t, e, i, sc.owners uri server i, g, ground arith)
            ]
          ]
        ]
      ]
