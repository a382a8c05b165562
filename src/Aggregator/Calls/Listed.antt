-- ===== src/Aggregator/Calls/Listed.antt =====
-- What `tools/list` shows can be called.
use garmx.Prelude.{
  ℕ, ◌≡◌, ◌≢◌, refl, sym, ap, ◌∙◌, subst, Bool, true, not, ◌&&◌, some, List, [], ◌∷◌, ◌++◌, In,
  arith, ◌⊎◌, inl, inr, Bool-cases, Option-cases, ok, ◌>>=◌, In-append, In-keep, is_some,
}
use garmx.Prelude.Bytes.{Bytes, text, equal}
use garmx.Prelude.Json.{
  Value, str, arr, obj, end, field, Fields, Raw, absent, malformed, json, insert, to_map, string_at,
  find, assign_string,
}
use garmx.Mcp.Message.{Envelope, Response}
use garmx.Mcp.Methods.{method_tools_call, method_tools_list}
use garmx.Upstream.Manager.{get, names}
use garmx.Aggregator.Naming.{prefix, validate_server_name}
use garmx.Aggregator.Profile.{allows_server, allows_tool}
use garmx.Aggregator.Helpers.{items_list, list_items, list_response, has_cursor}
use garmx.Aggregator.Helpers.Rewriting.{prefix_item_name-fields}
use garmx.Aggregator.Handlers.{
  routed, handle_prefixed_list, cursor_refused, is_call_method, record_generic,
}
use garmx.Aggregator.Draining.{Serves, Serves-of-drain}
use garmx.Aggregator.Dispatch.{dispatch, recorded, handle}
use garmx.Aggregator.Calls.Forwarding.{handle_tools_call, handle_named_call-routed}
use garmx.Aggregator.Calls.Exposure.{Exposes, expose-In}
use garmx.Aggregator.Core.{Environment, Aggregator, servers, expose, drain, prefixed_from}

-- The list in the result of a list response.
abbrev pub shown_in : Response → List Value
shown_in resp = elim resp.result [
  | absent ↦ []
  | malformed b ↦ []
  | json v ↦ elim v [
    | obj fs ↦ elim fs [ end ↦ [] | field k w rest ↦ elim w [ arr vs ↦ items_list vs | _ ↦ [] ] ]
    | _ ↦ []
  ]
]

items_list_lem : (vs : List Value) → items_list (list_items vs) ≡ vs
items_list_lem [] = refl
items_list_lem (v ∷ vs) = ap (◌∷◌ v) (items_list_lem vs)

shown_in-list_response :
    (id : Raw) (key : Bytes) (vs : List Value) → shown_in (list_response id key vs) ≡ vs
unfolding list_response
shown_in-list_response id key vs = items_list_lem vs

module _ (N : Environment) where
  open N use {World, Transport, send, path_match}

  -- The value comes from this page item of a registered server.
  record Found (a : Aggregator N) (method key : Bytes) (names : List Bytes) (v : Value)
      : Type 0 where
    server : Bytes
    listed : In server names
    transport : Transport
    found : get a.mgr server ≡ some transport
    before : World
    after : World
    pages : ℕ
    items : List Value
    served : Serves N transport method key [] before items after pages
    item : Value
    on_page : In item items
    exposes : Exposes N a true server item v

  -- Two states with the same servers and the same profile.
  record Alike (a b : Aggregator N) : Type 0 where
    same_servers : b.mgr ≡ a.mgr
    same_profile : b.profile ≡ a.profile

  later :
      (a : Aggregator N) (method key : Bytes) (n : Bytes) (ns : List Bytes) (w : World) (v : Value)
      → Found (record a { world = w }) method key ns v
      → Found a method key (n ∷ ns) v
  later a method key n ns w v f = record {
    server = f.server;
    listed = inr f.listed;
    transport = f.transport;
    found = f.found;
    before = f.before;
    after = f.after;
    pages = f.pages;
    items = f.items;
    served = f.served;
    item = f.item;
    on_page = f.on_page;
    exposes = f.exposes;
  }

  drain-Found :
      (fuel : ℕ) (method key : Bytes) (names : List Bytes) (n : Bytes) (t : Transport)
      (raw : List Value) (a : Aggregator N) (w u : World) (v : Value)
      → get a.mgr n ≡ some t
      → drain N fuel t method key [] [] w ≡ some (some raw, u)
      → In v (expose N a true n raw)
      → Found a method key (n ∷ names) v
  drain-Found fuel method key names n t raw a w u v g d i =
      let (found, pages, s, le, o) = Serves-of-drain N t method key fuel [] [] raw w u d in
      let (item, j, x) = expose-In N a true n raw v i in
      record {
        server = n;
        listed = inl refl;
        transport = t;
        found = g;
        before = w;
        after = u;
        pages = pages;
        items = found;
        served = s;
        item = item;
        on_page = subst (In item) o j;
        exposes = x;
      }

  prefixed_from-Found :
      (fuel : ℕ) (method key : Bytes) (names : List Bytes) (items out : List Value)
      (a b : Aggregator N) (v : Value)
      → prefixed_from N fuel method key true names items a ≡ some (out, b)
      → In v out
      → In v items ⊎ Found a method key names v
  unfolding prefixed_from
  prefixed_from-Found fuel method key [] items out a b v h i = inl (ground (arith, i))
  prefixed_from-Found fuel method key (n ∷ ns) items out a b v h i =
      elim (Option-cases (get a.mgr n)) [
        | inl e ↦ elim (prefixed_from-Found fuel method key ns items out a b v (ground arith) i) [
          | inl early ↦ inl early
          | inr f ↦ inr (later a method key n ns a.world v f)
        ]
        | inr (t, e) ↦ elim (Option-cases (drain N fuel t method key [] [] a.world)) [
          | inl out_of_fuel ↦ ground arith
          | inr ((r, w), d) ↦ elim (Option-cases r) [
            | inl failed ↦
                elim (prefixed_from-Found fuel method key ns items out (record a { world = w }) b v
                  (ground arith) i) [
                    | inl early ↦ inl early
                    | inr f ↦ inr (later a method key n ns w v f)
                  ]
            | inr (raw, s) ↦
                elim (prefixed_from-Found fuel method key ns (items ++ expose N a true n raw) out
                  (record a { world = w }) b v (ground arith) i) [
                    | inl early ↦ elim (In-append v items (expose N a true n raw) early) [
                      | inl before ↦ inl before
                      | inr here ↦ inr (
                          drain-Found fuel method key ns n t raw a a.world w v e (ground arith)
                            here)
                    ]
                    | inr f ↦ inr (later a method key n ns w v f)
                  ]
          ]
        ]
      ]

  prefixed_from-Alike :
      (fuel : ℕ) (method key : Bytes) (filter : Bool) (names : List Bytes) (items out : List Value)
      (a b : Aggregator N)
      → prefixed_from N fuel method key filter names items a ≡ some (out, b)
      → Alike a b
  unfolding prefixed_from
  prefixed_from-Alike fuel method key filter [] items out a b h = record {
    same_servers = ground arith;
    same_profile = ground arith;
  }
  prefixed_from-Alike fuel method key filter (n ∷ ns) items out a b h =
      elim (Option-cases (get a.mgr n)) [
        | inl e ↦ prefixed_from-Alike fuel method key filter ns items out a b (ground arith)
        | inr (t, e) ↦ elim (Option-cases (drain N fuel t method key [] [] a.world)) [
          | inl out_of_fuel ↦ ground arith
          | inr ((r, w), d) ↦ elim (Option-cases r) [
            | inl failed ↦
                let k =
                  prefixed_from-Alike fuel method key filter ns items out (record a { world = w }) b
                    (ground arith) in
                record { same_servers = k.same_servers; same_profile = k.same_profile }
            | inr (raw, s) ↦
                let k =
                  prefixed_from-Alike fuel method key filter ns (items ++ expose N a filter n raw)
                    out (record a { world = w }) b (ground arith) in
                record { same_servers = k.same_servers; same_profile = k.same_profile }
          ]
        ]
      ]

  -- What a `tools/list` that is answered comes from, whether it is recorded or not.
  handle_tools_list :
      (fuel : ℕ) (a b : Aggregator N) (env : Envelope) (resp : Response)
      → env.method ≡ method_tools_list
      → handle N fuel a env ≡ some (resp, b)
      → (c : Aggregator N) × (handle_prefixed_list N fuel a env method_tools_list
            (text "tools")
            true
          ≡ some (resp, c))
        × Alike c b
  unfolding handle dispatch recorded record_generic is_call_method equal
  handle_tools_list fuel a b env resp m h =
      let d : dispatch N fuel a env
          ≡ handle_prefixed_list N fuel a env method_tools_list (text "tools") true =
        ground (arith, m) in
      elim (Option-cases (dispatch N fuel a env)) [
        | inl n ↦ ground arith
        | inr ((r, c), s) ↦
            elim (Bool-cases (is_some a.sink && (a.audit_all && not (is_call_method env.method)))) [
              | inl on ↦
                  let e : recorded N env (N.clock a.world) (r, c) ≡ (resp, b) = ground arith in
                  (
                    c,
                    sym d ∙ s ∙ ap (λ z. some (z, c)) (ap (λ z. z.0) e),
                    record {
                      same_servers = sym (ap (λ z. z.1.mgr) e);
                      same_profile = sym (ap (λ z. z.1.profile) e);
                    },
                  )
              | inr off ↦
                  let e : ◌≡◌ {A = Response × Aggregator N} (r, c) (resp, b) = ground arith in
                  (
                    c,
                    sym d ∙ s ∙ ap (λ z. some (z, c)) (ap (λ z. z.0) e),
                    record {
                      same_servers = sym (ap (λ z. z.1.mgr) e);
                      same_profile = sym (ap (λ z. z.1.profile) e);
                    },
                  )
            ]
      ]

  listed-Found :
      (fuel : ℕ) (a b : Aggregator N) (env : Envelope) (resp : Response) (v : Value)
      → handle_prefixed_list N fuel a env method_tools_list (text "tools") true ≡ some (resp, b)
      → In v (shown_in resp)
      → Alike a b × Found a method_tools_list (text "tools") (servers N a) v
  unfolding handle_prefixed_list
  listed-Found fuel a b env resp v h i = elim (Bool-cases (has_cursor env.params)) [
    | inl c ↦
        let e : cursor_refused N env.id ≡ resp = ground arith in
        absurd (subst (λ z. In v (shown_in z)) (sym e) i)
    | inr c ↦
        elim (Option-cases
          (prefixed_from N fuel method_tools_list (text "tools") true (servers N a) [] a)) [
            | inl n ↦ ground arith
            | inr ((out, u), s) ↦
                let e : ◌≡◌ {A = Response × Aggregator N}
                    (list_response env.id (text "tools") out, u) (resp, b) =
                  ground arith in
                let same : b ≡ u = sym (ap (λ z. z.1) e) in
                let shown : In v out =
                  subst (In v)
                    (ap shown_in (sym (ap (λ z. z.0) e))
                      ∙ shown_in-list_response env.id (text "tools") out)
                    i in
                (
                  subst (Alike a) (sym same) (
                      prefixed_from-Alike fuel method_tools_list (text "tools") true (servers N a)
                        [] out a u s),
                  elim (prefixed_from-Found fuel method_tools_list (text "tools") (servers N a) []
                      out a u v s shown) [ inl nothing ↦ absurd nothing | inr f ↦ f ],
                )
          ]
  ]

  -- If the names of the servers are valid: every tool that an answered `tools/list` shows can be
  -- called by the name shown there, unless that is a registered name and the delimiter alone (the one
  -- kind of name shown that cannot be called back). A `tools/call` of that name, in the state behind
  -- the list, is routed to the transport of a registered server in scope, under the name that an item
  -- on that server's pages has.
  pub listed-callable :
      (fuel fuel' : ℕ) (a b : Aggregator N) (ask call : Envelope) (resp : Response)
      (shown fields : Fields)
      → ((n : Bytes) → In n (names a.mgr) → validate_server_name n ≡ ok tt)
      → ask.method ≡ method_tools_list
      → handle N fuel a ask ≡ some (resp, b)
      → In (obj shown) (shown_in resp)
      → ((n : Bytes) → In n (names a.mgr) → find (text "name") shown ≢ some (str (prefix n [])))
      → call.method ≡ method_tools_call
      → to_map call.params ≡ some fields
      → find (text "name") fields ≡ find (text "name") shown
      → (server original : Bytes) × (t : Transport) × (item : Value) × (before after : World)
        × (items : List Value) × (pages : ℕ) × In server (names b.mgr)
        × (allows_server b.profile server ≡ true)
        × (get b.mgr server ≡ some t)
        × Serves N t method_tools_list (text "tools") [] before items after pages
        × In item items
        × (to_map (json item) >>= string_at (text "name") ≡ some original)
        × (handle N fuel' b call
            ≡ some (
                routed N b call t method_tools_call
                  (json (obj (insert (text "name") (str original) fields)))
                  server
                  (prefix server original)
                  original))
  unfolding string_at assign_string servers
  listed-callable fuel fuel' a b ask call resp shown fields valid q h i ne m d same =
      let (c, l, near) = handle_tools_list fuel a b ask resp q h in
      let (far, f) = listed-Found fuel a c ask resp (obj shown) l i in
      let servers_kept : b.mgr ≡ a.mgr = near.same_servers ∙ far.same_servers in
      let profile_kept : b.profile ≡ a.profile = near.same_profile ∙ far.same_profile in
      let (registered, scope) = In-keep (allows_server a.profile) f.server (names a.mgr) f.listed in
      let (exposed, e, vis) = f.exposes in
      let (original, before, after, bs, o, x, r, n, rest) =
        prefix_item_name-fields f.server exposed f.item (obj shown) e in
      let n' : find (text "name") shown ≡ some (str (prefix f.server original)) =
        ground (arith, r, n, x) in
      let named : string_at (text "name") fields ≡ some (prefix f.server original) =
        ground (arith, same, n') in
      let not_nil : original ≢ [] =
        λ z. ne f.server registered (n' ∙ ap (λ y. some (str (prefix f.server y))) z) in
      let scope' : allows_server b.profile f.server ≡ true =
        ap (λ p. allows_server p f.server) profile_kept ∙ scope in
      let found' : get b.mgr f.server ≡ some f.transport =
        ap (λ p. get p f.server) servers_kept ∙ f.found in
      (
        f.server,
        original,
        f.transport,
        f.item,
        f.before,
        f.after,
        f.items,
        f.pages,
        subst (λ p. In f.server (names p)) (sym servers_kept) registered,
        scope',
        found',
        f.served,
        f.on_page,
        ground (arith, bs, o),
        handle_tools_call N fuel' b call m
            ∙ ap some (
                handle_named_call-routed N b call method_tools_call true fields f.server original
                  f.transport d named (valid f.server registered) not_nil scope'
                  (λ on.
                    ap (λ p. allows_tool path_match p (prefix f.server original)) profile_kept
                    ∙ subst (λ y. allows_tool path_match a.profile y ≡ true) x (vis on))
                  found'),
      )
