-- ===== src/Aggregator/Ownership.antt =====
-- Whose resources a session can read.
pub mod Reads
use garmx.Prelude.{
  ℕ, ◌≡◌, ◌≢◌, refl, sym, ap, ◌∙◌, subst, Bool, true, false, not, ◌&&◌, ◌||◌, Option, none, some,
  List, [], ◌∷◌, ◌++◌, is_nil, is_some, if◌then◌else◌, arith, ◌⊎◌, inl, inr, Bool-cases,
  Option-cases, if_both, option_both, ◌>>=◌, In, In-keep,
}
use garmx.Prelude.Bytes.{Bytes, text}
use garmx.Prelude.Json.{Value, Raw}
use garmx.Prelude.Assoc.{lookup, insert, lookup-In, In-insert, bytes_eq}
use garmx.Mcp.Message.{Response, Envelope}
use garmx.Upstream.Manager.{Manager, get, names}
use garmx.Aggregator.Profile.{Profile, allows_server}
use garmx.Aggregator.Helpers.{decode_string_struct, has_cursor, item_uri}
use garmx.Aggregator.Core.{
  Environment, Aggregator, servers, drain, expose, add_prefixed, prefixed_from, record_owners,
  add_resources, resources_from, handshake, handshake_from, ensure_upstreams, own_params,
}
use garmx.Aggregator.Handlers.{
  handle_initialize, handle_prefixed_list, handle_resources_list, handle_named_call, call_named,
  handle_resources_read, read_resource, routed, record_call, record_generic, is_call_method,
}
use garmx.Aggregator.Dispatch.{dispatch, recorded, handle, handle_notification}

-- Every recorded owner is a server that the profile allows.
abbrev pub Scoped : Profile → List (Bytes × Bytes) → Type 0
Scoped p owners = (uri server : Bytes) → In (uri, server) owners → allows_server p server ≡ true

record_owners-Scoped :
    (p : Profile) (server : Bytes) (items : List Value) (owners : List (Bytes × Bytes))
    → allows_server p server ≡ true
    → Scoped p owners
    → Scoped p (record_owners server items owners)
unfolding record_owners
record_owners-Scoped p server [] owners h s = s
record_owners-Scoped p server (item ∷ items) owners h s = record_owners-Scoped p server items _ h (
    if_both (Scoped p) (is_nil (item_uri item)) s (λ u v i.
      elim (In-insert (item_uri item) server owners (u, v) i) [
        | inl e ↦ ap (λ x. allows_server p x.1) e ∙ h
        | inr old ↦ s u v old
      ]))

module _ (N : Environment) where
  -- The session's profile is `p`, and the owners are in its scope.
  pub record IsScoped (p : Profile) (a : Aggregator N) : Type 0 where
    pub same_profile : a.profile ≡ p
    pub owners : Scoped p a.uri_owners

  abbrev pub Keeps : {X : Type 0} → Profile → Option (X × Aggregator N) → Type 0
  Keeps p none = Unit
  Keeps p (some (x, a)) = IsScoped p a

  -- The state of the world and the log are no part of it.
  pub moves :
      {p : Profile} {a : Aggregator N} (w : N.World)
      → IsScoped p a
      → IsScoped p (record a { world = w })
  moves w h = record { same_profile = h.same_profile; owners = h.owners }

  add_prefixed-Keeps :
      (p : Profile) (continue : List Value → Aggregator N → Option (List Value × Aggregator N))
      → ((items : List Value) (b : Aggregator N) → IsScoped p b → Keeps p (continue items b))
      → (tool_filter : Bool) (server : Bytes) (items : List Value) (a : Aggregator N)
        (r : Option (Option (List Value) × N.World))
      → IsScoped p a
      → Keeps p (add_prefixed N continue tool_filter server items a r)
  unfolding add_prefixed
  add_prefixed-Keeps p continue k tool_filter server items a none h = tt
  add_prefixed-Keeps p continue k tool_filter server items a (some (none, w)) h =
      k items _ (moves w h)
  add_prefixed-Keeps p continue k tool_filter server items a (some (some raw, w)) h =
      k _ _ (moves w h)

  pub prefixed_from-Keeps :
      (p : Profile) (fuel : ℕ) (method key : Bytes) (tool_filter : Bool) (ns : List Bytes)
      (items : List Value) (a : Aggregator N)
      → IsScoped p a
      → Keeps p (prefixed_from N fuel method key tool_filter ns items a)
  unfolding prefixed_from
  prefixed_from-Keeps p fuel method key tool_filter [] items a h = h
  prefixed_from-Keeps p fuel method key tool_filter (n ∷ ns) items a h =
      option_both (Keeps p) (get a.mgr n)
        (prefixed_from-Keeps p fuel method key tool_filter ns items a h)
        (λ t.
          add_prefixed-Keeps p _ (prefixed_from-Keeps p fuel method key tool_filter ns) tool_filter
            n items a (drain N fuel t method key [] [] a.world) h)

  add_resources-Keeps :
      (p : Profile) (continue : List Value → Aggregator N → Option (List Value × Aggregator N))
      → ((items : List Value) (b : Aggregator N) → IsScoped p b → Keeps p (continue items b))
      → (recording : Bool) (server : Bytes) (items : List Value) (a : Aggregator N)
        (r : Option (Option (List Value) × N.World))
      → allows_server p server ≡ true
      → IsScoped p a
      → Keeps p (add_resources N continue recording server items a r)
  unfolding add_resources
  add_resources-Keeps p continue k recording server items a none s h = tt
  add_resources-Keeps p continue k recording server items a (some (none, w)) s h =
      k items _ (moves w h)
  add_resources-Keeps p continue k recording server items a (some (some raw, w)) s h =
      k _ _ (record {
        same_profile = h.same_profile;
        owners =
            if_both (Scoped p) recording (record_owners-Scoped p server raw a.uri_owners s h.owners)
              h.owners;
      })

  pub resources_from-Keeps :
      (p : Profile) (fuel : ℕ) (method key : Bytes) (recording : Bool) (ns : List Bytes)
      (items : List Value) (a : Aggregator N)
      → ((n : Bytes) → In n ns → allows_server p n ≡ true)
      → IsScoped p a
      → Keeps p (resources_from N fuel method key recording ns items a)
  unfolding resources_from
  resources_from-Keeps p fuel method key recording [] items a s h = h
  resources_from-Keeps p fuel method key recording (n ∷ ns) items a s h =
      option_both (Keeps p) (get a.mgr n)
        (resources_from-Keeps p fuel method key recording ns items a (λ m i. s m (inr i)) h)
        (λ t.
          add_resources-Keeps p _
            (λ is b. resources_from-Keeps p fuel method key recording ns is b (λ m i. s m (inr i)))
            recording n items a (drain N fuel t method key [] [] a.world) (s n (inl refl)) h)
