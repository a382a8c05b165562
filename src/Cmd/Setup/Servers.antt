-- ===== src/Cmd/Setup/Servers.antt =====
-- The servers of a configuration become the upstreams.
use garmx.Prelude.{
  ◌≡◌, ◌≢◌, refl, sym, ap, ◌∙◌, subst, true, false, is_some, none, some, List, [], ◌∷◌, ◌++◌, map,
  In, Unique, All, is_nil, arith, ◌⊎◌, inl, inr, Bool-cases, Option-cases, ok, err, Result-cases,
}
use mathlib.Core.List.{append_assoc, append-nil}
use garmx.Prelude.Bytes.{Bytes, equal_iff}
use garmx.Prelude.Assoc.{bytes_eq, insert, lookup, lookup-insert, lookup-insert_self}
use garmx.Config.{Config, Server, validate, find_profile}
use garmx.Config
use garmx.Config.Valid.{validate_iff}
use garmx.Upstream.Manager.{Manager, new_manager, add, get}
use garmx.Upstream.Manager.Names.{IsConsistent, add-IsConsistent}
use garmx.Aggregator.Naming.{NameError, validate_server_name}
use garmx.Aggregator.Profile.{Profile}
use garmx.Aggregator.Core.{Environment}
use garmx.Cmd.Flags.{ServeConfig}
use garmx.Cmd.Setup.{
  Process, invalid_name, profile_not_found, every_server, config_of, register_servers,
  build_from_config,
}

abbrev pub names_of : List Server → List Bytes
names_of ss = map (λ s. s.name) ss

module _ (N : Environment) (P : Process N) where
  open N use {World, Transport, transports}

  -- Behind the registration of the servers: they are found, in this order behind what was there, and
  -- every other name is found as before.
  pub record Registered (ss : List Server) (before after : Manager Transport) : Type 0 where
    pub order : after.order ≡ before.order ++ names_of ss
    pub found : All (λ s. get after s.name ≡ some (P.new_stdio_transport (config_of s))) ss
    pub others : (n : Bytes) → (In n (names_of ss) → ⊥) → get after n ≡ get before n
    pub consistent : IsConsistent before → IsConsistent after

  abbrev AllNew : List Server → Manager Transport → Type 0
  AllNew ss m = (n : Bytes) → In n (names_of ss) → is_some (get m n) ≡ false

  abbrev with_server : Bytes → Transport → Manager Transport → Manager Transport
  with_server name t m = record m {
    transports = insert name t m.transports;
    order = m.order ++ (name ∷ []);
  }

  add_new :
      (name : Bytes) (t : Transport) (m : Manager Transport) (w : World)
      → is_some (get m name) ≡ false
      → m.handled ≡ false
      → add transports name t m w ≡ (none, with_server name t m, w)
  unfolding add get
  add_new name t m w new quiet = ground (arith, new, quiet)

  get-with_server_other :
      (name n : Bytes) (t : Transport) (m : Manager Transport)
      → n ≢ name
      → get (with_server name t m) n ≡ get m n
  unfolding get
  get-with_server_other name n t m d =
      ground (arith, d, lookup-insert name n t m.transports, equal_iff name n)

  get-with_server :
      (name : Bytes) (t : Transport) (m : Manager Transport)
      → get (with_server name t m) name ≡ some t
  unfolding get
  get-with_server name t m = lookup-insert_self name t m.transports

  -- The first server with a name that cannot be a prefix.
  abbrev pub BadName : List Server → Server → NameError → Type 0
  BadName ss s e = In s ss × (validate_server_name s.name ≡ err e)

  abbrev pub AllNamed : List Server → Type 0
  AllNamed ss = All (λ s. validate_server_name s.name ≡ ok tt) ss

  pub AllNamed-In :
      (ss : List Server) (s : Server) → AllNamed ss → In s ss → validate_server_name s.name ≡ ok tt
  AllNamed-In [] s named m = absurd m
  AllNamed-In (x ∷ ss) s named (inl e) =
      subst (λ z. validate_server_name z.name ≡ ok tt) (sym e) named.0
  AllNamed-In (x ∷ ss) s named (inr m) = AllNamed-In ss s named.1 m

  -- All of the servers are registered, or one has a bad name.
  abbrev Registering : List Server → Manager Transport → World → Type 0
  Registering ss m w =
      ((m' : Manager Transport) × (register_servers N P ss m w ≡ ok (m', w))
        × Registered ss m m'
        × AllNamed ss)
      ⊎ ((s : Server) × (e : NameError) × BadName ss s e
          × (register_servers N P ss m w ≡ err (invalid_name s.name e)))

  Registered-cons :
      (s : Server) (ss : List Server) (m m' : Manager Transport) (w : World)
      → add transports s.name (P.new_stdio_transport (config_of s)) m w
        ≡ (none, with_server s.name (P.new_stdio_transport (config_of s)) m, w)
      → (In s.name (names_of ss) → ⊥)
      → Registered ss (with_server s.name (P.new_stdio_transport (config_of s)) m) m'
      → Registered (s ∷ ss) m m'
  Registered-cons s ss m m' w added new r =
      let t = P.new_stdio_transport (config_of s) in
      record {
        order = r.order ∙ append_assoc m.order (s.name ∷ []) (names_of ss);
        found = (r.others s.name new ∙ get-with_server s.name t m, r.found);
        others = λ n h.
            r.others n (λ i. h (inr i)) ∙ get-with_server_other s.name n t m (λ e. h (inl e));
        consistent = λ h.
            r.consistent
              (subst (λ z. IsConsistent z.1) added (add-IsConsistent transports s.name t m w h));
      }

  register_servers_lem :
      (ss : List Server) (m : Manager Transport) (w : World)
      → m.handled ≡ false
      → Unique (names_of ss)
      → AllNew ss m
      → Registering ss m w
  unfolding register_servers
  register_servers_lem [] m w quiet u new = inl (
    m,
    refl,
    record {
      order = sym (append-nil m.order);
      found = tt;
      others = λ n h. refl;
      consistent = λ h. h;
    },
    tt,
  )
  register_servers_lem (s ∷ ss) m w quiet u new =
      elim (Result-cases (validate_server_name s.name)) [
        | inr (e, bad) ↦ inr (s, e, (inl refl, bad), ground (arith, bad))
        | inl (a, good) ↦
            let t = P.new_stdio_transport (config_of s) in
            let added = add_new s.name t m w (new s.name (inl refl)) quiet in
            let still_new : AllNew ss (with_server s.name t m) = λ n i.
              ap is_some (
                get-with_server_other s.name n t m (λ e. u.0 (subst (λ z. In z (names_of ss)) e i)))
              ∙ new n (inr i) in
            elim (register_servers_lem ss (with_server s.name t m) w quiet u.1 still_new) [
              | inl (m', q, r, named) ↦ inl (
                m',
                ground (arith, good, added, q),
                Registered-cons s ss m m' w added u.0 r,
                (good, named),
              )
              | inr (b, e, bad, q) ↦ inr (b, e, (inr bad.0, bad.1), ground (arith, good, added, q))
            ]
      ]

  get-new_manager : (n : Bytes) → is_some (get {T = Transport} new_manager n) ≡ false
  unfolding get lookup
  get-new_manager n = refl

  -- A profile that is asked for, as the aggregator takes it.
  abbrev pub profile_of : Config.Profile → Profile
  profile_of p = record { servers = p.servers; tool_allow = p.tool_allow; tool_deny = p.tool_deny }

  -- From a configuration that `Load` accepts, and with no flag for a profile or with the name of one,
  -- every server is registered: the manager lists exactly their names, in the order of the file, and
  -- finds each server's own transport under its name; the profile is the one asked for, or everything;
  -- and nothing is done to the world. It fails exactly for a server whose name cannot be a prefix, or
  -- for a profile that is not in the file; never for a name given twice.
  pub build_from_config-Registered :
      (cfg : ServeConfig) (conf : Config) (w : World)
      → validate conf ≡ none
      → ((m : Manager Transport) × (p : Profile) × (build_from_config N P new_manager cfg conf w
            ≡ ok (p, m, w))
          × Registered conf.servers new_manager m
          × AllNamed conf.servers
          × (((is_nil cfg.profile ≡ true) × (p ≡ every_server))
              ⊎ ((is_nil cfg.profile ≡ false)
                  × ((q : Config.Profile) × (find_profile conf cfg.profile ≡ some q)
                      × (p ≡ profile_of q)))))
        ⊎ (((s : Server) × (e : NameError) × BadName conf.servers s e
              × (build_from_config N P new_manager cfg conf w ≡ err (invalid_name s.name e)))
            ⊎ ((is_nil cfg.profile ≡ false)
                × (find_profile conf cfg.profile ≡ none)
                × (build_from_config N P new_manager cfg conf w
                    ≡ err (profile_not_found cfg.profile))))
  unfolding build_from_config
  build_from_config-Registered cfg conf w h =
      elim (register_servers_lem conf.servers new_manager w refl
        ((validate_iff conf).0 h).server_names (λ n i. get-new_manager n)) [
          | inr (s, e, bad, q) ↦ inr (inl (s, e, bad, ground (arith, q)))
          | inl (m, q, r, named) ↦ elim (Bool-cases (is_nil cfg.profile)) [
            | inl b ↦ inl (m, every_server, ground (arith, q, b), r, named, inl (b, refl))
            | inr b ↦ elim (Option-cases (find_profile conf cfg.profile)) [
              | inl f ↦ inr (inr (b, f, ground (arith, q, b, f)))
              | inr (p, f) ↦
                  inl (m, profile_of p, ground (arith, q, b, f), r, named, inr (b, (p, f, refl)))
            ]
          ]
        ]
