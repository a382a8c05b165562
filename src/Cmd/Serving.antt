-- ===== src/Cmd/Serving.antt =====
-- The whole of `serve`.
use garmx.Prelude.{
  ℕ, ◌≡◌, refl, sym, ap, ◌∙◌, subst, Bool, true, false, Option, none, some, List, ◌++◌, In, All,
  is_nil, arith, ◌⊎◌, inl, inr, Option-cases, ok,
}
use garmx.Prelude.Bytes.{Bytes}
use garmx.Config.{Config, validate, payload_modes, scopes}
use garmx.Config.Files.{Os, load}
use garmx.Upstream.Manager.{
  Manager, start_upstream, new_manager, stop_all, get, set_notification_handler,
}
use garmx.Upstream.Manager.Names.{IsConsistent, new_manager-IsConsistent}
use garmx.Upstream.Manager.Startup.{Starts, Fails, start_all-Outcome}
use garmx.Aggregator.Core.{Environment, Aggregator}
use garmx.Aggregator.Setup.{new_aggregator}
use garmx.Aggregator.Notify.{new_outbox}
use garmx.Mcp.Frame.{ReadError}
use garmx.Aggregator.Answers.{EndsWithin}
use garmx.Frontend
use garmx.Frontend.{
  Codec, Outgoing, Outcome, serving, clean, cancelled, failed, StdioServer, read_lines, outcome_of,
}
use garmx.Frontend.Input.{Takes}
use garmx.Frontend.Session.{Transcript, wire, serve_lem}
use garmx.Cmd.Flags.{ServeConfig, parse_serve_flags}
use garmx.Cmd.Setup.{Process, build_upstreams, attach_audit, every_server, config_of}
use garmx.Cmd.Setup.Servers.{
  names_of, Registered, AllNamed, AllNamed-In, build_from_config-Registered,
}
use garmx.Cmd.Setup.Auditing.{IsLoaded, attach_audit_lem}
use garmx.Cmd.{
  not_started, broken_input, Client, Served, refuse, given_config, finish, serve_ready, serve,
}

-- `load` gives only what `validate` accepts.
load-valid : (O : Os) (path : Bytes) (c : Config) → load O path ≡ ok c → validate c ≡ none
unfolding load
load-valid O path c h = elim (Option-cases (O.read_file path)) [
  | inl e ↦ ground arith
  | inr (bytes, e) ↦ elim (Option-cases (O.decode_config bytes)) [
    | inl d ↦ ground arith
    | inr (found, d) ↦ elim (Option-cases (validate found)) [
      | inr (x, v) ↦ ground arith
      | inl v ↦ let same : found ≡ c = ground arith in subst (λ z. validate z ≡ none) same v
    ]
  ]
]

module _ (N : Environment) (P : Process N) (C : Codec) where
  open N use {World, Transport, transports}

  -- What is left when the session has come to `o` at `s`: if it is over, the upstreams were stopped,
  -- and only a reader's error other than the end of the input is one of `serve`.
  abbrev pub Leaves : StdioServer N → Outcome → Served N P C → Type 0
  Leaves s serving d = (d.returned ≡ false) × (d.error ≡ none)
  Leaves s clean d =
      (d.returned ≡ true) × (d.error ≡ none) × (d.world ≡ stop_all transports s.agg.mgr s.agg.world)
  Leaves s cancelled d =
      (d.returned ≡ true) × (d.error ≡ none) × (d.world ≡ stop_all transports s.agg.mgr s.agg.world)
  Leaves s failed d =
      (d.returned ≡ true)
      × (d.error ≡ some broken_input)
      × (d.world ≡ stop_all transports s.agg.mgr s.agg.world)

  finish-Leaves : (s : StdioServer N) (o : Outcome) → Leaves s o (finish N P C s o)
  unfolding finish
  finish-Leaves s serving = (refl, refl)
  finish-Leaves s clean = (refl, refl, refl)
  finish-Leaves s cancelled = (refl, refl, refl)
  finish-Leaves s failed = (refl, refl, refl)

  finish-out : (s : StdioServer N) (o : Outcome) → (finish N P C s o).out ≡ s.out
  unfolding finish
  finish-out s serving = refl
  finish-out s clean = refl
  finish-out s cancelled = refl
  finish-out s failed = refl

  -- The session behind a start of all upstreams: the run of `Serve` that comes to `s` and `o`, what it
  -- writes, and what `serve` leaves.
  abbrev pub Session : ℕ → Client → Aggregator N → World → Option (Served N P C) → Type 0
  Session fuel c agg u r =
      (lines : List Bytes) × (e : ReadError) × (read_lines c.input ≡ some (lines, e))
      × ((sent : List Outgoing) × (s : StdioServer N) × (o : Outcome) × (d : Served N P C)
          × (Frontend.serve N C fuel c.eof c.input c.moves
                (record { agg = record agg { world = u }; outbox = new_outbox; out = c.out })
              ≡ some (s, o))
          × (r ≡ some d)
          × Leaves s o d
          × (d.out.taken ≡ c.out.taken ++ wire N C sent)
          × Transcript N C (outcome_of c.eof e) lines c.moves sent o)

  abbrev pub Ready : ℕ → Client → Aggregator N → Option (Served N P C) → Type 0
  Ready fuel c agg r =
      ((name : Bytes) × (u : World) × Fails transports agg.mgr agg.mgr.order agg.world name u
        × (r ≡ refuse N P C c u (not_started (start_upstream name))))
      ⊎ ((u : World) × Starts transports agg.mgr agg.mgr.order agg.world u × Session fuel c agg u r)

  serve_ready-Ready :
      (fuel : ℕ) (c : Client) (agg : Aggregator N)
      → EndsWithin N fuel
      → Takes c.out
      → IsConsistent agg.mgr
      → Ready fuel c agg (serve_ready N P C fuel c agg)
  unfolding serve_ready
  serve_ready-Ready fuel c agg ends takes consistent =
      elim (start_all-Outcome transports agg.mgr agg.world consistent) [
        | inr (name, u, f, q) ↦ inl (name, u, f, ground (arith, q))
        | inl (u, starts, q) ↦
            let (lines, e, l, (sent, s, o, r, w, t)) =
              serve_lem N C fuel c.eof c.input c.moves
                (record { agg = record agg { world = u }; outbox = new_outbox; out = c.out }) ends
                takes in
            inr (
              u,
              starts,
              (
                lines,
                e,
                l,
                (
                  sent,
                  s,
                  o,
                  finish N P C s o,
                  r,
                  ground (arith, q, r),
                  finish-Leaves s o,
                  ap (λ z. z.taken) (finish-out s o) ∙ w,
                  t,
                ),
              ),
            )
      ]

  -- What attaching the audit gives, for settings that are accepted.
  attached :
      (agg : Aggregator N) (cfg : ServeConfig) (conf : Option Config)
      → IsLoaded conf
      → In cfg.audit_payload payload_modes
      → In cfg.audit_scope scopes
      → (a : Aggregator N) × (closes : Bool) × (attach_audit N P agg cfg conf ≡ ok (a, closes))
        × (a.mgr ≡ agg.mgr)
        × (a.profile ≡ agg.profile)
  attached agg cfg conf loaded payload scope =
      elim (attach_audit_lem N P agg cfg conf loaded payload scope).2 [
        | inl (on, opens, (a, e, m, p, empty, id, all_methods)) ↦ (a, true, e, m, p)
        | inr (off, e) ↦ (agg, false, e, refl, refl)
      ]

  -- The aggregator for a configuration, its manager listing exactly the servers and finding each.
  pub record Fronts (conf : Config) (agg : Aggregator N) : Type 0 where
    pub consistent : IsConsistent agg.mgr
    pub order : agg.mgr.order ≡ names_of conf.servers
    pub found :
        All (λ s. get agg.mgr s.name ≡ some (P.new_stdio_transport (config_of s))) conf.servers
    pub profile : agg.profile ≡ every_server

  Fronts-new_aggregator :
      (conf : Config) (m : Manager Transport) (version : Bytes) (w : World)
      → Registered N P conf.servers new_manager m
      → Fronts conf (new_aggregator N m every_server version w)
  unfolding new_aggregator set_notification_handler get
  Fronts-new_aggregator conf m version w r = record {
    consistent =
        let c = r.consistent (new_manager-IsConsistent transports) in
        record { unique = c.unique; registered = c.registered; listed = c.listed };
    order = r.order;
    found = r.found;
    profile = refl;
  }

  Fronts-same :
      (conf : Config) (a b : Aggregator N)
      → a.mgr ≡ b.mgr
      → a.profile ≡ b.profile
      → Fronts conf b
      → Fronts conf a
  Fronts-same conf a b m p f = record {
    consistent = subst IsConsistent (sym m) f.consistent;
    order = ap (λ z. z.order) m ∙ f.order;
    found =
        subst
          (λ z. All (λ s. get z s.name ≡ some (P.new_stdio_transport (config_of s))) conf.servers)
          (sym m) f.found;
    profile = p ∙ f.profile;
  }

  -- With a configuration file that loads, server names that can be prefixes, no profile, audit modes
  -- that are known or not given, upstreams whose pages end, and a client that takes what is written:
  -- `serve --stdio` fronts exactly the file's servers, in its order, each by its own transport. Either
  -- one of these does not start, and then those that started before it are stopped again, the error
  -- names it, and nothing is written to the client; or all of them start, and the client's session is
  -- one of a transcript. If that session is over, the upstreams are stopped, and the error is that of
  -- the input, if it was not read to its end.
  pub serve-Ready :
      (fuel : ℕ) (args : List Bytes) (c : Client) (w : World) (cfg : ServeConfig) (conf : Config)
      → parse_serve_flags args ≡ ok cfg
      → cfg.stdio ≡ true
      → is_nil cfg.config_path ≡ false
      → load P.os cfg.config_path ≡ ok conf
      → AllNamed N P conf.servers
      → is_nil cfg.profile ≡ true
      → In cfg.audit_payload payload_modes
      → In cfg.audit_scope scopes
      → EndsWithin N fuel
      → Takes c.out
      → (agg : Aggregator N) × Fronts conf agg × Ready fuel c agg (serve N P C fuel args c w)
  unfolding serve given_config build_upstreams
  serve-Ready fuel args c w cfg conf parsed stdio given loaded named all payload scope ends takes =
      let valid = load-valid P.os cfg.config_path conf loaded in
      elim (build_from_config-Registered N P cfg conf w valid) [
        | inr (inl (s, e, bad, q)) ↦
            let good = AllNamed-In N P conf.servers s named bad.0 in ground (arith, good, bad.1)
        | inr (inr (b, f, q)) ↦ ground (arith, b, all)
        | inl (m, p, built, r, good, inr (b, other)) ↦ ground (arith, b, all)
        | inl (m, p, built, r, good, inl (none_given, same)) ↦
            let agg = new_aggregator N m every_server P.version w in
            let (a, closes, e, same_mgr, same_profile) =
              attached agg cfg (some conf) valid payload scope in
            let fronts =
              Fronts-same conf a agg same_mgr same_profile
                (Fronts-new_aggregator conf m P.version w r) in
            (
              a,
              fronts,
              subst (Ready fuel c a)
                  (sym (ground (arith, parsed, stdio, given, loaded, built, same, e)))
                  (serve_ready-Ready fuel c a ends takes fronts.consistent),
            )
      ]
