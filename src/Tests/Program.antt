-- ===== src/Tests/Program.antt =====
-- A run of the program with a configuration file of one server.
use garmx.Prelude.{◌≡◌, refl, true, false, none, some, [], ◌∷◌, is_nil, ◌⊎◌, inl, ◌↔◌, ok, err}
use garmx.Prelude.Bytes.{Bytes, text, equal}
use garmx.Config.{
  Config, Server, ResolvedAudit, scope_all, payload_modes, scopes, validate, validate_servers,
  validate_server, validate_profiles, validate_profile, validate_audit, find_profile,
}
use garmx.Config
use garmx.Config.Files.{Os, load, paths}
use garmx.Config.Settings.{InForce}
use garmx.Upstream.Manager.{Manager, new_manager}
use garmx.Aggregator.Naming.{NameError, validate_server_name, matches_server_name}
use garmx.Aggregator.Profile.{Profile}
use garmx.Aggregator.Core.{Aggregator}
use garmx.Cmd.Flags.{ServeConfig, serve_defaults, parse_serve_flags}
use garmx.Cmd.Flags.Given.{arguments_of, parse_serve_flags-arguments_of}
use garmx.Cmd.Setup.{
  Process, invalid_name, profile_not_found, every_server, new_session_id, build_from_config,
  attach_audit,
}
use garmx.Cmd.Setup.Servers.{
  AllNamed, BadName, Registered, profile_of, build_from_config-Registered,
}
use garmx.Cmd.Setup.Auditing.{override_of, attach_audit_lem}
use garmx.Cmd.{Client, serve}
use garmx.Cmd.Serving.{Fronts, Ready, serve-Ready}
use garmx.Tests.Bench.{bench, gateway}
use garmx.Tests.Sessions.{bench-EndsWithin}
use garmx.Tests.Lines.{client, messages, codec, moves}
use garmx.Frontend.Input.{write_all}

abbrev files_server : Server
files_server = record {
  name = text "files";
  transport = [];
  command = text "mcp-files";
  args = [];
  env = [];
}

abbrev conf : Config
conf = record { servers = files_server ∷ []; profiles = []; audit = none }

abbrev os : Os
os = record {
  xdg_data_home = text "/data";
  home_dir = none;
  temp_dir = text "/tmp";
  join = λ ps. text "/data/garmx/audit.db";
  read_file = λ path. some path;
  decode_config = λ bytes. some conf;
}

abbrev process : Process bench
process = record {
  os = os;
  audit_db_variable = [];
  opens = λ path. true;
  random = some (17 ∷ []);
  version = text "dev";
  new_stdio_transport = λ c. c.command;
}

abbrev settings : ServeConfig
settings = record serve_defaults { stdio = true; config_path = text "garmx.json" }

parse_serve_flags-arguments_of_example : parse_serve_flags (arguments_of settings) ≡ ok settings
parse_serve_flags-arguments_of_example = parse_serve_flags-arguments_of settings

conf-validate : validate conf ≡ none
unfolding validate validate_servers validate_server validate_profiles validate_audit equal
conf-validate = refl

build_from_config-Registered_example :
    ((m : Manager Bytes) × (p : Profile) × (build_from_config bench process new_manager settings
          conf 0
        ≡ ok (p, m, 0))
      × Registered bench process conf.servers new_manager m
      × AllNamed bench process conf.servers
      × (((is_nil settings.profile ≡ true) × (p ≡ every_server))
          ⊎ ((is_nil settings.profile ≡ false)
              × ((q : Config.Profile) × (find_profile conf settings.profile ≡ some q)
                  × (p ≡ profile_of bench process q)))))
    ⊎ (((s : Server) × (e : NameError) × BadName bench process conf.servers s e
          × (build_from_config bench process new_manager settings conf 0
              ≡ err (invalid_name s.name e)))
        ⊎ ((is_nil settings.profile ≡ false)
            × (find_profile conf settings.profile ≡ none)
            × (build_from_config bench process new_manager settings conf 0
                ≡ err (profile_not_found settings.profile))))
build_from_config-Registered_example =
    build_from_config-Registered bench process settings conf 0 conf-validate

attach_audit_lem_example :
    (r : ResolvedAudit) × InForce (paths os) none (override_of bench process settings) r
    × (((r.enabled ≡ true)
          × (process.opens r.db_path ≡ true)
          × ((a : Aggregator bench) × (attach_audit bench process gateway settings (some conf)
                ≡ ok (a, true))
              × (a.mgr ≡ gateway.mgr)
              × (a.profile ≡ gateway.profile)
              × (a.sink ≡ some [])
              × (a.session_id ≡ new_session_id process.random)
              × ((a.audit_all ≡ true) ↔ (r.scope ≡ scope_all))))
        ⊎ (((r.enabled ≡ false) ⊎ (process.opens r.db_path ≡ false))
            × (attach_audit bench process gateway settings (some conf) ≡ ok (gateway, false))))
attach_audit_lem_example =
    attach_audit_lem bench process gateway settings (some conf) conf-validate (inl refl) (inl refl)

conf-load : load os (text "garmx.json") ≡ ok conf
unfolding load validate validate_servers validate_server validate_profiles validate_audit equal
conf-load = refl

conf-AllNamed : AllNamed bench process conf.servers
unfolding validate_server_name matches_server_name
conf-AllNamed = (refl, tt)

abbrev session : Client
session = record {
  input = (write_all messages client).taken;
  eof = true;
  moves = moves;
  out = client;
}

serve-Ready_example :
    (agg : Aggregator bench) × Fronts bench process codec conf agg
    × Ready bench process codec 1 session agg
        (serve bench process codec 1 (arguments_of settings) session 0)
serve-Ready_example =
    serve-Ready bench process codec 1 (arguments_of settings) session 0 settings conf
      (parse_serve_flags-arguments_of settings) refl refl conf-load conf-AllNamed refl (inl refl)
      (inl refl) bench-EndsWithin (λ a b. refl)
