-- ===== src/Cmd/Setup.antt =====
-- `buildUpstreams`, `buildFromConfig`, `attachAudit` and their helpers in cmd/garmx/main.go.
pub mod Servers
pub mod Auditing
use garmx.Prelude.{
  ℕ, ◌+◌, ◌/◌, ◌%◌, Bool, true, false, Option, none, some, List, [], ◌∷◌, ltb, is_nil,
  if◌then◌else◌, Result, ok, err,
}
use garmx.Prelude.Bytes.{Bytes, text, equal}
use garmx.Config.{
  Config, Server, ConfigError, AuditConfig, AuditOverride, ResolvedAudit, scope_all, resolve_audit,
  find_profile,
}
use garmx.Config.Files.{Os, paths, env_slice}
use garmx.Upstream.Manager.{Manager, ManagerError, add}
use garmx.Aggregator.Naming.{NameError, validate_server_name}
use garmx.Aggregator.Profile.{Profile}
use garmx.Aggregator.Core.{Environment, Aggregator}
use garmx.Aggregator.Setup.{set_audit}
use garmx.Cmd.Flags.{ServeConfig}

-- internal/upstream/stdio.go
pub record StdioConfig : Type 0 where
  pub name : Bytes
  pub command : Bytes
  pub args : List Bytes
  pub env : List Bytes

pub data SetupError : Type 0 where
  nothing_given : SetupError
  profile_without_config : SetupError
  invalid_upstream_name : NameError → SetupError
  invalid_name : Bytes → NameError → SetupError
  not_added : ManagerError → SetupError
  profile_not_found : Bytes → SetupError

-- `audit_db_variable` is GARMX_AUDIT_DB, `opens` says whether a database can be opened for writing,
-- and `random` are 16 random bytes, if they could be had.
pub record Process (N : Environment) : Type 0 where
  pub os : Os
  pub audit_db_variable : Bytes
  pub opens : Bytes → Bool
  pub random : Option (List ℕ)
  pub version : Bytes
  pub new_stdio_transport : StdioConfig → N.Transport

unfoldable pub first_non_empty : List Bytes → Bytes
first_non_empty [] = []
first_non_empty (v ∷ vs) = if is_nil v then first_non_empty vs else v

-- `hex.EncodeToString`
abbrev pub hex_digit : ℕ → ℕ
hex_digit n = if ltb n 10 then b'0' + n else 87 + n

abbrev pub hex : List ℕ → Bytes
hex [] = []
hex (b ∷ bs) = hex_digit (b / 16) ∷ hex_digit (b % 16) ∷ hex bs

unfoldable pub new_session_id : Option (List ℕ) → Bytes
new_session_id none = text "session-unknown"
new_session_id (some bytes) = hex bytes

abbrev pub every_server : Profile
every_server = record { servers = []; tool_allow = []; tool_deny = [] }

abbrev pub config_of : Server → StdioConfig
config_of s = record { name = s.name; command = s.command; args = s.args; env = env_slice s }

module _ (N : Environment) (P : Process N) where
  open N use {World, Transport, transports}

  -- The loop of `buildFromConfig`.
  unfoldable pub register_servers :
      List Server → Manager Transport → World → Result SetupError (Manager Transport × World)
  unfolding env_slice
  register_servers [] mgr w = ok (mgr, w)
  register_servers (s ∷ rest) mgr w = elim (validate_server_name s.name) [
    | err e ↦ err (invalid_name s.name e)
    | ok _ ↦
        let (failure, mgr', w') =
          add transports s.name (P.new_stdio_transport (config_of s)) mgr w in
        elim failure [ some e ↦ err (not_added e) | none ↦ register_servers rest mgr' w' ]
  ]

  unfoldable pub build_from_config :
      Manager Transport
      → ServeConfig
      → Config
      → World
      → Result SetupError (Profile × Manager Transport × World)
  unfolding register_servers
  build_from_config mgr cfg conf w = elim (register_servers conf.servers mgr w) [
    | err e ↦ err e
    | ok (mgr', w') ↦
        if is_nil cfg.profile
        then ok (every_server, mgr', w')
        else elim (find_profile conf cfg.profile) [
          | none ↦ err (profile_not_found cfg.profile)
          | some p ↦ ok (
            record { servers = p.servers; tool_allow = p.tool_allow; tool_deny = p.tool_deny },
            mgr',
            w',
          )
        ]
  ]

  unfoldable pub build_upstreams :
      Manager Transport
      → ServeConfig
      → Option Config
      → World
      → Result SetupError (Profile × Manager Transport × World)
  unfolding build_from_config
  build_upstreams mgr cfg (some conf) w = build_from_config mgr cfg conf w
  build_upstreams mgr cfg none w =
      if is_nil cfg.upstream_command
      then err nothing_given
      else if is_nil cfg.profile
      then (elim (validate_server_name cfg.upstream_name) [
        | err e ↦ err (invalid_upstream_name e)
        | ok _ ↦
            let t = P.new_stdio_transport (record {
              name = cfg.upstream_name;
              command = cfg.upstream_command;
              args = cfg.upstream_args;
              env = cfg.upstream_env;
            }) in
            let (failure, mgr', w') = add transports cfg.upstream_name t mgr w in
            elim failure [ some e ↦ err (not_added e) | none ↦ ok (every_server, mgr', w') ]
      ])
      else err profile_without_config

  -- The settings that are in force for this run.
  unfoldable pub audit_settings : ServeConfig → Option Config → Result ConfigError ResolvedAudit
  unfolding first_non_empty
  audit_settings cfg conf =
      resolve_audit (paths P.os) (elim conf [ none ↦ none | some c ↦ c.audit ])
        (record {
          db_path = first_non_empty (cfg.audit_db ∷ P.audit_db_variable ∷ []);
          payload = cfg.audit_payload;
          scope = cfg.audit_scope;
          disable = cfg.no_audit;
        })

  -- The Boolean says whether there is a writer to close.
  unfoldable pub attach_audit :
      Aggregator N → ServeConfig → Option Config → Result ConfigError (Aggregator N × Bool)
  unfolding audit_settings new_session_id
  attach_audit agg cfg conf = elim (audit_settings cfg conf) [
    | err e ↦ err e
    | ok r ↦
        if r.enabled
        then if P.opens r.db_path
          then ok
              (set_audit N (some []) (new_session_id P.random) (equal r.scope scope_all) agg, true)
          else ok (agg, false)
        else ok (agg, false)
  ]
