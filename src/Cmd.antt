-- ===== src/Cmd.antt =====
-- cmd/garmx/main.go: the program. What it gets from outside is in `Process`; the logs and the usage
-- texts are left out, and so is the HTTP listener of `garmx ui`.
pub mod Flags
pub mod Setup
pub mod Serving
use garmx.Prelude.{
  ℕ, Bool, true, false, Option, none, some, List, [], ◌∷◌, is_nil, if◌then◌else◌, ◌>>=◌, Result, ok,
  err,
}
use garmx.Prelude.Bytes.{Bytes, text, equal}
use garmx.Config.{Config, ConfigError, AuditConfig, resolve_audit}
use garmx.Config.Files.{LoadError, load, paths}
use garmx.Upstream.Manager.{Manager, ManagerError, new_manager, start_all, stop_all}
use garmx.Aggregator.Core.{Environment, Aggregator}
use garmx.Aggregator.Notify.{new_outbox}
use garmx.Aggregator.Setup.{new_aggregator}
use garmx.Mcp.Frame.{Sink}
use garmx.Frontend.{Codec, Move, Outcome, serving, clean, cancelled, failed, StdioServer}
use garmx.Frontend
use garmx.Cmd.Flags.{ServeConfig, UiConfig, FlagError, help, parse_serve_flags, parse_ui_flags}
use garmx.Cmd.Setup.{Process, SetupError, first_non_empty, build_upstreams, attach_audit}

-- Why `serve` failed.
pub data ServeError : Type 0 where
  bad_flags : FlagError → ServeError
  not_stdio : ServeError
  bad_config : LoadError → ServeError
  bad_setup : SetupError → ServeError
  bad_audit : ConfigError → ServeError
  not_started : ManagerError → ServeError
  broken_input : ServeError

pub data UiError : Type 0 where
  bad_ui_flags : FlagError → UiError
  bad_ui_config : LoadError → UiError
  bad_ui_audit : ConfigError → UiError
  not_opened : Bytes → UiError

-- What comes from the client, and when: `eof` as in `Frontend.serve`.
pub record Client : Type 0 where
  pub input : Bytes
  pub eof : Bool
  pub moves : List Move
  pub out : Sink

module _ (N : Environment) (P : Process N) (C : Codec) where
  open N use {World, Transport, transports}

  -- `returned` is false for a server that still serves.
  pub record Served : Type 0 where
    pub error : Option ServeError
    pub returned : Bool
    pub out : Sink
    pub world : World

  abbrev pub refuse : Client → World → ServeError → Option Served
  refuse c w e = some (record { error = some e; returned = true; out = c.out; world = w })

  unfoldable pub given_config : Bytes → Result LoadError (Option Config)
  given_config path =
      if is_nil path then ok none else elim (load P.os path) [ err e ↦ err e | ok c ↦ ok (some c) ]

  -- The end of `serve`, behind `Serve`, with its deferred `StopAll`.
  unfoldable pub finish : StdioServer N → Outcome → Served
  finish s serving = record { error = none; returned = false; out = s.out; world = s.agg.world }
  finish s clean = record {
    error = none;
    returned = true;
    out = s.out;
    world = stop_all transports s.agg.mgr s.agg.world;
  }
  finish s cancelled = record {
    error = none;
    returned = true;
    out = s.out;
    world = stop_all transports s.agg.mgr s.agg.world;
  }
  finish s failed = record {
    error = some broken_input;
    returned = true;
    out = s.out;
    world = stop_all transports s.agg.mgr s.agg.world;
  }

  -- `serve` from where the aggregator is ready.
  unfoldable pub serve_ready : ℕ → Client → Aggregator N → Option Served
  unfolding finish
  serve_ready fuel c agg = start_all transports agg.mgr agg.world >>= λ (failure, w). elim failure [
    | some e ↦ refuse c w (not_started e)
    | none ↦
        Frontend.serve N C fuel c.eof c.input c.moves
          (record { agg = record agg { world = w }; outbox = new_outbox; out = c.out })
        >>= λ (s, o). some (finish s o)
  ]

  -- `serve`; `none` is out of fuel.
  unfoldable pub serve : ℕ → List Bytes → Client → World → Option Served
  unfolding given_config serve_ready
  serve fuel args c w = elim (parse_serve_flags args) [
    | err e ↦ refuse c w (bad_flags e)
    | ok cfg ↦ elim cfg.stdio [
      | false ↦ refuse c w not_stdio
      | true ↦ elim (given_config cfg.config_path) [
        | err e ↦ refuse c w (bad_config e)
        | ok conf ↦ elim (build_upstreams N P new_manager cfg conf w) [
          | err e ↦ refuse c w (bad_setup e)
          | ok (profile, mgr, w') ↦
              let agg = new_aggregator N mgr profile P.version w' in
              elim (attach_audit N P agg cfg conf) [
                | err e ↦ refuse c agg.world (bad_audit e)
                | ok (audited, closes) ↦ serve_ready fuel c audited
              ]
        ]
      ]
    ]
  ]

  -- `runUI` up to its listener: the address, and the database that is read. `readable` says whether
  -- a database can be opened for reading.
  unfoldable pub run_ui : (Bytes → Bool) → List Bytes → Result UiError (Bytes × Bytes)
  unfolding given_config
  run_ui readable args = elim (parse_ui_flags args) [
    | err e ↦ err (bad_ui_flags e)
    | ok cfg ↦ elim (given_config cfg.config_path) [
      | err e ↦ err (bad_ui_config e)
      | ok conf ↦
          elim (resolve_audit (paths P.os) (elim conf [ none ↦ none | some c ↦ c.audit ])
            (record {
              db_path = first_non_empty (cfg.audit_db ∷ P.audit_db_variable ∷ []);
              payload = [];
              scope = [];
              disable = false;
            })) [
              | err e ↦ err (bad_ui_audit e)
              | ok r ↦
                  if readable r.db_path
                  then ok (cfg.addr, r.db_path)
                  else err (not_opened r.db_path)
            ]
    ]
  ]

  -- What `run` selects.
  pub data Command : Type 0 where
    usage : Command
    usage_help : Command
    served : Option Served → Command
    dashboard : Result UiError (Bytes × Bytes) → Command
    unknown_command : Bytes → Command

  unfoldable pub run : ℕ → (Bytes → Bool) → List Bytes → Client → World → Command
  unfolding serve run_ui
  run fuel readable [] c w = usage
  run fuel readable (name ∷ args) c w =
      if equal name (text "serve")
      then served (serve fuel args c w)
      else if equal name (text "ui")
      then dashboard (run_ui readable args)
      else if equal name (text "-h")
      then usage_help
      else if equal name (text "-help")
      then usage_help
      else if equal name (text "--help")
      then usage_help
      else unknown_command name
