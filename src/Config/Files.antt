-- ===== src/Config/Files.antt =====
-- `Load`, `DefaultAuditDBPath`, `expandHome` and `EnvSlice` of internal/config/config.go. Reading a
-- file, decoding it, and Go's `filepath.Join` are parameters.
use garmx.Prelude.{
  ◌||◌, Option, none, some, List, [], ◌∷◌, ◌++◌, map, drop, is_nil, if◌then◌else◌, Result, ok, err,
}
use garmx.Prelude.Bytes.{Bytes, text, equal, has_prefix}
use garmx.Config.{Config, ConfigError, validate, Server, Paths}

-- What the operating system says: an environment variable that is not set is empty, and the home
-- directory may be unknown.
pub record Os : Type 0 where
  pub xdg_data_home : Bytes
  pub home_dir : Option Bytes
  pub temp_dir : Bytes
  pub join : List Bytes → Bytes
  pub read_file : Bytes → Option Bytes
  pub decode_config : Bytes → Option Config

pub data LoadError : Type 0 where
  read_failed : Bytes → LoadError
  parse_failed : Bytes → LoadError
  invalid : Bytes → ConfigError → LoadError

module _ (O : Os) where
  unfoldable pub load : Bytes → Result LoadError Config
  load path = elim (O.read_file path) [
    | none ↦ err (read_failed path)
    | some bytes ↦ elim (O.decode_config bytes) [
      | none ↦ err (parse_failed path)
      | some c ↦ elim (validate c) [ some e ↦ err (invalid path e) | none ↦ ok c ]
    ]
  ]

  unfoldable pub default_audit_db_path : Bytes
  default_audit_db_path =
      if is_nil O.xdg_data_home
      then (elim O.home_dir [
        | none ↦ O.join (O.temp_dir ∷ text "garmx" ∷ text "audit.db" ∷ [])
        | some home ↦
            O.join (home ∷ text ".local" ∷ text "share" ∷ text "garmx" ∷ text "audit.db" ∷ [])
      ])
      else O.join (O.xdg_data_home ∷ text "garmx" ∷ text "audit.db" ∷ [])

  unfoldable pub expand_home : Bytes → Bytes
  expand_home path =
      if equal path (text "~") || has_prefix path (text "~/")
      then (elim O.home_dir [ none ↦ path | some home ↦ O.join (home ∷ drop 1 path ∷ []) ])
      else path

  abbrev pub paths : Paths
  paths = record { default_audit_db_path = default_audit_db_path; expand_home = expand_home }

-- Go ranges over the map in no fixed order; here it is that of the list.
unfoldable pub env_slice : Server → List Bytes
env_slice s = map (λ (k, v). k ++ (b'=' ∷ v)) s.env
