-- ===== src/Config.antt =====
-- internal/config/config.go: the declaration of servers, profiles and the audit, its validation, and
-- the audit settings that are in force. Reading the file and the paths of the operating system are
-- parameters.
pub mod Valid
pub mod Settings
pub mod Files
use garmx.Prelude.{
  ℕ, zero, suc, Bool, true, false, ◌&&◌, Option, none, some, List, [], ◌∷◌, is_nil, any,
  if◌then◌else◌, ltb, Result, ok, err,
}
use garmx.Prelude.Bytes.{Bytes, text, equal}

abbrev pub payload_request_response : Bytes
payload_request_response = text "request-response"

abbrev pub payload_request : Bytes
payload_request = text "request"

abbrev pub payload_metadata : Bytes
payload_metadata = text "metadata"

abbrev pub scope_calls : Bytes
scope_calls = text "calls"

abbrev pub scope_all : Bytes
scope_all = text "all"

abbrev pub default_max_payload_bytes : ℕ
default_max_payload_bytes = 16384

pub record Server : Type 0 where
  pub name : Bytes
  pub transport : Bytes
  pub command : Bytes
  pub args : List Bytes
  pub env : List (Bytes × Bytes)

pub record Profile : Type 0 where
  pub name : Bytes
  pub servers : List Bytes
  pub tool_allow : List Bytes
  pub tool_deny : List Bytes

-- `max_payload_bytes` is an `int` in the source; only whether it is above 0 counts, so a negative
-- one is 0 here.
pub record AuditConfig : Type 0 where
  pub enabled : Option Bool
  pub db_path : Bytes
  pub payload : Bytes
  pub scope : Bytes
  pub max_payload_bytes : ℕ
  pub redact_keys : List Bytes

pub record Config : Type 0 where
  pub servers : List Server
  pub profiles : List Profile
  pub audit : Option AuditConfig

pub record ResolvedAudit : Type 0 where
  pub enabled : Bool
  pub db_path : Bytes
  pub payload : Bytes
  pub scope : Bytes
  pub max_payload_bytes : ℕ
  pub redact_keys : List Bytes

pub record AuditOverride : Type 0 where
  pub db_path : Bytes
  pub payload : Bytes
  pub scope : Bytes
  pub disable : Bool

pub data ConfigError : Type 0 where
  missing_server_name : ConfigError
  duplicate_server_name : Bytes → ConfigError
  missing_command : Bytes → ConfigError
  unsupported_transport : Bytes → Bytes → ConfigError
  missing_profile_name : ConfigError
  duplicate_profile_name : Bytes → ConfigError
  bad_payload : Bytes → ConfigError
  bad_scope : Bytes → ConfigError

-- A mode that is set, or empty for one that is not.
abbrev pub payload_modes : List Bytes
payload_modes = [] ∷ payload_request_response ∷ payload_request ∷ payload_metadata ∷ []

abbrev pub scopes : List Bytes
scopes = [] ∷ scope_calls ∷ scope_all ∷ []

unfoldable pub validate_payload : Bytes → Option ConfigError
validate_payload p = if any (equal p) payload_modes then none else some (bad_payload p)

unfoldable pub validate_scope : Bytes → Option ConfigError
validate_scope s = if any (equal s) scopes then none else some (bad_scope s)

-- `none` for no error. `seen` are the names so far.
unfoldable pub validate_server : List Bytes → Server → Option ConfigError
validate_server seen s =
    let transport = if is_nil s.transport then text "stdio" else s.transport in
    if is_nil s.name
    then some missing_server_name
    else if any (equal s.name) seen
    then some (duplicate_server_name s.name)
    else if equal transport (text "stdio") && is_nil s.command
    then some (missing_command s.name)
    else if equal transport (text "stdio")
    then none
    else some (unsupported_transport s.name transport)

unfoldable pub validate_servers : List Bytes → List Server → Option ConfigError
validate_servers seen [] = none
validate_servers seen (s ∷ rest) = elim (validate_server seen s) [
  | some e ↦ some e
  | none ↦ validate_servers (s.name ∷ seen) rest
]

unfoldable pub validate_profile : List Bytes → Profile → Option ConfigError
validate_profile seen p =
    if is_nil p.name
    then some missing_profile_name
    else if any (equal p.name) seen
    then some (duplicate_profile_name p.name)
    else none

unfoldable pub validate_profiles : List Bytes → List Profile → Option ConfigError
validate_profiles seen [] = none
validate_profiles seen (p ∷ rest) = elim (validate_profile seen p) [
  | some e ↦ some e
  | none ↦ validate_profiles (p.name ∷ seen) rest
]

unfoldable pub validate_audit : Option AuditConfig → Option ConfigError
validate_audit none = none
validate_audit (some a) = elim (validate_payload a.payload) [
  | some e ↦ some e
  | none ↦ validate_scope a.scope
]

unfoldable pub validate : Config → Option ConfigError
validate c = elim (validate_servers [] c.servers) [
  | some e ↦ some e
  | none ↦ elim (validate_profiles [] c.profiles) [
    | some e ↦ some e
    | none ↦ validate_audit c.audit
  ]
]

unfoldable pub find_in : Bytes → List Profile → Option Profile
find_in name [] = none
find_in name (p ∷ rest) = if equal p.name name then some p else find_in name rest

unfoldable pub find_profile : Config → Bytes → Option Profile
find_profile c name = find_in name c.profiles

-- `if x != "" { r = x }`
abbrev pub set_to : Bytes → Bytes → Bytes
set_to x r = if is_nil x then r else x

-- The layer of the file over the defaults.
unfoldable pub apply_file : Option AuditConfig → ResolvedAudit → ResolvedAudit
apply_file none r = r
apply_file (some f) r = record {
  enabled = elim f.enabled [ none ↦ r.enabled | some b ↦ b ];
  db_path = set_to f.db_path r.db_path;
  payload = set_to f.payload r.payload;
  scope = set_to f.scope r.scope;
  max_payload_bytes =
      if ltb 0 f.max_payload_bytes then f.max_payload_bytes else r.max_payload_bytes;
  redact_keys = f.redact_keys;
}

unfoldable pub apply_override : AuditOverride → ResolvedAudit → ResolvedAudit
apply_override ov r = record r {
  enabled = if ov.disable then false else r.enabled;
  db_path = set_to ov.db_path r.db_path;
  payload = set_to ov.payload r.payload;
  scope = set_to ov.scope r.scope;
}

-- What the operating system gives: the default path, and the expansion of a leading `~`.
pub record Paths : Type 0 where
  pub default_audit_db_path : Bytes
  pub expand_home : Bytes → Bytes

module _ (S : Paths) where
  abbrev pub defaults : ResolvedAudit
  defaults = record {
    enabled = true;
    db_path = S.default_audit_db_path;
    payload = payload_request_response;
    scope = scope_calls;
    max_payload_bytes = default_max_payload_bytes;
    redact_keys = [];
  }

  unfoldable pub resolve_audit :
      Option AuditConfig → AuditOverride → Result ConfigError ResolvedAudit
  resolve_audit file ov =
      let r = apply_override ov (apply_file file defaults) in
      elim (validate_payload r.payload) [
        | some e ↦ err e
        | none ↦ elim (validate_scope r.scope) [
          | some e ↦ err e
          | none ↦ ok (record r { db_path = S.expand_home r.db_path })
        ]
      ]
