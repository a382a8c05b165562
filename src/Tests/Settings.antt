-- ===== src/Tests/Settings.antt =====
-- A configuration with one server and one profile.
use garmx.Prelude.{◌≡◌, refl, true, none, some, [], ◌∷◌, inl, inr, ◌↔◌, ok}
use garmx.Prelude.Bytes.{text}
use garmx.Config.{
  Server, Profile, AuditConfig, AuditOverride, Config, ResolvedAudit, Paths, payload_request,
  scope_all, validate, resolve_audit,
}
use garmx.Config.Valid.{IsValid, validate_iff}
use garmx.Config.Settings.{InForce, resolve_audit-InForce}

abbrev files_server : Server
files_server = record {
  name = text "files";
  transport = [];
  command = text "mcp-files";
  args = [];
  env = [];
}

abbrev reader : Profile
reader = record {
  name = text "reader";
  servers = text "files" ∷ [];
  tool_allow = [];
  tool_deny = [];
}

abbrev file_audit : AuditConfig
file_audit = record {
  enabled = some true;
  db_path = [];
  payload = payload_request;
  scope = [];
  max_payload_bytes = 0;
  redact_keys = [];
}

abbrev configured : Config
configured = record { servers = files_server ∷ []; profiles = reader ∷ []; audit = some file_audit }

abbrev flags : AuditOverride
flags = record { db_path = []; payload = []; scope = scope_all; disable = true }

abbrev home : Paths
home = record { default_audit_db_path = text "~/audit.db"; expand_home = λ p. p }

validate_iff_example : (validate configured ≡ none) ↔ IsValid configured
validate_iff_example = validate_iff configured

resolve_audit-InForce_example :
    (r : ResolvedAudit) × (resolve_audit home (some file_audit) flags ≡ ok r)
    × InForce home (some file_audit) flags r
resolve_audit-InForce_example =
    resolve_audit-InForce home (some file_audit) flags (inr (inr (inl refl)), inl refl) (inl refl)
      (inr (inr (inl refl)))
