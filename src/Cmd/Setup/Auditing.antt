-- ===== src/Cmd/Setup/Auditing.antt =====
-- The audit of a run.
use garmx.Prelude.{
  ◌≡◌, refl, true, false, Option, none, some, [], ◌∷◌, In, arith, ◌⊎◌, inl, inr, Bool-cases, ok,
  ◌↔◌,
}
use garmx.Prelude.Bytes.{equal, equal_iff}
use garmx.Config.{
  Config, AuditConfig, AuditOverride, ResolvedAudit, payload_modes, scopes, scope_all, validate,
}
use garmx.Config.Files.{paths}
use garmx.Config.Valid.{IsAudit, validate_iff}
use garmx.Config.Settings.{InForce, resolve_audit-InForce}
use garmx.Aggregator.Core.{Environment, Aggregator}
use garmx.Aggregator.Setup.{set_audit}
use garmx.Cmd.Flags.{ServeConfig}
use garmx.Cmd.Setup.{Process, first_non_empty, new_session_id, audit_settings, attach_audit}

-- The file's audit block.
abbrev pub audit_of : Option Config → Option AuditConfig
audit_of conf = elim conf [ none ↦ none | some c ↦ c.audit ]

-- No file, or one that `Load` accepts.
abbrev pub IsLoaded : Option Config → Type 0
IsLoaded none = Unit
IsLoaded (some c) = validate c ≡ none

IsAudit-loaded : (conf : Option Config) → IsLoaded conf → IsAudit (audit_of conf)
IsAudit-loaded none h = tt
IsAudit-loaded (some c) h = ((validate_iff c).0 h).audit

module _ (N : Environment) (P : Process N) where
  abbrev pub override_of : ServeConfig → AuditOverride
  override_of cfg = record {
    db_path = first_non_empty (cfg.audit_db ∷ P.audit_db_variable ∷ []);
    payload = cfg.audit_payload;
    scope = cfg.audit_scope;
    disable = cfg.no_audit;
  }

  -- With a configuration that `Load` accepts, and flags with modes that are known or not given,
  -- attaching the audit never fails, and the settings are those of the flags over the environment's
  -- database over the file over the defaults. If these enable the audit and the database opens,
  -- events are recorded from now on, the upstreams and the profile staying as they are, under this run's session and for all methods exactly if the
  -- scope says so; otherwise the aggregator is as it was, and a database that does not open is no error.
  pub attach_audit_lem :
      (agg : Aggregator N) (cfg : ServeConfig) (conf : Option Config)
      → IsLoaded conf
      → In cfg.audit_payload payload_modes
      → In cfg.audit_scope scopes
      → (r : ResolvedAudit) × InForce (paths P.os) (audit_of conf) (override_of cfg) r
        × (((r.enabled ≡ true)
              × (P.opens r.db_path ≡ true)
              × ((a : Aggregator N) × (attach_audit N P agg cfg conf ≡ ok (a, true))
                  × (a.mgr ≡ agg.mgr)
                  × (a.profile ≡ agg.profile)
                  × (a.sink ≡ some [])
                  × (a.session_id ≡ new_session_id P.random)
                  × ((a.audit_all ≡ true) ↔ (r.scope ≡ scope_all))))
            ⊎ (((r.enabled ≡ false) ⊎ (P.opens r.db_path ≡ false))
                × (attach_audit N P agg cfg conf ≡ ok (agg, false))))
  unfolding attach_audit audit_settings set_audit
  attach_audit_lem agg cfg conf loaded payload scope =
      let (r, e, f) =
        resolve_audit-InForce (paths P.os) (audit_of conf) (override_of cfg)
          (IsAudit-loaded conf loaded) payload scope in
      (
        r,
        f,
        elim (Bool-cases r.enabled) [
          | inr off ↦ inr (inl off, ground (arith, e, off))
          | inl on ↦ elim (Bool-cases (P.opens r.db_path)) [
            | inr shut ↦ inr (inr shut, ground (arith, e, on, shut))
            | inl opened ↦ inl (
              on,
              opened,
              (
                set_audit N (some []) (new_session_id P.random) (equal r.scope scope_all) agg,
                ground (arith, e, on, opened),
                refl,
                refl,
                refl,
                refl,
                equal_iff r.scope scope_all,
              ),
            )
          ]
        ],
      )
