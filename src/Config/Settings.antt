-- ===== src/Config/Settings.antt =====
-- The settings that `ResolveAudit` puts in force, and the profile that `FindProfile` finds.
use garmx.Prelude.{
  ℕ, zero, suc, ltb, ◌<◌, ◌≡◌, ◌≢◌, refl, sym, ap, ◌∙◌, subst, true, false, Option, none, some,
  List, [], ◌∷◌, inl, inr, ◌↔◌, map, In, Unique, is_nil, arith, if◌then◌else◌, Bool-cases, ok,
}
use garmx.Prelude.Bytes.{Bytes, equal, equal_iff}
use garmx.Config.{
  Profile, AuditConfig, AuditOverride, Config, ResolvedAudit, Paths, payload_modes, scopes,
  apply_file, apply_override, defaults, resolve_audit, find_in, find_profile, validate,
  payload_request_response, scope_calls, default_max_payload_bytes,
}
use garmx.Config.Valid.{IsAudit, validate_payload_iff, validate_scope_iff, validate_iff}

-- The first text that is not empty; the last one if all are.
abbrev pub first_set : List Bytes → Bytes → Bytes
first_set [] d = d
first_set (x ∷ xs) d = if is_nil x then first_set xs d else x

-- The file's value of a setting, empty for none.
abbrev pub in_file : (AuditConfig → Bytes) → Option AuditConfig → Bytes
in_file get none = []
in_file get (some a) = get a

-- The file's value of a setting that it may leave out, else the default.
abbrev pub from_file {ℓ} : {A : Type ℓ} → A → (AuditConfig → Option A) → Option AuditConfig → A
from_file d get none = d
from_file d get (some a) = elim (get a) [ none ↦ d | some v ↦ v ]

-- A size that is 0 is not set.
abbrev pub positive : ℕ → Option ℕ
positive zero = none
positive (suc n) = some (suc n)

-- One of the modes, and set.
abbrev pub IsMode : Bytes → List Bytes → Type 0
IsMode x modes = In x modes × (x ≢ [])

-- The settings in force, where the override wins over the file, and the file over the defaults.
pub record InForce (S : Paths) (file : Option AuditConfig) (ov : AuditOverride) (r : ResolvedAudit)
    : Type 0 where
  pub enabled : r.enabled ≡ (if ov.disable then false else from_file true (λ a. a.enabled) file)
  pub db_path :
      r.db_path
      ≡ S.expand_home
          (first_set (ov.db_path ∷ in_file (λ a. a.db_path) file ∷ []) S.default_audit_db_path)
  pub payload :
      r.payload
      ≡ first_set (ov.payload ∷ in_file (λ a. a.payload) file ∷ []) payload_request_response
  pub scope : r.scope ≡ first_set (ov.scope ∷ in_file (λ a. a.scope) file ∷ []) scope_calls
  pub payload_known : IsMode r.payload payload_modes
  pub scope_known : IsMode r.scope scopes
  pub max_payload_bytes :
      r.max_payload_bytes
      ≡ from_file default_max_payload_bytes (λ a. positive a.max_payload_bytes) file
  pub some_bytes : 0 < r.max_payload_bytes
  pub redact_keys : r.redact_keys ≡ from_file [] (λ a. some a.redact_keys) file

-- A layer that is known or not set leaves a known setting known.
layer :
    (modes : List Bytes) (x r : Bytes)
    → In x modes
    → IsMode r modes
    → IsMode (if is_nil x then r else x) modes
layer modes [] r m k = k
layer modes (b ∷ x) r m k = (m, λ e. cc)

payload_layers :
    (x y : Bytes)
    → In x payload_modes
    → In y payload_modes
    → IsMode (first_set (x ∷ y ∷ []) payload_request_response) payload_modes
payload_layers x y i j =
    layer payload_modes x (first_set (y ∷ []) payload_request_response) i
      (layer payload_modes y payload_request_response j (inr (inl refl), λ e. cc))

scope_layers :
    (x y : Bytes) → In x scopes → In y scopes → IsMode (first_set (x ∷ y ∷ []) scope_calls) scopes
scope_layers x y i j =
    layer scopes x (first_set (y ∷ []) scope_calls) i
      (layer scopes y scope_calls j (inr (inl refl), λ e. cc))

positive_or : (n d : ℕ) → (if ltb 0 n then n else d) ≡ (elim (positive n) [ none ↦ d | some v ↦ v ])
positive_or zero d = refl
positive_or (suc n) d = ground arith

module _ (S : Paths) where
  -- If the file's modes and the override's are known ones or not set, the settings can be resolved:
  -- the path, the payload mode and the scope are each the override's, else the file's, else the
  -- default; the audit is enabled if the override does not disable it and the file does not either;
  -- the size limit is the file's if that is above 0, else the default, and the keys to redact are the
  -- file's. The modes are set and known, and the size limit is above 0.
  pub resolve_audit-InForce :
      (file : Option AuditConfig) (ov : AuditOverride)
      → IsAudit file
      → In ov.payload payload_modes
      → In ov.scope scopes
      → (r : ResolvedAudit) × (resolve_audit S file ov ≡ ok r) × InForce S file ov r
  unfolding resolve_audit apply_file apply_override
  resolve_audit-InForce none ov h i j =
      let r = apply_override ov (apply_file none (defaults S)) in
      let p : IsMode r.payload payload_modes = payload_layers ov.payload [] i (inl refl) in
      let q : IsMode r.scope scopes = scope_layers ov.scope [] j (inl refl) in
      (
        record r { db_path = S.expand_home r.db_path },
        ground (arith, (validate_payload_iff r.payload).1 p.0, (validate_scope_iff r.scope).1 q.0),
        record {
          enabled = refl;
          db_path = refl;
          payload = refl;
          scope = refl;
          payload_known = p;
          scope_known = q;
          max_payload_bytes = refl;
          some_bytes = omega arith;
          redact_keys = refl;
        },
      )
  resolve_audit-InForce (some a) ov h i j =
      let r = apply_override ov (apply_file (some a) (defaults S)) in
      let p : IsMode r.payload payload_modes = payload_layers ov.payload a.payload i h.0 in
      let q : IsMode r.scope scopes = scope_layers ov.scope a.scope j h.1 in
      (
        record r { db_path = S.expand_home r.db_path },
        ground (arith, (validate_payload_iff r.payload).1 p.0, (validate_scope_iff r.scope).1 q.0),
        record {
          enabled = refl;
          db_path = refl;
          payload = refl;
          scope = refl;
          payload_known = p;
          scope_known = q;
          max_payload_bytes = positive_or a.max_payload_bytes default_max_payload_bytes;
          some_bytes = ground arith;
          redact_keys = refl;
        },
      )

In-map_name : (p : Profile) (ps : List Profile) → In p ps → In p.name (map (λ p. p.name) ps)
In-map_name p [] h = absurd h
In-map_name p (q ∷ ps) (inl e) = inl (ap (λ x. x.name) e)
In-map_name p (q ∷ ps) (inr h) = inr (In-map_name p ps h)

find_in_iff :
    (name : Bytes) (p : Profile) (ps : List Profile)
    → Unique (map (λ p. p.name) ps)
    → (find_in name ps ≡ some p) ↔ (In p ps × (p.name ≡ name))
unfolding find_in
find_in_iff name p [] u = ((λ h. ground arith), (λ h. absurd h.0))
find_in_iff name p (q ∷ ps) u = elim (Bool-cases (equal q.name name)) [
  | inl e ↦ (
    (λ h. ground (arith, equal_iff q.name name)),
    λ (m, n). elim m [
      | inl r ↦ ground arith
      | inr i ↦ absurd (
          u.0 (
            subst (λ x. In x (map (λ p. p.name) ps)) (n ∙ sym ((equal_iff q.name name).0 e))
              (In-map_name p ps i)))
    ],
  )
  | inr e ↦ (
    (λ h. let (m, n) = (find_in_iff name p ps u.1).0 (ground arith) in (inr m, n)),
    λ (m, n). elim m [
      | inl r ↦ ground (arith, (equal_iff q.name name).1 (ap (λ x. x.name) (sym r) ∙ n))
      | inr i ↦ ground (arith, (find_in_iff name p ps u.1).1 (i, n))
    ],
  )
]

-- In a configuration that was accepted, a profile is found under a name exactly if it is declared
-- there and has that name.
pub find_profile_iff :
    (c : Config) (name : Bytes) (p : Profile)
    → validate c ≡ none
    → (find_profile c name ≡ some p) ↔ (In p c.profiles × (p.name ≡ name))
unfolding find_profile
find_profile_iff c name p v = find_in_iff name p c.profiles ((validate_iff c).0 v).profile_names
