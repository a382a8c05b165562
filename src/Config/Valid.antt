-- ===== src/Config/Valid.antt =====
-- What `validate` accepts.
use garmx.Prelude.{
  ◌≡◌, ◌≢◌, refl, sym, subst, true, false, Option, none, some, List, [], ◌∷◌, ◌⊎◌, inl, inr, ◌↔◌,
  map, In, Unique, All, any, is_nil, arith, Bool-cases, Option-cases, any-true, true-any,
}
use garmx.Prelude.Bytes.{Bytes, text, equal, equal_iff}
use garmx.Config.{
  Server, Profile, AuditConfig, Config, payload_modes, scopes, validate_payload, validate_scope,
  validate_server, validate_servers, validate_profile, validate_profiles, validate_audit, validate,
}

any-equal_iff : (x : Bytes) (xs : List Bytes) → (any (equal x) xs ≡ true) ↔ In x xs
any-equal_iff x xs = (
  λ h.
      let (y, m, e) = any-true (equal x) xs h in subst (λ z. In z xs) (sym ((equal_iff x y).0 e)) m,
  λ m. true-any (equal x) x xs m ((equal_iff x x).1 refl),
)

-- A server can be started: it has a name and a command, and its transport is `stdio`, be it by default.
pub record IsServer (s : Server) : Type 0 where
  pub has_name : s.name ≢ []
  pub stdio : (s.transport ≡ []) ⊎ (s.transport ≡ text "stdio")
  pub has_command : s.command ≢ []

-- The audit modes are known ones, or not set.
abbrev pub IsAudit : Option AuditConfig → Type 0
IsAudit none = Unit
IsAudit (some a) = In a.payload payload_modes × In a.scope scopes

pub record IsValid (c : Config) : Type 0 where
  pub servers : All IsServer c.servers
  pub server_names : Unique (map (λ s. s.name) c.servers)
  pub profiles : All (λ p. p.name ≢ []) c.profiles
  pub profile_names : Unique (map (λ p. p.name) c.profiles)
  pub audit : IsAudit c.audit

-- None of `seen` is among `ns`.
abbrev Apart : List Bytes → List Bytes → Type 0
Apart seen ns = (n : Bytes) → In n seen → In n ns → ⊥

is_nil_nil : (xs : Bytes) → is_nil xs ≡ true → xs ≡ []
is_nil_nil [] h = refl
is_nil_nil (x ∷ xs) h = ground arith

not_nil : (xs : Bytes) → xs ≢ [] → is_nil xs ≡ false
not_nil [] h = absurd (h refl)
not_nil (x ∷ xs) h = refl

not_seen : (x : Bytes) (xs : List Bytes) → (In x xs → ⊥) → any (equal x) xs ≡ false
not_seen x xs h = elim (Bool-cases (any (equal x) xs)) [
  | inl e ↦ absurd (h ((any-equal_iff x xs).0 e))
  | inr e ↦ e
]

validate_server_iff :
    (seen : List Bytes) (s : Server)
    → (validate_server seen s ≡ none) ↔ (IsServer s × (In s.name seen → ⊥))
unfolding validate_server
validate_server_iff seen s = (
  λ h. (
    record {
      has_name = λ e. ground arith;
      stdio = elim (Bool-cases (is_nil s.transport)) [
        | inl e ↦ inl (is_nil_nil s.transport e)
        | inr e ↦ inr ((equal_iff s.transport (text "stdio")).0 (ground arith))
      ];
      has_command = λ e. ground arith;
    },
    λ m. ground (arith, (any-equal_iff s.name seen).1 m),
  ),
  λ (v, f). elim v.stdio [
    | inl e ↦ ground (
      arith,
      e,
      equal_iff (text "stdio") (text "stdio"),
      not_nil s.name v.has_name,
      not_nil s.command v.has_command,
      not_seen s.name seen f,
    )
    | inr e ↦ ground (
      arith,
      e,
      equal_iff (text "stdio") (text "stdio"),
      not_nil s.name v.has_name,
      not_nil s.command v.has_command,
      not_seen s.name seen f,
    )
  ],
)

validate_profile_iff :
    (seen : List Bytes) (p : Profile)
    → (validate_profile seen p ≡ none) ↔ ((p.name ≢ []) × (In p.name seen → ⊥))
unfolding validate_profile
validate_profile_iff seen p = (
  λ h. ((λ e. ground arith), (λ m. ground (arith, (any-equal_iff p.name seen).1 m))),
  λ (v, f). ground (arith, not_nil p.name v, not_seen p.name seen f),
)

-- One more name before the others.
Apart-step :
    (n : Bytes) (seen ns : List Bytes)
    → (In n seen → ⊥)
    → Unique ns
    → Apart (n ∷ seen) ns
    → Unique (n ∷ ns) × Apart seen (n ∷ ns)
Apart-step n seen ns f u a = (
  ((λ m. a n (inl refl) m), u),
  λ x i j. elim j [ inl e ↦ f (subst (λ z. In z seen) e i) | inr m ↦ a x (inr i) m ],
)

Apart-back :
    (n : Bytes) (seen ns : List Bytes)
    → Unique (n ∷ ns)
    → Apart seen (n ∷ ns)
    → (In n seen → ⊥) × Unique ns × Apart (n ∷ seen) ns
Apart-back n seen ns u a = (
  (λ i. a n i (inl refl)),
  u.1,
  λ x i j. elim i [ inl e ↦ u.0 (subst (λ z. In z ns) e j) | inr m ↦ a x m (inr j) ],
)

validate_servers_iff :
    (seen : List Bytes) (ss : List Server)
    → (validate_servers seen ss ≡ none)
      ↔ (All IsServer ss × Unique (map (λ s. s.name) ss) × Apart seen (map (λ s. s.name) ss))
unfolding validate_servers
validate_servers_iff seen [] = ((λ h. (tt, tt, λ n i j. j)), (λ h. refl))
validate_servers_iff seen (s ∷ ss) = (
  λ h. elim (Option-cases (validate_server seen s)) [
    | inl e ↦
        let (v, f) = (validate_server_iff seen s).0 e in
        let (vs, u, a) = (validate_servers_iff (s.name ∷ seen) ss).0 (ground arith) in
        let (u2, a2) = Apart-step s.name seen (map (λ s. s.name) ss) f u a in ((v, vs), u2, a2)
    | inr (e, q) ↦ ground arith
  ],
  λ ((v, vs), u, a).
      let (f, u2, a2) = Apart-back s.name seen (map (λ s. s.name) ss) u a in
      ground (
        arith,
        (validate_server_iff seen s).1 (v, f),
        (validate_servers_iff (s.name ∷ seen) ss).1 (vs, u2, a2),
      ),
)

validate_profiles_iff :
    (seen : List Bytes) (ps : List Profile)
    → (validate_profiles seen ps ≡ none) ↔ (
        All (λ p. p.name ≢ []) ps
        × Unique (map (λ p. p.name) ps)
        × Apart seen (map (λ p. p.name) ps))
unfolding validate_profiles
validate_profiles_iff seen [] = ((λ h. (tt, tt, λ n i j. j)), (λ h. refl))
validate_profiles_iff seen (p ∷ ps) = (
  λ h. elim (Option-cases (validate_profile seen p)) [
    | inl e ↦
        let (v, f) = (validate_profile_iff seen p).0 e in
        let (vs, u, a) = (validate_profiles_iff (p.name ∷ seen) ps).0 (ground arith) in
        let (u2, a2) = Apart-step p.name seen (map (λ p. p.name) ps) f u a in ((v, vs), u2, a2)
    | inr (e, q) ↦ ground arith
  ],
  λ ((v, vs), u, a).
      let (f, u2, a2) = Apart-back p.name seen (map (λ p. p.name) ps) u a in
      ground (
        arith,
        (validate_profile_iff seen p).1 (v, f),
        (validate_profiles_iff (p.name ∷ seen) ps).1 (vs, u2, a2),
      ),
)

pub validate_payload_iff : (p : Bytes) → (validate_payload p ≡ none) ↔ In p payload_modes
unfolding validate_payload
validate_payload_iff p = (
  λ h. (any-equal_iff p payload_modes).0 (ground arith),
  λ m. ground (arith, (any-equal_iff p payload_modes).1 m),
)

pub validate_scope_iff : (s : Bytes) → (validate_scope s ≡ none) ↔ In s scopes
unfolding validate_scope
validate_scope_iff s = (
  λ h. (any-equal_iff s scopes).0 (ground arith),
  λ m. ground (arith, (any-equal_iff s scopes).1 m),
)

validate_audit_iff : (a : Option AuditConfig) → (validate_audit a ≡ none) ↔ IsAudit a
unfolding validate_audit
validate_audit_iff none = ((λ h. tt), (λ h. refl))
validate_audit_iff (some a) = (
  λ h. elim (Option-cases (validate_payload a.payload)) [
    | inl e ↦ ((validate_payload_iff a.payload).0 e, (validate_scope_iff a.scope).0 (ground arith))
    | inr (x, e) ↦ ground arith
  ],
  λ (p, s). ground (arith, (validate_payload_iff a.payload).1 p, (validate_scope_iff a.scope).1 s),
)

-- A configuration is accepted exactly if it is valid: every server has a name, a command and the
-- transport `stdio`, every profile has a name, no two servers and no two profiles share one, and the
-- audit's modes are known ones or not set.
pub validate_iff : (c : Config) → (validate c ≡ none) ↔ IsValid c
unfolding validate
validate_iff c = (forth, back)
  where
    forth : validate c ≡ none → IsValid c
    forth h = elim (Option-cases (validate_servers [] c.servers)) [
      | inr (x, e) ↦ ground arith
      | inl e ↦ elim (Option-cases (validate_profiles [] c.profiles)) [
        | inr (x, q) ↦ ground arith
        | inl q ↦
            let (vs, u, _) = (validate_servers_iff [] c.servers).0 e in
            let (ps, w, _) = (validate_profiles_iff [] c.profiles).0 q in
            record {
              servers = vs;
              server_names = u;
              profiles = ps;
              profile_names = w;
              audit = (validate_audit_iff c.audit).0 (ground arith);
            }
      ]
    ]

    back : IsValid c → validate c ≡ none
    back v = ground (
      arith,
      (validate_servers_iff [] c.servers).1 (v.servers, v.server_names, λ n i j. i),
      (validate_profiles_iff [] c.profiles).1 (v.profiles, v.profile_names, λ n i j. i),
      (validate_audit_iff c.audit).1 v.audit,
    )
